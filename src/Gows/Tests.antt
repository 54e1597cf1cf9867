-- ===== src/Gows/Tests.antt =====
-- Runs on messages, receipts and votes, and instances of the theorems.
use aira_relay.Base.{
  Bool, true, false, none, some, [], ◌∷◌, map, All, Text, codes, has, text_eq, ends_with, split,
  first_part, ◌≡◌, refl,
}
use aira_relay.Jids.{
  to_jid, to_cus_format, is_jid_group, is_jid_broadcast, is_lid_user, is_jid_newsletter,
  ensure_suffix,
}
use aira_relay.Session.{MeInfo}
use aira_relay.Messages.{part_jid, parse_message_id_serialized}
use aira_relay.Messages.RoundTrip.{key_of}
use aira_relay.Gows.{
  MessageIdData, message_id_of, message_id_from_key, read, Receipt, receipt_ack, receipt_message,
  receipt_to_message_ack, message_id_from_serialized,
}
use aira_relay.Gows.Votes.{same_text, PollVoteEvent, to_poll_vote_payload}
use aira_relay.Gows.Ids.{direct, grouped, parse-message_id_of}
use aira_relay.Gows.Acks.{IsAbout, IsAck, with_id, receipt_to_message_ack_lem}
use aira_relay.Gows.Repeats.{first_ones}
use aira_relay.Gows.Polls.{to_poll_vote_payload_mine}

computing : Unit {0}
unfolding has text_eq ends_with first_part to_cus_format is_jid_group is_jid_broadcast is_lid_user
    is_jid_newsletter ensure_suffix
computing = tt

abbrev number : Text
number = codes "4917@s.whatsapp.net"

abbrev mine : Text
mine = codes "4930@s.whatsapp.net"

abbrev group : Text
group = codes "55@g.us"

abbrev me : MeInfo
me = record { id = some (codes "4930@c.us"); push_name = none; lid = none; jid = some mine }

parse-message_id_of_example :
    (parse_message_id_serialized false
        (message_id_of (direct true group (some number) (codes "A1")))
      ≡ some (key_of true (to_jid (to_cus_format group)) (codes "A1") none))
    × (parse_message_id_serialized false
          (message_id_of (grouped true group (some number) (codes "A1")))
        ≡ some (
            key_of true
              (to_jid (to_cus_format group))
              (codes "A1")
              (part_jid (to_cus_format number))))
unfolding computing
parse-message_id_of_example =
    parse-message_id_of true group (codes "A1") b'4' (codes "917@s.whatsapp.net") refl refl refl

message_id_from_key_run :
    message_id_from_key
      (some me)
      (record { remote_jid = number; from_me = true; id = codes "A1"; participant = none })
    ≡ some (codes "true_4917@c.us_A1")
unfolding computing message_id_from_key message_id_of
message_id_from_key_run = refl

message_id_from_serialized_run :
    message_id_from_serialized (codes "true_4917@c.us_A1") ≡ some (some (codes "A1"))
unfolding computing message_id_from_serialized parse_message_id_serialized split
message_id_from_serialized_run = refl

-- The other side of a chat read two messages of mine.
abbrev read_receipt : Receipt
read_receipt = record {
  type = codes "read";
  chat = number;
  sender = some number;
  is_from_me = false;
  is_group = false;
  message_ids = codes "A1" ∷ codes "A2" ∷ [];
  message_sender = some [];
}

abbrev sent : MessageIdData
sent = record {
  chat = number;
  sender = some (codes "4930:3@s.whatsapp.net");
  id = codes "A1";
  is_from_me = true;
  is_group = false;
}

sent-IsAbout : IsAbout (some me) read_receipt sent
unfolding computing receipt_message
sent-IsAbout = record { chat = refl; is_group = refl; is_from_me = refl; sender = refl }

receipt_to_message_ack_lem_example :
    (map (λ a. a.id) (receipt_to_message_ack (some me) read_receipt)
      ≡ map (λ i. message_id_of (with_id sent i)) read_receipt.message_ids)
    × All (IsAck read sent.is_from_me) (receipt_to_message_ack (some me) read_receipt)
unfolding computing receipt_ack
receipt_to_message_ack_lem_example =
    receipt_to_message_ack_lem (some me) read_receipt sent read refl sent-IsAbout

-- The other side votes on a poll, whose key has my id.
abbrev vote_on : Bool → PollVoteEvent
vote_on b = record {
  info = record {
    chat = number;
    sender = some number;
    id = codes "V1";
    is_from_me = false;
    is_group = false;
  };
  is_group = none;
  is_from_me = none;
  creation_key = record { remote_jid = mine; from_me = b; id = codes "P1"; participant = none };
  votes = some (codes "yes" ∷ []);
  sender_timestamp = 1;
}

to_poll_vote_payload_mine_example :
    (to_poll_vote_payload (some me) (vote_on false)).poll.id
    ≡ message_id_of (record {
      chat = number;
      sender = me.id;
      id = codes "P1";
      is_from_me = true;
      is_group = false;
    })
unfolding computing same_text
to_poll_vote_payload_mine_example =
    to_poll_vote_payload_mine me (vote_on false) b'4' (codes "930@c.us") refl refl refl

-- One message that comes by the LID of its chat and by the number.
abbrev by_lid : MessageIdData
by_lid = record {
  chat = codes "77@lid";
  sender = some number;
  id = codes "A1";
  is_from_me = false;
  is_group = false;
}

abbrev by_number : MessageIdData
by_number = record by_lid { chat = number }

first_ones_run : first_ones [] (by_lid ∷ by_number ∷ []) ≡ by_lid ∷ []
unfolding first_ones text_eq
first_ones_run = refl
