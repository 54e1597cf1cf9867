-- ===== src/Messages/Tests.antt =====
-- Instances of the theorems on message ids.
use aira_relay.Base.{
  Bool, true, false, none, some, List, [], ◌∷◌, map, Text, codes, has, text_eq, ends_with, split,
  ◌≡◌, refl,
}
use aira_relay.Jids.{
  to_jid, to_cus_format, is_jid_group, is_jid_broadcast, is_lid_user, is_jid_newsletter,
  ensure_suffix,
}
use aira_relay.Base.{first_part}
use aira_relay.Messages.{
  part_jid, parse_message_id_serialized, build_message_id, SendSeenRequest, Message, distinct_key,
}
use aira_relay.Messages.RoundTrip.{key_of, parse-build}
use aira_relay.Messages.Deduplication.{key_text}

computing : Unit {0}
unfolding has text_eq ends_with first_part to_cus_format is_jid_group is_jid_broadcast is_lid_user
    is_jid_newsletter ensure_suffix
computing = tt

abbrev number : Text
number = codes "4917"

abbrev chat : Text
chat = codes "4917@s.whatsapp.net"

abbrev group : Text
group = codes "55@g.us"

parse-build_example :
    (parse_message_id_serialized false (build_message_id (key_of true group (codes "A1") none))
      ≡ some (key_of true (to_jid (to_cus_format group)) (codes "A1") none))
    × (parse_message_id_serialized false
          (build_message_id (key_of true group (codes "A1") (some chat)))
        ≡ some (
            key_of true
              (to_jid (to_cus_format group))
              (codes "A1")
              (part_jid (to_cus_format chat))))
unfolding computing
parse-build_example =
    parse-build true group (codes "A1") b'4' (codes "917@s.whatsapp.net") refl refl refl

abbrev seen_request : SendSeenRequest
seen_request = record { chat_id = chat; message_id = none; message_ids = none; participant = none }

abbrev two_messages : List (Bool × Text × Text)
two_messages = (true, chat, codes "A1") ∷ (false, chat, codes "A2") ∷ []

abbrev repeated : List Message
repeated =
    record { id = codes "false_1@lid_A"; from_me = false }
    ∷ record { id = codes "false_2@c.us_A"; from_me = false }
    ∷ []

repeated_run : map key_text repeated ≡ codes "false_A" ∷ codes "false_A" ∷ []
unfolding distinct_key parse_message_id_serialized has split
repeated_run = refl
