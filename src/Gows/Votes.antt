-- ===== src/Gows/Votes.antt =====
-- Votes on polls: `fixPollCreationKey` and `toPollVotePayload` of
-- waha-plus/src/core/engines/gows/session.gows.core.ts.
use aira_relay.Base.{
  ℕ, Bool, true, false, ◌||◌, if◌then◌else◌, Option, none, some, List, Text, text_eq,
}
use aira_relay.Jids.{WaMessageKey, to_cus_format}
use aira_relay.Session.{MeInfo}
use aira_relay.Messages.{is_set, MessageDestination, get_destination}
use aira_relay.Gows.{MessageIdData, RawKey, cus, get_from_to_participant, message_id_of}

-- `proto.IMessageKey`, with the fields that a poll's key has.
abbrev pub poll_key : Text → Option Text → Option Bool → Option Text → WaMessageKey
poll_key id remote_jid from_me participant = record {
  id = id;
  from_me = from_me;
  remote_jid = remote_jid;
  remote_jid_alt = none;
  participant = participant;
  participant_alt = none;
}

-- `==` of two strings that may be missing.
unfoldable pub same_text : Option Text → Option Text → Bool
same_text none none = true
same_text none (some t) = false
same_text (some s) none = false
same_text (some s) (some t) = text_eq s t

-- One of the two ids of an account.
abbrev pub is_own : MeInfo → Option Text → Bool
is_own me jid = same_text (cus jid) (cus me.id) || same_text (cus jid) (cus me.lid)

abbrev pub fix_for : MeInfo → (vote poll : WaMessageKey) → WaMessageKey
fix_for me vote poll =
    if is_own me poll.remote_jid
    then poll_key poll.id vote.remote_jid (some true) none
    else if is_own me poll.participant
    then poll_key poll.id vote.remote_jid (some true) me.id
    else poll

unfoldable pub fix_poll_creation_key : (vote poll : WaMessageKey) → Option MeInfo → WaMessageKey
unfolding same_text
fix_poll_creation_key vote poll none = poll
fix_poll_creation_key vote poll (some me) =
    if is_set vote.from_me then poll else fix_for me vote poll

-- The event of a vote. `is_group` and `is_from_me` are fields of the event itself, which the source reads
-- beside those of its info.
pub record PollVoteEvent : Type 0 where
  pub info : MessageIdData
  pub is_group : Option Bool
  pub is_from_me : Option Bool
  pub creation_key : RawKey
  pub votes : Option (List Text)
  pub sender_timestamp : ℕ

pub record PollVote : Type 0 where
  pub id : Text
  pub from : Text
  pub from_me : Bool
  pub to : Option Text
  pub participant : Option Text
  pub selected_options : Option (List Text)
  pub timestamp : ℕ

pub record PollVotePayload : Type 0 where
  pub poll : MessageDestination
  pub vote : PollVote

unfoldable pub vote_key : PollVoteEvent → WaMessageKey
vote_key event =
    poll_key event.info.id (some event.info.chat) event.is_from_me
      (if is_set event.is_group then event.info.sender else none)

unfoldable pub to_poll_vote_payload : Option MeInfo → PollVoteEvent → PollVotePayload
unfolding fix_poll_creation_key vote_key get_from_to_participant message_id_of get_destination
to_poll_vote_payload me event =
    let raw = event.creation_key in
    let poll = poll_key raw.id (some raw.remote_jid) (some raw.from_me) raw.participant in
    let ends = get_from_to_participant event.info in
    record {
      poll = get_destination (fix_poll_creation_key (vote_key event) poll me) none;
      vote = record {
        id = message_id_of event.info;
        from = to_cus_format ends.from;
        from_me = event.info.is_from_me;
        to = cus ends.to;
        participant = cus ends.participant;
        selected_options = event.votes;
        timestamp = event.sender_timestamp;
      };
    }
