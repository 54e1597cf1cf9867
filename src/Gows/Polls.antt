-- ===== src/Gows/Polls.antt =====
-- Votes on polls: which poll a vote is said to be about.
use aira_relay.Base.{
  ℕ, true, false, not, none, some, ◌∷◌, Text, ◌≡◌, refl, sym, ◌∙◌, arith, inl, inr, Bool-cases,
  ◌||◌,
}
use aira_relay.Session.{MeInfo}
use aira_relay.Messages.{is_set, get_destination, build_message_id}
use aira_relay.Messages.RoundTrip.{key_of}
use aira_relay.Gows.{message_id_of}
use aira_relay.Gows.Votes.{
  is_own, fix_poll_creation_key, vote_key, PollVoteEvent, to_poll_vote_payload,
}
use aira_relay.Gows.Ids.{message_id_of-direct, message_id_of-grouped}

fixed_direct :
    (me : MeInfo) (event : PollVoteEvent)
    → is_set event.is_from_me ≡ false
    → is_own me (some event.creation_key.remote_jid) ≡ true
    → (to_poll_vote_payload (some me) event).poll.id
      ≡ build_message_id (key_of true event.info.chat event.creation_key.id none)
unfolding to_poll_vote_payload fix_poll_creation_key vote_key get_destination
fixed_direct me event h k = rw (h, k) refl

fixed_group :
    (me : MeInfo) (event : PollVoteEvent)
    → is_set event.is_from_me ≡ false
    → is_own me (some event.creation_key.remote_jid) ≡ false
    → is_own me event.creation_key.participant ≡ true
    → (to_poll_vote_payload (some me) event).poll.id
      ≡ build_message_id (key_of true event.info.chat event.creation_key.id me.id)
unfolding to_poll_vote_payload fix_poll_creation_key vote_key get_destination
fixed_group me event h k l = rw (h, k, l) refl

-- A vote that is not marked as mine, on a poll whose key has an id of mine, is about the message of mine
-- with that id in the chat of the vote: the poll's id is the one that the API gave to it. Where the key
-- has an id of mine as its participant only, it is the id of a message in that group whose sender is the
-- account's main id, which the session knows.
pub to_poll_vote_payload_mine :
    (me : MeInfo) (event : PollVoteEvent) (c : ℕ) (p : Text)
    → is_set event.is_from_me ≡ false
    → (is_own me (some event.creation_key.remote_jid) || is_own me event.creation_key.participant)
      ≡ true
    → me.id ≡ some (c ∷ p)
    → (to_poll_vote_payload (some me) event).poll.id
      ≡ message_id_of (record {
        chat = event.info.chat;
        sender = me.id;
        id = event.creation_key.id;
        is_from_me = true;
        is_group = not (is_own me (some event.creation_key.remote_jid));
      })
to_poll_vote_payload_mine me event c p h k e =
    elim (Bool-cases (is_own me (some event.creation_key.remote_jid))) [
      | inl o ↦
          fixed_direct me event h o
          ∙ (sym (message_id_of-direct true event.info.chat me.id event.creation_key.id)
              ∙ rw (o) refl)
      | inr o ↦
          fixed_group me event h o (ground (arith, k, o))
          ∙ rw (o, e) (sym (message_id_of-grouped true event.info.chat c p event.creation_key.id))
    ]
