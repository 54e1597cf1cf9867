-- ===== src/Messages/Deduplication.antt =====
-- What passes `DistinctMessages` of waha-plus/src/core/utils/reactive.ts between two flushes.
use aira_relay.Base.{
  Bool, true, false, some, get_or, List, [], ◌∷◌, ◌++◌, Text, has, contains, ◌≡◌, refl, ap, ◌∙◌,
  arith,
}
use mathlib.Core.Option
use aira_relay.Jids.{WaMessageKey}
use aira_relay.Messages.{
  bool_text, parse_message_id_serialized, Message, Tick, message, distinct_key, distinct_messages,
}
use aira_relay.Messages.RoundTrip.{parse_three}

abbrev pub key_text : Message → Text
key_text m = get_or (distinct_key m) []

pub distinct_messages_seen :
    (seen : List Text) (m : Message) (ticks : List Tick) (k : Text)
    → distinct_key m ≡ some k
    → contains seen k ≡ true
    → distinct_messages seen (message m ∷ ticks) ≡ distinct_messages seen ticks
unfolding distinct_messages
distinct_messages_seen seen m ticks k e s = rw (e, s, distinct_messages) refl

pub distinct_messages_new :
    (seen : List Text) (m : Message) (ticks : List Tick) (k : Text)
    → distinct_key m ≡ some k
    → contains seen k ≡ false
    → distinct_messages seen (message m ∷ ticks) ≡ m ∷ distinct_messages (k ∷ seen) ticks
unfolding distinct_messages
distinct_messages_new seen m ticks k e s = rw (e, s, distinct_messages) refl

pub has_sep : (p s : Text) → has b'_' (p ++ (b'_' ∷ s)) ≡ true
unfolding has
has_sep [] s = refl
has_sep (c ∷ p) s = ground (arith, has_sep p s)

-- An id with an underscore is parsed the same way, soft or not.
pub soft_parse :
    (s : Text)
    → has b'_' s ≡ true
    → parse_message_id_serialized true s ≡ parse_message_id_serialized false s
unfolding parse_message_id_serialized
soft_parse s h = ground arith

-- A message that comes twice, in two chats, as it does when the engine names the chat once by its LID
-- and once by its number, has the same key both times, its id and its flag, when no underscore is in
-- the chats or in the id.
pub distinct_key_chat :
    (b : Bool) (chat other id : Text)
    → has b'_' chat ≡ false
    → has b'_' other ≡ false
    → has b'_' id ≡ false
    → let key = some (bool_text b ++ (b'_' ∷ id)) in
      let serialized : Text → Text = λ c. bool_text b ++ (b'_' ∷ (c ++ (b'_' ∷ id))) in
      (distinct_key (record { id = serialized chat; from_me = b }) ≡ key)
      × (distinct_key (record { id = serialized other; from_me = b }) ≡ key)
unfolding distinct_key
distinct_key_chat b chat other id h k l = (keyed chat h, keyed other k)
  where
    keyed :
        (c : Text)
        → has b'_' c ≡ false
        → distinct_key (record { id = bool_text b ++ (b'_' ∷ (c ++ (b'_' ∷ id))); from_me = b })
          ≡ some (bool_text b ++ (b'_' ∷ id))
    keyed c g =
        let parsed = parse_three b c id g l in
        let sep = has_sep (bool_text b) (c ++ (b'_' ∷ id)) in
        ap (Option.map (λ (k : WaMessageKey). bool_text b ++ (b'_' ∷ k.id)))
          (soft_parse (bool_text b ++ (b'_' ∷ (c ++ (b'_' ∷ id)))) sep ∙ parsed)
