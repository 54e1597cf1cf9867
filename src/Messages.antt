-- ===== src/Messages.antt =====
-- Message ids and keys: waha-plus/src/core/utils/ids.ts, `buildMessageId` and `getDestination` of
-- core/utils/messages.ts, core/utils/convertors.ts and `DistinctMessages` of core/utils/reactive.ts.
pub mod RoundTrip
pub mod Reading
pub mod Deduplication
pub mod Tests
use aira_relay.Base.{
  ℕ, ◌+◌, ◌-◌, ◌*◌, ◌/◌, Bool, true, false, not, ◌&&◌, ◌||◌, ltb, ◌==◌, if◌then◌else◌, Option, none,
  some, get_or, is_some, List, [], ◌∷◌, ◌++◌, map, Text, codes, text_eq, has, split, join, contains,
}
use mathlib.Core.Option
use aira_relay.Jids.{WaMessageKey, to_jid, to_cus_format, is_jid_group}

-- A value that JavaScript takes for true: a string, a flag, a number.
abbrev pub is_filled : Option Text → Bool
is_filled none = false
is_filled (some []) = false
is_filled (some (_ ∷ _)) = true

abbrev pub is_set : Option Bool → Bool
is_set none = false
is_set (some b) = b

abbrev pub is_positive : Option ℕ → Bool
is_positive none = false
is_positive (some n) = ltb 0 n

abbrev pub bool_text : Bool → Text
bool_text true = codes "true"
bool_text false = codes "false"

-- The participant of a serialized id, if there is one.
abbrev pub part_jid : Text → Option Text
part_jid [] = none
part_jid (c ∷ s) = some (to_jid (c ∷ s))

abbrev pub parsed_key : Text → Text → Text → Option Text → WaMessageKey
parsed_key from_me chat_id id participant = record {
  id = id;
  from_me = some (text_eq from_me (codes "true"));
  remote_jid = some (to_jid chat_id);
  remote_jid_alt = none;
  participant = participant;
  participant_alt = none;
}

abbrev pub from_parts : List Text → Option WaMessageKey
from_parts (p ∷ q ∷ r ∷ []) = some (parsed_key p q r none)
from_parts (p ∷ q ∷ r ∷ s ∷ []) = some (parsed_key p q r (part_jid s))
from_parts _ = none

abbrev pub bare_key : Text → WaMessageKey
bare_key id = record {
  id = id;
  from_me = none;
  remote_jid = none;
  remote_jid_alt = none;
  participant = none;
  participant_alt = none;
}

-- `none` where the source throws.
unfoldable pub parse_message_id_serialized : (soft : Bool) → Text → Option WaMessageKey
parse_message_id_serialized soft message_id =
    if not (has b'_' message_id) && soft
    then some (bare_key message_id)
    else from_parts (split b'_' message_id)

-- A template literal with a missing value.
abbrev pub shown : Option Text → Text
shown none = codes "undefined"
shown (some s) = s

unfoldable pub serialize_message_key : WaMessageKey → Text
serialize_message_key key =
    let participant = if is_filled key.participant then b'_' ∷ shown key.participant else [] in
    bool_text (is_set key.from_me)
    ++ (b'_' ∷ (shown key.remote_jid ++ (b'_' ∷ (key.id ++ participant))))

unfoldable pub build_message_id : WaMessageKey → Text
build_message_id key =
    let parts =
      bool_text (is_set key.from_me) ∷ to_cus_format (get_or key.remote_jid []) ∷ key.id ∷ [] in
    join (codes "_") (
      if is_filled key.participant
      then parts ++ (to_cus_format (get_or key.participant []) ∷ [])
      else parts)

-- `meId || 'me'`.
abbrev pub me_or : Option Text → Option Text
me_or me = if is_filled me then me else some (codes "me")

unfoldable pub get_to : WaMessageKey → Option Text → Option Text
get_to key me =
    if is_filled key.participant
    then key.remote_jid
    else if is_set key.from_me
    then key.remote_jid
    else me_or me

unfoldable pub get_from : WaMessageKey → Option Text → Option Text
get_from key me =
    if is_filled key.participant
    then key.participant
    else if is_set key.from_me
    then me_or me
    else key.remote_jid

-- `MessageDestination`.
pub record MessageDestination : Type 0 where
  pub id : Text
  pub to : Text
  pub from : Text
  pub from_me : Option Bool

unfoldable pub get_destination : WaMessageKey → Option Text → MessageDestination
unfolding build_message_id get_to get_from
get_destination key me = record {
  id = build_message_id key;
  to = to_cus_format (get_or (get_to key me) []);
  from = to_cus_format (get_or (get_from key me) []);
  from_me = key.from_me;
}

-- `SendSeenRequest`.
pub record SendSeenRequest : Type 0 where
  pub chat_id : Text
  pub message_id : Option Text
  pub message_ids : Option (List Text)
  pub participant : Option Text

abbrev pub read_key : SendSeenRequest → WaMessageKey → WaMessageKey
read_key request parsed = record {
  id = parsed.id;
  from_me = none;
  remote_jid =
      if is_filled parsed.remote_jid
      then some (to_jid (get_or parsed.remote_jid []))
      else some (to_jid request.chat_id);
  remote_jid_alt = none;
  participant =
      if is_filled parsed.participant
      then some (to_jid (get_or parsed.participant []))
      else request.participant;
  participant_alt = none;
}

abbrev pub keep_read : SendSeenRequest → WaMessageKey → List WaMessageKey → List WaMessageKey
keep_read request parsed later =
    if is_set parsed.from_me then later else read_key request parsed ∷ later

-- The loop of `ExtractMessageKeysForRead`.
unfoldable pub read_keys : SendSeenRequest → List Text → Option (List WaMessageKey)
read_keys request [] = some []
read_keys request (id ∷ ids) =
    let rest = read_keys request ids in
    elim (parse_message_id_serialized false id) [
      | none ↦ none
      | some parsed ↦ Option.map (keep_read request parsed) rest
    ]

unfoldable pub extract_message_keys_for_read : SendSeenRequest → Option (List WaMessageKey)
unfolding read_keys
extract_message_keys_for_read request =
    let ids = get_or request.message_ids [] in
    read_keys request
      (if is_filled request.message_id then ids ++ (get_or request.message_id [] ∷ []) else ids)

-- `MessagesForRead`: the limit, and the time in seconds from which messages are read. `now` is
-- `Date.now()`, which is past the days asked for.
unfoldable pub messages_for_read : Text → Option ℕ → (days now : ℕ) → ℕ × ℕ
messages_for_read chat_id messages days now = (
  if is_positive messages || is_jid_group chat_id then 100 else 30,
  (now - days * 24 * 60 * 60 * 1000) / 1000,
)

-- A message of the stream, or the timer that forgets what was seen.
pub record Message : Type 0 where
  pub id : Text
  pub from_me : Bool

pub data Tick : Type 0 where
  flush : Tick
  message : Message → Tick

-- The key by which `DistinctMessages` compares; `none` where it throws.
unfoldable pub distinct_key : Message → Option Text
distinct_key m =
    Option.map (λ k. bool_text m.from_me ++ (b'_' ∷ k.id)) (parse_message_id_serialized true m.id)

-- The operator `distinct` with its flushes; an exception ends the stream.
unfoldable pub distinct_messages : List Text → List Tick → List Message
distinct_messages seen [] = []
distinct_messages seen (flush ∷ ticks) = distinct_messages [] ticks
distinct_messages seen (message m ∷ ticks) = elim (distinct_key m) [
  | none ↦ []
  | some k ↦
      let dropped = distinct_messages seen ticks in
      let passed = m ∷ distinct_messages (k ∷ seen) ticks in
      if contains seen k then dropped else passed
]
