-- ===== src/Messages/Reading.antt =====
-- Which messages are marked as read: `ExtractMessageKeysForRead` and `MessagesForRead` of
-- waha-plus/src/core/utils/convertors.ts.
use aira_relay.Base.{
  ℕ, ◌<◌, Bool, false, not, none, some, List, [], ◌∷◌, map, filter, Text, has, join, ◌≡◌, refl,
  arith, inl, inr, Bool-cases,
}
use aira_relay.Jids.{WaMessageKey, to_jid, to_cus_format}
use aira_relay.Messages.{
  parse_message_id_serialized, build_message_id, SendSeenRequest, read_key, read_keys,
  messages_for_read,
}
use aira_relay.Messages.RoundTrip.{key_of, parse_three}

-- A message of a chat: the flag, the chat and the id.
abbrev pub id_of : Bool × Text × Text → Text
id_of (b, chat, id) = build_message_id (key_of b chat id none)

abbrev pub parsed_of : Bool × Text × Text → WaMessageKey
parsed_of (b, chat, id) = key_of b (to_jid (to_cus_format chat)) id none

abbrev pub AreClean : List (Bool × Text × Text) → Type 0
AreClean [] = Unit
AreClean ((b, chat, id) ∷ ms) =
    (has b'_' (to_cus_format chat) ≡ false) × (has b'_' id ≡ false) × AreClean ms

-- Of the ids that the API gave out, exactly those of others' messages are read, in their order.
pub read_keys_others :
    (request : SendSeenRequest) (ms : List (Bool × Text × Text))
    → AreClean ms
    → read_keys request (map id_of ms)
      ≡ some (map (λ m. read_key request (parsed_of m)) (filter (λ m. not m.0) ms))
unfolding read_keys build_message_id join parse_message_id_serialized has
read_keys_others request [] h = refl
read_keys_others request ((b, chat, id) ∷ ms) (h, k, hs) =
    rw (parse_three b (to_cus_format chat) id h k, read_keys_others request ms hs)
      (elim (Bool-cases b) [ inl e ↦ rw e refl | inr e ↦ rw e refl ])

-- How many messages the request asks for makes no difference, as long as it asks for some: the limit
-- is 100 all the same.
pub messages_for_read_limit :
    (chat_id : Text) (n m days now : ℕ)
    → 0 < n
    → 0 < m
    → (messages_for_read chat_id (some n) days now ≡ messages_for_read chat_id (some m) days now)
      × ((messages_for_read chat_id (some n) days now).0 ≡ 100)
unfolding messages_for_read
messages_for_read_limit chat_id n m days now h k = (ground arith, ground arith)
