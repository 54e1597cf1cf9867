-- ===== src/Gows/Repeats.antt =====
-- Messages of the engine that come more than once: `DistinctMessages` of
-- waha-plus/src/core/utils/reactive.ts on what session.gows.core.ts makes of them.
use aira_relay.Base.{
  ℕ, Bool, true, false, not, ◌&&◌, if◌then◌else◌, some, List, [], ◌∷◌, ◌++◌, any, Text, text_eq,
  has, ◌≡◌,
}
use mathlib.Core.Option
use aira_relay.Jids.{to_cus_format}
use aira_relay.Messages.{bool_text, Message}
use aira_relay.Gows.{MessageIdData, message_id_of}

-- The message that the API makes of it, and the key by which it is compared.
abbrev pub as_message : MessageIdData → Message
as_message m = record { id = message_id_of m; from_me = m.is_from_me }

abbrev key : Bool → Text → Text
key b id = bool_text b ++ (b'_' ∷ id)

-- No underscore is in the id, the chat or the sender.
pub record IsPlain (m : MessageIdData) : Type 0 where
  pub c : ℕ
  pub p : Text
  pub chat : has b'_' (to_cus_format m.chat) ≡ false
  pub id : has b'_' m.id ≡ false
  pub sender : m.sender ≡ some (c ∷ p)
  pub part : has b'_' (to_cus_format (c ∷ p)) ≡ false

abbrev same_flag : Bool → Bool → Bool
same_flag true b = b
same_flag false b = not b

-- The same id of the engine, and both sent or both received.
abbrev pub same_message : MessageIdData → MessageIdData → Bool
same_message m n = same_flag m.is_from_me n.is_from_me && text_eq m.id n.id

abbrev seen_key : MessageIdData → Text
seen_key m = key m.is_from_me m.id

-- Each message that is not the same as one before it.
unfoldable pub first_ones : (seen ms : List MessageIdData) → List MessageIdData
first_ones seen [] = []
first_ones seen (m ∷ ms) =
    let dropped = first_ones seen ms in
    let kept = m ∷ first_ones (m ∷ seen) ms in
    if any (λ n. same_message n m) seen then dropped else kept
