-- ===== src/Gows/Acks.antt =====
-- Receipts of the engine and the acks that listeners get for them.
use aira_relay.Base.{
  Bool, not, if◌then◌else◌, Option, some, List, [], ◌∷◌, map, All, Text, ◌≡◌, refl,
}
use aira_relay.Session.{MeInfo}
use aira_relay.Messages.{is_filled}
use aira_relay.Gows.{
  own_id, MessageIdData, message_id_of, cus, Ack, ack_name, Receipt, MessageAck, receipt_ack,
  receipt_message, message_ack, receipt_to_message_ack,
}

-- The receipt is of the chat of a message and of the other side of it, and the sender that it names, or
-- the account where it names none, is the message's.
pub record IsAbout (me : Option MeInfo) (receipt : Receipt) (m : MessageIdData) : Type 0 where
  pub chat : m.chat ≡ receipt.chat
  pub is_group : m.is_group ≡ receipt.is_group
  pub is_from_me : m.is_from_me ≡ not receipt.is_from_me
  pub sender :
      cus m.sender
      ≡ cus (if is_filled receipt.message_sender then receipt.message_sender else own_id me)

abbrev pub with_id : MessageIdData → Text → MessageIdData
with_id m id = record m { id = id }

message_ack_id :
    (me : Option MeInfo) (receipt : Receipt) (m : MessageIdData) (ack : Ack) (id : Text)
    → IsAbout me receipt m
    → (message_ack me receipt ack id).id ≡ message_id_of (with_id m id)
unfolding message_ack message_id_of receipt_message
message_ack_id me receipt m ack id h = rw (h.chat, h.is_group, h.is_from_me, h.sender) refl

-- An ack of a level, and the flag of the message.
abbrev pub IsAck : Ack → Bool → MessageAck → Type 0
IsAck ack b body = (body.ack ≡ ack) × (body.ack_name ≡ ack_name ack) × (body.from_me ≡ b)

acks_each :
    (me : Option MeInfo) (receipt : Receipt) (m : MessageIdData) (ack : Ack)
    → IsAbout me receipt m
    → (ids : List Text)
    → (map (λ a. a.id) (map (message_ack me receipt ack) ids)
        ≡ map (λ i. message_id_of (with_id m i)) ids)
      × All (IsAck ack m.is_from_me) (map (message_ack me receipt ack) ids)
unfolding message_ack receipt_message
acks_each me receipt m ack h [] = (refl, tt)
acks_each me receipt m ack h (i ∷ is) =
    let rest = acks_each me receipt m ack h is in
    (
      rw (message_ack_id me receipt m ack i h, rest.0) refl,
      ((refl, refl, rw (h.is_from_me) refl), rest.1),
    )

-- A receipt of a known type leaves one ack for each of its message ids, in their order, whose id is the
-- one that the API gives to the message of that id, and each has the level of the type and the flag of
-- the message. The message is of the receipt's chat and kind, its flag is the reverse of the receipt's,
-- and its sender is the one that the receipt names or, where it names none, the account.
pub receipt_to_message_ack_lem :
    (me : Option MeInfo) (receipt : Receipt) (m : MessageIdData) (ack : Ack)
    → receipt_ack receipt.type ≡ some ack
    → IsAbout me receipt m
    → (map (λ a. a.id) (receipt_to_message_ack me receipt)
        ≡ map (λ i. message_id_of (with_id m i)) receipt.message_ids)
      × All (IsAck ack m.is_from_me) (receipt_to_message_ack me receipt)
unfolding receipt_to_message_ack
receipt_to_message_ack_lem me receipt m ack e h =
    rw (receipt_to_message_ack, e) (acks_each me receipt m ack h receipt.message_ids)
