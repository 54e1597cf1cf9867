-- ===== src/Gows.antt =====
-- The GOWS engine's events as the API gives them out: the ids and acks of
-- waha-plus/src/core/engines/gows/session.gows.core.ts.
pub mod Groups
pub mod Calls
pub mod Votes
pub mod Ids
pub mod Acks
pub mod Polls
pub mod Repeats
pub mod GroupEvents
pub mod Blanks
pub mod IncomingCalls
pub mod Tests
pub mod EventTests
use aira_relay.Base.{
  ℕ, Bool, true, false, not, ◌&&◌, ◌||◌, if◌then◌else◌, Option, none, some, get_or, List, [], ◌∷◌,
  ◌++◌, map, Text, codes, text_eq,
}
use mathlib.Core.Option
use aira_relay.Jids.{WaMessageKey, to_cus_format, is_jid_group}
use aira_relay.Session.{MeInfo}
use aira_relay.Messages.{
  is_filled, is_set, bool_text, shown, parse_message_id_serialized, MessageDestination,
  get_destination,
}

-- `MessageIdData`, the source of a message. The sender is missing where the session does not know its
-- own id yet.
pub record MessageIdData : Type 0 where
  pub chat : Text
  pub sender : Option Text
  pub id : Text
  pub is_from_me : Bool
  pub is_group : Bool

pub record FromToParticipant : Type 0 where
  pub from : Text
  pub to : Option Text
  pub participant : Option Text
  pub from_me : Bool

unfoldable pub get_from_to_participant : MessageIdData → FromToParticipant
get_from_to_participant info = record {
  from = info.chat;
  to = if info.is_group then info.sender else none;
  participant = if info.is_group then info.sender else none;
  from_me = info.is_from_me;
}

-- `toCusFormat` of a value that may be missing.
abbrev pub cus : Option Text → Option Text
cus jid = Option.map to_cus_format jid

-- `buildMessageId` of this file; core/utils/messages.ts has one of the same name for keys.
unfoldable pub message_id_of : MessageIdData → Text
message_id_of info =
    let short =
      bool_text info.is_from_me ++ (b'_' ∷ (to_cus_format info.chat ++ (b'_' ∷ info.id))) in
    if info.is_group then short ++ (b'_' ∷ shown (cus info.sender)) else short

-- `WARawKey`.
pub record RawKey : Type 0 where
  pub remote_jid : Text
  pub from_me : Bool
  pub id : Text
  pub participant : Option Text

-- `participant || remoteJID`.
abbrev pub participant_or : Option Text → Text → Option Text
participant_or participant jid = if is_filled participant then participant else some jid

-- The own id where the session has an account, `none` where the source throws.
abbrev pub key_sender : Option MeInfo → RawKey → Option (Option Text)
key_sender me key =
    if key.from_me
    then Option.map (λ m. m.id) me
    else some (participant_or key.participant key.remote_jid)

unfoldable pub message_id_from_key : Option MeInfo → RawKey → Option Text
message_id_from_key me key =
    Option.map
      (λ sender. message_id_of (record {
        chat = key.remote_jid;
        sender = sender;
        id = key.id;
        is_from_me = key.from_me;
        is_group = is_jid_group key.remote_jid;
      }))
      (key_sender me key)

-- `WAMessageAck`.
pub data Ack : Type 0 where
  error pending server device read played : Ack

unfoldable pub ack_name : Ack → Text
ack_name error = codes "ERROR"
ack_name pending = codes "PENDING"
ack_name server = codes "SERVER"
ack_name device = codes "DEVICE"
ack_name read = codes "READ"
ack_name played = codes "PLAYED"

pub record Receipt : Type 0 where
  pub type : Text
  pub chat : Text
  pub sender : Option Text
  pub is_from_me : Bool
  pub is_group : Bool
  pub message_ids : List Text
  pub message_sender : Option Text

-- `WAMessageAckBody`.
pub record MessageAck : Type 0 where
  pub id : Text
  pub from : Text
  pub to : Option Text
  pub participant : Option Text
  pub from_me : Bool
  pub ack : Ack
  pub ack_name : Text

-- The switch of `receiptToMessageAck`; `none` is its default.
unfoldable pub receipt_ack : Text → Option Ack
receipt_ack type =
    if text_eq type []
    then some device
    else if text_eq type (codes "server-error")
    then some error
    else if text_eq type (codes "inactive")
    then some device
    else if text_eq type (codes "active")
    then some device
    else if text_eq type (codes "read")
    then some read
    else if text_eq type (codes "played")
    then some played
    else none

-- `this.me?.id`.
abbrev pub own_id : Option MeInfo → Option Text
own_id none = none
own_id (some me) = me.id

abbrev pub source_of : Receipt → MessageIdData
source_of receipt = record {
  chat = receipt.chat;
  sender = receipt.sender;
  id = [];
  is_from_me = receipt.is_from_me;
  is_group = receipt.is_group;
}

-- The message of a receipt: the flag of the receipt is reversed.
unfoldable pub receipt_message : Option MeInfo → Receipt → Text → MessageIdData
receipt_message me receipt message_id = record {
  chat = receipt.chat;
  sender = if is_filled receipt.message_sender then receipt.message_sender else own_id me;
  id = message_id;
  is_from_me = not receipt.is_from_me;
  is_group = receipt.is_group;
}

unfoldable pub message_ack : Option MeInfo → Receipt → Ack → Text → MessageAck
unfolding ack_name receipt_message get_from_to_participant message_id_of
message_ack me receipt ack message_id =
    let msg = receipt_message me receipt message_id in
    let ends = get_from_to_participant (source_of receipt) in
    record {
      id = message_id_of msg;
      from = to_cus_format ends.from;
      to = cus ends.to;
      participant = cus ends.participant;
      from_me = msg.is_from_me;
      ack = ack;
      ack_name = ack_name ack;
    }

unfoldable pub receipt_to_message_ack : Option MeInfo → Receipt → List MessageAck
unfolding receipt_ack message_ack
receipt_to_message_ack me receipt = elim (receipt_ack receipt.type) [
  | none ↦ []
  | some ack ↦ map (message_ack me receipt ack) receipt.message_ids
]

-- The part of a serialized id that the engine knows; `none` inside where the source throws.
unfoldable pub message_id_from_serialized : Text → Option (Option Text)
unfolding parse_message_id_serialized
message_id_from_serialized [] = some none
message_id_from_serialized (c ∷ s) =
    Option.map (λ key. some key.id) (parse_message_id_serialized true (c ∷ s))
