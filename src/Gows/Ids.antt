-- ===== src/Gows/Ids.antt =====
-- Ids of the engine's messages against the keys of waha-plus/src/core/utils.
use aira_relay.Base.{
  ℕ, Bool, true, false, Option, none, some, ◌∷◌, Text, has, ◌≡◌, refl, join, append_assoc,
}
use aira_relay.Jids.{to_jid, to_cus_format}
use aira_relay.Messages.{part_jid, parse_message_id_serialized, build_message_id}
use aira_relay.Messages.RoundTrip.{key_of, parse-build}
use aira_relay.Gows.{MessageIdData, message_id_of}

-- The source of a direct chat's message, and of a group's.
abbrev pub direct : Bool → (chat : Text) → Option Text → (id : Text) → MessageIdData
direct b chat sender id = record {
  chat = chat;
  sender = sender;
  id = id;
  is_from_me = b;
  is_group = false;
}

abbrev pub grouped : Bool → (chat : Text) → Option Text → (id : Text) → MessageIdData
grouped b chat sender id = record {
  chat = chat;
  sender = sender;
  id = id;
  is_from_me = b;
  is_group = true;
}

pub message_id_of-direct :
    (b : Bool) (chat : Text) (sender : Option Text) (id : Text)
    → message_id_of (direct b chat sender id) ≡ build_message_id (key_of b chat id none)
unfolding message_id_of build_message_id join
message_id_of-direct b chat sender id = refl

pub message_id_of-grouped :
    (b : Bool) (chat : Text) (c : ℕ) (p id : Text)
    → message_id_of (grouped b chat (some (c ∷ p)) id)
      ≡ build_message_id (key_of b chat id (some (c ∷ p)))
unfolding message_id_of build_message_id join
message_id_of-grouped b chat c p id = simp (append_assoc)

-- The id that the API gives to a message of a direct chat, and of a group with a sender, parsed, is the
-- key of the same flag and id whose chat and participant are the engine's forms of the API's, when no
-- underscore is in the id or in the API's forms.
pub parse-message_id_of :
    (b : Bool) (chat id : Text) (c : ℕ) (p : Text)
    → has b'_' (to_cus_format chat) ≡ false
    → has b'_' id ≡ false
    → has b'_' (to_cus_format (c ∷ p)) ≡ false
    → (parse_message_id_serialized false (message_id_of (direct b chat (some (c ∷ p)) id))
        ≡ some (key_of b (to_jid (to_cus_format chat)) id none))
      × (parse_message_id_serialized false (message_id_of (grouped b chat (some (c ∷ p)) id))
          ≡ some (key_of b (to_jid (to_cus_format chat)) id (part_jid (to_cus_format (c ∷ p)))))
parse-message_id_of b chat id c p h k l =
    rw (message_id_of-direct b chat (some (c ∷ p)) id, message_id_of-grouped b chat c p id)
      (parse-build b chat id c p h k l)
