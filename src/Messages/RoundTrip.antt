-- ===== src/Messages/RoundTrip.antt =====
-- A key that becomes an id of the API and comes back.
use aira_relay.Base.{
  ℕ, Bool, true, false, Option, none, some, [], ◌∷◌, ◌++◌, Text, codes, text_eq, has, split, join,
  split-append_sep, split_single, ◌≡◌, refl, sym, subst, ap, arith,
}
use mathlib.Core.List.{append-nil}
use aira_relay.Jids.{WaMessageKey, to_jid, to_cus_format}
use aira_relay.Jids.Conversion.{to_cus_format_number}
use aira_relay.Messages.{
  bool_text, part_jid, parse_message_id_serialized, serialize_message_key, build_message_id,
}

-- Three and four parts with no underscore come apart as they were put together.
split_three :
    (p q r : Text)
    → has b'_' p ≡ false
    → has b'_' q ≡ false
    → has b'_' r ≡ false
    → split b'_' (p ++ (b'_' ∷ (q ++ (b'_' ∷ r)))) ≡ p ∷ q ∷ r ∷ []
split_three p q r h k l =
    rw
      (
        split-append_sep b'_' p (q ++ (b'_' ∷ r)) h,
        split-append_sep b'_' q r k,
        split_single b'_' r l,
      )
      refl

split_four :
    (p q r s : Text)
    → has b'_' p ≡ false
    → has b'_' q ≡ false
    → has b'_' r ≡ false
    → has b'_' s ≡ false
    → split b'_' (p ++ (b'_' ∷ (q ++ (b'_' ∷ (r ++ (b'_' ∷ s)))))) ≡ p ∷ q ∷ r ∷ s ∷ []
split_four p q r s h k l m =
    rw (split-append_sep b'_' p (q ++ (b'_' ∷ (r ++ (b'_' ∷ s)))) h)
      (ap (λ x. p ∷ x) (split_three q r s k l m))

bool_text_plain : (b : Bool) → has b'_' (bool_text b) ≡ false
unfolding has
bool_text_plain true = refl
bool_text_plain false = refl

bool_text-parsed : (b : Bool) → text_eq (bool_text b) (codes "true") ≡ b
unfolding text_eq
bool_text-parsed true = refl
bool_text-parsed false = refl

-- The key that a serialized id stands for: the given flag, chat and id, and a participant if it is not
-- empty.
abbrev pub key_of : Bool → Text → Text → Option Text → WaMessageKey
key_of b chat id participant = record {
  id = id;
  from_me = some b;
  remote_jid = some chat;
  remote_jid_alt = none;
  participant = participant;
  participant_alt = none;
}

pub parse_three :
    (b : Bool) (chat id : Text)
    → has b'_' chat ≡ false
    → has b'_' id ≡ false
    → parse_message_id_serialized false (bool_text b ++ (b'_' ∷ (chat ++ (b'_' ∷ id))))
      ≡ some (key_of b (to_jid chat) id none)
unfolding parse_message_id_serialized
parse_three b chat id h k =
    ground (arith, split_three (bool_text b) chat id (bool_text_plain b) h k, bool_text-parsed b)

parse_four :
    (b : Bool) (chat id p : Text)
    → has b'_' chat ≡ false
    → has b'_' id ≡ false
    → has b'_' p ≡ false
    → parse_message_id_serialized false
        (bool_text b ++ (b'_' ∷ (chat ++ (b'_' ∷ (id ++ (b'_' ∷ p))))))
      ≡ some (key_of b (to_jid chat) id (part_jid p))
unfolding parse_message_id_serialized
parse_four b chat id p h k l =
    ground (arith, split_four (bool_text b) chat id p (bool_text_plain b) h k l, bool_text-parsed b)

-- An id that the API gives out for a key, with a participant or without, parsed, is the key of the
-- same flag and id, whose chat and participant are the engine's forms of the API's, when no underscore
-- is in the id or in the API's forms.
pub parse-build :
    (b : Bool) (chat id : Text) (c : ℕ) (p : Text)
    → has b'_' (to_cus_format chat) ≡ false
    → has b'_' id ≡ false
    → has b'_' (to_cus_format (c ∷ p)) ≡ false
    → (parse_message_id_serialized false (build_message_id (key_of b chat id none))
        ≡ some (key_of b (to_jid (to_cus_format chat)) id none))
      × (parse_message_id_serialized false (build_message_id (key_of b chat id (some (c ∷ p))))
          ≡ some (key_of b (to_jid (to_cus_format chat)) id (part_jid (to_cus_format (c ∷ p)))))
unfolding build_message_id join
parse-build b chat id c p h k l = (
  parse_three b (to_cus_format chat) id h k,
  parse_four b (to_cus_format chat) id (to_cus_format (c ∷ p)) h k l,
)

-- The same for `SerializeMessageKey`, which leaves the ids as the engine has them.
pub parse-serialize :
    (b : Bool) (chat id : Text) (c : ℕ) (p : Text)
    → has b'_' chat ≡ false
    → has b'_' id ≡ false
    → has b'_' (c ∷ p) ≡ false
    → (parse_message_id_serialized false (serialize_message_key (key_of b chat id none))
        ≡ some (key_of b (to_jid chat) id none))
      × (parse_message_id_serialized false (serialize_message_key (key_of b chat id (some (c ∷ p))))
          ≡ some (key_of b (to_jid chat) id (some (to_jid (c ∷ p)))))
unfolding serialize_message_key
parse-serialize b chat id c p h k l = (
  subst
      (λ x.
        parse_message_id_serialized false (bool_text b ++ (b'_' ∷ (chat ++ (b'_' ∷ x))))
        ≡ some (key_of b (to_jid chat) id none))
      (sym (append-nil id)) (parse_three b chat id h k),
  parse_four b chat id (c ∷ p) h k l,
)

-- A message of a direct chat with a phone number keeps its key through the API, a device part of the
-- number aside, when the number has no at sign and no colon and neither it nor the id an underscore.
pub parse-build_number :
    (b : Bool) (n id d : Text)
    → has b'@' (n ++ (b':' ∷ d)) ≡ false
    → has b'@' n ≡ false
    → has b':' n ≡ false
    → has b'_' (n ++ codes "@c.us") ≡ false
    → has b'_' id ≡ false
    → let key = key_of b (n ++ codes "@s.whatsapp.net") id none in
      (parse_message_id_serialized false (build_message_id key) ≡ some key)
      × (parse_message_id_serialized false
            (build_message_id (key_of b ((n ++ (b':' ∷ d)) ++ codes "@s.whatsapp.net") id none))
          ≡ some key)
unfolding build_message_id join
parse-build_number b n id d f g h k l =
    let (plain, device, back) = to_cus_format_number n d f g h in
    let parsed = parse_three b (n ++ codes "@c.us") id k l in
    (rw (plain, ← back) parsed, rw (device, ← back) parsed)
