-- ===== src/Jids/Conversion.antt =====
-- Laws of `toJID`, `toCusFormat` and `normalizeJid`.
use aira_relay.Base.{
  ℕ, ◌≡◌, refl, ◌∙◌, true, false, ◌++◌, ◌∷◌, Text, codes, text_eq, has, first_part,
  first_part-append_sep, first_part_single, has-first_part, has-first_part_of, arith, ◌⊎◌, inl, inr,
  [], ap,
}
use aira_relay.Jids.{
  is_lid_user, to_jid, to_cus_format, ensure_suffix, normalize_jid, device_follows, skip_digits,
  is_digit,
}
use aira_relay.Jids.Suffixes.{IsPersonal, whatsapp-IsPersonal, cus-IsPersonal, not_me}

to_jid_personal :
    (jid : Text) → IsPersonal jid → to_jid jid ≡ first_part b'@' jid ++ codes "@s.whatsapp.net"
unfolding to_jid
to_jid_personal jid h = rw (h.group, h.broadcast, h.newsletter, h.lid, h.meta_ai) refl

-- `toJID` leaves an id alone or converts a personal one.
to_jid_cases : (jid : Text) → IsPersonal jid ⊎ (to_jid jid ≡ jid)
unfolding to_jid
to_jid_cases jid = ground arith

-- Whatever the user part of a personal id, conversion gives it the engine's server.
to_jid_whatsapp :
    (n : Text)
    → has b'@' n ≡ false
    → to_jid (n ++ codes "@s.whatsapp.net") ≡ n ++ codes "@s.whatsapp.net"
to_jid_whatsapp n h =
    to_jid_personal _ (whatsapp-IsPersonal n)
    ∙ ap (λ q. q ++ codes "@s.whatsapp.net")
        (first_part-append_sep b'@' n (codes "s.whatsapp.net") h)

-- Converting an id to the engine's form a second time changes nothing, whatever the id.
pub to_jid_idempotent : (jid : Text) → to_jid (to_jid jid) ≡ to_jid jid
to_jid_idempotent jid = elim (to_jid_cases jid) [
  | inl personal ↦
      rw (to_jid_personal jid personal)
        (to_jid_whatsapp (first_part b'@' jid) (has-first_part b'@' jid))
  | inr same ↦ ap to_jid same
]

-- What `toCusFormat` does to a personal id.
abbrev pub cus_number : Text → Text
cus_number jid = first_part b':' (first_part b'@' jid)

to_cus_format_personal :
    (c : ℕ) (s : Text)
    → IsPersonal (c ∷ s)
    → text_eq (c ∷ s) (codes "me") ≡ false
    → to_cus_format (c ∷ s) ≡ ensure_suffix (cus_number (c ∷ s))
unfolding to_cus_format
to_cus_format_personal c s h m = rw (h.group, h.broadcast, h.lid, h.newsletter, m) refl

to_cus_format_at :
    (p s : Text)
    → IsPersonal (p ++ (b'@' ∷ s))
    → to_cus_format (p ++ (b'@' ∷ s)) ≡ ensure_suffix (cus_number (p ++ (b'@' ∷ s)))
to_cus_format_at [] s h = to_cus_format_personal b'@' s h (not_me [] s)
to_cus_format_at (c ∷ p) s h = to_cus_format_personal c (p ++ (b'@' ∷ s)) h (not_me (c ∷ p) s)

ensure_suffix_number : (n : Text) → has b'@' n ≡ false → ensure_suffix n ≡ n ++ codes "@c.us"
unfolding ensure_suffix
ensure_suffix_number n h = rw h refl

cus_number_at :
    (n s : Text) → has b'@' n ≡ false → has b':' n ≡ false → cus_number (n ++ (b'@' ∷ s)) ≡ n
cus_number_at n s h k = rw (first_part-append_sep b'@' n s h) (first_part_single b':' n k)

cus_number_device :
    (n d s : Text)
    → has b'@' (n ++ (b':' ∷ d)) ≡ false
    → has b':' n ≡ false
    → cus_number ((n ++ (b':' ∷ d)) ++ (b'@' ∷ s)) ≡ n
cus_number_device n d s h k =
    rw (first_part-append_sep b'@' (n ++ (b':' ∷ d)) s h) (first_part-append_sep b':' n d k)

to_cus_format_cus :
    (n : Text)
    → has b'@' n ≡ false
    → has b':' n ≡ false
    → to_cus_format (n ++ codes "@c.us") ≡ n ++ codes "@c.us"
to_cus_format_cus n h k =
    to_cus_format_at n (codes "c.us") (cus-IsPersonal n)
    ∙ rw (cus_number_at n (codes "c.us") h k) (ensure_suffix_number n h)

-- For a number with no at sign and no colon, the engine's personal id becomes the API's, a device
-- part included, and the API's becomes the engine's.
pub to_cus_format_number :
    (n d : Text)
    → has b'@' (n ++ (b':' ∷ d)) ≡ false
    → has b'@' n ≡ false
    → has b':' n ≡ false
    → (to_cus_format (n ++ codes "@s.whatsapp.net") ≡ n ++ codes "@c.us")
      × (to_cus_format ((n ++ (b':' ∷ d)) ++ codes "@s.whatsapp.net") ≡ n ++ codes "@c.us")
      × (to_jid (n ++ codes "@c.us") ≡ n ++ codes "@s.whatsapp.net")
to_cus_format_number n d g h k = (
  to_cus_format_at n (codes "s.whatsapp.net") (whatsapp-IsPersonal n)
      ∙ rw (cus_number_at n (codes "s.whatsapp.net") h k) (ensure_suffix_number n h),
  to_cus_format_at (n ++ (b':' ∷ d)) (codes "s.whatsapp.net")
        (whatsapp-IsPersonal (n ++ (b':' ∷ d)))
      ∙ rw (cus_number_device n d (codes "s.whatsapp.net") g k) (ensure_suffix_number n h),
  to_jid_personal (n ++ codes "@c.us") (cus-IsPersonal n)
      ∙ ap (λ q. q ++ codes "@s.whatsapp.net") (first_part-append_sep b'@' n (codes "c.us") h),
)

to_cus_format_cases :
    (c : ℕ) (s : Text)
    → is_lid_user (c ∷ s) ≡ false
    → (to_cus_format (c ∷ s) ≡ ensure_suffix (cus_number (c ∷ s))) ⊎ (to_cus_format (c ∷ s) ≡ c ∷ s)
unfolding to_cus_format
to_cus_format_cases c s h = ground arith

-- An id in the API's form stays as it is, unless it is a LID, whose device parts go one at a time.
pub to_cus_format_idempotent :
    (jid : Text) → is_lid_user jid ≡ false → to_cus_format (to_cus_format jid) ≡ to_cus_format jid
to_cus_format_idempotent [] h = unfold to_cus_format in refl
to_cus_format_idempotent (c ∷ s) h = elim (to_cus_format_cases c s h) [
  | inl number ↦
      let at_free =
        has-first_part_of b'@' b':' (first_part b'@' (c ∷ s)) (has-first_part b'@' (c ∷ s)) in
      rw (number, ensure_suffix_number (cus_number (c ∷ s)) at_free)
        (to_cus_format_cus (cus_number (c ∷ s)) at_free (has-first_part b':' _))
  | inr same ↦ ap to_cus_format same
]

abbrev pub AllDigits : Text → Type 0
AllDigits [] = Unit
AllDigits (c ∷ s) = (is_digit c ≡ true) × AllDigits s

device_follows-append :
    (c : ℕ) (d s : Text) → AllDigits (c ∷ d) → device_follows ((c ∷ d) ++ (b'@' ∷ s)) ≡ true
unfolding device_follows
device_follows-append c [] s h = ground arith
device_follows-append c (e ∷ d) s h = ground (arith, device_follows-append e d s h.1)

skip_digits-append : (d s : Text) → AllDigits d → skip_digits (d ++ (b'@' ∷ s)) ≡ b'@' ∷ s
unfolding skip_digits
skip_digits-append [] s h = refl
skip_digits-append (e ∷ d) s h = ground (arith, skip_digits-append d s h.1)

-- `normalizeJid` takes a device number of one digit or more out of an id whose user has no colon,
-- and leaves an id with no colon as it is.
pub normalize_jid_device :
    (u : Text) (c : ℕ) (d s : Text)
    → has b':' u ≡ false
    → AllDigits (c ∷ d)
    → normalize_jid (u ++ (b':' ∷ ((c ∷ d) ++ (b'@' ∷ s)))) ≡ u ++ (b'@' ∷ s)
unfolding normalize_jid has
normalize_jid_device [] c d s h k =
    ground (arith, device_follows-append c d s k, skip_digits-append (c ∷ d) s k)
normalize_jid_device (e ∷ u) c d s h k = ground (arith, normalize_jid_device u c d s)

pub normalize_jid_plain : (s : Text) → has b':' s ≡ false → normalize_jid s ≡ s
unfolding normalize_jid has
normalize_jid_plain [] h = refl
normalize_jid_plain (e ∷ u) h = ground (arith, normalize_jid_plain u)
