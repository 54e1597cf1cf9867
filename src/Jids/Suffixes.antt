-- ===== src/Jids/Suffixes.antt =====
-- How the predicates of jids.ts decide an id with a known suffix.
use aira_relay.Base.{
  ◌≡◌, refl, ◌∙◌, Bool, true, false, ◌++◌, ◌∷◌, Text, codes, text_eq, text_eq_iff, ends_with,
  ends_with_other, ends_with-append, ends_with_refl, has, arith, Bool-cases, inl, inr, [], ap,
}
use aira_relay.Jids.{
  is_jid_newsletter, is_jid_group, is_jid_broadcast, is_jid_meta_ai, is_lid_user, is_pn_user,
  is_jid_status_broadcast, is_null_jid,
}

-- The classes that conversion leaves alone.
pub record IsPersonal (jid : Text) : Type 0 where
  pub group : is_jid_group jid ≡ false
  pub broadcast : is_jid_broadcast jid ≡ false
  pub newsletter : is_jid_newsletter jid ≡ false
  pub lid : is_lid_user jid ≡ false
  pub meta_ai : is_jid_meta_ai jid ≡ false

pub whatsapp-IsPersonal : (p : Text) → IsPersonal (p ++ codes "@s.whatsapp.net")
unfolding is_jid_group is_jid_broadcast is_jid_newsletter is_lid_user is_jid_meta_ai ends_with
    text_eq
whatsapp-IsPersonal p = record {
  group = ends_with_other p (codes "@s.whatsapp.net") (codes "@g.us") refl refl;
  broadcast = ends_with_other p (codes "@s.whatsapp.net") (codes "@broadcast") refl refl;
  newsletter = ends_with_other p (codes "@s.whatsapp.net") (codes "@newsletter") refl refl;
  lid = ends_with_other p (codes "@s.whatsapp.net") (codes "@lid") refl refl;
  meta_ai = ends_with_other p (codes "@s.whatsapp.net") (codes "@meta.ai") refl refl;
}

pub cus-IsPersonal : (p : Text) → IsPersonal (p ++ codes "@c.us")
unfolding is_jid_group is_jid_broadcast is_jid_newsletter is_lid_user is_jid_meta_ai ends_with
    text_eq
cus-IsPersonal p = record {
  group = ends_with_other p (codes "@c.us") (codes "@g.us") refl refl;
  broadcast = ends_with_other p (codes "@c.us") (codes "@broadcast") refl refl;
  newsletter = ends_with_other p (codes "@c.us") (codes "@newsletter") refl refl;
  lid = ends_with_other p (codes "@c.us") (codes "@lid") refl refl;
  meta_ai = ends_with_other p (codes "@c.us") (codes "@meta.ai") refl refl;
}

-- An id with an at sign is not "me".
has-append_at : (p s : Text) → has b'@' (p ++ (b'@' ∷ s)) ≡ true
unfolding has
has-append_at [] s = refl
has-append_at (c ∷ p) s = ground (arith, has-append_at p s)

pub not_me : (p s : Text) → text_eq (p ++ (b'@' ∷ s)) (codes "me") ≡ false
unfolding has
not_me p s = elim (Bool-cases (text_eq (p ++ (b'@' ∷ s)) (codes "me"))) [
  | inl e ↦ cc (ap (has b'@') ((text_eq_iff (p ++ (b'@' ∷ s)) (codes "me")).0 e), has-append_at p s)
  | inr e ↦ e
]

-- An id equal to a known text ends like it.
not_text_eq : (p t w : Text) → ends_with w t ≡ false → text_eq (p ++ t) w ≡ false
not_text_eq p t w h = elim (Bool-cases (text_eq (p ++ t) w)) [
  | inl e ↦ cc (
    h,
    ap (λ v. ends_with v t) ((text_eq_iff (p ++ t) w).0 e),
    ends_with-append p t t (omega arith),
    ends_with_refl t,
  )
  | inr e ↦ e
]

-- Every predicate that the filter asks, of an id with a given suffix.
pub record Classes (jid : Text) (status broadcast group newsletter lid pn : Bool) : Type 0 where
  pub is_status : is_jid_status_broadcast jid ≡ status
  pub is_broadcast : is_jid_broadcast jid ≡ broadcast
  pub is_group : is_jid_group jid ≡ group
  pub is_newsletter : is_jid_newsletter jid ≡ newsletter
  pub is_lid : is_lid_user jid ≡ lid
  pub is_pn : is_pn_user jid ≡ pn

-- The predicates that a suffix decides by computation alone.
predicates : Unit {0}
unfolding is_jid_status_broadcast is_jid_broadcast is_jid_group is_jid_newsletter is_lid_user
    is_pn_user ends_with text_eq
predicates = tt

own_suffix : (p t : Text) → ends_with (p ++ t) t ≡ true
own_suffix p t = ends_with-append p t t (omega arith) ∙ ends_with_refl t

pub group-Classes : (p : Text) → Classes (p ++ codes "@g.us") false false true false false false
unfolding predicates
group-Classes p = record {
  is_status = not_text_eq p (codes "@g.us") (codes "status@broadcast") refl;
  is_broadcast = ends_with_other p (codes "@g.us") (codes "@broadcast") refl refl;
  is_group = own_suffix p (codes "@g.us");
  is_newsletter = ends_with_other p (codes "@g.us") (codes "@newsletter") refl refl;
  is_lid = ends_with_other p (codes "@g.us") (codes "@lid") refl refl;
  is_pn =
      rw
        (
          ends_with_other p (codes "@g.us") (codes "@s.whatsapp.net") refl refl,
          ends_with_other p (codes "@g.us") (codes "@c.us") refl refl,
        )
        refl;
}

pub newsletter-Classes :
    (p : Text) → Classes (p ++ codes "@newsletter") false false false true false false
unfolding predicates
newsletter-Classes p = record {
  is_status = not_text_eq p (codes "@newsletter") (codes "status@broadcast") refl;
  is_broadcast = ends_with_other p (codes "@newsletter") (codes "@broadcast") refl refl;
  is_group = ends_with_other p (codes "@newsletter") (codes "@g.us") refl refl;
  is_newsletter = own_suffix p (codes "@newsletter");
  is_lid = ends_with_other p (codes "@newsletter") (codes "@lid") refl refl;
  is_pn =
      rw
        (
          ends_with_other p (codes "@newsletter") (codes "@s.whatsapp.net") refl refl,
          ends_with_other p (codes "@newsletter") (codes "@c.us") refl refl,
        )
        refl;
}

pub lid-Classes : (p : Text) → Classes (p ++ codes "@lid") false false false false true false
unfolding predicates
lid-Classes p = record {
  is_status = not_text_eq p (codes "@lid") (codes "status@broadcast") refl;
  is_broadcast = ends_with_other p (codes "@lid") (codes "@broadcast") refl refl;
  is_group = ends_with_other p (codes "@lid") (codes "@g.us") refl refl;
  is_newsletter = ends_with_other p (codes "@lid") (codes "@newsletter") refl refl;
  is_lid = own_suffix p (codes "@lid");
  is_pn =
      rw
        (
          ends_with_other p (codes "@lid") (codes "@s.whatsapp.net") refl refl,
          ends_with_other p (codes "@lid") (codes "@c.us") refl refl,
        )
        refl;
}

pub broadcast-Classes :
    (p : Text)
    → is_jid_status_broadcast (p ++ codes "@broadcast") ≡ false
    → Classes (p ++ codes "@broadcast") false true false false false false
unfolding predicates
broadcast-Classes p h = record {
  is_status = h;
  is_broadcast = own_suffix p (codes "@broadcast");
  is_group = ends_with_other p (codes "@broadcast") (codes "@g.us") refl refl;
  is_newsletter = ends_with_other p (codes "@broadcast") (codes "@newsletter") refl refl;
  is_lid = ends_with_other p (codes "@broadcast") (codes "@lid") refl refl;
  is_pn =
      rw
        (
          ends_with_other p (codes "@broadcast") (codes "@s.whatsapp.net") refl refl,
          ends_with_other p (codes "@broadcast") (codes "@c.us") refl refl,
        )
        refl;
}

pub cus-Classes :
    (p : Text)
    → is_null_jid (p ++ codes "@c.us") ≡ false
    → Classes (p ++ codes "@c.us") false false false false false true
unfolding predicates
cus-Classes p h = record {
  is_status = not_text_eq p (codes "@c.us") (codes "status@broadcast") refl;
  is_broadcast = ends_with_other p (codes "@c.us") (codes "@broadcast") refl refl;
  is_group = ends_with_other p (codes "@c.us") (codes "@g.us") refl refl;
  is_newsletter = ends_with_other p (codes "@c.us") (codes "@newsletter") refl refl;
  is_lid = ends_with_other p (codes "@c.us") (codes "@lid") refl refl;
  is_pn =
      rw
        (
          ends_with_other p (codes "@c.us") (codes "@s.whatsapp.net") refl refl,
          own_suffix p (codes "@c.us"),
          h,
        )
        refl;
}

pub whatsapp-Classes :
    (p : Text)
    → is_null_jid (p ++ codes "@s.whatsapp.net") ≡ false
    → Classes (p ++ codes "@s.whatsapp.net") false false false false false true
unfolding predicates
whatsapp-Classes p h = record {
  is_status = not_text_eq p (codes "@s.whatsapp.net") (codes "status@broadcast") refl;
  is_broadcast = ends_with_other p (codes "@s.whatsapp.net") (codes "@broadcast") refl refl;
  is_group = ends_with_other p (codes "@s.whatsapp.net") (codes "@g.us") refl refl;
  is_newsletter = ends_with_other p (codes "@s.whatsapp.net") (codes "@newsletter") refl refl;
  is_lid = ends_with_other p (codes "@s.whatsapp.net") (codes "@lid") refl refl;
  is_pn = rw (own_suffix p (codes "@s.whatsapp.net"), h) refl;
}

pub status_broadcast-Classes : Classes (codes "status@broadcast") true true false false false false
unfolding predicates
status_broadcast-Classes = record {
  is_status = refl;
  is_broadcast = refl;
  is_group = refl;
  is_newsletter = refl;
  is_lid = refl;
  is_pn = refl;
}
