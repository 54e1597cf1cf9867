-- ===== src/Auth/Keys/Creation.antt =====
-- Which key `create` of waha-plus/src/api/apikeys.controller.ts stores.
use aira_relay.Base.{
  ℕ, zero, suc, ◌+◌, ◌<◌, Bool, true, false, Option, none, some, is_some, Text, text_eq_refl,
  text_eq_iff, ◌≡◌, refl, sym, subst, ap, ◌∙◌, arith,
}
use aira_relay.Base.Results.{unprocessable, Result, ok, M, ◌>>◌, require}
use aira_relay.Auth.{ApiKey}
use aira_relay.Auth.Keys.{
  KeyCollection, check_invariant, ApiKeyRequest, candidate, is_taken, try_keys, check_session,
  store, store_picked, create_key,
}
use aira_relay.Manager.Lifecycle.{bind_ok}
use aira_relay.Auth.Keys.Validity.{IsValid}

some_of {ℓ} : {A : Type ℓ} (o : Option A) → is_some o ≡ true → (a : A) × (o ≡ some a)
some_of none h = absurd (ground arith)
some_of (some a) h = (a, refl)

module _ (keys : KeyCollection) (generated : ℕ → Text × Text) (body : ApiKeyRequest) where
  -- The generated keys from the i-th on, n of them, are taken.
  abbrev pub AreTaken : keys.Docs → (i n : ℕ) → Type 0
  AreTaken d i zero = Unit
  AreTaken d i (suc n) =
      (is_taken keys generated body d (candidate keys generated body i) ≡ true)
      × AreTaken d (suc i) n

  try_keys_first :
      (d : keys.Docs) (left i n : ℕ) (last : Option ApiKey)
      → n < left
      → AreTaken d i n
      → is_taken keys generated body d (candidate keys generated body (i + n)) ≡ false
      → try_keys keys generated body d left i last ≡ some (candidate keys generated body (i + n))
  unfolding try_keys
  try_keys_first d zero i n last l t f = ground arith
  try_keys_first d (suc left) i zero last l t f =
      let e : i + 0 ≡ i = omega arith in
      let g : is_taken keys generated body d (candidate keys generated body i) ≡ false =
        subst (λ k. is_taken keys generated body d (candidate keys generated body k) ≡ false) e f in
      rw (g, e) refl
  try_keys_first d (suc left) i (suc n) last l t f =
      let e : i + suc n ≡ suc i + n = omega arith in
      let g =
        subst (λ k. is_taken keys generated body d (candidate keys generated body k) ≡ false) e f in
      rw (t.0, e)
        (try_keys_first d left (suc i) n (some (candidate keys generated body i)) (omega arith) t.1
          g)

  try_keys_start :
      (d : keys.Docs) (n : ℕ)
      → n < 5
      → AreTaken d 0 n
      → is_taken keys generated body d (candidate keys generated body n) ≡ false
      → try_keys keys generated body d 5 0 none ≡ some (candidate keys generated body n)
  try_keys_start d n l t f =
      let e : 0 + n ≡ n = omega arith in
      subst (λ k. try_keys keys generated body d 5 0 none ≡ some (candidate keys generated body k))
        e
        (try_keys_first d 5 0 n none l t (
          subst (λ k. is_taken keys generated body d (candidate keys generated body k) ≡ false)
            (sym e) f))

  -- A free candidate takes no other's place.
  free-find_by_id :
      (d e : keys.Docs) (k : ApiKey) (j : Text) (old : ApiKey)
      → is_taken keys generated body d k ≡ false
      → keys.replace_one d k ≡ some e
      → keys.find_by_id d j ≡ some old
      → keys.find_by_id e j ≡ some old
  unfolding is_taken
  free-find_by_id d e k j old free r f =
      ground
        (arith, keys.find_by_id-replace_one d k e j r, text_eq_iff k.id j, ap (keys.find_by_id d))

  stored-find_by_id :
      (d e : keys.Docs) (k : ApiKey)
      → keys.replace_one d k ≡ some e
      → keys.find_by_id e k.id ≡ some k
  stored-find_by_id d e k r =
      ground (arith, keys.find_by_id-replace_one d k e k.id r, text_eq_refl k.id)

  free_key :
      (d : keys.Docs) (k : ApiKey)
      → is_taken keys generated body d k ≡ false
      → keys.find_by_key d k.key ≡ none
  unfolding is_taken
  free_key d k free = ground arith

  try_keys_exhausted :
      (d : keys.Docs)
      → AreTaken d 0 5
      → try_keys keys generated body d 5 0 none ≡ some (candidate keys generated body 4)
  unfolding try_keys
  try_keys_exhausted d (a, (b, (c, (e, (f, _))))) = rw (a, b, c, e, f) refl

  module _ {S : Type 0} (exists : Text → M S Bool) where
    stored :
        (k : ApiKey) (t : S) (d e : keys.Docs)
        → IsValid k
        → keys.replace_one d k ≡ some e
        → ◌≡◌ {A = (S × keys.Docs) × Result ApiKey}
            (store_picked keys exists (some k) (t, d))
            ((t, e), ok k)
    unfolding store_picked store
    stored k t d e v r = rw (v, r, store) refl

    -- The whole of `create`, when the request is valid and its session is found.
    created :
        (k : ApiKey) (s t : S) (d e : keys.Docs)
        → check_invariant body.is_admin body.session ≡ true
        → check_session keys exists body.session (s, d) ≡ ((t, d), ok tt)
        → try_keys keys generated body d 5 0 none ≡ some k
        → IsValid k
        → keys.replace_one d k ≡ some e
        → create_key keys exists generated body (s, d) ≡ ((t, e), ok k)
    unfolding create_key
    created k s t d e v c p i r =
        let pick : M (S × keys.Docs) ApiKey =
          λ u. store_picked keys exists (try_keys keys generated body u.1 5 0 none) u in
        bind_ok (require (check_invariant body.is_admin body.session) unprocessable)
          (λ _. check_session keys exists body.session >> pick) (rw v refl)
        ∙ bind_ok (check_session keys exists body.session) (λ _. pick) c
        ∙ rw p (stored k t d e i r)

    -- A valid request for a session that exists, or for none, gets the first generated key whose id and
    -- key are both free, if that is among the first five: it is stored as the request says, and no key
    -- that was there is lost.
    pub create_key_free :
        (n : ℕ) (s t : S) (d : keys.Docs) (j : Text) (old : ApiKey)
        → check_invariant body.is_admin body.session ≡ true
        → check_session keys exists body.session (s, d) ≡ ((t, d), ok tt)
        → n < 5
        → AreTaken d 0 n
        → is_taken keys generated body d (candidate keys generated body n) ≡ false
        → keys.find_by_id d j ≡ some old
        → (e : keys.Docs) × (create_key keys exists generated body (s, d)
            ≡ ((t, e), ok (candidate keys generated body n)))
          × (keys.find_by_id e (generated n).0 ≡ some (candidate keys generated body n))
          × (keys.find_by_id e j ≡ some old)
    unfolding candidate
    create_key_free n s t d j old v c l taken free f =
        let k = candidate keys generated body n in
        let (e, r) =
          some_of (keys.replace_one d k) (keys.replace_one-free d k (free_key d k free)) in
        (
          e,
          created k s t d e v c (try_keys_start d n l taken free) v r,
          stored-find_by_id d e k r,
          free-find_by_id d e k j old free r f,
        )

    -- When all five generated ids are taken, `create` does not fail, as it does where no key was
    -- generated: it stores the fifth key all the same, and the key of another that has its id is gone.
    pub create_key_exhausted :
        (s t : S) (d : keys.Docs) (old : ApiKey)
        → check_invariant body.is_admin body.session ≡ true
        → check_session keys exists body.session (s, d) ≡ ((t, d), ok tt)
        → AreTaken d 0 5
        → keys.find_by_id d (generated 4).0 ≡ some old
        → keys.find_by_key d (generated 4).1 ≡ none
        → (e : keys.Docs) × (create_key keys exists generated body (s, d)
            ≡ ((t, e), ok (candidate keys generated body 4)))
          × (keys.find_by_id e (generated 4).0 ≡ some (candidate keys generated body 4))
    unfolding candidate
    create_key_exhausted s t d old v c taken f g =
        let k = candidate keys generated body 4 in
        let (e, r) = some_of (keys.replace_one d k) (keys.replace_one-free d k g) in
        (e, created k s t d e v c (try_keys_exhausted d taken) v r, stored-find_by_id d e k r)
