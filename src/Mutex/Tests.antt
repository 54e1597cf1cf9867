-- ===== src/Mutex/Tests.antt =====
-- A store of one expiring list, and an instance of the theorem.
use aira_relay.Base.{
  ℕ, ◌+◌, true, false, ltb, if◌then◌else◌, Option, none, some, is_some, List, [], ◌∷◌, Text, codes,
  text_eq, ◌≡◌, refl, arith, inl, inr, Bool-cases,
}
use aira_relay.Mutex.{Redis, Mutex, lock, release}
use aira_relay.Mutex.Holding.{Call, lock_call, release_call}
use aira_relay.Mutex.Exclusion.{locked_by, run, AllFail, lock_excludes}

-- A value and the time at which it expires, for each key.
abbrev Store : Type 0
Store = Text → Option (Text × ℕ)

abbrev live : ℕ → Option (Text × ℕ) → Option Text
live now none = none
live now (some (v, end)) = if ltb now end then some v else none

abbrev set : Store → Text → Option (Text × ℕ) → Store
set r k o = λ j. if text_eq k j then o else r j

abbrev renewed : Option Text → ℕ → Option (Text × ℕ)
renewed none end = none
renewed (some v) end = some (v, end)

live-renewed :
    (o : Option Text) (later end : ℕ)
    → live later (renewed o end) ≡ (if ltb later end then o else none)
live-renewed none later end = ground arith
live-renewed (some v) later end = refl

set_nx_lem :
    (now later : ℕ) (r : Store) (k v : Text) (ttl : ℕ) (j : Text)
    → live later ((if is_some (live now (r k)) then r else set r k (some (v, now + ttl))) j) ≡ (
        if text_eq k j
        then (if is_some (live now (r k))
            then live later (r j)
            else if ltb later (now + ttl)
            then some v
            else none)
        else live later (r j))
set_nx_lem now later r k v ttl j = elim (Bool-cases (is_some (live now (r k)))) [
  | inl e ↦ rw e (ground arith)
  | inr e ↦ rw e (ground arith)
]

del_lem :
    (later : ℕ) (r : Store) (k j : Text)
    → live later (set r k none j) ≡ (if text_eq k j then none else live later (r j))
del_lem later r k j = ground arith

pexpire_lem :
    (now later : ℕ) (r : Store) (k : Text) (ttl : ℕ) (j : Text)
    → live later (set r k (renewed (live now (r k)) (now + ttl)) j) ≡ (
        if text_eq k j
        then (if ltb later (now + ttl) then live now (r k) else none)
        else live later (r j))
pexpire_lem now later r k ttl j = ground (arith, live-renewed (live now (r k)) later (now + ttl))

abbrev redis : Redis
redis = record {
  Store = Store;
  get = λ now r k. live now (r k);
  set_nx = λ now r k v ttl. (
    if is_some (live now (r k)) then r else set r k (some (v, now + ttl)),
    if is_some (live now (r k)) then false else true,
  );
  del = λ r k. set r k none;
  pexpire = λ now r k ttl. set r k (renewed (live now (r k)) (now + ttl));
  set_nx-answer = λ now r k v ttl. refl;
  get-set_nx = λ now later r k v ttl j h. set_nx_lem now later r k v ttl j;
  get-del = λ later r k j. del_lem later r k j;
  get-pexpire = λ now later r k ttl j h. pexpire_lem now later r k ttl j;
}

abbrev mutex : Mutex
mutex = record { keys = codes "chat" ∷ codes "1" ∷ []; ttl = 60000 }

abbrev empty_store : Store
empty_store k = none

-- Another asks for the lock, and then tries to release a handle that has run out.
abbrev two_calls : List (ℕ × Call)
two_calls =
    (100, lock_call mutex (codes "B"))
    ∷ (200, release_call (locked_by redis mutex (codes "C")))
    ∷ []

lock_excludes_example :
    let l = locked_by redis mutex (codes "A") in
    let (s, answer) = lock redis 0 mutex (codes "A") empty_store in
    let end = release redis 300 l (run redis two_calls s) in
    (answer ≡ some l)
    × AllFail redis l two_calls s
    × (end.1 ≡ true)
    × (live 300 (end.0 l.key) ≡ none)
unfolding text_eq
lock_excludes_example =
    lock_excludes redis empty_store mutex (codes "A") 0 300 two_calls refl (omega arith)
      (omega arith) (omega arith, omega arith, refl, (omega arith, omega arith, refl, tt))
