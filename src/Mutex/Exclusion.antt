-- ===== src/Mutex/Exclusion.antt =====
-- What a lock of waha-plus/src/modules/rmutex keeps others from.
use aira_relay.Base.{
  ℕ, ◌+◌, ◌<◌, ◌≤◌, true, false, if◌then◌else◌, none, some, List, [], ◌∷◌, Text, text_eq,
  text_eq_refl, text_eq_iff, ◌≡◌, refl, ap, arith, inl, inr, Bool-cases,
}
use aira_relay.Mutex.{
  Redis, Mutex, Locked, combined_key, acquire_lock, release_lock, extend_lock, lock, release,
  extend,
}
use aira_relay.Mutex.Holding.{
  Call, lock_call, release_call, extend_call, caller, IsHeld, call, succeeded, call-IsHeld,
}

module _ (redis : Redis) where
  -- The key that a call is about.
  abbrev pub target : Call → Text
  target (lock_call m lock_id) = combined_key m
  target (release_call o) = o.key
  target (extend_call o ttl) = o.key

  refused :
      (r : redis.Store) (l : Locked) (now : ℕ) (c : Call)
      → redis.get now r l.key ≡ some l.lock_id
      → text_eq (caller c) l.lock_id ≡ false
      → target c ≡ l.key
      → succeeded redis now c r ≡ false
  unfolding lock acquire_lock release release_lock extend extend_lock
  refused r l now (lock_call m id) g d e =
      ground (arith, redis.set_nx-answer now r (combined_key m) id m.ttl, g, ap (redis.get now r) e)
  refused r l now (release_call o) g d e = ground (
    arith,
    g,
    ap (redis.get now r) e,
    text_eq_iff l.lock_id o.lock_id,
    text_eq_iff o.lock_id l.lock_id,
  )
  refused r l now (extend_call o ttl) g d e = ground (
    arith,
    g,
    ap (redis.get now r) e,
    text_eq_iff l.lock_id o.lock_id,
    text_eq_iff o.lock_id l.lock_id,
  )

  -- Calls in the order of their times, from `now` on and before `end`, by others than the lock.
  abbrev pub AreOthers : Locked → (now end : ℕ) → List (ℕ × Call) → Type 0
  AreOthers l now end [] = Unit
  AreOthers l now end ((t, c) ∷ calls) =
      (now ≤ t) × (t < end) × (text_eq (caller c) l.lock_id ≡ false) × AreOthers l t end calls

  abbrev pub run : List (ℕ × Call) → redis.Store → redis.Store
  run [] r = r
  run ((t, c) ∷ calls) r = run calls (call redis t c r)

  -- Every call about the lock's key fails.
  abbrev pub AllFail : Locked → List (ℕ × Call) → redis.Store → Type 0
  AllFail l [] r = Unit
  AllFail l ((t, c) ∷ calls) r =
      ((if text_eq (target c) l.key then succeeded redis t c r else false) ≡ false)
      × AllFail l calls (call redis t c r)

  run-IsHeld :
      (r : redis.Store) (l : Locked) (now end : ℕ) (calls : List (ℕ × Call))
      → AreOthers l now end calls
      → IsHeld redis r l now end
      → AllFail l calls r
        × ((later : ℕ)
            → now ≤ later
            → later < end
            → AreOthers l now (later + 1) calls
            → redis.get later (run calls r) l.key ≡ some l.lock_id)
  run-IsHeld r l now end [] o held = (tt, λ later a b s. held later a b)
  run-IsHeld r l now end ((t, c) ∷ calls) (a, b, d, o) held =
      let from_t : IsHeld redis r l t end = λ later x y. held later (omega arith) y in
      let rest =
        run-IsHeld (call redis t c r) l t end calls o (call-IsHeld redis r l t end c b d from_t) in
      (
        (
          elim (Bool-cases (text_eq (target c) l.key)) [
            | inl e ↦ rw e (refused r l t c (held t a b) d ((text_eq_iff (target c) l.key).0 e))
            | inr e ↦ rw e refl
          ],
          rest.0,
        ),
        λ later x y s. rest.1 later (omega (arith, s.1)) y s.3,
      )

  abbrev pub locked_by : Mutex → Text → Locked
  locked_by m id = record { key = combined_key m; lock_id = id; ttl = m.ttl }

  locked-IsHeld :
      (r : redis.Store) (m : Mutex) (id : Text) (now : ℕ)
      → redis.get now r (combined_key m) ≡ none
      → IsHeld redis (lock redis now m id r).0 (locked_by m id) now (now + m.ttl)
  unfolding lock acquire_lock
  locked-IsHeld r m id now free later a b = ground (
    arith,
    redis.get-set_nx now later r (combined_key m) id m.ttl (combined_key m) a,
    text_eq_refl (combined_key m),
  )

  lock-free :
      (r : redis.Store) (m : Mutex) (id : Text) (now : ℕ)
      → redis.get now r (combined_key m) ≡ none
      → (lock redis now m id r).1 ≡ some (locked_by m id)
  unfolding lock acquire_lock
  lock-free r m id now free = ground (arith, redis.set_nx-answer now r (combined_key m) id m.ttl)

  release_own :
      (r : redis.Store) (l : Locked) (now : ℕ)
      → redis.get now r l.key ≡ some l.lock_id
      → ((release redis now l r).1 ≡ true) × (redis.get now (release redis now l r).0 l.key ≡ none)
  unfolding release release_lock
  release_own r l now g = (
    ground (arith, g, text_eq_refl l.lock_id),
    ground (arith, g, text_eq_refl l.lock_id, redis.get-del now r l.key l.key, text_eq_refl l.key),
  )

  -- A free mutex is locked by the first that asks. While its time to live lasts, whatever others with
  -- other ids ask and in whatever order, none of them locks, releases or extends the same key; its
  -- owner can still release it, and then the key is free.
  pub lock_excludes :
      (r : redis.Store) (m : Mutex) (id : Text) (begin later : ℕ) (calls : List (ℕ × Call))
      → redis.get begin r (combined_key m) ≡ none
      → begin ≤ later
      → later < begin + m.ttl
      → AreOthers (locked_by m id) begin (later + 1) calls
      → let l = locked_by m id in
        let (s, answer) = lock redis begin m id r in
        let end = release redis later l (run calls s) in
        (answer ≡ some l)
        × AllFail l calls s
        × (end.1 ≡ true)
        × (redis.get later end.0 l.key ≡ none)
  lock_excludes r m id begin later calls free a b others =
      let l = locked_by m id in
      let s = (lock redis begin m id r).0 in
      let held : IsHeld redis s l begin (later + 1) =
        λ t x y. locked-IsHeld r m id begin free t x (omega arith) in
      let (fail, still) = run-IsHeld s l begin (later + 1) calls others held in
      let (released, gone) =
        release_own (run calls s) l later (still later a (omega arith) others) in
      (lock-free r m id begin free, fail, released, gone)
