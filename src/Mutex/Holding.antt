-- ===== src/Mutex/Holding.antt =====
-- What others' calls of waha-plus/src/modules/rmutex leave of a lock.
use aira_relay.Base.{
  ℕ, ◌<◌, ◌≤◌, Bool, false, Option, some, is_some, get_or, Text, text_eq, text_eq_iff, ◌≡◌, ap,
  arith,
}
use aira_relay.Mutex.{
  Redis, Mutex, Locked, combined_key, acquire_lock, release_lock, extend_lock, lock, release,
  extend,
}

-- A call of another holder of handles, by the id that it uses.
pub data Call : Type 0 where
  lock_call : Mutex → (lock_id : Text) → Call
  release_call : Locked → Call
  extend_call : Locked → Option ℕ → Call

abbrev pub caller : Call → Text
caller (lock_call m lock_id) = lock_id
caller (release_call l) = l.lock_id
caller (extend_call l ttl) = l.lock_id

module _ (redis : Redis) where
  -- From `now` to `end` the key has the value of the lock, if nothing happens.
  abbrev pub IsHeld : redis.Store → Locked → (now end : ℕ) → Type 0
  IsHeld r l now end =
      (later : ℕ) → now ≤ later → later < end → redis.get later r l.key ≡ some l.lock_id

  abbrev pub call : (now : ℕ) → Call → redis.Store → redis.Store
  call now (lock_call m lock_id) r = (lock redis now m lock_id r).0
  call now (release_call l) r = (release redis now l r).0
  call now (extend_call l ttl) r = (extend redis now l ttl r).0

  abbrev pub succeeded : (now : ℕ) → Call → redis.Store → Bool
  succeeded now (lock_call m lock_id) r = is_some (lock redis now m lock_id r).1
  succeeded now (release_call l) r = (release redis now l r).1
  succeeded now (extend_call l ttl) r = (extend redis now l ttl r).1

  lock-IsHeld :
      (r : redis.Store) (l : Locked) (now end : ℕ) (m : Mutex) (id : Text)
      → now < end
      → IsHeld r l now end
      → IsHeld (lock redis now m id r).0 l now end
  unfolding lock acquire_lock
  lock-IsHeld r l now end m id h held later a b = ground (
    arith,
    redis.get-set_nx now later r (combined_key m) id m.ttl l.key a,
    held later a b,
    held now (omega arith) h,
    text_eq_iff (combined_key m) l.key,
    ap (redis.get now r),
  )

  release-IsHeld :
      (r : redis.Store) (l : Locked) (now end : ℕ) (o : Locked)
      → now < end
      → text_eq o.lock_id l.lock_id ≡ false
      → IsHeld r l now end
      → IsHeld (release redis now o r).0 l now end
  unfolding release release_lock
  release-IsHeld r l now end o h d held later a b = ground (
    arith,
    redis.get-del later r o.key l.key,
    held later a b,
    held now (omega arith) h,
    text_eq_iff o.key l.key,
    text_eq_iff l.lock_id o.lock_id,
    text_eq_iff o.lock_id l.lock_id,
    ap (redis.get now r),
  )

  extend-IsHeld :
      (r : redis.Store) (l : Locked) (now end : ℕ) (o : Locked) (ttl : Option ℕ)
      → now < end
      → text_eq o.lock_id l.lock_id ≡ false
      → IsHeld r l now end
      → IsHeld (extend redis now o ttl r).0 l now end
  unfolding extend extend_lock
  extend-IsHeld r l now end o ttl h d held later a b = ground (
    arith,
    redis.get-pexpire now later r o.key (get_or ttl o.ttl) l.key a,
    held later a b,
    held now (omega arith) h,
    text_eq_iff o.key l.key,
    text_eq_iff l.lock_id o.lock_id,
    text_eq_iff o.lock_id l.lock_id,
    ap (redis.get now r),
  )

  pub call-IsHeld :
      (r : redis.Store) (l : Locked) (now end : ℕ) (c : Call)
      → now < end
      → text_eq (caller c) l.lock_id ≡ false
      → IsHeld r l now end
      → IsHeld (call now c r) l now end
  call-IsHeld r l now end (lock_call m id) h d held = lock-IsHeld r l now end m id h held
  call-IsHeld r l now end (release_call o) h d held = release-IsHeld r l now end o h d held
  call-IsHeld r l now end (extend_call o ttl) h d held = extend-IsHeld r l now end o ttl h d held
