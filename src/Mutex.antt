-- ===== src/Mutex.antt =====
-- The distributed mutex: waha-plus/src/modules/rmutex, RedisMutexClient.ts, mutex.ts and
-- rmutex.service.ts.
pub mod Holding
pub mod Exclusion
pub mod Tests
use aira_relay.Base.{
  ℕ, ◌+◌, ◌<◌, ◌≤◌, Bool, true, false, ◌&&◌, ltb, if◌then◌else◌, Option, none, some, is_some,
  get_or, List, [], ◌∷◌, ◌++◌, Text, codes, text_eq, join, ◌≡◌,
}

-- The Redis commands that the client uses, each at its time: `GET`, `SET key value PX ttl NX` (true
-- for the answer OK), `DEL` and `PEXPIRE`, with what their documentation says of a later `GET`.
pub record Redis : Type 1 where
  pub Store : Type 0
  pub get : (now : ℕ) → Store → Text → Option Text
  pub set_nx : (now : ℕ) → Store → Text → Text → (ttl : ℕ) → Store × Bool
  pub del : Store → Text → Store
  pub pexpire : (now : ℕ) → Store → Text → (ttl : ℕ) → Store
  pub set_nx-answer :
      (now : ℕ) (r : Store) (k v : Text) (ttl : ℕ)
      → (set_nx now r k v ttl).1 ≡ (if is_some (get now r k) then false else true)
  pub get-set_nx :
      (now later : ℕ) (r : Store) (k v : Text) (ttl : ℕ) (j : Text)
      → now ≤ later
      → get later (set_nx now r k v ttl).0 j ≡ (
          if text_eq k j
          then (if is_some (get now r k)
              then get later r j
              else if ltb later (now + ttl)
              then some v
              else none)
          else get later r j)
  pub get-del :
      (later : ℕ) (r : Store) (k j : Text)
      → get later (del r k) j ≡ (if text_eq k j then none else get later r j)
  pub get-pexpire :
      (now later : ℕ) (r : Store) (k : Text) (ttl : ℕ) (j : Text)
      → now ≤ later
      → get later (pexpire now r k ttl) j ≡ (
          if text_eq k j
          then (if ltb later (now + ttl) then get now r k else none)
          else get later r j)

-- `RMutexImpl` with its keys, and `RMutexLockedImpl`.
pub record Mutex : Type 0 where
  pub keys : List Text
  pub ttl : ℕ

pub record Locked : Type 0 where
  pub key : Text
  pub lock_id : Text
  pub ttl : ℕ

abbrev pub is_own : Option Text → Text → Bool
is_own none lock_id = false
is_own (some v) lock_id = text_eq v lock_id

-- `RMutexService.get`: a missing time to live is the service's, of a minute if it has none or 0.
abbrev pub default_ttl : Option ℕ → ℕ
default_ttl none = 60000
default_ttl (some n) = if ltb 0 n then n else 60000

unfoldable pub get_mutex : Option ℕ → Text → Option ℕ → Mutex
get_mutex service_ttl key ttl = record {
  keys = key ∷ [];
  ttl = get_or ttl (default_ttl service_ttl);
}

unfoldable pub with_key : Text → Mutex → Mutex
with_key key m = record m { keys = m.keys ++ (key ∷ []) }

unfoldable pub combined_key : Mutex → Text
combined_key m = join (codes "-") m.keys

module _ (redis : Redis) where
  unfoldable pub acquire_lock : (now : ℕ) → Text → Text → ℕ → redis.Store → redis.Store × Bool
  acquire_lock now key lock_id ttl r = redis.set_nx now r key lock_id ttl

  -- The scripts compare and change in one step.
  unfoldable pub release_lock : (now : ℕ) → Text → Text → redis.Store → redis.Store × Bool
  release_lock now key lock_id r =
      if is_own (redis.get now r key) lock_id then (redis.del r key, true) else (r, false)

  unfoldable pub extend_lock : (now : ℕ) → Text → Text → ℕ → redis.Store → redis.Store × Bool
  extend_lock now key lock_id ttl r =
      if is_own (redis.get now r key) lock_id
      then (redis.pexpire now r key ttl, true)
      else (r, false)

  -- `lock`, with the new random id.
  unfoldable pub lock :
      (now : ℕ) → Mutex → (lock_id : Text) → redis.Store → redis.Store × Option Locked
  unfolding acquire_lock combined_key
  lock now m lock_id r =
      let key = combined_key m in
      let answer = acquire_lock now key lock_id m.ttl r in
      (
        answer.0,
        if answer.1 then some (record { key = key; lock_id = lock_id; ttl = m.ttl }) else none,
      )

  unfoldable pub release : (now : ℕ) → Locked → redis.Store → redis.Store × Bool
  unfolding release_lock
  release now l = release_lock now l.key l.lock_id

  unfoldable pub extend : (now : ℕ) → Locked → Option ℕ → redis.Store → redis.Store × Bool
  unfolding extend_lock
  extend now l ttl = extend_lock now l.key l.lock_id (get_or ttl l.ttl)
