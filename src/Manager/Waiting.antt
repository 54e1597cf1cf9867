-- ===== src/Manager/Waiting.antt =====
-- `waitUntil` of waha-plus/src/utils/promiseTimeout.ts, with which the manager waits for a session.
use aira_relay.Base.{
  ℕ, zero, suc, ◌+◌, ◌-◌, ◌≤◌, ◌<◌, Bool, true, not, ◌&&◌, ltb, if◌then◌else◌, Option, none, some,
  is_some, ◌≡◌, refl, arith, inl, inr, Bool-cases, ◌↔◌,
}
use mathlib.Core.Option

-- The program's state `S` changes while the caller sleeps: `pass ms` is what it is after `sleep(ms)`,
-- and `clock` is `Date.now()`.
module _ {S : Type 0} (clock : S → ℕ) (pass : ℕ → S → S) (condition : S → Bool) where
  -- The loop, `fuel` polls at most; `none` if they do not suffice.
  unfoldable pub wait_loop : (every timeout begin : ℕ) → ℕ → S → Option (S × Bool)
  wait_loop every timeout begin zero s = none
  wait_loop every timeout begin (suc fuel) s =
      let rest = wait_loop every timeout begin fuel (pass every s) in
      let result = condition s in
      if not result && ltb (clock s - begin) timeout then rest else some (s, result)

  unfoldable pub wait_until : (every timeout : ℕ) → ℕ → S → Option (S × Bool)
  unfolding wait_loop
  wait_until every timeout fuel s = wait_loop every timeout (clock s) fuel s

  -- The state at the n-th poll.
  abbrev pub at_poll : ℕ → ℕ → S → S
  at_poll every zero s = s
  at_poll every (suc n) s = at_poll every n (pass every s)

  -- The condition holds at poll `n`, after sleeps that each began in time.
  abbrev pub HoldsAt : (every timeout begin : ℕ) → ℕ → S → Type 0
  HoldsAt every timeout begin zero s = condition s ≡ true
  HoldsAt every timeout begin (suc n) s =
      (ltb (clock s - begin) timeout ≡ true) × HoldsAt every timeout begin n (pass every s)

  wait_loop_holds :
      (every timeout begin fuel n : ℕ) (s : S)
      → HoldsAt every timeout begin n s
      → n < fuel
      → Option.map (λ p. p.1) (wait_loop every timeout begin fuel s) ≡ some true
  unfolding wait_loop
  wait_loop_holds every timeout begin zero n s h l = ground arith
  wait_loop_holds every timeout begin (suc fuel) zero s h l = ground arith
  wait_loop_holds every timeout begin (suc fuel) (suc n) s h l =
      let rest = wait_loop_holds every timeout begin fuel n (pass every s) h.1 (omega arith) in
      elim (Bool-cases (condition s)) [ inl e ↦ rw e refl | inr e ↦ rw (e, h.0) rest ]

  wait_loop_found :
      (every timeout begin fuel : ℕ) (s : S)
      → Option.map (λ p. p.1) (wait_loop every timeout begin fuel s) ≡ some true
      → (n : ℕ) × HoldsAt every timeout begin n s
  unfolding wait_loop
  wait_loop_found every timeout begin zero s h = absurd (ground arith)
  wait_loop_found every timeout begin (suc fuel) s h = elim (Bool-cases (condition s)) [
    | inl e ↦ (0, e)
    | inr e ↦ elim (Bool-cases (ltb (clock s - begin) timeout)) [
      | inl l ↦
          let (n, g) = wait_loop_found every timeout begin fuel (pass every s) (ground arith) in
          (suc n, (l, g))
      | inr l ↦ absurd (ground arith)
    ]
  ]

  module _ (pass-clock : (ms : ℕ) (s : S) → clock s + ms ≤ clock (pass ms s)) where
    wait_loop_returns :
        (every timeout begin fuel : ℕ) (s : S)
        → 1 ≤ every
        → begin ≤ clock s
        → timeout + begin < fuel + clock s
        → is_some (wait_loop every timeout begin (suc fuel) s) ≡ true
    unfolding wait_loop
    wait_loop_returns every timeout begin zero s h b e = ground arith
    wait_loop_returns every timeout begin (suc fuel) s h b e = ground (
      arith,
      pass-clock every s,
      wait_loop_returns every timeout begin fuel (pass every s) h
          (omega (arith, pass-clock every s)) (omega (arith, pass-clock every s)),
    )

    -- `waitUntil` ends when each sleep takes at least its time and that is not 0: `timeout` many
    -- sleeps are enough.
    pub wait_until_returns :
        (every timeout : ℕ) (s : S)
        → 1 ≤ every
        → is_some (wait_until every timeout (suc (suc timeout)) s) ≡ true
    unfolding wait_until
    wait_until_returns every timeout s h =
        wait_loop_returns every timeout (clock s) (suc timeout) s h (omega arith) (omega arith)

    polls_in_time :
        (every timeout begin n : ℕ) (s : S)
        → 1 ≤ every
        → HoldsAt every timeout begin n s
        → n ≤ timeout + begin - clock s
    polls_in_time every timeout begin zero s h g = omega arith
    polls_in_time every timeout begin (suc n) s h g =
        ground (arith, pass-clock every s, polls_in_time every timeout begin n (pass every s) h g.1)

    -- When each sleep takes at least its time and that is not 0, `waitUntil` answers true exactly if
    -- the condition holds at the first poll or at one that follows sleeps which all began before the
    -- timeout.
    pub wait_until_iff :
        (every timeout : ℕ) (s : S)
        → 1 ≤ every
        → (Option.map (λ p. p.1) (wait_until every timeout (suc (suc timeout)) s) ≡ some true)
          ↔ ((n : ℕ) × HoldsAt every timeout (clock s) n s)
    unfolding wait_until
    wait_until_iff every timeout s h = (
      wait_loop_found every timeout (clock s) (suc (suc timeout)) s,
      λ g.
          wait_loop_holds every timeout (clock s) (suc (suc timeout)) g.0 s g.1
            (omega (arith, polls_in_time every timeout (clock s) g.0 s h g.1)),
    )
