-- ===== src/Jobs/Single.antt =====
-- How many jobs run at once.
use aira_relay.Base.{
  ℕ, ◌+◌, ◌≤◌, true, if◌then◌else◌, some, is_some, List, [], ◌∷◌, length, ◌≡◌, refl, ap, ◌∙◌, arith,
}
use aira_relay.Jobs.{
  PeriodicRunner, new_periodic, start_periodic, tick, finish_periodic, stop_periodic, PeriodicStep,
  PeriodicReach, DelayedRunner, new_delayed, scheduled, schedule, without_timer, fire,
  finish_delayed, cancel, DelayedStep, DelayedReach,
}

abbrev Busy : PeriodicRunner → Type 0
Busy p = p.running ≡ (if p.is_working then 1 else 0)

step-Busy : {p q : PeriodicRunner} → PeriodicStep p q → Busy p → Busy q
unfolding start_periodic tick finish_periodic stop_periodic
step-Busy PeriodicStep.start_step h = ground arith
step-Busy (PeriodicStep.tick_step i) h = ground arith
step-Busy (PeriodicStep.finish_step r) h = ground arith
step-Busy PeriodicStep.stop_step h = ground arith

-- A periodic runner never runs two jobs at once, however it is started and stopped, and knows whether
-- one runs.
pub periodic_single :
    {p : PeriodicRunner}
    → PeriodicReach p
    → (p.running ≤ 1) × (p.running ≡ (if p.is_working then 1 else 0))
unfolding new_periodic
periodic_single PeriodicReach.begun = (omega arith, refl)
periodic_single (PeriodicReach.after r s) =
    let busy = step-Busy s (periodic_single r).1 in (ground (arith, busy), busy)

-- The jobs that run or wait.
abbrev Single : DelayedRunner → Type 0
Single d = length d.timers + d.running ≡ (if is_some d.timeout then 1 else 0)

no_timer : (ts : List ℕ) → length ts ≡ 0 → ts ≡ []
no_timer [] h = refl
no_timer (t ∷ ts) h = ground arith

fired_timer : (h : ℕ) → without_timer h (h ∷ []) ≡ []
fired_timer h = ground arith

fire-Single :
    (h : ℕ) (rest : List ℕ) (d : DelayedRunner) → d.timers ≡ h ∷ rest → Single d → Single (fire h d)
unfolding fire
fire-Single h rest d e s =
    let count : length d.timers ≡ length rest + 1 = ap length e ∙ omega arith in
    let alone : rest ≡ [] = no_timer rest (ground (arith, count, s)) in
    let gone : without_timer h d.timers ≡ [] =
      ap (without_timer h) (e ∙ ap (λ ts. h ∷ ts) alone) ∙ fired_timer h in
    rw gone (ground (arith, count, s))

step-Single : {d e : DelayedRunner} → DelayedStep d e → Single d → Single e
unfolding schedule scheduled finish_delayed
step-Single {d} DelayedStep.schedule_step s = ground (arith, no_timer d.timers)
step-Single {d} (DelayedStep.fire_step h rest e) s = fire-Single h rest d e s
step-Single {d} (DelayedStep.finish_step r) s = ground arith

-- A delayed runner that is never cancelled runs no two jobs at once, and has one waiting or running
-- exactly if it refuses another.
pub delayed_single :
    {d : DelayedRunner}
    → DelayedReach d
    → (d.running ≤ 1) × (length d.timers + d.running ≡ (if scheduled d then 1 else 0))
unfolding new_delayed scheduled
delayed_single DelayedReach.begun = (omega arith, refl)
delayed_single (DelayedReach.after r s) =
    let single = step-Single s (delayed_single r).1 in (ground (arith, single), single)

-- Cancelling a delayed runner whose job runs does not stop the job, but lets the runner take another:
-- once that fires, two jobs run at once, and the first that finishes makes the runner take a third.
pub cancel_running :
    (d : DelayedRunner) (h : ℕ)
    → d.timeout ≡ some h
    → d.timers ≡ []
    → d.running ≡ 1
    → let (e, taken) = schedule (cancel d) in
      let f = fire d.next e in
      (taken ≡ true) × (f.running ≡ 2) × ((schedule (finish_delayed f)).1 ≡ true)
unfolding schedule scheduled cancel fire finish_delayed
cancel_running d h t w r = (rw t refl, rw t (omega (arith, r)), refl)
