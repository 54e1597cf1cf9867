-- ===== src/Jobs.antt =====
-- The job runners: waha-plus/src/utils/SinglePeriodicJobRunner.ts and SingleDelayedJobRunner.ts.
pub mod Single
pub mod Tests
use aira_relay.Base.{
  ℕ, zero, suc, ◌+◌, ◌-◌, ◌<◌, Bool, true, false, not, ◌&&◌, ◌==◌, if◌then◌else◌, Option, none,
  some, is_some, List, [], ◌∷◌, ◌++◌, filter, ◌≡◌,
}

-- `SinglePeriodicJobRunner`; `running` counts the calls of the job that have not finished.
pub record PeriodicRunner : Type 0 where
  pub interval : Bool
  pub is_working : Bool
  pub running : ℕ

unfoldable pub new_periodic : PeriodicRunner
new_periodic = record { interval = false; is_working = false; running = 0 }

unfoldable pub start_periodic : PeriodicRunner → PeriodicRunner × Bool
start_periodic p = if p.interval then (p, false) else (record p { interval = true }, true)

-- The callback of the interval.
unfoldable pub tick : PeriodicRunner → PeriodicRunner
tick p = if p.is_working then p else record p { is_working = true; running = p.running + 1 }

-- The `finally` of a job.
unfoldable pub finish_periodic : PeriodicRunner → PeriodicRunner
finish_periodic p = record p { is_working = false; running = p.running - 1 }

unfoldable pub stop_periodic : PeriodicRunner → PeriodicRunner
stop_periodic p = record p { interval = false }

-- One event of a runner: timers call back while they are set, and jobs finish that run.
pub data PeriodicStep (p : PeriodicRunner) : PeriodicRunner → Type 0 where
  start_step : PeriodicStep p (start_periodic p).0
  tick_step : p.interval ≡ true → PeriodicStep p (tick p)
  finish_step : 0 < p.running → PeriodicStep p (finish_periodic p)
  stop_step : PeriodicStep p (stop_periodic p)

pub data PeriodicReach : PeriodicRunner → Type 0 where
  begun : PeriodicReach new_periodic
  after : {p q : PeriodicRunner} → PeriodicReach p → PeriodicStep p q → PeriodicReach q

-- `SingleDelayedJobRunner`: `timeout` is the handle that the field holds, `timers` the handles whose
-- timers are still to fire, and `next` the next handle.
pub record DelayedRunner : Type 0 where
  pub timeout : Option ℕ
  pub timers : List ℕ
  pub next : ℕ
  pub running : ℕ

unfoldable pub new_delayed : DelayedRunner
new_delayed = record { timeout = none; timers = []; next = 0; running = 0 }

unfoldable pub scheduled : DelayedRunner → Bool
scheduled d = is_some d.timeout

unfoldable pub schedule : DelayedRunner → DelayedRunner × Bool
unfolding scheduled
schedule d =
    if scheduled d
    then (d, false)
    else (record d { timeout = some d.next; timers = d.next ∷ d.timers; next = d.next + 1 }, true)

abbrev pub without_timer : ℕ → List ℕ → List ℕ
without_timer h = filter (λ t. not (t == h))

-- The callback of a timer; the field keeps its handle until the job has finished.
unfoldable pub fire : ℕ → DelayedRunner → DelayedRunner
fire h d = record d { timers = without_timer h d.timers; running = d.running + 1 }

unfoldable pub finish_delayed : DelayedRunner → DelayedRunner
finish_delayed d = record d { timeout = none; running = d.running - 1 }

unfoldable pub cancel : DelayedRunner → DelayedRunner
cancel d = elim d.timeout [
  | none ↦ d
  | some h ↦ record d { timeout = none; timers = without_timer h d.timers }
]

-- One event of a runner that is never cancelled.
pub data DelayedStep (d : DelayedRunner) : DelayedRunner → Type 0 where
  schedule_step : DelayedStep d (schedule d).0
  fire_step : (h : ℕ) (rest : List ℕ) → d.timers ≡ h ∷ rest → DelayedStep d (fire h d)
  finish_step : 0 < d.running → DelayedStep d (finish_delayed d)

pub data DelayedReach : DelayedRunner → Type 0 where
  begun : DelayedReach new_delayed
  after : {d e : DelayedRunner} → DelayedReach d → DelayedStep d e → DelayedReach e
