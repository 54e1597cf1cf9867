-- ===== src/Jobs/Tests.antt =====
-- Runs of the runners, and instances of the theorems.
use aira_relay.Base.{◌≤◌, if◌then◌else◌, some, [], ◌≡◌, refl}
use aira_relay.Jobs.{
  PeriodicRunner, new_periodic, start_periodic, tick, PeriodicStep, PeriodicReach, DelayedRunner,
  new_delayed, schedule, fire,
}
use aira_relay.Jobs.Single.{periodic_single}

abbrev ticked : PeriodicRunner
ticked = tick (tick (start_periodic new_periodic).0)

periodic_single_example :
    (ticked.running ≤ 1) × (ticked.running ≡ (if ticked.is_working then 1 else 0))
unfolding new_periodic start_periodic tick
periodic_single_example = periodic_single (
    PeriodicReach.after
      (PeriodicReach.after (PeriodicReach.after PeriodicReach.begun PeriodicStep.start_step)
        (PeriodicStep.tick_step refl))
      (PeriodicStep.tick_step refl))

abbrev fired : DelayedRunner
fired = fire 0 (schedule new_delayed).0

abbrev job_runs : DelayedRunner
job_runs = record { timeout = some 0; timers = []; next = 1; running = 1 }
