-- ===== src/Tests/Completing.antt =====
-- Two threads: thread 1 waits for task 7 and goes to sleep, then thread 0 completes the task and is
-- about to wake it.
use enki_ts.Base.{◌+◌, ◌≤◌, ◌≡◌, refl, arith, ◌==◌, if◌then◌else◌}
use enki_ts.Scheduler.{task_almost_complete_count}
use enki_ts.Scheduler.Completing.{
  System, move, Reach, begin, later, access, found_none, wait, last, start,
}
use enki_ts.Scheduler.Completing.Counts.{pending, registered, completes, sleeps, all}
use enki_ts.Scheduler.Completing.Safety.{completed_by_one, no_lost_completion}

abbrev asleep_state : (s : System) × Reach 2 s
unfolding move
asleep_state = (
  _,
  later
      (later
        (later (later (later begin (start 7 refl)) (wait 1 7 (omega arith) refl))
          (access 1 (omega arith)))
        (access 1 (omega arith)))
      (found_none 1 7 (omega arith) refl),
)

abbrev woken_state : (s : System) × Reach 2 s
unfolding move
woken_state = (
  _,
  later
      (later
        (later
          (later (later asleep_state.1 (last 0 7 (omega arith) refl refl)) (access 0 (omega arith)))
          (access 0 (omega arith)))
        (access 0 (omega arith)))
      (access 0 (omega arith)),
)

no_lost_completion_example :
    all 2 (sleeps woken_state.0.count) woken_state.0.threads
    ≤ woken_state.0.semaphore + all 2 pending woken_state.0.threads
unfolding move
no_lost_completion_example = no_lost_completion 2 woken_state.0 woken_state.1 (λ i h. ground arith)

completed_by_one_example :
    (all 2 (registered 7) woken_state.0.threads ≡ woken_state.0.waiters 7)
    × (all 2 (completes 7) woken_state.0.threads
        ≤ (if woken_state.0.count 7 == task_almost_complete_count then 1 else 0))
completed_by_one_example = completed_by_one 2 woken_state.0 7 woken_state.1
