-- ===== src/Tests/Searching.antt =====
-- Thread 1 of the scheduler of `Tests/Adding.antt` looks for a piece.
use enki_ts.Base.{ℕ, ◌+◌, ◌<◌, ◌≤◌, ◌≡◌, ◌≢◌, ◌%◌, ◌^◌, none, [], arith}
use enki_ts.Scheduler.Hash.{hash32}
use enki_ts.Scheduler.Add.Loop.{Ends}
use enki_ts.Scheduler.Running.{find_sub_task}
use enki_ts.Scheduler.Running.Found.{offset, find_sub_task-NoPieces}
use enki_ts.Tests.Adding.{idle_scheduler}

starts_elsewhere : offset 1 20 1 1 0 idle_scheduler ≢ 0 % 2
unfolding hash32
starts_elsewhere e = absurd (omega (arith, e))

fits : offset 1 20 1 1 0 idle_scheduler + 2 ≤ 2 ^ 32
unfolding hash32
fits = omega arith

find_sub_task-NoPieces_example :
    Ends
      (λ found _. found.0 ≡ none → (u : ℕ) → u < 2 → idle_scheduler.pipes 1 u ≡ [])
      (find_sub_task 1 20 1 1 0 idle_scheduler)
find_sub_task-NoPieces_example =
    find_sub_task-NoPieces 1 20 1 1 0 idle_scheduler starts_elsewhere fits
