-- ===== src/CApi/Launching.antt =====
-- src/TaskScheduler_c.cpp, enkiAddTaskSetMinRange: what the caller may count on.
use enki_ts.Base.{ℕ, ◌+◌, ◌<◌, ◌≡◌}
use enki_ts.Scheduler.{Scheduler}
use enki_ts.Scheduler.Split.{weight}
use enki_ts.Scheduler.Work.{work, pieces}

-- A task set of `set_size` indexes after it was added: each index is executed or waits in a pipe,
-- and the task is complete exactly when nothing of it waits.
pub record Added (t set_size : ℕ) (s s' : Scheduler) : Type 0 where
  pub total :
      (w : ℕ → ℕ) → work w t s' ≡ work w t s + weight w (record { start = 0; end = set_size })
  pub complete : pieces t s' ≡ 0 → (s'.tasks t).running_count ≡ 0
  pub incomplete : 0 < pieces t s' → (s'.tasks t).running_count ≡ 1 + pieces t s'
