-- ===== src/Tests/Pinned.antt =====
-- A thread with three pinned tasks, on the scheduler of `Tests/Adding.antt`.
use enki_ts.Base.{refl, [], ◌∷◌, arith, ◌==◌, if◌then◌else◌}
use enki_ts.Scheduler.{Scheduler}
use enki_ts.Scheduler.Add.Loop.{Ends}
use enki_ts.Scheduler.Running.{run_pinned_tasks}
use enki_ts.Scheduler.Running.AllPinned.{RanPinned, run_pinned_tasks-RanPinned}
use enki_ts.Tests.Adding.{idle_scheduler}

abbrev with_pinned : Scheduler
with_pinned = record idle_scheduler {
  pinned =
      λ priority thread. if priority == 0 then 7 ∷ [] else if priority == 1 then 6 ∷ 5 ∷ [] else [];
}

run_pinned_tasks-RanPinned_example :
    Ends
      (λ _ s'. RanPinned 1 (7 ∷ []) (6 ∷ 5 ∷ []) [] with_pinned s')
      (run_pinned_tasks 1 20 1 with_pinned)
run_pinned_tasks-RanPinned_example =
    run_pinned_tasks-RanPinned 0 20 1 (7 ∷ []) (6 ∷ 5 ∷ []) [] with_pinned refl refl refl (refl, tt)
      (refl, (refl, tt)) tt (omega arith) (omega arith) (omega arith)
