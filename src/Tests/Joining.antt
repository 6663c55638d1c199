-- ===== src/Tests/Joining.antt =====
-- Two tasks of which both have the dependents 7 and 9, on the scheduler of `Tests/Adding.antt`: task 7
-- waits for three tasks and task 9 for two.
use enki_ts.Base.{ℕ, ◌<◌, ◌≡◌, refl, List, [], ◌∷◌, true, arith, ◌==◌, ◌||◌, if◌then◌else◌}
use enki_ts.IntrusiveList.Chain.{has}
use enki_ts.Scheduler.{completable, Scheduler}
use enki_ts.Scheduler.Add.Loop.{Ends}
use enki_ts.Scheduler.Add.Joining.{complete_each, Joined}
use enki_ts.Scheduler.Add.JoinAll.{leads, Joins, complete_each-Joined}
use enki_ts.Tests.Adding.{ten, idle_scheduler}

abbrev lead_to : ℕ → List ℕ
lead_to t = if t == 3 || t == 5 then 7 ∷ 9 ∷ [] else []

abbrev awaited : ℕ → ℕ
awaited d = if d == 7 then 3 else 2

abbrev joining : Scheduler
joining = record idle_scheduler {
  tasks = λ t. record ten {
    kind = completable;
    dependencies_count = awaited t;
    dependents = lead_to t;
  };
}

led : (d : ℕ) → 0 < leads lead_to d (3 ∷ 5 ∷ []) → has d (7 ∷ 9 ∷ []) ≡ true
led d h = ground (arith, h)

joining-Joins : Joins awaited lead_to (3 ∷ 5 ∷ []) joining
joining-Joins = record {
  same_deps = λ t. refl;
  distinct = ((refl, (refl, tt)), ((refl, (refl, tt)), tt));
  waits = λ d h. record {
    is_completable = refl;
    leaf = ground (arith, led d h);
    to_go = ground arith;
    small = ground arith;
  };
  enough = λ d. ground arith;
  apart = λ d h. ground (arith, led d h);
}

-- Task 9 is completed.
complete_each-Joined_example :
    Ends (λ _ s'. Joined 9 2 2 joining s') (complete_each 2 20 (3 ∷ 5 ∷ []) 0 joining)
complete_each-Joined_example =
    complete_each-Joined 0 20 0 awaited lead_to (3 ∷ 5 ∷ []) joining 9 joining-Joins (omega arith)
