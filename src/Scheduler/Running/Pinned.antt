-- ===== src/Scheduler/Running/Pinned.antt =====
-- src/TaskScheduler.cpp, RunPinnedTasks: it runs all pinned tasks of the thread, in order.
use enki_ts.Base.{
  ℕ, zero, suc, ◌<◌, ◌≡◌, ◌≢◌, ◌⊎◌, refl, ap, ◌∙◌, Option, none, some, true, arith, List, [], ◌∷◌,
  length, inl, inr,
}
use enki_ts.Scheduler.{
  Event, executed_pinned, Scheduler, done, Action, and_then, ◌>>=◌, ◌>>◌, skip, sub32, set_task,
  fetch_sub_running, record_event,
}
use enki_ts.Scheduler.Add.{set_pinned}
use enki_ts.Scheduler.Add.Loop.{Ends}
use enki_ts.Scheduler.Add.Tiling.{Ends-map}
use enki_ts.Scheduler.Add.Launch.{after_complete, task_complete_leaf}
use enki_ts.Scheduler.Running.{complete, read_pinned, run_pinned_tasks_of}

-- The pinned tasks that were executed, latest first.
abbrev pub runs : List Event → List ℕ
runs [] = []
runs (executed_pinned t thread ∷ log) = t ∷ runs log
runs (_ ∷ log) = runs log

-- `q` executed in its order after `done_before`, latest first.
abbrev pub after : List ℕ → List ℕ → List ℕ
after [] done_before = done_before
after (t ∷ q) done_before = after q (t ∷ done_before)

abbrev pub AllLeaf : List ℕ → Scheduler → Type 0
AllLeaf [] s = Unit {0}
AllLeaf (t ∷ q) s = ((s.tasks t).dependents ≡ []) × AllLeaf q s

abbrev pub AllComplete : List ℕ → Scheduler → Type 0
AllComplete [] s = Unit {0}
AllComplete (t ∷ q) s = ((s.tasks t).running_count ≡ 0) × AllComplete q s

-- What a run of the pinned tasks `q`, which wait for `thread` at `priority`, does.
pub record RanAll (thread priority : ℕ) (q : List ℕ) (s s' : Scheduler) : Type 0 where
  pub empty : s'.pinned priority thread ≡ []
  pub others : (p u : ℕ) → (p ≢ priority) ⊎ (u ≢ thread) → s'.pinned p u ≡ s.pinned p u
  pub in_order : runs s'.log ≡ after q (runs s.log)
  pub all_complete : AllComplete q s'
  pub stays : (t : ℕ) → (s.tasks t).running_count ≡ 0 → (s'.tasks t).running_count ≡ 0
  pub same_dependents : (t : ℕ) → (s'.tasks t).dependents ≡ (s.tasks t).dependents

pub AllLeaf-same :
    (q : List ℕ) (s s' : Scheduler)
    → ((t : ℕ) → (s'.tasks t).dependents ≡ (s.tasks t).dependents)
    → AllLeaf q s
    → AllLeaf q s'
AllLeaf-same [] s s' same l = l
AllLeaf-same (t ∷ q) s s' same (leaf, l) = (same t ∙ leaf, AllLeaf-same q s s' same l)

module _ (depth fuel thread priority : ℕ) where
  -- The state after a round that ran `t` and left `ts`.
  abbrev executed_state : ℕ → List ℕ → Scheduler → Scheduler
  executed_state t ts s =
      let s' = set_pinned priority thread ts s in
      record s' { log = executed_pinned t thread ∷ s.log }

  abbrev lowered : ℕ → Scheduler → Scheduler
  lowered t s =
      set_task t (record (s.tasks t) { running_count = sub32 (s.tasks t).running_count 1 }) s

  abbrev round : ℕ → List ℕ → Scheduler → Scheduler
  round t ts s = after_complete t true (lowered t (executed_state t ts s))

  abbrev rest : ℕ → Option ℕ → Action
  rest rounds none = skip
  rest rounds (some t) = do
    record_event (executed_pinned t thread)
    _ ← fetch_sub_running t 1
    complete (suc depth) fuel t true thread
    run_pinned_tasks_of (suc depth) fuel rounds thread priority

  read_some :
      (t : ℕ) (ts : List ℕ) (s : Scheduler)
      → s.pinned priority thread ≡ t ∷ ts
      → read_pinned priority thread s ≡ done (some t) (set_pinned priority thread ts s)
  read_some t ts s e =
      ap
        (λ (q : List ℕ). elim q [
          | [] ↦ done none s
          | u ∷ us ↦ done (some u) (set_pinned priority thread us s)
        ])
        e

  run_none :
      (rounds : ℕ) (s : Scheduler)
      → s.pinned priority thread ≡ []
      → run_pinned_tasks_of (suc depth) fuel (suc rounds) thread priority s ≡ done tt s
  unfolding run_pinned_tasks_of
  run_none rounds s e = ground arith

  run_one :
      (rounds t : ℕ) (ts : List ℕ) (s : Scheduler)
      → s.pinned priority thread ≡ t ∷ ts
      → (s.tasks t).dependents ≡ []
      → run_pinned_tasks_of (suc depth) fuel (suc rounds) thread priority s
        ≡ run_pinned_tasks_of (suc depth) fuel rounds thread priority (round t ts s)
  unfolding run_pinned_tasks_of complete
  run_one rounds t ts s e leaf =
      ap (λ r. and_then r (rest rounds)) (read_some t ts s e)
      ∙ ap (λ r. and_then r (λ _. run_pinned_tasks_of (suc depth) fuel rounds thread priority))
          (task_complete_leaf depth fuel t true thread (lowered t (executed_state t ts s))
            (ground (arith, leaf)))

  RanAll-later :
      (t : ℕ) (ts : List ℕ) (s s' : Scheduler)
      → RanAll thread priority ts (round t ts s) s'
      → RanAll thread priority (t ∷ ts) s s'
  RanAll-later t ts s s' r = record {
    empty = r.empty;
    others = λ p u ne. r.others p u ne ∙ elsewhere p u ne;
    in_order = r.in_order;
    all_complete = (r.stays t (ground arith), r.all_complete);
    stays = λ x e. r.stays x (ground arith);
    same_dependents = λ x. r.same_dependents x ∙ ground arith;
  }
    where
      elsewhere :
          (p u : ℕ) → (p ≢ priority) ⊎ (u ≢ thread) → (round t ts s).pinned p u ≡ s.pinned p u
      elsewhere p u (inl ne) = ground arith
      elsewhere p u (inr ne) = ground arith

  -- RunPinnedTasks( threadNum_, priority_ ) on pinned tasks on which nothing depends: with a round more
  -- than there are tasks it ends.
  pub run_pinned_tasks_of-RanAll :
      (q : List ℕ) (rounds : ℕ) (s : Scheduler)
      → s.pinned priority thread ≡ q
      → AllLeaf q s
      → length q < rounds
      → Ends
          (λ _ s'. RanAll thread priority q s s')
          (run_pinned_tasks_of (suc depth) fuel rounds thread priority s)
  run_pinned_tasks_of-RanAll q zero s e l h = absurd (omega arith)
  run_pinned_tasks_of-RanAll [] (suc rounds) s e l h = rw (run_none rounds s e) (record {
    empty = e;
    others = λ p u ne. refl;
    in_order = refl;
    all_complete = tt;
    stays = λ t e'. e';
    same_dependents = λ t. refl;
  })
  run_pinned_tasks_of-RanAll (t ∷ ts) (suc rounds) s e (leaf, l) h =
      rw (run_one rounds t ts s e leaf) (
        Ends-map (run_pinned_tasks_of (suc depth) fuel rounds thread priority (round t ts s))
          (λ _ s' r. RanAll-later t ts s s' r)
          (run_pinned_tasks_of-RanAll ts rounds (round t ts s) (ground arith)
            (AllLeaf-same ts s (round t ts s) (λ x. ground arith) l) (omega arith)))
