-- ===== src/Dependency.antt =====
-- src/TaskScheduler.cpp, class Dependency: the list of the dependents of a task, over a store of
-- tasks and dependencies that are named by their addresses, 0 for NULL.
pub mod Links
pub mod Laws
use enki_ts.Base.{
  ℕ, zero, suc, ◌≡◌, Option, none, some, ap, List, [], ◌∷◌, ◌==◌, if◌then◌else◌, update,
}
use enki_ts.Scheduler.{add32, sub32}

abbrev pub null : ℕ
null = 0

-- `m_pDependents` and `m_DependenciesCount` of each task, and the members of each dependency.
pub record Store : Type 0 where
  pub dependents : ℕ → ℕ
  pub dependencies_count : ℕ → ℕ
  pub dependency_task : ℕ → ℕ
  pub task_to_run : ℕ → ℕ
  pub next : ℕ → ℕ

-- The `while` of ClearDependency from `pDependent` on; none if the rounds are used up.
unfoldable pub unlink : ℕ → ℕ → ℕ → (ℕ → ℕ) → Option (ℕ → ℕ)
unlink zero this dependent next = none
unlink (suc fuel) this dependent next =
    let rest = unlink fuel this (next dependent) next in
    if dependent == null
    then some next
    else if this == next dependent
    then some (update next dependent (next this))
    else rest

-- The end of ClearDependency.
abbrev pub forget : ℕ → Store → Store
forget this s = record s {
  task_to_run = update s.task_to_run this null;
  dependency_task = update s.dependency_task this null;
  next = update s.next this null;
}

-- ClearDependency.
unfoldable pub clear_dependency : ℕ → ℕ → Store → Option Store
unfolding unlink
clear_dependency fuel this s =
    let task = s.dependency_task this in
    let run = s.task_to_run this in
    let counts = update s.dependencies_count run (sub32 (s.dependencies_count run) 1) in
    let walked = unlink fuel this (s.dependents task) s.next in
    if task == null
    then some (forget this s)
    else if this == s.dependents task
    then some (
        forget this (record s {
          dependents = update s.dependents task (s.next this);
          dependencies_count = counts;
        }))
    else elim walked [
      | none ↦ none
      | some next ↦ some (forget this (record s { next = next; dependencies_count = counts }))
    ]

-- What SetDependency does after ClearDependency, and what the constructor with two arguments does.
unfoldable pub link_dependency : ℕ → ℕ → ℕ → Store → Store
link_dependency this task run s = record s {
  dependency_task = update s.dependency_task this task;
  task_to_run = update s.task_to_run this run;
  next = update s.next this (s.dependents task);
  dependents = update s.dependents task this;
  dependencies_count = update s.dependencies_count run (add32 (s.dependencies_count run) 1);
}

-- SetDependency.
unfoldable pub set_dependency : ℕ → ℕ → ℕ → ℕ → Store → Option Store
unfolding clear_dependency link_dependency
set_dependency fuel this task run s = elim (clear_dependency fuel this s) [
  | none ↦ none
  | some cleared ↦ some (link_dependency this task run cleared)
]

-- The `while` of the move constructor, on the links behind the node `at`.
unfoldable pub relink : ℕ → ℕ → ℕ → ℕ → (ℕ → ℕ) → Option (ℕ → ℕ)
relink zero this rhs at next = none
relink (suc fuel) this rhs at next =
    let rest = relink fuel this rhs (next at) next in
    if next at == null
    then some next
    else if rhs == next at
    then some (update next at this)
    else rest

-- Dependency( Dependency&& ): `this` takes the place of `rhs` in the list.
unfoldable pub move_dependency : ℕ → ℕ → ℕ → Store → Option Store
unfolding relink
move_dependency fuel this rhs s =
    let task = s.dependency_task rhs in
    let moved = record s {
      dependency_task = update s.dependency_task this task;
      task_to_run = update s.task_to_run this (s.task_to_run rhs);
      next = update s.next this (s.next rhs);
    } in
    let first = moved.dependents task in
    if task == null
    then some (forget rhs moved)
    else if first == null
    then some (forget rhs moved)
    else if rhs == first
    then some (forget rhs (record moved { dependents = update moved.dependents task this }))
    else elim (relink fuel this rhs first moved.next) [
      | none ↦ none
      | some next ↦ some (forget rhs (record moved { next = next }))
    ]

-- The `while` of ~ICompletable: the dependencies stay, without their task.
unfoldable pub orphan : ℕ → ℕ → Store → Option Store
orphan zero dependency s = none
orphan (suc fuel) dependency s =
    let rest = orphan fuel (s.next dependency) (record s {
      dependency_task = update s.dependency_task dependency null;
      next = update s.next dependency null;
    }) in
    if dependency == null then some s else rest

-- SetDependenciesArr: the dependencies of `run` on several tasks, in order.
unfoldable pub set_dependencies_arr : ℕ → ℕ → List (ℕ × ℕ) → Store → Option Store
unfolding set_dependency
set_dependencies_arr fuel run [] s = some s
set_dependencies_arr fuel run ((this, task) ∷ rest) s = elim (set_dependency fuel this task run s) [
  | none ↦ none
  | some t ↦ set_dependencies_arr fuel run rest t
]

-- SetDependenciesVec, on a vector whose resize to the number of tasks does `resize` to the dependencies that
-- it holds, and leaves them at the addresses in the list.
unfoldable pub set_dependencies_vec :
    (Store → Option Store) → ℕ → ℕ → List (ℕ × ℕ) → Store → Option Store
unfolding set_dependencies_arr
set_dependencies_vec resize fuel run pairs s = elim (resize s) [
  | none ↦ none
  | some t ↦ set_dependencies_arr fuel run pairs t
]
