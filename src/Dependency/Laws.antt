-- ===== src/Dependency/Laws.antt =====
-- src/TaskScheduler.cpp, class Dependency: what its operations do to the dependents of a task.
use enki_ts.Base.{
  ℕ, ◌<◌, ◌≡◌, ◌≢◌, refl, false, true, some, List, [], ◌∷◌, arith, ◌==◌, Bool-cases, inl, inr,
  update, length,
}
use enki_ts.IntrusiveList.Chain.{has}
use enki_ts.Scheduler.{add32, sub32}
use enki_ts.Dependency.{
  null, Store, forget, unlink, clear_dependency, link_dependency, set_dependency,
}
use enki_ts.Dependency.Links.{
  Links, Unlinked, remove, remove-gone, remove-has, Links-update, unlink_lem,
}

-- The dependents of a task, newest first: the distinct dependencies that name it.
pub record Depends (task : ℕ) (s : Store) (xs : List ℕ) : Type 0 where
  pub links : Links s.next (s.dependents task) xs
  pub named : (d : ℕ) → has d xs ≡ true → s.dependency_task d ≡ task

-- What SetDependency comes to for a dependency that was linked nowhere.
pub record Linked (this task run : ℕ) (xs : List ℕ) (s s' : Store) : Type 0 where
  pub now : Depends task s' (this ∷ xs)
  pub runs : s'.task_to_run this ≡ run
  pub one_more : s'.dependencies_count run ≡ add32 (s.dependencies_count run) 1
  pub other_tasks : (t : ℕ) → t ≢ task → s'.dependents t ≡ s.dependents t
  pub other_counts : (t : ℕ) → t ≢ run → s'.dependencies_count t ≡ s.dependencies_count t

-- SetDependency on a dependency that is not in use puts it before the other dependents of the task,
-- and counts it at the task that is to run.
pub set_dependency-Linked :
    (fuel this task run : ℕ) (xs : List ℕ) (s : Store)
    → Depends task s xs
    → has this xs ≡ false
    → s.dependency_task this ≡ null
    → this ≢ null
    → (s' : Store) × (set_dependency fuel this task run s ≡ some s') × Linked this task run xs s s'
unfolding set_dependency clear_dependency link_dependency
set_dependency-Linked fuel this task run xs s d fresh unused nz = (
  link_dependency this task run (forget this s),
  ground arith,
  record {
    now = record {
      links = (
        ground arith,
        nz,
        fresh,
        ground (
          arith,
          Links-update unlinked first xs this first fresh
              (Links-update s.next first xs this null fresh d.links),
        ),
      );
      named = λ a h. elim (Bool-cases (this == a)) [
        | inl same ↦ ground arith
        | inr other ↦ ground (arith, d.named a (ground arith))
      ];
    };
    runs = ground arith;
    one_more = ground arith;
    other_tasks = λ t ne. ground arith;
    other_counts = λ t ne. ground arith;
  },
)
  where
    first : ℕ
    first = s.dependents task

    unlinked : ℕ → ℕ
    unlinked = update s.next this null

-- What ClearDependency comes to for a dependency in use.
pub record Cleared (this task run : ℕ) (xs : List ℕ) (s s' : Store) : Type 0 where
  pub now : Depends task s' (remove this xs)
  pub unused : s'.dependency_task this ≡ null
  pub one_less : s'.dependencies_count run ≡ sub32 (s.dependencies_count run) 1
  pub other_tasks : (t : ℕ) → t ≢ task → s'.dependents t ≡ s.dependents t
  pub other_counts : (t : ℕ) → t ≢ run → s'.dependencies_count t ≡ s.dependencies_count t

-- ClearDependency on a dependency in use takes it out of the dependents of its task, wherever it is
-- among them, keeps the order of the others, and uncounts it.
pub clear_dependency-Cleared :
    (fuel this task run : ℕ) (xs : List ℕ) (s : Store)
    → Depends task s xs
    → has this xs ≡ true
    → s.task_to_run this ≡ run
    → task ≢ null
    → length xs < fuel
    → (s' : Store) × (clear_dependency fuel this s ≡ some s') × Cleared this task run xs s s'
unfolding clear_dependency
clear_dependency-Cleared fuel this task run [] s d member runs nz h = absurd (ground arith)
clear_dependency-Cleared fuel this task run (x ∷ xs) s d member runs nz h =
    elim (Bool-cases (this == x)) [
      | inl first ↦ (
        forget this (record s {
          dependents = update s.dependents task (s.next this);
          dependencies_count = counts;
        }),
        ground (arith, d.links, d.named this member),
        record {
          now = record {
            links = ground (
              arith,
              d.links,
              Links-update s.next (s.next x) xs this null (ground arith) d.links.3,
            );
            named = named;
          };
          unused = ground arith;
          one_less = ground arith;
          other_tasks = λ t ne. ground arith;
          other_counts = λ t ne. ground arith;
        },
      )
      | inr later ↦ behind later (
          unlink_lem fuel this x xs s.next (refl, d.links.1, d.links.2, d.links.3) (ground arith)
            (omega arith))
    ]
  where
    counts : ℕ → ℕ
    counts = update s.dependencies_count run (sub32 (s.dependencies_count run) 1)

    gone : has this (remove this (x ∷ xs)) ≡ false
    gone = remove-gone s.next (s.dependents task) this (x ∷ xs) d.links

    named :
        (a : ℕ) → has a (remove this (x ∷ xs)) ≡ true → update s.dependency_task this null a ≡ task
    named a h' = elim (Bool-cases (this == a)) [
      | inl same ↦ absurd (ground (arith, gone))
      | inr other ↦ ground (arith, d.named a (remove-has this a (x ∷ xs) h'))
    ]

    behind :
        (this == x) ≡ false
        → (next' : ℕ → ℕ) × (unlink fuel this x s.next ≡ some next')
          × Unlinked s.next this x xs next'
        → (s' : Store) × (clear_dependency fuel this s ≡ some s')
          × Cleared this task run (x ∷ xs) s s'
    behind later (next', e, (l, same)) = (
      forget this (record s { next = next'; dependencies_count = counts }),
      ground (arith, d.links, d.named this member),
      record {
        now = record {
          links = ground (
            arith,
            d.links.0,
            Links-update next' x (x ∷ remove this xs) this null (ground (arith, gone)) l,
          );
          named = named;
        };
        unused = ground arith;
        one_less = ground arith;
        other_tasks = λ t ne. ground arith;
        other_counts = λ t ne. ground arith;
      },
    )

-- What ClearDependency after SetDependency leaves, where `xs` were the dependents of the task.
pub record Restored (this task : ℕ) (xs : List ℕ) (s s'' : Store) : Type 0 where
  pub again : Depends task s'' xs
  pub unused : s''.dependency_task this ≡ null
  pub same_counts : (t : ℕ) → s''.dependencies_count t ≡ s.dependencies_count t
  pub other_tasks : (t : ℕ) → t ≢ task → s''.dependents t ≡ s.dependents t
