-- ===== src/Tests/Dependencies.antt =====
-- The task at 3 with the dependencies 11 and 10 on it, and a dependency 12 that is not in use.
use enki_ts.Base.{◌≡◌, refl, arith, some, [], ◌∷◌, update}
use enki_ts.Dependency.{Store, clear_dependency, set_dependency}
use enki_ts.Dependency.Laws.{
  Depends, Linked, Cleared, set_dependency-Linked, clear_dependency-Cleared,
}

abbrev two_dependents : Store
two_dependents = record {
  dependents = update (λ t. 0) 3 11;
  dependencies_count = update (update (λ t. 0) 4 1) 5 1;
  dependency_task = update (update (λ d. 0) 10 3) 11 3;
  task_to_run = update (update (λ d. 0) 10 4) 11 5;
  next = update (λ d. 0) 11 10;
}

two-Depends : Depends 3 two_dependents (11 ∷ 10 ∷ [])
two-Depends = record { links = ground arith; named = λ d h. ground arith }

set_dependency-Linked_example :
    (s' : Store) × (set_dependency 5 12 3 4 two_dependents ≡ some s')
    × Linked 12 3 4 (11 ∷ 10 ∷ []) two_dependents s'
set_dependency-Linked_example =
    set_dependency-Linked 5 12 3 4 (11 ∷ 10 ∷ []) two_dependents two-Depends refl refl (omega arith)

clear_dependency-Cleared_example :
    (s' : Store) × (clear_dependency 5 10 two_dependents ≡ some s')
    × Cleared 10 3 4 (11 ∷ 10 ∷ []) two_dependents s'
clear_dependency-Cleared_example =
    clear_dependency-Cleared 5 10 3 4 (11 ∷ 10 ∷ []) two_dependents two-Depends refl refl
      (omega arith) (omega arith)
