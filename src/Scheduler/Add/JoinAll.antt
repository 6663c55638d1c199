-- ===== src/Scheduler/Add/JoinAll.antt =====
-- src/TaskScheduler.cpp, TaskComplete on tasks of which each has any number of dependents.
use enki_ts.Base.{
  ℕ_discrete, ℕ, suc, ◌+◌, ◌-◌, ◌≤◌, ◌<◌, ◌≡◌, ◌≢◌, refl, sym, subst, ◌∙◌, true, false, Bool-cases,
  inl, inr, arith, List, [], ◌∷◌, if◌then◌else◌,
}
use enki_ts.IntrusiveList.Chain.{has}
use enki_ts.Scheduler.{Scheduler}
use enki_ts.Scheduler.Add.{task_complete}
use enki_ts.Scheduler.Add.Loop.{Ends}
use enki_ts.Scheduler.Add.Tiling.{Ends-bind, Ends-map}
use enki_ts.Scheduler.Add.Joining.{
  complete_each, Waits, Joined, Same, Waits-Same, Same-Joined, Joined-Same, Joined-later,
}
use enki_ts.Scheduler.Add.Dependents.{Distinct, Ready, After, has-neither, task_complete-After}

-- How many of the tasks have `d` as a dependent; `deps` are the dependents of a task.
abbrev pub leads : (ℕ → List ℕ) → ℕ → List ℕ → ℕ
leads deps d [] = 0
leads deps d (t ∷ ts) = (if has d (deps t) then 1 else 0) + leads deps d ts

abbrev pub EachDistinct : (ℕ → List ℕ) → List ℕ → Type 0
EachDistinct deps [] = Unit
EachDistinct deps (t ∷ ts) = Distinct (deps t) × EachDistinct deps ts

-- The dependents of the tasks `ts`, each of which waits for as many tasks as `n` says.
pub record Joins (n : ℕ → ℕ) (deps : ℕ → List ℕ) (ts : List ℕ) (s : Scheduler) : Type 0 where
  pub same_deps : (t : ℕ) → (s.tasks t).dependents ≡ deps t
  pub distinct : EachDistinct deps ts
  pub waits : (d : ℕ) → 0 < leads deps d ts → Waits d (n d) s
  pub enough : (d : ℕ) → leads deps d ts ≤ n d
  pub apart : (d : ℕ) → 0 < leads deps d ts → has d ts ≡ false

-- What is known when all of `ts` are complete.
abbrev AllJoined : (ℕ → ℕ) → (ℕ → List ℕ) → List ℕ → Scheduler → Scheduler → Type 0
AllJoined n deps ts s s' =
    ((d : ℕ) → 0 < leads deps d ts → Joined d (n d) (leads deps d ts) s s')
    × ((d : ℕ) → leads deps d ts ≡ 0 → has d ts ≡ false → Same d s s')

module _ (depth fuel thread : ℕ) (n : ℕ → ℕ) (deps : ℕ → List ℕ) (t : ℕ) (ts : List ℕ) where
  -- What the dependents of `t` wait for when it is complete.
  abbrev fewer : ℕ → ℕ
  fewer d = if has d (deps t) then n d - 1 else n d

  first-leads : (d : ℕ) → has d (deps t) ≡ true → leads deps d (t ∷ ts) ≡ 1 + leads deps d ts
  first-leads d h = rw h refl

  later-leads : (d : ℕ) → has d (deps t) ≡ false → leads deps d (t ∷ ts) ≡ leads deps d ts
  later-leads d h = ground (arith, h)

  fewer-first : (d : ℕ) → has d (deps t) ≡ true → fewer d ≡ n d - 1
  fewer-first d h = rw h refl

  fewer-later : (d : ℕ) → has d (deps t) ≡ false → fewer d ≡ n d
  fewer-later d h = rw h refl

  module _ (s m : Scheduler) (j : Joins n deps (t ∷ ts) s)
      (a : After n (λ x. x ≢ t) (deps t) s m) where
    more_left : (d : ℕ) → has d (deps t) ≡ true → 0 < leads deps d ts → 1 < n d
    more_left d h some = omega (arith, first-leads d h, j.enough d)

    apart_later : (d : ℕ) → 0 < leads deps d ts → (d ≢ t) × (has d ts ≡ false)
    apart_later d some = has-neither d t ts (j.apart d (omega arith))

    Joins-next : Joins fewer deps ts m
    Joins-next = record {
      same_deps = λ x. a.0 x ∙ j.same_deps x;
      distinct = j.distinct.1;
      waits = λ d some. elim (Bool-cases (has d (deps t))) [
        | inl h ↦
            subst (λ k. Waits d k m) (sym (fewer-first d h))
              (((a.1 d h).pending (more_left d h some)).0)
        | inr h ↦
            subst (λ k. Waits d k m) (sym (fewer-later d h))
              (Waits-Same d (n d) s m (a.2 d h (apart_later d some).0) (j.waits d (omega arith)))
      ];
      enough = λ d. elim (Bool-cases (has d (deps t))) [
        | inl h ↦ omega (arith, first-leads d h, fewer-first d h, j.enough d)
        | inr h ↦ omega (arith, later-leads d h, fewer-later d h, j.enough d)
      ];
      apart = λ d some. (apart_later d some).1;
    }

    -- A dependent of the first task.
    first-Joined :
        (s' : Scheduler)
        → AllJoined fewer deps ts m s'
        → (d : ℕ) → has d (deps t) ≡ true
        → Joined d (n d) (1 + leads deps d ts) s s'
    first-Joined s' (joined, same) d h = elim (ℕ_discrete (leads deps d ts) 0) [
      | yes none ↦
          subst (λ k. Joined d (n d) (1 + k) s s') (sym none)
            (Joined-Same d (n d) 1 s m s' (a.1 d h)
              (same d none (has-neither d t ts (j.apart d (omega (arith, first-leads d h)))).1))
      | no ne ↦
          let some : 0 < leads deps d ts = omega (arith, ne) in
          Joined-later d (n d) (leads deps d ts) s m s' (more_left d h some) (a.1 d h)
            (subst (λ k. Joined d k (leads deps d ts) m s') (fewer-first d h) (joined d some))
    ]

    -- A dependent of later tasks only.
    later-Joined :
        (s' : Scheduler)
        → AllJoined fewer deps ts m s'
        → (d : ℕ) → has d (deps t) ≡ false
        → 0 < leads deps d ts
        → Joined d (n d) (leads deps d ts) s s'
    later-Joined s' (joined, same) d h some =
        Same-Joined d (n d) (leads deps d ts) s m s' (a.2 d h (apart_later d some).0)
          (subst (λ k. Joined d k (leads deps d ts) m s') (fewer-later d h) (joined d some))

    AllJoined-next :
        (s' : Scheduler) → AllJoined fewer deps ts m s' → AllJoined n deps (t ∷ ts) s s'
    AllJoined-next s' all = (
      (λ d some. elim (Bool-cases (has d (deps t))) [
        | inl h ↦
            subst (λ k. Joined d (n d) k s s') (sym (first-leads d h)) (first-Joined s' all d h)
        | inr h ↦
            subst (λ k. Joined d (n d) k s s') (sym (later-leads d h))
              (later-Joined s' all d h (omega (arith, some, later-leads d h)))
      ]),
      (λ d none outside.
          let (ne, outside') = has-neither d t ts outside in
          elim (Bool-cases (has d (deps t))) [
            | inl h ↦ absurd (omega (arith, none, first-leads d h))
            | inr h ↦
                let (e, c) = a.2 d h ne in
                let (e', c') = all.1 d (omega (arith, none, later-leads d h)) outside' in
                (e' ∙ e, c' ∙ c)
          ]),
    )

  first-Ready : (s : Scheduler) → Joins n deps (t ∷ ts) s → Ready n (deps t) s
  first-Ready s j x h =
      (omega (arith, first-leads x h, j.enough x), j.waits x (omega (arith, first-leads x h)))

  first-apart : (s : Scheduler) → Joins n deps (t ∷ ts) s → has t (deps t) ≡ false
  first-apart s j = elim (Bool-cases (has t (deps t))) [
    | inl h ↦ absurd ((has-neither t t ts (j.apart t (omega (arith, first-leads t h)))).0 refl)
    | inr h ↦ h
  ]

  task_complete-first :
      (s : Scheduler)
      → Joins n deps (t ∷ ts) s
      → Ends
          (λ _ m. After n (λ x. x ≢ t) (deps t) s m)
          (task_complete (suc (suc depth)) fuel t true thread s)
  task_complete-first s j =
      let e = j.same_deps t in
      subst
        (λ ds.
          Ends (λ _ m. After n (λ x. x ≢ t) ds s m)
            (task_complete (suc (suc depth)) fuel t true thread s))
        e
        (task_complete-After depth fuel thread n t s (subst Distinct (sym e) j.distinct.0)
          (subst (λ ds. has t ds ≡ false) (sym e) (first-apart s j))
          (subst (λ ds. Ready n ds s) (sym e) (first-Ready s j)))

complete_each-AllJoined :
    (depth fuel thread : ℕ) (n : ℕ → ℕ) (deps : ℕ → List ℕ) (ts : List ℕ) (s : Scheduler)
    → Joins n deps ts s
    → Ends (λ _ s'. AllJoined n deps ts s s') (complete_each (suc (suc depth)) fuel ts thread s)
complete_each-AllJoined depth fuel thread n deps [] s j =
    ((λ d some. absurd (omega (arith, some))), (λ d none outside. (refl, refl)))
complete_each-AllJoined depth fuel thread n deps (t ∷ ts) s j =
    Ends-bind (λ _ m. After n (λ x. x ≢ t) (deps t) s m) (λ _ s'. AllJoined n deps (t ∷ ts) s s')
      (task_complete (suc (suc depth)) fuel t true thread s)
      (λ _. complete_each (suc (suc depth)) fuel ts thread)
      (task_complete-first depth fuel thread n deps t ts s j)
      (λ _ m a.
        Ends-map (complete_each (suc (suc depth)) fuel ts thread m)
          (λ _ s' all. AllJoined-next depth fuel thread n deps t ts s m j a s' all)
          (complete_each-AllJoined depth fuel thread (fewer depth fuel thread n deps t ts) deps ts m
            (Joins-next depth fuel thread n deps t ts s m j a)))

-- Tasks complete one after the other, each with distinct dependents, of which none is one of the
-- tasks; each dependent is a completable on which nothing depends, that waits for at least as many
-- tasks as there are of these that it depends on. Each call of TaskComplete ends. A dependent that
-- waits for n stays as it is, and waits for that many less, while fewer than n of them complete; when
-- all n are complete it is completed, just once, and its count of completed dependencies starts again.
pub complete_each-Joined :
    (depth fuel thread : ℕ) (n : ℕ → ℕ) (deps : ℕ → List ℕ) (ts : List ℕ) (s : Scheduler) (d : ℕ)
    → Joins n deps ts s
    → 0 < leads deps d ts
    → Ends
        (λ _ s'. Joined d (n d) (leads deps d ts) s s')
        (complete_each (suc (suc depth)) fuel ts thread s)
complete_each-Joined depth fuel thread n deps ts s d j some =
    Ends-map (complete_each (suc (suc depth)) fuel ts thread s) (λ _ s' all. all.0 d some)
      (complete_each-AllJoined depth fuel thread n deps ts s j)
