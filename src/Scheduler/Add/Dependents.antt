-- ===== src/Scheduler/Add/Dependents.antt =====
-- src/TaskScheduler.cpp, the loop of TaskComplete over the dependents of one task.
use enki_ts.Base.{
  ℕ_discrete, ℕ, suc, ◌<◌, ◌≡◌, ◌≢◌, refl, sym, ap, subst, ◌∙◌, true, false, arith, List, [], ◌∷◌,
  list_sum,
}
use enki_ts.IntrusiveList.Chain.{has}
use enki_ts.Scheduler.{Scheduler}
use enki_ts.Scheduler.Add.{run_dependents, task_complete}
use enki_ts.Scheduler.Add.Loop.{Ends}
use enki_ts.Scheduler.Add.Launch.{after_complete}
use enki_ts.Scheduler.Add.Tiling.{Ends-map}
use enki_ts.Scheduler.Add.Joining.{Waits, Joined, Same, Waits-Same, Same-Joined, Joined-Same}
use enki_ts.Scheduler.Add.Onward.{start, SameDependents, task_complete-dependents, one-Onward}

-- No task is in the list twice.
abbrev pub Distinct : List ℕ → Type 0
Distinct [] = Unit
Distinct (d ∷ ds) = (has d ds ≡ false) × Distinct ds

-- Each of the tasks waits, for as many tasks as `n` says.
abbrev pub Ready : (ℕ → ℕ) → List ℕ → Scheduler → Type 0
Ready n ds s = (x : ℕ) → has x ds ≡ true → (0 < n x) × Waits x (n x) s

-- One of the tasks that each of `ds` waits for is complete; task `t` may have changed.
abbrev pub After : (ℕ → ℕ) → (ℕ → Type 0) → List ℕ → Scheduler → Scheduler → Type 0
After n Other ds s s' =
    SameDependents s s'
    × ((x : ℕ) → has x ds ≡ true → Joined x (n x) 1 s s')
    × ((x : ℕ) → has x ds ≡ false → Other x → Same x s s')

has-first : (x d : ℕ) (ds : List ℕ) → x ≡ d → has x (d ∷ ds) ≡ true
has-first x d ds e = ground (arith, e)

has-rest : (x d : ℕ) (ds : List ℕ) → has x ds ≡ true → has x (d ∷ ds) ≡ true
has-rest x d ds h = ground (arith, h)

has-other : (x d : ℕ) (ds : List ℕ) → has x (d ∷ ds) ≡ true → x ≢ d → has x ds ≡ true
has-other x d ds h ne = ground (arith, h, ne)

pub has-neither : (x d : ℕ) (ds : List ℕ) → has x (d ∷ ds) ≡ false → (x ≢ d) × (has x ds ≡ false)
has-neither x d ds h = ((λ e. ground (arith, h, e)), ground (arith, h))

has-apart : (x t : ℕ) (ds : List ℕ) → has t ds ≡ false → has x ds ≡ true → x ≢ t
has-apart x t ds without h e = ground (arith, ap (λ y. has y ds) e, without, h)

after-Same : (t : ℕ) (s : Scheduler) (x : ℕ) → x ≢ t → Same x s (after_complete t true s)
unfolding list_sum
after-Same t s x ne = (ground arith, ground arith)

after-dependents : (t : ℕ) (s : Scheduler) → SameDependents s (after_complete t true s)
after-dependents t s x = ground arith

module _ (depth fuel thread : ℕ) (n : ℕ → ℕ) where
  Ready-Same :
      (ds : List ℕ) (s m : Scheduler)
      → ((x : ℕ) → has x ds ≡ true → Same x s m)
      → Ready n ds s
      → Ready n ds m
  Ready-Same ds s m same ready x h =
      let (some, w) = ready x h in (some, Waits-Same x (n x) s m (same x h) w)

  -- The first of the dependents and then the others.
  After-next :
      (d : ℕ) (ds : List ℕ) (s m s' : Scheduler)
      → has d ds ≡ false
      → SameDependents s m
      → ((x : ℕ) → x ≢ d → Same x s m)
      → Joined d (n d) 1 s m
      → After n (λ _. Unit) ds m s'
      → After n (λ _. Unit) (d ∷ ds) s s'
  After-next d ds s m s' fresh deps others j (deps', joined, same) = (
    (λ x. deps' x ∙ deps x),
    (λ x h. elim (ℕ_discrete x d) [
      | yes e ↦
          subst (λ y. Joined y (n y) 1 s s') (sym e)
            (Joined-Same d (n d) 1 s m s' j (same d fresh tt))
      | no ne ↦ Same-Joined x (n x) 1 s m s' (others x ne) (joined x (has-other x d ds h ne))
    ]),
    (λ x h u.
        let (ne, h') = has-neither x d ds h in
        let (e, c) = others x ne in let (e', c') = same x h' u in (e' ∙ e, c' ∙ c)),
  )

  -- The loop of TaskComplete reaches each of the dependents.
  run_dependents-After :
      (ds : List ℕ) (s : Scheduler)
      → Distinct ds
      → Ready n ds s
      → Ends
          (λ _ s'. After n (λ _. Unit) ds s s')
          (run_dependents (start (suc depth) fuel) ds thread s)
  unfolding run_dependents
  run_dependents-After [] s distinct ready =
      ((λ x. refl), (λ x h. absurd (ground (arith, h))), (λ x h u. (refl, refl)))
  run_dependents-After (d ∷ ds) s (fresh, distinct) ready =
      let (some, w) = ready d (has-first d d ds refl) in
      let (m, e, deps, others, j) = one-Onward depth fuel thread d ds s (n d) some w in
      subst (Ends (λ _ s'. After n (λ _. Unit) (d ∷ ds) s s')) (sym e) (
        Ends-map (run_dependents (start (suc depth) fuel) ds thread m)
          (λ _ s' a. After-next d ds s m s' fresh deps others j a)
          (run_dependents-After ds m distinct (
            Ready-Same ds s m (λ x h. others x (has-apart x d ds fresh h))
              (λ x h. ready x (has-rest x d ds h)))))

  pub task_complete-After :
      (t : ℕ) (s : Scheduler)
      → Distinct (s.tasks t).dependents
      → has t (s.tasks t).dependents ≡ false
      → Ready n (s.tasks t).dependents s
      → Ends
          (λ _ s'. After n (λ x. x ≢ t) (s.tasks t).dependents s s')
          (task_complete (suc (suc depth)) fuel t true thread s)
  task_complete-After t s distinct without ready =
      let ds = (s.tasks t).dependents in
      let m = after_complete t true s in
      let others = after-Same t s in
      subst (Ends (λ _ s'. After n (λ x. x ≢ t) ds s s'))
        (sym (task_complete-dependents (suc depth) fuel t thread s))
        (Ends-map (run_dependents (start (suc depth) fuel) ds thread m)
          (λ _ s' (deps, joined, same). (
            (λ x. deps x ∙ after-dependents t s x),
            (λ x h.
                Same-Joined x (n x) 1 s m s' (others x (has-apart x t ds without h)) (joined x h)),
            (λ x h ne. let (e, c) = others x ne in let (e', c') = same x h tt in (e' ∙ e, c' ∙ c)),
          ))
          (run_dependents-After ds m distinct
            (Ready-Same ds s m (λ x h. others x (has-apart x t ds without h)) ready)))
