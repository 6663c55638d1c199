-- ===== src/Scheduler/Completing/Moves.antt =====
-- Every access of a thread in `Scheduler/Completing.antt` keeps the invariant.
use enki_ts.Base.{
  ℕ, zero, suc, ◌+◌, ◌-◌, ◌≤◌, ◌<◌, ◌≡◌, refl, ap, Option, none, some, arith, leb, ◌==◌, Bool, true,
  false, update, ℤ, pos, negsuc, pos_part, neg_part, ◌+ℤ◌, ◌⊎◌, inl, inr, Bool-cases, le-sum_below,
}
use enki_ts.Scheduler.{task_almost_complete_count}
use enki_ts.Scheduler.Sleep.{is_value}
use enki_ts.Scheduler.Sleep.Invariant.{less, is_value-parts}
use enki_ts.Scheduler.Completing.{
  Pc, working, enter, test, scan, leave, asleep, check, quit, load, swap, signal, look, store,
  System, return_to, loaded, move,
}
use enki_ts.Scheduler.Completing.Counts.{
  counted, pending, registered, inside, completes, unaware, wakes, stuck, all, all-update, all_mono,
  unaware-completes,
}
use enki_ts.Scheduler.Completing.Invariant.{Inv, none_inside, recounted, turned}

module _ (n : ℕ) (s : System) (inv : Inv n s) (i : ℕ) (h : i < n) where
  -- A thread whose move is not about a completion.
  pub passed :
      (p q : Pc) (w : ℤ) (semaphore : ℕ) (waiters : ℕ → ℕ)
      → s.threads i ≡ p
      → pos_part w + semaphore + pending q + neg_part s.waiting + counted p
        ≡ neg_part w + counted q + pos_part s.waiting + s.semaphore + pending p
      → ((k : ℕ) → registered k q + s.waiters k ≡ registered k p + waiters k)
      → ((k : ℕ)
          → (completes k q ≤ completes k p)
            × (unaware k q ≤ unaware k p)
            × (inside k q ≤ inside k p))
      → ((wakes s.count p ≤ wakes s.count q)
          × (pos_part w + stuck s.count q + counted p + neg_part s.waiting
              ≤ neg_part w + counted q + stuck s.count p + pos_part s.waiting))
        ⊎ ((0 < wakes s.count q) ⊎ (pos_part w ≤ neg_part w))
      → Inv n (record s {
        waiting = w;
        semaphore = semaphore;
        waiters = waiters;
        threads = update s.threads i q;
      })
  passed p q w semaphore waiters e balance registers no_more woken =
      turned n s inv i h p q w semaphore waiters e (record {
        balance = balance;
        registers = registers;
        single = λ k. inl (no_more k).0;
        seen = λ k. inl ((no_more k).1, (no_more k).2);
        woken = woken;
      })

  -- The threads that are not `working`, one by one.
  at_least : (f : Pc → ℕ) (p : Pc) → s.threads i ≡ p → f p ≤ all n f s.threads
  at_least f p e = omega (arith, le-sum_below n (λ j. f (s.threads j)) i h, ap f e)

  enter_step : (t : ℕ) → s.threads i ≡ enter t → Inv n (move s i (enter t))
  unfolding move
  enter_step t e =
      passed (enter t) (test t) s.waiting s.semaphore (update s.waiters t (s.waiters t + 1)) e
        (omega arith) (λ k. ground arith) (λ k. omega arith) (inl (omega arith))

  test_step : (t : ℕ) → s.threads i ≡ test t → Inv n (move s i (test t))
  unfolding move
  test_step t e = elim (Bool-cases (leb (s.count t) task_almost_complete_count)) [
    | inl near ↦ rw near (
        passed (test t) (leave t) s.waiting s.semaphore s.waiters e (omega arith) (λ k. refl)
          (λ k. omega arith) (inl (omega arith)))
    | inr far ↦ rw far (
        turned n s inv i h (test t) (scan t) s.waiting s.semaphore s.waiters e (record {
          balance = omega arith;
          registers = λ k. refl;
          single = λ k. inl (omega arith);
          seen = λ k. elim (Bool-cases (k == t)) [
            | inl it ↦ inr (inl (none_unaware k it far, refl))
            | inr other ↦ inl (omega arith, rw other (omega arith))
          ];
          woken = inl (omega arith, ground arith);
        }))
  ]
    where
      none_unaware :
          (k : ℕ)
          → (k == t) ≡ true
          → leb (s.count t) task_almost_complete_count ≡ false
          → all n (unaware k) s.threads ≡ 0
      none_unaware k it far = ground (
        arith,
        inv.single k,
        all_mono n (unaware k) (completes k) s.threads (unaware-completes k),
      )

  leave_step : (t : ℕ) → s.threads i ≡ leave t → Inv n (move s i (leave t))
  unfolding move
  leave_step t e =
      passed (leave t) (quit t) (s.waiting +ℤ negsuc 0) s.semaphore s.waiters e
        (omega (arith, less s.waiting)) (λ k. refl) (λ k. omega arith)
        (inl (omega (arith, less s.waiting)))

  asleep_step : (t : ℕ) → s.threads i ≡ asleep t → Inv n (move s i (asleep t))
  unfolding move
  asleep_step t e = elim (Bool-cases (s.semaphore == 0)) [
    | inl none_left ↦ rw none_left inv
    | inr some_left ↦ rw some_left (
        passed (asleep t) (check t) s.waiting (s.semaphore - 1) s.waiters e (ground arith)
          (λ k. refl) (λ k. omega arith) (ground arith))
  ]

  check_step : (t : ℕ) → s.threads i ≡ check t → Inv n (move s i (check t))
  unfolding move
  check_step t e = elim (Bool-cases (s.count t == 0)) [
    | inl complete ↦ rw complete (
        passed (check t) (quit t) s.waiting s.semaphore s.waiters e (omega arith) (λ k. refl)
          (λ k. omega arith) (inl (ground arith, omega arith)))
    | inr more ↦ rw more (
        passed (check t) (load (some t)) s.waiting s.semaphore s.waiters e (omega arith) (λ k. refl)
          (λ k. omega arith) (inr (inl (omega arith))))
  ]

  quit_step : (t : ℕ) → s.threads i ≡ quit t → Inv n (move s i (quit t))
  unfolding move
  quit_step t e =
      passed (quit t) working s.waiting s.semaphore (update s.waiters t (s.waiters t - 1)) e
        (omega arith) (λ k. ground (arith, inv.registers t, at_least (registered t) (quit t) e))
        (λ k. omega arith) (inl (omega arith))

  load_step : (o : Option ℕ) → s.threads i ≡ load o → Inv n (move s i (load o))
  unfolding move
  load_step o e = elim (cases s.waiting) [
    | inl (v, e') ↦ rw e' (
        passed (load o) (swap o (suc v)) s.waiting s.semaphore s.waiters e (omega arith) (λ k. refl)
          (λ k. omega arith) (inl (omega arith)))
    | inr (e', low) ↦ rw e' (returned o e low)
  ]
    where
      cases :
          (z : ℤ)
          → ((v : ℕ) × (loaded o z ≡ swap o (suc v)))
            ⊎ ((loaded o z ≡ return_to o) × (pos_part z ≤ neg_part z))
      cases (pos zero) = inr (refl, omega arith)
      cases (pos (suc v)) = inl (v, refl)
      cases (negsuc v) = inr (refl, omega arith)

      returned :
          (o : Option ℕ)
          → s.threads i ≡ load o
          → pos_part s.waiting ≤ neg_part s.waiting
          → Inv n (record s { threads = update s.threads i (return_to o) })
      returned none e low =
          passed (load none) working s.waiting s.semaphore s.waiters e (omega arith) (λ k. refl)
            (λ k. omega arith) (inr (inr low))
      returned (some t) e low =
          passed (load (some t)) (quit t) s.waiting s.semaphore s.waiters e (omega arith)
            (λ k. refl) (λ k. omega arith) (inr (inr low))

  swap_step : (o : Option ℕ) (v : ℕ) → s.threads i ≡ swap o v → Inv n (move s i (swap o v))
  unfolding move
  swap_step o v e = elim (Bool-cases (is_value s.waiting v)) [
    | inl same ↦ rw same (
        passed (swap o v) (signal o v) (pos 0) s.semaphore s.waiters e
          (omega (arith, is_value-parts s.waiting v same)) (λ k. refl) (λ k. omega arith)
          (inr (inr (omega arith))))
    | inr other ↦ rw other (
        passed (swap o v) (load o) s.waiting s.semaphore s.waiters e (omega arith) (λ k. refl)
          (λ k. omega arith) (inl (omega arith)))
  ]

  signal_step : (o : Option ℕ) (v : ℕ) → s.threads i ≡ signal o v → Inv n (move s i (signal o v))
  unfolding move
  signal_step none v e =
      passed (signal none v) working s.waiting (s.semaphore + v) s.waiters e (omega arith)
        (λ k. refl) (λ k. omega arith) (inl (omega arith))
  signal_step (some t) v e =
      passed (signal (some t) v) (quit t) s.waiting (s.semaphore + v) s.waiters e (omega arith)
        (λ k. refl) (λ k. omega arith) (inl (omega arith))

  look_step : (t : ℕ) → s.threads i ≡ look t → Inv n (move s i (look t))
  unfolding move
  look_step t e = elim (Bool-cases (s.waiters t == 0)) [
    | inl nobody ↦ rw nobody (
        turned n s inv i h (look t) (store t false) s.waiting s.semaphore s.waiters e (record {
          balance = omega arith;
          registers = λ k. refl;
          single = λ k. inl (omega arith);
          seen = λ k. elim (Bool-cases (k == t)) [
            | inl it ↦ inr (inr (none_inside n s inv k (ground arith), refl))
            | inr other ↦ inl (rw other (omega arith), omega arith)
          ];
          woken = inl (omega arith);
        }))
    | inr some_wait ↦ rw some_wait (
        passed (look t) (store t true) s.waiting s.semaphore s.waiters e (omega arith) (λ k. refl)
          (λ k. omega arith) (inl (omega arith)))
  ]

  -- After the store no thread completes the task.
  last :
      (t : ℕ) (wake : Bool) (q : Pc)
      → s.threads i ≡ store t wake
      → completes t q ≡ 0
      → all n (completes t) (update s.threads i q) ≤ 0
  last t wake q e done_with =
      ground (
        arith,
        inv.single t,
        done_with,
        all-update n (completes t) s.threads i (store t wake) q h e,
      )

  store_step : (t : ℕ) (wake : Bool) → s.threads i ≡ store t wake → Inv n (move s i (store t wake))
  unfolding move
  store_step t true e =
      recounted n (record s { threads = update s.threads i (load none) })
        (passed (store t true) (load none) s.waiting s.semaphore s.waiters e (omega arith)
          (λ k. refl) (λ k. ground arith) (inr (inl (omega arith))))
        t 0 (last t true (load none) e refl)
        (inr (
          inr (
            ground (
              arith,
              le-sum_below n (λ j. wakes (update s.count t 0) (update s.threads i (load none) j)) i
                  h,
            ))))
  store_step t false e =
      recounted n (record s { threads = update s.threads i working })
        (passed (store t false) working s.waiting s.semaphore s.waiters e (omega arith) (λ k. refl)
          (λ k. ground arith) (inl (omega arith)))
        t 0 (last t false working e refl)
        (inr (
          inl (
            omega (
              arith,
              inv.seen t (ground (arith, at_least (unaware t) (store t false) e)),
              all-update n (inside t) s.threads i (store t false) working h e,
            ))))

  -- Every access of a thread keeps the invariant.
  pub move-Inv : (p : Pc) → s.threads i ≡ p → Inv n (move s i p)
  unfolding move
  move-Inv working e = inv
  move-Inv (enter t) e = enter_step t e
  move-Inv (test t) e = test_step t e
  move-Inv (scan t) e = inv
  move-Inv (leave t) e = leave_step t e
  move-Inv (asleep t) e = asleep_step t e
  move-Inv (check t) e = check_step t e
  move-Inv (quit t) e = quit_step t e
  move-Inv (load o) e = load_step o e
  move-Inv (swap o v) e = swap_step o v e
  move-Inv (signal o v) e = signal_step o v e
  move-Inv (look t) e = look_step t e
  move-Inv (store t wake) e = store_step t wake e
