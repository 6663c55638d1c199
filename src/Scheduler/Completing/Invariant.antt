-- ===== src/Scheduler/Completing/Invariant.antt =====
-- What every reachable state of `Scheduler/Completing.antt` satisfies, and when a step keeps it.
use enki_ts.Base.{
  ℕ, ◌+◌, ◌≤◌, ◌<◌, ◌≡◌, ap, arith, ◌==◌, if◌then◌else◌, update, ℤ, pos_part, neg_part, ◌⊎◌, inl,
  inr, le-sum_below,
}
use enki_ts.Scheduler.Completing.{Pc, System}
use enki_ts.Scheduler.Completing.Counts.{
  counted, pending, registered, inside, completes, unaware, wakes, stuck, all, all-update, all-le,
  all_mono, stuck-counted, inside-registered, stuck-update, wakes-update, stuck-positive,
  wakes-positive,
}

module _ (n : ℕ) where
  -- The wakes that are counted, stored and on their way are those of the threads that wait. A task
  -- that one thread is completing has m_RunningCount 1, and if that thread will not wake others then
  -- none is inside. While no thread is about to wake others, there are wakes for those that are stuck.
  pub record Inv (s : System) : Type 0 where
    pub conserved :
        pos_part s.waiting + s.semaphore + all n pending s.threads
        ≡ neg_part s.waiting + all n counted s.threads
    pub registers : (k : ℕ) → all n (registered k) s.threads ≡ s.waiters k
    pub single : (k : ℕ) → all n (completes k) s.threads ≤ (if s.count k == 1 then 1 else 0)
    pub seen : (k : ℕ) → 0 < all n (unaware k) s.threads → all n (inside k) s.threads ≡ 0
    pub woken :
        all n (wakes s.count) s.threads ≡ 0
        → pos_part s.waiting + all n (stuck s.count) s.threads
          ≤ neg_part s.waiting + all n counted s.threads

  module _ (s : System) (inv : Inv s) where
    pub none_inside : (k : ℕ) → s.waiters k ≡ 0 → all n (inside k) s.threads ≡ 0
    none_inside k e = omega (
      arith,
      inv.registers k,
      all_mono n (inside k) (registered k) s.threads (inside-registered k),
    )

    -- The count of task `k` becomes `v`: no thread is completing it then, or one and the count is 1.
    pub recounted :
        (k v : ℕ)
        → all n (completes k) s.threads ≤ (if v == 1 then 1 else 0)
        → (0 < v)
          ⊎ ((all n (inside k) s.threads ≡ 0) ⊎ (0 < all n (wakes (update s.count k v)) s.threads))
        → Inv (record s { count = update s.count k v })
    recounted k v one why = record {
      conserved = inv.conserved;
      registers = inv.registers;
      single = λ j. ground (arith, inv.single j);
      seen = inv.seen;
      woken = λ none_wakes. elim why [
        | inl positive ↦ omega (
          arith,
          inv.woken (
              omega (
                arith,
                none_wakes,
                all_mono n (wakes s.count) (wakes (update s.count k v)) s.threads
                    (wakes-positive s.count k v positive),
              )),
          all_mono n (stuck (update s.count k v)) (stuck s.count) s.threads
              (stuck-positive s.count k v positive),
        )
        | inr (inl none_in) ↦ omega (
          arith,
          none_in,
          inv.woken (
              omega (
                arith,
                none_in,
                none_wakes,
                all-le n (wakes s.count) (wakes (update s.count k v)) (inside k) s.threads
                    (wakes-update s.count k v),
              )),
          all-le n (stuck (update s.count k v)) (stuck s.count) (inside k) s.threads
              (stuck-update s.count k v),
        )
        | inr (inr some_wakes) ↦ absurd (omega (arith, some_wakes, none_wakes))
      ];
    }

    module _ (i : ℕ) (h : i < n) where
      -- What it takes for a thread to move from `p` to `q`.
      pub record Turn (p q : Pc) (w : ℤ) (semaphore : ℕ) (waiters : ℕ → ℕ) : Type 0 where
        pub balance :
            pos_part w + semaphore + pending q + neg_part s.waiting + counted p
            ≡ neg_part w + counted q + pos_part s.waiting + s.semaphore + pending p
        pub registers : (k : ℕ) → registered k q + s.waiters k ≡ registered k p + waiters k
        pub single :
            (k : ℕ)
            → (completes k q ≤ completes k p)
              ⊎ (all n (completes k) s.threads + completes k q ≤ (if s.count k == 1 then 1 else 0))
        pub seen :
            (k : ℕ)
            → ((unaware k q ≤ unaware k p) × (inside k q ≤ inside k p))
              ⊎ (((all n (unaware k) s.threads ≡ 0) × (unaware k q ≡ 0))
                  ⊎ ((all n (inside k) s.threads ≡ 0) × (inside k q ≡ 0)))
        pub woken :
            ((wakes s.count p ≤ wakes s.count q)
              × (pos_part w + stuck s.count q + counted p + neg_part s.waiting
                  ≤ neg_part w + counted q + stuck s.count p + pos_part s.waiting))
            ⊎ ((0 < wakes s.count q) ⊎ (pos_part w ≤ neg_part w))

      pub turned :
          (p q : Pc) (w : ℤ) (semaphore : ℕ) (waiters : ℕ → ℕ)
          → s.threads i ≡ p
          → Turn p q w semaphore waiters
          → Inv (record s {
            waiting = w;
            semaphore = semaphore;
            waiters = waiters;
            threads = update s.threads i q;
          })
      turned p q w semaphore waiters e t = record {
        conserved = omega (
          arith,
          t.balance,
          inv.conserved,
          all-update n pending s.threads i p q h e,
          all-update n counted s.threads i p q h e,
        );
        registers = λ k. omega (
          arith,
          inv.registers k,
          t.registers k,
          all-update n (registered k) s.threads i p q h e,
        );
        single = λ k.
            omega (arith, inv.single k, t.single k, all-update n (completes k) s.threads i p q h e);
        seen = λ k some_unaware. elim (t.seen k) [
          | inl (less_unaware, less_inside) ↦
              let before =
                inv.seen k
                  (omega (arith, less_unaware, all-update n (unaware k) s.threads i p q h e)) in
              omega (arith, less_inside, before, all-update n (inside k) s.threads i p q h e)
          | inr (inl (none, not_it)) ↦
              absurd (omega (arith, none, not_it, all-update n (unaware k) s.threads i p q h e))
          | inr (inr (none, not_it)) ↦
              omega (arith, none, not_it, all-update n (inside k) s.threads i p q h e)
        ];
        woken = λ none_wakes. elim t.woken [
          | inl (wakes_on, waits) ↦ omega (
            arith,
            waits,
            inv.woken (
                omega
                  (arith, wakes_on, none_wakes, all-update n (wakes s.count) s.threads i p q h e)),
            all-update n (stuck s.count) s.threads i p q h e,
            all-update n counted s.threads i p q h e,
          )
          | inr (inl it_wakes) ↦ absurd (
              omega (
                arith,
                it_wakes,
                none_wakes,
                all-update n (wakes s.count) s.threads i p q h e,
                le-sum_below n (λ j. wakes s.count (s.threads j)) i h,
                ap (wakes s.count) e,
              ))
          | inr (inr nobody) ↦ omega (
            arith,
            nobody,
            all_mono n (stuck s.count) counted (update s.threads i q) (stuck-counted s.count),
          )
        ];
      }
