-- ===== src/Scheduler/Sleep/Safety.antt =====
-- What holds of the threads that wait for new tasks, in every state that the threads can reach.
use enki_ts.Base.{
  ℕ, ◌+◌, ◌≤◌, ◌<◌, ◌≡◌, refl, none, some, arith, update, pos, pos_part, neg_part, ◌+ℤ◌, inl,
  sum_below-zero, le-sum_below,
}
use enki_ts.Scheduler.Sleep.{
  working, load, swap, scan, leave, System, Step, access, write, write_more, wake, take, wait,
  pinned, spurious, idle, Reach, begin, later,
}
use enki_ts.Scheduler.Sleep.Counts.{
  counted, pending, sleeps, aware, wakes, all, sum-le, counted_bound,
}
use enki_ts.Scheduler.Sleep.Invariant.{Inv, move-Inv, stepped, turned, more}

module _ (pipes n : ℕ) where
  idle-Inv : Inv pipes n idle
  idle-Inv = record {
    conserved = omega (arith, sum_below-zero n (λ i. 0) (λ i h. refl));
    seen = λ k hk some_piece none_wakes. absurd (omega arith);
  }

  -- A write to a pipe by a thread that is yet to wake others.
  written :
      (s : System) (i k : ℕ)
      → Inv pipes n s
      → i < n
      → s.threads i ≡ load (some k)
      → Inv pipes n (record s { pieces = update s.pieces k (s.pieces k + 1) })
  written s i k inv h e = record {
    conserved = inv.conserved;
    seen = λ k' hk some_piece none_wakes.
        ground (arith, inv.seen k' hk, le-sum_below n (λ j. wakes k' (s.threads j)) i h);
  }

  Step-Inv : {s t : System} → Step pipes n s t → Inv pipes n s → Inv pipes n t
  Step-Inv {s} (access i h) inv = move-Inv pipes n s inv i h (s.threads i) refl
  Step-Inv {s} (write i k h e) inv =
      written (record s { threads = update s.threads i (load (some k)) }) i k
        (turned pipes n s inv i h working (load (some k)) e refl
          (λ k' hk some_piece. inl (omega arith)))
        h (ground arith)
  Step-Inv {s} (write_more i k h e) inv = written s i k inv h e
  Step-Inv {s} (wake i h e) inv =
      turned pipes n s inv i h working (load none) e refl (λ k hk some_piece. inl (omega arith))
  Step-Inv {s} (take k) inv = record {
    conserved = inv.conserved;
    seen = λ k' hk some_piece none_wakes. ground (arith, inv.seen k' hk);
  }
  Step-Inv {s} (wait i h e) inv =
      stepped pipes n s inv i h working (scan 0) (s.waiting +ℤ pos 1) s.semaphore e
        (omega (arith, more s.waiting)) (λ k hk some_piece. inl (ground (arith, more s.waiting)))
  Step-Inv {s} (pinned i x h e) inv =
      turned pipes n s inv i h (scan x) leave e refl (λ k hk some_piece. inl (ground arith))
  Step-Inv {s} (spurious i v o h e) inv =
      turned pipes n s inv i h (swap o v) (load o) e refl (λ k hk some_piece. inl (omega arith))

  Reach-Inv : {s : System} → Reach pipes n s → Inv pipes n s
  Reach-Inv begin = idle-Inv
  Reach-Inv (later r st) = Step-Inv st (Reach-Inv r)

  -- In every reachable state m_NumThreadsWaitingForNewTasks, which may be negative, the count of the
  -- semaphore and the wakes that threads have yet to send are together the threads that wait.
  pub wakes_conserved :
      (s : System)
      → Reach pipes n s
      → pos_part s.waiting + s.semaphore + all n pending s ≡ neg_part s.waiting + all n counted s
  wakes_conserved s r = (Reach-Inv r).conserved

  -- No wake is lost: in every reachable state, while a pipe holds a piece and every thread that
  -- wrote to it has called WakeThreadsForNewTasks as far as its compare and exchange, there is a
  -- count of the semaphore or a wake on its way for each thread that sleeps.
  pub no_lost_wake :
      (s : System) (k : ℕ)
      → Reach pipes n s
      → k < pipes
      → 0 < s.pieces k
      → ((i : ℕ) → i < n → wakes k (s.threads i) ≡ 0)
      → all n sleeps s ≤ s.semaphore + all n pending s
  no_lost_wake s k r hk some_piece none_wakes =
      let inv = Reach-Inv r in
      omega (
        arith,
        inv.conserved,
        inv.seen k hk some_piece (sum_below-zero n (λ i. wakes k (s.threads i)) none_wakes),
        sum-le n (λ i. aware k (s.threads i)) (λ i. sleeps (s.threads i))
            (λ i. counted (s.threads i)) (λ i. counted_bound k (s.threads i)),
      )
