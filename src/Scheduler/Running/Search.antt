-- ===== src/Scheduler/Running/Search.antt =====
-- src/TaskScheduler.cpp, TryRunTask: its search for a piece misses none.
use enki_ts.Base.{
  ℕ, zero, suc, ◌+◌, ◌%◌, ◌≤◌, ◌<◌, ◌≡◌, ◌≢◌, refl, sym, subst, ap, false, not, ◌&&◌, Option, none,
  some, arith, List, [], ◌∷◌, ◌==◌, Bool-cases, inl, inr, dec_lt,
}
use enki_ts.Scheduler.{SubTaskSet, Scheduler, Run, done, Command, add32, and_then, pure}
use enki_ts.Scheduler.Add.{set_pipe}
use enki_ts.Pipe.Deque.{take_back}
use enki_ts.Scheduler.Add.Tiling.{Ends-map}
use enki_ts.Scheduler.Add.Loop.{Ends}
use enki_ts.Scheduler.Running.{try_read_back, steal_loop}
use enki_ts.Scheduler.Drain.Miss.{bind_done, read_back_miss}

-- A search that, if it finds nothing, knows what `P` says.
abbrev pub Misses : Type 0 → Run (Option SubTaskSet × ℕ) → Type 0
Misses P r = Ends (λ found _. found.0 ≡ none → P) r

pub none-some : {A : Type 0} {a : A} → some a ≢ none
none-some e = absurd (ground (arith, e))

pub read_back_hit :
    (p u : ℕ) (x : SubTaskSet) (xs : List SubTaskSet) (s : Scheduler)
    → s.pipes p u ≡ x ∷ xs
    → try_read_back p u s ≡ done (some x) (set_pipe p u xs s)
read_back_hit p u x xs s e = ap reply e
  where
    reply : List SubTaskSet → Run (Option SubTaskSet)
    reply q = done (take_back q).0.1 (set_pipe p u (take_back q).1 s)

module _ (depth fuel thread p : ℕ) where
  -- The pipes that the rounds `low` to `high` of the loop look at are empty.
  abbrev pub Clear : Scheduler → ℕ → ℕ → ℕ → Type 0
  Clear s offset low high =
      (k : ℕ)
      → low ≤ k
      → k < high
      → add32 offset k % s.num_threads ≢ thread
      → s.pipes p (add32 offset k % s.num_threads) ≡ []

  Clear-more :
      (s : Scheduler) (offset low high : ℕ)
      → (add32 offset low % s.num_threads ≢ thread
          → s.pipes p (add32 offset low % s.num_threads) ≡ [])
      → Clear s offset (low + 1) high
      → Clear s offset low high
  Clear-more s offset low high now later k from to ne = elim (dec_lt low k) [
    | yes above ↦ later k (omega arith) to ne
    | no there ↦
        let here : low ≡ k = omega arith in
        subst
          (λ (k' : ℕ).
            add32 offset k' % s.num_threads ≢ thread
            → s.pipes p (add32 offset k' % s.num_threads) ≡ [])
          here now ne
  ]

  steal_loop_step :
      (left offset first checked at : ℕ) (s : Scheduler)
      → (offset == first) ≡ false
      → Misses (Clear s offset (checked + 1) (checked + 1 + left)) (
          steal_loop depth fuel left thread p offset first
            (checked + 1)
            (add32 offset checked % s.num_threads)
            s)
      → Misses
          (Clear s offset checked (checked + suc left))
          (steal_loop depth fuel (suc left) thread p offset first checked at s)
  unfolding steal_loop
  steal_loop_step left offset first checked at s go later =
      elim (Bool-cases (not (other == thread) && not (offset == first))) [
        | inl look ↦ rw look (looked (s.pipes p other) refl)
        | inr skip_it ↦ rw skip_it (rest_misses (λ ne. absurd (ne (ground arith))))
      ]
    where
      other : ℕ
      other = add32 offset checked % s.num_threads

      rest_misses :
          (other ≢ thread → s.pipes p other ≡ [])
          → Misses
              (Clear s offset checked (checked + suc left))
              (steal_loop depth fuel left thread p offset first (checked + 1) other s)
      rest_misses now =
          Ends-map (steal_loop depth fuel left thread p offset first (checked + 1) other s)
            (λ found s' rest e.
              Clear-more s offset checked (checked + suc left) now
                (λ k low high. rest e k low (omega arith)))
            later

      next : Option SubTaskSet → Command (Option SubTaskSet × ℕ)
      next out = elim out [
        | none ↦ steal_loop depth fuel left thread p offset first (checked + 1) other
        | some sub ↦ pure (some sub, other)
      ]

      looked :
          (q : List SubTaskSet)
          → s.pipes p other ≡ q
          → Misses
              (Clear s offset checked (checked + suc left))
              (and_then (try_read_back p other s) next)
      looked [] e =
          subst (Misses (Clear s offset checked (checked + suc left)))
            (sym (bind_done next (read_back_miss p other s e))) (rest_misses (λ ne. e))
      looked (x ∷ xs) e =
          subst (Misses (Clear s offset checked (checked + suc left)))
            (sym (bind_done next (read_back_hit p other x xs s e))) (λ e'. absurd (none-some e'))

  pub steal_loop-Misses :
      (left offset first checked at : ℕ) (s : Scheduler)
      → (offset == first) ≡ false
      → Misses
          (Clear s offset checked (checked + left))
          (steal_loop depth fuel left thread p offset first checked at s)
  unfolding steal_loop
  steal_loop-Misses zero offset first checked at s go = λ e k low high. absurd (omega arith)
  steal_loop-Misses (suc left) offset first checked at s go =
      steal_loop_step left offset first checked at s go (
        steal_loop-Misses left offset first (checked + 1) (add32 offset checked % s.num_threads) s
          go)
