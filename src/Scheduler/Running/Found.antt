-- ===== src/Scheduler/Running/Found.antt =====
-- src/TaskScheduler.cpp, TryRunTask: when its search for a piece looks at all pipes.
use enki_ts.Base.{
  ℕ, ◌+◌, ◌-◌, ◌*◌, ◌/◌, ◌%◌, ◌^◌, ◌≤◌, ◌<◌, ◌≡◌, ◌≢◌, refl, sym, subst, ap, ◌∙◌, false, Option,
  none, some, arith, List, [], ◌∷◌, ◌==◌, dec_lt, update, ℕ_discrete,
}
use native.Mathlib.Nat.{div-add-mod, mod-lt, mod-eq_of_lt, mul-add-mod_self_left}
use enki_ts.Scheduler.{SubTaskSet, Scheduler, Run, done, Command, add32, ◌>>=◌, gets}
use enki_ts.Scheduler.Hash.{hash32}
use enki_ts.Scheduler.Add.{set_pipe}
use enki_ts.Pipe.Deque.{last_from, take_front}
use enki_ts.Scheduler.Add.Tiling.{Ends-map}
use enki_ts.Scheduler.Add.Loop.{Ends}
use enki_ts.Scheduler.Running.{
  try_read_front, steal_loop, or_next, find_other, find_hinted, find_sub_task,
}
use enki_ts.Scheduler.Drain.Miss.{bind_done, read_front_miss, read_back_miss}
use enki_ts.Scheduler.Running.Search.{Misses, none-some, read_back_hit, steal_loop-Misses}

-- The rounds look at every pipe, if the sum of offset and round does not wrap.
cover :
    (offset n u : ℕ) → u < n → offset + n ≤ 2 ^ 32 → (k : ℕ) × (k < n) × (add32 offset k % n ≡ u)
cover offset n u small fits = elim (dec_lt u (offset % n)) [
  | yes below ↦ (
    u + n - offset % n,
    omega (arith, in_range),
    at (u + n - offset % n) (offset / n + 1) (omega (arith, in_range))
        (omega (arith, div-add-mod offset n, in_range, mul-add-distrib)),
  )
  | no above ↦ (
    u - offset % n,
    omega (arith, in_range),
    at (u - offset % n) (offset / n) (omega (arith, in_range))
        (omega (arith, div-add-mod offset n, in_range)),
  )
]
  where
    in_range : offset % n < n
    in_range = mod-lt offset (omega arith)

    mul-add-distrib : n * (offset / n + 1) ≡ n * (offset / n) + n
    mul-add-distrib = omega arith

    at : (k q : ℕ) → k < n → offset + k ≡ n * q + u → add32 offset k % n ≡ u
    at k q h e =
        ap (λ (m : ℕ). m % n) (mod-eq_of_lt {n = offset + k} {m = 2 ^ 32} (omega arith) ∙ e)
        ∙ mul-add-mod_self_left n q u
        ∙ mod-eq_of_lt small

read_front_hit :
    (p u : ℕ) (x : SubTaskSet) (xs : List SubTaskSet) (s : Scheduler)
    → s.pipes p u ≡ x ∷ xs
    → try_read_front p u s ≡ done (some (last_from x xs).0) (set_pipe p u (last_from x xs).1 s)
read_front_hit p u x xs s e = ap reply e
  where
    reply : List SubTaskSet → Run (Option SubTaskSet)
    reply q = done (take_front q).0.1 (set_pipe p u (take_front q).1 s)

module _ (depth fuel thread p hint : ℕ) (s : Scheduler) where
  abbrev first : ℕ
  first = hint % s.num_threads

  -- `threadToCheckOffset`
  abbrev pub offset : ℕ
  offset = hash32 (add32 (s.rnd_seed thread) 1 * thread % 2 ^ 32)

  abbrev pub NoPieces : Type 0
  NoPieces = (u : ℕ) → u < s.num_threads → s.pipes p u ≡ []

  found_other :
      (offset == first) ≡ false
      → offset + s.num_threads ≤ 2 ^ 32
      → s.pipes p thread ≡ []
      → Misses NoPieces (find_other depth fuel thread p first s)
  unfolding find_other
  found_other go fits own =
      Ends-map (steal_loop depth fuel s.num_threads thread p offset first 0 first seeded)
        (λ found s' clear e u h.
          let (k, below, here) = cover offset s.num_threads u h fits in
          elim (ℕ_discrete u thread) [
            | yes mine ↦ subst (λ (v : ℕ). s.pipes p v ≡ []) (sym mine) own
            | no other ↦
                subst (λ (v : ℕ). s.pipes p v ≡ []) here
                  (clear e k (omega arith) (omega (arith, below)) (λ e'. other (sym here ∙ e')))
          ])
        (steal_loop-Misses depth fuel thread p s.num_threads offset first 0 first seeded go)
    where
      seeded : Scheduler
      seeded = record s { rnd_seed = update s.rnd_seed thread (add32 (s.rnd_seed thread) 1) }

  found_hinted :
      (offset == first) ≡ false
      → offset + s.num_threads ≤ 2 ^ 32
      → s.pipes p thread ≡ []
      → (q : List SubTaskSet) → s.pipes p first ≡ q
      → Misses NoPieces (find_hinted depth fuel thread p first s)
  unfolding find_hinted
  found_hinted go fits own [] e =
      subst (Misses NoPieces)
        (sym (
          bind_done (or_next depth fuel first (find_other depth fuel thread p first))
            (read_back_miss p first s e)))
        (found_other go fits own)
  found_hinted go fits own (x ∷ xs) e =
      subst (Misses NoPieces)
        (sym (
          bind_done (or_next depth fuel first (find_other depth fuel thread p first))
            (read_back_hit p first x xs s e)))
        (λ e'. absurd (none-some e'))

  abbrev from_own : Option SubTaskSet → Command (Option SubTaskSet × ℕ)
  from_own own = gets (λ s'. hint % s'.num_threads) >>= λ f.
      or_next depth fuel f (find_hinted depth fuel thread p f) own

  found_own :
      (offset == first) ≡ false
      → offset + s.num_threads ≤ 2 ^ 32
      → (q : List SubTaskSet) → s.pipes p thread ≡ q
      → Misses NoPieces (find_sub_task depth fuel thread p hint s)
  unfolding find_sub_task
  found_own go fits [] e =
      subst (Misses NoPieces) (sym (bind_done from_own (read_front_miss p thread s e)))
        (found_hinted go fits e (s.pipes p first) refl)
  found_own go fits (x ∷ xs) e =
      subst (Misses NoPieces) (sym (bind_done from_own (read_front_hit p thread x xs s e)))
        (λ e'. absurd (none-some e'))

  -- Where the hash that TryRunTask starts from is not the number of the hinted thread, and the sum of
  -- the hash and the number of threads does not wrap, the search ends without a piece only if no pipe
  -- of the priority holds one.
  pub find_sub_task-NoPieces :
      offset ≢ hint % s.num_threads
      → offset + s.num_threads ≤ 2 ^ 32
      → Ends
          (λ found _. found.0 ≡ none → (u : ℕ) → u < s.num_threads → s.pipes p u ≡ [])
          (find_sub_task depth fuel thread p hint s)
  find_sub_task-NoPieces go fits = found_own (ground (arith, go)) fits (s.pipes p thread) refl
