-- ===== src/Scheduler/Sleep/Invariant.antt =====
-- What every reachable state of `Scheduler/Sleep.antt` satisfies.
use enki_ts.Base.{
  ℕ, zero, suc, ◌+◌, ◌-◌, ◌≤◌, ◌<◌, ◌≡◌, refl, Option, arith, leb, ◌==◌, update, ℤ, pos, negsuc,
  pos_part, neg_part, ◌+ℤ◌, true, Bool-cases, inl, inr, ◌⊎◌,
}
use enki_ts.Scheduler.Sleep.{
  Pc, working, load, swap, signal, scan, leave, asleep, System, loaded, is_value, move,
}
use enki_ts.Scheduler.Sleep.Counts.{counted, pending, aware, wakes, all, all-update}

-- A count that goes down or up by 1.
pub less :
    (z : ℤ) → pos_part (z +ℤ negsuc 0) + neg_part z + 1 ≡ neg_part (z +ℤ negsuc 0) + pos_part z
less (pos zero) = refl
less (pos (suc v)) = ground arith
less (negsuc v) = ground arith

pub more : (z : ℤ) → pos_part (z +ℤ pos 1) + neg_part z ≡ neg_part (z +ℤ pos 1) + pos_part z + 1
more (pos v) = ground arith
more (negsuc zero) = refl
more (negsuc (suc v)) = ground arith

pub is_value-parts : (z : ℤ) (v : ℕ) → is_value z v ≡ true → (pos_part z ≡ v) × (neg_part z ≡ 0)
is_value-parts (pos a) v same = ground arith
is_value-parts (negsuc a) v same = absurd (ground arith)

module _ (pipes n : ℕ) where
  -- The wakes that are counted, stored and on their way are those of the threads that wait. While a
  -- pipe holds a piece and no thread is yet to wake others for it, the threads that are still
  -- counted will see it.
  pub record Inv (s : System) : Type 0 where
    pub conserved :
        pos_part s.waiting + s.semaphore + all n pending s ≡ neg_part s.waiting + all n counted s
    pub seen :
        (k : ℕ)
        → k < pipes
        → 0 < s.pieces k
        → all n (wakes k) s ≡ 0
        → pos_part s.waiting ≤ all n (aware k) s + neg_part s.waiting

  module _ (s : System) (inv : Inv s) (i : ℕ) (h : i < n) where
    -- Why the threads still see the pieces of pipe `k` where one moves from `p` to `q` and leaves the
    -- count of those that wait at `w`: it wakes others no less and sees no less, or nobody is counted.
    abbrev pub Keeps : Pc → Pc → ℤ → ℕ → Type 0
    Keeps p q w k =
        ((wakes k p ≤ wakes k q)
          × (pos_part w + aware k p + neg_part s.waiting
              ≤ aware k q + neg_part w + pos_part s.waiting))
        ⊎ (pos_part w ≤ neg_part w)

    -- A thread that moves from `p` to `q` and leaves the pipes alone.
    pub stepped :
        (p q : Pc) (w : ℤ) (semaphore : ℕ)
        → s.threads i ≡ p
        → pos_part w + semaphore + pending q + neg_part s.waiting + counted p
          ≡ neg_part w + counted q + pos_part s.waiting + s.semaphore + pending p
        → ((k : ℕ) → k < pipes → 0 < s.pieces k → Keeps p q w k)
        → Inv (record s { waiting = w; semaphore = semaphore; threads = update s.threads i q })
    stepped p q w semaphore e balance keeps = record {
      conserved = omega (
        arith,
        balance,
        inv.conserved,
        all-update n pending s i p q h e,
        all-update n counted s i p q h e,
      );
      seen = λ k hk some_piece none_wakes. elim (keeps k hk some_piece) [
        | inl (wakes_on, sees) ↦ omega (
          arith,
          sees,
          all-update n (aware k) s i p q h e,
          inv.seen k hk some_piece
              (omega (arith, wakes_on, none_wakes, all-update n (wakes k) s i p q h e)),
        )
        | inr nobody ↦ omega (arith, nobody)
      ];
    }

    -- The same where nothing but the thread changes, and it counts the same.
    pub turned :
        (p q : Pc)
        → s.threads i ≡ p
        → pending q + counted p ≡ counted q + pending p
        → ((k : ℕ) → k < pipes → 0 < s.pieces k → Keeps p q s.waiting k)
        → Inv (record s { threads = update s.threads i q })
    turned p q e balance keeps = stepped p q s.waiting s.semaphore e (omega (arith, balance)) keeps

    load_step : (o : Option ℕ) → s.threads i ≡ load o → Inv (move pipes s i (load o))
    unfolding move
    load_step o e = elim (cases s.waiting) [
      | inl (v, e') ↦
          rw e' (turned (load o) (swap o (suc v)) e refl (λ k hk some_piece. inl (omega arith)))
      | inr (e', low) ↦ rw e' (turned (load o) working e refl (λ k hk some_piece. inr low))
    ]
      where
        cases :
            (z : ℤ)
            → ((v : ℕ) × (loaded o z ≡ swap o (suc v)))
              ⊎ ((loaded o z ≡ working) × (pos_part z ≤ neg_part z))
        cases (pos zero) = inr (refl, omega arith)
        cases (pos (suc v)) = inl (v, refl)
        cases (negsuc v) = inr (refl, omega arith)

    swap_step : (o : Option ℕ) (v : ℕ) → s.threads i ≡ swap o v → Inv (move pipes s i (swap o v))
    unfolding move
    swap_step o v e = elim (Bool-cases (is_value s.waiting v)) [
      | inl same ↦ rw same (
          stepped (swap o v) (signal v) (pos 0) s.semaphore e
            (omega (arith, is_value-parts s.waiting v same)) (λ k hk some_piece. inr (omega arith)))
      | inr other ↦
          rw other (turned (swap o v) (load o) e refl (λ k hk some_piece. inl (omega arith)))
    ]

    signal_step : (v : ℕ) → s.threads i ≡ signal v → Inv (move pipes s i (signal v))
    unfolding move
    signal_step v e =
        stepped (signal v) working s.waiting (s.semaphore + v) e (omega arith)
          (λ k hk some_piece. inl (omega arith))

    scan_step : (x : ℕ) → s.threads i ≡ scan x → Inv (move pipes s i (scan x))
    unfolding move
    scan_step x e = elim (Bool-cases (leb pipes x)) [
      | inl over ↦ rw over (turned (scan x) asleep e refl (λ k hk some_piece. inl (ground arith)))
      | inr in_range ↦ rw in_range (elim (Bool-cases (s.pieces x == 0)) [
        | inl empty ↦
            rw empty (turned (scan x) (scan (x + 1)) e refl (λ k hk some_piece. inl (ground arith)))
        | inr found ↦
            rw found (turned (scan x) leave e refl (λ k hk some_piece. inl (ground arith)))
      ])
    ]

    leave_step : s.threads i ≡ leave → Inv (move pipes s i leave)
    unfolding move
    leave_step e =
        stepped leave working (s.waiting +ℤ negsuc 0) s.semaphore e (omega (arith, less s.waiting))
          (λ k hk some_piece. inl (omega (arith, less s.waiting)))

    asleep_step : s.threads i ≡ asleep → Inv (move pipes s i asleep)
    unfolding move
    asleep_step e = elim (Bool-cases (s.semaphore == 0)) [
      | inl none_left ↦ rw none_left inv
      | inr some_left ↦ rw some_left (
          stepped asleep working s.waiting (s.semaphore - 1) e (ground arith)
            (λ k hk some_piece. inl (omega arith)))
    ]

    -- Every access of a thread keeps the invariant.
    pub move-Inv : (p : Pc) → s.threads i ≡ p → Inv (move pipes s i p)
    unfolding move
    move-Inv working e = inv
    move-Inv (load o) e = load_step o e
    move-Inv (swap o v) e = swap_step o v e
    move-Inv (signal v) e = signal_step v e
    move-Inv (scan x) e = scan_step x e
    move-Inv leave e = leave_step e
    move-Inv asleep e = asleep_step e
