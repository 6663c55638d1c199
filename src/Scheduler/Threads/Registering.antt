-- ===== src/Scheduler/Threads/Registering.antt =====
-- src/TaskScheduler.cpp, RegisterExternalTaskThread and DeRegisterExternalTaskThread.
use enki_ts.Base.{
  ℕ, zero, suc, ◌+◌, ◌-◌, ◌≤◌, ◌<◌, ◌≡◌, ap, ◌∙◌, ◌+ℤ◌, ltb_ℤ, ◌≢◌, refl, false, true, Option, some,
  none, arith, update, ℤ, pos, negsuc, dec_lt, if◌then◌else◌, Bool-cases, inl, inr, sum_below,
  sum_below-change, sum_below-le,
}
use enki_ts.Scheduler.{
  ThreadState, Scheduler, no_thread_num, external_unregistered, external_registered,
}
use enki_ts.Scheduler.Add.Loop.{Ends}
use enki_ts.Scheduler.Add.Tiling.{Ends-bind, Ends-map}
use enki_ts.Scheduler.Threads.{
  first_external, is_unregistered, register_external_task_thread_num, register_first,
  register_external_task_thread, or_again, deregister_external_task_thread,
}

-- 1 for a place that a thread of the user holds.
abbrev pub taken : Scheduler → ℕ → ℕ
taken s i = if is_unregistered (s.thread_state (first_external + i)) then 0 else 1

-- m_NumExternalTaskThreadsRegistered is the number of places taken.
abbrev pub Counted : Scheduler → Type 0
Counted s = s.num_external_registered ≡ pos (sum_below s.config.num_external_task_threads (taken s))

-- A count goes up or down by 1.
count_up : (z : ℤ) (n m : ℕ) → z ≡ pos n → m ≡ n + 1 → z +ℤ pos 1 ≡ pos m
count_up z n m e h = rw e (ground arith)

count_down : (z : ℤ) (n m : ℕ) → z ≡ pos n → n ≡ m + 1 → z +ℤ negsuc 0 ≡ pos m
count_down z n m e h = rw e (ground arith)

count_down_up : (z : ℤ) (n m : ℕ) → z ≡ pos n → n ≡ m + 1 → z +ℤ negsuc 0 +ℤ pos 1 ≡ z
count_down_up z n m e h = rw e (ground arith)

-- What a place taken changes.
taken_one :
    (s s' : Scheduler) (i : ℕ)
    → Counted s
    → i < s.config.num_external_task_threads
    → s'.config ≡ s.config
    → ((j : ℕ) → j ≢ i → taken s' j ≡ taken s j)
    → taken s i ≡ 0
    → taken s' i ≡ 1
    → sum_below s'.config.num_external_task_threads (taken s')
      ≡ sum_below s.config.num_external_task_threads (taken s) + 1
taken_one s s' i c h same others free held =
    ground
      (arith, sum_below-change s.config.num_external_task_threads i (taken s) (taken s') h others)

-- The state in which the thread `t` was registered.
abbrev hold : ℕ → Scheduler → Scheduler
hold t s = record s {
  thread_state = update s.thread_state t external_registered;
  num_external_registered = s.num_external_registered +ℤ pos 1;
}

-- What the loop of RegisterExternalTaskThread over the threads from `thread` on comes to: the first
-- place that is not taken is, or all are.
abbrev pub Found : ℕ → ℕ → Scheduler → Option ℕ → Scheduler → Type 0
Found left thread s none s' =
    (s' ≡ s)
    × ((t : ℕ) → thread ≤ t → t < thread + left → is_unregistered (s.thread_state t) ≡ false)
Found left thread s (some t) s' =
    (thread ≤ t)
    × (t < thread + left)
    × (is_unregistered (s.thread_state t) ≡ true)
    × (s' ≡ hold t s)

register_first_lem :
    (left thread : ℕ) (s : Scheduler) → Ends (Found left thread s) (register_first left thread s)
unfolding register_first register_external_task_thread_num
register_first_lem zero thread s = (refl, λ t h h'. absurd (omega arith))
register_first_lem (suc left) thread s =
    elim (Bool-cases (is_unregistered (s.thread_state thread))) [
      | inl free ↦ rw free (omega arith, omega arith, free, refl)
      | inr held ↦ rw held (
          Ends-map (register_first left (thread + 1) s) (weaker held)
            (register_first_lem left (thread + 1) s))
    ]
  where
    weaker :
        is_unregistered (s.thread_state thread) ≡ false
        → (o : Option ℕ) (s' : Scheduler) → Found left (thread + 1) s o s'
        → Found (suc left) thread s o s'
    weaker here none s' (same, held) = (
      same,
      λ t h h'. elim (dec_lt thread t) [
        | yes later ↦ held t (omega arith) (omega arith)
        | no first ↦ let e : t ≡ thread = omega arith in rw e here
      ],
    )
    weaker here (some t) s' (h, h', free, e) = (omega arith, omega arith, free, e)

sum_ones : (n : ℕ) (f : ℕ → ℕ) → ((j : ℕ) → j < n → f j ≡ 1) → sum_below n f ≡ n
unfolding sum_below
sum_ones zero f h = refl
sum_ones (suc n) f h = omega (arith, sum_ones n f (λ j lt. h j (omega arith)), h n (omega arith))

-- The thread `t` has registered: it was free, and nothing else has changed.
pub record Registered (s : Scheduler) (t : ℕ) (s' : Scheduler) : Type 0 where
  pub in_range : (1 ≤ t) × (t ≤ s.config.num_external_task_threads)
  pub free : s.thread_state t ≡ external_unregistered
  pub held : s'.thread_state t ≡ external_registered
  pub others : (u : ℕ) → u ≢ t → s'.thread_state u ≡ s.thread_state u
  pub counted : Counted s'
  pub one_more : s'.num_external_registered ≡ s.num_external_registered +ℤ pos 1

-- What RegisterExternalTaskThread comes to.
abbrev pub Registers : Scheduler → Option ℕ → Scheduler → Type 0
Registers s none s' =
    (s' ≡ s) × (s.num_external_registered ≡ pos s.config.num_external_task_threads)
Registers s (some t) s' = Registered s t s'

is_unregistered_eq : (st : ThreadState) → is_unregistered st ≡ true → st ≡ external_unregistered
is_unregistered_eq st e = ground arith

-- A free place that is taken keeps the count right.
register_one :
    (s : Scheduler) (t : ℕ)
    → Counted s
    → 1 ≤ t
    → t < 1 + s.config.num_external_task_threads
    → is_unregistered (s.thread_state t) ≡ true
    → Registered s t (hold t s)
register_one s t c h h' free = record {
  in_range = (h, omega arith);
  free = is_unregistered_eq (s.thread_state t) free;
  held = ground arith;
  others = λ u ne. ground arith;
  counted = count_up s.num_external_registered _ _ c more;
  one_more = refl;
}
  where
    place : 1 + (t - 1) ≡ t
    place = omega arith

    more :
        sum_below s.config.num_external_task_threads (taken (hold t s))
        ≡ sum_below s.config.num_external_task_threads (taken s) + 1
    more =
        taken_one s (hold t s) (t - 1) c (omega arith) refl (λ j ne. ground arith)
          (ground (arith, place)) (ground (arith, place))

-- RegisterExternalTaskThread ends after one round of its loop: it takes a free place and counts it,
-- or finds that as many threads are registered as may be.
pub register_external_task_thread-Registers :
    (fuel : ℕ) (s : Scheduler)
    → Counted s
    → Ends (Registers s) (register_external_task_thread (suc fuel) s)
unfolding register_external_task_thread
register_external_task_thread-Registers fuel s c =
    elim (Bool-cases (ltb_ℤ s.num_external_registered (pos s.config.num_external_task_threads))) [
      | inl room ↦ rw room (
          Ends-bind (Found ext 1 s) (Registers s) (register_first ext 1 s) _
            (register_first_lem ext 1 s) (step room))
      | inr full ↦ rw full (refl, no_room full)
    ]
  where
    ext : ℕ
    ext = s.config.num_external_task_threads

    at_most : (j : ℕ) → taken s j ≤ 1
    at_most j = elim (Bool-cases (is_unregistered (s.thread_state (1 + j)))) [
      | inl free ↦ rw free (omega arith)
      | inr held ↦ rw held (omega arith)
    ]

    no_room :
        ltb_ℤ s.num_external_registered (pos ext) ≡ false
        → s.num_external_registered ≡ pos s.config.num_external_task_threads
    no_room full = c ∙ ap pos (ground (arith, sum_below-le ext (taken s) at_most))

    step :
        ltb_ℤ s.num_external_registered (pos ext) ≡ true
        → (o : Option ℕ) (s' : Scheduler) → Found ext 1 s o s'
        → Ends (Registers s) (or_again (register_external_task_thread fuel) o s')
    step room none s' (same, held) = absurd (
        ground (
          arith,
          sum_ones ext (taken s) (λ j lt. ground (arith, held (1 + j) (omega arith) (omega arith))),
        ))
    step room (some t) s' (h, h', free, e) = rw e (register_one s t c h h' free)

-- DeRegisterExternalTaskThread gives up the place of a registered thread and counts it.
pub deregister_external_task_thread-Counted :
    (s : Scheduler) (t : ℕ)
    → Counted s
    → 1 ≤ t
    → t ≤ s.config.num_external_task_threads
    → s.thread_state t ≡ external_registered
    → Ends
        (λ n s'.
          (n ≡ no_thread_num)
          × (s'.thread_state t ≡ external_unregistered)
          × (s'.num_external_registered +ℤ pos 1 ≡ s.num_external_registered)
          × Counted s')
        (deregister_external_task_thread t s)
unfolding deregister_external_task_thread
deregister_external_task_thread-Counted s t c h h' e = rw e (
  refl,
  ground arith,
  count_down_up s.num_external_registered _ _ c less,
  count_down s.num_external_registered _ _ c less,
)
  where
    gone : Scheduler
    gone = record s {
      thread_state = update s.thread_state t external_unregistered;
      num_external_registered = s.num_external_registered +ℤ negsuc 0;
    }

    place : 1 + (t - 1) ≡ t
    place = omega arith

    less :
        sum_below s.config.num_external_task_threads (taken s)
        ≡ sum_below s.config.num_external_task_threads (taken gone) + 1
    less = ground (
      arith,
      place,
      sum_below-change s.config.num_external_task_threads (t - 1) (taken s) (taken gone)
          (omega arith) (λ j ne. ground arith),
    )
