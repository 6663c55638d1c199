-- ===== src/Scheduler/Completing/Counts.antt =====
-- How many threads are counted as waiting, hold wakes that they have yet to send, will wake others, or
-- would sleep on although their task is complete; and what a step does to such a count.
use enki_ts.Base.{
  ℕ, zero, suc, ◌+◌, ◌≤◌, ◌<◌, ◌≡◌, Option, none, some, arith, ◌==◌, if◌then◌else◌, update,
  sum_below, sum_below-change,
}
use enki_ts.Scheduler.Completing.{
  Pc, enter, test, scan, leave, asleep, check, quit, load, swap, signal, look, store,
}

-- A thread that m_NumThreadsWaitingForTaskCompletion counts, or that a wake was sent for.
abbrev pub counted : Pc → ℕ
counted (enter t) = 1
counted (test t) = 1
counted (scan t) = 1
counted (leave t) = 1
counted (asleep t) = 1
counted _ = 0

-- The wakes that a thread has yet to send.
abbrev pub pending : Pc → ℕ
pending (signal o v) = v
pending _ = 0

abbrev pub is : ℕ → ℕ → ℕ
is k t = if k == t then 1 else 0

abbrev pub calls : ℕ → Option ℕ → ℕ
calls k none = 0
calls k (some t) = is k t

-- A thread that m_WaitingForTaskCount of task `k` counts.
abbrev pub registered : ℕ → Pc → ℕ
registered k (test t) = is k t
registered k (scan t) = is k t
registered k (leave t) = is k t
registered k (asleep t) = is k t
registered k (check t) = is k t
registered k (quit t) = is k t
registered k (load o) = calls k o
registered k (swap o v) = calls k o
registered k (signal o v) = calls k o
registered k _ = 0

-- A thread that has found task `k` not near its completion, and has yet to look at it again.
abbrev pub inside : ℕ → Pc → ℕ
inside k (scan t) = is k t
inside k (asleep t) = is k t
inside k (check t) = is k t
inside k _ = 0

-- A thread in TaskComplete for task `k`, before the store; one that will not wake others then.
abbrev pub completes : ℕ → Pc → ℕ
completes k (look t) = is k t
completes k (store t wake) = is k t
completes k _ = 0

abbrev pub unaware : ℕ → Pc → ℕ
unaware k (store t wake) = if wake then 0 else is k t
unaware k _ = 0

-- With the counts `c`: a thread that will wake others, and one that waits for a complete task and
-- will not look at it again before it is woken.
abbrev pub wakes : (ℕ → ℕ) → Pc → ℕ
wakes c (load o) = 1
wakes c (swap o v) = 1
wakes c (check t) = if c t == 0 then 0 else 1
wakes c _ = 0

abbrev pub stuck : (ℕ → ℕ) → Pc → ℕ
stuck c (scan t) = if c t == 0 then 1 else 0
stuck c (asleep t) = if c t == 0 then 1 else 0
stuck c _ = 0

-- A thread that sleeps for a complete task.
abbrev pub sleeps : (ℕ → ℕ) → Pc → ℕ
sleeps c (asleep t) = if c t == 0 then 1 else 0
sleeps c _ = 0

-- The sum of a count over the threads.
abbrev pub all : ℕ → (Pc → ℕ) → (ℕ → Pc) → ℕ
all n f threads = sum_below n (λ i. f (threads i))

-- What the step of one thread changes.
pub all-update :
    (n : ℕ) (f : Pc → ℕ) (threads : ℕ → Pc) (i : ℕ) (p q : Pc)
    → i < n
    → threads i ≡ p
    → all n f (update threads i q) + f p ≡ all n f threads + f q
all-update n f threads i p q h e = ground (
  arith,
  sum_below-change n i (λ j. f (threads j)) (λ j. f (update threads i q j)) h
      (λ j ne. ground arith),
)

-- A count of which each thread has no more than two others allow.
pub all-le :
    (n : ℕ) (f g h : Pc → ℕ) (threads : ℕ → Pc)
    → ((p : Pc) → f p ≤ g p + h p)
    → all n f threads ≤ all n g threads + all n h threads
unfolding sum_below
all-le zero f g h threads le = omega arith
all-le (suc n) f g h threads le = omega (arith, all-le n f g h threads le, le (threads n))

pub all_mono :
    (n : ℕ) (f g : Pc → ℕ) (threads : ℕ → Pc)
    → ((p : Pc) → f p ≤ g p)
    → all n f threads ≤ all n g threads
unfolding sum_below
all_mono zero f g threads le = omega arith
all_mono (suc n) f g threads le = omega (arith, all_mono n f g threads le, le (threads n))

pub stuck-counted : (c : ℕ → ℕ) (p : Pc) → stuck c p ≤ counted p
stuck-counted c (scan t) = ground arith
stuck-counted c (asleep t) = ground arith
stuck-counted c _ = omega arith

pub sleeps-stuck : (c : ℕ → ℕ) (p : Pc) → sleeps c p ≤ stuck c p
sleeps-stuck c (scan t) = ground arith
sleeps-stuck c (asleep t) = ground arith
sleeps-stuck c _ = omega arith

pub unaware-completes : (k : ℕ) (p : Pc) → unaware k p ≤ completes k p
unaware-completes k (store t wake) = ground arith
unaware-completes k _ = omega arith

pub inside-registered : (k : ℕ) (p : Pc) → inside k p ≤ registered k p
inside-registered k (scan t) = omega arith
inside-registered k (asleep t) = omega arith
inside-registered k (check t) = omega arith
inside-registered k _ = omega arith

-- Where the count of task `k` becomes `v`, only threads inside of `k` change.
pub stuck-update : (c : ℕ → ℕ) (k v : ℕ) (p : Pc) → stuck (update c k v) p ≤ stuck c p + inside k p
stuck-update c k v (scan t) = ground arith
stuck-update c k v (asleep t) = ground arith
stuck-update c k v _ = omega arith

pub wakes-update : (c : ℕ → ℕ) (k v : ℕ) (p : Pc) → wakes c p ≤ wakes (update c k v) p + inside k p
wakes-update c k v (check t) = ground arith
wakes-update c k v _ = omega arith

-- Where it becomes positive, none is stuck for it, and none wakes less.
pub stuck-positive : (c : ℕ → ℕ) (k v : ℕ) → 0 < v → (p : Pc) → stuck (update c k v) p ≤ stuck c p
stuck-positive c k v h (scan t) = ground arith
stuck-positive c k v h (asleep t) = ground arith
stuck-positive c k v h _ = omega arith

pub wakes-positive : (c : ℕ → ℕ) (k v : ℕ) → 0 < v → (p : Pc) → wakes c p ≤ wakes (update c k v) p
wakes-positive c k v h (check t) = ground arith
wakes-positive c k v h _ = omega arith
