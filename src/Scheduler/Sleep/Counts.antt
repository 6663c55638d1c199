-- ===== src/Scheduler/Sleep/Counts.antt =====
-- How many threads are counted as waiting, hold wakes that they have yet to send, or will see a
-- piece; and what the step of one thread does to such a count.
use enki_ts.Base.{
  ℕ, zero, suc, ◌+◌, ◌≤◌, ◌<◌, ◌≡◌, Option, none, some, arith, leb, ◌==◌, if◌then◌else◌, update,
  sum_below, sum_below-change,
}
use enki_ts.Scheduler.Sleep.{Pc, working, load, swap, signal, scan, leave, asleep, System}

-- A thread that m_NumThreadsWaitingForNewTasks counts, or that a wake was sent for.
abbrev pub counted : Pc → ℕ
counted (scan x) = 1
counted leave = 1
counted asleep = 1
counted _ = 0

-- The wakes that a thread has yet to send.
abbrev pub pending : Pc → ℕ
pending (signal v) = v
pending _ = 0

abbrev pub sleeps : Pc → ℕ
sleeps asleep = 1
sleeps _ = 0

-- A thread that will see a piece in pipe `k`, or has seen one.
abbrev pub aware : ℕ → Pc → ℕ
aware k (scan x) = if leb x k then 1 else 0
aware k leave = 1
aware k _ = 0

abbrev is_pipe : ℕ → Option ℕ → ℕ
is_pipe k none = 0
is_pipe k (some k') = if k == k' then 1 else 0

-- A thread that wrote to pipe `k` and is yet to wake others.
abbrev pub wakes : ℕ → Pc → ℕ
wakes k (load o) = is_pipe k o
wakes k (swap o v) = is_pipe k o
wakes k _ = 0

-- The sum of a count over the threads.
abbrev pub all : ℕ → (Pc → ℕ) → System → ℕ
all n f s = sum_below n (λ i. f (s.threads i))

-- What the step of one thread changes.
pub all-update :
    (n : ℕ) (f : Pc → ℕ) (s : System) (i : ℕ) (p q : Pc)
    → i < n
    → s.threads i ≡ p
    → sum_below n (λ j. f (update s.threads i q j)) + f p ≡ all n f s + f q
all-update n f s i p q h e = ground (
  arith,
  sum_below-change n i (λ j. f (s.threads j)) (λ j. f (update s.threads i q j)) h
      (λ j ne. ground arith),
)

-- Two counts of which no thread has more than a third allows.
pub sum-le :
    (n : ℕ) (f g h : ℕ → ℕ)
    → ((i : ℕ) → f i + g i ≤ h i)
    → sum_below n f + sum_below n g ≤ sum_below n h
unfolding sum_below
sum-le zero f g h le = omega arith
sum-le (suc n) f g h le = omega (arith, sum-le n f g h le, le n)

pub counted_bound : (k : ℕ) (p : Pc) → aware k p + sleeps p ≤ counted p
counted_bound k working = omega arith
counted_bound k (load o) = omega arith
counted_bound k (swap o v) = omega arith
counted_bound k (signal v) = omega arith
counted_bound k (scan x) = ground arith
counted_bound k leave = omega arith
counted_bound k asleep = omega arith
