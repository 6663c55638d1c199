-- ===== src/Scheduler/Threads/Starting.antt =====
-- src/TaskScheduler.cpp, StartThreads: the state in which it leaves the scheduler.
use enki_ts.Base.{
  ℕ, zero, suc, ◌+◌, ◌-◌, ◌^◌, ◌≤◌, ◌<◌, ◌≡◌, refl, false, true, [], arith, update, pos, dec_lt,
  inl, ◌⊎◌,
}
use enki_ts.Scheduler.{
  ThreadState, none_state, Config, Scheduler, primary_registered, external_unregistered,
  not_launched, add32, max_num_initial_partitions,
}
use enki_ts.Scheduler.Add.Loop.{Ends}
use enki_ts.Scheduler.Threads.{fill, initial_states, partitions_for, start_threads}

-- A loop that fills an array leaves the cells outside of its range as they are.
pub fill_out {ℓ} :
    {A : Type ℓ} (count first : ℕ) (x : A) (f : ℕ → A) (i : ℕ)
    → (i < first) ⊎ (first + count ≤ i)
    → fill count first x f i ≡ f i
unfolding fill
fill_out zero first x f i h = refl
fill_out (suc count) first x f i h =
    ground (arith, fill_out count (first + 1) x (update f first x) i (ground arith))

-- A loop that fills an array reaches each cell in its range.
pub fill_in {ℓ} :
    {A : Type ℓ} (count first : ℕ) (x : A) (f : ℕ → A) (i : ℕ)
    → first ≤ i
    → i < first + count
    → fill count first x f i ≡ x
unfolding fill
fill_in zero first x f i h h' = absurd (omega arith)
fill_in (suc count) first x f i h h' = elim (dec_lt first i) [
  | yes later ↦ fill_in count (first + 1) x (update f first x) i (omega arith) (omega arith)
  | no here ↦
      let e : i ≡ first = omega arith in
      ground (arith, fill_out count (first + 1) x (update f first x) i (inl (omega arith)))
]

abbrev first : ℕ → ThreadState
first = update (λ t. none_state) 0 primary_registered

abbrev user : ℕ → ℕ → ThreadState
user external = fill external 1 external_unregistered first

-- The state that each thread starts in.
initial_primary : (count external : ℕ) → initial_states count external 0 ≡ primary_registered
initial_primary count external = ground (
  arith,
  fill_out (count - (1 + external)) (1 + external) not_launched (user external) 0
      (inl (omega arith)),
  fill_out external 1 external_unregistered first 0 (inl (omega arith)),
)

initial_external :
    (count external t : ℕ)
    → 1 ≤ t
    → t ≤ external
    → initial_states count external t ≡ external_unregistered
initial_external count external t h h' = ground (
  arith,
  fill_out (count - (1 + external)) (1 + external) not_launched (user external) t
      (inl (omega arith)),
  fill_in external 1 external_unregistered first t h (omega arith),
)

initial_internal :
    (count external t : ℕ)
    → external < t
    → t < count
    → initial_states count external t ≡ not_launched
initial_internal count external t h h' =
    fill_in (count - (1 + external)) (1 + external) not_launched (user external) t (omega arith)
      (omega arith)

-- The numbers of partitions are at least 1, and the initial one at most 8.
pub partitions_for_bounds :
    (hardware num_threads : ℕ)
    → (1 ≤ (partitions_for hardware num_threads).0)
      × ((1 ≤ (partitions_for hardware num_threads).1)
          × ((partitions_for hardware num_threads).1 ≤ max_num_initial_partitions))
unfolding partitions_for
partitions_for_bounds hardware num_threads = ground arith

-- A scheduler that was started with `config`.
pub record Started (config : Config) (s : Scheduler) : Type 0 where
  pub have_threads : s.have_threads ≡ true
  pub running : s.is_running ≡ true
  pub count :
      s.num_threads ≡ config.num_task_threads_to_create + config.num_external_task_threads + 1
  pub primary : s.thread_state 0 ≡ primary_registered
  pub external :
      (t : ℕ)
      → 1 ≤ t
      → t ≤ config.num_external_task_threads
      → s.thread_state t ≡ external_unregistered
  pub internal :
      (t : ℕ)
      → config.num_external_task_threads < t
      → t < s.num_threads
      → s.thread_state t ≡ not_launched
  pub launched : s.num_internal_running ≡ pos config.num_task_threads_to_create
  pub no_pieces : (priority t : ℕ) → s.pipes priority t ≡ []
  pub no_pinned : (priority t : ℕ) → s.pinned priority t ≡ []
  pub partitions : 1 ≤ s.num_partitions
  pub initial :
      (1 ≤ s.num_initial_partitions) × (s.num_initial_partitions ≤ max_num_initial_partitions)

-- StartThreads on a scheduler without threads ends, with a state for each thread that fits its part
-- in the configuration, with empty pipes, and with numbers of partitions that can be divided by.
pub start_threads-Started :
    (hardware : ℕ) (s : Scheduler)
    → s.have_threads ≡ false
    → s.num_internal_running ≡ pos 0
    → s.config.num_task_threads_to_create + s.config.num_external_task_threads + 1 < 2 ^ 32
    → Ends (λ _ s'. Started s.config s') (start_threads hardware s)
unfolding start_threads
start_threads-Started hardware s stopped none_running small = rw stopped record {
  have_threads = refl;
  running = refl;
  count = count_small;
  primary = initial_primary count external;
  external = λ t h h'. initial_external count external t h h';
  internal = λ t h h'. initial_internal count external t h h';
  launched = ground arith;
  no_pieces = λ p t. refl;
  no_pinned = λ p t. refl;
  partitions = (partitions_for_bounds hardware _).0;
  initial = (partitions_for_bounds hardware _).1;
}
  where
    external : ℕ
    external = s.config.num_external_task_threads

    count : ℕ
    count = add32 (add32 s.config.num_task_threads_to_create external) 1

    count_small :
        add32 (add32 s.config.num_task_threads_to_create s.config.num_external_task_threads) 1
        ≡ s.config.num_task_threads_to_create + s.config.num_external_task_threads + 1
    count_small = omega arith
