-- ===== src/Memory/Lifetime.antt =====
-- From the constructor of a scheduler to its destructor, over any number of calls of Initialize.
use enki_ts.Base.{ℕ, ◌+◌, ◌≡◌, refl, ap, Bool, true, false, arith, List, [], ◌∷◌, if◌then◌else◌}
use enki_ts.Scheduler.{sub32}
use enki_ts.Memory.{
  CustomAllocator, TaskSchedulerConfig, Block, Item, Call, Memory, free_block, new_semaphores,
  new_arrays, new_threads, start_threads, delete_lists, delete_semaphores, delete_arrays,
  delete_threads, stop_threads, initialize_config, initialize, construct,
}
use enki_ts.Memory.Balance.{Holds, live, Valid}
use enki_ts.Memory.Members.{
  arrays, semaphores, new_arrays-Holds, new_semaphores-Extends, new_semaphores-Holds,
  delete_semaphores-log, delete_semaphores-Holds, delete_arrays-Holds,
}

-- A call of Initialize.
pub data Setup : Type 0 where
  by_config : TaskSchedulerConfig → Setup
  by_total : (total : ℕ) → Setup

module _ (place : CustomAllocator → List Call → ℕ → ℕ → ℕ) (size_of align_of : Item → ℕ) where
  abbrev pub members : Memory → Block → ℕ
  members m x =
      arrays place size_of align_of m x
      + semaphores place size_of align_of m.config.custom_allocator m.pinned_semaphore m.num_threads
          0 x

  -- What `h` counts is allocated, and, while there are threads, what the members point to.
  abbrev pub Owned : (Block → ℕ) → Memory → Type 0
  Owned h m =
      (m.have_threads ≡ false → Holds h m)
      × (m.have_threads ≡ true → Holds (λ x. h x + members m x) m)

  with_semaphores :
      (h : Block → ℕ) (m : Memory)
      → Holds (λ x. h x + arrays place size_of align_of m x) m
      → let m' = (new_semaphores place size_of align_of m.num_threads 0 m).1 in
        Holds (λ x. h x + members m' x) m'
  with_semaphores h m ok =
      let m' = (new_semaphores place size_of align_of m.num_threads 0 m).1 in
      let (same, a, n, kept) = new_semaphores-Extends place size_of align_of m.num_threads 0 m in
      let (valid, all) =
        new_semaphores-Holds place size_of align_of m.num_threads 0
          (λ x. h x + arrays place size_of align_of m x) m ok in
      let len : ℕ → Block → ℕ = λ k x.
        semaphores place size_of align_of m'.config.custom_allocator m'.pinned_semaphore k 0 x in
      (valid, λ x. omega (arith, all x, same x, ap (λ k. len k x) n))

  new_threads-Owned :
      (h : Block → ℕ) (m : Memory) → Holds h m → Owned h (new_threads place size_of align_of m).1
  unfolding new_threads
  new_threads-Owned h m ok =
      let ok' =
        with_semaphores h (new_arrays place size_of align_of m).1
          (new_arrays-Holds place size_of align_of h m ok) in
      (λ e. cc e, λ e. ok')

  without_semaphores :
      (h : Block → ℕ) (m : Memory)
      → Holds (λ x. h x + members m x) m
      → let m' = (delete_semaphores place size_of align_of m.num_threads 0 m).1 in
        Holds (λ x. h x + arrays place size_of align_of m' x) m'
  without_semaphores h m (valid, all) =
      let m' = (delete_semaphores place size_of align_of m.num_threads 0 m).1 in
      let same = delete_semaphores-log place size_of align_of m.num_threads 0 m in
      let (valid', all') =
        delete_semaphores-Holds place size_of align_of m.num_threads 0
          (λ x. h x + arrays place size_of align_of m x) m (valid, λ x. omega (arith, all x)) in
      (valid', λ x. omega (arith, all' x, ap (λ m. arrays place size_of align_of m x) same))

  delete_arrays_ends :
      (m : Memory) → (delete_arrays place size_of align_of m).1.have_threads ≡ false
  unfolding delete_arrays delete_lists free_block
  delete_arrays_ends m = refl

  delete_threads-Holds :
      (h : Block → ℕ) (m : Memory)
      → Holds (λ x. h x + members m x) m
      → let m' = (delete_threads place size_of align_of m).1 in
        Holds h m' × (m'.have_threads ≡ false)
  unfolding delete_threads
  delete_threads-Holds h m ok =
      let m' = (delete_semaphores place size_of align_of m.num_threads 0 m).1 in
      (
        delete_arrays-Holds place size_of align_of h m' (without_semaphores h m ok),
        delete_arrays_ends m',
      )

  pub either :
      (P : Unit {0} × Memory → Type 0) (b : Bool) (t u : Unit {0} × Memory)
      → (b ≡ true → P t)
      → (b ≡ false → P u)
      → P (if b then t else u)
  either P true t u f g = f refl
  either P false t u f g = g refl

  -- After StopThreads nothing is left of what the members pointed to.
  pub stop_threads-Holds :
      (h : Block → ℕ) (m : Memory)
      → Owned h m
      → let m' = (stop_threads place size_of align_of m).1 in Holds h m' × (m'.have_threads ≡ false)
  unfolding stop_threads
  stop_threads-Holds h m (idle, busy) =
      either (λ r. Holds h r.1 × (r.1.have_threads ≡ false)) m.have_threads
        (delete_threads place size_of align_of m) (tt, m) (λ e. delete_threads-Holds h m (busy e))
        (λ e. (idle e, e))

  pub start_threads-Owned :
      (h : Block → ℕ) (m : Memory)
      → Holds h m
      → m.have_threads ≡ false
      → Owned h (start_threads place size_of align_of m).1
  unfolding start_threads
  start_threads-Owned h m ok off =
      either (λ r. Owned h r.1) m.have_threads (tt, m) (new_threads place size_of align_of m)
        (λ e. cc (e, off)) (λ e. new_threads-Owned h m ok)

  pub initialize_config-Owned :
      (c : TaskSchedulerConfig) (h : Block → ℕ) (m : Memory)
      → Owned h m
      → Owned h (initialize_config place size_of align_of c m).1
  unfolding initialize_config
  initialize_config-Owned c h m own =
      let m' = (stop_threads place size_of align_of m).1 in
      let (ok, off) = stop_threads-Holds h m own in
      start_threads-Owned h (record m' { config = c }) ok off

  pub initialize-Owned :
      (total : ℕ) (h : Block → ℕ) (m : Memory)
      → Owned h m
      → Owned h (initialize place size_of align_of total m).1
  unfolding initialize
  initialize-Owned total h m own =
      let m' = (stop_threads place size_of align_of m).1 in
      let (ok, off) = stop_threads-Holds h m own in
      start_threads-Owned h
        (record m' {
          config = record m'.config {
            num_task_threads_to_create = sub32 total 1;
            num_external_task_threads = 0;
          };
        })
        ok off

  unfoldable pub initialize_all : List Setup → Memory → Memory
  unfolding initialize_config initialize
  initialize_all [] m = m
  initialize_all (by_config c ∷ rest) m =
      initialize_all rest (initialize_config place size_of align_of c m).1
  initialize_all (by_total total ∷ rest) m =
      initialize_all rest (initialize place size_of align_of total m).1

  initialize_all-Owned :
      (h : Block → ℕ) (setups : List Setup) (m : Memory)
      → Owned h m
      → Owned h (initialize_all setups m)
  unfolding initialize_all
  initialize_all-Owned h [] m own = own
  initialize_all-Owned h (by_config c ∷ rest) m own =
      initialize_all-Owned h rest (initialize_config place size_of align_of c m).1
        (initialize_config-Owned c h m own)
  initialize_all-Owned h (by_total total ∷ rest) m own =
      initialize_all-Owned h rest (initialize place size_of align_of total m).1
        (initialize-Owned total h m own)

  -- From the constructor of a scheduler to its destructor, with any calls of Initialize between them,
  -- each with its own allocator or none: if all that was given back before was allocated, by the same
  -- allocator with the same size, and not given back twice, so is all that is given back now, and in
  -- the end what is allocated is what was before.
  pub stop_threads-Valid :
      (config : TaskSchedulerConfig) (log : List Call) (setups : List Setup)
      → Valid log
      → let m =
          (stop_threads place size_of align_of (initialize_all setups (construct config log))).1 in
        Valid m.log × ((x : Block) → live x m.log ≡ live x log)
  stop_threads-Valid config log setups valid =
      let m0 = construct config log in
      let h : Block → ℕ = λ x. live x log in
      let own = initialize_all-Owned h setups m0 (λ e. (valid, λ x. refl), λ e. cc e) in
      (stop_threads-Holds h (initialize_all setups m0) own).0
