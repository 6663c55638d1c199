-- ===== src/Memory/Clients.antt =====
-- Blocks that a user of the scheduler allocates with the scheduler's allocator.
use enki_ts.Base.{ℕ, ◌+◌, ◌≡◌, refl, ap, ◌∙◌, arith, List}
use enki_ts.Scheduler.{sub32}
use enki_ts.Memory.{
  CustomAllocator, TaskSchedulerConfig, Block, Item, Call, Memory, block, alloc_item, alloc_block,
  free_block, free_item, free_item, new_lists, new_arrays, new_threads, start_threads, delete_lists,
  delete_semaphores, delete_arrays, delete_threads, stop_threads, initialize_config, initialize,
}
use enki_ts.Memory.Balance.{one, one_self, live, Valid, alloc_block-Holds, free_block-Holds}
use enki_ts.Memory.Members.{new_semaphores-Extends, delete_semaphores-log}
use enki_ts.Memory.Lifetime.{Owned, either}

module _ (place : CustomAllocator → List Call → ℕ → ℕ → ℕ) (size_of align_of : Item → ℕ) where
  pub alloc_item-Owned :
      (item : Item) (h : Block → ℕ) (m : Memory)
      → Owned place size_of align_of h m
      → let r = alloc_item place size_of align_of item m in
        Owned place size_of align_of
          (λ x. h x + one (block m.config.custom_allocator r.0 (size_of item)) x)
          r.1
  unfolding alloc_block live Valid
  alloc_item-Owned item h m (idle, busy) = (
    λ e. alloc_block-Holds place size_of align_of h (align_of item) (size_of item) m (idle e),
    λ e. let (valid, all) = busy e in (valid, λ x. omega (arith, all x)),
  )

  pub free_item-Owned :
      (item : Item) (p : ℕ) (h : Block → ℕ) (m : Memory)
      → Owned place size_of align_of
          (λ x. h x + one (block m.config.custom_allocator p (size_of item)) x)
          m
      → Owned place size_of align_of h (free_item place size_of align_of item p m).1
  unfolding free_block live Valid
  free_item-Owned item p h m (idle, busy) = (
    λ e. free_block-Holds place size_of align_of h p (size_of item) m (idle e),
    λ e.
        let (valid, all) = busy e in
        let y = block m.config.custom_allocator p (size_of item) in
        ((omega (arith, all y, one_self y), valid), λ x. omega (arith, all x)),
  )

  delete_arrays-config : (m : Memory) → (delete_arrays place size_of align_of m).1.config ≡ m.config
  unfolding delete_arrays delete_lists free_block
  delete_arrays-config m = refl

  stop_threads-config : (m : Memory) → (stop_threads place size_of align_of m).1.config ≡ m.config
  unfolding stop_threads delete_threads
  stop_threads-config m =
      let m' = (delete_semaphores place size_of align_of m.num_threads 0 m).1 in
      let same = delete_semaphores-log place size_of align_of m.num_threads 0 m in
      either place size_of align_of (λ r. r.1.config ≡ m.config) m.have_threads
        (delete_threads place size_of align_of m) (tt, m)
        (λ e. delete_arrays-config m' ∙ ap (λ m. m.config) same) (λ e. refl)

  new_arrays-config : (m : Memory) → (new_arrays place size_of align_of m).1.config ≡ m.config
  unfolding new_arrays new_lists alloc_block
  new_arrays-config m = refl

  start_threads-allocator :
      (m : Memory)
      → (start_threads place size_of align_of m).1.config.custom_allocator
        ≡ m.config.custom_allocator
  unfolding start_threads new_threads
  start_threads-allocator m =
      let m' = (new_arrays place size_of align_of m).1 in
      let same = (new_semaphores-Extends place size_of align_of m'.num_threads 0 m').1 in
      either place size_of align_of (λ r. r.1.config.custom_allocator ≡ m.config.custom_allocator)
        m.have_threads (tt, m) (new_threads place size_of align_of m) (λ e. refl)
        (λ e. same ∙ ap (λ c. c.custom_allocator) (new_arrays-config m))

  pub initialize_config-allocator :
      (c : TaskSchedulerConfig) (m : Memory)
      → (initialize_config place size_of align_of c m).1.config.custom_allocator
        ≡ c.custom_allocator
  unfolding initialize_config
  initialize_config-allocator c m =
      start_threads-allocator (record (stop_threads place size_of align_of m).1 { config = c })

  pub initialize-allocator :
      (total : ℕ) (m : Memory)
      → (initialize place size_of align_of total m).1.config.custom_allocator
        ≡ m.config.custom_allocator
  unfolding initialize
  initialize-allocator total m =
      let m' = (stop_threads place size_of align_of m).1 in
      start_threads-allocator (record m' {
        config = record m'.config {
          num_task_threads_to_create = sub32 total 1;
          num_external_task_threads = 0;
        };
      })
      ∙ ap (λ c. c.custom_allocator) (stop_threads-config m)
