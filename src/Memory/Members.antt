-- ===== src/Memory/Members.antt =====
-- What StartThreads allocates is what the members then point to, and StopThreads gives that back.
use native.Mathlib.Nat.{mul_comm}
use enki_ts.Base.{
  ℕ, zero, suc, ◌+◌, ◌*◌, ◌%◌, ◌^◌, ◌<◌, ◌≡◌, refl, ap₂, ◌∙◌, arith, List, [], ◌∷◌, update,
}
use enki_ts.Memory.{
  CustomAllocator, Block, Item, task_pipe, pinned_task_list, thread_data_store, std_thread,
  semaphore, Call, Memory, block, allocated, freed, alloc_block, free_block, new_lists,
  new_semaphores, new_arrays, delete_lists, delete_semaphores, delete_arrays,
}
use enki_ts.Memory.Balance.{
  one, count, give_back, give_back-Valid, Holds, live, Valid, free_block-Holds,
}

module _ (place : CustomAllocator → List Call → ℕ → ℕ → ℕ) (size_of align_of : Item → ℕ) where
  -- The blocks that the members point to.
  abbrev pub array : Memory → Item → ℕ → Block → ℕ
  array m item p = one (block m.config.custom_allocator p (m.num_threads * size_of item % 2 ^ 64))

  abbrev pub sem : Memory → ℕ → Block → ℕ
  sem m p = one (block m.config.custom_allocator p (size_of semaphore))

  abbrev pub lists : Memory → ℕ → Block → ℕ
  lists m priority x =
      array m task_pipe (m.pipes priority) x + array m pinned_task_list (m.pinned priority) x

  abbrev pub arrays : Memory → Block → ℕ
  arrays m x =
      lists m 0 x
      + lists m 1 x
      + lists m 2 x
      + sem m m.new_task_semaphore x
      + sem m m.task_complete_semaphore x
      + array m thread_data_store m.thread_data x
      + array m std_thread m.threads x

  unfoldable pub semaphores : CustomAllocator → (ℕ → ℕ) → ℕ → ℕ → Block → ℕ
  semaphores a f zero thread x = 0
  semaphores a f (suc left) thread x =
      one (block a (f thread) (size_of semaphore)) x + semaphores a f left (thread + 1) x

  pub new_arrays-Holds :
      (h : Block → ℕ) (m : Memory)
      → Holds h m
      → let m' = (new_arrays place size_of align_of m).1 in Holds (λ x. h x + arrays m' x) m'
  unfolding new_arrays new_lists alloc_block live Valid
  new_arrays-Holds h m (valid, all) = (valid, λ x. omega (arith, all x))

  -- The semaphores are created for threads from `thread` on, and nothing else of the members changes.
  abbrev Extends : ℕ → Memory → Memory → Type 0
  Extends thread m m' =
      ((x : Block) → arrays m' x ≡ arrays m x)
      × (m'.config.custom_allocator ≡ m.config.custom_allocator)
      × (m'.num_threads ≡ m.num_threads)
      × ((t : ℕ) → t < thread → m'.pinned_semaphore t ≡ m.pinned_semaphore t)

  pub new_semaphores-Extends :
      (left thread : ℕ) (m : Memory)
      → Extends thread m (new_semaphores place size_of align_of left thread m).1
  unfolding new_semaphores alloc_block
  new_semaphores-Extends zero thread m = (λ x. refl, refl, refl, λ t h. refl)
  new_semaphores-Extends (suc left) thread m =
      let p = place m.config.custom_allocator m.log (align_of semaphore) (size_of semaphore) in
      let m' = record m {
        log =
            allocated (block m.config.custom_allocator p (size_of semaphore)) (align_of semaphore)
            ∷ m.log;
        pinned_semaphore = update m.pinned_semaphore thread p;
      } in
      let (same, a, n, kept) = new_semaphores-Extends left (thread + 1) m' in
      (same, a, n, λ t h. kept t (omega arith) ∙ ground arith)

  pub new_semaphores-Holds :
      (left thread : ℕ) (h : Block → ℕ) (m : Memory)
      → Holds h m
      → let m' = (new_semaphores place size_of align_of left thread m).1 in
        Holds
          (λ x. h x + semaphores m'.config.custom_allocator m'.pinned_semaphore left thread x)
          m'
  unfolding new_semaphores alloc_block live Valid semaphores
  new_semaphores-Holds zero thread h m (valid, all) = (valid, λ x. omega (arith, all x))
  new_semaphores-Holds (suc left) thread h m (valid, all) =
      let p = place m.config.custom_allocator m.log (align_of semaphore) (size_of semaphore) in
      let m' = record m {
        log =
            allocated (block m.config.custom_allocator p (size_of semaphore)) (align_of semaphore)
            ∷ m.log;
        pinned_semaphore = update m.pinned_semaphore thread p;
      } in
      let (same, a, n, kept) = new_semaphores-Extends left (thread + 1) m' in
      let m'' = (new_semaphores place size_of align_of left (thread + 1) m').1 in
      let (valid', all') =
        new_semaphores-Holds left (thread + 1) (λ x. h x + sem m p x) m'
          (valid, λ x. omega (arith, all x)) in
      let self : update m.pinned_semaphore thread p thread ≡ p = ground arith in
      let at : (x : Block)
          → one
              (block m''.config.custom_allocator (m''.pinned_semaphore thread) (size_of semaphore))
              x
            ≡ sem m p x =
        λ x.
          ap₂ (λ c q. one (block c q (size_of semaphore)) x) a (kept thread (omega arith) ∙ self) in
      (valid', λ x. omega (arith, all' x, at x))

  pub delete_semaphores-log :
      (left thread : ℕ) (m : Memory)
      → let m' = (delete_semaphores place size_of align_of left thread m).1 in
        m' ≡ record m { log = m'.log }
  unfolding delete_semaphores free_block
  delete_semaphores-log zero thread m = refl
  delete_semaphores-log (suc left) thread m = delete_semaphores-log left (thread + 1) (record m {
    log =
        freed (block m.config.custom_allocator (m.pinned_semaphore thread) (size_of semaphore))
        ∷ m.log;
  })

  pub delete_semaphores-Holds :
      (left thread : ℕ) (h : Block → ℕ) (m : Memory)
      → Holds (λ x. h x + semaphores m.config.custom_allocator m.pinned_semaphore left thread x) m
      → Holds h (delete_semaphores place size_of align_of left thread m).1
  unfolding delete_semaphores semaphores free_block
  delete_semaphores-Holds zero thread h m (valid, all) = (valid, λ x. omega (arith, all x))
  delete_semaphores-Holds (suc left) thread h m (valid, all) =
      let p = m.pinned_semaphore thread in
      let rest : Block → ℕ =
        λ x. h x + semaphores m.config.custom_allocator m.pinned_semaphore left (thread + 1) x in
      let ok =
        free_block-Holds place size_of align_of rest p (size_of semaphore) m
          (valid, λ x. omega (arith, all x)) in
      delete_semaphores-Holds left (thread + 1) h
        (record m { log = freed (block m.config.custom_allocator p (size_of semaphore)) ∷ m.log })
        ok

  pub delete_arrays-Holds :
      (h : Block → ℕ) (m : Memory)
      → Holds (λ x. h x + arrays m x) m
      → Holds h (delete_arrays place size_of align_of m).1
  unfolding delete_arrays delete_lists free_block give_back count
  delete_arrays-Holds h m (valid, all) =
      let a = m.config.custom_allocator in
      let num = m.num_threads in
      let arr : Item → ℕ → Block = λ item p. block a p (size_of item * num % 2 ^ 64) in
      let blocks =
        arr thread_data_store m.thread_data
        ∷ arr std_thread m.threads
        ∷ block a m.new_task_semaphore (size_of semaphore)
        ∷ block a m.task_complete_semaphore (size_of semaphore)
        ∷ arr task_pipe (m.pipes 0)
        ∷ arr pinned_task_list (m.pinned 0)
        ∷ arr task_pipe (m.pipes 1)
        ∷ arr pinned_task_list (m.pinned 1)
        ∷ arr task_pipe (m.pipes 2)
        ∷ arr pinned_task_list (m.pinned 2)
        ∷ [] in
      give_back-Valid blocks h m.log valid (λ x.
        rw
          (
            mul_comm (size_of thread_data_store) num,
            mul_comm (size_of std_thread) num,
            mul_comm (size_of task_pipe) num,
            mul_comm (size_of pinned_task_list) num,
          )
          (omega (arith, all x)))
