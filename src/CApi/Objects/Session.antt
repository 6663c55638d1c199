-- ===== src/CApi/Objects/Session.antt =====
-- A program that creates a scheduler and objects through the C interface and deletes them.
use enki_ts.Base.{ℕ, ◌+◌, ◌<◌, ◌≡◌, ◌≢◌, refl, sym, subst, ap, ◌∙◌, arith, List, [], ◌∷◌, ◌++◌}
use enki_ts.Memory.{
  enki_task_scheduler, enki_task_set, enki_pinned_task, enki_completable, enki_dependency,
  enki_completion_action, CustomAllocator, Block, Item, Call, Memory, block, alloc_item, free_item,
  alloc_block, free_block, stop_threads,
}
use enki_ts.Memory.Balance.{one, one_self, one_foreign, count, live, Valid}
use enki_ts.Memory.Lifetime.{Owned, stop_threads-Holds, initialize_config-Owned, initialize-Owned}
use enki_ts.Memory.Clients.{
  alloc_item-Owned, free_item-Owned, initialize-allocator, initialize_config-allocator,
}
use enki_ts.CApi.Objects.{
  EnkiTaskSchedulerConfig, to_config, enki_new_task_scheduler,
  enki_new_task_scheduler_with_custom_allocator, enki_init_num_threads, enki_init_with_config,
  enki_delete_task_scheduler, enki_create_task_set, enki_create_pinned_task,
  enki_create_completable, enki_create_dependency, enki_create_completion_action,
  enki_delete_task_set, enki_delete_pinned_task, enki_delete_completable, enki_delete_dependency,
  enki_delete_completion_action,
}

-- What the C interface creates besides schedulers.
pub data Object : Type 0 where
  of_task_set : (fun : ℕ) → Object
  of_pinned_task : (fun thread_num : ℕ) → Object
  of_completable : Object
  of_dependency : Object
  of_completion_action : (pre post : ℕ) → Object

abbrev pub item_of : Object → Item
item_of (of_task_set fun) = enki_task_set
item_of (of_pinned_task fun thread_num) = enki_pinned_task
item_of of_completable = enki_completable
item_of of_dependency = enki_dependency
item_of (of_completion_action pre post) = enki_completion_action

module _ (place : CustomAllocator → List Call → ℕ → ℕ → ℕ) (size_of align_of : Item → ℕ)
    (default : CustomAllocator) (hardware : ℕ) where
  -- The address that the call of enkiCreate gives, and the memory after it.
  unfoldable pub create : Object → Memory → ℕ × Memory
  create (of_task_set fun) m =
      let r = enki_create_task_set place size_of align_of default hardware fun m in (r.0.0, r.1)
  create (of_pinned_task fun thread_num) m =
      let r = enki_create_pinned_task place size_of align_of default hardware fun thread_num m in
      (r.0.0, r.1)
  create of_completable m =
      let r = enki_create_completable place size_of align_of default hardware m in (r.0.0, r.1)
  create of_dependency m = enki_create_dependency place size_of align_of default hardware m
  create (of_completion_action pre post) m =
      let r = enki_create_completion_action place size_of align_of default hardware pre post m in
      (r.0.0, r.1)

  unfoldable pub delete : Object → ℕ → Memory → Memory
  delete (of_task_set fun) p m =
      (enki_delete_task_set place size_of align_of default hardware p m).1
  delete (of_pinned_task fun thread_num) p m =
      (enki_delete_pinned_task place size_of align_of default hardware p m).1
  delete of_completable p m =
      (enki_delete_completable place size_of align_of default hardware p m).1
  delete of_dependency p m = (enki_delete_dependency place size_of align_of default hardware p m).1
  delete (of_completion_action pre post) p m =
      (enki_delete_completion_action place size_of align_of default hardware p m).1

  create-alloc_item :
      (o : Object) (m : Memory) → create o m ≡ alloc_item place size_of align_of (item_of o) m
  unfolding create
  create-alloc_item (of_task_set fun) m = refl
  create-alloc_item (of_pinned_task fun thread_num) m = refl
  create-alloc_item of_completable m = refl
  create-alloc_item of_dependency m = refl
  create-alloc_item (of_completion_action pre post) m = refl

  delete-free_item :
      (o : Object) (p : ℕ) (m : Memory)
      → delete o p m ≡ (free_item place size_of align_of (item_of o) p m).1
  unfolding delete
  delete-free_item (of_task_set fun) p m = refl
  delete-free_item (of_pinned_task fun thread_num) p m = refl
  delete-free_item of_completable p m = refl
  delete-free_item of_dependency p m = refl
  delete-free_item (of_completion_action pre post) p m = refl

  -- A program after the calls in `log`: the scheduler at `p`, its memory, and the blocks of the objects
  -- that were created and not deleted. It uses the allocator `a` throughout.
  pub data Session (log : List Call) (a : CustomAllocator) : ℕ → Memory → List Block → Type 0 where
    opened :
        a ≡ default
        → Session log a
            (enki_new_task_scheduler place size_of align_of default hardware log).0
            (enki_new_task_scheduler place size_of align_of default hardware log).1
            []
    opened_custom :
        Session log a
          (enki_new_task_scheduler_with_custom_allocator place size_of align_of default hardware a
            log).0
          (enki_new_task_scheduler_with_custom_allocator place size_of align_of default hardware a
            log).1
          []
    initialized :
        {p : ℕ} {m : Memory} {bs : List Block} (n : ℕ)
        → Session log a p m bs
        → Session log a p (enki_init_num_threads place size_of align_of default hardware n m).1 bs
    configured :
        {p : ℕ} {m : Memory} {bs : List Block} (c : EnkiTaskSchedulerConfig)
        → c.custom_allocator ≡ a
        → Session log a p m bs
        → Session log a p (enki_init_with_config place size_of align_of default hardware c m).1 bs
    created :
        {p : ℕ} {m : Memory} {bs : List Block} (o : Object)
        → Session log a p m bs
        → Session log a p (create o m).1 (block a (create o m).0 (size_of (item_of o)) ∷ bs)
    deleted :
        {p : ℕ} {m : Memory} (o : Object) (q : ℕ) (xs ys : List Block)
        → Session log a p m (xs ++ block a q (size_of (item_of o)) ∷ ys)
        → Session log a p (delete o q m) (xs ++ ys)

  held : List Call → CustomAllocator → ℕ → List Block → Block → ℕ
  held log a p bs x = live x log + one (block a p (size_of enki_task_scheduler)) x + count bs x

  count-append :
      (xs ys : List Block) (y x : Block) → count (xs ++ y ∷ ys) x ≡ count (xs ++ ys) x + one y x
  unfolding count
  count-append [] ys y x = omega arith
  count-append (z ∷ xs) ys y x = omega (arith, count-append xs ys y x)

  Owned-same :
      (m : Memory) (h h' : Block → ℕ)
      → ((x : Block) → h x ≡ h' x)
      → Owned place size_of align_of h m
      → Owned place size_of align_of h' m
  Owned-same m h h' same (idle, busy) = (
    λ e. ((idle e).0, λ x. omega (arith, (idle e).1 x, same x)),
    λ e. ((busy e).0, λ x. omega (arith, (busy e).1 x, same x)),
  )

  Session-Owned :
      (log : List Call) (a : CustomAllocator) (p : ℕ) (m : Memory) (bs : List Block)
      → Valid log
      → Session log a p m bs
      → (m.config.custom_allocator ≡ a) × Owned place size_of align_of (held log a p bs) m
  unfolding enki_new_task_scheduler enki_new_task_scheduler_with_custom_allocator held count live
      Valid alloc_block free_block
  Session-Owned log a p m bs valid (opened e) = (
    sym e,
    (
      λ z. (
        valid,
        λ x.
            ap (λ d. live x log + one (block d p (size_of enki_task_scheduler)) x) (sym e)
            ∙ omega arith,
      ),
      λ z. cc z,
    ),
  )
  Session-Owned log a p m bs valid opened_custom =
      (refl, (λ z. (valid, λ x. omega arith), λ z. cc z))
  Session-Owned log a p m bs valid (initialized {m = m'} n s) =
      let (same, own) = Session-Owned log a p m' bs valid s in
      (
        initialize-allocator place size_of align_of n m' ∙ same,
        initialize-Owned place size_of align_of n (held log a p bs) m' own,
      )
  Session-Owned log a p m bs valid (configured {m = m'} c e s) =
      let (same, own) = Session-Owned log a p m' bs valid s in
      (
        initialize_config-allocator place size_of align_of (to_config c) m' ∙ e,
        initialize_config-Owned place size_of align_of (to_config c) (held log a p bs) m' own,
      )
  Session-Owned log a p m bs valid (created {m = m'} {bs = bs'} o s) =
      let (same, own) = Session-Owned log a p m' bs' valid s in
      let r = alloc_item place size_of align_of (item_of o) m' in
      subst
        (λ r.
          (r.1.config.custom_allocator ≡ a)
          × Owned place size_of align_of (held log a p (block a r.0 (size_of (item_of o)) ∷ bs'))
              r.1)
        (sym (create-alloc_item o m'))
        (
          same,
          Owned-same r.1 _ _
              (λ x. omega (arith, ap (λ d. one (block d r.0 (size_of (item_of o))) x) same))
              (alloc_item-Owned place size_of align_of (item_of o) (held log a p bs') m' own),
        )
  Session-Owned log a p m bs valid (deleted {m = m'} o q xs ys s) =
      let (same, own) =
        Session-Owned log a p m' (xs ++ block a q (size_of (item_of o)) ∷ ys) valid s in
      subst
        (λ r.
          (r.config.custom_allocator ≡ a)
          × Owned place size_of align_of (held log a p (xs ++ ys)) r)
        (sym (delete-free_item o q m'))
        (
          same,
          free_item-Owned place size_of align_of (item_of o) q (held log a p (xs ++ ys)) m' (
              Owned-same m' _ _
                (λ x. omega (
                  arith,
                  count-append xs ys (block a q (size_of (item_of o))) x,
                  ap (λ d. one (block d q (size_of (item_of o))) x) same,
                ))
                own),
        )

  -- A program opens a scheduler with some allocator, initializes it any number of times, always with
  -- that allocator, and creates and deletes objects, until it has deleted all of them, and then deletes
  -- the scheduler: if all that was given back before was allocated, by the same allocator with the same
  -- size, and not given back twice, so is all that the program gives back, and in the end what is
  -- allocated is what was before.
  pub enki_delete_task_scheduler-Valid :
      (log : List Call) (a : CustomAllocator) (p : ℕ) (m : Memory)
      → Valid log
      → Session log a p m []
      → let calls = enki_delete_task_scheduler place size_of align_of default hardware p m in
        Valid calls × ((x : Block) → live x calls ≡ live x log)
  unfolding enki_delete_task_scheduler held count live Valid
  enki_delete_task_scheduler-Valid log a p m valid s =
      let (same, own) = Session-Owned log a p m [] valid s in
      let ((valid', all), off) =
        stop_threads-Holds place size_of align_of (held log a p []) m own in
      let y = block m.config.custom_allocator p (size_of enki_task_scheduler) in
      let at : (x : Block) → one y x ≡ one (block a p (size_of enki_task_scheduler)) x =
        λ x. ap (λ d. one (block d p (size_of enki_task_scheduler)) x) same in
      ((omega (arith, all y, one_self y, at y), valid'), λ x. omega (arith, all x, at x))

  -- Where a scheduler that enkiNewTaskScheduler made, after calls that gave back just what was
  -- allocated, is initialized with a configuration whose allocator is not the default one and has no
  -- block like the scheduler's of its own, the call of enkiDeleteTaskScheduler gives the scheduler to an
  -- allocator that did not allocate it.
  pub enki_delete_task_scheduler_foreign :
      (log : List Call) (c : EnkiTaskSchedulerConfig)
      → Valid log
      → let (p, m) = enki_new_task_scheduler place size_of align_of default hardware log in
        let y = block c.custom_allocator p (size_of enki_task_scheduler) in
        live y log ≡ 0
        → c.custom_allocator ≢ default
        → ¬ Valid (
            enki_delete_task_scheduler place size_of align_of default hardware p
              (enki_init_with_config place size_of align_of default hardware c m).1)
  unfolding enki_delete_task_scheduler held count Valid
  enki_delete_task_scheduler_foreign log c valid none other (gives, _) =
      let (p, m) = enki_new_task_scheduler place size_of align_of default hardware log in
      let (same, own) = Session-Owned log default p m [] valid (opened refl) in
      let h = held log default p [] in
      let m' = (enki_init_with_config place size_of align_of default hardware c m).1 in
      let own' = initialize_config-Owned place size_of align_of (to_config c) h m own in
      let ((valid', all), off) = stop_threads-Holds place size_of align_of h m' own' in
      let size = size_of enki_task_scheduler in
      let it = initialize_config-allocator place size_of align_of (to_config c) m in
      let log' = (stop_threads place size_of align_of m').1.log in
      let gone : 0 < live (block c.custom_allocator p size) log' =
        subst (λ d. 0 < live (block d p size) log') it gives in
      omega (
        arith,
        all (block c.custom_allocator p size),
        none,
        one_foreign default c.custom_allocator p size other,
        gone,
      )
