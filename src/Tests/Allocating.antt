-- ===== src/Tests/Allocating.antt =====
-- A scheduler with the allocator `custom` that is initialized twice, and a program that creates and
-- deletes a task set.
use enki_ts.Base.{ℕ, ◌+◌, ◌*◌, ◌≡◌, ◌≢◌, refl, ap, List, [], ◌∷◌, arith}
use enki_ts.Memory.{
  CustomAllocator, TaskSchedulerConfig, Block, Item, Call, Memory, construct, default_config,
  no_callbacks, stop_threads,
}
use enki_ts.Memory.Balance.{live, Valid}
use enki_ts.Memory.Lifetime.{Setup, by_config, by_total, initialize_all, stop_threads-Valid}
use enki_ts.CApi.Objects.{
  EnkiTaskSchedulerConfig, enki_new_task_scheduler, enki_new_task_scheduler_with_custom_allocator,
  enki_init_with_config, enki_delete_task_scheduler,
}
use enki_ts.CApi.Objects.Session.{
  Session, opened_custom, configured, created, deleted, of_task_set, create, delete,
  enki_delete_task_scheduler-Valid, enki_delete_task_scheduler_foreign,
}

calls : List Call → ℕ
calls [] = 1
calls (c ∷ log) = calls log + 1

place : CustomAllocator → List Call → ℕ → ℕ → ℕ
place a log align size = 4096 * calls log

sizes : Item → ℕ
sizes item = 8

nil-Valid : Valid []
unfolding Valid
nil-Valid = tt

none_live : (x : Block) → live x [] ≡ 0
unfolding live
none_live x = refl

abbrev default : CustomAllocator
default = record { alloc = 1; free = 2; user_data = 0 }

abbrev custom : CustomAllocator
custom = record { alloc = 3; free = 4; user_data = 5 }

abbrev setup : EnkiTaskSchedulerConfig
setup = record {
  num_task_threads_to_create = 1;
  num_external_task_threads = 1;
  profiler_callbacks = no_callbacks;
  custom_allocator = custom;
}

abbrev config : TaskSchedulerConfig
config = record {
  num_task_threads_to_create = 1;
  num_external_task_threads = 1;
  profiler_callbacks = no_callbacks;
  custom_allocator = custom;
}

abbrev setups : List Setup
setups = by_config config ∷ by_total 2 ∷ []

abbrev ended : Memory
ended =
    (stop_threads place sizes sizes
      (initialize_all place sizes sizes setups (construct (default_config default 4) []))).1

stop_threads-Valid_example : Valid ended.log × ((x : Block) → live x ended.log ≡ live x [])
stop_threads-Valid_example =
    stop_threads-Valid place sizes sizes (default_config default 4) [] setups nil-Valid

abbrev opened : ℕ × Memory
opened = enki_new_task_scheduler_with_custom_allocator place sizes sizes default 4 custom []

abbrev initialized : Memory
initialized = (enki_init_with_config place sizes sizes default 4 setup opened.1).1

abbrev with_task : ℕ × Memory
with_task = create place sizes sizes default 4 (of_task_set 7) initialized

abbrev without_task : Memory
without_task = delete place sizes sizes default 4 (of_task_set 7) with_task.0 with_task.1

without_task-Session : Session place sizes sizes default 4 [] custom opened.0 without_task []
without_task-Session =
    deleted (of_task_set 7) with_task.0 [] []
      (created (of_task_set 7) (configured setup refl opened_custom))

abbrev all_calls : List Call
all_calls = enki_delete_task_scheduler place sizes sizes default 4 opened.0 without_task

enki_delete_task_scheduler-Valid_example :
    Valid all_calls × ((x : Block) → live x all_calls ≡ live x [])
enki_delete_task_scheduler-Valid_example =
    enki_delete_task_scheduler-Valid place sizes sizes default 4 [] custom opened.0 without_task
      nil-Valid without_task-Session

abbrev plain : ℕ × Memory
plain = enki_new_task_scheduler place sizes sizes default 4 []

not_default : custom ≢ default
not_default e = absurd (omega (arith, ap (λ a. a.alloc) e))

enki_delete_task_scheduler_foreign_example : ¬ Valid (
    enki_delete_task_scheduler place sizes sizes default 4 plain.0
      (enki_init_with_config place sizes sizes default 4 setup plain.1).1)
enki_delete_task_scheduler_foreign_example =
    enki_delete_task_scheduler_foreign place sizes sizes default 4 [] setup nil-Valid (none_live _)
      not_default
