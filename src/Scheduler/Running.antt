-- ===== src/Scheduler/Running.antt =====
-- src/TaskScheduler.cpp: running tasks, and waiting for them on a thread that runs others meanwhile.
pub mod Piece
pub mod Pinned
pub mod AllPinned
pub mod Search
pub mod Found
use enki_ts.Base.{
  ℕ, zero, suc, ◌+◌, ◌*◌, ◌/◌, ◌%◌, ◌^◌, max, Bool, true, false, ◌&&◌, not, Option, none, some, [],
  ◌∷◌, ltb, ◌==◌, if◌then◌else◌, update,
}
use enki_ts.Pipe.Deque.{take_back, take_front}
use enki_ts.Scheduler.{
  SubTaskSet, running_state, executed, executed_pinned, done, out_of_fuel, Command, Action, pure,
  and_then, ◌>>=◌, ◌>>◌, gets, modify, skip, when, record_event, fetch_sub_running, add32, sub32,
  task_start_count, max_stolen_partitions, priority_num,
}
use enki_ts.Scheduler.Hash.{hash32}
use enki_ts.Scheduler.Split.{split_task}
use enki_ts.Scheduler.Wake.{set_state}
use enki_ts.Scheduler.Add.{set_pipe, set_pinned, split_and_add_task, task_complete}

-- WriterTryReadFront and ReaderTryReadBack on the pipe of a priority and thread.
abbrev pub try_read_front : ℕ → ℕ → Command (Option SubTaskSet)
try_read_front priority thread s =
    let ((_, out), q) = take_front (s.pipes priority thread) in
    done out (set_pipe priority thread q s)

abbrev pub try_read_back : ℕ → ℕ → Command (Option SubTaskSet)
try_read_back priority thread s =
    let ((_, out), q) = take_back (s.pipes priority thread) in
    done out (set_pipe priority thread q s)

-- ReaderReadBack on the pinned list of a priority and thread.
abbrev pub read_pinned : ℕ → ℕ → Command (Option ℕ)
read_pinned priority thread s = elim (s.pinned priority thread) [
  | [] ↦ done none s
  | t ∷ ts ↦ done (some t) (set_pinned priority thread ts s)
]

-- `depth` and `fuel` bound the completions and the loops below, as in `Scheduler.Add`.
module _ (depth fuel : ℕ) where
  unfoldable pub complete : ℕ → Bool → ℕ → Action
  complete = task_complete depth fuel

  -- RunPinnedTasks( threadNum_, priority_ ): the loop ends when the list is empty.
  unfoldable pub run_pinned_tasks_of : ℕ → ℕ → ℕ → Action
  unfolding complete
  run_pinned_tasks_of zero thread priority s = out_of_fuel
  run_pinned_tasks_of (suc rounds) thread priority s =
      let again = λ (t : ℕ). (do
        record_event (executed_pinned t thread)
        _ ← fetch_sub_running t 1
        complete t true thread
        run_pinned_tasks_of rounds thread priority) in
      and_then (read_pinned priority thread s) (λ o. elim o [ none ↦ skip | some t ↦ again t ])

  -- RunPinnedTasks().
  unfoldable pub run_pinned_tasks : ℕ → Action
  unfolding run_pinned_tasks_of
  run_pinned_tasks thread = do
    before ← gets (λ s. s.thread_state thread)
    set_state thread running_state
    run_pinned_tasks_of fuel thread 0
    run_pinned_tasks_of fuel thread 1
    run_pinned_tasks_of fuel thread 2
    set_state thread before

  -- The `while` of TryRunTask that tries the other threads' pipes: `left` rounds from `checked` on.
  -- It returns the last thread that was checked, `at`.
  unfoldable pub steal_loop : ℕ → ℕ → ℕ → ℕ → ℕ → ℕ → ℕ → Command (Option SubTaskSet × ℕ)
  steal_loop zero thread priority offset first checked at s = done (none, at) s
  steal_loop (suc left) thread priority offset first checked at s =
      let other = add32 offset checked % s.num_threads in
      let rest = steal_loop left thread priority offset first (checked + 1) other in
      let try = (do
        out ← try_read_back priority other
        elim out [ none ↦ rest | some sub ↦ pure (some sub, other) ]) in
      if not (other == thread) && not (offset == first) then try s else rest s

  -- A search that goes on by `next` if nothing was found at `first`.
  abbrev pub or_next :
      ℕ → Command (Option SubTaskSet × ℕ) → Option SubTaskSet → Command (Option SubTaskSet × ℕ)
  or_next first next (some sub) = pure (some sub, first)
  or_next first next none = next

  -- The search of the other threads' pipes, in an order that `rndSeed` sets.
  unfoldable pub find_other : ℕ → ℕ → ℕ → Command (Option SubTaskSet × ℕ)
  unfolding steal_loop hash32
  find_other thread priority first = do
    seed ← gets (λ s. add32 (s.rnd_seed thread) 1)
    modify (λ s. record s { rnd_seed = update s.rnd_seed thread seed })
    count ← gets (λ s. s.num_threads)
    steal_loop count thread priority (hash32 (seed * thread % 2 ^ 32)) first 0 first

  -- The back of the pipe that the hint names, then the others.
  unfoldable pub find_hinted : ℕ → ℕ → ℕ → Command (Option SubTaskSet × ℕ)
  unfolding find_other
  find_hinted thread priority first = do
    hinted ← try_read_back priority first
    or_next first (find_other thread priority first) hinted

  -- Where TryRunTask finds a piece: the front of the thread's own pipe, the back of the pipe that the
  -- hint names, then the others. With it `threadToCheck`.
  unfoldable pub find_sub_task : ℕ → ℕ → ℕ → Command (Option SubTaskSet × ℕ)
  unfolding find_hinted
  find_sub_task thread priority hint = do
    own ← try_read_front priority thread
    first ← gets (λ s. hint % s.num_threads)
    or_next first (find_hinted thread priority first) own

  -- What follows an ExecuteRange.
  abbrev pub piece_done : ℕ → ℕ → Action
  piece_done t thread = do
    before ← fetch_sub_running t 1
    when (task_start_count == before) (complete t true thread)

  -- The tail of TryRunTask, with the piece that was found.
  unfoldable pub run_sub_task : ℕ → ℕ → SubTaskSet → Action
  unfolding complete split_task split_and_add_task
  run_sub_task thread found sub = do
    task ← gets (λ s. s.tasks sub.task)
    let size = sub32 sub.partition.end sub.partition.start
    let (first, rest) = split_task sub task.range_to_run
    let range =
        if not (thread == found)
        then max task.range_to_run
            (sub32 rest.partition.end rest.partition.start / max_stolen_partitions)
        else task.range_to_run
    if ltb task.range_to_run size
        then (do
          split_and_add_task complete fuel thread rest range
          record_event (executed first.task first.partition thread)
          piece_done first.task thread)
        else (do record_event (executed sub.task sub.partition thread); piece_done sub.task thread)

  -- TryRunTask( threadNum_, priority_, hintPipeToCheck_io_ ): whether it had a task, and the hint.
  unfoldable pub try_run_task_of : ℕ → ℕ → ℕ → Command (Bool × ℕ)
  unfolding run_pinned_tasks_of find_sub_task run_sub_task
  try_run_task_of thread priority hint = do
    run_pinned_tasks_of fuel thread priority
    found ← find_sub_task thread priority hint
    elim found.0 [
      | none ↦ pure (false, hint)
      | some sub ↦ (run_sub_task thread found.1 sub >> pure (true, found.1))
    ]

  -- A `for` over the priorities from `priority` on, `left` of them, that stops at the first task.
  unfoldable pub try_priorities : ℕ → ℕ → ℕ → ℕ → Command (Bool × ℕ)
  unfolding try_run_task_of
  try_priorities zero priority thread hint = pure (false, hint)
  try_priorities (suc left) priority thread hint =
      let next = λ (h : ℕ). try_priorities left (priority + 1) thread h in
      (do ran ← try_run_task_of thread priority hint; if ran.0 then pure ran else next ran.1)

  -- TryRunTask( threadNum_, hintPipeToCheck_io_ ).
  unfoldable pub try_run_task : ℕ → ℕ → Command (Bool × ℕ)
  unfolding try_priorities
  try_run_task thread hint = try_priorities priority_num 0 thread hint
