-- ===== src/Tests/Sleep.antt =====
-- Two threads and one pipe: thread 1 goes to sleep, then thread 0 writes a piece and is about to
-- wake it.
use enki_ts.Base.{◌+◌, ◌≤◌, ◌≡◌, refl, some, arith, update, pos, pos_part, neg_part}
use enki_ts.Scheduler.Sleep.{
  load, swap, scan, System, access, write, wait, Reach, begin, later, idle, move,
}
use enki_ts.Scheduler.Sleep.Counts.{all, pending, sleeps, counted}
use enki_ts.Scheduler.Sleep.Safety.{wakes_conserved, no_lost_wake}

-- Thread 1 after WaitForNewTasks has found nothing.
asleep_state : (s : System) × Reach 1 2 s
unfolding move
asleep_state = (
  move 1
      (move 1 (record idle { waiting = pos 1; threads = update idle.threads 1 (scan 0) }) 1
        (scan 0))
      1 (scan 1),
  later (later (later begin (wait 1 (omega arith) refl)) (access 1 (omega arith)))
      (access 1 (omega arith)),
)

-- Thread 0 then writes a piece, and swaps the count.
woken_state : (s : System) × Reach 1 2 s
unfolding move asleep_state
woken_state = (
  move 1
      (move 1
        (record asleep_state.0 {
          pieces = update asleep_state.0.pieces 0 1;
          threads = update asleep_state.0.threads 0 (load (some 0));
        })
        0 (load (some 0)))
      0 (swap (some 0) 1),
  later (later (later asleep_state.1 (write 0 0 (omega arith) refl)) (access 0 (omega arith)))
      (access 0 (omega arith)),
)

no_lost_wake_example :
    all 2 sleeps woken_state.0 ≤ woken_state.0.semaphore + all 2 pending woken_state.0
unfolding woken_state asleep_state move
no_lost_wake_example =
    no_lost_wake 1 2 woken_state.0 0 woken_state.1 (omega arith) (omega arith) (λ i h. ground arith)

wakes_conserved_example :
    pos_part woken_state.0.waiting + woken_state.0.semaphore + all 2 pending woken_state.0
    ≡ neg_part woken_state.0.waiting + all 2 counted woken_state.0
wakes_conserved_example = wakes_conserved 1 2 woken_state.0 woken_state.1
