-- ===== src/Tests/Summing.antt =====
-- Two threads that execute four and six of the ten indexes of a task set.
use enki_ts.Base.{ℕ, ◌≡◌, refl, List, [], ◌∷◌, arith, list_sum}
use enki_ts.Scheduler.{Event, executed}
use enki_ts.Scheduler.Split.{weight, weight-tiles}
use enki_ts.Scheduler.Work.{event_weight}
use enki_ts.Example.ParallelSum.{sums, sum_loop, InBounds, reduce, serial_sum, reduce-serial_sum}

abbrev calls : List Event
calls =
    executed 4 (record { start = 4; end = 10 }) 1
    ∷ executed 4 (record { start = 0; end = 4 }) 0
    ∷ []

calls_once :
    (w : ℕ → ℕ) → list_sum (event_weight w 4) calls ≡ weight w (record { start = 0; end = 10 })
unfolding list_sum
calls_once w = omega (arith, weight-tiles w 0 4 10 (omega arith) (omega arith))

calls-InBounds : InBounds 4 2 calls
unfolding InBounds
calls-InBounds = ((λ e. omega arith), ((λ e. omega arith), tt))

reduce-serial_sum_example : reduce (sums 4 2 calls) 0 ≡ serial_sum 10
reduce-serial_sum_example = reduce-serial_sum 4 2 10 calls calls_once calls-InBounds

-- Both are the sum of 1 to 10.
serial_ten : serial_sum 10 ≡ 55
unfolding sum_loop
serial_ten = refl
