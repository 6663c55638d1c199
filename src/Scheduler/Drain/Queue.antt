-- ===== src/Scheduler/Drain/Queue.antt =====
-- The pieces of one task in the pipe of the thread that runs them.
use enki_ts.Base.{
  ℕ, ◌+◌, ◌-◌, ◌≤◌, ◌<◌, ◌≡◌, ◌≢◌, ◌⊎◌, refl, ap, arith, List, [], ◌∷◌, list_sum, inl, inr,
  sum_below, sum_below-change, sum_below-ext, sum_below-zero, le-sum_below,
}
use enki_ts.Pipe.Deque.{last_from}
use enki_ts.Scheduler.{SubTaskSet, Scheduler, priority_num}
use enki_ts.Scheduler.Split.{weight, weight-one}
use enki_ts.Scheduler.Work.{sub_weight, queued, is_piece, pieces}
use enki_ts.Scheduler.Drain.{Good, AllGood}

-- The number of indexes of task `t` that a pipe holds.
abbrev pub size_left : ℕ → List SubTaskSet → ℕ
size_left t q = list_sum (sub_weight (λ i. 1) t) q

-- What the front of a pipe and the rest of it hold is what the pipe holds.
pub last_from-sum :
    (m : SubTaskSet → ℕ) (x : SubTaskSet) (xs : List SubTaskSet)
    → list_sum m (last_from x xs).1 + m (last_from x xs).0 ≡ list_sum m (x ∷ xs)
unfolding list_sum
last_from-sum m x [] = omega arith
last_from-sum m x (y ∷ ys) = omega (arith, last_from-sum m y ys)

pub last_from-Good :
    (t : ℕ) (x : SubTaskSet) (xs : List SubTaskSet)
    → AllGood t (x ∷ xs)
    → AllGood t (last_from x xs).1 × Good t (last_from x xs).0
last_from-Good t x [] (g, gs) = (tt, g)
last_from-Good t x (y ∷ ys) (g, gs) =
    let (rest, front) = last_from-Good t y ys gs in ((g, rest), front)

-- A piece of the task that is good counts as its size, which is at least 1.
pub Good-size :
    (t : ℕ) (w : ℕ → ℕ) (x : SubTaskSet)
    → Good t x
    → (sub_weight w t x ≡ weight w x.partition)
      × (sub_weight (λ i. 1) t x ≡ x.partition.end - x.partition.start)
      × (is_piece t x ≡ 1)
      × (1 ≤ sub_weight (λ i. 1) t x)
Good-size t w x g = ground (arith, g.same_task, g.some_index, weight-one x.partition)

pub pieces-le-size :
    (t : ℕ) (q : List SubTaskSet) → AllGood t q → list_sum (is_piece t) q ≤ size_left t q
unfolding list_sum
pieces-le-size t [] g = omega arith
pieces-le-size t (x ∷ q) (g, gs) = omega (arith, pieces-le-size t q gs, Good-size t (λ i. 1) x g)

-- Two states whose pipes agree but for one, in which the sums over all pipes so differ by that one.
pub queued-others :
    (m : SubTaskSet → ℕ) (priority thread : ℕ) (s s' : Scheduler)
    → priority < priority_num
    → thread < s.num_threads
    → s'.num_threads ≡ s.num_threads
    → ((p u : ℕ) → (p ≢ priority) ⊎ (u ≢ thread) → s'.pipes p u ≡ s.pipes p u)
    → queued m s' + list_sum m (s.pipes priority thread)
      ≡ queued m s + list_sum m (s'.pipes priority thread)
queued-others m priority thread s s' hp ht same_threads same = rw same_threads (
    omega (
      arith,
      sum_below-change priority_num priority row row' hp (λ j ne.
          sum_below-ext s.num_threads (λ u. list_sum m (s.pipes j u))
            (λ u. list_sum m (s'.pipes j u)) (λ u hu. ap (list_sum m) (same j u (inl ne)))),
      sum_below-change s.num_threads thread (λ u. list_sum m (s.pipes priority u))
          (λ u. list_sum m (s'.pipes priority u)) ht
          (λ u ne. ap (list_sum m) (same priority u (inr ne))),
    ))
  where
    row : ℕ → ℕ
    row p = sum_below s.num_threads (λ u. list_sum m (s.pipes p u))

    row' : ℕ → ℕ
    row' p = sum_below s.num_threads (λ u. list_sum m (s'.pipes p u))

-- Where no piece of the task waits, none of its indexes does.
none_left :
    (w : ℕ → ℕ) (t : ℕ) (q : List SubTaskSet)
    → list_sum (is_piece t) q ≡ 0
    → list_sum (sub_weight w t) q ≡ 0
unfolding list_sum
none_left w t [] e = refl
none_left w t (x ∷ q) e = ground (arith, none_left w t q (omega arith))

pub no_pieces-queued :
    (w : ℕ → ℕ) (t : ℕ) (s : Scheduler) → pieces t s ≡ 0 → queued (sub_weight w t) s ≡ 0
no_pieces-queued w t s e =
    sum_below-zero priority_num
      (λ p. sum_below s.num_threads (λ u. list_sum (sub_weight w t) (s.pipes p u)))
      (λ p hp.
        sum_below-zero s.num_threads (λ u. list_sum (sub_weight w t) (s.pipes p u))
          (λ u hu. none_left w t (s.pipes p u) (
            omega (
              arith,
              le-sum_below priority_num
                  (λ p'. sum_below s.num_threads (λ u'. list_sum (is_piece t) (s.pipes p' u'))) p
                  hp,
              le-sum_below s.num_threads (λ u'. list_sum (is_piece t) (s.pipes p u')) u hu,
            ))))
