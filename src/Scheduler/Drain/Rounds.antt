-- ===== src/Scheduler/Drain/Rounds.antt =====
-- What SplitAndAddTask leaves alone.
use enki_ts.Base.{
  ℕ, zero, suc, ◌+◌, ◌<◌, ◌≡◌, refl, subst, ◌∙◌, true, false, arith, List, [], ◌∷◌, ◌++◌, ltb, ◌==◌,
  length, list_sum, Bool-cases, inl, inr,
}
use enki_ts.Pipe.{pipe_size}
use enki_ts.Scheduler.{
  SubTaskSet, Scheduler, Run, done, blocked, out_of_fuel, pipe_size_log2, and_then,
}
use enki_ts.Scheduler.Split.{split_task, IsRange, split_task-eq}
use enki_ts.Scheduler.Add.{add_loop}
use enki_ts.Scheduler.Add.Loop.{
  Ends, written, ran, cut, pipe_of, round-written, round-ran, middle, cut-eq,
}
use enki_ts.Scheduler.Drain.{Good, AllGood, Frame, Leaves}

pub Ends-both :
    {A : Type 0} (P Q : A → Scheduler → Type 0) (r : Run A)
    → Ends P r
    → Leaves Q r
    → Ends (λ a s. P a s × Q a s) r
Ends-both P Q (done a s) p q = (p, q)
Ends-both P Q blocked p q = p
Ends-both P Q out_of_fuel p q = p

pub Leaves-map :
    {A : Type 0} (P Q : A → Scheduler → Type 0) (r : Run A)
    → ((a : A) (s : Scheduler) → P a s → Q a s)
    → Leaves P r
    → Leaves Q r
Leaves-map P Q (done a s) f p = f a s p
Leaves-map P Q blocked f p = p
Leaves-map P Q out_of_fuel f p = p

pub Leaves-then :
    {A B : Type 0} (Q : B → Scheduler → Type 0) (r : Run A) (k : A → Scheduler → Run B)
    → Leaves (λ a s. Leaves Q (k a s)) r
    → Leaves Q (and_then r k)
Leaves-then Q (done a s) k h = h
Leaves-then Q blocked k h = h
Leaves-then Q out_of_fuel k h = h

AllGood-append :
    (t : ℕ) (xs : List SubTaskSet) (x : SubTaskSet)
    → AllGood t xs
    → Good t x
    → AllGood t (xs ++ x ∷ [])
AllGood-append t [] x g h = (h, tt)
AllGood-append t (y ∷ xs) x (g, gs) h = (g, AllGood-append t xs x gs h)

module _ (thread priority t : ℕ) where
  pub Frame-trans :
      (a b c : Scheduler)
      → Frame thread priority t a b
      → Frame thread priority t b c
      → Frame thread priority t a c
  Frame-trans a b c f g = record {
    others = λ p u ne. g.others p u ne ∙ f.others p u ne;
    same_pinned = g.same_pinned ∙ f.same_pinned;
    same_running = g.same_running ∙ f.same_running;
    good = λ h. g.good (f.good h);
    grows = omega (arith, f.grows, g.grows);
  }

  pub Frame-refl : (s : Scheduler) → Frame thread priority t s s
  Frame-refl s = record {
    others = λ p u ne. refl;
    same_pinned = refl;
    same_running = refl;
    good = λ g. g;
    grows = omega arith;
  }

  module _ (range : ℕ) (hr : 0 < range) where
    -- What a round of the loop starts from.
    pub record Round (sub : SubTaskSet) (s : Scheduler) : Type 0 where
      pub same_task : sub.task ≡ t
      pub priority_eq : (s.tasks t).priority ≡ priority
      pub is_range : IsRange sub.partition
      pub runs : 0 < (s.tasks t).range_to_run

    first-Good :
        (sub : SubTaskSet) (s : Scheduler)
        → Round sub s
        → (sub.partition.start == sub.partition.end) ≡ false
        → Good t (split_task sub range).0
    first-Good sub s r more = rw (split_task-eq sub range r.is_range) (record {
      same_task = r.same_task;
      is_range = record {
        ordered = omega arith;
        in_word = omega (arith, r.is_range.ordered, r.is_range.in_word);
      };
      some_index = ground (arith, r.is_range.ordered);
    })

    written-Frame :
        (sub : SubTaskSet) (s : Scheduler)
        → Round sub s
        → (sub.partition.start == sub.partition.end) ≡ false
        → Frame thread priority t s (written thread range sub s)
    written-Frame sub s r more = record {
      others = λ p u ne. ground (arith, ne, here);
      same_pinned = refl;
      same_running = refl;
      good = λ g. rw here (
          ground (
            arith,
            here,
            AllGood-append t (s.pipes priority thread) (split_task sub range).0 g
                (first-Good sub s r more),
          ));
      grows = omega arith;
    }
      where
        here : (s.tasks sub.task).priority ≡ priority
        here = ground (arith, r.same_task, r.priority_eq)

    ran-Frame :
        (sub : SubTaskSet) (since : ℕ) (s : Scheduler)
        → Round sub s
        → Frame thread priority t s (ran thread range sub since s)
    unfolding list_sum
    ran-Frame sub since s r = record {
      others = λ p u ne. ground arith;
      same_pinned = refl;
      same_running = refl;
      good = λ g. subst (AllGood t) same g;
      grows = omega arith;
    }
      where
        same : s.pipes priority thread ≡ (ran thread range sub since s).pipes priority thread
        same = ground arith

    rest-Round :
        (sub : SubTaskSet) (s mid : Scheduler)
        → Round sub s
        → mid.tasks ≡ s.tasks
        → Round (split_task sub range).1 mid
    rest-Round sub s mid r e =
        rw (split_task-eq sub range r.is_range, e)
          (record {
            same_task = r.same_task;
            priority_eq = r.priority_eq;
            is_range = record {
              ordered = omega (arith, r.is_range.ordered);
              in_word = r.is_range.in_word;
            };
            runs = r.runs;
          })

    cut-Round :
        (sub : SubTaskSet) (s mid : Scheduler)
        → Round sub s
        → mid.tasks ≡ s.tasks
        → Round (cut thread range sub s).1 mid
    unfolding middle
    cut-Round sub s mid r e =
        rw (cut-eq thread range sub s r.is_range, e)
          (record {
            same_task = r.same_task;
            priority_eq = r.priority_eq;
            is_range = record {
              ordered = omega (arith, r.is_range.ordered);
              in_word = r.is_range.in_word;
            };
            runs = r.runs;
          })

    stop_eq :
        (fuel : ℕ) (sub : SubTaskSet) (added since : ℕ) (s : Scheduler)
        → (sub.partition.start == sub.partition.end) ≡ true
        → add_loop (suc fuel) thread sub range added since s ≡ done added s
    unfolding add_loop
    stop_eq fuel sub added since s e = rw e

    no_fuel_eq :
        (sub : SubTaskSet) (added since : ℕ) (s : Scheduler)
        → add_loop zero thread sub range added since s ≡ out_of_fuel
    unfolding add_loop
    no_fuel_eq sub added since s = refl

    -- The loop of SplitAndAddTask leaves alone what `Frame` says.
    pub add_loop-Frame :
        (fuel : ℕ) (sub : SubTaskSet) (added since : ℕ) (s : Scheduler)
        → Round sub s
        → Leaves
            (λ _ s'. Frame thread priority t s s')
            (add_loop fuel thread sub range added since s)
    add_loop-Frame zero sub added since s r = rw (no_fuel_eq sub added since s) tt
    add_loop-Frame (suc fuel) sub added since s r =
        elim (Bool-cases (sub.partition.start == sub.partition.end)) [
          | inl last ↦ rw (stop_eq fuel sub added since s last) (Frame-refl s)
          | inr more ↦
              elim (Bool-cases
                (ltb (length (pipe_of thread range sub s)) (pipe_size pipe_size_log2))) [
                  | inl room ↦ rw (round-written thread range fuel sub added since s more room) (
                      after (written thread range sub s)
                        (add_loop fuel thread (split_task sub range).1 range (added + 1) (since + 1)
                          (written thread range sub s))
                        (written-Frame sub s r more)
                        (add_loop-Frame fuel (split_task sub range).1 (added + 1) (since + 1)
                          (written thread range sub s) (rest-Round sub s _ r refl)))
                  | inr full ↦ rw (round-ran thread range fuel sub added since s more full) (
                      after (ran thread range sub since s)
                        (add_loop fuel thread (cut thread range sub s).1 range added 0
                          (ran thread range sub since s))
                        (ran-Frame sub since s r)
                        (add_loop-Frame fuel (cut thread range sub s).1 added 0
                          (ran thread range sub since s) (cut-Round sub s _ r refl)))
                ]
        ]
      where
        after :
            (mid : Scheduler) (rest : Run ℕ)
            → Frame thread priority t s mid
            → Leaves (λ _ s'. Frame thread priority t mid s') rest
            → Leaves (λ _ s'. Frame thread priority t s s') rest
        after mid rest f l =
            Leaves-map (λ _ s'. Frame thread priority t mid s')
              (λ _ s'. Frame thread priority t s s') rest (λ _ s' g. Frame-trans s mid s' f g) l
