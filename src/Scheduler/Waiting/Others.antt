-- ===== src/Scheduler/Waiting/Others.antt =====
-- src/TaskScheduler.cpp, WaitforAll: the loop that looks for running threads.
use enki_ts.Base.{
  ◌<◌, ◌≤◌, ◌≢◌, subst, if◌then◌else◌, ℕ_discrete, ℕ, zero, suc, ◌+◌, ◌≡◌, refl, ap, ◌∙◌, Bool,
  true, false, arith, ◌==◌, Bool-cases, inl, inr,
}
use enki_ts.Scheduler.{
  ThreadState, none_state, not_launched, running_state, primary_registered, external_registered,
  external_unregistered, wait_task_completion, wait_new_tasks, wait_new_pinned_tasks, stopped,
  Scheduler, done, pure, Command, ◌>>◌,
}
use enki_ts.Scheduler.Wake.{signal_pinned}
use enki_ts.Scheduler.Add.{is_waiting_for_pinned}
use enki_ts.Scheduler.Add.Loop.{Ends}
use enki_ts.Scheduler.Add.Tiling.{Ends-map}
use enki_ts.Scheduler.Waiting.{others_running}

-- A state in which a thread may still run tasks, or will after it is woken.
abbrev pub is_active : ThreadState → Bool
is_active not_launched = true
is_active running_state = true
is_active wait_task_completion = true
is_active wait_new_pinned_tasks = true
is_active _ = false

-- A thread that the loop stops at: another one than `our` that is active.
abbrev pub Stops : ℕ → Scheduler → ℕ → Type 0
Stops our s t = (t ≢ our) × (is_active (s.thread_state t) ≡ true)

-- The state in which the loop leaves the scheduler when it stops at thread `t`: if that waits for pinned
-- tasks there is one more count of its semaphore, and nothing else changes.
pub record Woken (t : ℕ) (s s' : Scheduler) : Type 0 where
  pub count :
      s'.waiters.pinned_semaphore t
      ≡ s.waiters.pinned_semaphore t + (if is_waiting_for_pinned (s.thread_state t) then 1 else 0)
  pub others : (u : ℕ) → u ≢ t → s'.waiters.pinned_semaphore u ≡ s.waiters.pinned_semaphore u
  pub rest :
      s'
      ≡ record s { waiters = record s.waiters { pinned_semaphore = s'.waiters.pinned_semaphore } }

-- What the loop over `left` threads from `thread` on comes to: without an active one it changes
-- nothing, and else it stops at the first.
pub data Looked (our left thread : ℕ) (s : Scheduler) : Bool → Scheduler → Type 0 where
  quiet :
      ((t : ℕ) → thread ≤ t → t < thread + left → ¬ Stops our s t)
      → Looked our left thread s false s
  found :
      (t : ℕ) {s' : Scheduler}
      → thread ≤ t
      → t < thread + left
      → Stops our s t
      → ((u : ℕ) → thread ≤ u → u < t → ¬ Stops our s u)
      → Woken t s s'
      → Looked our left thread s true s'

further :
    (our left thread : ℕ) (s : Scheduler) (b : Bool) (s' : Scheduler)
    → ¬ Stops our s thread
    → Looked our left (thread + 1) s b s'
    → Looked our (suc left) thread s b s'
further our left thread s b s' skips (quiet none) = quiet (λ t lo hi st.
    elim (ℕ_discrete t thread) [
      | yes here ↦ skips (subst (Stops our s) here st)
      | no later ↦ none t (omega arith) (omega arith) st
    ])
further our left thread s b s' skips (found t lo hi it before woken) =
    found t (omega arith) (omega arith) it
      (λ u lo' hi' st. elim (ℕ_discrete u thread) [
        | yes here ↦ skips (subst (Stops our s) here st)
        | no later ↦ before u (omega arith) hi' st
      ])
      woken

at_once :
    (our left thread : ℕ) (s s' : Scheduler)
    → Stops our s thread
    → Woken thread s s'
    → Looked our (suc left) thread s true s'
at_once our left thread s s' it woken =
    found thread (omega arith) (omega arith) it (λ u lo hi. absurd (omega arith)) woken

module _ (depth fuel our : ℕ) where
  -- The `switch`, on a thread in state `st`.
  abbrev look : ℕ → ℕ → ThreadState → Command Bool
  look left thread st s = elim st [
    | not_launched ↦ done true s
    | running_state ↦ done true s
    | wait_task_completion ↦ done true s
    | wait_new_pinned_tasks ↦ (signal_pinned thread >> pure true) s
    | _ ↦ others_running depth fuel left our (thread + 1) s
  ]

  module _ (left thread : ℕ) (s : Scheduler) (other : thread ≢ our)
      (later : Ends
        (λ b s'. Looked our left (thread + 1) s b s')
        (others_running depth fuel left our (thread + 1) s)) where
    look_on :
        (st : ThreadState)
        → s.thread_state thread ≡ st
        → is_active st ≡ false
        → Ends
            (λ b s'. Looked our (suc left) thread s b s')
            (others_running depth fuel left our (thread + 1) s)
    look_on st e none =
        Ends-map (others_running depth fuel left our (thread + 1) s)
          (λ b s' l. further our left thread s b s' (λ it. cc (it.1, ap is_active e, none)) l) later

    unwoken :
        (st : ThreadState)
        → s.thread_state thread ≡ st
        → is_waiting_for_pinned st ≡ false
        → Woken thread s s
    unwoken st e none = record {
      count = ground (arith, ap is_waiting_for_pinned e, none);
      others = λ u ne. refl;
      rest = refl;
    }

    stop_at :
        (st : ThreadState)
        → s.thread_state thread ≡ st
        → is_active st ≡ true
        → is_waiting_for_pinned st ≡ false
        → Looked our (suc left) thread s true s
    stop_at st e active none =
        at_once our left thread s s (other, ap is_active e ∙ active) (unwoken st e none)

    look-Looked :
        (st : ThreadState)
        → s.thread_state thread ≡ st
        → Ends (λ b s'. Looked our (suc left) thread s b s') (look left thread st s)
    look-Looked none_state e = look_on none_state e refl
    look-Looked not_launched e = stop_at not_launched e refl refl
    look-Looked running_state e = stop_at running_state e refl refl
    look-Looked primary_registered e = look_on primary_registered e refl
    look-Looked external_registered e = look_on external_registered e refl
    look-Looked external_unregistered e = look_on external_unregistered e refl
    look-Looked wait_task_completion e = stop_at wait_task_completion e refl refl
    look-Looked wait_new_tasks e = look_on wait_new_tasks e refl
    look-Looked wait_new_pinned_tasks e =
        at_once our left thread s _ (other, ap is_active e)
          (record {
            count = ground (arith, ap is_waiting_for_pinned e);
            others = λ u ne. ground arith;
            rest = refl;
          })
    look-Looked stopped e = look_on stopped e refl

  -- The loop of WaitforAll over `left` threads from `thread` on ends. If no thread of these but the caller
  -- `our` is in a state in which it may still run tasks, it finds none and changes nothing. Else it stops
  -- at the first such thread; if that waits for pinned tasks it raises the count of that thread's semaphore
  -- by one, and it changes nothing else.
  pub others_running-Looked :
      (left thread : ℕ) (s : Scheduler)
      → Ends (λ b s'. Looked our left thread s b s') (others_running depth fuel left our thread s)
  unfolding others_running
  others_running-Looked zero thread s = quiet (λ t lo hi. absurd (omega arith))
  others_running-Looked (suc left) thread s =
      let later = others_running-Looked left (thread + 1) s in
      elim (Bool-cases (thread == our)) [
        | inl ours ↦ rw ours (
            Ends-map (others_running depth fuel left our (thread + 1) s)
              (λ b s' l. further our left thread s b s' (λ it. it.0 (ground (arith, ours))) l)
              later)
        | inr other ↦
            rw other
              (look-Looked left thread s (ground (arith, other)) later (s.thread_state thread) refl)
      ]
