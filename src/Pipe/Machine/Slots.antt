-- ===== src/Pipe/Machine/Slots.antt =====
-- What the items in the slots of a pipe weigh together, as a flag or an item changes.
use enki_ts.Base.{ℕ, ◌+◌, ◌<◌, ◌≡◌, true, arith, if◌then◌else◌, sum_below, update, sum_below-change}
use enki_ts.Pipe.{Pipe, Flag, can_read, can_write, invalid, is_can_read, pipe_size}
use enki_ts.Pipe.Machine.Invariant.{stored}

module _ (size_log2 : ℕ) {T : Type 0} (pipe : Pipe T) where
  -- What the slots weigh after the flag of slot `i` has become `f`.
  stored-change :
      (w : T → ℕ) (i : ℕ) (f : Flag)
      → i < pipe_size size_log2
      → sum_below (pipe_size size_log2) (stored w (record pipe { flags = update pipe.flags i f }))
          + stored w pipe i
        ≡ sum_below (pipe_size size_log2) (stored w pipe)
          + (if is_can_read f then w (pipe.buffer i) else 0)
  stored-change w i f h = ground (
    arith,
    sum_below-change (pipe_size size_log2) i (stored w pipe)
        (stored w (record pipe { flags = update pipe.flags i f })) h (λ a ne. ground arith),
  )

  pub stored-claimed :
      (w : T → ℕ) (i : ℕ)
      → i < pipe_size size_log2
      → is_can_read (pipe.flags i) ≡ true
      → sum_below
            (pipe_size size_log2)
            (stored w (record pipe { flags = update pipe.flags i invalid }))
          + w (pipe.buffer i)
        ≡ sum_below (pipe_size size_log2) (stored w pipe)
  stored-claimed w i h free = ground (arith, stored-change w i invalid h)

  pub stored-released :
      (w : T → ℕ) (i : ℕ)
      → (pipe.flags i ≡ invalid) × (i < pipe_size size_log2)
      → sum_below
          (pipe_size size_log2)
          (stored w (record pipe { flags = update pipe.flags i can_write }))
        ≡ sum_below (pipe_size size_log2) (stored w pipe)
  stored-released w i (busy, h) = ground (arith, stored-change w i can_write h)

  pub stored-published :
      (w : T → ℕ) (i : ℕ)
      → (pipe.flags i ≡ can_write) × (i < pipe_size size_log2)
      → sum_below
          (pipe_size size_log2)
          (stored w (record pipe { flags = update pipe.flags i can_read }))
        ≡ sum_below (pipe_size size_log2) (stored w pipe) + w (pipe.buffer i)
  stored-published w i (free, h) = ground (arith, stored-change w i can_read h)

  -- Writing an item to a slot that cannot be read changes nothing.
  pub stored-filled :
      (w : T → ℕ) (i : ℕ) (x : T)
      → (pipe.flags i ≡ can_write) × (i < pipe_size size_log2)
      → sum_below (pipe_size size_log2) (stored w (record pipe { buffer = update pipe.buffer i x }))
        ≡ sum_below (pipe_size size_log2) (stored w pipe)
  stored-filled w i x (free, h) = ground (
    arith,
    sum_below-change (pipe_size size_log2) i (stored w pipe)
        (stored w (record pipe { buffer = update pipe.buffer i x })) h (λ a ne. ground arith),
  )
