-- ===== src/Pipe.antt =====
-- src/LockLessMultiReadPipe.h, class LockLessMultiReadPipe: its state, and each operation as one
-- uninterrupted call. `Machine` below has the same code one atomic access at a time.
pub mod Deque
pub mod Quiet
pub mod Serves
pub mod Refine
pub mod Wrap
pub mod Machine
use enki_ts.Base.{
  ℕ, zero, suc, ◌+◌, ◌-◌, ◌%◌, ◌^◌, Bool, true, false, leb, ◌==◌, if◌then◌else◌, update,
}

-- The values that the code stores in `m_Flags`: FLAG_CAN_WRITE, FLAG_CAN_READ and FLAG_INVALID.
pub data Flag : Type 0 where
  can_write can_read invalid : Flag

abbrev pub is_can_read : Flag → Bool
is_can_read can_read = true
is_can_read _ = false

abbrev pub is_can_write : Flag → Bool
is_can_write can_write = true
is_can_write _ = false

abbrev pub u32_mod : ℕ
u32_mod = 2 ^ 32

-- `++x`, `--x` and `x - y` on uint32_t.
abbrev pub inc32 : ℕ → ℕ
inc32 x = (x + 1) % u32_mod

abbrev pub dec32 : ℕ → ℕ
dec32 x = (x + u32_mod - 1) % u32_mod

abbrev pub sub32 : ℕ → ℕ → ℕ
sub32 x y = (x + u32_mod - y) % u32_mod

-- The arrays `m_Buffer` and `m_Flags` are functions of the index. Each access masks its index, so
-- only the cells below `ms_cSize` are ever read or written.
pub record Pipe (T : Type 0) : Type 0 where
  pub buffer : ℕ → T
  pub write_index : ℕ  -- m_WriteIndex, uint32_t
  pub read_count : ℕ  -- m_ReadCount, uint32_t
  pub flags : ℕ → Flag
  pub read_index : ℕ  -- m_ReadIndex, uint32_t

-- What a call that loops leaves behind. `stuck` stands for a loop that used up its rounds.
pub data Outcome (T : Type 0) : Type 0 where
  got : T → Pipe T → Outcome T
  nothing : Pipe T → Outcome T
  stuck : Outcome T

module _ (size_log2 : ℕ) where
  -- ms_cSize
  abbrev pub pipe_size : ℕ
  pipe_size = 2 ^ size_log2

  -- `i & ms_cIndexMask`: the mask is a power of two less one, so this is the rest modulo the size.
  abbrev pub slot : ℕ → ℕ
  slot i = i % pipe_size

  module _ {T : Type 0} where
    -- Constructor and `Clear()`: the buffer keeps what it held.
    pub clear : Pipe T → Pipe T
    clear p = record p { write_index = 0; read_index = 0; read_count = 0; flags = λ i. can_write }

    unfoldable pub is_pipe_empty : Pipe T → Bool
    is_pipe_empty p = 0 == sub32 p.write_index p.read_count

    -- The tail of ReaderTryReadBack, after a successful compare and exchange on slot `i`.
    pub reader_take : Pipe T → ℕ → Outcome T
    reader_take p i = got (p.buffer i) (record p {
      read_count = inc32 p.read_count;
      flags = update (update p.flags i invalid) i can_write;
    })

    -- One round of its `while(true)`: where the slot to try is, from `readIndexToUse`.
    abbrev pub reader_try_index : Pipe T → ℕ → ℕ
    reader_try_index p to_use = if leb p.write_index to_use then p.read_index else to_use

    pub reader_loop : ℕ → Pipe T → ℕ → Outcome T
    reader_loop zero p to_use = stuck
    reader_loop (suc fuel) p to_use =
        let i = reader_try_index p to_use in
        let rest = reader_loop fuel p (inc32 i) in
        if 0 == sub32 p.write_index p.read_count
        then nothing p
        else if is_can_read (p.flags (slot i))
        then reader_take p (slot i)
        else rest

    pub reader_try_read_back : ℕ → Pipe T → Outcome T
    unfolding reader_take reader_loop
    reader_try_read_back fuel p = reader_loop fuel p p.read_count

    -- The tail of WriterTryReadFront, after a successful compare and exchange on slot `i`.
    pub writer_take : Pipe T → ℕ → Outcome T
    writer_take p i = got (p.buffer i) (record p {
      flags = update (update p.flags i invalid) i can_write;
      write_index = dec32 p.write_index;
    })

    -- Its `while(true)`: `front` is `frontReadIndex` before the round's decrement.
    writer_loop : ℕ → Pipe T → ℕ → Outcome T
    writer_loop zero p front = stuck
    writer_loop (suc fuel) p front =
        let i = dec32 front in
        let rest = writer_loop fuel p i in
        if 0 == sub32 p.write_index p.read_count
        then nothing (record p { read_index = p.read_count })
        else if is_can_read (p.flags (slot i))
        then writer_take p (slot i)
        else if leb i p.read_index
        then nothing p
        else rest

    pub writer_try_read_front : ℕ → Pipe T → Outcome T
    unfolding writer_take writer_loop
    writer_try_read_front fuel p = writer_loop fuel p p.write_index

    pub writer_try_write_front : Pipe T → T → Pipe T × Bool
    writer_try_write_front p x =
        if is_can_write (p.flags (slot p.write_index))
        then (
          record p {
            buffer = update p.buffer (slot p.write_index) x;
            flags = update p.flags (slot p.write_index) can_read;
            write_index = inc32 p.write_index;
          },
          true,
        )
        else (p, false)
