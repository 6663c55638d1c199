-- ===== src/Pipe/Wrap.antt =====
-- ReaderTryReadBack once m_WriteIndex has passed 2 ^ 32 and m_ReadCount has not: its test
-- `readIndexToUse >= writeIndex` compares indexes that are no longer in order.
use enki_ts.Base.{ℕ, zero, suc, ◌+◌, ◌≤◌, ◌<◌, ◌≡◌, ◌≢◌, refl, arith}
use enki_ts.Pipe.{Pipe, stuck, can_read, inc32, u32_mod, slot, reader_try_read_back, reader_loop}

module _ (size_log2 : ℕ) {T : Type 0} (p : Pipe T) where
  reader_loop-stuck :
      (fuel to_use : ℕ)
      → p.write_index < p.read_count
      → p.read_count < u32_mod
      → p.write_index ≤ p.read_index
      → p.read_index + 1 < u32_mod
      → p.flags (slot size_log2 p.read_index) ≢ can_read
      → p.write_index ≤ to_use
      → reader_loop size_log2 fuel p to_use ≡ stuck
  unfolding reader_loop
  reader_loop-stuck zero to_use a b c d e f = refl
  reader_loop-stuck (suc fuel) to_use a b c d e f =
      ground (arith, reader_loop-stuck fuel (inc32 p.read_index) a b c d e (omega arith))

  -- If m_WriteIndex has wrapped round below m_ReadCount and m_ReadIndex, and the slot at
  -- m_ReadIndex has been read, a reader that is alone with the pipe goes round its loop for ever,
  -- whatever the other slots hold.
  pub reader_spins :
      (fuel : ℕ)
      → p.write_index < p.read_count
      → p.read_count < u32_mod
      → p.write_index ≤ p.read_index
      → p.read_index + 1 < u32_mod
      → p.flags (slot size_log2 p.read_index) ≢ can_read
      → reader_try_read_back size_log2 fuel p ≡ stuck
  unfolding reader_try_read_back
  reader_spins fuel a b c d e = reader_loop-stuck fuel p.read_count a b c d e (omega arith)
