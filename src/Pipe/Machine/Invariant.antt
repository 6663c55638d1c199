-- ===== src/Pipe/Machine/Invariant.antt =====
-- What every reachable state of `Pipe/Machine.antt` satisfies: who owns which slot, where the items
-- are, and what the two indexes count.
use enki_ts.Base.{ℕ, ◌+◌, ◌%◌, ◌<◌, ◌≡◌, Option, none, some, if◌then◌else◌, sum_below, list_sum}
use enki_ts.Pipe.{Pipe, can_write, invalid, is_can_read, u32_mod, slot, pipe_size}
use enki_ts.Pipe.Machine.{
  Reader, count_up, copy, release, Writer, front_check, front_claim, front_failed, front_copy,
  front_release, front_shrink, put_check, put_store, put_flag, put_grow, System,
}

module _ {T : Type 0} where
  -- The slot that a thread has claimed by its compare and exchange.
  abbrev pub owns : Reader T → Option ℕ
  owns (count_up i) = some i
  owns (copy i) = some i
  owns (release i x) = some i
  owns _ = none

  abbrev pub writer_owns : Writer T → Option ℕ
  writer_owns (front_copy wi i) = some i
  writer_owns (front_release wi i x) = some i
  writer_owns _ = none

  -- A claim that the index does not count yet, and an item that it does not count yet.
  abbrev pub uncounted : Reader T → ℕ
  uncounted (count_up i) = 1
  uncounted _ = 0

  abbrev pub writer_uncounted : Writer T → ℕ
  writer_uncounted (front_copy wi i) = 1
  writer_uncounted (front_release wi i x) = 1
  writer_uncounted (front_shrink wi x) = 1
  writer_uncounted _ = 0

  abbrev pub ungrown : Writer T → ℕ
  ungrown put_grow = 1
  ungrown _ = 0

  -- What the items in a thread's hands weigh, by the buffer `b`.
  abbrev pub held : (T → ℕ) → (ℕ → T) → Reader T → ℕ
  held w b (count_up i) = w (b i)
  held w b (copy i) = w (b i)
  held w b (release i x) = w x
  held w b _ = 0

  abbrev pub writer_held : (T → ℕ) → (ℕ → T) → Writer T → ℕ
  writer_held w b (front_copy wi i) = w (b i)
  writer_held w b (front_release wi i x) = w x
  writer_held w b (front_shrink wi x) = w x
  writer_held w b _ = 0

  -- What the item in slot `i` weighs, if it can be read.
  abbrev pub stored : (T → ℕ) → Pipe T → ℕ → ℕ
  stored w p i = if is_can_read (p.flags i) then w (p.buffer i) else 0

module _ (size_log2 : ℕ) {T : Type 0} where
  -- The locals of the writer agree with the pipe, which only it fills.
  abbrev pub Knows : Pipe T → Writer T → Type 0
  Knows p (front_check wi front) = wi ≡ p.write_index
  Knows p (front_claim wi front) = wi ≡ p.write_index
  Knows p (front_failed wi front) = wi ≡ p.write_index
  Knows p (front_copy wi i) = wi ≡ p.write_index
  Knows p (front_release wi i x) = wi ≡ p.write_index
  Knows p (front_shrink wi x) = wi ≡ p.write_index
  Knows p (put_check x wi) = wi ≡ p.write_index
  Knows p (put_store x wi) = (wi ≡ p.write_index) × (p.flags (slot size_log2 wi) ≡ can_write)
  Knows p (put_flag x wi) =
      (wi ≡ p.write_index)
      × (p.flags (slot size_log2 wi) ≡ can_write)
      × (p.buffer (slot size_log2 wi) ≡ x)
  Knows p _ = Unit

  -- The slot that the writer is filling.
  abbrev pub fills : Writer T → Option ℕ
  fills (put_store x wi) = some (slot size_log2 wi)
  fills (put_flag x wi) = some (slot size_log2 wi)
  fills _ = none

  abbrev pub readable : Pipe T → ℕ
  readable p = sum_below (pipe_size size_log2) (stored (λ x. 1) p)

  pub record Inv (n : ℕ) (s : System T) : Type 0 where
    pub owner :
        (j i : ℕ)
        → owns (s.readers j) ≡ some i
        → (s.pipe.flags i ≡ invalid) × (i < pipe_size size_log2)
    pub writer_owner :
        (i : ℕ)
        → writer_owns s.writer ≡ some i
        → (s.pipe.flags i ≡ invalid) × (i < pipe_size size_log2)
    pub apart : (a b i : ℕ) → owns (s.readers a) ≡ some i → owns (s.readers b) ≡ some i → a ≡ b
    pub writer_apart : (a i : ℕ) → owns (s.readers a) ≡ some i → writer_owns s.writer ≡ some i → ⊥
    pub knows : Knows s.pipe s.writer
    pub counted :
        (s.pipe.read_count
            + readable s.pipe
            + sum_below n (λ j. uncounted (s.readers j))
            + writer_uncounted s.writer)
          % u32_mod
        ≡ (s.pipe.write_index + ungrown s.writer) % u32_mod
    pub indexes : (s.pipe.read_count < u32_mod) × (s.pipe.write_index < u32_mod)
    pub conserved :
        (w : T → ℕ)
        → sum_below (pipe_size size_log2) (stored w s.pipe)
            + sum_below n (λ j. held w s.pipe.buffer (s.readers j))
            + writer_held w s.pipe.buffer s.writer
            + list_sum w s.taken
          ≡ list_sum w s.written
