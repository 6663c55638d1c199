-- ===== src/Pipe/Serves.antt =====
-- Each operation of `Pipe.antt` on a pipe that no other call is using, against the deque of
-- `Pipe/Deque.antt`: the branches after the loops.
use enki_ts.Base.{
  ℕ, suc, ◌+◌, ◌-◌, ◌≤◌, ◌<◌, ◌≡◌, true, false, Option, none, some, [], ◌∷◌, ◌++◌, ap, ◌∙◌, arith,
  length, ap₂, lt→ltb, sym, dec_lt, mod_distinct, update,
}
use native.Mathlib.Nat.{add-mod_right}
use enki_ts.Pipe.{
  Pipe, inc32, dec32, Outcome, got, nothing, stuck, can_read, can_write, u32_mod,
  reader_try_read_back, reader_take, writer_try_read_front, writer_take, writer_try_write_front,
}
use enki_ts.Pipe.Deque.{
  Call, read_back, read_front, write_front, Reply, take_front, put_front, serve, take_front-append,
}
use enki_ts.Pipe.Quiet.{
  size, cell, size_pos, IsQuiet, window, contents, length-window, window_last, window-update,
}

-- An index one size on is the same cell.
cell_wrap : (size_log2 r : ℕ) → cell size_log2 (r + size size_log2) ≡ cell size_log2 r
cell_wrap size_log2 r = add-mod_right r (size size_log2)

module _ (size_log2 : ℕ) {T : Type 0} where
  -- A call's reply and the pipe after it; `p` is there for a loop that never returns.
  abbrev pub of_outcome : Pipe T → Outcome T → Option (Reply T × Pipe T)
  of_outcome p (got x q) = some ((true, some x), q)
  of_outcome p (nothing q) = some ((false, none), q)
  of_outcome p stuck = none

  -- One call, with the rounds that its loop may take.
  unfoldable pub call : ℕ → Call T → Pipe T → Option (Reply T × Pipe T)
  call fuel read_back p = of_outcome p (reader_try_read_back size_log2 fuel p)
  call fuel read_front p = of_outcome p (writer_try_read_front size_log2 fuel p)
  call fuel (write_front x) p =
      let (q, done) = writer_try_write_front size_log2 p x in some ((done, none), q)

  -- What a call must do to a pipe that is not in use.
  abbrev pub Serves : Call T → Pipe T → Option (Reply T × Pipe T) → Type 0
  Serves c p none = ⊥
  Serves c p (some (r, q)) =
      ((r, contents size_log2 q) ≡ serve (size size_log2) c (contents size_log2 p))
      × IsQuiet size_log2 q
      × (q.write_index ≤ p.write_index + 1)

  take_front-window :
      (b : ℕ → T) (r n j : ℕ)
      → r + n ≡ j
      → take_front (window size_log2 b r (suc n))
        ≡ ((true, some (b (cell size_log2 j))), window size_log2 b r n)
  take_front-window b r n j e =
      ap take_front (window_last size_log2 b r n j e) ∙ take_front-append _ _

module _ (size_log2 : ℕ) {T : Type 0} (p : Pipe T) (quiet : IsQuiet size_log2 p) where
  open quiet use {ordered, unwrapped, fits, readable, writable}

  pub reader_take-Serves :
      p.read_count < p.write_index
      → Serves size_log2 read_back p
          (of_outcome size_log2 p (reader_take size_log2 p (cell size_log2 p.read_count)))
  unfolding reader_take
  reader_take-Serves h =
      let one_on : inc32 p.read_count ≡ p.read_count + 1 = omega arith in
      let count : p.write_index - p.read_count ≡ suc (p.write_index - (p.read_count + 1)) =
        omega arith in
      (
        rw (one_on, count),
        record {
          ordered = omega arith;
          unwrapped = unwrapped;
          fits = omega arith;
          readable = λ j lo hi. ground (
            arith,
            readable j,
            mod_distinct (size size_log2) p.read_count j (omega arith) (omega arith),
          );
          writable = λ j lo hi. elim (dec_lt j (p.read_count + size size_log2)) [
            | yes old ↦ ground (arith, writable j lo old)
            | no new ↦ ground (arith, cell_wrap size_log2 p.read_count)
          ];
        },
        omega arith,
      )

  pub writer_take-Serves :
      (i : ℕ)
      → p.write_index ≡ i + 1
      → p.read_count ≤ i
      → Serves size_log2 read_front p
          (of_outcome size_log2 p (writer_take size_log2 p (cell size_log2 i)))
  unfolding writer_take
  writer_take-Serves i e h =
      let one_back : dec32 p.write_index ≡ i = omega arith in
      let count : p.write_index - p.read_count ≡ suc (i - p.read_count) = omega arith in
      (
        rw (
          one_back,
          count,
          take_front-window size_log2 p.buffer p.read_count (i - p.read_count) i (omega arith),
        ),
        record {
          ordered = omega arith;
          unwrapped = omega arith;
          fits = omega arith;
          readable = λ j lo hi.
              ground
                (arith, readable j, mod_distinct (size size_log2) j i (omega arith) (omega arith));
          writable = λ j lo hi. elim (dec_lt i j) [
            | yes old ↦ ground (arith, writable j)
            | no new ↦ ground (arith)
          ];
        },
        omega arith,
      )

  write_free :
      (x : T)
      → p.flags (cell size_log2 p.write_index) ≡ can_write
      → writer_try_write_front size_log2 p x ≡ (
        record p {
          buffer = update p.buffer (cell size_log2 p.write_index) x;
          flags = update p.flags (cell size_log2 p.write_index) can_read;
          write_index = inc32 p.write_index;
        },
        true,
      )
  unfolding writer_try_write_front
  write_free x e = rw e

  write_full :
      (x : T)
      → p.flags (cell size_log2 p.write_index) ≡ can_read
      → writer_try_write_front size_log2 p x ≡ (p, false)
  unfolding writer_try_write_front
  write_full x e = rw e

  length-contents : length (contents size_log2 p) ≡ p.write_index - p.read_count
  length-contents = length-window size_log2 p.buffer p.read_count (p.write_index - p.read_count)

  put_front-room :
      (x : T)
      → p.write_index < p.read_count + size size_log2
      → put_front (size size_log2) x (contents size_log2 p)
        ≡ ((true, none), contents size_log2 p ++ x ∷ [])
  put_front-room x h =
      rw (length-contents, lt→ltb (p.write_index - p.read_count) (size size_log2) (omega arith))

  put_front-full :
      (x : T)
      → p.write_index ≡ p.read_count + size size_log2
      → put_front (size size_log2) x (contents size_log2 p) ≡ ((false, none), contents size_log2 p)
  put_front-full x h = rw length-contents (ground arith)

  contents-written :
      (x : T)
      → p.write_index < p.read_count + size size_log2
      → window size_log2
          (update p.buffer (cell size_log2 p.write_index) x)
          p.read_count
          (suc (p.write_index - p.read_count))
        ≡ contents size_log2 p ++ x ∷ []
  contents-written x h =
      window_last size_log2 (update p.buffer (cell size_log2 p.write_index) x) p.read_count
        (p.write_index - p.read_count) p.write_index (omega arith)
      ∙ ap₂ (λ l (v : T). l ++ v ∷ [])
          {u = update p.buffer (cell size_log2 p.write_index) x (cell size_log2 p.write_index)}
          {v = x}
          (window-update size_log2 p.buffer x p.read_count (p.write_index - p.read_count)
            p.write_index (omega arith) h)
          (ground arith)

  full_flag :
      p.write_index ≡ p.read_count + size size_log2
      → p.flags (cell size_log2 p.write_index) ≡ can_read
  full_flag e =
      rw (e, cell_wrap size_log2 p.read_count)
        (readable p.read_count (omega arith) (omega (arith, size_pos size_log2)))

  written-IsQuiet :
      (x : T)
      → p.write_index < p.read_count + size size_log2
      → p.write_index + 1 < u32_mod
      → IsQuiet size_log2 (record p {
        buffer = update p.buffer (cell size_log2 p.write_index) x;
        flags = update p.flags (cell size_log2 p.write_index) can_read;
        write_index = inc32 p.write_index;
      })
  written-IsQuiet x h room = record {
    ordered = omega arith;
    unwrapped = omega arith;
    fits = omega arith;
    readable = λ j lo hi. elim (dec_lt j p.write_index) [
      | yes old ↦ ground (arith, readable j lo old)
      | no new ↦ let e : p.write_index ≡ j = omega arith in ground (arith, ap (cell size_log2) e)
    ];
    writable = λ j lo hi. ground (
      arith,
      writable j (omega arith) hi,
      mod_distinct (size size_log2) p.write_index j (omega arith) (omega arith),
    );
  }

  pub writer_try_write_front-Serves :
      (x : T)
      → p.write_index + 1 < u32_mod
      → Serves size_log2 (write_front x) p (call size_log2 1 (write_front x) p)
  unfolding call
  writer_try_write_front-Serves x room =
      elim (dec_lt p.write_index (p.read_count + size size_log2)) [
        | yes free ↦
            let one_on : inc32 p.write_index ≡ p.write_index + 1 = omega arith in
            let count : p.write_index + 1 - p.read_count ≡ suc (p.write_index - p.read_count) =
              omega arith in
            rw (write_free x (writable p.write_index (omega arith) free)) (
              rw (one_on, count, put_front-room x free)
                  (ap (λ l. ((true, none), l)) (contents-written x free)),
              written-IsQuiet x free room,
              omega arith,
            )
        | no full ↦
            rw (write_full x (full_flag (omega arith)))
              (sym (put_front-full x (omega arith)), quiet, omega arith)
      ]
