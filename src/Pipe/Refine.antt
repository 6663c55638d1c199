-- ===== src/Pipe/Refine.antt =====
-- Calls that do not overlap make a pipe a deque: the loops of the two reads end in their first
-- round, and a sequence of calls gets the replies of the deque.
use enki_ts.Base.{
  ℕ, suc, ◌+◌, ◌-◌, ◌≤◌, ◌<◌, ◌≡◌, refl, Option, none, some, List, [], ◌∷◌, arith, length, dec_lt,
}
use mathlib.Core.Option
use enki_ts.Pipe.{
  Pipe, nothing, u32_mod, reader_try_read_back, reader_take, writer_try_read_front, writer_take,
}
use enki_ts.Pipe.Deque.{Call, read_back, read_front, write_front, Reply, replies}
use enki_ts.Pipe.Quiet.{size, cell, IsQuiet, contents}
use enki_ts.Pipe.Serves.{
  call, Serves, reader_take-Serves, writer_take-Serves, writer_try_write_front-Serves,
}

module _ (size_log2 : ℕ) {T : Type 0} (fuel : ℕ) where
  reader_empty :
      (p : Pipe T)
      → IsQuiet size_log2 p
      → p.write_index ≡ p.read_count
      → reader_try_read_back size_log2 (suc fuel) p ≡ nothing p
  unfolding reader_try_read_back
  reader_empty p q e = ground (arith, q.unwrapped)

  reader_finds :
      (p : Pipe T)
      → IsQuiet size_log2 p
      → p.read_count < p.write_index
      → reader_try_read_back size_log2 (suc fuel) p
        ≡ reader_take size_log2 p (cell size_log2 p.read_count)
  unfolding reader_try_read_back
  reader_finds p q h = ground (arith, q.unwrapped, q.readable p.read_count)

  writer_empty :
      (p : Pipe T)
      → IsQuiet size_log2 p
      → p.write_index ≡ p.read_count
      → writer_try_read_front size_log2 (suc fuel) p
        ≡ nothing (record p { read_index = p.read_count })
  unfolding writer_try_read_front
  writer_empty p q e = ground (arith, q.unwrapped)

  writer_finds :
      (p : Pipe T) (i : ℕ)
      → IsQuiet size_log2 p
      → p.write_index ≡ i + 1
      → p.read_count ≤ i
      → writer_try_read_front size_log2 (suc fuel) p ≡ writer_take size_log2 p (cell size_log2 i)
  unfolding writer_try_read_front
  writer_finds p i q e h = ground (arith, q.unwrapped, q.readable i)

  -- One call of a pipe that is not in use.
  call-Serves :
      (c : Call T) (p : Pipe T)
      → IsQuiet size_log2 p
      → p.write_index + 1 < u32_mod
      → Serves size_log2 c p (call size_log2 (suc fuel) c p)
  unfolding call
  call-Serves read_back p q room = elim (dec_lt p.read_count p.write_index) [
    | yes some_left ↦ rw (reader_finds p q some_left) (reader_take-Serves size_log2 p q some_left)
    | no none_left ↦
        let e : p.write_index ≡ p.read_count = omega (arith, q.ordered) in
        let count : p.write_index - p.read_count ≡ 0 = omega arith in
        rw (reader_empty p q e) (rw count, q, omega arith)
  ]
  call-Serves read_front p q room = elim (dec_lt p.read_count p.write_index) [
    | yes some_left ↦
        rw (writer_finds p (p.write_index - 1) q (omega arith) (omega arith))
          (writer_take-Serves size_log2 p q (p.write_index - 1) (omega arith) (omega arith))
    | no none_left ↦
        let e : p.write_index ≡ p.read_count = omega (arith, q.ordered) in
        let count : p.write_index - p.read_count ≡ 0 = omega arith in
        rw (writer_empty p q e) (
          rw count,
          record {
            ordered = q.ordered;
            unwrapped = q.unwrapped;
            fits = q.fits;
            readable = q.readable;
            writable = q.writable;
          },
          omega arith,
        )
  ]
  call-Serves (write_front x) p q room = writer_try_write_front-Serves size_log2 p q x room

  -- The calls of a client in order; `none` if a loop does not return.
  pub run : List (Call T) → Pipe T → Option (List (Reply T))
  run [] p = some []
  run (c ∷ cs) p = elim (call size_log2 (suc fuel) c p) [
    | none ↦ none
    | some (r, q) ↦ Option.map (λ rs. r ∷ rs) (run cs q)
  ]

  run-cons :
      (c : Call T) (cs : List (Call T)) (p : Pipe T) (o : Option (Reply T × Pipe T))
      → Serves size_log2 c p o
      → ((q : Pipe T)
          → IsQuiet size_log2 q
          → q.write_index ≤ p.write_index + 1
          → run cs q ≡ some (replies (size size_log2) cs (contents size_log2 q)))
      → elim o as (λ _. Option (List (Reply T))) [
        | none ↦ none
        | some (r, q) ↦ Option.map (λ rs. r ∷ rs) (run cs q)
      ]
        ≡ some (replies (size size_log2) (c ∷ cs) (contents size_log2 p))
  unfolding replies
  run-cons c cs p none h rest = absurd h
  run-cons c cs p (some (r, q)) (e, quiet, le) rest = rw (rest q quiet le, ← e)

  -- Calls that do not overlap get the replies of a deque that holds what the pipe holds, each after
  -- one round of its loop, as long as `m_WriteIndex` cannot wrap.
  pub run_refines :
      (cs : List (Call T)) (p : Pipe T)
      → IsQuiet size_log2 p
      → p.write_index + length cs < u32_mod
      → run cs p ≡ some (replies (size size_log2) cs (contents size_log2 p))
  unfolding run replies
  run_refines [] p q room = refl
  run_refines (c ∷ cs) p q room =
      run-cons c cs p (call size_log2 (suc fuel) c p) (call-Serves c p q (omega arith))
        (λ next quiet le. run_refines cs next quiet (omega arith))
