-- ===== src/Tests/Pipes.antt =====
-- A pipe of four slots: calls in order, and two readers with the writer interleaved.
use enki_ts.Base.{
  ℕ, ◌+◌, ◌≡◌, ◌≢◌, refl, true, none, some, List, [], ◌∷◌, arith, sum_below, list_sum, update,
}
use enki_ts.Pipe.{Pipe, can_read, can_write, stuck, pipe_size, is_pipe_empty, reader_try_read_back}
use enki_ts.Pipe.Deque.{Call, read_back, read_front, write_front, replies}
use enki_ts.Pipe.Quiet.{IsQuiet}
use enki_ts.Pipe.Refine.{run, run_refines}
use enki_ts.Pipe.Wrap.{reader_spins}
use enki_ts.Pipe.Machine.{
  System, start, move_reader, move_writer, Step, Reach, begin, later, put_load, load_count,
}
use enki_ts.Pipe.Machine.Invariant.{owns, writer_owns, held, writer_held, stored, fills}
use enki_ts.Pipe.Machine.Safety.{
  items_conserved, slot_exclusive, is_pipe_empty_sound, is_pipe_empty_complete,
}

abbrev fresh : Pipe ℕ
fresh = record {
  buffer = λ i. 0;
  write_index = 0;
  read_count = 0;
  flags = λ i. can_write;
  read_index = 0;
}

fresh-IsQuiet : IsQuiet 2 fresh
fresh-IsQuiet = record {
  ordered = omega arith;
  unwrapped = omega arith;
  fits = omega arith;
  readable = λ j lo hi. absurd (omega arith);
  writable = λ j lo hi. refl;
}

abbrev script : List (Call ℕ)
script = write_front 7 ∷ write_front 8 ∷ write_front 9 ∷ read_back ∷ read_front ∷ []

run_refines_example : run 2 0 script fresh ≡ some (replies 4 script [])
run_refines_example = run_refines 2 0 script fresh fresh-IsQuiet (omega arith)

script-replies :
    replies 4 script []
    ≡ (true, none) ∷ (true, none) ∷ (true, none) ∷ (true, some 7) ∷ (true, some 9) ∷ []
unfolding replies
script-replies = refl

-- m_WriteIndex has passed 2 ^ 32: three items are left, in slots 2, 3 and 0.
abbrev wrapped : Pipe ℕ
wrapped = record {
  buffer = λ i. 5;
  write_index = 1;
  read_count = 0xffff_fffe;
  flags = update (λ i. can_read) 1 can_write;
  read_index = 0xffff_fffd;
}

reader_spins_example : reader_try_read_back 2 1000 wrapped ≡ stuck
reader_spins_example =
    reader_spins 2 wrapped 1000 (omega arith) (omega arith) (omega arith) (omega arith)
      (λ e. ground arith)

-- The writer has put in 7, and reader 0 has claimed its slot.
abbrev begun : System ℕ
begun = record (start 2 (λ i. 0)) { writer = put_load 7 }

abbrev next : System ℕ → System ℕ
next s = move_writer 2 s s.writer

abbrev written : System ℕ
written = next (next (next (next (next begun))))

written-Reach : Reach 2 2 (λ i. 0) written
written-Reach =
    later
      (later
        (later (later (later (later begin (Step.write_front 7 refl)) Step.writer) Step.writer)
          Step.writer)
        Step.writer)
      Step.writer

abbrev entered : System ℕ
entered = record written { readers = update written.readers 0 load_count }

abbrev next_0 : System ℕ → System ℕ
next_0 s = move_reader 2 s 0 (s.readers 0)

abbrev claimed : System ℕ
claimed = next_0 (next_0 (next_0 entered))

claimed-Reach : Reach 2 2 (λ i. 0) claimed
unfolding move_writer
claimed-Reach =
    later
      (later
        (later (later written-Reach (Step.read_back 0 (omega arith) refl))
          (Step.reader 0 (omega arith)))
        (Step.reader 0 (omega arith)))
      (Step.reader 0 (omega arith))

items_conserved_example :
    sum_below (pipe_size 2) (stored (λ x. x) claimed.pipe)
      + sum_below 2 (λ j. held (λ x. x) claimed.pipe.buffer (claimed.readers j))
      + writer_held (λ x. x) claimed.pipe.buffer claimed.writer
      + list_sum (λ x. x) claimed.taken
    ≡ list_sum (λ x. x) claimed.written
items_conserved_example = items_conserved 2 2 claimed-Reach (λ x. x)

slot_exclusive_example :
    ((k : ℕ) → owns (claimed.readers k) ≡ some 0 → k ≡ 0)
    × (writer_owns claimed.writer ≢ some 0)
    × (fills 2 claimed.writer ≢ some 0)
unfolding move_writer move_reader
slot_exclusive_example = slot_exclusive 2 2 claimed-Reach 0 0 refl

abbrev unused : System ℕ
unused = start 2 (λ i. 0)

is_pipe_empty_sound_example : unused.pipe.flags 3 ≢ can_read
unfolding is_pipe_empty
is_pipe_empty_sound_example =
    is_pipe_empty_sound 2 2 {b = λ i. 0} {s = unused} (omega arith) begin (λ e. cc) refl 3
      (omega arith)

is_pipe_empty_complete_example : is_pipe_empty 2 unused.pipe ≡ true
is_pipe_empty_complete_example =
    is_pipe_empty_complete 2 2 {b = λ i. 0} {s = unused} begin (λ j. refl) refl (λ i h e. cc)
