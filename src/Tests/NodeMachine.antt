-- ===== src/Tests/NodeMachine.antt =====
-- Two threads add the nodes at 5 and 6 while the owner takes the one at 5, which the second thread
-- keeps it from finishing for a while.
use enki_ts.Base.{
  ℕ, ◌+◌, ◌<◌, ◌≤◌, ◌≡◌, ◌≢◌, ◌⊎◌, inl, inr, refl, sym, ap, ◌∙◌, ℕ_discrete, Bool, true, false,
  arith, ◌==◌,
}
use enki_ts.IntrusiveList.{null, is_list_empty}
use enki_ts.IntrusiveList.Machine.{
  System, Writer, link, clear, away, resting, load_first, start, set_writer, set_reader, write,
  read, node_of, Fresh, writes, reads, call_write, call_read, Reach, begin, later,
}
use enki_ts.IntrusiveList.Machine.Safety.{fifo}
use enki_ts.IntrusiveList.Machine.Queue.{Queued, step-Queued}
use enki_ts.IntrusiveList.Machine.Alone.{AllLinked, read_alone, due, read_alone_ends}

abbrev unset : ℕ → ℕ
unset a = 0

abbrev go : ℕ → System → System
go i s = write s i (s.writers i)

abbrev on : System → System
on s = read s s.reader

abbrev added : System
added = go 0 (go 0 (go 0 (set_writer 0 (clear 5) (start unset))))

added-Reach : Reach 2 unset added
added-Reach =
    let start_fresh : Fresh (start unset) 5 =
      (omega arith, omega arith, λ j lo hi. absurd (omega arith)) in
    let first = later begin (call_write 0 5 (omega arith) refl start_fresh (λ k hk. omega arith)) in
    later (later (later first (writes 0 (omega arith))) (writes 0 (omega arith)))
      (writes 0 (omega arith))

added-resting : added.reader ≡ resting
unfolding write
added-resting = refl

one_of_two : (k : ℕ) → k < 2 → (k ≡ 0) ⊎ (k ≡ 1)
one_of_two k h = elim (ℕ_discrete k 0) [ yes e ↦ inl e | no ne ↦ inr (omega arith) ]

not_null : null ≢ 6
not_null e = omega arith

is_link : Writer → Bool
is_link (link a b) = true
is_link _ = false

is_link_not : {a b : ℕ} → away ≢ link a b
unfolding is_link
is_link_not e = cc (ap is_link e)

-- The owner has found 5 to be the last node.
abbrev swapping : System
swapping = on (on (on (set_reader load_first added)))

swapping-Reach : Reach 2 unset swapping
swapping-Reach =
    later (later (later (later added-Reach (call_read added-resting)) reads) reads) reads

swapping-away : swapping.writers 1 ≡ away
unfolding write read
swapping-away = refl

not_six : (j : ℕ) → swapping.nth j ≢ 6
unfolding write read
not_six j = ground arith

unused : (k : ℕ) → k < 2 → node_of (swapping.writers k) ≢ 6
unfolding write read
unused k h e = elim (one_of_two k h) [
  | inl first ↦ not_null (sym (ap (λ i. node_of (swapping.writers i)) first) ∙ e)
  | inr second ↦ not_null (sym (ap (λ i. node_of (swapping.writers i)) second) ∙ e)
]

-- The second thread is about to exchange pHead.
abbrev raced : System
raced = go 1 (set_writer 1 (clear 6) swapping)

raced-Reach : Reach 2 unset raced
raced-Reach =
    later
      (later swapping-Reach (
        call_write 1 6 (omega arith) swapping-away (omega arith, omega arith, λ j lo hi. not_six j)
          unused))
      (writes 1 (omega arith))

step-Queued_example : Queued raced (go 1 raced)
step-Queued_example = step-Queued 2 unset raced (go 1 raced) raced-Reach (writes 1 (omega arith))

-- The owner waits, and then the second thread links its node.
abbrev linked : System
linked = go 1 (on (on (go 1 raced)))

linked-Reach : Reach 2 unset linked
linked-Reach =
    later (later (later (later raced-Reach (writes 1 (omega arith))) reads) reads)
      (writes 1 (omega arith))

linked-AllLinked : AllLinked 2 linked
unfolding write read
linked-AllLinked i h a b e = elim (one_of_two i h) [
  | inl first ↦ is_link_not (sym (ap linked.writers first) ∙ e)
  | inr second ↦ is_link_not (sym (ap linked.writers second) ∙ e)
]

read_alone_ends_example :
    ((read_alone 8 linked).reader ≡ resting)
    × ((read_alone 8 linked).taken ≡ linked.taken + due linked)
read_alone_ends_example = read_alone_ends 2 unset linked linked-Reach linked-AllLinked

-- The owner has returned the node at 5.
abbrev returned : System
returned = on (on (on (on linked)))

fifo_example :
    (returned.taken ≤ returned.added)
    × ((k : ℕ) → k < returned.taken → returned.returned k ≡ returned.nth k)
    × (is_list_empty returned.list ≡ (returned.taken == returned.added))
fifo_example =
    fifo 2 unset returned (later (later (later (later linked-Reach reads) reads) reads) reads)

-- One node was taken, and the other is left.
taken_one : (returned.taken ≡ 1) × (returned.added ≡ 2) × (returned.reader ≡ resting)
unfolding write read
taken_one = (refl, refl, refl)
