-- ===== src/IntrusiveList/Machine/Safety.antt =====
-- What holds in every state that threads in WriterWriteFront and the owner in ReaderReadBack reach,
-- whatever the order of their accesses.
use enki_ts.Base.{ℕ, ◌<◌, ◌≤◌, ◌≡◌, refl, arith, ◌==◌, ℕ_discrete}
use enki_ts.IntrusiveList.{is_list_empty}
use enki_ts.IntrusiveList.Machine.{
  System, Step, writes, reads, call_write, call_read, Reach, begin, later,
}
use enki_ts.IntrusiveList.Machine.Invariant.{Inv, start-Inv}
use enki_ts.IntrusiveList.Machine.Writers.{call_write-Inv}
use enki_ts.IntrusiveList.Machine.Link.{write-Inv}
use enki_ts.IntrusiveList.Machine.Cut.{head_not_tail}
use enki_ts.IntrusiveList.Machine.Take.{read-Inv, call_read-Inv}

pub Step-Inv : (n : ℕ) (s t : System) → Inv n s → Step n s t → Inv n t
Step-Inv n s t inv (writes i h) = write-Inv n s inv i h (s.writers i) refl
Step-Inv n s t inv reads = read-Inv n s inv s.reader refl
Step-Inv n s t inv (call_write i x h e fresh unused) = call_write-Inv n s inv i h x e fresh unused
Step-Inv n s t inv (call_read e) = call_read-Inv n s inv e

pub Reach-Inv : (n : ℕ) (next : ℕ → ℕ) (s : System) → Reach n next s → Inv n s
Reach-Inv n next s begin = start-Inv n next
Reach-Inv n next s (later {s = s'} r step) = Step-Inv n s' s (Reach-Inv n next s' r) step

-- In every state that is reached, at most as many nodes were returned as were added; the nodes were
-- returned in the order in which the exchanges of pHead added them; and IsListEmpty tells whether all
-- the nodes that were added were returned.
pub fifo :
    (n : ℕ) (next : ℕ → ℕ) (s : System)
    → Reach n next s
    → (s.taken ≤ s.added)
      × ((k : ℕ) → k < s.taken → s.returned k ≡ s.nth k)
      × (is_list_empty s.list ≡ (s.taken == s.added))
unfolding is_list_empty
fifo n next s r =
    let inv = Reach-Inv n next s r in
    elim (ℕ_discrete s.taken s.added) [
      | yes none ↦ (inv.order, inv.fifo, ground (arith, inv.empty none))
      | no some ↦
          (inv.order, inv.fifo, ground (arith, head_not_tail n s inv (omega (arith, inv.order))))
    ]
