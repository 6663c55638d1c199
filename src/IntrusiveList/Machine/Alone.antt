-- ===== src/IntrusiveList/Machine/Alone.antt =====
-- ReaderReadBack waits for nothing but a thread between its exchange of pHead and its write through pPrev.
use enki_ts.Base.{
  ℕ, zero, suc, ◌+◌, ◌-◌, ◌<◌, ◌≤◌, ◌≡◌, ◌≢◌, inl, inr, refl, sym, subst, ap, ◌∙◌, true, arith,
  ◌==◌, if◌then◌else◌,
}
use enki_ts.IntrusiveList.{null, tail}
use enki_ts.IntrusiveList.Machine.{
  System, Reader, resting, load_first, load_second, advance, cut, swap, await, reload, join, reset,
  link, set_reader, Reach, read,
}
use enki_ts.IntrusiveList.Machine.Invariant.{pre, at_front, ReaderOk, Inv}
use enki_ts.IntrusiveList.Machine.Link.{pre_front, pre_inner}
use enki_ts.IntrusiveList.Machine.Readers.{either}
use enki_ts.IntrusiveList.Machine.Take.{read-Inv}
use enki_ts.IntrusiveList.Machine.Safety.{Reach-Inv}

-- `k` accesses of the owner, no other thread's between them.
unfoldable pub read_alone : ℕ → System → System
read_alone zero s = s
read_alone (suc k) s = read_alone k (read s s.reader)

-- No thread is about to link its node to the one before it.
abbrev pub AllLinked : ℕ → System → Type 0
AllLinked n s = (i : ℕ) → i < n → (a b : ℕ) → s.writers i ≢ link a b

-- How many accesses a call of ReaderReadBack has left, at most.
rank : Reader → ℕ
rank resting = 0
rank load_first = 8
rank (load_second f) = 7
rank (advance f x) = 1
rank (cut f) = 6
rank (swap f) = 5
rank (await f) = 4
rank (reload f) = 3
rank (join f x) = 2
rank (reset f) = 1

-- The node after the first is linked to it.
linked_next :
    (n : ℕ) (s : System)
    → Inv n s
    → AllLinked n s
    → s.taken + 1 < s.added
    → s.list.next (s.nth s.taken) ≢ null
linked_next n s inv linked more z =
    let at_first : pre s (s.taken + 1) ≡ s.nth s.taken =
      pre_inner n s inv (s.taken + 1) (omega arith) ∙ ap s.nth (omega arith) in
    elim (inv.linked (s.taken + 1) (omega arith) more (λ z'. absurd (omega arith))) [
      | inl done ↦
          (inv.valid (s.taken + 1) (omega arith) more).0 (sym done ∙ ap s.list.next at_first ∙ z)
      | inr p ↦ linked p.0 p.1 _ _ p.2
    ]

-- The first node is linked to `tail`, while the owner has not cut that link.
linked_first :
    (n : ℕ) (s : System)
    → Inv n s
    → AllLinked n s
    → at_front s.reader ≡ true
    → s.taken < s.added
    → s.list.next tail ≢ null
linked_first n s inv linked front some z =
    let at_tail = pre_front n s inv s.taken refl in
    elim (inv.linked s.taken (omega arith) some (λ z'. front)) [
      | inl done ↦ (inv.valid s.taken (omega arith) some).0 (sym done ∙ ap s.list.next at_tail ∙ z)
      | inr p ↦ linked p.0 p.1 _ _ p.2
    ]

-- The nodes that the call of ReaderReadBack under way is to return.
abbrev pub due_by : Reader → ℕ
due_by resting = 0
due_by _ = 1

abbrev pub due : System → ℕ
due s = if s.taken == s.added then 0 else due_by s.reader

-- What the rest of a call makes of `s`, and what one access makes of it.
abbrev Onward : System → Reader → System → Type 0
Onward s r t =
    (rank t.reader ≤ rank r - 1)
    × (t.writers ≡ s.writers)
    × (t.taken + due t ≡ s.taken + due (set_reader r s))

last_one :
    (taken added : ℕ)
    → taken < added
    → taken + 1 + (if taken + 1 == added then 0 else 0) ≡ taken + (if taken == added then 0 else 1)
last_one taken added some = ground arith

no_node :
    (taken added : ℕ)
    → taken ≤ added
    → ¬ (taken < added)
    → taken + (if taken == added then 0 else 0) ≡ taken + (if taken == added then 0 else 1)
no_node taken added order none = ground arith

read-Onward :
    (n : ℕ) (s : System)
    → Inv n s
    → AllLinked n s
    → (r : Reader) → s.reader ≡ r
    → Onward s r (read s r)
unfolding read rank
read-Onward n s inv linked resting e =
    let at = ap rank e in
    (omega arith, refl, ap (λ r. s.taken + (if s.taken == s.added then 0 else due_by r)) e)
read-Onward n s inv linked load_first e =
    either (Onward s load_first) (s.list.next tail == null) _ _
      (λ none. (
        omega arith,
        refl,
        no_node s.taken s.added inv.order
            (λ some. linked_first n s inv linked (ap at_front e) some (ground arith)),
      ))
      (λ some. (omega arith, refl, refl))
read-Onward n s inv linked (load_second f) e =
    either (Onward s (load_second f)) (s.list.next f == null) _ _
      (λ none. (omega arith, refl, refl)) (λ some. (omega arith, refl, refl))
read-Onward n s inv linked (advance f x) e =
    let ok : ReaderOk n s (advance f x) = subst (ReaderOk n s) e inv.reader_ok in
    (omega arith, refl, last_one s.taken s.added ok.0)
read-Onward n s inv linked (cut f) e = (omega arith, refl, refl)
read-Onward n s inv linked (swap f) e =
    let ok : ReaderOk n s (swap f) = subst (ReaderOk n s) e inv.reader_ok in
    either (Onward s (swap f)) (s.list.head == f) _ _
      (λ same. (omega arith, refl, last_one s.taken s.added ok.0))
      (λ other. (omega arith, refl, refl))
read-Onward n s inv linked (await f) e =
    let ok : ReaderOk n s (await f) = subst (ReaderOk n s) e inv.reader_ok in
    either (Onward s (await f)) (s.list.next f == null) _ _
      (λ none. absurd (linked_next n s inv linked ok.0 (ap s.list.next ok.1 ∙ ground arith)))
      (λ some. (omega arith, refl, refl))
read-Onward n s inv linked (reload f) e = (omega arith, refl, refl)
read-Onward n s inv linked (join f x) e = (omega arith, refl, refl)
read-Onward n s inv linked (reset f) e =
    let ok : ReaderOk n s (reset f) = subst (ReaderOk n s) e inv.reader_ok in
    (omega arith, refl, last_one s.taken s.added (omega (arith, ok.0)))

rank-resting : (r : Reader) → rank r ≤ 0 → r ≡ resting
unfolding rank
rank-resting resting le = refl
rank-resting load_first le = absurd (omega arith)
rank-resting (load_second f) le = absurd (omega arith)
rank-resting (advance f x) le = absurd (omega arith)
rank-resting (cut f) le = absurd (omega arith)
rank-resting (swap f) le = absurd (omega arith)
rank-resting (await f) le = absurd (omega arith)
rank-resting (reload f) le = absurd (omega arith)
rank-resting (join f x) le = absurd (omega arith)
rank-resting (reset f) le = absurd (omega arith)

due-resting : (s : System) → s.reader ≡ resting → s.taken ≡ s.taken + due s
due-resting s e = let at = ap due_by e in ground arith

read_alone-rank :
    (n : ℕ) (k : ℕ) (s : System)
    → Inv n s
    → AllLinked n s
    → rank s.reader ≤ k
    → ((read_alone k s).reader ≡ resting) × ((read_alone k s).taken ≡ s.taken + due s)
unfolding read_alone
read_alone-rank n zero s inv linked le =
    let ends = rank-resting s.reader le in (ends, due-resting s ends)
read_alone-rank n (suc k) s inv linked le =
    let (down, same, all) = read-Onward n s inv linked s.reader refl in
    let linked' : AllLinked n (read s s.reader) =
      subst (λ w. (i : ℕ) → i < n → (a b : ℕ) → w i ≢ link a b) (sym same) linked in
    let (ends, count) =
      read_alone-rank n k (read s s.reader) (read-Inv n s inv s.reader refl) linked'
        (omega arith) in
    (ends, count ∙ all)

rank-le : (r : Reader) → rank r ≤ 8
unfolding rank
rank-le resting = omega arith
rank-le load_first = omega arith
rank-le (load_second f) = omega arith
rank-le (advance f x) = omega arith
rank-le (cut f) = omega arith
rank-le (swap f) = omega arith
rank-le (await f) = omega arith
rank-le (reload f) = omega arith
rank-le (join f x) = omega arith
rank-le (reset f) = omega arith

-- From every state that is reached in which no thread is between its exchange of pHead and its write
-- through pPrev, eight accesses of the owner by itself finish its call of ReaderReadBack, which by then has
-- returned one more node than before if a call was under way and some node was yet to be returned, and
-- else none.
pub read_alone_ends :
    (n : ℕ) (next : ℕ → ℕ) (s : System)
    → Reach n next s
    → AllLinked n s
    → ((read_alone 8 s).reader ≡ resting) × ((read_alone 8 s).taken ≡ s.taken + due s)
read_alone_ends n next s r linked =
    read_alone-rank n 8 s (Reach-Inv n next s r) linked (rank-le s.reader)
