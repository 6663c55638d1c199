-- ===== src/IntrusiveList/Machine/Queue.antt =====
-- The list as a queue of nodes: what one access, of a writer or of the owner, does to it.
use enki_ts.Base.{
  ℕ, zero, suc, ◌+◌, ◌-◌, ◌<◌, ◌≤◌, ◌≡◌, refl, subst, ap, ◌∙◌, arith, ◌==◌, List, [], ◌∷◌, ◌++◌,
  update,
}
use enki_ts.IntrusiveList.{null, tail, IntrusiveList}
use enki_ts.IntrusiveList.Machine.{
  System, Writer, Reader, resting, load_first, load_second, advance, cut, swap, await, reload, join,
  reset, away, exchange, link, clear, Step, writes, reads, call_write, call_read, give, Reach, read,
  write,
}
use enki_ts.IntrusiveList.Machine.Invariant.{ReaderOk, Inv}
use enki_ts.IntrusiveList.Machine.Readers.{either}
use enki_ts.IntrusiveList.Machine.Safety.{Reach-Inv}

-- `count` nodes from the `from`-th on.
unfoldable pub nodes : (ℕ → ℕ) → ℕ → ℕ → List ℕ
nodes nth from zero = []
nodes nth from (suc count) = nth from ∷ nodes nth (from + 1) count

-- The nodes that were added and not yet returned, the oldest first.
unfoldable pub content : System → List ℕ
content s = nodes s.nth s.taken (s.added - s.taken)

-- What an access that leads from `s` to `t` does to the queue.
pub data Queued (s t : System) : Type 0 where
  keeps : content t ≡ content s → t.taken ≡ s.taken → Queued s t
  pushes :
      (i x : ℕ)
      → s.writers i ≡ exchange x
      → content t ≡ content s ++ x ∷ []
      → t.taken ≡ s.taken
      → Queued s t
  pops : content s ≡ t.returned s.taken ∷ content t → t.taken ≡ s.taken + 1 → Queued s t

nodes_same :
    (nth nth' : ℕ → ℕ) (from count : ℕ)
    → ((k : ℕ) → from ≤ k → k < from + count → nth' k ≡ nth k)
    → nodes nth' from count ≡ nodes nth from count
unfolding nodes
nodes_same nth nth' from zero same = refl
nodes_same nth nth' from (suc count) same =
    let rest =
      nodes_same nth nth' (from + 1) count (λ k lo hi. same k (omega arith) (omega arith)) in
    rw (rest, same from (omega arith) (omega arith))

nodes-append :
    (nth : ℕ → ℕ) (from count : ℕ)
    → nodes nth from (suc count) ≡ nodes nth from count ++ nth (from + count) ∷ []
unfolding nodes
nodes-append nth from zero = ap (λ k. nth k ∷ []) (omega arith)
nodes-append nth from (suc count) =
    ap (λ xs. nth from ∷ xs)
      (nodes-append nth (from + 1) count
        ∙ ap (λ k. nodes nth (from + 1) count ++ nth k ∷ []) (omega arith))

write-Queued :
    (n : ℕ) (s : System) → Inv n s → (i : ℕ) (w : Writer) → s.writers i ≡ w → Queued s (write s i w)
unfolding write content
write-Queued n s inv i away e = keeps refl refl
write-Queued n s inv i (clear x) e = keeps refl refl
write-Queued n s inv i (exchange x) e =
    let nth' = update s.nth s.added x in
    let len = s.added - s.taken in
    let more : s.added + 1 - s.taken ≡ suc len = omega (arith, inv.order) in
    let old = nodes_same s.nth nth' s.taken len (λ k lo hi. ground arith) in
    let new : nth' (s.taken + len) ≡ x = ground (arith, inv.order) in
    pushes i x e
      (ap (nodes nth' s.taken) more
        ∙ nodes-append nth' s.taken len
        ∙ ap (λ xs. xs ++ nth' (s.taken + len) ∷ []) old
        ∙ ap (λ y. content s ++ y ∷ []) new)
      refl
write-Queued n s inv i (link a b) e = keeps refl refl

take-Queued :
    (s : System) (l : IntrusiveList) (f : ℕ)
    → s.taken < s.added
    → s.nth s.taken ≡ f
    → Queued s (give f (record s { list = l }))
unfolding content nodes
take-Queued s l f lt e =
    let less : s.added - s.taken ≡ suc (s.added - (s.taken + 1)) = omega arith in
    let it : s.nth s.taken ≡ update s.returned s.taken f s.taken = ground arith in
    pops
      (ap (nodes s.nth s.taken) less
        ∙ ap (λ y. y ∷ nodes s.nth (s.taken + 1) (s.added - (s.taken + 1))) it)
      refl

read-Queued : (n : ℕ) (s : System) → Inv n s → (r : Reader) → s.reader ≡ r → Queued s (read s r)
unfolding read content
read-Queued n s inv resting e = keeps refl refl
read-Queued n s inv load_first e =
    either (Queued s) (s.list.next tail == null) _ _ (λ h. keeps refl refl) (λ h. keeps refl refl)
read-Queued n s inv (load_second f) e =
    either (Queued s) (s.list.next f == null) _ _ (λ h. keeps refl refl) (λ h. keeps refl refl)
read-Queued n s inv (advance f x) e =
    let ok : ReaderOk n s (advance f x) = subst (ReaderOk n s) e inv.reader_ok in
    take-Queued s _ f ok.0 ok.1
read-Queued n s inv (cut f) e = keeps refl refl
read-Queued n s inv (swap f) e =
    let ok : ReaderOk n s (swap f) = subst (ReaderOk n s) e inv.reader_ok in
    either (Queued s) (s.list.head == f) _ _ (λ h. take-Queued s _ f ok.0 ok.1)
      (λ h. keeps refl refl)
read-Queued n s inv (await f) e =
    either (Queued s) (s.list.next f == null) _ _ (λ h. keeps refl refl) (λ h. keeps refl refl)
read-Queued n s inv (reload f) e = keeps refl refl
read-Queued n s inv (join f x) e = keeps refl refl
read-Queued n s inv (reset f) e =
    let ok : ReaderOk n s (reset f) = subst (ReaderOk n s) e inv.reader_ok in
    take-Queued s _ f (omega (arith, ok.0)) ok.1

-- In every state that is reached, the next access, of any thread, keeps the queue of the nodes that are
-- yet to be returned, or adds the node of that thread's call of WriterWriteFront behind them, or, by
-- the owner, returns the oldest of them from ReaderReadBack.
pub step-Queued : (n : ℕ) (next : ℕ → ℕ) (s t : System) → Reach n next s → Step n s t → Queued s t
unfolding content
step-Queued n next s t r (writes i h) = write-Queued n s (Reach-Inv n next s r) i (s.writers i) refl
step-Queued n next s t r reads = read-Queued n s (Reach-Inv n next s r) s.reader refl
step-Queued n next s t r (call_write i x h e fresh unused) = keeps refl refl
step-Queued n next s t r (call_read e) = keeps refl refl
