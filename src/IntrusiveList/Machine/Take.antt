-- ===== src/IntrusiveList/Machine/Take.antt =====
-- The accesses with which ReaderReadBack takes the oldest node off the list keep the invariant.
use enki_ts.Base.{
  ℕ, ◌+◌, ◌-◌, ◌<◌, ◌≤◌, ◌≡◌, ◌≢◌, ◌⊎◌, inl, inr, refl, sym, subst, ap, ◌∙◌, false, arith, ◌==◌,
  update, ℕ_discrete,
}
use enki_ts.IntrusiveList.{null, tail}
use enki_ts.IntrusiveList.Machine.{
  Writer, away, clear, exchange, link, Reader, resting, load_first, load_second, advance, cut, swap,
  await, reload, join, reset, System, Fresh, set_reader, read, give,
}
use enki_ts.IntrusiveList.Machine.Invariant.{pre, at_front, Pending, WriterOk, ReaderOk, Inv}
use enki_ts.IntrusiveList.Machine.Link.{pre_front, pre_inner}
use enki_ts.IntrusiveList.Machine.Readers.{
  either, next_first, set_reader-Inv, load_first-Inv, load_second-Inv, await-Inv, reload-Inv,
  not_head,
}
use enki_ts.IntrusiveList.Machine.Cut.{Quiet, not_from_tail, head_not_tail, cut-Inv, join-Inv}

module _ (n : ℕ) (s : System) (inv : Inv n s) (next : ℕ → ℕ) (head f : ℕ)
    (some_node : s.taken < s.added) (first : s.nth s.taken ≡ f) (quiet : Quiet n s inv)
    (kept : (y : ℕ) → y ≢ tail → y ≢ f → next y ≡ s.list.next y)
    (joined : s.taken + 1 < s.added
      → (next tail ≡ s.nth (s.taken + 1)) × (s.list.next f ≢ null)) where
  abbrev s' : System
  s' = record s {
    list = record { head = head; next = next };
    reader = resting;
    returned = update s.returned s.taken f;
    taken = s.taken + 1;
  }

  -- Places after the first keep the node before them.
  inner_pre : (j : ℕ) → s.taken + 1 < j → pre s' j ≡ pre s j
  inner_pre j lt = ground arith

  front_pre : (j : ℕ) → j ≡ s.taken + 1 → pre s' j ≡ tail
  front_pre j e = ground arith

  inner_kept : (j : ℕ) → s.taken + 1 < j → j < s.added → next (pre s j) ≡ s.list.next (pre s j)
  inner_kept j lt hi =
      let at_j = pre_inner n s inv j (omega arith) in
      kept (pre s j) (λ z. (inv.valid (j - 1) (omega arith) (omega arith)).1 (sym at_j ∙ z))
        (λ z.
          inv.distinct s.taken (j - 1) (omega arith) (omega arith) (omega arith)
            (first ∙ sym z ∙ at_j))

  -- A link that a thread is about to make lies beyond the node that is taken.
  beyond : (a b : ℕ) → (ok : WriterOk n s (link a b)) → s.taken + 1 < ok.0
  beyond a b (j, lo, hi, eb, ea, e, front) = elim (ℕ_discrete j s.taken) [
    | yes it ↦ absurd (
        not_from_tail n s inv quiet a b (j, lo, hi, eb, ea, e, front)
          (sym ea ∙ pre_front n s inv j it))
    | no ne ↦ elim (ℕ_discrete j (s.taken + 1)) [
      | yes it ↦
          let at_f = sym ea ∙ pre_inner n s inv j ne ∙ ap s.nth (omega arith) ∙ first in
          absurd ((joined (omega arith)).1 (ap s.list.next (sym at_f) ∙ e))
      | no ne' ↦ omega arith
    ]
  ]

  take_Fresh : (x : ℕ) → Fresh s x → Fresh s' x
  take_Fresh x (not_null, not_tail, not_in) =
      (not_null, not_tail, λ j lo hi. not_in j (omega arith) hi)

  take_ok : (w : Writer) → WriterOk n s w → WriterOk n s' w
  take_ok away ok = tt
  take_ok (clear x) ok = take_Fresh x ok
  take_ok (exchange x) (ok, e) =
      (take_Fresh x ok, kept x ok.1 (λ z. ok.2 s.taken (omega arith) some_node (first ∙ sym z)) ∙ e)
  take_ok (link a b) (j, lo, hi, eb, ea, e, front) =
      let lt : s.taken + 1 < j = beyond a b (j, lo, hi, eb, ea, e, front) in
      (
        j,
        omega arith,
        hi,
        eb,
        inner_pre j lt ∙ ea,
        ap next (sym ea) ∙ inner_kept j lt hi ∙ ap s.list.next ea ∙ e,
        λ z. refl,
      )

  take_linked :
      (j : ℕ)
      → s.taken + 1 ≤ j
      → j < s.added
      → (next (pre s' j) ≡ s.nth j) ⊎ Pending n s' (pre s' j) (s.nth j)
  take_linked j lo hi = elim (ℕ_discrete j (s.taken + 1)) [
    | yes front ↦
        inl (ap next (front_pre j front) ∙ (joined (omega arith)).0 ∙ ap s.nth (sym front))
    | no ne ↦ elim (inv.linked j (omega arith) hi (λ z. absurd (omega arith))) [
      | inl done ↦ inl (ap next (inner_pre j (omega arith)) ∙ inner_kept j (omega arith) hi ∙ done)
      | inr p ↦ inr (subst (λ a. Pending n s a (s.nth j)) (sym (inner_pre j (omega arith))) p)
    ]
  ]

  pub take-Inv :
      (s.taken + 1 < s.added → head ≡ s.list.head)
      → (s.taken + 1 ≡ s.added → head ≡ tail)
      → next head ≡ null
      → Inv n s'
  take-Inv more one ends = record {
    order = omega arith;
    fifo = λ k hk. ground (arith, first, inv.fifo k);
    empty = one;
    last = λ lt. more lt ∙ inv.last (omega arith);
    open_end = ends;
    valid = λ j lo hi. inv.valid j (omega arith) hi;
    distinct = λ j k lo lt hi. inv.distinct j k (omega arith) lt hi;
    linked = λ j lo hi front. take_linked j lo hi;
    writers_ok = λ i h. take_ok (s.writers i) (inv.writers_ok i h);
    apart = inv.apart;
    reader_ok = tt;
  }

module _ (n : ℕ) (s : System) (inv : Inv n s) where
  not_tail : s.taken < s.added → s.nth s.taken ≢ tail
  not_tail some_node = (inv.valid s.taken (omega arith) some_node).1

  differ : {a b : ℕ} → (a == b) ≡ false → a ≢ b
  differ e = ground arith

  advance-Inv : (f x : ℕ) → s.reader ≡ advance f x → Inv n (read s (advance f x))
  unfolding read
  advance-Inv f x e =
      let ok : ReaderOk n s (advance f x) = subst (ReaderOk n s) e inv.reader_ok in
      let linked : s.list.next f ≢ null = λ z. ok.4 (sym ok.3 ∙ z) in
      let (more, there) = next_first n s inv f ok.0 ok.1 linked in
      take-Inv n s inv (update s.list.next tail x) s.list.head f ok.0 ok.1
        (λ z. absurd ((inv.valid s.taken (omega arith) ok.0).0 (ok.1 ∙ sym ok.2 ∙ z)))
        (λ y ne ne'. ground arith) (λ lt. (sym ok.3 ∙ there, linked)) (λ lt. refl)
        (λ z. absurd (omega arith)) (ground (arith, inv.open_end, head_not_tail n s inv ok.0))

  swap-Inv : (f : ℕ) → s.reader ≡ swap f → Inv n (read s (swap f))
  unfolding read
  swap-Inv f e =
      let ok : ReaderOk n s (swap f) = subst (ReaderOk n s) e inv.reader_ok in
      either (Inv n) (s.list.head == f)
        (give f (record s { list = record { head = tail; next = s.list.next } }))
        (set_reader (await f) s)
        (λ same.
          let one : s.taken + 1 ≡ s.added = elim (ℕ_discrete (s.taken + 1) s.added) [
            | yes it ↦ it
            | no ne ↦ absurd (
                inv.distinct s.taken (s.added - 1) (omega arith) (omega arith) (omega arith)
                  (ok.1 ∙ ground arith ∙ inv.last ok.0))
          ] in
          take-Inv n s inv s.list.next tail f ok.0 ok.1 (λ z. ap at_front e) (λ y ne ne'. refl)
            (λ lt. absurd (omega arith)) (λ lt. absurd (omega arith)) (λ z. refl) ok.2)
        (λ other.
          let more : s.taken + 1 < s.added = elim (ℕ_discrete (s.taken + 1) s.added) [
            | yes it ↦ absurd (differ other (inv.last ok.0 ∙ ap s.nth (omega arith) ∙ ok.1))
            | no ne ↦ omega (arith, ok.0)
          ] in
          set_reader-Inv n s inv (await f) (ap at_front e) (more, ok.1, ok.2))

  reset-Inv : (f : ℕ) → s.reader ≡ reset f → Inv n (read s (reset f))
  unfolding read
  reset-Inv f e =
      let ok : ReaderOk n s (reset f) = subst (ReaderOk n s) e inv.reader_ok in
      let not_f : f ≢ s.list.head = not_head n s inv f ok.3 in
      let not_t : f ≢ tail = λ z. not_tail (omega (arith, ok.0)) (ok.1 ∙ z) in
      take-Inv n s inv (update s.list.next f null) s.list.head f (omega (arith, ok.0)) ok.1
        (λ z. ap at_front e) (λ y ne ne'. ground arith) (λ lt. (ground arith ∙ ok.2, ok.3))
        (λ lt. refl) (λ z. absurd (omega (arith, ok.0))) (ground (arith, inv.open_end))

  -- Every access of ReaderReadBack keeps the invariant.
  pub read-Inv : (r : Reader) → s.reader ≡ r → Inv n (read s r)
  unfolding read
  read-Inv resting e = inv
  read-Inv load_first e = load_first-Inv n s inv e
  read-Inv (load_second f) e = load_second-Inv n s inv f e
  read-Inv (advance f x) e = advance-Inv f x e
  read-Inv (cut f) e = cut-Inv n s inv f e
  read-Inv (swap f) e = swap-Inv f e
  read-Inv (await f) e = await-Inv n s inv f e
  read-Inv (reload f) e = reload-Inv n s inv f e
  read-Inv (join f x) e = join-Inv n s inv f x e
  read-Inv (reset f) e = reset-Inv f e

  pub call_read-Inv : s.reader ≡ resting → Inv n (set_reader load_first s)
  call_read-Inv e = set_reader-Inv n s inv load_first (ap at_front e) tt
