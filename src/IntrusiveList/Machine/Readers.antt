-- ===== src/IntrusiveList/Machine/Readers.antt =====
-- The accesses of ReaderReadBack keep the invariant.
use enki_ts.Base.{
  ℕ, ◌+◌, ◌<◌, ◌≤◌, ◌≡◌, ◌≢◌, inl, inr, refl, sym, subst, ap, ◌∙◌, Bool, true, false, arith, ◌==◌,
  if◌then◌else◌, ℕ_discrete,
}
use enki_ts.IntrusiveList.{null, tail}
use enki_ts.IntrusiveList.Machine.{
  Writer, away, clear, exchange, link, Reader, resting, load_first, load_second, advance, cut,
  await, reload, join, System, set_reader, read,
}
use enki_ts.IntrusiveList.Machine.Invariant.{pre, at_front, WriterOk, ReaderOk, Inv}
use enki_ts.IntrusiveList.Machine.Link.{pre_front, pre_inner}

pub either :
    (P : System → Type 0) (b : Bool) (t u : System)
    → (b ≡ true → P t)
    → (b ≡ false → P u)
    → P (if b then t else u)
either P true t u f g = f refl
either P false t u f g = g refl

module _ (n : ℕ) (s : System) (inv : Inv n s) where
  -- A node that has a successor is not the head.
  pub not_head : (x : ℕ) → s.list.next x ≢ null → x ≢ s.list.head
  not_head x ne e = ne (ap s.list.next e ∙ inv.open_end)

  -- A link that is set leads to the next node.
  pub follows :
      (j : ℕ)
      → s.taken ≤ j
      → j < s.added
      → (j ≡ s.taken → at_front s.reader ≡ true)
      → s.list.next (pre s j) ≢ null
      → s.list.next (pre s j) ≡ s.nth j
  follows j lo hi front ne = elim (inv.linked j lo hi front) [
    | inl done ↦ done
    | inr p ↦ let ok = subst (WriterOk n s) p.2 (inv.writers_ok p.0 p.1) in absurd (ne ok.5)
  ]

  -- Another step of the owner, which writes nothing.
  reader_ok :
      (r : Reader) (w : Writer)
      → (at_front s.reader ≡ true → at_front r ≡ true)
      → WriterOk n s w
      → WriterOk n (set_reader r s) w
  reader_ok r away keep ok = tt
  reader_ok r (clear x) keep ok = ok
  reader_ok r (exchange x) keep ok = ok
  reader_ok r (link a b) keep (j, lo, hi, eb, ea, e, front) =
      (j, lo, hi, eb, ea, e, λ z. keep (front z))

  pub set_reader-Inv :
      (r : Reader)
      → (at_front s.reader ≡ at_front r)
      → ReaderOk n (set_reader r s) r
      → Inv n (set_reader r s)
  set_reader-Inv r same ok = record {
    order = inv.order;
    fifo = inv.fifo;
    empty = inv.empty;
    last = inv.last;
    open_end = inv.open_end;
    valid = inv.valid;
    distinct = inv.distinct;
    linked = λ j lo hi front. inv.linked j lo hi (λ z. same ∙ front z);
    writers_ok = λ i h. reader_ok r (s.writers i) (λ z. sym same ∙ z) (inv.writers_ok i h);
    apart = inv.apart;
    reader_ok = ok;
  }

  not_empty : s.list.next tail ≢ null → s.taken < s.added
  not_empty ne = elim (ℕ_discrete s.taken s.added) [
    | yes none ↦ absurd (ne (ap s.list.next (sym (inv.empty none)) ∙ inv.open_end))
    | no some ↦ omega (arith, inv.order)
  ]

  first_follows :
      s.taken < s.added
      → at_front s.reader ≡ true
      → s.list.next tail ≢ null
      → s.list.next tail ≡ s.nth s.taken
  first_follows some_node front ne =
      let at_tail = pre_front n s inv s.taken refl in
      ap s.list.next (sym at_tail)
      ∙ follows s.taken (omega arith) some_node (λ z. front)
          (λ z. ne (ap s.list.next (sym at_tail) ∙ z))

  -- With the first node loaded and another one after it, that is where its link leads.
  pub next_first :
      (f : ℕ)
      → s.taken < s.added
      → s.nth s.taken ≡ f
      → s.list.next f ≢ null
      → (s.taken + 1 < s.added) × (s.list.next f ≡ s.nth (s.taken + 1))
  next_first f some_node e ne =
      let more : s.taken + 1 < s.added = elim (ℕ_discrete (s.taken + 1) s.added) [
        | yes it ↦
            absurd (not_head f ne (sym e ∙ ap s.nth (omega arith) ∙ sym (inv.last some_node)))
        | no ne' ↦ omega arith
      ] in
      let at_f = pre_inner n s inv (s.taken + 1) (omega arith) ∙ ap s.nth (omega arith) ∙ e in
      let there =
        follows (s.taken + 1) (omega arith) more (λ z. absurd (omega arith))
          (λ z. ne (ap s.list.next (sym at_f) ∙ z)) in
      (more, ap s.list.next (sym at_f) ∙ there)

  pub load_first-Inv : s.reader ≡ load_first → Inv n (read s load_first)
  unfolding read
  load_first-Inv e =
      either (Inv n) (s.list.next tail == null) (set_reader resting s)
        (set_reader (load_second (s.list.next tail)) s)
        (λ none. set_reader-Inv resting (ap at_front e) tt)
        (λ some_node.
          let ne : s.list.next tail ≢ null = ground arith in
          let more : s.taken < s.added = not_empty ne in
          set_reader-Inv (load_second (s.list.next tail)) (ap at_front e)
            (more, sym (first_follows more (ap at_front e) ne), refl))

  pub load_second-Inv : (f : ℕ) → s.reader ≡ load_second f → Inv n (read s (load_second f))
  unfolding read
  load_second-Inv f e =
      let ok : ReaderOk n s (load_second f) = subst (ReaderOk n s) e inv.reader_ok in
      either (Inv n) (s.list.next f == null) (set_reader (cut f) s)
        (set_reader (advance f (s.list.next f)) s)
        (λ none. set_reader-Inv (cut f) (ap at_front e) ok)
        (λ some_node.
          set_reader-Inv (advance f (s.list.next f)) (ap at_front e)
            (ok.0, ok.1, ok.2, refl, ground arith))

  pub await-Inv : (f : ℕ) → s.reader ≡ await f → Inv n (read s (await f))
  unfolding read
  await-Inv f e =
      let ok : ReaderOk n s (await f) = subst (ReaderOk n s) e inv.reader_ok in
      either (Inv n) (s.list.next f == null) s (set_reader (reload f) s) (λ none. inv)
        (λ some_node. set_reader-Inv (reload f) (ap at_front e) (ok.0, ok.1, ok.2, ground arith))

  pub reload-Inv : (f : ℕ) → s.reader ≡ reload f → Inv n (read s (reload f))
  unfolding read
  reload-Inv f e =
      let ok : ReaderOk n s (reload f) = subst (ReaderOk n s) e inv.reader_ok in
      set_reader-Inv (join f (s.list.next f)) (ap at_front e) (ok.0, ok.1, ok.2, refl, ok.3)
