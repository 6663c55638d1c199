-- ===== src/IntrusiveList/Machine/Cut.antt =====
-- The stores of ReaderReadBack to tail.pNext, before the node is returned, keep the invariant.
use enki_ts.Base.{
  ℕ, ◌-◌, ◌<◌, ◌≡◌, ◌≢◌, inl, inr, refl, sym, subst, ap, ◌∙◌, false, arith, update, ℕ_discrete,
}
use enki_ts.IntrusiveList.{null, tail}
use enki_ts.IntrusiveList.Machine.{
  Writer, away, clear, exchange, link, Reader, cut, swap, join, reset, System, set_next, set_reader,
  read,
}
use enki_ts.IntrusiveList.Machine.Invariant.{pre, at_front, WriterOk, ReaderOk, Inv}
use enki_ts.IntrusiveList.Machine.Link.{pre_front, pre_inner}
use enki_ts.IntrusiveList.Machine.Readers.{next_first}

module _ (n : ℕ) (s : System) (inv : Inv n s) where
  -- No thread is about to link a node to `tail`.
  abbrev pub Quiet : Type 0
  Quiet = s.list.next tail ≡ null → at_front s.reader ≡ false

  pub not_from_tail : Quiet → (a b : ℕ) → WriterOk n s (link a b) → a ≢ tail
  not_from_tail quiet a b (j, lo, hi, eb, ea, e, front) z = elim (ℕ_discrete j s.taken) [
    | yes first ↦ cc (front first, quiet (ap s.list.next (sym z) ∙ e))
    | no inner ↦
        (inv.valid (j - 1) (omega arith) (omega arith)).1 (sym (pre_inner n s inv j inner) ∙ ea ∙ z)
  ]

  pub head_not_tail : s.taken < s.added → s.list.head ≢ tail
  head_not_tail some_node z =
      (inv.valid (s.added - 1) (omega arith) (omega arith)).1 (sym (inv.last some_node) ∙ z)

  module _ (v : ℕ) (r : Reader) (quiet : Quiet) where
    abbrev s' : System
    s' = set_next tail v (set_reader r s)

    writer_ok : (w : Writer) → WriterOk n s w → WriterOk n s' w
    writer_ok away ok = tt
    writer_ok (clear x) ok = ok
    writer_ok (exchange x) (ok, e) = (ok, ground (arith, ok.1))
    writer_ok (link a b) (j, lo, hi, eb, ea, e, front) =
        let ne = not_from_tail quiet a b (j, lo, hi, eb, ea, e, front) in
        (j, lo, hi, eb, ea, ground arith, λ z. absurd (ne (sym ea ∙ pre_front n s inv j z)))

    pub set_tail-Inv : at_front r ≡ false → s.taken < s.added → ReaderOk n s' r → Inv n s'
    set_tail-Inv back some_node ok = record {
      order = inv.order;
      fifo = inv.fifo;
      empty = inv.empty;
      last = inv.last;
      open_end = ground (arith, inv.open_end, head_not_tail some_node);
      valid = inv.valid;
      distinct = inv.distinct;
      linked = λ j lo hi front. elim (ℕ_discrete j s.taken) [
        | yes first ↦ cc (front first, back)
        | no inner ↦
            let ne : pre s j ≢ tail = λ z.
              (inv.valid (j - 1) (omega arith) (omega arith)).1
                (sym (pre_inner n s inv j inner) ∙ z) in
            elim (inv.linked j lo hi (λ z. absurd (inner z))) [
              | inl done ↦ inl (ground arith)
              | inr p ↦ inr p
            ]
      ];
      writers_ok = λ i h. writer_ok (s.writers i) (inv.writers_ok i h);
      apart = inv.apart;
      reader_ok = ok;
    }

  kept : (x f : ℕ) → f ≢ tail → update s.list.next tail x f ≡ s.list.next f
  kept x f ne = ground arith

  pub cut-Inv : (f : ℕ) → s.reader ≡ cut f → Inv n (read s (cut f))
  unfolding read
  cut-Inv f e =
      let ok : ReaderOk n s (cut f) = subst (ReaderOk n s) e inv.reader_ok in
      let some = (inv.valid s.taken (omega arith) ok.0).0 in
      set_tail-Inv null (swap f) (λ z. absurd (some (ok.1 ∙ sym ok.2 ∙ z))) refl ok.0
        (ok.0, ok.1, refl)

  pub join-Inv : (f x : ℕ) → s.reader ≡ join f x → Inv n (read s (join f x))
  unfolding read
  join-Inv f x e =
      let ok : ReaderOk n s (join f x) = subst (ReaderOk n s) e inv.reader_ok in
      let there = (next_first n s inv f (omega (arith, ok.0)) ok.1 (λ z. ok.4 (sym ok.3 ∙ z))).1 in
      let not_f : f ≢ tail =
        λ z. (inv.valid s.taken (omega arith) (omega (arith, ok.0))).1 (ok.1 ∙ z) in
      set_tail-Inv x (reset f) (λ z. ap at_front e) refl (omega (arith, ok.0))
        (ok.0, ok.1, sym ok.3 ∙ there, λ z. ok.4 (sym ok.3 ∙ sym (kept x f not_f) ∙ z))
