-- ===== src/IntrusiveList/Machine/Exchange.antt =====
-- The exchange of pHead in WriterWriteFront keeps the invariant.
use enki_ts.Base.{
  ℕ, ◌+◌, ◌<◌, ◌≤◌, ◌≡◌, ◌≢◌, ◌⊎◌, inl, inr, refl, sym, subst, ap, ◌∙◌, true, arith, update,
  ℕ_discrete,
}
use enki_ts.IntrusiveList.{null, tail}
use enki_ts.IntrusiveList.Machine.{
  Writer, away, clear, exchange, link, Reader, resting, load_first, load_second, advance, cut, swap,
  await, reload, join, reset, System, node_of, Fresh, write,
}
use enki_ts.IntrusiveList.Machine.Invariant.{pre, at_front, Pending, WriterOk, ReaderOk, Inv}
use enki_ts.IntrusiveList.Machine.Writers.{still, here, turned, apart_now, differs, empty-front}

module _ (n : ℕ) (s : System) (inv : Inv n s) (i : ℕ) (h : i < n) (x : ℕ)
    (e : s.writers i ≡ exchange x) where
  abbrev s' : System
  s' = record s {
    list = record { head = x; next = s.list.next };
    writers = update s.writers i (link s.list.head x);
    nth = update s.nth s.added x;
    added = s.added + 1;
  }

  new_nth : (j : ℕ) → j < s.added → s'.nth j ≡ s.nth j
  new_nth j hi = ground arith

  new_pre : (j : ℕ) → s.taken ≤ j → j < s.added → pre s' j ≡ pre s j
  new_pre j lo hi = ground arith

  -- The node before the new one was the head.
  last_pre : pre s' s.added ≡ s.list.head
  last_pre = elim (ℕ_discrete s.added s.taken) [
    | yes none ↦ ground (arith, inv.empty)
    | no some ↦ ground (arith, inv.last, inv.order)
  ]

  link_cong : {a a' b b' : ℕ} → a ≡ a' → b ≡ b' → link a b ≡ link a' b'
  link_cong ea eb = rw (ea, eb)

  fresh : Fresh s x × (s.list.next x ≡ null)
  fresh = subst (WriterOk n s) e (inv.writers_ok i h)

  old_or_new : (j : ℕ) → j < s.added + 1 → (j < s.added) ⊎ (j ≡ s.added)
  old_or_new j hi = elim (ℕ_discrete j s.added) [ yes new ↦ inr new | no old ↦ inl (omega arith) ]

  new_at : s'.nth s.added ≡ x
  new_at = ground arith

  exchange_Fresh : (y : ℕ) → x ≢ y → Fresh s y → Fresh s' y
  exchange_Fresh y ne (not_null, not_tail, not_in) = (
    not_null,
    not_tail,
    λ j lo hi. elim (old_or_new j hi) [
      | inl old ↦ λ z. not_in j lo old (sym (new_nth j old) ∙ z)
      | inr new ↦ λ z. ne (sym new_at ∙ ap s'.nth (sym new) ∙ z)
    ],
  )

  exchange_ok : (w : Writer) → (node_of w ≢ null → node_of w ≢ x) → WriterOk n s w → WriterOk n s' w
  exchange_ok away ne ok = tt
  exchange_ok (clear y) ne ok = exchange_Fresh y (λ z. ne ok.0 (sym z)) ok
  exchange_ok (exchange y) ne (ok, e') = (exchange_Fresh y (λ z. ne ok.0 (sym z)) ok, e')
  exchange_ok (link a b) ne (j, lo, hi, eb, ea, e', front) =
      (j, lo, omega arith, new_nth j hi ∙ eb, new_pre j lo hi ∙ ea, e', front)

  exchange_reader : (r : Reader) → ReaderOk n s r → ReaderOk n s' r
  exchange_reader resting ok = tt
  exchange_reader load_first ok = tt
  exchange_reader (load_second f) (some_node, e', l) =
      (omega arith, new_nth s.taken some_node ∙ e', l)
  exchange_reader (advance f y) (some_node, e', l, l', ne) =
      (omega arith, new_nth s.taken some_node ∙ e', l, l', ne)
  exchange_reader (cut f) (some_node, e', l) = (omega arith, new_nth s.taken some_node ∙ e', l)
  exchange_reader (swap f) (some_node, e', l) = (omega arith, new_nth s.taken some_node ∙ e', l)
  exchange_reader (await f) (more, e', l) = (omega arith, new_nth s.taken (omega arith) ∙ e', l)
  exchange_reader (reload f) (more, e', l, ne) =
      (omega arith, new_nth s.taken (omega arith) ∙ e', l, ne)
  exchange_reader (join f y) (more, e', l, l', ne) =
      (omega arith, new_nth s.taken (omega arith) ∙ e', l, l', ne)
  exchange_reader (reset f) (more, e', l, ne) =
      (omega arith, new_nth s.taken (omega arith) ∙ e', l ∙ sym (new_nth (s.taken + 1) more), ne)

  own : WriterOk n s' (link s.list.head x)
  own = (
    s.added,
    inv.order,
    omega arith,
    new_at,
    last_pre,
    inv.open_end,
    λ z. empty-front n s inv i h (sym z) s.reader inv.reader_ok,
  )

  mine : Pending n s' (pre s' s.added) (s'.nth s.added)
  mine =
      (i, h, here n s inv i h (link s.list.head x) i refl ∙ link_cong (sym last_pre) (sym new_at))

  exchange_valid : (j : ℕ) → s.taken ≤ j → j < s.added + 1 → (s'.nth j ≢ null) × (s'.nth j ≢ tail)
  exchange_valid j lo hi = elim (old_or_new j hi) [
    | inl old ↦ subst (λ y. (y ≢ null) × (y ≢ tail)) (sym (new_nth j old)) (inv.valid j lo old)
    | inr new ↦
        subst (λ y. (y ≢ null) × (y ≢ tail)) (sym (ap s'.nth new ∙ new_at)) (fresh.0.0, fresh.0.1)
  ]

  exchange_distinct : (j k : ℕ) → s.taken ≤ j → j < k → k < s.added + 1 → s'.nth j ≢ s'.nth k
  exchange_distinct j k lo lt hi = elim (old_or_new k hi) [
    | inl old ↦ λ z. inv.distinct j k lo lt old (sym (new_nth j (omega arith)) ∙ z ∙ new_nth k old)
    | inr new ↦ λ z.
        fresh.0.2 j lo (omega arith) (sym (new_nth j (omega arith)) ∙ z ∙ ap s'.nth new ∙ new_at)
  ]

  exchange_linked :
      (j : ℕ)
      → s.taken ≤ j
      → j < s.added + 1
      → (j ≡ s.taken → at_front s.reader ≡ true)
      → (s.list.next (pre s' j) ≡ s'.nth j) ⊎ Pending n s' (pre s' j) (s'.nth j)
  exchange_linked j lo hi front = elim (old_or_new j hi) [
    | inl old ↦ elim (inv.linked j lo old front) [
      | inl done ↦ inl (ap s.list.next (new_pre j lo old) ∙ done ∙ sym (new_nth j old))
      | inr p ↦
          let (k, hk, z) =
            still n s inv i h (link s.list.head x) (pre s j) (s.nth j) (λ z. cc (e, z)) p in
          inr (k, hk, z ∙ link_cong (sym (new_pre j lo old)) (sym (new_nth j old)))
    ]
    | inr new ↦ inr (subst (λ j. Pending n s' (pre s' j) (s'.nth j)) (sym new) mine)
  ]

  pub exchange-Inv : Inv n (write s i (exchange x))
  unfolding write
  exchange-Inv = record {
    order = omega (arith, inv.order);
    fifo = λ k hk. inv.fifo k hk ∙ sym (new_nth k (omega (arith, inv.order)));
    empty = λ z. absurd (omega (arith, inv.order));
    last = λ some. ground arith;
    open_end = fresh.1;
    valid = exchange_valid;
    distinct = exchange_distinct;
    linked = exchange_linked;
    writers_ok = turned n s inv i h (WriterOk n s') (link s.list.head x) own (λ k hk ne.
        exchange_ok (s.writers k)
          (λ some_node z. inv.apart k i hk h (λ z'. ne (sym z')) some_node (z ∙ sym (ap node_of e)))
          (inv.writers_ok k hk));
    apart = apart_now n s inv i h (link s.list.head x) (differs n s inv i h (exchange x) e);
    reader_ok = exchange_reader s.reader inv.reader_ok;
  }
