-- ===== src/IntrusiveList/Machine/Writers.antt =====
-- The accesses of WriterWriteFront keep the invariant.
use enki_ts.Base.{
  ℕ, ◌-◌, ◌<◌, ◌≤◌, ◌≡◌, ◌≢◌, inl, inr, refl, sym, subst, ap, ◌∙◌, true, false, arith, update,
  ℕ_discrete,
}
use enki_ts.IntrusiveList.{null, tail}
use enki_ts.IntrusiveList.Machine.{
  Writer, away, clear, exchange, link, Reader, resting, load_first, load_second, advance, cut, swap,
  await, reload, join, reset, System, node_of, Fresh, set_writer, write,
}
use enki_ts.IntrusiveList.Machine.Invariant.{pre, at_front, Pending, WriterOk, ReaderOk, Inv}

module _ (n : ℕ) (s : System) (inv : Inv n s) (i : ℕ) (h : i < n) where
  -- What another thread was about to link, it still is.
  pub still :
      (w : Writer) (a b : ℕ)
      → s.writers i ≢ link a b
      → Pending n s a b
      → (k : ℕ) × (k < n) × (update s.writers i w k ≡ link a b)
  still w a b not_it (k, hk, e) = (
    k,
    hk,
    elim (ℕ_discrete i k) [
      | yes it ↦ absurd (not_it (ap s.writers it ∙ e))
      | no other ↦ ground arith
    ],
  )

  pub here : (w : Writer) (k : ℕ) → i ≡ k → update s.writers i w k ≡ w
  here w k e = ground arith

  pub there : (w : Writer) (k : ℕ) → i ≢ k → update s.writers i w k ≡ s.writers k
  there w k ne = ground arith

  -- The writers are as before, but for `i`.
  pub turned :
      (P : Writer → Type 0) (w : Writer)
      → P w
      → ((k : ℕ) → k < n → i ≢ k → P (s.writers k))
      → (k : ℕ) → k < n
      → P (update s.writers i w k)
  turned P w own others k hk = elim (ℕ_discrete i k) [
    | yes it ↦ subst P (sym (here w k it)) own
    | no other ↦ subst P (sym (there w k other)) (others k hk other)
  ]

  pub apart_now :
      (w : Writer)
      → ((k : ℕ) → k < n → i ≢ k → node_of w ≢ null → node_of w ≢ node_of (s.writers k))
      → (j k : ℕ) → j < n
      → k < n
      → j ≢ k
      → node_of (update s.writers i w j) ≢ null
      → node_of (update s.writers i w j) ≢ node_of (update s.writers i w k)
  apart_now w own j k hj hk ne some_node e = elim (ℕ_discrete i j) [
    | yes mine ↦
        let at_j = ap node_of (here w j mine) in
        let other : i ≢ k = λ e'. ne (sym mine ∙ e') in
        own k hk other (λ z. some_node (at_j ∙ z)) (sym at_j ∙ e ∙ ap node_of (there w k other))
    | no not_j ↦
        let at_j = ap node_of (there w j not_j) in
        elim (ℕ_discrete i k) [
          | yes mine ↦
              let at_k = ap node_of (here w k mine) in
              own j hj not_j (λ z. some_node (e ∙ at_k ∙ z)) (sym at_k ∙ sym e ∙ at_j)
          | no not_k ↦
              inv.apart j k hj hk ne (λ z. some_node (at_j ∙ z))
                (sym at_j ∙ e ∙ ap node_of (there w k not_k))
        ]
  ]

  -- Of two threads that add a node, the nodes differ.
  pub differs :
      (w : Writer)
      → s.writers i ≡ w
      → (k : ℕ) → k < n
      → i ≢ k
      → node_of w ≢ null
      → node_of w ≢ node_of (s.writers k)
  differs w e k hk ne some_node z =
      inv.apart i k h hk ne (λ z'. some_node (sym (ap node_of e) ∙ z')) (ap node_of e ∙ z)

  pub first_ne :
      (f : ℕ)
      → s.taken < s.added
      → s.nth s.taken ≡ f
      → s.list.next tail ≡ f
      → s.list.next tail ≢ null
  first_ne f some_node e l z = (inv.valid s.taken (omega arith) some_node).0 (e ∙ sym l ∙ z)

  -- The node before the `j`-th is not one that is yet to be added.
  pub pre-ne : (x j : ℕ) → Fresh s x → s.taken ≤ j → j < s.added → pre s j ≢ x
  pre-ne x j (_, not_tail, not_in) lo hi e = elim (ℕ_discrete j s.taken) [
    | yes front ↦ not_tail (ground arith)
    | no inner ↦ not_in (j - 1) (omega arith) (omega arith) (ground arith)
  ]

  pub same_ok : (w w' : Writer) → WriterOk n s w' → WriterOk n (set_writer i w s) w'
  same_ok w away ok = ok
  same_ok w (clear x) ok = ok
  same_ok w (exchange x) ok = ok
  same_ok w (link a b) ok = ok

  first_kept :
      (next : ℕ → ℕ) (f : ℕ)
      → s.taken < s.added
      → s.nth s.taken ≡ f
      → (s.list.next (s.nth s.taken) ≢ null → next (s.nth s.taken) ≡ s.list.next (s.nth s.taken))
      → s.list.next f ≢ null
      → next f ≡ s.list.next f
  first_kept next f some_node e keep ne =
      subst (λ y. s.list.next y ≢ null → next y ≡ s.list.next y) e keep ne

  -- The owner's facts, where the links change only from null, and the one from `tail` only while the
  -- owner has not cut it.
  pub next_ReaderOk :
      (next : ℕ → ℕ) (writers : ℕ → Writer) (r : Reader)
      → (s.list.next tail ≢ null → next tail ≡ s.list.next tail)
      → (at_front r ≡ false → next tail ≡ s.list.next tail)
      → (s.taken < s.added
          → s.list.next (s.nth s.taken) ≢ null
          → next (s.nth s.taken) ≡ s.list.next (s.nth s.taken))
      → ReaderOk n s r
      → ReaderOk n
          (record s { list = record { head = s.list.head; next = next }; writers = writers })
          r
  next_ReaderOk next writers resting front back keep ok = tt
  next_ReaderOk next writers load_first front back keep ok = tt
  next_ReaderOk next writers (load_second f) front back keep (some_node, e, l) =
      (some_node, e, front (first_ne f some_node e l) ∙ l)
  next_ReaderOk next writers (advance f x) front back keep (some_node, e, l, l', ne) = (
    some_node,
    e,
    front (first_ne f some_node e l) ∙ l,
    first_kept next f some_node e (keep some_node) (λ z. ne (sym l' ∙ z)) ∙ l',
    ne,
  )
  next_ReaderOk next writers (cut f) front back keep (some_node, e, l) =
      (some_node, e, front (first_ne f some_node e l) ∙ l)
  next_ReaderOk next writers (swap f) front back keep (some_node, e, l) =
      (some_node, e, back refl ∙ l)
  next_ReaderOk next writers (await f) front back keep (more, e, l) = (more, e, back refl ∙ l)
  next_ReaderOk next writers (join f x) front back keep (more, e, l, l', ne) = (
    more,
    e,
    back refl ∙ l,
    first_kept next f (omega arith) e (keep (omega arith)) (λ z. ne (sym l' ∙ z)) ∙ l',
    ne,
  )
  next_ReaderOk next writers (reload f) front back keep (more, e, l, ne) = (
    more,
    e,
    back refl ∙ l,
    λ z. ne (sym (first_kept next f (omega arith) e (keep (omega arith)) ne) ∙ z),
  )
  next_ReaderOk next writers (reset f) front back keep (more, e, l, ne) = (
    more,
    e,
    back refl ∙ l,
    λ z. ne (sym (first_kept next f (omega arith) e (keep (omega arith)) ne) ∙ z),
  )

  -- A call of WriterWriteFront.
  pub call_write-Inv :
      (x : ℕ)
      → s.writers i ≡ away
      → Fresh s x
      → ((k : ℕ) → k < n → node_of (s.writers k) ≢ x)
      → Inv n (set_writer i (clear x) s)
  call_write-Inv x e fresh unused = record {
    order = inv.order;
    fifo = inv.fifo;
    empty = inv.empty;
    last = inv.last;
    open_end = inv.open_end;
    valid = inv.valid;
    distinct = inv.distinct;
    linked = λ j lo hi front. elim (inv.linked j lo hi front) [
      | inl done ↦ inl done
      | inr p ↦ inr (still (clear x) (pre s j) (s.nth j) (λ e'. cc (e, e')) p)
    ];
    writers_ok =
        turned (WriterOk n (set_writer i (clear x) s)) (clear x) fresh
          (λ k hk ne. same_ok (clear x) (s.writers k) (inv.writers_ok k hk));
    apart = apart_now (clear x) (λ k hk ne some_node z. unused k hk (sym z));
    reader_ok = inv.reader_ok;
  }

  clear_ok : (x : ℕ) (w : Writer) → WriterOk n s w → WriterOk n (write s i (clear x)) w
  unfolding write
  clear_ok x away ok = tt
  clear_ok x (clear y) ok = ok
  clear_ok x (exchange y) (fresh, e) = (fresh, ground arith)
  clear_ok x (link a b) (j, lo, hi, eb, ea, e, front) = (j, lo, hi, eb, ea, ground arith, front)

  pub clear-Inv : (x : ℕ) → s.writers i ≡ clear x → Inv n (write s i (clear x))
  unfolding write
  clear-Inv x e =
      let fresh : Fresh s x = subst (WriterOk n s) e (inv.writers_ok i h) in
      record {
        order = inv.order;
        fifo = inv.fifo;
        empty = inv.empty;
        last = inv.last;
        open_end = ground (arith, inv.open_end);
        valid = inv.valid;
        distinct = inv.distinct;
        linked = λ j lo hi front. elim (inv.linked j lo hi front) [
          | inl done ↦ inl (ground (arith, done, pre-ne x j fresh lo hi))
          | inr p ↦ inr (still (exchange x) (pre s j) (s.nth j) (λ e'. cc (e, e')) p)
        ];
        writers_ok =
            turned (WriterOk n (write s i (clear x))) (exchange x) (fresh, ground arith)
              (λ k hk ne. clear_ok x (s.writers k) (inv.writers_ok k hk));
        apart = apart_now (exchange x) (differs (clear x) e);
        reader_ok =
            next_ReaderOk (update s.list.next x null) (update s.writers i (exchange x)) s.reader
              (λ ne. ground (arith, fresh.1)) (λ back. ground (arith, fresh.1))
              (λ some_node ne. ground (arith, fresh.2 s.taken (omega arith) some_node))
              inv.reader_ok;
      }

  -- With no node in the list the owner is not on its way through one.
  pub empty-front : s.taken ≡ s.added → (r : Reader) → ReaderOk n s r → at_front r ≡ true
  empty-front e resting ok = refl
  empty-front e load_first ok = refl
  empty-front e (load_second f) ok = refl
  empty-front e (advance f x) ok = refl
  empty-front e (cut f) ok = refl
  empty-front e (swap f) (some_node, _, _) = absurd (omega arith)
  empty-front e (await f) (more, _, _) = absurd (omega arith)
  empty-front e (reload f) (more, _, _, _) = absurd (omega arith)
  empty-front e (join f x) (more, _, _, _, _) = absurd (omega arith)
  empty-front e (reset f) (more, _, _, _) = absurd (omega arith)
