-- ===== src/IntrusiveList/Machine/Link.antt =====
-- The write of a node through pPrev in WriterWriteFront keeps the invariant.
use enki_ts.Base.{
  ℕ, ◌-◌, ◌<◌, ◌≤◌, ◌≡◌, ◌≢◌, ◌⊎◌, inl, inr, refl, sym, subst, ap, ◌∙◌, true, false, arith, update,
  ℕ_discrete, dec_lt,
}
use enki_ts.IntrusiveList.{null, tail}
use enki_ts.IntrusiveList.Machine.{Writer, away, clear, exchange, link, System, node_of, write}
use enki_ts.IntrusiveList.Machine.Invariant.{pre, at_front, Pending, WriterOk, Inv}
use enki_ts.IntrusiveList.Machine.Writers.{
  still, turned, apart_now, pre-ne, next_ReaderOk, clear-Inv,
}
use enki_ts.IntrusiveList.Machine.Exchange.{exchange-Inv}

module _ (n : ℕ) (s : System) (inv : Inv n s) where
  nth_injective :
      (j k : ℕ) → s.taken ≤ j → j < s.added → s.taken ≤ k → k < s.added → s.nth j ≡ s.nth k → j ≡ k
  nth_injective j k lo hi lo' hi' e = elim (ℕ_discrete j k) [
    | yes same ↦ same
    | no ne ↦ elim (dec_lt j k) [
      | yes lt ↦ absurd (inv.distinct j k lo lt hi' e)
      | no le ↦ absurd (inv.distinct k j lo' (omega arith) hi (sym e))
    ]
  ]

  pub pre_front : (j : ℕ) → j ≡ s.taken → pre s j ≡ tail
  pre_front j e = ground arith

  pub pre_inner : (j : ℕ) → j ≢ s.taken → pre s j ≡ s.nth (j - 1)
  pre_inner j ne = ground arith

  -- No two places of the list have the same node before them.
  pub pre_injective :
      (j k : ℕ) → s.taken ≤ j → j < s.added → s.taken ≤ k → k < s.added → pre s j ≡ pre s k → j ≡ k
  pre_injective j k lo hi lo' hi' e = elim (ℕ_discrete j s.taken) [
    | yes front ↦ elim (ℕ_discrete k s.taken) [
      | yes front' ↦ omega arith
      | no inner ↦ absurd (
          (inv.valid (k - 1) (omega arith) (omega arith)).1
            (sym (pre_inner k inner) ∙ sym e ∙ pre_front j front))
    ]
    | no inner ↦ elim (ℕ_discrete k s.taken) [
      | yes front ↦ absurd (
          (inv.valid (j - 1) (omega arith) (omega arith)).1
            (sym (pre_inner j inner) ∙ e ∙ pre_front k front))
      | no inner' ↦
          let same =
            nth_injective (j - 1) (k - 1) (omega arith) (omega arith) (omega arith) (omega arith)
              (sym (pre_inner j inner) ∙ e ∙ pre_inner k inner') in
          omega arith
    ]
  ]

  -- The head is before no place of the list.
  pub pre-head : (j : ℕ) → s.taken ≤ j → j < s.added → pre s j ≢ s.list.head
  pre-head j lo hi e = elim (ℕ_discrete j s.taken) [
    | yes front ↦
        (inv.valid (s.added - 1) (omega arith) (omega arith)).1
          (sym (inv.last (omega arith)) ∙ sym e ∙ pre_front j front)
    | no inner ↦
        inv.distinct (j - 1) (s.added - 1) (omega arith) (omega arith) (omega arith)
          (sym (pre_inner j inner) ∙ e ∙ inv.last (omega arith))
  ]

module _ (n : ℕ) (s : System) (inv : Inv n s) (i : ℕ) (h : i < n) (a b : ℕ)
    (e : s.writers i ≡ link a b) where
  abbrev s' : System
  s' = record s {
    list = record { head = s.list.head; next = update s.list.next a b };
    writers = update s.writers i away;
  }

  own : WriterOk n s (link a b)
  own = subst (WriterOk n s) e (inv.writers_ok i h)

  lo : s.taken ≤ own.0
  lo = own.1

  hi : own.0 < s.added
  hi = own.2

  at_a : pre s own.0 ≡ a
  at_a = own.4

  unset : s.list.next a ≡ null
  unset = own.5

  not_tail : at_front s.reader ≡ false → a ≢ tail
  not_tail back z = elim (ℕ_discrete own.0 s.taken) [
    | yes front ↦ cc (own.6 front, back)
    | no inner ↦
        (inv.valid (own.0 - 1) (omega (arith, lo)) (omega (arith, hi))).1
          (sym (pre_inner n s inv own.0 inner) ∙ at_a ∙ z)
  ]

  link_linked :
      (j : ℕ)
      → s.taken ≤ j
      → j < s.added
      → (j ≡ s.taken → at_front s.reader ≡ true)
      → (s'.list.next (pre s j) ≡ s.nth j) ⊎ Pending n s' (pre s j) (s.nth j)
  link_linked j lo' hi' front = elim (ℕ_discrete (pre s j) a) [
    | yes it ↦
        let same = pre_injective n s inv j own.0 lo' hi' lo hi (it ∙ sym at_a) in
        inl (ap s'.list.next it ∙ ground arith ∙ sym own.3 ∙ ap s.nth (sym same))
    | no other ↦ elim (inv.linked j lo' hi' front) [
      | inl done ↦ inl (ground arith)
      | inr p ↦ inr (still n s inv i h away (pre s j) (s.nth j) (λ z. other cc (e, z)) p)
    ]
  ]

  link_ok : (w : Writer) → (node_of w ≢ null → node_of w ≢ b) → WriterOk n s w → WriterOk n s' w
  link_ok away ne ok = tt
  link_ok (clear y) ne ok = ok
  link_ok (exchange y) ne (ok, z) =
      (ok, ground (arith, z, pre-ne n s inv i h y own.0 ok lo hi, at_a))
  link_ok (link a' b') ne (j, lo', hi', eb, ea, z, front) =
      let other : a' ≢ a = λ same.
        let there = pre_injective n s inv j own.0 lo' hi' lo hi (ea ∙ same ∙ sym at_a) in
        ne (λ null_b. (inv.valid j lo' hi').0 (eb ∙ null_b)) (sym eb ∙ ap s.nth there ∙ own.3) in
      (j, lo', hi', eb, ea, ground arith, front)

  pub link-Inv : Inv n (write s i (link a b))
  unfolding write
  link-Inv = record {
    order = inv.order;
    fifo = inv.fifo;
    empty = inv.empty;
    last = inv.last;
    open_end = ground (arith, inv.open_end, pre-head n s inv own.0 lo hi, at_a);
    valid = inv.valid;
    distinct = inv.distinct;
    linked = link_linked;
    writers_ok = turned n s inv i h (WriterOk n s') away tt (λ k hk ne.
        link_ok (s.writers k)
          (λ some_node z. inv.apart k i hk h (λ z'. ne (sym z')) some_node (z ∙ sym (ap node_of e)))
          (inv.writers_ok k hk));
    apart = apart_now n s inv i h away (λ k hk ne some_node z. some_node refl);
    reader_ok =
        next_ReaderOk n s inv i h (update s.list.next a b) (update s.writers i away) s.reader
          (λ ne. ground (arith, unset)) (λ back. ground (arith, not_tail back))
          (λ some ne. ground (arith, unset)) inv.reader_ok;
  }

-- Every access of WriterWriteFront keeps the invariant.
pub write-Inv :
    (n : ℕ) (s : System)
    → Inv n s
    → (i : ℕ) → i < n
    → (w : Writer) → s.writers i ≡ w
    → Inv n (write s i w)
unfolding write
write-Inv n s inv i h away e = inv
write-Inv n s inv i h (clear x) e = clear-Inv n s inv i h x e
write-Inv n s inv i h (exchange x) e = exchange-Inv n s inv i h x e
write-Inv n s inv i h (link a b) e = link-Inv n s inv i h a b e
