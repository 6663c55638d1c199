-- ===== src/IntrusiveList/Machine/Invariant.antt =====
-- What every reachable state of `IntrusiveList/Machine.antt` satisfies.
use enki_ts.Base.{
  ℕ, ◌+◌, ◌-◌, ◌<◌, ◌≤◌, ◌≡◌, ◌≢◌, ◌⊎◌, refl, Bool, true, false, arith, ◌==◌, if◌then◌else◌,
}
use enki_ts.IntrusiveList.{null, tail}
use enki_ts.IntrusiveList.Machine.{
  Writer, away, clear, exchange, link, Reader, resting, load_first, load_second, advance, cut, swap,
  await, reload, join, reset, System, start, node_of, Fresh,
}

-- The node before the `j`-th in the list.
abbrev pub pre : System → ℕ → ℕ
pre s j = if j == s.taken then tail else s.nth (j - 1)

-- The owner has not cut the link from `tail` to the oldest node.
abbrev pub at_front : Reader → Bool
at_front resting = true
at_front load_first = true
at_front (load_second first) = true
at_front (advance first second) = true
at_front (cut first) = true
at_front _ = false

module _ (n : ℕ) where
  -- One of the threads is about to link `a` to `b`.
  abbrev pub Pending : System → ℕ → ℕ → Type 0
  Pending s a b = (k : ℕ) × (k < n) × (s.writers k ≡ link a b)

  abbrev pub WriterOk : System → Writer → Type 0
  WriterOk s away = Unit {0}
  WriterOk s (clear x) = Fresh s x
  WriterOk s (exchange x) = Fresh s x × (s.list.next x ≡ null)
  WriterOk s (link a b) =
      (j : ℕ) × (s.taken ≤ j)
      × (j < s.added)
      × (s.nth j ≡ b)
      × (pre s j ≡ a)
      × (s.list.next a ≡ null)
      × (j ≡ s.taken → at_front s.reader ≡ true)

  abbrev pub ReaderOk : System → Reader → Type 0
  ReaderOk s resting = Unit {0}
  ReaderOk s load_first = Unit {0}
  ReaderOk s (load_second f) = (s.taken < s.added) × (s.nth s.taken ≡ f) × (s.list.next tail ≡ f)
  ReaderOk s (advance f x) =
      (s.taken < s.added)
      × (s.nth s.taken ≡ f)
      × (s.list.next tail ≡ f)
      × (s.list.next f ≡ x)
      × (x ≢ null)
  ReaderOk s (cut f) = (s.taken < s.added) × (s.nth s.taken ≡ f) × (s.list.next tail ≡ f)
  ReaderOk s (swap f) = (s.taken < s.added) × (s.nth s.taken ≡ f) × (s.list.next tail ≡ null)
  ReaderOk s (await f) = (s.taken + 1 < s.added) × (s.nth s.taken ≡ f) × (s.list.next tail ≡ null)
  ReaderOk s (reload f) =
      (s.taken + 1 < s.added)
      × (s.nth s.taken ≡ f)
      × (s.list.next tail ≡ null)
      × (s.list.next f ≢ null)
  ReaderOk s (join f x) =
      (s.taken + 1 < s.added)
      × (s.nth s.taken ≡ f)
      × (s.list.next tail ≡ null)
      × (s.list.next f ≡ x)
      × (x ≢ null)
  ReaderOk s (reset f) =
      (s.taken + 1 < s.added)
      × (s.nth s.taken ≡ f)
      × (s.list.next tail ≡ s.nth (s.taken + 1))
      × (s.list.next f ≢ null)

  pub record Inv (s : System) : Type 0 where
    pub order : s.taken ≤ s.added
    pub fifo : (k : ℕ) → k < s.taken → s.returned k ≡ s.nth k
    pub empty : s.taken ≡ s.added → s.list.head ≡ tail
    pub last : s.taken < s.added → s.list.head ≡ s.nth (s.added - 1)
    pub open_end : s.list.next s.list.head ≡ null
    pub valid : (j : ℕ) → s.taken ≤ j → j < s.added → (s.nth j ≢ null) × (s.nth j ≢ tail)
    pub distinct : (j k : ℕ) → s.taken ≤ j → j < k → k < s.added → s.nth j ≢ s.nth k
    pub linked :
        (j : ℕ)
        → s.taken ≤ j
        → j < s.added
        → (j ≡ s.taken → at_front s.reader ≡ true)
        → (s.list.next (pre s j) ≡ s.nth j) ⊎ Pending s (pre s j) (s.nth j)
    pub writers_ok : (i : ℕ) → i < n → WriterOk s (s.writers i)
    pub apart :
        (i k : ℕ)
        → i < n
        → k < n
        → i ≢ k
        → node_of (s.writers i) ≢ null
        → node_of (s.writers i) ≢ node_of (s.writers k)
    pub reader_ok : ReaderOk s s.reader

  pub start-Inv : (next : ℕ → ℕ) → Inv (start next)
  start-Inv next = record {
    order = omega arith;
    fifo = λ k h. absurd (omega arith);
    empty = λ e. refl;
    last = λ h. absurd (omega arith);
    open_end = refl;
    valid = λ j lo hi. absurd (omega arith);
    distinct = λ j k lo lt hi. absurd (omega arith);
    linked = λ j lo hi front. absurd (omega arith);
    writers_ok = λ i h. tt;
    apart = λ i k hi hk ne some_node. absurd (some_node refl);
    reader_ok = tt;
  }
