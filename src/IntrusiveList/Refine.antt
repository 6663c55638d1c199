-- ===== src/IntrusiveList/Refine.antt =====
-- Calls that do not overlap make an intrusive list a queue of nodes.
use enki_ts.Base.{
  ℕ, ◌≡◌, ◌≢◌, ◌↔◌, refl, sym, true, false, some, List, [], ◌∷◌, ◌++◌, arith, update,
}
use enki_ts.IntrusiveList.{
  null, tail, IntrusiveList, init, is_list_empty, writer_write_front, reader_read_back,
}
use enki_ts.IntrusiveList.Chain.{has, Holds, newest-ne, newest-append, Chain-update, Chain-append}

pub init-Holds : (next : ℕ → ℕ) → Holds (init next) []
unfolding init
init-Holds next = record { chain = ground arith; head = refl }

-- A node that is not in the list is added behind the newest one.
pub writer_write_front-Holds :
    (l : IntrusiveList) (xs : List ℕ) (n : ℕ)
    → Holds l xs
    → n ≢ null
    → has n (tail ∷ xs) ≡ false
    → Holds (writer_write_front n l) (xs ++ n ∷ [])
unfolding writer_write_front
writer_write_front-Holds l xs n h nz out = record {
  chain = rw h.head (
      Chain-append (update l.next n null) tail xs n out nz (ground arith)
        (Chain-update l.next tail xs n null out h.chain));
  head = sym (newest-append tail xs n);
}

-- An empty list gives no node and stays as it is; any other gives its oldest node and keeps the
-- rest in order.
abbrev pub Reads : IntrusiveList → List ℕ → Type 0
Reads l [] = reader_read_back l ≡ some (null, l)
Reads l (x ∷ xs) = (l' : IntrusiveList) × (reader_read_back l ≡ some (x, l')) × Holds l' xs

pub reader_read_back-Reads : (l : IntrusiveList) (xs : List ℕ) → Holds l xs → Reads l xs
unfolding reader_read_back
reader_read_back-Reads l [] h = ground (arith, h.chain)
reader_read_back-Reads l (x ∷ []) h = (
  record { head = tail; next = update l.next tail null },
  ground (arith, h.chain, h.head),
  record { chain = ground arith; head = refl },
)
reader_read_back-Reads l (x ∷ y ∷ xs) h = (
  record { head = l.head; next = update l.next tail y },
  ground (arith, h.chain, h.head),
  record {
    chain = (
      refl,
      h.chain.3.1,
      ground (arith, h.chain.2),
      Chain-update l.next y xs tail y (ground (arith, h.chain.2)) h.chain.3.3,
    );
    head = h.head;
  },
)

-- The list says that it is empty exactly when it holds no node.
pub is_list_empty_iff :
    (l : IntrusiveList) (xs : List ℕ) → Holds l xs → (is_list_empty l ≡ true) ↔ (xs ≡ [])
unfolding is_list_empty
is_list_empty_iff l [] h = (λ e. refl, λ e. ground (arith, h.head))
is_list_empty_iff l (x ∷ xs) h =
    (λ e. ground (arith, h.head, h.chain, newest-ne x xs tail h.chain.2), λ e. cc)
