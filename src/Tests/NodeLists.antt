-- ===== src/Tests/NodeLists.antt =====
-- An intrusive list with the nodes at 5 and 6, of which a call of ReaderReadBack takes the first.
use enki_ts.Base.{◌≡◌, refl, some, [], ◌∷◌, arith, update}
use enki_ts.IntrusiveList.{IntrusiveList, reader_read_back}
use enki_ts.IntrusiveList.Chain.{Holds}
use enki_ts.IntrusiveList.Refine.{reader_read_back-Reads}

abbrev two : IntrusiveList
two = record { head = 6; next = update (update (λ a. 0) 1 5) 5 6 }

two-Holds : Holds two (5 ∷ 6 ∷ [])
two-Holds = record { chain = ground arith; head = refl }

two-Reads : (l' : IntrusiveList) × (reader_read_back two ≡ some (5, l')) × Holds l' (6 ∷ [])
two-Reads = reader_read_back-Reads two (5 ∷ 6 ∷ []) two-Holds
