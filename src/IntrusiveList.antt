-- ===== src/IntrusiveList.antt =====
-- src/LockLessMultiReadPipe.h, class LocklessMultiWriteIntrusiveList: each operation as one
-- uninterrupted call, over a heap of nodes of which only the member pNext is kept.
pub mod Chain
pub mod Refine
pub mod Machine
use enki_ts.Base.{ℕ, Bool, Option, none, some, ◌==◌, if◌then◌else◌, update}

abbrev pub null : ℕ
null = 0

-- The address of the member `tail`.
abbrev pub tail : ℕ
tail = 1

-- `head` is the member `pHead`, and `next a` the member `pNext` of the node at `a`.
pub record IntrusiveList : Type 0 where
  pub head : ℕ
  pub next : ℕ → ℕ

-- The constructor; other nodes keep what they hold.
pub init : (ℕ → ℕ) → IntrusiveList
init next = record { head = tail; next = update next tail null }

pub is_list_empty : IntrusiveList → Bool
is_list_empty l = l.head == tail

-- `pPrev->pNext` is written last, through the old head.
pub writer_write_front : ℕ → IntrusiveList → IntrusiveList
writer_write_front node l =
    let cleared = update l.next node null in
    record { head = node; next = update cleared l.head node }

-- The branch for the last node of the list, after `tail.pNext = NULL`. If the compare and exchange
-- fails another thread has added a node and must link it before this one can go on: `none`.
read_last : ℕ → IntrusiveList → Option (ℕ × IntrusiveList)
read_last first l =
    if l.head == first
    then some (first, record l { head = tail })
    else if l.next first == null
    then none
    else some (first, record l { next = update (update l.next tail (l.next first)) first null })

-- The node that is returned, `null` if there is none.
pub reader_read_back : IntrusiveList → Option (ℕ × IntrusiveList)
unfolding read_last
reader_read_back l =
    let first = l.next tail in
    let second = l.next first in
    if first == null
    then some (null, l)
    else if second == null
    then read_last first (record l { next = update l.next tail null })
    else some (first, record l { next = update l.next tail second })
