-- ===== src/Pipe/Deque.antt =====
-- What a pipe promises a single caller: a bounded double-ended queue, oldest item first.
use enki_ts.Base.{
  ℕ, ◌≡◌, refl, ap, Bool, true, false, Option, none, some, List, [], ◌∷◌, ◌++◌, ltb, length,
  if◌then◌else◌,
}

-- What a client can ask of a pipe: a reader's call and the two calls of the writer.
pub data Call (T : Type 0) : Type 0 where
  read_back : Call T
  read_front : Call T
  write_front : T → Call T

-- What a call returns: its result, and what goes out through `pOut`.
abbrev pub Reply : Type 0 → Type 0
Reply T = Bool × Option T

module _ {T : Type 0} where
  abbrev pub take_back : List T → Reply T × List T
  take_back [] = ((false, none), [])
  take_back (x ∷ xs) = ((true, some x), xs)

  abbrev pub last_from : T → List T → T × List T
  last_from x [] = (x, [])
  last_from x (y ∷ ys) = let (v, r) = last_from y ys in (v, x ∷ r)

  abbrev pub take_front : List T → Reply T × List T
  take_front [] = ((false, none), [])
  take_front (x ∷ xs) = let (v, r) = last_from x xs in ((true, some v), r)

  abbrev pub put_front : ℕ → T → List T → Reply T × List T
  put_front size x xs =
      if ltb (length xs) size then ((true, none), xs ++ x ∷ []) else ((false, none), xs)

  abbrev pub serve : ℕ → Call T → List T → Reply T × List T
  serve size read_back xs = take_back xs
  serve size read_front xs = take_front xs
  serve size (write_front x) xs = put_front size x xs

  -- The replies to a sequence of calls.
  unfoldable pub replies : ℕ → List (Call T) → List T → List (Reply T)
  replies size [] xs = []
  replies size (c ∷ cs) xs = let (r, ys) = serve size c xs in r ∷ replies size cs ys

  last_from-append : (y x : T) (ys : List T) → last_from y (ys ++ x ∷ []) ≡ (x, y ∷ ys)
  last_from-append y x [] = refl
  last_from-append y x (z ∷ ys) = ap (λ (p : T × List T). (p.0, y ∷ p.1)) (last_from-append z x ys)

  pub take_front-append : (x : T) (ys : List T) → take_front (ys ++ x ∷ []) ≡ ((true, some x), ys)
  take_front-append x [] = refl
  take_front-append x (y ∷ ys) =
      ap (λ (p : T × List T). ((true, some p.0), p.1)) (last_from-append y x ys)
