-- ===== src/Cloud/Pages/Behind.antt =====
-- store.ts: the rows behind a cursor, in the order of a listing.
use quorvel.Common.{
  ◌≡◌, refl, ap, Bool, true, false, ◌&&◌, not, List, [], ◌∷◌, ◌++◌, arith, select, All, Bool-cases,
  inl, inr,
}
use quorvel.Common.Sorting.{insert_by, sort_by, IsSortedBy, IsOrder, sort_by-IsSortedBy}
use quorvel.Cloud.Actions.{StoredAction}
use quorvel.Cloud.Pages.{ActionCursor, cursor_of}

module _ (before : StoredAction → StoredAction → Bool) where
  -- the two rows do not stand at the same place
  abbrev pub apart : StoredAction → StoredAction → Bool
  apart x y = not (before x y && before y x)

  -- No two rows stand at the same place.
  abbrev pub IsDistinct : List StoredAction → Type 0
  IsDistinct [] = Unit
  IsDistinct (x ∷ xs) = All (λ y. apart x y ≡ true) xs × IsDistinct xs

  All-inserted :
      (P : StoredAction → Type 0) (x : StoredAction) (xs : List StoredAction)
      → P x
      → All P xs
      → All P (insert_by before x xs)
  unfolding insert_by
  All-inserted P x [] p h = (p, tt)
  All-inserted P x (y ∷ ys) p h = ground (arith, All-inserted P x ys p h.1)

  insert_by-IsDistinct :
      (x : StoredAction) (xs : List StoredAction)
      → All (λ y. apart x y ≡ true) xs
      → IsDistinct xs
      → IsDistinct (insert_by before x xs)
  unfolding insert_by
  insert_by-IsDistinct x [] h d = (tt, tt)
  insert_by-IsDistinct x (y ∷ ys) (h, hs) (d, ds) = elim (Bool-cases (before x y)) [
    | inl e ↦ rw e ((h, hs), (d, ds))
    | inr e ↦ rw e (
      All-inserted (λ z. apart y z ≡ true) x ys (ground arith) d,
      insert_by-IsDistinct x ys hs ds,
    )
  ]

  All-sorted :
      (P : StoredAction → Type 0) (xs : List StoredAction) → All P xs → All P (sort_by before xs)
  unfolding sort_by
  All-sorted P [] h = tt
  All-sorted P (x ∷ xs) (p, h) = All-inserted P x (sort_by before xs) p (All-sorted P xs h)

  sort_by-IsDistinct : (xs : List StoredAction) → IsDistinct xs → IsDistinct (sort_by before xs)
  unfolding sort_by
  sort_by-IsDistinct [] d = tt
  sort_by-IsDistinct (x ∷ xs) (h, d) =
      insert_by-IsDistinct x (sort_by before xs) (All-sorted (λ y. apart x y ≡ true) xs h)
        (sort_by-IsDistinct xs d)

module _ (before : StoredAction → StoredAction → Bool) (behind : ActionCursor → StoredAction → Bool)
    (order : IsOrder before)
    (agrees : (x y : StoredAction) → behind (cursor_of x.action) y ≡ not (before y x)) where
  -- whether a row is behind another
  abbrev after : StoredAction → StoredAction → Bool
  after x y = behind (cursor_of x.action) y

  not_after_itself : (x : StoredAction) → after x x ≡ false
  not_after_itself x = ground (arith, agrees x x, order.total x x)

  not_before : (x y : StoredAction) → after x y ≡ true → after y x ≡ false
  not_before x y h = ground (arith, agrees x y, agrees y x, order.total x y, order.total y x)

  -- in a list of rows that is sorted and without doubles, each has those behind it that follow
  All-after :
      (x : StoredAction) (xs : List StoredAction)
      → All (λ y. before x y ≡ true) xs
      → All (λ y. apart before x y ≡ true) xs
      → All (λ y. after x y ≡ true) xs
  All-after x [] h d = tt
  All-after x (y ∷ ys) (h, hs) (d, ds) = (ground (arith, agrees x y), All-after x ys hs ds)

  IsSortedBy-after :
      (xs : List StoredAction) → IsSortedBy before xs → IsDistinct before xs → IsSortedBy after xs
  IsSortedBy-after [] h d = tt
  IsSortedBy-after (x ∷ xs) (h, hs) (d, ds) = (All-after x xs h d, IsSortedBy-after xs hs ds)

  pub sorted-after :
      (xs : List StoredAction) → IsDistinct before xs → IsSortedBy after (sort_by before xs)
  sorted-after xs d =
      IsSortedBy-after (sort_by before xs) (sort_by-IsSortedBy before order xs)
        (sort_by-IsDistinct before xs d)

  select-All :
      (y : StoredAction) (ys : List StoredAction)
      → All (λ z. after y z ≡ true) ys
      → select (after y) ys ≡ ys
  select-All y [] h = refl
  select-All y (z ∷ zs) (h, hs) = rw h (ap (λ l. z ∷ l) (select-All y zs hs))

  All-at :
      (P : StoredAction → Type 0) (xs : List StoredAction) (y : StoredAction)
      (ys : List StoredAction)
      → All P (xs ++ y ∷ ys)
      → P y
  All-at P [] y ys (h, hs) = h
  All-at P (x ∷ xs) y ys (h, hs) = All-at P xs y ys hs

  -- the rows behind the cursor of a row are those that follow it
  pub select-after :
      (xs : List StoredAction) (y : StoredAction) (ys : List StoredAction)
      → IsSortedBy after (xs ++ y ∷ ys)
      → select (after y) (xs ++ y ∷ ys) ≡ ys
  select-after [] y ys (h, hs) = rw (not_after_itself y) (select-All y ys h)
  select-after (x ∷ xs) y ys (h, hs) =
      rw (not_before x y (All-at (λ z. after x z ≡ true) xs y ys h)) (select-after xs y ys hs)
