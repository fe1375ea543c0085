-- ===== src/Common/Sorting.antt =====
-- `Array.sort` with a comparison, given as the test "`a` may stand before `b`". JavaScript's sort
-- is stable, so its result is the one that insertion from the right gives.
use mathlib.Core.Path.{◌≡◌, ◌∙◌, ap, refl}
use mathlib.Core.Logic.{inl, inr}
use mathlib.Core.Bool.{Bool, true, false}
use mathlib.Core.List.{List, [], ◌∷◌}
use native.Mathlib.Omega.{arith}
use quorvel.Common.Tests.{if◌then◌else◌, Bool-cases}
use quorvel.Common.Lists.{All}

module _ {ℓ} {A : Type ℓ} (before : A → A → Bool) where
  unfoldable pub insert_by : A → List A → List A
  insert_by x [] = x ∷ []
  insert_by x (y ∷ ys) = if before x y then x ∷ y ∷ ys else y ∷ insert_by x ys

  unfoldable pub sort_by : List A → List A
  unfolding insert_by
  sort_by [] = []
  sort_by (x ∷ xs) = insert_by x (sort_by xs)

  abbrev pub IsSortedBy : List A → Type 0
  IsSortedBy [] = Unit
  IsSortedBy (x ∷ xs) = All (λ y. before x y ≡ true) xs × IsSortedBy xs

  All-insert_by : (P : A → Type 0) (x : A) (xs : List A) → P x → All P xs → All P (insert_by x xs)
  unfolding insert_by
  All-insert_by P x [] p h = (p, tt)
  All-insert_by P x (y ∷ ys) p h = ground (arith, All-insert_by P x ys p h.1)

  pub All-sort_by : (P : A → Type 0) (xs : List A) → All P xs → All P (sort_by xs)
  unfolding sort_by
  All-sort_by P [] h = tt
  All-sort_by P (x ∷ xs) h = All-insert_by P x (sort_by xs) h.0 (All-sort_by P xs h.1)

-- the comparison is total and transitive
pub record IsOrder {ℓ} {A : Type ℓ} (before : A → A → Bool) : Type ℓ where
  pub total : (x y : A) → before x y ≡ false → before y x ≡ true
  pub trans : (x y z : A) → before x y ≡ true → before y z ≡ true → before x z ≡ true

module _ {ℓ} {A : Type ℓ} (before : A → A → Bool) (order : IsOrder before) where
  All-before_trans :
      (a b : A) (xs : List A)
      → before a b ≡ true
      → All (λ y. before b y ≡ true) xs
      → All (λ y. before a y ≡ true) xs
  All-before_trans a b [] h k = tt
  All-before_trans a b (x ∷ xs) h k = (order.trans a b x h k.0, All-before_trans a b xs h k.1)

  insert_by-IsSortedBy :
      (x : A) (xs : List A) → IsSortedBy before xs → IsSortedBy before (insert_by before x xs)
  unfolding insert_by
  insert_by-IsSortedBy x [] h = (tt, tt)
  insert_by-IsSortedBy x (y ∷ ys) h = elim (Bool-cases (before x y)) [
    | inl e ↦ rw e ((e, All-before_trans x y ys e h.0), h)
    | inr e ↦ rw e (
      All-insert_by before (λ z. before y z ≡ true) x ys (order.total x y e) h.0,
      insert_by-IsSortedBy x ys h.1,
    )
  ]

  pub sort_by-IsSortedBy : (xs : List A) → IsSortedBy before (sort_by before xs)
  unfolding sort_by
  sort_by-IsSortedBy [] = tt
  sort_by-IsSortedBy (x ∷ xs) = insert_by-IsSortedBy x (sort_by before xs) (sort_by-IsSortedBy xs)

-- Two comparisons that agree on what stands in a list sort it alike.
module _ {ℓ} {A : Type ℓ} (before earlier : A → A → Bool) (P : A → Type 0)
    (agree : (x y : A) → P x → P y → before x y ≡ earlier x y) where
  insert_by-ext :
      (x : A) (xs : List A) → P x → All P xs → insert_by before x xs ≡ insert_by earlier x xs
  unfolding insert_by
  insert_by-ext x [] p h = refl
  insert_by-ext x (y ∷ ys) p h = rw (agree x y p h.0, insert_by-ext x ys p h.1) refl

  pub sort_by-ext : (xs : List A) → All P xs → sort_by before xs ≡ sort_by earlier xs
  unfolding sort_by
  sort_by-ext [] h = refl
  sort_by-ext (x ∷ xs) h =
      ap (insert_by before x) (sort_by-ext xs h.1)
      ∙ insert_by-ext x (sort_by earlier xs) h.0 (All-sort_by earlier P xs h.1)
