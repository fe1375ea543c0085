-- ===== src/Cloud/Pages/Build.antt =====
-- store.ts, `buildActionPage`: a page that is full, and the last one.
use quorvel.Common.{
  String, ℕ, zero, suc, ◌≤◌, ◌≡◌, ◌⊎◌, refl, ap, inl, inr, true, false, none, some, List, [], ◌∷◌,
  ◌++◌, map, arith, ltb, length, take,
}
use quorvel.Ledger.{ActionRecord}
use quorvel.Cloud.Actions.{StoredAction, to_record}
use quorvel.Cloud.Pages.{ActionCursor, cursor_of, last, build_action_page}

-- the page of a list that goes on behind it
pub last-map :
    (xs : List StoredAction) (a : StoredAction)
    → last (map to_record (xs ++ a ∷ [])) ≡ some a.action
last-map [] a = refl
last-map (x ∷ []) a = refl
last-map (x ∷ y ∷ xs) a = last-map (y ∷ xs) a

length-map-two :
    (xs : List StoredAction) (a z : StoredAction)
    → length (map to_record (xs ++ a ∷ z ∷ [])) ≡ suc (suc (length xs))
length-map-two [] a z = refl
length-map-two (x ∷ xs) a z = ap suc (length-map-two xs a z)

take-map-two :
    (xs : List StoredAction) (a z : StoredAction)
    → take (suc (length xs)) (map to_record (xs ++ a ∷ z ∷ [])) ≡ map to_record (xs ++ a ∷ [])
take-map-two [] a z = refl
take-map-two (x ∷ xs) a z = ap (λ l. x.action ∷ l) (take-map-two xs a z)

pub build_action_page-full :
    (encode : ActionCursor → String) (xs : List StoredAction) (a z : StoredAction)
    → build_action_page encode (map to_record (xs ++ a ∷ z ∷ [])) (suc (length xs)) ≡ record {
      items = map to_record (xs ++ a ∷ []);
      next_cursor = some (encode (cursor_of a.action));
    }
unfolding build_action_page
build_action_page-full encode xs a z =
    let more : ltb (suc (length xs)) (length (map to_record (xs ++ a ∷ z ∷ []))) ≡ true =
      rw (length-map-two xs a z) (ground arith) in
    rw (build_action_page, more, take-map-two xs a z, last-map xs a) refl

pub build_action_page-last :
    (encode : ActionCursor → String) (xs : List ActionRecord) (size : ℕ)
    → length xs ≤ size
    → build_action_page encode xs size ≡ record { items = xs; next_cursor = none }
unfolding build_action_page
build_action_page-last encode xs size h =
    let more : ltb size (length xs) ≡ false = ground (arith, h) in rw (build_action_page, more) refl

-- a list is no longer than a page, or it is a page with rows behind it
pub split_page :
    (n : ℕ) (ys : List StoredAction)
    → (length ys ≤ suc n)
      ⊎ ((xs : List StoredAction) × (a : StoredAction) × (z : StoredAction) × (zs : List
            StoredAction)
          × (ys ≡ xs ++ a ∷ z ∷ zs)
          × (length xs ≡ n))
split_page n [] = inl (omega arith)
split_page zero (y ∷ []) = inl (omega arith)
split_page zero (y ∷ z ∷ zs) = inr ([], y, z, zs, refl, refl)
split_page (suc n) (y ∷ ys) = elim (split_page n ys) [
  | inl h ↦ inl (omega (arith, h))
  | inr (xs, a, z, zs, e, l) ↦ inr (y ∷ xs, a, z, zs, ap (λ t. y ∷ t) e, ap suc l)
]

pub take-split :
    (xs : List StoredAction) (a z : StoredAction) (zs : List StoredAction)
    → take (suc (suc (length xs))) (xs ++ a ∷ z ∷ zs) ≡ xs ++ a ∷ z ∷ []
take-split [] a z zs = refl
take-split (x ∷ xs) a z zs = ap (λ l. x ∷ l) (take-split xs a z zs)

pub take-short : (n : ℕ) (ys : List StoredAction) → length ys ≤ n → take n ys ≡ ys
take-short zero [] h = refl
take-short zero (y ∷ ys) h = let bad : ⊥ = omega (arith, h) in elim bad [ ]
take-short (suc n) [] h = refl
take-short (suc n) (y ∷ ys) h = ap (λ l. y ∷ l) (take-short n ys (omega (arith, h)))

pub length-map : (ys : List StoredAction) → length (map to_record ys) ≡ length ys
length-map [] = refl
length-map (y ∷ ys) = ap suc (length-map ys)
