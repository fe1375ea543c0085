-- ===== src/Cloud/Pages/Walk.antt =====
-- store.ts: following the cursors of a listing from its first page to its last.
use quorvel.Common.{
  ℕ, zero, suc, ◌+◌, ◌≤◌, ◌<◌, ◌≡◌, ◌∙◌, refl, ap, sym, subst, inl, inr, Bool, not, Option, none,
  some, List, [], ◌∷◌, ◌++◌, map, append-nil, append_assoc, arith, leb, length, select, take,
  String, Bool-cases,
}
use quorvel.Common.Sorting.{insert_by, sort_by, IsSortedBy, IsOrder}
use quorvel.Ledger.{ActionRecord}
use quorvel.Cloud.Pages.Behind.{IsDistinct, sorted-after, select-after}
use quorvel.Cloud.Pages.Build.{
  build_action_page-full, build_action_page-last, split_page, take-split, take-short, length-map,
}
use quorvel.Cloud.Actions.{StoredAction, to_record}
use quorvel.Cloud.Pages.{
  ActionCursor, ActionPage, clamp_page_size, cursor_of, build_action_page, page_of,
}

-- The items of the pages that a client gets who sends back the cursors, up to a number of pages. A
-- cursor that is malformed gets none.
unfoldable pub walk :
    (String → Option ActionCursor)
    → (Option ActionCursor → ActionPage)
    → ℕ
    → Option ActionCursor
    → List ActionRecord
walk decode page zero c = []
walk decode page (suc n) c = (page c).items ++ elim (page c).next_cursor [
  | none ↦ []
  | some text ↦ elim (decode text) [ none ↦ [] | some c' ↦ walk decode page n (some c') ]
]

length-insert_by :
    (before : StoredAction → StoredAction → Bool) (x : StoredAction) (xs : List StoredAction)
    → length (insert_by before x xs) ≡ suc (length xs)
unfolding insert_by
length-insert_by before x [] = refl
length-insert_by before x (y ∷ ys) = ground (arith, length-insert_by before x ys)

length-sort_by :
    (before : StoredAction → StoredAction → Bool) (xs : List StoredAction)
    → length (sort_by before xs) ≡ length xs
unfolding sort_by
length-sort_by before [] = refl
length-sort_by before (x ∷ xs) =
    length-insert_by before x (sort_by before xs) ∙ ap suc (length-sort_by before xs)

clamp_page_size-positive : (limit : Option ℕ) → (n : ℕ) × (clamp_page_size limit ≡ suc n)
unfolding clamp_page_size
clamp_page_size-positive none = (99, refl)
clamp_page_size-positive (some zero) = (0, refl)
clamp_page_size-positive (some (suc n)) = elim (Bool-cases (leb (suc n) 1)) [
  | inl e ↦ (0, rw e refl)
  | inr e ↦ elim (Bool-cases (leb (suc n) 1000)) [
    | inl f ↦ (n, rw (e, f) refl)
    | inr f ↦ (999, rw (e, f) refl)
  ]
]

map-split :
    (xs : List StoredAction) (a : StoredAction) (ys : List StoredAction)
    → map to_record (xs ++ a ∷ []) ++ map to_record ys ≡ map to_record (xs ++ a ∷ ys)
map-split [] a ys = refl
map-split (x ∷ xs) a ys = ap (λ l. x.action ∷ l) (map-split xs a ys)

length-split :
    (xs : List StoredAction) (a : StoredAction) (ys : List StoredAction)
    → length (xs ++ a ∷ ys) ≡ length xs + suc (length ys)
length-split [] a ys = omega arith
length-split (x ∷ xs) a ys = omega (arith, length-split xs a ys)

module _ (encode : ActionCursor → String) (decode : String → Option ActionCursor)
    (round_trip : (c : ActionCursor) → decode (encode c) ≡ some c)
    (before : StoredAction → StoredAction → Bool) (behind : ActionCursor → StoredAction → Bool)
    (order : IsOrder before)
    (agrees : (x y : StoredAction) → behind (cursor_of x.action) y ≡ not (before y x))
    (limit : Option ℕ) (rows : List StoredAction) (distinct : IsDistinct before rows) where
  abbrev sorted : List StoredAction
  sorted = sort_by before rows

  abbrev page : Option ActionCursor → ActionPage
  page c = page_of encode before behind limit c rows

  -- the rows from a cursor on
  abbrev rest : Option ActionCursor → List StoredAction
  rest none = sorted
  rest (some c) = select (behind c) sorted

  page-rest :
      (c : Option ActionCursor) (ys : List StoredAction) (n : ℕ)
      → rest c ≡ ys
      → clamp_page_size limit ≡ suc n
      → page c ≡ build_action_page encode (map to_record (take (suc (suc n)) ys)) (suc n)
  unfolding page_of
  page-rest none ys n e s = rw (page_of, s, ← e) refl
  page-rest (some c) ys n e s = rw (page_of, s, ← e) refl

  page_last :
      (c : Option ActionCursor) (ys : List StoredAction) (n : ℕ)
      → rest c ≡ ys
      → clamp_page_size limit ≡ suc n
      → length ys ≤ suc n
      → page c ≡ record { items = map to_record ys; next_cursor = none }
  page_last c ys n e s h =
      page-rest c ys n e s
      ∙ ap (λ l. build_action_page encode (map to_record l) (suc n))
          (take-short (suc (suc n)) ys (omega (arith, h)))
      ∙ build_action_page-last encode (map to_record ys) (suc n) (omega (arith, h, length-map ys))

  page_full :
      (c : Option ActionCursor) (xs : List StoredAction) (a z : StoredAction)
      (zs : List StoredAction)
      → rest c ≡ xs ++ a ∷ z ∷ zs
      → clamp_page_size limit ≡ suc (length xs)
      → page c ≡ record {
        items = map to_record (xs ++ a ∷ []);
        next_cursor = some (encode (cursor_of a.action));
      }
  page_full c xs a z zs e s =
      page-rest c (xs ++ a ∷ z ∷ zs) (length xs) e s
      ∙ ap (λ l. build_action_page encode (map to_record l) (suc (length xs)))
          (take-split xs a z zs)
      ∙ build_action_page-full encode xs a z

  rest_after :
      (xs : List StoredAction) (a : StoredAction) (ys : List StoredAction)
      → sorted ≡ xs ++ a ∷ ys
      → rest (some (cursor_of a.action)) ≡ ys
  rest_after xs a ys e =
      ap (select (behind (cursor_of a.action))) e
      ∙ select-after before behind order agrees xs a ys (
          subst (IsSortedBy (λ x y. behind (cursor_of x.action) y)) e
            (sorted-after before behind order agrees rows distinct))

  walk_from :
      (fuel : ℕ) (c : Option ActionCursor) (xs ys : List StoredAction)
      → length ys < fuel
      → rest c ≡ ys
      → sorted ≡ xs ++ ys
      → walk decode page fuel c ≡ map to_record ys
  unfolding walk
  walk_from zero c xs ys h e s = let bad : ⊥ = omega (arith, h) in elim bad [ ]
  walk_from (suc n) c xs ys h e s =
      let (k, size) = clamp_page_size-positive limit in
      elim (split_page k ys) [
        | inl short ↦ rw (walk, page_last c ys k e size short) (append-nil (map to_record ys))
        | inr (as_far, a, z, zs, split, l) ↦
            let whole : sorted ≡ (xs ++ as_far) ++ a ∷ z ∷ zs =
              s ∙ ap (λ t. xs ++ t) split ∙ sym (append_assoc xs as_far (a ∷ z ∷ zs)) in
            let full = page_full c as_far a z zs (e ∙ split) (size ∙ ap suc (sym l)) in
            let later =
              walk_from n (some (cursor_of a.action)) ((xs ++ as_far) ++ a ∷ []) (z ∷ zs)
                (omega (arith, h, ap length split, length-split as_far a (z ∷ zs)))
                (rest_after (xs ++ as_far) a (z ∷ zs) whole)
                (whole ∙ sym (append_assoc (xs ++ as_far) (a ∷ []) (z ∷ zs))) in
            rw (walk, full, round_trip (cursor_of a.action), later)
              (map-split as_far a (z ∷ zs) ∙ ap (map to_record) (sym split))
      ]

  length-sorted : length sorted ≡ length rows
  length-sorted = length-sort_by before rows

  pub walk-page_of :
      (fuel : ℕ)
      → length rows < fuel
      → walk decode page fuel none ≡ map to_record (sort_by before rows)
  walk-page_of fuel h = walk_from fuel none [] sorted (omega (arith, h, length-sorted)) refl refl
