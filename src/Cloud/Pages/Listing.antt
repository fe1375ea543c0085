-- ===== src/Cloud/Pages/Listing.antt =====
-- store.ts, service.ts: the pages of `pageActions`, for each of its two orders.
use Prim.Native.Char.{code}
use mathlib.Core.Path.{fun_ext}
use quorvel.Common.{
  select, take, suc, List, [], ◌∷◌, ◌&&◌, ◌||◌, All, refl, ap, sym, ◌∙◌, leb, ℕ, ◌<◌, String, ◌≡◌,
  Bool, true, false, not, Option, none, some, map, arith, length,
}
use quorvel.Common.Sorting.{sort_by, sort_by-ext, IsOrder}
use quorvel.Idempotency.{text_leb}
use quorvel.Idempotency.Order.{text_leb_total, text_leb_trans}
use quorvel.Ledger.{ActionStatus}
use quorvel.Cloud.Actions.{StoredAction, Actions, to_record}
use quorvel.Cloud.Pages.{
  ActionCursor, ActionPage, clamp_page_size, build_action_page, page_of, precedes, code_units,
  cursor_of, oldest_first, newest_first, is_later, is_earlier, chosen, order_of, page_by_status,
  page_recent, page_actions,
}
use quorvel.Cloud.Pages.Behind.{apart, IsDistinct}
use quorvel.Cloud.Pages.Walk.{walk, walk-page_of}

-- A key of the SDK is the hexadecimal text of a hash: digits, and letters from a to f.
abbrev is_hex_digit : ℕ → Bool
is_hex_digit c = (leb 48 c && leb c 57) || (leb 97 c && leb c 102)

abbrev pub IsHex : String → Type 0
IsHex String.[] = Unit
IsHex (String.◌∷◌ c s) = (is_hex_digit (code c) ≡ true) × IsHex s

abbrev pub HasHexKey : StoredAction → Type 0
HasHexKey r = IsHex r.action.idempotency_key

-- What is assumed of `localeCompare`: of two texts of hexadecimal digits it puts first, or takes for
-- the same, what `<` does not put behind. Of other texts nothing is assumed.
abbrev pub IsCollation : (String → String → Bool) → Type 0
IsCollation collates = (a b : String) → IsHex a → IsHex b → collates a b ≡ not (precedes b a)

-- the order of code units, on every text
abbrev by_units : String → String → Bool
by_units a b = text_leb (code_units a) (code_units b)

by_units_total : (a b : String) → by_units a b ≡ false → by_units b a ≡ true
by_units_total a b = text_leb_total (code_units a) (code_units b)

by_units_trans : (a b c : String) → by_units a b ≡ true → by_units b c ≡ true → by_units a c ≡ true
by_units_trans a b c = text_leb_trans (code_units a) (code_units b) (code_units c)

oldest_first-IsOrder : IsOrder (oldest_first by_units)
oldest_first-IsOrder = record {
  total = λ x y h. ground (arith, by_units_total x.action.idempotency_key y.action.idempotency_key);
  trans = λ x y z g h. ground (
    arith,
    by_units_trans x.action.idempotency_key y.action.idempotency_key z.action.idempotency_key,
  );
}

newest_first-IsOrder : IsOrder (newest_first by_units)
newest_first-IsOrder = record {
  total = λ x y h. ground (arith, by_units_total y.action.idempotency_key x.action.idempotency_key);
  trans = λ x y z g h. ground (
    arith,
    by_units_trans z.action.idempotency_key y.action.idempotency_key x.action.idempotency_key,
  );
}

is_later_lem :
    (x y : StoredAction) → is_later (cursor_of x.action) y ≡ not (oldest_first by_units y x)
is_later_lem x y = ground arith

is_earlier_lem :
    (x y : StoredAction) → is_earlier (cursor_of x.action) y ≡ not (newest_first by_units y x)
is_earlier_lem x y = ground arith

-- Pages of rows by a comparison that agrees on them with one by which they can be walked.
module _ (encode : ActionCursor → String) (decode : String → Option ActionCursor)
    (round_trip : (c : ActionCursor) → decode (encode c) ≡ some c)
    (before exact : StoredAction → StoredAction → Bool)
    (behind : ActionCursor → StoredAction → Bool)
    (agree : (x y : StoredAction) → HasHexKey x → HasHexKey y → before x y ≡ exact x y) where
  All-apart :
      (x : StoredAction) (ys : List StoredAction)
      → HasHexKey x
      → All HasHexKey ys
      → All (λ y. apart before x y ≡ true) ys
      → All (λ y. apart exact x y ≡ true) ys
  All-apart x [] p h d = tt
  All-apart x (y ∷ ys) p (q, h) (d, ds) =
      (ground (arith, agree x y p q, agree y x q p), All-apart x ys p h ds)

  IsDistinct-ext :
      (xs : List StoredAction) → All HasHexKey xs → IsDistinct before xs → IsDistinct exact xs
  IsDistinct-ext [] h d = tt
  IsDistinct-ext (x ∷ xs) (p, h) (d, ds) = (All-apart x xs p h d, IsDistinct-ext xs h ds)

  abbrev page_from : Option ℕ → List StoredAction → ActionPage
  page_from limit rows =
      let size = clamp_page_size limit in
      build_action_page encode (map to_record (take (suc size) rows)) size

  page_of-ext :
      (limit : Option ℕ) (c : Option ActionCursor) (rows : List StoredAction)
      → All HasHexKey rows
      → page_of encode before behind limit c rows ≡ page_of encode exact behind limit c rows
  unfolding page_of
  page_of-ext limit none rows h =
      ap (λ sorted. page_from limit sorted) (sort_by-ext before exact HasHexKey agree rows h)
  page_of-ext limit (some c) rows h =
      ap (λ sorted. page_from limit (select (behind c) sorted))
        (sort_by-ext before exact HasHexKey agree rows h)

  walk-exact :
      (order : IsOrder exact)
      (behinds : (x y : StoredAction) → behind (cursor_of x.action) y ≡ not (exact y x))
      (limit : Option ℕ) (fuel : ℕ) (rows : List StoredAction)
      → All HasHexKey rows
      → IsDistinct before rows
      → length rows < fuel
      → walk decode (λ c. page_of encode before behind limit c rows) fuel none
        ≡ map to_record (sort_by before rows)
  walk-exact order behinds limit fuel rows hex distinct h =
      ap (λ page. walk decode page fuel none) (fun_ext (λ c. page_of-ext limit c rows hex))
      ∙ walk-page_of encode decode round_trip exact behind order behinds limit rows
          (IsDistinct-ext rows hex distinct) fuel h
      ∙ ap (map to_record) (sym (sort_by-ext before exact HasHexKey agree rows hex))

module _ (collates : String → String → Bool) (keys : IsCollation collates) where
  same_keys :
      (x y : StoredAction)
      → HasHexKey x
      → HasHexKey y
      → collates x.action.idempotency_key y.action.idempotency_key
        ≡ by_units x.action.idempotency_key y.action.idempotency_key
  same_keys x y p q = ground (arith, keys x.action.idempotency_key y.action.idempotency_key p q)

  oldest_first_lem :
      (x y : StoredAction)
      → HasHexKey x
      → HasHexKey y
      → oldest_first collates x y ≡ oldest_first by_units x y
  oldest_first_lem x y p q = rw (same_keys x y p q) refl

  newest_first_lem :
      (x y : StoredAction)
      → HasHexKey x
      → HasHexKey y
      → newest_first collates x y ≡ newest_first by_units x y
  newest_first_lem x y p q = rw (same_keys y x q p) refl

  -- A client who asks for a first page and follows the cursors gets every row of the listing once and
  -- in order, the earliest first for a status and the latest first without one, whatever the size of
  -- the pages, in at most one page more than there are rows: provided that the keys of the listing are
  -- texts of hexadecimal digits, as those of the SDK are, that `localeCompare` orders such texts as `<`
  -- does, that a cursor that is encoded is decoded to itself, and that no two rows of the listing stand
  -- at the same place.
  pub walk-page_actions :
      (encode : ActionCursor → String) (decode : String → Option ActionCursor) (org : String)
      (status : Option ActionStatus) (limit : Option ℕ) (fuel : ℕ) (s : Actions)
      → ((c : ActionCursor) → decode (encode c) ≡ some c)
      → All HasHexKey (chosen org status s)
      → IsDistinct (order_of collates status) (chosen org status s)
      → length (chosen org status s) < fuel
      → walk decode (λ c. page_actions collates encode org status limit c s) fuel none
        ≡ map to_record (sort_by (order_of collates status) (chosen org status s))
  unfolding page_actions page_by_status page_recent
  walk-page_actions encode decode org (some status) limit fuel s back hex distinct h =
      walk-exact encode decode back (oldest_first collates) (oldest_first by_units) is_later
        oldest_first_lem oldest_first-IsOrder is_later_lem limit fuel (chosen org (some status) s)
        hex distinct h
  walk-page_actions encode decode org none limit fuel s back hex distinct h =
      walk-exact encode decode back (newest_first collates) (newest_first by_units) is_earlier
        newest_first_lem newest_first-IsOrder is_earlier_lem limit fuel (chosen org none s) hex
        distinct h
