-- ===== src/Cloud/Pages.antt =====
-- apps/api/src/store.ts: keyset pages of actions, and their cursors. Keys are sorted by
-- `localeCompare`, whose order is a parameter, and the cursor is compared by `<`, by code units; a
-- time orders as its text does. base64url, the text of a time and the test of
-- `Date.parse` are parameters.
pub mod Cursors
pub mod Build
pub mod Behind
pub mod Walk
pub mod Listing
use Prim.Native.Char.{code}
use Prim.Native.String
use quorvel.Common.{
  ℕ, zero, suc, ◌+◌, ◌-◌, ◌/◌, ◌%◌, String, Bool, true, false, ◌&&◌, ◌||◌, not, Option, none, some,
  List, [], ◌∷◌, ◌++◌, map, str_eq, leb, ltb, ◌==◌, length, select, take, if◌then◌else◌,
}
use quorvel.Common.Sorting.{sort_by}
use quorvel.Idempotency.{text_leb}
use quorvel.Ledger.{ActionStatus, ActionRecord}
use quorvel.Ledger.InMemory.{eq_status}
use quorvel.Cloud.Actions.{StoredAction, Actions, to_record}
use quorvel.Cloud.Text.{◌&◌}

pub record ActionCursor : Type 0 where
  pub created_at : ℕ
  pub idempotency_key : String

-- a page with the cursor of the next one, encoded
pub record ActionPage : Type 0 where
  pub items : List ActionRecord
  pub next_cursor : Option String

-- `clampPageSize`, on a limit that is given as a number from 0 on
unfoldable pub clamp_page_size : Option ℕ → ℕ
clamp_page_size none = 100
clamp_page_size (some n) = if leb n 1 then 1 else if leb n 1000 then n else 1000

abbrev pub cursor_of : ActionRecord → ActionCursor
cursor_of r = record { created_at = r.created_at; idempotency_key = r.idempotency_key }

-- `items[items.length - 1]`
abbrev pub last : List ActionRecord → Option ActionRecord
last [] = none
last (r ∷ []) = some r
last (r ∷ s ∷ rs) = last (s ∷ rs)

abbrev pub cursor_after : (ActionCursor → String) → Bool → Option ActionRecord → Option String
cursor_after encode true (some r) = some (encode (cursor_of r))
cursor_after encode true none = none
cursor_after encode false r = none

-- The first argument is `encodeCursor`.
unfoldable pub build_action_page : (ActionCursor → String) → List ActionRecord → ℕ → ActionPage
build_action_page encode rows limit =
    let has_more = ltb limit (length rows) in
    let items = if has_more then take limit rows else rows in
    record { items = items; next_cursor = cursor_after encode has_more (last items) }

-- one page of the rows, by the order in which they stand and the test "behind the cursor"
unfoldable pub page_of :
    (ActionCursor → String)
    → (StoredAction → StoredAction → Bool)
    → (ActionCursor → StoredAction → Bool)
    → Option ℕ
    → Option ActionCursor
    → List StoredAction
    → ActionPage
unfolding build_action_page clamp_page_size
page_of encode before behind limit cursor rows =
    let sorted = sort_by before rows in
    let after : List StoredAction = elim cursor [
      | none ↦ sorted
      | some c ↦ select (behind c) sorted
    ] in
    let size = clamp_page_size limit in
    build_action_page encode (map to_record (take (suc size) after)) size

-- the code units of a text in UTF-16
abbrev units_of : ℕ → List ℕ
units_of c =
    if ltb c 65536 then c ∷ [] else (55296 + (c - 65536) / 1024) ∷ (56320 + (c - 65536) % 1024) ∷ []

abbrev pub code_units : String → List ℕ
code_units String.[] = []
code_units (String.◌∷◌ c s) = units_of (code c) ++ code_units s

-- `a < b` of two texts
abbrev pub precedes : String → String → Bool
precedes a b = not (text_leb (code_units b) (code_units a))

abbrev pub is_later : ActionCursor → StoredAction → Bool
is_later c r =
    ltb c.created_at r.action.created_at
    || (r.action.created_at == c.created_at && precedes c.idempotency_key r.action.idempotency_key)

abbrev pub is_earlier : ActionCursor → StoredAction → Bool
is_earlier c r =
    ltb r.action.created_at c.created_at
    || (r.action.created_at == c.created_at && precedes r.action.idempotency_key c.idempotency_key)

-- The rows that a listing is of.
abbrev pub chosen : String → Option ActionStatus → Actions → List StoredAction
chosen org (some status) s = select (λ r. str_eq r.org_id org && eq_status r.action.status status) s
chosen org none s = select (λ r. str_eq r.org_id org) s

module _ (collates : String → String → Bool) where
  -- the comparison of `pageByStatus`: the earliest first
  abbrev pub oldest_first : StoredAction → StoredAction → Bool
  oldest_first a b =
      ltb a.action.created_at b.action.created_at
      || (a.action.created_at == b.action.created_at
          && collates a.action.idempotency_key b.action.idempotency_key)

  unfoldable pub page_by_status :
      (ActionCursor → String)
      → String
      → ActionStatus
      → Option ℕ
      → Option ActionCursor
      → Actions
      → ActionPage
  unfolding page_of
  page_by_status encode org status limit cursor s =
      page_of encode oldest_first is_later limit cursor
        (select (λ r. str_eq r.org_id org && eq_status r.action.status status) s)

  -- the comparison of `pageRecent`: the latest first
  abbrev pub newest_first : StoredAction → StoredAction → Bool
  newest_first a b =
      ltb b.action.created_at a.action.created_at
      || (b.action.created_at == a.action.created_at
          && collates b.action.idempotency_key a.action.idempotency_key)

  unfoldable pub page_recent :
      (ActionCursor → String) → String → Option ℕ → Option ActionCursor → Actions → ActionPage
  unfolding page_of
  page_recent encode org limit cursor s =
      page_of encode newest_first is_earlier limit cursor (select (λ r. str_eq r.org_id org) s)

  -- The order in which a listing gives its rows.
  abbrev pub order_of : Option ActionStatus → StoredAction → StoredAction → Bool
  order_of (some status) = oldest_first
  order_of none = newest_first

  -- `pageActions` of the service
  unfoldable pub page_actions :
      (ActionCursor → String)
      → String
      → Option ActionStatus
      → Option ℕ
      → Option ActionCursor
      → Actions
      → ActionPage
  unfolding page_by_status page_recent
  page_actions encode org (some status) limit cursor s =
      page_by_status encode org status limit cursor s
  page_actions encode org none limit cursor s = page_recent encode org limit cursor s

-- the text before the first bar, and the text behind it
unfoldable pub split_at_bar : String → Option (String × String)
split_at_bar String.[] = none
split_at_bar (String.◌∷◌ c s) =
    let rest = split_at_bar s in
    if code c == 124
    then some (String.[], s)
    else elim rest [ none ↦ none | some p ↦ some (String.◌∷◌ c p.0, p.1) ]

module _ (encode decode : String → String) (iso : ℕ → String) (parse : String → Option ℕ) where
  unfoldable pub encode_cursor : ActionCursor → String
  encode_cursor c = encode (iso c.created_at & "|" & c.idempotency_key)

  abbrev pub parsed : String × String → Option ActionCursor
  parsed (time, key) = elim (parse time) [
    | none ↦ none
    | some created_at ↦
        if str_eq time ""
        then none
        else some (record { created_at = created_at; idempotency_key = key })
  ]

  -- `none` is the error "malformed cursor"
  unfoldable pub decode_cursor : String → Option ActionCursor
  unfolding split_at_bar
  decode_cursor raw = elim (split_at_bar (decode raw)) [ none ↦ none | some p ↦ parsed p ]
