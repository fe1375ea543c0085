-- ===== src/Idempotency.antt =====
-- packages/core/src/idempotency.ts: the canonical text of a value and the key of a call. A text is
-- its list of code points; the order of keys is by code points, which is that of JavaScript below
-- U+10000. The hash is a parameter.
pub mod Order
pub mod Quoted
use Prim.Native.Char.{code}
use Prim.Native.String.{String}
use quorvel.Common.{
  ℕ, ◌+◌, ◌/◌, ◌%◌, Bool, true, false, Option, none, some, List, [], ◌∷◌, ◌++◌, ltb, ◌==◌,
  if◌then◌else◌,
}
use quorvel.Common.Decimal.{decimal}
use quorvel.Value.{
  Value, Items, Fields, undefined, null, bool, num, str, arr, obj, nil, cons, end, field,
}

abbrev pub codes : String → List ℕ
codes String.[] = []
codes (String.◌∷◌ c rest) = code c ∷ codes rest

abbrev pub hex_digit : ℕ → ℕ
hex_digit n = if ltb n 10 then n + 48 else n + 87

-- the escapes of JSON.stringify in a text
unfoldable pub escape : ℕ → List ℕ
escape c =
    if c == 34
    then 92 ∷ 34 ∷ []
    else if c == 92
    then 92 ∷ 92 ∷ []
    else if c == 8
    then 92 ∷ b'b' ∷ []
    else if c == 9
    then 92 ∷ b't' ∷ []
    else if c == 10
    then 92 ∷ b'n' ∷ []
    else if c == 12
    then 92 ∷ b'f' ∷ []
    else if c == 13
    then 92 ∷ b'r' ∷ []
    else if ltb c 32
    then 92 ∷ b'u' ∷ 48 ∷ 48 ∷ (48 + c / 16) ∷ hex_digit (c % 16) ∷ []
    else c ∷ []

unfoldable pub escaped : List ℕ → List ℕ
unfolding escape
escaped [] = []
escaped (c ∷ cs) = escape c ++ escaped cs

-- `JSON.stringify` of a text
unfoldable pub quoted : String → List ℕ
unfolding escaped
quoted s = 34 ∷ (escaped (codes s) ++ 34 ∷ [])

-- `a < b` or `a === b` on texts, as `sort` compares them
unfoldable pub text_leb : List ℕ → List ℕ → Bool
text_leb [] ys = true
text_leb (x ∷ xs) [] = false
text_leb (x ∷ xs) (y ∷ ys) = if ltb x y then true else if x == y then text_leb xs ys else false

abbrev pub Entry : Type 0
Entry = String × List ℕ

unfoldable pub insert_entry : Entry → List Entry → List Entry
unfolding text_leb
insert_entry e [] = e ∷ []
insert_entry e (d ∷ ds) =
    if text_leb (codes e.0) (codes d.0) then e ∷ d ∷ ds else d ∷ insert_entry e ds

unfoldable pub sort_entries : List Entry → List Entry
unfolding insert_entry
sort_entries [] = []
sort_entries (e ∷ es) = insert_entry e (sort_entries es)

unfoldable pub join : List (List ℕ) → List ℕ
join [] = []
join (x ∷ []) = x
join (x ∷ y ∷ r) = x ++ 44 ∷ join (y ∷ r)

unfoldable pub print_entries : List Entry → List (List ℕ)
unfolding quoted
print_entries [] = []
print_entries ((k, v) ∷ es) = (quoted k ++ 58 ∷ v) ∷ print_entries es

abbrev bool_text : Bool → List ℕ
bool_text true = codes "true"
bool_text false = codes "false"

-- `canonicalize`: the values of an object are printed before its keys are sorted, which changes
-- nothing, since printing depends on the value alone.
unfoldable mutual
  unfolding sort_entries join print_entries quoted decimal

  pub canonicalize : Value → List ℕ
  canonicalize undefined = codes "null"
  canonicalize null = codes "null"
  canonicalize (bool b) = bool_text b
  canonicalize (num n) = codes (decimal n)
  canonicalize (str s) = quoted s
  canonicalize (arr xs) = 91 ∷ (join (canonical_items xs) ++ 93 ∷ [])
  canonicalize (obj fs) =
      123 ∷ (join (print_entries (sort_entries (canonical_fields fs))) ++ 125 ∷ [])

  pub canonical_items : Items → List (List ℕ)
  canonical_items nil = []
  canonical_items (cons v vs) = canonicalize v ∷ canonical_items vs

  pub canonical_fields : Fields → List Entry
  canonical_fields end = []
  canonical_fields (field k v fs) = (k, canonicalize v) ∷ canonical_fields fs

abbrev pub scope_value : Option String → Value
scope_value none = null
scope_value (some s) = str s

-- the object `{ tool, args, scope: scope ?? null }`
abbrev pub call_value : String → Value → Option String → Value
call_value tool args scope =
    obj (field "tool" (str tool) (field "args" args (field "scope" (scope_value scope) end)))

unfoldable pub idempotency_key : (List ℕ → String) → String → Value → Option String → String
unfolding canonicalize
idempotency_key sha256 tool args scope = sha256 (canonicalize (call_value tool args scope))
