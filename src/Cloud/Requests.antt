-- ===== src/Cloud/Requests.antt =====
-- apps/api/src/service.ts, `withIdempotency`, over the idempotency table of store.ts: a write request
-- under an Idempotency-Key. The handler of a request is given by what it comes to, and each run of it
-- is logged. The hash is a parameter. As for actions, the table is a list, its two-part key a test.
pub mod Rows
pub mod Fingerprint
pub mod Replay
pub mod Bound
pub mod History
pub mod Once
use Prim.Native.String
use quorvel.Common.{
  ℕ, zero, suc, ◌+◌, String, Bool, true, false, ◌&&◌, not, Option, none, some, List, [], ◌∷◌, ◌++◌,
  str_eq, leb, ltb, find, select, if◌then◌else◌,
}
use quorvel.Common.Decimal.{decimal}
use quorvel.Value.{
  Value, Items, Fields, undefined, null, bool, num, str, arr, obj, nil, cons, end, field,
}
use quorvel.Idempotency.{codes, quoted, join}
use quorvel.Cloud.Actions.{args_or_null}
use quorvel.Cloud.Errors.{ApiError}

pub record IdempotencyRecord : Type 0 where
  pub org_id : String
  pub idem_key : String
  pub fingerprint : String
  pub method : String
  pub path : String
  pub status_code : Option ℕ
  pub response_body : Value
  pub created_at : ℕ

pub record Request : Type 0 where
  pub method : String
  pub path : String
  pub body : Value

-- What the handler of a request comes to.
pub data Handled : Type 0 where
  responds : (status : ℕ) → Value → Handled
  raises : (error : String) → Handled

pub record HandlerRun : Type 0 where
  pub org_id : String
  pub idem_key : String
  pub came_to : Handled

pub record Requests : Type 0 where
  pub rows : List IdempotencyRecord
  pub runs : List HandlerRun

abbrev pub same_claim : String → String → IdempotencyRecord → Bool
same_claim org key r = str_eq r.org_id org && str_eq r.idem_key key

-- the row of a key
abbrev pub row_at : String → String → List IdempotencyRecord → Option IdempotencyRecord
row_at org key rows = find (same_claim org key) rows

abbrev pub claim_row : ℕ → String → String → String → Request → IdempotencyRecord
claim_row now org key fingerprint req = record {
  org_id = org;
  idem_key = key;
  fingerprint = fingerprint;
  method = req.method;
  path = req.path;
  status_code = none;
  response_body = null;
  created_at = now;
}

-- `claimIdempotency` where the key is free
abbrev pub claim : IdempotencyRecord → Requests → Requests
claim r w = record w { rows = w.rows ++ r ∷ [] }

abbrev pub answered : ℕ → Value → IdempotencyRecord → IdempotencyRecord
answered status body r = record r { status_code = some status; response_body = args_or_null body }

unfoldable pub modify_row :
    String
    → String
    → (IdempotencyRecord → IdempotencyRecord)
    → List IdempotencyRecord
    → List IdempotencyRecord
modify_row org key f [] = []
modify_row org key f (r ∷ rs) =
    if same_claim org key r then f r ∷ rs else r ∷ modify_row org key f rs

abbrev pub complete_idempotency : String → String → ℕ → Value → Requests → Requests
complete_idempotency org key status body w = record w {
  rows = modify_row org key (answered status body) w.rows;
}

-- a key stands once in a `Map`, so that dropping it is a filter
abbrev pub delete_idempotency : String → String → Requests → Requests
delete_idempotency org key w = record w { rows = select (λ r. not (same_claim org key r)) w.rows }

abbrev bool_text : Bool → List ℕ
bool_text true = codes "true"
bool_text false = codes "false"

-- `JSON.stringify`: a field that is undefined is left out
unfoldable mutual
  unfolding quoted join decimal

  pub stringify : Value → List ℕ
  stringify undefined = codes "null"
  stringify null = codes "null"
  stringify (bool b) = bool_text b
  stringify (num n) = codes (decimal n)
  stringify (str s) = quoted s
  stringify (arr xs) = 91 ∷ (join (item_texts xs) ++ 93 ∷ [])
  stringify (obj fs) = 123 ∷ (join (field_texts fs) ++ 125 ∷ [])

  pub item_texts : Items → List (List ℕ)
  item_texts nil = []
  item_texts (cons v vs) = stringify v ∷ item_texts vs

  pub field_texts : Fields → List (List ℕ)
  field_texts end = []
  field_texts (field k undefined fs) = field_texts fs
  field_texts (field k v fs) = (quoted k ++ 58 ∷ stringify v) ∷ field_texts fs

-- `idemFingerprint`
unfoldable pub idem_fingerprint : (List ℕ → String) → Request → String
unfolding stringify
idem_fingerprint sha256 req = sha256 (
    stringify (
      obj (
        field "m" (str req.method)
          (field "p" (str req.path) (field "b" (args_or_null req.body) end)))))

-- What a request comes to.
pub data Reply : Type 0 where
  response : (status : ℕ) → Value → Reply
  refused : ApiError → Reply
  thrown : (error : String) → Reply

abbrev pub key_reuse : ApiError
key_reuse = record {
  message = "Idempotency-Key was reused with a different request";
  status_code = 422;
  code = "idempotency_key_reuse";
}

abbrev pub in_progress : ApiError
in_progress = record {
  message = "a request with this Idempotency-Key is still being processed";
  status_code = 409;
  code = "idempotency_in_progress";
}

abbrev pub is_success : ℕ → Bool
is_success status = leb 200 status && ltb status 300

-- the run of the handler is logged
abbrev pub log_run : String → String → Handled → Requests → Requests
log_run org key h w = record w {
  runs = record { org_id = org; idem_key = key; came_to = h } ∷ w.runs;
}

-- the handler of a claimed request: a success is stored, anything else frees the key
unfoldable pub run_claimed : String → String → Handled → Requests → Reply × Requests
run_claimed org key (responds status body) w =
    let w1 = log_run org key (responds status body) w in
    (
      response status body,
      if is_success status
          then complete_idempotency org key status body w1
          else delete_idempotency org key w1,
    )
run_claimed org key (raises error) w =
    (thrown error, delete_idempotency org key (log_run org key (raises error) w))

module _ (sha256 : List ℕ → String) (stale_ms : ℕ) where
  -- a claim that is taken and has no response yet: refused, or reclaimed once it is stale
  abbrev pending_claim :
      ℕ
      → String
      → String
      → IdempotencyRecord
      → Requests
      → (Requests → Option (Reply × Requests))
      → Option (Reply × Requests)
  pending_claim now org key r w again =
      if ltb (r.created_at + stale_ms) now
      then again (delete_idempotency org key w)
      else some (refused in_progress, w)

  abbrev taken :
      ℕ
      → String
      → String
      → String
      → IdempotencyRecord
      → Requests
      → (Requests → Option (Reply × Requests))
      → Option (Reply × Requests)
  taken now org key fingerprint r w again =
      if str_eq r.fingerprint fingerprint
      then elim r.status_code [
        | none ↦ pending_claim now org key r w again
        | some status ↦ some (response status r.response_body, w)
      ]
      else some (refused key_reuse, w)

  -- `withIdempotency`, with the depth of its calls of itself; `none` means that the depth was not
  -- enough.
  unfoldable pub with_idempotency :
      ℕ → ℕ → String → String → Request → Handled → Requests → Option (Reply × Requests)
  unfolding idem_fingerprint run_claimed
  with_idempotency zero now org key req h w = none
  with_idempotency (suc depth) now org key req h w = elim (row_at org key w.rows) [
    | none ↦
        some (
          run_claimed org key h (claim (claim_row now org key (idem_fingerprint sha256 req) req) w))
    | some r ↦
        taken now org key (idem_fingerprint sha256 req) r w
          (λ w'. with_idempotency depth now org key req h w')
  ]
