-- ===== src/Cloud/Requests/Rows.antt =====
-- The idempotency table, row by row: what each of its operations does to the row of a key.
use mathlib.Core.Option
use quorvel.Common.{
  find-append, ℕ, String, ◌≡◌, inl, inr, not, Option, none, some, List, [], ◌∷◌, arith, eq_iff,
  select, or_else, if◌then◌else◌, Bool-cases,
}
use quorvel.Value.{Value}
use quorvel.Cloud.Table.{same_key}
use quorvel.Cloud.Requests.{
  IdempotencyRecord, Request, Handled, responds, raises, Requests, same_claim, row_at, claim_row,
  claim, answered, modify_row, delete_idempotency, is_success, run_claimed,
}

module _ (o k : String) where
  pub row_at-claim :
      (now : ℕ) (org key fingerprint : String) (req : Request) (w : Requests)
      → row_at o k (claim (claim_row now org key fingerprint req) w).rows
        ≡ or_else
            (row_at o k w.rows)
            (if same_key org key o k then some (claim_row now org key fingerprint req) else none)
  row_at-claim now org key fingerprint req w =
      find-append (same_claim o k) w.rows (claim_row now org key fingerprint req)

  row_at-modify_row :
      (org key : String) (status : ℕ) (body : Value) (rows : List IdempotencyRecord)
      → row_at o k (modify_row org key (answered status body) rows) ≡ (
          if same_key org key o k
          then Option.map (answered status body) (row_at o k rows)
          else row_at o k rows)
  unfolding modify_row
  row_at-modify_row org key status body [] = ground arith
  row_at-modify_row org key status body (r ∷ rs) = ground (
    arith,
    row_at-modify_row org key status body rs,
    eq_iff org o,
    eq_iff key k,
    eq_iff r.org_id o,
    eq_iff r.org_id org,
    eq_iff r.idem_key k,
    eq_iff r.idem_key key,
  )

  row_at-dropped :
      (org key : String) (rows : List IdempotencyRecord)
      → row_at o k (select (λ r. not (same_claim org key r)) rows)
        ≡ (if same_key org key o k then none else row_at o k rows)
  row_at-dropped org key [] = ground arith
  row_at-dropped org key (r ∷ rs) = ground (
    arith,
    row_at-dropped org key rs,
    eq_iff org o,
    eq_iff key k,
    eq_iff r.org_id o,
    eq_iff r.org_id org,
    eq_iff r.idem_key k,
    eq_iff r.idem_key key,
  )

  pub row_at-delete_idempotency :
      (org key : String) (w : Requests)
      → row_at o k (delete_idempotency org key w).rows
        ≡ (if same_key org key o k then none else row_at o k w.rows)
  row_at-delete_idempotency org key w = row_at-dropped org key w.rows

  -- What the end of a handler leaves of a row.
  abbrev pub ended : Handled → Option IdempotencyRecord → Option IdempotencyRecord
  ended (responds status body) row =
      if is_success status then Option.map (answered status body) row else none
  ended (raises error) row = none

  pub row_at-run_claimed :
      (org key : String) (h : Handled) (w : Requests)
      → row_at o k (run_claimed org key h w).1.rows
        ≡ (if same_key org key o k then ended h (row_at o k w.rows) else row_at o k w.rows)
  unfolding run_claimed
  row_at-run_claimed org key (responds status body) w = elim (Bool-cases (is_success status)) [
    | inl e ↦ rw e (row_at-modify_row org key status body w.rows)
    | inr e ↦ rw e (row_at-dropped org key w.rows)
  ]
  row_at-run_claimed org key (raises error) w = row_at-dropped org key w.rows

-- A key that is freed has no row.
pub row_at-freed :
    (org key : String) (w : Requests) → row_at org key (delete_idempotency org key w).rows ≡ none
row_at-freed org key w =
    ground (arith, row_at-delete_idempotency org key org key w, eq_iff org org, eq_iff key key)
