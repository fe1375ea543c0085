-- ===== src/Cloud/Requests/Once.antt =====
-- service.ts, `withIdempotency`: the runs of a key's handler that were a success.
use quorvel.Common.{
  ℕ, String, ◌≡◌, refl, Option, none, some, List, [], ◌∷◌, ◌++◌, arith, eq_iff, if◌then◌else◌,
}
use quorvel.Value.{Value}
use quorvel.Cloud.Table.{same_key}
use quorvel.Cloud.Actions.{args_or_null}
use quorvel.Cloud.Requests.{
  IdempotencyRecord, Request, Handled, responds, raises, HandlerRun, Requests, row_at, claim_row,
  claim, delete_idempotency, is_success, run_claimed, log_run,
}
use quorvel.Cloud.Requests.Rows.{row_at-claim, row_at-delete_idempotency, row_at-run_claimed, ended}
use quorvel.Cloud.Requests.History.{Event, happen_all, IsPending, happen_all-keeps}

-- the response of a run, if it was a success
abbrev pub succeeded : Handled → List (ℕ × Value)
succeeded (responds status body) =
    if is_success status then (status, args_or_null body) ∷ [] else []
succeeded (raises error) = []

-- The responses of the successful runs of a key, the latest first.
abbrev pub successes : String → String → List HandlerRun → List (ℕ × Value)
successes o k [] = []
successes o k (x ∷ xs) =
    (if same_key x.org_id x.idem_key o k then succeeded x.came_to else []) ++ successes o k xs

-- The response that is stored for a key, if there is one.
abbrev pub stored : Option IdempotencyRecord → List (ℕ × Value)
stored none = []
stored (some r) = elim r.status_code [ none ↦ [] | some status ↦ (status, r.response_body) ∷ [] ]

module _ (o k : String) where
  -- The successful runs of the key are the one whose response is stored, if there is one.
  abbrev pub IsOnce : Requests → Type 0
  IsOnce w = successes o k w.runs ≡ stored (row_at o k w.rows)

  runs-run_claimed :
      (org key : String) (h : Handled) (w : Requests)
      → (run_claimed org key h w).1.runs ≡ (log_run org key h w).runs
  unfolding run_claimed
  runs-run_claimed org key (responds status body) w = ground arith
  runs-run_claimed org key (raises error) w = refl

  stored-ended : (h : Handled) (r : IdempotencyRecord) → stored (ended o k h (some r)) ≡ succeeded h
  stored-ended (responds status body) r = ground arith
  stored-ended (raises error) r = refl

  freed-IsOnce :
      (org key : String) (w : Requests)
      → IsPending org key w
      → IsOnce w
      → IsOnce (delete_idempotency org key w)
  freed-IsOnce org key w (r, f, s) h =
      ground (arith, row_at-delete_idempotency o k org key w, eq_iff org o, eq_iff key k)

  claimed-IsOnce :
      (now : ℕ) (org key fingerprint : String) (req : Request) (w : Requests)
      → row_at org key w.rows ≡ none
      → IsOnce w
      → IsOnce (claim (claim_row now org key fingerprint req) w)
  claimed-IsOnce now org key fingerprint req w f h =
      ground (arith, row_at-claim o k now org key fingerprint req w, eq_iff org o, eq_iff key k)

  ran-IsOnce :
      (org key : String) (h : Handled) (w : Requests)
      → IsPending org key w
      → IsOnce w
      → IsOnce (run_claimed org key h w).1
  ran-IsOnce org key h w (r, f, s) p =
      rw (runs-run_claimed org key h w, row_at-run_claimed o k org key h w)
        (ground (arith, f, s, p, stored-ended h r, eq_iff org o, eq_iff key k))

  -- Through any history of requests, of any organisations and at any times, with claims whose
  -- processes die before their handlers run to the end, the successful runs of a key stay the one
  -- whose response is stored for the key, and none where none is stored: the handler of a key
  -- succeeds at most once.
  pub happen_all-IsOnce :
      (sha256 : List ℕ → String) (stale_ms : ℕ) (es : List Event) (w : Requests)
      → IsOnce w
      → IsOnce (happen_all sha256 stale_ms es w)
  happen_all-IsOnce sha256 stale_ms es w h =
      happen_all-keeps sha256 stale_ms IsOnce
        (record { freed = freed-IsOnce; claimed = claimed-IsOnce; ran = ran-IsOnce }) es w h
