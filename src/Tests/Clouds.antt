-- ===== src/Tests/Clouds.antt =====
-- service.ts, store.ts: short histories of the cloud service.
use quorvel.Idempotency.{quoted, escaped, escape}
use quorvel.Common.Decimal.{decimal}
use quorvel.Cloud.Requests.Fingerprint.{canonical_text}
use quorvel.Common.{
  ap, ◌≢◌, Bool, not, String, ℕ, ◌+◌, ◌≡◌, refl, true, false, none, some, List, [], ◌∷◌,
  if◌then◌else◌, str_eq, arith,
}
use quorvel.Common.Dict.{lookup}
use quorvel.Value.{undefined, null, num}
use quorvel.Ledger.{ActionStatus, InsertPendingInput}
use quorvel.Billing.{MemUsageStore, get, plan_limit, allows_overage}
use quorvel.Cloud.Actions.{StoredAction, get_action}
use quorvel.Cloud.Table.{counting_rows}
use quorvel.Cloud.Lifecycle.{
  ServiceDeps, Cloud, mark_running, mark_failed, mark_rejected, Call, inserts, marks, serve_all,
}
use quorvel.Cloud.Lifecycle.Terminal.{serve_all-keeps}
use quorvel.Cloud.Lifecycle.Approval.{IsParked, serve_all-IsParked}
use quorvel.Cloud.Lifecycle.Usage.{IsReconciled, serve_all-IsReconciled}
use quorvel.Cloud.Lifecycle.Paths.{IsTold}
use quorvel.Cloud.Lifecycle.Timeline.{serve_all-IsTold}
use quorvel.Cloud.Lifecycle.Leak.{retry_and_fail, serve_all-leaks}
use quorvel.Cloud.Requests.{
  Request, responds, raises, Requests, refused, key_reuse, modify_row, stringify, with_idempotency,
}
use quorvel.Cloud.Requests.Bound.{reply_to, with_idempotency-reply_to}
use quorvel.Cloud.Requests.History.{Event, asks, dies, happen_all}
use quorvel.Cloud.Requests.Replay.{happen_all-replay}
use quorvel.Cloud.Requests.Once.{IsOnce, happen_all-IsOnce}

abbrev plans : String → String
plans org = if str_eq org "acme" then "scale" else "free"

abbrev deps : ServiceDeps
deps = record { plans = some plans; period = λ now. "2026-01"; has_bus = true }

abbrev row : String → String → ActionStatus → StoredAction
row org key status = record {
  org_id = org;
  action = record {
    idempotency_key = key;
    scope = none;
    tool = "mail";
    args = null;
    cost = 1;
    status = status;
    result = none;
    error = none;
    reason = none;
    attempts = 1;
    created_at = 3;
  };
  updated_at = 4;
}

abbrev mail : InsertPendingInput
mail = record { idempotency_key = "k2"; scope = none; tool = "mail"; args = undefined; cost = none }

abbrev only : StoredAction → MemUsageStore → Cloud
only r usage = record { actions = r ∷ []; usage = usage; published = [] }

abbrev busy : List Call
busy =
    inserts 5 "acme" mail
    ∷ marks 6 "acme" "k1" mark_running
    ∷ marks 7 "acme" "k2" (mark_failed "x")
    ∷ marks 8 "acme" "k1" (mark_rejected "no")
    ∷ []

serve_all-keeps_example :
    get_action "acme" "k1"
      (serve_all deps busy (only (row "acme" "k1" ActionStatus.succeeded) [])).actions
    ≡ some (row "acme" "k1" ActionStatus.succeeded)
unfolding get_action
serve_all-keeps_example =
    serve_all-keeps deps "acme" "k1" (row "acme" "k1" ActionStatus.succeeded) busy
      (only (row "acme" "k1" ActionStatus.succeeded) []) refl refl

abbrev parked : Cloud
parked = only (row "acme" "k1" ActionStatus.awaiting_approval) []

parked-IsParked : IsParked "acme" "k1" parked
unfolding get_action
parked-IsParked = (row "acme" "k1" ActionStatus.awaiting_approval, refl, refl)

serve_all-IsParked_example : IsParked "acme" "k1" (serve_all deps busy parked)
serve_all-IsParked_example =
    serve_all-IsParked deps "acme" "k1" busy parked
      (tt, ((λ e. ground arith), ((λ e. ground arith), ((λ e. ground arith), tt)))) parked-IsParked

abbrev nothing : Cloud
nothing = record { actions = []; usage = []; published = [] }

nothing-IsTold : IsTold "acme" "k2" nothing
unfolding get_action
nothing-IsTold = refl

serve_all-IsTold_example : IsTold "acme" "k2" (serve_all deps busy nothing)
serve_all-IsTold_example = serve_all-IsTold deps refl "acme" "k2" busy nothing nothing-IsTold

nothing-IsReconciled : IsReconciled "acme" "2026-01" nothing
unfolding lookup
nothing-IsReconciled = refl

scale_allows_overage : allows_overage (plans "acme") ≡ true
unfolding allows_overage
scale_allows_overage = refl

serve_all-IsReconciled_example : IsReconciled "acme" "2026-01" (serve_all deps busy nothing)
serve_all-IsReconciled_example =
    serve_all-IsReconciled deps plans "acme" "2026-01" refl scale_allows_overage busy nothing
      ((refl, refl), ((refl, refl), ((refl, refl), ((refl, refl), tt)))) nothing-IsReconciled

abbrev exhausted : Cloud
exhausted =
    only (row "zoe" "k1" ActionStatus.failed)
      (("zoe\02026-01", record { added = 1001; removed = 1 }) ∷ [])

free_limit : plan_limit (plans "zoe") ≡ some 1000
unfolding plan_limit
free_limit = refl

free_no_overage : allows_overage (plans "zoe") ≡ false
unfolding allows_overage
free_no_overage = refl

serve_all-leaks_example :
    let w = serve_all deps (retry_and_fail 9 "zoe" "k1" "x") exhausted in
    ((get "zoe" "2026-01" w.usage).added + 1 ≡ 1000 + (get "zoe" "2026-01" w.usage).removed)
    × (counting_rows "zoe" w.actions ≡ counting_rows "zoe" exhausted.actions)
unfolding get_action lookup
serve_all-leaks_example =
    serve_all-leaks deps plans "zoe" "k1" 9 1000 refl free_limit free_no_overage "x" exhausted
      (row "zoe" "k1" ActionStatus.failed) refl refl refl

-- a hash that is one where the texts are
abbrev unhashed : List ℕ → String
unhashed [] = ""
unhashed (c ∷ cs) = "#"

abbrev create : Request
create = record { method = "POST"; path = "/v1/actions"; body = num 1 }

abbrev untouched : Requests
untouched = record { rows = []; runs = [] }

with_idempotency-reply_to_example :
    with_idempotency unhashed 60000 2 70000 "acme" "r1" create (responds 201 null) untouched
    ≡ some (reply_to unhashed 60000 70000 "acme" "r1" create (responds 201 null) untouched)
with_idempotency-reply_to_example =
    with_idempotency-reply_to unhashed 60000 70000 "acme" "r1" create (responds 201 null) 0
      untouched

abbrev traffic : List Event
traffic =
    asks 2 "acme" "r1" create (responds 500 null)
    ∷ dies 3 "acme" "r2" create
    ∷ asks 90000 "acme" "r2" create (raises "down")
    ∷ asks 90001 "acme" "r2" create (responds 200 (num 4))
    ∷ asks 90002 "acme" "r2" create (responds 200 (num 5))
    ∷ []

-- a hash that tells texts of even length from those of odd length
abbrev is_even : List ℕ → Bool
is_even [] = true
is_even (c ∷ cs) = not (is_even cs)

abbrev parity : List ℕ → String
parity cs = if is_even cs then "even" else "odd"

abbrev other : Request
other = record create { path = "/v1/action" }

create-other : parity (canonical_text create) ≢ parity (canonical_text other)
unfolding stringify quoted escaped escape decimal
create-other h = let bad : true ≡ false = ap (λ s. str_eq s "even") h in cc

-- the key is used again with another request
happen_all-replay_example :
    let later =
      happen_all parity 60000
        (asks 1 "acme" "r1" create (responds 201 (num 7)) ∷ traffic)
        untouched in
    with_idempotency parity 60000 1 99999 "acme" "r1" other (responds 201 (num 8)) later
    ≡ some (refused key_reuse, later)
happen_all-replay_example =
    happen_all-replay parity 60000 "acme" "r1" 0 1 99999 create other 201 (num 7) traffic
      (responds 201 (num 8)) untouched refl refl (λ h. elim (create-other h) [ ])

happen_all-IsOnce_example : IsOnce "acme" "r2" (happen_all unhashed 60000 traffic untouched)
happen_all-IsOnce_example = happen_all-IsOnce "acme" "r2" unhashed 60000 traffic untouched refl

-- the third request of the key is answered from the table
runs_once :
    (happen_all unhashed 60000 traffic untouched).runs
    ≡ record { org_id = "acme"; idem_key = "r2"; came_to = responds 200 (num 4) }
      ∷ record { org_id = "acme"; idem_key = "r2"; came_to = raises "down" }
      ∷ record { org_id = "acme"; idem_key = "r1"; came_to = responds 500 null }
      ∷ []
unfolding happen_all modify_row
runs_once = refl
