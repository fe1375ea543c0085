-- ===== src/Run.antt =====
-- packages/core/src/run.ts: running a tool call under its idempotency key, and the two decisions of
-- a reviewer. A call of `run` is an action on the ledger, the clock and the log of calls of
-- `execute`; what was written before a throw stays written. Within one action nobody else writes.
pub mod Attempts
pub mod History
pub mod Outcomes
pub mod Spec
use quorvel.Common.{
  ℕ, zero, suc, ◌+◌, ◌*◌, ◌^◌, String, Bool, true, false, Option, none, some, List, [], ◌∷◌, get_or,
}
use quorvel.Idempotency.{idempotency_key}
use quorvel.Value.{Value, undefined}
use quorvel.Errors.{
  RunError, duplicate_in_flight, approval_required, policy_denied, action_rejected, failure,
}
use quorvel.Ledger.{
  ActionStatus, pending, running, succeeded, failed, awaiting_approval, approved, rejected, denied,
  ActionRecord, InsertPendingInput, InsertResult, LedgerStore,
}
use quorvel.Policy.{
  ActionContext, Policy, PolicyDecision, allow, deny, require_approval, evaluate_policies,
}

-- What one call of `execute` comes to.
pub data Attempt : Type 0 where
  resolves : Value → Attempt
  throws : String → Attempt

-- `calls` has each call of `execute`, the latest first, with its key and what it came to.
pub record World (S : Type 0) : Type 0 where
  pub store : S
  pub clock : ℕ
  pub calls : List (String × Attempt)

pub data Outcome (A : Type 0) : Type 0 where
  returned : A → Outcome A
  threw : RunError → Outcome A

abbrev pub Action : Type 0 → Type 0 → Type 0
Action S A = World S → Outcome A × World S

-- `execute` is given by what its n-th call within one `run` comes to.
pub record RunOptions (S : Type 0) : Type 0 where
  pub tool : String
  pub args : Value
  pub scope : Option String
  pub cost : Option ℕ
  pub retries : Option ℕ
  pub backoff_ms : Option ℕ
  pub policies : Option (List (Policy S))
  pub execute : ℕ → Attempt

abbrev pub sleep : {S : Type 0} → ℕ → World S → World S
sleep ms w = record w { clock = w.clock + ms }

abbrev pub context : {S : Type 0} → RunOptions S → ActionContext
context opts = record {
  tool = opts.tool;
  args = opts.args;
  scope = opts.scope;
  cost = get_or opts.cost 0;
}

-- what the policies of a call say, before it claims its key
abbrev pub decision : {S : Type 0} → RunOptions S → World S → PolicyDecision
decision opts w = evaluate_policies (get_or opts.policies []) (context opts) w.clock w.store

abbrev pub stored_result : ActionRecord → Value
stored_result r = get_or r.result undefined

abbrev pub pending_input : {S : Type 0} → String → RunOptions S → InsertPendingInput
pending_input key opts = record {
  idempotency_key = key;
  scope = opts.scope;
  tool = opts.tool;
  args = opts.args;
  cost = some (get_or opts.cost 0);
}

module _ {S : Type 0} (ledger : LedgerStore S) where
  -- `markRunning`, and then the call of `execute`
  abbrev pub started : String → Attempt → World S → World S
  started key a w = record w { store = ledger.mark_running key w.store; calls = (key, a) ∷ w.calls }

  abbrev pub finished : String → Value → Action S Value
  finished key v w = (returned v, record w { store = ledger.mark_succeeded key v w.store })

  abbrev pub given_up : String → String → Action S Value
  given_up key e w = (threw (failure e), record w { store = ledger.mark_failed key e w.store })

  -- one round, with what the next rounds do if the call throws
  abbrev pub round : String → Attempt → (String → Action S Value) → Action S Value
  round key (resolves v) next w = finished key v (started key (resolves v) w)
  round key (throws e) next w = next e (started key (throws e) w)

  -- The loop of `execute`, with the retries that are left and the number of the attempt.
  unfoldable pub attempts_from : String → RunOptions S → ℕ → ℕ → Action S Value
  attempts_from key opts zero attempt w = round key (opts.execute attempt) (given_up key) w
  attempts_from key opts (suc left) attempt w =
      round key (opts.execute attempt)
        (λ e w'.
          attempts_from key opts left (attempt + 1)
            (sleep (get_or opts.backoff_ms 100 * 2 ^ attempt) w'))
        w

  unfoldable pub execute : String → RunOptions S → Action S Value
  execute key opts = attempts_from key opts (get_or opts.retries 0) 0

  -- After the policies: refuse, park or execute.
  unfoldable pub decide : String → RunOptions S → PolicyDecision → Action S Value
  decide key opts (deny reason) w =
      (threw (policy_denied key reason), record w { store = ledger.mark_denied key reason w.store })
  decide key opts (require_approval reason) w = (
    threw (approval_required key reason),
    record w { store = ledger.mark_awaiting_approval key reason w.store },
  )
  decide key opts allow w = execute key opts w

  -- The row was there after all: its result, if it has succeeded meanwhile.
  lost_claim : String → Option ActionRecord → Action S Value
  lost_claim key none w = (threw (duplicate_in_flight key), w)
  lost_claim key (some current) w = elim current.status [
    | succeeded ↦ (returned (stored_result current), w)
    | _ ↦ (threw (duplicate_in_flight key), w)
  ]

  after_claim : String → RunOptions S → PolicyDecision → InsertResult → Action S Value
  unfolding lost_claim
  after_claim key opts d claim w = elim claim.inserted [
    | true ↦ decide key opts d w
    | false ↦ elim claim.existing [
      | some r ↦ lost_claim key (some r) w
      | none ↦ lost_claim key (ledger.get key w.store) w
    ]
  ]

  -- There is no row: evaluate the policies, claim the key, and go on.
  run_new : String → RunOptions S → Action S Value
  unfolding after_claim
  run_new key opts w =
      let (claim, s) = ledger.insert_pending w.clock (pending_input key opts) w.store in
      after_claim key opts (decision opts w) claim (record w { store = s })

  -- There is a row: the `switch` on its status.
  run_existing : String → RunOptions S → ActionRecord → ActionStatus → Action S Value
  run_existing key opts r succeeded w = (returned (stored_result r), w)
  run_existing key opts r approved w = execute key opts w
  run_existing key opts r awaiting_approval w =
      (threw (approval_required key (get_or r.reason "approval required")), w)
  run_existing key opts r rejected w = (threw (action_rejected key r.reason), w)
  run_existing key opts r denied w =
      (threw (policy_denied key (get_or r.reason "denied by policy")), w)
  run_existing key opts r pending w = (threw (duplicate_in_flight key), w)
  run_existing key opts r running w = (threw (duplicate_in_flight key), w)
  run_existing key opts r failed w = decide key opts (decision opts w) w

  -- `run`, from the key on
  unfoldable pub run_keyed : String → RunOptions S → Action S Value
  unfolding run_new run_existing decide execute
  run_keyed key opts w = elim (ledger.get key w.store) [
    | none ↦ run_new key opts w
    | some r ↦ run_existing key opts r r.status w
  ]

  -- `run`: the hash of the key is a parameter.
  abbrev pub run : (List ℕ → String) → RunOptions S → Action S Value
  run sha256 opts = run_keyed (idempotency_key sha256 opts.tool opts.args opts.scope) opts

-- The errors of a reviewer's call.
pub data ReviewError : Type 0 where
  no_action : (key : String) → ReviewError
  not_awaiting : (key : String) (status : ActionStatus) → ReviewError

module _ {S : Type 0} (ledger : LedgerStore S) where
  -- the two guards that `approve` and `reject` share, and the write behind them
  review : String → S → Option ActionRecord → S → Option ReviewError × S
  review key s none next = (some (no_action key), s)
  review key s (some r) next = elim r.status [
    | awaiting_approval ↦ (none, next)
    | other ↦ (some (not_awaiting key other), s)
  ]

  unfoldable pub approve : String → S → Option ReviewError × S
  unfolding review
  approve key s = review key s (ledger.get key s) (ledger.mark_approved key s)

  unfoldable pub reject : String → Option String → S → Option ReviewError × S
  unfolding review
  reject key reason s =
      review key s (ledger.get key s)
        (ledger.mark_rejected key (get_or reason "rejected by reviewer") s)

  unfoldable pub list_pending_approvals : Option ℕ → S → List ActionRecord
  list_pending_approvals limit s = ledger.list_by_status awaiting_approval limit s
