-- ===== src/Cloud/Lifecycle.antt =====
-- apps/api/src/service.ts, the life of an action: inserting it, and the transitions between its
-- statuses, with the quota and the event bus. The plan of an organisation and the billing period at a
-- time are parameters; the bus keeps what was published, the latest first. Neither throws.
pub mod Rows
pub mod Terminal
pub mod Approval
pub mod Usage
pub mod Leak
pub mod Paths
pub mod Timeline
use Prim.Native.String
use quorvel.Common.{
  ℕ, String, Bool, true, false, ◌&&◌, ◌||◌, not, Option, none, some, List, [], ◌∷◌, get_or, str_eq,
  if◌then◌else◌,
}
use quorvel.Value.{Value, undefined, null}
use quorvel.Ledger.{
  ActionStatus, pending, running, succeeded, failed, awaiting_approval, approved, rejected, denied,
  InsertPendingInput, InsertResult,
}
use quorvel.Ledger.InMemory.{eq_status, is_counting}
use quorvel.Billing.{MemUsageStore, UsageVerdict, reserve, release}
use quorvel.Cloud.Actions.{
  StoredAction, Actions, get_action, insert_row, TransitionPatch, apply_transition, DomainEvent,
  EventKind, event_of, args_or_null,
}
use quorvel.Cloud.Errors.{ApiError, bad_request, quota_error, conflict_error, Answer, ok, fails}

-- `ALLOWED_TRANSITIONS`
abbrev pub allowed_transitions : ActionStatus → List ActionStatus
allowed_transitions pending =
    running ∷ succeeded ∷ failed ∷ awaiting_approval ∷ denied ∷ rejected ∷ []
allowed_transitions running = running ∷ succeeded ∷ failed ∷ awaiting_approval ∷ denied ∷ []
allowed_transitions awaiting_approval = approved ∷ rejected ∷ denied ∷ []
allowed_transitions approved = running ∷ succeeded ∷ failed ∷ []
allowed_transitions failed = running ∷ succeeded ∷ failed ∷ awaiting_approval ∷ denied ∷ []
allowed_transitions succeeded = []
allowed_transitions rejected = []
allowed_transitions denied = []

abbrev pub includes : List ActionStatus → ActionStatus → Bool
includes [] s = false
includes (x ∷ xs) s = eq_status x s || includes xs s

abbrev pub may_become : ActionStatus → ActionStatus → Bool
may_become from to = includes (allowed_transitions from) to

status_name : ActionStatus → String
status_name pending = "pending"
status_name running = "running"
status_name succeeded = "succeeded"
status_name failed = "failed"
status_name awaiting_approval = "awaiting_approval"
status_name approved = "approved"
status_name rejected = "rejected"
status_name denied = "denied"

infixr 65 ◌&◌
abbrev ◌&◌ : String → String → String
a & b = String.◌++◌ a b

-- the error of `assertTransition`
unfoldable pub illegal : ActionStatus → ActionStatus → ApiError
unfolding status_name
illegal from to =
    conflict_error ("illegal action transition: " & status_name from & " -> " & status_name to)

-- What the service is given: the limiter's plans, if it has a limiter, the billing period at a time,
-- and whether it has a bus.
pub record ServiceDeps : Type 0 where
  pub plans : Option (String → String)
  pub period : ℕ → String
  pub has_bus : Bool

pub record Cloud : Type 0 where
  pub actions : Actions
  pub usage : MemUsageStore
  pub published : List DomainEvent

module _ (deps : ServiceDeps) where
  -- `limiter.reserve` and `limiter.release`
  abbrev pub reserve_slot : (String → String) → ℕ → String → Cloud → UsageVerdict × Cloud
  reserve_slot plans now org w =
      let (verdict, u) = reserve plans org (deps.period now) w.usage in
      (verdict, record w { usage = u })

  abbrev pub release_slot : ℕ → String → Cloud → Cloud
  release_slot now org w = record w { usage = release org (deps.period now) w.usage }

  -- `if (this.bus)`: the stored row is read again and published
  abbrev publish_row : EventKind → Option StoredAction → Cloud → Cloud
  publish_row kind none w = w
  publish_row kind (some r) w = record w { published = event_of kind r ∷ w.published }

  unfoldable pub publish : EventKind → String → String → Cloud → Cloud
  publish kind org key w =
      if deps.has_bus then publish_row kind (get_action org key w.actions) w else w

  reconcile : Bool → Bool → (String → String) → ℕ → String → Cloud → Cloud
  reconcile true false plans now org w = release_slot now org w
  reconcile false true plans now org w = (reserve_slot plans now org w).1
  reconcile true true plans now org w = w
  reconcile false false plans now org w = w

  unfoldable pub reconcile_usage : ℕ → String → ActionStatus → ActionStatus → Cloud → Cloud
  unfolding reconcile
  reconcile_usage now org from to w = elim deps.plans [
    | none ↦ w
    | some plans ↦ reconcile (is_counting from) (is_counting to) plans now org w
  ]

  transition_row :
      ℕ → String → String → TransitionPatch → Option StoredAction → Cloud → Option ApiError × Cloud
  unfolding reconcile_usage publish
  transition_row now org key patch none w = (none, w)
  transition_row now org key patch (some current) w =
      let from = current.action.status in
      if may_become from patch.status
      then (
        none,
        publish EventKind.transitioned org key (
            reconcile_usage now org from patch.status
              (record w { actions = apply_transition now org key patch w.actions })),
      )
      else (some (illegal from patch.status), w)

  -- `transition`: of an action that is not there it does nothing
  unfoldable pub transition :
      ℕ → String → String → TransitionPatch → Cloud → Option ApiError × Cloud
  unfolding transition_row
  transition now org key patch w = transition_row now org key patch (get_action org key w.actions) w

  refund : Option (String → String) → ℕ → String → Cloud → Cloud
  refund none now org w = w
  refund (some plans) now org w = release_slot now org w

  -- behind the reservation: insert, refund a duplicate, publish a new action
  insert_reserved : ℕ → String → InsertPendingInput → Cloud → Answer InsertResult × Cloud
  unfolding refund publish
  insert_reserved now org input w =
      let (res, actions) = insert_row now org input w.actions in
      let stored = record w { actions = actions } in
      (
        ok res,
        if res.inserted
            then publish EventKind.created org input.idempotency_key stored
            else refund deps.plans now org stored,
      )

  after_reserve :
      ℕ → String → InsertPendingInput → UsageVerdict × Cloud → Answer InsertResult × Cloud
  unfolding insert_reserved
  after_reserve now org input (verdict, w) =
      if verdict.allowed
      then insert_reserved now org input w
      else (fails (quota_error (get_or verdict.reason "quota exceeded")), w)

  -- `insertPending` of the service
  unfoldable pub insert_pending :
      ℕ → String → InsertPendingInput → Cloud → Answer InsertResult × Cloud
  unfolding after_reserve insert_reserved
  insert_pending now org input w =
      if str_eq input.tool ""
      then (fails (bad_request "idempotencyKey and tool are required"), w)
      else elim deps.plans [
        | none ↦ insert_reserved now org input w
        | some plans ↦ after_reserve now org input (reserve_slot plans now org w)
      ]

-- The calls that move an action, each with its patch.
pub data Mark : Type 0 where
  mark_running : Mark
  mark_succeeded : (result : Value) → Mark
  mark_failed : (error : String) → Mark
  mark_awaiting_approval : (reason : String) → Mark
  mark_approved : Mark
  mark_rejected : (reason : String) → Mark
  mark_denied : (reason : String) → Mark

abbrev patch_to : ActionStatus → TransitionPatch
patch_to status = record {
  status = status;
  increment_attempts = false;
  result = none;
  error = none;
  reason = none;
}

abbrev pub patch_of : Mark → TransitionPatch
patch_of mark_running = record (patch_to running) { increment_attempts = true }
patch_of (mark_succeeded result) = record (patch_to succeeded) {
  result = some (args_or_null result);
}
patch_of (mark_failed error) = record (patch_to failed) { error = some error }
patch_of (mark_awaiting_approval reason) = record (patch_to awaiting_approval) {
  reason = some reason;
}
patch_of mark_approved = patch_to approved
patch_of (mark_rejected reason) = record (patch_to rejected) { reason = some reason }
patch_of (mark_denied reason) = record (patch_to denied) { reason = some reason }

-- What the callers of the service do to its actions.
pub data Call : Type 0 where
  inserts : (now : ℕ) (org : String) → InsertPendingInput → Call
  marks : (now : ℕ) (org key : String) → Mark → Call

module _ (deps : ServiceDeps) where
  unfoldable pub serve : Call → Cloud → Cloud
  serve (inserts now org input) w = (insert_pending deps now org input w).1
  serve (marks now org key mark) w = (transition deps now org key (patch_of mark) w).1

  unfoldable pub serve_all : List Call → Cloud → Cloud
  serve_all [] w = w
  serve_all (c ∷ cs) w = serve_all cs (serve c w)
