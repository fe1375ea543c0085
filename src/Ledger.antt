-- ===== src/Ledger.antt =====
-- packages/core/src/ledger.ts: the record of an action, and the interface of a ledger with what its
-- callers rely on. A time stamp is a number of milliseconds, which orders as the ISO text does.
pub mod InMemory
use mathlib.Core.Option
use quorvel.Common.{
  ℕ, suc, ◌+◌, String, ◌≡◌, Bool, true, false, Option, none, some, List, get_or, str_eq,
  if◌then◌else◌,
}
use quorvel.Value.{Value}

pub data ActionStatus : Type 0 where
  pending running succeeded failed awaiting_approval approved rejected denied : ActionStatus

pub record ActionRecord : Type 0 where
  pub idempotency_key : String
  pub scope : Option String
  pub tool : String
  pub args : Value
  pub cost : ℕ
  pub status : ActionStatus
  pub result : Option Value
  pub error : Option String
  pub reason : Option String
  pub attempts : ℕ
  pub created_at : ℕ

pub record InsertPendingInput : Type 0 where
  pub idempotency_key : String
  pub scope : Option String
  pub tool : String
  pub args : Value
  pub cost : Option ℕ

pub record InsertResult : Type 0 where
  pub inserted : Bool
  pub existing : Option ActionRecord

pub record StatsFilter : Type 0 where
  pub scope : Option String
  pub tool : Option String
  pub since : Option ℕ

pub record Stats : Type 0 where
  pub count : ℕ
  pub total_cost : ℕ

-- The row that `insertPending` creates.
abbrev pub pending_record : ℕ → InsertPendingInput → ActionRecord
pending_record now input = record {
  idempotency_key = input.idempotency_key;
  scope = input.scope;
  tool = input.tool;
  args = input.args;
  cost = get_or input.cost 0;
  status = pending;
  result = none;
  error = none;
  reason = none;
  attempts = 0;
  created_at = now;
}

-- The write of each `mark…` method to a record.
abbrev pub as_running : ActionRecord → ActionRecord
as_running r = record r { status = running; attempts = r.attempts + 1 }

abbrev pub as_succeeded : Value → ActionRecord → ActionRecord
as_succeeded v r = record r { status = succeeded; result = some v }

abbrev pub as_failed : String → ActionRecord → ActionRecord
as_failed e r = record r { status = failed; error = some e }

abbrev pub as_awaiting : String → ActionRecord → ActionRecord
as_awaiting why r = record r { status = awaiting_approval; reason = some why }

abbrev pub as_approved : ActionRecord → ActionRecord
as_approved r = record r { status = approved }

abbrev pub as_rejected : String → ActionRecord → ActionRecord
as_rejected why r = record r { status = rejected; reason = some why }

abbrev pub as_denied : String → ActionRecord → ActionRecord
as_denied why r = record r { status = denied; reason = some why }

-- `LedgerStore`. A method that writes returns the new state; `insert_pending` is given the clock.
pub record LedgerStore (S : Type 0) : Type 0 where
  pub get : String → S → Option ActionRecord
  pub insert_pending : ℕ → InsertPendingInput → S → InsertResult × S
  pub mark_running : String → S → S
  pub mark_succeeded : String → Value → S → S
  pub mark_failed : String → String → S → S
  pub mark_awaiting_approval : String → String → S → S
  pub mark_approved : String → S → S
  pub mark_rejected : String → String → S → S
  pub mark_denied : String → String → S → S
  pub list_by_status : ActionStatus → Option ℕ → S → List ActionRecord
  pub stats : StatsFilter → S → Stats

-- A write to the record of one key, seen through `get`.
abbrev pub Writes :
    {S : Type 0} → LedgerStore S → (ActionRecord → ActionRecord) → String → S → S → Type 0
Writes ledger f k s s' =
    (j : String)
    → ledger.get j s' ≡ (if str_eq k j then Option.map f (ledger.get j s) else ledger.get j s)

-- What a caller relies on: a ledger is a map from keys to records, seen through `get`.
pub record LedgerLaws {S : Type 0} (ledger : LedgerStore S) : Type 0 where
  pub insert_taken :
      (now : ℕ) (input : InsertPendingInput) (s : S) (r : ActionRecord)
      → ledger.get input.idempotency_key s ≡ some r
      → ledger.insert_pending now input s ≡ (record { inserted = false; existing = some r }, s)
  pub insert_free :
      (now : ℕ) (input : InsertPendingInput) (s : S)
      → ledger.get input.idempotency_key s ≡ none
      → (ledger.insert_pending now input s).0 ≡ record { inserted = true; existing = none }
  pub get-insert_free :
      (now : ℕ) (input : InsertPendingInput) (s : S) (j : String)
      → ledger.get input.idempotency_key s ≡ none
      → ledger.get j (ledger.insert_pending now input s).1 ≡ (
          if str_eq input.idempotency_key j
          then some (pending_record now input)
          else ledger.get j s)
  pub running_writes : (k : String) (s : S) → Writes ledger as_running k s (ledger.mark_running k s)
  pub succeeded_writes :
      (k : String) (v : Value) (s : S)
      → Writes ledger (as_succeeded v) k s (ledger.mark_succeeded k v s)
  pub failed_writes :
      (k e : String) (s : S) → Writes ledger (as_failed e) k s (ledger.mark_failed k e s)
  pub awaiting_writes :
      (k e : String) (s : S)
      → Writes ledger (as_awaiting e) k s (ledger.mark_awaiting_approval k e s)
  pub approved_writes :
      (k : String) (s : S) → Writes ledger as_approved k s (ledger.mark_approved k s)
  pub rejected_writes :
      (k e : String) (s : S) → Writes ledger (as_rejected e) k s (ledger.mark_rejected k e s)
  pub denied_writes :
      (k e : String) (s : S) → Writes ledger (as_denied e) k s (ledger.mark_denied k e s)
