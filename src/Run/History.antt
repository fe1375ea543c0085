-- ===== src/Run/History.antt =====
-- run.ts: histories, in which callers and reviewers act on any keys in any order, one call after
-- another.
pub mod Once
pub mod Closed
use quorvel.Common.{
  ℕ, zero, suc, ◌+◌, String, ◌≡◌, ◌≢◌, ◌⊎◌, ◌∙◌, ap, sym, subst, refl, inl, inr, true, false, Bool,
  some, none, Option, List, [], ◌∷◌, ◌++◌, arith, str_eq, eq_iff, get_or, select, Bool-cases,
  if◌then◌else◌,
}
use quorvel.Ledger.{
  ActionStatus, pending, running, succeeded, rejected, denied, ActionRecord, LedgerStore,
  LedgerLaws, pending_record,
}
use quorvel.Policy.{PolicyDecision}
use quorvel.Run.{
  World, pending_input, Attempt, resolves, throws, RunOptions, decision, sleep, run_keyed, approve,
  reject,
}
use quorvel.Run.Attempts.{made, made_then, last_of, last_try, calls_made, last_call, logged_as}
use quorvel.Run.Spec.{effect_of, run_effect, run_keyed-Does}

-- What a caller, a reviewer or the clock can do.
pub data Event (S : Type 0) : Type 0 where
  calls_run : (key : String) → RunOptions S → Event S
  approves : (key : String) → Event S
  rejects : (key : String) → Option String → Event S
  waits : (ms : ℕ) → Event S

module _ {S : Type 0} (ledger : LedgerStore S) where
  unfoldable pub perform : Event S → World S → World S
  perform (calls_run key opts) w = (run_keyed ledger key opts w).1
  perform (approves key) w = record w { store = (approve ledger key w.store).1 }
  perform (rejects key why) w = record w { store = (reject ledger key why w.store).1 }
  perform (waits ms) w = sleep ms w

  unfoldable pub perform_all : List (Event S) → World S → World S
  perform_all [] w = w
  perform_all (e ∷ es) w = perform_all es (perform e w)

-- the statuses in which `run` neither executes nor writes
abbrev pub is_inert : ActionStatus → Bool
is_inert succeeded = true
is_inert rejected = true
is_inert denied = true
is_inert pending = true
is_inert running = true
is_inert _ = false

-- The calls of `execute` for a key that resolved.
abbrev pub resolved : String → List (String × Attempt) → ℕ
resolved key [] = 0
resolved key ((k, resolves v) ∷ l) = if str_eq k key then suc (resolved key l) else resolved key l
resolved key ((k, throws e) ∷ l) = resolved key l

-- The calls of `execute` for a key, the latest first.
abbrev pub made_for : String → List (String × Attempt) → List (String × Attempt)
made_for key calls = select (λ c. str_eq c.0 key) calls

abbrev pub succeeded_rows : Option ActionRecord → ℕ
succeeded_rows none = 0
succeeded_rows (some r) = elim r.status [ succeeded ↦ 1 | _ ↦ 0 ]

pub eq-cases : (a b : String) → (a ≡ b) ⊎ (a ≢ b)
eq-cases a b = elim (Bool-cases (str_eq a b)) [
  | inl same ↦ inl ((eq_iff a b).0 same)
  | inr ne ↦ inr (λ e. cc (ne, (eq_iff a b).1 e))
]
