-- ===== src/Saga/Types.antt =====
-- packages/core/src/saga.ts: what a saga and its callers exchange, the writes to the saga store, and
-- what is read back from it.
use Prim.Native.String
use quorvel.Common.{
  ℕ, String, Bool, true, false, Option, List, [], ◌∷◌, get_or, leb, select, if◌then◌else◌,
}
use quorvel.Common.Dict.{Dict, insert}
use quorvel.Common.Sorting.{sort_by}
use quorvel.Value.{Value, undefined, null, num, str, obj, end, field}
use quorvel.Errors.{RunError, duplicate_in_flight, approval_required}
use quorvel.Policy.{Policy}
use quorvel.Run.{World, Attempt}
use quorvel.SagaStore.{
  SagaStatus, SagaStepStatus, SagaStepRecord, Sagas, set_saga_status, set_current_step, record_step,
  get_steps,
}

pub record SagaContext : Type 0 where
  pub saga_id : String
  pub input : Value
  pub scope : String
  pub outputs : Dict Value

pub record StepDefinition (S : Type 0) : Type 0 where
  pub name : String
  pub action : SagaContext → ℕ → Attempt
  pub undo : Option (Value → SagaContext → ℕ → Attempt)
  pub retries : Option ℕ
  pub compensation_retries : Option ℕ
  pub cost : Option ℕ
  pub policies : Option (List (Policy S))

-- `Saga`: its name and its steps in order
pub record SagaDef (S : Type 0) : Type 0 where
  pub name : String
  pub steps : List (StepDefinition S)

pub record RunSagaOptions : Type 0 where
  pub saga_id : String
  pub input : Value
  pub scope : Option String

pub record CompensationFailure : Type 0 where
  pub step : String
  pub error : String

-- How `run` ends: the result, `SagaAbortedError`, `SagaCompensationError`, or the error of a step
-- that pauses the saga.
pub data SagaOutcome : Type 0 where
  finished : Dict Value → SagaOutcome
  aborted : (failed_step cause : String) → List String → SagaOutcome
  stuck : (failed_step cause : String) → List CompensationFailure → SagaOutcome
  paused : RunError → SagaOutcome

pub record SagaWorld (S : Type 0) : Type 0 where
  pub actions : World S
  pub saga_store : Sagas

-- the writes to the saga store, at the time of the clock
abbrev pub with_saga_status :
    {S : Type 0} → String → SagaStatus → Option String → Option String → SagaWorld S → SagaWorld S
with_saga_status id status failed error w = record w {
  saga_store = set_saga_status w.actions.clock id status failed error w.saga_store;
}

abbrev pub with_current_step : {S : Type 0} → String → ℕ → SagaWorld S → SagaWorld S
with_current_step id i w = record w {
  saga_store = set_current_step w.actions.clock id i w.saga_store;
}

abbrev pub with_step : {S : Type 0} → SagaStepRecord → SagaWorld S → SagaWorld S
with_step r w = record w { saga_store = record_step r w.saga_store }

-- `v ?? d`
abbrev pub coalesce : Value → Value → Value
coalesce undefined d = d
coalesce null d = d
coalesce v d = v

abbrev pub is_recorded : SagaStepStatus → Bool
is_recorded SagaStepStatus.pending = false
is_recorded _ = true

outputs_from : List SagaStepRecord → Dict Value → Dict Value
outputs_from [] out = out
outputs_from (r ∷ rs) out =
    outputs_from rs
      (if is_recorded r.status then insert r.name (get_or r.output undefined) out else out)

unfoldable pub collect_outputs : String → Sagas → Dict Value
unfolding outputs_from
collect_outputs id s = outputs_from (get_steps id s) []

abbrev pub is_compensated : SagaStepRecord → Bool
is_compensated r = elim r.status [ SagaStepStatus.compensated ↦ true | _ ↦ false ]

abbrev pub to_be_undone : SagaStepRecord → Bool
to_be_undone r = elim r.status [
  | SagaStepStatus.succeeded ↦ true
  | SagaStepStatus.compensation_failed ↦ true
  | _ ↦ false
]

-- the steps to undo, the highest index first
unfoldable pub to_undo : String → Sagas → List SagaStepRecord
to_undo id s = sort_by (λ a b. leb b.step_index a.step_index) (select to_be_undone (get_steps id s))

abbrev pub names : List SagaStepRecord → List String
names [] = []
names (r ∷ rs) = r.name ∷ names rs

unfoldable pub throw_aborted :
    {S : Type 0} → String → String → String → SagaWorld S → SagaOutcome × SagaWorld S
throw_aborted id failed cause w =
    (aborted failed cause (names (select is_compensated (get_steps id w.saga_store))), w)

infixr 65 ◌&◌
abbrev pub ◌&◌ : String → String → String
a & b = String.◌++◌ a b

abbrev pub step_args : String → ℕ → Value
step_args id i = obj (field "sagaId" (str id) (field "step" (num i) end))

abbrev pub context_of : String → Value → String → Sagas → SagaContext
context_of id input scope s = record {
  saga_id = id;
  input = input;
  scope = scope;
  outputs = collect_outputs id s;
}

-- an approval that is missing, or an action in flight: the saga waits and rolls nothing back
abbrev pub pauses : RunError → Bool
pauses (approval_required key reason) = true
pauses (duplicate_in_flight key) = true
pauses _ = false
