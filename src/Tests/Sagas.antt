-- ===== src/Tests/Sagas.antt =====
-- saga.ts: a trip of two steps, the second of which is declined, and one in which both succeed.
use quorvel.Common.{
  ℕ, ◌+◌, ◌*◌, ◌%◌, ◌≡◌, refl, String, none, some, List, [], ◌∷◌, length, leb, ltb, ◌&&◌,
  if◌then◌else◌,
}
use quorvel.Common.Decimal.{decimal}
use quorvel.Common.Dict.{Dict, lookup, insert, modify}
use quorvel.Common.Sorting.{sort_by}
use quorvel.Value.{Value, num, str, undefined}
use quorvel.Ledger.InMemory.{Store, in_memory, in_memory-LedgerLaws, get, insert_pending, patch}
use quorvel.Policy.{evaluate_policies}
use quorvel.Idempotency.{idempotency_key}
use quorvel.Run.{World, Attempt, resolves, throws, run_keyed, attempts_from}
use quorvel.SagaStore.{SagaStepRecord, SagaStepStatus, set_saga_status, get_steps}
use quorvel.Saga.Types.{
  SagaContext, StepDefinition, SagaDef, SagaOutcome, finished, aborted, SagaWorld, to_undo,
}
use quorvel.Saga.Undo.{compensate, undo_all, undo_step}
use quorvel.Saga.Engine.{forward_from}
use quorvel.Saga.Rollback.{RolledBack, compensate-RolledBack, status_in}
use quorvel.Saga.Forward.{forward_from-finished, HasResults, forward_from-HasResults}

-- the place of a hash: a number that depends on every code point
abbrev fold_codes : ℕ → List ℕ → ℕ
fold_codes acc [] = acc
fold_codes acc (c ∷ cs) = fold_codes ((acc * 31 + c) % 1000003) cs

abbrev digest : List ℕ → String
digest text = decimal (fold_codes 7 text)

abbrev step_of : String → (ℕ → Attempt) → StepDefinition Store
step_of name act = record {
  name = name;
  action = λ ctx n. act n;
  undo = some (λ out ctx n. resolves undefined);
  retries = none;
  compensation_retries = none;
  cost = none;
  policies = none;
}

abbrev trip : (ℕ → Attempt) → SagaDef Store
trip pay = record {
  name = "trip";
  steps = step_of "reserve" (λ n. resolves (str "seat")) ∷ step_of "pay" pay ∷ [];
}

abbrev declined : SagaDef Store
declined = trip (λ n. throws "declined")

abbrev paid : SagaDef Store
paid = trip (λ n. resolves (num 5))

abbrev reserved : SagaStepRecord
reserved = record {
  saga_id = "t1";
  step_index = 0;
  name = "reserve";
  status = SagaStepStatus.succeeded;
  output = some (str "seat");
  error = none;
}

abbrev no_actions : World Store
no_actions = record { store = []; clock = 1000; calls = [] }

abbrev half_way : SagaWorld Store
half_way = record {
  actions = no_actions;
  saga_store = record { sagas = []; steps = reserved ∷ [] };
}

abbrev rolled_back : SagaOutcome × SagaWorld Store
rolled_back = compensate in_memory digest declined "t1" "t1" "pay" "declined" (num 0) half_way

rollback_aborts : rolled_back ≡ (aborted "pay" "declined" ("reserve" ∷ []), rolled_back.1)
unfolding compensate undo_all to_undo sort_by get_steps set_saga_status undo_step run_keyed get
    lookup insert_pending evaluate_policies attempts_from
rollback_aborts = refl

compensate-RolledBack_example :
    RolledBack "t1" half_way.saga_store rolled_back.1.saga_store ("reserve" ∷ [])
compensate-RolledBack_example =
    compensate-RolledBack in_memory digest declined "t1" "t1" "pay" "declined" (num 0) half_way
      rollback_aborts

abbrev fresh : SagaWorld Store
fresh = record { actions = no_actions; saga_store = record { sagas = []; steps = [] } }

abbrev start_context : SagaContext
start_context = record { saga_id = "t1"; input = num 0; scope = "t1"; outputs = [] }

abbrev outputs : Dict Value
outputs = ("reserve", str "seat") ∷ ("pay", num 5) ∷ []

abbrev passed : SagaOutcome × SagaWorld Store
passed = forward_from in_memory digest paid start_context 0 paid.steps fresh

pass_finishes : passed ≡ (finished outputs, passed.1)
unfolding forward_from run_keyed get lookup insert_pending evaluate_policies attempts_from patch
    modify insert idempotency_key
pass_finishes = refl

forward_from-finished_example : status_in "t1" 1 passed.1 ≡ (
    if leb 0 1 && ltb 1 (0 + length paid.steps)
    then some SagaStepStatus.succeeded
    else status_in "t1" 1 fresh)
forward_from-finished_example =
    forward_from-finished in_memory digest paid start_context 0 1 paid.steps fresh outputs passed.1
      pass_finishes

results_are_there : HasResults in_memory digest paid "t1" "t1" 0 paid.steps passed.1.actions
unfolding forward_from run_keyed get lookup insert_pending evaluate_policies attempts_from patch
    modify insert idempotency_key
results_are_there = ((str "seat", (_, refl, refl, refl)), ((num 5, (_, refl, refl, refl)), tt))

forward_from-HasResults_example :
    (outs : Dict Value) × ((forward_from in_memory digest paid start_context 0 paid.steps
        passed.1).0
      ≡ finished outs)
    × ((forward_from in_memory digest paid start_context 0 paid.steps passed.1).1.actions
        ≡ passed.1.actions)
forward_from-HasResults_example =
    forward_from-HasResults in_memory digest paid in_memory-LedgerLaws start_context 0 paid.steps
      passed.1 results_are_there
