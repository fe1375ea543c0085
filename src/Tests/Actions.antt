-- ===== src/Tests/Actions.antt =====
-- run.ts, policy.ts: a charge that fails once and then succeeds, with and without policies; a
-- policy's budget parks it for a reviewer.
use quorvel.Common.{ℕ, zero, suc, ◌≡◌, ◌≢◌, refl, none, some, List, [], ◌∷◌}
use quorvel.Value.{num, str, obj, end, field}
use quorvel.Errors.{action_rejected}
use quorvel.Ledger.{ActionRecord, succeeded, pending_record, as_awaiting, as_approved}
use quorvel.Common.Dict.{lookup, insert, modify, values}
use quorvel.Common.Decimal.{decimal}
use quorvel.Ledger.InMemory.{
  Store, in_memory, in_memory-LedgerLaws, get, insert_pending, patch, stats,
}
use quorvel.Policy.{Policy, budget}
use quorvel.Policy.{evaluate_policies, rate_limit, asks}
use quorvel.Policy.Precedence.{
  evaluate_policies-verdict, verdict, first_denial, first_approval, decisions,
}
use quorvel.Run.{
  attempts_from, World, Attempt, resolves, throws, RunOptions, returned, threw, run_keyed, approve,
  reject, execute, decision, context, pending_input,
}
use quorvel.Run.Attempts.{Does, execute-Does, executed, last_call, calls_made}
use quorvel.Run.Spec.{run_effect, run_keyed-Does}
use quorvel.Run.Outcomes.{
  MayExecute, run_keyed-replay, run_keyed-MayExecute, run_keyed-approve, run_keyed-reject,
}
use quorvel.Run.History.{Event, calls_run, approves, rejects, waits, perform_all}
use quorvel.Run.History.Once.{IsOnce, perform_all-IsOnce}
use quorvel.Run.History.Closed.{IsClosed, perform_all-IsClosed}

-- fails in the first attempt, and then gives a receipt
abbrev flaky : ℕ → Attempt
flaky zero = throws "timeout"
flaky (suc n) = resolves (str "receipt")

abbrev broken : ℕ → Attempt
broken n = throws "down"

abbrev with_policies : List (Policy Store) → (ℕ → Attempt) → RunOptions Store
with_policies policies execute = record {
  tool = "charge";
  args = obj (field "amount" (num 5) end);
  scope = some "org";
  cost = some 5;
  retries = some 1;
  backoff_ms = none;
  policies = some policies;
  execute = execute;
}

abbrev charge : RunOptions Store
charge = with_policies [] flaky

abbrev small_budget : Policy Store
small_budget =
    budget in_memory (record { limit = 3; window_ms = none; tool = none; on_exceed = some asks })

abbrev limits : Policy Store
limits =
    rate_limit in_memory (record { limit = 9; window_ms = 60000; tool = none; on_exceed = none })

abbrev empty : World Store
empty = record { store = []; clock = 1000; calls = [] }

abbrev after_charge : World Store
after_charge = (run_keyed in_memory "k" charge empty).1

charge_returns : (run_keyed in_memory "k" charge empty).0 ≡ returned (str "receipt")
unfolding run_keyed get lookup insert_pending evaluate_policies attempts_from patch modify insert
charge_returns = refl

charge_takes : after_charge.clock ≡ 1100
unfolding run_keyed get lookup insert_pending evaluate_policies attempts_from patch modify insert
charge_takes = refl

abbrev day : List (Event Store)
day =
    calls_run "k" (with_policies (small_budget ∷ []) flaky)
    ∷ rejects "other" none
    ∷ waits 50
    ∷ approves "k"
    ∷ calls_run "k" charge
    ∷ calls_run "k" (with_policies [] broken)
    ∷ calls_run "other" charge
    ∷ []

perform_all-IsOnce_example : IsOnce in_memory "k" (perform_all in_memory day empty)
unfolding get lookup
perform_all-IsOnce_example = perform_all-IsOnce in_memory in_memory-LedgerLaws "k" day empty refl

abbrev charged_row : ActionRecord
charged_row = record (pending_record 1000 (pending_input "k" charge)) {
  status = succeeded;
  attempts = 2;
  result = some (str "receipt");
}

perform_all-IsClosed_example :
    IsClosed in_memory in_memory-LedgerLaws "k" charged_row after_charge.calls
      (perform_all in_memory day after_charge)
unfolding run_keyed get lookup insert_pending evaluate_policies attempts_from patch modify insert
perform_all-IsClosed_example =
    perform_all-IsClosed in_memory in_memory-LedgerLaws "k" day charged_row after_charge.calls
      after_charge refl (refl, refl)

run_keyed-Does_example :
    Does in_memory "k"
      (run_effect in_memory "k" charge empty)
      empty
      (run_keyed in_memory "k" charge empty).0
      (run_keyed in_memory "k" charge empty).1
run_keyed-Does_example = run_keyed-Does in_memory in_memory-LedgerLaws "k" charge empty

run_keyed-replay_example :
    run_keyed in_memory "k" (with_policies [] broken) after_charge
    ≡ (returned (str "receipt"), after_charge)
run_keyed-replay_example =
    run_keyed-replay in_memory in_memory-LedgerLaws "k" charge (with_policies [] broken) empty
      (str "receipt") charge_returns

charge_is_logged : (run_keyed in_memory "k" charge empty).1.calls ≢ []
unfolding run_keyed get lookup insert_pending evaluate_policies attempts_from patch modify insert
charge_is_logged h = cc

run_keyed-MayExecute_example : MayExecute (in_memory.get "k" empty.store) (decision charge empty)
run_keyed-MayExecute_example =
    run_keyed-MayExecute in_memory in_memory-LedgerLaws "k" charge empty charge_is_logged

execute-Does_example :
    Does in_memory "k"
      (executed (last_call charge) (calls_made charge) charged_row)
      after_charge
      (execute in_memory "k" charge after_charge).0
      (execute in_memory "k" charge after_charge).1
unfolding run_keyed get lookup insert_pending evaluate_policies attempts_from patch modify insert
execute-Does_example =
    execute-Does in_memory in_memory-LedgerLaws "k" charge after_charge charged_row refl

abbrev parked_row : ActionRecord
parked_row =
    as_awaiting "budget exceeded for scope org: 5 > 3"
      (pending_record 1000 (pending_input "k" charge))

abbrev parked : World Store
parked = record empty { store = ("k", parked_row) ∷ [] }

charge_is_parked :
    (run_keyed in_memory "k" (with_policies (limits ∷ small_budget ∷ []) flaky) empty).1 ≡ parked
unfolding run_keyed get lookup insert_pending evaluate_policies attempts_from patch modify insert
    budget rate_limit stats values decimal
charge_is_parked = refl

run_keyed-approve_example :
    let (error, s) = approve in_memory "k" parked.store in
    (error ≡ none)
    × Does in_memory "k"
        (executed (last_call charge) (calls_made charge) (as_approved parked_row))
        (record parked { store = s })
        (run_keyed in_memory "k" charge (record parked { store = s })).0
        (run_keyed in_memory "k" charge (record parked { store = s })).1
unfolding get lookup
run_keyed-approve_example =
    run_keyed-approve in_memory in_memory-LedgerLaws "k" charge parked parked_row refl refl

run_keyed-reject_example :
    let (error, s) = reject in_memory "k" (some "no") parked.store in
    (error ≡ none)
    × (run_keyed in_memory "k" charge (record parked { store = s })
        ≡ (threw (action_rejected "k" (some "no")), record parked { store = s }))
unfolding get lookup
run_keyed-reject_example =
    run_keyed-reject in_memory in_memory-LedgerLaws "k" charge "no" parked parked_row refl refl

evaluate_policies-verdict_example :
    evaluate_policies (limits ∷ small_budget ∷ []) (context charge) 1000 parked.store
    ≡ verdict
        (first_denial (decisions (limits ∷ small_budget ∷ []) (context charge) 1000 parked.store))
        (first_approval (decisions (limits ∷ small_budget ∷ []) (context charge) 1000 parked.store))
evaluate_policies-verdict_example =
    evaluate_policies-verdict (limits ∷ small_budget ∷ []) (context charge) 1000 parked.store
