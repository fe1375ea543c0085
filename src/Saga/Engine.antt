-- ===== src/Saga/Engine.antt =====
-- packages/core/src/saga.ts, `forward` and `run`: the forward pass, and starting or resuming a saga.
use quorvel.Common.{ℕ, ◌+◌, String, Option, none, some, List, [], ◌∷◌, get_or, if◌then◌else◌}
use quorvel.Common.Dict.{insert}
use quorvel.Value.{Value}
use quorvel.Errors.{RunError, message}
use quorvel.Ledger.{LedgerStore}
use quorvel.Run.{World, Outcome, returned, threw, RunOptions, run}
use quorvel.SagaStore.{
  SagaStatus, running, awaiting_step, succeeded, compensating, compensated, compensation_failed,
  SagaStepStatus, SagaRecord, SagaStepRecord, create_saga,
}
use quorvel.Saga.Types.{
  SagaContext, StepDefinition, SagaDef, RunSagaOptions, SagaOutcome, finished, paused, SagaWorld,
  with_saga_status, with_current_step, with_step, coalesce, collect_outputs, throw_aborted, ◌&◌,
  step_args, context_of, pauses,
}
use quorvel.Saga.Undo.{compensate}

abbrev pub step_options :
    {S : Type 0} → SagaDef S → StepDefinition S → ℕ → SagaContext → RunOptions S
step_options saga step i ctx = record {
  tool = "saga:" & saga.name & ":" & step.name;
  args = step_args ctx.saga_id i;
  scope = some ctx.scope;
  cost = step.cost;
  retries = step.retries;
  backoff_ms = none;
  policies = step.policies;
  execute = λ n. step.action ctx n;
}

abbrev pub succeeded_step : {S : Type 0} → String → ℕ → StepDefinition S → Value → SagaStepRecord
succeeded_step id i step out = record {
  saga_id = id;
  step_index = i;
  name = step.name;
  status = SagaStepStatus.succeeded;
  output = some out;
  error = none;
}

-- the writes after a step that returned
abbrev pub committed :
    {S : Type 0} → String → ℕ → StepDefinition S → Value → SagaWorld S → SagaWorld S
committed id i step out w =
    with_current_step id (i + 1) (with_step (succeeded_step id i step out) w)

module _ {S : Type 0} (ledger : LedgerStore S) (sha256 : List ℕ → String) (saga : SagaDef S) where
  -- the `catch`: pause, or roll back
  unfoldable pub step_failed :
      SagaContext → ℕ → StepDefinition S → RunError → SagaWorld S → SagaOutcome × SagaWorld S
  unfolding compensate
  step_failed ctx i step err w =
      if pauses err
      then (
        paused err,
        with_saga_status ctx.saga_id awaiting_step (some step.name) (some (message err))
            (with_current_step ctx.saga_id i w),
      )
      else compensate ledger sha256 saga ctx.saga_id ctx.scope step.name (message err) ctx.input w

  abbrev pub after_step :
      SagaContext
      → ℕ
      → StepDefinition S
      → Outcome Value × World S
      → SagaWorld S
      → (SagaContext → SagaWorld S → SagaOutcome × SagaWorld S)
      → SagaOutcome × SagaWorld S
  after_step ctx i step (returned out, w1) w next =
      next (record ctx { outputs = insert step.name out ctx.outputs })
        (committed ctx.saga_id i step out (record w { actions = w1 }))
  after_step ctx i step (threw err, w1) w next =
      step_failed ctx i step err (record w { actions = w1 })

  -- the forward loop, from step `i` on; the context carries the outputs so far
  unfoldable pub forward_from :
      SagaContext → ℕ → List (StepDefinition S) → SagaWorld S → SagaOutcome × SagaWorld S
  forward_from ctx i [] w =
      (finished ctx.outputs, with_saga_status ctx.saga_id succeeded none none w)
  forward_from ctx i (step ∷ rest) w =
      after_step ctx i step (run ledger sha256 (step_options saga step i ctx) w.actions) w
        (λ ctx' w'. forward_from ctx' (i + 1) rest w')

  unfoldable pub forward : String → String → Value → SagaWorld S → SagaOutcome × SagaWorld S
  unfolding forward_from
  forward id scope input w0 =
      let w = with_saga_status id running none none w0 in
      forward_from (context_of id input scope w.saga_store) 0 saga.steps w

  -- the `switch` on the status of a saga that is there
  resume_saga : String → Value → SagaRecord → SagaStatus → SagaWorld S → SagaOutcome × SagaWorld S
  resume_saga scope input s succeeded w = (finished (collect_outputs s.saga_id w.saga_store), w)
  resume_saga scope input s compensated w =
      throw_aborted s.saga_id (get_or s.failed_step "?") (get_or s.error "previously aborted") w
  resume_saga scope input s compensating w =
      compensate ledger sha256 saga s.saga_id scope (get_or s.failed_step "?")
        (get_or s.error "resumed rollback") input w
  resume_saga scope input s compensation_failed w =
      compensate ledger sha256 saga s.saga_id scope (get_or s.failed_step "?")
        (get_or s.error "resumed rollback") input w
  resume_saga scope input s running w = forward s.saga_id scope input w
  resume_saga scope input s awaiting_step w = forward s.saga_id scope input w

  start_or_resume : RunSagaOptions → Option SagaRecord → SagaWorld S → SagaOutcome × SagaWorld S
  start_or_resume opts none w = forward opts.saga_id (get_or opts.scope opts.saga_id) opts.input w
  start_or_resume opts (some s) w =
      resume_saga (get_or opts.scope opts.saga_id) (coalesce opts.input s.input) s s.status w

  -- `run` and `resume` of a saga
  unfoldable pub run_saga : RunSagaOptions → SagaWorld S → SagaOutcome × SagaWorld S
  unfolding start_or_resume resume_saga throw_aborted
  run_saga opts w =
      let (claim, s) = create_saga w.actions.clock opts.saga_id saga.name opts.input w.saga_store in
      start_or_resume opts (if claim.created then none else claim.existing)
        (record w { saga_store = s })
