-- ===== src/Saga/Forward.antt =====
-- saga.ts, `forward`: what a forward pass records, and that driving it again repeats no action.
use quorvel.Common.{
  ℕ, ◌+◌, String, ◌≡◌, ◌≢◌, inl, inr, refl, ap, ◌&&◌, some, List, [], ◌∷◌, arith, leb, ltb, ◌==◌,
  length, eq_iff, if◌then◌else◌, Bool-cases,
}
use quorvel.Common.Dict.{Dict, insert}
use quorvel.Idempotency.{idempotency_key}
use quorvel.Value.{Value}
use quorvel.Errors.{RunError, message}
use quorvel.Ledger.{LedgerStore, LedgerLaws}
use quorvel.Run.{World, Outcome, returned, threw, run}
use quorvel.Run.Outcomes.{HasResult, replays}
use quorvel.SagaStore.{SagaStepStatus, record_step, set_saga_status, set_current_step}
use quorvel.SagaStore.Steps.{status_at-upsert_step}
use quorvel.Saga.Types.{
  SagaContext, StepDefinition, SagaDef, CompensationFailure, SagaOutcome, finished, SagaWorld,
  step_args, pauses, ◌&◌,
}
use quorvel.Saga.Undo.{settle_rollback, compensate}
use quorvel.Saga.Engine.{
  step_options, succeeded_step, committed, step_failed, after_step, forward_from,
}
use quorvel.Saga.Rollback.{status_in}

module _ {S : Type 0} (ledger : LedgerStore S) (sha256 : List ℕ → String) (saga : SagaDef S) where
  settle_ne_finished :
      (id failed cause : String) (result : (List String × List CompensationFailure) × SagaWorld S)
      (outs : Dict Value) (w' : SagaWorld S)
      → settle_rollback ledger sha256 saga id failed cause result ≢ (finished outs, w')
  unfolding settle_rollback
  settle_ne_finished id failed cause ((d, []), w) outs w' h = cc
  settle_ne_finished id failed cause ((d, x ∷ xs), w) outs w' h = cc

  step_failed_ne_finished :
      (ctx : SagaContext) (i : ℕ) (step : StepDefinition S) (err : RunError) (w : SagaWorld S)
      (outs : Dict Value) (w' : SagaWorld S)
      → step_failed ledger sha256 saga ctx i step err w ≢ (finished outs, w')
  unfolding step_failed compensate
  step_failed_ne_finished ctx i step err w outs w' h = elim (Bool-cases (pauses err)) [
    | inl e ↦ cc (rw e at h)
    | inr e ↦ settle_ne_finished ctx.saga_id step.name (message err) _ outs w' (rw e at h)
  ]

  -- A pass that goes on after a step has the step's output, and the step is recorded.
  after_step-finished :
      (ctx : SagaContext) (i : ℕ) (step : StepDefinition S) (result : Outcome Value × World S)
      (w : SagaWorld S) (next : SagaContext → SagaWorld S → SagaOutcome × SagaWorld S)
      (outs : Dict Value) (w' : SagaWorld S)
      → after_step ledger sha256 saga ctx i step result w next ≡ (finished outs, w')
      → (out : Value) × (result.0 ≡ returned out)
        × (next
              (record ctx { outputs = insert step.name out ctx.outputs })
              (committed ctx.saga_id i step out (record w { actions = result.1 }))
            ≡ (finished outs, w'))
  after_step-finished ctx i step (returned out, w1) w next outs w' h = (out, refl, h)
  after_step-finished ctx i step (threw err, w1) w next outs w' h =
      absurd (step_failed_ne_finished ctx i step err (record w { actions = w1 }) outs w' h)

  status-committed :
      (id : String) (i j : ℕ) (step : StepDefinition S) (out : Value) (w : SagaWorld S)
      → status_in id j (committed id i step out w)
        ≡ (if i == j then some SagaStepStatus.succeeded else status_in id j w)
  unfolding record_step set_current_step
  status-committed id i j step out w = ground (
    arith,
    status_at-upsert_step id j (succeeded_step id i step out) w.saga_store.steps,
    eq_iff id id,
  )

  -- A forward pass from step `i` on that returns a result has recorded exactly its steps as
  -- succeeded, and left every other step of the saga as it was.
  pub forward_from-finished :
      (ctx : SagaContext) (i j : ℕ) (rest : List (StepDefinition S)) (w : SagaWorld S)
      (outs : Dict Value) (w' : SagaWorld S)
      → forward_from ledger sha256 saga ctx i rest w ≡ (finished outs, w')
      → status_in ctx.saga_id j w' ≡ (
          if leb i j && ltb j (i + length rest)
          then some SagaStepStatus.succeeded
          else status_in ctx.saga_id j w)
  unfolding forward_from set_saga_status
  forward_from-finished ctx i j [] w outs w' h =
      ground (arith, ap (λ (p : SagaOutcome × SagaWorld S). status_in ctx.saga_id j p.1) h)
  forward_from-finished ctx i j (step ∷ rest) w outs w' h =
      let result = run ledger sha256 (step_options saga step i ctx) w.actions in
      let (out, returns, next) =
        after_step-finished ctx i step result w
          (λ ctx' w'. forward_from ledger sha256 saga ctx' (i + 1) rest w') outs w' h in
      ground (
        arith,
        forward_from-finished (record ctx { outputs = insert step.name out ctx.outputs }) (i + 1) j
            rest (committed ctx.saga_id i step out (record w { actions = result.1 })) outs w' next,
        status-committed ctx.saga_id i j step out (record w { actions = result.1 }),
      )

  abbrev step_key : String → String → ℕ → StepDefinition S → String
  step_key id scope i step =
      idempotency_key sha256 ("saga:" & saga.name & ":" & step.name) (step_args id i) (some scope)

  -- The ledger has a result for every step from the `i`-th on.
  abbrev pub HasResults : String → String → ℕ → List (StepDefinition S) → World S → Type 0
  HasResults id scope i [] w = Unit
  HasResults id scope i (step ∷ rest) w =
      ((v : Value) × HasResult v (ledger.get (step_key id scope i step) w.store))
      × HasResults id scope (i + 1) rest w

  -- Over any ledger with the laws, where the ledger has a result for each step that is left, the
  -- forward pass finishes, and it calls no action, writes nothing to the ledger and takes no time.
  pub forward_from-HasResults :
      (laws : LedgerLaws ledger) (ctx : SagaContext) (i : ℕ) (rest : List (StepDefinition S))
      (w : SagaWorld S)
      → HasResults ctx.saga_id ctx.scope i rest w.actions
      → (outs : Dict Value) × ((forward_from ledger sha256 saga ctx i rest w).0 ≡ finished outs)
        × ((forward_from ledger sha256 saga ctx i rest w).1.actions ≡ w.actions)
  unfolding forward_from
  forward_from-HasResults laws ctx i [] w h = (ctx.outputs, refl, refl)
  forward_from-HasResults laws ctx i (step ∷ rest) w ((v, has), more) =
      rw
        (replays ledger laws (step_key ctx.saga_id ctx.scope i step) (step_options saga step i ctx)
          w.actions v has)
        (forward_from-HasResults laws (record ctx { outputs = insert step.name v ctx.outputs })
          (i + 1) rest (committed ctx.saga_id i step v w) more)
