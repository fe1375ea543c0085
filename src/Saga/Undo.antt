-- ===== src/Saga/Undo.antt =====
-- packages/core/src/saga.ts, `compensate`: the rollback.
use quorvel.Common.{ℕ, String, Option, none, some, List, [], ◌∷◌, get_or, get_elem?}
use quorvel.Value.{Value, undefined}
use quorvel.Errors.{message}
use quorvel.Ledger.{LedgerStore}
use quorvel.Run.{World, Outcome, returned, threw, Attempt, resolves, throws, RunOptions, run}
use quorvel.SagaStore.{
  compensating, compensated, compensation_failed, SagaStepStatus, SagaStepRecord,
}
use quorvel.Saga.Types.{
  SagaContext, StepDefinition, SagaDef, CompensationFailure, SagaOutcome, aborted, stuck, SagaWorld,
  with_saga_status, with_step, to_undo, ◌&◌, step_args, context_of,
}

-- `execute` awaits the compensation and drops what it resolves to
abbrev pub discarding : Attempt → Attempt
discarding (resolves v) = resolves undefined
discarding (throws e) = throws e

abbrev pub undo_options :
    {S : Type 0}
    → SagaDef S
    → StepDefinition S
    → (Value → SagaContext → ℕ → Attempt)
    → SagaStepRecord
    → SagaContext
    → RunOptions S
undo_options saga def undo r ctx = record {
  tool = "saga:" & saga.name & ":" & r.name & ":undo";
  args = step_args ctx.saga_id r.step_index;
  scope = some ctx.scope;
  cost = none;
  retries = some (get_or def.compensation_retries 2);
  backoff_ms = none;
  policies = none;
  execute = λ n. discarding (undo (get_or r.output undefined) ctx n);
}

module _ {S : Type 0} (ledger : LedgerStore S) (sha256 : List ℕ → String) (saga : SagaDef S) where
  -- What one compensation comes to: the error that leaves it stuck, if any.
  unfoldable pub after_undo :
      SagaStepRecord → Outcome Value × World S → SagaWorld S → Option String × SagaWorld S
  after_undo r (returned v, w1) w = (
    none,
    with_step (record r { status = SagaStepStatus.compensated }) (record w { actions = w1 }),
  )
  after_undo r (threw err, w1) w = (
    some (message err),
    with_step (record r { status = SagaStepStatus.compensation_failed; error = some (message err) })
        (record w { actions = w1 }),
  )

  -- a step that has no compensation is marked, so that a resume skips it
  unfoldable pub undo_with :
      SagaContext
      → SagaStepRecord
      → StepDefinition S
      → Option (Value → SagaContext → ℕ → Attempt)
      → SagaWorld S
      → Option String × SagaWorld S
  unfolding after_undo
  undo_with ctx r def none w =
      (none, with_step (record r { status = SagaStepStatus.compensated }) w)
  undo_with ctx r def (some undo) w =
      after_undo r (run ledger sha256 (undo_options saga def undo r ctx) w.actions) w

  unfoldable pub undo_by :
      SagaContext
      → SagaStepRecord
      → Option (StepDefinition S)
      → SagaWorld S
      → Option String × SagaWorld S
  unfolding undo_with
  undo_by ctx r none w = (none, with_step (record r { status = SagaStepStatus.compensated }) w)
  undo_by ctx r (some def) w = undo_with ctx r def def.undo w

  -- one round of the rollback
  unfoldable pub undo_step :
      SagaContext → SagaStepRecord → SagaWorld S → Option String × SagaWorld S
  unfolding undo_by
  undo_step ctx r w = undo_by ctx r (get_elem? saga.steps r.step_index) w

  abbrev pub noted :
      Option String
      → String
      → List String × List CompensationFailure
      → List String × List CompensationFailure
  noted none name (done, failures) = (name ∷ done, failures)
  noted (some error) name (done, failures) =
      (done, record { step = name; error = error } ∷ failures)

  -- The rollback: what it compensated and what is stuck, in the order of the loop.
  unfoldable pub undo_all :
      SagaContext
      → List SagaStepRecord
      → SagaWorld S
      → (List String × List CompensationFailure) × SagaWorld S
  undo_all ctx [] w = (([], []), w)
  undo_all ctx (r ∷ rs) w =
      let (error, w1) = undo_step ctx r w in
      let (lists, w2) = undo_all ctx rs w1 in (noted error r.name lists, w2)

  unfoldable pub settle_rollback :
      String
      → String
      → String
      → (List String × List CompensationFailure) × SagaWorld S
      → SagaOutcome × SagaWorld S
  settle_rollback id failed cause ((done, []), w) =
      (aborted failed cause done, with_saga_status id compensated (some failed) (some cause) w)
  settle_rollback id failed cause ((done, f ∷ fs), w) = (
    stuck failed cause (f ∷ fs),
    with_saga_status id compensation_failed (some failed) (some cause) w,
  )

  unfoldable pub compensate :
      String → String → String → String → Value → SagaWorld S → SagaOutcome × SagaWorld S
  unfolding settle_rollback
  compensate id scope failed cause input w0 =
      let w = with_saga_status id compensating (some failed) (some cause) w0 in
      settle_rollback id failed cause
        (undo_all (context_of id input scope w.saga_store) (to_undo id w.saga_store) w)
