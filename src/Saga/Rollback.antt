-- ===== src/Saga/Rollback.antt =====
-- saga.ts, `compensate`: what a rollback leaves behind, and in which order it works.
use quorvel.Common.{
  ℕ, String, ◌≡◌, refl, ◌∙◌, ap, sym, Bool, true, false, Option, none, some, List, [], ◌∷◌, arith,
  get_elem?, leb, eq_iff, select, find, if◌then◌else◌, Option-cases, inl, inr,
}
use quorvel.Common.Dict.{Dict, lookup, modify, lookup-modify}
use quorvel.Common.Sorting.{IsSortedBy, IsOrder, sort_by-IsSortedBy}
use quorvel.Value.{Value}
use quorvel.Ledger.{LedgerStore}
use quorvel.Run.{World, Outcome, returned, threw, Attempt, run}
use quorvel.SagaStore.{
  SagaStatus, SagaRecord, SagaStepStatus, SagaStepRecord, get_saga, with_status, Sagas, same_step,
  record_step, set_saga_status, get_steps,
}
use quorvel.SagaStore.Steps.{
  any, any-sort_by, any-get_steps, status_of, status_at, status_at-upsert_step,
}
use quorvel.Saga.Types.{
  SagaContext, StepDefinition, SagaDef, CompensationFailure, aborted, SagaWorld, to_undo,
  to_be_undone, names, context_of, with_step, with_saga_status,
}
use quorvel.Saga.Undo.{
  undo_options, undo_with, undo_by, after_undo, undo_step, undo_all, settle_rollback, compensate,
}

-- the status that a compensation leaves
abbrev undone_status : Option String → SagaStepStatus
undone_status none = SagaStepStatus.compensated
undone_status (some error) = SagaStepStatus.compensation_failed

abbrev pub status_in : {S : Type 0} → String → ℕ → SagaWorld S → Option SagaStepStatus
status_in id i w = status_at id i w.saga_store.steps

-- Nothing is left to undo: the step is not recorded, pending, or compensated.
abbrev pub IsSettled : Option SagaStepStatus → Type 0
IsSettled none = Unit
IsSettled (some SagaStepStatus.pending) = Unit
IsSettled (some SagaStepStatus.compensated) = Unit
IsSettled (some SagaStepStatus.succeeded) = ⊥
IsSettled (some SagaStepStatus.compensation_failed) = ⊥

descending-IsOrder : IsOrder (λ (a b : SagaStepRecord). leb b.step_index a.step_index)
descending-IsOrder = record { total = λ x y h. ground arith; trans = λ x y z h k. ground arith }

-- What is known of a rollback from the store `s` that ends as aborted in the store `t`.
pub record RolledBack (id : String) (s t : Sagas) (done : List String) : Type 0 where
  pub in_order : done ≡ names (to_undo id s)
  pub descending : IsSortedBy (λ a b. leb b.step_index a.step_index) (to_undo id s)
  pub settled : (i : ℕ) → IsSettled (status_at id i t.steps)
  pub closed : (r : SagaRecord) → get_saga id t ≡ some r → r.status ≡ SagaStatus.compensated

closed_row :
    (id : String) (f : SagaRecord → SagaRecord) (sagas : Dict SagaRecord) (r : SagaRecord)
    → ((x : SagaRecord) → (f x).status ≡ SagaStatus.compensated)
    → lookup id (modify id f sagas) ≡ some r
    → r.status ≡ SagaStatus.compensated
closed_row id f sagas r h e = elim (Option-cases (lookup id sagas)) [
  | inl n ↦ ground (arith, lookup-modify id id f sagas, eq_iff id id)
  | inr (x, y) ↦ ground (arith, lookup-modify id id f sagas, eq_iff id id, h x)
]

module _ {S : Type 0} (ledger : LedgerStore S) (sha256 : List ℕ → String) (saga : SagaDef S) where
  status-with_step :
      (id : String) (i : ℕ) (r : SagaStepRecord) (w : SagaWorld S)
      → status_in id i (with_step r w)
        ≡ (if same_step id i r then some r.status else status_in id i w)
  unfolding record_step
  status-with_step id i r w = status_at-upsert_step id i r w.saga_store.steps

  status-after_undo :
      (id : String) (i : ℕ) (r : SagaStepRecord) (o : Outcome Value) (w1 : World S)
      (w : SagaWorld S)
      → status_in id i (after_undo ledger sha256 saga r (o, w1) w).1 ≡ (
          if same_step id i r
          then some (undone_status (after_undo ledger sha256 saga r (o, w1) w).0)
          else status_in id i w)
  unfolding after_undo
  status-after_undo id i r (returned v) w1 w = status-with_step id i _ (record w { actions = w1 })
  status-after_undo id i r (threw e) w1 w = status-with_step id i _ (record w { actions = w1 })

  status-undo_with :
      (id : String) (i : ℕ) (ctx : SagaContext) (r : SagaStepRecord) (def : StepDefinition S)
      (undo : Option (Value → SagaContext → ℕ → Attempt)) (w : SagaWorld S)
      → status_in id i (undo_with ledger sha256 saga ctx r def undo w).1 ≡ (
          if same_step id i r
          then some (undone_status (undo_with ledger sha256 saga ctx r def undo w).0)
          else status_in id i w)
  unfolding undo_with
  status-undo_with id i ctx r def none w = status-with_step id i _ w
  status-undo_with id i ctx r def (some undo) w =
      let (o, w1) = run ledger sha256 (undo_options saga def undo r ctx) w.actions in
      status-after_undo id i r o w1 w

  status-undo_by :
      (id : String) (i : ℕ) (ctx : SagaContext) (r : SagaStepRecord)
      (def : Option (StepDefinition S)) (w : SagaWorld S)
      → status_in id i (undo_by ledger sha256 saga ctx r def w).1 ≡ (
          if same_step id i r
          then some (undone_status (undo_by ledger sha256 saga ctx r def w).0)
          else status_in id i w)
  unfolding undo_by
  status-undo_by id i ctx r none w = status-with_step id i _ w
  status-undo_by id i ctx r (some def) w = status-undo_with id i ctx r def def.undo w

  -- What the rollback of a list of steps leaves of the step with an index, if none got stuck.
  status-undo_all :
      (id : String) (i : ℕ) (ctx : SagaContext) (rs : List SagaStepRecord) (w : SagaWorld S)
      → (undo_all ledger sha256 saga ctx rs w).0.1 ≡ []
      → (status_in id i (undo_all ledger sha256 saga ctx rs w).1
          ≡ (if any (same_step id i) rs then some SagaStepStatus.compensated else status_in id i w))
        × ((undo_all ledger sha256 saga ctx rs w).0.0 ≡ names rs)
  unfolding undo_all undo_step
  status-undo_all id i ctx [] w h = (refl, refl)
  status-undo_all id i ctx (r ∷ rs) w h =
      let w1 = (undo_step ledger sha256 saga ctx r w).1 in
      ground (
        arith,
        status-undo_by id i ctx r (get_elem? saga.steps r.step_index) w,
        status-undo_all id i ctx rs w1,
      )

  -- A step that is not to be undone has nothing to undo.
  settled_unless_owed :
      (id : String) (i : ℕ) (s : Sagas) (o : Option SagaStepRecord)
      → find (same_step id i) s.steps ≡ o
      → any (same_step id i) (to_undo id s) ≡ false
      → IsSettled (status_of o)
  unfolding to_undo
  settled_unless_owed id i s none h k = tt
  settled_unless_owed id i s (some r) h k = ground (
    arith,
    any-sort_by (λ a b. leb b.step_index a.step_index) (same_step id i)
        (select to_be_undone (get_steps id s)),
    any-get_steps id i to_be_undone s r h,
  )

  settled_if_undone :
      (id : String) (i : ℕ) (s : Sagas) (b : Bool) (o : Option SagaStepStatus)
      → any (same_step id i) (to_undo id s) ≡ b
      → o ≡ (if b then some SagaStepStatus.compensated else status_at id i s.steps)
      → IsSettled o
  settled_if_undone id i s true o h e = rw e tt
  settled_if_undone id i s false o h e = rw e (settled_unless_owed id i s _ refl h)

  settle_aborted :
      (id failed cause f c : String) (done : List String)
      (result : (List String × List CompensationFailure) × SagaWorld S) (w' : SagaWorld S)
      → settle_rollback ledger sha256 saga id failed cause result ≡ (aborted f c done, w')
      → (result.0.1 ≡ [])
        × (done ≡ result.0.0)
        × (w' ≡ with_saga_status id SagaStatus.compensated (some failed) (some cause) result.1)
  unfolding settle_rollback
  settle_aborted id failed cause f c done ((d, []), w) w' h = (refl, cc, cc)
  settle_aborted id failed cause f c done ((d, x ∷ xs), w) w' h = cc

  settled_after :
      (id : String) (i : ℕ) (ctx : SagaContext) (w w' : SagaWorld S)
      → (undo_all ledger sha256 saga ctx (to_undo id w.saga_store) w).0.1 ≡ []
      → w'.saga_store.steps
        ≡ (undo_all ledger sha256 saga ctx (to_undo id w.saga_store) w).1.saga_store.steps
      → IsSettled (status_in id i w')
  settled_after id i ctx w w' h e =
      settled_if_undone id i w.saga_store (any (same_step id i) (to_undo id w.saga_store))
        (status_in id i w') refl
        (ap (status_at id i) e ∙ (status-undo_all id i ctx (to_undo id w.saga_store) w h).0)

  -- A rollback, started from any state of the saga, that ends with `SagaAbortedError` names the steps
  -- that were owed, from the highest index to the lowest; no step of the saga is left succeeded or
  -- stuck; and the saga's row, if there is one, says compensated.
  pub compensate-RolledBack :
      (id scope failed cause : String) (input : Value) (w : SagaWorld S) {f c : String}
      {done : List String} {w' : SagaWorld S}
      → compensate ledger sha256 saga id scope failed cause input w ≡ (aborted f c done, w')
      → RolledBack id w.saga_store w'.saga_store done
  unfolding compensate set_saga_status to_undo get_steps get_saga
  compensate-RolledBack id scope failed cause input w {f} {c} {done} {w'} h =
      let w1 = with_saga_status id SagaStatus.compensating (some failed) (some cause) w in
      let ctx = context_of id input scope w1.saga_store in
      let result = undo_all ledger sha256 saga ctx (to_undo id w1.saga_store) w1 in
      let (clean, same, final) = settle_aborted id failed cause f c done result w' h in
      record {
        in_order = same ∙ (status-undo_all id 0 ctx (to_undo id w1.saga_store) w1 clean).1;
        descending =
            sort_by-IsSortedBy _ descending-IsOrder
              (select to_be_undone (get_steps id w.saga_store));
        settled = λ i.
            settled_after id i ctx w1 w' clean (ap (λ (v : SagaWorld S). v.saga_store.steps) final);
        closed = λ r g.
            closed_row id
              (with_status result.1.actions.clock SagaStatus.compensated (some failed) (some cause))
              result.1.saga_store.sagas r (λ _. refl)
              (ap (λ (v : SagaWorld S). lookup id v.saga_store.sagas) (sym final) ∙ g);
      }
