-- ===== src/Run/Spec.antt =====
-- run.ts, `run`: one call as a function of the row that it finds, with neither a ledger nor a loop,
-- and the proof that the code does just this over any ledger.
use quorvel.Common.{
  String, ◌≡◌, refl, inl, inr, some, none, Option, List, [], arith, get_or, eq_iff, Option-cases,
}
use quorvel.Value.{Value}
use quorvel.Errors.{duplicate_in_flight, approval_required, policy_denied, action_rejected}
use quorvel.Ledger.{
  ActionStatus, pending, running, succeeded, failed, awaiting_approval, approved, rejected, denied,
  ActionRecord, LedgerStore, LedgerLaws, pending_record, as_denied, as_awaiting,
}
use quorvel.Policy.{PolicyDecision, allow, deny, require_approval}
use quorvel.Run.{
  World, Outcome, returned, threw, Attempt, RunOptions, decision, stored_result, pending_input,
  decide, run_new, run_existing, run_keyed, after_claim,
}
use quorvel.Run.Attempts.{Effect, Does, executed, calls_made, last_call, execute-Does}

-- A call that reaches the policies, at the row `r`.
abbrev pub decided : String → PolicyDecision → Attempt → List Attempt → ActionRecord → Effect
decided key (deny why) a calls r = (threw (policy_denied key why), some (as_denied why r), [])
decided key (require_approval why) a calls r =
    (threw (approval_required key why), some (as_awaiting why r), [])
decided key allow a calls r = executed a calls r

-- A call that finds the row `r`, by its status: only an approved or a failed row is executed.
abbrev pub found :
    String → PolicyDecision → Attempt → List Attempt → ActionRecord → ActionStatus → Effect
found key d a calls r succeeded = (returned (stored_result r), some r, [])
found key d a calls r approved = executed a calls r
found key d a calls r awaiting_approval =
    (threw (approval_required key (get_or r.reason "approval required")), some r, [])
found key d a calls r rejected = (threw (action_rejected key r.reason), some r, [])
found key d a calls r denied =
    (threw (policy_denied key (get_or r.reason "denied by policy")), some r, [])
found key d a calls r pending = (threw (duplicate_in_flight key), some r, [])
found key d a calls r running = (threw (duplicate_in_flight key), some r, [])
found key d a calls r failed = decided key d a calls r

abbrev pub effect_of :
    String → ActionRecord → PolicyDecision → Attempt → List Attempt → Option ActionRecord → Effect
effect_of key fresh d a calls none = decided key d a calls fresh
effect_of key fresh d a calls (some r) = found key d a calls r r.status

-- the effect that `run` is to have on its key in the world `w`
abbrev pub run_effect : {S : Type 0} → LedgerStore S → String → RunOptions S → World S → Effect
run_effect ledger key opts w =
    effect_of key (pending_record w.clock (pending_input key opts)) (decision opts w)
      (last_call opts) (calls_made opts) (ledger.get key w.store)

module _ {S : Type 0} (ledger : LedgerStore S) (laws : LedgerLaws ledger) (key : String)
    (opts : RunOptions S) where
  decide-Does :
      (d : PolicyDecision) (w : World S) (r : ActionRecord)
      → ledger.get key w.store ≡ some r
      → Does ledger key
          (decided key d (last_call opts) (calls_made opts) r)
          w
          (decide ledger key opts d w).0
          (decide ledger key opts d w).1
  unfolding decide
  decide-Does (deny why) w r h = record {
    outcome = refl;
    row = ground (arith, laws.denied_writes key why w.store key, eq_iff key key);
    others = λ j ne. ground (arith, laws.denied_writes key why w.store j, eq_iff key j);
    logged = refl;
  }
  decide-Does (require_approval why) w r h = record {
    outcome = refl;
    row = ground (arith, laws.awaiting_writes key why w.store key, eq_iff key key);
    others = λ j ne. ground (arith, laws.awaiting_writes key why w.store j, eq_iff key j);
    logged = refl;
  }
  decide-Does allow w r h = execute-Does ledger laws key opts w r h

  -- an action that returns or throws at once and writes nothing
  still-Does :
      (o : Outcome Value) (w : World S) → Does ledger key (o, ledger.get key w.store, []) w o w
  still-Does o w = record { outcome = refl; row = refl; others = λ j ne. refl; logged = refl }

  run_existing-Does :
      (w : World S) (r : ActionRecord) (s : ActionStatus)
      → ledger.get key w.store ≡ some r
      → Does ledger key
          (found key (decision opts w) (last_call opts) (calls_made opts) r s)
          w
          (run_existing ledger key opts r s w).0
          (run_existing ledger key opts r s w).1
  unfolding run_existing
  run_existing-Does w r failed h = decide-Does (decision opts w) w r h
  run_existing-Does w r approved h = execute-Does ledger laws key opts w r h
  run_existing-Does w r _ h = rw (← h) (still-Does _ w)

  -- the insertion of the row before an action adds no effect of its own
  claimed-Does :
      (effect : Effect) (w : World S) (o : Outcome Value) (w' : World S)
      → ledger.get key w.store ≡ none
      → Does ledger key effect
          (record w { store = (ledger.insert_pending w.clock (pending_input key opts) w.store).1 })
          o
          w'
      → Does ledger key effect w o w'
  claimed-Does effect w o w' h d = record {
    outcome = d.outcome;
    row = d.row;
    others = λ j ne. ground (
      arith,
      d.others j ne,
      laws.get-insert_free w.clock (pending_input key opts) w.store j h,
      eq_iff key j,
    );
    logged = d.logged;
  }

  run_new-Does :
      (w : World S)
      → ledger.get key w.store ≡ none
      → Does ledger key
          (decided key
            (decision opts w)
            (last_call opts)
            (calls_made opts)
            (pending_record w.clock (pending_input key opts)))
          w
          (run_new ledger key opts w).0
          (run_new ledger key opts w).1
  unfolding run_new
  run_new-Does w h =
      let w1 = record w {
        store = (ledger.insert_pending w.clock (pending_input key opts) w.store).1;
      } in
      let d = decision opts w in
      rw (laws.insert_free w.clock (pending_input key opts) w.store h, after_claim)
        (claimed-Does _ w (decide ledger key opts d w1).0 (decide ledger key opts d w1).1 h (
          decide-Does d w1 (pending_record w.clock (pending_input key opts)) (
            ground (
              arith,
              laws.get-insert_free w.clock (pending_input key opts) w.store key h,
              eq_iff key key,
            ))))

  -- On every branch `run` has the effect of the specification, over any ledger that keeps the laws.
  pub run_keyed-Does :
      (w : World S)
      → Does ledger key
          (run_effect ledger key opts w)
          w
          (run_keyed ledger key opts w).0
          (run_keyed ledger key opts w).1
  unfolding run_keyed
  run_keyed-Does w = elim (Option-cases (ledger.get key w.store)) [
    | inl e ↦ rw (e, run_keyed) (run_new-Does w e)
    | inr (r, e) ↦ rw (e, run_keyed) (run_existing-Does w r r.status e)
  ]
