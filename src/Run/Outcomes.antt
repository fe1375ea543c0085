-- ===== src/Run/Outcomes.antt =====
-- run.ts: what a caller of `run`, `approve` and `reject` can rely on, from the effect on one key.
use quorvel.Common.{
  ℕ, zero, suc, ◌+◌, ◌≤◌, String, ◌≡◌, ◌≢◌, ◌⊎◌, ◌∙◌, ap, sym, subst, refl, inl, inr, some, none,
  Option, List, [], ◌∷◌, ◌++◌, arith, get_or, eq_iff, length, length-append,
}
use quorvel.Value.{Value}
use quorvel.Errors.{action_rejected}
use quorvel.Ledger.{
  ActionStatus, succeeded, failed, awaiting_approval, approved, ActionRecord, LedgerStore,
  LedgerLaws, pending_record, as_approved,
}
use quorvel.Policy.{PolicyDecision, allow, deny, require_approval}
use quorvel.Run.{
  World, pending_input, returned, threw, Attempt, resolves, throws, RunOptions, decision,
  stored_result, run_keyed, approve, reject,
}
use quorvel.Run.Attempts.{Does, executed, made, made_then, calls_made, last_call, logged_as}
use quorvel.Run.Spec.{decided, found, effect_of, run_effect, run_keyed-Does}

-- The row is there, has succeeded, and holds the result.
abbrev pub HasResult : Value → Option ActionRecord → Type 0
HasResult v o = (r : ActionRecord) × (o ≡ some r) × (r.status ≡ succeeded) × (stored_result r ≡ v)

executed-HasResult :
    (a : Attempt) (calls : List Attempt) (r : ActionRecord) (v : Value)
    → (executed a calls r).0 ≡ returned v
    → HasResult v (executed a calls r).1
executed-HasResult (resolves x) calls r v h = (_, refl, refl, ground arith)
executed-HasResult (throws e) calls r v h = cc

decided-HasResult :
    (key : String) (d : PolicyDecision) (a : Attempt) (calls : List Attempt) (r : ActionRecord)
    (v : Value)
    → (decided key d a calls r).0 ≡ returned v
    → HasResult v (decided key d a calls r).1
decided-HasResult key allow a calls r v h = executed-HasResult a calls r v h
decided-HasResult key (deny why) a calls r v h = cc
decided-HasResult key (require_approval why) a calls r v h = cc

found-HasResult :
    (key : String) (d : PolicyDecision) (a : Attempt) (calls : List Attempt) (r : ActionRecord)
    (s : ActionStatus) (v : Value)
    → r.status ≡ s
    → (found key d a calls r s).0 ≡ returned v
    → HasResult v (found key d a calls r s).1
found-HasResult key d a calls r succeeded v e h = (r, refl, e, ground arith)
found-HasResult key d a calls r approved v e h = executed-HasResult a calls r v h
found-HasResult key d a calls r failed v e h = decided-HasResult key d a calls r v h
found-HasResult key d a calls r _ v e h = cc

effect_of-HasResult :
    (key : String) (fresh : ActionRecord) (d : PolicyDecision) (a : Attempt) (calls : List Attempt)
    (o : Option ActionRecord) (v : Value)
    → (effect_of key fresh d a calls o).0 ≡ returned v
    → HasResult v (effect_of key fresh d a calls o).1
effect_of-HasResult key fresh d a calls none v h = decided-HasResult key d a calls fresh v h
effect_of-HasResult key fresh d a calls (some r) v h =
    found-HasResult key d a calls r r.status v refl h

-- Whether a row, or its absence, and the policies let `execute` be called.
abbrev pub MayExecute : Option ActionRecord → PolicyDecision → Type 0
MayExecute none d = d ≡ allow
MayExecute (some r) d = (r.status ≡ approved) ⊎ ((r.status ≡ failed) × (d ≡ allow))

decided-allow :
    (key : String) (d : PolicyDecision) (a : Attempt) (calls : List Attempt) (r : ActionRecord)
    → (decided key d a calls r).2 ≢ []
    → d ≡ allow
decided-allow key allow a calls r h = refl
decided-allow key (deny why) a calls r h = absurd (h refl)
decided-allow key (require_approval why) a calls r h = absurd (h refl)

found-MayExecute :
    (key : String) (d : PolicyDecision) (a : Attempt) (calls : List Attempt) (r : ActionRecord)
    (s : ActionStatus)
    → r.status ≡ s
    → (found key d a calls r s).2 ≢ []
    → MayExecute (some r) d
found-MayExecute key d a calls r approved e h = inl e
found-MayExecute key d a calls r failed e h = inr (e, decided-allow key d a calls r h)
found-MayExecute key d a calls r _ e h = absurd (h refl)

effect_of-MayExecute :
    (key : String) (fresh : ActionRecord) (d : PolicyDecision) (a : Attempt) (calls : List Attempt)
    (o : Option ActionRecord)
    → (effect_of key fresh d a calls o).2 ≢ []
    → MayExecute o d
effect_of-MayExecute key fresh d a calls none h = decided-allow key d a calls fresh h
effect_of-MayExecute key fresh d a calls (some r) h =
    found-MayExecute key d a calls r r.status refl h

length-logged_as : (key : String) (l : List Attempt) → length (logged_as key l) ≡ length l
length-logged_as key [] = refl
length-logged_as key (a ∷ l) = ap suc (length-logged_as key l)

length-made_then : (a : Attempt) (l : List Attempt) → length (made_then a l) ≤ length l + 1
length-made_then (resolves v) l = omega arith
length-made_then (throws e) l = omega (arith, length-append l (throws e ∷ []))

length-made : (f : ℕ → Attempt) (left n : ℕ) → length (made f left n) ≤ left + 1
length-made f zero n = omega arith
length-made f (suc left) n =
    omega (arith, length-made_then (f n) (made f left (n + 1)), length-made f left (n + 1))

effect_of-calls :
    (key : String) (fresh : ActionRecord) (d : PolicyDecision) (a : Attempt) (calls : List Attempt)
    (o : Option ActionRecord)
    → length (effect_of key fresh d a calls o).2 ≤ length calls
effect_of-calls key fresh d a calls none = ground arith
effect_of-calls key fresh d a calls (some r) = ground arith

module _ {S : Type 0} (ledger : LedgerStore S) (laws : LedgerLaws ledger) (key : String) where
  pub replays :
      (later : RunOptions S) (w : World S) (v : Value)
      → HasResult v (ledger.get key w.store)
      → run_keyed ledger key later w ≡ (returned v, w)
  unfolding run_keyed
  replays later w v (r, e, s, q) = ground arith

  -- Over any ledger with the laws, once a call of `run` has returned a value, the next call with the same key, whatever its
  -- options, returns that value and changes nothing: no row, no clock, no call of `execute`.
  pub run_keyed-replay :
      (opts later : RunOptions S) (w : World S) (v : Value)
      → (run_keyed ledger key opts w).0 ≡ returned v
      → run_keyed ledger key later (run_keyed ledger key opts w).1
        ≡ (returned v, (run_keyed ledger key opts w).1)
  run_keyed-replay opts later w v h =
      let does = run_keyed-Does ledger laws key opts w in
      replays later (run_keyed ledger key opts w).1 v (
        subst (HasResult v) (sym does.row) (
          effect_of-HasResult key _ (decision opts w) (last_call opts) (calls_made opts)
            (ledger.get key w.store) v (sym does.outcome ∙ h)))

  -- Over any ledger with the laws, `execute` is called by `run` only for an approved row, or where there is no row or a failed one
  -- and the policies allow the call; in any other case the log of calls stays as it is.
  pub run_keyed-MayExecute :
      (opts : RunOptions S) (w : World S)
      → (run_keyed ledger key opts w).1.calls ≢ w.calls
      → MayExecute (ledger.get key w.store) (decision opts w)
  run_keyed-MayExecute opts w h =
      effect_of-MayExecute key _ (decision opts w) (last_call opts) (calls_made opts)
        (ledger.get key w.store)
        (λ e.
          h (
            (run_keyed-Does ledger laws key opts w).logged
            ∙ ap (λ l. logged_as key l ++ w.calls) e))

  -- Over any ledger with the laws, one call of `run` calls `execute` at most once more often than it has retries.
  run_keyed-calls_bound :
      (opts : RunOptions S) (w : World S)
      → length (run_keyed ledger key opts w).1.calls ≤ length w.calls + get_or opts.retries 0 + 1
  run_keyed-calls_bound opts w =
      let effect = run_effect ledger key opts w in
      omega (
        arith,
        ap (λ l. length l) (run_keyed-Does ledger laws key opts w).logged,
        length-append (logged_as key effect.2) w.calls,
        length-logged_as key effect.2,
        effect_of-calls key (pending_record w.clock (pending_input key opts)) (decision opts w)
            (last_call opts) (calls_made opts) (ledger.get key w.store),
        length-made opts.execute (get_or opts.retries 0) 0,
      )

  approve_awaiting :
      (s : S) (r : ActionRecord)
      → ledger.get key s ≡ some r
      → r.status ≡ awaiting_approval
      → approve ledger key s ≡ (none, ledger.mark_approved key s)
  unfolding approve
  approve_awaiting s r h e = ground arith

  run_approved-Does :
      (opts : RunOptions S) (w : World S) (r : ActionRecord)
      → ledger.get key w.store ≡ some (as_approved r)
      → Does ledger key
          (executed (last_call opts) (calls_made opts) (as_approved r))
          w
          (run_keyed ledger key opts w).0
          (run_keyed ledger key opts w).1
  run_approved-Does opts w r h =
      subst
        (λ o.
          Does ledger key
            (effect_of key (pending_record w.clock (pending_input key opts)) (decision opts w)
              (last_call opts) (calls_made opts) o)
            w (run_keyed ledger key opts w).0 (run_keyed ledger key opts w).1)
        h (run_keyed-Does ledger laws key opts w)

  -- Over any ledger with the laws, the approval of an action that awaits it succeeds, and the next
  -- call of `run` executes the action, whatever the policies say.
  pub run_keyed-approve :
      (opts : RunOptions S) (w : World S) (r : ActionRecord)
      → ledger.get key w.store ≡ some r
      → r.status ≡ awaiting_approval
      → let (error, s) = approve ledger key w.store in
        (error ≡ none)
        × Does ledger key
            (executed (last_call opts) (calls_made opts) (as_approved r))
            (record w { store = s })
            (run_keyed ledger key opts (record w { store = s })).0
            (run_keyed ledger key opts (record w { store = s })).1
  run_keyed-approve opts w r h e = rw (approve_awaiting w.store r h e) (
    refl,
    run_approved-Does opts (record w { store = ledger.mark_approved key w.store }) r
        (ground (arith, laws.approved_writes key w.store key, eq_iff key key)),
  )

  -- Over any ledger with the laws, the rejection of an action that awaits approval succeeds, and the
  -- next call of `run` throws with the reviewer's reason and changes nothing.
  pub run_keyed-reject :
      (opts : RunOptions S) (why : String) (w : World S) (r : ActionRecord)
      → ledger.get key w.store ≡ some r
      → r.status ≡ awaiting_approval
      → let (error, s) = reject ledger key (some why) w.store in
        (error ≡ none)
        × (run_keyed ledger key opts (record w { store = s })
            ≡ (threw (action_rejected key (some why)), record w { store = s }))
  unfolding reject run_keyed
  run_keyed-reject opts why w r h e =
      ground (arith, laws.rejected_writes key why w.store key, eq_iff key key)
