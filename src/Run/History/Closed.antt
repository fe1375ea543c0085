-- ===== src/Run/History/Closed.antt =====
-- run.ts, histories: rows that no later call touches.
use quorvel.Common.{
  String, ◌≡◌, ◌≢◌, ◌∙◌, ap, sym, subst, refl, inl, inr, true, some, Option, List, [], ◌∷◌, ◌++◌,
  arith, eq_iff, get_or,
}
use quorvel.Ledger.{ActionRecord, LedgerStore, LedgerLaws, pending_record}
use quorvel.Policy.{PolicyDecision}
use quorvel.Run.{World, pending_input, Attempt, RunOptions, decision, run_keyed, approve, reject}
use quorvel.Run.Attempts.{calls_made, last_call, logged_as}
use quorvel.Run.Spec.{effect_of, run_effect, run_keyed-Does}
use quorvel.Run.History.{
  Event, calls_run, approves, rejects, waits, perform, perform_all, is_inert, made_for, eq-cases,
}

made_for-logged_ne :
    (key other : String) (l : List Attempt) (calls : List (String × Attempt))
    → key ≢ other
    → made_for other (logged_as key l ++ calls) ≡ made_for other calls
made_for-logged_ne key other [] calls ne = refl
made_for-logged_ne key other (a ∷ l) calls ne =
    ground (arith, made_for-logged_ne key other l calls ne, eq_iff key other)

effect_of-inert :
    (key : String) (fresh : ActionRecord) (d : PolicyDecision) (a : Attempt) (calls : List Attempt)
    (o : Option ActionRecord) (r : ActionRecord)
    → o ≡ some r
    → is_inert r.status ≡ true
    → ((effect_of key fresh d a calls o).1 ≡ some r) × ((effect_of key fresh d a calls o).2 ≡ [])
effect_of-inert key fresh d a calls o r h f = ground arith

module _ {S : Type 0} (ledger : LedgerStore S) (laws : LedgerLaws ledger) (key : String) where
  -- The row of the key, and the calls made for it.
  abbrev pub IsClosed : ActionRecord → List (String × Attempt) → World S → Type 0
  IsClosed r calls w = (ledger.get key w.store ≡ some r) × (made_for key w.calls ≡ calls)

  run_self-IsClosed :
      (r : ActionRecord) (calls : List (String × Attempt)) (opts : RunOptions S) (w : World S)
      → is_inert r.status ≡ true
      → IsClosed r calls w
      → IsClosed r calls (run_keyed ledger key opts w).1
  run_self-IsClosed r calls opts w f (h, c) =
      let does = run_keyed-Does ledger laws key opts w in
      let (row, quiet) =
        effect_of-inert key (pending_record w.clock (pending_input key opts)) (decision opts w)
          (last_call opts) (calls_made opts) (ledger.get key w.store) r h f in
      (
        does.row ∙ row,
        ap (made_for key) (does.logged ∙ ap (λ l. logged_as key l ++ w.calls) quiet) ∙ c,
      )

  perform-IsClosed :
      (r : ActionRecord) (calls : List (String × Attempt)) (e : Event S) (w : World S)
      → is_inert r.status ≡ true
      → IsClosed r calls w
      → IsClosed r calls (perform ledger e w)
  unfolding perform approve reject
  perform-IsClosed r calls (calls_run k opts) w f h = elim (eq-cases k key) [
    | inl same ↦
        subst (λ k'. IsClosed r calls (run_keyed ledger k' opts w).1) (sym same)
          (run_self-IsClosed r calls opts w f h)
    | inr ne ↦
        let does = run_keyed-Does ledger laws k opts w in
        (
          does.others key ne ∙ h.0,
          ap (made_for key) does.logged
              ∙ made_for-logged_ne k key (run_effect ledger k opts w).2 w.calls ne
              ∙ h.1,
        )
  ]
  perform-IsClosed r calls (approves k) w f h =
      (ground (arith, laws.approved_writes k w.store key, eq_iff k key), h.1)
  perform-IsClosed r calls (rejects k why) w f h = (
    ground (
      arith,
      laws.rejected_writes k (get_or why "rejected by reviewer") w.store key,
      eq_iff k key,
    ),
    h.1,
  )
  perform-IsClosed r calls (waits ms) w f h = h

  -- Over any ledger with the laws, a row that has succeeded, was rejected or denied, or is pending
  -- or running as a history begins is not written again by any later calls of `run`, approvals or
  -- rejections, and they never call `execute` for its key.
  pub perform_all-IsClosed :
      (es : List (Event S)) (r : ActionRecord) (calls : List (String × Attempt)) (w : World S)
      → is_inert r.status ≡ true
      → IsClosed r calls w
      → IsClosed r calls (perform_all ledger es w)
  unfolding perform_all
  perform_all-IsClosed [] r calls w f h = h
  perform_all-IsClosed (e ∷ es) r calls w f h =
      perform_all-IsClosed es r calls (perform ledger e w) f (perform-IsClosed r calls e w f h)
