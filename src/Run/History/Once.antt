-- ===== src/Run/History/Once.antt =====
-- run.ts, histories: a key whose row has succeeded had exactly one call of `execute` that resolved.
use quorvel.Common.{
  ℕ, zero, suc, ◌+◌, String, ◌≡◌, ◌≢◌, ◌∙◌, ap, sym, subst, refl, inl, inr, some, none, Option,
  List, [], ◌∷◌, ◌++◌, arith, eq_iff, get_or,
}
use quorvel.Ledger.{ActionRecord, LedgerStore, LedgerLaws, pending_record}
use quorvel.Policy.{PolicyDecision}
use quorvel.Run.{
  World, pending_input, Attempt, resolves, throws, RunOptions, decision, run_keyed, approve, reject,
}
use quorvel.Run.Attempts.{made, made_then, last_of, last_try, calls_made, last_call, logged_as}
use quorvel.Run.Spec.{effect_of, run_effect, run_keyed-Does}
use quorvel.Run.History.{
  Event, calls_run, approves, rejects, waits, perform, perform_all, resolved, succeeded_rows,
  eq-cases,
}

-- The key's row says that it has succeeded exactly if one call for it resolved, and no more did.
abbrev pub IsOnce : {S : Type 0} → LedgerStore S → String → World S → Type 0
IsOnce ledger key w = resolved key w.calls ≡ succeeded_rows (ledger.get key w.store)

abbrev resolving : List Attempt → ℕ
resolving [] = 0
resolving (resolves v ∷ l) = suc (resolving l)
resolving (throws e ∷ l) = resolving l

abbrev resolving_one : Attempt → ℕ
resolving_one (resolves v) = 1
resolving_one (throws e) = 0

resolving-append_throws :
    (l : List Attempt) (e : String) → resolving (l ++ throws e ∷ []) ≡ resolving l
resolving-append_throws [] e = refl
resolving-append_throws (resolves v ∷ l) e = ap suc (resolving-append_throws l e)
resolving-append_throws (throws x ∷ l) e = resolving-append_throws l e

resolving-made_then :
    (a last : Attempt) (l : List Attempt)
    → resolving l ≡ resolving_one last
    → resolving (made_then a l) ≡ resolving_one (last_of a last)
resolving-made_then (resolves v) last l h = refl
resolving-made_then (throws e) last l h = resolving-append_throws l e ∙ h

-- In one run of the loop a call resolves only if it is the last one.
resolving-made :
    (f : ℕ → Attempt) (left n : ℕ) → resolving (made f left n) ≡ resolving_one (last_try f left n)
resolving-made f zero n = ground arith
resolving-made f (suc left) n =
    resolving-made_then (f n) (last_try f left (n + 1)) (made f left (n + 1))
      (resolving-made f left (n + 1))

resolved-logged_self :
    (key : String) (l : List Attempt) (calls : List (String × Attempt))
    → resolved key (logged_as key l ++ calls) ≡ resolving l + resolved key calls
resolved-logged_self key [] calls = omega arith
resolved-logged_self key (resolves v ∷ l) calls =
    ground (arith, resolved-logged_self key l calls, eq_iff key key)
resolved-logged_self key (throws e ∷ l) calls = resolved-logged_self key l calls

resolved-logged_ne :
    (key other : String) (l : List Attempt) (calls : List (String × Attempt))
    → key ≢ other
    → resolved other (logged_as key l ++ calls) ≡ resolved other calls
resolved-logged_ne key other [] calls ne = refl
resolved-logged_ne key other (resolves v ∷ l) calls ne =
    ground (arith, resolved-logged_ne key other l calls ne, eq_iff key other)
resolved-logged_ne key other (throws e ∷ l) calls ne = resolved-logged_ne key other l calls ne

-- One call of `run` adds a resolving call exactly where it makes the row succeed.
effect_of-resolving :
    (key : String) (fresh : ActionRecord) (d : PolicyDecision) (a : Attempt) (calls : List Attempt)
    (o : Option ActionRecord)
    → resolving calls ≡ resolving_one a
    → resolving (effect_of key fresh d a calls o).2 + succeeded_rows o
      ≡ succeeded_rows (effect_of key fresh d a calls o).1
effect_of-resolving key fresh d a calls none h = ground arith
effect_of-resolving key fresh d a calls (some r) h = ground arith

module _ {S : Type 0} (ledger : LedgerStore S) (laws : LedgerLaws ledger) (key : String) where
  -- a call under the key itself, or under another
  run_self-IsOnce :
      (opts : RunOptions S) (w : World S)
      → IsOnce ledger key w
      → IsOnce ledger key (run_keyed ledger key opts w).1
  run_self-IsOnce opts w h =
      let does = run_keyed-Does ledger laws key opts w in
      let effect = run_effect ledger key opts w in
      omega (
        arith,
        ap (resolved key) does.logged,
        ap succeeded_rows does.row,
        resolved-logged_self key effect.2 w.calls,
        effect_of-resolving key (pending_record w.clock (pending_input key opts)) (decision opts w)
            (last_call opts) (calls_made opts) (ledger.get key w.store)
            (resolving-made opts.execute (get_or opts.retries 0) 0),
      )

  run_other-IsOnce :
      (k : String) (opts : RunOptions S) (w : World S)
      → k ≢ key
      → IsOnce ledger key w
      → IsOnce ledger key (run_keyed ledger k opts w).1
  run_other-IsOnce k opts w ne h =
      let does = run_keyed-Does ledger laws k opts w in
      omega (
        arith,
        ap (resolved key) does.logged,
        ap succeeded_rows (does.others key ne),
        resolved-logged_ne k key (run_effect ledger k opts w).2 w.calls ne,
      )

  perform-IsOnce :
      (e : Event S) (w : World S) → IsOnce ledger key w → IsOnce ledger key (perform ledger e w)
  unfolding perform approve reject
  perform-IsOnce (calls_run k opts) w h = elim (eq-cases k key) [
    | inl same ↦
        subst (λ k'. IsOnce ledger key (run_keyed ledger k' opts w).1) (sym same)
          (run_self-IsOnce opts w h)
    | inr ne ↦ run_other-IsOnce k opts w ne h
  ]
  perform-IsOnce (approves k) w h = ground (arith, laws.approved_writes k w.store key, eq_iff k key)
  perform-IsOnce (rejects k why) w h =
      ground (
        arith,
        laws.rejected_writes k (get_or why "rejected by reviewer") w.store key,
        eq_iff k key,
      )
  perform-IsOnce (waits ms) w h = h

  -- Exactly once, over any ledger with the laws: if the calls of `execute` that resolved for a key
  -- are as many as its row says, one if the row has succeeded and none if it has not or is not there,
  -- then so they are after any history of calls of `run` with any keys and options, approvals,
  -- rejections and waiting.
  pub perform_all-IsOnce :
      (es : List (Event S)) (w : World S)
      → IsOnce ledger key w
      → IsOnce ledger key (perform_all ledger es w)
  unfolding perform_all
  perform_all-IsOnce [] w h = h
  perform_all-IsOnce (e ∷ es) w h =
      perform_all-IsOnce es (perform ledger e w) (perform-IsOnce e w h)
