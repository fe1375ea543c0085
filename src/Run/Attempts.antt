-- ===== src/Run/Attempts.antt =====
-- run.ts, `execute`: the retry loop against a description of the calls that it makes.
use quorvel.Common.{
  ℕ, zero, suc, ◌+◌, ◌*◌, ◌^◌, ap, ◌∙◌, String, ◌≡◌, ◌≢◌, refl, some, List, [], ◌∷◌, ◌++◌, arith,
  get_or, eq_iff, Option, length, length-append, map, sym,
}
use quorvel.Value.{Value}
use quorvel.Errors.{failure}
use quorvel.Ledger.{ActionRecord, succeeded, failed, LedgerStore, LedgerLaws, as_running}
use quorvel.Run.{
  World, Outcome, returned, threw, Attempt, resolves, throws, RunOptions, sleep, started, finished,
  given_up, round, attempts_from, execute,
}

abbrev pub made_then : Attempt → List Attempt → List Attempt
made_then (resolves v) rest = resolves v ∷ []
made_then (throws e) rest = rest ++ throws e ∷ []

-- The calls of `execute`, the latest first: until one resolves, or no retry is left.
abbrev pub made : (ℕ → Attempt) → ℕ → ℕ → List Attempt
made f zero n = f n ∷ []
made f (suc left) n = made_then (f n) (made f left (n + 1))

abbrev pub last_of : Attempt → Attempt → Attempt
last_of (resolves v) rest = resolves v
last_of (throws e) rest = rest

-- The call that decides: the first that resolves, or the last one.
abbrev pub last_try : (ℕ → Attempt) → ℕ → ℕ → Attempt
last_try f zero n = f n
last_try f (suc left) n = last_of (f n) (last_try f left (n + 1))

-- The same for a whole run with the given options.
abbrev pub calls_made : {S : Type 0} → RunOptions S → List Attempt
calls_made opts = made opts.execute (get_or opts.retries 0) 0

abbrev pub last_call : {S : Type 0} → RunOptions S → Attempt
last_call opts = last_try opts.execute (get_or opts.retries 0) 0

abbrev pub outcome_of : Attempt → Outcome Value
outcome_of (resolves v) = returned v
outcome_of (throws e) = threw (failure e)

-- The row after `n` calls, the last of which came to the given attempt.
abbrev pub settled : Attempt → ℕ → ActionRecord → ActionRecord
settled (resolves v) n r = record r {
  status = succeeded;
  attempts = r.attempts + n;
  result = some v;
}
settled (throws e) n r = record r { status = failed; attempts = r.attempts + n; error = some e }

-- What a call on one key has done: its outcome, the row of the key afterwards, and its
-- calls of `execute`.
abbrev pub Effect : Type 0
Effect = Outcome Value × Option ActionRecord × List Attempt

abbrev pub logged_as : String → List Attempt → List (String × Attempt)
logged_as key calls = map (λ a. (key, a)) calls

-- The action that led from `w` to `w'` with outcome `o` has that effect and no other: every other
-- row stays, and the log has exactly these calls.
pub record Does {S : Type 0} (ledger : LedgerStore S) (key : String) (effect : Effect) (w : World S)
    (o : Outcome Value) (w' : World S) : Type 0 where
  pub outcome : o ≡ effect.0
  pub row : ledger.get key w'.store ≡ effect.1
  pub others : (j : String) → key ≢ j → ledger.get j w'.store ≡ ledger.get j w.store
  pub logged : w'.calls ≡ logged_as key effect.2 ++ w.calls

abbrev pub executed : Attempt → List Attempt → ActionRecord → Effect
executed a calls r = (outcome_of a, some (settled a (length calls) r), calls)

abbrev Ran :
    {S : Type 0}
    → LedgerStore S
    → String
    → ActionRecord
    → Attempt
    → List Attempt
    → World S
    → Outcome Value
    → World S
    → Type 0
Ran ledger key r a n = Does ledger key (executed a n r)

settled-as_running :
    (a : Attempt) (n : ℕ) (r : ActionRecord) → settled a n (as_running r) ≡ settled a (suc n) r
settled-as_running (resolves v) n r = ground arith
settled-as_running (throws e) n r = ground arith

logged_as-append :
    (key : String) (later : List Attempt) (a : Attempt) (calls : List (String × Attempt))
    → logged_as key (later ++ a ∷ []) ++ calls ≡ logged_as key later ++ (key, a) ∷ calls
logged_as-append key [] a calls = refl
logged_as-append key (x ∷ later) a calls =
    ap (λ l. (key, x) ∷ l) (logged_as-append key later a calls)

module _ {S : Type 0} (ledger : LedgerStore S) (laws : LedgerLaws ledger) (key : String)
    (opts : RunOptions S) where
  finished-Ran :
      (v : Value) (w : World S) (r : ActionRecord)
      → ledger.get key w.store ≡ some r
      → Ran ledger key r
          (resolves v)
          (resolves v ∷ [])
          w
          (finished ledger key v (started ledger key (resolves v) w)).0
          (finished ledger key v (started ledger key (resolves v) w)).1
  finished-Ran v w r h = record {
    outcome = refl;
    row = ground (
      arith,
      laws.succeeded_writes key v (ledger.mark_running key w.store) key,
      laws.running_writes key w.store key,
      eq_iff key key,
    );
    others = λ j ne. ground (
      arith,
      laws.succeeded_writes key v (ledger.mark_running key w.store) j,
      laws.running_writes key w.store j,
      eq_iff key j,
    );
    logged = refl;
  }

  given_up-Ran :
      (e : String) (w : World S) (r : ActionRecord)
      → ledger.get key w.store ≡ some r
      → Ran ledger key r
          (throws e)
          (throws e ∷ [])
          w
          (given_up ledger key e (started ledger key (throws e) w)).0
          (given_up ledger key e (started ledger key (throws e) w)).1
  given_up-Ran e w r h = record {
    outcome = refl;
    row = ground (
      arith,
      laws.failed_writes key e (ledger.mark_running key w.store) key,
      laws.running_writes key w.store key,
      eq_iff key key,
    );
    others = λ j ne. ground (
      arith,
      laws.failed_writes key e (ledger.mark_running key w.store) j,
      laws.running_writes key w.store j,
      eq_iff key j,
    );
    logged = refl;
  }

  -- One call that throws with a retry left, and then the rest of the loop.
  retried-Ran :
      (a : Attempt) (e : String) (later : List Attempt) (ms : ℕ) (w : World S) (r : ActionRecord)
      (o : Outcome Value) (w' : World S)
      → ledger.get key w.store ≡ some r
      → Ran ledger key (as_running r) a later (sleep ms (started ledger key (throws e) w)) o w'
      → Ran ledger key r a (later ++ throws e ∷ []) w o w'
  retried-Ran a e later ms w r o w' h ran = record {
    outcome = ran.outcome;
    row =
        ran.row
        ∙ ap some (
            settled-as_running a (length later) r
            ∙ ap (λ n. settled a n r) (omega (arith, length-append later (throws e ∷ []))));
    others =
        λ j ne. ground (arith, ran.others j ne, laws.running_writes key w.store j, eq_iff key j);
    logged = ran.logged ∙ sym (logged_as-append key later (throws e) w.calls);
  }

  last_round-Ran :
      (a : Attempt) (w : World S) (r : ActionRecord)
      → ledger.get key w.store ≡ some r
      → Ran ledger key r a
          (a ∷ [])
          w
          (round ledger key a (given_up ledger key) w).0
          (round ledger key a (given_up ledger key) w).1
  last_round-Ran (resolves v) w r h = finished-Ran v w r h
  last_round-Ran (throws e) w r h = given_up-Ran e w r h

  -- a round, given what the rest of the loop does after a call that throws
  round-Ran :
      (a last : Attempt) (later : List Attempt) (ms : ℕ) (next : World S → Outcome Value × World S)
      (w : World S) (r : ActionRecord)
      → ledger.get key w.store ≡ some r
      → ((w1 : World S)
          → ledger.get key w1.store ≡ some (as_running r)
          → Ran ledger key (as_running r) last later w1 (next w1).0 (next w1).1)
      → Ran ledger key r
          (last_of a last)
          (made_then a later)
          w
          (round ledger key a (λ _ w'. next (sleep ms w')) w).0
          (round ledger key a (λ _ w'. next (sleep ms w')) w).1
  round-Ran (resolves v) last later ms next w r h ran = finished-Ran v w r h
  round-Ran (throws e) last later ms next w r h ran =
      let w1 = sleep ms (started ledger key (throws e) w) in
      retried-Ran last e later ms w r (next w1).0 (next w1).1 h
        (ran w1 (ground (arith, laws.running_writes key w.store key, eq_iff key key)))

  attempts_from-Ran :
      (left n : ℕ) (w : World S) (r : ActionRecord)
      → ledger.get key w.store ≡ some r
      → Ran ledger key r
          (last_try opts.execute left n)
          (made opts.execute left n)
          w
          (attempts_from ledger key opts left n w).0
          (attempts_from ledger key opts left n w).1
  unfolding attempts_from
  attempts_from-Ran zero n w r h = last_round-Ran (opts.execute n) w r h
  attempts_from-Ran (suc left) n w r h =
      round-Ran (opts.execute n) (last_try opts.execute left (n + 1))
        (made opts.execute left (n + 1)) (get_or opts.backoff_ms 100 * 2 ^ n)
        (attempts_from ledger key opts left (n + 1)) w r h
        (λ w1 h1. attempts_from-Ran left (n + 1) w1 (as_running r) h1)

  -- Over any ledger with the laws, where the key has a row, calls are made until one resolves or the
  -- retries are used up; the outcome, the row and the log are those of these calls.
  pub execute-Does :
      (w : World S) (r : ActionRecord)
      → ledger.get key w.store ≡ some r
      → Does ledger key
          (executed (last_call opts) (calls_made opts) r)
          w
          (execute ledger key opts w).0
          (execute ledger key opts w).1
  unfolding execute
  execute-Does w r h = attempts_from-Ran (get_or opts.retries 0) 0 w r h
