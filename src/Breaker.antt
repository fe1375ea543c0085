-- ===== src/Breaker.antt =====
-- apps/api/src/resilience.ts, `CircuitBreaker`: the state machine of a breaker, call by call. The
-- clock is read in milliseconds. `now - openedAt >= cooldownMs` is written as a sum, which is the
-- same on integers. A call in flight may settle after others have begun.
pub mod Safety
use quorvel.Common.{
  ℕ, ◌+◌, ◌-◌, ◌/◌, String, Bool, true, false, Option, none, some, List, [], ◌∷◌, get_or, leb,
  if◌then◌else◌,
}

pub data CircuitState : Type 0 where
  closed opened half_open : CircuitState

pub record CircuitBreakerOptions : Type 0 where
  pub name : String
  pub failure_threshold : Option ℕ
  pub cooldown_ms : Option ℕ
  pub success_threshold : Option ℕ

-- `changes` has the states that `onStateChange` was called with, the latest first.
pub record CircuitBreaker : Type 0 where
  pub failure_threshold : ℕ
  pub cooldown_ms : ℕ
  pub success_threshold : ℕ
  pub state : CircuitState
  pub failures : ℕ
  pub successes : ℕ
  pub opened_at : ℕ
  pub changes : List CircuitState

-- the constructor
unfoldable pub new_breaker : CircuitBreakerOptions → CircuitBreaker
new_breaker opts = record {
  failure_threshold = get_or opts.failure_threshold 5;
  cooldown_ms = get_or opts.cooldown_ms 30000;
  success_threshold = get_or opts.success_threshold 1;
  state = closed;
  failures = 0;
  successes = 0;
  opened_at = 0;
  changes = [];
}

abbrev pub eq_state : CircuitState → CircuitState → Bool
eq_state closed closed = true
eq_state opened opened = true
eq_state half_open half_open = true
eq_state _ _ = false

-- the writes of `transition` to another state
abbrev pub moved : ℕ → CircuitState → CircuitBreaker → CircuitBreaker
moved now closed b = record b {
  state = closed;
  failures = 0;
  successes = 0;
  changes = closed ∷ b.changes;
}
moved now opened b = record b {
  state = opened;
  opened_at = now;
  successes = 0;
  changes = opened ∷ b.changes;
}
moved now half_open b = record b {
  state = half_open;
  successes = 0;
  changes = half_open ∷ b.changes;
}

abbrev pub transition : ℕ → CircuitState → CircuitBreaker → CircuitBreaker
transition now next b = if eq_state b.state next then b else moved now next b

-- `Math.max(1, Math.ceil(remaining / 1000))`; with nothing remaining the result is 1
abbrev pub retry_after_seconds : ℕ → CircuitBreaker → ℕ
retry_after_seconds now b =
    let seconds = ((b.opened_at + b.cooldown_ms) - now + 999) / 1000 in
    if leb seconds 1 then 1 else seconds

-- How `exec` begins: the call goes through, or `DependencyUnavailableError` is thrown.
pub data Admission : Type 0 where
  admitted : Admission
  unavailable : (retry_after : ℕ) → Admission

admit_in : CircuitState → ℕ → CircuitBreaker → Admission × CircuitBreaker
admit_in closed now b = (admitted, b)
admit_in half_open now b = (admitted, b)
admit_in opened now b =
    if leb (b.opened_at + b.cooldown_ms) now
    then (admitted, transition now half_open b)
    else (unavailable (retry_after_seconds now b), b)

unfoldable pub admit : ℕ → CircuitBreaker → Admission × CircuitBreaker
unfolding admit_in
admit now b = admit_in b.state now b

success_in : CircuitState → ℕ → CircuitBreaker → CircuitBreaker
success_in half_open now b =
    let b' = record b { successes = b.successes + 1 } in
    if leb b'.success_threshold b'.successes then transition now closed b' else b'
success_in closed now b = record b { failures = 0 }
success_in opened now b = record b { failures = 0 }

unfoldable pub on_success : ℕ → CircuitBreaker → CircuitBreaker
unfolding success_in
on_success now b = success_in b.state now b

count_failure : ℕ → CircuitBreaker → CircuitBreaker
count_failure now b =
    let b' = record b { failures = b.failures + 1 } in
    if leb b'.failure_threshold b'.failures then transition now opened b' else b'

failure_in : CircuitState → ℕ → CircuitBreaker → CircuitBreaker
unfolding count_failure
failure_in half_open now b = transition now opened b
failure_in closed now b = count_failure now b
failure_in opened now b = count_failure now b

unfoldable pub on_failure : ℕ → CircuitBreaker → CircuitBreaker
unfolding failure_in
on_failure now b = failure_in b.state now b

-- What the callers of `exec` do to a breaker: a call begins, or an admitted one settles.
pub data CallEvent : Type 0 where
  begins succeeds fails : (at : ℕ) → CallEvent

abbrev pub event_time : CallEvent → ℕ
event_time (begins at) = at
event_time (succeeds at) = at
event_time (fails at) = at

unfoldable pub perform : CallEvent → CircuitBreaker → CircuitBreaker
perform (begins at) b = (admit at b).1
perform (succeeds at) b = on_success at b
perform (fails at) b = on_failure at b

unfoldable pub perform_all : List CallEvent → CircuitBreaker → CircuitBreaker
perform_all [] b = b
perform_all (e ∷ es) b = perform_all es (perform e b)

-- `exec` of a call that settles at the time `later`: whether it was made, and whether it resolved.
pub data Executed : Type 0 where
  resolved rejected : Executed
  refused : (retry_after : ℕ) → Executed

executed : Bool → ℕ → Admission × CircuitBreaker → Executed × CircuitBreaker
executed ok later (unavailable s, b) = (refused s, b)
executed true later (admitted, b) = (resolved, on_success later b)
executed false later (admitted, b) = (rejected, on_failure later b)

unfoldable pub exec : ℕ → ℕ → Bool → CircuitBreaker → Executed × CircuitBreaker
unfolding executed
exec now later ok b = executed ok later (admit now b)
