-- ===== src/Workflow/Replay.antt =====
-- workflow.ts, `makeContext`: the commands of `ctx` against the history that was read as the pass
-- began. The history has one event for a position, so its `Map` is a search.
use Prim.Native.String
use quorvel.Common.{
  ℕ, zero, suc, ◌+◌, ◌*◌, ◌^◌, String, Bool, true, false, ◌&&◌, Option, none, some, List, ◌∷◌,
  get_or, str_eq, ◌==◌, find, length, if◌then◌else◌,
}
use quorvel.Value.{Value, undefined, num}
use quorvel.Run.{Attempt, resolves, throws}
use quorvel.WorkflowStore.{
  EventType, EventStatus, pending, completed, WorkflowEvent, Workflows, BufferedSignal,
  append_event, consume_signal,
}
use quorvel.Workflow.Types.{
  Body, returns, raises, wait_for_signal, Engine, Progress, finishes, throws_error, suspends,
  diverges,
}

infixr 65 ◌&◌
abbrev ◌&◌ : String → String → String
a & b = String.◌++◌ a b

abbrev pub type_name : EventType → String
type_name EventType.step = "step"
type_name EventType.sleep = "sleep"
type_name EventType.signal = "signal"
type_name EventType.now = "now"
type_name EventType.random = "random"

-- `existing.type === type`
abbrev pub eq_type : EventType → EventType → Bool
eq_type EventType.step EventType.step = true
eq_type EventType.sleep EventType.sleep = true
eq_type EventType.signal EventType.signal = true
eq_type EventType.now EventType.now = true
eq_type EventType.random EventType.random = true
eq_type _ _ = false

-- What the history holds for a command: nothing, its result, the result of an event that is still
-- pending, or another command.
pub data Recorded : Type 0 where
  fresh : Recorded
  done parked : Value → Recorded
  mismatch : (seq : ℕ) (expected actual : String) → Recorded

abbrev recorded_as : WorkflowEvent → EventStatus → Recorded
recorded_as e completed = done (get_or e.result undefined)
recorded_as e pending = parked (get_or e.result undefined)

-- the lookup in `bySeq`, and `matchOrThrow`
abbrev pub recorded : Option WorkflowEvent → EventType → String → Recorded
recorded none type name = fresh
recorded (some e) type name =
    if eq_type e.event_type type && str_eq e.name name
    then recorded_as e e.status
    else mismatch e.seq (type_name e.event_type & ":" & e.name) (type_name type & ":" & name)

abbrev pub by_seq : List WorkflowEvent → ℕ → Option WorkflowEvent
by_seq history seq = find (λ e. e.seq == seq) history

abbrev pub event :
    String → ℕ → EventType → String → EventStatus → Option Value → Option ℕ → WorkflowEvent
event id seq type name status result fire_at = record {
  workflow_id = id;
  seq = seq;
  event_type = type;
  name = name;
  status = status;
  result = result;
  fire_at = fire_at;
}

abbrev pub appended : WorkflowEvent → Engine → Engine
appended e w = record w { store = append_event e w.store }

-- a call of an activity
abbrev pub called : String → ℕ → Attempt → Engine → Engine
called id seq a w = record w {
  calls = record { workflow_id = id; seq = seq; attempt = a } ∷ w.calls;
}

-- one attempt of a step, with what follows if it throws; only a result is recorded
abbrev pub round :
    String → ℕ → String → Attempt → (String → Engine → Attempt × Engine) → Engine → Attempt × Engine
round id seq name (resolves v) next w = (
  resolves v,
  appended (event id seq EventType.step name completed (some v) none)
      (called id seq (resolves v) w),
)
round id seq name (throws e) next w = next e (called id seq (throws e) w)

abbrev pub rest_for : ℕ → Engine → Engine
rest_for ms w = record w { clock = w.clock + ms }

-- The attempts of a step, with the retries that are left and the number of the attempt: the answer,
-- and the engine behind it.
unfoldable pub attempts_from :
    String → ℕ → String → (ℕ → Attempt) → ℕ → ℕ → ℕ → Engine → Attempt × Engine
attempts_from id seq name act backoff zero attempt w =
    round id seq name (act (length w.calls)) (λ e w'. (throws e, w')) w
attempts_from id seq name act backoff (suc left) attempt w =
    round id seq name (act (length w.calls))
      (λ e w'.
        attempts_from id seq name act backoff left (attempt + 1)
          (rest_for (backoff * 2 ^ attempt) w'))
      w

abbrev pub Next : Type 0
Next = Engine → Progress × Engine

-- `ctx.step`
unfoldable pub step_command :
    String → ℕ → String → (ℕ → Attempt) → Option ℕ → Option ℕ → Recorded → (Attempt → Next) → Next
step_command id seq name act retries backoff (done v) next w = next (resolves v) w
step_command id seq name act retries backoff (mismatch s x y) next w = (diverges s x y, w)
step_command id seq name act retries backoff _ next w =
    let (a, w') = attempts_from id seq name act (get_or backoff 100) (get_or retries 0) 0 w in
    next a w'

-- `ctx.sleep`
unfoldable pub sleep_command : String → ℕ → String → ℕ → Recorded → Next → Next
sleep_command id seq name ms (done v) next w = next w
sleep_command id seq name ms (parked v) next w = (suspends, w)
sleep_command id seq name ms (mismatch s x y) next w = (diverges s x y, w)
sleep_command id seq name ms fresh next w =
    (suspends, appended (event id seq EventType.sleep name pending none (some (w.clock + ms))) w)

-- a wait that is reached for the first time, with the signal that was buffered for it, if any
abbrev pub take_signal :
    String → ℕ → String → Option BufferedSignal × Workflows → (Value → Next) → Next
take_signal id seq name (some b, s) next w = next b.payload (
    appended (event id seq EventType.signal name completed (some b.payload) none)
      (record w { store = s }))
take_signal id seq name (none, s) next w = (
  suspends,
  appended (event id seq EventType.signal name pending none none) (record w { store = s }),
)

-- `ctx.waitForSignal`
unfoldable pub signal_command : String → ℕ → String → Recorded → (Value → Next) → Next
signal_command id seq name (done v) next w = next v w
signal_command id seq name (parked v) next w = (suspends, w)
signal_command id seq name (mismatch s x y) next w = (diverges s x y, w)
signal_command id seq name fresh next w =
    take_signal id seq name (consume_signal id name w.store) next w

-- `ctx.now` and `ctx.random`: the value that is recorded, or a new one
unfoldable pub value_command :
    String → ℕ → EventType → String → Value → Recorded → (Value → Next) → Next
value_command id seq type name value (done v) next w = next v w
value_command id seq type name value (parked v) next w = next v w
value_command id seq type name value (mismatch s x y) next w = (diverges s x y, w)
value_command id seq type name value fresh next w =
    next value (appended (event id seq type name completed (some value) none) w)

-- the draw of `Math.random` is made only where the value is new
abbrev pub draw : Recorded → Engine → Engine
draw fresh w = record w { drawn = w.drawn + 1 }
draw _ w = w

-- One pass over the body from a position, against the history.
unfoldable pub play : String → List WorkflowEvent → Body → ℕ → Next
play id h (returns v) seq w = (finishes v, w)
play id h (raises e) seq w = (throws_error e, w)
play id h (Body.step name act retries backoff k) seq w =
    step_command id seq name act retries backoff (recorded (by_seq h seq) EventType.step name)
      (λ a w'. play id h (k a) (suc seq) w') w
play id h (Body.sleep name ms k) seq w =
    sleep_command id seq name ms (recorded (by_seq h seq) EventType.sleep name)
      (λ w'. play id h k (suc seq) w') w
play id h (wait_for_signal name k) seq w =
    signal_command id seq name (recorded (by_seq h seq) EventType.signal name)
      (λ v w'. play id h (k v) (suc seq) w') w
play id h (Body.now k) seq w =
    value_command id seq EventType.now "now" (num w.clock)
      (recorded (by_seq h seq) EventType.now "now") (λ v w'. play id h (k v) (suc seq) w') w
play id h (Body.random k) seq w =
    value_command id seq EventType.random "random" (w.randoms w.drawn)
      (recorded (by_seq h seq) EventType.random "random") (λ v w'. play id h (k v) (suc seq) w')
      (draw (recorded (by_seq h seq) EventType.random "random") w)
