-- ===== src/Workflow/Determinism.antt =====
-- workflow.ts: a pass over a body records its answers, and a later pass over what was recorded gives
-- the same end and does nothing.
use quorvel.Common.{
  ℕ, zero, suc, ◌+◌, String, ◌≡◌, refl, sym, subst, ◌*◌, ◌^◌, Option, none, some, List, arith,
  get_or, length,
}
use quorvel.Value.{Value}
use quorvel.Run.{Attempt, resolves, throws}
use quorvel.WorkflowStore.{
  EventType, completed, WorkflowEvent, Workflows, BufferedSignal, append_event, consume_signal,
}
use quorvel.WorkflowStore.History.{Extends, append_event-Extends}
use quorvel.Workflow.Types.{
  Body, returns, raises, wait_for_signal, Engine, Progress, finishes, throws_error, suspends,
  diverges,
}
use quorvel.Workflow.Replay.{
  Recorded, fresh, done, parked, mismatch, recorded, by_seq, event, called, round, rest_for,
  attempts_from, Next, step_command, sleep_command, take_signal, signal_command, value_command,
  draw, play,
}

-- The pass came to a result or to a durable wait, and not to an error.
abbrev pub EndsWell : Progress → Type 0
EndsWell (finishes v) = Unit
EndsWell suspends = Unit
EndsWell (throws_error e) = ⊥
EndsWell (diverges s x y) = ⊥

-- The body catches no error of a step: a step that throws ends it with that error.
abbrev pub Propagates : Body → Type 0
Propagates (returns v) = Unit
Propagates (raises e) = Unit
Propagates (Body.step name act retries backoff k) =
    ((e : String) → k (throws e) ≡ raises e) × ((v : Value) → Propagates (k (resolves v)))
Propagates (Body.sleep name ms k) = Propagates k
Propagates (wait_for_signal name k) = (v : Value) → Propagates (k v)
Propagates (Body.now k) = (v : Value) → Propagates (k v)
Propagates (Body.random k) = (v : Value) → Propagates (k v)

-- A step that was recorded was recorded with its result: only timers and waits are pending.
abbrev pub IsProper : Option WorkflowEvent → Type 0
IsProper o = (e : WorkflowEvent) → o ≡ some e → e.event_type ≡ EventType.step → e.status ≡ completed

Extends-trans : (id : String) (r s t : Workflows) → Extends id r s → Extends id s t → Extends id r t
Extends-trans id r s t h k j e x = k j e (h j e x)

-- The store after a step has been answered.
abbrev pub answered : String → ℕ → String → Attempt → Workflows → Workflows
answered id seq name (resolves v) s =
    append_event (event id seq EventType.step name completed (some v) none) s
answered id seq name (throws e) s = s

round-store :
    (id : String) (seq : ℕ) (name : String) (a : Attempt)
    (next : String → Engine → Attempt × Engine) (w : Engine)
    → ((e : String) (w1 : Engine)
        → w1.store ≡ w.store
        → (next e w1).1.store ≡ answered id seq name (next e w1).0 w.store)
    → (round id seq name a next w).1.store
      ≡ answered id seq name (round id seq name a next w).0 w.store
round-store id seq name (resolves v) next w h = refl
round-store id seq name (throws e) next w h = h e (called id seq (throws e) w) refl

pub attempts_from-store :
    (id : String) (seq : ℕ) (name : String) (act : ℕ → Attempt) (backoff left n : ℕ) (w : Engine)
    (s : Workflows)
    → w.store ≡ s
    → (attempts_from id seq name act backoff left n w).1.store
      ≡ answered id seq name (attempts_from id seq name act backoff left n w).0 s
unfolding attempts_from
attempts_from-store id seq name act backoff zero n w s h =
    rw (← h)
      (round-store id seq name (act (length w.calls)) (λ e w'. (throws e, w')) w (λ e w1 q. q))
attempts_from-store id seq name act backoff (suc left) n w s h = rw (← h) (
    round-store id seq name (act (length w.calls)) _ w (λ e w1 q.
      attempts_from-store id seq name act backoff left (n + 1) (rest_for (backoff * 2 ^ n) w1)
        w.store q))

module _ (id : String) where
  answered-Extends :
      (seq : ℕ) (name : String) (a : Attempt) (s : Workflows)
      → Extends id s (answered id seq name a s)
  answered-Extends seq name (resolves v) s = append_event-Extends id _ s
  answered-Extends seq name (throws e) s = λ j x h. h

  -- the rest of a pass only extends the history
  abbrev pub Grows : Next → Type 0
  Grows next = (w : Engine) → Extends id w.store (next w).1.store

  pub step_command-Grows :
      (seq : ℕ) (name : String) (act : ℕ → Attempt) (retries backoff : Option ℕ) (rec : Recorded)
      (next : Attempt → Next)
      → ((a : Attempt) → Grows (next a))
      → Grows (step_command id seq name act retries backoff rec next)
  unfolding step_command
  step_command-Grows seq name act retries backoff (done v) next g w = g (resolves v) w
  step_command-Grows seq name act retries backoff (mismatch s x y) next g w = λ j e h. h
  step_command-Grows seq name act retries backoff _ next g w =
      let (a, w1) = attempts_from id seq name act (get_or backoff 100) (get_or retries 0) 0 w in
      Extends-trans id w.store w1.store (next a w1).1.store
        (subst (Extends id w.store)
          (sym (
            attempts_from-store id seq name act (get_or backoff 100) (get_or retries 0) 0 w w.store
              refl))
          (answered-Extends seq name a w.store))
        (g a w1)

  pub sleep_command-Grows :
      (seq : ℕ) (name : String) (ms : ℕ) (rec : Recorded) (next : Next)
      → Grows next
      → Grows (sleep_command id seq name ms rec next)
  unfolding sleep_command
  sleep_command-Grows seq name ms (done v) next g w = g w
  sleep_command-Grows seq name ms (parked v) next g w = λ j e h. h
  sleep_command-Grows seq name ms (mismatch s x y) next g w = λ j e h. h
  sleep_command-Grows seq name ms fresh next g w = append_event-Extends id _ w.store

  -- consuming a signal leaves the events alone
  pub events-consume_signal :
      (name : String) (s : Workflows) → (consume_signal id name s).1.events ≡ s.events
  unfolding consume_signal
  events-consume_signal name s = ground arith

  pub take_signal-Grows :
      (seq : ℕ) (name : String) (o : Option BufferedSignal) (s : Workflows) (next : Value → Next)
      (w : Engine)
      → s.events ≡ w.store.events
      → ((v : Value) → Grows (next v))
      → Extends id w.store (take_signal id seq name (o, s) next w).1.store
  take_signal-Grows seq name none s next w e g j x h = append_event-Extends id _ s j x (rw e h)
  take_signal-Grows seq name (some b) s next w e g j x h =
      g b.payload _ j x (append_event-Extends id _ s j x (rw e h))

  pub signal_command-Grows :
      (seq : ℕ) (name : String) (rec : Recorded) (next : Value → Next)
      → ((v : Value) → Grows (next v))
      → Grows (signal_command id seq name rec next)
  unfolding signal_command
  signal_command-Grows seq name (done v) next g w = g v w
  signal_command-Grows seq name (parked v) next g w = λ j e h. h
  signal_command-Grows seq name (mismatch s x y) next g w = λ j e h. h
  signal_command-Grows seq name fresh next g w =
      let (o, s) = consume_signal id name w.store in
      take_signal-Grows seq name o s next w (events-consume_signal name w.store) g

  pub value_command-Grows :
      (seq : ℕ) (type : EventType) (name : String) (value : Value) (rec : Recorded)
      (next : Value → Next)
      → ((v : Value) → Grows (next v))
      → Grows (value_command id seq type name value rec next)
  unfolding value_command
  value_command-Grows seq type name value (done v) next g w = g v w
  value_command-Grows seq type name value (parked v) next g w = g v w
  value_command-Grows seq type name value (mismatch s x y) next g w = λ j e h. h
  value_command-Grows seq type name value fresh next g w =
      λ j x h. g value _ j x (append_event-Extends id _ w.store j x h)

  pub draw-Extends : (rec : Recorded) (w : Engine) → Extends id w.store (draw rec w).store
  draw-Extends fresh w = λ j e x. x
  draw-Extends _ w = λ j e x. x

  -- A pass over any body against any history keeps every event of the run as it is recorded.
  pub play-Extends : (h : List WorkflowEvent) (body : Body) (seq : ℕ) → Grows (play id h body seq)
  unfolding play
  play-Extends h (returns v) seq w = λ j e x. x
  play-Extends h (raises e) seq w = λ j e x. x
  play-Extends h (Body.step name act retries backoff k) seq w =
      step_command-Grows seq name act retries backoff _ _ (λ a. play-Extends h (k a) (suc seq)) w
  play-Extends h (Body.sleep name ms k) seq w =
      sleep_command-Grows seq name ms _ _ (play-Extends h k (suc seq)) w
  play-Extends h (wait_for_signal name k) seq w =
      signal_command-Grows seq name _ _ (λ v. play-Extends h (k v) (suc seq)) w
  play-Extends h (Body.now k) seq w =
      value_command-Grows seq EventType.now "now" _ _ _ (λ v. play-Extends h (k v) (suc seq)) w
  play-Extends h (Body.random k) seq w =
      let rec = recorded (by_seq h seq) EventType.random "random" in
      λ j e x.
        value_command-Grows seq EventType.random "random" (w.randoms w.drawn) rec
          (λ v w'. play id h (k v) (suc seq) w') (λ v. play-Extends h (k v) (suc seq)) (draw rec w)
          j e (draw-Extends rec w j e x)
