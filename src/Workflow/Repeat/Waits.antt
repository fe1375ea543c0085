-- ===== src/Workflow/Repeat/Waits.antt =====
-- workflow.ts, the second pass over a command: timers and signals.
use quorvel.Common.{ℕ, ◌+◌, String, ◌≡◌, refl, ap, subst, ◌∙◌, Option, none, some, find}
use quorvel.Value.{Value, undefined}
use quorvel.WorkflowStore.{
  EventType, completed, WorkflowEvent, Workflows, BufferedSignal, event_at, consume_signal,
  same_event,
}
use quorvel.WorkflowStore.History.{Extends}
use quorvel.Workflow.Types.{Engine, Progress}
use quorvel.Workflow.Replay.{
  Recorded, fresh, done, parked, mismatch, recorded, event, appended, Next, sleep_command,
  take_signal, signal_command,
}
use quorvel.Workflow.Determinism.{
  EndsWell, Grows, sleep_command-Grows, signal_command-Grows, events-consume_signal,
}
use quorvel.Workflow.Repeat.{
  IsKnown, recorded-IsKnown, recorded-new, recorded-wait, append_event-SameLater, Repeats, end_of,
}

module _ (id : String) (seq : ℕ) (p : Progress) (w' : Engine) (well : EndsWell p) where
  sleep_known :
      (name : String) (ms : ℕ) (rec : Recorded) (next next' : Next) (w v : Engine)
      → IsKnown rec
      → Repeats id seq p w' well w.store next next'
      → sleep_command id seq name ms rec next w ≡ (p, w')
      → sleep_command id seq name ms rec next' v ≡ (p, v)
  unfolding sleep_command
  sleep_known name ms (done x) next next' w v k ih e = ih w (λ j le. refl) e v
  sleep_known name ms (parked x) next next' w v k ih e = end_of id seq p w' well e v
  sleep_known name ms (mismatch s x y) next next' w v k ih e = end_of id seq p w' well e v
  sleep_known name ms fresh next next' w v k ih e = absurd k

  pub sleep_repeat :
      (name : String) (ms : ℕ) (o : Option WorkflowEvent) (next next' : Next) (w v : Engine)
      → event_at id seq w.store ≡ o
      → Grows id next
      → Repeats id seq p w' well w.store next next'
      → sleep_command id seq name ms (recorded o EventType.sleep name) next w ≡ (p, w')
      → sleep_command id seq name ms
          (recorded (event_at id seq w'.store) EventType.sleep name)
          next'
          v
        ≡ (p, v)
  unfolding sleep_command
  sleep_repeat name ms none next next' w v found grows ih e =
      rw
        (subst (λ s. recorded (event_at id seq s) EventType.sleep name ≡ parked undefined)
          (ap (λ (r : Progress × Engine). r.1.store) e)
          (recorded-wait id seq EventType.sleep name (some (w.clock + ms)) w.store found))
        (end_of id seq p w' well e v)
  sleep_repeat name ms (some x) next next' w v found grows ih e =
      let rec = recorded (some x) EventType.sleep name in
      rw
        (subst (λ (r : Progress × Engine). Extends id w.store r.1.store) e
          (sleep_command-Grows id seq name ms rec next grows w) seq x found)
        (sleep_known name ms rec next next' w v (recorded-IsKnown x EventType.sleep name) ih e)

  signal_known :
      (name : String) (rec : Recorded) (next next' : Value → Next) (w v : Engine)
      → IsKnown rec
      → ((x : Value) → Repeats id seq p w' well w.store (next x) (next' x))
      → signal_command id seq name rec next w ≡ (p, w')
      → signal_command id seq name rec next' v ≡ (p, v)
  unfolding signal_command
  signal_known name (done x) next next' w v k ih e = ih x w (λ j le. refl) e v
  signal_known name (parked x) next next' w v k ih e = end_of id seq p w' well e v
  signal_known name (mismatch s x y) next next' w v k ih e = end_of id seq p w' well e v
  signal_known name fresh next next' w v k ih e = absurd k

  -- a wait that is reached for the first time
  signal_taken :
      (name : String) (b : Option BufferedSignal) (s : Workflows) (next next' : Value → Next)
      (w v : Engine)
      → event_at id seq s ≡ none
      → s.events ≡ w.store.events
      → ((x : Value) → Grows id (next x))
      → ((x : Value) → Repeats id seq p w' well w.store (next x) (next' x))
      → take_signal id seq name (b, s) next w ≡ (p, w')
      → signal_command id seq name
          (recorded (event_at id seq w'.store) EventType.signal name)
          next'
          v
        ≡ (p, v)
  unfolding signal_command
  signal_taken name none s next next' w v free same grows ih e =
      rw
        (subst (λ t. recorded (event_at id seq t) EventType.signal name ≡ parked undefined)
          (ap (λ (r : Progress × Engine). r.1.store) e)
          (recorded-wait id seq EventType.signal name none s free))
        (end_of id seq p w' well e v)
  signal_taken name (some b) s next next' w v free same grows ih e =
      let w1 =
        appended (event id seq EventType.signal name completed (some b.payload) none)
          (record w { store = s }) in
      rw
        (recorded-new id seq EventType.signal name b.payload s w'.store free
          (subst (λ (r : Progress × Engine). Extends id w1.store r.1.store) e (grows b.payload w1)))
        (ih b.payload w1
          (λ j le.
            append_event-SameLater id seq EventType.signal name completed (some b.payload) none s j
              le
            ∙ ap (find (same_event id j)) same)
          e v)

  pub signal_repeat :
      (name : String) (o : Option WorkflowEvent) (next next' : Value → Next) (w v : Engine)
      → event_at id seq w.store ≡ o
      → ((x : Value) → Grows id (next x))
      → ((x : Value) → Repeats id seq p w' well w.store (next x) (next' x))
      → signal_command id seq name (recorded o EventType.signal name) next w ≡ (p, w')
      → signal_command id seq name
          (recorded (event_at id seq w'.store) EventType.signal name)
          next'
          v
        ≡ (p, v)
  signal_repeat name none next next' w v found grows ih e =
      let (b, s) = consume_signal id name w.store in
      let same = events-consume_signal id name w.store in
      signal_taken name b s next next' w v (ap (find (same_event id seq)) same ∙ found) same grows
        ih (unfold signal_command in e)
  signal_repeat name (some x) next next' w v found grows ih e =
      let rec = recorded (some x) EventType.signal name in
      rw
        (subst (λ (r : Progress × Engine). Extends id w.store r.1.store) e
          (signal_command-Grows id seq name rec next grows w) seq x found)
        (signal_known name rec next next' w v (recorded-IsKnown x EventType.signal name) ih e)
