-- ===== src/Workflow/Repeat/Values.antt =====
-- workflow.ts, the second pass over a command: times and random numbers.
use quorvel.Common.{ℕ, String, ◌≡◌, refl, subst, Option, none, some}
use quorvel.Value.{Value}
use quorvel.WorkflowStore.{EventType, completed, WorkflowEvent, event_at}
use quorvel.WorkflowStore.History.{Extends}
use quorvel.Workflow.Types.{Engine, Progress}
use quorvel.Workflow.Replay.{
  Recorded, fresh, done, parked, mismatch, recorded, event, appended, Next, value_command,
}
use quorvel.Workflow.Determinism.{EndsWell, Grows, value_command-Grows}
use quorvel.Workflow.Repeat.{
  IsKnown, recorded-IsKnown, recorded-new, append_event-SameLater, Repeats, end_of,
}

module _ (id : String) (seq : ℕ) (p : Progress) (w' : Engine) (well : EndsWell p) where
  value_known :
      (type : EventType) (name : String) (value value' : Value) (rec : Recorded)
      (next next' : Value → Next) (w v : Engine)
      → IsKnown rec
      → ((x : Value) → Repeats id seq p w' well w.store (next x) (next' x))
      → value_command id seq type name value rec next w ≡ (p, w')
      → value_command id seq type name value' rec next' v ≡ (p, v)
  unfolding value_command
  value_known type name value value' (done x) next next' w v k ih e = ih x w (λ j le. refl) e v
  value_known type name value value' (parked x) next next' w v k ih e = ih x w (λ j le. refl) e v
  value_known type name value value' (mismatch s x y) next next' w v k ih e =
      end_of id seq p w' well e v
  value_known type name value value' fresh next next' w v k ih e = absurd k

  -- The second pass finds a value, and draws none.
  pub value_repeat :
      (type : EventType) (name : String) (value value' : Value) (o : Option WorkflowEvent)
      (next next' : Value → Next) (w v : Engine)
      → event_at id seq w.store ≡ o
      → ((x : Value) → Grows id (next x))
      → ((x : Value) → Repeats id seq p w' well w.store (next x) (next' x))
      → value_command id seq type name value (recorded o type name) next w ≡ (p, w')
      → IsKnown (recorded (event_at id seq w'.store) type name)
        × (value_command id seq type name value'
              (recorded (event_at id seq w'.store) type name)
              next'
              v
            ≡ (p, v))
  unfolding value_command
  value_repeat type name value value' none next next' w v found grows ih e =
      let w1 = appended (event id seq type name completed (some value) none) w in
      rw
        (recorded-new id seq type name value w.store w'.store found
          (subst (λ (r : Progress × Engine). Extends id w1.store r.1.store) e (grows value w1)))
        (
          tt,
          ih value w1 (append_event-SameLater id seq type name completed (some value) none w.store)
              e v,
        )
  value_repeat type name value value' (some x) next next' w v found grows ih e =
      let rec = recorded (some x) type name in
      rw
        (subst (λ (r : Progress × Engine). Extends id w.store r.1.store) e
          (value_command-Grows id seq type name value rec next grows w) seq x found)
        (
          recorded-IsKnown x type name,
          value_known type name value value' rec next next' w v (recorded-IsKnown x type name) ih e,
        )
