-- ===== src/Workflow/Repeat/Steps.antt =====
-- workflow.ts, the second pass over a command: a step is answered from its event, or recorded before its answer is used.
use quorvel.Common.{ℕ, String, ◌≡◌, refl, sym, ap, subst, ◌∙◌, Option, none, some, get_or}
use quorvel.Value.{Value}
use quorvel.Run.{Attempt, resolves, throws}
use quorvel.WorkflowStore.{EventType, completed, WorkflowEvent, event_at}
use quorvel.WorkflowStore.History.{Extends}
use quorvel.Workflow.Types.{Engine, Progress, throws_error}
use quorvel.Workflow.Replay.{
  Recorded, fresh, done, parked, mismatch, recorded, attempts_from, Next, step_command,
}
use quorvel.Workflow.Determinism.{
  EndsWell, IsProper, answered, attempts_from-store, Grows, step_command-Grows,
}
use quorvel.Workflow.Repeat.{
  IsAnswer, recorded-IsAnswer, recorded-new, SameLater, append_event-SameLater, Repeats, end_of,
}

module _ (id : String) (seq : ℕ) (p : Progress) (w' : Engine) (well : EndsWell p) where
  step_known :
      (name : String) (act : ℕ → Attempt) (retries backoff : Option ℕ) (rec : Recorded)
      (next next' : Attempt → Next) (w v : Engine)
      → IsAnswer rec
      → ((x : Value) → Repeats id seq p w' well w.store (next (resolves x)) (next' (resolves x)))
      → step_command id seq name act retries backoff rec next w ≡ (p, w')
      → step_command id seq name act retries backoff rec next' v ≡ (p, v)
  unfolding step_command
  step_known name act retries backoff (done x) next next' w v a ih e = ih x w (λ j le. refl) e v
  step_known name act retries backoff (mismatch s x y) next next' w v a ih e =
      end_of id seq p w' well e v
  step_known name act retries backoff fresh next next' w v a ih e = absurd a
  step_known name act retries backoff (parked x) next next' w v a ih e = absurd a

  -- a step that is answered for the first time
  step_answered :
      (name : String) (act : ℕ → Attempt) (retries backoff : Option ℕ) (a : Attempt) (w1 : Engine)
      (next next' : Attempt → Next) (w v : Engine)
      → event_at id seq w.store ≡ none
      → w1.store ≡ answered id seq name a w.store
      → ((b : Attempt) → Grows id (next b))
      → ((x : Value) → Repeats id seq p w' well w.store (next (resolves x)) (next' (resolves x)))
      → ((x : String) (u : Engine) → (next (throws x) u).0 ≡ throws_error x)
      → next a w1 ≡ (p, w')
      → step_command id seq name act retries backoff
          (recorded (event_at id seq w'.store) EventType.step name)
          next'
          v
        ≡ (p, v)
  unfolding step_command
  step_answered name act retries backoff (throws x) w1 next next' w v free st grows ih bad e =
      absurd (subst EndsWell (sym (ap (λ (r : Progress × Engine). r.0) e) ∙ bad x w1) well)
  step_answered name act retries backoff (resolves x) w1 next next' w v free st grows ih bad e =
      rw
        (recorded-new id seq EventType.step name x w.store w'.store free (
          subst (λ s. Extends id s w'.store) st
            (subst (λ (r : Progress × Engine). Extends id w1.store r.1.store) e
              (grows (resolves x) w1))))
        (ih x w1
          (subst (SameLater id seq w.store) (sym st)
            (append_event-SameLater id seq EventType.step name completed (some x) none w.store))
          e v)

  pub step_repeat :
      (name : String) (act : ℕ → Attempt) (retries backoff : Option ℕ) (o : Option WorkflowEvent)
      (next next' : Attempt → Next) (w v : Engine)
      → IsProper o
      → event_at id seq w.store ≡ o
      → ((b : Attempt) → Grows id (next b))
      → ((x : Value) → Repeats id seq p w' well w.store (next (resolves x)) (next' (resolves x)))
      → ((x : String) (u : Engine) → (next (throws x) u).0 ≡ throws_error x)
      → step_command id seq name act retries backoff (recorded o EventType.step name) next w
        ≡ (p, w')
      → step_command id seq name act retries backoff
          (recorded (event_at id seq w'.store) EventType.step name)
          next'
          v
        ≡ (p, v)
  step_repeat name act retries backoff none next next' w v proper found grows ih bad e =
      let (a, w1) = attempts_from id seq name act (get_or backoff 100) (get_or retries 0) 0 w in
      step_answered name act retries backoff a w1 next next' w v found
        (attempts_from-store id seq name act (get_or backoff 100) (get_or retries 0) 0 w w.store
          refl)
        grows ih bad (unfold step_command in e)
  step_repeat name act retries backoff (some x) next next' w v proper found grows ih bad e =
      let rec = recorded (some x) EventType.step name in
      rw
        (subst (λ (r : Progress × Engine). Extends id w.store r.1.store) e
          (step_command-Grows id seq name act retries backoff rec next grows w) seq x found)
        (step_known name act retries backoff rec next next' w v (recorded-IsAnswer x name proper) ih
          e)
