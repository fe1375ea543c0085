-- ===== src/Workflow/Repeat.antt =====
-- workflow.ts: the second pass over a body, against the history that the first one left.
pub mod Steps
pub mod Waits
pub mod Values
use quorvel.Common.{
  ℕ, suc, ◌+◌, ◌≤◌, String, ◌≡◌, refl, sym, ap, subst, ◌∙◌, true, Option, none, some, arith, get_or,
  eq_refl, find,
}
use quorvel.Value.{Value, undefined}
use quorvel.Run.{Attempt, resolves, throws}
use quorvel.WorkflowStore.{
  EventType, EventStatus, pending, completed, WorkflowEvent, Workflows, BufferedSignal, event_at,
  append_event, consume_signal, same_event,
}
use quorvel.WorkflowStore.History.{Extends, event_at-append_event}
use quorvel.Workflow.Types.{Engine, Progress, throws_error}
use quorvel.Workflow.Replay.{
  Recorded, fresh, done, parked, mismatch, eq_type, recorded, event, appended, attempts_from, Next,
  step_command, sleep_command, take_signal, signal_command, value_command, draw,
}
use quorvel.Workflow.Determinism.{
  EndsWell, IsProper, answered, attempts_from-store, Grows, step_command-Grows, sleep_command-Grows,
  signal_command-Grows, value_command-Grows, events-consume_signal,
}

pub eq_type_refl : (t : EventType) → eq_type t t ≡ true
eq_type_refl t = ground arith

-- The lookup finds a result, or another command.
abbrev pub IsAnswer : Recorded → Type 0
IsAnswer (done v) = Unit
IsAnswer (mismatch s x y) = Unit
IsAnswer fresh = ⊥
IsAnswer (parked v) = ⊥

pub recorded-IsAnswer :
    (e : WorkflowEvent) (name : String)
    → IsProper (some e)
    → IsAnswer (recorded (some e) EventType.step name)
recorded-IsAnswer e name h = ground (arith, h e refl)

-- The lookup finds something.
abbrev pub IsKnown : Recorded → Type 0
IsKnown fresh = ⊥
IsKnown _ = Unit

pub recorded-IsKnown :
    (e : WorkflowEvent) (type : EventType) (name : String) → IsKnown (recorded (some e) type name)
recorded-IsKnown e type name = ground arith

pub draw_known : (rec : Recorded) (v : Engine) → IsKnown rec → draw rec v ≡ v
draw_known fresh v k = absurd k
draw_known _ v k = refl

module _ (id : String) (seq : ℕ) where
  -- what a second pass finds where the first one stored a result, or a wait
  pub recorded-new :
      (type : EventType) (name : String) (v : Value) (s t : Workflows)
      → event_at id seq s ≡ none
      → Extends id (append_event (event id seq type name completed (some v) none) s) t
      → recorded (event_at id seq t) type name ≡ done v
  recorded-new type name v s t free ext =
      let e = event id seq type name completed (some v) none in
      rw (ext seq e (ground (arith, event_at-append_event id seq e s, eq_refl id)))
        (ground (arith, eq_type_refl type, eq_refl name))

  pub recorded-wait :
      (type : EventType) (name : String) (f : Option ℕ) (s : Workflows)
      → event_at id seq s ≡ none
      → recorded
          (event_at id seq (append_event (event id seq type name pending none f) s))
          type
          name
        ≡ parked undefined
  recorded-wait type name f s free =
      let e = event id seq type name pending none f in
      ground (arith, event_at-append_event id seq e s, eq_refl id, eq_type_refl type, eq_refl name)

  -- the positions behind `seq` are as they were
  abbrev pub SameLater : Workflows → Workflows → Type 0
  SameLater s t = (j : ℕ) → suc seq ≤ j → event_at id j t ≡ event_at id j s

  pub append_event-SameLater :
      (type : EventType) (name : String) (status : EventStatus) (r : Option Value) (f : Option ℕ)
      (s : Workflows)
      → SameLater s (append_event (event id seq type name status r f) s)
  append_event-SameLater type name status r f s j le =
      ground (arith, event_at-append_event id j (event id seq type name status r f) s)

  module _ (p : Progress) (w' : Engine) (well : EndsWell p) where
    -- The rest of the first pass, from a later position of the store `s`, is repeated by `next'`.
    abbrev pub Repeats : Workflows → Next → Next → Type 0
    Repeats s next next' =
        (w1 : Engine) → SameLater s w1.store → next w1 ≡ (p, w') → (v : Engine) → next' v ≡ (p, v)

    -- a pass that ends at a command ends there again
    pub end_of :
        {q : Progress} {w : Engine}
        → ◌≡◌ {A = Progress × Engine} (q, w) (p, w')
        → (v : Engine) → ◌≡◌ {A = Progress × Engine} (q, v) (p, v)
    end_of e v = ap (λ (r : Progress × Engine). (r.0, v)) e
