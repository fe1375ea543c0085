-- ===== src/WorkflowStore/History.antt =====
-- workflow-store.ts: the event history of a run, position by position.
use mathlib.Core.Option
use quorvel.Common.{
  All, ◌++◌, ◌<◌, ℕ, String, ◌≡◌, refl, ◌∙◌, Bool, ◌&&◌, none, some, List, [], ◌∷◌, arith, str_eq,
  eq_iff, leb, ◌==◌, select, find, find-append, or_else, if◌then◌else◌,
}
use quorvel.Common.Sorting.{insert_by, sort_by, All-sort_by}
use quorvel.Value.{Value}
use quorvel.WorkflowStore.{
  WorkflowEvent, Workflows, same_event, event_at, append_event, get_events, as_completed,
  modify_event,
}

-- What is recorded for a run stays recorded, as it is.
abbrev pub Extends : String → Workflows → Workflows → Type 0
Extends id s t = (j : ℕ) (e : WorkflowEvent) → event_at id j s ≡ some e → event_at id j t ≡ some e

-- An event is stored at its position if the position is free; every other position stays.
pub event_at-append_event :
    (id : String) (j : ℕ) (e : WorkflowEvent) (s : Workflows)
    → event_at id j (append_event e s)
      ≡ or_else (event_at id j s) (if same_event id j e then some e else none)
unfolding append_event
event_at-append_event id j e s =
    ground (arith, find-append (same_event id j) s.events e, eq_iff e.workflow_id id)

pub append_event-Extends :
    (id : String) (e : WorkflowEvent) (s : Workflows) → Extends id s (append_event e s)
append_event-Extends id e s j x h = ground (arith, event_at-append_event id j e s)

-- Completing the event at a position of a run marks what is stored there as completed with the
-- result, and changes no other position and no other run.
event_at-complete_event :
    (id other : String) (j seq : ℕ) (v : Value) (es : List WorkflowEvent)
    → find (same_event other j) (modify_event id seq (as_completed v) es) ≡ (
        if str_eq id other && seq == j
        then Option.map (as_completed v) (find (same_event other j) es)
        else find (same_event other j) es)
unfolding modify_event
event_at-complete_event id other j seq v [] = ground arith
event_at-complete_event id other j seq v (e ∷ es) = ground (
  arith,
  event_at-complete_event id other j seq v es,
  eq_iff id other,
  eq_iff e.workflow_id id,
  eq_iff e.workflow_id other,
)

abbrev at_seq : ℕ → WorkflowEvent → Bool
at_seq j e = e.seq == j

find-insert_by :
    (j : ℕ) (x : WorkflowEvent) (es : List WorkflowEvent)
    → find (at_seq j) (insert_by (λ a b. leb a.seq b.seq) x es)
      ≡ (if at_seq j x then some x else find (at_seq j) es)
unfolding insert_by
find-insert_by j x [] = refl
find-insert_by j x (e ∷ es) = ground (arith, find-insert_by j x es)

find-sort_by :
    (j : ℕ) (es : List WorkflowEvent)
    → find (at_seq j) (sort_by (λ a b. leb a.seq b.seq) es) ≡ find (at_seq j) es
unfolding sort_by
find-sort_by j [] = refl
find-sort_by j (e ∷ es) =
    ground (arith, find-insert_by j e (sort_by (λ a b. leb a.seq b.seq) es), find-sort_by j es)

find-select :
    (id : String) (j : ℕ) (es : List WorkflowEvent)
    → find (at_seq j) (select (λ e. str_eq e.workflow_id id) es) ≡ find (same_event id j) es
find-select id j [] = refl
find-select id j (e ∷ es) = ground (arith, find-select id j es)

pub find-get_events :
    (id : String) (j : ℕ) (s : Workflows)
    → find (λ e. e.seq == j) (get_events id s) ≡ event_at id j s
unfolding get_events
find-get_events id j s = find-sort_by j _ ∙ find-select id j s.events

-- appends one after another
abbrev pub append_all : List WorkflowEvent → Workflows → Workflows
append_all [] s = s
append_all (e ∷ es) s = append_all es (append_event e s)

-- the positions go up, and none comes twice
abbrev pub Rises : List WorkflowEvent → Type 0
Rises [] = Unit
Rises (e ∷ es) = All (λ x. e.seq < x.seq) es × Rises es

-- no two events of the store have one key
abbrev IsKeyed : List WorkflowEvent → Type 0
IsKeyed [] = Unit
IsKeyed (e ∷ es) = (find (same_event e.workflow_id e.seq) es ≡ none) × IsKeyed es

All-insert :
    (m : ℕ) (x : WorkflowEvent) (es : List WorkflowEvent)
    → m < x.seq
    → All (λ y. m < y.seq) es
    → All (λ y. m < y.seq) (insert_by (λ a b. leb a.seq b.seq) x es)
unfolding insert_by
All-insert m x [] h k = (h, tt)
All-insert m x (e ∷ es) h k = ground (arith, All-insert m x es h k.1)

All-below :
    (m n : ℕ) (es : List WorkflowEvent) → m < n → All (λ y. n < y.seq) es → All (λ y. m < y.seq) es
All-below m n [] h k = tt
All-below m n (e ∷ es) h k = (omega (arith, k.0), All-below m n es h k.1)

insert_by-Rises :
    (x : WorkflowEvent) (es : List WorkflowEvent)
    → find (at_seq x.seq) es ≡ none
    → Rises es
    → Rises (insert_by (λ a b. leb a.seq b.seq) x es)
unfolding insert_by
insert_by-Rises x [] free h = (tt, tt)
insert_by-Rises x (e ∷ es) free h =
    ground (arith, insert_by-Rises x es, All-insert e.seq x es, All-below x.seq e.seq es)

select-Rises :
    (id : String) (es : List WorkflowEvent)
    → IsKeyed es
    → Rises (sort_by (λ a b. leb a.seq b.seq) (select (λ e. str_eq e.workflow_id id) es))
unfolding sort_by
select-Rises id [] h = tt
select-Rises id (e ∷ es) h = ground (
  arith,
  eq_iff e.workflow_id id,
  select-Rises id es,
  find-sort_by e.seq (select (λ e. str_eq e.workflow_id id) es),
  find-select id e.seq es,
  insert_by-Rises e (sort_by (λ a b. leb a.seq b.seq) (select (λ e. str_eq e.workflow_id id) es)),
)

IsKeyed-append :
    (e : WorkflowEvent) (es : List WorkflowEvent)
    → find (same_event e.workflow_id e.seq) es ≡ none
    → IsKeyed es
    → IsKeyed (es ++ e ∷ [])
IsKeyed-append e [] free h = (refl, tt)
IsKeyed-append e (x ∷ es) free h = ground (
  arith,
  IsKeyed-append e es,
  find-append (same_event x.workflow_id x.seq) es e,
  eq_iff x.workflow_id e.workflow_id,
  eq_iff e.workflow_id x.workflow_id,
)

append_event-IsKeyed :
    (e : WorkflowEvent) (s : Workflows) → IsKeyed s.events → IsKeyed (append_event e s).events
unfolding append_event
append_event-IsKeyed e s h = ground (arith, IsKeyed-append e s.events)

append_all-IsKeyed :
    (es : List WorkflowEvent) (s : Workflows) → IsKeyed s.events → IsKeyed (append_all es s).events
append_all-IsKeyed [] s h = h
append_all-IsKeyed (e ∷ es) s h =
    append_all-IsKeyed es (append_event e s) (append_event-IsKeyed e s h)

event_at-append_all :
    (id : String) (j : ℕ) (es : List WorkflowEvent) (s : Workflows)
    → event_at id j (append_all es s) ≡ or_else (event_at id j s) (find (same_event id j) es)
event_at-append_all id j [] s = ground arith
event_at-append_all id j (e ∷ es) s =
    ground (arith, event_at-append_all id j es (append_event e s), event_at-append_event id j e s)

select-All_own :
    (id : String) (es : List WorkflowEvent)
    → All (λ x. x.workflow_id ≡ id) (select (λ e. str_eq e.workflow_id id) es)
select-All_own id [] = tt
select-All_own id (e ∷ es) = ground (arith, eq_iff e.workflow_id id, select-All_own id es)

-- After any appends to a history that was empty, `getEvents` returns events of the run alone, by
-- positions that go up with none of them twice, and at each position it has the first event of the run
-- that was appended there, or none where there was none.
pub get_events-append_all :
    (id : String) (es : List WorkflowEvent) (s : Workflows)
    → s.events ≡ []
    → Rises (get_events id (append_all es s))
      × All (λ x. x.workflow_id ≡ id) (get_events id (append_all es s))
      × ((j : ℕ)
          → find (λ e. e.seq == j) (get_events id (append_all es s)) ≡ find (same_event id j) es)
unfolding get_events
get_events-append_all id es s none_yet =
    let history = (append_all es s).events in
    (
      select-Rises id history (append_all-IsKeyed es s (rw none_yet tt)),
      All-sort_by (λ a b. leb a.seq b.seq) (λ x. x.workflow_id ≡ id) _ (select-All_own id history),
      λ j.
          find-get_events id j (append_all es s)
          ∙ ground (arith, event_at-append_all id j es s, none_yet),
    )
