-- ===== src/WorkflowStore.antt =====
-- packages/core/src/workflow-store.ts: runs, the event history and the signal inbox in memory. The
-- `Map` of events is a list: its text key `id#seq` determines both parts.
pub mod History
use quorvel.Common.{
  ℕ, suc, ◌+◌, String, Bool, true, false, ◌&&◌, not, Option, none, some, List, [], ◌∷◌, ◌++◌,
  str_eq, leb, ◌==◌, select, find, is_some, limited, or_else, get_or, if◌then◌else◌,
}
use quorvel.Common.Dict.{Dict, lookup, insert, modify, values}
use quorvel.Common.Sorting.{sort_by}
use quorvel.Value.{Value, Items, Fields, undefined}

pub data WorkflowStatus : Type 0 where
  running suspended completed failed : WorkflowStatus

pub data EventType : Type 0 where
  step sleep signal now random : EventType

pub data EventStatus : Type 0 where
  pending completed : EventStatus

pub record WorkflowEvent : Type 0 where
  pub workflow_id : String
  pub seq : ℕ
  pub event_type : EventType
  pub name : String
  pub status : EventStatus
  pub result : Option Value
  pub fire_at : Option ℕ

pub record WorkflowRun : Type 0 where
  pub workflow_id : String
  pub name : String
  pub status : WorkflowStatus
  pub input : Value
  pub result : Option Value
  pub error : Option String
  pub created_at : ℕ
  pub updated_at : ℕ

pub record CreateRunResult : Type 0 where
  pub created : Bool
  pub existing : Option WorkflowRun

pub record BufferedSignal : Type 0 where
  pub id : ℕ
  pub workflow_id : String
  pub name : String
  pub payload : Value
  pub consumed : Bool

pub record Workflows : Type 0 where
  pub runs : Dict WorkflowRun
  pub events : List WorkflowEvent
  pub signals : List BufferedSignal
  pub signal_seq : ℕ

unfoldable pub get_run : String → Workflows → Option WorkflowRun
get_run id s = lookup id s.runs

create_unless :
    ℕ → String → String → Value → Workflows → Option WorkflowRun → CreateRunResult × Workflows
create_unless time id name input s (some r) = (record { created = false; existing = some r }, s)
create_unless time id name input s none = (
  record { created = true; existing = none },
  record s {
    runs =
        insert id
          (record {
            workflow_id = id;
            name = name;
            status = running;
            input = input;
            result = none;
            error = none;
            created_at = time;
            updated_at = time;
          })
          s.runs;
  },
)

unfoldable pub create_run : ℕ → String → String → Value → Workflows → CreateRunResult × Workflows
unfolding create_unless
create_run time id name input s = create_unless time id name input s (lookup id s.runs)

-- an optional value that is written only if it is not `undefined`
abbrev pub given : Value → Option Value → Option Value
given undefined old = old
given v old = some v

abbrev pub with_run_status : ℕ → WorkflowStatus → Value → Option String → WorkflowRun → WorkflowRun
with_run_status time status result error r = record r {
  status = status;
  result = given result r.result;
  error = or_else error r.error;
  updated_at = time;
}

unfoldable pub set_run_status :
    ℕ → String → WorkflowStatus → Value → Option String → Workflows → Workflows
set_run_status time id status result error s = record s {
  runs = modify id (with_run_status time status result error) s.runs;
}

abbrev pub same_event : String → ℕ → WorkflowEvent → Bool
same_event id seq e = str_eq e.workflow_id id && e.seq == seq

-- the stored event of a run with a sequence number
abbrev pub event_at : String → ℕ → Workflows → Option WorkflowEvent
event_at id seq s = find (same_event id seq) s.events

-- history is never rewritten: an event whose key is there is not stored
unfoldable pub append_event : WorkflowEvent → Workflows → Workflows
append_event e s =
    if is_some (event_at e.workflow_id e.seq s) then s else record s { events = s.events ++ e ∷ [] }

abbrev pub as_completed : Value → WorkflowEvent → WorkflowEvent
as_completed result e = record e { status = completed; result = given result e.result }

unfoldable pub modify_event :
    String → ℕ → (WorkflowEvent → WorkflowEvent) → List WorkflowEvent → List WorkflowEvent
modify_event id seq f [] = []
modify_event id seq f (e ∷ es) =
    if same_event id seq e then f e ∷ es else e ∷ modify_event id seq f es

unfoldable pub complete_event : String → ℕ → Value → Workflows → Workflows
unfolding modify_event
complete_event id seq result s = record s {
  events = modify_event id seq (as_completed result) s.events;
}

unfoldable pub get_events : String → Workflows → List WorkflowEvent
get_events id s = sort_by (λ a b. leb a.seq b.seq) (select (λ e. str_eq e.workflow_id id) s.events)

abbrev pub due_by : ℕ → Option ℕ → Bool
due_by time none = false
due_by time (some at) = leb at time

abbrev pub is_pending : EventStatus → Bool
is_pending pending = true
is_pending completed = false

abbrev pub is_due : ℕ → WorkflowEvent → Bool
is_due time e = elim e.event_type [
  | sleep ↦ is_pending e.status && due_by time e.fire_at
  | _ ↦ false
]

unfoldable pub get_due_timers : ℕ → Option ℕ → Workflows → List WorkflowEvent
get_due_timers time limit s =
    limited limit (
      sort_by (λ a b. leb (get_or a.fire_at 0) (get_or b.fire_at 0))
        (select (is_due time) s.events))

unfoldable pub enqueue_signal : String → String → Value → Workflows → Workflows
enqueue_signal id name payload s = record s {
  signals =
      s.signals
      ++ record {
        id = s.signal_seq;
        workflow_id = id;
        name = name;
        payload = payload;
        consumed = false;
      }
        ∷ [];
  signal_seq = s.signal_seq + 1;
}

abbrev pub is_waiting : String → String → BufferedSignal → Bool
is_waiting id name x = str_eq x.workflow_id id && str_eq x.name name && not x.consumed

unfoldable pub mark_consumed : String → String → List BufferedSignal → List BufferedSignal
mark_consumed id name [] = []
mark_consumed id name (x ∷ xs) =
    if is_waiting id name x then record x { consumed = true } ∷ xs else x ∷ mark_consumed id name xs

-- the earliest signal of that name that is not consumed; the copy that is returned is marked too
unfoldable pub consume_signal : String → String → Workflows → Option BufferedSignal × Workflows
unfolding mark_consumed
consume_signal id name s = elim (find (is_waiting id name) s.signals) [
  | none ↦ (none, s)
  | some x ↦
      (some (record x { consumed = true }), record s { signals = mark_consumed id name s.signals })
]

abbrev eq_status : WorkflowStatus → WorkflowStatus → Bool
eq_status running running = true
eq_status suspended suspended = true
eq_status completed completed = true
eq_status failed failed = true
eq_status _ _ = false

unfoldable pub list_by_status : WorkflowStatus → Option ℕ → Workflows → List WorkflowRun
list_by_status status limit s = limited limit (
    sort_by (λ a b. leb a.created_at b.created_at)
      (select (λ r. eq_status r.status status) (values s.runs)))
