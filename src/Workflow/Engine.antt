-- ===== src/Workflow/Engine.antt =====
-- workflow.ts, `WorkflowEngine`: driving a run, and the calls that start, resume, wake and time it.
-- The registry maps a workflow's name to its body for an input.
use Prim.Native.String
use quorvel.Common.{
  ℕ, String, Bool, true, false, ◌&&◌, Option, none, some, List, [], ◌∷◌, str_eq, find, length,
  if◌then◌else◌,
}
use quorvel.Common.Decimal.{decimal}
use quorvel.Common.Dict.{Dict, lookup}
use quorvel.Value.{Value, undefined}
use quorvel.WorkflowStore.{
  WorkflowStatus, running, suspended, completed, failed, EventType, WorkflowEvent, WorkflowRun,
  Workflows, is_pending, get_run, create_run, set_run_status, complete_event, get_events,
  get_due_timers, enqueue_signal,
}
use quorvel.Workflow.Types.{Body, Engine, Progress, finishes, throws_error, suspends, diverges}
use quorvel.Workflow.Replay.{play, eq_type}

abbrev pub Registry : Type 0
Registry = Dict (Value → Body)

-- The record that a call returns, or the error that it throws.
pub data Reply : Type 0 where
  run_is : Option WorkflowRun → Reply
  workflow_failed : (id message : String) → Reply
  nondeterministic : (id : String) (seq : ℕ) (expected actual : String) → Reply
  not_registered : (name : String) → Reply
  no_run : (id : String) → Reply

abbrev pub with_run : String → WorkflowStatus → Value → Option String → Engine → Engine
with_run id status result error w = record w {
  store = set_run_status w.clock id status result error w.store;
}

abbrev pub reply_run : String → Engine → Reply × Engine
reply_run id w = (run_is (get_run id w.store), w)

infixr 65 ◌&◌
abbrev ◌&◌ : String → String → String
a & b = String.◌++◌ a b

-- the message of `WorkflowDeterminismError`
divergence : String → ℕ → String → String → String
divergence id seq expected actual =
    "Quorvel: non-deterministic workflow \""
    & id
    & "\" at step "
    & decimal seq
    & ": history recorded \""
    & expected
    & "\" but the code issued \""
    & actual
    & "\". The workflow changed incompatibly or used logic outside ctx."

-- The end of a pass: the status that it stores, and what the call returns or throws.
unfoldable pub settle : String → Progress × Engine → Reply × Engine
unfolding divergence
settle id (finishes v, w) = reply_run id (with_run id completed v none w)
settle id (suspends, w) = reply_run id (with_run id suspended undefined none w)
settle id (diverges seq expected actual, w) = (
  nondeterministic id seq expected actual,
  with_run id failed undefined (some (divergence id seq expected actual)) w,
)
settle id (throws_error e, w) = (workflow_failed id e, with_run id failed undefined (some e) w)

unfoldable pub drive : String → Body → Engine → Reply × Engine
unfolding settle
drive id body w0 =
    let w = with_run id running undefined none w0 in
    settle id (play id (get_events id w.store) body 0 w)

resume_run :
    Registry
    → String
    → WorkflowRun
    → Option (Value → Body)
    → WorkflowStatus
    → Engine
    → Reply × Engine
resume_run registry id run def completed w = (run_is (some run), w)
resume_run registry id run none status w = (not_registered run.name, w)
resume_run registry id run (some body) status w = drive id (body run.input) w

unfoldable pub resume : Registry → String → Engine → Reply × Engine
unfolding resume_run
resume registry id w = elim (get_run id w.store) [
  | none ↦ (no_run id, w)
  | some run ↦ resume_run registry id run (lookup run.name registry) run.status w
]

start_with : Registry → String → String → Value → Option (Value → Body) → Engine → Reply × Engine
start_with registry id name input none w = (not_registered name, w)
start_with registry id name input (some body) w =
    let (claim, s) = create_run w.clock id name input w.store in
    if claim.created
    then drive id (body input) (record w { store = s })
    else resume registry id (record w { store = s })

unfoldable pub start : Registry → String → String → Value → Engine → Reply × Engine
unfolding start_with
start registry name id input w = start_with registry id name input (lookup name registry) w

-- the first pending wait for a signal of that name
abbrev pub waiting_for : String → List WorkflowEvent → Option WorkflowEvent
waiting_for name history =
    find (λ e. eq_type e.event_type EventType.signal && is_pending e.status && str_eq e.name name)
      history

deliver : Registry → String → String → Value → Option WorkflowEvent → Engine → Reply × Engine
deliver registry id name payload (some e) w =
    resume registry id (record w { store = complete_event id e.seq payload w.store })
deliver registry id name payload none w =
    let s = enqueue_signal id name payload w.store in
    (
      elim (get_run id s) [ none ↦ no_run id | some run ↦ run_is (some run) ],
      record w { store = s },
    )

unfoldable pub signal : Registry → String → String → Value → Engine → Reply × Engine
unfolding deliver
signal registry id name payload w =
    deliver registry id name payload (waiting_for name (get_events id w.store)) w

unfoldable pub complete_all : List WorkflowEvent → Workflows → Workflows
complete_all [] s = s
complete_all (e ∷ es) s = complete_all es (complete_event e.workflow_id e.seq undefined s)

-- a `Set` of run ids, in the order of insertion
unfoldable pub add_id : String → List String → List String
add_id id [] = id ∷ []
add_id id (x ∷ xs) = if str_eq x id then x ∷ xs else x ∷ add_id id xs

unfoldable pub run_ids : List WorkflowEvent → List String → List String
unfolding add_id
run_ids [] ids = ids
run_ids (e ∷ es) ids = run_ids es (add_id e.workflow_id ids)

abbrev pub is_error : Reply → Bool
is_error (run_is r) = false
is_error _ = true

-- one run after another; an error ends the loop
unfoldable pub resume_all : Registry → List String → Engine → Option Reply × Engine
resume_all registry [] w = (none, w)
resume_all registry (id ∷ ids) w =
    let (reply, w1) = resume registry id w in
    let rest = resume_all registry ids w1 in if is_error reply then (some reply, w1) else rest

-- the number of timers that fired, or the error of a run
pub data Ticked : Type 0 where
  fired : ℕ → Ticked
  broke_off : Reply → Ticked

ticked : ℕ → Option Reply × Engine → Ticked × Engine
ticked n (none, w) = (fired n, w)
ticked n (some error, w) = (broke_off error, w)

unfoldable pub tick : Registry → ℕ → Engine → Ticked × Engine
unfolding ticked
tick registry time w =
    let due = get_due_timers time none w.store in
    ticked (length due)
      (resume_all registry (run_ids due []) (record w { store = complete_all due w.store }))
