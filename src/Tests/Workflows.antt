-- ===== src/Tests/Workflows.antt =====
-- workflow.ts: an order that charges, waits a day and then waits for its shipment.
use quorvel.Common.{List, All, ℕ, ◌≡◌, refl, none, some, [], ◌∷◌, ◌==◌, find}
use quorvel.Common.Sorting.{sort_by}
use quorvel.Value.{Value, num, str}
use quorvel.Run.{Attempt, resolves, throws}
use quorvel.WorkflowStore.{
  Workflows, WorkflowEvent, EventType, pending, completed, event_at, get_events, same_event,
}
use quorvel.WorkflowStore.History.{Extends, Rises, append_all, get_events-append_all}
use quorvel.Workflow.Types.{Body, returns, raises, wait_for_signal, Engine, Progress, suspends}
use quorvel.Workflow.Replay.{event, play, attempts_from, step_command, sleep_command}
use quorvel.Workflow.Determinism.{Propagates, IsProper, play-Extends}
use quorvel.Workflow.Passes.{play-replay}

abbrev charged : ℕ → Attempt
charged n = resolves (str "receipt")

abbrev ship : Value → Body
ship v = returns v

abbrev wait : Body
wait = Body.sleep "cooling-off" 86400000 (wait_for_signal "shipped" ship)

abbrev paid_or_not : Attempt → Body
paid_or_not (resolves v) = wait
paid_or_not (throws e) = raises e

abbrev order : Body
order = Body.step "charge" charged none none paid_or_not

abbrev engine : Workflows → Engine
engine s = record { store = s; clock = 1000; randoms = λ n. num n; drawn = 0; calls = [] }

abbrev empty : Workflows
empty = record { runs = []; events = []; signals = []; signal_seq = 0 }

abbrev first_pass : Progress × Engine
first_pass = play "w" (get_events "w" empty) order 0 (engine empty)

first_pass_waits : first_pass ≡ (suspends, first_pass.1)
unfolding play step_command get_events sort_by attempts_from sleep_command
first_pass_waits = refl

order-Propagates : Propagates order
order-Propagates = (λ e. refl, λ v x. tt)

nothing_recorded : (j : ℕ) → IsProper (event_at "w" j empty)
nothing_recorded j e h t = cc

abbrev another : Engine
another = record (engine empty) { clock = 5 }

play-replay_example :
    play "w" (get_events "w" first_pass.1.store) order 0 another ≡ (suspends, another)
play-replay_example =
    play-replay "w" order (engine empty) order-Propagates nothing_recorded tt first_pass_waits
      another

play-Extends_example : Extends "w" (engine empty).store (play "w" [] order 0 (engine empty)).1.store
play-Extends_example = play-Extends "w" [] order 0 (engine empty)

abbrev timer : WorkflowEvent
timer = event "w" 1 EventType.sleep "cooling-off" pending none (some 5)

abbrev later : WorkflowEvent
later = record timer { name = "again" }

abbrev appended : List WorkflowEvent
appended = timer ∷ event "w" 0 EventType.now "" completed none none ∷ later ∷ []

-- the timer stays where the event of its position that comes later is not stored
get_events-append_all_example :
    Rises (get_events "w" (append_all appended empty))
    × All (λ x. x.workflow_id ≡ "w") (get_events "w" (append_all appended empty))
    × ((j : ℕ)
        → find (λ e. e.seq == j) (get_events "w" (append_all appended empty))
          ≡ find (same_event "w" j) appended)
get_events-append_all_example = get_events-append_all "w" appended empty refl
