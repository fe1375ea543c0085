-- ===== src/Workflow/Types.antt =====
-- workflow.ts: workflow bodies, and the state of an engine. A body is the tree of the commands that
-- it issues through `ctx`, each with what follows on its answer, so it is deterministic by form. It
-- may catch the error of a step, and it lets the engine's own signals pass.
use quorvel.Common.{ℕ, String, Option, List}
use quorvel.Value.{Value}
use quorvel.Run.{Attempt}
use quorvel.WorkflowStore.{Workflows}

-- An activity is given by what its call comes to that is the n-th of all calls so far.
pub data Body : Type 0 where
  returns : Value → Body
  raises : String → Body
  step :
      (name : String) (activity : ℕ → Attempt) (retries backoff_ms : Option ℕ)
      → (Attempt → Body)
      → Body
  sleep : (name : String) (ms : ℕ) → Body → Body
  wait_for_signal : (name : String) → (Value → Body) → Body
  now : (Value → Body) → Body
  random : (Value → Body) → Body

-- One call of an activity, with its run and its position.
pub record ActivityCall : Type 0 where
  pub workflow_id : String
  pub seq : ℕ
  pub attempt : Attempt

-- The store, the clock, the source of random numbers with how many were drawn, and the calls of
-- activities, the latest first.
pub record Engine : Type 0 where
  pub store : Workflows
  pub clock : ℕ
  pub randoms : ℕ → Value
  pub drawn : ℕ
  pub calls : List ActivityCall

-- How one pass over a body ends.
pub data Progress : Type 0 where
  finishes : Value → Progress
  throws_error : String → Progress
  suspends : Progress
  diverges : (seq : ℕ) (expected actual : String) → Progress
