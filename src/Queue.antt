-- ===== src/Queue.antt =====
-- apps/api/src/queue.ts, `InMemoryQueue`: jobs, retries and dead letters. The chain of promises is the
-- list of the jobs that are scheduled and have not run; a handler is given by what its n-th call for
-- a job comes to, none or the message of the error that it throws. A dead-letter sink is called with
-- each dead letter and cannot fail the queue, so that its calls are the dead letters.
pub mod Delivery
use quorvel.Common.{ℕ, zero, suc, ◌+◌, ◌*◌, String, Option, none, some, List, [], ◌∷◌, ◌++◌}

pub record RetryOptions : Type 0 where
  pub attempts : ℕ
  pub backoff_ms : ℕ

abbrev pub default_retry : RetryOptions
default_retry = record { attempts = 5; backoff_ms = 200 }

pub record DeadLetter (P : Type 0) : Type 0 where
  pub payload : P
  pub attempts : ℕ
  pub error : String

abbrev pub JobHandler : Type 0 → Type 0
JobHandler P = P → ℕ → Option String

-- `handled` has the calls of the handler, the latest first, and `clock` the time slept.
pub record InMemoryQueue (P : Type 0) : Type 0 where
  pub retry : RetryOptions
  pub handler : Option (JobHandler P)
  pub pending : List P
  pub scheduled : List P
  pub dead : List (DeadLetter P)
  pub handled : List (P × Option String)
  pub clock : ℕ

abbrev pub new_queue : {P : Type 0} → RetryOptions → InMemoryQueue P
new_queue retry = record {
  retry = retry;
  handler = none;
  pending = [];
  scheduled = [];
  dead = [];
  handled = [];
  clock = 0;
}

-- the pause of `run`: none after the last attempt
abbrev pub pause : ℕ → ℕ → ℕ
pause zero ms = 0
pause (suc left) ms = ms

module _ {P : Type 0} where
  abbrev pub schedule : P → InMemoryQueue P → InMemoryQueue P
  schedule p q = record q { scheduled = q.scheduled ++ p ∷ [] }

  unfoldable pub enqueue : P → InMemoryQueue P → InMemoryQueue P
  enqueue p q = elim q.handler [
    | none ↦ record q { pending = q.pending ++ p ∷ [] }
    | some h ↦ schedule p q
  ]

  unfoldable pub schedule_all : List P → InMemoryQueue P → InMemoryQueue P
  schedule_all [] q = q
  schedule_all (p ∷ ps) q = schedule_all ps (schedule p q)

  -- `process`: what was buffered is scheduled
  unfoldable pub process : JobHandler P → InMemoryQueue P → InMemoryQueue P
  unfolding schedule_all
  process h q = schedule_all q.pending (record q { handler = some h; pending = [] })

  abbrev pub bury : P → String → InMemoryQueue P → InMemoryQueue P
  bury p error q = record q {
    dead = q.dead ++ record { payload = p; attempts = q.retry.attempts; error = error } ∷ [];
  }

  abbrev pub handle : P → Option String → InMemoryQueue P → InMemoryQueue P
  handle p answer q = record q { handled = (p, answer) ∷ q.handled }

  -- `await sleep(backoffMs * attempt)`, unless it was the last attempt
  abbrev pub back_off : ℕ → ℕ → InMemoryQueue P → InMemoryQueue P
  back_off left attempt q = record q { clock = q.clock + pause left (q.retry.backoff_ms * attempt) }

  -- one attempt of a job, with what follows if it throws
  abbrev pub tried :
      P
      → Option String
      → (String → InMemoryQueue P → InMemoryQueue P)
      → InMemoryQueue P
      → InMemoryQueue P
  tried p none next q = handle p none q
  tried p (some e) next q = next e (handle p (some e) q)

  -- the loop of `run`, with the attempts left, the number of the attempt and the last error
  unfoldable pub attempt_from :
      JobHandler P → P → ℕ → ℕ → String → InMemoryQueue P → InMemoryQueue P
  attempt_from h p zero attempt last q = bury p last q
  attempt_from h p (suc left) attempt last q =
      tried p (h p attempt)
        (λ e q'. attempt_from h p left (attempt + 1) e (back_off left attempt q')) q

  unfoldable pub run_job : P → InMemoryQueue P → InMemoryQueue P
  unfolding attempt_from
  run_job p q = elim q.handler [ none ↦ q | some h ↦ attempt_from h p q.retry.attempts 1 "" q ]

  unfoldable pub run_jobs : List P → InMemoryQueue P → InMemoryQueue P
  unfolding run_job
  run_jobs [] q = q
  run_jobs (p ∷ ps) q = run_jobs ps (run_job p q)

  -- `drain`: the jobs that are scheduled run one after another, in order
  unfoldable pub drain : InMemoryQueue P → InMemoryQueue P
  unfolding run_jobs
  drain q = run_jobs q.scheduled (record q { scheduled = [] })
