-- ===== src/Queue/Delivery.antt =====
-- queue.ts: every job that is enqueued is handled or ends as a dead letter.
use quorvel.Common.{
  ℕ, zero, suc, ◌+◌, String, ◌≡◌, refl, ap, ◌∙◌, Option, none, some, List, [], ◌∷◌, ◌++◌, arith,
  append-nil, append_assoc, Option-cases, inl, inr,
}
use quorvel.Queue.{
  new_queue, schedule, RetryOptions, DeadLetter, JobHandler, InMemoryQueue, enqueue, schedule_all,
  process, handle, back_off, attempt_from, run_job, run_jobs, drain,
}

-- The error that a job is left with after its attempts, if none of them succeeds.
abbrev pub last_error : {P : Type 0} → JobHandler P → P → ℕ → ℕ → String → Option String
last_error h p zero n last = some last
last_error h p (suc left) n last = elim (h p n) [
  | none ↦ none
  | some e ↦ last_error h p left (n + 1) e
]

abbrev letter : {P : Type 0} → RetryOptions → P → Option String → List (DeadLetter P)
letter retry p none = []
letter retry p (some e) = record { payload = p; attempts = retry.attempts; error = e } ∷ []

-- The dead letters of a list of jobs: one for each job that no attempt of the handler takes.
abbrev pub letters : {P : Type 0} → RetryOptions → JobHandler P → List P → List (DeadLetter P)
letters retry h [] = []
letters retry h (p ∷ ps) = letter retry p (last_error h p retry.attempts 1 "") ++ letters retry h ps

-- The calls of the handler for a job, the latest first.
abbrev pub tries : {P : Type 0} → JobHandler P → P → ℕ → ℕ → List (P × Option String)
tries h p zero n = []
tries h p (suc left) n = elim (h p n) [
  | none ↦ (p, none) ∷ []
  | some e ↦ tries h p left (n + 1) ++ (p, some e) ∷ []
]

-- The calls for a list of jobs that run one after another.
abbrev pub all_tries :
    {P : Type 0} → RetryOptions → JobHandler P → List P → List (P × Option String)
all_tries retry h [] = []
all_tries retry h (p ∷ ps) = all_tries retry h ps ++ tries h p retry.attempts 1

-- The queue after the jobs have run, and the clock says the time.
abbrev pub ran : {P : Type 0} → JobHandler P → List P → InMemoryQueue P → ℕ → InMemoryQueue P
ran h ps q time = record q {
  dead = q.dead ++ letters q.retry h ps;
  handled = all_tries q.retry h ps ++ q.handled;
  clock = time;
}

module _ {P : Type 0} where
  attempt_from-ran :
      (h : JobHandler P) (p : P) (left n : ℕ) (last : String) (q : InMemoryQueue P)
      → (time : ℕ) × (attempt_from h p left n last q ≡ record q {
        dead = q.dead ++ letter q.retry p (last_error h p left n last);
        handled = tries h p left n ++ q.handled;
        clock = time;
      })
  unfolding attempt_from
  attempt_from-ran h p zero n last q = (q.clock, refl)
  attempt_from-ran h p (suc left) n last q = elim (Option-cases (h p n)) [
    | inl e ↦ (q.clock, ground (arith, e, append-nil q.dead))
    | inr (x, e) ↦
        let q1 = back_off left n (handle p (some x) q) in
        let (time, same) = attempt_from-ran h p left (n + 1) x q1 in
        (
          time,
          ground
              (arith, e, same, append_assoc (tries h p left (n + 1)) ((p, some x) ∷ []) q.handled),
        )
  ]

  run_job-ran :
      (h : JobHandler P) (p : P) (q : InMemoryQueue P)
      → q.handler ≡ some h
      → (time : ℕ) × (run_job p q ≡ ran h (p ∷ []) q time)
  unfolding run_job
  run_job-ran h p q e =
      let (time, same) = attempt_from-ran h p q.retry.attempts 1 "" q in
      (
        time,
        ground
            (arith, e, same, append-nil (letter q.retry p (last_error h p q.retry.attempts 1 ""))),
      )

  ran-ran :
      (h : JobHandler P) (p : P) (ps : List P) (q : InMemoryQueue P) (t1 t2 : ℕ)
      → ran h ps (ran h (p ∷ []) q t1) t2 ≡ ran h (p ∷ ps) q t2
  ran-ran h p ps q t1 t2 =
      let new = letter q.retry p (last_error h p q.retry.attempts 1 "") in
      let calls = tries h p q.retry.attempts 1 in
      ground (
        arith,
        append-nil new,
        append_assoc q.dead new (letters q.retry h ps),
        append_assoc (all_tries q.retry h ps) calls q.handled,
      )

  run_jobs-ran :
      (h : JobHandler P) (ps : List P) (q : InMemoryQueue P)
      → q.handler ≡ some h
      → (time : ℕ) × (run_jobs ps q ≡ ran h ps q time)
  unfolding run_jobs
  run_jobs-ran h [] q e = (q.clock, ground (arith, append-nil q.dead))
  run_jobs-ran h (p ∷ ps) q e =
      let (t1, one) = run_job-ran h p q e in
      let (t2, rest) = run_jobs-ran h ps (ran h (p ∷ []) q t1) e in
      (t2, rw one (rest ∙ ran-ran h p ps q t1 t2))

  scheduled_all :
      (ps : List P) (q : InMemoryQueue P)
      → schedule_all ps q ≡ record q { scheduled = q.scheduled ++ ps }
  unfolding schedule_all
  scheduled_all [] q = ground (arith, append-nil q.scheduled)
  scheduled_all (p ∷ ps) q =
      ground (arith, scheduled_all ps (schedule p q), append_assoc q.scheduled (p ∷ []) ps)

  -- jobs enqueued one after another
  unfoldable pub enqueue_all : List P → InMemoryQueue P → InMemoryQueue P
  enqueue_all [] q = q
  enqueue_all (p ∷ ps) q = enqueue_all ps (enqueue p q)

  enqueued_before :
      (ps : List P) (q : InMemoryQueue P)
      → q.handler ≡ none
      → enqueue_all ps q ≡ record q { pending = q.pending ++ ps }
  unfolding enqueue_all enqueue
  enqueued_before [] q e = ground (arith, append-nil q.pending)
  enqueued_before (p ∷ ps) q e =
      ground (arith, e, enqueued_before ps (enqueue p q), append_assoc q.pending (p ∷ []) ps)

  enqueued_after :
      (ps : List P) (q : InMemoryQueue P) (h : JobHandler P)
      → q.handler ≡ some h
      → enqueue_all ps q ≡ record q { scheduled = q.scheduled ++ ps }
  unfolding enqueue_all enqueue
  enqueued_after [] q h e = ground (arith, append-nil q.scheduled)
  enqueued_after (p ∷ ps) q h e =
      ground (arith, e, enqueued_after ps (enqueue p q) h, append_assoc q.scheduled (p ∷ []) ps)

  -- the queue with all jobs scheduled
  abbrev loaded : RetryOptions → JobHandler P → List P → InMemoryQueue P
  loaded retry h jobs = record (new_queue retry) { handler = some h; scheduled = jobs }

  all_loaded :
      (retry : RetryOptions) (h : JobHandler P) (before later : List P)
      → enqueue_all later (process h (enqueue_all before (new_queue retry)))
        ≡ loaded retry h (before ++ later)
  unfolding process
  all_loaded retry h before later =
      ap (λ q. enqueue_all later (process h q)) (enqueued_before before (new_queue retry) refl)
      ∙ ap (enqueue_all later) (scheduled_all before (loaded retry h []))
      ∙ enqueued_after later (loaded retry h before) h refl

  -- Of the jobs that are enqueued before the handler is set and after it, a drain hands each to the
  -- handler, in that order, until an attempt succeeds or the attempts are used up; the dead letters
  -- are those of the jobs that no attempt took, in that order; and no job is left waiting.
  pub drain-delivers :
      (retry : RetryOptions) (h : JobHandler P) (before later : List P)
      → let q = drain (enqueue_all later (process h (enqueue_all before (new_queue retry)))) in
        (q.dead ≡ letters retry h (before ++ later))
        × (q.handled ≡ all_tries retry h (before ++ later))
        × (q.pending ≡ [])
        × (q.scheduled ≡ [])
  unfolding drain
  drain-delivers retry h before later =
      let jobs = before ++ later in
      let (time, same) =
        run_jobs-ran h jobs (record (loaded retry h jobs) { scheduled = [] }) refl in
      let all = ap drain (all_loaded retry h before later) ∙ same in
      (
        ap (λ q. q.dead) all,
        ap (λ q. q.handled) all ∙ append-nil (all_tries retry h jobs),
        ap (λ q. q.pending) all,
        ap (λ q. q.scheduled) all,
      )
