-- ===== src/Workflow/Passes.antt =====
-- workflow.ts: what a pass has recorded is enough to repeat it.
use quorvel.Common.{ℕ, suc, ◌≤◌, String, ◌≡◌, refl, sym, ap, subst, ◌∙◌, List, arith}
use quorvel.Value.{num}
use quorvel.Run.{resolves}
use quorvel.WorkflowStore.{EventType, WorkflowEvent, Workflows, event_at, get_events}
use quorvel.WorkflowStore.History.{find-get_events}
use quorvel.Workflow.Types.{Body, returns, raises, wait_for_signal, Engine, Progress}
use quorvel.Workflow.Replay.{Recorded, fresh, recorded, by_seq, draw, play}
use quorvel.Workflow.Determinism.{EndsWell, Propagates, IsProper, play-Extends}
use quorvel.Workflow.Repeat.{SameLater, draw_known}
use quorvel.Workflow.Repeat.Steps.{step_repeat}
use quorvel.Workflow.Repeat.Waits.{sleep_repeat, signal_repeat}
use quorvel.Workflow.Repeat.Values.{value_repeat}

-- From a position on the store holds what the history says.
abbrev pub Agrees : String → List WorkflowEvent → ℕ → Workflows → Type 0
Agrees id h seq s = (j : ℕ) → seq ≤ j → event_at id j s ≡ by_seq h j

Agrees-later :
    (id : String) (h : List WorkflowEvent) (seq : ℕ) (s t : Workflows)
    → Agrees id h seq s
    → SameLater id seq s t
    → Agrees id h (suc seq) t
Agrees-later id h seq s t a l j le = l j le ∙ a j (omega arith)

store-draw : (rec : Recorded) (w : Engine) → (draw rec w).store ≡ w.store
store-draw fresh w = refl
store-draw _ w = refl

module _ (id : String) (h h' : List WorkflowEvent) (p : Progress) (w' : Engine) (well : EndsWell p)
    (proper : (j : ℕ) → IsProper (by_seq h j))
    (kept : (j : ℕ) → by_seq h' j ≡ event_at id j w'.store) where
  play-repeat :
      (body : Body) (seq : ℕ) (w : Engine)
      → Propagates body
      → Agrees id h seq w.store
      → play id h body seq w ≡ (p, w')
      → (v : Engine) → play id h' body seq v ≡ (p, v)
  unfolding play
  play-repeat (returns x) seq w c a e v = ap (λ (r : Progress × Engine). (r.0, v)) e
  play-repeat (raises x) seq w c a e v = ap (λ (r : Progress × Engine). (r.0, v)) e
  play-repeat (Body.step name act retries backoff k) seq w (bad, good) a e v = rw (kept seq) (
      step_repeat id seq p w' well name act retries backoff (by_seq h seq)
        (λ b u. play id h (k b) (suc seq) u) (λ b u. play id h' (k b) (suc seq) u) w v (proper seq)
        (a seq (omega arith)) (λ b. play-Extends id h (k b) (suc seq))
        (λ x w1 l q.
          play-repeat (k (resolves x)) (suc seq) w1 (good x)
            (Agrees-later id h seq w.store w1.store a l) q)
        (λ x u. rw (bad x) refl) e)
  play-repeat (Body.sleep name ms k) seq w c a e v = rw (kept seq) (
      sleep_repeat id seq p w' well name ms (by_seq h seq) (λ u. play id h k (suc seq) u)
        (λ u. play id h' k (suc seq) u) w v (a seq (omega arith)) (play-Extends id h k (suc seq))
        (λ w1 l q. play-repeat k (suc seq) w1 c (Agrees-later id h seq w.store w1.store a l) q) e)
  play-repeat (wait_for_signal name k) seq w c a e v = rw (kept seq) (
      signal_repeat id seq p w' well name (by_seq h seq) (λ b u. play id h (k b) (suc seq) u)
        (λ b u. play id h' (k b) (suc seq) u) w v (a seq (omega arith))
        (λ b. play-Extends id h (k b) (suc seq))
        (λ x w1 l q.
          play-repeat (k x) (suc seq) w1 (c x) (Agrees-later id h seq w.store w1.store a l) q)
        e)
  play-repeat (Body.now k) seq w c a e v =
      rw (kept seq)
        (value_repeat id seq p w' well EventType.now "now" (num w.clock) (num v.clock)
          (by_seq h seq) (λ b u. play id h (k b) (suc seq) u) (λ b u. play id h' (k b) (suc seq) u)
          w v (a seq (omega arith)) (λ b. play-Extends id h (k b) (suc seq))
          (λ x w1 l q.
            play-repeat (k x) (suc seq) w1 (c x) (Agrees-later id h seq w.store w1.store a l) q)
          e).1
  play-repeat (Body.random k) seq w c a e v =
      let w0 = draw (recorded (by_seq h seq) EventType.random "random") w in
      let same = store-draw (recorded (by_seq h seq) EventType.random "random") w in
      let (known, again) =
        value_repeat id seq p w' well EventType.random "random" (w.randoms w.drawn)
          (v.randoms v.drawn) (by_seq h seq) (λ b u. play id h (k b) (suc seq) u)
          (λ b u. play id h' (k b) (suc seq) u) w0 v
          (ap (event_at id seq) same ∙ a seq (omega arith)) (λ b. play-Extends id h (k b) (suc seq))
          (λ x w1 l q.
            play-repeat (k x) (suc seq) w1 (c x)
              (Agrees-later id h seq w0.store w1.store (λ j le. ap (event_at id j) same ∙ a j le) l)
              q)
          e in
      rw (kept seq, draw_known _ v known) again

-- Where a pass over a body that catches no step's error, against the history of its run, in which
-- every recorded step is completed, comes to a result or a durable wait, a later pass against what the run's history then is comes to the same,
-- and changes nothing of any engine: it calls no activity, appends no event, consumes no signal,
-- draws no random number and takes no time.
pub play-replay :
    (id : String) (body : Body) (w : Engine) {p : Progress} {w' : Engine}
    → Propagates body
    → ((j : ℕ) → IsProper (event_at id j w.store))
    → EndsWell p
    → play id (get_events id w.store) body 0 w ≡ (p, w')
    → (v : Engine) → play id (get_events id w'.store) body 0 v ≡ (p, v)
play-replay id body w {p} {w'} c proper well e v =
    play-repeat id (get_events id w.store) (get_events id w'.store) p w' well
      (λ j. subst IsProper (sym (find-get_events id j w.store)) (proper j))
      (λ j. find-get_events id j w'.store) body 0 w c (λ j le. sym (find-get_events id j w.store)) e
      v
