-- ===== src/Policy/Precedence.antt =====
-- policy.ts, `evaluatePolicies`: deny over approval over allow, whatever the order of the policies.
use quorvel.Common.{ℕ, String, ◌≡◌, refl, Option, none, some, List, [], ◌∷◌, map, arith, or_else}
use quorvel.Policy.{
  ActionContext, PolicyDecision, allow, deny, require_approval, Policy, weigh, evaluate_from,
  evaluate_policies,
}

-- the reasons of the denials and of the approvals that a list of decisions asks for
abbrev pub first_denial : List PolicyDecision → Option String
first_denial [] = none
first_denial (deny reason ∷ ds) = some reason
first_denial (_ ∷ ds) = first_denial ds

abbrev pub first_approval : List PolicyDecision → Option String
first_approval [] = none
first_approval (require_approval reason ∷ ds) = some reason
first_approval (_ ∷ ds) = first_approval ds

abbrev pub verdict : Option String → Option String → PolicyDecision
verdict (some reason) approval = deny reason
verdict none (some reason) = require_approval reason
verdict none none = allow

-- What every policy says, short circuit or not.
abbrev pub decisions : {S : Type 0} → List (Policy S) → ActionContext → ℕ → S → List PolicyDecision
decisions ps ctx now s = map (λ p. p.evaluate ctx now s) ps

weigh-verdict :
    (d : PolicyDecision) (ds : List PolicyDecision) (approval : Option String)
    (rest : Option String → PolicyDecision)
    → ((acc : Option String)
        → rest acc ≡ verdict (first_denial ds) (or_else acc (first_approval ds)))
    → weigh d approval rest
      ≡ verdict (first_denial (d ∷ ds)) (or_else approval (first_approval (d ∷ ds)))
unfolding weigh
weigh-verdict (deny why) ds approval rest h = refl
weigh-verdict (require_approval why) ds approval rest h =
    ground (arith, h (or_else approval (some why)))
weigh-verdict allow ds approval rest h = h approval

module _ {S : Type 0} where
  evaluate_from-verdict :
      (ps : List (Policy S)) (ctx : ActionContext) (now : ℕ) (s : S) (approval : Option String)
      → evaluate_from ps ctx now s approval
        ≡ verdict
            (first_denial (decisions ps ctx now s))
            (or_else approval (first_approval (decisions ps ctx now s)))
  unfolding evaluate_from
  evaluate_from-verdict [] ctx now s approval = ground arith
  evaluate_from-verdict (p ∷ ps) ctx now s approval =
      weigh-verdict (p.evaluate ctx now s) (decisions ps ctx now s) approval
        (evaluate_from ps ctx now s) (λ acc. evaluate_from-verdict ps ctx now s acc)

  -- The loop gives the first denial if any policy denies, or else the first request for approval if
  -- any policy asks for one, or else it allows.
  pub evaluate_policies-verdict :
      (ps : List (Policy S)) (ctx : ActionContext) (now : ℕ) (s : S)
      → evaluate_policies ps ctx now s
        ≡ verdict (first_denial (decisions ps ctx now s)) (first_approval (decisions ps ctx now s))
  unfolding evaluate_policies
  evaluate_policies-verdict ps ctx now s = evaluate_from-verdict ps ctx now s none
