-- ===== src/Policy.antt =====
-- packages/core/src/policy.ts: decisions, their precedence, and the built-in policies. A policy reads
-- the clock and the ledger, and writes nothing. Costs and limits are natural numbers.
pub mod Precedence
use Prim.Native.String
use quorvel.Common.{
  ℕ, zero, suc, ◌+◌, ◌-◌, ◌/◌, String, Bool, Option, none, some, List, [], ◌∷◌, get_or, or_else,
  ltb, leb, if◌then◌else◌,
}
use quorvel.Common.Decimal.{decimal}
use quorvel.Value.{Value}
use quorvel.Ledger.{LedgerStore, StatsFilter, Stats}

pub record ActionContext : Type 0 where
  pub tool : String
  pub args : Value
  pub scope : Option String
  pub cost : ℕ

pub data PolicyDecision : Type 0 where
  allow : PolicyDecision
  deny : (reason : String) → PolicyDecision
  require_approval : (reason : String) → PolicyDecision

pub record Policy (S : Type 0) : Type 0 where
  pub name : String
  pub evaluate : ActionContext → ℕ → S → PolicyDecision

-- one round of the loop: a deny returns, the first approval is kept
weigh : PolicyDecision → Option String → (Option String → PolicyDecision) → PolicyDecision
weigh (deny reason) approval rest = deny reason
weigh (require_approval reason) approval rest = rest (or_else approval (some reason))
weigh allow approval rest = rest approval

module _ {S : Type 0} where
  evaluate_from : List (Policy S) → ActionContext → ℕ → S → Option String → PolicyDecision
  unfolding weigh
  evaluate_from [] ctx now s none = allow
  evaluate_from [] ctx now s (some reason) = require_approval reason
  evaluate_from (p ∷ ps) ctx now s approval =
      weigh (p.evaluate ctx now s) approval (evaluate_from ps ctx now s)

  unfoldable pub evaluate_policies : List (Policy S) → ActionContext → ℕ → S → PolicyDecision
  unfolding evaluate_from
  evaluate_policies ps ctx now s = evaluate_from ps ctx now s none

  unfoldable pub require_approval_when : (ActionContext → Bool) → Option String → Policy S
  require_approval_when predicate reason = record {
    name = "requireApprovalWhen";
    evaluate = λ ctx now s.
        if predicate ctx
        then require_approval (get_or reason "manual approval required")
        else allow;
  }

  unfoldable pub deny_when : (ActionContext → Bool) → Option String → Policy S
  deny_when predicate reason = record {
    name = "denyWhen";
    evaluate =
        λ ctx now s. if predicate ctx then deny (get_or reason "denied by policy") else allow;
  }

pub data OnExceed : Type 0 where
  denies asks : OnExceed

pub record BudgetOptions : Type 0 where
  pub limit : ℕ
  pub window_ms : Option ℕ
  pub tool : Option String
  pub on_exceed : Option OnExceed

pub record RateLimitOptions : Type 0 where
  pub limit : ℕ
  pub window_ms : ℕ
  pub tool : Option String
  pub on_exceed : Option OnExceed

-- `onExceed === "require_approval"`, with the default
exceeded : Option OnExceed → String → PolicyDecision
exceeded (some asks) reason = require_approval reason
exceeded (some denies) reason = deny reason
exceeded none reason = deny reason

-- `opts.windowMs ? … : null`: no window, and a window of 0, mean all time. A start before 1970 is 0.
abbrev pub window_start : Option ℕ → ℕ → Option ℕ
window_start none now = none
window_start (some zero) now = none
window_start (some (suc w)) now = some (now - suc w)

infixr 65 ◌&◌
abbrev ◌&◌ : String → String → String
a & b = String.◌++◌ a b

module _ {S : Type 0} (ledger : LedgerStore S) where
  abbrev pub budget_stats : BudgetOptions → ActionContext → ℕ → S → Stats
  budget_stats opts ctx now s =
      ledger.stats
        (record { scope = ctx.scope; tool = opts.tool; since = window_start opts.window_ms now }) s

  unfoldable pub budget : BudgetOptions → Policy S
  unfolding exceeded
  budget opts = record {
    name = "budget";
    evaluate = λ ctx now s.
        let projected = (budget_stats opts ctx now s).total_cost + ctx.cost in
        if ltb opts.limit projected
        then exceeded opts.on_exceed (
            "budget exceeded for scope "
            & get_or ctx.scope "(none)"
            & ": "
            & decimal projected
            & " > "
            & decimal opts.limit)
        else allow;
  }

  unfoldable pub rate_limit : RateLimitOptions → Policy S
  unfolding exceeded
  rate_limit opts = record {
    name = "rateLimit";
    evaluate = λ ctx now s.
        let since : Option ℕ = some (now - opts.window_ms) in
        let count =
          (ledger.stats (record { scope = ctx.scope; tool = opts.tool; since = since }) s).count in
        if leb opts.limit count
        then exceeded opts.on_exceed (
            "rate limit exceeded for scope "
            & get_or ctx.scope "(none)"
            & ": "
            & decimal count
            & " >= "
            & decimal opts.limit
            & " per "
            & decimal opts.window_ms
            & "ms")
        else allow;
  }
