-- ===== src/Alerts/Dispatch.antt =====
-- apps/api/src/alerts.ts: the default rules, and the dispatcher that sends the alert of an event to
-- the transports. A transport is its name and does not fail; what is sent is listed.
use quorvel.Common.{
  String, Bool, true, false, Option, none, some, List, [], ◌∷◌, ◌++◌, get_or, str_eq, select, map,
  if◌then◌else◌,
}
use quorvel.Common.Decimal.{decimal}
use quorvel.Ledger.{ActionStatus}
use quorvel.Ledger.InMemory.{eq_status}
use quorvel.Cloud.Actions.{DomainEvent}
use quorvel.Cloud.Text.{◌&◌}
use quorvel.Alerts.{
  AlertTrigger, awaiting_approval, denied, failed, AlertRuleRecord, Rules, list_rules, is_matching,
}

pub data AlertLevel : Type 0 where
  info warning critical : AlertLevel

pub record Alert : Type 0 where
  pub level : AlertLevel
  pub title : String
  pub body : String
  pub event : DomainEvent

pub data RuleId : Type 0 where
  approval_needed policy_denied action_failed other : RuleId

pub record AlertRule : Type 0 where
  pub id : RuleId
  pub matches : DomainEvent → Bool
  pub build : DomainEvent → Alert

-- the reason behind a colon, if there is one
abbrev because : Option String → String
because none = ""
because (some reason) = if str_eq reason "" then "" else ": " & reason

unfoldable pub approval_alert : DomainEvent → Alert
approval_alert e = record {
  level = warning;
  title = "Approval needed";
  body =
      "Agent "
      & get_or e.scope "(unscoped)"
      & " requested "
      & e.tool
      & " (cost "
      & decimal e.cost
      & ").";
  event = e;
}

unfoldable pub denied_alert : DomainEvent → Alert
denied_alert e = record {
  level = critical;
  title = "Policy denied";
  body = e.tool & " (" & e.idempotency_key & ") denied" & because e.reason & ".";
  event = e;
}

unfoldable pub failed_alert : DomainEvent → Alert
failed_alert e = record {
  level = warning;
  title = "Action failed";
  body = e.tool & " (" & e.idempotency_key & ") failed" & because e.reason & ".";
  event = e;
}

-- `DEFAULT_RULES`
abbrev pub default_rules : List AlertRule
default_rules =
    record {
      id = approval_needed;
      matches = λ e. eq_status e.status ActionStatus.awaiting_approval;
      build = approval_alert;
    }
    ∷ record {
      id = policy_denied;
      matches = λ e. eq_status e.status ActionStatus.denied;
      build = denied_alert;
    }
    ∷ record {
      id = action_failed;
      matches = λ e. eq_status e.status ActionStatus.failed;
      build = failed_alert;
    }
    ∷ []

-- `RULE_TRIGGER`
abbrev pub rule_trigger : RuleId → Option AlertTrigger
rule_trigger approval_needed = some awaiting_approval
rule_trigger policy_denied = some denied
rule_trigger action_failed = some failed
rule_trigger other = none

abbrev pub has : List String → String → Bool
has [] name = false
has (x ∷ xs) name = if str_eq x name then true else has xs name

-- `flatMap((r) => r.channels)`
abbrev pub channels_of : List AlertRuleRecord → List String
channels_of [] = []
channels_of (r ∷ rs) = r.channels ++ channels_of rs

abbrev pub by_trigger :
    Option AlertTrigger → Option String → List String → List AlertRuleRecord → List String
by_trigger none scope transports rules = transports
by_trigger (some trigger) scope transports rules =
    let matched = select (is_matching trigger scope) rules in
    select (has (channels_of matched)) transports

-- `selectTransports`; where no rule matches, no channel is named, and none is selected
abbrev pub select_transports :
    RuleId → Option String → List String → Option (List AlertRuleRecord) → List String
select_transports id scope transports none = transports
select_transports id scope transports (some []) = transports
select_transports id scope transports (some (r ∷ rs)) =
    by_trigger (rule_trigger id) scope transports (r ∷ rs)

-- what is sent for one rule
abbrev pub sends :
    List String → Option (List AlertRuleRecord) → DomainEvent → AlertRule → List (String × Alert)
sends transports org_rules e rule =
    if rule.matches e
    then map (λ t. (t, rule.build e)) (select_transports rule.id e.scope transports org_rules)
    else []

abbrev sends_all :
    List String
    → Option (List AlertRuleRecord)
    → DomainEvent
    → List AlertRule
    → List (String × Alert)
sends_all transports org_rules e [] = []
sends_all transports org_rules e (rule ∷ rules) =
    sends transports org_rules e rule ++ sends_all transports org_rules e rules

-- `AlertDispatcher.handle`, with the rules of the organisations if there is a rule store
unfoldable pub handle :
    List String → List AlertRule → Option Rules → DomainEvent → List (String × Alert)
unfolding approval_alert denied_alert failed_alert
handle transports rules store e =
    sends_all transports (elim store [ none ↦ none | some rs ↦ some (list_rules e.org_id rs) ]) e
      rules
