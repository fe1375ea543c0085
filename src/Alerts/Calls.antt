-- ===== src/Alerts/Calls.antt =====
-- service.ts: the calls that create, change and delete alert rules under the limit of the plan.
use quorvel.Common.{
  ℕ, String, Bool, true, false, Option, none, some, List, [], ◌∷◌, get_or, str_eq, leb, length,
  if◌then◌else◌,
}
use quorvel.Common.Decimal.{decimal}
use quorvel.Value.{Value, undefined}
use quorvel.Cloud.Access.{Directory, get_org}
use quorvel.Cloud.Access.Keys.{audit, new_id}
use quorvel.Cloud.Errors.{ApiError, not_found, Answer, ok, fails}
use quorvel.Cloud.Text.{◌&◌}
use quorvel.Alerts.{
  AlertRuleRecord, CreateAlertRuleInput, UpdateAlertRuleInput, Rules, list_rules, create, update,
  remove,
}
use quorvel.Alerts.Inputs.{RuleInput, create_input, create_metadata, update_input, update_metadata}

-- `planFeatures(plan).maxAlertRules`, with none for Infinity
unfoldable pub max_alert_rules : String → Option ℕ
max_alert_rules plan =
    if str_eq plan "pro" then some 10 else if str_eq plan "scale" then none else some 1

pub record State : Type 0 where
  pub rules : Rules
  pub directory : Directory

abbrev pub plan_of : String → State → String
plan_of org st = elim (get_org org st.directory) [ none ↦ "free" | some o ↦ o.plan ]

abbrev rule_limit : String → ℕ → ApiError
rule_limit plan max = record {
  message = "alert rule limit reached for the " & plan & " plan (max " & decimal max & ")";
  status_code = 403;
  code = "plan_limit";
}

-- `existing.length >= features.maxAlertRules`
abbrev pub is_full : Option ℕ → ℕ → Bool
is_full none count = false
is_full (some max) count = leb max count

abbrev pub audited : ℕ → String → String → Option String → String → String → Value → State → State
audited now uuid org actor action id metadata st = record st {
  directory = audit now uuid org actor action (some id) metadata st.directory;
}

abbrev pub create_checked :
    ℕ
    → String
    → String
    → String
    → CreateAlertRuleInput
    → Option String
    → State
    → Answer AlertRuleRecord × State
create_checked now rule_uuid audit_uuid org input actor st =
    let plan = plan_of org st in
    if is_full (max_alert_rules plan) (length (list_rules org st.rules))
    then (fails (rule_limit plan (get_or (max_alert_rules plan) 0)), st)
    else let (rule, rules) = create now org (new_id "alr" rule_uuid) input st.rules in
      (
        ok rule,
        audited now audit_uuid org actor "alert_rule.created" rule.id (create_metadata input)
            (record st { rules = rules }),
      )

unfoldable pub create_alert_rule :
    ℕ
    → String
    → String
    → String
    → RuleInput
    → Option String
    → State
    → Answer AlertRuleRecord × State
unfolding max_alert_rules
create_alert_rule now rule_uuid audit_uuid org input actor st = elim (create_input input) [
  | fails e ↦ (fails e, st)
  | ok clean ↦ create_checked now rule_uuid audit_uuid org clean actor st
]

abbrev pub updated :
    ℕ
    → String
    → String
    → String
    → UpdateAlertRuleInput
    → Option String
    → State
    → Option AlertRuleRecord × Rules
    → Answer AlertRuleRecord × State
updated now uuid org id patch actor st (none, rules) =
    (fails (not_found "alert rule not found"), st)
updated now uuid org id patch actor st (some rule, rules) = (
  ok rule,
  audited now uuid org actor "alert_rule.updated" id (update_metadata patch)
      (record st { rules = rules }),
)

unfoldable pub update_alert_rule :
    ℕ
    → String
    → String
    → String
    → RuleInput
    → Option String
    → State
    → Answer AlertRuleRecord × State
unfolding update
update_alert_rule now uuid org id patch actor st = elim (update_input patch) [
  | fails e ↦ (fails e, st)
  | ok clean ↦ updated now uuid org id clean actor st (update org id clean st.rules)
]

unfoldable pub delete_alert_rule :
    ℕ → String → String → String → Option String → State → Answer Bool × State
delete_alert_rule now uuid org id actor st =
    let (found, rules) = remove org id st.rules in
    if found
    then (
      ok true,
      audited now uuid org actor "alert_rule.deleted" id undefined (record st { rules = rules }),
    )
    else (fails (not_found "alert rule not found"), record st { rules = rules })

-- One call on rules.
pub data Call : Type 0 where
  creates : (now : ℕ) (rule_uuid audit_uuid org : String) → RuleInput → Option String → Call
  updates : (now : ℕ) (uuid org id : String) → RuleInput → Option String → Call
  deletes : (now : ℕ) (uuid org id : String) → Option String → Call

unfoldable pub perform : Call → State → State
perform (creates now rule_uuid audit_uuid org input actor) st =
    (create_alert_rule now rule_uuid audit_uuid org input actor st).1
perform (updates now uuid org id patch actor) st =
    (update_alert_rule now uuid org id patch actor st).1
perform (deletes now uuid org id actor) st = (delete_alert_rule now uuid org id actor st).1

unfoldable pub perform_all : List Call → State → State
unfolding perform
perform_all [] st = st
perform_all (c ∷ cs) st = perform_all cs (perform c st)
