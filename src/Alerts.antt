-- ===== src/Alerts.antt =====
-- apps/api/src/alertRules.ts: the alert rules of organisations, in memory.
pub mod Inputs
pub mod Calls
pub mod Limit
pub mod Dispatch
pub mod Expected
pub mod Targets
use quorvel.Common.{
  ℕ, String, Bool, true, false, ◌&&◌, ◌||◌, not, Option, none, some, List, [], ◌∷◌, ◌++◌, reverse,
  get_or, str_eq, ltb, opt_eq, length, select, find, is_some, if◌then◌else◌,
}

pub data AlertTrigger : Type 0 where
  awaiting_approval denied failed : AlertTrigger

abbrev pub eq_trigger : AlertTrigger → AlertTrigger → Bool
eq_trigger awaiting_approval awaiting_approval = true
eq_trigger denied denied = true
eq_trigger failed failed = true
eq_trigger _ _ = false

pub record AlertRuleRecord : Type 0 where
  pub id : String
  pub org_id : String
  pub name : String
  pub trigger : AlertTrigger
  pub scope : Option String
  pub channels : List String
  pub enabled : Bool
  pub created_at : ℕ

pub record CreateAlertRuleInput : Type 0 where
  pub name : String
  pub trigger : AlertTrigger
  pub scope : Option String
  pub channels : List String
  pub enabled : Option Bool

-- A field that is none is left as it is; a scope may be set to none.
pub record UpdateAlertRuleInput : Type 0 where
  pub name : Option String
  pub trigger : Option AlertTrigger
  pub scope : Option (Option String)
  pub channels : Option (List String)
  pub enabled : Option Bool

-- `MemAlertRuleStore`, in the order of creation
abbrev pub Rules : Type 0
Rules = List AlertRuleRecord

abbrev pub list_rules : String → Rules → List AlertRuleRecord
list_rules org rules = reverse (select (λ r. str_eq r.org_id org) rules)

abbrev pub new_rule : ℕ → String → String → CreateAlertRuleInput → AlertRuleRecord
new_rule now org id input = record {
  id = id;
  org_id = org;
  name = input.name;
  trigger = input.trigger;
  scope = input.scope;
  channels = input.channels;
  enabled = get_or input.enabled true;
  created_at = now;
}

abbrev pub create : ℕ → String → String → CreateAlertRuleInput → Rules → AlertRuleRecord × Rules
create now org id input rules = (new_rule now org id input, rules ++ new_rule now org id input ∷ [])

abbrev pub is_rule : String → String → AlertRuleRecord → Bool
is_rule org id r = str_eq r.org_id org && str_eq r.id id

abbrev pub patch_rule : UpdateAlertRuleInput → AlertRuleRecord → AlertRuleRecord
patch_rule patch r = record r {
  name = get_or patch.name r.name;
  trigger = get_or patch.trigger r.trigger;
  scope = get_or patch.scope r.scope;
  channels = get_or patch.channels r.channels;
  enabled = get_or patch.enabled r.enabled;
}

unfoldable pub modify_rule : String → String → UpdateAlertRuleInput → Rules → Rules
modify_rule org id patch [] = []
modify_rule org id patch (r ∷ rs) =
    if is_rule org id r then patch_rule patch r ∷ rs else r ∷ modify_rule org id patch rs

-- the rule as it then is, if it is there
unfoldable pub update :
    String → String → UpdateAlertRuleInput → Rules → Option AlertRuleRecord × Rules
unfolding modify_rule
update org id patch rules = elim (find (is_rule org id) rules) [
  | none ↦ (none, rules)
  | some r ↦ (some (patch_rule patch r), modify_rule org id patch rules)
]

abbrev pub remove : String → String → Rules → Bool × Rules
remove org id rules =
    let left = select (λ r. not (is_rule org id r)) rules in
    (ltb (length left) (length rules), left)

-- the rule is for the trigger and the scope
abbrev pub is_matching : AlertTrigger → Option String → AlertRuleRecord → Bool
is_matching trigger scope r =
    r.enabled && eq_trigger r.trigger trigger && (not (is_some r.scope) || opt_eq r.scope scope)

unfoldable pub matching : String → AlertTrigger → Option String → Rules → List AlertRuleRecord
matching org trigger scope rules =
    select (λ r. str_eq r.org_id org && is_matching trigger scope r) rules
