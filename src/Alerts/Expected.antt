-- ===== src/Alerts/Expected.antt =====
-- alerts.ts: which alert of an event is wanted by whom, said of the rules of all organisations as they
-- are stored.
use mathlib.Core.List.{reverse-cons}
use quorvel.Common.{
  reverse, not, str_eq, String, ◌≡◌, ◌∙◌, refl, Bool, true, false, ◌&&◌, ◌||◌, Option, none, some,
  List, [], ◌∷◌, ◌++◌, arith, select, map,
}
use quorvel.Ledger.{ActionStatus}
use quorvel.Cloud.Actions.{DomainEvent}
use quorvel.Alerts.{AlertTrigger, AlertRuleRecord, Rules, list_rules, is_matching}
use quorvel.Alerts.Dispatch.{Alert, approval_alert, denied_alert, failed_alert, has}

-- The trigger of a status, and the alert of an event with it.
abbrev pub trigger_of : ActionStatus → Option AlertTrigger
trigger_of ActionStatus.awaiting_approval = some AlertTrigger.awaiting_approval
trigger_of ActionStatus.denied = some AlertTrigger.denied
trigger_of ActionStatus.failed = some AlertTrigger.failed
trigger_of _ = none

abbrev pub alert_for : AlertTrigger → DomainEvent → Alert
alert_for AlertTrigger.awaiting_approval e = approval_alert e
alert_for AlertTrigger.denied e = denied_alert e
alert_for AlertTrigger.failed e = failed_alert e

-- what a transport is sent
abbrev pub alert_to : AlertTrigger → DomainEvent → String → String × Alert
alert_to trigger e t = (t, alert_for trigger e)

abbrev pub some_rule : (AlertRuleRecord → Bool) → Rules → Bool
some_rule p [] = false
some_rule p (r ∷ rs) = p r || some_rule p rs

-- the trigger is the one of that status
abbrev pub is_for : AlertTrigger → ActionStatus → Bool
is_for AlertTrigger.awaiting_approval ActionStatus.awaiting_approval = true
is_for AlertTrigger.denied ActionStatus.denied = true
is_for AlertTrigger.failed ActionStatus.failed = true
is_for _ _ = false

-- a rule with no scope fits every event, and one with a scope the events of that scope
abbrev pub fits : Option String → Option String → Bool
fits none scope = true
fits (some a) none = false
fits (some a) (some b) = str_eq a b

abbrev pub is_named : String → List String → Bool
is_named t [] = false
is_named t (c ∷ cs) = str_eq c t || is_named t cs

-- the rule sends the event to the transport
abbrev pub sends_to : DomainEvent → String → AlertRuleRecord → Bool
sends_to e t r =
    str_eq r.org_id e.org_id
    && r.enabled
    && is_for r.trigger e.status
    && fits r.scope e.scope
    && is_named t r.channels

-- The transport is wanted: no rule of the store is of the event's organisation, or one sends it there.
abbrev pub is_wanted : Rules → DomainEvent → String → Bool
is_wanted rules e t =
    not (some_rule (λ r. str_eq r.org_id e.org_id) rules) || some_rule (sends_to e t) rules

abbrev pub expected : List String → Rules → DomainEvent → List (String × Alert)
expected transports rules e = elim (trigger_of e.status) [
  | none ↦ []
  | some trigger ↦ map (alert_to trigger e) (select (is_wanted rules e) transports)
]

-- the same for the rules of one organisation, as dispatch has them
abbrev pub named_by : AlertTrigger → Option String → Rules → String → Bool
named_by trigger scope rules t =
    some_rule (λ r. is_matching trigger scope r && has r.channels t) rules

abbrev pub is_named_by : AlertTrigger → Option String → Rules → String → Bool
is_named_by trigger scope rules t =
    not (some_rule (λ r. true) rules) || named_by trigger scope rules t

some_rule-append :
    (p : AlertRuleRecord → Bool) (xs ys : Rules)
    → some_rule p (xs ++ ys) ≡ some_rule p xs || some_rule p ys
some_rule-append p [] ys = refl
some_rule-append p (x ∷ xs) ys = ground (arith, some_rule-append p xs ys)

swapped : (a b : Bool) → a || (b || false) ≡ b || a
swapped a b = ground arith

some_rule-reverse :
    (p : AlertRuleRecord → Bool) (xs : Rules) → some_rule p (reverse xs) ≡ some_rule p xs
some_rule-reverse p [] = refl
some_rule-reverse p (x ∷ xs) =
    rw (reverse-cons x xs, some_rule-append p (reverse xs) (x ∷ []), some_rule-reverse p xs)
      (swapped (some_rule p xs) (p x))

some_rule-select :
    (p q : AlertRuleRecord → Bool) (xs : Rules)
    → some_rule p (select q xs) ≡ some_rule (λ r. q r && p r) xs
some_rule-select p q [] = refl
some_rule-select p q (x ∷ xs) = ground (arith, some_rule-select p q xs)

pub some_rule-ext :
    (p q : AlertRuleRecord → Bool) (xs : Rules)
    → ((r : AlertRuleRecord) → p r ≡ q r)
    → some_rule p xs ≡ some_rule q xs
some_rule-ext p q [] h = refl
some_rule-ext p q (x ∷ xs) h = rw (h x, some_rule-ext p q xs h) refl

-- dispatch finds in its list what stands in the store
pub some_rule-list_rules :
    (p : AlertRuleRecord → Bool) (org : String) (rules : Rules)
    → some_rule p (list_rules org rules) ≡ some_rule (λ r. str_eq r.org_id org && p r) rules
some_rule-list_rules p org rules =
    some_rule-reverse p (select (λ r. str_eq r.org_id org) rules)
    ∙ some_rule-select p (λ r. str_eq r.org_id org) rules

pub is_named-has : (t : String) (cs : List String) → has cs t ≡ is_named t cs
is_named-has t [] = refl
is_named-has t (c ∷ cs) = ground (arith, is_named-has t cs)
