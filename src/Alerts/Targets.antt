-- ===== src/Alerts/Targets.antt =====
-- alerts.ts: who gets an alert of an event.
use quorvel.Common.{
  is_some, opt_eq, not, str_eq, String, ◌≡◌, ◌∙◌, refl, ap, sym, inl, inr, Bool, true, ◌&&◌, ◌||◌,
  Option, none, some, List, [], ◌∷◌, ◌++◌, append-nil, arith, select, map, Bool-cases,
}
use quorvel.Alerts.Expected.{
  some_rule, some_rule-ext, some_rule-list_rules, is_named-has, named_by, is_named_by, alert_to,
  is_for, fits, is_named, sends_to, is_wanted, expected,
}
use quorvel.Ledger.{ActionStatus, pending, running, succeeded, approved, rejected}
use quorvel.Cloud.Actions.{DomainEvent}
use quorvel.Alerts.{AlertTrigger, eq_trigger, AlertRuleRecord, Rules, list_rules, is_matching}
use quorvel.Alerts.Dispatch.{
  RuleId, approval_needed, policy_denied, action_failed, rule_trigger, select_transports,
  default_rules, has, channels_of, handle,
}

has-append : (xs ys : List String) (t : String) → has (xs ++ ys) t ≡ has xs t || has ys t
has-append [] ys t = refl
has-append (x ∷ xs) ys t = ground (arith, has-append xs ys t)

has-channels_of :
    (trigger : AlertTrigger) (scope : Option String) (rules : List AlertRuleRecord) (t : String)
    → has (channels_of (select (is_matching trigger scope) rules)) t
      ≡ named_by trigger scope rules t
has-channels_of trigger scope [] t = refl
has-channels_of trigger scope (r ∷ rs) t = elim (Bool-cases (is_matching trigger scope r)) [
  | inl e ↦
      rw (e, has-append r.channels (channels_of (select (is_matching trigger scope) rs)) t)
        (ap (λ b. has r.channels t || b) (has-channels_of trigger scope rs t))
  | inr e ↦ rw e (has-channels_of trigger scope rs t)
]

select-ext :
    (p q : String → Bool) (ts : List String)
    → ((t : String) → p t ≡ q t)
    → select p ts ≡ select q ts
select-ext p q [] h = refl
select-ext p q (t ∷ ts) h = rw (h t, select-ext p q ts h) refl

select_everything : (ts : List String) → select (λ t. true) ts ≡ ts
select_everything [] = refl
select_everything (t ∷ ts) = ap (λ l. t ∷ l) (select_everything ts)

wanted :
    (trigger : AlertTrigger) (scope : Option String) (transports : List String) (rules : Rules)
    → (id : RuleId) → rule_trigger id ≡ some trigger
    → select_transports id scope transports (some rules)
      ≡ select (is_named_by trigger scope rules) transports
wanted trigger scope transports [] id h = sym (select_everything transports)
wanted trigger scope transports (r ∷ rs) id h = rw h (
    select-ext (has (channels_of (select (is_matching trigger scope) (r ∷ rs))))
      (named_by trigger scope (r ∷ rs)) transports (has-channels_of trigger scope (r ∷ rs)))

fits_lem : (a b : Option String) → not (is_some a) || opt_eq a b ≡ fits a b
fits_lem none b = refl
fits_lem (some a) none = refl
fits_lem (some a) (some b) = refl

with_true : (b : Bool) → b && true ≡ b
with_true b = ground arith

same_parts : (a b c d e : Bool) → a && ((b && c && d) && e) ≡ a && b && c && d && e
same_parts a b c d e = ground arith

module _ (transports : List String) (store : Rules) where
  abbrev mine : DomainEvent → Rules
  mine e = list_rules e.org_id store

  -- the trigger is the one that the event's status asks for
  abbrev Fires : AlertTrigger → DomainEvent → Type 0
  Fires trigger e = (a : AlertTrigger) → eq_trigger a trigger ≡ is_for a e.status

  same_rule :
      (trigger : AlertTrigger) (e : DomainEvent) (t : String) (r : AlertRuleRecord)
      → Fires trigger e
      → str_eq r.org_id e.org_id && (is_matching trigger e.scope r && has r.channels t)
        ≡ sends_to e t r
  same_rule trigger e t r h =
      rw (h r.trigger, fits_lem r.scope e.scope, is_named-has t r.channels)
        (same_parts (str_eq r.org_id e.org_id) r.enabled (is_for r.trigger e.status)
          (fits r.scope e.scope) (is_named t r.channels))

  same_wants :
      (trigger : AlertTrigger) (e : DomainEvent) (t : String)
      → Fires trigger e
      → is_named_by trigger e.scope (mine e) t ≡ is_wanted store e t
  same_wants trigger e t h =
      let own = λ (r : AlertRuleRecord). str_eq r.org_id e.org_id in
      let names = λ (r : AlertRuleRecord). is_matching trigger e.scope r && has r.channels t in
      let ruled =
        some_rule-list_rules (λ r. true) e.org_id store
        ∙ some_rule-ext (λ r. own r && true) own store (λ r. with_true (own r)) in
      let served =
        some_rule-list_rules names e.org_id store
        ∙ some_rule-ext (λ r. own r && names r) (sends_to e t) store
            (λ r. same_rule trigger e t r h) in
      ap (λ b. not b || named_by trigger e.scope (mine e) t) ruled
      ∙ ap (λ b. not (some_rule own store) || b) served

  -- the alerts of one trigger
  sent :
      (e : DomainEvent) (id : RuleId) (trigger : AlertTrigger)
      → rule_trigger id ≡ some trigger
      → Fires trigger e
      → map (alert_to trigger e) (select_transports id e.scope transports (some (mine e))) ++ []
        ≡ map (alert_to trigger e) (select (is_wanted store e) transports)
  sent e id trigger h fires =
      append-nil
        (map (alert_to trigger e) (select_transports id e.scope transports (some (mine e))))
      ∙ ap (map (alert_to trigger e)) (
          wanted trigger e.scope transports (mine e) id h
          ∙ select-ext (is_named_by trigger e.scope (mine e)) (is_wanted store e) transports
              (λ t. same_wants trigger e t fires))

  fires_approval :
      (a : AlertTrigger)
      → eq_trigger a AlertTrigger.awaiting_approval ≡ is_for a ActionStatus.awaiting_approval
  fires_approval AlertTrigger.awaiting_approval = refl
  fires_approval AlertTrigger.denied = refl
  fires_approval AlertTrigger.failed = refl

  fires_denied :
      (a : AlertTrigger) → eq_trigger a AlertTrigger.denied ≡ is_for a ActionStatus.denied
  fires_denied AlertTrigger.awaiting_approval = refl
  fires_denied AlertTrigger.denied = refl
  fires_denied AlertTrigger.failed = refl

  fires_failed :
      (a : AlertTrigger) → eq_trigger a AlertTrigger.failed ≡ is_for a ActionStatus.failed
  fires_failed AlertTrigger.awaiting_approval = refl
  fires_failed AlertTrigger.denied = refl
  fires_failed AlertTrigger.failed = refl

  by_status :
      (e : DomainEvent) (s : ActionStatus)
      → let d = record e { status = s } in
        handle transports default_rules (some store) d ≡ expected transports store d
  unfolding handle
  by_status e ActionStatus.awaiting_approval =
      sent (record e { status = ActionStatus.awaiting_approval }) approval_needed
        AlertTrigger.awaiting_approval refl fires_approval
  by_status e ActionStatus.denied =
      sent (record e { status = ActionStatus.denied }) policy_denied AlertTrigger.denied refl
        fires_denied
  by_status e ActionStatus.failed =
      sent (record e { status = ActionStatus.failed }) action_failed AlertTrigger.failed refl
        fires_failed
  by_status e pending = refl
  by_status e running = refl
  by_status e succeeded = refl
  by_status e approved = refl
  by_status e rejected = refl

  -- With the default rules and a rule store, an event is sent only if its action awaits approval, was
  -- denied or has failed, and then as that alert, once to each transport that is wanted: to every one
  -- if no rule of the store is of the event's organisation, and otherwise to those that an enabled rule
  -- of that organisation names, whose trigger is that status and whose scope is the event's or none.
  pub handle-expected :
      (e : DomainEvent)
      → handle transports default_rules (some store) e ≡ expected transports store e
  handle-expected e = by_status e e.status
