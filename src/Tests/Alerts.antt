-- ===== src/Tests/Alerts.antt =====
-- alerts.ts, alertRules.ts, actionEvents.ts: who gets an alert of a failure, the limit of rules, and what
-- an organisation sees of the log.
use quorvel.Common.{true, false, ℕ, ◌≡◌, refl, false, none, some, List, [], ◌∷◌, arith}
use quorvel.Common.Dict.{lookup}
use quorvel.Value.{undefined, str, arr, cons, nil, bool}
use quorvel.ActionEvents.{ActionEvent, ListEventsFilter, list_events}
use quorvel.ActionEvents.Entries.{empty_log, sink_all}
use quorvel.ActionEvents.Visible.{list_events-visible}
use quorvel.Alerts.{AlertTrigger, AlertRuleRecord}
use quorvel.Alerts.Calls.{State, max_alert_rules, Call, creates, updates, deletes, perform_all}
use quorvel.Alerts.Inputs.{RuleInput}
use quorvel.Alerts.Limit.{IsWithinPlan, perform_all-IsWithinPlan}
use quorvel.Alerts.Dispatch.{failed_alert, default_rules, handle}
use quorvel.Alerts.Targets.{handle-expected}
use quorvel.Ledger.{ActionStatus}
use quorvel.Cloud.Actions.{DomainEvent, EventKind}
use quorvel.Tests.Events.{event}

abbrev slack_only : AlertRuleRecord
slack_only = record {
  id = "alr_1";
  org_id = "acme";
  name = "failures";
  trigger = AlertTrigger.failed;
  scope = none;
  channels = "slack" ∷ [];
  enabled = true;
  created_at = 1;
}

abbrev failure : DomainEvent
failure = record (event "k1") { status = ActionStatus.failed }

abbrev email_off : AlertRuleRecord
email_off = record slack_only { id = "alr_2"; channels = "email" ∷ []; enabled = false }

abbrev elsewhere : AlertRuleRecord
elsewhere = record email_off { id = "alr_3"; org_id = "globex"; enabled = true }

-- neither a rule that is switched off nor one of another organisation brings the mail
handle-expected_example :
    handle
      ("slack" ∷ "email" ∷ [])
      default_rules
      (some (slack_only ∷ email_off ∷ elsewhere ∷ []))
      failure
    ≡ ("slack", failed_alert failure) ∷ []
handle-expected_example =
    handle-expected ("slack" ∷ "email" ∷ []) (slack_only ∷ email_off ∷ elsewhere ∷ []) failure

abbrev free : State
free = record {
  rules = slack_only ∷ [];
  directory = record { orgs = []; keys = []; memberships = []; audit_entries = [] };
}

free-IsWithinPlan : IsWithinPlan "acme" 1 free
unfolding max_alert_rules lookup
free-IsWithinPlan = (refl, omega arith)

abbrev one_more : RuleInput
one_more = record {
  name = str " denials ";
  trigger = str "denied";
  scope = none;
  channels = arr (cons (str "email") nil);
  enabled = undefined;
}

abbrev rule_calls : List Call
rule_calls =
    creates 2 "a" "b" "acme" one_more none
    ∷ updates 3 "c" "acme" "alr_1" (record one_more { enabled = bool false }) none
    ∷ deletes 4 "d" "acme" "alr_1" none
    ∷ creates 5 "e" "f" "acme" one_more none
    ∷ []

perform_all-IsWithinPlan_example : IsWithinPlan "acme" 1 (perform_all rule_calls free)
perform_all-IsWithinPlan_example =
    perform_all-IsWithinPlan "acme" 1 rule_calls free free-IsWithinPlan

abbrev entry : ℕ → ℕ → ActionEvent
entry id at = record {
  id = id;
  org_id = "acme";
  idempotency_key = "k1";
  type = EventKind.created;
  status = ActionStatus.pending;
  attempt = 0;
  reason = none;
  error = none;
  at = at;
}

abbrev published : ℕ → ℕ × DomainEvent
published at = (at, record (event "k1") { at = at })

abbrev history : List (ℕ × DomainEvent)
history =
    published 5
    ∷ published 700000000
    ∷ (700000000, record (event "k1") { org_id = "globex"; at = 700000000 })
    ∷ published 700000001
    ∷ []

abbrev everything : ListEventsFilter
everything = record { idempotency_key = none; status = none; since = none; limit = some 5 }

-- under the free plan, more than seven days after the first event: the event of another organisation
-- takes a number too
list_events-visible_example :
    list_events 700000002 "free" "acme" everything (some (sink_all history empty_log))
    ≡ entry 4 700000001 ∷ entry 2 700000000 ∷ []
list_events-visible_example = list_events-visible 700000002 "free" "acme" everything history
