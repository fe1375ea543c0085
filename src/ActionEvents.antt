-- ===== src/ActionEvents.antt =====
-- apps/api/src/actionEvents.ts: the log of action events in memory, its sink on the bus, and what the
-- service (service.ts) shows of it. An event's id is the text of a number that is counted up; it is
-- that number here.
pub mod Entries
pub mod Visible
use quorvel.Common.{
  ℕ, suc, ◌+◌, ◌-◌, ◌*◌, String, Bool, true, false, ◌&&◌, not, Option, none, some, List, [], ◌∷◌,
  ◌++◌, get_or, str_eq, leb, ltb, select, take, if◌then◌else◌,
}
use quorvel.Common.Sorting.{sort_by}
use quorvel.Ledger.{ActionStatus, ActionRecord}
use quorvel.Ledger.InMemory.{eq_status}
use quorvel.Cloud.Actions.{StoredAction, Actions, DomainEvent, EventKind, get_action, to_record}

pub record ActionEvent : Type 0 where
  pub id : ℕ
  pub org_id : String
  pub idempotency_key : String
  pub type : EventKind
  pub status : ActionStatus
  pub attempt : ℕ
  pub reason : Option String
  pub error : Option String
  pub at : ℕ

pub record ActionEventInput : Type 0 where
  pub org_id : String
  pub idempotency_key : String
  pub type : EventKind
  pub status : ActionStatus
  pub attempt : Option ℕ
  pub reason : Option String
  pub error : Option String
  pub at : Option ℕ

pub record ListEventsFilter : Type 0 where
  pub idempotency_key : Option String
  pub status : Option ActionStatus
  pub since : Option ℕ
  pub limit : Option ℕ

-- `MemActionEventLog`
pub record Log : Type 0 where
  pub seq : ℕ
  pub events : List ActionEvent

abbrev pub new_event : ℕ → ℕ → ActionEventInput → ActionEvent
new_event now id input = record {
  id = id;
  org_id = input.org_id;
  idempotency_key = input.idempotency_key;
  type = input.type;
  status = input.status;
  attempt = get_or input.attempt 0;
  reason = input.reason;
  error = input.error;
  at = get_or input.at now;
}

unfoldable pub append : ℕ → ActionEventInput → Log → ActionEvent × Log
append now input log =
    let e = new_event now (suc log.seq) input in
    (e, record { seq = suc log.seq; events = log.events ++ e ∷ [] })

-- `domainEventToActionEventInput`
abbrev pub input_of : DomainEvent → ActionEventInput
input_of e = record {
  org_id = e.org_id;
  idempotency_key = e.idempotency_key;
  type = e.kind;
  status = e.status;
  attempt = none;
  reason = e.reason;
  error = none;
  at = some e.at;
}

-- the subscriber of `makeActionEventSink`
unfoldable pub sink_event : ℕ → DomainEvent → Log → Log
unfolding append
sink_event now e log = (append now (input_of e) log).1

abbrev pub older : ActionEvent → ActionEvent → Bool
older a b = leb a.id b.id

abbrev pub newer : ActionEvent → ActionEvent → Bool
newer a b = leb b.id a.id

unfoldable pub list_by_run : String → String → Log → List ActionEvent
list_by_run org key log =
    sort_by older (select (λ e. str_eq e.org_id org && str_eq e.idempotency_key key) log.events)

-- a filter that is not given, or is the empty text, lets everything through
abbrev pub passes_key : Option String → ActionEvent → Bool
passes_key none e = true
passes_key (some key) e = if str_eq key "" then true else str_eq e.idempotency_key key

abbrev pub passes_status : Option ActionStatus → ActionEvent → Bool
passes_status none e = true
passes_status (some status) e = eq_status e.status status

abbrev pub passes_since : Option ℕ → ActionEvent → Bool
passes_since none e = true
passes_since (some since) e = leb since e.at

unfoldable pub list_recent_events : String → ListEventsFilter → Log → List ActionEvent
list_recent_events org filter log =
    let mine = select (λ e. str_eq e.org_id org) log.events in
    let keyed = select (passes_key filter.idempotency_key) mine in
    let settled = select (passes_status filter.status) keyed in
    let recent = select (passes_since filter.since) settled in
    take (get_or filter.limit 100) (sort_by newer recent)

-- `planFeatures(plan).retentionDays`
unfoldable pub retention_days : String → ℕ
retention_days plan = if str_eq plan "pro" then 30 else if str_eq plan "scale" then 365 else 7

-- `retentionFloorIso`, of a plan whose retention is finite, as that of every plan is
unfoldable pub retention_floor : ℕ → ℕ → ℕ
retention_floor now days = now - days * 86400000

abbrev pub clamp_since : Option ℕ → ℕ → ℕ
clamp_since none floor = floor
clamp_since (some since) floor = if ltb floor since then since else floor

-- `listEvents` of the service, under the plan of the organisation
unfoldable pub list_events : ℕ → String → String → ListEventsFilter → Option Log → List ActionEvent
unfolding list_recent_events retention_days retention_floor
list_events now plan org filter none = []
list_events now plan org filter (some log) =
    list_recent_events org
      (record filter {
        since = some (clamp_since filter.since (retention_floor now (retention_days plan)));
      })
      log

-- `runTimeline` of the service
unfoldable pub run_timeline :
    String → String → Actions → Option Log → Option (ActionRecord × List ActionEvent)
unfolding list_by_run
run_timeline org key actions log = elim (get_action org key actions) [
  | none ↦ none
  | some r ↦ some (to_record r, elim log [ none ↦ [] | some l ↦ list_by_run org key l ])
]
