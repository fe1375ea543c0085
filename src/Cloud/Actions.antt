-- ===== src/Cloud/Actions.antt =====
-- apps/api/src/store.ts, the actions of `MemStore`, and the event of events.ts that is made from one.
-- The `Map` of actions is a list: its text key, the organisation and the idempotency key around a NUL,
-- determines both as long as no organisation has a NUL in its name.
use quorvel.Common.{
  ℕ, ◌+◌, String, Bool, true, false, ◌&&◌, ◌||◌, Option, none, some, List, [], ◌∷◌, ◌++◌, map,
  str_eq, leb, ltb, ◌==◌, select, find, take, get_or, if◌then◌else◌,
}
use quorvel.Common.Sorting.{sort_by}
use quorvel.Value.{Value, undefined, null}
use quorvel.Ledger.{
  ActionStatus, pending, ActionRecord, InsertPendingInput, InsertResult, StatsFilter, Stats,
}
use quorvel.Ledger.InMemory.{eq_status, stats_from}

-- `StoredAction` extends `ActionRecord`; `toRecord` is its field `action`.
pub record StoredAction : Type 0 where
  pub org_id : String
  pub action : ActionRecord
  pub updated_at : ℕ

abbrev pub to_record : StoredAction → ActionRecord
to_record r = r.action

abbrev pub Actions : Type 0
Actions = List StoredAction

abbrev pub same_action : String → String → StoredAction → Bool
same_action org key r = str_eq r.org_id org && str_eq r.action.idempotency_key key

unfoldable pub get_action : String → String → Actions → Option StoredAction
get_action org key s = find (same_action org key) s

-- `args ?? null`
abbrev pub args_or_null : Value → Value
args_or_null undefined = null
args_or_null v = v

abbrev pub new_action : ℕ → String → InsertPendingInput → StoredAction
new_action now org input = record {
  org_id = org;
  action = record {
    idempotency_key = input.idempotency_key;
    scope = input.scope;
    tool = input.tool;
    args = args_or_null input.args;
    cost = get_or input.cost 0;
    status = pending;
    result = none;
    error = none;
    reason = none;
    attempts = 0;
    created_at = now;
  };
  updated_at = now;
}

insert_unless :
    ℕ → String → InsertPendingInput → Actions → Option StoredAction → InsertResult × Actions
insert_unless now org input s (some r) =
    (record { inserted = false; existing = some (to_record r) }, s)
insert_unless now org input s none =
    (record { inserted = true; existing = none }, s ++ new_action now org input ∷ [])

unfoldable pub insert_row : ℕ → String → InsertPendingInput → Actions → InsertResult × Actions
unfolding insert_unless get_action
insert_row now org input s = insert_unless now org input s (get_action org input.idempotency_key s)

pub record TransitionPatch : Type 0 where
  pub status : ActionStatus
  pub increment_attempts : Bool
  pub result : Option Value
  pub error : Option String
  pub reason : Option String

-- an optional field of a patch: only a value that is given is written
abbrev pub patched {ℓ} : {A : Type ℓ} → Option A → Option A → Option A
patched none old = old
patched (some v) old = some v

abbrev pub patch_row : ℕ → TransitionPatch → StoredAction → StoredAction
patch_row now patch r = record r {
  action = record r.action {
    status = patch.status;
    attempts = r.action.attempts + (if patch.increment_attempts then 1 else 0);
    result = patched patch.result r.action.result;
    error = patched patch.error r.action.error;
    reason = patched patch.reason r.action.reason;
  };
  updated_at = now;
}

unfoldable pub apply_transition : ℕ → String → String → TransitionPatch → Actions → Actions
apply_transition now org key patch [] = []
apply_transition now org key patch (r ∷ rs) =
    if same_action org key r
    then patch_row now patch r ∷ rs
    else r ∷ apply_transition now org key patch rs

unfoldable pub list_by_status : String → ActionStatus → Option ℕ → Actions → List ActionRecord
list_by_status org status limit s =
    let rows =
      sort_by (λ a b. leb a.action.created_at b.action.created_at)
        (select (λ r. str_eq r.org_id org && eq_status r.action.status status) s) in
    map to_record (elim limit [ none ↦ rows | some n ↦ take n rows ])

-- the latest update first, and among those of one time the latest creation
abbrev pub more_recent : StoredAction → StoredAction → Bool
more_recent a b =
    ltb b.updated_at a.updated_at
    || (a.updated_at == b.updated_at && leb b.action.created_at a.action.created_at)

unfoldable pub list_recent : String → Option ℕ → Actions → List ActionRecord
list_recent org limit s =
    map to_record
      (take (get_or limit 100) (sort_by more_recent (select (λ r. str_eq r.org_id org) s)))

unfoldable pub stats : String → StatsFilter → Actions → Stats
unfolding stats_from
stats org filter s =
    stats_from filter (map to_record (select (λ r. str_eq r.org_id org) s))
      (record { count = 0; total_cost = 0 })

pub data EventKind : Type 0 where
  created transitioned : EventKind

pub record DomainEvent : Type 0 where
  pub kind : EventKind
  pub org_id : String
  pub idempotency_key : String
  pub tool : String
  pub scope : Option String
  pub cost : ℕ
  pub status : ActionStatus
  pub reason : Option String
  pub at : ℕ

-- `actionCreated` and `actionTransition`
abbrev pub event_of : EventKind → StoredAction → DomainEvent
event_of kind a = record {
  kind = kind;
  org_id = a.org_id;
  idempotency_key = a.action.idempotency_key;
  tool = a.action.tool;
  scope = a.action.scope;
  cost = a.action.cost;
  status = a.action.status;
  reason = a.action.reason;
  at = a.updated_at;
}
