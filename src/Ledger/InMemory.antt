-- ===== src/Ledger/InMemory.antt =====
-- packages/core/src/ledger.ts, `InMemoryLedger`: a `Map` from idempotency keys to records.
use quorvel.Common.{
  ℕ, ◌+◌, String, Bool, true, false, ◌&&◌, Option, none, some, List, [], ◌∷◌, str_eq, opt_eq, leb,
  select, limited, if◌then◌else◌,
}
use quorvel.Common.Dict.{Dict, lookup, insert, modify, values, lookup-insert, lookup-modify}
use quorvel.Common.Sorting.{sort_by}
use quorvel.Ledger.{
  ActionStatus, pending, running, succeeded, failed, awaiting_approval, approved, rejected, denied,
  ActionRecord, InsertPendingInput, InsertResult, StatsFilter, Stats, pending_record, as_running,
  as_succeeded, as_failed, as_awaiting, as_approved, as_rejected, as_denied, LedgerStore, Writes,
  LedgerLaws,
}

abbrev pub Store : Type 0
Store = Dict ActionRecord

unfoldable pub get : String → Store → Option ActionRecord
get key s = lookup key s

insert_unless : ℕ → InsertPendingInput → Store → Option ActionRecord → InsertResult × Store
insert_unless now input s (some r) = (record { inserted = false; existing = some r }, s)
insert_unless now input s none = (
  record { inserted = true; existing = none },
  insert input.idempotency_key (pending_record now input) s,
)

unfoldable pub insert_pending : ℕ → InsertPendingInput → Store → InsertResult × Store
unfolding insert_unless
insert_pending now input s = insert_unless now input s (lookup input.idempotency_key s)

-- `Object.assign` on the record of a key, if there is one
unfoldable pub patch : String → (ActionRecord → ActionRecord) → Store → Store
patch key f s = modify key f s

abbrev pub eq_status : ActionStatus → ActionStatus → Bool
eq_status pending pending = true
eq_status running running = true
eq_status succeeded succeeded = true
eq_status failed failed = true
eq_status awaiting_approval awaiting_approval = true
eq_status approved approved = true
eq_status rejected rejected = true
eq_status denied denied = true
eq_status _ _ = false

unfoldable pub list_by_status : ActionStatus → Option ℕ → Store → List ActionRecord
list_by_status status limit s = limited limit (
    sort_by (λ a b. leb a.created_at b.created_at)
      (select (λ r. eq_status r.status status) (values s)))

-- the statuses of `NON_COUNTING`
abbrev pub is_counting : ActionStatus → Bool
is_counting failed = false
is_counting denied = false
is_counting rejected = false
is_counting _ = true

-- `if (filter.tool && …)`: no tool, and the empty text, mean every tool
abbrev pub tool_matches : Option String → String → Bool
tool_matches none tool = true
tool_matches (some wanted) tool = if str_eq wanted "" then true else str_eq tool wanted

abbrev pub since_matches : Option ℕ → ℕ → Bool
since_matches none at = true
since_matches (some since) at = leb since at

unfoldable pub counted : StatsFilter → ActionRecord → Bool
counted filter r =
    opt_eq r.scope filter.scope
    && tool_matches filter.tool r.tool
    && since_matches filter.since r.created_at
    && is_counting r.status

-- the loop of `stats`, on its two accumulators
unfoldable pub stats_from : StatsFilter → List ActionRecord → Stats → Stats
stats_from filter [] acc = acc
stats_from filter (r ∷ rs) acc = stats_from filter rs (
    if counted filter r
    then record { count = acc.count + 1; total_cost = acc.total_cost + r.cost }
    else acc)

unfoldable pub stats : StatsFilter → Store → Stats
unfolding stats_from counted
stats filter s = stats_from filter (values s) (record { count = 0; total_cost = 0 })

abbrev pub in_memory : LedgerStore Store
in_memory = record {
  get = get;
  insert_pending = insert_pending;
  mark_running = λ k. patch k as_running;
  mark_succeeded = λ k v. patch k (as_succeeded v);
  mark_failed = λ k e. patch k (as_failed e);
  mark_awaiting_approval = λ k e. patch k (as_awaiting e);
  mark_approved = λ k. patch k as_approved;
  mark_rejected = λ k e. patch k (as_rejected e);
  mark_denied = λ k e. patch k (as_denied e);
  list_by_status = list_by_status;
  stats = stats;
}

patch-Writes :
    (f : ActionRecord → ActionRecord) (k : String) (s : Store)
    → Writes in_memory f k s (patch k f s)
unfolding get patch
patch-Writes f k s j = lookup-modify k j f s

-- The in-memory ledger is a ledger: its methods satisfy every law that callers rely on.
pub in_memory-LedgerLaws : LedgerLaws in_memory
unfolding get insert_pending
in_memory-LedgerLaws = record {
  insert_taken = λ now input s r h. rw h;
  insert_free = λ now input s h. rw h;
  get-insert_free = λ now input s j h. rw h (lookup-insert input.idempotency_key j _ s);
  running_writes = λ k s. patch-Writes as_running k s;
  succeeded_writes = λ k v s. patch-Writes (as_succeeded v) k s;
  failed_writes = λ k e s. patch-Writes (as_failed e) k s;
  awaiting_writes = λ k e s. patch-Writes (as_awaiting e) k s;
  approved_writes = λ k s. patch-Writes as_approved k s;
  rejected_writes = λ k e s. patch-Writes (as_rejected e) k s;
  denied_writes = λ k e s. patch-Writes (as_denied e) k s;
}
