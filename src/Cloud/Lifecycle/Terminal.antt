-- ===== src/Cloud/Lifecycle/Terminal.antt =====
-- service.ts: the actions that have come to an end are kept.
use quorvel.Common.{String, ◌≡◌, Bool, true, false, some, List, [], ◌∷◌, arith}
use quorvel.Ledger.{ActionStatus, succeeded, rejected, denied}
use quorvel.Cloud.Actions.{StoredAction, get_action}
use quorvel.Cloud.Lifecycle.{
  may_become, ServiceDeps, Cloud, patch_of, Call, inserts, marks, serve, serve_all,
}
use quorvel.Cloud.Lifecycle.Rows.{moved_row, get_action-transition, get_action-insert_pending}

-- The action has come to its end.
abbrev pub is_terminal : ActionStatus → Bool
is_terminal succeeded = true
is_terminal rejected = true
is_terminal denied = true
is_terminal _ = false

may_not_become : (from to : ActionStatus) → is_terminal from ≡ true → may_become from to ≡ false
may_not_become from to h = ground arith

module _ (deps : ServiceDeps) (o k : String) (r : StoredAction) where
  serve-keeps :
      (c : Call) (w : Cloud)
      → is_terminal r.action.status ≡ true
      → get_action o k w.actions ≡ some r
      → get_action o k (serve deps c w).actions ≡ some r
  unfolding serve
  serve-keeps (inserts now org input) w t h = get_action-insert_pending deps o k now org input w r h
  serve-keeps (marks now org key mark) w t h =
      rw
        (
          get_action-transition deps o k now org key (patch_of mark) w,
          h,
          moved_row,
          may_not_become r.action.status (patch_of mark).status t,
        )
        (ground arith)

  -- Through any history of insertions and transitions, by any organisations and at any times, an action
  -- that has succeeded, was rejected or was denied stays as it is, its result and its attempts
  -- included.
  pub serve_all-keeps :
      (cs : List Call) (w : Cloud)
      → is_terminal r.action.status ≡ true
      → get_action o k w.actions ≡ some r
      → get_action o k (serve_all deps cs w).actions ≡ some r
  unfolding serve_all
  serve_all-keeps [] w t h = h
  serve_all-keeps (c ∷ cs) w t h = serve_all-keeps cs (serve deps c w) t (serve-keeps c w t h)
