-- ===== src/Cloud/Lifecycle/Approval.antt =====
-- service.ts: the approval gate.
use quorvel.Common.{
  String, ◌≡◌, ◌≢◌, refl, ◌∙◌, Bool, true, false, some, List, [], ◌∷◌, arith, All, Bool-cases, inl,
  inr,
}
use quorvel.Ledger.{ActionStatus, awaiting_approval, rejected, denied}
use quorvel.Cloud.Actions.{StoredAction, get_action, patch_row}
use quorvel.Cloud.Table.{same_key}
use quorvel.Cloud.Lifecycle.{
  may_become, ServiceDeps, Cloud, patch_of, Call, inserts, marks, serve, serve_all, Mark,
  mark_approved,
}
use quorvel.Cloud.Lifecycle.Rows.{moved_row, get_action-transition, get_action-insert_pending}

-- The action was parked for a reviewer, who has not let it through.
abbrev pub is_parked : ActionStatus → Bool
is_parked awaiting_approval = true
is_parked rejected = true
is_parked denied = true
is_parked _ = false

-- The call is no approval of the action of that key.
abbrev pub IsNoApproval : String → String → Call → Type 0
IsNoApproval o k (inserts now org input) = Unit
IsNoApproval o k (marks now org key mark) = same_key org key o k ≡ true → mark ≢ mark_approved

-- the action of that key is there, and parked
abbrev pub IsParked : String → String → Cloud → Type 0
IsParked o k w =
    (r : StoredAction) × (get_action o k w.actions ≡ some r) × (is_parked r.action.status ≡ true)

stays_parked :
    (from : ActionStatus) (mark : Mark)
    → is_parked from ≡ true
    → mark ≢ mark_approved
    → may_become from (patch_of mark).status ≡ true
    → is_parked (patch_of mark).status ≡ true
stays_parked from mark p ne h = ground (arith, ne)

module _ (deps : ServiceDeps) (o k : String) where
  serve-IsParked :
      (c : Call) (w : Cloud) → IsNoApproval o k c → IsParked o k w → IsParked o k (serve deps c w)
  unfolding serve
  serve-IsParked (inserts now org input) w n (r, h, p) =
      (r, get_action-insert_pending deps o k now org input w r h, p)
  serve-IsParked (marks now org key mark) w n (r, h, p) =
      let after = get_action-transition deps o k now org key (patch_of mark) w in
      elim (Bool-cases (same_key org key o k)) [
        | inl e ↦ elim (Bool-cases (may_become r.action.status (patch_of mark).status)) [
          | inl m ↦ (
            patch_row now (patch_of mark) r,
            after ∙ rw (e, h, moved_row, m) refl,
            stays_parked r.action.status mark p (n e) m,
          )
          | inr m ↦ (r, after ∙ rw (e, h, moved_row, m) refl, p)
        ]
        | inr e ↦ (r, after ∙ rw (e) h, p)
      ]

  -- Through any history of calls that does not approve it, an action that awaits approval is awaiting
  -- it still, or was rejected or denied: it is never run, and never recorded as succeeded or failed.
  pub serve_all-IsParked :
      (cs : List Call) (w : Cloud)
      → All (IsNoApproval o k) cs
      → IsParked o k w
      → IsParked o k (serve_all deps cs w)
  unfolding serve_all
  serve_all-IsParked [] w n h = h
  serve_all-IsParked (c ∷ cs) w (n, ns) h =
      serve_all-IsParked cs (serve deps c w) ns (serve-IsParked c w n h)
