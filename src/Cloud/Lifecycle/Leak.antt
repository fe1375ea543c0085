-- ===== src/Cloud/Lifecycle/Leak.antt =====
-- service.ts, the quota under a plan with a hard limit: what a retry of a failed action does to it.
use quorvel.Common.{ℕ, ◌+◌, String, ◌≡◌, refl, true, false, some, List, [], ◌∷◌, arith, eq_iff}
use quorvel.Ledger.{failed, running}
use quorvel.Ledger.InMemory.{is_counting}
use quorvel.Billing.{plan_limit, allows_overage, Count, get, up, down}
use quorvel.Billing.Quota.{reserve_lem, release_lem}
use quorvel.Cloud.Actions.{StoredAction, get_action, patch_row}
use quorvel.Cloud.Table.{counting_rows, weight, counting_rows-apply_transition}
use quorvel.Cloud.Lifecycle.{
  may_become, ServiceDeps, Cloud, reconcile_usage, publish, transition_row, transition, patch_of,
  Mark, mark_running, mark_failed, Call, marks, serve, serve_all,
}
use quorvel.Cloud.Lifecycle.Rows.{get_action-transition, actions-transition}

-- the retry, and its failure
abbrev pub retry_and_fail : ℕ → String → String → String → List Call
retry_and_fail now org key error =
    marks now org key mark_running ∷ marks now org key (mark_failed error) ∷ []

module _ (deps : ServiceDeps) (plans : String → String) (org key : String) (now limit : ℕ)
    (metered : deps.plans ≡ some plans) (capped : plan_limit (plans org) ≡ some limit)
    (hard : allows_overage (plans org) ≡ false) where
  abbrev used : Cloud → Count
  used w = get org (deps.period now) w.usage

  -- a legal transition of the row that is there
  abbrev step : Mark → Cloud → Cloud
  step mark w = (transition deps now org key (patch_of mark) w).1

  stepped :
      (mark : Mark) (w : Cloud) (r : StoredAction)
      → get_action org key w.actions ≡ some r
      → may_become r.action.status (patch_of mark).status ≡ true
      → (get_action org key (step mark w).actions ≡ some (patch_row now (patch_of mark) r))
        × (counting_rows org (step mark w).actions + weight (is_counting r.action.status)
            ≡ counting_rows org w.actions + weight (is_counting (patch_of mark).status))
  stepped mark w r h m =
      let row = get_action-transition deps org key now org key (patch_of mark) w in
      let table = actions-transition deps now org key (patch_of mark) w in
      (
        ground (arith, row, h, m, eq_iff org org, eq_iff key key),
        rw (table, h, m) (counting_rows-apply_transition now org key (patch_of mark) w.actions r h),
      )

  retry_refused :
      (w : Cloud) (r : StoredAction)
      → get_action org key w.actions ≡ some r
      → r.action.status ≡ failed
      → (used w).added ≡ limit + (used w).removed
      → used (step mark_running w) ≡ down (up (used w))
  unfolding transition transition_row publish reconcile_usage
  retry_refused w r h f full =
      ground
        (arith, h, f, metered, reserve_lem plans org (deps.period now) limit w.usage capped hard)

  failure_refunded :
      (error : String) (w : Cloud) (r : StoredAction)
      → get_action org key w.actions ≡ some r
      → r.action.status ≡ running
      → used (step (mark_failed error) w) ≡ down (used w)
  unfolding transition transition_row publish reconcile_usage
  failure_refunded error w r h f =
      ground (arith, h, f, metered, release_lem plans org (deps.period now) w.usage)

  -- An organisation with a hard limit that has used it up retries a failed action, which fails again:
  -- its counter is then one below the limit, though no action of it has stopped counting.
  pub serve_all-leaks :
      (error : String) (w : Cloud) (r : StoredAction)
      → get_action org key w.actions ≡ some r
      → r.action.status ≡ failed
      → (used w).added ≡ limit + (used w).removed
      → let w' = serve_all deps (retry_and_fail now org key error) w in
        ((used w').added + 1 ≡ limit + (used w').removed)
        × (counting_rows org w'.actions ≡ counting_rows org w.actions)
  unfolding serve_all serve
  serve_all-leaks error w r h f full =
      let w1 = step mark_running w in
      let r1 = patch_row now (patch_of mark_running) r in
      let (h1, c1) = stepped mark_running w r h (ground (arith, f)) in
      let (h2, c2) = stepped (mark_failed error) w1 r1 h1 refl in
      let u1 = retry_refused w r h f full in
      let u2 = failure_refunded error w1 r1 h1 refl in
      let n : weight (is_counting r.action.status) ≡ 0 = ground (arith, f) in
      (rw (u2, u1) (omega (arith, full)), omega (arith, c1, c2, n))
