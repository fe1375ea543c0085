-- ===== src/Cloud/Lifecycle/Usage.antt =====
-- service.ts, the quota: the usage counter of an organisation against the actions that count.
use quorvel.Common.{
  ℕ, ◌+◌, String, ◌≡◌, refl, true, Option, none, some, List, [], ◌∷◌, arith, All, subst, Bool-cases,
  inl, inr, str_eq,
}
use quorvel.Ledger.{ActionStatus, InsertPendingInput}
use quorvel.Ledger.InMemory.{is_counting}
use quorvel.Billing.{allows_overage, MemUsageStore, get, up, reserve}
use quorvel.Billing.Quota.{get-insert, release_lem}
use quorvel.Cloud.Actions.{
  StoredAction, get_action, insert_row, TransitionPatch, apply_transition, EventKind,
}
use quorvel.Cloud.Table.{
  counting_rows, weight, counting_rows-insert_row, counting_rows-apply_transition,
}
use quorvel.Cloud.Lifecycle.{
  may_become, ServiceDeps, Cloud, reserve_slot, publish, reconcile_usage, transition_row,
  transition, insert_reserved, after_reserve, insert_pending, patch_of, Call, inserts, marks, serve,
  serve_all,
}
use quorvel.Cloud.Lifecycle.Rows.{actions-publish, actions-reconcile_usage}

module _ (plans : String → String) (org period : String) where
  -- with overage every reservation is granted, and counted
  reserve_granted :
      (s : MemUsageStore)
      → allows_overage (plans org) ≡ true
      → ((reserve plans org period s).0.allowed ≡ true)
        × (get org period (reserve plans org period s).1 ≡ up (get org period s))
  unfolding reserve
  reserve_granted s h = ground (arith, h, get-insert plans org period (up (get org period s)) s)

-- The counter of the organisation is what its counting actions are.
abbrev pub IsReconciled : String → String → Cloud → Type 0
IsReconciled org period w =
    (get org period w.usage).added ≡ (get org period w.usage).removed + counting_rows org w.actions

-- The call is one of the organisation's, in that billing period.
abbrev pub IsOwn : ServiceDeps → String → String → Call → Type 0
IsOwn deps org period (inserts now o input) = (o ≡ org) × (deps.period now ≡ period)
IsOwn deps org period (marks now o key mark) = (o ≡ org) × (deps.period now ≡ period)

module _ (deps : ServiceDeps) (plans : String → String) (org period : String)
    (metered : deps.plans ≡ some plans) (overage : allows_overage (plans org) ≡ true) where
  usage-publish :
      (kind : EventKind) (key : String) (w : Cloud) → (publish deps kind org key w).usage ≡ w.usage
  unfolding publish
  usage-publish kind key w = ground arith

  count-reconcile_usage :
      (now : ℕ) (from to : ActionStatus) (w : Cloud)
      → deps.period now ≡ period
      → let c = get org period w.usage in
        let c' = get org period (reconcile_usage deps now org from to w).usage in
        c'.added + c.removed + weight (is_counting from)
        ≡ c.added + c'.removed + weight (is_counting to)
  unfolding reconcile_usage
  count-reconcile_usage now from to w e = ground (
    arith,
    e,
    metered,
    reserve_granted plans org period w.usage overage,
    release_lem plans org period w.usage,
  )

  transition_row-IsReconciled :
      (now : ℕ) (key : String) (patch : TransitionPatch) (o : Option StoredAction) (w : Cloud)
      → deps.period now ≡ period
      → get_action org key w.actions ≡ o
      → IsReconciled org period w
      → IsReconciled org period (transition_row deps now org key patch o w).1
  unfolding transition_row
  transition_row-IsReconciled now key patch none w e f h = h
  transition_row-IsReconciled now key patch (some r) w e f h =
      let from = r.action.status in
      let s = record w { actions = apply_transition now org key patch w.actions } in
      let t = reconcile_usage deps now org from patch.status s in
      elim (Bool-cases (may_become from patch.status)) [
        | inl m ↦
            rw
              (
                m,
                usage-publish EventKind.transitioned key t,
                actions-publish deps EventKind.transitioned org key t,
                actions-reconcile_usage deps now org from patch.status s,
              )
              (omega (
                arith,
                count-reconcile_usage now from patch.status s e,
                counting_rows-apply_transition now org key patch w.actions r f,
              ))
        | inr m ↦ rw m h
      ]

  insert_reserved-IsReconciled :
      (now : ℕ) (input : InsertPendingInput) (w w0 : Cloud)
      → deps.period now ≡ period
      → get org period w.usage ≡ up (get org period w0.usage)
      → w.actions ≡ w0.actions
      → IsReconciled org period w0
      → IsReconciled org period (insert_reserved deps now org input w).1
  unfolding insert_reserved
  insert_reserved-IsReconciled now input w w0 e g a h =
      let res = insert_row now org input w.actions in
      let s = record w { actions = res.1 } in
      ground (
        arith,
        e,
        g,
        a,
        metered,
        usage-publish EventKind.created input.idempotency_key s,
        actions-publish deps EventKind.created org input.idempotency_key s,
        counting_rows-insert_row now org input w.actions,
        release_lem plans org period w.usage,
      )

  insert_pending-IsReconciled :
      (now : ℕ) (input : InsertPendingInput) (w : Cloud)
      → deps.period now ≡ period
      → IsReconciled org period w
      → IsReconciled org period (insert_pending deps now org input w).1
  unfolding insert_pending after_reserve
  insert_pending-IsReconciled now input w e h =
      let w1 = (reserve_slot deps plans now org w).1 in
      let (granted, counted) = reserve_granted plans org (deps.period now) w.usage overage in
      elim (Bool-cases (str_eq input.tool "")) [
        | inl b ↦ rw b h
        | inr b ↦
            rw (b, metered, granted)
              (insert_reserved-IsReconciled now input w1 w e
                (subst
                  (λ p.
                    get org p (reserve plans org (deps.period now) w.usage).1
                    ≡ up (get org p w.usage))
                  e counted)
                refl h)
      ]

  serve-IsReconciled :
      (c : Call) (w : Cloud)
      → IsOwn deps org period c
      → IsReconciled org period w
      → IsReconciled org period (serve deps c w)
  unfolding serve transition
  serve-IsReconciled (inserts now o input) w (own, e) h =
      rw own (insert_pending-IsReconciled now input w e h)
  serve-IsReconciled (marks now o key mark) w (own, e) h = rw own (
      transition_row-IsReconciled now key (patch_of mark) (get_action org key w.actions) w e refl h)

  -- For an organisation whose plan allows overage, through any history of its insertions and
  -- transitions within one billing period, the usage counter stays the number of its actions that
  -- have not failed and were neither denied nor rejected, if it is that number at the start.
  pub serve_all-IsReconciled :
      (cs : List Call) (w : Cloud)
      → All (IsOwn deps org period) cs
      → IsReconciled org period w
      → IsReconciled org period (serve_all deps cs w)
  unfolding serve_all
  serve_all-IsReconciled [] w own h = h
  serve_all-IsReconciled (c ∷ cs) w (own, rest) h =
      serve_all-IsReconciled cs (serve deps c w) rest (serve-IsReconciled c w own h)
