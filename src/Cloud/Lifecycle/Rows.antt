-- ===== src/Cloud/Lifecycle/Rows.antt =====
-- service.ts: what the calls of the service do to the table of actions, row by row.
use quorvel.Common.{
  ℕ, String, ◌≡◌, ◌⊎◌, inl, inr, refl, ap, ◌∙◌, Option, none, some, arith, str_eq, eq_iff,
  if◌then◌else◌, Bool-cases, Option-cases,
}
use quorvel.Ledger.{ActionStatus, InsertPendingInput}
use quorvel.Cloud.Actions.{
  StoredAction, Actions, get_action, insert_row, TransitionPatch, patch_row, apply_transition,
  EventKind,
}
use quorvel.Cloud.Table.{same_key, get_action-insert_row, get_action-apply_transition}
use quorvel.Cloud.Lifecycle.{
  may_become, ServiceDeps, Cloud, publish, reconcile_usage, transition, insert_pending,
  insert_reserved, after_reserve, reserve_slot, transition_row,
}

-- the table after a transition, by the row that is found
abbrev pub moved : ℕ → String → String → TransitionPatch → Option StoredAction → Actions → Actions
moved now org key patch none s = s
moved now org key patch (some r) s =
    if may_become r.action.status patch.status then apply_transition now org key patch s else s

module _ (deps : ServiceDeps) where
  pub actions-publish :
      (kind : EventKind) (org key : String) (w : Cloud)
      → (publish deps kind org key w).actions ≡ w.actions
  unfolding publish
  actions-publish kind org key w = ground arith

  pub actions-reconcile_usage :
      (now : ℕ) (org : String) (from to : ActionStatus) (w : Cloud)
      → (reconcile_usage deps now org from to w).actions ≡ w.actions
  unfolding reconcile_usage
  actions-reconcile_usage now org from to w = ground arith

  actions-transition_row :
      (now : ℕ) (org key : String) (patch : TransitionPatch) (o : Option StoredAction) (w : Cloud)
      → (transition_row deps now org key patch o w).1.actions ≡ moved now org key patch o w.actions
  unfolding transition_row
  actions-transition_row now org key patch none w = refl
  actions-transition_row now org key patch (some r) w =
      let s = record w { actions = apply_transition now org key patch w.actions } in
      elim (Bool-cases (may_become r.action.status patch.status)) [
        | inl e ↦ rw e (
            actions-publish EventKind.transitioned org key
              (reconcile_usage deps now org r.action.status patch.status s)
            ∙ actions-reconcile_usage now org r.action.status patch.status s)
        | inr e ↦ rw e refl
      ]

  pub actions-transition :
      (now : ℕ) (org key : String) (patch : TransitionPatch) (w : Cloud)
      → (transition deps now org key patch w).1.actions
        ≡ moved now org key patch (get_action org key w.actions) w.actions
  unfolding transition
  actions-transition now org key patch w =
      actions-transition_row now org key patch (get_action org key w.actions) w

  actions-insert_reserved :
      (now : ℕ) (org : String) (input : InsertPendingInput) (w : Cloud)
      → (insert_reserved deps now org input w).1.actions ≡ (insert_row now org input w.actions).1
  unfolding insert_reserved
  actions-insert_reserved now org input w = ground (
    arith,
    actions-publish EventKind.created org input.idempotency_key
        (record w { actions = (insert_row now org input w.actions).1 }),
  )

  pub actions-insert_pending :
      (now : ℕ) (org : String) (input : InsertPendingInput) (w : Cloud)
      → ((insert_pending deps now org input w).1.actions ≡ w.actions)
        ⊎ ((insert_pending deps now org input w).1.actions ≡ (insert_row now org input w.actions).1)
  unfolding insert_pending after_reserve
  actions-insert_pending now org input w = elim (Bool-cases (str_eq input.tool "")) [
    | inl e ↦ inl (rw e refl)
    | inr e ↦ elim (Option-cases deps.plans) [
      | inl p ↦ inr (rw (e, p) (actions-insert_reserved now org input w))
      | inr (plans, p) ↦
          let (verdict, w1) = reserve_slot deps plans now org w in
          elim (Bool-cases verdict.allowed) [
            | inl a ↦ inr (rw (e, p, a) (actions-insert_reserved now org input w1))
            | inr a ↦ inl (rw (e, p, a) refl)
          ]
    ]
  ]

-- What a transition makes of the row that it finds.
abbrev pub moved_row : ℕ → TransitionPatch → Option StoredAction → Option StoredAction
moved_row now patch none = none
moved_row now patch (some r) =
    some (if may_become r.action.status patch.status then patch_row now patch r else r)

get_action-moved :
    (now : ℕ) (org key o k : String) (patch : TransitionPatch) (found : Option StoredAction)
    (s : Actions)
    → get_action org key s ≡ found
    → get_action o k (moved now org key patch found s)
      ≡ (if same_key org key o k then moved_row now patch (get_action o k s) else get_action o k s)
get_action-moved now org key o k patch none s f = ground (arith, f, eq_iff org o, eq_iff key k)
get_action-moved now org key o k patch (some r) s f =
    ground
      (arith, f, get_action-apply_transition now org key o k patch s, eq_iff org o, eq_iff key k)

module _ (deps : ServiceDeps) (o k : String) where
  -- The row of one key after a transition of any key.
  pub get_action-transition :
      (now : ℕ) (org key : String) (patch : TransitionPatch) (w : Cloud)
      → get_action o k (transition deps now org key patch w).1.actions ≡ (
          if same_key org key o k
          then moved_row now patch (get_action o k w.actions)
          else get_action o k w.actions)
  get_action-transition now org key patch w =
      ap (get_action o k) (actions-transition deps now org key patch w)
      ∙ get_action-moved now org key o k patch (get_action org key w.actions) w.actions refl

  -- An insertion keeps the row that is there.
  pub get_action-insert_pending :
      (now : ℕ) (org : String) (input : InsertPendingInput) (w : Cloud) (r : StoredAction)
      → get_action o k w.actions ≡ some r
      → get_action o k (insert_pending deps now org input w).1.actions ≡ some r
  get_action-insert_pending now org input w r h =
      elim (actions-insert_pending deps now org input w) [
        | inl e ↦ rw e h
        | inr e ↦ rw (e, get_action-insert_row now org o k input w.actions, h) refl
      ]
