-- ===== src/Cloud/Lifecycle/Timeline.antt =====
-- service.ts, events.ts: the events that are published of an action, against its row.
use quorvel.Common.{
  ℕ, String, ◌≡◌, ◌∙◌, refl, ap, inl, inr, true, false, Option, none, some, List, [], ◌∷◌, arith,
  str_eq, eq_iff, find-passes, Bool-cases, Option-cases,
}
use quorvel.Ledger.{ActionStatus, InsertPendingInput}
use quorvel.Cloud.Actions.{
  StoredAction, Actions, same_action, get_action, new_action, insert_row, TransitionPatch,
  patch_row, apply_transition, DomainEvent, EventKind, event_of,
}
use quorvel.Cloud.Table.{same_key, get_action-insert_row, get_action-apply_transition}
use quorvel.Cloud.Lifecycle.{
  may_become, ServiceDeps, Cloud, reserve_slot, publish, reconcile_usage, transition_row,
  transition, insert_reserved, after_reserve, insert_pending, patch_of, Call, inserts, marks, serve,
  serve_all,
}
use quorvel.Cloud.Lifecycle.Rows.{actions-reconcile_usage, actions-publish}
use quorvel.Cloud.Lifecycle.Paths.{timeline, is_told, IsTold, is_path-extend, untold, or_none}

-- the row of a key has that key
row_key :
    (o k : String) (s : Actions) (r : StoredAction)
    → get_action o k s ≡ some r
    → same_key r.org_id r.action.idempotency_key o k ≡ true
unfolding get_action
row_key o k s r h = find-passes (same_action o k) s r h

-- the same key in two parts
moved_key :
    (org key o k : String) (s : Actions)
    → same_key org key o k ≡ true
    → get_action o k s ≡ get_action org key s
moved_key org key o k s e =
    let same_org : org ≡ o = (eq_iff org o).0 (ground arith) in
    let same : key ≡ k = (eq_iff key k).0 (ground arith) in cc

-- `===` on the parts of a row's key
keys :
    (r : StoredAction) (org key : String)
    → (str_eq r.org_id org ≡ true → r.org_id ≡ org)
      × (str_eq r.action.idempotency_key key ≡ true → r.action.idempotency_key ≡ key)
keys r org key = (λ e. (eq_iff r.org_id org).0 e, λ e. (eq_iff r.action.idempotency_key key).0 e)

module _ (deps : ServiceDeps) (bus : deps.has_bus ≡ true) (o k : String) where
  published-reconcile_usage :
      (now : ℕ) (org : String) (from to : ActionStatus) (w : Cloud)
      → (reconcile_usage deps now org from to w).published ≡ w.published
  unfolding reconcile_usage
  published-reconcile_usage now org from to w = ground arith

  published-publish :
      (kind : EventKind) (org key : String) (w : Cloud) (r : StoredAction)
      → get_action org key w.actions ≡ some r
      → (publish deps kind org key w).published ≡ event_of kind r ∷ w.published
  unfolding publish
  published-publish kind org key w r h = rw (publish, bus, h) refl

  -- a legal transition of a row that is there, with its event
  told-moved :
      (now : ℕ) (org key : String) (patch : TransitionPatch) (r : StoredAction) (w : Cloud)
      → get_action org key w.actions ≡ some r
      → may_become r.action.status patch.status ≡ true
      → IsTold o k w
      → is_told
          (get_action o k (apply_transition now org key patch w.actions))
          (timeline o k (event_of EventKind.transitioned (patch_row now patch r) ∷ w.published))
        ≡ true
  told-moved now org key patch r w h m told =
      let mine = row_key org key w.actions r h in
      rw (get_action-apply_transition now org key o k patch w.actions)
        (elim (Bool-cases (same_key org key o k)) [
          | inl e ↦
              let here : same_key r.org_id r.action.idempotency_key o k ≡ true =
                ground (arith, mine, e, keys r org key) in
              let found : get_action o k w.actions ≡ some r =
                moved_key org key o k w.actions e ∙ h in
              rw (e, found, here)
                (is_path-extend r.action.status
                  (event_of EventKind.transitioned (patch_row now patch r))
                  (timeline o k w.published) (rw found at told) m refl)
          | inr e ↦
              let elsewhere : same_key r.org_id r.action.idempotency_key o k ≡ false =
                ground (arith, mine, e, keys r org key) in
              rw (e, elsewhere) told
        ])

  created_told :
      (now : ℕ) (org : String) (input : InsertPendingInput) (w : Cloud)
      → get_action org input.idempotency_key w.actions ≡ none
      → IsTold o k w
      → is_told
          (get_action o k (insert_row now org input w.actions).1)
          (timeline o k (event_of EventKind.created (new_action now org input) ∷ w.published))
        ≡ true
  created_told now org input w h told =
      rw (get_action-insert_row now org o k input w.actions)
        (elim (Bool-cases (same_key org input.idempotency_key o k)) [
          | inl e ↦
              let found : get_action o k w.actions ≡ none =
                moved_key org input.idempotency_key o k w.actions e ∙ h in
              let empty : timeline o k w.published ≡ [] =
                untold (timeline o k w.published) (rw found at told) in
              rw (e, found, empty) refl
          | inr e ↦ rw e (or_none (get_action o k w.actions) (timeline o k w.published) told)
        ])

  IsTold-intro :
      (v : Cloud) (actions : Actions) (published : List DomainEvent)
      → v.actions ≡ actions
      → v.published ≡ published
      → is_told (get_action o k actions) (timeline o k published) ≡ true
      → IsTold o k v
  IsTold-intro v actions published a p h = rw (a, p) h

  transition_row-IsTold :
      (now : ℕ) (org key : String) (patch : TransitionPatch) (found : Option StoredAction)
      (w : Cloud)
      → get_action org key w.actions ≡ found
      → IsTold o k w
      → IsTold o k (transition_row deps now org key patch found w).1
  unfolding transition_row
  transition_row-IsTold now org key patch none w h told = told
  transition_row-IsTold now org key patch (some r) w h told =
      let from = r.action.status in
      let s = record w { actions = apply_transition now org key patch w.actions } in
      let t = reconcile_usage deps now org from patch.status s in
      let same = actions-reconcile_usage deps now org from patch.status s in
      let row : get_action org key t.actions ≡ some (patch_row now patch r) =
        ap (get_action org key) same
        ∙ get_action-apply_transition now org key org key patch w.actions
        ∙ ground (arith, h, eq_iff org org, eq_iff key key) in
      elim (Bool-cases (may_become from patch.status)) [
        | inr m ↦ rw m told
        | inl m ↦ rw m (
            IsTold-intro (publish deps EventKind.transitioned org key t) s.actions
              (event_of EventKind.transitioned (patch_row now patch r) ∷ w.published)
              (actions-publish deps EventKind.transitioned org key t ∙ same)
              (published-publish EventKind.transitioned org key t (patch_row now patch r) row
                ∙ ap (λ l. event_of EventKind.transitioned (patch_row now patch r) ∷ l)
                    (published-reconcile_usage now org from patch.status s))
              (told-moved now org key patch r w h m told))
      ]

  created-IsTold :
      (now : ℕ) (org : String) (input : InsertPendingInput) (w : Cloud)
      → get_action org input.idempotency_key w.actions ≡ none
      → IsTold o k w
      → let s = record w { actions = (insert_row now org input w.actions).1 } in
        IsTold o k (publish deps EventKind.created org input.idempotency_key s)
  created-IsTold now org input w h told =
      let s = record w { actions = (insert_row now org input w.actions).1 } in
      let row : get_action org input.idempotency_key s.actions ≡ some (new_action now org input) =
        get_action-insert_row now org org input.idempotency_key input w.actions
        ∙ ground (arith, h, eq_iff org org, eq_iff input.idempotency_key input.idempotency_key) in
      IsTold-intro (publish deps EventKind.created org input.idempotency_key s) s.actions
        (event_of EventKind.created (new_action now org input) ∷ w.published)
        (actions-publish deps EventKind.created org input.idempotency_key s)
        (published-publish EventKind.created org input.idempotency_key s (new_action now org input)
          row)
        (created_told now org input w h told)

  insert_reserved-IsTold :
      (now : ℕ) (org : String) (input : InsertPendingInput) (w : Cloud)
      → IsTold o k w
      → IsTold o k (insert_reserved deps now org input w).1
  unfolding insert_reserved insert_row
  insert_reserved-IsTold now org input w told =
      elim (Option-cases (get_action org input.idempotency_key w.actions)) [
        | inl h ↦
            let inserted : (insert_row now org input w.actions).0.inserted ≡ true =
              rw (insert_row, h) refl in
            rw (insert_reserved, inserted) (created-IsTold now org input w h told)
        | inr (r, h) ↦
            let kept : insert_row now org input w.actions
                ≡ (record { inserted = false; existing = some r.action }, w.actions) =
              rw (insert_row, h) refl in
            rw (insert_reserved, kept)
              (elim (Option-cases deps.plans) [ inl p ↦ rw p told | inr (plans, p) ↦ rw p told ])
      ]

  insert_pending-IsTold :
      (now : ℕ) (org : String) (input : InsertPendingInput) (w : Cloud)
      → IsTold o k w
      → IsTold o k (insert_pending deps now org input w).1
  unfolding insert_pending after_reserve
  insert_pending-IsTold now org input w told = elim (Bool-cases (str_eq input.tool "")) [
    | inl e ↦ rw e told
    | inr e ↦ elim (Option-cases deps.plans) [
      | inl p ↦ rw (e, p) (insert_reserved-IsTold now org input w told)
      | inr (plans, p) ↦
          let (verdict, w1) = reserve_slot deps plans now org w in
          elim (Bool-cases verdict.allowed) [
            | inl a ↦ rw (e, p, a) (insert_reserved-IsTold now org input w1 told)
            | inr a ↦ rw (e, p, a) told
          ]
    ]
  ]

  serve-IsTold : (c : Call) (w : Cloud) → IsTold o k w → IsTold o k (serve deps c w)
  unfolding serve transition
  serve-IsTold (inserts now org input) w told = insert_pending-IsTold now org input w told
  serve-IsTold (marks now org key mark) w told =
      transition_row-IsTold now org key (patch_of mark) (get_action org key w.actions) w refl told

  -- With a bus, through any history of insertions and transitions by any organisations, the events
  -- that were published of an action are one of its creation and then transitions alone, all of them
  -- legal, that lead to the status that its row has; and of an action that is not there none was
  -- published, if that is so at the start.
  pub serve_all-IsTold :
      (cs : List Call) (w : Cloud) → IsTold o k w → IsTold o k (serve_all deps cs w)
  unfolding serve_all
  serve_all-IsTold [] w told = told
  serve_all-IsTold (c ∷ cs) w told = serve_all-IsTold cs (serve deps c w) (serve-IsTold c w told)
