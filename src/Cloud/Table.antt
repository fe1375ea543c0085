-- ===== src/Cloud/Table.antt =====
-- store.ts: the table of actions, read by its two-part key.
use mathlib.Core.Option
use quorvel.Common.{
  ℕ, ◌+◌, String, ◌≡◌, Bool, true, false, ◌&&◌, none, some, [], ◌∷◌, ◌++◌, arith, str_eq, eq_iff,
  find-append, or_else, if◌then◌else◌, Bool-cases, inl, inr,
}
use quorvel.Ledger.{InsertPendingInput}
use quorvel.Ledger.InMemory.{is_counting}
use quorvel.Cloud.Actions.{
  StoredAction, Actions, same_action, get_action, new_action, insert_row, TransitionPatch,
  patch_row, apply_transition,
}

-- Whether two keys of the table are the same.
abbrev pub same_key : String → String → String → String → Bool
same_key o k org key = str_eq o org && str_eq k key

pub get_action-insert_row :
    (now : ℕ) (org o k : String) (input : InsertPendingInput) (s : Actions)
    → get_action o k (insert_row now org input s).1
      ≡ or_else
          (get_action o k s)
          (if same_key org input.idempotency_key o k then some (new_action now org input) else none)
unfolding get_action insert_row
get_action-insert_row now org o k input s = ground (
  arith,
  find-append (same_action o k) s (new_action now org input),
  eq_iff org o,
  eq_iff input.idempotency_key k,
)

pub get_action-apply_transition :
    (now : ℕ) (org key o k : String) (patch : TransitionPatch) (s : Actions)
    → get_action o k (apply_transition now org key patch s) ≡ (
        if same_key org key o k
        then Option.map (patch_row now patch) (get_action o k s)
        else get_action o k s)
unfolding get_action apply_transition
get_action-apply_transition now org key o k patch [] = ground arith
get_action-apply_transition now org key o k patch (r ∷ rs) = ground (
  arith,
  get_action-apply_transition now org key o k patch rs,
  eq_iff org o,
  eq_iff key k,
  eq_iff r.org_id o,
  eq_iff r.org_id org,
  eq_iff r.action.idempotency_key k,
  eq_iff r.action.idempotency_key key,
)

-- How many actions of an organisation count toward its quota.
abbrev pub counting_rows : String → Actions → ℕ
counting_rows org [] = 0
counting_rows org (r ∷ rs) =
    (if str_eq r.org_id org && is_counting r.action.status then 1 else 0) + counting_rows org rs

abbrev pub weight : Bool → ℕ
weight true = 1
weight false = 0

counting_rows-append :
    (org : String) (s : Actions) (r : StoredAction)
    → counting_rows org (s ++ r ∷ [])
      ≡ counting_rows org s + (if str_eq r.org_id org && is_counting r.action.status then 1 else 0)
counting_rows-append org [] r = omega arith
counting_rows-append org (x ∷ s) r = omega (arith, counting_rows-append org s r)

pub counting_rows-insert_row :
    (now : ℕ) (org : String) (input : InsertPendingInput) (s : Actions)
    → counting_rows org (insert_row now org input s).1
      ≡ counting_rows org s + weight (insert_row now org input s).0.inserted
unfolding insert_row
counting_rows-insert_row now org input s =
    ground (arith, counting_rows-append org s (new_action now org input), eq_iff org org)

-- the change of one row of the organisation
weight_row :
    (now : ℕ) (org key : String) (patch : TransitionPatch) (x : StoredAction) (rest : ℕ)
    → same_action org key x ≡ true
    → (if str_eq x.org_id org && is_counting (patch_row now patch x).action.status then 1 else 0)
        + rest
        + weight (is_counting x.action.status)
      ≡ (if str_eq x.org_id org && is_counting x.action.status then 1 else 0)
        + rest
        + weight (is_counting patch.status)
weight_row now org key patch x rest h = ground arith

pub counting_rows-apply_transition :
    (now : ℕ) (org key : String) (patch : TransitionPatch) (s : Actions) (r : StoredAction)
    → get_action org key s ≡ some r
    → counting_rows org (apply_transition now org key patch s)
        + weight (is_counting r.action.status)
      ≡ counting_rows org s + weight (is_counting patch.status)
unfolding get_action apply_transition
counting_rows-apply_transition now org key patch [] r h = cc
counting_rows-apply_transition now org key patch (x ∷ s) r h =
    elim (Bool-cases (same_action org key x)) [
      | inl e ↦
          let found : some x ≡ some r = rw e at h in
          let same : x ≡ r = cc in
          rw (e, ← same) (weight_row now org key patch x (counting_rows org s) e)
      | inr e ↦
          let later : get_action org key s ≡ some r = rw e at h in
          rw e (omega (arith, counting_rows-apply_transition now org key patch s r later))
    ]
