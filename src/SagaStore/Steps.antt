-- ===== src/SagaStore/Steps.antt =====
-- saga-store.ts: the status of a step in the table of steps, and what `getSteps` keeps of the table.
use quorvel.Common.{
  ℕ, String, ◌≡◌, refl, ◌∙◌, Bool, true, false, ◌&&◌, ◌||◌, Option, none, some, List, [], ◌∷◌,
  arith, str_eq, eq_iff, select, find, if◌then◌else◌,
}
use quorvel.Common.Sorting.{insert_by, sort_by}
use quorvel.SagaStore.{SagaStepStatus, SagaStepRecord, Sagas, same_step, upsert_step, get_steps}

abbrev pub status_of : Option SagaStepRecord → Option SagaStepStatus
status_of none = none
status_of (some r) = some r.status

-- the status of the step of a saga with an index, if it is recorded
abbrev pub status_at : String → ℕ → List SagaStepRecord → Option SagaStepStatus
status_at id i rs = status_of (find (same_step id i) rs)

pub status_at-upsert_step :
    (id : String) (i : ℕ) (new : SagaStepRecord) (rs : List SagaStepRecord)
    → status_at id i (upsert_step new rs)
      ≡ (if same_step id i new then some new.status else status_at id i rs)
unfolding upsert_step
status_at-upsert_step id i new [] = ground arith
status_at-upsert_step id i new (r ∷ rs) = ground (
  arith,
  status_at-upsert_step id i new rs,
  eq_iff new.saga_id id,
  eq_iff r.saga_id id,
  eq_iff r.saga_id new.saga_id,
)

module _ {A : Type 0} where
  abbrev pub any : (A → Bool) → List A → Bool
  any p [] = false
  any p (x ∷ xs) = p x || any p xs

  any-insert_by :
      (before : A → A → Bool) (p : A → Bool) (x : A) (xs : List A)
      → any p (insert_by before x xs) ≡ (p x || any p xs)
  unfolding insert_by
  any-insert_by before p x [] = refl
  any-insert_by before p x (y ∷ ys) = ground (arith, any-insert_by before p x ys)

  pub any-sort_by :
      (before : A → A → Bool) (p : A → Bool) (xs : List A) → any p (sort_by before xs) ≡ any p xs
  unfolding sort_by
  any-sort_by before p [] = refl
  any-sort_by before p (x ∷ xs) =
      ground (arith, any-insert_by before p x (sort_by before xs), any-sort_by before p xs)

  pub any-select : (p q : A → Bool) (xs : List A) → any p (select q xs) ≡ any (λ x. q x && p x) xs
  any-select p q [] = refl
  any-select p q (x ∷ xs) = ground (arith, any-select p q xs)

  pub any-find :
      (p q : A → Bool) (xs : List A) (r : A)
      → find p xs ≡ some r
      → q r ≡ true
      → any (λ x. q x && p x) xs ≡ true
  any-find p q [] r h k = cc
  any-find p q (x ∷ xs) r h k = ground (arith, any-find p q xs r)

any-same_step :
    (id : String) (i : ℕ) (q : SagaStepRecord → Bool) (rs : List SagaStepRecord)
    → any (λ r. q r && same_step id i r) rs ≡ true
    → any (λ r. str_eq r.saga_id id && (q r && same_step id i r)) rs ≡ true
any-same_step id i q [] h = h
any-same_step id i q (r ∷ rs) h = ground (arith, any-same_step id i q rs)

-- A step of the saga that is in the table and passes a test is among the steps that `getSteps`
-- returns and the test keeps.
pub any-get_steps :
    (id : String) (i : ℕ) (q : SagaStepRecord → Bool) (s : Sagas) (r : SagaStepRecord)
    → find (same_step id i) s.steps ≡ some r
    → q r ≡ true
    → any (same_step id i) (select q (get_steps id s)) ≡ true
unfolding get_steps
any-get_steps id i q s r h k =
    any-select (same_step id i) q _
    ∙ any-sort_by _ (λ x. q x && same_step id i x) _
    ∙ any-select (λ x. q x && same_step id i x) (λ x. str_eq x.saga_id id) s.steps
    ∙ any-same_step id i q s.steps (any-find (same_step id i) q s.steps r h k)
