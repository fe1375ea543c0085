-- ===== src/SagaStore.antt =====
-- packages/core/src/saga-store.ts: the records of sagas and of their steps, and the in-memory store.
-- The `Map` of steps is a list of records: its text key `id#index` determines both parts.
pub mod Steps
use quorvel.Common.{
  ℕ, String, Bool, true, false, ◌&&◌, Option, none, some, List, [], ◌∷◌, str_eq, leb, ◌==◌, select,
  limited, or_else, if◌then◌else◌,
}
use quorvel.Common.Dict.{Dict, lookup, insert, modify, values}
use quorvel.Common.Sorting.{sort_by}
use quorvel.Value.{Value}

pub data SagaStatus : Type 0 where
  running awaiting_step succeeded compensating compensated compensation_failed : SagaStatus

pub data SagaStepStatus : Type 0 where
  pending succeeded compensated compensation_failed : SagaStepStatus

pub record SagaRecord : Type 0 where
  pub saga_id : String
  pub name : String
  pub status : SagaStatus
  pub input : Value
  pub current_step : ℕ
  pub failed_step : Option String
  pub error : Option String
  pub created_at : ℕ
  pub updated_at : ℕ

pub record SagaStepRecord : Type 0 where
  pub saga_id : String
  pub step_index : ℕ
  pub name : String
  pub status : SagaStepStatus
  pub output : Option Value
  pub error : Option String

pub record CreateSagaResult : Type 0 where
  pub created : Bool
  pub existing : Option SagaRecord

pub record Sagas : Type 0 where
  pub sagas : Dict SagaRecord
  pub steps : List SagaStepRecord

unfoldable pub get_saga : String → Sagas → Option SagaRecord
get_saga id s = lookup id s.sagas

create_unless : ℕ → String → String → Value → Sagas → Option SagaRecord → CreateSagaResult × Sagas
create_unless now id name input s (some r) = (record { created = false; existing = some r }, s)
create_unless now id name input s none = (
  record { created = true; existing = none },
  record s {
    sagas =
        insert id
          (record {
            saga_id = id;
            name = name;
            status = running;
            input = input;
            current_step = 0;
            failed_step = none;
            error = none;
            created_at = now;
            updated_at = now;
          })
          s.sagas;
  },
)

unfoldable pub create_saga : ℕ → String → String → Value → Sagas → CreateSagaResult × Sagas
unfolding create_unless
create_saga now id name input s = create_unless now id name input s (lookup id s.sagas)

-- the write of `setSagaStatus`: an option that is not given leaves its field
abbrev pub with_status : ℕ → SagaStatus → Option String → Option String → SagaRecord → SagaRecord
with_status now status failed_step error r = record r {
  status = status;
  failed_step = or_else failed_step r.failed_step;
  error = or_else error r.error;
  updated_at = now;
}

unfoldable pub set_saga_status :
    ℕ → String → SagaStatus → Option String → Option String → Sagas → Sagas
set_saga_status now id status failed_step error s = record s {
  sagas = modify id (with_status now status failed_step error) s.sagas;
}

unfoldable pub set_current_step : ℕ → String → ℕ → Sagas → Sagas
set_current_step now id i s = record s {
  sagas = modify id (λ r. record r { current_step = i; updated_at = now }) s.sagas;
}

abbrev pub same_step : String → ℕ → SagaStepRecord → Bool
same_step id i r = str_eq r.saga_id id && r.step_index == i

unfoldable pub upsert_step : SagaStepRecord → List SagaStepRecord → List SagaStepRecord
upsert_step new [] = new ∷ []
upsert_step new (r ∷ rs) =
    if same_step new.saga_id new.step_index r then new ∷ rs else r ∷ upsert_step new rs

unfoldable pub record_step : SagaStepRecord → Sagas → Sagas
unfolding upsert_step
record_step new s = record s { steps = upsert_step new s.steps }

unfoldable pub get_steps : String → Sagas → List SagaStepRecord
get_steps id s =
    sort_by (λ a b. leb a.step_index b.step_index) (select (λ r. str_eq r.saga_id id) s.steps)

abbrev eq_status : SagaStatus → SagaStatus → Bool
eq_status running running = true
eq_status awaiting_step awaiting_step = true
eq_status succeeded succeeded = true
eq_status compensating compensating = true
eq_status compensated compensated = true
eq_status compensation_failed compensation_failed = true
eq_status _ _ = false

unfoldable pub list_by_status : SagaStatus → Option ℕ → Sagas → List SagaRecord
list_by_status status limit s = limited limit (
    sort_by (λ a b. leb a.created_at b.created_at)
      (select (λ r. eq_status r.status status) (values s.sagas)))
