-- ===== src/Billing.antt =====
-- apps/api/src/billing.ts: plans, the in-memory usage store and `UsageMeter`. A counter is an
-- integer, kept as what was added and what was removed, so that a release without a reservation goes
-- below zero as it does there. An infinite limit is `none`. The plan of an organisation is looked up
-- by a parameter, and the billing period is given, as `currentPeriod` reads it from the clock.
pub mod Quota
use Prim.Native.String
use quorvel.Common.{
  ℕ, ◌+◌, ◌-◌, ◌*◌, String, Bool, true, false, not, ◌&&◌, Option, none, some, ◌≡◌, refl, get_or,
  str_eq, leb, ltb, ◌==◌, if◌then◌else◌,
}
use quorvel.Common.Decimal.{decimal}
use quorvel.Common.Dict.{Dict, lookup, insert}

infixr 65 ◌&◌
abbrev ◌&◌ : String → String → String
a & b = String.◌++◌ a b

-- `PLANS`, where a plan that is not listed counts as free
unfoldable pub plan_limit : String → Option ℕ
plan_limit plan =
    if str_eq plan "pro" then some 100000 else if str_eq plan "scale" then none else some 1000

-- `planFeatures(plan).allowOverage`
unfoldable pub allows_overage : String → Bool
allows_overage plan = if str_eq plan "pro" then true else str_eq plan "scale"

pub record Count : Type 0 where
  pub added : ℕ
  pub removed : ℕ

abbrev pub zero_count : Count
zero_count = record { added = 0; removed = 0 }

abbrev pub MemUsageStore : Type 0
MemUsageStore = Dict Count

abbrev pub usage_key : String → String → String
usage_key org period = org & "\0" & period

abbrev pub get : String → String → MemUsageStore → Count
get org period s = get_or (lookup (usage_key org period) s) zero_count

-- `increment` by 1 and by -1
abbrev pub up : Count → Count
up c = record c { added = c.added + 1 }

abbrev pub down : Count → Count
down c = record c { removed = c.removed + 1 }

abbrev pub increment : (Count → Count) → String → String → MemUsageStore → Count × MemUsageStore
increment by org period s =
    let next = by (get org period s) in (next, insert (usage_key org period) next s)

pub record UsageVerdict : Type 0 where
  pub allowed : Bool
  pub reason : Option String

abbrev pub granted : UsageVerdict
granted = record { allowed = true; reason = none }

abbrev pub quota_reached : ℕ → String → UsageVerdict
quota_reached limit plan = record {
  allowed = false;
  reason = some ("monthly quota of " & decimal limit & " reached for plan " & plan);
}

-- `used >= limit` and `next > limit`, on a counter
abbrev pub reaches : Count → ℕ → Bool
reaches c limit = leb (limit + c.removed) c.added

abbrev pub exceeds : Count → ℕ → Bool
exceeds c limit = ltb (limit + c.removed) c.added

check_limit : Option ℕ → String → Count → UsageVerdict
check_limit none plan used = granted
check_limit (some limit) plan used =
    if reaches used limit then quota_reached limit plan else granted

unfoldable pub check : (String → String) → String → String → MemUsageStore → UsageVerdict
unfolding check_limit
check plans org period s = check_limit (plan_limit (plans org)) (plans org) (get org period s)

reserve_limit :
    Option ℕ → String → String → String → Count × MemUsageStore → UsageVerdict × MemUsageStore
reserve_limit none plan org period (next, s) = (granted, s)
reserve_limit (some limit) plan org period (next, s) =
    if exceeds next limit && not (allows_overage plan)
    then (quota_reached limit plan, (increment down org period s).1)
    else (granted, s)

-- a slot is claimed first, and given back if it is over the limit
unfoldable pub reserve :
    (String → String) → String → String → MemUsageStore → UsageVerdict × MemUsageStore
unfolding reserve_limit
reserve plans org period s =
    reserve_limit (plan_limit (plans org)) (plans org) org period (increment up org period s)

unfoldable pub release : String → String → MemUsageStore → MemUsageStore
release org period s = (increment down org period s).1
