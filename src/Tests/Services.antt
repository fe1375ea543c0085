-- ===== src/Tests/Services.antt =====
-- resilience.ts, rateLimit.ts, queue.ts, billing.ts: short histories of each.
use quorvel.Common.{
  String, ℕ, ◌+◌, ◌-◌, ◌≡◌, refl, none, some, List, [], ◌∷◌, leb, All, arith, if◌then◌else◌,
}
use quorvel.Common.Dict.{lookup}
use quorvel.Breaker.{CircuitBreaker, new_breaker, opened, begins, succeeds, fails, perform_all}
use quorvel.Breaker.Safety.{
  IsWellFormed, IsOpen, perform_all-IsWellFormed, answers, IsRefused, answers-IsRefused,
}
use quorvel.Billing.{MemUsageStore, usage_key, get, plan_limit, allows_overage}
use quorvel.Billing.Quota
use quorvel.Billing.Quota.{reserves, releases, IsWithin, grants, perform_all-IsWithin}
use quorvel.RateLimit.{Bucket, FixedWindowRateLimiter}
use quorvel.RateLimit.Window.{Call, check_all, checks_of, allowed_of, least, check_all-allowed}
use quorvel.Queue.{RetryOptions, JobHandler, new_queue, process, drain}
use quorvel.Queue.Delivery.{letters, all_tries, enqueue_all, drain-delivers}

abbrev paddle : CircuitBreaker
paddle = new_breaker (record {
  name = "paddle";
  failure_threshold = some 2;
  cooldown_ms = none;
  success_threshold = none;
})

paddle-IsWellFormed : IsWellFormed paddle
unfolding new_breaker
paddle-IsWellFormed = record {
  can_fail = omega arith;
  can_succeed = omega arith;
  counts = omega arith;
}

perform_all-IsWellFormed_example :
    IsWellFormed
      (perform_all (fails 1 ∷ begins 2 ∷ fails 3 ∷ begins 40000 ∷ succeeds 40001 ∷ []) paddle)
perform_all-IsWellFormed_example =
    perform_all-IsWellFormed (fails 1 ∷ begins 2 ∷ fails 3 ∷ begins 40000 ∷ succeeds 40001 ∷ [])
      paddle paddle-IsWellFormed

abbrev broken : CircuitBreaker
broken = record {
  failure_threshold = 2;
  cooldown_ms = 100;
  success_threshold = 1;
  state = opened;
  failures = 2;
  successes = 0;
  opened_at = 10;
  changes = opened ∷ [];
}

broken-IsOpen : IsOpen 10 100 broken
broken-IsOpen = record { is_open = refl; is_since = refl; has_cooldown = refl }

answers-IsRefused_example :
    All IsRefused (answers (begins 11 ∷ succeeds 12 ∷ begins 109 ∷ []) broken)
    × IsOpen 10 100 (perform_all (begins 11 ∷ succeeds 12 ∷ begins 109 ∷ []) broken)
answers-IsRefused_example =
    answers-IsRefused 10 100 (begins 11 ∷ succeeds 12 ∷ begins 109 ∷ []) broken broken-IsOpen
      (omega arith, (omega arith, (omega arith, tt)))

abbrev bucket : Bucket
bucket = record { count = 1; reset_at = 100 }

abbrev limiter : FixedWindowRateLimiter
limiter = record { max = 2; window_ms = 60; hits = ("k", bucket) ∷ [] }

abbrev calls : List Call
calls = ("k", 50) ∷ ("j", 60) ∷ ("k", 70) ∷ []

check_all-allowed_example :
    allowed_of "k" calls (check_all calls limiter).0 ≡ least (checks_of "k" calls) (2 - 1)
unfolding lookup
check_all-allowed_example =
    check_all-allowed "k" calls limiter bucket refl (omega arith, (omega arith, (omega arith, tt)))

abbrev retries : RetryOptions
retries = record { attempts = 2; backoff_ms = 200 }

-- a handler that takes every job but 7, at the second attempt
abbrev takes_most : JobHandler ℕ
takes_most p n = if leb 2 n then (if leb 7 p then some "bad" else none) else some "busy"

drain-delivers_example :
    let q =
      drain (
        enqueue_all (3 ∷ []) (process takes_most (enqueue_all (7 ∷ 1 ∷ []) (new_queue retries)))) in
    (q.dead ≡ letters retries takes_most (7 ∷ 1 ∷ 3 ∷ []))
    × (q.handled ≡ all_tries retries takes_most (7 ∷ 1 ∷ 3 ∷ []))
    × (q.pending ≡ [])
    × (q.scheduled ≡ [])
drain-delivers_example = drain-delivers retries takes_most (7 ∷ 1 ∷ []) (3 ∷ [])

abbrev used_up : MemUsageStore
used_up = (usage_key "org" "2026-01", record { added = 999; removed = 0 }) ∷ []

abbrev free_plan : String → String
free_plan org = "free"

perform_all-IsWithin_example :
    let s =
      Quota.perform_all free_plan "org" "2026-01" (reserves ∷ reserves ∷ releases ∷ []) used_up in
    IsWithin 1000 (get "org" "2026-01" s)
    × ((get "org" "2026-01" s).added + 0 + 1
        ≡ 999
          + (get "org" "2026-01" s).removed
          + grants free_plan "org" "2026-01" (reserves ∷ reserves ∷ releases ∷ []) used_up)
unfolding plan_limit allows_overage lookup
perform_all-IsWithin_example =
    perform_all-IsWithin free_plan "org" "2026-01" 1000 (reserves ∷ reserves ∷ releases ∷ [])
      used_up refl refl (omega arith)
