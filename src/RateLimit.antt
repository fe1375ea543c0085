-- ===== src/RateLimit.antt =====
-- apps/api/src/rateLimit.ts, `FixedWindowRateLimiter`: one bucket of hits for each key.
pub mod Window
use quorvel.Common.{
  ℕ, ◌+◌, ◌-◌, String, Bool, true, false, Option, none, some, List, [], ◌∷◌, leb, select, length,
  not, if◌then◌else◌,
}
use quorvel.Common.Dict.{Dict, lookup, insert}

pub record RateLimitResult : Type 0 where
  pub allowed : Bool
  pub limit : ℕ
  pub remaining : ℕ
  pub reset_ms : ℕ

pub record Bucket : Type 0 where
  pub count : ℕ
  pub reset_at : ℕ

pub record FixedWindowRateLimiter : Type 0 where
  pub max : ℕ
  pub window_ms : ℕ
  pub hits : Dict Bucket

-- the bucket that a check counts in: a missing one, and one whose window is over, start anew
abbrev pub current : FixedWindowRateLimiter → ℕ → Option Bucket → Bucket
current l now none = record { count = 0; reset_at = now + l.window_ms }
current l now (some b) =
    if leb b.reset_at now then record { count = 0; reset_at = now + l.window_ms } else b

-- `bucket.count++`
abbrev pub counted : Bucket → Bucket
counted b = record b { count = b.count + 1 }

abbrev pub result_of : FixedWindowRateLimiter → ℕ → Bucket → RateLimitResult
result_of l now b = record {
  allowed = leb b.count l.max;
  limit = l.max;
  remaining = l.max - b.count;
  reset_ms = b.reset_at - now;
}

unfoldable pub check :
    String → ℕ → FixedWindowRateLimiter → RateLimitResult × FixedWindowRateLimiter
check key now l =
    let b = counted (current l now (lookup key l.hits)) in
    (result_of l now b, record l { hits = insert key b l.hits })

-- expired buckets are dropped
unfoldable pub sweep : ℕ → FixedWindowRateLimiter → FixedWindowRateLimiter
sweep now l = record l { hits = select (λ e. not (leb e.1.reset_at now)) l.hits }

abbrev pub size : FixedWindowRateLimiter → ℕ
size l = length l.hits
