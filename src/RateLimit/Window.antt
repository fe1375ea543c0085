-- ===== src/RateLimit/Window.antt =====
-- rateLimit.ts, `check`: how many calls of a key pass within one window.
use quorvel.Common.{
  ℕ, suc, ◌-◌, ◌<◌, String, ◌≡◌, refl, some, List, [], ◌∷◌, arith, str_eq, eq_iff, leb, All,
  if◌then◌else◌, Bool-cases, inl, inr,
}
use quorvel.Common.Dict.{lookup, lookup-insert}
use quorvel.RateLimit.{Bucket, RateLimitResult, FixedWindowRateLimiter, current, counted, check}

abbrev pub Call : Type 0
Call = String × ℕ

-- A history of checks, each of which is answered and leaves its state to the next.
unfoldable pub check_all :
    List Call → FixedWindowRateLimiter → List RateLimitResult × FixedWindowRateLimiter
check_all [] l = ([], l)
check_all ((key, now) ∷ calls) l =
    let (r, l1) = check key now l in let (rs, l2) = check_all calls l1 in (r ∷ rs, l2)

-- how many checks of a key there are, and how many of them were allowed
abbrev pub checks_of : String → List Call → ℕ
checks_of key [] = 0
checks_of key ((k, now) ∷ calls) =
    if str_eq k key then suc (checks_of key calls) else checks_of key calls

abbrev pub allowed_of : String → List Call → List RateLimitResult → ℕ
allowed_of key ((k, now) ∷ calls) (r ∷ rs) =
    if str_eq k key
    then (if r.allowed then suc (allowed_of key calls rs) else allowed_of key calls rs)
    else allowed_of key calls rs
allowed_of key _ _ = 0

abbrev pub least : ℕ → ℕ → ℕ
least a b = if leb a b then a else b

lookup-check :
    (key j : String) (now : ℕ) (l : FixedWindowRateLimiter)
    → lookup j (check key now l).1.hits ≡ (
        if str_eq key j
        then some (counted (current l now (lookup key l.hits)))
        else lookup j l.hits)
unfolding check
lookup-check key j now l = lookup-insert key j (counted (current l now (lookup key l.hits))) l.hits

-- A check of a key whose window lasts counts in its bucket.
check_self :
    (key : String) (now : ℕ) (l : FixedWindowRateLimiter) (b : Bucket)
    → lookup key l.hits ≡ some b
    → now < b.reset_at
    → ((check key now l).0.allowed ≡ leb (suc b.count) l.max)
      × (lookup key (check key now l).1.hits ≡ some (counted b))
unfolding check
check_self key now l b h lt =
    (ground (arith, h), ground (arith, lookup-check key key now l, h, eq_iff key key))

max-check : (key : String) (now : ℕ) (l : FixedWindowRateLimiter) → (check key now l).1.max ≡ l.max
unfolding check
max-check key now l = refl

-- While the window of a key's bucket lasts, through any history of checks of any keys, exactly as
-- many checks of the key are allowed as are left of the limit, or all of them if they are fewer.
pub check_all-allowed :
    (key : String) (calls : List Call) (l : FixedWindowRateLimiter) (b : Bucket)
    → lookup key l.hits ≡ some b
    → All (λ c. c.1 < b.reset_at) calls
    → allowed_of key calls (check_all calls l).0 ≡ least (checks_of key calls) (l.max - b.count)
unfolding check_all
check_all-allowed key [] l b h all = ground arith
check_all-allowed key ((k, now) ∷ calls) l b h (lt, all) = elim (Bool-cases (str_eq k key)) [
  | inl e ↦ ground (
    arith,
    eq_iff k key,
    check_self key now l b h lt,
    max-check key now l,
    check_all-allowed key calls (check key now l).1 (counted b),
  )
  | inr e ↦ ground (
    arith,
    lookup-check k key now l,
    max-check k now l,
    check_all-allowed key calls (check k now l).1 b,
  )
]
