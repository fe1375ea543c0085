-- ===== src/Billing/Quota.antt =====
-- billing.ts, `reserve` and `release`: the counter of an organisation against the limit of its plan.
use quorvel.Common.{
  ℕ, suc, ◌+◌, ◌≤◌, String, ◌≡◌, false, some, List, [], ◌∷◌, arith, eq_iff, ltb, if◌then◌else◌,
}
use quorvel.Common.Dict.{insert, lookup-insert}
use quorvel.Billing.{
  plan_limit, allows_overage, Count, MemUsageStore, usage_key, get, up, down, reserve, release,
}

pub data MeterEvent : Type 0 where
  reserves releases : MeterEvent

-- The counter is at most the limit.
abbrev pub IsWithin : ℕ → Count → Type 0
IsWithin limit c = c.added ≤ limit + c.removed

module _ (plans : String → String) (org period : String) where
  unfoldable pub perform : MeterEvent → MemUsageStore → MemUsageStore
  perform reserves s = (reserve plans org period s).1
  perform releases s = release org period s

  unfoldable pub perform_all : List MeterEvent → MemUsageStore → MemUsageStore
  perform_all [] s = s
  perform_all (e ∷ es) s = perform_all es (perform e s)

  -- how many reservations a history grants, and how many releases it has
  unfoldable pub grants : List MeterEvent → MemUsageStore → ℕ
  grants [] s = 0
  grants (reserves ∷ es) s =
      let more = grants es (perform reserves s) in
      if (reserve plans org period s).0.allowed then suc more else more
  grants (releases ∷ es) s = grants es (perform releases s)

  abbrev pub releases_in : List MeterEvent → ℕ
  releases_in [] = 0
  releases_in (reserves ∷ es) = releases_in es
  releases_in (releases ∷ es) = suc (releases_in es)

  pub get-insert :
      (c : Count) (s : MemUsageStore) → get org period (insert (usage_key org period) c s) ≡ c
  get-insert c s = ground (
    arith,
    lookup-insert (usage_key org period) (usage_key org period) c s,
    eq_iff (usage_key org period) (usage_key org period),
  )

  pub reserve_lem :
      (limit : ℕ) (s : MemUsageStore)
      → plan_limit (plans org) ≡ some limit
      → allows_overage (plans org) ≡ false
      → let c = get org period s in
        let c' = get org period (reserve plans org period s).1 in
        ((reserve plans org period s).0.allowed ≡ ltb c.added (limit + c.removed))
        × (c' ≡ (if ltb c.added (limit + c.removed) then up c else down (up c)))
  unfolding reserve
  reserve_lem limit s h k =
      let claimed = insert (usage_key org period) (up (get org period s)) s in
      ground (
        arith,
        h,
        k,
        get-insert (up (get org period s)) s,
        get-insert (down (get org period claimed)) claimed,
      )

  pub release_lem :
      (s : MemUsageStore) → get org period (release org period s) ≡ down (get org period s)
  unfolding release
  release_lem s = get-insert (down (get org period s)) s

  -- An organisation whose plan has a limit and no overage never goes over it: through any history of
  -- reservations and releases from a counter within the limit, the counter stays within it, and it
  -- has grown by exactly the reservations that were granted, less the releases.
  pub perform_all-IsWithin :
      (limit : ℕ) (es : List MeterEvent) (s : MemUsageStore)
      → plan_limit (plans org) ≡ some limit
      → allows_overage (plans org) ≡ false
      → IsWithin limit (get org period s)
      → let c = get org period s in
        let c' = get org period (perform_all es s) in
        IsWithin limit c'
        × (c'.added + c.removed + releases_in es ≡ c.added + c'.removed + grants es s)
  unfolding perform_all grants perform
  perform_all-IsWithin limit [] s h k w = (w, omega arith)
  perform_all-IsWithin limit (reserves ∷ es) s h k w =
      ground
        (arith, reserve_lem limit s h k, perform_all-IsWithin limit es (perform reserves s) h k)
  perform_all-IsWithin limit (releases ∷ es) s h k w =
      ground (arith, release_lem s, perform_all-IsWithin limit es (perform releases s) h k)
