-- ===== src/Cloud/Requests/Bound.antt =====
-- service.ts, `withIdempotency`: how often it calls itself, and what it comes to with no recursion.
use quorvel.Common.{
  ℕ, suc, ◌+◌, String, ◌≡◌, inl, inr, refl, none, some, List, arith, str_eq, ltb, if◌then◌else◌,
  Option-cases,
}
use quorvel.Cloud.Requests.{
  IdempotencyRecord, Request, Handled, Requests, row_at, claim_row, claim, delete_idempotency,
  idem_fingerprint, Reply, response, refused, key_reuse, in_progress, run_claimed, taken,
  with_idempotency,
}
use quorvel.Cloud.Requests.Rows.{row_at-freed}

module _ (sha256 : List ℕ → String) (stale_ms now : ℕ) (org key : String) (req : Request)
    (h : Handled) where
  abbrev pub fingerprint : String
  fingerprint = idem_fingerprint sha256 req

  -- the key is claimed, and the handler runs
  abbrev pub fresh : Requests → Reply × Requests
  fresh w = run_claimed org key h (claim (claim_row now org key fingerprint req) w)

  -- A stored response is given again if the request is the same. A claim with no response lets a
  -- request in only when it is older than the window.
  abbrev pub reply_to_row : IdempotencyRecord → Requests → Reply × Requests
  reply_to_row r w =
      if str_eq r.fingerprint fingerprint
      then elim r.status_code [
        | none ↦
            if ltb (r.created_at + stale_ms) now
            then fresh (delete_idempotency org key w)
            else (refused in_progress, w)
        | some status ↦ (response status r.response_body, w)
      ]
      else (refused key_reuse, w)

  abbrev pub reply_to : Requests → Reply × Requests
  reply_to w = elim (row_at org key w.rows) [ none ↦ fresh w | some r ↦ reply_to_row r w ]

  again :
      (depth : ℕ) (w : Requests)
      → with_idempotency sha256 stale_ms
          (suc depth)
          now
          org
          key
          req
          h
          (delete_idempotency org key w)
        ≡ some (fresh (delete_idempotency org key w))
  unfolding with_idempotency
  again depth w = rw (with_idempotency, row_at-freed org key w) refl

  taken_lem :
      (depth : ℕ) (r : IdempotencyRecord) (w : Requests)
      → taken sha256 stale_ms now org key fingerprint r w
          (λ w'. with_idempotency sha256 stale_ms (suc depth) now org key req h w')
        ≡ some (reply_to_row r w)
  taken_lem depth r w = ground (arith, again depth w)

  -- `withIdempotency` calls itself once at most: two levels are enough for every table, and the
  -- request then comes to `reply_to`, which has no recursion.
  pub with_idempotency-reply_to :
      (depth : ℕ) (w : Requests)
      → with_idempotency sha256 stale_ms (suc (suc depth)) now org key req h w ≡ some (reply_to w)
  unfolding with_idempotency
  with_idempotency-reply_to depth w = elim (Option-cases (row_at org key w.rows)) [
    | inl e ↦ rw (with_idempotency, reply_to, e) refl
    | inr (r, e) ↦ rw (with_idempotency, reply_to, e) (taken_lem depth r w)
  ]
