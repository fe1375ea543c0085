-- ===== src/Cloud/Requests/Replay.antt =====
-- service.ts, `withIdempotency`: the response that is stored for a key is the response of the key.
use quorvel.Common.{
  ◌∷◌, ap, ◌∙◌, true, ℕ, suc, String, ◌≡◌, refl, false, none, some, List, arith, str_eq, eq_iff,
  if◌then◌else◌,
}
use quorvel.Value.{Value}
use quorvel.Cloud.Actions.{args_or_null}
use quorvel.Cloud.Requests.Fingerprint.{canonical_text, same_request, same_fingerprint}
use quorvel.Cloud.Table.{same_key}
use quorvel.Cloud.Requests.{
  IdempotencyRecord, Request, Handled, responds, claim, claim_row, answered, is_success, Requests,
  row_at, idem_fingerprint, response, refused, key_reuse, with_idempotency,
}
use quorvel.Cloud.Requests.Rows.{row_at-claim, row_at-delete_idempotency, row_at-run_claimed}
use quorvel.Cloud.Requests.History.{
  Event, asks, happen, happen_all, IsPending, IsKept, happen_all-keeps,
}

module _ (o k : String) (r : IdempotencyRecord) (status : ℕ)
    (done : r.status_code ≡ some status) where
  abbrev pub IsStored : Requests → Type 0
  IsStored w = row_at o k w.rows ≡ some r

  -- a pending key is another key
  not_pending :
      (org key : String) (w : Requests)
      → IsPending org key w
      → IsStored w
      → same_key org key o k ≡ false
  not_pending org key w (p, f, s) h = ground (arith, done, eq_iff org o, eq_iff key k)

  not_free :
      (org key : String) (w : Requests)
      → row_at org key w.rows ≡ none
      → IsStored w
      → same_key org key o k ≡ false
  not_free org key w f h = ground (arith, eq_iff org o, eq_iff key k)

  IsStored-IsKept : IsKept IsStored
  IsStored-IsKept = record {
    freed =
        λ org key w p h. rw (row_at-delete_idempotency o k org key w, not_pending org key w p h) h;
    claimed = λ now org key fingerprint req w f h.
        rw (row_at-claim o k now org key fingerprint req w, h) refl;
    ran = λ org key h w p s. rw (row_at-run_claimed o k org key h w, not_pending org key w p s) s;
  }

  -- what is stored is replayed to a request with the fingerprint of the row
  stored-replay :
      (sha256 : List ℕ → String) (stale_ms depth now : ℕ) (es : List Event) (req : Request)
      (h : Handled) (w : Requests)
      → row_at o k w.rows ≡ some r
      → with_idempotency sha256 stale_ms (suc depth) now o k req h (happen_all sha256 stale_ms es w)
        ≡ some (
          (if str_eq r.fingerprint (idem_fingerprint sha256 req)
              then response status r.response_body
              else refused key_reuse),
          happen_all sha256 stale_ms es w,
        )
  unfolding with_idempotency
  stored-replay sha256 stale_ms depth now es req h w s =
      let later = happen_all-keeps sha256 stale_ms IsStored IsStored-IsKept es w s in
      rw (with_idempotency, later, done) (ground arith)

same_key-itself : (o k : String) → same_key o k o k ≡ true
same_key-itself o k = ground (arith, eq_iff o o, eq_iff k k)

module _ (sha256 : List ℕ → String) (stale_ms : ℕ) (o k : String) where
  -- the row that a first request leaves whose handler succeeds
  abbrev stored : ℕ → Request → ℕ → Value → IdempotencyRecord
  stored now first status body =
      answered status body (claim_row now o k (idem_fingerprint sha256 first) first)

  row_at-first :
      (now : ℕ) (first : Request) (status : ℕ) (body : Value) (w : Requests)
      → row_at o k w.rows ≡ none
      → is_success status ≡ true
      → row_at o k (happen sha256 stale_ms (asks now o k first (responds status body)) w).rows
        ≡ some (stored now first status body)
  unfolding happen with_idempotency
  row_at-first now first status body w free success =
      let fingerprint = idem_fingerprint sha256 first in
      let claimed = claim (claim_row now o k fingerprint first) w in
      let ran = row_at-run_claimed o k o k (responds status body) claimed in
      let found = row_at-claim o k now o k fingerprint first w in
      rw (with_idempotency, free)
        (ran ∙ rw (same_key-itself o k, success, found, free, same_key-itself o k) refl)

  -- Once a request under a free key has come to a success, then after any further requests of any
  -- organisations, at any times and with claims whose processes die, a request under the key runs no
  -- handler and changes nothing: if it has the method, the path and the JSON text of the body of the
  -- first one, it gets the response of the first, and otherwise it is refused; provided that the hash
  -- does not collide on the texts of these two requests.
  pub happen_all-replay :
      (depth before now : ℕ) (first req : Request) (status : ℕ) (body : Value) (es : List Event)
      (h : Handled) (w : Requests)
      → row_at o k w.rows ≡ none
      → is_success status ≡ true
      → (sha256 (canonical_text first) ≡ sha256 (canonical_text req)
          → canonical_text first ≡ canonical_text req)
      → let later =
          happen_all sha256 stale_ms (asks before o k first (responds status body) ∷ es) w in
        with_idempotency sha256 stale_ms (suc depth) now o k req h later
        ≡ some (
          (if same_request first req
              then response status (args_or_null body)
              else refused key_reuse),
          later,
        )
  unfolding happen_all
  happen_all-replay depth before now first req status body es h w free success apart =
      let w1 = happen sha256 stale_ms (asks before o k first (responds status body)) w in
      stored-replay o k (stored before first status body) status refl sha256 stale_ms depth now es
        req h w1 (row_at-first before first status body w free success)
      ∙ ap
          (λ b. some (
            (if b then response status (args_or_null body) else refused key_reuse),
            happen_all sha256 stale_ms es w1,
          ))
          (same_fingerprint sha256 first req apart)
