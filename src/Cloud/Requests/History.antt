-- ===== src/Cloud/Requests/History.antt =====
-- service.ts: histories of requests, one after the other, and the rule for what they keep. A process
-- may die between its claim and the end of its handler.
use quorvel.Common.{
  ℕ, ◌+◌, String, ◌≡◌, inl, inr, refl, Option, none, some, List, [], ◌∷◌, arith, str_eq, eq_iff,
  ltb, Bool-cases, Option-cases,
}
use quorvel.Cloud.Requests.{
  IdempotencyRecord, Request, Handled, Requests, row_at, claim_row, claim, delete_idempotency,
  idem_fingerprint, Reply, refused, in_progress, run_claimed, taken, with_idempotency,
}
use quorvel.Cloud.Requests.Rows.{row_at-freed, row_at-claim}
use quorvel.Cloud.Requests.Bound.{fresh, reply_to, reply_to_row, with_idempotency-reply_to}

-- One request with what its handler comes to if it runs, or a claim whose process dies.
pub data Event : Type 0 where
  asks : (now : ℕ) (org key : String) → Request → Handled → Event
  dies : (now : ℕ) (org key : String) → Request → Event

abbrev pub after : Option (Reply × Requests) → Requests → Requests
after none w = w
after (some (reply, w')) w = w'

module _ (sha256 : List ℕ → String) (stale_ms : ℕ) where
  -- the claim alone
  abbrev pub claimed_only : ℕ → String → String → Request → Requests → Requests
  claimed_only now org key req w = claim (claim_row now org key (idem_fingerprint sha256 req) req) w

  abbrev pub died : ℕ → String → String → Request → Requests → Requests
  died now org key req w = elim (row_at org key w.rows) [
    | none ↦ claimed_only now org key req w
    | some r ↦
        after
          (taken sha256 stale_ms now org key (idem_fingerprint sha256 req) r w
            (λ w'. some (refused in_progress, claimed_only now org key req w')))
          w
  ]

  unfoldable pub happen : Event → Requests → Requests
  unfolding with_idempotency
  happen (asks now org key req h) w =
      after (with_idempotency sha256 stale_ms 2 now org key req h w) w
  happen (dies now org key req) w = died now org key req w

  unfoldable pub happen_all : List Event → Requests → Requests
  unfolding happen
  happen_all [] w = w
  happen_all (e ∷ es) w = happen_all es (happen e w)

-- The row of the key has no response yet.
abbrev pub IsPending : String → String → Requests → Type 0
IsPending org key w =
    (r : IdempotencyRecord) × (row_at org key w.rows ≡ some r) × (r.status_code ≡ none)

-- The changes of the table that a request is made of, each where the service makes it.
pub record IsKept (P : Requests → Type 0) : Type 0 where
  pub freed :
      (org key : String) (w : Requests)
      → IsPending org key w
      → P w
      → P (delete_idempotency org key w)
  pub claimed :
      (now : ℕ) (org key fingerprint : String) (req : Request) (w : Requests)
      → row_at org key w.rows ≡ none
      → P w
      → P (claim (claim_row now org key fingerprint req) w)
  pub ran :
      (org key : String) (h : Handled) (w : Requests)
      → IsPending org key w
      → P w
      → P (run_claimed org key h w).1

module _ (sha256 : List ℕ → String) (stale_ms : ℕ) (P : Requests → Type 0) (kept : IsKept P) where
  module _ (now : ℕ) (org key : String) (req : Request) where
    claimed_only-IsPending :
        (w : Requests)
        → row_at org key w.rows ≡ none
        → IsPending org key (claimed_only sha256 stale_ms now org key req w)
    claimed_only-IsPending w f = (
      claim_row now org key (idem_fingerprint sha256 req) req,
      ground (
        arith,
        f,
        row_at-claim org key now org key (idem_fingerprint sha256 req) req w,
        eq_iff org org,
        eq_iff key key,
      ),
      refl,
    )

    claimed_only-keeps :
        (w : Requests)
        → row_at org key w.rows ≡ none
        → P w
        → P (claimed_only sha256 stale_ms now org key req w)
    claimed_only-keeps w f p = kept.claimed now org key (idem_fingerprint sha256 req) req w f p

    fresh-keeps :
        (h : Handled) (w : Requests)
        → row_at org key w.rows ≡ none
        → P w
        → P (fresh sha256 stale_ms now org key req h w).1
    fresh-keeps h w f p =
        kept.ran org key h (claimed_only sha256 stale_ms now org key req w)
          (claimed_only-IsPending w f) (claimed_only-keeps w f p)

    delete-keeps :
        (r : IdempotencyRecord) (w : Requests)
        → row_at org key w.rows ≡ some r
        → r.status_code ≡ none
        → P w
        → P (delete_idempotency org key w)
    delete-keeps r w f s p = kept.freed org key w (r, f, s) p

    reply_to_row-keeps :
        (h : Handled) (r : IdempotencyRecord) (w : Requests)
        → row_at org key w.rows ≡ some r
        → P w
        → P (reply_to_row sha256 stale_ms now org key req h r w).1
    reply_to_row-keeps h r w f p =
        elim (Bool-cases (str_eq r.fingerprint (idem_fingerprint sha256 req))) [
          | inr e ↦ rw e p
          | inl e ↦ elim (Option-cases r.status_code) [
            | inr (status, s) ↦ rw (e, s) p
            | inl s ↦ elim (Bool-cases (ltb (r.created_at + stale_ms) now)) [
              | inr t ↦ rw (e, s, t) p
              | inl t ↦
                  rw (e, s, t)
                    (fresh-keeps h (delete_idempotency org key w) (row_at-freed org key w)
                      (delete-keeps r w f s p))
            ]
          ]
        ]

    asks-keeps :
        (h : Handled) (w : Requests) → P w → P (happen sha256 stale_ms (asks now org key req h) w)
    unfolding happen
    asks-keeps h w p =
        rw (with_idempotency-reply_to sha256 stale_ms now org key req h 0 w)
          (elim (Option-cases (row_at org key w.rows)) [
            | inl f ↦ rw (reply_to, f) (fresh-keeps h w f p)
            | inr (r, f) ↦ rw (reply_to, f) (reply_to_row-keeps h r w f p)
          ])

    died_on-keeps :
        (r : IdempotencyRecord) (w : Requests)
        → row_at org key w.rows ≡ some r
        → P w
        → P (
            after
              (taken sha256 stale_ms now org key
                (idem_fingerprint sha256 req)
                r
                w
                (λ w'. some (refused in_progress, claimed_only sha256 stale_ms now org key req w')))
              w)
    died_on-keeps r w f p = elim (Bool-cases (str_eq r.fingerprint (idem_fingerprint sha256 req))) [
      | inr e ↦ rw e p
      | inl e ↦ elim (Option-cases r.status_code) [
        | inr (status, s) ↦ rw (e, s) p
        | inl s ↦ elim (Bool-cases (ltb (r.created_at + stale_ms) now)) [
          | inr t ↦ rw (e, s, t) p
          | inl t ↦
              rw (e, s, t)
                (claimed_only-keeps (delete_idempotency org key w) (row_at-freed org key w)
                  (delete-keeps r w f s p))
        ]
      ]
    ]

    dies-keeps : (w : Requests) → P w → P (happen sha256 stale_ms (dies now org key req) w)
    unfolding happen
    dies-keeps w p = elim (Option-cases (row_at org key w.rows)) [
      | inl f ↦ rw (died, f) (claimed_only-keeps w f p)
      | inr (r, f) ↦ rw (died, f) (died_on-keeps r w f p)
    ]

  pub happen_all-keeps :
      (es : List Event) (w : Requests) → P w → P (happen_all sha256 stale_ms es w)
  unfolding happen_all
  happen_all-keeps [] w p = p
  happen_all-keeps (asks now org key req h ∷ es) w p =
      happen_all-keeps es (happen sha256 stale_ms (asks now org key req h) w)
        (asks-keeps now org key req h w p)
  happen_all-keeps (dies now org key req ∷ es) w p =
      happen_all-keeps es (happen sha256 stale_ms (dies now org key req) w)
        (dies-keeps now org key req w p)
