-- ===== src/Cloud/Access/Revoked.antt =====
-- service.ts, store.ts: a key that is revoked, and a key that is not.
use quorvel.Common.{
  ℕ, String, ◌≡◌, ◌⊎◌, ◌∙◌, refl, sym, ap, inl, inr, true, false, ◌&&◌, Option, none, some, List,
  [], ◌∷◌, All, str_eq, eq_iff, is_some, Bool-cases, if◌then◌else◌, arith,
}
use quorvel.Common.Dict.{Dict, lookup, modify, lookup-insert, lookup-modify}
use quorvel.Cloud.Errors.{auth_error, ok, fails}
use quorvel.Cloud.Text.{◌&◌, strip_prefix, IsUnspaced, trim-IsUnspaced, strip_prefix_lem}
use quorvel.Cloud.Access.{
  ApiKeyRecord, Directory, is_key, revoked, revoke_first, used, get_api_key_by_hash,
}
use quorvel.Cloud.Access.Calls.{authenticate, admit, token_of}
use quorvel.Cloud.Access.History.{Call, perform_all}
use quorvel.Cloud.Access.Kept.{IsAllowed, IsKept, perform_all-keeps}

-- what revoking an id may do to the row of a hash
revoke_first_cases :
    (now : ℕ) (org id h : String) (keys : Dict ApiKeyRecord)
    → (lookup h (revoke_first now org id keys) ≡ lookup h keys)
      ⊎ ((r : ApiKeyRecord) × (lookup h keys ≡ some r)
          × (is_key org id r ≡ true)
          × (lookup h (revoke_first now org id keys) ≡ some (revoked now r)))
unfolding lookup revoke_first
revoke_first_cases now org id h [] = inl refl
revoke_first_cases now org id h ((j, r) ∷ keys) = elim (Bool-cases (is_key org id r)) [
  | inl m ↦ elim (Bool-cases (str_eq j h)) [
    | inl e ↦ inr (r, rw e refl, m, rw (m, e) refl)
    | inr e ↦ inl (rw (m, e) refl)
  ]
  | inr m ↦ elim (Bool-cases (str_eq j h)) [
    | inl e ↦ inl (rw (m, e) refl)
    | inr e ↦ rw (m, e) (revoke_first_cases now org id h keys)
  ]
]

module _ (sha256 : String → String) (key : String) where
  -- The key is stored, and revoked.
  abbrev pub IsRevoked : Dict ApiKeyRecord → Type 0
  IsRevoked keys =
      (r : ApiKeyRecord) × (lookup (sha256 key) keys ≡ some r) × (is_some r.revoked_at ≡ true)

  -- The key is stored as one of the organisation with that id, and not revoked.
  abbrev pub IsLive : String → String → Dict ApiKeyRecord → Type 0
  IsLive org id keys =
      (r : ApiKeyRecord) × (lookup (sha256 key) keys ≡ some r)
      × (r.org_id ≡ org)
      × (r.id ≡ id)
      × (r.revoked_at ≡ none)

  abbrev pub AnyId : String → String → Type 0
  AnyId org id = Unit

  -- not that key of that organisation
  abbrev pub OtherId : String → String → String → String → Type 0
  OtherId org id o i = (str_eq org o && str_eq id i) ≡ false

  lookup-touched :
      (now : ℕ) (hash : String) (keys : Dict ApiKeyRecord) (r : ApiKeyRecord)
      → lookup (sha256 key) keys ≡ some r
      → lookup (sha256 key) (modify hash (used now) keys)
        ≡ some (if str_eq hash (sha256 key) then used now r else r)
  lookup-touched now hash keys r f =
      ground (arith, lookup-modify hash (sha256 key) (used now) keys, f)

  IsRevoked-touched :
      (now : ℕ) (hash : String) (keys : Dict ApiKeyRecord)
      → IsRevoked keys
      → IsRevoked (modify hash (used now) keys)
  IsRevoked-touched now hash keys (r, f, v) = (
    if str_eq hash (sha256 key) then used now r else r,
    lookup-touched now hash keys r f,
    ground arith,
  )

  IsRevoked-dropped :
      (now : ℕ) (org id : String) (keys : Dict ApiKeyRecord)
      → IsRevoked keys
      → IsRevoked (revoke_first now org id keys)
  IsRevoked-dropped now org id keys (r, f, v) =
      elim (revoke_first_cases now org id (sha256 key) keys) [
        | inl e ↦ (r, e ∙ f, v)
        | inr (s, g, m, e) ↦ (revoked now s, e, refl)
      ]

  IsRevoked-IsKept : IsKept sha256 (sha256 key) AnyId IsRevoked
  IsRevoked-IsKept = record {
    inserted = λ x keys e p.
        let (r, f, v) = p in (r, lookup-insert x.key_hash (sha256 key) x keys ∙ rw e f, v);
    touched = IsRevoked-touched;
    dropped = λ now org id keys m p. IsRevoked-dropped now org id keys p;
  }

  module _ (org id : String) where
    IsLive-touched :
        (now : ℕ) (hash : String) (keys : Dict ApiKeyRecord)
        → IsLive org id keys
        → IsLive org id (modify hash (used now) keys)
    IsLive-touched now hash keys (r, f, o, i, v) = (
      if str_eq hash (sha256 key) then used now r else r,
      lookup-touched now hash keys r f,
      ground (arith, o),
      ground (arith, i),
      ground (arith, v),
    )

    IsLive-dropped :
        (now : ℕ) (o i : String) (keys : Dict ApiKeyRecord)
        → OtherId org id o i
        → IsLive org id keys
        → IsLive org id (revoke_first now o i keys)
    IsLive-dropped now o i keys n (r, f, eo, ei, v) =
        elim (revoke_first_cases now o i (sha256 key) keys) [
          | inl e ↦ (r, e ∙ f, eo, ei, v)
          | inr (s, g, m, e) ↦
              let same : r ≡ s = cc in
              let mine : is_key o i r ≡ true = rw same m in
              let bad : ⊥ = ground (arith, mine, eo, ei, n, eq_iff o org, eq_iff i id) in
              elim bad [ ]
        ]

    IsLive-IsKept : IsKept sha256 (sha256 key) (OtherId org id) (IsLive org id)
    IsLive-IsKept = record {
      inserted = λ x keys e p.
          let (r, f, o, i, v) = p in
          (r, lookup-insert x.key_hash (sha256 key) x keys ∙ rw e f, o, i, v);
      touched = IsLive-touched;
      dropped = IsLive-dropped;
    }

  -- the header that a client sends
  abbrev pub bearer : Option String
  bearer = some ("Bearer " & key)

  bearer_nonempty : str_eq ("Bearer " & key) "" ≡ false
  unfolding strip_prefix
  bearer_nonempty = elim (Bool-cases (str_eq ("Bearer " & key) "")) [
    | inr e ↦ e
    | inl e ↦
        let empty : "Bearer " & key ≡ "" = (eq_iff ("Bearer " & key) "").0 e in
        let bad : strip_prefix "Bearer " "" ≡ some key =
          ap (strip_prefix "Bearer ") (sym empty) ∙ strip_prefix_lem "Bearer " key in
        ground (arith, bad)
  ]

  bearer_token : IsUnspaced key → token_of sha256 ("Bearer " & key) ≡ key
  bearer_token u = rw (strip_prefix_lem "Bearer " key) (trim-IsUnspaced key u)

  pub authenticate-bearer :
      (now : ℕ) (d : Directory)
      → IsUnspaced key
      → str_eq key "" ≡ false
      → authenticate sha256 now bearer d ≡ admit sha256 now (get_api_key_by_hash (sha256 key) d) d
  unfolding authenticate
  authenticate-bearer now d u e = rw (bearer_nonempty, bearer_token u, e) refl

  -- Once a key is revoked, then after any further calls, at any times and by anyone, none of which
  -- draws a key with the same hash, a request with the key in its header is refused as revoked, and
  -- nothing is written.
  pub perform_all-refuses :
      (now : ℕ) (cs : List Call) (d : Directory)
      → IsUnspaced key
      → str_eq key "" ≡ false
      → All (IsAllowed sha256 (sha256 key) AnyId) cs
      → IsRevoked d.keys
      → authenticate sha256 now bearer (perform_all sha256 cs d)
        ≡ (fails (auth_error "API key revoked"), perform_all sha256 cs d)
  perform_all-refuses now cs d u e allowed p =
      let d' = perform_all sha256 cs d in
      let (r, f, v) =
        perform_all-keeps sha256 (sha256 key) AnyId IsRevoked IsRevoked-IsKept cs d allowed p in
      authenticate-bearer now d' u e ∙ rw (f, v) refl

  -- As long as no call revokes or rotates that key of its organisation, and none draws a key with the
  -- same hash, whatever else is called, a request with the key in its header is let in as the key's
  -- organisation.
  pub perform_all-lets_in :
      (org id : String) (now : ℕ) (cs : List Call) (d : Directory)
      → IsUnspaced key
      → str_eq key "" ≡ false
      → All (IsAllowed sha256 (sha256 key) (OtherId org id)) cs
      → IsLive org id d.keys
      → (authenticate sha256 now bearer (perform_all sha256 cs d)).0 ≡ ok org
  perform_all-lets_in org id now cs d u e allowed p =
      let d' = perform_all sha256 cs d in
      let (r, f, o, i, v) =
        perform_all-keeps sha256 (sha256 key) (OtherId org id) (IsLive org id)
          (IsLive-IsKept org id) cs d allowed p in
      ap (λ x. x.0) (authenticate-bearer now d' u e) ∙ rw (f, v) (ap ok o)
