-- ===== src/Cloud/Access/Rotation.antt =====
-- service.ts, `rotateApiKey`: the new key takes the place of the old one.
use quorvel.Common.{
  find-passes, ℕ, String, ◌≡◌, ◌∙◌, refl, ap, inl, inr, true, false, Option, some, [], ◌∷◌, str_eq,
  eq_iff, Bool-cases, arith, find,
}
use quorvel.Common.Dict.{Dict, lookup, insert, values, lookup-insert}
use quorvel.Cloud.Errors.{auth_error, ok, fails}
use quorvel.Cloud.Text.{IsUnspaced}
use quorvel.Cloud.Access.{ApiKeyRecord, Directory, is_key, revoked, revoke_first, get_api_key_by_id}
use quorvel.Cloud.Access.Keys.{Fresh, generate_api_key, env_of}
use quorvel.Cloud.Access.Calls.{
  authenticate, CreatedKey, create_api_key, rotate_api_key, rotation_of, created_record,
}
use quorvel.Cloud.Access.Revoked.{bearer, authenticate-bearer}

-- Every key is stored under its own hash.
abbrev pub IsKeyed : Dict ApiKeyRecord → Type 0
IsKeyed [] = Unit
IsKeyed ((hash, r) ∷ keys) = (r.key_hash ≡ hash) × IsKeyed keys

lookup-revoke_first :
    (now : ℕ) (org id hash : String) (old : ApiKeyRecord) (keys : Dict ApiKeyRecord)
    → IsKeyed keys
    → old.key_hash ≡ hash
    → find (is_key org id) (values keys) ≡ some old
    → lookup hash keys ≡ some old
    → lookup hash (revoke_first now org id keys) ≡ some (revoked now old)
unfolding lookup revoke_first values
lookup-revoke_first now org id hash old [] k o f l = cc
lookup-revoke_first now org id hash old ((j, r) ∷ keys) (e, k) o f l =
    elim (Bool-cases (is_key org id r)) [
      | inl m ↦
          let found : some r ≡ some old = rw m at f in
          let same : r ≡ old = cc in
          let here : j ≡ hash = cc in
          rw (m, (eq_iff j hash).1 here) (ap (λ x. some (revoked now x)) same)
      | inr m ↦ elim (Bool-cases (str_eq j hash)) [
        | inl x ↦
            let found : some r ≡ some old = rw x at l in
            let same : r ≡ old = cc in
            let later : find (is_key org id) (values keys) ≡ some old = rw m at f in
            let mine : is_key org id old ≡ true =
              find-passes (is_key org id) (values keys) old later in
            let other : is_key org id old ≡ false = rw same at m in ground (arith, mine, other)
        | inr x ↦
            rw (m, x) (lookup-revoke_first now org id hash old keys k o (rw m at f) (rw x at l))
      ]
    ]

module _ (sha256 : String → String) (now later : ℕ) (fresh : Fresh) (org id : String)
    (actor : Option String) where
  -- the key that takes the old one's place
  abbrev pub successor : ApiKeyRecord → String
  successor old = generate_api_key (env_of (rotation_of sha256 old actor).env) fresh.secret

  -- the record of the new key
  abbrev replacement : ApiKeyRecord → ApiKeyRecord
  replacement old = created_record sha256 now fresh org (rotation_of sha256 old actor)

  -- what a rotation answers, and the table behind it
  rotated :
      (old : ApiKeyRecord) (d : Directory)
      → get_api_key_by_id org id d ≡ some old
      → let (answer, d') = rotate_api_key sha256 now fresh org id actor d in
        ((c : CreatedKey) × (answer ≡ ok c) × (c.api_key ≡ successor old))
        × (d'.keys
            ≡ insert (replacement old).key_hash (replacement old) (revoke_first now org id d.keys))
  unfolding rotate_api_key create_api_key
  rotated old d f = rw (rotate_api_key, f) ((_, refl, refl), refl)

  -- Rotating a key that is stored under its own hash answers with a new key, which is let in as the
  -- organisation, while the old key is refused as revoked, as long as their hashes differ.
  pub rotate_api_key-swaps :
      (key : String) (old : ApiKeyRecord) (d : Directory)
      → IsKeyed d.keys
      → get_api_key_by_id org id d ≡ some old
      → lookup (sha256 key) d.keys ≡ some old
      → old.key_hash ≡ sha256 key
      → str_eq (sha256 (successor old)) (sha256 key) ≡ false
      → IsUnspaced key × (str_eq key "" ≡ false)
      → IsUnspaced (successor old) × (str_eq (successor old) "" ≡ false)
      → let (answer, d') = rotate_api_key sha256 now fresh org id actor d in
        ((c : CreatedKey) × (answer ≡ ok c) × (c.api_key ≡ successor old))
        × ((authenticate sha256 later (bearer sha256 (successor old)) d').0 ≡ ok org)
        × (authenticate sha256 later (bearer sha256 key) d'
            ≡ (fails (auth_error "API key revoked"), d'))
  rotate_api_key-swaps key old d k f l o n u v =
      let (answer, table) = rotated old d f in
      let d' = (rotate_api_key sha256 now fresh org id actor d).1 in
      let swapped = revoke_first now org id d.keys in
      let r = replacement old in
      let new_row : lookup (sha256 (successor old)) d'.keys ≡ some r =
        ap (lookup (sha256 (successor old))) table
        ∙ lookup-insert r.key_hash (sha256 (successor old)) r swapped
        ∙ ground (arith, eq_iff r.key_hash r.key_hash) in
      let old_row : lookup (sha256 key) d'.keys ≡ some (revoked now old) =
        ap (lookup (sha256 key)) table
        ∙ lookup-insert r.key_hash (sha256 key) r swapped
        ∙ rw n (lookup-revoke_first now org id (sha256 key) old d.keys k o f l) in
      (
        answer,
        ap (λ x. x.0) (authenticate-bearer sha256 (successor old) later d' v.0 v.1)
            ∙ rw new_row refl,
        authenticate-bearer sha256 key later d' u.0 u.1 ∙ rw old_row refl,
      )
