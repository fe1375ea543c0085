-- ===== src/Cloud/Access/Kept.antt =====
-- service.ts: the rule for what the calls of the service keep of the table of API keys.
use quorvel.Common.{
  ℕ, String, ◌≡◌, inl, inr, false, Option, none, some, List, [], ◌∷◌, All, str_eq, is_some,
  Bool-cases, Option-cases, get_or, opt_eq,
}
use quorvel.Common.Dict.{Dict, insert, modify}
use quorvel.Cloud.Errors.{Answer, ok, fails}
use quorvel.Cloud.Access.{
  ApiKeyRecord, Directory, get_api_key_by_hash, get_api_key_by_id, get_org_by_clerk_id,
  revoke_first, used, Org, get_membership, revoke_row,
}
use quorvel.Cloud.Access.Keys.{Fresh, generate_api_key, CreateApiKeyInput, env_of}
use quorvel.Cloud.Access.Calls.{
  ProvisionOrgInput, provision_org, authenticate, authenticate_dashboard, create_api_key,
  rotate_api_key, revoke_api_key, issue_api_key, ensure_member, as_owner, as_member, owner_input,
  ProvisionOrgResult, token_of, created_record, rotation_of,
}
use quorvel.Cloud.Access.History.{
  Call, issues, provisions, authenticates, logs_in, creates, rotates, revokes, perform, perform_all,
}

module _ (sha256 : String → String) (h : String) (MayRevoke : String → String → Type 0) where
  -- No key that is drawn has that hash.
  abbrev pub IsElsewhere : Fresh → Type 0
  IsElsewhere fresh =
      (str_eq (sha256 (generate_api_key "live" fresh.secret)) h ≡ false)
      × (str_eq (sha256 (generate_api_key "test" fresh.secret)) h ≡ false)

  drawn_elsewhere :
      (fresh : Fresh) (env : Option String)
      → IsElsewhere fresh
      → str_eq (sha256 (generate_api_key (env_of env) fresh.secret)) h ≡ false
  drawn_elsewhere fresh env (live, test) = elim (Bool-cases (opt_eq env (some "test"))) [
    | inl e ↦ rw e test
    | inr e ↦ rw e live
  ]

  -- The call draws no key with that hash, and revokes none but those that it may.
  abbrev pub IsAllowed : Call → Type 0
  IsAllowed (issues now fresh input) = IsElsewhere fresh
  IsAllowed (provisions now fresh input) = IsElsewhere fresh
  IsAllowed (authenticates now header) = Unit
  IsAllowed (logs_in now fresh clerk_org user org_name) = IsElsewhere fresh
  IsAllowed (creates now fresh org input) = IsElsewhere fresh
  IsAllowed (rotates now fresh org id actor) = IsElsewhere fresh × MayRevoke org id
  IsAllowed (revokes now fresh org id actor) = MayRevoke org id

  -- The changes of the table that the calls are made of.
  pub record IsKept (P : Dict ApiKeyRecord → Type 0) : Type 0 where
    pub inserted :
        (r : ApiKeyRecord) (keys : Dict ApiKeyRecord)
        → str_eq r.key_hash h ≡ false
        → P keys
        → P (insert r.key_hash r keys)
    pub touched :
        (now : ℕ) (hash : String) (keys : Dict ApiKeyRecord)
        → P keys
        → P (modify hash (used now) keys)
    pub dropped :
        (now : ℕ) (org id : String) (keys : Dict ApiKeyRecord)
        → MayRevoke org id
        → P keys
        → P (revoke_first now org id keys)

  module _ (P : Dict ApiKeyRecord → Type 0) (kept : IsKept P) where
    member_kept :
        (now : ℕ) (input : ProvisionOrgInput) (org : Org) (d : Directory)
        → P d.keys
        → P (ensure_member sha256 now input.clerk_user_id org.id (get_or input.role "owner") d).keys
    member_kept now input org d p =
        elim (Bool-cases (is_some (get_membership input.clerk_user_id org.id d))) [
          | inl e ↦ rw e p
          | inr e ↦ rw e p
        ]

    provision_org-keeps :
        (now : ℕ) (fresh : Fresh) (input : ProvisionOrgInput) (d : Directory)
        → IsElsewhere fresh
        → P d.keys
        → P (provision_org sha256 now fresh input d).1.keys
    unfolding provision_org
    provision_org-keeps now fresh input d (live, test) p =
        elim (Bool-cases (str_eq input.clerk_org_id "")) [
          | inl a ↦ rw a p
          | inr a ↦ elim (Bool-cases (str_eq input.clerk_user_id "")) [
            | inl b ↦ rw (a, b) p
            | inr b ↦ elim (Option-cases (get_org_by_clerk_id input.clerk_org_id d)) [
              | inl f ↦ rw (a, b, f) (kept.inserted _ d.keys live p)
              | inr (org, f) ↦ rw (a, b, f) (member_kept now input org d p)
            ]
          ]
        ]

    authenticate-keeps :
        (now : ℕ) (header : Option String) (d : Directory)
        → P d.keys
        → P (authenticate sha256 now header d).1.keys
    unfolding authenticate
    authenticate-keeps now none d p = p
    authenticate-keeps now (some header) d p = elim (Bool-cases (str_eq header "")) [
      | inl a ↦ rw a p
      | inr a ↦ elim (Bool-cases (str_eq (token_of sha256 header) "")) [
        | inl b ↦ rw (a, b) p
        | inr b ↦ elim (Option-cases (get_api_key_by_hash (sha256 (token_of sha256 header)) d)) [
          | inl f ↦ rw (a, b, f) p
          | inr (r, f) ↦ elim (Bool-cases (is_some r.revoked_at)) [
            | inl e ↦ rw (a, b, f, e) p
            | inr e ↦ rw (a, b, f, e) (kept.touched now r.key_hash d.keys p)
          ]
        ]
      ]
    ]

    create_api_key-keeps :
        (now : ℕ) (fresh : Fresh) (org : String) (input : CreateApiKeyInput) (d : Directory)
        → IsElsewhere fresh
        → P d.keys
        → P (create_api_key sha256 now fresh org input d).1.keys
    unfolding create_api_key
    create_api_key-keeps now fresh org input d e p =
        kept.inserted (created_record sha256 now fresh org input) d.keys
          (drawn_elsewhere fresh input.env e) p

    rotate_api_key-keeps :
        (now : ℕ) (fresh : Fresh) (org id : String) (actor : Option String) (d : Directory)
        → IsElsewhere fresh
        → MayRevoke org id
        → P d.keys
        → P (rotate_api_key sha256 now fresh org id actor d).1.keys
    unfolding rotate_api_key
    rotate_api_key-keeps now fresh org id actor d e m p =
        elim (Option-cases (get_api_key_by_id org id d)) [
          | inl f ↦ rw (rotate_api_key, f) p
          | inr (old, f) ↦
              rw (rotate_api_key, f)
                (create_api_key-keeps now fresh org (rotation_of sha256 old actor)
                  (revoke_row now org id d).1 e (kept.dropped now org id d.keys m p))
        ]

    revoke_api_key-keeps :
        (now : ℕ) (fresh : Fresh) (org id : String) (actor : Option String) (d : Directory)
        → MayRevoke org id
        → P d.keys
        → P (revoke_api_key sha256 now fresh org id actor d).1.keys
    unfolding revoke_api_key
    revoke_api_key-keeps now fresh org id actor d m p =
        elim (Bool-cases (is_some (get_api_key_by_id org id d))) [
          | inl f ↦ rw f (kept.dropped now org id d.keys m p)
          | inr f ↦ rw f (kept.dropped now org id d.keys m p)
        ]

    as_owner-keeps :
        (x : Answer ProvisionOrgResult × Directory) → P x.1.keys → P (as_owner sha256 x).1.keys
    as_owner-keeps (ok r, d) p = p
    as_owner-keeps (fails e, d) p = p

    as_member-keeps :
        (now : ℕ) (user : String) (org : Org) (d : Directory)
        → P d.keys
        → P (as_member sha256 now user org d).1.keys
    as_member-keeps now user org d p = elim (Option-cases (get_membership user org.id d)) [
      | inl f ↦ rw (as_member, f) p
      | inr (m, f) ↦ rw (as_member, f) p
    ]

    authenticate_dashboard-keeps :
        (now : ℕ) (fresh : Fresh) (clerk_org user : String) (org_name : Option String)
        (d : Directory)
        → IsElsewhere fresh
        → P d.keys
        → P (authenticate_dashboard sha256 now fresh clerk_org user org_name d).1.keys
    unfolding authenticate_dashboard
    authenticate_dashboard-keeps now fresh clerk_org user org_name d e p =
        elim (Bool-cases (str_eq clerk_org "")) [
          | inl a ↦ rw a p
          | inr a ↦ elim (Bool-cases (str_eq user "")) [
            | inl b ↦ rw (a, b) p
            | inr b ↦ elim (Option-cases (get_org_by_clerk_id clerk_org d)) [
              | inr (org, f) ↦ rw (a, b, f) (as_member-keeps now user org d p)
              | inl f ↦
                  rw (a, b, f)
                    (as_owner-keeps
                      (provision_org sha256 now fresh (owner_input clerk_org user org_name) d)
                      (provision_org-keeps now fresh (owner_input clerk_org user org_name) d e p))
            ]
          ]
        ]

    perform-keeps :
        (c : Call) (d : Directory) → IsAllowed c → P d.keys → P (perform sha256 c d).keys
    unfolding perform issue_api_key
    perform-keeps (issues now fresh input) d (live, test) p = kept.inserted _ d.keys live p
    perform-keeps (provisions now fresh input) d a p = provision_org-keeps now fresh input d a p
    perform-keeps (authenticates now header) d a p = authenticate-keeps now header d p
    perform-keeps (logs_in now fresh clerk_org user org_name) d a p =
        authenticate_dashboard-keeps now fresh clerk_org user org_name d a p
    perform-keeps (creates now fresh org input) d a p =
        create_api_key-keeps now fresh org input d a p
    perform-keeps (rotates now fresh org id actor) d (a, m) p =
        rotate_api_key-keeps now fresh org id actor d a m p
    perform-keeps (revokes now fresh org id actor) d m p =
        revoke_api_key-keeps now fresh org id actor d m p

    pub perform_all-keeps :
        (cs : List Call) (d : Directory)
        → All IsAllowed cs
        → P d.keys
        → P (perform_all sha256 cs d).keys
    unfolding perform_all
    perform_all-keeps [] d a p = p
    perform_all-keeps (c ∷ cs) d (a, rest) p =
        perform_all-keeps cs (perform sha256 c d) rest (perform-keeps c d a p)
