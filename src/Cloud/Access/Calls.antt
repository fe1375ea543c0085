-- ===== src/Cloud/Access/Calls.antt =====
-- service.ts: the calls that issue, check, rotate and revoke API keys, and those that let members in.
use quorvel.Common.{
  ℕ, String, Bool, true, false, Option, none, some, get_or, str_eq, or_else, is_some, if◌then◌else◌,
}
use quorvel.Value.{str, arr, obj, undefined, field, end}
use quorvel.Cloud.Errors.{auth_error, bad_request, not_found, Answer, ok, fails}
use quorvel.Cloud.Text.{trim, strip_prefix}
use quorvel.Cloud.Access.{
  Org, ApiKeyRecord, Directory, insert_org, insert_api_key, get_api_key_by_hash, get_api_key_by_id,
  revoke_row, touch_api_key_last_used, get_org_by_clerk_id, upsert_membership, get_membership,
}
use quorvel.Cloud.Access.Keys.{
  Fresh, new_id, generate_api_key, key_prefix_of, default_scopes, ApiKeyPublic, to_public_key,
  audit, if_empty, CreateApiKeyInput, scopes_of, env_of, scope_items,
}

pub record IssueKeyInput : Type 0 where
  pub org_name : Option String
  pub plan : Option String

pub record IssueKeyResult : Type 0 where
  pub org_id : String
  pub api_key : String
  pub key_prefix : String

pub record ProvisionOrgInput : Type 0 where
  pub clerk_org_id : String
  pub clerk_user_id : String
  pub org_name : Option String
  pub role : Option String

pub record ProvisionOrgResult : Type 0 where
  pub org_id : String
  pub created : Bool
  pub api_key : Option String
  pub key_prefix : Option String

pub record CreatedKey : Type 0 where
  pub api_key : String
  pub key : ApiKeyPublic

-- what a login comes to
pub record Login : Type 0 where
  pub org_id : String
  pub role : String

-- how a login provisions its organisation
abbrev pub owner_input : String → String → Option String → ProvisionOrgInput
owner_input clerk_org user org_name = record {
  clerk_org_id = clerk_org;
  clerk_user_id = user;
  org_name = org_name;
  role = some "owner";
}

module _ (sha256 : String → String) where
  -- the key of a new organisation
  abbrev pub default_key : ℕ → Fresh → String → ApiKeyRecord
  default_key now fresh key = record {
    id = new_id "key" fresh.key_uuid;
    org_id = new_id "org" fresh.org_uuid;
    key_hash = sha256 key;
    key_prefix = key_prefix_of key;
    name = "default";
    created_at = now;
    last_used_at = none;
    revoked_at = none;
    env = none;
    scopes = none;
    created_by = none;
  }

  abbrev pub new_org : ℕ → Fresh → Option String → String → Option String → Org
  new_org now fresh name plan clerk_org = record {
    id = new_id "org" fresh.org_uuid;
    name = get_or name "org";
    plan = plan;
    clerk_org_id = clerk_org;
    paddle_customer_id = none;
    trial_ends_at = none;
    created_at = now;
  }

  unfoldable pub issue_api_key : ℕ → Fresh → IssueKeyInput → Directory → IssueKeyResult × Directory
  issue_api_key now fresh input d =
      let key = generate_api_key "live" fresh.secret in
      (
        record {
          org_id = new_id "org" fresh.org_uuid;
          api_key = key;
          key_prefix = key_prefix_of key;
        },
        insert_api_key (default_key now fresh key)
            (insert_org (new_org now fresh input.org_name (get_or input.plan "free") none) d),
      )

  abbrev pub add_member : ℕ → String → String → String → Directory → Directory
  add_member now user org role d =
      upsert_membership
        (record { clerk_user_id = user; org_id = org; role = role; created_at = now }) d

  -- `if (!member)`
  abbrev pub ensure_member : ℕ → String → String → String → Directory → Directory
  ensure_member now user org role d =
      if is_some (get_membership user org d) then d else add_member now user org role d

  abbrev provision_new :
      ℕ → Fresh → ProvisionOrgInput → Directory → Answer ProvisionOrgResult × Directory
  provision_new now fresh input d =
      let key = generate_api_key "live" fresh.secret in
      let org = new_id "org" fresh.org_uuid in
      (
        ok (record {
          org_id = org;
          created = true;
          api_key = some key;
          key_prefix = some (key_prefix_of key);
        }),
        insert_api_key (default_key now fresh key) (
            add_member now input.clerk_user_id org (get_or input.role "owner")
              (insert_org (new_org now fresh input.org_name "free" (some input.clerk_org_id)) d)),
      )

  unfoldable pub provision_org :
      ℕ → Fresh → ProvisionOrgInput → Directory → Answer ProvisionOrgResult × Directory
  provision_org now fresh input d =
      if str_eq input.clerk_org_id ""
      then (fails (bad_request "clerkOrgId and clerkUserId are required"), d)
      else if str_eq input.clerk_user_id ""
      then (fails (bad_request "clerkOrgId and clerkUserId are required"), d)
      else elim (get_org_by_clerk_id input.clerk_org_id d) [
        | none ↦ provision_new now fresh input d
        | some org ↦ (
          ok (record { org_id = org.id; created = false; api_key = none; key_prefix = none }),
          ensure_member now input.clerk_user_id org.id (get_or input.role "owner") d,
        )
      ]

  -- `rec.revokedAt`, and the time of use is written
  abbrev pub admit : ℕ → Option ApiKeyRecord → Directory → Answer String × Directory
  admit now none d = (fails (auth_error "invalid API key"), d)
  admit now (some r) d =
      if is_some r.revoked_at
      then (fails (auth_error "API key revoked"), d)
      else (ok r.org_id, touch_api_key_last_used now r.key_hash d)

  abbrev pub token_of : String → String
  token_of header = trim (get_or (strip_prefix "Bearer " header) header)

  abbrev with_header : ℕ → String → Directory → Answer String × Directory
  with_header now header d =
      if str_eq header ""
      then (fails (auth_error "missing Authorization header"), d)
      else if str_eq (token_of header) ""
      then (fails (auth_error "empty API key"), d)
      else admit now (get_api_key_by_hash (sha256 (token_of header)) d) d

  unfoldable pub authenticate : ℕ → Option String → Directory → Answer String × Directory
  authenticate now none d = (fails (auth_error "missing Authorization header"), d)
  authenticate now (some header) d = with_header now header d

  abbrev pub as_owner : Answer ProvisionOrgResult × Directory → Answer Login × Directory
  as_owner (ok r, d) = (ok (record { org_id = r.org_id; role = "owner" }), d)
  as_owner (fails e, d) = (fails e, d)

  abbrev pub as_member : ℕ → String → Org → Directory → Answer Login × Directory
  as_member now user org d = elim (get_membership user org.id d) [
    | none ↦
        (ok (record { org_id = org.id; role = "member" }), add_member now user org.id "member" d)
    | some m ↦ (ok (record { org_id = org.id; role = m.role }), d)
  ]

  -- an identifier that is missing is empty
  unfoldable pub authenticate_dashboard :
      ℕ → Fresh → String → String → Option String → Directory → Answer Login × Directory
  unfolding provision_org
  authenticate_dashboard now fresh clerk_org user org_name d =
      if str_eq clerk_org ""
      then (fails (auth_error "missing Clerk org/user context"), d)
      else if str_eq user ""
      then (fails (auth_error "missing Clerk org/user context"), d)
      else elim (get_org_by_clerk_id clerk_org d) [
        | none ↦ as_owner (provision_org now fresh (owner_input clerk_org user org_name) d)
        | some org ↦ as_member now user org d
      ]

  abbrev pub created_record : ℕ → Fresh → String → CreateApiKeyInput → ApiKeyRecord
  created_record now fresh org input =
      let key = generate_api_key (env_of input.env) fresh.secret in
      record {
        id = new_id "key" fresh.key_uuid;
        org_id = org;
        key_hash = sha256 key;
        key_prefix = key_prefix_of key;
        name = if_empty (trim (get_or input.name "")) "default";
        created_at = now;
        last_used_at = none;
        revoked_at = none;
        env = some (env_of input.env);
        scopes = some (scopes_of input.scopes);
        created_by = input.created_by;
      }

  unfoldable pub create_api_key :
      ℕ → Fresh → String → CreateApiKeyInput → Directory → CreatedKey × Directory
  create_api_key now fresh org input d =
      let r = created_record now fresh org input in
      (
        record {
          api_key = generate_api_key (env_of input.env) fresh.secret;
          key = to_public_key r;
        },
        audit now fresh.audit_uuid org input.created_by "api_key.created" (some r.id)
            (obj (
              field "name" (str r.name) (
                field "env" (str (env_of input.env))
                  (field "scopes" (arr (scope_items (scopes_of input.scopes))) end))))
            (insert_api_key r d),
      )

  -- the input of the key that takes the place of another
  abbrev pub rotation_of : ApiKeyRecord → Option String → CreateApiKeyInput
  rotation_of old actor = record {
    name = some old.name;
    env = some (get_or old.env "live");
    scopes = some (get_or old.scopes default_scopes);
    created_by = or_else actor old.created_by;
  }

  unfoldable pub rotate_api_key :
      ℕ → Fresh → String → String → Option String → Directory → Answer CreatedKey × Directory
  unfolding create_api_key
  rotate_api_key now fresh org id actor d = elim (get_api_key_by_id org id d) [
    | none ↦ (fails (not_found "API key not found"), d)
    | some old ↦
        let (created, d1) =
          create_api_key now fresh org (rotation_of old actor) (revoke_row now org id d).1 in
        (
          ok created,
          audit now fresh.rotation_uuid org actor "api_key.rotated" (some id)
              (obj (field "replacedBy" (str created.key.id) end)) d1,
        )
  ]

  unfoldable pub revoke_api_key :
      ℕ → Fresh → String → String → Option String → Directory → Answer Bool × Directory
  revoke_api_key now fresh org id actor d =
      let (found, d1) = revoke_row now org id d in
      if found
      then (ok true, audit now fresh.audit_uuid org actor "api_key.revoked" (some id) undefined d1)
      else (fails (not_found "API key not found"), d1)
