-- ===== src/Cloud/Access/Keys.antt =====
-- service.ts, keys.ts: new keys, what is shown of a key, and the audit log.
use quorvel.Common.{
  ℕ, String, Option, none, some, List, [], ◌∷◌, ◌++◌, map, get_or, str_eq, opt_eq, if◌then◌else◌,
}
use quorvel.Value.{Value, str, Items, nil, cons}
use quorvel.Cloud.Text.{prefix_of, ◌&◌}
use quorvel.Cloud.Access.{ApiKeyRecord, Directory, list_rows}

-- What a call draws at random.
pub record Fresh : Type 0 where
  pub org_uuid : String
  pub key_uuid : String
  pub audit_uuid : String
  pub rotation_uuid : String
  pub secret : String

abbrev pub new_id : String → String → String
new_id prefix uuid = prefix & "_" & uuid

abbrev pub generate_api_key : String → String → String
generate_api_key env secret = "qrv_" & env & "_" & secret

-- `key.slice(0, PREFIX_LEN)`
abbrev pub key_prefix_of : String → String
key_prefix_of key = prefix_of 12 key

abbrev pub default_scopes : List String
default_scopes = "actions:read" ∷ "actions:write" ∷ []

pub record ApiKeyPublic : Type 0 where
  pub id : String
  pub org_id : String
  pub name : String
  pub key_prefix : String
  pub env : String
  pub scopes : List String
  pub created_at : ℕ
  pub last_used_at : Option ℕ
  pub revoked_at : Option ℕ
  pub created_by : Option String

abbrev pub to_public_key : ApiKeyRecord → ApiKeyPublic
to_public_key r = record {
  id = r.id;
  org_id = r.org_id;
  name = r.name;
  key_prefix = r.key_prefix;
  env = get_or r.env "live";
  scopes = get_or r.scopes default_scopes;
  created_at = r.created_at;
  last_used_at = r.last_used_at;
  revoked_at = r.revoked_at;
  created_by = r.created_by;
}

abbrev pub list_api_keys : String → Directory → List ApiKeyPublic
list_api_keys org d = map to_public_key (list_rows org d)

abbrev pub audit :
    ℕ → String → String → Option String → String → Option String → Value → Directory → Directory
audit now uuid org actor action target metadata d = record d {
  audit_entries =
      d.audit_entries
      ++ record {
        id = new_id "aud" uuid;
        org_id = org;
        actor_id = actor;
        action = action;
        target = target;
        metadata = metadata;
        created_at = now;
      }
        ∷ [];
}

-- `x || y` on a text
abbrev pub if_empty : String → String → String
if_empty s other = if str_eq s "" then other else s

pub record CreateApiKeyInput : Type 0 where
  pub name : Option String
  pub env : Option String
  pub scopes : Option (List String)
  pub created_by : Option String

abbrev pub scopes_of : Option (List String) → List String
scopes_of none = default_scopes
scopes_of (some []) = default_scopes
scopes_of (some (s ∷ ss)) = s ∷ ss

abbrev pub env_of : Option String → String
env_of env = if opt_eq env (some "test") then "test" else "live"

abbrev pub scope_items : List String → Items
scope_items [] = nil
scope_items (s ∷ ss) = cons (str s) (scope_items ss)
