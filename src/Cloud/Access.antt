-- ===== src/Cloud/Access.antt =====
-- apps/api/src/service.ts, store.ts, keys.ts: organisations, members and API keys. What is drawn at
-- random is given with each call: the UUIDs without their dashes, and the secret of a key. The hash
-- is a parameter. A `Map` with texts as keys is a `Dict`.
pub mod Keys
pub mod Calls
pub mod History
pub mod Kept
pub mod Revoked
pub mod Rotation
pub mod Logins
use Prim.Native.String
use quorvel.Common.{
  ℕ, String, Bool, true, false, ◌&&◌, not, Option, none, some, List, [], ◌∷◌, ◌++◌, map, get_or,
  str_eq, leb, select, find, take, opt_eq, or_else, is_some, if◌then◌else◌,
}
use quorvel.Common.Dict.{Dict, lookup, insert, modify, values}
use quorvel.Common.Sorting.{sort_by}
use quorvel.Value.{Value, str, arr, obj, undefined, Items, nil, cons, field, end}
use quorvel.Cloud.Errors.{ApiError, auth_error, bad_request, not_found, Answer, ok, fails}
use quorvel.Cloud.Text.{trim, strip_prefix, prefix_of, ◌&◌}

pub record Org : Type 0 where
  pub id : String
  pub name : String
  pub plan : String
  pub clerk_org_id : Option String
  pub paddle_customer_id : Option String
  pub trial_ends_at : Option ℕ
  pub created_at : ℕ

pub record ApiKeyRecord : Type 0 where
  pub id : String
  pub org_id : String
  pub key_hash : String
  pub key_prefix : String
  pub name : String
  pub created_at : ℕ
  pub last_used_at : Option ℕ
  pub revoked_at : Option ℕ
  pub env : Option String
  pub scopes : Option (List String)
  pub created_by : Option String

pub record Membership : Type 0 where
  pub clerk_user_id : String
  pub org_id : String
  pub role : String
  pub created_at : ℕ

pub record AuditEntry : Type 0 where
  pub id : String
  pub org_id : String
  pub actor_id : Option String
  pub action : String
  pub target : Option String
  pub metadata : Value
  pub created_at : ℕ

-- the maps of `MemStore`: the keys by their hash
pub record Directory : Type 0 where
  pub orgs : Dict Org
  pub keys : Dict ApiKeyRecord
  pub memberships : Dict Membership
  pub audit_entries : List AuditEntry

abbrev pub insert_org : Org → Directory → Directory
insert_org org d = record d { orgs = insert org.id org d.orgs }

abbrev pub get_org : String → Directory → Option Org
get_org org d = lookup org d.orgs

abbrev change_org : String → (Org → Org) → Directory → Directory
change_org org f d = record d { orgs = modify org f d.orgs }

unfoldable pub set_org_plan : String → String → Directory → Directory
set_org_plan org plan d = change_org org (λ o. record o { plan = plan }) d

unfoldable pub set_org_paddle_customer : String → String → Directory → Directory
set_org_paddle_customer org customer d =
    change_org org (λ o. record o { paddle_customer_id = some customer }) d

unfoldable pub link_clerk_org : String → String → Directory → Directory
link_clerk_org org clerk_org d = change_org org (λ o. record o { clerk_org_id = some clerk_org }) d

unfoldable pub get_org_by_paddle_customer : String → Directory → Option Org
get_org_by_paddle_customer customer d =
    find (λ o. opt_eq o.paddle_customer_id (some customer)) (values d.orgs)

abbrev pub insert_api_key : ApiKeyRecord → Directory → Directory
insert_api_key r d = record d { keys = insert r.key_hash r d.keys }

abbrev pub get_api_key_by_hash : String → Directory → Option ApiKeyRecord
get_api_key_by_hash hash d = lookup hash d.keys

abbrev pub is_key : String → String → ApiKeyRecord → Bool
is_key org id r = str_eq r.org_id org && str_eq r.id id

abbrev pub get_api_key_by_id : String → String → Directory → Option ApiKeyRecord
get_api_key_by_id org id d = find (is_key org id) (values d.keys)

abbrev pub revoked : ℕ → ApiKeyRecord → ApiKeyRecord
revoked now r = record r { revoked_at = some now }

-- the loop of `revokeApiKey`: the first key with the id
unfoldable pub revoke_first : ℕ → String → String → Dict ApiKeyRecord → Dict ApiKeyRecord
revoke_first now org id [] = []
revoke_first now org id ((hash, r) ∷ keys) =
    if is_key org id r
    then (hash, revoked now r) ∷ keys
    else (hash, r) ∷ revoke_first now org id keys

abbrev pub revoke_row : ℕ → String → String → Directory → Bool × Directory
revoke_row now org id d =
    (is_some (get_api_key_by_id org id d), record d { keys = revoke_first now org id d.keys })

abbrev pub used : ℕ → ApiKeyRecord → ApiKeyRecord
used now r = record r { last_used_at = some now }

abbrev pub touch_api_key_last_used : ℕ → String → Directory → Directory
touch_api_key_last_used now hash d = record d { keys = modify hash (used now) d.keys }

abbrev pub list_rows : String → Directory → List ApiKeyRecord
list_rows org d =
    sort_by (λ a b. leb b.created_at a.created_at)
      (select (λ r. str_eq r.org_id org) (values d.keys))

unfoldable pub list_audit_log : String → Option ℕ → Directory → List AuditEntry
list_audit_log org limit d = take (get_or limit 100) (
    sort_by (λ a b. leb b.created_at a.created_at)
      (select (λ e. str_eq e.org_id org) d.audit_entries))

unfoldable pub get_org_by_clerk_id : String → Directory → Option Org
get_org_by_clerk_id clerk_org d = find (λ o. opt_eq o.clerk_org_id (some clerk_org)) (values d.orgs)

-- `mkey`
abbrev pub member_key : String → String → String
member_key user org = user & "::" & org

abbrev pub upsert_membership : Membership → Directory → Directory
upsert_membership m d = record d {
  memberships = insert (member_key m.clerk_user_id m.org_id) m d.memberships;
}

abbrev pub get_membership : String → String → Directory → Option Membership
get_membership user org d = lookup (member_key user org) d.memberships

unfoldable pub list_memberships_by_user : String → Directory → List Membership
list_memberships_by_user user d = select (λ m. str_eq m.clerk_user_id user) (values d.memberships)

unfoldable pub list_memberships_by_org : String → Directory → List Membership
list_memberships_by_org org d = select (λ m. str_eq m.org_id org) (values d.memberships)
