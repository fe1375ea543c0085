-- ===== src/Tests/Accounts.antt =====
-- service.ts: short histories of API keys and logins.
use quorvel.Common.{String, ℕ, ◌≡◌, refl, Option, none, some, List, [], ◌∷◌}
use quorvel.Common.Dict.{lookup, values}
use quorvel.Cloud.Errors.{auth_error, ok, fails}
use quorvel.Cloud.Text.{IsUnspaced, is_space, trim, trim_start, trim_end}
use quorvel.Cloud.Access.{ApiKeyRecord, Directory}
use quorvel.Cloud.Access.Keys.{CreateApiKeyInput, Fresh}
use quorvel.Cloud.Access.Calls.{
  authenticate, authenticate_dashboard, rotate_api_key, Login, CreatedKey,
}
use quorvel.Cloud.Access.History.{Call, issues, authenticates, creates, perform_all}
use quorvel.Cloud.Access.Revoked.{bearer, perform_all-refuses, perform_all-lets_in}
use quorvel.Cloud.Access.Rotation.{rotate_api_key-swaps}
use quorvel.Cloud.Access.Logins.{authenticate_dashboard-again}

-- a text is its own hash
abbrev hash : String → String
hash key = key

abbrev drawn : String → Fresh
drawn secret = record {
  org_uuid = "1";
  key_uuid = "2";
  audit_uuid = "3";
  rotation_uuid = "4";
  secret = secret;
}

abbrev stored : String → Option ℕ → ApiKeyRecord
stored key revoked_at = record {
  id = "key_9";
  org_id = "org_9";
  key_hash = key;
  key_prefix = "qrv_live_old";
  name = "ci";
  created_at = 1;
  last_used_at = none;
  revoked_at = revoked_at;
  env = none;
  scopes = none;
  created_by = none;
}

abbrev holding : Option ℕ → Directory
holding revoked_at = record {
  orgs = [];
  keys = ("qrv_live_old", stored "qrv_live_old" revoked_at) ∷ [];
  memberships = [];
  audit_entries = [];
}

old_key-IsUnspaced : IsUnspaced "qrv_live_old"
unfolding is_space
old_key-IsUnspaced = (
  refl,
  (refl, (refl, (refl, (refl, (refl, (refl, (refl, (refl, (refl, (refl, (refl, tt))))))))))),
)

new_key-IsUnspaced : IsUnspaced "qrv_live_new"
unfolding is_space
new_key-IsUnspaced = (
  refl,
  (refl, (refl, (refl, (refl, (refl, (refl, (refl, (refl, (refl, (refl, (refl, tt))))))))))),
)

abbrev plain : CreateApiKeyInput
plain = record { name = some " x "; env = some "test"; scopes = none; created_by = none }

abbrev others : List Call
others =
    creates 3 (drawn "a") "org_9" plain
    ∷ issues 4 (drawn "b") (record { org_name = none; plan = none })
    ∷ authenticates 5 (some "qrv_test_a")
    ∷ []

perform_all-refuses_example :
    authenticate hash 8 (bearer hash "qrv_live_old") (perform_all hash others (holding (some 2)))
    ≡ (fails (auth_error "API key revoked"), perform_all hash others (holding (some 2)))
unfolding lookup
perform_all-refuses_example =
    perform_all-refuses hash "qrv_live_old" 8 others (holding (some 2)) old_key-IsUnspaced refl
      ((refl, refl), ((refl, refl), (tt, tt))) (stored "qrv_live_old" (some 2), refl, refl)

perform_all-lets_in_example :
    (authenticate hash 8 (bearer hash "qrv_live_old") (perform_all hash others (holding none))).0
    ≡ ok "org_9"
unfolding lookup
perform_all-lets_in_example =
    perform_all-lets_in hash "qrv_live_old" "org_9" "key_9" 8 others (holding none)
      old_key-IsUnspaced refl ((refl, refl), ((refl, refl), (tt, tt)))
      (stored "qrv_live_old" none, refl, refl, refl, refl)

rotate_api_key-swaps_example :
    let (answer, d') =
      rotate_api_key hash 8 (drawn "new") "org_9" "key_9" (some "bob") (holding none) in
    ((c : CreatedKey) × (answer ≡ ok c) × (c.api_key ≡ "qrv_live_new"))
    × ((authenticate hash 9 (bearer hash "qrv_live_new") d').0 ≡ ok "org_9")
    × (authenticate hash 9 (bearer hash "qrv_live_old") d'
        ≡ (fails (auth_error "API key revoked"), d'))
unfolding lookup values
rotate_api_key-swaps_example =
    rotate_api_key-swaps hash 8 9 (drawn "new") "org_9" "key_9" (some "bob") "qrv_live_old"
      (stored "qrv_live_old" none) (holding none) (refl, tt) refl refl refl refl
      (old_key-IsUnspaced, refl) (new_key-IsUnspaced, refl)

authenticate_dashboard-again_example :
    let (answer, d') =
      authenticate_dashboard hash 1 (drawn "a") "clerk_1" "ann" none (holding none) in
    ((l : Login) × (answer ≡ ok l))
    × (authenticate_dashboard hash 2 (drawn "b") "clerk_1" "ann" (some "Acme") d' ≡ (answer, d'))
authenticate_dashboard-again_example =
    authenticate_dashboard-again hash "clerk_1" "ann" 1 2 (drawn "a") (drawn "b") none (some "Acme")
      (holding none) (refl, refl)

trimmed : trim "\t a b \n" ≡ "a b"
unfolding trim_start trim_end
trimmed = refl
