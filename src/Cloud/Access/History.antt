-- ===== src/Cloud/Access/History.antt =====
-- service.ts: histories of the calls on keys and logins.
use quorvel.Common.{ℕ, String, Option, List, [], ◌∷◌}
use quorvel.Cloud.Access.{Directory}
use quorvel.Cloud.Access.Keys.{Fresh, CreateApiKeyInput}
use quorvel.Cloud.Access.Calls.{
  IssueKeyInput, ProvisionOrgInput, issue_api_key, provision_org, authenticate,
  authenticate_dashboard, create_api_key, rotate_api_key, revoke_api_key,
}

-- One call of the service.
pub data Call : Type 0 where
  issues : (now : ℕ) → Fresh → IssueKeyInput → Call
  provisions : (now : ℕ) → Fresh → ProvisionOrgInput → Call
  authenticates : (now : ℕ) (header : Option String) → Call
  logs_in : (now : ℕ) → Fresh → (clerk_org user : String) (org_name : Option String) → Call
  creates : (now : ℕ) → Fresh → (org : String) → CreateApiKeyInput → Call
  rotates : (now : ℕ) → Fresh → (org id : String) (actor : Option String) → Call
  revokes : (now : ℕ) → Fresh → (org id : String) (actor : Option String) → Call

module _ (sha256 : String → String) where
  unfoldable pub perform : Call → Directory → Directory
  perform (issues now fresh input) d = (issue_api_key sha256 now fresh input d).1
  perform (provisions now fresh input) d = (provision_org sha256 now fresh input d).1
  perform (authenticates now header) d = (authenticate sha256 now header d).1
  perform (logs_in now fresh clerk_org user org_name) d =
      (authenticate_dashboard sha256 now fresh clerk_org user org_name d).1
  perform (creates now fresh org input) d = (create_api_key sha256 now fresh org input d).1
  perform (rotates now fresh org id actor) d = (rotate_api_key sha256 now fresh org id actor d).1
  perform (revokes now fresh org id actor) d = (revoke_api_key sha256 now fresh org id actor d).1

  unfoldable pub perform_all : List Call → Directory → Directory
  unfolding perform
  perform_all [] d = d
  perform_all (c ∷ cs) d = perform_all cs (perform c d)
