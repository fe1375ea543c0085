-- ===== src/Errors.antt =====
-- packages/core/src/errors.ts, the errors of `run`: an error class and its fields are a constructor,
-- and `message` is the text that the class's constructor builds.
use Prim.Native.String
use quorvel.Common.{String, Option, none, some, str_eq, if◌then◌else◌}

pub data RunError : Type 0 where
  duplicate_in_flight : (key : String) → RunError
  approval_required : (key : String) (reason : String) → RunError
  policy_denied : (key : String) (reason : String) → RunError
  action_rejected : (key : String) (reason : Option String) → RunError
  -- whatever `execute` threw, by its message
  failure : String → RunError

infixr 65 ◌&◌
abbrev ◌&◌ : String → String → String
a & b = String.◌++◌ a b

-- `reason ? ` — ${reason}` : ""`: an empty reason is left out
rejected_reason : Option String → String
rejected_reason none = ""
rejected_reason (some reason) = if str_eq reason "" then "" else " — " & reason

unfoldable pub message : RunError → String
unfolding rejected_reason
message (duplicate_in_flight key) =
    "Quorvel: an action with this idempotency key is already in flight (" & key & ")"
message (approval_required key reason) =
    "Quorvel: action requires approval — " & reason & " [" & key & "]"
message (policy_denied key reason) =
    "Quorvel: action denied by policy — " & reason & " [" & key & "]"
message (action_rejected key reason) =
    "Quorvel: action was rejected" & rejected_reason reason & " [" & key & "]"
message (failure text) = text
