-- ===== src/Alerts/Inputs.antt =====
-- service.ts: what comes with a request on alert rules, a value of any kind, and how it is checked.
use quorvel.Common.{
  String, Bool, true, not, ◌==◌, Option, none, some, List, [], ◌∷◌, get_or, str_eq, if◌then◌else◌,
}
use quorvel.Value.{
  Value, Items, Fields, undefined, null, bool, num, str, arr, obj, nil, cons, field, end,
}
use quorvel.Cloud.Access.Keys.{scope_items}
use quorvel.Cloud.Errors.{ApiError, bad_request, Answer, ok, fails}
use quorvel.Cloud.Text.{trim}
use quorvel.Alerts.{
  AlertTrigger, awaiting_approval, denied, failed, CreateAlertRuleInput, UpdateAlertRuleInput,
}

-- the body of a request
pub record RuleInput : Type 0 where
  pub name : Value
  pub trigger : Value
  pub scope : Option (Option String)
  pub channels : Value
  pub enabled : Value

abbrev pub trigger_name : AlertTrigger → String
trigger_name awaiting_approval = "awaiting_approval"
trigger_name denied = "denied"
trigger_name failed = "failed"

abbrev pub wrong_trigger : ApiError
wrong_trigger = bad_request "trigger must be one of: awaiting_approval, denied, failed"

abbrev trigger_named : String → Answer AlertTrigger
trigger_named s =
    if str_eq s "awaiting_approval"
    then ok awaiting_approval
    else if str_eq s "denied"
    then ok denied
    else if str_eq s "failed"
    then ok failed
    else fails wrong_trigger

abbrev pub normalize_trigger : Value → Answer AlertTrigger
normalize_trigger (str s) = trigger_named s
normalize_trigger _ = fails wrong_trigger

-- the texts of an array that has nothing else
abbrev texts : Items → Option (List String)
texts nil = some []
texts (cons (str s) vs) = elim (texts vs) [ none ↦ none | some ss ↦ some (s ∷ ss) ]
texts (cons _ vs) = none

abbrev pub normalize_channels : Value → Answer (List String)
normalize_channels (arr vs) = elim (texts vs) [
  | none ↦ fails (bad_request "channels must be an array of channel names")
  | some names ↦ ok names
]
normalize_channels _ = fails (bad_request "channels must be an array of channel names")

abbrev pub name_of : Value → String
name_of (str s) = trim s
name_of _ = ""

-- `input.enabled ?? true`: nothing checks the value, and a rule has it by its truth, which is all that
-- dispatch asks of it
abbrev pub enabled_of : Value → Option Bool
enabled_of undefined = none
enabled_of null = none
enabled_of (bool b) = some b
enabled_of (num n) = some (not (n == 0))
enabled_of (str s) = some (not (str_eq s ""))
enabled_of (obj fields) = some true
enabled_of (arr items) = some true

-- the next step of a call, unless the one before fails
infixl 20 ◌>>=◌
abbrev pub ◌>>=◌ : {A B : Type 0} → Answer A → (A → Answer B) → Answer B
ok a >>= f = f a
fails e >>= f = fails e

abbrev pub checked_name : String → Value → Answer String
checked_name message v =
    if str_eq (name_of v) "" then fails (bad_request message) else ok (name_of v)

abbrev pub create_input : RuleInput → Answer CreateAlertRuleInput
create_input input = checked_name "name is required" input.name >>= λ name.
    normalize_trigger input.trigger >>= λ trigger. normalize_channels input.channels >>= λ channels.
    ok (record {
      name = name;
      trigger = trigger;
      scope = get_or input.scope none;
      channels = channels;
      enabled = enabled_of input.enabled;
    })

abbrev pub create_metadata : CreateAlertRuleInput → Value
create_metadata input = obj (
    field "name" (str input.name) (
      field "trigger" (str (trigger_name input.trigger))
        (field "channels" (arr (scope_items input.channels)) end)))

-- a field of a patch: it is checked where it is there
abbrev pub given : {A : Type 0} → (Value → Answer A) → Value → Answer (Option A)
given check undefined = ok none
given check v = check v >>= λ a. ok (some a)

abbrev pub checked_enabled : Value → Answer Bool
checked_enabled (bool b) = ok b
checked_enabled _ = fails (bad_request "enabled must be a boolean")

abbrev pub update_input : RuleInput → Answer UpdateAlertRuleInput
update_input patch = given (checked_name "name must be a non-empty string") patch.name >>= λ name.
    given normalize_trigger patch.trigger >>= λ trigger.
    given normalize_channels patch.channels >>= λ channels.
    given checked_enabled patch.enabled >>= λ enabled. ok (record {
      name = name;
      trigger = trigger;
      scope = patch.scope;
      channels = channels;
      enabled = enabled;
    })

-- a field of an object, left out where it is not given
abbrev given_field : {A : Type 0} → String → (A → Value) → Option A → Fields → Fields
given_field k f none rest = rest
given_field k f (some a) rest = field k (f a) rest

abbrev scope_value : Option String → Value
scope_value none = null
scope_value (some s) = str s

abbrev pub update_metadata : UpdateAlertRuleInput → Value
update_metadata p = obj (
    given_field "name" str p.name (
      given_field "trigger" (λ t. str (trigger_name t)) p.trigger
        (given_field "scope" scope_value p.scope (
          given_field "channels" (λ c. arr (scope_items c)) p.channels
            (given_field "enabled" bool p.enabled end)))))
