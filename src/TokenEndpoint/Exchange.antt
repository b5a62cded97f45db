-- ===== src/TokenEndpoint/Exchange.antt =====
-- `validate_token_exchange_policy` of src/idpyoidc/server/oauth2/token_helper/__init__.py. Lists
-- stand for the sets that the code makes of them; `none` is a missing parameter.
pub mod Policy
use Prim.Native.String.{◌++◌ as ◌+++◌}
use idpy_oidc.Base.{
  Bool, true, not, ◌&&◌, ◌||◌, Option, none, some, List, [], ◌∷◌, String, ◌==◌, is_some, opt_is,
  contains, if◌then◌else◌,
}
use idpy_oidc.Scopes.{keep_in, subset}

pub record ExchangeRequest : Type 0 where
  pub subject_token_type : String
  pub requested_token_type : Option String
  pub resource : Option (List String)
  pub audience : Option (List String)
  pub actor_token : Option String
  pub actor_token_type : Option String
  pub scope : Option (List String)

-- The keyword arguments of the policy; an empty list is a missing one.
pub record Allowed : Type 0 where
  pub resource : List String
  pub audience : List String
  pub scope : List String

pub data Exchange : Type 0 where
  refused : String → String → Exchange
  granted : ExchangeRequest → Exchange

abbrev pub refresh_token_type : String
refresh_token_type = "urn:ietf:params:oauth:token-type:refresh_token"

abbrev pub resource_known : List String → Option (List String) → Bool
resource_known resource none = true
resource_known resource (some asked) = subset asked resource

abbrev pub audience_known : List String → List String → Bool
audience_known [] asked = true
audience_known (x ∷ xs) asked = subset asked (x ∷ xs)

-- What is wrong with the audience.
abbrev pub audience_fault : List String → String → Option (List String) → Option String
audience_fault audience subject_token_type none = none
audience_fault audience subject_token_type (some asked) =
    if subject_token_type == refresh_token_type
    then some "Refresh token has single owner"
    else if audience_known audience asked
    then none
    else some "Unknown audience"

abbrev pub with_default : Option (List String) → List String → List String
with_default none d = d
with_default (some l) d = l

abbrev pub restrict : List String → List String → List String
restrict [] scopes = scopes
restrict (x ∷ xs) scopes = keep_in (x ∷ xs) scopes

-- No scopes left: the parameter is dropped.
abbrev pub nonempty_or_none : List String → Option (List String)
nonempty_or_none [] = none
nonempty_or_none (x ∷ xs) = some (x ∷ xs)

unfoldable pub exchange_scope :
    List String → List String → Option (List String) → Option (List String)
exchange_scope allowed subject scope =
    nonempty_or_none (restrict allowed (keep_in subject (with_default scope subject)))

-- The checks behind the audience; `subject` is the scope of the subject token.
abbrev pub end_checks : Allowed → List String → ExchangeRequest → Exchange
end_checks k subject req =
    if is_some req.actor_token || is_some req.actor_token_type
    then refused "invalid_request" "Actor token not supported"
    else if opt_is req.requested_token_type refresh_token_type
        && not (contains "offline_access" subject)
    then refused "invalid_request"
        ("Exchange " +++ (req.subject_token_type +++ " to refresh token forbidden"))
    else granted (record req { scope = exchange_scope k.scope subject req.scope })

unfoldable pub validate_token_exchange_policy : Allowed → List String → ExchangeRequest → Exchange
validate_token_exchange_policy k subject req =
    if not (resource_known k.resource req.resource)
    then refused "invalid_target" "Unknown resource"
    else elim (audience_fault k.audience req.subject_token_type req.audience) [
      | some d ↦ refused "invalid_target" d
      | none ↦ end_checks k subject req
    ]
