-- ===== src/Message/Oauth2.antt =====
-- Classes of messages of src/idpyoidc/message/oauth2/__init__.py, and what they add to `verify`. The check
-- of a request object's signature, `from_jwt`, is a parameter.
pub mod Merge
pub mod Response
use Prim.Native.Char.{Char, code}
use Prim.Native.String
use idpy_oidc.Base.{
  Bool, true, false, ◌&&◌, ◌||◌, Option, none, some, List, [], ◌∷◌, String, ◌==◌, eqb, leb, Outcome,
  ok, err, ◌>>=◌, contains, if◌then◌else◌,
}
use idpy_oidc.Dict
use idpy_oidc.Dict.{Dict}
use idpy_oidc.Message.{Atom, str, Value, atom, Spec, MessageClass}
use idpy_oidc.Message.Parse.{elements}
use idpy_oidc.Message.Verify as Verify
use idpy_oidc.Message.Verify.{Fault}
use idpy_oidc.Message.Specs.{
  single_required_string, single_optional_string, single_optional_int, optional_list_of_strings,
  optional_list_of_sp_sep_strings, required_list_of_sp_sep_strings,
}

-- A class none of whose parameters is a message.
abbrev pub class_of : Dict Spec → Dict (List String) → Dict Value → MessageClass
class_of params allowed defaults = record {
  c_param = params;
  c_allowed_values = allowed;
  c_default = defaults;
  is_subclass = λ m n. m == n;
  new_message = λ n j. none;
}

abbrev pub text : String → Value
text s = atom (str s)

abbrev pub error_params : Dict Spec
error_params =
    ("error", single_optional_string)
    ∷ ("error_description", single_optional_string)
    ∷ ("error_uri", single_optional_string)
    ∷ []

abbrev pub authorization_errors : List String
authorization_errors =
    "invalid_request" ∷ "unauthorized_client" ∷ "access_denied" ∷ "unsupported_response_type"
    ∷ "invalid_scope" ∷ "server_error" ∷ "temporarily_unavailable" ∷ []

abbrev pub authorization_error_response : MessageClass
authorization_error_response =
    class_of (Dict.update error_params (("state", single_optional_string) ∷ []))
      (("error", authorization_errors) ∷ []) []

abbrev pub token_errors : List String
token_errors =
    "invalid_request" ∷ "invalid_client" ∷ "invalid_grant" ∷ "unauthorized_client"
    ∷ "unsupported_grant_type" ∷ "invalid_scope" ∷ []

abbrev pub token_error_response : MessageClass
token_error_response = class_of error_params (("error", token_errors) ∷ []) []

abbrev pub access_token_request : MessageClass
access_token_request =
    class_of
      (("grant_type", single_required_string)
        ∷ ("code", single_required_string)
        ∷ ("redirect_uri", single_required_string)
        ∷ ("client_id", single_optional_string)
        ∷ ("client_secret", single_optional_string)
        ∷ ("state", single_optional_string)
        ∷ [])
      [] (("grant_type", text "authorization_code") ∷ [])

abbrev pub authorization_request : MessageClass
authorization_request =
    class_of
      (("response_type", required_list_of_sp_sep_strings)
        ∷ ("client_id", single_required_string)
        ∷ ("scope", optional_list_of_sp_sep_strings)
        ∷ ("redirect_uri", single_optional_string)
        ∷ ("state", single_optional_string)
        ∷ ("request", single_optional_string)
        ∷ ("resource", optional_list_of_strings)
        ∷ [])
      [] []

abbrev pub authorization_response : MessageClass
authorization_response =
    class_of
      (Dict.update error_params (
        ("code", single_required_string)
        ∷ ("state", single_optional_string)
        ∷ ("iss", single_optional_string)
        ∷ ("client_id", single_optional_string)
        ∷ []))
      [] []

abbrev pub access_token_response : MessageClass
access_token_response =
    class_of
      (Dict.update error_params (
        ("access_token", single_required_string)
        ∷ ("token_type", single_required_string)
        ∷ ("expires_in", single_optional_int)
        ∷ ("refresh_token", single_optional_string)
        ∷ ("scope", optional_list_of_sp_sep_strings)
        ∷ ("state", single_optional_string)
        ∷ []))
      [] []

abbrev pub refresh_access_token_request : MessageClass
refresh_access_token_request =
    class_of
      (("grant_type", single_required_string)
        ∷ ("refresh_token", single_required_string)
        ∷ ("scope", optional_list_of_sp_sep_strings)
        ∷ ("client_id", single_optional_string)
        ∷ ("client_secret", single_optional_string)
        ∷ [])
      (("grant_type", "refresh_token" ∷ []) ∷ []) (("grant_type", text "refresh_token") ∷ [])

abbrev pub token_introspection_request : MessageClass
token_introspection_request =
    class_of
      (("token", single_required_string)
        ∷ ("token_type_hint", single_optional_string)
        ∷ ("client_id", single_optional_string)
        ∷ ("client_assertion_type", single_optional_string)
        ∷ ("client_assertion", single_optional_string)
        ∷ [])
      [] []

abbrev pub token_exchange_request : MessageClass
token_exchange_request =
    class_of
      (("grant_type", single_required_string)
        ∷ ("resource", optional_list_of_strings)
        ∷ ("audience", optional_list_of_strings)
        ∷ ("scope", optional_list_of_sp_sep_strings)
        ∷ ("requested_token_type", single_optional_string)
        ∷ ("subject_token", single_required_string)
        ∷ ("subject_token_type", single_required_string)
        ∷ ("actor_token", single_optional_string)
        ∷ ("actor_token_type", single_optional_string)
        ∷ [])
      [] []

abbrev pub token_revocation_request : MessageClass
token_revocation_request =
    class_of
      (("token", single_required_string)
        ∷ ("token_type_hint", single_optional_string)
        ∷ ("client_id", single_optional_string)
        ∷ ("client_secret", single_optional_string)
        ∷ [])
      [] []

pub data Error : Type 0 where
  fault : Fault → Error
  value_error : Error
  type_error : Error
  key_error : Error
  verification_error : String → Error
  missing_attribute : Error
  jwt_error : Error

abbrev pub lift : Outcome Fault Unit → Outcome Error Unit
lift (ok u) = ok u
lift (err f) = err (fault f)

-- `error_chars`
abbrev pub is_error_char : Char → Bool
is_error_char c =
    (leb 65 (code c) && leb (code c) 90)
    || (leb 97 (code c) && leb (code c) 122)
    || (eqb (code c) 32 || eqb (code c) 33)

abbrev pub is_error_text : String → Bool
is_error_text String.[] = false
is_error_text (String.◌∷◌ c String.[]) = is_error_char c
is_error_text (String.◌∷◌ c (String.◌∷◌ d s)) = false

abbrev pub all_error_chars : List Atom → Bool
all_error_chars [] = true
all_error_chars (str s ∷ xs) = is_error_text s && all_error_chars xs
all_error_chars (a ∷ xs) = false

abbrev pub check_elements : Option (List Atom) → Outcome Error Unit
check_elements none = err type_error
check_elements (some xs) = if all_error_chars xs then ok tt else err value_error

-- The check of the letters of a description.
abbrev pub check_description : Option Value → Outcome Error Unit
check_description none = ok tt
check_description (some v) = check_elements (elements v)

-- `ResponseMessage.verify`, of a message of this or another class
unfoldable pub verify_response : MessageClass → Dict Value → Outcome Error Unit
unfolding Verify.verify
verify_response c d =
    lift (Verify.verify c d) >>= λ _. check_description (Dict.get d "error_description")

-- A parameter that the caller may have a value for, too.
abbrev pub check_same : String → Option Value → Option String → Outcome Error Unit
check_same what none o = ok tt
check_same what (some v) none = ok tt
check_same what (some (atom (str s))) (some t) =
    if s == t then ok tt else err (verification_error what)
check_same what (some v) (some t) = err (verification_error what)

-- `AuthorizationResponse.verify`, with the keyword arguments `client_id` and `iss`; `none` is no argument
unfoldable pub verify_authorization_response :
    Option String → Option String → Dict Value → Outcome Error Unit
unfolding verify_response
verify_authorization_response client_id iss d = verify_response authorization_response d >>= λ _.
    check_same "client_id mismatch" (Dict.get d "client_id") client_id >>= λ _.
    check_same "Issuer mismatch" (Dict.get d "iss") iss

-- `clear_verified_claims`
unfoldable pub clear_verified_claims : Dict Value → Dict Value
clear_verified_claims d = Dict.delete d "__verified_request"

-- The loops of `merge` and of `verify` that delete what another message, or a list, does not have.
unfoldable pub keep_if : (String → Bool) → Dict Value → Dict Value
keep_if p [] = []
keep_if p ((k, v) ∷ d) = let rest = keep_if p d in if p k then (k, v) ∷ rest else rest

pub data Treatment : Type 0 where
  strict : Treatment
  lax : Treatment
  whitelist : List String → Treatment

abbrev pub kept : Treatment → Dict Value → Dict Value → Dict Value
kept strict o d = keep_if (Dict.contains_key o) d
kept lax o d = d
kept (whitelist []) o d = d
kept (whitelist (x ∷ xs)) o d = keep_if (λ k. contains k (x ∷ xs)) d

-- `merge`, of a request object into a request; any other treatment is as `lax`.
unfoldable pub merge : Treatment → Dict Value → Dict Value → Dict Value
unfolding keep_if
merge t o d = Dict.update (kept t o d) o

-- What `from_jwt` makes of a text: the parameters, or an exception.
abbrev pub FromJwt : Type 0
FromJwt = String → Option (Dict Value)

abbrev pub or_jwt_error : {A : Type 0} → Option A → Outcome Error A
or_jwt_error none = err jwt_error
or_jwt_error (some a) = ok a

-- The part of `AuthorizationRequest.verify` for a request object; `instance_of` is the request object as
-- the value of a parameter.
abbrev pub with_object :
    FromJwt → (Dict Value → Value) → Option Value → Dict Value → Outcome Error (Dict Value)
with_object from_jwt instance_of (some (atom (str s))) d = do
  o ← or_jwt_error (from_jwt s)
  ok (Dict.put (merge strict o d) "__verified_request" (instance_of o))
with_object from_jwt instance_of v d = ok d

-- `AuthorizationRequest.verify`; `opponent_id` tells whether the caller gives one.
unfoldable pub verify_authorization_request :
    FromJwt → (Dict Value → Value) → Bool → Dict Value → Outcome Error (Dict Value)
unfolding Verify.verify merge clear_verified_claims
verify_authorization_request from_jwt instance_of opponent_id d =
    lift (Verify.verify authorization_request d) >>= λ _.
    (let d' = clear_verified_claims d in
      if opponent_id || Dict.contains_key d' "client_id"
      then with_object from_jwt instance_of (Dict.get d' "request") d'
      else err key_error)
