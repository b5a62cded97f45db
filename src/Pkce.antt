-- ===== src/Pkce.antt =====
-- src/idpyoidc/server/oauth2/add_on/pkce.py. The digests of `hashlib`, base64-encoded, are an
-- argument `digest`, by the name of the method.
pub mod Binding
use idpy_oidc.Base.{
  Bool, true, false, ◌&&◌, ◌||◌, not, Option, none, some, List, [], ◌∷◌, String, ◌==◌, contains,
  is_some, Outcome, ok, err, if◌then◌else◌,
}
use idpy_oidc.Session.Grant.{AuthorizationRequest}

-- The error responses, by their `error_description`, and a `KeyError`.
pub data Error : Type 0 where
  missing_code_challenge : Error
  unsupported_method : String → Error
  unknown_access_grant missing_code_verifier check_failed key_error : Error

-- `context.add_on["pkce"]`
pub record AddOn : Type 0 where
  pub essential : Bool
  pub code_challenge_methods : List String

-- The names in `CC_METHOD`.
abbrev pub cc_methods : List String
cc_methods = "plain" ∷ "S256" ∷ "S384" ∷ "S512" ∷ []

abbrev all_known : List String → Bool
all_known [] = true
all_known (m ∷ ms) = contains m cc_methods && all_known ms

-- `add_support`, on the methods of the configuration; `none` is a `ValueError`.
unfoldable pub add_support : Option (List String) → Bool → Option AddOn
add_support none essential =
    some (record { essential = essential; code_challenge_methods = cc_methods })
add_support (some methods) essential =
    if all_known methods
    then some (record { essential = essential; code_challenge_methods = methods })
    else none

abbrev essential_for : Option Bool → Bool → Bool
essential_for none d = d
essential_for (some b) d = b

abbrev method_or : Option String → String → String
method_or none d = d
method_or (some m) d = m

-- `post_authn_parse`; `pkce_essential` is the client's entry of that name.
unfoldable pub post_authn_parse :
    AddOn → Option Bool → AuthorizationRequest → Outcome Error AuthorizationRequest
post_authn_parse a pkce_essential r =
    let method = method_or r.code_challenge_method "plain" in
    if essential_for pkce_essential a.essential && not (is_some r.code_challenge)
    then err missing_code_challenge
    else if is_some r.code_challenge && not (contains method a.code_challenge_methods)
    then err (unsupported_method method)
    else ok (record r { code_challenge_method = some method })

-- A request at the token endpoint: one of the kinds that the add-on lets through, or one with a
-- code.
pub data TokenRequest : Type 0 where
  exempt : TokenRequest
  with_code : String → Option String → TokenRequest

module _ (digest : String → String → String) where
  -- `CC_METHOD[method]`
  unfoldable pub cc_method : String → String → Option String
  cc_method m v =
      if m == "plain"
      then some v
      else if contains m ("S256" ∷ "S384" ∷ "S512" ∷ [])
      then some (digest m v)
      else none

  abbrev verdict : Option String → String → Outcome Error Bool
  verdict none challenge = err key_error
  verdict (some c) challenge = ok (c == challenge)

  unfoldable pub verify_code_challenge : String → String → String → Outcome Error Bool
  unfolding cc_method
  verify_code_challenge verifier challenge method = verdict (cc_method method verifier) challenge

  abbrev checked : Outcome Error Bool → Outcome Error (Unit {0})
  checked (ok true) = ok tt
  checked (ok false) = err check_failed
  checked (err e) = err e

  abbrev check_challenge : Option String → Option String → Option String → Outcome Error (Unit {0})
  check_challenge none method verifier = ok tt
  check_challenge (some c) method none = err missing_code_verifier
  check_challenge (some c) none (some v) = err key_error
  check_challenge (some c) (some m) (some v) = checked (verify_code_challenge v c m)

  -- `post_token_parse`; `authn_req` is the authorization request of the grant of a code, and a code
  -- that is not known is a `KeyError`. What is returned besides is the request itself.
  unfoldable pub post_token_parse :
      (String → Option AuthorizationRequest) → TokenRequest → Outcome Error (Unit {0})
  unfolding verify_code_challenge
  post_token_parse authn_req exempt = ok tt
  post_token_parse authn_req (with_code code verifier) = elim (authn_req code) [
    | none ↦ err unknown_access_grant
    | some r ↦ check_challenge r.code_challenge r.code_challenge_method verifier
  ]
