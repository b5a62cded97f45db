-- ===== src/TokenEndpoint/Request.antt =====
-- The request for an access token, and `AccessTokenHelper.post_parse_request` of
-- src/idpyoidc/server/oauth2/token_helper/access_token.py.
use Prim.Native.Char.{Char, code}
use idpy_oidc.Base.{ℕ, Bool, true, false, not, Option, none, some, List, String, eqb, if◌then◌else◌}
use idpy_oidc.Session.Token.{
  TokenClass, authorization_code, access_token, refresh_token, id_token, session_token, is_active,
}
use idpy_oidc.Session.Grant.{Heap, Grant, AuthorizationRequest, get_token}
use idpy_oidc.TokenEndpoint.{Exception, key_error}

-- A missing key is `none`.
pub record AccessTokenRequest : Type 0 where
  pub grant_type : String
  pub code : Option String
  pub client_id : Option String
  pub redirect_uri : Option String
  pub resource : Option (List String)
  pub scope : List String
  pub dpop_jkt : Option String

-- What a check of the request returns or raises: an error message, or the request, changed or not.
pub data Parsed : Type 0 where
  rejected : String → String → Parsed
  crashed : Exception → Parsed
  request : AccessTokenRequest → Parsed

abbrev plus : Char → Char
plus c = if eqb (code c) b' ' then "+" else c

-- `replace(" ", "+")`
unfoldable pub with_plus : String → String
with_plus String.[] = String.[]
with_plus (String.◌∷◌ c s) = String.◌∷◌ (plus c) (with_plus s)

-- `if "client_id" not in request`
abbrev fill_client_id : Option AuthorizationRequest → AccessTokenRequest → Parsed
fill_client_id r req = elim req.client_id [
  | some cid ↦ request req
  | none ↦ elim r [
    | none ↦ crashed key_error
    | some q ↦ request (record req { client_id = some q.client_id })
  ]
]

abbrev pub is_authorization_code : TokenClass → Bool
is_authorization_code authorization_code = true
is_authorization_code access_token = false
is_authorization_code refresh_token = false
is_authorization_code id_token = false
is_authorization_code session_token = false

abbrev pub parse_code : ℕ → AccessTokenRequest → Heap → Grant → Option ℕ → Parsed
parse_code now req h g none = rejected "invalid_request" "Wrong token type"
parse_code now req h g (some p) =
    if not (is_authorization_code (h.at p).cls)
    then rejected "invalid_request" "Wrong token type"
    else if not (is_active now (h.at p).item)
    then rejected "invalid_request" "Code inactive"
    else fill_client_id g.authorization_request req

abbrev pub parse_found : ℕ → AccessTokenRequest → Heap → Option Grant → String → Parsed
parse_found now req h none c = rejected "invalid_grant" "Unknown code"
parse_found now req h (some g) c = parse_code now req h g (get_token h g c)

abbrev pub parse_text : ℕ → AccessTokenRequest → Heap → Option Grant → Option String → Parsed
parse_text now req h found none = rejected "invalid_grant" "Unknown code"
parse_text now req h found (some c) = parse_found now req h found c

-- `post_parse_request`, of the request and the grant that `get_session_info_by_token` finds, where
-- it finds one.
unfoldable pub post_parse_request : ℕ → Option Grant → AccessTokenRequest → Heap → Parsed
post_parse_request now found req h = parse_text now req h found req.code
