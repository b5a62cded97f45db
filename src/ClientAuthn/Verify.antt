-- ===== src/ClientAuthn/Verify.antt =====
-- The `_verify` methods of client_authn.py. Each returns the state, and what it returns or raises.
use Prim.Native.String.{◌++◌}
use idpy_oidc.Base.{
  ℕ, Bool, true, false, ◌&&◌, Option, none, some, List, [], ◌∷◌, String, ◌==◌, Outcome, ok, err,
  ◌>>=◌, is_nonempty, is_some, contains, if◌then◌else◌,
}
use idpy_oidc.Dict
use idpy_oidc.Dict.{Dict}
use idpy_oidc.Session.BranchId.{split_colon}
use idpy_oidc.ClientAuthn.{
  Request, Jwt, unpacked, not_verified, not_unpacked, ClientInfo, State, Method, none_authn,
  public_authn, client_secret_basic, client_secret_post, bearer_header, bearer_body,
  client_secret_jwt, private_key_jwt, request_param, tag, TokenError, to_old, key_error,
  other_error, Failure, client_authentication_error, bearer_token_error, other, AuthInfo, Context,
  after,
}

abbrev pub Verified : Type 0
Verified = Outcome Failure AuthInfo

abbrev pub found : Method → Option String → Option String → Option Jwt → AuthInfo
found m client_id token jwt = record {
  client_id = client_id;
  method = tag m;
  token = token;
  jwt = jwt;
}

abbrev pub need : {A : Type 0} → Failure → Option A → Outcome Failure A
need f none = err f
need f (some a) = ok a

-- `basic_authn`: the identifier and the secret.
unfoldable pub basic_authn : Context → String → Outcome Failure (String × String)
unfolding after split_colon
basic_authn c token = do
  tok ← need client_authentication_error (after "Basic " token)
  plain ← need other (c.decode tok)
  need other (split_colon plain)

-- The comparison with the secret in the client database.
unfoldable pub check_secret : Method → Dict ClientInfo → String → String → Verified
check_secret m cdb id secret = do
  entry ← need other (Dict.get cdb id)
  known ← need other entry.client_secret
  (if known == secret then ok (found m (some id) none none) else err client_authentication_error)

abbrev pub param : Option Request → (Request → Option String) → Outcome Failure String
param none f = err other
param (some r) f = need other (f r)

unfoldable pub verify_basic : Context → Option String → Dict ClientInfo → Verified
unfolding basic_authn check_secret
verify_basic c auth cdb = do
  token ← need other auth
  p ← basic_authn c token
  check_secret client_secret_basic cdb p.0 p.1

unfoldable pub verify_post : Option Request → Dict ClientInfo → Verified
unfolding check_secret
verify_post r cdb = do
  id ← param r (λ q. q.client_id)
  entry ← need other (Dict.get cdb id)
  known ← need other entry.client_secret
  secret ← param r (λ q. q.client_secret)
  check_secret client_secret_post cdb id secret

abbrev token_owner : Outcome TokenError (Option String) → Outcome Failure (Option String)
token_owner (ok id) = ok id
token_owner (err to_old) = err bearer_token_error
token_owner (err key_error) = err bearer_token_error
token_owner (err other_error) = ok (some "")

abbrev pub owner_of :
    Option (String → Outcome TokenError (Option String)) → String → Outcome Failure (Option String)
owner_of none token = ok (some "")
owner_of (some f) token = token_owner (f token)

-- `BearerHeader._verify`: the text after the first space is what follows "Bearer ".
unfoldable pub verify_bearer_header : Context → Option String → Verified
unfolding after
verify_bearer_header c auth = do
  header ← need other auth
  token ← need other (after "Bearer " header)
  id ← owner_of c.get_client_id_from_token token
  ok (found bearer_header id (some token) none)

abbrev nonempty_or_none : Option String → Option String
nonempty_or_none none = none
nonempty_or_none (some s) = if is_nonempty s then some s else none

abbrev pub any_failure : Outcome TokenError (Option String) → Outcome Failure (Option String)
any_failure (ok id) = ok id
any_failure (err e) = err other

abbrev pub body_token : Option Request → Outcome Failure String
body_token none = err other
body_token (some r) = need client_authentication_error r.access_token

unfoldable pub verify_bearer_body : Context → Option Request → Verified
verify_bearer_body c r = do
  token ← body_token r
  f ← need other c.get_client_id_from_token
  id ← any_failure (f token)
  ok (found bearer_body (nonempty_or_none id) (some token) none)

-- `_jwt.unpack` of the text of a parameter
abbrev pub unpack_param : Context → String → Outcome Failure Jwt
unpack_param c text = elim (c.unpack text) [
  | unpacked j ↦ ok j
  | not_verified ↦ err client_authentication_error
  | not_unpacked ↦ err other
]

abbrev is_hs : Option String → Bool
is_hs none = false
is_hs (some alg) = is_nonempty alg && is_some (after "HS" alg)

abbrev key_is : List String → String → Outcome Failure Unit
key_is [] secret = err other
key_is (k ∷ ks) secret = if k == secret then ok tt else err other

abbrev key_is_secret : List String → Option String → Outcome Failure Unit
key_is_secret keys none = ok tt
key_is_secret keys (some secret) = if is_nonempty secret then key_is keys secret else ok tt

-- The checks of the algorithm and of the key that the JWT was signed with.
unfoldable pub check_key : Method → Context → Dict ClientInfo → Jwt → Outcome Failure Unit
unfolding after
check_key m c cdb j =
    if is_hs j.alg
    then (if tag m == "private_key_jwt" then err other else (do
      iss ← need other j.iss
      entry ← need other (Dict.get cdb iss)
      key_is_secret (c.oct_keys iss j.kid) entry.client_secret))
    else if tag m == "client_secret_jwt"
    then err other
    else ok tt

abbrev meets : List String → List String → Bool
meets [] ys = false
meets (x ∷ xs) ys = if contains x ys then true else meets xs ys

unfoldable pub check_aud : Context → Jwt → Outcome Failure Unit
check_aud c j = do
  aud ← need other j.aud
  (if meets aud c.allowed_target_uris then ok tt else err client_authentication_error)

-- `InvalidToken` is a `ClientAuthenticationError`. The key of `jti_db`
abbrev pub jti_key : String → String → String
jti_key iss jti = iss ++ (":" ++ jti)

abbrev pub remembered : Context → Dict ℕ → String → String → Outcome Failure (Dict ℕ)
remembered c db jti iss =
    if Dict.contains_key db (jti_key iss jti)
    then err client_authentication_error
    else ok (Dict.put db (jti_key iss jti) c.now)

abbrev pub check_some : Context → Jwt → Dict ℕ → Option String → Outcome Failure (Dict ℕ)
check_some c j db none = ok db
check_some c j db (some jti) =
    if is_nonempty jti then need other j.iss >>= remembered c db jti else ok db

-- The one-time check of `jti`: the database with the new key.
unfoldable pub check_jti : Context → Jwt → Dict ℕ → Outcome Failure (Dict ℕ)
check_jti c j db = check_some c j db j.jti

-- After the one-time check: the request gets the JWT, and the issuer is the client.
unfoldable pub settle : Method → Jwt → State → Outcome Failure (Dict ℕ) → State × Verified
settle m j s (err f) = (s, err f)
settle m j s (ok db) = (
  record s { jti_db = db; verified = some j },
  (need other j.iss >>= λ iss. ok (found m (some iss) none (some j))),
)

abbrev pub after_checks : Method → Context → Jwt → State → Outcome Failure Unit → State × Verified
after_checks m c j s (err f) = (s, err f)
after_checks m c j s (ok u) = settle m j s (check_jti c j s.jti_db)

abbrev pub with_jwt :
    Method → Context → (Jwt → Outcome Failure Unit) → State → Outcome Failure Jwt → State × Verified
with_jwt m c checks s (err f) = (s, err f)
with_jwt m c checks s (ok j) = after_checks m c j s (checks j)

abbrev pub jws_checks : Method → Context → Dict ClientInfo → Jwt → Outcome Failure Unit
jws_checks m c cdb j = check_key m c cdb j >>= λ _. check_aud c j

abbrev pub no_checks : Jwt → Outcome Failure Unit
no_checks j = ok tt

abbrev pub assertion : Context → Option Request → Outcome Failure Jwt
assertion c r = param r (λ q. q.client_assertion) >>= unpack_param c

abbrev pub request_object : Context → Option Request → Outcome Failure Jwt
request_object c r = param r (λ q. q.request) >>= unpack_param c

-- `JWSAuthnMethod._verify`, with the type of key that the method names.
unfoldable pub verify_jws : Method → Context → Option Request → State → State × Verified
unfolding check_key check_aud check_jti settle
verify_jws m c r s = with_jwt m c (jws_checks m c s.cdb) s (assertion c r)

-- `RequestParam._verify`
unfoldable pub verify_request_param : Context → Option Request → State → State × Verified
unfolding check_jti settle
verify_request_param c r s = with_jwt request_param c no_checks s (request_object c r)

-- `verify`, which is `_verify` of the class and the tag.
unfoldable pub verify : Method → Context → Option Request → Option String → State → State × Verified
unfolding verify_basic verify_post verify_bearer_header verify_bearer_body verify_jws
    verify_request_param
verify none_authn c none auth s = (s, err other)
verify none_authn c (some r) auth s = (s, ok (found none_authn r.client_id none none))
verify public_authn c r auth s =
    (s, param r (λ q. q.client_id) >>= λ id. ok (found public_authn (some id) none none))
verify client_secret_basic c r auth s = (s, verify_basic c auth s.cdb)
verify client_secret_post c r auth s = (s, verify_post r s.cdb)
verify bearer_header c r auth s = (s, verify_bearer_header c auth)
verify bearer_body c r auth s = (s, verify_bearer_body c r)
verify client_secret_jwt c r auth s = verify_jws client_secret_jwt c r s
verify private_key_jwt c r auth s = verify_jws private_key_jwt c r s
verify request_param c r auth s = verify_request_param c r s
