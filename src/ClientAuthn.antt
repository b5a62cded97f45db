-- ===== src/ClientAuthn.antt =====
-- src/idpyoidc/server/client_authn.py: how a client is authenticated. `base64` decoding, the unpacking of
-- a JWT with the key jar, and what the caller passes in are parameters. An entry of the client database
-- is a dictionary with at least one key.
pub mod Verify
pub mod Loop
pub mod Identified
pub mod Accepts
pub mod OneTime
pub mod Replay
use Prim.Native.Char.{code}
use Prim.Native.String.{◌++◌}
use Prim.Native.String
use idpy_oidc.Base.{
  ℕ, Bool, true, false, ◌&&◌, Option, none, some, List, [], ◌∷◌, String, ◌==◌, Outcome, eqb, ltb,
  is_nonzero, is_some, contains, if◌then◌else◌,
}
use idpy_oidc.Dict
use idpy_oidc.Dict.{Dict}

-- What the code reads of a request. `none` is a missing key.
pub record Request : Type 0 where
  pub client_id : Option String
  pub client_secret : Option String
  pub access_token : Option String
  pub client_assertion : Option String
  pub request : Option String

-- A JWT that was unpacked, with the two entries of its header.
pub record Jwt : Type 0 where
  pub iss : Option String
  pub aud : Option (List String)
  pub jti : Option String
  pub alg : Option String
  pub kid : Option String

-- What `JWT.unpack` does: it returns, raises `Invalid`, `MissingKey` or `BadSignature`, or raises
-- something else.
pub data Unpacked : Type 0 where
  unpacked : Jwt → Unpacked
  not_verified not_unpacked : Unpacked

-- An entry of the client database. `client_secret_expires_at` is 0 where it is missing; `endpoint_methods`
-- has the keys that end in `_client_authn_method`, by what is in front.
pub record ClientInfo : Type 0 where
  pub client_secret : Option String
  pub client_secret_expires_at : ℕ
  pub endpoint_methods : Dict (List String)
  pub client_authn_method : Option (List String)
  pub auth_method : Dict String

-- What verifying a request changes: the client database, the identifiers of JWTs that were seen, and the
-- request, which the verified JWT is added to.
pub record State : Type 0 where
  pub cdb : Dict ClientInfo
  pub jti_db : Dict ℕ
  pub verified : Option Jwt

-- The classes of methods.
pub data Method : Type 0 where
  none_authn public_authn client_secret_basic client_secret_post bearer_header : Method
  bearer_body client_secret_jwt private_key_jwt request_param : Method

unfoldable pub tag : Method → String
tag none_authn = "none"
tag public_authn = "public"
tag client_secret_basic = "client_secret_basic"
tag client_secret_post = "client_secret_post"
tag bearer_header = "bearer_header"
tag bearer_body = "bearer_body"
tag client_secret_jwt = "client_secret_jwt"
tag private_key_jwt = "private_key_jwt"
tag request_param = "request_param"

-- What `get_client_id_from_token` raises.
pub data TokenError : Type 0 where
  to_old key_error other_error : TokenError

-- What a method raises: `ClientAuthenticationError` and `BearerTokenAuthenticationError`, which leave
-- `verify_client`, or something else, which does not.
pub data Failure : Type 0 where
  client_authentication_error bearer_token_error other : Failure

-- What leaves `verify_client`.
pub data Exception : Type 0 where
  failed : Failure → Exception
  missing_key unknown_client invalid_client : Exception

-- What a method returns; `method` is set by `verify`.
pub record AuthInfo : Type 0 where
  pub client_id : Option String
  pub method : String
  pub token : Option String
  pub jwt : Option Jwt

-- The rest of what the code works with: the endpoint, the context and the arguments. `now` is the clock.
pub record Context : Type 0 where
  pub now : ℕ
  pub decode : String → Option String
  pub unpack : String → Unpacked
  pub oct_keys : String → Option String → List String
  pub allowed_target_uris : List String
  pub endpoint_name : String
  pub client_authn_method : List String
  pub client_authn_methods : Dict Method
  pub automatic_registration : Option (String → ClientInfo → Dict ClientInfo → Dict ClientInfo)
  pub get_client_id_from_token : Option (String → Outcome TokenError (Option String))
  pub also_known_as : Dict String
  pub get_client_info : Option (String → Option ClientInfo)
  pub request_type : String

-- What is left of a text after one that it starts with.
unfoldable pub after : String → String → Option String
after String.[] s = some s
after (String.◌∷◌ c p) String.[] = none
after (String.◌∷◌ c p) (String.◌∷◌ d s) =
    let rest = after p s in if eqb (code c) (code d) then rest else none

abbrev starts_with : String → Option String → Bool
starts_with p none = false
starts_with p (some s) = is_some (after p s)

abbrev asks : Option Request → (Request → Bool) → Bool
asks none f = false
asks (some r) f = f r

-- `is_usable`, of each class
unfoldable pub is_usable : Method → Option Request → Option String → Bool
unfolding after
is_usable none_authn r auth = is_some r
is_usable public_authn r auth = asks r (λ q. is_some q.client_id)
is_usable client_secret_basic r auth = starts_with "Basic " auth
is_usable client_secret_post r auth = asks r (λ q. is_some q.client_id && is_some q.client_secret)
is_usable bearer_header r auth = starts_with "Bearer " auth
is_usable bearer_body r auth = asks r (λ q. is_some q.access_token)
is_usable client_secret_jwt r auth = asks r (λ q. is_some q.client_assertion)
is_usable private_key_jwt r auth = asks r (λ q. is_some q.client_assertion)
is_usable request_param r auth = asks r (λ q. is_some q.request)

-- `valid_client_secret`
unfoldable pub valid_client_secret : ℕ → ClientInfo → Bool
valid_client_secret now c =
    if is_some c.client_secret
      && (is_nonzero c.client_secret_expires_at && ltb c.client_secret_expires_at now)
    then false
    else true

abbrev pub or_option : {A : Type 0} → Option A → Option A → Option A
or_option none d = d
or_option (some a) d = some a

-- The methods that a client may use at the endpoint; `none` is no restriction.
unfoldable pub client_methods : Context → ClientInfo → Option (List String)
client_methods c i = or_option (Dict.get i.endpoint_methods c.endpoint_name) i.client_authn_method

abbrev among : Option (List String) → String → Bool
among none m = true
among (some ms) m = contains m ms

unfoldable pub may_use : Context → ClientInfo → String → Bool
unfolding client_methods
may_use c i m = among (client_methods c i) m
