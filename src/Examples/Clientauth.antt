-- ===== src/Examples/Clientauth.antt =====
-- Runs of `verify_client`: with a secret in the request, and with a JWT.
use idpy_oidc.Base.{◌≡◌, refl, none, some, [], ◌∷◌, String, ok}
use idpy_oidc.Dict
use idpy_oidc.ClientAuthn.{
  Request, Jwt, unpacked, ClientInfo, State, client_secret_post, request_param, Context, AuthInfo,
  is_usable, after, tag, valid_client_secret, client_methods, may_use,
}
use idpy_oidc.ClientAuthn.Verify.{
  verify, verify_post, check_secret, verify_request_param, settle, check_jti,
}
use idpy_oidc.ClientAuthn.Loop.{
  verify_client, rounds, round, identify, known_as, client_info, judge, note,
}
use idpy_oidc.ClientAuthn.Accepts.{IsAccepted, verify_client-IsAccepted}
use idpy_oidc.ClientAuthn.OneTime.{Names}
use idpy_oidc.ClientAuthn.Replay.{stay, verify_client_once}

abbrev jwt : String → Jwt
jwt jti = record { iss = some "client"; aud = none; jti = some jti; alg = none; kid = none }

abbrev context : Context
context = record {
  now = 100;
  decode = λ s. some s;
  unpack = λ s. unpacked (jwt s);
  oct_keys = λ iss kid. [];
  allowed_target_uris = [];
  endpoint_name = "token";
  client_authn_method = "client_secret_post" ∷ "request_param" ∷ [];
  client_authn_methods =
      ("client_secret_post", client_secret_post) ∷ ("request_param", request_param) ∷ [];
  automatic_registration = none;
  get_client_id_from_token = none;
  also_known_as = [];
  get_client_info = none;
  request_type = "TokenRequest";
}

abbrev entry : ClientInfo
entry = record {
  client_secret = some "hemligt";
  client_secret_expires_at = 200;
  endpoint_methods = [];
  client_authn_method = some ("client_secret_post" ∷ "request_param" ∷ []);
  auth_method = [];
}

abbrev start : State
start = record { cdb = ("client", entry) ∷ []; jti_db = []; verified = none }

abbrev with_secret : Request
with_secret = record {
  client_id = some "client";
  client_secret = some "hemligt";
  access_token = none;
  client_assertion = none;
  request = none;
}

abbrev with_jwt : String → Request
with_jwt jti = record {
  client_id = none;
  client_secret = none;
  access_token = none;
  client_assertion = none;
  request = some jti;
}

abbrev by_secret : AuthInfo
by_secret = record {
  client_id = some "client";
  method = "client_secret_post";
  token = none;
  jwt = none;
}

abbrev by_jwt : String → AuthInfo
by_jwt jti = record {
  client_id = some "client";
  method = "request_param";
  token = none;
  jwt = some (jwt jti);
}

abbrev noted : String → ClientInfo
noted method = record entry { auth_method = ("TokenRequest", method) ∷ [] }

abbrev after_one : State
after_one = record {
  cdb = ("client", noted "request_param") ∷ [];
  jti_db = ("client:one", 100) ∷ [];
  verified = some (jwt "one");
}

abbrev after_two : State
after_two = record {
  cdb = ("client", noted "request_param") ∷ [];
  jti_db = ("client:one", 100) ∷ ("client:two", 100) ∷ [];
  verified = some (jwt "two");
}

secret_run :
    verify_client context (some with_secret) none start
    ≡ (record start { cdb = ("client", noted "client_secret_post") ∷ [] }, ok (some by_secret))
unfolding verify_client rounds round identify known_as client_info judge note is_usable after tag
    valid_client_secret client_methods may_use verify verify_post check_secret Dict.get Dict.put
secret_run = refl

verify_client-IsAccepted_example :
    IsAccepted context
      (some with_secret)
      none
      start.cdb
      ("client_secret_post" ∷ "request_param" ∷ [])
      by_secret
verify_client-IsAccepted_example =
    verify_client-IsAccepted context (some with_secret) none start (refl, refl) secret_run

first_run :
    verify_client context (some (with_jwt "one")) none start ≡ (after_one, ok (some (by_jwt "one")))
unfolding verify_client rounds round identify known_as client_info judge note is_usable after tag
    valid_client_secret client_methods may_use verify verify_request_param settle check_jti Dict.get
    Dict.put Dict.contains_key
first_run = refl

second_run :
    verify_client context (some (with_jwt "two")) none after_one
    ≡ (after_two, ok (some (by_jwt "two")))
unfolding verify_client rounds round identify known_as client_info judge note is_usable after tag
    valid_client_secret client_methods may_use verify verify_request_param settle check_jti Dict.get
    Dict.put Dict.contains_key
second_run = refl

verify_client_once_example : ¬ Names (jwt "two") "client" "one"
verify_client_once_example =
    verify_client_once context context (some (with_jwt "one")) (some (with_jwt "two")) none none
      start (jwt "one") (jwt "two") "client" "one" first_run refl (refl, refl, refl) stay second_run
      refl
