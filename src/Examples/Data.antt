-- ===== src/Examples/Data.antt =====
-- A grant with an authorization code, two tokens on a heap, and a context.
use idpy_oidc.Base.{ℕ, true, false, Option, none, some, [], ◌∷◌, String, eqb, if◌then◌else◌}
use idpy_oidc.Session.Token.{
  Item, SessionToken, TokenClass, authorization_code, refresh_token, UsageRules, no_rules,
}
use idpy_oidc.Session.Grant.{Heap, Grant, AuthorizationRequest}
use idpy_oidc.Session.Grant.Mint.{MintArgs}
use idpy_oidc.Session.Grant.Payload.{Context}
use idpy_oidc.Session.Grant.Mint.Effect.{Handler}
use idpy_oidc.TokenEndpoint.{Endpoint, Fresh}

abbrev pub item_with : UsageRules → Item
item_with r = record {
  usage_rules = r;
  issued_at = 100;
  expires_at = 0;
  not_before = 0;
  revoked = false;
  used = 0;
}

abbrev pub token : TokenClass → String → String → Option String → UsageRules → SessionToken
token cls token_class value based_on rules = record {
  item = item_with rules;
  cls = cls;
  token_class = token_class;
  value = value;
  based_on = based_on;
  id = "id";
  scope = "openid" ∷ "offline_access" ∷ [];
  claims = [];
  resources = [];
  token_type = "";
  session_id = "";
}

abbrev pub code_rules : UsageRules
code_rules = record {
  max_usage = some 1;
  supports_minting = some ("access_token" ∷ "refresh_token" ∷ []);
  expires_in = none;
}

abbrev pub refresh_rules : UsageRules
refresh_rules = record {
  max_usage = none;
  supports_minting = some ("access_token" ∷ "refresh_token" ∷ []);
  expires_in = none;
}

-- At 0 a code, at 1 a refresh token that is based on it.
abbrev pub heap : Heap
heap = record {
  at = λ p.
      if eqb p 0
      then token authorization_code "authorization_code" "code" none code_rules
      else token refresh_token "refresh_token" "refresh" (some "code") refresh_rules;
  next = 2;
}

abbrev pub authorization : AuthorizationRequest
authorization = record {
  client_id = "client";
  redirect_uri = some "https://rp.example/cb";
  code_challenge = none;
  code_challenge_method = none;
  scope = none;
  claims = none;
  audience = [];
}

abbrev pub grant : Grant
grant = record {
  item = item_with no_rules;
  id = "grant";
  class_rules = ("access_token", record no_rules { expires_in = some 600 }) ∷ [];
  scope = "openid" ∷ "offline_access" ∷ [];
  claims = [];
  resources = [];
  authorization_request = some authorization;
  authn_info = none;
  issued_token = 0 ∷ 1 ∷ [];
  sub = "diana";
  dpop_jkt = none;
  remembers = false;
  remove_inactive_token = false;
}

abbrev pub context : Context
context = record {
  claims_release_points = "id_token" ∷ [];
  users_first = true;
  get_claims = λ session_id scope point secondary. [];
  get_user_claims = λ user claims client. [];
  ids = λ session_id. ("diana", "client");
}

abbrev pub handler : Handler
handler session_id rules payload = "fresh"

abbrev pub mint_args : String → Option ℕ → MintArgs
mint_args token_class based_on = record {
  session_id = "session";
  token_class = token_class;
  based_on = based_on;
  usage_rules = none;
  scope = none;
  token_type = "";
  expires_in = 0;
  not_before = 0;
  claims = [];
  resources = [];
  audience = [];
  aud = [];
  code = none;
  access_token = none;
  as_if = none;
}

abbrev pub endpoint : Endpoint
endpoint = record {
  context = context;
  token_handler = λ token_class. handler;
  lifetime = λ token_class. 3600;
  token_args_methods = [];
}

abbrev pub fresh : Fresh
fresh = record { id = "uuid"; jti = "jti" }
