-- ===== src/Examples/Endpoint.antt =====
-- Runs of the token endpoint.
use idpy_oidc.Base.{
  ℕ, ◌<◌, inl, inr, ◌≡◌, refl, false, none, some, List, [], ◌∷◌, String, arith, In,
}
use idpy_oidc.Dict
use idpy_oidc.Dict.{Dict}
use idpy_oidc.Session.Token.{
  supports_minting, is_active, init_token, token_map, set_expires_at, register_usage,
}
use idpy_oidc.Session.Grant.{Heap, Grant, get_token, token_with_value}
use idpy_oidc.Authz.{is_empty}
use idpy_oidc.Scopes.{Client, keep_in}
use idpy_oidc.TokenEndpoint.{mint, expires_in, apply_methods}
use idpy_oidc.Session.Grant.Mint.{mint_token, issue}
use idpy_oidc.Session.Grant.Payload.{payload_arguments}
use idpy_oidc.Session.Grant.Scope.{find_scope}
use idpy_oidc.TokenEndpoint.AccessToken.{
  Session, Reply, Response, response, answer, granted, access_part, refresh_part, process_request,
}
use idpy_oidc.TokenEndpoint.Request.{AccessTokenRequest, with_plus, rejected, post_parse_request}
use idpy_oidc.TokenEndpoint.Resources.{
  Servers, per_client, permitted, known_of, scopes_of, validate_resource_indicators_policy,
}
use idpy_oidc.TokenEndpoint.Resources.Narrow.{
  IsNarrowed, validate_resource_indicators_policy-IsNarrowed,
}
use idpy_oidc.TokenEndpoint.AccessToken.SingleUse.{
  Settles, process_request-Settles, process_request_once,
}
use idpy_oidc.TokenEndpoint.AccessToken.Code.{IsSingle}
use idpy_oidc.Examples.Data.{heap, grant, endpoint, fresh}

abbrev session : Session
session = record { client_id = "client"; branch_id = "branch" }

abbrev token_request : AccessTokenRequest
token_request = record {
  grant_type = "authorization_code";
  code = some "code";
  client_id = some "client";
  redirect_uri = some "https://rp.example/cb";
  resource = none;
  scope = [];
  dpop_jkt = none;
}

bounded : (u : ℕ) → In u grant.issued_token → u < heap.next
bounded u (inl e) = omega (arith, e)
bounded u (inr (inl e)) = omega (arith, e)
bounded u (inr (inr e)) = absurd e

single : IsSingle 0 "code" heap grant
single = record {
  exists = omega arith;
  limit = refl;
  found = unfold get_token token_with_value in refl;
  bounded = bounded;
}

process_request-Settles_example :
    Settles 0 "code" heap
      (process_request endpoint 1000 fresh fresh session none false false token_request heap grant)
process_request-Settles_example =
    process_request-Settles 0 "code" endpoint 1000 fresh fresh session none false false "code"
      token_request heap grant refl (unfold with_plus in refl) single

abbrev result : Reply × Heap × Grant
result = process_request endpoint 1000 fresh fresh session none false false token_request heap grant

abbrev answered : Response
answered = record {
  token_type = "Bearer";
  scope = "openid" ∷ "offline_access" ∷ [];
  access_token = some "fresh";
  expires_in = some 600;
  refresh_token = some "fresh";
}

responds : result ≡ (response answered, result.1, result.2)
unfolding process_request granted answer access_part refresh_part mint expires_in apply_methods
    is_empty mint_token issue init_token is_active supports_minting token_map find_scope
    payload_arguments set_expires_at register_usage get_token token_with_value with_plus Dict.get
responds = refl

process_request_once_example :
    (x : String) × (d : String) × (post_parse_request 1001 (some result.2) token_request result.1
      ≡ rejected x d)
process_request_once_example =
    process_request_once 0 "code" endpoint 1000 1001 fresh fresh session none false false "code"
      token_request token_request heap result.1 grant result.2 answered refl
      (unfold with_plus in refl) refl single responds

abbrev resource_request : AccessTokenRequest
resource_request = record token_request {
  resource = some ("api" ∷ "else" ∷ []);
  scope = "read" ∷ "write" ∷ [];
}

abbrev servers : Servers
servers = per_client (("client", "api" ∷ []) ∷ [])

abbrev allowing : List String → Client
allowing l = record { allowed_scopes = some l; scopes_to_claims = none; deny_unknown_scopes = none }

abbrev known : Dict Client
known = ("client", allowing []) ∷ ("api", allowing ("read" ∷ [])) ∷ []

abbrev narrowed : AccessTokenRequest
narrowed = record token_request { resource = some ("api" ∷ "client" ∷ []); scope = "read" ∷ [] }

validate_resource_indicators_policy-IsNarrowed_example :
    IsNarrowed known resource_request ("api" ∷ "else" ∷ []) ("api" ∷ []) "client" narrowed
validate_resource_indicators_policy-IsNarrowed_example =
    validate_resource_indicators_policy-IsNarrowed known resource_request ("api" ∷ "else" ∷ [])
      ("api" ∷ []) "client" narrowed servers refl refl (unfold permitted Dict.get in refl)
      (unfold validate_resource_indicators_policy permitted known_of scopes_of keep_in
          Dict.contains_key Dict.get in
        refl)
