-- ===== src/Examples/Refresh.antt =====
-- A run of the refresh of a token.
use idpy_oidc.Base.{◌≡◌, refl, true, false, some, none, List, [], ◌∷◌, String, In}
use idpy_oidc.Session.Token.{is_active}
use idpy_oidc.Session.Grant.{get_token, token_with_value}
use idpy_oidc.Session.Grant.Scope.{find_scope}
use idpy_oidc.TokenEndpoint.AccessToken.{Session}
use idpy_oidc.TokenEndpoint.RefreshToken.{
  RefreshRequest, scope_below, post_parse_request, process_request,
}
use idpy_oidc.TokenEndpoint.RefreshToken.Scope.{Gives, refresh_narrows}
use idpy_oidc.Examples.Data.{heap, grant, endpoint, fresh}

abbrev session : Session
session = record { client_id = "client"; branch_id = "branch" }

abbrev refresh : RefreshRequest
refresh = record {
  grant_type = "refresh_token";
  refresh_token = "refresh";
  client_id = some "client";
  scope = some ("openid" ∷ []);
  dpop_jkt = none;
}

refresh_narrows_example :
    (scopes : List String) × (scope_below heap grant (some "code") ≡ some scopes)
    × ((s : String) → In s ("openid" ∷ []) → In s scopes)
    × Gives 1 true
        ("openid" ∷ [])
        (process_request endpoint 1000 fresh fresh session false false true refresh heap grant)
refresh_narrows_example =
    refresh_narrows 1 true ("openid" ∷ []) endpoint 1000 fresh fresh session false false heap grant
      refresh refresh
      (unfold post_parse_request is_active find_scope get_token token_with_value in refl)
      (unfold get_token token_with_value in refl) refl
