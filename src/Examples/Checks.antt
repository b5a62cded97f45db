-- ===== src/Examples/Checks.antt =====
-- Runs of the checks on requests, and of the rules for scopes, claims and usage.
use idpy_oidc.Base.{
  ◌≡◌, refl, ◌↔◌, true, false, Option, none, some, List, [], ◌∷◌, String, In, ok, is_nonempty,
}
use idpy_oidc.Dict
use idpy_oidc.Dict.{Dict}
use idpy_oidc.Session.Token.{no_rules, UsageRules}
use idpy_oidc.Session.Claims.{text, value_is, essential, claims_match}
use idpy_oidc.Session.Claims.Matching.{Satisfies, claims_match_iff}
use idpy_oidc.Session.Grant.{AuthorizationRequest}
use idpy_oidc.Authz.{usage_rules, usage_rules_for, Shared, merge, is_empty, get_usage_rules}
use idpy_oidc.Authz.Leak.{get_usage_rules_leaks}
use idpy_oidc.Pkce.{AddOn, post_authn_parse, with_code, post_token_parse}
use idpy_oidc.Pkce.Binding.{Answers, post_token_parse_iff}
use idpy_oidc.Scopes.{Scopes, get_allowed_scopes, check_unknown_scopes_policy}
use idpy_oidc.Scopes.Filter.{check_unknown_scopes_policy_iff}
use idpy_oidc.Authorization.RedirectUri.{Uri, Query, verify_uri, match_uri, same_query}
use idpy_oidc.Authorization.RedirectUri
use idpy_oidc.Authorization.RedirectUri.Match.{IsRegistered, verify_uri-IsRegistered}
use idpy_oidc.Examples.Data.{authorization}

abbrev digest : String → String → String
digest m v = v

abbrev add_on : AddOn
add_on = record { essential = true; code_challenge_methods = "plain" ∷ "S256" ∷ [] }

abbrev challenged : AuthorizationRequest
challenged = record authorization {
  code_challenge = some "verifier";
  code_challenge_method = some "plain";
}

abbrev of_code : String → Option AuthorizationRequest
of_code c = some challenged

post_token_parse_iff_example :
    (post_token_parse digest of_code (with_code "code" (some "verifier")) ≡ ok tt)
    ↔ Answers digest (some "verifier") "plain" (some "verifier")
post_token_parse_iff_example =
    post_token_parse_iff digest add_on none challenged challenged of_code "code" (some "verifier")
      (unfold post_authn_parse in refl) refl

abbrev uri : Uri
uri = record {
  text = "https://rp.example/cb?a=1";
  fragment = "";
  base = "https://rp.example/cb";
  query = ("a", "1" ∷ []) ∷ [];
}

abbrev uris : List (String × Query)
uris = ("https://rp.example/cb", ("a", "1" ∷ []) ∷ []) ∷ []

abbrev clients : Dict RedirectUri.Client
clients = ("client", record { uris = some uris }) ∷ []

verify_uri-IsRegistered_example :
    (is_nonempty uri.fragment ≡ false) × IsRegistered uri.base uri.query uris
verify_uri-IsRegistered_example =
    verify_uri-IsRegistered clients true "client" uri uris (unfold Dict.get in refl) (
      unfold verify_uri match_uri same_query RedirectUri.covered RedirectUri.all_in Dict.get in
      refl)

abbrev scopes : Scopes
scopes = record { scopes_to_claims = []; allowed_scopes = "openid" ∷ "email" ∷ [] }

check_unknown_scopes_policy_iff_example :
    (check_unknown_scopes_policy scopes true ("email" ∷ "phone" ∷ []) none ≡ true)
    ↔ ((s : String) → In s ("email" ∷ "phone" ∷ []) → In s (get_allowed_scopes scopes none))
check_unknown_scopes_policy_iff_example =
    check_unknown_scopes_policy_iff scopes ("email" ∷ "phone" ∷ []) none true refl

claims_match_iff_example :
    (claims_match (some (text "loa2")) (some (essential true ∷ value_is (text "loa2") ∷ [])) ≡ true)
    ↔ Satisfies (text "loa2") (essential true ∷ value_is (text "loa2") ∷ [])
claims_match_iff_example =
    claims_match_iff (text "loa2") (essential true ∷ value_is (text "loa2") ∷ [])

abbrev twice : UsageRules
twice = record no_rules { max_usage = some 2 }

abbrev configured : Dict UsageRules
configured = ("refresh_token", record no_rules { expires_in = some 3600 }) ∷ []

abbrev shared : Shared
shared = record { defaults = ("access_token", no_rules) ∷ []; per_client = none }

get_usage_rules_leaks_example :
    (s' : Shared) × (get_usage_rules [] (some twice) "access_token" shared
      ≡ some (merge no_rules twice, s'))
    × (get_usage_rules [] none "access_token" s' ≡ some (merge no_rules twice, s'))
get_usage_rules_leaks_example =
    get_usage_rules_leaks [] "access_token" twice no_rules shared
      (unfold is_empty usage_rules_for usage_rules Dict.get in refl) (unfold is_empty in refl)
      (unfold Dict.get in refl)
