-- ===== src/Examples/Claimed.antt =====
-- Runs of the claims interface.
use idpy_oidc.Base.{◌≡◌, refl, ◌↔◌, ◌⊎◌, In, true, none, some, [], ◌∷◌, String, ok}
use idpy_oidc.Dict
use idpy_oidc.Dict.{Dict}
use idpy_oidc.Scopes.{Scopes, scope2claims}
use idpy_oidc.Session.Claims.{Value, Claims, claims_match}
use idpy_oidc.Session.Claims.Interface.{
  Module, AddClaims, ClaimsRequest, names, get_claims_from_request, matching, get_user_claims,
}
use idpy_oidc.Session.Claims.Interface.Users.{IsLetOut, get_user_claims_iff}
use idpy_oidc.Session.Claims.Interface.Leak.{client_always_leaks}

abbrev scopes : Scopes
scopes = record { scopes_to_claims = scope2claims; allowed_scopes = "openid" ∷ "email" ∷ [] }

abbrev module_ : Module
module_ = record {
  base_claims = ("sub", none) ∷ [];
  enable_claims_per_client = true;
  add_claims_by_scope = true;
  always_add_claims = names [];
}

abbrev add_claims : AddClaims
add_claims = record {
  by_scope = [];
  always = ("introspection", "email" ∷ []) ∷ ("access_token", "address" ∷ []) ∷ [];
}

abbrev request : ClaimsRequest
request = record { client_id = "client"; scope = some ("openid" ∷ []); claims = none }

client_always_leaks_example :
    (a' : AddClaims) × ((get_claims_from_request scopes none
        (some module_)
        (some add_claims)
        request
        "introspection"
        none
        "access_token").1
      ≡ some a')
    × ((k : String)
        → (Dict.contains_key
              (get_claims_from_request scopes none
                (some module_)
                (some a')
                request
                "introspection"
                none
                "").0
              k
            ≡ true)
          ↔ ((Dict.contains_key
                  (get_claims_from_request scopes none
                    (some module_)
                    (some add_claims)
                    request
                    "introspection"
                    none
                    "").0
                  k
                ≡ true)
              ⊎ In k ("address" ∷ [])))
client_always_leaks_example =
    client_always_leaks scopes none module_ add_claims request request "introspection"
      "access_token" none none ("email" ∷ []) ("address" ∷ []) refl refl (unfold Dict.get in refl)
      (unfold Dict.get in refl)

abbrev userinfo : String → String → Dict Value
userinfo user_id client_id =
    ("name", Value.text "Diana") ∷ ("email", Value.text "diana@example.org") ∷ []

abbrev restriction : Claims
restriction = ("email", none) ∷ ("phone_number", none) ∷ []

released :
    get_user_claims (some userinfo) "diana" restriction "client"
    ≡ ok (("email", Value.text "diana@example.org") ∷ [])
unfolding get_user_claims matching claims_match Dict.get
released = refl

get_user_claims_iff_example :
    (Dict.get (("email", Value.text "diana@example.org") ∷ []) "email"
      ≡ some (Value.text "diana@example.org"))
    ↔ IsLetOut (userinfo "diana" "client") restriction "email" (Value.text "diana@example.org")
get_user_claims_iff_example =
    get_user_claims_iff userinfo "diana" restriction "client" _ "email"
      (Value.text "diana@example.org") released
