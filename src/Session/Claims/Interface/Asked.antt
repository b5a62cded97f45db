-- ===== src/Session/Claims/Interface/Asked.antt =====
-- The claims that `get_claims_from_request` asks for, by the settings and the request themselves.
use idpy_oidc.Base.{◌≡◌, ◌⊎◌, Bool, true, false, Option, none, some, List, [], String, is_nonempty}
use idpy_oidc.Dict
use idpy_oidc.Dict.{Dict}
use idpy_oidc.Scopes.{Scopes, Client, scopes_to_claims}
use idpy_oidc.Session.Claims.Interface.{Module, AddClaims, ClaimsRequest}
use idpy_oidc.Session.Claims.Interface.Settings.{HasKey, AddsByScope, scopes_asked}

module _ (point secondary : String) (default : Bool) where
  abbrev Says : Dict Bool → Type 0
  Says d =
      (Dict.get d point ≡ some true)
      ⊎ ((Dict.get d point ≡ none)
          × (((is_nonempty secondary ≡ true) × (Dict.get d secondary ≡ some true))
              ⊎ (((is_nonempty secondary ≡ false) ⊎ (d ≡ [])) × (default ≡ true))))

-- Adding by scope, and a scope that stands for the claim.
abbrev pub IsByScope :
    Scopes
    → Option Client
    → Module
    → Option AddClaims
    → ClaimsRequest
    → String
    → Option (List String)
    → String
    → String
    → Type 0
IsByScope handler client m a r point scopes secondary k =
    AddsByScope m a point secondary
    × HasKey (scopes_to_claims handler (scopes_asked scopes r.scope) [] client) k
