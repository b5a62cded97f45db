-- ===== src/Examples/Policies.antt =====
-- Runs of the token endpoint's policies.
use idpy_oidc.Base.{◌≡◌, refl, some, none, [], ◌∷◌}
use idpy_oidc.TokenEndpoint.Exchange.{
  ExchangeRequest, Allowed, refused, refresh_token_type, validate_token_exchange_policy,
}

abbrev exchange : ExchangeRequest
exchange = record {
  subject_token_type = "urn:ietf:params:oauth:token-type:access_token";
  requested_token_type = none;
  resource = some ("https://api.example" ∷ []);
  audience = none;
  actor_token = none;
  actor_token_type = none;
  scope = some ("read" ∷ "write" ∷ []);
}

abbrev allowed : Allowed
allowed = record { resource = "https://api.example" ∷ []; audience = []; scope = [] }

abbrev exchanged : ExchangeRequest
exchanged = record exchange { scope = some ("read" ∷ []) }

owned :
    validate_token_exchange_policy allowed
      ("read" ∷ [])
      (record exchange { subject_token_type = refresh_token_type; audience = some ("other" ∷ []) })
    ≡ refused "invalid_target" "Refresh token has single owner"
unfolding validate_token_exchange_policy
owned = refl
