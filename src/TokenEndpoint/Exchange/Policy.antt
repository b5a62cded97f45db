-- ===== src/TokenEndpoint/Exchange/Policy.antt =====
-- What a token exchange may ask for once the policy has let it through.
use idpy_oidc.Base.{◌≡◌, ◌≢◌, none, some, List, [], String, In}
use idpy_oidc.TokenEndpoint.Exchange.{ExchangeRequest, Allowed, refresh_token_type, with_default}

-- The request `r` that the policy makes of `req`, for a subject token with the scope `subject`.
pub record IsExchange (k : Allowed) (subject : List String) (req r : ExchangeRequest) : Type 0 where
  pub resource : (l : List String) (s : String) → req.resource ≡ some l → In s l → In s k.resource
  pub audience :
      (l : List String) (s : String)
      → req.audience ≡ some l
      → k.audience ≢ []
      → In s l
      → In s k.audience
  pub single_owner : req.subject_token_type ≡ refresh_token_type → req.audience ≡ none
  pub no_actor : (req.actor_token ≡ none) × (req.actor_token_type ≡ none)
  pub offline : req.requested_token_type ≡ some refresh_token_type → In "offline_access" subject
  pub scope :
      (l : List String) (s : String)
      → r.scope ≡ some l
      → In s l
      → In s subject × In s (with_default req.scope subject) × (k.scope ≢ [] → In s k.scope)
