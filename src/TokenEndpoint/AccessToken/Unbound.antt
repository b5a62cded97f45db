-- ===== src/TokenEndpoint/AccessToken/Unbound.antt =====
-- A code from which only a refresh token may be minted.
use idpy_oidc.Base.{
  ℕ, ◌≡◌, refl, inl, inr, Bool, true, false, List, String, arith, contains, Option-cases,
}
use idpy_oidc.Session.Token.{supports_minting}
use idpy_oidc.Session.Grant.{Heap, Grant}
use idpy_oidc.TokenEndpoint.{Endpoint, Fresh, unbound_local_error}
use idpy_oidc.TokenEndpoint.AccessToken.{failed, Session, refresh_part, access_part, answer}
use idpy_oidc.TokenEndpoint.Request.{AccessTokenRequest}

module _ (e : Endpoint) (now : ℕ) (access refresh : Fresh) (session : Session) (p : ℕ) where
  -- Where the code may not be exchanged for an access token but may be for a refresh token, and
  -- offline access is in the scope, the request ends in the exception for an unbound name, and the
  -- code, with its uses, is as it was.
  pub answer_unbound :
      (wanted : Bool) (token_type : String) (scope : List String) (req : AccessTokenRequest)
      (h : Heap) (g : Grant)
      → supports_minting (h.at p) "access_token" ≡ false
      → supports_minting (h.at p) "refresh_token" ≡ true
      → contains "offline_access" scope ≡ true
      → answer e now access refresh session p wanted token_type scope req h g
        ≡ (failed unbound_local_error, h, g)
  unfolding answer access_part refresh_part supports_minting
  answer_unbound wanted token_type scope req h g refused allowed offline =
      elim (Option-cases (h.at p).usage_rules.supports_minting) [
        | inl f ↦ absurd (ground (arith, f, allowed))
        | inr (l, f) ↦
            let a : contains "access_token" l ≡ false = ground (arith, f, refused) in
            let r : contains "refresh_token" l ≡ true = ground (arith, f, allowed) in
            rw (f, a, r, offline, answer) refl
      ]
