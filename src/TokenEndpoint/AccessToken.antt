-- ===== src/TokenEndpoint/AccessToken.antt =====
-- `AccessTokenHelper.process_request` of
-- src/idpyoidc/server/oauth2/token_helper/access_token.py. The session that
-- `get_session_info_by_token` finds for the code, with its grant, is an argument, as are the policy
-- for resource indicators, where one is configured for the client, which is a known one, and the
-- test on the DPoP add-on.
pub mod Code
pub mod SingleUse
pub mod Unbound
use idpy_oidc.Base.{
  ℕ, ◌-◌, Bool, true, false, not, ◌&&◌, Option, none, some, List, [], ◌∷◌, String, ◌==◌, is_nonzero,
  is_nonempty, contains, if◌then◌else◌,
}
use idpy_oidc.Session.Token.{register_usage}
use idpy_oidc.Session.Grant.{Heap, Grant, AuthorizationRequest, write, get_token}
use idpy_oidc.TokenEndpoint.Request.{
  AccessTokenRequest, Parsed, rejected, crashed, request, with_plus,
}
use idpy_oidc.TokenEndpoint.{
  Endpoint, Fresh, no_args, Exception, key_error, attribute_error, type_error, unbound_local_error,
  Made, made, minting_not_allowed, raised, mint,
}

pub record Response : Type 0 where
  pub token_type : String
  pub scope : List String
  pub access_token : Option String
  pub expires_in : Option ℕ
  pub refresh_token : Option String

-- An error message, an exception, or a response.
pub data Reply : Type 0 where
  error : String → String → Reply
  failed : Exception → Reply
  response : Response → Reply

pub record Session : Type 0 where
  pub client_id : String
  pub branch_id : String

abbrev pub use_code : Heap → ℕ → Heap
use_code h p = write h p (register_usage (h.at p))

-- `_based_on.used -= 1`; the token has been used.
abbrev pub give_back : Heap → ℕ → Heap
give_back h p =
    write h p (record (h.at p) { item = record (h.at p).item { used = (h.at p).used - 1 } })

abbrev pub end_refresh : ℕ → Response → Made × Heap × Grant → Reply × Heap × Grant
end_refresh p resp (made t, h, g) =
    (response (record resp { refresh_token = some (h.at t).value }), use_code h p, g)
end_refresh p resp (minting_not_allowed, h, g) = (response resp, use_code h p, g)
end_refresh p resp (raised e, h, g) = (failed e, h, g)

abbrev pub lasts : ℕ → ℕ → Option ℕ
lasts now expires_at = if is_nonzero expires_at then some (expires_at - now) else none

abbrev pub end_access :
    (Option ℕ → Response → Heap → Grant → Reply × Heap × Grant)
    → ℕ
    → Response
    → Made × Heap × Grant
    → Reply × Heap × Grant
end_access next now resp (made t, h, g) =
    next (some t)
      (record resp {
        access_token = some (h.at t).value;
        expires_in = lasts now (h.at t).expires_at;
      })
      h g
end_access next now resp (minting_not_allowed, h, g) = next none resp h g
end_access next now resp (raised e, h, g) = (failed e, h, g)

abbrev listed : Option (List String) → List String
listed none = []
listed (some l) = l

abbrev audience : Option AuthorizationRequest → List String
audience none = []
audience (some r) = r.audience

-- The comparison with the `redirect_uri` of the authorization request. A grant without a request is a
-- `TypeError`.
abbrev pub redirect_reply : Option AuthorizationRequest → AccessTokenRequest → Option Reply
redirect_reply none req = some (failed type_error)
redirect_reply (some r) req = elim r.redirect_uri [
  | none ↦ none
  | some u ↦ elim req.redirect_uri [
    | none ↦ some (failed key_error)
    | some v ↦ if v == u then none else some (error "invalid_request" "redirect_uri mismatch")
  ]
]

module _ (e : Endpoint) (now : ℕ) (access refresh : Fresh) (session : Session) (p : ℕ) where
  -- The part for the refresh token; `token` is unbound where no access token was minted.
  unfoldable pub refresh_part : Bool → Option ℕ → Response → Heap → Grant → Reply × Heap × Grant
  refresh_part false token resp h g = (response resp, use_code h p, g)
  refresh_part true none resp h g = (failed unbound_local_error, h, g)
  refresh_part true (some t) resp h g = end_refresh p resp (
      mint e now refresh session.client_id session.branch_id "refresh_token" (some p) none no_args
        "" (give_back h p) g)

  unfoldable pub access_part :
      Bool → Bool → List String → Response → Heap → Grant → Reply × Heap × Grant
  access_part false wants resources resp h g = refresh_part wants none resp h g
  access_part true wants resources resp h g = end_access (refresh_part wants) now resp (
      mint e now access session.client_id session.branch_id "access_token" (some p) none
        (record { resources = resources; aud = audience g.authorization_request }) "" h g)

  abbrev pub issue_refresh : Bool → List String → List String → Bool
  issue_refresh wanted supports scope =
      (if contains "offline_access" scope && contains "refresh_token" supports
        then true
        else wanted)
      && contains "refresh_token" supports

  -- From the checks' end on.
  unfoldable pub answer :
      Bool → String → List String → AccessTokenRequest → Heap → Grant → Reply × Heap × Grant
  answer wanted token_type scope req h g =
      let supports = listed (h.at p).usage_rules.supports_minting in
      access_part (contains "access_token" supports) (issue_refresh wanted supports scope)
        (listed req.resource)
        (record {
          token_type = token_type;
          scope = scope;
          access_token = none;
          expires_in = none;
          refresh_token = none;
        })
        h g

-- `_enforce_resource_indicators_policy`: an exception of the policy becomes an error message.
abbrev pub enforce : Parsed → Parsed
enforce (rejected x d) = rejected x d
enforce (crashed x) = rejected "server_error" "Internal server error"
enforce (request r) = request r

abbrev pub apply_policy : Option (AccessTokenRequest → Parsed) → AccessTokenRequest → Parsed
apply_policy none req = request req
apply_policy (some f) req = enforce (f req)

abbrev scope_of : Option (AccessTokenRequest → Parsed) → AccessTokenRequest → Grant → List String
scope_of none req g = g.scope
scope_of (some f) req g = req.scope

abbrev pub is_bound : Bool → Option String → Bool
is_bound dpop none = false
is_bound dpop (some jkt) = dpop && is_nonempty jkt

-- `grant.extra["dpop_jkt"] = _dpop_jkt`
abbrev pub bind_jkt : Bool → AccessTokenRequest → Grant → Grant
bind_jkt dpop req g = if is_bound dpop req.dpop_jkt then record g { dpop_jkt = req.dpop_jkt } else g

module _ (e : Endpoint) (now : ℕ) (access refresh : Fresh) (session : Session) where
  unfoldable pub granted :
      Option (AccessTokenRequest → Parsed)
      → Bool
      → Bool
      → String
      → AccessTokenRequest
      → Heap
      → Grant
      → Reply × Heap × Grant
  granted policy dpop wanted access_code req h g =
      let g' = bind_jkt dpop req g in
      elim (get_token h g' access_code) [
        | none ↦ (failed attribute_error, h, g')
        | some p ↦ elim (redirect_reply g'.authorization_request req) [
          | some r ↦ (r, h, g')
          | none ↦
              answer e now access refresh session p wanted
                (if is_bound dpop req.dpop_jkt then "DPoP" else "Bearer") (scope_of policy req g')
                req h g'
        ]
      ]

  -- `process_request`; `wanted` is the argument `issue_refresh`.
  unfoldable pub process_request :
      Option (AccessTokenRequest → Parsed)
      → Bool
      → Bool
      → AccessTokenRequest
      → Heap
      → Grant
      → Reply × Heap × Grant
  process_request policy dpop wanted req h g =
      if not (req.grant_type == "authorization_code")
      then (error "invalid_request" "Unknown grant_type", h, g)
      else elim req.code [
        | none ↦ (error "invalid_request" "Missing code", h, g)
        | some c ↦ elim req.client_id [
          | none ↦ (failed key_error, h, g)
          | some cid ↦
              if not (session.client_id == cid)
              then (error "invalid_grant" "Wrong client", h, g)
              else elim (apply_policy policy req) [
                | rejected x d ↦ (error x d, h, g)
                | crashed x ↦ (failed x, h, g)
                | request r ↦ granted policy dpop wanted (with_plus c) r h g
              ]
        ]
      ]
