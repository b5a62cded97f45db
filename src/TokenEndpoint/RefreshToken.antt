-- ===== src/TokenEndpoint/RefreshToken.antt =====
-- `RefreshTokenHelper` of src/idpyoidc/server/oauth2/token_helper/refresh_token.py. The session that
-- `get_session_info_by_token` finds for the token, with its grant, is an argument, as are the test on
-- DPoP support and the setting `revoke_refresh_on_issue`, the client's own or else the endpoint's.
pub mod Scope
use idpy_oidc.Base.{
  ℕ, Bool, true, false, not, ◌&&◌, Option, none, some, List, [], ◌∷◌, String, ◌==◌, contains,
  if◌then◌else◌,
}
use idpy_oidc.Scopes.{subset}
use idpy_oidc.Session.Token.{
  TokenClass, refresh_token, access_token, authorization_code, id_token, session_token,
  register_usage, revoke_token_item, is_active,
}
use idpy_oidc.Session.Grant.{Heap, Grant, write, get_token}
use idpy_oidc.Session.Grant.Scope.{find_scope}
use idpy_oidc.TokenEndpoint.{
  Endpoint, Fresh, no_args, Exception, key_error, attribute_error, type_error, recursion_error,
  minting_error, Made, made, minting_not_allowed, raised, mint,
}
use idpy_oidc.TokenEndpoint.AccessToken.{
  Response, Reply, error, failed, response, Session, lasts, is_bound,
}

-- A missing parameter is `none`.
pub record RefreshRequest : Type 0 where
  pub grant_type : String
  pub refresh_token : String
  pub client_id : Option String
  pub scope : Option (List String)
  pub dpop_jkt : Option String

-- What a check of the request returns or raises.
pub data Refresh : Type 0 where
  rejected : String → String → Refresh
  crashed : Exception → Refresh
  accepted : RefreshRequest → Refresh

-- `grant.find_scope` of a text, or of `None`
abbrev pub scope_below : Heap → Grant → Option String → Option (List String)
scope_below h g none = some g.scope
scope_below h g (some v) = find_scope h.next h g (get_token h g v)

abbrev pub is_refresh_token : TokenClass → Bool
is_refresh_token refresh_token = true
is_refresh_token access_token = false
is_refresh_token authorization_code = false
is_refresh_token id_token = false
is_refresh_token session_token = false

abbrev pub check_scope : RefreshRequest → Option (List String) → Option (List String) → Refresh
check_scope req none scopes = accepted req
check_scope req (some l) none = crashed recursion_error
check_scope req (some l) (some scopes) =
    if subset l scopes then accepted req else rejected "invalid_request" "Invalid refresh scopes"

abbrev pub check_token : ℕ → Heap → Grant → RefreshRequest → Option ℕ → Refresh
check_token now h g req none = rejected "invalid_request" "Wrong token type"
check_token now h g req (some p) =
    if not (is_refresh_token (h.at p).cls)
    then rejected "invalid_request" "Wrong token type"
    else if not (is_active now (h.at p).item)
    then rejected "invalid_request" "Refresh token inactive"
    else check_scope req req.scope (scope_below h g (h.at p).based_on)

abbrev pub check_grant : ℕ → Heap → RefreshRequest → Option Grant → Refresh
check_grant now h req none = rejected "invalid_grant" "Invalid refresh token"
check_grant now h req (some g) = check_token now h g req (get_token h g req.refresh_token)

-- `post_parse_request`, of a request that is complete and the grant that is found, where one is.
unfoldable pub post_parse_request : ℕ → Option Grant → RefreshRequest → Heap → Refresh
post_parse_request now found req h = check_grant now h req found

-- `token.register_usage()`, and `token.revoke()`
abbrev pub close : Bool → Heap → ℕ → Heap
close revoke h p =
    if revoke
    then write h p (revoke_token_item (register_usage (h.at p)))
    else write h p (register_usage (h.at p))

abbrev pub lists : Option (List String) → Option Bool
lists none = none
lists (some l) = some (contains "refresh_token" l)

abbrev pub set_rules : Heap → ℕ → ℕ → Heap
set_rules h t p =
    write h t
      (record (h.at t) { item = record (h.at t).item { usage_rules = (h.at p).usage_rules } })

abbrev pub end_refresh : Bool → ℕ → Response → Made × Heap × Grant → Reply × Heap × Grant
end_refresh revoke p resp (made t, h, g) = (
  response (record resp { refresh_token = some (h.at t).value }),
  close revoke (set_rules h t p) p,
  g,
)
end_refresh revoke p resp (minting_not_allowed, h, g) = (failed minting_error, h, g)
end_refresh revoke p resp (raised e, h, g) = (failed e, h, g)

module _ (e : Endpoint) (now : ℕ) (access refresh : Fresh) (session : Session) (p : ℕ) where
  -- The part for a new refresh token; `mints` is whether the token may mint one, where it says.
  abbrev pub refresh_part :
      Bool → Bool → List String → Option Bool → Response → Heap → Grant → Reply × Heap × Grant
  refresh_part issue revoke scope none resp h g = (failed type_error, h, g)
  refresh_part issue revoke scope (some mints) resp h g =
      if mints && issue
      then end_refresh revoke p resp (
          mint e now refresh session.client_id session.branch_id "refresh_token" (some p)
            (some scope) no_args "" h g)
      else (response resp, close revoke h p, g)

  abbrev pub end_access : Bool → Bool → List String → Made × Heap × Grant → Reply × Heap × Grant
  end_access issue revoke scope (made t, h, g) =
      refresh_part issue revoke scope (lists (h.at p).usage_rules.supports_minting)
        (record {
          token_type = (h.at t).token_type;
          scope = scope;
          access_token = some (h.at t).value;
          expires_in = lasts now (h.at t).expires_at;
          refresh_token = none;
        })
        h g
  end_access issue revoke scope (minting_not_allowed, h, g) = (failed minting_error, h, g)
  end_access issue revoke scope (raised x, h, g) = (failed x, h, g)

  abbrev pub with_scope :
      Bool → Bool → String → Option (List String) → Heap → Grant → Reply × Heap × Grant
  with_scope issue revoke token_type none h g = (failed recursion_error, h, g)
  with_scope issue revoke token_type (some scope) h g = end_access issue revoke scope (
      mint e now access session.client_id session.branch_id "access_token" (some p) (some scope)
        no_args token_type h g)

abbrev pub bind_jkt : Bool → RefreshRequest → Grant → Grant
bind_jkt dpop req g = if is_bound dpop req.dpop_jkt then record g { dpop_jkt = req.dpop_jkt } else g

-- `find_scope` comes first, whether or not the request has a scope.
abbrev pub asked_or_found : Option (List String) → Option (List String) → Option (List String)
asked_or_found asked none = none
asked_or_found none (some found) = some found
asked_or_found (some l) (some found) = some l

module _ (e : Endpoint) (now : ℕ) (access refresh : Fresh) (session : Session) where
  abbrev pub with_token :
      Bool → Bool → Bool → RefreshRequest → Option ℕ → Heap → Grant → Reply × Heap × Grant
  with_token dpop issue revoke req none h g = (failed attribute_error, h, g)
  with_token dpop issue revoke req (some p) h g =
      with_scope e now access refresh session p issue revoke
        (if is_bound dpop req.dpop_jkt then "DPoP" else "Bearer")
        (asked_or_found req.scope (find_scope h.next h g (some p))) h g

  -- `process_request`; `issue` is the argument `issue_refresh`, and `revoke` the setting.
  unfoldable pub process_request :
      Bool → Bool → Bool → RefreshRequest → Heap → Grant → Reply × Heap × Grant
  process_request dpop issue revoke req h g =
      if not (req.grant_type == "refresh_token")
      then (error "invalid_request" "Wrong grant_type", h, g)
      else elim req.client_id [
        | none ↦ (failed key_error, h, g)
        | some cid ↦
            if not (session.client_id == cid)
            then (error "invalid_grant" "Wrong client", h, g)
            else let g' = bind_jkt dpop req g in
              with_token dpop issue revoke req (get_token h g' req.refresh_token) h g'
      ]
