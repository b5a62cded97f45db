-- ===== src/Introspection.antt =====
-- src/idpyoidc/server/oauth2/introspection.py: the introspection endpoint. The token handler, the
-- service with the users' claims and the methods that add token arguments are parameters.
pub mod Active
pub mod Answers
pub mod Found
pub mod Revoked
use Prim.Native.String.{◌++◌ as ◌++ₛ◌}
use idpy_oidc.Base.{
  ℕ, Bool, true, false, not, ◌||◌, Option, none, some, List, [], ◌∷◌, String, Outcome, ok, err,
  ◌>>=◌, contains, is_nonempty, if◌then◌else◌,
}
use idpy_oidc.Dict
use idpy_oidc.Dict.{Dict}
use idpy_oidc.Session.Token.{SessionToken, is_active}
use idpy_oidc.Session.Claims.{Value, Claims}
use idpy_oidc.Scopes.{Scopes, Client}
use idpy_oidc.Session.Claims.Interface as Interface
use idpy_oidc.Session.Claims.Interface.{
  Module, AddClaims, ClaimsRequest, get_claims_from_request, get_user_claims,
}
use idpy_oidc.Session.Grant.{AuthorizationRequest, Heap, Grant, get_token, or_nonempty}
use idpy_oidc.Session.Grant.Scope.{find_scope}
use idpy_oidc.Session.Database.{info, leaf, key_error, attribute_error, recursion_error}
use idpy_oidc.Session.Manager.{
  State, Manager, Exception, database, unknown_token, wrong_token_class, to_old,
  improperly_configured, invalid_branch_id, type_error,
}
use idpy_oidc.Session.Manager.Lookup.{BranchInfo, get_session_info_by_token}

-- The endpoint, with its keyword arguments for claims. `restricts` has the client database's entries
-- `enforce_audience_restriction`, `clients` what the scopes' handler reads of each client, `add_claims` the
-- entry of that name of each client, empty where a client has none.
pub record Endpoint : Type 0 where
  pub manager : Manager
  pub token_info : String → Outcome Exception (Option String)
  pub issuer : String
  pub token_args_methods : List (String → Dict Value → Dict Value)
  pub enforce_aud_restriction : Bool
  pub restricts : Dict Bool
  pub kwargs : Option Module
  pub scopes_handler : Scopes
  pub clients : Dict Client
  pub add_claims : Dict AddClaims
  pub userinfo : Option (String → String → Dict Value)

pub record Request : Type 0 where
  pub token : String
  pub client_id : String

-- `" ".join(scope)`
unfoldable pub join : List String → String
join [] = ""
join (x ∷ []) = x
join (x ∷ y ∷ ys) = x ++ₛ (" " ++ₛ join (y ∷ ys))

abbrev put_nonempty : Dict Value → String → String → Dict Value
put_nonempty d k s = if is_nonempty s then Dict.put d k (Value.text s) else d

abbrev put_list : Dict Value → String → List String → Dict Value
put_list d k [] = d
put_list d k (x ∷ xs) = Dict.put d k (Value.texts (x ∷ xs))

unfoldable pub apply_methods :
    List (String → Dict Value → Dict Value) → String → Dict Value → Dict Value
apply_methods [] client_id args = args
apply_methods (f ∷ fs) client_id args = apply_methods fs client_id (f client_id args)

-- The scope of a token that has none of its own.
abbrev pub wider_scope : ℕ → Heap → Grant → Option String → Option (List String)
wider_scope depth h g none = some g.scope
wider_scope depth h g (some v) =
    let rest = find_scope depth h g (get_token h g v) in
    if is_nonempty v then rest else some g.scope

abbrev pub scope_of : ℕ → Heap → Grant → SessionToken → Option (List String)
scope_of depth h g t = elim t.scope [
  | [] ↦ wider_scope depth h g t.based_on
  | s ∷ ss ↦ some (s ∷ ss)
]

abbrev claims_about : Endpoint → String → Grant → SessionToken → List String → Dict Value
claims_about e client_id g t scope =
    ("active", Value.flag true)
    ∷ ("scope", Value.text (join scope))
    ∷ ("client_id", Value.text client_id)
    ∷ ("token_class", Value.text t.token_class)
    ∷ ("exp", Value.number t.expires_at)
    ∷ ("iat", Value.number t.issued_at)
    ∷ ("sub", Value.text g.sub)
    ∷ ("iss", Value.text e.issuer)
    ∷ []

abbrev pub describe : Endpoint → String → Grant → SessionToken → List String → Dict Value
describe e client_id g t scope =
    Dict.update
      (put_list (put_nonempty (claims_about e client_id g t scope) "token_type" t.token_type) "aud"
        (or_nonempty t.resources g.resources))
      (apply_methods e.token_args_methods client_id [])

abbrev pub token_classes : List String
token_classes = "access_token" ∷ "refresh_token" ∷ []

abbrev pub described :
    Endpoint
    → String
    → Grant
    → SessionToken
    → Option (List String)
    → Outcome Exception (Option (Dict Value))
described e client_id g t none = err (database recursion_error)
described e client_id g t (some scope) = ok (some (describe e client_id g t scope))

-- `_introspect`; the number bounds the depth of `find_scope`.
unfoldable pub introspect :
    ℕ
    → Endpoint
    → ℕ
    → Heap
    → Grant
    → SessionToken
    → String
    → Outcome Exception (Option (Dict Value))
unfolding is_active find_scope get_token join apply_methods
introspect depth e now h g t client_id =
    let rest = described e client_id g t (scope_of depth h g t) in
    if not (contains t.token_class token_classes)
    then ok none
    else if not (is_active now t.item)
    then ok none
    else rest

-- The parameters of `TokenIntrospectionResponse`.
abbrev pub standard : List String
standard =
    "active" ∷ "scope" ∷ "client_id" ∷ "username" ∷ "token_type" ∷ "exp" ∷ "iat" ∷ "nbf" ∷ "sub"
    ∷ "aud" ∷ "iss" ∷ "jti" ∷ []

-- `weed`
unfoldable pub weed : Dict Value → Dict Value
weed [] = []
weed ((k, v) ∷ d) = let rest = weed d in if contains k standard then (k, v) ∷ rest else rest

abbrev pub inactive : Dict Value
inactive = ("active", Value.flag false) ∷ []

abbrev pub is_enforced : Endpoint → String → Bool
is_enforced e client_id = elim (Dict.get e.restricts client_id) [
  | none ↦ e.enforce_aud_restriction
  | some b ↦ b
]

abbrev pub release_name : List String → Option String → Dict Value → Dict Value
release_name release none d = d
release_name release (some user_id) d =
    if contains "username" release then Dict.put d "username" (Value.text user_id) else d

abbrev pub or_key_error : {A : Type 0} → Option A → Outcome Exception A
or_key_error none = err (database key_error)
or_key_error (some a) = ok a

-- What the claims interface reads of a grant's authorization request.
abbrev pub claims_request : Option AuthorizationRequest → ClaimsRequest
claims_request none = record { client_id = ""; scope = none; claims = none }
claims_request (some r) = record { client_id = r.client_id; scope = r.scope; claims = r.claims }

-- `get_claims` of the claims interface, for introspection. There is no second release point, so the client's
-- entry stays as it is.
unfoldable pub get_claims : Endpoint → Grant → List String → String → Claims
unfolding get_claims_from_request
get_claims e g scopes client_id =
    (get_claims_from_request e.scopes_handler (Dict.get e.clients client_id) e.kwargs
      (Dict.get e.add_claims client_id) (claims_request g.authorization_request) "introspection"
      (some scopes) "").0

abbrev pub or_improperly_configured :
    Outcome Interface.Error (Dict Value) → Outcome Exception (Dict Value)
or_improperly_configured (err x) = err improperly_configured
or_improperly_configured (ok d) = ok d

-- The user's claims, where any are to be released.
abbrev pub add_user_claims :
    Endpoint → BranchInfo → Claims → String → Dict Value → Outcome Exception (Dict Value)
add_user_claims e b [] client_id d = ok d
add_user_claims e b (c ∷ cs) client_id d = do
  user_id ← or_key_error (Dict.get b.ids "user")
  found ← or_improperly_configured (get_user_claims e.userinfo user_id (c ∷ cs) client_id)
  ok (Dict.update d found)

-- The response for a token that was described.
unfoldable pub respond :
    Endpoint
    → List String
    → BranchInfo
    → Grant
    → SessionToken
    → String
    → Option (Dict Value)
    → Outcome Exception (Dict Value)
unfolding weed get_claims get_user_claims
respond e release b g t client_id none = ok inactive
respond e release b g t client_id (some d) = do
  d' ←
      add_user_claims e b (get_claims e g t.scope client_id) client_id
        (weed (Dict.update inactive (release_name release (Dict.get b.ids "user") d)))
  ok (Dict.put d' "active" (Value.flag true))

-- The grant of the branch, and the token in it; without one, its attributes cannot be read.
abbrev pub grant_of : BranchInfo → Outcome Exception Grant
grant_of b = elim (Dict.get b.nodes "grant") [
  | none ↦ err (database key_error)
  | some n ↦ elim n [ info i ↦ err (database attribute_error) | leaf g ↦ ok g ]
]

abbrev pub token_in : Heap → Grant → String → Outcome Exception SessionToken
token_in h g value = elim (get_token h g value) [
  | none ↦ err (database attribute_error)
  | some t ↦ ok (h.at t)
]

-- The steps of `process_request` after the check of the audience.
unfoldable pub for_client :
    ℕ
    → Endpoint
    → ℕ
    → Heap
    → List String
    → BranchInfo
    → Grant
    → SessionToken
    → Outcome Exception (Dict Value)
unfolding introspect respond
for_client depth e now h release b g t = do
  client_id ← or_key_error (Dict.get b.ids "client")
  d ← introspect depth e now h g t client_id
  respond e release b g t client_id d

-- The check of the audience.
abbrev pub is_meant_for : Endpoint → String → Grant → SessionToken → Bool
is_meant_for e client_id g t =
    not (is_enforced e client_id) || contains client_id (or_nonempty t.resources g.resources)

-- The steps of `process_request` once a session is found.
unfoldable pub process_session :
    ℕ → Endpoint → ℕ → Heap → Request → List String → BranchInfo → Outcome Exception (Dict Value)
unfolding for_client
process_session depth e now h r release b = do
  g ← grant_of b
  t ← token_in h g r.token
  (let rest = for_client depth e now h release b g t in
      if is_meant_for e r.client_id g t then rest else ok inactive)

abbrev pub or_inactive :
    (BranchInfo → Outcome Exception (Dict Value))
    → Outcome Exception BranchInfo
    → Outcome Exception (Dict Value)
or_inactive f (ok b) = f b
or_inactive f (err unknown_token) = ok inactive
or_inactive f (err wrong_token_class) = ok inactive
or_inactive f (err to_old) = ok inactive
or_inactive f (err improperly_configured) = err improperly_configured
or_inactive f (err type_error) = err type_error
or_inactive f (err (database x)) = err (database x)
or_inactive f (err (invalid_branch_id x)) = err (invalid_branch_id x)

-- `process_request`, with the clock `now`, and `rnd` for an old identifier that is encrypted anew.
unfoldable pub process_request :
    ℕ → Endpoint → ℕ → String → Request → List String → State → Outcome Exception (Dict Value)
unfolding get_session_info_by_token process_session
process_request depth e now rnd r release s =
    or_inactive (process_session depth e now s.heap r release)
      (get_session_info_by_token e.manager e.token_info rnd r.token s.db)
