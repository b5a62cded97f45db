-- ===== src/Session/Claims/Interface.antt =====
-- `ClaimsInterface` of src/idpyoidc/server/session/claims.py: which claims are released where. What the user
-- info service knows is a parameter. A list in the client database is shared with what the method returns,
-- so what is done to it stays.
pub mod Sources
pub mod Users
pub mod Settings
pub mod Asked
pub mod Leak
use idpy_oidc.Base.{
  Bool, false, Option, none, some, List, [], ◌∷◌, ◌++◌, String, Outcome, ok, err, is_nonempty,
  if◌then◌else◌,
}
use idpy_oidc.Dict
use idpy_oidc.Dict.{Dict}
use idpy_oidc.Scopes.{Scopes, Client, scopes_to_claims}
use idpy_oidc.Session.Claims.{Value, Spec, Claims, claims_match}

-- `always_add_claims` of a module: a list of names, or a dictionary.
pub data Always : Type 0 where
  names : List String → Always
  specs : Claims → Always

-- The keyword arguments of the endpoint or token handler for a release point.
pub record Module : Type 0 where
  pub base_claims : Claims
  pub enable_claims_per_client : Bool
  pub add_claims_by_scope : Bool
  pub always_add_claims : Always

-- A client's `add_claims`.
pub record AddClaims : Type 0 where
  pub by_scope : Dict Bool
  pub always : Dict (List String)

-- What the code reads of an authorization request.
pub record ClaimsRequest : Type 0 where
  pub client_id : String
  pub scope : Option (List String)
  pub claims : Option (Dict Claims)

abbrev pub or_nil : {A : Type 0} → Option (List A) → List A
or_nil none = []
or_nil (some xs) = xs

-- `authorization_request_claims`
unfoldable pub authorization_request_claims : ClaimsRequest → String → Claims
authorization_request_claims r point = elim r.claims [
  | none ↦ []
  | some c ↦ or_nil (Dict.get c point)
]

abbrev pub or_bool : Option Bool → Bool → Bool
or_bool none d = d
or_bool (some b) d = b

abbrev pub scope_setting : Dict Bool → String → String → Bool → Bool
scope_setting [] point secondary default = default
scope_setting (e ∷ es) point secondary default =
    or_bool (Dict.get (e ∷ es) point)
      (if is_nonempty secondary then or_bool (Dict.get (e ∷ es) secondary) false else default)

-- Whether claims are added by scope, of `_client_claims`.
unfoldable pub client_by_scope : AddClaims → Module → String → String → Bool
client_by_scope a m point secondary = scope_setting a.by_scope point secondary m.add_claims_by_scope

-- The names that are always added, of `_client_claims`.
unfoldable pub client_always : AddClaims → String → String → List String
client_always a point secondary =
    let first = or_nil (Dict.get a.always point) in
    if is_nonempty secondary then first ++ or_nil (Dict.get a.always secondary) else first

abbrev pub extended :
    Dict (List String) → String → Option (List String) → List String → Dict (List String)
extended d point none ys = d
extended d point (some xs) ys = Dict.put d point (xs ++ ys)

-- `_always_add.extend(_always_2)`: a list that is in the client's entry gets longer there.
unfoldable pub after_client_claims : AddClaims → String → String → AddClaims
after_client_claims a point secondary =
    if is_nonempty secondary
    then record a {
      always =
          extended a.always point (Dict.get a.always point) (or_nil (Dict.get a.always secondary));
    }
    else a

abbrev pub to_specs : List String → Claims
to_specs [] = []
to_specs (n ∷ ns) = (n, none) ∷ to_specs ns

abbrev pub always_specs : Always → Claims
always_specs (names ns) = to_specs ns
always_specs (specs c) = c

-- The client's own settings count where the module lets them and the client is known.
abbrev pub own_settings : Module → Option AddClaims → Option AddClaims
own_settings m none = none
own_settings m (some a) = if m.enable_claims_per_client then some a else none

abbrev pub always_for : Module → Option AddClaims → String → String → Claims
always_for m none point secondary = always_specs m.always_add_claims
always_for m (some a) point secondary = to_specs (client_always a point secondary)

abbrev pub by_scope_for : Module → Option AddClaims → String → String → Bool
by_scope_for m none point secondary = m.add_claims_by_scope
by_scope_for m (some a) point secondary = client_by_scope a m point secondary

abbrev pub scopes_or : Option (List String) → Option (List String) → List String
scopes_or none d = or_nil d
scopes_or (some s) d = s

-- The claims that the scopes stand for, where they are added.
unfoldable pub scope_claims :
    Scopes → Option Client → Bool → Option (List String) → ClaimsRequest → Claims
unfolding scopes_to_claims
scope_claims handler client by_scope scopes r =
    let found = scopes_to_claims handler (scopes_or scopes r.scope) [] client in
    if by_scope then found else []

abbrev pub claims_from :
    Scopes
    → Option Client
    → Module
    → Option AddClaims
    → ClaimsRequest
    → String
    → Option (List String)
    → String
    → Claims
claims_from handler client m own r point scopes secondary =
    Dict.update
      (Dict.update (Dict.update m.base_claims (always_for m own point secondary))
        (scope_claims handler client (by_scope_for m own point secondary) scopes r))
      (authorization_request_claims r point)

abbrev after_settings : Option AddClaims → Option AddClaims → String → String → Option AddClaims
after_settings a none point secondary = a
after_settings a (some own) point secondary = some (after_client_claims own point secondary)

-- `get_claims_from_request`: the claims, and the client's entry as it is left. `client` is what the handler
-- of scopes reads of the client, `add_claims` is its entry, `none` where the client is not known. Without a
-- module for the release point there are no claims.
unfoldable pub get_claims_from_request :
    Scopes
    → Option Client
    → Option Module
    → Option AddClaims
    → ClaimsRequest
    → String
    → Option (List String)
    → String
    → Claims × Option AddClaims
unfolding scope_claims authorization_request_claims client_by_scope client_always
    after_client_claims
get_claims_from_request handler client none a r point scopes secondary = ([], a)
get_claims_from_request handler client (some m) a r point scopes secondary = (
  claims_from handler client m (own_settings m a) r point scopes secondary,
  after_settings a (own_settings m a) point secondary,
)

abbrev add_match : Dict Value → String → Option Value → Spec → Dict Value → Dict Value
add_match info k none spec rest = rest
add_match info k (some v) spec rest = if claims_match (some v) spec then (k, v) ∷ rest else rest

-- The comprehension in `get_user_claims`
unfoldable pub matching : Dict Value → Claims → Dict Value
unfolding claims_match
matching info [] = []
matching info ((k, spec) ∷ r) = add_match info k (Dict.get info k) spec (matching info r)

pub data Error : Type 0 where
  improperly_configured : Error

-- `get_user_claims`; without restrictions the service is not asked.
unfoldable pub get_user_claims :
    Option (String → String → Dict Value) → String → Claims → String → Outcome Error (Dict Value)
unfolding matching
get_user_claims none user_id restriction client_id = err improperly_configured
get_user_claims (some userinfo) user_id [] client_id = ok []
get_user_claims (some userinfo) user_id (c ∷ cs) client_id =
    ok (matching (userinfo user_id client_id) (c ∷ cs))
