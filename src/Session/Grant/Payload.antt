-- ===== src/Session/Grant/Payload.antt =====
-- `Grant.payload_arguments` and `Grant.add_acr_value`. The context is an argument of the methods: a
-- record of the functions that are called on it. `uuid1().hex` is an argument where it is called.
-- The grant has an authentication event, which may lack `authn_info` (then `claims_match` fails, and nothing
-- is added); a grant without an event, where the code raises `AttributeError` if the release point has
-- claims, is not modelled.
use idpy_oidc.Base.{
  Bool, false, Option, none, some, List, [], ◌∷◌, String, is_nonempty, if◌then◌else◌,
}
use idpy_oidc.Dict
use idpy_oidc.Dict.{Dict}
use idpy_oidc.Session.Token.{SessionToken}
use idpy_oidc.Session.Claims.{Value, Spec, Claims, claims_match}
use idpy_oidc.Session.Grant.{Grant, AuthorizationRequest, or_nonempty}

-- `claims_interface` and the first of `session_manager.node_type`; `ids` is the user and the client
-- of a session identifier.
pub record Context : Type 0 where
  pub claims_release_points : List String
  pub users_first : Bool
  pub get_claims : String → Option Value → String → Option String → Claims
  pub get_user_claims : String → Claims → String → Dict Value
  pub ids : String → String × String

abbrev acr_request : Claims → Spec
acr_request release = elim (Dict.get release "acr") [ none ↦ none | some spec ↦ spec ]

abbrev acr_in : Option Value → Option Claims → Bool
acr_in used none = false
acr_in used (some []) = false
acr_in used (some (c ∷ cs)) = claims_match used (acr_request (c ∷ cs))

unfoldable pub add_acr_value : Grant → Option String → Bool
add_acr_value g none = false
add_acr_value g (some point) = acr_in g.authn_info (Dict.get g.claims point)

abbrev put_list : Dict Value → String → List String → Dict Value
put_list p k [] = p
put_list p k (x ∷ xs) = Dict.put p k (Value.texts (x ∷ xs))

abbrev put_jkt : Dict Value → Option String → Dict Value
put_jkt p none = p
put_jkt p (some x) = if is_nonempty x then Dict.put p "cnf" (Value.jkt x) else p

abbrev put_client : Dict Value → String → Option AuthorizationRequest → Dict Value
put_client p sub none = p
put_client p sub (some r) =
    if is_nonempty r.client_id
    then Dict.put (Dict.put p "client_id" (Value.text r.client_id)) "sub" (Value.text sub)
    else p

abbrev unrestricted : List String → Claims
unrestricted [] = []
unrestricted (c ∷ cs) = Dict.put (unrestricted cs) c none

abbrev or_default : Option (List String) → List String → List String
or_default none d = d
or_default (some l) d = l

-- The payload up to the claims.
unfoldable pub base_payload :
    Grant → String → SessionToken → Option (List String) → Dict Value → Dict Value
base_payload g jti item scope extra_payload =
    let p0 = put_list [] "scope" (or_nonempty item.scope g.scope) in
    let p1 = put_list p0 "aud" (or_nonempty item.resources g.resources) in
    let p2 = Dict.put p1 "jti" (Value.text jti) in
    let p3 = Dict.put p2 "scope" (Value.texts (or_default scope g.scope)) in
    put_client (put_jkt (Dict.update p3 extra_payload) g.dpop_jkt) g.sub g.authorization_request

abbrev restriction : Context → String → SessionToken → String → Option String → Dict Value → Claims
restriction ctx session_id item point secondary p = elim item.claims [
  | [] ↦ ctx.get_claims session_id (Dict.get p "scope") point secondary
  | c ∷ cs ↦ unrestricted (c ∷ cs)
]

abbrev put_user_claims : Context → String → Claims → Dict Value → Dict Value
put_user_claims ctx session_id [] p = p
put_user_claims ctx session_id (c ∷ cs) p =
    if ctx.users_first
    then (let (user_id, client_id) = ctx.ids session_id in
        Dict.update p (ctx.get_user_claims user_id (c ∷ cs) client_id))
    else p

abbrev put_acr : Dict Value → Option Value → Dict Value
put_acr p none = p
put_acr p (some v) = Dict.put p "acr" v

unfoldable pub payload_arguments :
    Grant
    → Context
    → String
    → String
    → SessionToken
    → String
    → Option (List String)
    → Dict Value
    → Option String
    → Dict Value
unfolding base_payload add_acr_value
payload_arguments g ctx jti session_id item point scope extra_payload secondary =
    let p = base_payload g jti item scope extra_payload in
    let q = put_user_claims ctx session_id (restriction ctx session_id item point secondary p) p in
    if add_acr_value g (some point)
    then put_acr q g.authn_info
    else if add_acr_value g secondary
    then put_acr q g.authn_info
    else q
