-- ===== src/Revocation.antt =====
-- src/idpyoidc/server/oauth2/token_revocation.py: the revocation endpoint. The token handler, the client
-- database's entries for the endpoint and the policy functions are parameters.
pub mod Policy
pub mod Leak
use idpy_oidc.Base.{
  ℕ, Option, none, some, List, [], ◌∷◌, String, ◌==◌, Outcome, ok, err, ◌>>=◌, contains,
  if◌then◌else◌,
}
use idpy_oidc.Dict
use idpy_oidc.Dict.{Dict}
use idpy_oidc.Session.Token.{revoke_token_item}
use idpy_oidc.Session.Grant.{Heap, Grant, write, get_token}
use idpy_oidc.Session.Database.{info, leaf, key_error, attribute_error}
use idpy_oidc.Session.Manager.{
  State, Manager, Exception, database, unknown_token, wrong_token_class, to_old,
  improperly_configured, invalid_branch_id, type_error,
}
use idpy_oidc.Session.Manager.Lookup.{BranchInfo, get_session_info_by_token, find_token}

-- What a policy function returns; `raised` is an exception.
pub data PolicyResult : Type 0 where
  response_msg : String → PolicyResult
  raised : PolicyResult

-- A policy function, with its keyword arguments: it may change tokens.
abbrev pub PolicyFunction : Type 0
PolicyFunction = Heap → ℕ → BranchInfo → Heap × PolicyResult

-- `validate_token_revocation_policy`
unfoldable pub validate_token_revocation_policy : PolicyFunction
validate_token_revocation_policy h t b = (write h t (revoke_token_item (h.at t)), response_msg "OK")

-- An entry `token_revocation` of a client or of the endpoint's configuration. `none` is a missing key.
pub record Settings : Type 0 where
  pub token_types_supported : Option (List String)
  pub policy : Option (Dict PolicyFunction)

-- The endpoint. `clients` has the entries of the clients that have one.
pub record Endpoint : Type 0 where
  pub manager : Manager
  pub token_info : String → Outcome Exception (Option String)
  pub kwargs : Settings
  pub clients : Dict Settings

pub record Request : Type 0 where
  pub token : String
  pub client_id : String

-- What a call changes: the tokens, and the endpoint's attribute `token_types_supported`, which is the
-- class's list until it is set.
pub record Status : Type 0 where
  pub sessions : State
  pub token_types_supported : List String

abbrev pub class_types : List String
class_types = "authorization_code" ∷ "access_token" ∷ "refresh_token" ∷ []

-- An empty response, an error message, or what a policy function returned.
pub data Response : Type 0 where
  nothing : Response
  error : String → Response
  by_policy : String → Response

abbrev pub or_value : {A : Type 0} → Option A → A → A
or_value none d = d
or_value (some a) d = a

abbrev pub client_types : Option Settings → Option (List String)
client_types none = none
client_types (some c) = c.token_types_supported

abbrev client_policy : Option Settings → Option (Dict PolicyFunction)
client_policy none = none
client_policy (some c) = c.policy

-- `self.token_types_supported`, as it is set for a client
unfoldable pub types_for : Endpoint → String → List String → List String
types_for e client_id current = elim (client_types (Dict.get e.clients client_id)) [
  | none ↦ or_value e.kwargs.token_types_supported current
  | some ts ↦ ts
]

-- `self.policy`, which is set anew for each request
unfoldable pub policy_for : Endpoint → String → Dict PolicyFunction
unfolding validate_token_revocation_policy
policy_for e client_id = elim (client_policy (Dict.get e.clients client_id)) [
  | none ↦ or_value e.kwargs.policy (("", validate_token_revocation_policy) ∷ [])
  | some p ↦ p
]

abbrev to_response : PolicyResult → Response
to_response (response_msg m) = by_policy m
to_response raised = error "server_error"

-- What a call leaves: the status, and what it returns or raises.
abbrev pub Result : Type 0
Result = Status × Outcome Exception Response

abbrev pub need : {A : Type 0} → Exception → Option A → Outcome Exception A
need x none = err x
need x (some a) = ok a

-- The policy for a class of token, or that under the empty text.
unfoldable pub chosen : Dict PolicyFunction → String → Outcome Exception PolicyFunction
chosen p c =
    if Dict.contains_key p c
    then need (database key_error) (Dict.get p c)
    else need (database key_error) (Dict.get p "")

-- The token that is revoked, and the policy function for it.
unfoldable pub picked :
    Endpoint → Request → String → BranchInfo → Status → Outcome Exception (ℕ × PolicyFunction)
unfolding find_token policy_for chosen
picked e r client_id b s = do
  found ← find_token e.manager b.branch_id r.token s.sessions
  t ← need (database attribute_error) found
  f ← chosen (policy_for e client_id) (s.sessions.heap.at t).token_class
  ok (t, f)

-- The call of a policy function.
abbrev pub run_policy : BranchInfo → Status → Outcome Exception (ℕ × PolicyFunction) → Result
run_policy b s (err x) = (s, err x)
run_policy b s (ok (t, f)) =
    let (h, r) = f s.sessions.heap t b in
    (record s { sessions = record s.sessions { heap = h } }, ok (to_response r))

-- `_revoke`
unfoldable pub revoke : Endpoint → Request → String → BranchInfo → Status → Result
unfolding picked
revoke e r client_id b s = run_policy b s (picked e r client_id b s)

abbrev pub grant_of : BranchInfo → Outcome Exception Grant
grant_of b = elim (Dict.get b.nodes "grant") [
  | none ↦ err (database key_error)
  | some n ↦ elim n [ info i ↦ err (database attribute_error) | leaf g ↦ ok g ]
]

-- The check of the type of the token, `none` where the grant has not got it.
unfoldable pub check_type : Endpoint → Request → String → BranchInfo → Status → Option ℕ → Result
unfolding revoke
check_type e r client_id b s none = (s, err (database attribute_error))
check_type e r client_id b s (some t) =
    let rest = revoke e r client_id b s in
    if contains (s.sessions.heap.at t).token_class s.token_types_supported
    then rest
    else (s, ok (error "unsupported_token_type"))

-- The steps for the client that the token was given to: the list of types is set first.
abbrev pub for_client :
    Endpoint → Request → String → BranchInfo → Status → Outcome Exception Grant → Result
for_client e r client_id b s (err x) = (s, err x)
for_client e r client_id b s (ok g) =
    check_type e r client_id b
      (record s { token_types_supported = types_for e client_id s.token_types_supported })
      (get_token s.sessions.heap g r.token)

abbrev pub check_client : Endpoint → Request → BranchInfo → Status → Option String → Result
check_client e r b s none = (s, err (database key_error))
check_client e r b s (some client_id) =
    let rest = for_client e r client_id b s (grant_of b) in
    if client_id == r.client_id then rest else (s, ok (error "invalid_grant"))

-- The steps of `process_request` once a session is found.
unfoldable pub process_session : Endpoint → Request → Status → BranchInfo → Result
unfolding check_type types_for get_token
process_session e r s b = check_client e r b s (Dict.get b.ids "client")

abbrev pub or_nothing : (BranchInfo → Result) → Status → Outcome Exception BranchInfo → Result
or_nothing f s (ok b) = f b
or_nothing f s (err unknown_token) = (s, ok nothing)
or_nothing f s (err wrong_token_class) = (s, ok nothing)
or_nothing f s (err to_old) = (s, err to_old)
or_nothing f s (err improperly_configured) = (s, err improperly_configured)
or_nothing f s (err type_error) = (s, err type_error)
or_nothing f s (err (database x)) = (s, err (database x))
or_nothing f s (err (invalid_branch_id x)) = (s, err (invalid_branch_id x))

-- `process_request`
unfoldable pub process_request : Endpoint → String → Request → Status → Result
unfolding get_session_info_by_token process_session
process_request e rnd r s =
    or_nothing (process_session e r s) s
      (get_session_info_by_token e.manager e.token_info rnd r.token s.sessions.db)
