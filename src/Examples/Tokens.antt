-- ===== src/Examples/Tokens.antt =====
-- Runs of the introspection and the revocation endpoint, for the refresh token of a session.
use idpy_oidc.Base.{
  arith, ◌≡◌, refl, true, ◌⊎◌, false, Option, none, some, [], ◌∷◌, String, ◌==◌, Outcome, ok,
  if◌then◌else◌,
}
use idpy_oidc.Dict
use idpy_oidc.Dict.{Dict}
use idpy_oidc.Session.Token.{is_active, max_usage_reached, revoke_token_item}
use idpy_oidc.Session.Claims.{Value}
use idpy_oidc.Session.Grant.{write, get_token, token_with_value}
use idpy_oidc.Session.Grant.Scope.{find_scope}
use idpy_oidc.Base.Decimal.{read, read_from}
use idpy_oidc.Session.BranchId.{
  decrypt_branch_id, lv_unpack, fields, split_colon, strip, take_text, drop_text,
}
use idpy_oidc.Session.Database.{get}
use idpy_oidc.Session.Database.Key.{branch_key, unpack_branch_key}
use idpy_oidc.Session.Manager.{Manager, State, Exception, info_class}
use idpy_oidc.Session.Manager.Lookup.{
  BranchInfo, get_session_info_by_token, compatible_sid, branch_info, nodes_from, gather,
  find_token,
}
use idpy_oidc.Session.Manager.Revoke.{revoke_token, and_below}
use idpy_oidc.Session.Claims.Interface.{names}
use idpy_oidc.Introspection.{
  Endpoint, Request, inactive, process_request, process_session, for_client, introspect, respond,
  weed, join, apply_methods,
}
use idpy_oidc.Introspection.Active.{SaysActive, IsLive, process_request-IsLive}
use idpy_oidc.Introspection.Answers.{process_request-SaysActive}
use idpy_oidc.Examples.Grants.{ordered}
use idpy_oidc.Introspection.Found.{IsSession}
use idpy_oidc.Introspection.Revoked.{introspect-revoke_token}
use idpy_oidc.Revocation as Revocation
use idpy_oidc.Revocation.Policy.{HasStandardPolicy, Settles, RevokesOne, process_request-RevokesOne}
use idpy_oidc.Examples.Data.{grant, heap}
use idpy_oidc.Session.Database.{leaf}
use idpy_oidc.Examples.Nodes.{db, node}
use idpy_oidc.Session.Manager.Create.{IsStandard}
use idpy_oidc.Examples.Managed.{manager}

-- An encrypter that knows one identifier.
abbrev one_session : Manager
one_session = record manager {
  crypt = record {
    encrypt = λ s. "sid";
    decrypt = λ s. if s == "sid" then some "6:random20:diana;;client;;grant" else none;
  };
}

sid_path : decrypt_branch_id one_session.crypt "sid" ≡ ok ("diana" ∷ "client" ∷ "grant" ∷ [])
unfolding decrypt_branch_id lv_unpack fields split_colon strip take_text drop_text read read_from
    unpack_branch_key
sid_path = refl

abbrev token_info : String → Outcome Exception (Option String)
token_info value = ok (some "sid")

abbrev endpoint : Endpoint
endpoint = record {
  manager = one_session;
  token_info = token_info;
  issuer = "https://op.example";
  token_args_methods = [];
  enforce_aud_restriction = false;
  restricts = [];
  kwargs = some (record {
    base_claims = [];
    enable_claims_per_client = false;
    add_claims_by_scope = false;
    always_add_claims = names [];
  });
  scopes_handler = record { scopes_to_claims = []; allowed_scopes = [] };
  clients = [];
  add_claims = [];
  userinfo = some (λ user client. []);
}

abbrev request : Request
request = record { token = "refresh"; client_id = "client" }

abbrev state : State
state = record { db = db; heap = heap }

standard_one : IsStandard one_session
unfolding info_class Dict.get
standard_one = (refl, refl, refl)

session : IsSession one_session token_info "refresh" "sid" "diana" "client" "grant" grant db
session = record {
  standard = standard_one;
  named = refl;
  filled = refl;
  encrypted = unfold unpack_branch_key in refl;
  path = sid_path;
  stored = unfold branch_key Dict.get in refl;
}

abbrev active_response : Dict Value
active_response =
    ("active", Value.flag true)
    ∷ ("scope", Value.text "openid offline_access")
    ∷ ("client_id", Value.text "client")
    ∷ ("exp", Value.number 0)
    ∷ ("iat", Value.number 100)
    ∷ ("sub", Value.text "diana")
    ∷ ("iss", Value.text "https://op.example")
    ∷ []

active_run : process_request 3 endpoint 200 "random" request [] state ≡ ok active_response
unfolding process_request process_session for_client introspect respond weed join apply_methods
    get_session_info_by_token compatible_sid branch_info nodes_from gather get branch_key
    decrypt_branch_id lv_unpack fields split_colon strip take_text drop_text read read_from
    unpack_branch_key get_token token_with_value is_active max_usage_reached find_scope Dict.get
    Dict.put Dict.update
active_run = refl

process_request-IsLive_example :
    (active_response ≡ inactive)
    ⊎ (SaysActive active_response
        × ((b : BranchInfo) × (get_session_info_by_token one_session token_info "random" "refresh"
                db
              ≡ ok b)
            × IsLive endpoint 200 heap request b))
process_request-IsLive_example =
    process_request-IsLive 3 endpoint 200 "random" request [] state active_response active_run

abbrev branch : BranchInfo
branch = record {
  branch_id = "sid";
  nodes =
      ("user", node "diana" ("diana;;client" ∷ []) "user")
      ∷ ("client", node "client" ("diana;;client;;grant" ∷ []) "client")
      ∷ ("grant", leaf grant)
      ∷ [];
  ids = ("user", "diana") ∷ ("client", "client") ∷ ("grant", "grant") ∷ [];
}

found_run : get_session_info_by_token one_session token_info "random" "refresh" db ≡ ok branch
unfolding get_session_info_by_token compatible_sid branch_info nodes_from gather get branch_key
    decrypt_branch_id lv_unpack fields split_colon strip take_text drop_text read read_from
    unpack_branch_key Dict.get Dict.put
found_run = refl

process_request-SaysActive_example :
    (resp : Dict Value) × (process_request 3 endpoint 200 "random" request [] state ≡ ok resp)
    × SaysActive resp
unfolding get_token token_with_value is_active max_usage_reached Dict.get
process_request-SaysActive_example =
    process_request-SaysActive 3 endpoint 200 "random" request [] state branch grant (heap.at 1)
      "diana" "client" (λ user client. []) found_run refl refl refl refl refl ordered (omega arith)
      refl refl refl

abbrev revoked : State
revoked = record { db = db; heap = write heap 1 (revoke_token_item (heap.at 1)) }

revoked_run : revoke_token 3 one_session "sid" "refresh" false state ≡ ok revoked
unfolding revoke_token find_token and_below get branch_key decrypt_branch_id lv_unpack fields
    split_colon strip take_text drop_text read read_from unpack_branch_key token_with_value Dict.get
revoked_run = refl

inactive_run : process_request 3 endpoint 200 "random" request [] revoked ≡ ok inactive
unfolding process_request process_session for_client introspect respond weed join apply_methods
    get_session_info_by_token compatible_sid branch_info nodes_from gather get branch_key
    decrypt_branch_id lv_unpack fields split_colon strip take_text drop_text read read_from
    unpack_branch_key get_token token_with_value is_active max_usage_reached find_scope Dict.get
    Dict.put Dict.update
inactive_run = refl

introspect-revoke_token_example : ◌≡◌ {A = Dict Value} inactive inactive
introspect-revoke_token_example =
    introspect-revoke_token 3 3 endpoint 200 "random" "sid" "diana" "client" "grant" "client" []
      "refresh" grant state revoked inactive session revoked_run inactive_run

abbrev revocation : Revocation.Endpoint
revocation = record {
  manager = one_session;
  token_info = token_info;
  kwargs = record { token_types_supported = none; policy = none };
  clients = [];
}

standard_policy : HasStandardPolicy revocation
unfolding Revocation.policy_for Dict.get
standard_policy client_id = refl

abbrev revocation_request : Revocation.Request
revocation_request = record { token = "refresh"; client_id = "client" }

abbrev status : Revocation.Status
status = record { sessions = state; token_types_supported = Revocation.class_types }

process_request-RevokesOne_example :
    Settles
      (λ s'.
        (b : BranchInfo) × (get_session_info_by_token one_session token_info "random" "refresh" db
          ≡ ok b)
        × RevokesOne revocation revocation_request b state s')
      state
      (Revocation.process_request revocation "random" revocation_request status)
process_request-RevokesOne_example =
    process_request-RevokesOne revocation "random" revocation_request status standard_policy

-- The request is answered by the policy.
answered :
    (Revocation.process_request revocation "random" revocation_request status).1
    ≡ ok (Revocation.by_policy "OK")
unfolding Revocation.process_request Revocation.process_session Revocation.check_type
    Revocation.revoke Revocation.picked Revocation.policy_for Revocation.chosen Revocation.types_for
    Revocation.validate_token_revocation_policy find_token get_session_info_by_token compatible_sid
    branch_info nodes_from gather get branch_key decrypt_branch_id lv_unpack fields split_colon
    strip take_text drop_text read read_from unpack_branch_key get_token token_with_value Dict.get
    Dict.put Dict.contains_key
answered = refl
