-- ===== src/Session/Manager.antt =====
-- `GrantManager` and `SessionManager` of src/idpyoidc/server/session/grant_manager.py and manager.py: the grants
-- and the nodes above them. The session database and the tokens of its grants are one state.
pub mod Lookup
pub mod Revoke
pub mod Grants
pub mod Create
pub mod Sessions
use idpy_oidc.Base.{
  ℕ, ◌+◌, Bool, false, Option, none, some, List, [], ◌∷◌, ◌++◌, String, ◌==◌, Outcome, ok, err,
  ◌>>=◌, get_elem?, if◌then◌else◌,
}
use idpy_oidc.Dict
use idpy_oidc.Dict.{Dict}
use idpy_oidc.Session.Token.{UsageRules, default_args, init_item}
use idpy_oidc.Session.Claims.{Value, Claims}
use idpy_oidc.Session.Grant.{Heap, Grant, AuthorizationRequest}
use idpy_oidc.Session.BranchId.{Crypt, encrypted_branch_id}
use idpy_oidc.Session.Database.{
  NodeInfo, Node, info, leaf, Db, Error, key_error, index_error, Config, set, get,
}

pub record State : Type 0 where
  pub db : Db
  pub heap : Heap

-- The exceptions that leave the manager: those of the database, `TypeError`, and the package's own.
pub data Exception : Type 0 where
  database : Error → Exception
  type_error unknown_token wrong_token_class to_old improperly_configured : Exception
  invalid_branch_id : String → Exception

abbrev pub lift : {A : Type 0} → Outcome Error A → Outcome Exception A
lift (ok a) = ok a
lift (err e) = err (database e)

-- The classes that `node_info_class` may name.
pub data NodeClass : Type 0 where
  node_info user_session_info client_session_info grant_class : NodeClass

-- The attributes of a manager. `sub_func` has the minters of subject identifiers, `salt` applied: what
-- they make of a user and a sector.
pub record Manager : Type 0 where
  pub crypt : Crypt
  pub node_type : List String
  pub node_info_class : Dict NodeClass
  pub remembers : Bool
  pub remove_inactive_token : Bool
  pub sub_func : Dict (String → String → String)

abbrev type_name : NodeClass → String
type_name node_info = ""
type_name user_session_info = "UserSessionInfo"
type_name client_session_info = "ClientSessionInfo"
type_name grant_class = "grant"

-- `_info_class(id=...)`, of a class of inner nodes
abbrev pub new_info : NodeClass → String → NodeInfo
new_info c x = record { id = x; subordinate = []; revoked = false; type = type_name c }

-- `Grant` takes no argument `id`.
abbrev pub make_node : NodeClass → String → Outcome Exception Node
make_node grant_class x = err type_error
make_node node_info x = ok (info (new_info node_info x))
make_node user_session_info x = ok (info (new_info user_session_info x))
make_node client_session_info x = ok (info (new_info client_session_info x))

abbrev class_of : Manager → Option String → Outcome Exception NodeClass
class_of m none = err (database index_error)
class_of m (some t) = elim (Dict.get m.node_info_class t) [
  | none ↦ err (database key_error)
  | some c ↦ ok c
]

-- `self.node_info_class[self.node_type[i]]`
unfoldable pub info_class : Manager → ℕ → Outcome Exception NodeClass
info_class m i = class_of m (get_elem? m.node_type i)

abbrev made_node : Outcome Exception NodeClass → String → Option Node
made_node (err e) x = none
made_node (ok grant_class) x = none
made_node (ok node_info) x = some (info (new_info node_info x))
made_node (ok user_session_info) x = some (info (new_info user_session_info x))
made_node (ok client_session_info) x = some (info (new_info client_session_info x))

-- What `Database.set` makes where a node is missing on the way.
unfoldable pub config : Manager → Config
unfolding info_class
config m = record { new_node = λ i x. made_node (info_class m i) x }

abbrev pub set_up_node :
    Manager → ℕ → String → List String → Outcome Error Node → Db → Outcome Exception Db
set_up_node m i x path (ok n) db = ok db
set_up_node m i x path (err e) db = do
  c ← info_class m i
  node ← make_node c x
  lift (set (config m) path node db)

-- The rounds of the loop of `_setup_branch`, from level `i`, below the names `above`.
unfoldable pub set_up_from : Manager → ℕ → List String → List String → Db → Outcome Exception Db
unfolding set get info_class config
set_up_from m i above [] db = ok db
set_up_from m i above (x ∷ xs) db = do
  db' ← set_up_node m i x (above ++ x ∷ []) (get (above ++ x ∷ []) db) db
  set_up_from m (i + 1) (above ++ x ∷ []) xs db'

unfoldable pub setup_branch : Manager → List String → Db → Outcome Exception Db
unfolding set_up_from
setup_branch m path db = set_up_from m 0 [] path db

-- The keyword arguments that reach `Grant.__init__`. A grant's usage rules are its own and those for
-- each class of token; `none` and an empty dictionary come to the same.
pub record GrantArgs : Type 0 where
  pub usage_rules : Option (UsageRules × Dict UsageRules)
  pub scope : Option (List String)
  pub claims : Dict Claims
  pub resources : List String
  pub authorization_request : Option AuthorizationRequest
  pub authn_info : Option Value
  pub sub : String

abbrev own_rules : Option (UsageRules × Dict UsageRules) → Option UsageRules
own_rules none = none
own_rules (some (own, classes)) = some own

abbrev rules_for_classes : Option (UsageRules × Dict UsageRules) → Dict UsageRules
rules_for_classes none = []
rules_for_classes (some (own, classes)) = classes

abbrev pub or_empty : Option (List String) → List String
or_empty none = []
or_empty (some xs) = xs

-- `Grant.__init__`, as `add_grant` calls it: `fresh` is `uuid1().hex`.
unfoldable pub init_grant : Manager → ℕ → String → GrantArgs → Grant
unfolding init_item
init_grant m now fresh a = record {
  item = init_item now (record default_args { usage_rules = own_rules a.usage_rules });
  id = fresh;
  class_rules = rules_for_classes a.usage_rules;
  scope = or_empty a.scope;
  claims = a.claims;
  resources = a.resources;
  authorization_request = a.authorization_request;
  authn_info = a.authn_info;
  issued_token = [];
  sub = a.sub;
  dpop_jkt = none;
  remembers = m.remembers;
  remove_inactive_token = m.remove_inactive_token;
}

-- `add_grant`: the identifier of the new branch, and the database. `rnd` is what makes the identifier
-- random.
unfoldable pub add_grant :
    Manager → ℕ → String → String → List String → GrantArgs → Db → Outcome Exception (String × Db)
unfolding setup_branch set init_grant encrypted_branch_id
add_grant m now fresh rnd path args db = do
  db' ← setup_branch m path db
  db'' ← lift (set (config m) (path ++ fresh ∷ []) (leaf (init_grant m now fresh args)) db')
  ok (encrypted_branch_id m.crypt rnd (path ++ fresh ∷ []), db'')

abbrev id_of : String → String → String → Outcome Exception String
id_of user_id client_id t =
    if t == "user"
    then ok user_id
    else if t == "client"
    then ok client_id
    else err (database key_error)

-- The loop of `make_path`, over the types of node but the last.
unfoldable pub make_path : List String → String → String → Outcome Exception (List String)
make_path [] user_id client_id = ok []
make_path (t ∷ []) user_id client_id = ok []
make_path (t ∷ u ∷ ts) user_id client_id = do
  x ← id_of user_id client_id t
  rest ← make_path (u ∷ ts) user_id client_id
  ok (x ∷ rest)

pub data Audience : Type 0 where
  one : String → Audience
  several : List String → Audience

-- The request that a session is made for: what the grant keeps of it, and the parameters that
-- `create_grant` reads. `none` is a missing key.
pub record SessionRequest : Type 0 where
  pub kept : AuthorizationRequest
  pub sector_identifier_uri : String
  pub claims : Dict Claims
  pub scope : Option (List String)
  pub resource : Option (List String)
  pub audience : Option Audience

abbrev pub audience_of : Option Audience → List String
audience_of none = []
audience_of (some (one a)) = a ∷ []
audience_of (some (several as_given)) = as_given

-- `resources`, with the audience put at its end
unfoldable pub resources_for : SessionRequest → List String
resources_for r = or_empty r.resource ++ audience_of r.audience

abbrev pub scopes_or : Option (List String) → Option (List String) → Option (List String)
scopes_or none d = d
scopes_or (some s) d = some s

-- The arguments of `create_session`, which are those of `create_grant`.
pub record SessionArgs : Type 0 where
  pub authn_info : Option Value
  pub user_id : String
  pub client_id : String
  pub sub_type : String
  pub token_usage_rules : Option (UsageRules × Dict UsageRules)
  pub scopes : Option (List String)

abbrev pub subject : Manager → SessionArgs → SessionRequest → Outcome Exception String
subject m a r = elim (Dict.get m.sub_func a.sub_type) [
  | none ↦ err (database key_error)
  | some f ↦ ok (f a.user_id r.sector_identifier_uri)
]

unfoldable pub grant_args : SessionArgs → SessionRequest → String → GrantArgs
unfolding resources_for
grant_args a r sub = record {
  usage_rules = a.token_usage_rules;
  scope = scopes_or a.scopes r.scope;
  claims = r.claims;
  resources = resources_for r;
  authorization_request = some r.kept;
  authn_info = a.authn_info;
  sub = sub;
}

-- `create_grant`, which `create_session` is. The list of resources is the request's own list, if it
-- has one, so the request that the caller holds has the audience in it too.
unfoldable pub create_session :
    Manager
    → ℕ
    → String
    → String
    → SessionArgs
    → SessionRequest
    → Db
    → Outcome Exception (String × Db)
unfolding make_path add_grant grant_args
create_session m now fresh rnd a r db = do
  path ← make_path m.node_type a.user_id a.client_id
  sub ← subject m a r
  add_grant m now fresh rnd path (grant_args a r sub) db
