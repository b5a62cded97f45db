-- ===== src/Session/Manager/Lookup.antt =====
-- What `GrantManager` and `SessionManager` find for a session identifier: manager.py and
-- grant_manager.py. `token_handler.info` is a parameter, which returns the token's `sid`, if it has one.
use idpy_oidc.Base.{
  ℕ, zero, suc, ◌+◌, Bool, true, false, ◌&&◌, Option, none, some, List, [], ◌∷◌, ◌++◌, String, ◌==◌,
  Outcome, ok, err, ◌>>=◌, get_elem?, contains, length, eqb, is_nonempty, if◌then◌else◌,
}
use idpy_oidc.Dict
use idpy_oidc.Dict.{Dict}
use idpy_oidc.Session.Claims.{Value}
use idpy_oidc.Session.Grant.{Grant, AuthorizationRequest, token_with_value}
use idpy_oidc.Session.BranchId.{decrypt_branch_id, encrypted_branch_id}
use idpy_oidc.Session.Database.{
  NodeInfo, Node, info, leaf, Db, Error, key_error, value_error, attribute_error, index_error, get,
}
use idpy_oidc.Session.Database.Key.{unpack_branch_key}
use idpy_oidc.Session.Manager.{
  State, Manager, Exception, database, lift, wrong_token_class, invalid_branch_id,
}

-- `path[0:n]`
unfoldable pub take : ℕ → List String → List String
take zero xs = []
take (suc n) [] = []
take (suc n) (x ∷ xs) = x ∷ take n xs

abbrev pub index_from : ℕ → List String → String → Outcome Exception ℕ
index_from i [] t = err (database value_error)
index_from i (u ∷ us) t = let rest = index_from (i + 1) us t in if u == t then ok i else rest

-- `self.node_type.index(t)`
unfoldable pub level_of : Manager → String → Outcome Exception ℕ
level_of m t = index_from 0 m.node_type t

abbrev pub name_at : List String → ℕ → Outcome Exception String
name_at path i = elim (get_elem? path i) [ none ↦ err (database index_error) | some x ↦ ok x ]

-- `get_node_info` with a level
unfoldable pub node_at : List String → ℕ → Db → Outcome Exception (String × Node)
unfolding take get
node_at path level db = do
  x ← name_at path level
  node ← lift (get (take (level + 1) path) db)
  ok (x, node)

-- `get_node_info` with a type of node
unfoldable pub get_node_info : Manager → String → String → Db → Outcome Exception (String × Node)
unfolding level_of node_at decrypt_branch_id
get_node_info m sid node_type db = do
  path ← lift (decrypt_branch_id m.crypt sid)
  level ← level_of m node_type
  node_at path level db

abbrev with_type : String → String × Node → Outcome Exception NodeInfo
with_type t (x, leaf g) = err (database value_error)
with_type t (x, info n) = if n.type == t then ok n else err (database value_error)

unfoldable pub get_client_session_info : Manager → String → Db → Outcome Exception NodeInfo
unfolding get_node_info
get_client_session_info m sid db = get_node_info m sid "client" db >>= with_type "ClientSessionInfo"

unfoldable pub get_user_session_info : Manager → String → Db → Outcome Exception NodeInfo
unfolding get_node_info
get_user_session_info m sid db = get_node_info m sid "user" db >>= with_type "UserSessionInfo"

abbrev pub as_grant : String × Node → Outcome Exception Grant
as_grant (x, leaf g) = ok g
as_grant (x, info n) = err (database value_error)

unfoldable pub get_grant : Manager → String → Db → Outcome Exception Grant
unfolding get_node_info
get_grant m sid db = get_node_info m sid "grant" db >>= as_grant

unfoldable pub get_user_info : String → Db → Outcome Exception NodeInfo
unfolding get
get_user_info uid db = lift (get (uid ∷ []) db) >>= λ node. with_type "UserSessionInfo" (uid, node)

unfoldable pub client_session_is_revoked : Manager → String → Db → Outcome Exception Bool
unfolding get_client_session_info
client_session_is_revoked m sid db = do c ← get_client_session_info m sid db; ok c.revoked

-- `issued_token`, which an inner node has not
abbrev pub tokens_of : Node → Outcome Exception (List ℕ)
tokens_of (leaf g) = ok g.issued_token
tokens_of (info n) = err (database attribute_error)

-- `find_token`
unfoldable pub find_token : Manager → String → String → State → Outcome Exception (Option ℕ)
unfolding decrypt_branch_id get token_with_value
find_token m sid value s = do
  path ← lift (decrypt_branch_id m.crypt sid)
  node ← lift (get path s.db)
  tokens ← tokens_of node
  ok (token_with_value s.heap tokens value)

-- The loop of `_get_nodes`, below the names `above`.
unfoldable pub nodes_from : List String → List String → Db → Outcome Error (List Node)
unfolding get
nodes_from above [] db = ok []
nodes_from above (x ∷ xs) db = do
  node ← get (above ++ x ∷ []) db
  rest ← nodes_from (above ++ x ∷ []) xs db
  ok (node ∷ rest)

-- What `branch_info` returns: under each type of node, the node and its identifier.
pub record BranchInfo : Type 0 where
  pub branch_id : String
  pub nodes : Dict Node
  pub ids : Dict String

abbrev is_asked : List String → String → Bool
is_asked [] t = true
is_asked (u ∷ us) t = contains t (u ∷ us)

-- The loop of `branch_info` over the types. `only` is `args`.
unfoldable pub gather :
    List String → List String → List Node → List String → BranchInfo → Outcome Exception BranchInfo
gather only [] nodes path b = ok b
gather only (t ∷ ts) [] path b =
    let rest = gather only ts [] path b in
    if is_asked only t then err (database index_error) else rest
gather only (t ∷ ts) (n ∷ ns) [] b =
    let rest = gather only ts ns [] b in
    if is_asked only t then err (database index_error) else rest
gather only (t ∷ ts) (n ∷ ns) (x ∷ xs) b = gather only ts ns xs (
    if is_asked only t
    then record b { nodes = Dict.put b.nodes t n; ids = Dict.put b.ids t x }
    else b)

abbrev pub or_invalid : {A : Type 0} → String → Outcome Error A → Outcome Exception A
or_invalid sid (ok a) = ok a
or_invalid sid (err key_error) = err (invalid_branch_id sid)
or_invalid sid (err e) = err (database e)

unfoldable pub branch_info : Manager → String → List String → Db → Outcome Exception BranchInfo
unfolding decrypt_branch_id nodes_from gather
branch_info m sid only db = do
  path ← lift (decrypt_branch_id m.crypt sid)
  nodes ← or_invalid sid (nodes_from [] path db)
  gather only m.node_type nodes path (record { branch_id = sid; nodes = []; ids = [] })

-- The nodes under the keys that are stored.
unfoldable pub present : Db → List String → List Node
present db [] = []
present db (k ∷ ks) = elim (Dict.get db k) [ none ↦ present db ks | some n ↦ n ∷ present db ks ]

abbrev pub subordinates_of : Node → Outcome Exception (List String)
subordinates_of (leaf g) = err (database attribute_error)
subordinates_of (info n) = ok n.subordinate

unfoldable pub get_subordinates : List String → Db → Outcome Exception (List Node)
unfolding get present
get_subordinates path db = do
  node ← lift (get path db)
  keys ← subordinates_of node
  ok (present db keys)

-- The loop of `_grants`. For a node that is no grant, `unpack_branch_key` is called on the node itself,
-- which has no method `split`.
unfoldable pub only_grants : List Node → Outcome Exception (List Grant)
only_grants [] = ok []
only_grants (leaf g ∷ ns) = do rest ← only_grants ns; ok (g ∷ rest)
only_grants (info n ∷ ns) = err (database attribute_error)

unfoldable pub drop_last : List String → List String
drop_last [] = []
drop_last (x ∷ []) = []
drop_last (x ∷ y ∷ ys) = x ∷ drop_last (y ∷ ys)

abbrev is_nil : List String → Bool
is_nil [] = true
is_nil (x ∷ xs) = false

abbrev grants_below : List String → Db → Outcome Exception (List Grant)
grants_below path db = get_subordinates path db >>= only_grants

-- `grants`; an empty identifier and an empty path are those that were not given.
unfoldable pub grants : Manager → String → List String → Db → Outcome Exception (List Grant)
unfolding decrypt_branch_id get_subordinates only_grants drop_last
grants m sid path db =
    if is_nonempty sid
    then (lift (decrypt_branch_id m.crypt sid) >>= λ p.
        grants_below (if eqb (length p) (length m.node_type) then drop_last p else p) db)
    else if is_nil path
    then err (database attribute_error)
    else grants_below path db

abbrev grant_or_attribute_error : Node → Outcome Exception Grant
grant_or_attribute_error (leaf g) = ok g
grant_or_attribute_error (info n) = err (database attribute_error)

unfoldable pub nodes_under : List String → Db → Outcome Exception (List Node)
unfolding get unpack_branch_key
nodes_under [] db = ok []
nodes_under (k ∷ ks) db = do
  node ← lift (get (unpack_branch_key k) db)
  rest ← nodes_under ks db
  ok (node ∷ rest)

-- The events of grants, by what the model keeps of an event.
unfoldable pub events_of : List Node → Outcome Exception (List (Option Value))
events_of [] = ok []
events_of (n ∷ ns) = do
  g ← grant_or_attribute_error n
  rest ← events_of ns
  ok (g.authn_info ∷ rest)

abbrev client_node : Manager → String → String → String → Db → Outcome Exception Node
client_node m sid user_id client_id db =
    if is_nonempty sid
    then (get_node_info m sid "client" db >>= λ p. ok p.1)
    else if is_nonempty user_id && is_nonempty client_id
    then lift (get (user_id ∷ client_id ∷ []) db)
    else err (database attribute_error)

unfoldable pub get_authentication_events :
    Manager → String → String → String → Db → Outcome Exception (List (Option Value))
unfolding get_node_info get nodes_under events_of
get_authentication_events m sid user_id client_id db = do
  node ← client_node m sid user_id client_id db
  keys ← subordinates_of node
  nodes ← nodes_under keys db
  events_of nodes

abbrev node_of_branch : BranchInfo → Outcome Exception Grant
node_of_branch b = elim (Dict.get b.nodes "grant") [
  | none ↦ err (database key_error)
  | some n ↦ grant_or_attribute_error n
]

-- `get_authorization_request`, over `get_session_info`
unfoldable pub get_authorization_request :
    Manager → String → Db → Outcome Exception (Option AuthorizationRequest)
unfolding branch_info
get_authorization_request m sid db = do
  b ← branch_info m sid [] db
  g ← node_of_branch b
  ok g.authorization_request

-- `get_authentication_event`, over `get_session_info`
unfoldable pub get_authentication_event : Manager → String → Db → Outcome Exception (Option Value)
unfolding branch_info
get_authentication_event m sid db = do
  b ← branch_info m sid [] db
  g ← node_of_branch b
  ok g.authn_info

-- `_compatible_sid`: an identifier of three names is encrypted first.
unfoldable pub compatible_sid : Manager → String → String → String
unfolding unpack_branch_key encrypted_branch_id
compatible_sid m rnd sid =
    if eqb (length (unpack_branch_key sid)) 3
    then encrypted_branch_id m.crypt rnd (unpack_branch_key sid)
    else sid

abbrev pub nonempty_sid : Option String → Outcome Exception String
nonempty_sid none = err wrong_token_class
nonempty_sid (some sid) = if is_nonempty sid then ok sid else err wrong_token_class

-- `get_session_info_by_token`: `token_info` is the `info` of the token handler, or of the handler that
-- is named.
unfoldable pub get_session_info_by_token :
    Manager
    → (String → Outcome Exception (Option String))
    → String
    → String
    → Db
    → Outcome Exception BranchInfo
unfolding compatible_sid branch_info
get_session_info_by_token m token_info rnd token db = do
  found ← token_info token
  sid ← nonempty_sid found
  branch_info m (compatible_sid m rnd sid) [] db
