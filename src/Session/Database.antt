-- ===== src/Session/Database.antt =====
-- src/idpyoidc/server/session/database.py and info.py: the tree of session nodes. A node is stored
-- under the key of its branch, and an inner node lists the keys of the nodes under it. A node object
-- is only reached through the dictionary here, so it is stored by value.
pub mod Key
pub mod Store
pub mod Link
pub mod Remove
pub mod Returns
use idpy_oidc.Base.{
  ℕ, zero, suc, ◌+◌, Bool, true, Option, none, some, List, [], ◌∷◌, ◌++◌, String, contains, remove,
  Outcome, ok, err, ◌>>=◌, if◌then◌else◌,
}
use idpy_oidc.Dict
use idpy_oidc.Dict.{Dict}
use idpy_oidc.Session.Grant.{Grant}
use Key.{branch_key}

-- `NodeInfo`, and its subclasses by their `type`.
pub record NodeInfo : Type 0 where
  pub id : String
  pub subordinate : List String
  pub revoked : Bool
  pub type : String

pub data Node : Type 0 where
  info : NodeInfo → Node
  leaf : Grant → Node

abbrev pub Db : Type 0
Db = Dict Node

-- The exceptions that the methods raise.
pub data Error : Type 0 where
  key_error value_error attribute_error index_error recursion_error : Error

-- What the configured classes make of an identifier at a level; `none` is a missing class.
pub record Config : Type 0 where
  pub new_node : ℕ → String → Option Node

-- `NodeInfo.add_subordinate`
unfoldable pub add_subordinate : NodeInfo → String → NodeInfo
add_subordinate n k =
    if contains k n.subordinate then n else record n { subordinate = n.subordinate ++ k ∷ [] }

-- `NodeInfo.remove_subordinate`
unfoldable pub remove_subordinate : NodeInfo → String → NodeInfo
remove_subordinate n k = record n { subordinate = remove k n.subordinate }

-- `NodeInfo.revoke`
unfoldable pub revoke_info : NodeInfo → NodeInfo
revoke_info n = record n { revoked = true }

abbrev link_node : Db → String → String → Option Node → Outcome Error Db
link_node db up k none = err key_error
link_node db up k (some (leaf g)) = err attribute_error
link_node db up k (some (info n)) = ok (Dict.put db up (info (add_subordinate n k)))

-- The superior of a round of the loop in `set`, under its key `up`, gets the round's key.
unfoldable pub link : Option String → String → Db → Outcome Error Db
link none k db = ok db
link (some up) k db = link_node db up k (Dict.get db up)

abbrev node_or_new : Config → ℕ → String → Option Node → Outcome Error Node
node_or_new c i x (some n) = ok n
node_or_new c i x none = elim (c.new_node i x) [ none ↦ err value_error | some n ↦ ok n ]

-- The rounds of the loop in `set`, from level `i`, below the names `above`.
unfoldable pub set_from :
    Config → ℕ → List String → List String → Option String → Node → Db → Outcome Error Db
set_from c i above [] up value db = ok db
set_from c i above (x ∷ []) up value db = do
  let key = branch_key (above ++ x ∷ [])
  db' ← link up key db
  ok (Dict.put db' key value)
set_from c i above (x ∷ y ∷ ys) up value db = do
  let key = branch_key (above ++ x ∷ [])
  node ← node_or_new c i x (Dict.get db key)
  db' ← link up key db
  set_from c (i + 1) (above ++ x ∷ []) (y ∷ ys) (some key) value (Dict.put db' key node)

unfoldable pub set : Config → List String → Node → Db → Outcome Error Db
set c path value db = set_from c 0 [] path none value db

abbrev pub or_key_error : {A : Type 0} → Option A → Outcome Error A
or_key_error o = elim o [ none ↦ err key_error | some a ↦ ok a ]

unfoldable pub get : List String → Db → Outcome Error Node
get path db = or_key_error (Dict.get db (branch_key path))

-- `del self.db[key]`
unfoldable pub del_item : String → Db → Outcome Error Db
del_item k db = if Dict.contains_key db k then ok (Dict.delete db k) else err key_error

-- A loop over keys that changes the database.
unfoldable pub each : (String → Db → Outcome Error Db) → List String → Db → Outcome Error Db
each f [] db = ok db
each f (k ∷ ks) db = f k db >>= each f ks

abbrev pub below : (String → Db → Outcome Error Db) → Node → Db → Outcome Error Db
below f (leaf g) db = ok db
below f (info n) db = each f n.subordinate db

-- The number bounds the depth of the calls.
unfoldable pub delete_sub_tree : ℕ → String → Db → Outcome Error Db
delete_sub_tree zero key db = err recursion_error
delete_sub_tree (suc depth) key db = do
  node ← or_key_error (Dict.get db key)
  db' ← below (delete_sub_tree depth) node db
  del_item key db'

-- The keys of a branch, from the leaf up to the root.
unfoldable pub keys_up : List String → List String → List String → List String
keys_up above [] acc = acc
keys_up above (x ∷ xs) acc = keys_up (above ++ x ∷ []) xs (branch_key (above ++ x ∷ []) ∷ acc)

-- The superior `n`, under `k`, no longer lists the node of the round before: it goes too if it lists
-- none now, and the loop goes on, or the method returns.
unfoldable pub unlinked : (Db → Outcome Error Db) → String → NodeInfo → Db → Outcome Error Db
unlinked next k n db = elim n.subordinate [
  | [] ↦ del_item k (Dict.put db k (info n)) >>= next
  | s ∷ ss ↦ ok (Dict.put db k (info n))
]

-- One round of the loop in `delete`, at the node under `k`: `sub` is the key of the round before, and
-- `next` the rounds that follow.
unfoldable pub visit :
    ℕ → (Db → Outcome Error Db) → String → Option Node → Option String → Db → Outcome Error Db
visit depth next k none sub db = next db
visit depth next k (some node) none db = do
  db' ← below (delete_sub_tree depth) node db
  db'' ← del_item k db'
  next db''
visit depth next k (some (leaf g)) (some s) db = err attribute_error
visit depth next k (some (info n)) (some s) db =
    if contains s n.subordinate then unlinked next k (remove_subordinate n s) db else next db

unfoldable pub climb : ℕ → List String → Option String → Db → Outcome Error Db
climb depth [] sub db = ok db
climb depth (k ∷ ks) sub db = visit depth (climb depth ks (some k)) k (Dict.get db k) sub db

unfoldable pub delete : ℕ → List String → Db → Outcome Error Db
delete depth [] db = err index_error
delete depth (x ∷ []) db = if Dict.contains_key db x then del_item x db else ok db
delete depth (x ∷ y ∷ ys) db =
    if Dict.contains_key db x then climb depth (keys_up [] (x ∷ y ∷ ys) []) none db else ok db
