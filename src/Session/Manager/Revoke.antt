-- ===== src/Session/Manager/Revoke.antt =====
-- Revocation in grant_manager.py and manager.py: of a token, of a grant, and of a node with all that is
-- below it. A node that is revoked is the object in the database, so it is changed under its key.
pub mod Tree
pub mod Sessions
use idpy_oidc.Base.{
  ℕ, zero, suc, ◌+◌, Bool, true, false, Option, none, some, [], ◌∷◌, String, Outcome, ok, err,
  ◌>>=◌, ltb, length, if◌then◌else◌,
}
use idpy_oidc.Dict
use idpy_oidc.Session.Token.{revoke, revoke_token_item}
use idpy_oidc.Session.Grant.{Grant, write}
use idpy_oidc.Session.Grant.Revoke as Tokens
use idpy_oidc.Session.BranchId.{decrypt_branch_id}
use idpy_oidc.Session.Database.{
  Node, info, leaf, Db, Error, value_error, attribute_error, recursion_error, revoke_info,
  or_key_error, get, each, below, delete,
}
use idpy_oidc.Session.Database.Key.{branch_key}
use idpy_oidc.Session.Manager.{State, Manager, Exception, database, lift, unknown_token}
use idpy_oidc.Session.Manager.Lookup.{take, find_token, get_grant, level_of}

-- `node.revoke()`
unfoldable pub revoke_node : Node → Node
unfolding revoke revoke_info
revoke_node (info n) = info (revoke_info n)
revoke_node (leaf g) = leaf (record g { item = revoke g.item })

-- `_revoke_tree`, of the node under a key; the number bounds the depth of the calls.
unfoldable pub revoke_tree : ℕ → String → Db → Outcome Error Db
unfolding revoke_node each
revoke_tree zero key db = err recursion_error
revoke_tree (suc depth) key db = do
  node ← or_key_error (Dict.get db key)
  below (revoke_tree depth) node (Dict.put db key (revoke_node node))

-- `revoke_sub_tree`; `none` is a level that was not given.
unfoldable pub revoke_sub_tree : ℕ → Manager → String → Option ℕ → Db → Outcome Exception Db
unfolding decrypt_branch_id take branch_key revoke_tree
revoke_sub_tree depth m sid none db = do
  path ← lift (decrypt_branch_id m.crypt sid)
  lift (revoke_tree depth (branch_key path) db)
revoke_sub_tree depth m sid (some level) db = do
  path ← lift (decrypt_branch_id m.crypt sid)
  (if ltb (length path) level
      then err (database value_error)
      else lift (revoke_tree depth (branch_key (take (level + 1) path)) db))

-- `revoke_client_session`
unfoldable pub revoke_client_session : ℕ → Manager → String → Db → Outcome Exception Db
unfolding revoke_sub_tree
revoke_client_session depth m sid db = revoke_sub_tree depth m sid (some 1) db

-- `revoke_grant`. The grant is an object of the database, at the level of grants.
unfoldable pub revoke_grant : ℕ → Manager → String → Db → Outcome Exception Db
unfolding get_grant decrypt_branch_id level_of take branch_key revoke_tree
revoke_grant depth m sid db = do
  g ← get_grant m sid db
  path ← lift (decrypt_branch_id m.crypt sid)
  level ← level_of m "grant"
  lift (revoke_tree depth (branch_key (take (level + 1) path)) db)

-- `grant.revoke_token(value=...)`, which the grant under a key has done to it.
abbrev revoke_below : ℕ → String → Grant → String → State → Outcome Exception State
revoke_below depth key g value s =
    elim (Tokens.revoke_token depth
      (record { remove_inactive_token = g.remove_inactive_token; remembers = g.remembers }) value ""
      true (record { heap = s.heap; issued = g.issued_token; remembered = [] })) [
        | none ↦ err (database recursion_error)
        | some t ↦ ok (record {
          db = Dict.put s.db key (leaf (record g { issued_token = t.issued }));
          heap = t.heap;
        })
      ]

-- An inner node has no method `revoke_token`.
abbrev revoke_in : ℕ → String → Node → String → State → Outcome Exception State
revoke_in depth key (info n) value s = err (database attribute_error)
revoke_in depth key (leaf g) value s = revoke_below depth key g value s

-- The end of `revoke_token`, with the token that was found, now revoked.
unfoldable pub and_below : ℕ → Manager → String → Bool → ℕ → State → Outcome Exception State
unfolding decrypt_branch_id get branch_key Tokens.revoke_token
and_below depth m sid false t s = ok s
and_below depth m sid true t s = do
  path ← lift (decrypt_branch_id m.crypt sid)
  node ← lift (get path s.db)
  revoke_in depth (branch_key path) node (s.heap.at t).value s

abbrev pub token_or_error : Option ℕ → Outcome Exception ℕ
token_or_error none = err unknown_token
token_or_error (some t) = ok t

-- `SessionManager.revoke_token`
unfoldable pub revoke_token : ℕ → Manager → String → String → Bool → State → Outcome Exception State
unfolding find_token and_below
revoke_token depth m sid value recursive s = do
  found ← find_token m sid value s
  t ← token_or_error found
  and_below depth m sid recursive t
      (record s { heap = write s.heap t (revoke_token_item (s.heap.at t)) })

-- `remove_branch`, which `remove_session` is
unfoldable pub remove_branch : ℕ → Manager → String → Db → Outcome Exception Db
unfolding decrypt_branch_id delete
remove_branch depth m sid db = do
  path ← lift (decrypt_branch_id m.crypt sid)
  lift (delete depth path db)
