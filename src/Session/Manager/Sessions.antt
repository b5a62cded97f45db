-- ===== src/Session/Manager/Sessions.antt =====
-- Sessions without their tree: a grant for a user, a client and an identifier. Calls of
-- `create_session` and `revoke_grant`, on the database and on that abstract map.
pub mod Stored
pub mod Calls
pub mod Refine
use idpy_oidc.Base.{
  ℕ, ◌≡◌, Bool, ◌&&◌, Option, none, some, List, [], ◌∷◌, String, ◌==◌, Outcome, ok, err, ◌>>=◌,
  if◌then◌else◌,
}
use idpy_oidc.Dict
use idpy_oidc.Session.Token.{revoke}
use idpy_oidc.Session.Grant.{Grant}
use idpy_oidc.Session.BranchId.{encrypted_branch_id}
use idpy_oidc.Session.Database.{Node, info, leaf, Db}
use idpy_oidc.Session.Database.Key.{branch_key}
use idpy_oidc.Session.Manager.{
  Manager, Exception, SessionArgs, SessionRequest, create_session, init_grant, grant_args,
}
use idpy_oidc.Session.Manager.Revoke.{revoke_grant}

-- The grant of a user, a client and an identifier of a grant.
abbrev pub Sessions : Type 0
Sessions = String → String → String → Option Grant

abbrev pub grant_in : Option Node → Option Grant
grant_in none = none
grant_in (some (info n)) = none
grant_in (some (leaf g)) = some g

-- The map that a database stands for.
abbrev pub view : Db → Sessions
view db u c g = grant_in (Dict.get db (branch_key (u ∷ c ∷ g ∷ [])))

abbrev pub is_same : String → String → String → String → String → String → Bool
is_same u c g u' c' g' = u == u' && (c == c' && g == g')

abbrev pub put_session : Sessions → String → String → String → Grant → Sessions
put_session s u c g v u' c' g' = if is_same u c g u' c' g' then some v else s u' c' g'

-- A call, with the values that the clock and the sources of randomness give it.
pub data Call : Type 0 where
  creating : (now : ℕ) (fresh rnd : String) (a : SessionArgs) (r : SessionRequest) → Call
  revoking : (rnd user_id client_id grant_id : String) → Call

-- What a call makes of the map; `none` is a call that raises.
abbrev pub expected : Manager → Call → Sessions → Option Sessions
expected m (creating now fresh rnd a r) s = elim (Dict.get m.sub_func a.sub_type) [
  | none ↦ none
  | some f ↦ some (
      put_session s a.user_id a.client_id fresh
        (init_grant m now fresh (grant_args a r (f a.user_id r.sector_identifier_uri))))
]
expected m (revoking rnd u c g) s = elim (s u c g) [
  | none ↦ none
  | some v ↦ some (put_session s u c g (record v { item = revoke v.item }))
]

abbrev pub expected_all : Manager → List Call → Sessions → Option Sessions
expected_all m [] s = some s
expected_all m (x ∷ xs) s = elim (expected m x s) [ none ↦ none | some s' ↦ expected_all m xs s' ]

abbrev forget_id : Outcome Exception (String × Db) → Outcome Exception Db
forget_id (ok (sid, db)) = ok db
forget_id (err e) = err e

-- A call on the database. A grant is revoked by a session identifier.
unfoldable pub perform : ℕ → Manager → Call → Db → Outcome Exception Db
unfolding create_session revoke_grant encrypted_branch_id
perform depth m (creating now fresh rnd a r) db = forget_id (create_session m now fresh rnd a r db)
perform depth m (revoking rnd u c g) db =
    revoke_grant depth m (encrypted_branch_id m.crypt rnd (u ∷ c ∷ g ∷ [])) db

unfoldable pub perform_all : ℕ → Manager → List Call → Db → Outcome Exception Db
unfolding perform
perform_all depth m [] db = ok db
perform_all depth m (x ∷ xs) db = perform depth m x db >>= perform_all depth m xs
