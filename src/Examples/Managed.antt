-- ===== src/Examples/Managed.antt =====
-- Runs of the session manager, with an encrypter that leaves a text as it is.
use idpy_oidc.Base.{ℕ, arith, ◌≡◌, refl, inl, none, some, List, [], ◌∷◌, String, ok, err, false}
use idpy_oidc.Dict
use idpy_oidc.Session.Token.{revoke, is_active}
use idpy_oidc.Session.Grant.{Grant}
use idpy_oidc.Session.BranchId.{encrypted_branch_id, decrypt_branch_id}
use idpy_oidc.Session.BranchId.Identifier.{Decrypts, decrypt_branch_id-encrypted_branch_id}
use idpy_oidc.Session.Database.{Db, leaf, attribute_error}
use idpy_oidc.Session.Database.Key.{branch_key}
use idpy_oidc.Session.Manager.{
  Manager, database, user_session_info, client_session_info, grant_class, info_class, SessionArgs,
  SessionRequest, init_grant, grant_args, create_session,
}
use idpy_oidc.Session.Manager.Lookup.{get_grant, grants, take}
use idpy_oidc.Session.Manager.Create.{IsStandard}
use idpy_oidc.Session.Manager.Grants.{grants_of_user_raises}
use idpy_oidc.Session.Manager.Revoke.{revoke_client_session, revoke_sub_tree}
use idpy_oidc.Session.Manager.Revoke.Tree.{IsBelow, IsTree, Revokes}
use idpy_oidc.Session.Manager.Revoke.Sessions.{
  listing, revoke_client_session_ends, revoke_sub_tree-Revokes,
}
use idpy_oidc.Session.Manager.Sessions.{
  Sessions, Call, creating, revoking, put_session, perform_all,
}
use idpy_oidc.Session.Manager.Sessions.Stored.{ArePlain}
use idpy_oidc.Session.Manager.Sessions.Calls.{IsMadeFor, get_grant-create_session}
use idpy_oidc.Session.Manager.Sessions.Refine.{Represents-empty, Gives, perform_all-Refines}
use idpy_oidc.Examples.Data.{authorization}
use idpy_oidc.Examples.Nodes.{db}

abbrev pub manager : Manager
manager = record {
  crypt = record { encrypt = λ s. s; decrypt = λ s. some s };
  node_type = "user" ∷ "client" ∷ "grant" ∷ [];
  node_info_class =
      ("user", user_session_info) ∷ ("client", client_session_info) ∷ ("grant", grant_class) ∷ [];
  remembers = false;
  remove_inactive_token = false;
  sub_func = ("public", λ user_id sector. user_id) ∷ [];
}

standard : IsStandard manager
unfolding info_class Dict.get
standard = (refl, refl, refl)

decrypts : Decrypts manager.crypt
decrypts s = refl

abbrev args : SessionArgs
args = record {
  authn_info = none;
  user_id = "diana";
  client_id = "client";
  sub_type = "public";
  token_usage_rules = none;
  scopes = none;
}

abbrev request : SessionRequest
request = record {
  kept = authorization;
  sector_identifier_uri = "";
  claims = [];
  scope = some ("openid" ∷ []);
  resource = none;
  audience = none;
}

-- Neither has two semicolons side by side.
plain : ArePlain "diana" "client" "grant"
plain = (
  (refl, (refl, (refl, (refl, refl)))),
  (refl, (refl, (refl, (refl, (refl, refl))))),
  (refl, (refl, (refl, (refl, refl)))),
)

abbrev sid : String
sid = encrypted_branch_id manager.crypt "random" ("diana" ∷ "client" ∷ "grant" ∷ [])

decrypt_branch_id-encrypted_branch_id_example :
    decrypt_branch_id manager.crypt sid ≡ ok ("diana" ∷ "client" ∷ "grant" ∷ [])
decrypt_branch_id-encrypted_branch_id_example =
    decrypt_branch_id-encrypted_branch_id manager.crypt "random" "diana" ("client" ∷ "grant" ∷ [])
      decrypts plain.0 (plain.1, (plain.2, tt)) (unfold branch_key in refl)

sid_path : decrypt_branch_id manager.crypt sid ≡ ok ("diana" ∷ "client" ∷ "grant" ∷ [])
sid_path =
    decrypt_branch_id-encrypted_branch_id manager.crypt "random" "diana" ("client" ∷ "grant" ∷ [])
      decrypts plain.0 (plain.1, (plain.2, tt)) (unfold branch_key in refl)

-- The subject is the user.
abbrev new_grant : Grant
new_grant = init_grant manager 100 "grant" (grant_args args request "diana")

get_grant-create_session_example :
    (sid : String) × (db' : Db) × (v : Grant) × (create_session manager 100 "grant" "random" args
        request []
      ≡ ok (sid, db'))
    × (get_grant manager sid db' ≡ ok v)
    × IsMadeFor args request "diana" v
get_grant-create_session_example =
    get_grant-create_session manager 100 "grant" "random" args request []
      (λ user_id sector. user_id) standard decrypts plain (unfold branch_key in refl)
      (unfold Dict.get in refl) (unfold Dict.get in tt) (unfold Dict.get in tt)

abbrev calls : List Call
calls = creating 100 "grant" "random" args request ∷ revoking "more" "diana" "client" "grant" ∷ []

abbrev no_session : Sessions
no_session u c g = none

abbrev after_calls : Sessions
after_calls =
    put_session (put_session no_session "diana" "client" "grant" new_grant) "diana" "client" "grant"
      (record new_grant { item = revoke new_grant.item })

perform_all-Refines_example : Gives (perform_all 1 manager calls []) after_calls
perform_all-Refines_example =
    perform_all-Refines 0 manager calls [] no_session after_calls standard decrypts Represents-empty
      (plain, ((plain, unfold branch_key in refl), tt)) (unfold Dict.get in refl)

tree : IsTree (listing db) 2 (branch_key ("diana" ∷ "client" ∷ []))
unfolding branch_key Dict.get
tree = ("diana;;client;;grant" ∷ [], refl, (([], refl, tt), tt))

revoke_sub_tree-Revokes_example :
    (db' : Db) × (revoke_sub_tree 2 manager sid (some 1) db ≡ ok db')
    × Revokes db db'
        (λ j. IsBelow (listing db) j (branch_key (take 2 ("diana" ∷ "client" ∷ "grant" ∷ []))))
revoke_sub_tree-Revokes_example =
    revoke_sub_tree-Revokes 2 manager sid ("diana" ∷ "client" ∷ "grant" ∷ []) 1 db sid_path
      (omega arith) (unfold take in tree)

revoke_client_session_ends_example :
    (db' : Db) × (revoke_client_session 2 manager sid db ≡ ok db')
    × ((j : String) (g : Grant)
        → IsBelow (listing db) j (branch_key ("diana" ∷ "client" ∷ []))
        → Dict.get db j ≡ some (leaf g)
        → (g' : Grant) × (Dict.get db' j ≡ some (leaf g'))
          × ((now : ℕ) → is_active now g'.item ≡ false))
    × ((j : String)
        → ¬ IsBelow (listing db) j (branch_key ("diana" ∷ "client" ∷ []))
        → Dict.get db' j ≡ Dict.get db j)
revoke_client_session_ends_example =
    revoke_client_session_ends 2 manager sid "diana" "client" ("grant" ∷ []) db sid_path tree

grants_of_user_raises_example : grants manager "" ("diana" ∷ []) db ≡ err (database attribute_error)
grants_of_user_raises_example =
    grants_of_user_raises manager "diana" []
      (record { id = "diana"; subordinate = "diana;;client" ∷ []; revoked = false; type = "user" })
      (record {
        id = "client";
        subordinate = "diana;;client;;grant" ∷ [];
        revoked = false;
        type = "client";
      })
      "diana;;client" db (unfold branch_key Dict.get in refl) (inl refl) (unfold Dict.get in refl)
