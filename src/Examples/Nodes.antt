-- ===== src/Examples/Nodes.antt =====
-- Runs of the session database: a user, a client and a grant.
use idpy_oidc.Base.{◌≡◌, refl, false, some, List, [], ◌∷◌, String, ok}
use idpy_oidc.Dict
use idpy_oidc.Session.Database.{
  Node, info, leaf, Db, Config, set_from, set, link, add_subordinate, get, delete, del_item, climb,
  visit, unlinked, keys_up, remove_subordinate,
}
use idpy_oidc.Session.Database.Key.{branch_key}
use idpy_oidc.Session.Database.Store.{get-set}
use idpy_oidc.Session.Database.Link.{IsLinked, set-IsLinked}
use idpy_oidc.Session.Database.Returns.{MakesInner, IsClear, set_returns}
use idpy_oidc.Examples.Data.{grant}

abbrev pub node : String → List String → String → Node
node id subordinate type =
    info (record { id = id; subordinate = subordinate; revoked = false; type = type })

abbrev config : Config
config = record { new_node = λ i x. some (node x [] "client") }

abbrev path : List String
path = "diana" ∷ "client" ∷ "grant" ∷ []

-- Two users, of which the second has no session.
abbrev users : Db
users = ("diana", node "diana" [] "user") ∷ ("other", node "other" [] "user") ∷ []

abbrev pub db : Db
db =
    ("diana", node "diana" ("diana;;client" ∷ []) "user")
    ∷ ("other", node "other" [] "user")
    ∷ ("diana;;client", node "client" ("diana;;client;;grant" ∷ []) "client")
    ∷ ("diana;;client;;grant", leaf grant)
    ∷ []

stored : set config path (leaf grant) users ≡ ok db
unfolding set set_from link add_subordinate branch_key Dict.get Dict.put
stored = refl

inner : MakesInner config 3
inner i x h = (record { id = x; subordinate = []; revoked = false; type = "client" }, refl)

clear : IsClear users [] path
unfolding branch_key Dict.get
clear = (tt, (tt, tt))

set_returns_example : (db' : Db) × (set config path (leaf grant) users ≡ ok db')
set_returns_example = set_returns config path (leaf grant) users inner clear

set-IsLinked_example : IsLinked db [] path
set-IsLinked_example = set-IsLinked config path (leaf grant) users stored

get-set_example : get path db ≡ ok (leaf grant)
get-set_example = get-set config "diana" ("client" ∷ "grant" ∷ []) (leaf grant) users stored

abbrev other_only : Db
other_only = ("other", node "other" [] "user") ∷ []

deleted : delete 3 path db ≡ ok other_only
unfolding delete climb visit unlinked keys_up branch_key del_item remove_subordinate
    Dict.contains_key Dict.get Dict.put Dict.delete
deleted = refl

abbrev rootless : Db
rootless =
    ("other", node "other" [] "user")
    ∷ ("diana;;client", node "client" ("diana;;client;;grant" ∷ []) "client")
    ∷ ("diana;;client;;grant", leaf grant)
    ∷ []
