-- ===== src/Session/Manager/Grants.antt =====
-- `grants`, at a user's node.
use idpy_oidc.Base.{
  ◌≡◌, refl, sym, ap, ◌∙◌, inl, inr, some, Option-cases, List, [], ◌∷◌, String, In, err,
}
use idpy_oidc.Dict
use idpy_oidc.Session.Database.{Node, NodeInfo, info, leaf, Db, attribute_error}
use idpy_oidc.Session.Database.Key.{branch_key}
use idpy_oidc.Session.Manager.{Manager, database}
use idpy_oidc.Session.Manager.Lookup.{grants, only_grants, present, get_subordinates}

In-present :
    (db : Db) (ks : List String) (k : String) (n : Node)
    → In k ks
    → Dict.get db k ≡ some n
    → In n (present db ks)
unfolding present
In-present db [] k n m e = absurd m
In-present db (j ∷ ks) k n (inl q) e = rw (present, ap (Dict.get db) (sym q) ∙ e) (inl refl)
In-present db (j ∷ ks) k n (inr m) e = elim (Option-cases (Dict.get db j)) [
  | inl q ↦ rw (present, q) (In-present db ks k n m e)
  | inr (o, q) ↦ rw (present, q) (inr (In-present db ks k n m e))
]

only_grants-info :
    (ns : List Node) (n : NodeInfo)
    → In (info n) ns
    → only_grants ns ≡ err (database attribute_error)
unfolding only_grants
only_grants-info [] n m = absurd m
only_grants-info (leaf g ∷ ns) n (inl e) = cc
only_grants-info (leaf g ∷ ns) n (inr m) = rw (only_grants-info ns n m) refl
only_grants-info (info c ∷ ns) n m = refl

-- `grants` raises an `AttributeError` at every node that has an inner node below it, as each user with
-- a client has, where its documentation promises the grants of the branch.
pub grants_of_user_raises :
    (m : Manager) (x : String) (xs : List String) (n c : NodeInfo) (k : String) (db : Db)
    → Dict.get db (branch_key (x ∷ xs)) ≡ some (info n)
    → In k n.subordinate
    → Dict.get db k ≡ some (info c)
    → grants m "" (x ∷ xs) db ≡ err (database attribute_error)
unfolding grants get_subordinates
grants_of_user_raises m x xs n c k db e i q =
    rw
      (
        e,
        only_grants-info (present db n.subordinate) c (In-present db n.subordinate k (info c) i q),
      )
      refl
