-- ===== src/Session/Manager/Revoke/Sessions.antt =====
-- What a revocation by a session identifier does.
use idpy_oidc.Base.{
  ℕ, ◌+◌, ◌≡◌, refl, ap, ◌∙◌, false, some, List, [], ◌∷◌, String, arith, ok, length, ltb, ◌≤◌,
}
use idpy_oidc.Dict
use idpy_oidc.Session.Token.{is_active, revoke}
use idpy_oidc.Session.Grant.{Grant}
use idpy_oidc.Session.BranchId.{decrypt_branch_id}
use idpy_oidc.Session.Database.{Db, leaf}
use idpy_oidc.Session.Database.Key.{branch_key}
use idpy_oidc.Session.Manager.{Manager}
use idpy_oidc.Session.Manager.Lookup.{take}
use idpy_oidc.Session.Manager.Revoke.{revoke_sub_tree, revoke_client_session}
use idpy_oidc.Session.Manager.Revoke.Tree.{
  Listing, IsBelow, IsTree, Revokes, children, revoked, revoke_tree-Done,
}

-- What the nodes of a database list.
abbrev pub listing : Db → Listing
listing db k = children (Dict.get db k)

-- Where an identifier is read as a path, and all keys below the node at a level of it are stored down
-- to a depth, `revoke_sub_tree` returns within it, revokes that node and those below it, and changes
-- nothing else.
pub revoke_sub_tree-Revokes :
    (depth : ℕ) (m : Manager) (sid : String) (path : List String) (level : ℕ) (db : Db)
    → decrypt_branch_id m.crypt sid ≡ ok path
    → level ≤ length path
    → IsTree (listing db) depth (branch_key (take (level + 1) path))
    → (db' : Db) × (revoke_sub_tree depth m sid (some level) db ≡ ok db')
      × Revokes db db' (λ j. IsBelow (listing db) j (branch_key (take (level + 1) path)))
unfolding revoke_sub_tree
revoke_sub_tree-Revokes depth m sid path level db e h t =
    let (db', r, s) =
      revoke_tree-Done (listing db) depth (branch_key (take (level + 1) path)) db (λ k. refl) t in
    (db', rw (e, in_range, r) refl, s)
  where
    in_range : ltb (length path) level ≡ false
    in_range = ground (arith, h)

-- A grant that `_revoke_tree` reaches is inactive.
revoked_inactive : (now : ℕ) (g : Grant) → is_active now (revoke g.item) ≡ false
unfolding is_active revoke
revoked_inactive now g = ground arith

-- After `revoke_client_session`, of a session of a user and a client all of whose keys are stored, every
-- grant below the client's node is inactive at all times, and the node of any key that is not below
-- it, such as one of another client, is as it was.
pub revoke_client_session_ends :
    (depth : ℕ) (m : Manager) (sid user_id client_id : String) (rest : List String) (db : Db)
    → decrypt_branch_id m.crypt sid ≡ ok (user_id ∷ client_id ∷ rest)
    → IsTree (listing db) depth (branch_key (user_id ∷ client_id ∷ []))
    → (db' : Db) × (revoke_client_session depth m sid db ≡ ok db')
      × ((j : String) (g : Grant)
          → IsBelow (listing db) j (branch_key (user_id ∷ client_id ∷ []))
          → Dict.get db j ≡ some (leaf g)
          → (g' : Grant) × (Dict.get db' j ≡ some (leaf g'))
            × ((now : ℕ) → is_active now g'.item ≡ false))
      × ((j : String)
          → ¬ IsBelow (listing db) j (branch_key (user_id ∷ client_id ∷ []))
          → Dict.get db' j ≡ Dict.get db j)
unfolding revoke_client_session take
revoke_client_session_ends depth m sid user_id client_id rest db e t =
    let (db', r, s) =
      revoke_sub_tree-Revokes depth m sid (user_id ∷ client_id ∷ rest) 1 db e (omega arith) t in
    (
      db',
      r,
      λ j g b q.
          let hit = s.hit j b ∙ ap revoked q in
          (record g { item = revoke g.item }, hit, λ now. revoked_inactive now g),
      s.miss,
    )
