-- ===== src/Session/Database/Remove.antt =====
-- `Database.delete` and `delete_sub_tree`: what is gone afterwards, and what stays.
use mathlib.Core.List.{append_assoc}
use idpy_oidc.Base.{
  ℕ, zero, suc, ◌≡◌, ◌≢◌, refl, sym, ap, ◌∙◌, inl, inr, true, Option, none, some, List, [], ◌∷◌,
  ◌++◌, String, eq_iff, arith, contains, Outcome, ok, err, ◌>>=◌, >>=-eq_ok, ok_inj, Bool-cases,
}
use idpy_oidc.Dict
use idpy_oidc.Dict.{get-put, get-delete}
use idpy_oidc.Dict.Keys.{get-delete_self, get-delete_ne}
use idpy_oidc.Session.Database.{
  Db, Node, NodeInfo, info, leaf, Error, key_error, get, del_item, each, below, or_key_error,
  delete_sub_tree, keys_up, climb, visit, unlinked, delete, remove_subordinate,
}
use idpy_oidc.Session.Database.Key.{branch_key}

module _ (j : String) where
  abbrev Gone : Db → Type 0
  Gone db = Dict.get db j ≡ none

  -- A method that puts no new key in.
  abbrev Keeps : (Db → Outcome Error Db) → Type 0
  Keeps f = (db db' : Db) → f db ≡ ok db' → Gone db → Gone db'

  delete-Gone : (k : String) (db : Db) → Gone db → Gone (Dict.delete db k)
  delete-Gone k db g = rw (get-delete db k j) (ground arith)

  del_item-Keeps : (k : String) → Keeps (del_item k)
  unfolding del_item
  del_item-Keeps k db db' h g = elim (Bool-cases (Dict.contains_key db k)) [
    | inl e ↦ rw (sym (ok_inj (rw e at h))) (delete-Gone k db g)
    | inr e ↦ absurd (ground arith)
  ]

  each-Keeps :
      (f : String → Db → Outcome Error Db)
      → ((k : String) → Keeps (f k))
      → (ks : List String) → Keeps (each f ks)
  unfolding each
  each-Keeps f kf [] db db' h g = rw (sym (ok_inj h)) g
  each-Keeps f kf (k ∷ ks) db db' h g =
      let (d, e, h') = >>=-eq_ok (f k db) (each f ks) h in
      each-Keeps f kf ks d db' h' (kf k db d e g)

  below-Keeps :
      (f : String → Db → Outcome Error Db)
      → ((k : String) → Keeps (f k))
      → (n : Node) → Keeps (below f n)
  below-Keeps f kf (leaf x) db db' h g = rw (sym (ok_inj h)) g
  below-Keeps f kf (info n) db db' h g = each-Keeps f kf n.subordinate db db' h g

  delete_sub_tree-Keeps : (depth : ℕ) (k : String) → Keeps (delete_sub_tree depth k)
  unfolding delete_sub_tree
  delete_sub_tree-Keeps zero k db db' h g = absurd (ground arith)
  delete_sub_tree-Keeps (suc depth) k db db' h g =
      let (n, e, h') = >>=-eq_ok (or_key_error (Dict.get db k)) _ h in
      let (d, e', h'') = >>=-eq_ok (below (delete_sub_tree depth) n db) _ h' in
      del_item-Keeps k d db' h''
        (below-Keeps (delete_sub_tree depth) (delete_sub_tree-Keeps depth) n db d e' g)

  put-Gone :
      (k : String) (n m : Node) (db : Db)
      → Dict.get db k ≡ some m
      → Gone db
      → Gone (Dict.put db k n)
  put-Gone k n m db e g = rw (get-put db k j n) (ground (arith, eq_iff k j))

  unlinked-Keeps :
      (next : Db → Outcome Error Db) (k : String) (n m : NodeInfo) (db db' : Db)
      → Keeps next
      → Dict.get db k ≡ some (info m)
      → unlinked next k n db ≡ ok db'
      → Gone db
      → Gone db'
  unfolding unlinked
  unlinked-Keeps next k n m db db' kn e h g = go n.subordinate h
    where
      go :
          (l : List String)
          → (elim l [
            | [] ↦ del_item k (Dict.put db k (info n)) >>= next
            | s ∷ ss ↦ ok (Dict.put db k (info n))
          ])
            ≡ ok db'
          → Gone db'
      go [] h' =
          let (d, p, q) = >>=-eq_ok (del_item k (Dict.put db k (info n))) next h' in
          kn d db' q
            (del_item-Keeps k (Dict.put db k (info n)) d p (put-Gone k (info n) (info m) db e g))
      go (x ∷ xs) h' = rw (sym (ok_inj h')) (put-Gone k (info n) (info m) db e g)

  visit-Keeps :
      (depth : ℕ) (next : Db → Outcome Error Db) (k : String) (o : Option Node)
      (sub : Option String) (db db' : Db)
      → Keeps next
      → Dict.get db k ≡ o
      → visit depth next k o sub db ≡ ok db'
      → Gone db
      → Gone db'
  unfolding visit
  visit-Keeps depth next k none sub db db' kn e h g = kn db db' h g
  visit-Keeps depth next k (some (leaf x)) (some s) db db' kn e h g = absurd (ground arith)
  visit-Keeps depth next k (some (info n)) (some s) db db' kn e h g =
      elim (Bool-cases (contains s n.subordinate)) [
        | inl c ↦ unlinked-Keeps next k (remove_subordinate n s) n db db' kn e (rw c at h) g
        | inr c ↦ kn db db' (rw c at h) g
      ]
  visit-Keeps depth next k (some node) none db db' kn e h g =
      let (d, p, h') = >>=-eq_ok (below (delete_sub_tree depth) node db) _ h in
      let (d', q, h'') = >>=-eq_ok (del_item k d) next h' in
      kn d' db' h'' (
        del_item-Keeps k d d' q
          (below-Keeps (delete_sub_tree depth) (delete_sub_tree-Keeps depth) node db d p g))

  climb-Keeps : (depth : ℕ) (ks : List String) (sub : Option String) → Keeps (climb depth ks sub)
  unfolding climb
  climb-Keeps depth [] sub db db' h g = rw (sym (ok_inj h)) g
  climb-Keeps depth (k ∷ ks) sub db db' h g =
      visit-Keeps depth (climb depth ks (some k)) k (Dict.get db k) sub db db'
        (climb-Keeps depth ks (some k)) refl h g

keys_up-head :
    (above : List String) (x : String) (xs acc : List String)
    → (rest : List String) × (keys_up above (x ∷ xs) acc ≡ branch_key (above ++ x ∷ xs) ∷ rest)
unfolding keys_up
keys_up-head above x [] acc = (acc, refl)
keys_up-head above x (y ∷ ys) acc =
    let (rest, e) = keys_up-head (above ++ x ∷ []) y ys (branch_key (above ++ x ∷ []) ∷ acc) in
    (rest, e ∙ ap (λ zs. branch_key zs ∷ rest) (append_assoc above (x ∷ []) (y ∷ ys)))

-- The first round, at the leaf, leaves no node there.
visit-leaf :
    (depth : ℕ) (next : Db → Outcome Error Db) (k : String) (o : Option Node) (db db' : Db)
    → Keeps k next
    → Dict.get db k ≡ o
    → visit depth next k o none db ≡ ok db'
    → Dict.get db' k ≡ none
unfolding visit del_item
visit-leaf depth next k none db db' kn e h = kn db db' h e
visit-leaf depth next k (some node) db db' kn e h =
    let (d, p, h') = >>=-eq_ok (below (delete_sub_tree depth) node db) _ h in
    let (d', q, h'') = >>=-eq_ok (del_item k d) next h' in
    kn d' db' h'' (elim (Bool-cases (Dict.contains_key d k)) [
      | inl c ↦ rw (sym (ok_inj (rw c at q))) (get-delete_self d k)
      | inr c ↦ absurd (ground arith)
    ])

climb-leaf :
    (depth : ℕ) (ks : List String) (k : String) (rest : List String) (db db' : Db)
    → ks ≡ k ∷ rest
    → climb depth ks none db ≡ ok db'
    → Dict.get db' k ≡ none
climb-leaf depth ks k rest db db' e h =
    let h' : climb depth (k ∷ rest) none db ≡ ok db' = rw e at h in
    visit-leaf depth (climb depth rest (some k)) k (Dict.get db k) db db'
      (climb-Keeps k depth rest (some k)) refl (unfold climb in h')

-- When `delete` returns, and the root of the path was there, the node at the end of the path is gone.
pub get-delete_path :
    (depth : ℕ) (x : String) (xs : List String) (db : Db) {db' : Db}
    → Dict.contains_key db x ≡ true
    → delete depth (x ∷ xs) db ≡ ok db'
    → get (x ∷ xs) db' ≡ err key_error
unfolding delete del_item get branch_key
get-delete_path depth x [] db {db'} here h = rw (sym (ok_inj (rw here at h)), get-delete_self db x)
get-delete_path depth x (y ∷ ys) db {db'} here h =
    let (rest, e) = keys_up-head [] x (y ∷ ys) [] in
    rw (climb-leaf depth _ _ rest db db' e (rw here at h))

-- A path of one name: `delete`, where it returns, changes no entry but that of the root; the
-- nodes that the root lists stay in the database.
pub delete_root_only :
    (depth : ℕ) (x j : String) (db : Db) {db' : Db}
    → delete depth (x ∷ []) db ≡ ok db'
    → x ≢ j
    → Dict.get db' j ≡ Dict.get db j
unfolding delete del_item
delete_root_only depth x j db {db'} h ne = elim (Bool-cases (Dict.contains_key db x)) [
  | inl e ↦ rw (sym (ok_inj (rw e at h))) (get-delete_ne db x j ne)
  | inr e ↦ rw (sym (ok_inj (rw e at h)))
]
