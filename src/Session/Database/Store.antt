-- ===== src/Session/Database/Store.antt =====
-- `Database.set`: what is stored, and what is left alone.
use idpy_oidc.Base.{
  ℕ, ◌+◌, ◌≡◌, ◌≢◌, sym, ◌∙◌, inl, inr, Option, none, some, List, [], ◌∷◌, ◌++◌, String, arith, In,
  ok, ok_inj, >>=-eq_ok,
}
use mathlib.Core.List.{append_assoc}
use idpy_oidc.Dict
use idpy_oidc.Dict.Keys.{get-put_self, get-put_ne}
use idpy_oidc.Session.Database.{
  Db, Node, info, leaf, Config, add_subordinate, link, link_node, node_or_new, set_from, set, get,
}
use idpy_oidc.Session.Database.Key.{branch_key}

-- The keys of the nodes on a branch, below `above`.
abbrev pub branch_keys : List String → List String → List String
branch_keys above [] = []
branch_keys above (x ∷ xs) = branch_key (above ++ x ∷ []) ∷ branch_keys (above ++ x ∷ []) xs

module _ (c : Config) (i : ℕ) (above : List String) (x : String) (up : Option String)
    (value : Node) where
  abbrev pub key : String
  key = branch_key (above ++ x ∷ [])

  -- The last round, taken apart.
  pub last_round :
      (db db' : Db)
      → set_from c i above (x ∷ []) up value db ≡ ok db'
      → (d : Db) × (link up key db ≡ ok d) × (db' ≡ Dict.put d key value)
  unfolding set_from
  last_round db db' h =
      let (d, e, p) = >>=-eq_ok (link up key db) (λ d. ok (Dict.put d key value)) h in (d, e, cc)

  -- A round before the last, taken apart.
  pub inner_round :
      (y : String) (ys : List String) (db db' : Db)
      → set_from c i above (x ∷ y ∷ ys) up value db ≡ ok db'
      → (node : Node) × (d : Db) × (node_or_new c i x (Dict.get db key) ≡ ok node)
        × (link up key db ≡ ok d)
        × (set_from c (i + 1) (above ++ x ∷ []) (y ∷ ys) (some key) value (Dict.put d key node)
            ≡ ok db')
  unfolding set_from
  inner_round y ys db db' h =
      let (node, e, h') = >>=-eq_ok (node_or_new c i x (Dict.get db key)) _ h in
      let (d, e', h'') = >>=-eq_ok (link up key db) _ h' in (node, d, e, e', h'')

-- A superior's node is the only one that `link` changes.
pub link_frame :
    (up : Option String) (k j : String) (db db' : Db)
    → link up k db ≡ ok db'
    → up ≢ some j
    → Dict.get db' j ≡ Dict.get db j
unfolding link
link_frame none k j db db' e ne = cc
link_frame (some u) k j db db' e ne = go (Dict.get db u) e
  where
    go : (o : Option Node) → link_node db u k o ≡ ok db' → Dict.get db' j ≡ Dict.get db j
    go none e' = ground arith
    go (some (leaf g)) e' = ground arith
    go (some (info n)) e' =
        rw (sym (ok_inj e')) (get-put_ne db u j (info (add_subordinate n k)) (λ q. ne (cc)))

set_from-get :
    (c : Config) (i : ℕ) (above : List String) (x : String) (xs : List String) (up : Option String)
    (value : Node) (db db' : Db)
    → set_from c i above (x ∷ xs) up value db ≡ ok db'
    → Dict.get db' (branch_key (above ++ x ∷ xs)) ≡ some value
set_from-get c i above x [] up value db db' h =
    let (d, e, p) = last_round c i above x up value db db' h in
    rw p (get-put_self d (branch_key (above ++ x ∷ [])) value)
set_from-get c i above x (y ∷ ys) up value db db' h =
    let (node, d, e, e', h') = inner_round c i above x up value y ys db db' h in
    rw (sym (append_assoc above (x ∷ []) (y ∷ ys))) (
      set_from-get c (i + 1) (above ++ x ∷ []) y ys (some (branch_key (above ++ x ∷ []))) value
        (Dict.put d (branch_key (above ++ x ∷ [])) node) db' h')

pub set_at_key :
    (c : Config) (x : String) (xs : List String) (value : Node) (db : Db) {db' : Db}
    → set c (x ∷ xs) value db ≡ ok db'
    → Dict.get db' (branch_key (x ∷ xs)) ≡ some value
unfolding set
set_at_key c x xs value db {db'} h = set_from-get c 0 [] x xs none value db db' h

-- What is stored under a path is what `get` then returns.
pub get-set :
    (c : Config) (x : String) (xs : List String) (value : Node) (db : Db) {db' : Db}
    → set c (x ∷ xs) value db ≡ ok db'
    → get (x ∷ xs) db' ≡ ok value
unfolding get
get-set c x xs value db {db'} h = rw (set_at_key c x xs value db h)

pub set_from-frame :
    (c : Config) (i : ℕ) (above xs : List String) (up : Option String) (value : Node) (j : String)
    (db db' : Db)
    → set_from c i above xs up value db ≡ ok db'
    → up ≢ some j
    → ¬ In j (branch_keys above xs)
    → Dict.get db' j ≡ Dict.get db j
set_from-frame c i above [] up value j db db' h ne out = unfold set_from in cc h
set_from-frame c i above (x ∷ []) up value j db db' h ne out =
    let (d, e, p) = last_round c i above x up value db db' h in
    rw (p, get-put_ne d _ j value (λ q. out (inl (sym q)))) (link_frame up _ j db d e ne)
set_from-frame c i above (x ∷ y ∷ ys) up value j db db' h ne out =
    let (node, d, e, e', h') = inner_round c i above x up value y ys db db' h in
    let k = branch_key (above ++ x ∷ []) in
    let differ : k ≢ j = λ q. out (inl (sym q)) in
    set_from-frame c (i + 1) (above ++ x ∷ []) (y ∷ ys) (some k) value j (Dict.put d k node) db' h'
      (λ q. differ (cc)) (λ m. out (inr m))
    ∙ get-put_ne d k j node differ
    ∙ link_frame up k j db d e' ne

-- `set` changes no node off the path.
pub set-frame :
    (c : Config) (path : List String) (value : Node) (j : String) (db : Db) {db' : Db}
    → set c path value db ≡ ok db'
    → ¬ In j (branch_keys [] path)
    → Dict.get db' j ≡ Dict.get db j
unfolding set
set-frame c path value j db {db'} h out =
    set_from-frame c 0 [] path none value j db db' h (λ q. cc) out
