-- ===== src/Session/Database/Returns.antt =====
-- When `Database.set` returns.
use idpy_oidc.Base.{
  ℕ, ◌+◌, ◌≤◌, ◌<◌, ◌≡◌, refl, ap, inl, inr, Option, none, some, List, [], ◌∷◌, ◌++◌, String, ◌==◌,
  ok, Bool-cases, length, arith,
}
use idpy_oidc.Dict
use idpy_oidc.Dict.{get-put}
use idpy_oidc.Dict.Keys.{get-put_self}
use idpy_oidc.Session.Database.{
  Db, Node, NodeInfo, info, leaf, Config, add_subordinate, link, link_node, node_or_new, set_from,
  set,
}
use idpy_oidc.Session.Database.Key.{branch_key}

-- No grant.
abbrev pub IsInner : Option Node → Type 0
IsInner none = Unit
IsInner (some (info n)) = Unit
IsInner (some (leaf g)) = ⊥

-- No grant is stored where the branch passes on.
abbrev pub IsClear : Db → List String → List String → Type 0
IsClear db above [] = Unit
IsClear db above (x ∷ []) = Unit
IsClear db above (x ∷ y ∷ ys) =
    IsInner (Dict.get db (branch_key (above ++ x ∷ []))) × IsClear db (above ++ x ∷ []) (y ∷ ys)

abbrev HasUp : Db → Option String → Type 0
HasUp db none = Unit
HasUp db (some u) = (n : NodeInfo) × (Dict.get db u ≡ some (info n))

pub put-IsInner :
    (db : Db) (k j : String) (n : NodeInfo)
    → IsInner (Dict.get db j)
    → IsInner (Dict.get (Dict.put db k (info n)) j)
put-IsInner db k j n i = elim (Bool-cases (k == j)) [
  | inl t ↦ rw (get-put db k j (info n), t) tt
  | inr f ↦ rw (get-put db k j (info n), f) i
]

put-IsClear :
    (db : Db) (k : String) (n : NodeInfo) (above xs : List String)
    → IsClear db above xs
    → IsClear (Dict.put db k (info n)) above xs
put-IsClear db k n above [] c = tt
put-IsClear db k n above (x ∷ []) c = tt
put-IsClear db k n above (x ∷ y ∷ ys) c =
    (put-IsInner db k _ n c.0, put-IsClear db k n (above ++ x ∷ []) (y ∷ ys) c.1)

link-IsClear :
    (db : Db) (up : Option String) (k : String) (above xs : List String)
    → HasUp db up
    → IsClear db above xs
    → (d : Db) × (link up k db ≡ ok d) × IsClear d above xs
unfolding link
link-IsClear db none k above xs h c = (db, refl, c)
link-IsClear db (some u) k above xs (n, e) c = (
  Dict.put db u (info (add_subordinate n k)),
  ap (link_node db u k) e,
  put-IsClear db u (add_subordinate n k) above xs c,
)

-- What a configuration makes for the inner nodes of a path of `n` names.
abbrev pub MakesInner : Config → ℕ → Type 0
MakesInner c n =
    (i : ℕ) (x : String) → i + 1 < n → (node : NodeInfo) × (c.new_node i x ≡ some (info node))

node_lem :
    (c : Config) (i : ℕ) (x : String) (o : Option Node)
    → (node : NodeInfo) × (c.new_node i x ≡ some (info node))
    → IsInner o
    → (n : NodeInfo) × (node_or_new c i x o ≡ ok (info n))
node_lem c i x none (n, e) h = (n, rw (e, node_or_new) refl)
node_lem c i x (some (info n)) m h = (n, refl)
node_lem c i x (some (leaf g)) m h = absurd h

set_from_returns :
    (c : Config) (n i : ℕ) (above xs : List String) (up : Option String) (value : Node) (db : Db)
    → MakesInner c n
    → i + length xs ≤ n
    → HasUp db up
    → IsClear db above xs
    → (db' : Db) × (set_from c i above xs up value db ≡ ok db')
unfolding set_from
set_from_returns c n i above [] up value db m le h cl = (db, refl)
set_from_returns c n i above (x ∷ []) up value db m le h cl =
    let (d, e, _) = link-IsClear db up (branch_key (above ++ x ∷ [])) above [] h tt in
    (Dict.put d (branch_key (above ++ x ∷ [])) value, rw e refl)
set_from_returns c n i above (x ∷ y ∷ ys) up value db m le h cl =
    let k = branch_key (above ++ x ∷ []) in
    let (node, e) = node_lem c i x (Dict.get db k) (m i x (omega (arith, le))) cl.0 in
    let (d, e', clear) = link-IsClear db up k (above ++ x ∷ []) (y ∷ ys) h cl.1 in
    let (db', r) =
      set_from_returns c n (i + 1) (above ++ x ∷ []) (y ∷ ys) (some k) value
        (Dict.put d k (info node)) m (omega (arith, le)) (node, get-put_self d k (info node))
        (put-IsClear d k node (above ++ x ∷ []) (y ∷ ys) clear) in
    (db', rw (e, e') r)

-- Where the configuration makes inner nodes at the levels of the path, and no grant is stored at a
-- node that the path passes, `set` returns.
pub set_returns :
    (c : Config) (path : List String) (value : Node) (db : Db)
    → MakesInner c (length path)
    → IsClear db [] path
    → (db' : Db) × (set c path value db ≡ ok db')
unfolding set
set_returns c path value db m cl =
    set_from_returns c (length path) 0 [] path none value db m (omega arith) tt cl
