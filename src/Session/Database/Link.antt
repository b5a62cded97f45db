-- ===== src/Session/Database/Link.antt =====
-- `Database.set` and the lists of subordinates along a branch.
use Prim.Native.String.{count}
use idpy_oidc.Base.{
  ℕ, ◌+◌, ◌<◌, ◌≡◌, ◌≢◌, sym, ◌∙◌, inl, inr, true, Option, none, some, List, [], ◌∷◌, ◌++◌, String,
  arith, In, contains, contains-append, eq_refl, Bool-cases, ok, ok_inj,
}
use idpy_oidc.Dict
use idpy_oidc.Dict.Keys.{get-put_self, get-put_ne}
use idpy_oidc.Session.Database.{
  Db, Node, NodeInfo, info, leaf, Config, add_subordinate, link, link_node, set_from, set,
}
use idpy_oidc.Session.Database.Key.{branch_key}
use idpy_oidc.Session.Database.Key.Length.{count-branch_key}
use idpy_oidc.Session.Database.Store.{branch_keys, set_from-frame, last_round, inner_round}

step_deeper :
    (above : List String) (x y : String)
    → count (branch_key (above ++ x ∷ [])) < count (branch_key ((above ++ x ∷ []) ++ y ∷ []))
step_deeper [] x y = count-branch_key x [] y
step_deeper (z ∷ zs) x y = count-branch_key z (zs ++ x ∷ []) y

-- The keys further down are longer than a node's own.
deeper :
    (above : List String) (x : String) (ys : List String) (j : String)
    → In j (branch_keys (above ++ x ∷ []) ys)
    → count (branch_key (above ++ x ∷ [])) < count j
deeper above x [] j m = absurd m
deeper above x (y ∷ ys) j (inl e) = rw e (step_deeper above x y)
deeper above x (y ∷ ys) j (inr m) =
    omega (arith, step_deeper above x y, deeper (above ++ x ∷ []) y ys j m)

not-In-deeper :
    (above : List String) (x : String) (ys : List String)
    → ¬ In (branch_key (above ++ x ∷ [])) (branch_keys (above ++ x ∷ []) ys)
not-In-deeper above x ys m = absurd (omega (arith, deeper above x ys _ m))

abbrev pub Lists : Db → String → String → Type 0
Lists db up k =
    (n : NodeInfo) × (Dict.get db up ≡ some (info n)) × (contains k n.subordinate ≡ true)

contains-add_subordinate :
    (n : NodeInfo) (k : String) → contains k (add_subordinate n k).subordinate ≡ true
unfolding add_subordinate
contains-add_subordinate n k = elim (Bool-cases (contains k n.subordinate)) [
  | inl e ↦ rw e e
  | inr e ↦ rw (e, contains-append k n.subordinate (k ∷ [])) (ground (arith, eq_refl k))
]

link-Lists : (up k : String) (db d : Db) → link (some up) k db ≡ ok d → Lists d up k
unfolding link
link-Lists up k db d e = go (Dict.get db up) e
  where
    go : (o : Option Node) → link_node db up k o ≡ ok d → Lists d up k
    go none e' = absurd (ground arith)
    go (some (leaf g)) e' = absurd (ground arith)
    go (some (info n)) e' = (
      add_subordinate n k,
      rw (sym (ok_inj e')) (get-put_self db up (info (add_subordinate n k))),
      contains-add_subordinate n k,
    )

Lists-same :
    (db d : Db) (up k : String) → Dict.get db up ≡ Dict.get d up → Lists d up k → Lists db up k
Lists-same db d up k e (n, g, m) = (n, e ∙ g, m)

set_from-Lists :
    (c : Config) (i : ℕ) (above : List String) (x : String) (xs : List String) (up : String)
    (value : Node) (db db' : Db)
    → set_from c i above (x ∷ xs) (some up) value db ≡ ok db'
    → ¬ In up (branch_keys above (x ∷ xs))
    → Lists db' up (branch_key (above ++ x ∷ []))
set_from-Lists c i above x [] up value db db' h out =
    let (d, e, p) = last_round c i above x (some up) value db db' h in
    Lists-same db' d up _ (rw p (get-put_ne d _ up value (λ q. out (inl (sym q)))))
      (link-Lists up _ db d e)
set_from-Lists c i above x (y ∷ ys) up value db db' h out =
    let (node, d, _, e, h') = inner_round c i above x (some up) value y ys db db' h in
    let k = branch_key (above ++ x ∷ []) in
    let differ : k ≢ up = λ q. out (inl (sym q)) in
    Lists-same db' d up k
      (set_from-frame c (i + 1) (above ++ x ∷ []) (y ∷ ys) (some k) value up (Dict.put d k node) db'
          h' (λ q. differ cc) (λ m. out (inr m))
        ∙ get-put_ne d k up node differ)
      (link-Lists up k db d e)

-- Every node on a branch but the last lists the next one.
abbrev pub IsLinked : Db → List String → List String → Type 0
IsLinked db above [] = Unit
IsLinked db above (x ∷ []) = Unit
IsLinked db above (x ∷ y ∷ ys) =
    Lists db (branch_key (above ++ x ∷ [])) (branch_key ((above ++ x ∷ []) ++ y ∷ []))
    × IsLinked db (above ++ x ∷ []) (y ∷ ys)

set_from-IsLinked :
    (c : Config) (i : ℕ) (above xs : List String) (up : Option String) (value : Node) (db db' : Db)
    → set_from c i above xs up value db ≡ ok db'
    → IsLinked db' above xs
set_from-IsLinked c i above [] up value db db' h = tt
set_from-IsLinked c i above (x ∷ []) up value db db' h = tt
set_from-IsLinked c i above (x ∷ y ∷ ys) up value db db' h =
    let (node, d, _, e, h') = inner_round c i above x up value y ys db db' h in
    let k = branch_key (above ++ x ∷ []) in
    (
      set_from-Lists c (i + 1) (above ++ x ∷ []) y ys k value (Dict.put d k node) db' h'
          (not-In-deeper above x (y ∷ ys)),
      set_from-IsLinked c (i + 1) (above ++ x ∷ []) (y ∷ ys) (some k) value (Dict.put d k node) db'
          h',
    )

-- When `set` returns, every node on the path but the last is an inner node that lists the key of
-- the next one.
pub set-IsLinked :
    (c : Config) (path : List String) (value : Node) (db : Db) {db' : Db}
    → set c path value db ≡ ok db'
    → IsLinked db' [] path
unfolding set
set-IsLinked c path value db {db'} h = set_from-IsLinked c 0 [] path none value db db' h
