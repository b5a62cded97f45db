-- ===== src/Session/Manager/Revoke/Tree.antt =====
-- What `_revoke_tree` reaches.
use idpy_oidc.Base.{
  some_inj, ℕ, zero, suc, ◌≡◌, refl, sym, ap, ◌∙◌, inl, inr, ◌⊎◌, ◌↔◌, Bool-cases, ◌==◌, Option,
  none, some, List, [], ◌∷◌, String, arith, eq_iff, In, All, ok, Outcome, Option-cases,
}
use idpy_oidc.Dict
use idpy_oidc.Dict.Keys.{get-put_self, get-put_ne}
use idpy_oidc.Session.Token.{revoke}
use idpy_oidc.Session.Database.{revoke_info, Node, info, leaf, Db, Error, each, below, or_key_error}
use idpy_oidc.Session.Manager.Revoke.{revoke_node, revoke_tree}

-- The keys that a node lists.
abbrev pub listed : Node → List String
listed (info n) = n.subordinate
listed (leaf g) = []

abbrev pub children : Option Node → Option (List String)
children none = none
children (some n) = some (listed n)

abbrev pub revoked : Option Node → Option Node
revoked none = none
revoked (some n) = some (revoke_node n)

children-revoked : (o : Option Node) → children (revoked o) ≡ children o
unfolding revoke_node revoke_info
children-revoked none = refl
children-revoked (some (info n)) = refl
children-revoked (some (leaf g)) = refl

revoked_twice : (o : Option Node) → revoked (revoked o) ≡ revoked o
unfolding revoke_node revoke_info revoke
revoked_twice none = refl
revoked_twice (some (info n)) = refl
revoked_twice (some (leaf g)) = refl

abbrev pub Listing : Type 0
Listing = String → Option (List String)

-- `j` is the key `k`, or one below it.
pub data IsBelow (c : Listing) (j : String) : String → Type 0 where
  here : {k : String} → j ≡ k → IsBelow c j k
  under :
      {k s : String} {ks : List String} → c k ≡ some ks → In s ks → IsBelow c j s → IsBelow c j k

-- All keys are stored, down to a depth.
abbrev pub IsTree : Listing → ℕ → String → Type 0
IsTree c zero k = ⊥
IsTree c (suc n) k = (ks : List String) × (c k ≡ some ks) × All (IsTree c n) ks

-- What the nodes of a database list.
abbrev pub Lists : Db → Listing → Type 0
Lists db c = (k : String) → children (Dict.get db k) ≡ c k

-- From `a` to `b` the nodes under the keys in `P` are revoked, and nothing else is changed.
pub record Revokes (a b : Db) (P : String → Type 0) : Type 0 where
  pub step : (j : String) → (Dict.get b j ≡ Dict.get a j) ⊎ (Dict.get b j ≡ revoked (Dict.get a j))
  pub hit : (j : String) → P j → Dict.get b j ≡ revoked (Dict.get a j)
  pub miss : (j : String) → ¬ P j → Dict.get b j ≡ Dict.get a j

Revokes-Lists :
    (a b : Db) (P : String → Type 0) (c : Listing) → Revokes a b P → Lists a c → Lists b c
Revokes-Lists a b P c r l k = elim (r.step k) [
  | inl e ↦ ap children e ∙ l k
  | inr e ↦ ap children e ∙ children-revoked (Dict.get a k) ∙ l k
]

Revokes-put :
    (db : Db) (k : String) (n : Node)
    → Dict.get db k ≡ some n
    → Revokes db (Dict.put db k (revoke_node n)) (λ j. j ≡ k)
Revokes-put db k n e = record {
  step = λ j. elim (Bool-cases (k == j)) [
    | inl t ↦ inr (at (sym ((eq_iff k j).0 t)))
    | inr f ↦ inl (get-put_ne db k j (revoke_node n) (λ q. ground (arith, eq_iff k j)))
  ];
  hit = λ j q. at q;
  miss = λ j q. get-put_ne db k j (revoke_node n) (λ e'. q (sym e'));
}
  where
    at : {j : String} → j ≡ k → Dict.get (Dict.put db k (revoke_node n)) j ≡ revoked (Dict.get db j)
    at q =
        ap (Dict.get (Dict.put db k (revoke_node n))) q
        ∙ get-put_self db k (revoke_node n)
        ∙ sym (ap revoked e)
        ∙ ap (λ x. revoked (Dict.get db x)) (sym q)

after_revoked : (x y z : Option Node) → y ≡ revoked x → (z ≡ y) ⊎ (z ≡ revoked y) → z ≡ revoked x
after_revoked x y z e (inl e') = e' ∙ e
after_revoked x y z e (inr e') = e' ∙ ap revoked e ∙ revoked_twice x

two_steps :
    (x y z : Option Node)
    → (y ≡ x) ⊎ (y ≡ revoked x)
    → (z ≡ y) ⊎ (z ≡ revoked y)
    → (z ≡ x) ⊎ (z ≡ revoked x)
two_steps x y z (inl e) (inl e') = inl (e' ∙ e)
two_steps x y z (inl e) (inr e') = inr (e' ∙ ap revoked e)
two_steps x y z (inr e) t = inr (after_revoked x y z e t)

Revokes-then :
    (a b d : Db) (P Q : String → Type 0)
    → Revokes a b P
    → Revokes b d Q
    → Revokes a d (λ j. P j ⊎ Q j)
Revokes-then a b d P Q r s = record {
  step = λ j. two_steps _ _ _ (r.step j) (s.step j);
  hit = λ j. hits j;
  miss = λ j m. s.miss j (λ q. m (inr q)) ∙ r.miss j (λ p. m (inl p));
}
  where
    hits : (j : String) → P j ⊎ Q j → Dict.get d j ≡ revoked (Dict.get a j)
    hits j (inl p) = after_revoked _ _ _ (r.hit j p) (s.step j)
    hits j (inr q) = elim (r.step j) [
      | inl e ↦ s.hit j q ∙ ap revoked e
      | inr e ↦ after_revoked _ _ _ e (inr (s.hit j q))
    ]

Revokes-same :
    (a b : Db) (P Q : String → Type 0) → ((j : String) → P j ↔ Q j) → Revokes a b P → Revokes a b Q
Revokes-same a b P Q same r = record {
  step = r.step;
  hit = λ j q. r.hit j ((same j).1 q);
  miss = λ j m. r.miss j (λ p. m ((same j).0 p));
}

-- A call returns, and revokes what is in `P`.
abbrev pub Done : Outcome Error Db → Db → (String → Type 0) → Type 0
Done o db P = (db' : Db) × (o ≡ ok db') × Revokes db db' P

-- The keys below one of a list.
abbrev BelowOne : Listing → List String → String → Type 0
BelowOne c [] j = ⊥
BelowOne c (k ∷ ks) j = IsBelow c j k ⊎ BelowOne c ks j

module _ (c : Listing) (n : ℕ)
    (tree : (k : String) (db : Db)
      → Lists db c
      → IsTree c n k
      → Done (revoke_tree n k db) db (λ j. IsBelow c j k)) where
  each-Done :
      (ks : List String) (db : Db)
      → Lists db c
      → All (IsTree c n) ks
      → Done (each (revoke_tree n) ks db) db (BelowOne c ks)
  unfolding each
  each-Done [] db l t =
      (db, refl, record { step = λ j. inl refl; hit = λ j p. absurd p; miss = λ j m. refl })
  each-Done (k ∷ ks) db l t =
      let (d, e, r) = tree k db l t.0 in
      let (d', e', r') = each-Done ks d (Revokes-Lists db d _ c r l) t.1 in
      (d', rw e e', Revokes-then db d d' _ _ r r')

In-same :
    (s : String) (xs ys : List String)
    → ◌≡◌ {A = Option (List String)} (some xs) (some ys)
    → In s xs
    → In s ys
In-same s xs ys e m = rw (sym (some_inj e)) m

IsBelow-BelowOne :
    (c : Listing) (k j : String) (ks : List String)
    → c k ≡ some ks
    → IsBelow c j k ↔ ((j ≡ k) ⊎ BelowOne c ks j)
IsBelow-BelowOne c k j ks e = (to, from)
  where
    from_list :
        (xs : List String) → ((s : String) → In s xs → In s ks) → BelowOne c xs j → IsBelow c j k
    from_list [] inc b = absurd b
    from_list (x ∷ xs) inc (inl b) = under e (inc x (inl refl)) b
    from_list (x ∷ xs) inc (inr b) = from_list xs (λ s m. inc s (inr m)) b

    to_list : (s : String) (xs : List String) → In s xs → IsBelow c j s → BelowOne c xs j
    to_list s [] m b = absurd m
    to_list s (x ∷ xs) (inl q) b = inl (rw (sym q) b)
    to_list s (x ∷ xs) (inr m) b = inr (to_list s xs m b)

    to : IsBelow c j k → (j ≡ k) ⊎ BelowOne c ks j
    to (here q) = inl q
    to (under e' m b) = inr (to_list _ ks (In-same _ _ ks (sym e' ∙ e) m) b)

    from : (j ≡ k) ⊎ BelowOne c ks j → IsBelow c j k
    from (inl q) = here q
    from (inr b) = from_list ks (λ s m. m) b

revoke_node-Done :
    (c : Listing) (n : ℕ) (k : String) (db : Db) (ks : List String) (node : Node)
    → Dict.get db k ≡ some node
    → Lists db c
    → c k ≡ some ks
    → listed node ≡ ks
    → ((d : Db) → Lists d c → Done (each (revoke_tree n) ks d) d (BelowOne c ks))
    → Done (below (revoke_tree n) node (Dict.put db k (revoke_node node))) db (λ j. IsBelow c j k)
revoke_node-Done c n k db ks node e l ck same rest =
    let (db', r, s) = rest db1 (Revokes-Lists db db1 _ c first l) in
    (
      db',
      runs node same db1 ∙ r,
      Revokes-same db db' _ _ (λ j. let (to, from) = IsBelow-BelowOne c k j ks ck in (from, to))
          (Revokes-then db db1 db' _ _ first s),
    )
  where
    db1 : Db
    db1 = Dict.put db k (revoke_node node)

    first : Revokes db db1 (λ j. j ≡ k)
    first = Revokes-put db k node e

    runs :
        (m : Node)
        → listed m ≡ ks
        → (d : Db) → below (revoke_tree n) m d ≡ each (revoke_tree n) ks d
    runs (info m) q d = ap (λ xs. each (revoke_tree n) xs d) q
    runs (leaf g) q d = unfold each in ap (λ xs. each (revoke_tree n) xs d) q

-- Where all keys below one are stored down to a depth, `_revoke_tree` returns within it, and revokes
-- the node and those below it, and no others.
pub revoke_tree-Done :
    (c : Listing) (n : ℕ) (k : String) (db : Db)
    → Lists db c
    → IsTree c n k
    → Done (revoke_tree n k db) db (λ j. IsBelow c j k)
unfolding revoke_tree
revoke_tree-Done c zero k db l t = absurd t
revoke_tree-Done c (suc n) k db l (ks, e, t) = elim (Option-cases (Dict.get db k)) [
  | inl q ↦ absurd (none_lists (sym (ap children q) ∙ l k ∙ e))
  | inr (node, q) ↦
      rw (q, or_key_error)
        (revoke_node-Done c n k db ks node q l e (some_lists (sym (ap children q) ∙ l k ∙ e))
          (λ d l'. each-Done c n (λ k' d' l'' t'. revoke_tree-Done c n k' d' l'' t') ks d l' t))
]
  where
    none_lists : ◌≡◌ {A = Option (List String)} none (some ks) → ⊥
    none_lists h = cc

    some_lists : {xs : List String} → ◌≡◌ {A = Option (List String)} (some xs) (some ks) → xs ≡ ks
    some_lists h = cc
