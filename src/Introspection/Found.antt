-- ===== src/Introspection/Found.antt =====
-- The session of a token, and the token in it.
use idpy_oidc.Base.{
  ℕ, ◌≡◌, refl, sym, ap, ◌∙◌, inl, inr, true, false, Bool-cases, Option, some, List, [], ◌∷◌, ◌++◌,
  String, ◌==◌, eqb, arith, length, is_nonempty, Outcome, ok, err, >>=-eq_ok, ok_inj, if◌then◌else◌,
}
use idpy_oidc.Dict
use idpy_oidc.Dict.{Dict}
use idpy_oidc.Session.Token.{SessionToken, is_active, revoke_token_item}
use idpy_oidc.Session.Grant.{Heap, Grant, write, token_with_value}
use idpy_oidc.Session.BranchId.{decrypt_branch_id}
use idpy_oidc.Session.Database.{
  Node, leaf, Db, Error, key_error, value_error, attribute_error, index_error, recursion_error, get,
}
use idpy_oidc.Session.Database.Key.{branch_key, unpack_branch_key}
use idpy_oidc.Session.Manager.{Manager, Exception}
use idpy_oidc.Session.Manager.Lookup.{BranchInfo, nodes_from, gather, or_invalid}
use idpy_oidc.Session.Manager.Create.{IsStandard}
use idpy_oidc.Introspection.{grant_of}

-- The token handler names a session: three names, with a grant at their end.
pub record IsSession (m : Manager) (token_info : String → Outcome Exception (Option String))
    (value sid u c g : String) (v : Grant) (db : Db) : Type 0 where
  pub standard : IsStandard m
  pub named : token_info value ≡ ok (some sid)
  pub filled : is_nonempty sid ≡ true
  pub encrypted : eqb (length (unpack_branch_key sid)) 3 ≡ false
  pub path : decrypt_branch_id m.crypt sid ≡ ok (u ∷ c ∷ g ∷ [])
  pub stored : Dict.get db (branch_key (u ∷ c ∷ g ∷ [])) ≡ some (leaf v)

pub revoked_is_inactive :
    (now : ℕ) (t : SessionToken) → is_active now (revoke_token_item t).item ≡ false
unfolding is_active
revoked_is_inactive now t = ground arith

pub eqb_refl : (p : ℕ) → eqb p p ≡ true
eqb_refl p = ground arith

-- A revoked token is found where it was.
pub found_again :
    (h : Heap) (ts : List ℕ) (value : String) (t : ℕ)
    → token_with_value (write h t (revoke_token_item (h.at t))) ts value
      ≡ token_with_value h ts value
unfolding token_with_value
found_again h [] value t = refl
found_again h (p ∷ ps) value t =
    ap
      (λ w.
        if w == value
        then some p
        else token_with_value (write h t (revoke_token_item (h.at t))) ps value)
      same_value
    ∙ ap (λ o. if (h.at p).value == value then some p else o) (found_again h ps value t)
  where
    same_value : ((write h t (revoke_token_item (h.at t))).at p).value ≡ (h.at p).value
    same_value = elim (Bool-cases (eqb t p)) [
      | inl e ↦ rw e (ap (λ q. (h.at q).value) (ground arith))
      | inr e ↦ rw e refl
    ]

last_node :
    (above : List String) (x : String) (n : Node) (db : Db) (ns : List Node)
    → Dict.get db (branch_key (above ++ x ∷ [])) ≡ some n
    → nodes_from above (x ∷ []) db ≡ ok ns
    → ns ≡ n ∷ []
unfolding nodes_from get
last_node above x n db ns e q = sym (ok_inj (sym (rw e refl) ∙ q))

-- The nodes of a branch of three names.
pub nodes_three :
    (u c g : String) (n : Node) (db : Db) (ns : List Node)
    → Dict.get db (branch_key (u ∷ c ∷ g ∷ [])) ≡ some n
    → nodes_from [] (u ∷ c ∷ g ∷ []) db ≡ ok ns
    → (n1 : Node) × (n2 : Node) × (ns ≡ n1 ∷ n2 ∷ n ∷ [])
unfolding nodes_from get
nodes_three u c g n db ns e q =
    let (n1, _, q1) = >>=-eq_ok (get (u ∷ []) db) _ q in
    let (r1, q2, p1) = >>=-eq_ok (nodes_from (u ∷ []) (c ∷ g ∷ []) db) _ q1 in
    let (n2, _, q3) = >>=-eq_ok (get (u ∷ c ∷ []) db) _ q2 in
    let (r2, q4, p2) = >>=-eq_ok (nodes_from (u ∷ c ∷ []) (g ∷ []) db) _ q3 in
    (
      n1,
      n2,
      sym (ok_inj p1)
          ∙ ap (◌∷◌ n1) (sym (ok_inj p2) ∙ ap (◌∷◌ n2) (last_node (u ∷ c ∷ []) g n db r2 e q4)),
    )

-- What is found in a branch of three nodes.
pub gathered :
    (m : Manager) (sid u c g : String) (n1 n2 : Node) (v : Grant) (b : BranchInfo)
    → IsStandard m
    → gather [] m.node_type
        (n1 ∷ n2 ∷ leaf v ∷ [])
        (u ∷ c ∷ g ∷ [])
        (record { branch_id = sid; nodes = []; ids = [] })
      ≡ ok b
    → grant_of b ≡ ok v
unfolding gather Dict.get Dict.put
gathered m sid u c g n1 n2 v b st q = rw (sym (ok_inj (standard ∙ q))) refl
  where
    standard :
        ok (record {
          branch_id = sid;
          nodes = ("user", n1) ∷ ("client", n2) ∷ ("grant", leaf v) ∷ [];
          ids = ("user", u) ∷ ("client", c) ∷ ("grant", g) ∷ [];
        })
        ≡ gather [] m.node_type
            (n1 ∷ n2 ∷ leaf v ∷ [])
            (u ∷ c ∷ g ∷ [])
            (record { branch_id = sid; nodes = []; ids = [] })
    standard = sym (
        ap
          (λ ts.
            gather [] ts (n1 ∷ n2 ∷ leaf v ∷ []) (u ∷ c ∷ g ∷ [])
              (record { branch_id = sid; nodes = []; ids = [] }))
          st.0)

pub or_invalid_ok :
    (sid : String) (o : Outcome Error (List Node)) (ns : List Node)
    → or_invalid sid o ≡ ok ns
    → o ≡ ok ns
or_invalid_ok sid (ok a) ns e = ap ok (ok_inj e)
or_invalid_ok sid (err key_error) ns e = cc
or_invalid_ok sid (err value_error) ns e = cc
or_invalid_ok sid (err attribute_error) ns e = cc
or_invalid_ok sid (err index_error) ns e = cc
or_invalid_ok sid (err recursion_error) ns e = cc
