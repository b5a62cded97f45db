-- ===== src/Session/Manager/Sessions/Refine.antt =====
-- The session database does what the abstract map says.
use idpy_oidc.Base.{
  some_inj, ℕ, suc, ◌≡◌, refl, sym, ◌∙◌, inl, inr, Option, none, some, Option-cases, List, [], ◌∷◌,
  String, All, Outcome, ok,
}
use idpy_oidc.Dict
use idpy_oidc.Session.Token.{revoke}
use idpy_oidc.Session.Grant.{Grant}
use idpy_oidc.Session.BranchId.Packing.{IsClosed}
use idpy_oidc.Session.BranchId.Identifier.{Decrypts}
use idpy_oidc.Session.Database.{Node, info, leaf, Db}
use idpy_oidc.Session.Database.Key.{branch_key}
use idpy_oidc.Session.Manager.{Manager, Exception, SessionArgs, SessionRequest}
use idpy_oidc.Session.Manager.Create.{IsStandard}
use idpy_oidc.Session.Manager.Sessions.{
  Sessions, grant_in, Call, creating, revoking, expected, expected_all, perform, perform_all,
}
use idpy_oidc.Session.Manager.Sessions.Stored.{ArePlain, Represents, Represents-Stores, put-Stores}
use idpy_oidc.Session.Manager.Sessions.Calls.{create_session-Stores, revoke_grant-sid}

-- The names of a call are plain, and the key that an identifier is made of ends in no white space.
abbrev pub IsPlainCall : Call → Type 0
IsPlainCall (creating now fresh rnd a r) = ArePlain a.user_id a.client_id fresh
IsPlainCall (revoking rnd u c g) = ArePlain u c g × IsClosed (branch_key (u ∷ c ∷ g ∷ []))

grant_in_lem : (o : Option Node) (v : Grant) → grant_in o ≡ some v → o ≡ some (leaf v)
grant_in_lem none v e = cc
grant_in_lem (some (info n)) v e = cc
grant_in_lem (some (leaf g)) v e = cc

no_map : {s' : Sessions} → ◌≡◌ {A = Option Sessions} none (some s') → ⊥
no_map e = cc

-- A call that returns, and leaves a database that stands for the map.
abbrev pub Gives : Outcome Exception Db → Sessions → Type 0
Gives o s = (db' : Db) × (o ≡ ok db') × Represents db' s

creating-Refines :
    (depth : ℕ) (m : Manager) (now : ℕ) (fresh rnd : String) (a : SessionArgs) (r : SessionRequest)
    (db : Db) (s s' : Sessions)
    → IsStandard m
    → Represents db s
    → IsPlainCall (creating now fresh rnd a r)
    → expected m (creating now fresh rnd a r) s ≡ some s'
    → Gives (perform depth m (creating now fresh rnd a r) db) s'
unfolding perform
creating-Refines depth m now fresh rnd a r db s s' st rep p e =
    elim (Option-cases (Dict.get m.sub_func a.sub_type)) [
      | inl q ↦ absurd (no_map (rw (expected, q) at e))
      | inr (f, q) ↦
          let (db', c, stores) =
            create_session-Stores m now fresh rnd a r db f st q (rep.1 a.user_id p.0)
              (rep.2 a.user_id a.client_id p.0 p.1) in
          (
            db',
            rw c refl,
            rw (sym (some_inj (rw (expected, q) at e)))
                (Represents-Stores db db' s a.user_id a.client_id fresh _ rep p stores),
          )
    ]

revoking-Refines :
    (depth : ℕ) (m : Manager) (rnd u c g : String) (db : Db) (s s' : Sessions)
    → IsStandard m
    → Decrypts m.crypt
    → Represents db s
    → IsPlainCall (revoking rnd u c g)
    → expected m (revoking rnd u c g) s ≡ some s'
    → Gives (perform (suc depth) m (revoking rnd u c g) db) s'
unfolding perform
revoking-Refines depth m rnd u c g db s s' st dec rep (p, closed) e =
    elim (Option-cases (s u c g)) [
      | inl q ↦ absurd (no_map (rw (expected, q) at e))
      | inr (v, q) ↦
          let there = grant_in_lem _ v (rep.0 u c g p ∙ q) in
          let v' : Grant = record v { item = revoke v.item } in
          (
            Dict.put db (branch_key (u ∷ c ∷ g ∷ [])) (leaf v'),
            revoke_grant-sid depth m rnd u c g v db st dec p closed there,
            rw (sym (some_inj (rw (expected, q) at e))) (
                Represents-Stores db _ s u c g v' rep p
                  (put-Stores db u c g v' p (rep.1 u p.0) (rep.2 u c p.0 p.1))),
          )
    ]

one-Refines :
    (depth : ℕ) (m : Manager) (x : Call) (db : Db) (s s' : Sessions)
    → IsStandard m
    → Decrypts m.crypt
    → Represents db s
    → IsPlainCall x
    → expected m x s ≡ some s'
    → Gives (perform (suc depth) m x db) s'
one-Refines depth m (creating now fresh rnd a r) db s s' st dec rep p e =
    creating-Refines (suc depth) m now fresh rnd a r db s s' st rep p e
one-Refines depth m (revoking rnd u c g) db s s' st dec rep p e =
    revoking-Refines depth m rnd u c g db s s' st dec rep p e

-- For a standard manager whose encrypter reads back what it made, and a database that stands for a map
-- of sessions: any sequence of calls of `create_session` and `revoke_grant`, with plain names, that the
-- map allows returns, and leaves a database that stands for the map that the calls lead to.
pub perform_all-Refines :
    (depth : ℕ) (m : Manager) (xs : List Call) (db : Db) (s s' : Sessions)
    → IsStandard m
    → Decrypts m.crypt
    → Represents db s
    → All IsPlainCall xs
    → expected_all m xs s ≡ some s'
    → Gives (perform_all (suc depth) m xs db) s'
unfolding perform_all
perform_all-Refines depth m [] db s s' st dec rep p e = (db, refl, rw (sym (some_inj e)) rep)
perform_all-Refines depth m (x ∷ xs) db s s' st dec rep p e = elim (Option-cases (expected m x s)) [
  | inl q ↦ absurd (no_map (rw (expected_all, q) at e))
  | inr (s1, q) ↦
      let (d, r, rep') = one-Refines depth m x db s s1 st dec rep p.0 q in
      let (d', r', rep'') =
        perform_all-Refines depth m xs d s1 s' st dec rep' p.1 (rw (expected_all, q) at e) in
      (d', rw r r', rep'')
]

-- The empty database stands for the map with no session.
pub Represents-empty : Represents [] (λ u c g. none)
unfolding Dict.get
Represents-empty = (λ u c g p. refl, λ u p. tt, λ u c p q. tt)
