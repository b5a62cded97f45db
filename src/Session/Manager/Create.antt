-- ===== src/Session/Manager/Create.antt =====
-- What `create_session` stores.
use Prim.Native.String.{count}
use idpy_oidc.Base.{
  ℕ, zero, suc, ◌≤◌, ◌≡◌, refl, ap, ◌∙◌, inl, inr, some, List, [], ◌∷◌, ◌++◌, String, arith, ok,
  length, In, Option-cases,
}
use idpy_oidc.Dict
use idpy_oidc.Session.Grant.{Grant}
use idpy_oidc.Session.BranchId.{encrypted_branch_id}
use idpy_oidc.Session.Database.{Db, NodeInfo, info, leaf, Config, set, get}
use idpy_oidc.Session.Database.Key.{branch_key}
use idpy_oidc.Session.Database.Key.Length.{count-branch_key}
use idpy_oidc.Session.Database.Store.{branch_keys, set_at_key, set-frame}
use idpy_oidc.Session.Database.Link.{IsLinked, set-IsLinked}
use idpy_oidc.Session.Database.Returns.{IsInner, IsClear, MakesInner, set_returns}
use idpy_oidc.Session.Manager.{
  Manager, NodeClass, user_session_info, client_session_info, new_info, info_class, make_node, lift,
  config, set_up_node, setup_branch, init_grant, GrantArgs, add_grant,
}

-- A manager of users, clients and grants, with the classes for them.
abbrev pub IsStandard : Manager → Type 0
IsStandard m =
    (m.node_type ≡ "user" ∷ "client" ∷ "grant" ∷ [])
    × (info_class m 0 ≡ ok user_session_info)
    × (info_class m 1 ≡ ok client_session_info)

config-MakesInner : (m : Manager) → IsStandard m → MakesInner (config m) 3
unfolding config
config-MakesInner m s zero x h = (new_info user_session_info x, rw (s.1) refl)
config-MakesInner m s (suc zero) x h = (new_info client_session_info x, rw (s.2) refl)
config-MakesInner m s (suc (suc i)) x h = absurd (omega (arith, h))

fewer : (c : Config) (a b : ℕ) → a ≤ b → MakesInner c b → MakesInner c a
fewer c a b h m i x lt = m i x (omega (arith, h, lt))

IsLinked-IsClear : (db : Db) (above xs : List String) → IsLinked db above xs → IsClear db above xs
IsLinked-IsClear db above [] l = tt
IsLinked-IsClear db above (x ∷ []) l = tt
IsLinked-IsClear db above (x ∷ y ∷ ys) ((n, e, _), l) =
    (rw e tt, IsLinked-IsClear db (above ++ x ∷ []) (y ∷ ys) l)

-- The database after a round of `_setup_branch`, at the path `p`.
abbrev IsSetUp : List String → Db → Db → Type 0
IsSetUp p db db' =
    IsClear db' [] p
    × IsInner (Dict.get db' (branch_key p))
    × ((j : String) → ¬ In j (branch_keys [] p) → Dict.get db' j ≡ Dict.get db j)

module _ (m : Manager) (i : ℕ) (x : String) (c : NodeClass) (n : NodeInfo)
    (class : info_class m i ≡ ok c) (made : make_node c x ≡ ok (info n)) where
  stored_round :
      (z : String) (zs : List String) (db : Db)
      → MakesInner (config m) (length (z ∷ zs))
      → IsClear db [] (z ∷ zs)
      → (db' : Db) × (lift (set (config m) (z ∷ zs) (info n) db) ≡ ok db') × IsSetUp (z ∷ zs) db db'
  stored_round z zs db mk clear =
      let (db', r) = set_returns (config m) (z ∷ zs) (info n) db mk clear in
      (
        db',
        ap lift r,
        (
          IsLinked-IsClear db' [] (z ∷ zs) (set-IsLinked (config m) (z ∷ zs) (info n) db r),
          rw (set_at_key (config m) z zs (info n) db r) tt,
          λ j out. set-frame (config m) (z ∷ zs) (info n) j db r out,
        ),
      )

  round :
      (z : String) (zs : List String) (db : Db)
      → MakesInner (config m) (length (z ∷ zs))
      → IsClear db [] (z ∷ zs)
      → IsInner (Dict.get db (branch_key (z ∷ zs)))
      → (db' : Db) × (set_up_node m i x (z ∷ zs) (get (z ∷ zs) db) db ≡ ok db')
        × IsSetUp (z ∷ zs) db db'
  unfolding get
  round z zs db mk clear inner = elim (Option-cases (Dict.get db (branch_key (z ∷ zs)))) [
    | inl e ↦ let (db', r, s) = stored_round z zs db mk clear in (db', rw (e, class, made) r, s)
    | inr (node, e) ↦ (db, rw e refl, (clear, inner, λ j out. refl))
  ]

-- What a session's own keys are, and that nothing else is changed.
abbrev pub Stores : Db → Db → List String → Grant → Type 0
Stores db db' path g =
    (Dict.get db' (branch_key path) ≡ some (leaf g))
    × IsClear db' [] path
    × ((j : String) → ¬ In j (branch_keys [] path) → Dict.get db' j ≡ Dict.get db j)

not-In-shorter : (u c : String) → ¬ In (branch_key (u ∷ c ∷ [])) (branch_keys [] (u ∷ []))
not-In-shorter u c (inl e) = absurd (omega (arith, count-branch_key u [] c, ap count e))
not-In-shorter u c (inr m) = absurd m

second_round :
    (m : Manager) (u c : String) (db d : Db)
    → IsStandard m
    → IsInner (Dict.get db (branch_key (u ∷ c ∷ [])))
    → IsSetUp (u ∷ []) db d
    → (db' : Db) × (set_up_node m 1 c (u ∷ c ∷ []) (get (u ∷ c ∷ []) d) d ≡ ok db')
      × IsSetUp (u ∷ c ∷ []) db db'
second_round m u c db d st ic (cl, inner, frame) =
    let (db', e, s) =
      round m 1 c client_session_info (new_info client_session_info c) st.2 refl u (c ∷ []) d
        (fewer (config m) 2 3 (omega arith) (config-MakesInner m st)) (inner, tt)
        (rw (frame (branch_key (u ∷ c ∷ [])) (not-In-shorter u c)) ic) in
    (db', e, (s.0, s.1, λ j out. s.2 j out ∙ frame j (λ i. out (upper i))))
  where
    upper : {j : String} → In j (branch_keys [] (u ∷ [])) → In j (branch_keys [] (u ∷ c ∷ []))
    upper (inl e) = inl e
    upper (inr i) = absurd i

setup_branch_returns :
    (m : Manager) (u c : String) (db : Db)
    → IsStandard m
    → IsInner (Dict.get db (branch_key (u ∷ [])))
    → IsInner (Dict.get db (branch_key (u ∷ c ∷ [])))
    → (db' : Db) × (setup_branch m (u ∷ c ∷ []) db ≡ ok db') × IsSetUp (u ∷ c ∷ []) db db'
unfolding setup_branch
setup_branch_returns m u c db st iu ic =
    let (d, e, s) =
      round m 0 u user_session_info (new_info user_session_info u) st.1 refl u [] db
        (fewer (config m) 1 3 (omega arith) (config-MakesInner m st)) tt iu in
    let (d', e', s') = second_round m u c db d st ic s in (d', both d d' e e', s')
  where
    both :
        (d d' : Db)
        → set_up_node m 0 u (u ∷ []) (get (u ∷ []) db) db ≡ ok d
        → set_up_node m 1 c (u ∷ c ∷ []) (get (u ∷ c ∷ []) d) d ≡ ok d'
        → setup_branch m (u ∷ c ∷ []) db ≡ ok d'
    both d d' e e' = rw (e, e') refl

-- A branch of a user and a client, that no grant is in the way of, gets a grant by `add_grant`: a
-- new branch whose path is encrypted, with the grant at its end.
pub add_grant_returns :
    (m : Manager) (now : ℕ) (fresh rnd u c : String) (a : GrantArgs) (db : Db)
    → IsStandard m
    → IsInner (Dict.get db (branch_key (u ∷ [])))
    → IsInner (Dict.get db (branch_key (u ∷ c ∷ [])))
    → (db' : Db) × (add_grant m now fresh rnd (u ∷ c ∷ []) a db
        ≡ ok (encrypted_branch_id m.crypt rnd (u ∷ c ∷ fresh ∷ []), db'))
      × Stores db db' (u ∷ c ∷ fresh ∷ []) (init_grant m now fresh a)
unfolding add_grant
add_grant_returns m now fresh rnd u c a db st iu ic =
    let (d, e, s) = setup_branch_returns m u c db st iu ic in
    let g = leaf (init_grant m now fresh a) in
    let path = u ∷ c ∷ fresh ∷ [] in
    let (d', e') = set_returns (config m) path g d (config-MakesInner m st) ((s.0).0, (s.1, tt)) in
    (
      d',
      rw (e, e') refl,
      (
        set_at_key (config m) u (c ∷ fresh ∷ []) g d e',
        IsLinked-IsClear d' [] path (set-IsLinked (config m) path g d e'),
        λ j out. set-frame (config m) path g j d e' out ∙ s.2 j (λ i. out (upper j i)),
      ),
    )
  where
    upper :
        (j : String)
        → In j (branch_keys [] (u ∷ c ∷ []))
        → In j (branch_keys [] (u ∷ c ∷ fresh ∷ []))
    upper j (inl e) = inl e
    upper j (inr (inl e)) = inr (inl e)
    upper j (inr (inr i)) = absurd i
