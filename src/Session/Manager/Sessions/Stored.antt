-- ===== src/Session/Manager/Sessions/Stored.antt =====
-- The map of sessions that a database stands for, after a grant is stored.
use idpy_oidc.Base.{
  length, ◌<◌, if◌then◌else◌, ◌⊎◌, ◌≡◌, ◌≢◌, refl, sym, ap, ◌∙◌, inl, inr, true, false, Bool-cases,
  some, List, [], ◌∷◌, String, eq_iff, arith, All, In, contains, contains-In, In-contains,
}
use idpy_oidc.Dict
use idpy_oidc.Dict.Keys.{get-put_self, get-put_ne}
use idpy_oidc.Session.Grant.{Grant}
use idpy_oidc.Session.Database.{leaf, Db}
use idpy_oidc.Session.Database.Key.{branch_key, unpack_branch_key}
use idpy_oidc.Session.Database.Key.Unpack.{IsPlain, unpack-branch_key}
use idpy_oidc.Session.Database.Store.{branch_keys}
use idpy_oidc.Session.Database.Returns.{IsInner}
use idpy_oidc.Session.Manager.Create.{Stores}
use idpy_oidc.Session.Manager.Sessions.{Sessions, grant_in, view, is_same, put_session}

-- Plain branches with the same key are the same.
pub branch_key_inj :
    (x y : String) (xs ys : List String)
    → IsPlain x
    → All IsPlain xs
    → IsPlain y
    → All IsPlain ys
    → branch_key (x ∷ xs) ≡ branch_key (y ∷ ys)
    → ◌≡◌ {A = List String} (x ∷ xs) (y ∷ ys)
branch_key_inj x y xs ys hx hxs hy hys e =
    sym (unpack-branch_key x xs hx hxs) ∙ ap unpack_branch_key e ∙ unpack-branch_key y ys hy hys

-- The three names of a session.
abbrev pub ArePlain : String → String → String → Type 0
ArePlain u c g = IsPlain u × IsPlain c × IsPlain g

-- The database stands for the map, and has no grant where a user or a client goes.
abbrev pub Represents : Db → Sessions → Type 0
Represents db s =
    ((u c g : String) → ArePlain u c g → view db u c g ≡ s u c g)
    × ((u : String) → IsPlain u → IsInner (Dict.get db (branch_key (u ∷ []))))
    × ((u c : String) → IsPlain u → IsPlain c → IsInner (Dict.get db (branch_key (u ∷ c ∷ []))))

is_same_lem :
    (u c g u' c' g' : String) → is_same u c g u' c' g' ≡ true → (u ≡ u') × (c ≡ c') × (g ≡ g')
is_same_lem u c g u' c' g' h =
    (ground (arith, eq_iff u u'), ground (arith, eq_iff c c'), ground (arith, eq_iff g g'))

not_same :
    (u c g u' c' g' : String)
    → is_same u c g u' c' g' ≡ false
    → ◌≢◌ {A = List String} (u' ∷ c' ∷ g' ∷ []) (u ∷ c ∷ g ∷ [])
not_same u c g u' c' g' h e =
    let (a, b, d) : (u' ≡ u) × (c' ≡ c) × (g' ≡ g) = (cc, cc, cc) in
    absurd (ground (arith, eq_iff u u', eq_iff c c', eq_iff g g'))

-- Which plain paths have a key on a branch.
on_branch :
    (u c g y : String) (ys : List String)
    → ArePlain u c g
    → IsPlain y
    → All IsPlain ys
    → In (branch_key (y ∷ ys)) (branch_keys [] (u ∷ c ∷ g ∷ []))
    → In {A = List String} (y ∷ ys) ((u ∷ []) ∷ (u ∷ c ∷ []) ∷ (u ∷ c ∷ g ∷ []) ∷ [])
on_branch u c g y ys (pu, pc, pg) py pys (inl e) = inl (branch_key_inj y u ys [] py pys pu tt e)
on_branch u c g y ys (pu, pc, pg) py pys (inr (inl e)) =
    inr (inl (branch_key_inj y u ys (c ∷ []) py pys pu (pc, tt) e))
on_branch u c g y ys (pu, pc, pg) py pys (inr (inr (inl e))) =
    inr (inr (inl (branch_key_inj y u ys (c ∷ g ∷ []) py pys pu (pc, (pg, tt)) e)))
on_branch u c g y ys (pu, pc, pg) py pys (inr (inr (inr i))) = absurd i

-- The node under a key is as it was, or the key is on the branch.
by_key :
    (db db' : Db) (path : List String) (v : Grant) (j : String)
    → Stores db db' path v
    → (Dict.get db' j ≡ Dict.get db j) ⊎ In j (branch_keys [] path)
by_key db db' path v j st = elim (Bool-cases (contains j (branch_keys [] path))) [
  | inl t ↦ inr (contains-In j (branch_keys [] path) t)
  | inr f ↦ inl (st.2 j (λ i. absurd (ground (arith, In-contains j (branch_keys [] path) i))))
]

module _ (db db' : Db) (u c g : String) (v : Grant) (p : ArePlain u c g)
    (st : Stores db db' (u ∷ c ∷ g ∷ []) v) where
  view-Stores :
      (u' c' g' : String)
      → ArePlain u' c' g'
      → view db' u' c' g' ≡ (if is_same u c g u' c' g' then some v else view db u' c' g')
  view-Stores u' c' g' q = elim (Bool-cases (is_same u c g u' c' g')) [
    | inl t ↦ let (a, b, d) = is_same_lem u c g u' c' g' t in rw (t, sym a, sym b, sym d, st.0) refl
    | inr f ↦ rw f (elim (by_key db db' (u ∷ c ∷ g ∷ []) v (branch_key (u' ∷ c' ∷ g' ∷ [])) st) [
      | inl e ↦ ap grant_in e
      | inr i ↦ absurd (elsewhere f (on_branch u c g u' (c' ∷ g' ∷ []) p q.0 (q.1, (q.2, tt)) i))
    ])
  ]
    where
      elsewhere :
          is_same u c g u' c' g' ≡ false
          → In {A = List String}
              (u' ∷ c' ∷ g' ∷ [])
              ((u ∷ []) ∷ (u ∷ c ∷ []) ∷ (u ∷ c ∷ g ∷ []) ∷ [])
          → ⊥
      elsewhere f (inl e) = cc
      elsewhere f (inr (inl e)) = cc
      elsewhere f (inr (inr (inl e))) = not_same u c g u' c' g' f e
      elsewhere f (inr (inr (inr i))) = i

  IsInner-Stores :
      (y : String) (ys : List String)
      → IsPlain y
      → All IsPlain ys
      → length ys < 2
      → IsInner (Dict.get db (branch_key (y ∷ ys)))
      → IsInner (Dict.get db' (branch_key (y ∷ ys)))
  IsInner-Stores y ys py pys lt inner =
      elim (by_key db db' (u ∷ c ∷ g ∷ []) v (branch_key (y ∷ ys)) st) [
        | inl e ↦ rw e inner
        | inr i ↦ above (on_branch u c g y ys p py pys i)
      ]
    where
      above :
          In {A = List String} (y ∷ ys) ((u ∷ []) ∷ (u ∷ c ∷ []) ∷ (u ∷ c ∷ g ∷ []) ∷ [])
          → IsInner (Dict.get db' (branch_key (y ∷ ys)))
      above (inl e) = rw e ((st.1).0)
      above (inr (inl e)) = rw e ((st.1).1.0)
      above (inr (inr (inl e))) = absurd (omega (arith, lt, ap (λ l. length l) e))
      above (inr (inr (inr i))) = absurd i

-- The map after a session is stored.
pub Represents-Stores :
    (db db' : Db) (s : Sessions) (u c g : String) (v : Grant)
    → Represents db s
    → ArePlain u c g
    → Stores db db' (u ∷ c ∷ g ∷ []) v
    → Represents db' (put_session s u c g v)
Represents-Stores db db' s u c g v (r, ru, rc) p st = (
  λ u' c' g' q.
      view-Stores db db' u c g v p st u' c' g' q
      ∙ ap (λ o. if is_same u c g u' c' g' then some v else o) (r u' c' g' q),
  λ u' q. IsInner-Stores db db' u c g v p st u' [] q tt (omega arith) (ru u' q),
  λ u' c' q q'.
      IsInner-Stores db db' u c g v p st u' (c' ∷ []) q (q', tt) (omega arith) (rc u' c' q q'),
)

-- A grant that is stored again under its key.
pub put-Stores :
    (db : Db) (u c g : String) (v : Grant)
    → ArePlain u c g
    → IsInner (Dict.get db (branch_key (u ∷ [])))
    → IsInner (Dict.get db (branch_key (u ∷ c ∷ [])))
    → Stores db (Dict.put db (branch_key (u ∷ c ∷ g ∷ [])) (leaf v)) (u ∷ c ∷ g ∷ []) v
put-Stores db u c g v (pu, pc, pg) iu ic = (
  get-put_self db k (leaf v),
  (
    rw (get-put_ne db k (branch_key (u ∷ [])) (leaf v) (λ e. differ [] tt (λ q. cc) e)) iu,
    (
      rw
          (get-put_ne db k (branch_key (u ∷ c ∷ [])) (leaf v)
            (λ e. differ (c ∷ []) (pc, tt) (λ q. cc) e))
          ic,
      tt,
    ),
  ),
  λ j out. get-put_ne db k j (leaf v) (λ e. out (inr (inr (inl (sym e))))),
)
  where
    k : String
    k = branch_key (u ∷ c ∷ g ∷ [])

    differ :
        (ys : List String)
        → All IsPlain ys
        → ◌≢◌ {A = List String} (u ∷ c ∷ g ∷ []) (u ∷ ys)
        → branch_key (u ∷ c ∷ g ∷ []) ≢ branch_key (u ∷ ys)
    differ ys ps ne e = ne (branch_key_inj u u (c ∷ g ∷ []) ys pu (pc, (pg, tt)) pu ps e)
