-- ===== src/Session/Claims/Interface/Users.antt =====
-- What `get_user_claims` lets out.
use idpy_oidc.Base.{
  ◌≡◌, refl, sym, ap, ◌∙◌, ◌↔◌, ◌⊎◌, inl, inr, true, Bool-cases, Option, none, some, [], ◌∷◌,
  String, ◌==◌, eq_iff, eq_refl, In, ok, ok_inj,
}
use idpy_oidc.Dict
use idpy_oidc.Dict.{Dict}
use idpy_oidc.Session.Claims.{Value, Spec, Claims, claims_match}
use idpy_oidc.Session.Claims.Interface.{add_match, matching, get_user_claims}

-- A claim is let out with its value.
abbrev pub IsLetOut : Dict Value → Claims → String → Value → Type 0
IsLetOut info r k v =
    (spec : Spec) × In {A = String × Spec} (k, spec) r
    × (Dict.get info k ≡ some v)
    × (claims_match (some v) spec ≡ true)

IsLetOut-more :
    (info : Dict Value) (e : String × Spec) (r : Claims) (k : String) (v : Value)
    → IsLetOut info r k v
    → IsLetOut info (e ∷ r) k v
IsLetOut-more info e r k v (spec, m, g, c) = (spec, inr m, g, c)

-- The first entry of what is let out, and the rest.
module _ (info : Dict Value) (j k : String) (spec : Spec) (rest : Dict Value) (v : Value) where
  first-or_rest :
      (o : Option Value)
      → Dict.get info j ≡ o
      → Dict.get (add_match info j o spec rest) k ≡ some v
      → (Dict.get rest k ≡ some v)
        ⊎ ((k ≡ j) × (Dict.get info j ≡ some v) × (claims_match (some v) spec ≡ true))
  unfolding Dict.get
  first-or_rest none g e = inl e
  first-or_rest (some w) g e = elim (Bool-cases (claims_match (some w) spec)) [
    | inr f ↦ inl (rw f at e)
    | inl c ↦ elim (Bool-cases (j == k)) [
      | inr n ↦ inl (rw (c, n) at e)
      | inl t ↦
          let same : ◌≡◌ {A = Option Value} (some w) (some v) = rw (c, t) at e in
          inr (sym ((eq_iff j k).0 t), g ∙ same, value_matches same c)
    ]
  ]
    where
      value_matches :
          ◌≡◌ {A = Option Value} (some w) (some v)
          → claims_match (some w) spec ≡ true
          → claims_match (some v) spec ≡ true
      value_matches q c = ap (λ x. claims_match x spec) (sym q) ∙ c

  add_match-rest :
      (o : Option Value)
      → Dict.get info j ≡ o
      → Dict.get info k ≡ some v
      → Dict.get rest k ≡ some v
      → Dict.get (add_match info j o spec rest) k ≡ some v
  unfolding Dict.get
  add_match-rest none g h e = e
  add_match-rest (some w) g h e = elim (Bool-cases (claims_match (some w) spec)) [
    | inr f ↦ rw f e
    | inl c ↦ elim (Bool-cases (j == k)) [
      | inr n ↦ rw (c, n) e
      | inl t ↦ rw (c, t) (sym g ∙ ap (λ x. Dict.get info x) ((eq_iff j k).0 t) ∙ h)
    ]
  ]

  add_match-first :
      k ≡ j
      → Dict.get info k ≡ some v
      → claims_match (some v) spec ≡ true
      → Dict.get (add_match info j (Dict.get info j) spec rest) k ≡ some v
  unfolding Dict.get
  add_match-first q h c = rw (ap (Dict.get info) (sym q) ∙ h, c, sym q, eq_refl k) refl

matching-IsLetOut :
    (info : Dict Value) (r : Claims) (k : String) (v : Value)
    → Dict.get (matching info r) k ≡ some v
    → IsLetOut info r k v
unfolding matching
matching-IsLetOut info [] k v e = absurd (nothing (unfold Dict.get in e))
  where
    nothing : ◌≡◌ {A = Option Value} none (some v) → ⊥
    nothing x = cc
matching-IsLetOut info ((j, spec) ∷ r) k v e =
    elim (first-or_rest info j k spec (matching info r) v (Dict.get info j) refl e) [
      | inl x ↦ IsLetOut-more info (j, spec) r k v (matching-IsLetOut info r k v x)
      | inr (q, g, c) ↦ (spec, inl (ap (λ x. (x, spec)) q), ap (Dict.get info) q ∙ g, c)
    ]

IsLetOut-matching :
    (info : Dict Value) (r : Claims) (k : String) (v : Value) (spec : Spec)
    → In {A = String × Spec} (k, spec) r
    → Dict.get info k ≡ some v
    → claims_match (some v) spec ≡ true
    → Dict.get (matching info r) k ≡ some v
unfolding matching
IsLetOut-matching info [] k v spec m g c = absurd m
IsLetOut-matching info ((j, s) ∷ r) k v spec (inl q) g c =
    add_match-first info j k s (matching info r) v (ap (λ p. p.0) q) g
      (ap (λ p. claims_match (some v) p.1) (sym q) ∙ c)
IsLetOut-matching info ((j, s) ∷ r) k v spec (inr m) g c =
    add_match-rest info j k s (matching info r) v (Dict.get info j) refl g
      (IsLetOut-matching info r k v spec m g c)

-- What `get_user_claims` returns has a claim exactly when the restriction has it, the user info service
-- knows it of the user, and its value matches the restriction; it then has that value.
pub get_user_claims_iff :
    (userinfo : String → String → Dict Value) (user_id : String) (r : Claims) (client_id : String)
    (out : Dict Value) (k : String) (v : Value)
    → get_user_claims (some userinfo) user_id r client_id ≡ ok out
    → (Dict.get out k ≡ some v) ↔ IsLetOut (userinfo user_id client_id) r k v
unfolding get_user_claims
get_user_claims_iff userinfo user_id [] client_id out k v e = (
  λ x.
      matching-IsLetOut (userinfo user_id client_id) [] k v
        (unfold matching in (ap (λ d. Dict.get d k) (ok_inj e) ∙ x)),
  λ (spec, m, g, h). absurd m,
)
get_user_claims_iff userinfo user_id (c ∷ cs) client_id out k v e = (
  λ x.
      matching-IsLetOut (userinfo user_id client_id) (c ∷ cs) k v
        (ap (λ d. Dict.get d k) (ok_inj e) ∙ x),
  λ (spec, m, g, h).
      ap (λ d. Dict.get d k) (sym (ok_inj e))
      ∙ IsLetOut-matching (userinfo user_id client_id) (c ∷ cs) k v spec m g h,
)
