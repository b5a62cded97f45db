-- ===== src/Session/Grant/Scope/Enough.antt =====
-- The depth of calls that `find_scope` needs.
use idpy_oidc.Base.{
  ℕ, zero, suc, ◌<◌, ◌≡◌, refl, sym, ap, ◌∙◌, ◌⊎◌, inl, inr, some, List, [], ◌∷◌, String, ◌==◌,
  eq_iff, arith, In, is_nonempty, Bool-cases, Option-cases,
}
use idpy_oidc.Session.Grant.{Heap, Grant, get_token, token_with_value}
use idpy_oidc.Session.Grant.Scope.{find_scope}
use idpy_oidc.Session.Grant.Mint.Order.{HasOrder}

pub token_with_value-In :
    (h : Heap) (ts : List ℕ) (v : String) (t : ℕ)
    → token_with_value h ts v ≡ some t
    → In t ts × ((h.at t).value ≡ v)
unfolding token_with_value
token_with_value-In h [] v t e = absurd (ground arith)
token_with_value-In h (u ∷ us) v t e = elim (Bool-cases ((h.at u).value == v)) [
  | inl y ↦
      let same : u ≡ t = ground (arith, y, e) in
      (inl (sym same), rw (sym same) (ground (arith, y, eq_iff (h.at u).value v)))
  | inr n ↦ let (i, q) = token_with_value-In h us v t (ground (arith, n, e)) in (inr i, q)
]

pub List-cases : (l : List String) → (l ≡ []) ⊎ ((x : String) × (xs : List String) × (l ≡ x ∷ xs))
List-cases [] = inl refl
List-cases (x ∷ xs) = inr (x, xs, refl)

module _ (h : Heap) (g : Grant) (order : HasOrder h g) where
  -- On a grant whose tokens come after those they are based on, a depth of calls that passes
  -- the address of one of its tokens is enough to find the scope of that token.
  pub find_scope-enough :
      (depth t : ℕ)
      → In t g.issued_token
      → t < depth
      → (s : List String) × (find_scope depth h g (some t) ≡ some s)
  unfolding find_scope
  find_scope-enough zero t i lt = absurd (omega arith)
  find_scope-enough (suc depth) t i lt = elim (List-cases (h.at t).scope) [
    | inr (x, xs, e) ↦ (x ∷ xs, rw (e, find_scope) refl)
    | inl e ↦ elim (Option-cases (h.at t).based_on) [
      | inl f ↦ (g.scope, rw (e, f, find_scope) refl)
      | inr (v, f) ↦ elim (Bool-cases (is_nonempty v)) [
        | inr n ↦ (g.scope, rw (e, f, n, find_scope) refl)
        | inl y ↦ elim (Option-cases (get_token h g v)) [
          | inl m ↦ (g.scope, rw (e, f, y, m, find_scope) refl)
          | inr (u, m) ↦
              let (j, q) = token_with_value-In h g.issued_token v u (unfold get_token in m) in
              let older : u < t = order.later u t j i (f ∙ ap some (sym q)) in
              let (s, r) = find_scope-enough depth u j (omega (arith, older, lt)) in
              (s, rw (e, f, y, m, find_scope) r)
        ]
      ]
    ]
  ]
