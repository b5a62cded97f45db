-- ===== src/Session/Grant/Mint/Total.antt =====
-- The depth of `mint_token`'s search for a scope.
use idpy_oidc.Base.{
  ℕ, ◌≡◌, ◌≢◌, refl, sym, ap, ◌∙◌, inl, inr, Option, none, some, List, String, arith, In,
  Bool-cases, Option-cases,
}
use idpy_oidc.Session.Token.{is_active, token_map}
use idpy_oidc.Session.Grant.{Heap, Grant}
use idpy_oidc.Session.Grant.Scope.{find_scope}
use idpy_oidc.Session.Grant.Scope.Enough.{find_scope-enough}
use idpy_oidc.Session.Grant.Payload.{Context}
use idpy_oidc.Session.Grant.Mint.{
  MintArgs, scope_depth, refuses_args, objection, scope_for, issue, mint_token,
}
use idpy_oidc.Session.Grant.Mint.Effect.{Handler}
use idpy_oidc.Session.Grant.Mint.Order.{HasOrder}

-- The token that another is to be based on, if any, is one of the grant's.
abbrev pub IsOwn : Grant → Option ℕ → Type 0
IsOwn g none = Unit
IsOwn g (some p) = In p g.issued_token

objection_in_depth :
    (now : ℕ) (h : Heap) (c : String) (o : Option ℕ) → objection now h c o ≢ some scope_depth
objection_in_depth now h c none e = ground arith
objection_in_depth now h c (some p) e = ground arith

module _ (h : Heap) (g : Grant) (order : HasOrder h g) where
  based_scope : (o : Option ℕ) → IsOwn g o → (s : List String) × (find_scope h.next h g o ≡ some s)
  unfolding find_scope
  based_scope none own = (g.scope, refl)
  based_scope (some p) own = find_scope-enough h g order h.next p own (order.bounded p own)

  own_scope :
      (o : Option (List String)) (b : Option ℕ)
      → IsOwn g b
      → (elim o [
        | some s ↦ some s
        | none ↦ elim b [ none ↦ some g.scope | some p ↦ find_scope h.next h g (some p) ]
      ])
        ≢ none
  own_scope (some s) b own e = ground arith
  own_scope none none own e = ground arith
  own_scope none (some p) own e = let (s, q) = based_scope (some p) own in ground (arith, sym q ∙ e)

  module _ (now : ℕ) (a : MintArgs) (own : IsOwn g a.based_on) (id jti : String) (ctx : Context)
      (handler : Handler) where
    issue_lem : (issue now id jti ctx handler a h g).0 ≢ scope_depth
    unfolding issue
    issue_lem = elim (Option-cases (token_map a.token_class)) [
      | inl e ↦ rw (e, issue) (λ q. ground arith)
      | inr (cls, e) ↦ elim (Option-cases (scope_for h g a)) [
        | inl e' ↦ absurd (own_scope a.scope a.based_on own e')
        | inr (scope, e') ↦ elim (Bool-cases (refuses_args a)) [
          | inl x ↦ rw (e, e', x, issue) (λ q. ground arith)
          | inr x ↦ rw (e, e', x, issue) (λ q. ground arith)
        ]
      ]
    ]

    -- Where the grant's tokens come after those that they are based on, and the token that the new one is to be
    -- based on, if any, is one of the grant's, the search for a scope ends within as many nested calls as
    -- the heap has addresses: `mint_token` does not run out of that depth. Python's own limit on nested calls
    -- is not part of this.
    pub mint_token_in_depth : (mint_token now id jti ctx handler a h g).0 ≢ scope_depth
    unfolding mint_token
    mint_token_in_depth = elim (Bool-cases (is_active now g.item)) [
      | inr e ↦ rw e (λ q. ground arith)
      | inl e ↦ elim (Option-cases (objection now h a.token_class a.based_on)) [
        | inl o ↦ rw (e, o, mint_token) issue_lem
        | inr (x, o) ↦
            rw (e, o, mint_token)
              (λ q. objection_in_depth now h a.token_class a.based_on (o ∙ ap some q))
      ]
    ]
