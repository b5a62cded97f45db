-- ===== src/Session/Grant/Mint/Family.antt =====
-- A token that `mint_token` makes goes when the token goes that it was made from.
use mathlib.Core.Path.{subst}
use idpy_oidc.Base.{
  ℕ, ◌<◌, ◌≡◌, refl, sym, ap, ◌∙◌, ◌⊎◌, inr, true, false, some, List, [], ◌∷◌, String, In,
  In-append_left, In-append_last,
}
use idpy_oidc.Session.Grant.{Heap, Grant}
use idpy_oidc.Session.Grant.Revoke.{State, Config, revoke_token}
use idpy_oidc.Session.Grant.Revoke.Descent.{is_revoked, child}
use idpy_oidc.Session.Grant.Revoke.Reach.{IsUnder, revoke_token_recursive}
use idpy_oidc.Session.Grant.Mint.{
  MintArgs, Minted, minted, inactive_grant, not_supported, token_inactive, cannot_mint, type_error,
  scope_depth, mint_token,
}
use idpy_oidc.Session.Grant.Mint.Effect.{
  Handler, IsRefusal, Mints, Ends, refuses, mints, mint_token-Ends,
}
use idpy_oidc.Session.Grant.Mint.Order.{
  HasOrder, IsFresh, value_kept, parent_new, mint_token-HasOrder,
}
use idpy_oidc.Session.Grant.Payload.{Context}

-- The tokens and the lists of a grant, for a call of `revoke_token`.
abbrev pub state_of : List ℕ → Heap → Grant → State
state_of removed h g = record { heap = h; issued = g.issued_token; remembered = removed }

minted_only : (r : Minted) {t : ℕ} → IsRefusal r → ¬ (r ≡ minted t)
minted_only (minted u) x e = x
minted_only inactive_grant x e = cc
minted_only not_supported x e = cc
minted_only token_inactive x e = cc
minted_only cannot_mint x e = cc
minted_only type_error x e = cc
minted_only scope_depth x e = cc

module _ (now : ℕ) (h : Heap) (g : Grant) (a : MintArgs) (p : ℕ) (from : a.based_on ≡ some p)
    (order : HasOrder h g) (own : In p g.issued_token) (removed : List ℕ) where
  Mints-IsUnder :
      {r : Minted × Heap × Grant}
      → Mints now h g a r
      → IsUnder (state_of removed r.1 r.2) (h.at p).value h.next
  Mints-IsUnder {r} x =
      subst
        (λ (q : Minted × Heap × Grant). IsUnder (state_of removed q.1 q.2) (h.at p).value h.next)
        (sym x.outcome)
        (
          p,
          In-append_left p g.issued_token (h.next ∷ []) own,
          value_kept h x.token a.based_on p (order.bounded p own),
          inr (
              child (In-append_last h.next g.issued_token)
                (parent_new h x.token a.based_on ∙ x.based_on ∙ rw from refl)),
        )

  Ends-IsUnder :
      {r : Minted × Heap × Grant} {t : ℕ}
      → Ends now h g a r
      → r.0 ≡ minted t
      → IsUnder (state_of removed r.1 r.2) (h.at p).value t
  Ends-IsUnder (refuses e x) q = absurd (minted_only e x q)
  Ends-IsUnder {r} (mints x) q =
      subst (IsUnder (state_of removed r.1 r.2) (h.at p).value)
        (minted_inj (sym (ap (λ (s : Minted × Heap × Grant). s.0) x.outcome) ∙ q)) (Mints-IsUnder x)
    where
      minted_inj : {t u : ℕ} → minted t ≡ minted u → t ≡ u
      minted_inj e = cc

-- A token that `mint_token` makes from one of the grant's tokens is revoked with it: a recursive `revoke_token` by
-- the value of the token that it was made from then returns, and the new token is revoked, and so are no
-- others than those that have that value or come under it. The grant keeps its revoked tokens, its tokens come
-- after those that they are based on and have values, the value of the new token is a new one, and the depth of
-- calls passes the number of addresses.
pub revoke_token-mint_token :
    (now : ℕ) (id jti : String) (ctx : Context) (handler : Handler) (a : MintArgs) (h h' : Heap)
    (g g' : Grant) (p t depth : ℕ) (c : Config) (removed : List ℕ)
    → HasOrder h g
    → In p g.issued_token
    → a.based_on ≡ some p
    → mint_token now id jti ctx handler a h g ≡ (minted t, h', g')
    → IsFresh h g a.based_on (h'.at h.next).value
    → c.remove_inactive_token ≡ false
    → h'.next < depth
    → (s' : State) × (revoke_token depth c (h.at p).value "" true (state_of removed h' g')
        ≡ some s')
      × (is_revoked s' t ≡ true)
      × ((u : ℕ)
          → is_revoked s' u ≡ true
          → (is_revoked (state_of removed h' g') u ≡ true)
            ⊎ IsUnder (state_of removed h' g') (h.at p).value u)
revoke_token-mint_token now id jti ctx handler a h h' g g' p t depth c removed order own from e
      fresh keeps lt =
    let (s', q, shape, reach) =
      revoke_token_recursive depth h'.next c (h.at p).value (state_of removed h' g') keeps order'
        (order.named p own) lt in
    (s', q, (reach t).1 (inr under), λ u. (reach u).0)
  where
    order' : HasOrder h' g'
    order' =
        subst (λ (r : Minted × Heap × Grant). HasOrder r.1 r.2) e
          (mint_token-HasOrder now id jti ctx handler a h g order (
            subst (λ (r : Minted × Heap × Grant). IsFresh h g a.based_on (r.1.at h.next).value)
              (sym e) fresh))

    under : IsUnder (state_of removed h' g') (h.at p).value t
    under =
        Ends-IsUnder now h g a p from order own removed
          (subst (Ends now h g a) e (mint_token-Ends now h g a id jti ctx handler)) refl
