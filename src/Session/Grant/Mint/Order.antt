-- ===== src/Session/Grant/Mint/Order.antt =====
-- `mint_token` and the order that revocation rests on.
use idpy_oidc.Base.{
  ℕ, suc, ◌<◌, ◌≡◌, ◌≢◌, refl, sym, inl, inr, true, Option, none, some, [], ◌∷◌, ◌++◌, String,
  arith, In, In-append_one, is_nonempty,
}
use mathlib.Core.Path.{subst}
use idpy_oidc.Session.Token.{SessionToken}
use idpy_oidc.Session.Grant.{Heap, Grant, alloc}
use idpy_oidc.Session.Grant.Revoke.Depth.{IsOrdered}
use idpy_oidc.Session.Grant.Mint.{MintArgs, Minted, ref_of, use_once, add_issued, mint_token}
use idpy_oidc.Session.Grant.Payload.{Context}
use idpy_oidc.Session.Grant.Mint.Effect.{Handler, Ends, refuses, mints, mint_token-Ends}

-- The tokens of the grant have names, and each comes after the one that it is based on.
abbrev pub HasOrder : Heap → Grant → Type 0
HasOrder h g = IsOrdered (λ u. (h.at u).value) (λ u. (h.at u).based_on) g.issued_token h.next

-- A text that no token of the grant is based on, nor the token at `from`.
pub record IsFresh (h : Heap) (g : Grant) (from : Option ℕ) (v : String) : Type 0 where
  pub named : is_nonempty v ≡ true
  pub childless : (u : ℕ) → In u g.issued_token → (h.at u).based_on ≢ some v
  pub own : ref_of h from ≢ some v

module _ (h : Heap) (t : SessionToken) where
  pub value_kept :
      (o : Option ℕ) (u : ℕ) → u < h.next → ((use_once (alloc h t) o).at u).value ≡ (h.at u).value
  value_kept none u lt = ground arith
  value_kept (some p) u lt = ground arith

  parent_kept :
      (o : Option ℕ) (u : ℕ)
      → u < h.next
      → ((use_once (alloc h t) o).at u).based_on ≡ (h.at u).based_on
  parent_kept none u lt = ground arith
  parent_kept (some p) u lt = ground arith

  value_new : (o : Option ℕ) → ((use_once (alloc h t) o).at h.next).value ≡ t.value
  value_new none = ground arith
  value_new (some p) = ground arith

  pub parent_new : (o : Option ℕ) → ((use_once (alloc h t) o).at h.next).based_on ≡ t.based_on
  parent_new none = ground arith
  parent_new (some p) = ground arith

  next_new : (o : Option ℕ) → (use_once (alloc h t) o).next ≡ suc h.next
  next_new none = refl
  next_new (some p) = refl

  add_HasOrder :
      (g : Grant) (o : Option ℕ)
      → HasOrder h g
      → t.based_on ≡ ref_of h o
      → IsFresh h g o t.value
      → HasOrder (use_once (alloc h t) o) (add_issued g h.next)
  add_HasOrder g o ord based fresh = record { bounded = bounded; later = later; named = named }
    where
      bounded : (u : ℕ) → In u (g.issued_token ++ h.next ∷ []) → u < (use_once (alloc h t) o).next
      bounded u i = elim (In-append_one u h.next g.issued_token i) [
        | inl j ↦ omega (arith, next_new o, ord.bounded u j)
        | inr e ↦ omega (arith, next_new o)
      ]

      named :
          (u : ℕ)
          → In u (g.issued_token ++ h.next ∷ [])
          → is_nonempty ((use_once (alloc h t) o).at u).value ≡ true
      named u i = elim (In-append_one u h.next g.issued_token i) [
        | inl j ↦ rw (value_kept o u (ord.bounded u j)) (ord.named u j)
        | inr e ↦ rw (e, value_new o) fresh.named
      ]

      later :
          (p u : ℕ)
          → In p (g.issued_token ++ h.next ∷ [])
          → In u (g.issued_token ++ h.next ∷ [])
          → ((use_once (alloc h t) o).at u).based_on ≡ some ((use_once (alloc h t) o).at p).value
          → p < u
      later p u i j e = elim (In-append_one p h.next g.issued_token i) [
        | inl i' ↦ elim (In-append_one u h.next g.issued_token j) [
          | inl j' ↦
              ord.later p u i' j'
                (cc (value_kept o p (ord.bounded p i'), parent_kept o u (ord.bounded u j')))
          | inr f ↦ omega (arith, ord.bounded p i')
        ]
        | inr f ↦ elim (In-append_one u h.next g.issued_token j) [
          | inl j' ↦
              absurd (fresh.childless u j' (cc (value_new o, parent_kept o u (ord.bounded u j'))))
          | inr k ↦ absurd (fresh.own (cc (value_new o, parent_new o)))
        ]
      ]

module _ (now : ℕ) (h : Heap) (g : Grant) (a : MintArgs) where
  Ends-HasOrder :
      {r : Minted × Heap × Grant}
      → Ends now h g a r
      → HasOrder h g
      → IsFresh h g a.based_on (r.1.at h.next).value
      → HasOrder r.1 r.2
  Ends-HasOrder (refuses e x) ord fresh = ord
  Ends-HasOrder {r} (mints x) ord fresh =
      subst (λ (q : Minted × Heap × Grant). HasOrder q.1 q.2) (sym x.outcome)
        (add_HasOrder h x.token g a.based_on ord x.based_on
          (rw (x.outcome, value_new h x.token a.based_on) at fresh))

-- Where the handler's text for the new token is new, `mint_token` keeps the order of the tokens.
pub mint_token-HasOrder :
    (now : ℕ) (id jti : String) (ctx : Context) (handler : Handler) (a : MintArgs) (h : Heap)
    (g : Grant)
    → HasOrder h g
    → IsFresh h g a.based_on ((mint_token now id jti ctx handler a h g).1.at h.next).value
    → HasOrder
        (mint_token now id jti ctx handler a h g).1
        (mint_token now id jti ctx handler a h g).2
mint_token-HasOrder now id jti ctx handler a h g =
    Ends-HasOrder now h g a (mint_token-Ends now h g a id jti ctx handler)
