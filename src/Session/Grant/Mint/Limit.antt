-- ===== src/Session/Grant/Mint/Limit.antt =====
-- How many tokens can be minted from one token, over any sequence of calls.
use idpy_oidc.Base.{
  ℕ, ◌+◌, ◌≤◌, ◌<◌, ◌≡◌, refl, sym, inl, inr, true, Option, none, some, List, [], ◌∷◌, String,
  arith, eqb, Bool-cases, if◌then◌else◌,
}
use mathlib.Core.Path.{subst}
use idpy_oidc.Session.Token.{SessionToken, is_active}
use idpy_oidc.Session.Grant.{Heap, Grant, alloc}
use idpy_oidc.Session.Grant.Mint.{
  MintArgs, Minted, minted, inactive_grant, not_supported, token_inactive, cannot_mint, type_error,
  scope_depth, use_once, add_issued, mint_token,
}
use idpy_oidc.Session.Grant.Payload.{Context}
use idpy_oidc.Session.Grant.Mint.Effect.{
  Handler, MayMint, IsRefusal, Ends, refuses, mints, mint_token-Ends,
}

-- One call, with the time and the fresh identifiers that it reads.
pub record Request : Type 0 where
  pub now : ℕ
  pub id : String
  pub jti : String
  pub context : Context
  pub handler : Handler
  pub args : MintArgs

abbrev pub serve : Request → Heap → Grant → Minted × Heap × Grant
serve r h g = mint_token r.now r.id r.jti r.context r.handler r.args h g

-- 1 for a call that minted a token from `p`.
abbrev pub minted_from : ℕ → Option ℕ → Minted → ℕ
minted_from p (some q) (minted t) = if eqb p q then 1 else 0
minted_from p _ _ = 0

-- The number of tokens that a sequence of calls mints from `p`.
unfoldable pub total_from : ℕ → List Request → Heap → Grant → ℕ
total_from p [] h g = 0
total_from p (r ∷ rs) h g =
    let (m, h', g') = serve r h g in minted_from p r.args.based_on m + total_from p rs h' g'

module _ (p m : ℕ) where
  -- The token `p` exists, may be used `m` times, and has not been used more often.
  pub record IsLimited (h : Heap) : Type 0 where
    pub exists : p < h.next
    pub limit : (h.at p).usage_rules.max_usage ≡ some m
    pub within : (h.at p).used ≤ m

  refused_none : (o : Option ℕ) (e : Minted) → IsRefusal e → minted_from p o e ≡ 0
  refused_none none e x = refl
  refused_none (some q) (minted t) x = absurd x
  refused_none (some q) inactive_grant x = refl
  refused_none (some q) not_supported x = refl
  refused_none (some q) token_inactive x = refl
  refused_none (some q) cannot_mint x = refl
  refused_none (some q) scope_depth x = refl
  refused_none (some q) type_error x = refl

  active_lt :
      (now : ℕ) (h : Heap) → IsLimited h → is_active now (h.at p).item ≡ true → (h.at p).used < m
  unfolding is_active
  active_lt now h l e = ground arith

  abbrev Step : Minted × Heap × Grant → Heap → Option ℕ → Type 0
  Step (e, h', g') h o = IsLimited h' × ((h'.at p).used ≡ minted_from p o e + (h.at p).used)

  use_once_lem :
      (now n : ℕ) (h : Heap) (c : String) (t : SessionToken) (o : Option ℕ) (g : Grant)
      → IsLimited h
      → MayMint now h c o
      → Step (minted n, use_once (alloc h t) o, g) h o
  use_once_lem now n h c t none g l a = ground arith
  use_once_lem now n h c t (some q) g l a = elim (Bool-cases (eqb q p)) [
    | inl e ↦ let same : q ≡ p = ground arith in ground (arith, active_lt now h l (rw same at a.1))
    | inr e ↦ ground arith
  ]

  step_lem :
      (now : ℕ) (h : Heap) (g : Grant) (a : MintArgs) {r : Minted × Heap × Grant}
      → IsLimited h
      → Ends now h g a r
      → Step r h a.based_on
  step_lem now h g a l (refuses e x) = (l, omega (arith, refused_none a.based_on e x))
  step_lem now h g a l (mints x) =
      subst (λ r. Step r h a.based_on) (sym x.outcome)
        (use_once_lem now h.next h a.token_class x.token a.based_on (add_issued g h.next) l
          x.allowed)

  -- A token that may be used a number of times: however many calls are made, at whatever times
  -- and for whatever classes of tokens, no more tokens are minted from it than the uses it has
  -- left.
  pub total_from-le :
      (rs : List Request) (h : Heap) (g : Grant)
      → IsLimited h
      → total_from p rs h g + (h.at p).used ≤ m
  unfolding total_from
  total_from-le [] h g l = omega (arith, l.within)
  total_from-le (r ∷ rs) h g l =
      let (l', e) =
        step_lem r.now h g r.args l
          (mint_token-Ends r.now h g r.args r.id r.jti r.context r.handler) in
      omega (arith, e, total_from-le rs (serve r h g).1 (serve r h g).2 l')
