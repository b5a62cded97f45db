-- ===== src/Session/Grant/Mint/Effect.antt =====
-- What `mint_token` does to the grant and to the tokens, by how it ends.
use idpy_oidc.Base.{
  ℕ, ◌≡◌, refl, sym, inl, inr, true, false, Option, none, some, String, arith, Bool-cases,
  Option-cases,
}
use idpy_oidc.Dict.{Dict}
use idpy_oidc.Session.Token.{
  SessionToken, UsageRules, is_active, supports_minting, token_map, init_token,
}
use idpy_oidc.Session.Claims.{Value}
use idpy_oidc.Session.Grant.{Heap, Grant, alloc}
use idpy_oidc.Session.Grant.Mint.{
  ref_of, use_once, add_issued, scope_for, objection, MintArgs, Minted, minted, inactive_grant,
  not_supported, token_inactive, cannot_mint, type_error, scope_depth, refuses_args, issue,
  mint_token,
}
use idpy_oidc.Session.Grant.Payload.{Context}

abbrev pub Handler : Type 0
Handler = String → Option UsageRules → Dict Value → String

-- What a token must be for another to be minted from it.
abbrev pub MayMint : ℕ → Heap → String → Option ℕ → Type 0
MayMint now h c none = Unit
MayMint now h c (some p) =
    (supports_minting (h.at p) c ≡ true) × (is_active now (h.at p).item ≡ true)

-- An outcome that is no token.
abbrev pub IsRefusal : Minted → Type 0
IsRefusal (minted t) = ⊥
IsRefusal inactive_grant = Unit
IsRefusal not_supported = Unit
IsRefusal token_inactive = Unit
IsRefusal cannot_mint = Unit
IsRefusal type_error = Unit
IsRefusal scope_depth = Unit

module _ (now : ℕ) (h : Heap) (g : Grant) (a : MintArgs) where
  -- A call that mints: the grant is active and may mint this class from the token that is given, and
  -- the new token, at the next address, has the class, the parent and the scope that were asked for.
  pub record Mints (r : Minted × Heap × Grant) : Type 0 where
    pub active : is_active now g.item ≡ true
    pub allowed : MayMint now h a.token_class a.based_on
    pub token : SessionToken
    pub outcome : r ≡ (minted h.next, use_once (alloc h token) a.based_on, add_issued g h.next)
    pub token_class : token.token_class ≡ a.token_class
    pub based_on : token.based_on ≡ ref_of h a.based_on
    pub scope : some token.scope ≡ scope_for h g a
    pub unused : token.used ≡ 0
    pub unrevoked : token.revoked ≡ false

  pub data Ends : Minted × Heap × Grant → Type 0 where
    refuses : (e : Minted) → IsRefusal e → Ends (e, h, g)
    mints : {r : Minted × Heap × Grant} → Mints r → Ends r

  objection-none : (c : String) (p : Option ℕ) → objection now h c p ≡ none → MayMint now h c p
  objection-none c none e = tt
  objection-none c (some p) e = ground arith

  objection-IsRefusal :
      (c : String) (p : Option ℕ) (e : Minted) → objection now h c p ≡ some e → IsRefusal e
  objection-IsRefusal c (some p) not_supported q = tt
  objection-IsRefusal c (some p) token_inactive q = tt
  objection-IsRefusal c (some p) e q = ground arith
  objection-IsRefusal c none e q = ground arith

  module _ (id jti : String) (ctx : Context) (handler : Handler) where
    issue-Ends :
        is_active now g.item ≡ true
        → MayMint now h a.token_class a.based_on
        → Ends (issue now id jti ctx handler a h g)
    unfolding issue init_token
    issue-Ends active allowed = elim (Option-cases (token_map a.token_class)) [
      | inl e ↦ rw (e, issue) (refuses cannot_mint tt)
      | inr (cls, e) ↦ elim (Option-cases (scope_for h g a)) [
        | inl e' ↦ rw (e, e', issue) (refuses scope_depth tt)
        | inr (scope, e') ↦ elim (Bool-cases (refuses_args a)) [
          | inl x ↦ rw (e, e', x, issue) (refuses type_error tt)
          | inr x ↦
              rw (e, e', x, issue)
                (mints (record {
                  active = active;
                  allowed = allowed;
                  token = _;
                  outcome = refl;
                  token_class = refl;
                  based_on = refl;
                  scope = sym e';
                  unused = refl;
                  unrevoked = refl;
                }))
        ]
      ]
    ]

    -- Every call is refused, and changes nothing, or mints: then the grant is active, the
    -- token that the new one is based on, if any, is active and supports the class, and the
    -- new token, which is unused and not revoked, has the class, the parent and the scope
    -- that were asked for.
    pub mint_token-Ends : Ends (mint_token now id jti ctx handler a h g)
    unfolding mint_token
    mint_token-Ends = elim (Bool-cases (is_active now g.item)) [
      | inr e ↦ rw e (refuses inactive_grant tt)
      | inl e ↦ elim (Option-cases (objection now h a.token_class a.based_on)) [
        | inl o ↦ rw (e, o, mint_token) (issue-Ends e (objection-none a.token_class a.based_on o))
        | inr (x, o) ↦
            rw (e, o, mint_token) (refuses x (objection-IsRefusal a.token_class a.based_on x o))
      ]
    ]
