-- ===== src/TokenEndpoint/AccessToken/Code.antt =====
-- A code with one use, and what minting from it does to it.
use idpy_oidc.Base.{
  ℕ, ◌<◌, ◌≡◌, refl, sym, ap, ◌∙◌, inl, inr, false, Option, none, some, List, [], ◌∷◌, ◌++◌, String,
  ◌==◌, arith, eqb, Bool-cases, is_nonzero, In, In-append_one,
}
use mathlib.Core.Path.{subst}
use idpy_oidc.Dict
use idpy_oidc.Session.Token.{SessionToken, set_expires_at}
use idpy_oidc.Session.Grant.{Heap, Grant, alloc, write, get_token, token_with_value}
use idpy_oidc.Session.Grant.Mint.{
  MintArgs, Minted, minted, inactive_grant, not_supported, token_inactive, cannot_mint, scope_depth,
  type_error, use_once, add_issued,
}
use idpy_oidc.Session.Grant.Mint.Effect.{Ends, refuses, mints, mint_token-Ends}
use idpy_oidc.TokenEndpoint.{
  Endpoint, Fresh, TokenArgs, expire, expires_in, mint_args, end_mint, mint,
}

-- A write that keeps a token's text finds the same tokens.
token_with_value-write :
    (h : Heap) (q : ℕ) (t : SessionToken) (ts : List ℕ) (v : String)
    → t.value ≡ (h.at q).value
    → token_with_value (write h q t) ts v ≡ token_with_value h ts v
unfolding token_with_value
token_with_value-write h q t [] v e = refl
token_with_value-write h q t (u ∷ us) v e = elim (Bool-cases (eqb q u)) [
  | inl y ↦
      let same : q ≡ u = ground (arith, y) in
      let held : t.value ≡ (h.at u).value = e ∙ ap (λ x. (h.at x).value) same in
      rw (y, held, token_with_value-write h q t us v e) refl
  | inr n ↦ rw (n, token_with_value-write h q t us v e) refl
]

-- A new token is not found by an older one's text.
token_with_value-issued :
    (h : Heap) (t : SessionToken) (ts : List ℕ) (v : String) (p : ℕ)
    → ((u : ℕ) → In u ts → u < h.next)
    → token_with_value h ts v ≡ some p
    → token_with_value (alloc h t) (ts ++ h.next ∷ []) v ≡ some p
unfolding token_with_value
token_with_value-issued h t [] v p b e = absurd (ground arith)
token_with_value-issued h t (u ∷ us) v p b e =
    let old : eqb h.next u ≡ false = ground (arith, b u (inl refl)) in
    elim (Bool-cases ((h.at u).value == v)) [
      | inl y ↦ rw (old, y) (rw y at e)
      | inr n ↦ rw (old, n) (token_with_value-issued h t us v p (λ x i. b x (inr i)) (rw n at e))
    ]

module _ (p : ℕ) (c : String) where
  -- The token `p` exists, may be used once, and is the one that the text `c` names in the grant.
  pub record IsSingle (h : Heap) (g : Grant) : Type 0 where
    pub exists : p < h.next
    pub limit : (h.at p).usage_rules.max_usage ≡ some 1
    pub found : get_token h g c ≡ some p
    pub bounded : (u : ℕ) → In u g.issued_token → u < h.next

  limit_kept :
      (h : Heap) (q : ℕ) (t : SessionToken)
      → t.usage_rules.max_usage ≡ (h.at q).usage_rules.max_usage
      → (h.at p).usage_rules.max_usage ≡ some 1
      → ((write h q t).at p).usage_rules.max_usage ≡ some 1
  limit_kept h q t e l = elim (Bool-cases (eqb q p)) [
    | inl y ↦
        let same : q ≡ p = ground arith in
        let held : (h.at q).usage_rules.max_usage ≡ some 1 = rw same l in ground (arith, e, held)
    | inr n ↦ ground (arith, l)
  ]

  pub write_kept :
      (h : Heap) (g : Grant) (q : ℕ) (t : SessionToken)
      → t.usage_rules.max_usage ≡ (h.at q).usage_rules.max_usage
      → t.value ≡ (h.at q).value
      → IsSingle h g
      → IsSingle (write h q t) g
  unfolding get_token
  write_kept h g q t e f s = record {
    exists = s.exists;
    limit = limit_kept h q t e s.limit;
    found = token_with_value-write h q t g.issued_token c f ∙ s.found;
    bounded = s.bounded;
  }

  alloc_kept :
      (h : Heap) (g : Grant) (t : SessionToken)
      → IsSingle h g
      → IsSingle (alloc h t) (add_issued g h.next)
  unfolding get_token
  alloc_kept h g t s = record {
    exists = omega (arith, s.exists);
    limit = ground (arith, s.exists, s.limit);
    found = token_with_value-issued h t g.issued_token c p s.bounded s.found;
    bounded = λ u i. elim (In-append_one u h.next g.issued_token i) [
      | inl j ↦ omega (arith, s.bounded u j)
      | inr e ↦ omega (arith, e)
    ];
  }

  use_once_kept :
      (h : Heap) (g : Grant) (t : SessionToken) (o : Option ℕ)
      → IsSingle h g
      → IsSingle (use_once (alloc h t) o) (add_issued g h.next)
  use_once_kept h g t none s = alloc_kept h g t s
  use_once_kept h g t (some q) s =
      write_kept (alloc h t) (add_issued g h.next) q _ refl refl (alloc_kept h g t s)

  expire_kept :
      (now t : ℕ) (o : Option ℕ) (h : Heap) (g : Grant)
      → IsSingle h g
      → IsSingle (expire now o t h) g
  unfolding set_expires_at
  expire_kept now t none h g s = s
  expire_kept now t (some n) h g s = elim (Bool-cases (is_nonzero n)) [
    | inl y ↦ rw y (
        write_kept h g t (record (h.at t) { item = set_expires_at now n (h.at t).item }) refl refl
          s)
    | inr z ↦ rw z s
  ]

  end_mint_kept :
      (now : ℕ) (h : Heap) (g : Grant) (a : MintArgs) (exp : Option ℕ) {r : Minted × Heap × Grant}
      → IsSingle h g
      → Ends now h g a r
      → IsSingle (end_mint now exp r).1 (end_mint now exp r).2
  end_mint_kept now h g a exp s (refuses not_supported x) = s
  end_mint_kept now h g a exp s (refuses token_inactive x) = s
  end_mint_kept now h g a exp s (refuses inactive_grant x) = s
  end_mint_kept now h g a exp s (refuses cannot_mint x) = s
  end_mint_kept now h g a exp s (refuses scope_depth x) = s
  end_mint_kept now h g a exp s (refuses type_error x) = s
  end_mint_kept now h g a exp s (refuses (minted t) x) = absurd x
  end_mint_kept now h g a exp s (mints x) =
      subst (λ (q : Minted × Heap × Grant). IsSingle (end_mint now exp q).1 (end_mint now exp q).2)
        (sym x.outcome)
        (expire_kept now h.next exp (use_once (alloc h x.token) a.based_on) (add_issued g h.next)
          (use_once_kept h g x.token a.based_on s))

  -- `_mint_token` keeps the code, as what it is.
  pub mint_kept :
      (e : Endpoint) (now : ℕ) (fresh : Fresh) (cid sid cls : String) (o : Option ℕ)
      (sc : Option (List String)) (args : TokenArgs) (ty : String) (h : Heap) (g : Grant)
      → IsSingle h g
      → IsSingle
          (mint e now fresh cid sid cls o sc args ty h g).1
          (mint e now fresh cid sid cls o sc args ty h g).2
  unfolding mint
  mint_kept e now fresh cid sid cls o sc args ty h g s =
      let a = mint_args e cid sid cls g o sc args ty in
      end_mint_kept now h g a (expires_in e cls (Dict.get g.class_rules cls)) s
        (mint_token-Ends now h g a fresh.id fresh.jti e.context (e.token_handler cls))
