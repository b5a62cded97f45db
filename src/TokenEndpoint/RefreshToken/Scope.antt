-- ===== src/TokenEndpoint/RefreshToken/Scope.antt =====
-- The scope of a refresh, and what becomes of the refresh token.
use idpy_oidc.Base.{
  ℕ, ◌≡◌, refl, sym, ap, ◌∙◌, ◌⊎◌, inl, inr, Bool, true, false, ◌&&◌, Option, none, some, List,
  String, ◌==◌, arith, In, contains-In, Bool-cases, Option-cases,
}
use idpy_oidc.Scopes.{subset}
use idpy_oidc.Scopes.Filter.{subset-In}
use idpy_oidc.Session.Token.{is_active, register_usage}
use idpy_oidc.Session.Grant.{Heap, Grant, get_token}
use idpy_oidc.Session.Grant.Scope.{find_scope}
use idpy_oidc.TokenEndpoint.{
  Endpoint, Fresh, mint, no_args, Made, made, minting_not_allowed, raised,
}
use idpy_oidc.TokenEndpoint.AccessToken.{
  Response, Reply, error, failed, response, Session, is_bound,
}
use idpy_oidc.TokenEndpoint.RefreshToken.{
  RefreshRequest, accepted, scope_below, is_refresh_token, check_scope, check_token,
  post_parse_request, close, lists, set_rules, end_refresh, refresh_part, end_access, with_scope,
  bind_jkt, asked_or_found, process_request,
}

module _ (p : ℕ) (revoke : Bool) (scope : List String) where
  -- A response has this scope, and `p` is then inactive at all times where it is to be revoked.
  abbrev pub Gives : Reply × Heap × Grant → Type 0
  Gives (response r, h, g) =
      (r.scope ≡ scope) × (revoke ≡ true → (later : ℕ) → is_active later (h.at p).item ≡ false)
  Gives (error x d, h, g) = Unit
  Gives (failed x, h, g) = Unit

  close_lem :
      (h : Heap)
      → revoke ≡ true
      → (later : ℕ) → is_active later ((close revoke h p).at p).item ≡ false
  unfolding is_active register_usage
  close_lem h e later = rw e (ground arith)

  end_refresh-Gives :
      (resp : Response) (r : Made × Heap × Grant)
      → resp.scope ≡ scope
      → Gives (end_refresh revoke p resp r)
  end_refresh-Gives resp (made t, h, g) e = (e, close_lem (set_rules h t p))
  end_refresh-Gives resp (minting_not_allowed, h, g) e = tt
  end_refresh-Gives resp (raised x, h, g) e = tt

  module _ (e : Endpoint) (now : ℕ) (access refresh : Fresh) (session : Session)
      (issue : Bool) where
    refresh_part-Gives :
        (mints : Option Bool) (resp : Response) (h : Heap) (g : Grant)
        → resp.scope ≡ scope
        → Gives (refresh_part e now access refresh session p issue revoke scope mints resp h g)
    refresh_part-Gives none resp h g q = tt
    refresh_part-Gives (some m) resp h g q = elim (Bool-cases (m && issue)) [
      | inl t ↦ rw t (end_refresh-Gives resp _ q)
      | inr f ↦ rw f (q, close_lem h)
    ]

    end_access-Gives :
        (r : Made × Heap × Grant)
        → Gives (end_access e now access refresh session p issue revoke scope r)
    end_access-Gives (made t, h, g) =
        refresh_part-Gives (lists (h.at p).usage_rules.supports_minting) _ h g refl
    end_access-Gives (minting_not_allowed, h, g) = tt
    end_access-Gives (raised x, h, g) = tt

    with_scope-Gives :
        (token_type : String) (o : Option (List String)) (h : Heap) (g : Grant)
        → o ≡ some scope
        → Gives (with_scope e now access refresh session p issue revoke token_type o h g)
    with_scope-Gives token_type o h g q = rw q (
        end_access-Gives (
          mint e now access session.client_id session.branch_id "access_token" (some p) (some scope)
            no_args token_type h g))

check_scope_lem :
    (req r : RefreshRequest) (l : List String) (o : Option (List String))
    → check_scope req (some l) o ≡ accepted r
    → (scopes : List String) × (o ≡ some scopes) × (subset l scopes ≡ true) × (r ≡ req)
check_scope_lem req r l none h = absurd (ground arith)
check_scope_lem req r l (some scopes) h = elim (Bool-cases (subset l scopes)) [
  | inl t ↦ let same : accepted req ≡ accepted r = rw t at h in (scopes, refl, t, cc)
  | inr f ↦ absurd (ground (arith, f, h))
]

check_token_lem :
    (now p : ℕ) (h : Heap) (g : Grant) (req r : RefreshRequest)
    → check_token now h g req (some p) ≡ accepted r
    → check_scope req req.scope (scope_below h g (h.at p).based_on) ≡ accepted r
check_token_lem now p h g req r e = elim (Bool-cases (is_refresh_token (h.at p).cls)) [
  | inr f ↦ absurd (ground (arith, rw f at e))
  | inl t ↦ elim (Bool-cases (is_active now (h.at p).item)) [
    | inr f ↦ absurd (ground (arith, rw (t, f) at e))
    | inl a ↦ rw (t, a) at e
  ]
]

found_bound :
    (dpop : Bool) (req : RefreshRequest) (h : Heap) (g : Grant) (v : String)
    → get_token h (bind_jkt dpop req g) v ≡ get_token h g v
unfolding get_token
found_bound dpop req h g v = elim (Bool-cases (is_bound dpop req.dpop_jkt)) [
  | inl y ↦ rw y refl
  | inr n ↦ rw n refl
]

asked_lem :
    (l : List String) (asked o : Option (List String))
    → asked ≡ some l
    → (asked_or_found asked o ≡ none) ⊎ (asked_or_found asked o ≡ some l)
asked_lem l none o e = absurd (ground arith)
asked_lem l (some l') none e = inl refl
asked_lem l (some l') (some f) e = inr e

module _ (p : ℕ) (revoke : Bool) (l : List String) (e : Endpoint) (now : ℕ) (access refresh : Fresh)
    (session : Session) (dpop issue : Bool) (h : Heap) (g : Grant) where
  process_request-Gives :
      (req : RefreshRequest)
      → get_token h g req.refresh_token ≡ some p
      → req.scope ≡ some l
      → Gives p revoke l (process_request e now access refresh session dpop issue revoke req h g)
  unfolding process_request
  process_request-Gives req found asked = elim (Bool-cases (req.grant_type == "refresh_token")) [
    | inr f ↦ rw (f, process_request) tt
    | inl t ↦ elim (Option-cases req.client_id) [
      | inl f ↦ rw (t, f, process_request) tt
      | inr (cid, f) ↦ elim (Bool-cases (session.client_id == cid)) [
        | inr n ↦ rw (t, f, n, process_request) tt
        | inl y ↦
            rw (t, f, y, found_bound dpop req h g req.refresh_token, found, process_request)
              (elim (asked_lem l req.scope (find_scope h.next h (bind_jkt dpop req g) (some p))
                asked) [
                  | inl q ↦ rw q tt
                  | inr q ↦
                      with_scope-Gives p revoke l e now access refresh session issue _ _ h
                        (bind_jkt dpop req g) q
                ])
      ]
    ]
  ]

  -- A refresh with scopes of its own choice: once `post_parse_request` has let it through, a response
  -- has exactly these scopes, all of them among those that the token's own parent stands for; and
  -- where tokens are revoked on issue, the refresh token is then inactive at all times.
  pub refresh_narrows :
      (req r : RefreshRequest)
      → post_parse_request now (some g) req h ≡ accepted r
      → get_token h g req.refresh_token ≡ some p
      → req.scope ≡ some l
      → (scopes : List String) × (scope_below h g (h.at p).based_on ≡ some scopes)
        × ((s : String) → In s l → In s scopes)
        × Gives p revoke l (process_request e now access refresh session dpop issue revoke r h g)
  unfolding post_parse_request
  refresh_narrows req r parsed found asked =
      let checked = check_token_lem now p h g req r (rw found at parsed) in
      let (scopes, q, sub, same) =
        check_scope_lem req r l (scope_below h g (h.at p).based_on)
          (ap (λ o. check_scope req o (scope_below h g (h.at p).based_on)) (sym asked) ∙ checked) in
      (
        scopes,
        q,
        λ s m. contains-In s scopes (subset-In l scopes sub s m),
        rw same (process_request-Gives req found asked),
      )
