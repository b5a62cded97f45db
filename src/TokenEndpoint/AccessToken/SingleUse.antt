-- ===== src/TokenEndpoint/AccessToken/SingleUse.antt =====
-- What a request for an access token does to the code.
use idpy_oidc.Base.{
  ℕ, ◌≡◌, refl, inl, inr, Bool, true, false, Option, none, some, List, String, ◌==◌, arith,
  Bool-cases, Option-cases, ap, ◌∙◌,
}
use mathlib.Core.Path.{subst}
use idpy_oidc.Session.Token.{is_active, register_usage}
use idpy_oidc.Session.Grant.{Heap, Grant, AuthorizationRequest, get_token}
use idpy_oidc.TokenEndpoint.{Endpoint, Fresh, Made, made, minting_not_allowed, raised}
use idpy_oidc.TokenEndpoint.AccessToken.{
  Response, Reply, error, failed, response, Session, use_code, end_refresh, end_access,
  redirect_reply, refresh_part, access_part, answer, apply_policy, is_bound, bind_jkt, granted,
  process_request,
}
use idpy_oidc.TokenEndpoint.AccessToken.Code.{IsSingle, write_kept, mint_kept}
use idpy_oidc.TokenEndpoint.Request.{
  AccessTokenRequest, Parsed, rejected, crashed, request, with_plus, parse_code, parse_text,
  is_authorization_code, post_parse_request,
}

-- A binding to a DPoP key leaves the grant's tokens.
bind_jkt-IsSingle :
    (p : ℕ) (c : String) (dpop : Bool) (req : AccessTokenRequest) (h : Heap) (g : Grant)
    → IsSingle p c h g
    → IsSingle p c h (bind_jkt dpop req g)
unfolding get_token
bind_jkt-IsSingle p c dpop req h g s = elim (Bool-cases (is_bound dpop req.dpop_jkt)) [
  | inl y ↦
      rw y (record { exists = s.exists; limit = s.limit; found = s.found; bounded = s.bounded })
  | inr n ↦ rw n s
]

module _ (p : ℕ) (c : String) where
  -- The text still names the token `p`, which is not active at any time.
  pub record IsSpent (h : Heap) (g : Grant) : Type 0 where
    pub found : get_token h g c ≡ some p
    pub inactive : (later : ℕ) → is_active later (h.at p).item ≡ false

  -- A response spends the code `p`; an error message leaves every token as it was.
  abbrev pub Settles : Heap → Reply × Heap × Grant → Type 0
  Settles h (response r, h', g) = IsSpent h' g
  Settles h (error x d, h', g) = h' ≡ h
  Settles h (failed x, h', g) = Unit

  reply_Settles :
      (q : Option AuthorizationRequest) (req : AccessTokenRequest) (r : Reply) (h : Heap)
      (g : Grant)
      → redirect_reply q req ≡ some r
      → Settles h (r, h, g)
  reply_Settles q req (error x d) h g e = refl
  reply_Settles q req (failed x) h g e = tt
  reply_Settles none req (response x) h g e = absurd (ground arith)
  reply_Settles (some q) req (response x) h g e = absurd (ground arith)

  inactive_lem :
      (later : ℕ) (h : Heap)
      → (h.at p).usage_rules.max_usage ≡ some 1
      → is_active later ((use_code h p).at p).item ≡ false
  unfolding is_active register_usage
  inactive_lem later h l = ground (arith, l)

  spent : (h : Heap) (g : Grant) → IsSingle p c h g → IsSpent (use_code h p) g
  unfolding register_usage
  spent h g s = record {
    found = (write_kept p c h g p (register_usage (h.at p)) refl refl s).found;
    inactive = λ later. inactive_lem later h s.limit;
  }

  end_refresh-Settles :
      (h0 : Heap) (resp : Response) (r : Made × Heap × Grant)
      → IsSingle p c r.1 r.2
      → Settles h0 (end_refresh p resp r)
  end_refresh-Settles h0 resp (made t, h, g) s = spent h g s
  end_refresh-Settles h0 resp (minting_not_allowed, h, g) s = spent h g s
  end_refresh-Settles h0 resp (raised x, h, g) s = tt

  module _ (e : Endpoint) (now : ℕ) (access refresh : Fresh) (session : Session) where
    refresh_part-Settles :
        (h0 : Heap) (wants : Bool) (token : Option ℕ) (resp : Response) (h : Heap) (g : Grant)
        → IsSingle p c h g
        → Settles h0 (refresh_part e now access refresh session p wants token resp h g)
    unfolding refresh_part
    refresh_part-Settles h0 false token resp h g s = spent h g s
    refresh_part-Settles h0 true none resp h g s = tt
    refresh_part-Settles h0 true (some t) resp h g s =
        end_refresh-Settles h0 resp _
          (mint_kept p c e now refresh _ _ _ _ _ _ _ _ _ (write_kept p c h g p _ refl refl s))

    end_access-Settles :
        (h0 : Heap) (wants : Bool) (resp : Response) (r : Made × Heap × Grant)
        → IsSingle p c r.1 r.2
        → Settles h0 (end_access (refresh_part e now access refresh session p wants) now resp r)
    end_access-Settles h0 wants resp (made t, h, g) s =
        refresh_part-Settles h0 wants (some t) _ h g s
    end_access-Settles h0 wants resp (minting_not_allowed, h, g) s =
        refresh_part-Settles h0 wants none resp h g s
    end_access-Settles h0 wants resp (raised x, h, g) s = tt

    access_part-Settles :
        (h0 : Heap) (supported wants : Bool) (resources : List String) (resp : Response) (h : Heap)
        (g : Grant)
        → IsSingle p c h g
        → Settles h0 (access_part e now access refresh session p supported wants resources resp h g)
    unfolding access_part
    access_part-Settles h0 false wants resources resp h g s =
        refresh_part-Settles h0 wants none resp h g s
    access_part-Settles h0 true wants resources resp h g s =
        end_access-Settles h0 wants resp _ (mint_kept p c e now access _ _ _ _ _ _ _ _ _ s)

    granted-Settles :
        (policy : Option (AccessTokenRequest → Parsed)) (dpop wanted : Bool)
        (req : AccessTokenRequest) (h : Heap) (g : Grant)
        → IsSingle p c h g
        → Settles h (granted e now access refresh session policy dpop wanted c req h g)
    unfolding granted answer
    granted-Settles policy dpop wanted req h g s =
        let s' = bind_jkt-IsSingle p c dpop req h g s in
        rw (s'.found, granted)
          (elim (Option-cases (redirect_reply (bind_jkt dpop req g).authorization_request req)) [
            | inr (r, e') ↦ rw (e', granted) (reply_Settles _ req r h (bind_jkt dpop req g) e')
            | inl e' ↦ rw (e', granted) (access_part-Settles h _ _ _ _ h (bind_jkt dpop req g) s')
          ])

    -- A request for a token for a code with one use, which its text names in the grant: a response
    -- spends the code, which is then inactive at all times and still found by its text; an error
    -- message leaves every token as it was.
    pub process_request-Settles :
        (policy : Option (AccessTokenRequest → Parsed)) (dpop wanted : Bool) (code : String)
        (req : AccessTokenRequest) (h : Heap) (g : Grant)
        → req.code ≡ some code
        → with_plus code ≡ c
        → IsSingle p c h g
        → Settles h (process_request e now access refresh session policy dpop wanted req h g)
    unfolding process_request
    process_request-Settles policy dpop wanted code req h g given plus s =
        elim (Bool-cases (req.grant_type == "authorization_code")) [
          | inr f ↦ rw (f, process_request) refl
          | inl t ↦ elim (Option-cases req.client_id) [
            | inl f ↦ rw (t, given, f, process_request) tt
            | inr (cid, f) ↦ elim (Bool-cases (session.client_id == cid)) [
              | inr n ↦ rw (t, given, f, n, process_request) refl
              | inl y ↦ rw (t, given, f, y, process_request) (checked (apply_policy policy req))
            ]
          ]
        ]
      where
        checked :
            (o : Parsed)
            → Settles h (elim o [
              | rejected x d ↦ (error x d, h, g)
              | crashed x ↦ (failed x, h, g)
              | request r ↦
                  granted e now access refresh session policy dpop wanted (with_plus code) r h g
            ])
        checked (rejected x d) = refl
        checked (crashed x) = tt
        checked (request r) = rw plus (granted-Settles policy dpop wanted r h g s)

-- A token that is not active is not let through.
parse_code-rejects :
    (now p : ℕ) (req : AccessTokenRequest) (h : Heap) (g : Grant)
    → is_active now (h.at p).item ≡ false
    → (x : String) × (d : String) × (parse_code now req h g (some p) ≡ rejected x d)
parse_code-rejects now p req h g e = elim (Bool-cases (is_authorization_code (h.at p).cls)) [
  | inl y ↦ ("invalid_request", "Code inactive", rw (y, e) refl)
  | inr n ↦ ("invalid_request", "Wrong token type", rw n refl)
]

parse-eq_code :
    (now p : ℕ) (c : String) (req : AccessTokenRequest) (h : Heap) (g : Grant)
    → req.code ≡ some c
    → get_token h g c ≡ some p
    → post_parse_request now (some g) req h ≡ parse_code now req h g (some p)
unfolding post_parse_request
parse-eq_code now p c req h g e f =
    ap (parse_text now req h (some g)) e ∙ ap (parse_code now req h g) f

-- A code with one use, which its text names in the grant: after a response to a request with it,
-- no request with the code, at whatever time, gets past `post_parse_request`. Spaces in the code of
-- the first request are read as plus signs.
pub process_request_once :
    (p : ℕ) (c : String) (e : Endpoint) (now later : ℕ) (access refresh : Fresh) (session : Session)
    (policy : Option (AccessTokenRequest → Parsed)) (dpop wanted : Bool) (code : String)
    (req again : AccessTokenRequest) (h h' : Heap) (g g' : Grant) (r : Response)
    → req.code ≡ some code
    → with_plus code ≡ c
    → again.code ≡ some c
    → IsSingle p c h g
    → process_request e now access refresh session policy dpop wanted req h g ≡ (response r, h', g')
    → (x : String) × (d : String) × (post_parse_request later (some g') again h' ≡ rejected x d)
process_request_once p c e now later access refresh session policy dpop wanted code req again h h' g
      g' r given plus same s out =
    let spent : IsSpent p c h' g' = subst (Settles p c h) out (
      process_request-Settles p c e now access refresh session policy dpop wanted code req h g given
        plus s) in
    let (x, d, q) = parse_code-rejects later p again h' g' (spent.inactive later) in
    (x, d, parse-eq_code later p c again h' g' same spent.found ∙ q)
