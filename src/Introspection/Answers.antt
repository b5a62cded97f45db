-- ===== src/Introspection/Answers.antt =====
-- When the introspection endpoint answers for a token.
use idpy_oidc.Base.{
  ℕ, ◌≡◌, refl, inl, inr, ◌≤◌, arith, true, Bool-cases, Option, Option-cases, none, some, List, [],
  ◌∷◌, String, contains, is_nonempty, ok,
}
use idpy_oidc.Dict
use idpy_oidc.Dict.{Dict}
use idpy_oidc.Dict.Keys.{get-put_self}
use idpy_oidc.Session.Token.{SessionToken, is_active}
use idpy_oidc.Session.Claims.{Value, Claims}
use idpy_oidc.Session.Claims.Interface.{get_user_claims, matching}
use idpy_oidc.Session.Grant.{Heap, Grant, get_token}
use idpy_oidc.Session.Grant.Scope.{find_scope}
use idpy_oidc.Session.Grant.Scope.Enough.{find_scope-enough, token_with_value-In, List-cases}
use idpy_oidc.Session.Grant.Mint.Order.{HasOrder}
use idpy_oidc.Session.Manager.{State}
use idpy_oidc.Session.Manager.Lookup.{BranchInfo, get_session_info_by_token}
use idpy_oidc.Introspection.{
  Endpoint, Request, scope_of, wider_scope, describe, introspect, respond, token_classes, inactive,
  is_meant_for, for_client, grant_of, token_in, process_session, process_request, add_user_claims,
  get_claims, weed, release_name,
}
use idpy_oidc.Introspection.Active.{SaysActive}

-- A depth that passes the addresses of the tokens is enough for the scope.
module _ (h : Heap) (g : Grant) (order : HasOrder h g) (depth : ℕ) (enough : h.next ≤ depth) where
  wider_found : (b : Option String) → (s : List String) × (wider_scope depth h g b ≡ some s)
  unfolding find_scope
  wider_found none = (g.scope, refl)
  wider_found (some v) = elim (Bool-cases (is_nonempty v)) [
    | inr n ↦ (g.scope, rw n refl)
    | inl y ↦ elim (Option-cases (get_token h g v)) [
      | inl m ↦ (g.scope, rw (y, m) refl)
      | inr (u, m) ↦
          let (j, q) = token_with_value-In h g.issued_token v u (unfold get_token in m) in
          let (s, r) =
            find_scope-enough h g order depth u j (omega (arith, order.bounded u j, enough)) in
          (s, rw (y, m) r)
    ]
  ]

  scope_found : (t : SessionToken) → (s : List String) × (scope_of depth h g t ≡ some s)
  scope_found t = elim (List-cases t.scope) [
    | inr (x, xs, e) ↦ (x ∷ xs, rw e refl)
    | inl e ↦ let (s, q) = wider_found t.based_on in (s, rw e q)
  ]

  introspected :
      (e : Endpoint) (now : ℕ) (t : SessionToken) (id : String)
      → contains t.token_class token_classes ≡ true
      → is_active now t.item ≡ true
      → (d : Dict Value) × (introspect depth e now h g t id ≡ ok (some d))
  unfolding introspect
  introspected e now t id c a =
      let (s, q) = scope_found t in (describe e id g t s, rw (c, a, q) refl)

-- The user's claims are added where there is a service for them and the session has a user.
claims_added :
    (e : Endpoint) (b : BranchInfo) (c : Claims) (id : String) (d : Dict Value) (user_id : String)
    (userinfo : String → String → Dict Value)
    → Dict.get b.ids "user" ≡ some user_id
    → e.userinfo ≡ some userinfo
    → (d' : Dict Value) × (add_user_claims e b c id d ≡ ok d')
unfolding get_user_claims
claims_added e b [] id d user_id userinfo u i = (d, refl)
claims_added e b (x ∷ xs) id d user_id userinfo u i =
    (Dict.update d (matching (userinfo user_id id) (x ∷ xs)), rw (u, i) refl)

answered :
    (e : Endpoint) (release : List String) (b : BranchInfo) (g : Grant) (t : SessionToken)
    (id : String) (d : Dict Value) (user_id : String) (userinfo : String → String → Dict Value)
    → Dict.get b.ids "user" ≡ some user_id
    → e.userinfo ≡ some userinfo
    → (resp : Dict Value) × (respond e release b g t id (some d) ≡ ok resp) × SaysActive resp
unfolding respond
answered e release b g t id d user_id userinfo u i =
    let (d', q) =
      claims_added e b (get_claims e g t.scope id) id
        (weed (Dict.update inactive (release_name release (Dict.get b.ids "user") d))) user_id
        userinfo u i in
    (Dict.put d' "active" (Value.flag true), rw q refl, get-put_self d' "active" (Value.flag true))

-- A live token is answered for: where its session names a user and a client, there is a service with the users'
-- claims, the tokens of the grant come after those that they are based on and the depth passes their
-- addresses, and the token is an access or refresh token, active and meant for the client that asks, the
-- endpoint returns a response that says that it is active.
pub process_request-SaysActive :
    (depth : ℕ) (e : Endpoint) (now : ℕ) (rnd : String) (r : Request) (release : List String)
    (s : State) (b : BranchInfo) (g : Grant) (t : SessionToken) (user_id client_id : String)
    (userinfo : String → String → Dict Value)
    → get_session_info_by_token e.manager e.token_info rnd r.token s.db ≡ ok b
    → grant_of b ≡ ok g
    → token_in s.heap g r.token ≡ ok t
    → contains t.token_class token_classes ≡ true
    → is_active now t.item ≡ true
    → is_meant_for e r.client_id g t ≡ true
    → HasOrder s.heap g
    → s.heap.next ≤ depth
    → Dict.get b.ids "user" ≡ some user_id
    → Dict.get b.ids "client" ≡ some client_id
    → e.userinfo ≡ some userinfo
    → (resp : Dict Value) × (process_request depth e now rnd r release s ≡ ok resp)
      × SaysActive resp
unfolding process_request process_session for_client
process_request-SaysActive depth e now rnd r release s b g t user_id client_id userinfo found gq tq
      c a m order enough u i j =
    let (d, q) = introspected s.heap g order depth enough e now t client_id c a in
    let (resp, p, y) = answered e release b g t client_id d user_id userinfo u j in
    (resp, rw (found, gq, tq, m, i, q) p, y)
