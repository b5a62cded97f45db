-- ===== src/Introspection/Active.antt =====
-- When the introspection endpoint says that a token is active.
use idpy_oidc.Base.{
  ℕ, ◌≡◌, refl, sym, ap, ◌∙◌, ◌⊎◌, inl, inr, true, Bool-cases, Option, none, some, List, String,
  contains, Outcome, ok, err, >>=-eq_ok, ok_inj, if◌then◌else◌,
}
use idpy_oidc.Dict
use idpy_oidc.Dict.{Dict}
use idpy_oidc.Dict.Keys.{get-put_self}
use idpy_oidc.Session.Token.{SessionToken, is_active}
use idpy_oidc.Session.Claims.{Value}
use idpy_oidc.Session.Grant.{Heap, Grant}
use idpy_oidc.Session.Manager.{
  State, Exception, database, unknown_token, wrong_token_class, to_old, improperly_configured,
  invalid_branch_id, type_error,
}
use idpy_oidc.Session.Manager.Lookup.{BranchInfo, get_session_info_by_token}
use idpy_oidc.Introspection.{
  Endpoint, Request, introspect, respond, token_classes, inactive, is_meant_for, or_key_error,
  for_client, grant_of, token_in, process_session, or_inactive, process_request, add_user_claims,
  get_claims, weed, release_name,
}

-- A token of the session that the handler names: an access or refresh token, active at the time, and, where
-- the audience is restricted, meant for the client that asks.
abbrev pub IsLive : Endpoint → ℕ → Heap → Request → BranchInfo → Type 0
IsLive e now h r b =
    (g : Grant) × (t : SessionToken) × (grant_of b ≡ ok g)
    × (token_in h g r.token ≡ ok t)
    × (contains t.token_class token_classes ≡ true)
    × (is_active now t.item ≡ true)
    × (is_meant_for e r.client_id g t ≡ true)

abbrev pub SaysActive : Dict Value → Type 0
SaysActive resp = Dict.get resp "active" ≡ some (Value.flag true)

introspect-some :
    (depth : ℕ) (e : Endpoint) (now : ℕ) (h : Heap) (g : Grant) (t : SessionToken) (id : String)
    (d : Dict Value)
    → introspect depth e now h g t id ≡ ok (some d)
    → (contains t.token_class token_classes ≡ true) × (is_active now t.item ≡ true)
unfolding introspect
introspect-some depth e now h g t id d q =
    elim (Bool-cases (contains t.token_class token_classes)) [
      | inr f ↦ absurd (none_some (rw f at q))
      | inl c ↦ elim (Bool-cases (is_active now t.item)) [
        | inr f ↦ absurd (none_some (rw (c, f) at q))
        | inl a ↦ (c, a)
      ]
    ]
  where
    none_some : ◌≡◌ {A = Outcome Exception (Option (Dict Value))} (ok none) (ok (some d)) → ⊥
    none_some x = cc

-- A response is inactive, or says that it is active.
respond-cases :
    (e : Endpoint) (release : List String) (b : BranchInfo) (g : Grant) (t : SessionToken)
    (id : String) (d : Option (Dict Value)) (resp : Dict Value)
    → respond e release b g t id d ≡ ok resp
    → (resp ≡ inactive) ⊎ (((d' : Dict Value) × (d ≡ some d')) × SaysActive resp)
unfolding respond
respond-cases e release b g t id none resp q = inl (sym (ok_inj q))
respond-cases e release b g t id (some d) resp q =
    let (d', _, p) =
      >>=-eq_ok
        (add_user_claims e b (get_claims e g t.scope id) id
          (weed (Dict.update inactive (release_name release (Dict.get b.ids "user") d))))
        _ q in
    inr ((d, refl), rw (sym (ok_inj p)) (get-put_self d' "active" (Value.flag true)))

for_client-cases :
    (depth : ℕ) (e : Endpoint) (now : ℕ) (h : Heap) (release : List String) (b : BranchInfo)
    (g : Grant) (t : SessionToken) (resp : Dict Value)
    → for_client depth e now h release b g t ≡ ok resp
    → (resp ≡ inactive)
      ⊎ (SaysActive resp
          × (contains t.token_class token_classes ≡ true)
          × (is_active now t.item ≡ true))
unfolding for_client
for_client-cases depth e now h release b g t resp q =
    let (id, _, q') = >>=-eq_ok (or_key_error (Dict.get b.ids "client")) _ q in
    let (d, i, q'') = >>=-eq_ok (introspect depth e now h g t id) _ q' in
    elim (respond-cases e release b g t id d resp q'') [
      | inl x ↦ inl x
      | inr ((d', y), a) ↦
          let (c, act) = introspect-some depth e now h g t id d' (i ∙ ap ok y) in inr (a, c, act)
    ]

process_session-cases :
    (depth : ℕ) (e : Endpoint) (now : ℕ) (h : Heap) (r : Request) (release : List String)
    (b : BranchInfo) (resp : Dict Value)
    → process_session depth e now h r release b ≡ ok resp
    → (resp ≡ inactive) ⊎ (SaysActive resp × IsLive e now h r b)
unfolding process_session
process_session-cases depth e now h r release b resp q =
    let (g, gq, q') = >>=-eq_ok (grant_of b) _ q in
    let (t, tq, q'') = >>=-eq_ok (token_in h g r.token) _ q' in
    elim (Bool-cases (is_meant_for e r.client_id g t)) [
      | inl m ↦
          elim (for_client-cases depth e now h release b g t resp (rw (if◌then◌else◌, m) at q'')) [
            | inl x ↦ inl x
            | inr (a, c, act) ↦ inr (a, (g, t, gq, tq, c, act, m))
          ]
      | inr m ↦ inl (sym (ok_inj (rw (if◌then◌else◌, m) at q'')))
    ]

-- A response of the introspection endpoint holds that the token is not active and nothing else, or it
-- says that it is active: then the token handler knows its session, where the token is, is an access or a
-- refresh token, is active at the time, and is meant for the client that asks, where that is enforced.
pub process_request-IsLive :
    (depth : ℕ) (e : Endpoint) (now : ℕ) (rnd : String) (r : Request) (release : List String)
    (s : State) (resp : Dict Value)
    → process_request depth e now rnd r release s ≡ ok resp
    → (resp ≡ inactive)
      ⊎ (SaysActive resp
          × ((b : BranchInfo) × (get_session_info_by_token e.manager e.token_info rnd r.token s.db
                ≡ ok b)
              × IsLive e now s.heap r b))
unfolding process_request
process_request-IsLive depth e now rnd r release s resp q =
    go (get_session_info_by_token e.manager e.token_info rnd r.token s.db) refl q
  where
    go :
        (o : Outcome Exception BranchInfo)
        → get_session_info_by_token e.manager e.token_info rnd r.token s.db ≡ o
        → or_inactive (process_session depth e now s.heap r release) o ≡ ok resp
        → (resp ≡ inactive)
          ⊎ (SaysActive resp
              × ((b : BranchInfo) × (get_session_info_by_token e.manager e.token_info rnd r.token
                      s.db
                    ≡ ok b)
                  × IsLive e now s.heap r b))
    go (ok b) i q' = elim (process_session-cases depth e now s.heap r release b resp q') [
      | inl x ↦ inl x
      | inr (a, l) ↦ inr (a, (b, i, l))
    ]
    go (err unknown_token) i q' = inl (sym (ok_inj q'))
    go (err wrong_token_class) i q' = inl (sym (ok_inj q'))
    go (err to_old) i q' = inl (sym (ok_inj q'))
    go (err type_error) i q' = cc
    go (err improperly_configured) i q' = cc
    go (err (database x)) i q' = cc
    go (err (invalid_branch_id x)) i q' = cc
