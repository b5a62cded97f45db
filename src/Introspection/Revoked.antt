-- ===== src/Introspection/Revoked.antt =====
-- A token that was revoked, at the introspection endpoint.
use idpy_oidc.Base.{
  ℕ, ◌≡◌, refl, sym, ap, ◌∙◌, inl, inr, false, true-false, Option, none, some, List, [], ◌∷◌,
  String, Outcome, ok, err, >>=-eq_ok, ok_inj,
}
use idpy_oidc.Dict
use idpy_oidc.Dict.{Dict}
use idpy_oidc.Session.Token.{SessionToken, is_active, revoke_token_item}
use idpy_oidc.Session.Claims.{Value}
use idpy_oidc.Session.Grant.{Heap, Grant, write, get_token}
use idpy_oidc.Session.BranchId.{decrypt_branch_id}
use idpy_oidc.Session.Database.{Node, leaf, Db, get}
use idpy_oidc.Session.Database.Key.{branch_key}
use idpy_oidc.Session.Manager.{State, Manager, Exception, unknown_token, lift}
use idpy_oidc.Session.Manager.Lookup.{
  BranchInfo, branch_info, nodes_from, gather, get_session_info_by_token, compatible_sid,
  find_token, or_invalid, nonempty_sid,
}
use idpy_oidc.Session.Manager.Revoke.{revoke_token, and_below}
use idpy_oidc.Introspection.{Endpoint, inactive, grant_of, token_in, process_request}
use idpy_oidc.Introspection.Active.{IsLive, process_request-IsLive}
use idpy_oidc.Introspection.Found.{
  IsSession, revoked_is_inactive, eqb_refl, found_again, nodes_three, gathered, or_invalid_ok,
}

module _ (m : Manager) (token_info : String → Outcome Exception (Option String))
    (value sid u c g : String) (v : Grant) (db : Db)
    (session : IsSession m token_info value sid u c g v db) where
  session_branch :
      (rnd : String) → get_session_info_by_token m token_info rnd value db ≡ branch_info m sid [] db
  unfolding get_session_info_by_token compatible_sid
  session_branch rnd = rw (session.named, nonempty_sid, session.filled, session.encrypted) refl

  session_grant :
      (rnd : String) (b : BranchInfo)
      → get_session_info_by_token m token_info rnd value db ≡ ok b
      → grant_of b ≡ ok v
  unfolding branch_info
  session_grant rnd b q =
      let (path, pq, q') =
        >>=-eq_ok (lift (decrypt_branch_id m.crypt sid)) _ (sym (session_branch rnd) ∙ q) in
      let (ns, nq, q'') = >>=-eq_ok (or_invalid sid (nodes_from [] path db)) _ q' in
      finish b path ns pq nq q''
    where
      finish :
          (b : BranchInfo) (path : List String) (ns : List Node)
          → lift (decrypt_branch_id m.crypt sid) ≡ ok path
          → or_invalid sid (nodes_from [] path db) ≡ ok ns
          → gather [] m.node_type ns path (record { branch_id = sid; nodes = []; ids = [] }) ≡ ok b
          → grant_of b ≡ ok v
      finish b path ns pq nq gq =
          let same_path = ok_inj (sym pq ∙ ap lift session.path) in
          let (n1, n2, e) = nodes_three u c g (leaf v) db ns session.stored (
            sym (ap (λ p. nodes_from [] p db) same_path)
            ∙ or_invalid_ok sid (nodes_from [] path db) ns nq) in
          gathered m sid u c g n1 n2 v b session.standard (
            ap
              (λ xs.
                gather [] m.node_type xs (u ∷ c ∷ g ∷ [])
                  (record { branch_id = sid; nodes = []; ids = [] }))
              (sym e)
            ∙ ap
                (λ p. gather [] m.node_type ns p (record { branch_id = sid; nodes = []; ids = [] }))
                (sym same_path)
            ∙ gq)

find_token_lem :
    (m : Manager) (value sid u c g : String) (v : Grant) (s : State)
    → decrypt_branch_id m.crypt sid ≡ ok (u ∷ c ∷ g ∷ [])
    → Dict.get s.db (branch_key (u ∷ c ∷ g ∷ [])) ≡ some (leaf v)
    → find_token m sid value s ≡ ok (get_token s.heap v value)
unfolding find_token get_token get
find_token_lem m value sid u c g v s p e = rw (p, e) refl

-- The token that `revoke_token` finds, and the state that it leaves.
revoked_state :
    (depth : ℕ) (m : Manager) (value sid u c g : String) (v : Grant) (s s' : State)
    → decrypt_branch_id m.crypt sid ≡ ok (u ∷ c ∷ g ∷ [])
    → Dict.get s.db (branch_key (u ∷ c ∷ g ∷ [])) ≡ some (leaf v)
    → revoke_token depth m sid value false s ≡ ok s'
    → (t : ℕ) × (get_token s.heap v value ≡ some t)
      × (s' ≡ record s { heap = write s.heap t (revoke_token_item (s.heap.at t)) })
unfolding revoke_token and_below
revoked_state depth m value sid u c g v s s' p e q =
    go (get_token s.heap v value) refl (find_token_lem m value sid u c g v s p e)
  where
    err_ok : ◌≡◌ {A = Outcome Exception State} (err unknown_token) (ok s') → ⊥
    err_ok h = cc

    go :
        (o : Option ℕ)
        → get_token s.heap v value ≡ o
        → find_token m sid value s ≡ ok (get_token s.heap v value)
        → (t : ℕ) × (get_token s.heap v value ≡ some t)
          × (s' ≡ record s { heap = write s.heap t (revoke_token_item (s.heap.at t)) })
    go none f l = absurd (err_ok (sym (rw (l, f) refl) ∙ q))
    go (some t) f l = (t, f, ok_inj (sym q ∙ rw (l, f) refl))

-- What is found after the token was revoked is not active.
not-IsLive :
    (e : Endpoint) (now : ℕ) (rnd sid u c g client_id value : String) (v : Grant) (s : State)
    → IsSession e.manager e.token_info value sid u c g v s.db
    → (t : ℕ) → get_token s.heap v value ≡ some t
    → (b : BranchInfo) → get_session_info_by_token e.manager e.token_info rnd value s.db ≡ ok b
    → ¬ IsLive e now
        (write s.heap t (revoke_token_item (s.heap.at t)))
        (record { token = value; client_id = client_id })
        b
unfolding get_token
not-IsLive e now rnd sid u c g client_id value v s session t found b info
      (g', tok, gq, tq, _, act, _) =
    let h' = write s.heap t (revoke_token_item (s.heap.at t)) in
    let same_grant : v ≡ g' =
      ok_inj (
        sym (session_grant e.manager e.token_info value sid u c g v s.db session rnd b info)
        ∙ gq) in
    let again : get_token h' v value ≡ some t = found_again s.heap v.issued_token value t ∙ found in
    let token : h'.at t ≡ tok =
      token_is h' v value t tok again (ap (λ x. token_in h' x value) same_grant ∙ tq) in
    true-false (sym act ∙ ap (λ x. is_active now x.item) (sym token) ∙ at_t (s.heap) t)
  where
    token_is :
        (h : Heap) (x : Grant) (w : String) (p : ℕ) (y : SessionToken)
        → get_token h x w ≡ some p
        → token_in h x w ≡ ok y
        → h.at p ≡ y
    token_is h x w p y f q = ok_inj (sym (rw (token_in, f) refl) ∙ q)

    at_t :
        (h : Heap) (p : ℕ)
        → is_active now ((write h p (revoke_token_item (h.at p))).at p).item ≡ false
    at_t h p = rw (eqb_refl p) (revoked_is_inactive now (h.at p))

-- After `revoke_token` of a token of a session, whatever the endpoint's other settings and at any time, the
-- introspection endpoint no longer says that the token is active: a response for it holds nothing but
-- that it is inactive.
pub introspect-revoke_token :
    (depth depth' : ℕ) (e : Endpoint) (now : ℕ) (rnd sid u c g client_id : String)
    (release : List String) (value : String) (v : Grant) (s s' : State) (resp : Dict Value)
    → IsSession e.manager e.token_info value sid u c g v s.db
    → revoke_token depth e.manager sid value false s ≡ ok s'
    → process_request depth' e now rnd (record { token = value; client_id = client_id }) release s'
      ≡ ok resp
    → resp ≡ inactive
introspect-revoke_token depth depth' e now rnd sid u c g client_id release value v s s' resp session
      q r =
    let (t, found, after) =
      revoked_state depth e.manager value sid u c g v s s' session.path session.stored q in
    elim (process_request-IsLive depth' e now rnd (record { token = value; client_id = client_id })
      release s' resp r) [
        | inl x ↦ x
        | inr (_, (b, info, live)) ↦ absurd (dead t found after b info live)
      ]
  where
    dead :
        (t : ℕ)
        → get_token s.heap v value ≡ some t
        → s' ≡ record s { heap = write s.heap t (revoke_token_item (s.heap.at t)) }
        → (b : BranchInfo) → get_session_info_by_token e.manager e.token_info rnd value s'.db ≡ ok b
        → ¬ IsLive e now s'.heap (record { token = value; client_id = client_id }) b
    dead t found after b info live =
        not-IsLive e now rnd sid u c g client_id value v s session t found b (rw after at info)
          (rw after at live)
