-- ===== src/Revocation/Policy.antt =====
-- Which tokens a revocation request revokes.
use idpy_oidc.Base.{
  ℕ, ◌≡◌, refl, sym, ap, ◌∙◌, inl, inr, true, Bool-cases, Option, none, some, [], ◌∷◌, String, ◌==◌,
  eq_iff, contains, Outcome, ok, err, >>=-eq_ok, ok_inj,
}
use idpy_oidc.Dict
use idpy_oidc.Session.Token.{revoke_token_item}
use idpy_oidc.Session.Grant.{Grant, write, get_token}
use idpy_oidc.Session.Manager.{
  State, Exception, unknown_token, wrong_token_class, to_old, improperly_configured,
  invalid_branch_id, type_error, database,
}
use idpy_oidc.Session.Database.{attribute_error}
use idpy_oidc.Session.Manager.Lookup.{BranchInfo, get_session_info_by_token, find_token}
use idpy_oidc.Revocation.{
  Endpoint, Request, Status, Result, by_policy, error, nothing, PolicyFunction,
  validate_token_revocation_policy, policy_for, picked, chosen, need, run_policy, revoke, types_for,
  grant_of, check_type, for_client, check_client, process_session, or_nothing, process_request,
}

-- Every policy of the endpoint is the standard function.
abbrev pub HasStandardPolicy : Endpoint → Type 0
HasStandardPolicy e =
    (client_id : String) → policy_for e client_id ≡ ("", validate_token_revocation_policy) ∷ []

-- What a request leaves: the tokens as they were, or one of them revoked: one that `find_token` finds for
-- the request, of the client that asks.
abbrev pub RevokesOne : Endpoint → Request → BranchInfo → State → Status → Type 0
RevokesOne e r b s s' =
    (t : ℕ) × (Dict.get b.ids "client" ≡ some r.client_id)
    × (find_token e.manager b.branch_id r.token s ≡ ok (some t))
    × (s'.sessions ≡ record s { heap = write s.heap t (revoke_token_item (s.heap.at t)) })

-- An answer other than the policy function's changes no session.
abbrev pub Settles : (Status → Type 0) → State → Result → Type 0
Settles P s (s', err x) = s'.sessions ≡ s
Settles P s (s', ok nothing) = s'.sessions ≡ s
Settles P s (s', ok (error x)) = s'.sessions ≡ s
Settles P s (s', ok (by_policy x)) = P s'

chosen_only : (f : PolicyFunction) (c : String) → chosen (("", f) ∷ []) c ≡ ok f
unfolding chosen Dict.contains_key Dict.get
chosen_only f c = elim (Bool-cases ("" == c)) [ inl t ↦ rw (t, need) refl | inr n ↦ rw (n) refl ]

picked_lem :
    (e : Endpoint) (r : Request) (client_id : String) (b : BranchInfo) (s : Status) (t : ℕ)
    (f : PolicyFunction)
    → HasStandardPolicy e
    → picked e r client_id b s ≡ ok (t, f)
    → (find_token e.manager b.branch_id r.token s.sessions ≡ ok (some t))
      × (f ≡ validate_token_revocation_policy)
unfolding picked
picked_lem e r client_id b s t f h q =
    let (found, fq, q1) = >>=-eq_ok (find_token e.manager b.branch_id r.token s.sessions) _ q in
    let (t', tq, q2) = >>=-eq_ok (need (database attribute_error) found) _ q1 in
    let (f', cq, q3) =
      >>=-eq_ok (chosen (policy_for e client_id) (s.sessions.heap.at t').token_class) _ q2 in
    let same = ok_inj q3 in
    (
      fq ∙ ap ok (need_ok found t' tq ∙ ap some (ap (λ p. p.0) same)),
      sym (ap (λ p. p.1) same)
          ∙ ok_inj (
              sym cq
              ∙ ap (λ p. chosen p (s.sessions.heap.at t').token_class) (h client_id)
              ∙ chosen_only validate_token_revocation_policy (s.sessions.heap.at t').token_class),
    )
  where
    need_ok : (o : Option ℕ) (t : ℕ) → need (database attribute_error) o ≡ ok t → o ≡ some t
    need_ok none t x = cc
    need_ok (some u) t x = ap some (ok_inj x)

module _ (e : Endpoint) (r : Request) (b : BranchInfo) (h : HasStandardPolicy e)
    (own : Dict.get b.ids "client" ≡ some r.client_id) where
  run_policy-Settles :
      (s : Status) (o : Outcome Exception (ℕ × PolicyFunction))
      → picked e r r.client_id b s ≡ o
      → Settles (RevokesOne e r b s.sessions) s.sessions (run_policy b s o)
  unfolding validate_token_revocation_policy
  run_policy-Settles s (err x) q = refl
  run_policy-Settles s (ok (t, f)) q =
      let (found, standard) = picked_lem e r r.client_id b s t f h q in
      rw standard (t, own, found, refl)

  check_type-Settles :
      (s : Status) (o : Option ℕ)
      → Settles (RevokesOne e r b s.sessions) s.sessions (check_type e r r.client_id b s o)
  unfolding check_type revoke
  check_type-Settles s none = refl
  check_type-Settles s (some t) =
      elim (Bool-cases (contains (s.sessions.heap.at t).token_class s.token_types_supported)) [
        | inl y ↦ rw y (run_policy-Settles s (picked e r r.client_id b s) refl)
        | inr n ↦ rw n refl
      ]

  for_client-Settles :
      (s : Status) (o : Outcome Exception Grant)
      → Settles (RevokesOne e r b s.sessions) s.sessions (for_client e r r.client_id b s o)
  for_client-Settles s (err x) = refl
  for_client-Settles s (ok g) =
      check_type-Settles
        (record s { token_types_supported = types_for e r.client_id s.token_types_supported })
        (get_token s.sessions.heap g r.token)

check_client-Settles :
    (e : Endpoint) (r : Request) (b : BranchInfo) (s : Status) (o : Option String)
    → HasStandardPolicy e
    → Dict.get b.ids "client" ≡ o
    → Settles (RevokesOne e r b s.sessions) s.sessions (check_client e r b s o)
check_client-Settles e r b s none h q = refl
check_client-Settles e r b s (some c) h q = elim (Bool-cases (c == r.client_id)) [
  | inl y ↦ go ((eq_iff c r.client_id).0 y) y
  | inr n ↦ rw n refl
]
  where
    go :
        c ≡ r.client_id
        → (c == r.client_id) ≡ true
        → Settles (RevokesOne e r b s.sessions) s.sessions (check_client e r b s (some c))
    go same y = rw (y, same) (for_client-Settles e r b h (q ∙ ap some same) s (grant_of b))

-- Where every policy is the standard one: a revocation request that is answered by it has one token
-- revoked, that of its text in the session that the token handler names, which is a session of the client
-- that asks, and no other token is changed; with any other answer, and with an exception, no session is
-- changed.
pub process_request-RevokesOne :
    (e : Endpoint) (rnd : String) (r : Request) (s : Status)
    → HasStandardPolicy e
    → Settles
        (λ s'.
          (b : BranchInfo) × (get_session_info_by_token e.manager e.token_info rnd r.token
              s.sessions.db
            ≡ ok b)
          × RevokesOne e r b s.sessions s')
        s.sessions
        (process_request e rnd r s)
unfolding process_request process_session
process_request-RevokesOne e rnd r s h =
    go (get_session_info_by_token e.manager e.token_info rnd r.token s.sessions.db) refl
  where
    with_branch :
        (b : BranchInfo) (x : Result)
        → get_session_info_by_token e.manager e.token_info rnd r.token s.sessions.db ≡ ok b
        → Settles (RevokesOne e r b s.sessions) s.sessions x
        → Settles
            (λ s'.
              (b : BranchInfo) × (get_session_info_by_token e.manager e.token_info rnd r.token
                  s.sessions.db
                ≡ ok b)
              × RevokesOne e r b s.sessions s')
            s.sessions
            x
    with_branch b (s', err x) q w = w
    with_branch b (s', ok nothing) q w = w
    with_branch b (s', ok (error x)) q w = w
    with_branch b (s', ok (by_policy x)) q w = (b, q, w)

    go :
        (o : Outcome Exception BranchInfo)
        → get_session_info_by_token e.manager e.token_info rnd r.token s.sessions.db ≡ o
        → Settles
            (λ s'.
              (b : BranchInfo) × (get_session_info_by_token e.manager e.token_info rnd r.token
                  s.sessions.db
                ≡ ok b)
              × RevokesOne e r b s.sessions s')
            s.sessions
            (or_nothing (process_session e r s) s o)
    go (ok b) q =
        with_branch b (process_session e r s b) q
          (check_client-Settles e r b s (Dict.get b.ids "client") h refl)
    go (err unknown_token) q = refl
    go (err wrong_token_class) q = refl
    go (err to_old) q = refl
    go (err improperly_configured) q = refl
    go (err type_error) q = refl
    go (err (database x)) q = refl
    go (err (invalid_branch_id x)) q = refl
