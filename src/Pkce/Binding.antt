-- ===== src/Pkce/Binding.antt =====
-- Which verifiers redeem a code that was asked for with a challenge (pkce.py).
use idpy_oidc.Base.{
  ◌≡◌, refl, ◌≢◌, ◌↔◌, ==_of_eq, Option-cases, ◌⊎◌, inl, inr, Bool, true, Option, none, some, List,
  [], ◌∷◌, String, eq_iff, arith, contains, ok, err,
}
use idpy_oidc.Session.Grant.{AuthorizationRequest}
use idpy_oidc.Pkce.{
  AddOn, key_error, cc_methods, all_known, method_or, add_support, post_authn_parse, cc_method,
  with_code, check_challenge, post_token_parse, verify_code_challenge,
}

-- The method that a request names, or else `plain`.
abbrev pub method_of : AuthorizationRequest → String
method_of r = method_or r.code_challenge_method "plain"

all_known-cc_methods :
    (ms : List String) (m : String)
    → all_known ms ≡ true
    → contains m ms ≡ true
    → contains m cc_methods ≡ true
all_known-cc_methods [] m k h = ground arith
all_known-cc_methods (x ∷ xs) m k h = ground (arith, eq_iff m x, all_known-cc_methods xs m)

-- Every method that a configured add-on has is one that can be computed.
add_support-known :
    (methods : Option (List String)) (e : Bool) (a : AddOn) (m : String)
    → add_support methods e ≡ some a
    → contains m a.code_challenge_methods ≡ true
    → contains m cc_methods ≡ true
unfolding add_support
add_support-known none e a m h c = ground arith
add_support-known (some ms) e a m h c = ground (arith, all_known-cc_methods ms m)

module _ (digest : String → String → String) where
  -- Where there is a challenge, the verifier gives it when it is transformed by the method.
  abbrev pub Answers : Option String → String → Option String → Type 0
  Answers challenge m verifier =
      (challenge ≡ none)
      ⊎ ((c : String) × (v : String) × (challenge ≡ some c)
          × (verifier ≡ some v)
          × (cc_method digest m v ≡ some c))

  check-Answers :
      (challenge : Option String) (m : String) (verifier : Option String)
      → check_challenge digest challenge (some m) verifier ≡ ok tt
      → Answers challenge m verifier
  unfolding verify_code_challenge
  check-Answers none m verifier h = inl refl
  check-Answers (some c) m none h = absurd (ground arith)
  check-Answers (some c) m (some v) h = elim (Option-cases (cc_method digest m v)) [
    | inl e ↦ absurd (ground arith)
    | inr (t, e) ↦ inr (c, v, refl, refl, ground (arith, eq_iff t c))
  ]

  Answers-check :
      (challenge : Option String) (m : String) (verifier : Option String)
      → Answers challenge m verifier
      → check_challenge digest challenge (some m) verifier ≡ ok tt
  unfolding verify_code_challenge
  Answers-check challenge m verifier (inl e) = rw e
  Answers-check challenge m verifier (inr (c, v, e, f, g)) = rw (e, f, g, ==_of_eq (refl {a = c}))

  parsed_request :
      (a : AddOn) (ess : Option Bool) (r r' : AuthorizationRequest)
      → post_authn_parse a ess r ≡ ok r'
      → r' ≡ record r { code_challenge_method = some (method_of r) }
  unfolding post_authn_parse
  parsed_request a ess r r' h = ground arith

  token_parse-eq_check :
      (a : AddOn) (ess : Option Bool) (r r' : AuthorizationRequest)
      (authn_req : String → Option AuthorizationRequest) (code : String) (verifier : Option String)
      → post_authn_parse a ess r ≡ ok r'
      → authn_req code ≡ some r'
      → post_token_parse digest authn_req (with_code code verifier)
        ≡ check_challenge digest r.code_challenge (some (method_of r)) verifier
  unfolding post_token_parse
  token_parse-eq_check a ess r r' authn_req code verifier parsed found =
      rw (found, post_token_parse) (rw (parsed_request a ess r r' parsed))

  -- For an authorization request that the add-on has let through, and a code of the grant that has
  -- it: the token request passes exactly when there was no challenge or its verifier answers it.
  pub post_token_parse_iff :
      (a : AddOn) (ess : Option Bool) (r r' : AuthorizationRequest)
      (authn_req : String → Option AuthorizationRequest) (code : String) (verifier : Option String)
      → post_authn_parse a ess r ≡ ok r'
      → authn_req code ≡ some r'
      → (post_token_parse digest authn_req (with_code code verifier) ≡ ok tt)
        ↔ Answers r.code_challenge (method_of r) verifier
  post_token_parse_iff a ess r r' authn_req code verifier parsed found =
      rw (token_parse-eq_check a ess r r' authn_req code verifier parsed found) (
        check-Answers r.code_challenge (method_of r) verifier,
        Answers-check r.code_challenge (method_of r) verifier,
      )

  cc_method-known : (m v : String) → contains m cc_methods ≡ true → cc_method digest m v ≢ none
  unfolding cc_method
  cc_method-known m v h = ground arith

  check-no_key_error :
      (challenge : Option String) (m : String) (verifier : Option String)
      → (challenge ≢ none → contains m cc_methods ≡ true)
      → check_challenge digest challenge (some m) verifier ≢ err key_error
  unfolding verify_code_challenge
  check-no_key_error none m verifier k h = ground arith
  check-no_key_error (some c) m none k h = ground arith
  check-no_key_error (some c) m (some v) k h = ground (arith, cc_method-known m v (k (λ q. cc)))

  parsed_method :
      (a : AddOn) (ess : Option Bool) (r r' : AuthorizationRequest)
      → post_authn_parse a ess r ≡ ok r'
      → r.code_challenge ≢ none
      → contains (method_of r) a.code_challenge_methods ≡ true
  unfolding post_authn_parse
  parsed_method a ess r r' h ne = ground arith

  -- With the methods of an accepted configuration, no token request for such a grant ends in a
  -- `KeyError`: a method that the add-on let through can be computed.
  pub post_token_parse-no_key_error :
      (methods : Option (List String)) (e : Bool) (a : AddOn) (ess : Option Bool)
      (r r' : AuthorizationRequest) (authn_req : String → Option AuthorizationRequest)
      (code : String) (verifier : Option String)
      → add_support methods e ≡ some a
      → post_authn_parse a ess r ≡ ok r'
      → authn_req code ≡ some r'
      → post_token_parse digest authn_req (with_code code verifier) ≢ err key_error
  post_token_parse-no_key_error methods e a ess r r' authn_req code verifier support parsed found =
      rw (token_parse-eq_check a ess r r' authn_req code verifier parsed found) (
        check-no_key_error r.code_challenge (method_of r) verifier (λ ne.
          add_support-known methods e a (method_of r) support (parsed_method a ess r r' parsed ne)))
