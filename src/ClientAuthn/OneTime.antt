-- ===== src/ClientAuthn/OneTime.antt =====
-- A JWT with an identifier is accepted once.
use idpy_oidc.Base.{
  ℕ, ◌≡◌, refl, sym, ap, ◌∙◌, inl, inr, true, false, Bool-cases, Option, none, some, String, ◌==◌,
  eq_refl, Outcome, ok, err, is_nonempty, ◌>>=◌, >>=-eq_ok, ok_inj, if◌then◌else◌,
}
use idpy_oidc.Dict
use idpy_oidc.Dict.{Dict, get-put}
use idpy_oidc.ClientAuthn.{
  Request, Jwt, ClientInfo, other, client_authentication_error, State, Method, Failure, Context,
  after, none_authn, public_authn, client_secret_basic, client_secret_post, bearer_header,
  bearer_body, client_secret_jwt, private_key_jwt, request_param,
}
use idpy_oidc.ClientAuthn.Verify.{
  Verified, verify, verify_jws, verify_request_param, settle, after_checks, with_jwt, check_jti,
  remembered, check_some, jti_key, jws_checks, no_checks, assertion, request_object, need, found,
  verify_basic, verify_post, verify_bearer_header, verify_bearer_body, basic_authn, check_secret,
  param, owner_of, body_token, any_failure,
}

contains_key-put :
    (d : Dict ℕ) (k j : String) (v : ℕ)
    → Dict.contains_key d j ≡ true
    → Dict.contains_key (Dict.put d k v) j ≡ true
unfolding Dict.contains_key
contains_key-put d k j v h =
    rw (get-put d k j v) (elim (Bool-cases (k == j)) [ inl t ↦ rw t refl | inr f ↦ rw f h ])

contains_key-put_self :
    (d : Dict ℕ) (k : String) (v : ℕ) → Dict.contains_key (Dict.put d k v) k ≡ true
unfolding Dict.contains_key
contains_key-put_self d k v = rw (get-put d k k v, eq_refl k) refl

-- The JWT's issuer and identifier, where it has both.
abbrev pub Names : Jwt → String → String → Type 0
Names j iss jti = (j.iss ≡ some iss) × (j.jti ≡ some jti) × (is_nonempty jti ≡ true)

-- From one database of identifiers to the next, none is lost.
abbrev pub Kept : Dict ℕ → Dict ℕ → Type 0
Kept db db' = (k : String) → Dict.contains_key db k ≡ true → Dict.contains_key db' k ≡ true

-- The identifier of the JWT, if there is one, was not there before and is there after.
abbrev pub IsNew : Dict ℕ → Dict ℕ → Option Jwt → Type 0
IsNew db db' o =
    (j : Jwt) (iss jti : String)
    → o ≡ some j
    → Names j iss jti
    → (Dict.contains_key db (jti_key iss jti) ≡ false)
      × (Dict.contains_key db' (jti_key iss jti) ≡ true)

remembered-ok :
    (c : Context) (db db' : Dict ℕ) (jti iss : String)
    → remembered c db jti iss ≡ ok db'
    → (Dict.contains_key db (jti_key iss jti) ≡ false) × (db' ≡ Dict.put db (jti_key iss jti) c.now)
remembered-ok c db db' jti iss e = elim (Bool-cases (Dict.contains_key db (jti_key iss jti))) [
  | inl t ↦ absurd (err_ok (rw (remembered, t) at e))
  | inr f ↦ (f, sym (ok_inj (rw (remembered, f) at e)))
]
  where
    err_ok : {x : Failure} → ◌≡◌ {A = Outcome Failure (Dict ℕ)} (err x) (ok db') → ⊥
    err_ok h = cc

check_some-Kept :
    (c : Context) (j : Jwt) (db db' : Dict ℕ) (o : Option String)
    → check_some c j db o ≡ ok db'
    → Kept db db'
check_some-Kept c j db db' none e k h = rw (sym (ok_inj e)) h
check_some-Kept c j db db' (some jti) e k h = elim (Bool-cases (is_nonempty jti)) [
  | inl t ↦
      let (iss, _, r) =
        >>=-eq_ok (need other j.iss) (remembered c db jti) (rw (check_some, t) at e) in
      rw ((remembered-ok c db db' jti iss r).1) (contains_key-put db (jti_key iss jti) k c.now h)
  | inr f ↦ rw (sym (ok_inj (rw (check_some, f) at e))) h
]

check_some-IsNew :
    (c : Context) (j : Jwt) (db db' : Dict ℕ) (iss jti : String)
    → Names j iss jti
    → check_some c j db (some jti) ≡ ok db'
    → (Dict.contains_key db (jti_key iss jti) ≡ false)
      × (Dict.contains_key db' (jti_key iss jti) ≡ true)
check_some-IsNew c j db db' iss jti (i, t, n) e =
    let (fresh, q) = remembered-ok c db db' jti iss (rw (check_some, n, i) at e) in
    (fresh, rw q (contains_key-put_self db (jti_key iss jti) c.now))

abbrev pub jwt_of : Verified → Option Jwt
jwt_of (err f) = none
jwt_of (ok a) = a.jwt

-- What a method does to the identifiers that were seen.
abbrev pub Once : State → State × Verified → Type 0
Once s v = Kept s.jti_db v.0.jti_db × IsNew s.jti_db v.0.jti_db (jwt_of v.1)

no_jwt : {j : Jwt} → ◌≡◌ {A = Option Jwt} none (some j) → ⊥
no_jwt e = cc

same : (s : State) (v : Verified) → jwt_of v ≡ none → Once s (s, v)
same s v e = (λ k h. h, λ j iss jti q n. absurd (no_jwt (sym e ∙ q)))

settled_jwt :
    (m : Method) (j j' : Jwt) (o : Option String)
    → jwt_of (need other o >>= λ iss. ok (found m (some iss) none (some j))) ≡ some j'
    → j ≡ j'
settled_jwt m j j' none e = absurd (no_jwt e)
settled_jwt m j j' (some iss) e = cc

settle-Once :
    (c : Context) (m : Method) (j : Jwt) (s : State) (o : Outcome Failure (Dict ℕ))
    → check_jti c j s.jti_db ≡ o
    → Once s (settle m j s o)
unfolding settle check_jti
settle-Once c m j s (err f) e = same s (err f) refl
settle-Once c m j s (ok db) e = (
  λ k h. check_some-Kept c j s.jti_db db j.jti e k h,
  λ j' iss jti q n.
      let same_jwt = settled_jwt m j j' j.iss q in
      let jti_is : j.jti ≡ some jti = ap (λ x. x.jti) same_jwt ∙ n.1 in
      check_some-IsNew c j s.jti_db db iss jti (ap (λ x. x.iss) same_jwt ∙ n.0, jti_is, n.2)
        (ap (check_some c j s.jti_db) (sym jti_is) ∙ e),
)

after_checks-Once :
    (c : Context) (m : Method) (j : Jwt) (s : State) (o : Outcome Failure Unit)
    → Once s (after_checks m c j s o)
after_checks-Once c m j s (err f) = same s (err f) refl
after_checks-Once c m j s (ok u) = settle-Once c m j s (check_jti c j s.jti_db) refl

with_jwt-Once :
    (c : Context) (m : Method) (checks : Jwt → Outcome Failure Unit) (s : State)
    (o : Outcome Failure Jwt)
    → Once s (with_jwt m c checks s o)
with_jwt-Once c m checks s (err f) = same s (err f) refl
with_jwt-Once c m checks s (ok j) = after_checks-Once c m j s (checks j)

>>=-no_jwt :
    {A : Type 0} (o : Outcome Failure A) (f : A → Verified)
    → ((a : A) → jwt_of (f a) ≡ none)
    → jwt_of (o >>= f) ≡ none
>>=-no_jwt (ok a) f h = h a
>>=-no_jwt (err e) f h = refl

check_secret-no_jwt :
    (m : Method) (cdb : Dict ClientInfo) (id secret : String)
    → jwt_of (check_secret m cdb id secret) ≡ none
unfolding check_secret
check_secret-no_jwt m cdb id secret =
    >>=-no_jwt (need other (Dict.get cdb id)) _
      (λ entry. >>=-no_jwt (need other entry.client_secret) _ (λ known. compared known))
  where
    compared :
        (known : String)
        → jwt_of (
            if known == secret
            then ok (found m (some id) none none)
            else err client_authentication_error)
          ≡ none
    compared known = elim (Bool-cases (known == secret)) [ inl t ↦ rw t refl | inr f ↦ rw f refl ]

verify_public-no_jwt :
    (r : Option Request)
    → jwt_of (param r (λ q. q.client_id) >>= λ id. ok (found public_authn (some id) none none))
      ≡ none
verify_public-no_jwt r = >>=-no_jwt (param r (λ q. q.client_id)) _ (λ id. refl)

verify_basic-no_jwt :
    (c : Context) (auth : Option String) (cdb : Dict ClientInfo)
    → jwt_of (verify_basic c auth cdb) ≡ none
unfolding verify_basic
verify_basic-no_jwt c auth cdb = >>=-no_jwt (need other auth) _ (λ token.
    >>=-no_jwt (basic_authn c token) _ (λ p. check_secret-no_jwt client_secret_basic cdb p.0 p.1))

verify_post-no_jwt :
    (r : Option Request) (cdb : Dict ClientInfo) → jwt_of (verify_post r cdb) ≡ none
unfolding verify_post
verify_post-no_jwt r cdb = >>=-no_jwt (param r (λ q. q.client_id)) _ (λ id.
    >>=-no_jwt (need other (Dict.get cdb id)) _ (λ entry.
      >>=-no_jwt (need other entry.client_secret) _ (λ known.
        >>=-no_jwt (param r (λ q. q.client_secret)) _
          (λ secret. check_secret-no_jwt client_secret_post cdb id secret))))

verify_bearer_header-no_jwt :
    (c : Context) (auth : Option String) → jwt_of (verify_bearer_header c auth) ≡ none
unfolding verify_bearer_header
verify_bearer_header-no_jwt c auth = >>=-no_jwt (need other auth) _ (λ header.
    >>=-no_jwt (need other (after "Bearer " header)) _
      (λ token. >>=-no_jwt (owner_of c.get_client_id_from_token token) _ (λ id. refl)))

verify_bearer_body-no_jwt :
    (c : Context) (r : Option Request) → jwt_of (verify_bearer_body c r) ≡ none
unfolding verify_bearer_body
verify_bearer_body-no_jwt c r = >>=-no_jwt (body_token r) _ (λ token.
    >>=-no_jwt (need other c.get_client_id_from_token) _
      (λ f. >>=-no_jwt (any_failure (f token)) _ (λ id. refl)))

-- A method remembers the identifier of a JWT that it accepts, and forgets none.
pub verify-Once :
    (c : Context) (m : Method) (r : Option Request) (auth : Option String) (s : State)
    → Once s (verify m c r auth s)
unfolding verify verify_jws verify_request_param
verify-Once c none_authn none auth s = same s (err other) refl
verify-Once c none_authn (some r) auth s = same s (ok (found none_authn r.client_id none none)) refl
verify-Once c public_authn r auth s =
    same s (param r (λ q. q.client_id) >>= λ id. ok (found public_authn (some id) none none))
      (verify_public-no_jwt r)
verify-Once c client_secret_basic r auth s =
    same s (verify_basic c auth s.cdb) (verify_basic-no_jwt c auth s.cdb)
verify-Once c client_secret_post r auth s =
    same s (verify_post r s.cdb) (verify_post-no_jwt r s.cdb)
verify-Once c bearer_header r auth s =
    same s (verify_bearer_header c auth) (verify_bearer_header-no_jwt c auth)
verify-Once c bearer_body r auth s = same s (verify_bearer_body c r) (verify_bearer_body-no_jwt c r)
verify-Once c client_secret_jwt r auth s =
    with_jwt-Once c client_secret_jwt (jws_checks client_secret_jwt c s.cdb) s (assertion c r)
verify-Once c private_key_jwt r auth s =
    with_jwt-Once c private_key_jwt (jws_checks private_key_jwt c s.cdb) s (assertion c r)
verify-Once c request_param r auth s =
    with_jwt-Once c request_param no_checks s (request_object c r)
