-- ===== src/ClientAuthn/Identified.antt =====
-- What the identification of a client leaves, in a round of `verify_client`.
use idpy_oidc.Base.{
  ℕ, ◌≡◌, refl, ◌⊎◌, inl, inr, true, Bool-cases, Option, none, some, String, ◌==◌, eq_iff, arith,
  Outcome, ok, err,
}
use idpy_oidc.Dict
use idpy_oidc.Dict.{Dict}
use idpy_oidc.ClientAuthn.{
  Request, Jwt, ClientInfo, State, Method, Failure, other, client_authentication_error,
  bearer_token_error, Exception, AuthInfo, Context, valid_client_secret, may_use, none_authn,
  public_authn, client_secret_basic, client_secret_post, bearer_header, bearer_body,
  client_secret_jwt, private_key_jwt, request_param,
}
use idpy_oidc.ClientAuthn.Verify.{
  Verified, verify, verify_jws, verify_request_param, settle, after_checks, with_jwt, check_jti,
  jws_checks, no_checks, assertion, request_object,
}
use idpy_oidc.ClientAuthn.Loop.{
  Locals, Round, next, break, raise, known_as, client_info, from_cdb, judge, with_id, identified,
  identify,
}

-- What a method changes is not the client database.
module _ (c : Context) (m : Method) where
  settle-cdb : (j : Jwt) (s : State) (o : Outcome Failure (Dict ℕ)) → (settle m j s o).0.cdb ≡ s.cdb
  unfolding settle
  settle-cdb j s (ok db) = refl
  settle-cdb j s (err f) = refl

  after_checks-cdb :
      (j : Jwt) (s : State) (o : Outcome Failure Unit) → (after_checks m c j s o).0.cdb ≡ s.cdb
  after_checks-cdb j s (ok u) = settle-cdb j s (check_jti c j s.jti_db)
  after_checks-cdb j s (err f) = refl

  with_jwt-cdb :
      (checks : Jwt → Outcome Failure Unit) (s : State) (o : Outcome Failure Jwt)
      → (with_jwt m c checks s o).0.cdb ≡ s.cdb
  with_jwt-cdb checks s (ok j) = after_checks-cdb j s (checks j)
  with_jwt-cdb checks s (err f) = refl

pub verify-cdb :
    (c : Context) (m : Method) (r : Option Request) (auth : Option String) (s : State)
    → (verify m c r auth s).0.cdb ≡ s.cdb
unfolding verify verify_jws verify_request_param
verify-cdb c none_authn none auth s = refl
verify-cdb c none_authn (some r) auth s = refl
verify-cdb c public_authn r auth s = refl
verify-cdb c client_secret_basic r auth s = refl
verify-cdb c client_secret_post r auth s = refl
verify-cdb c bearer_header r auth s = refl
verify-cdb c bearer_body r auth s = refl
verify-cdb c client_secret_jwt r auth s =
    with_jwt-cdb c client_secret_jwt (jws_checks client_secret_jwt c s.cdb) s (assertion c r)
verify-cdb c private_key_jwt r auth s =
    with_jwt-cdb c private_key_jwt (jws_checks private_key_jwt c s.cdb) s (assertion c r)
verify-cdb c request_param r auth s = with_jwt-cdb c request_param no_checks s (request_object c r)

-- The client of a result: its entry, with a secret that has not expired, and a method that it may use.
abbrev pub IsClient : Context → Dict ClientInfo → AuthInfo → AuthInfo → Type 0
IsClient c cdb a0 a =
    (id0 : String) × (id : String) × (i : ClientInfo) × (a0.client_id ≡ some id0)
    × (known_as c id0 ≡ ok id)
    × (a.client_id ≡ some id)
    × (Dict.get cdb id ≡ some i)
    × (valid_client_secret c.now i ≡ true)
    × (may_use c i a0.method ≡ true)

abbrev pub IsNobody : AuthInfo → Type 0
IsNobody a = (a.method ≡ "none") × (a.client_id ≡ none)

-- What the clients of an endpoint are looked up in is its client database alone.
abbrev pub UsesDatabase : Context → Type 0
UsesDatabase c = (c.automatic_registration ≡ none) × (c.get_client_info ≡ none)

client_info_lem :
    (c : Context) (id : String) (s : State)
    → UsesDatabase c
    → client_info c id s ≡ from_cdb c id s (Dict.get s.cdb id)
unfolding client_info
client_info_lem c id s (a, g) = rw g refl

-- How a round ends, with what it was called for.
abbrev pub EndsWell : Context → Dict ClientInfo → AuthInfo → Round → Type 0
EndsWell c cdb a0 (next s l) = s.cdb ≡ cdb
EndsWell c cdb a0 (raise s e) = Unit
EndsWell c cdb a0 (break s l a) =
    (s.cdb ≡ cdb) × (a.method ≡ a0.method) × (IsNobody a ⊎ IsClient c cdb a0 a)

judge-EndsWell :
    (c : Context) (id0 id : String) (a : AuthInfo) (s : State) (o : Option ClientInfo)
    → UsesDatabase c
    → a.client_id ≡ some id0
    → known_as c id0 ≡ ok id
    → Dict.get s.cdb id ≡ o
    → EndsWell c s.cdb a (judge c id a (from_cdb c id s o))
unfolding judge
judge-EndsWell c id0 id a s none u e k q = rw (u.0) tt
judge-EndsWell c id0 id a s (some i) u e k q = elim (Bool-cases (valid_client_secret c.now i)) [
  | inl v ↦ elim (Bool-cases (may_use c i a.method)) [
    | inl y ↦ rw (v, y) (refl, refl, inr (id0, id, i, e, k, refl, q, v, y))
    | inr n ↦ rw (v, n) refl
  ]
  | inr v ↦ rw v tt
]

with_id-EndsWell :
    (c : Context) (id0 : String) (a : AuthInfo) (s : State) (o : Outcome Exception String)
    → UsesDatabase c
    → a.client_id ≡ some id0
    → known_as c id0 ≡ o
    → EndsWell c s.cdb a (with_id c a s o)
with_id-EndsWell c id0 a s (err e) u q k = tt
with_id-EndsWell c id0 a s (ok id) u q k =
    rw (client_info_lem c id s u) (judge-EndsWell c id0 id a s (Dict.get s.cdb id) u q k refl)

-- What a method returned, if it did.
abbrev pub Ended : Context → Dict ClientInfo → Verified → Round → Type 0
Ended c cdb (err f) (next s l) = s.cdb ≡ cdb
Ended c cdb (err f) (raise s e) = Unit
Ended c cdb (err f) (break s l a) = ⊥
Ended c cdb (ok a0) t = EndsWell c cdb a0 t

identified-EndsWell :
    (c : Context) (l : Locals) (a : AuthInfo) (s : State) (o : Option String)
    → UsesDatabase c
    → a.client_id ≡ o
    → EndsWell c s.cdb a (identified c l a s o)
identified-EndsWell c l a s none u e = elim (Bool-cases (a.method == "none")) [
  | inl t ↦ rw t (refl, refl, inl (ground (arith, eq_iff a.method "none"), e))
  | inr f ↦ rw f tt
]
identified-EndsWell c l a s (some id) u e = with_id-EndsWell c id a s (known_as c id) u e refl

pub identify-Ended :
    (c : Context) (l : Locals) (s : State) (v : Verified)
    → UsesDatabase c
    → Ended c s.cdb v (identify c l (s, v))
unfolding identify
identify-Ended c l s (err other) u = refl
identify-Ended c l s (err client_authentication_error) u = tt
identify-Ended c l s (err bearer_token_error) u = tt
identify-Ended c l s (ok a) u = identified-EndsWell c l a s a.client_id u refl
