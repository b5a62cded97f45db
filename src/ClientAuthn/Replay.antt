-- ===== src/ClientAuthn/Replay.antt =====
-- No two calls of `verify_client` accept a JWT with the same issuer and identifier.
use idpy_oidc.Base.{
  inl, inr, Option-cases, ◌==◌, ℕ, ◌≡◌, refl, sym, ◌∙◌, Bool, true, false, Bool-cases, true-false,
  Option, none, some, List, [], ◌∷◌, String, Outcome, ok, err, ◌&&◌, not, is_nonempty,
}
use idpy_oidc.Dict
use idpy_oidc.Dict.{Dict}
use idpy_oidc.ClientAuthn.{
  Request, Jwt, ClientInfo, State, Method, other, client_authentication_error, bearer_token_error,
  Exception, AuthInfo, Context, is_usable, valid_client_secret, may_use,
}
use idpy_oidc.ClientAuthn.Verify.{Verified, verify, jti_key}
use idpy_oidc.ClientAuthn.OneTime.{Names, Kept, IsNew, Once, jwt_of, verify-Once}
use idpy_oidc.ClientAuthn.Loop.{
  Locals, Round, next, break, raise, Result, known_as, client_info, from_cdb, judge, with_id,
  identified, identify, round, rounds, go_on, note, note_in, is_empty_cdb, names_or_all,
  verify_client, no_locals,
}

-- Looking a client up may register it, but leaves the identifiers that were seen.
from_cdb-jti_db :
    (c : Context) (id : String) (s : State) (o : Option ClientInfo)
    → (from_cdb c id s o).0.jti_db ≡ s.jti_db
from_cdb-jti_db c id s (some i) = refl
from_cdb-jti_db c id s none = elim (Option-cases c.automatic_registration) [
  | inl e ↦ rw e refl
  | inr (f, e) ↦ rw e refl
]

client_info-jti_db :
    (c : Context) (id : String) (s : State) → (client_info c id s).0.jti_db ≡ s.jti_db
unfolding client_info
client_info-jti_db c id s = elim (Option-cases c.get_client_info) [
  | inl e ↦ rw e (from_cdb-jti_db c id s (Dict.get s.cdb id))
  | inr (f, e) ↦ rw e refl
]

-- How a round ends: the identifiers are those after the call, and the JWT is the one that the method
-- returned.
abbrev Leaves : Dict ℕ → Option Jwt → Round → Type 0
Leaves db o (next s l) = s.jti_db ≡ db
Leaves db o (raise s e) = s.jti_db ≡ db
Leaves db o (break s l a) = (s.jti_db ≡ db) × (a.jwt ≡ o)

judge-Leaves :
    (c : Context) (id : String) (a : AuthInfo) (s : State) (o : Outcome Exception ClientInfo)
    (db : Dict ℕ)
    → s.jti_db ≡ db
    → Leaves db a.jwt (judge c id a (s, o))
unfolding judge
judge-Leaves c id a s (err e) db q = q
judge-Leaves c id a s (ok i) db q = elim (Bool-cases (valid_client_secret c.now i)) [
  | inl v ↦ elim (Bool-cases (may_use c i a.method)) [
    | inl y ↦ rw (v, y) (q, refl)
    | inr n ↦ rw (v, n) q
  ]
  | inr v ↦ rw v q
]

with_id-Leaves :
    (c : Context) (a : AuthInfo) (s : State) (o : Outcome Exception String)
    → Leaves s.jti_db a.jwt (with_id c a s o)
with_id-Leaves c a s (err e) = refl
with_id-Leaves c a s (ok id) =
    judge-Leaves c id a (client_info c id s).0 (client_info c id s).1 s.jti_db
      (client_info-jti_db c id s)

identified-Leaves :
    (c : Context) (l : Locals) (a : AuthInfo) (s : State) (o : Option String)
    → Leaves s.jti_db a.jwt (identified c l a s o)
identified-Leaves c l a s none = elim (Bool-cases (a.method == "none")) [
  | inl t ↦ rw t (refl, refl)
  | inr f ↦ rw f refl
]
identified-Leaves c l a s (some id) = with_id-Leaves c a s (known_as c id)

identify-Leaves :
    (c : Context) (l : Locals) (s : State) (v : Verified)
    → Leaves s.jti_db (jwt_of v) (identify c l (s, v))
unfolding identify
identify-Leaves c l s (err other) = refl
identify-Leaves c l s (err client_authentication_error) = refl
identify-Leaves c l s (err bearer_token_error) = refl
identify-Leaves c l s (ok a) = identified-Leaves c l a s a.client_id

-- What a call returns, against the identifiers before it.
abbrev RoundIsNew : Dict ℕ → Round → Type 0
RoundIsNew db (next s l) = Kept db s.jti_db
RoundIsNew db (raise s e) = Kept db s.jti_db
RoundIsNew db (break s l a) = Kept db s.jti_db × IsNew db s.jti_db a.jwt

from_Leaves :
    (s : State) (v : State × Verified) (t : Round)
    → Once s v
    → Leaves v.0.jti_db (jwt_of v.1) t
    → RoundIsNew s.jti_db t
from_Leaves s v (next s' l) o e = rw e o.0
from_Leaves s v (raise s' x) o e = rw e o.0
from_Leaves s v (break s' l a) o (e, q) = rw (e, q) o

round-IsNew :
    (c : Context) (r : Option Request) (auth : Option String) (m : Option Method) (s : State)
    (l : Locals)
    → RoundIsNew s.jti_db (round c r auth m s l)
unfolding round
round-IsNew c r auth none s l = λ k h. h
round-IsNew c r auth (some m) s l = elim (Bool-cases (is_usable m r auth)) [
  | inl t ↦ rw t (
      from_Leaves s (verify m c r auth s) (identify c l (verify m c r auth s))
        (verify-Once c m r auth s)
        (identify-Leaves c l (verify m c r auth s).0 (verify m c r auth s).1))
  | inr f ↦ rw f (λ k h. h)
]

-- The identifiers after a call of `verify_client`, and the JWT that it accepted.
abbrev pub ResultIsNew : Dict ℕ → Result → Type 0
ResultIsNew db (s, err e) = Kept db s.jti_db
ResultIsNew db (s, ok none) = Kept db s.jti_db
ResultIsNew db (s, ok (some a)) = Kept db s.jti_db × IsNew db s.jti_db a.jwt

ResultIsNew-earlier :
    (db db' : Dict ℕ) (x : Result) → Kept db db' → ResultIsNew db' x → ResultIsNew db x
ResultIsNew-earlier db db' (s, err e) k h = λ j q. h j (k j q)
ResultIsNew-earlier db db' (s, ok none) k h = λ j q. h j (k j q)
ResultIsNew-earlier db db' (s, ok (some a)) k (h, n) = (
  λ j q. h j (k j q),
  λ j iss jti e w. let (f, t) = n j iss jti e w in (not_before (jti_key iss jti) f, t),
)
  where
    not_before : (x : String) → Dict.contains_key db' x ≡ false → Dict.contains_key db x ≡ false
    not_before x f = elim (Bool-cases (Dict.contains_key db x)) [
      | inl t ↦ absurd (true-false (sym (k x t) ∙ f))
      | inr e ↦ e
    ]

note_in-IsNew :
    (c : Context) (a : AuthInfo) (id : String) (i : ClientInfo) (s : State) (o : Option ClientInfo)
    (db : Dict ℕ)
    → RoundIsNew db (break s no_locals a)
    → ResultIsNew db (note_in c a id i s o)
note_in-IsNew c a id i s none db h = h.0
note_in-IsNew c a id i s (some entry) db h = h

note-IsNew :
    (c : Context) (a : AuthInfo) (id : Option String) (i : Option ClientInfo) (b : Bool) (s : State)
    (db : Dict ℕ)
    → RoundIsNew db (break s no_locals a)
    → ResultIsNew db (note c a id i b s)
unfolding note
note-IsNew c a (some id) (some i) true s db h =
    elim (Bool-cases (is_nonempty id && not (is_empty_cdb s.cdb))) [
      | inl t ↦ rw t (note_in-IsNew c a id i s (Dict.get s.cdb id) db h)
      | inr f ↦ rw f h
    ]
note-IsNew c a (some id) (some i) false s db h = h
note-IsNew c a (some id) none b s db h = h
note-IsNew c a none i b s db h = h

go_on-IsNew :
    (c : Context) (rest : State → Locals → Result) (t : Round) (db : Dict ℕ)
    → RoundIsNew db t
    → ((s : State) (l : Locals) → ResultIsNew s.jti_db (rest s l))
    → ResultIsNew db (go_on c rest t)
go_on-IsNew c rest (next s l) db h r = ResultIsNew-earlier db s.jti_db (rest s l) h (r s l)
go_on-IsNew c rest (raise s e) db h r = h
go_on-IsNew c rest (break s l a) db h r = note-IsNew c a l.client_id l.cinfo l.has_cdb s db h

rounds-IsNew :
    (c : Context) (r : Option Request) (auth : Option String) (names : List String) (s : State)
    (l : Locals)
    → ResultIsNew s.jti_db (rounds c r auth names s l)
unfolding rounds
rounds-IsNew c r auth [] s l = λ k h. h
rounds-IsNew c r auth (n ∷ names) s l =
    go_on-IsNew c (rounds c r auth names) (round c r auth (Dict.get c.client_authn_methods n) s l)
      s.jti_db (round-IsNew c r auth (Dict.get c.client_authn_methods n) s l)
      (λ s' l'. rounds-IsNew c r auth names s' l')

pub verify_client-IsNew :
    (c : Context) (r : Option Request) (auth : Option String) (s : State)
    → ResultIsNew s.jti_db (verify_client c r auth s)
unfolding verify_client
verify_client-IsNew c r auth s =
    rounds-IsNew c r auth (names_or_all c.client_authn_method c.client_authn_methods) s no_locals

-- The states that calls of `verify_client` lead to, each with what it is called with.
pub data Leads : State → State → Type 0 where
  stay : {s : State} → Leads s s
  call :
      {s t : State} (c : Context) (r : Option Request) (auth : Option String)
      → Leads s t
      → Leads s (verify_client c r auth t).0

ResultIsNew-Kept : (db : Dict ℕ) (x : Result) → ResultIsNew db x → Kept db x.0.jti_db
ResultIsNew-Kept db (s, err e) h = h
ResultIsNew-Kept db (s, ok none) h = h
ResultIsNew-Kept db (s, ok (some a)) h = h.0

Leads-Kept : {s t : State} → Leads s t → Kept s.jti_db t.jti_db
Leads-Kept stay k h = h
Leads-Kept (call {t = t} c r auth l) k h =
    ResultIsNew-Kept t.jti_db (verify_client c r auth t) (verify_client-IsNew c r auth t) k
      (Leads-Kept l k h)

-- After any calls of `verify_client`, once it has returned for a JWT with an issuer and an identifier, no
-- later call, with whatever request, endpoint and clock, returns for a JWT that has both of these.
pub verify_client_once :
    (c c' : Context) (r r' : Option Request) (auth auth' : Option String) (s : State)
    {s1 s2 s3 : State} {a a' : AuthInfo} (j j' : Jwt) (iss jti : String)
    → verify_client c r auth s ≡ (s1, ok (some a))
    → a.jwt ≡ some j
    → Names j iss jti
    → Leads s1 s2
    → verify_client c' r' auth' s2 ≡ (s3, ok (some a'))
    → a'.jwt ≡ some j'
    → ¬ Names j' iss jti
verify_client_once c c' r r' auth auth' s {s1} {s2} {s3} {a} {a'} j j' iss jti e q n leads e' q'
      n' =
    let first : ResultIsNew s.jti_db (s1, ok (some a)) = rw e at (verify_client-IsNew c r auth s) in
    let last : ResultIsNew s2.jti_db (s3, ok (some a')) =
      rw e' at (verify_client-IsNew c' r' auth' s2) in
    true-false (
      sym (Leads-Kept leads (jti_key iss jti) (first.1 j iss jti q n).1)
      ∙ (last.1 j' iss jti q' n').0)
