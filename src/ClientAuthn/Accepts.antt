-- ===== src/ClientAuthn/Accepts.antt =====
-- Whom `verify_client` lets in.
use idpy_oidc.Base.{
  ◌≡◌, refl, sym, ap, ◌∙◌, ◌⊎◌, inl, inr, Bool, true, false, Bool-cases, Option, none, some, List,
  [], ◌∷◌, String, In, ok, err, not, ◌&&◌, is_nonempty,
}
use idpy_oidc.Dict
use idpy_oidc.Dict.{Dict}
use idpy_oidc.ClientAuthn.{
  Request, ClientInfo, State, Method, Failure, AuthInfo, Context, is_usable,
}
use idpy_oidc.ClientAuthn.Verify.{Verified, verify}
use idpy_oidc.ClientAuthn.Loop.{
  Locals, Round, next, break, raise, Result, identify, round, rounds, go_on, note, note_in,
  is_empty_cdb, names_or_all, verify_client, no_locals,
}
use idpy_oidc.ClientAuthn.Identified.{
  verify-cdb, IsClient, IsNobody, UsesDatabase, EndsWell, Ended, identify-Ended,
}

-- A result that some method of the endpoint, which was tried, returned for the client.
abbrev pub IsAccepted :
    Context → Option Request → Option String → Dict ClientInfo → List String → AuthInfo → Type 0
IsAccepted c r auth cdb names a =
    (name : String) × (m : Method) × (before : State) × (after : State) × (a0 : AuthInfo) × In name
      names
    × (Dict.get c.client_authn_methods name ≡ some m)
    × (is_usable m r auth ≡ true)
    × (before.cdb ≡ cdb)
    × (verify m c r auth before ≡ (after, ok a0))
    × (a.method ≡ a0.method)
    × (IsNobody a ⊎ IsClient c cdb a0 a)

-- A round that ends: the client database is as before, and what is returned was accepted.
abbrev RoundIs : Context → Option Request → Option String → Option Method → State → Round → Type 0
RoundIs c r auth m s (next s' l) = s'.cdb ≡ s.cdb
RoundIs c r auth m s (raise s' e) = Unit
RoundIs c r auth m s (break s' l a) =
    (s'.cdb ≡ s.cdb)
    × ((k : Method) × (after : State) × (a0 : AuthInfo) × (m ≡ some k)
        × (is_usable k r auth ≡ true)
        × (verify k c r auth s ≡ (after, ok a0))
        × (a.method ≡ a0.method)
        × (IsNobody a ⊎ IsClient c s.cdb a0 a))

round-RoundIs :
    (c : Context) (r : Option Request) (auth : Option String) (m : Option Method) (s : State)
    (l : Locals)
    → UsesDatabase c
    → RoundIs c r auth m s (round c r auth m s l)
unfolding round
round-RoundIs c r auth none s l u = tt
round-RoundIs c r auth (some m) s l u = elim (Bool-cases (is_usable m r auth)) [
  | inl t ↦ rw t (called (verify m c r auth s) refl t)
  | inr f ↦ rw f refl
]
  where
    from_ended :
        (s' : State) (a0 : AuthInfo) (t : Round)
        → verify m c r auth s ≡ (s', ok a0)
        → is_usable m r auth ≡ true
        → s'.cdb ≡ s.cdb
        → EndsWell c s'.cdb a0 t
        → RoundIs c r auth (some m) s t
    from_ended s' a0 (next s'' l') e t q w = w ∙ q
    from_ended s' a0 (raise s'' x) e t q w = tt
    from_ended s' a0 (break s'' l' a) e t q (w, w', w'') =
        (w ∙ q, (m, s', a0, refl, t, e, w', rw (sym q) w''))

    from_err :
        (s' : State) (f : Failure) (t : Round)
        → s'.cdb ≡ s.cdb
        → Ended c s'.cdb (err f) t
        → RoundIs c r auth (some m) s t
    from_err s' f (next s'' l') q w = w ∙ q
    from_err s' f (raise s'' x) q w = tt
    from_err s' f (break s'' l' a) q w = absurd w

    called :
        (v : State × Verified)
        → verify m c r auth s ≡ v
        → is_usable m r auth ≡ true
        → RoundIs c r auth (some m) s (identify c l v)
    called (s', ok a0) e t =
        from_ended s' a0 (identify c l (s', ok a0)) e t
          (ap (λ p. p.0.cdb) (sym e) ∙ verify-cdb c m r auth s) (identify-Ended c l s' (ok a0) u)
    called (s', err f) e t =
        from_err s' f (identify c l (s', err f))
          (ap (λ p. p.0.cdb) (sym e) ∙ verify-cdb c m r auth s) (identify-Ended c l s' (err f) u)

-- A result that is returned was accepted.
abbrev Lets :
    Context → Option Request → Option String → Dict ClientInfo → List String → Result → Type 0
Lets c r auth cdb names (s, err e) = Unit
Lets c r auth cdb names (s, ok none) = Unit
Lets c r auth cdb names (s, ok (some a)) = IsAccepted c r auth cdb names a

module _ (c : Context) (r : Option Request) (auth : Option String) (cdb : Dict ClientInfo)
    (names : List String) (a : AuthInfo) (acc : IsAccepted c r auth cdb names a) where
  note_in-Lets :
      (id : String) (i : ClientInfo) (s : State) (o : Option ClientInfo)
      → Lets c r auth cdb names (note_in c a id i s o)
  note_in-Lets id i s none = tt
  note_in-Lets id i s (some entry) = acc

  note-Lets :
      (id : Option String) (i : Option ClientInfo) (b : Bool) (s : State)
      → Lets c r auth cdb names (note c a id i b s)
  unfolding note
  note-Lets (some id) (some i) true s =
      elim (Bool-cases (is_nonempty id && not (is_empty_cdb s.cdb))) [
        | inl t ↦ rw t (note_in-Lets id i s (Dict.get s.cdb id))
        | inr f ↦ rw f acc
      ]
  note-Lets (some id) (some i) false s = acc
  note-Lets (some id) none b s = acc
  note-Lets none i b s = acc

IsAccepted-more :
    (c : Context) (r : Option Request) (auth : Option String) (cdb : Dict ClientInfo) (n : String)
    (names : List String) (x : Result)
    → Lets c r auth cdb names x
    → Lets c r auth cdb (n ∷ names) x
IsAccepted-more c r auth cdb n names (s, err e) h = tt
IsAccepted-more c r auth cdb n names (s, ok none) h = tt
IsAccepted-more c r auth cdb n names (s, ok (some a)) (name, m, b, t, a0, i, g, us, q, v, w, x) =
    (name, m, b, t, a0, inr i, g, us, q, v, w, x)

module _ (c : Context) (r : Option Request) (auth : Option String) (u : UsesDatabase c) where
  go_on-Lets :
      (n : String) (names : List String) (s : State) (rest : State → Locals → Result) (t : Round)
      → RoundIs c r auth (Dict.get c.client_authn_methods n) s t
      → ((s' : State) (l : Locals) → s'.cdb ≡ s.cdb → Lets c r auth s.cdb names (rest s' l))
      → Lets c r auth s.cdb (n ∷ names) (go_on c rest t)
  go_on-Lets n names s rest (next s' l) w h =
      IsAccepted-more c r auth s.cdb n names (rest s' l) (h s' l w)
  go_on-Lets n names s rest (raise s' e) w h = tt
  go_on-Lets n names s rest (break s' l a) (w, (k, after, a0, m, us, v, q, x)) h =
      note-Lets c r auth s.cdb (n ∷ names) a (n, k, s, after, a0, inl refl, m, us, refl, v, q, x)
        l.client_id l.cinfo l.has_cdb s'

  rounds-Lets :
      (names : List String) (s : State) (l : Locals)
      → Lets c r auth s.cdb names (rounds c r auth names s l)
  unfolding rounds
  rounds-Lets [] s l = tt
  rounds-Lets (n ∷ names) s l =
      go_on-Lets n names s (rounds c r auth names)
        (round c r auth (Dict.get c.client_authn_methods n) s l)
        (round-RoundIs c r auth (Dict.get c.client_authn_methods n) s l u)
        (λ s' l' q. rw (sym q) (rounds-Lets names s' l'))

-- Where clients are looked up in the client database alone, what `verify_client` returns comes from a
-- method that the endpoint allows, which could be used on the request and accepted it, and is either for
-- no client, by the method "none", or for a client in the database as it was, whose secret has not
-- expired, and that may use the method at this endpoint.
pub verify_client-IsAccepted :
    (c : Context) (r : Option Request) (auth : Option String) (s : State) {s' : State}
    {a : AuthInfo}
    → UsesDatabase c
    → verify_client c r auth s ≡ (s', ok (some a))
    → IsAccepted c r auth s.cdb (names_or_all c.client_authn_method c.client_authn_methods) a
unfolding verify_client
verify_client-IsAccepted c r auth s u e =
    rw e at (
      rounds-Lets c r auth u (names_or_all c.client_authn_method c.client_authn_methods) s
        no_locals)
