-- ===== src/Session/Claims/Interface/Leak.antt =====
-- The claims that a client always gets, from one call to the next.
use idpy_oidc.Base.{
  ◌≡◌, refl, sym, ap, ◌∙◌, ◌↔◌, ◌⊎◌, inl, inr, Bool, true, ◌||◌, Bool-cases, true-false, Option,
  some, List, [], ◌∷◌, ◌++◌, String, arith, In, is_nonempty,
}
use idpy_oidc.Dict
use idpy_oidc.Dict.Keys.{get-put_self}
use idpy_oidc.Scopes.{Scopes, Client}
use idpy_oidc.Session.Claims.Interface.{
  Module, AddClaims, ClaimsRequest, client_always, client_by_scope, after_client_claims, extended,
  or_nil, to_specs, own_settings, get_claims_from_request,
}
use idpy_oidc.Session.Claims.Interface.Sources.{get_claims_from_request-key}
use idpy_oidc.Session.Claims.Interface.Settings.{to_specs_iff}

to_specs-append :
    (xs ys : List String) (k : String)
    → Dict.contains_key (to_specs (xs ++ ys)) k
      ≡ (Dict.contains_key (to_specs xs) k || Dict.contains_key (to_specs ys) k)
unfolding Dict.contains_key Dict.get
to_specs-append [] ys k = refl
to_specs-append (x ∷ xs) ys k = ground (arith, to_specs-append xs ys k)

grown :
    (a : AddClaims) (point secondary : String) (xs ys : List String)
    → is_nonempty secondary ≡ true
    → Dict.get a.always point ≡ some xs
    → Dict.get a.always secondary ≡ some ys
    → after_client_claims a point secondary
      ≡ record a { always = Dict.put a.always point (xs ++ ys) }
unfolding after_client_claims
grown a point secondary xs ys n e e' =
    rw (n, after_client_claims, extended, or_nil, e, or_nil, e') refl

later_always :
    (a : AddClaims) (point : String) (zs : List String)
    → client_always (record a { always = Dict.put a.always point zs }) point "" ≡ zs
unfolding client_always
later_always a point zs = ap or_nil (get-put_self a.always point zs)

first_always :
    (a : AddClaims) (point : String) (xs : List String)
    → Dict.get a.always point ≡ some xs
    → client_always a point "" ≡ xs
unfolding client_always
first_always a point xs e = ap or_nil e

own_counts :
    (m : Module) (a : AddClaims)
    → m.enable_claims_per_client ≡ true
    → own_settings m (some a) ≡ some a
own_counts m a on = rw on refl

widened :
    (b x y s q : Bool) {P : Type 0}
    → (y ≡ true) ↔ P
    → ((b || (x || y) || s || q) ≡ true) ↔ (((b || x || s || q) ≡ true) ⊎ P)
widened b x y s q p = elim (Bool-cases y) [
  | inl t ↦ (λ h. inr (p.0 t), λ h. ground (arith, t))
  | inr f ↦ (
    λ h. inl (ground (arith, f)),
    elim [ inl h ↦ ground (arith, f) | inr i ↦ absurd (true-false (sym (p.1 i) ∙ f)) ],
  )
]

-- A call for a client's claims at one release point, with a second point, changes what later calls ask for: it
-- leaves settings of the client with which a call for the first point alone asks for the claims that it
-- asked for before and for all those that the client has listed for the second point. The module lets the
-- client's settings count, the second point is not empty, and the client has a list for each point.
pub client_always_leaks :
    (handler : Scopes) (client : Option Client) (m : Module) (a : AddClaims)
    (r later : ClaimsRequest) (point secondary : String)
    (scopes later_scopes : Option (List String)) (xs ys : List String)
    → m.enable_claims_per_client ≡ true
    → is_nonempty secondary ≡ true
    → Dict.get a.always point ≡ some xs
    → Dict.get a.always secondary ≡ some ys
    → (a' : AddClaims) × ((get_claims_from_request handler client
          (some m)
          (some a)
          r
          point
          scopes
          secondary).1
        ≡ some a')
      × ((k : String)
          → (Dict.contains_key
                (get_claims_from_request handler client
                  (some m)
                  (some a')
                  later
                  point
                  later_scopes
                  "").0
                k
              ≡ true)
            ↔ ((Dict.contains_key
                    (get_claims_from_request handler client
                      (some m)
                      (some a)
                      later
                      point
                      later_scopes
                      "").0
                    k
                  ≡ true)
                ⊎ In k ys))
unfolding client_by_scope
client_always_leaks handler client m a r later point secondary scopes later_scopes xs ys on n e e' =
    (
      a',
      unfold get_claims_from_request in rw on (ap some (grown a point secondary xs ys n e e')),
      asks,
    )
  where
    a' : AddClaims
    a' = record a { always = Dict.put a.always point (xs ++ ys) }

    asks :
        (k : String)
        → (Dict.contains_key
              (get_claims_from_request handler client
                (some m)
                (some a')
                later
                point
                later_scopes
                "").0
              k
            ≡ true)
          ↔ ((Dict.contains_key
                  (get_claims_from_request handler client
                    (some m)
                    (some a)
                    later
                    point
                    later_scopes
                    "").0
                  k
                ≡ true)
              ⊎ In k ys)
    asks k =
        rw
          (
            get_claims_from_request-key handler client m (some a') later point later_scopes "" k,
            get_claims_from_request-key handler client m (some a) later point later_scopes "" k,
            own_counts m a' on,
            own_counts m a on,
            later_always a point (xs ++ ys),
            first_always a point xs e,
            to_specs-append xs ys k,
          )
          (widened _ _ _ _ _ (to_specs_iff ys k))
