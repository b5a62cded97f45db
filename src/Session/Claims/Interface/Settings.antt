-- ===== src/Session/Claims/Interface/Settings.antt =====
-- The settings and the request that `get_claims_from_request` goes by, as predicates.
use mathlib.Core.Path.{subst}
use idpy_oidc.Base.{
  ◌≡◌, refl, sym, ◌∙◌, ◌↔◌, ◌⊎◌, inl, inr, Bool, true, false, ◌||◌, Bool-cases, true-false, Option,
  none, some, none-some, some_inj, List, [], ◌∷◌, String, ◌==◌, eq_iff, ==_of_eq, In,
  In-append_either, In-append_left, In-append_right, is_some, is_nonempty,
}
use idpy_oidc.Dict
use idpy_oidc.Dict.{Dict}
use idpy_oidc.Session.Claims.{Spec, Claims}
use idpy_oidc.Session.Claims.Interface.{
  Always, names, specs, Module, AddClaims, ClaimsRequest, or_nil, to_specs, always_specs,
  client_always,
}

abbrev pub HasKey : Claims → String → Type 0
HasKey c k = (s : Spec) × (Dict.get c k ≡ some s)

abbrev pub IsListed : Dict (List String) → String → String → Type 0
IsListed d point k = (xs : List String) × (Dict.get d point ≡ some xs) × In k xs

-- The client is known and has these settings, and the module lets them count.
abbrev pub CountsOwn : Module → Option AddClaims → AddClaims → Type 0
CountsOwn m a s = (m.enable_claims_per_client ≡ true) × (a ≡ some s)

abbrev pub WithoutOwn : Module → Option AddClaims → Type 0
WithoutOwn m a = (m.enable_claims_per_client ≡ false) ⊎ (a ≡ none)

abbrev pub IsAlwaysOf : Always → String → Type 0
IsAlwaysOf (names ns) k = In k ns
IsAlwaysOf (specs c) k = HasKey c k

-- A client's list for the point, or for the second point where there is one; else the module's own names.
abbrev pub IsAlways : Module → Option AddClaims → String → String → String → Type 0
IsAlways m a point secondary k =
    ((s : AddClaims) × CountsOwn m a s
      × (IsListed s.always point k
          ⊎ ((is_nonempty secondary ≡ true) × IsListed s.always secondary k)))
    ⊎ (WithoutOwn m a × IsAlwaysOf m.always_add_claims k)

-- A client adds claims by scope as it says for the point, else as it says for the second point, which has to
-- say so. Without a second point, and where the client says nothing at all, the module decides.
abbrev pub SaysByScope : AddClaims → Module → String → String → Type 0
SaysByScope s m point secondary =
    (Dict.get s.by_scope point ≡ some true)
    ⊎ ((Dict.get s.by_scope point ≡ none)
        × (((is_nonempty secondary ≡ true) × (Dict.get s.by_scope secondary ≡ some true))
            ⊎ (((is_nonempty secondary ≡ false) ⊎ (s.by_scope ≡ []))
                × (m.add_claims_by_scope ≡ true))))

abbrev pub AddsByScope : Module → Option AddClaims → String → String → Type 0
AddsByScope m a point secondary =
    ((s : AddClaims) × CountsOwn m a s × SaysByScope s m point secondary)
    ⊎ (WithoutOwn m a × (m.add_claims_by_scope ≡ true))

-- The scopes of the call, else those of the request.
abbrev pub scopes_asked : Option (List String) → Option (List String) → List String
scopes_asked (some xs) o = xs
scopes_asked none (some ys) = ys
scopes_asked none none = []

abbrev pub IsRequested : ClaimsRequest → String → String → Type 0
IsRequested r point k =
    (c : Dict Claims) × (r.claims ≡ some c)
    × (d : Claims) × (Dict.get c point ≡ some d)
    × HasKey d k

pub HasKey-iff : (c : Claims) (k : String) → (Dict.contains_key c k ≡ true) ↔ HasKey c k
unfolding Dict.contains_key
HasKey-iff c k = found (Dict.get c k)
  where
    found : (o : Option Spec) → (is_some o ≡ true) ↔ ((s : Spec) × (o ≡ some s))
    found none = (λ e. absurd (true-false (sym e)), λ (s, e). absurd (none-some e))
    found (some s) = (λ e. (s, refl), λ x. refl)

or_iff : (a b : Bool) → ((a || b) ≡ true) ↔ ((a ≡ true) ⊎ (b ≡ true))
or_iff true b = (λ e. inl refl, λ x. refl)
or_iff false b = (λ e. inr e, elim [ inl e ↦ absurd (true-false (sym e)) | inr e ↦ e ])

pub to_specs_iff :
    (ns : List String) (k : String) → (Dict.contains_key (to_specs ns) k ≡ true) ↔ In k ns
unfolding Dict.contains_key Dict.get
to_specs_iff [] k = (λ e. absurd (true-false (sym e)), λ m. absurd m)
to_specs_iff (n ∷ ns) k = elim (Bool-cases (n == k)) [
  | inl y ↦ rw y (λ e. inl (sym ((eq_iff n k).0 y)), λ m. refl)
  | inr f ↦ rw f (
    λ e. inr ((to_specs_iff ns k).0 e),
    elim [
      | inl e ↦ absurd (true-false (sym (==_of_eq (sym e)) ∙ f))
      | inr m ↦ (to_specs_iff ns k).1 m
    ],
  )
]

IsListed-iff :
    (d : Dict (List String)) (point k : String)
    → In k (or_nil (Dict.get d point)) ↔ IsListed d point k
IsListed-iff d point k = found (Dict.get d point)
  where
    found :
        (o : Option (List String))
        → In k (or_nil o) ↔ ((xs : List String) × (o ≡ some xs) × In k xs)
    found none = (λ m. absurd m, λ (xs, e, m). absurd (none-some e))
    found (some ys) = (λ m. (ys, refl, m), λ (xs, e, m). subst (λ l. In k l) (sym (some_inj e)) m)

pub client_always_iff :
    (s : AddClaims) (point secondary k : String)
    → In k (client_always s point secondary) ↔ (
        IsListed s.always point k
        ⊎ ((is_nonempty secondary ≡ true) × IsListed s.always secondary k))
unfolding client_always
client_always_iff s point secondary k = elim (Bool-cases (is_nonempty secondary)) [
  | inl y ↦
      rw (y, client_always)
        (
          λ m. elim (In-append_either k (or_nil (Dict.get s.always point)) _ m) [
            | inl i ↦ inl ((IsListed-iff s.always point k).0 i)
            | inr i ↦ inr (refl, (IsListed-iff s.always secondary k).0 i)
          ],
          elim [
            | inl l ↦ In-append_left k _ _ ((IsListed-iff s.always point k).1 l)
            | inr (q, l) ↦
                In-append_right k (or_nil (Dict.get s.always point)) _
                  ((IsListed-iff s.always secondary k).1 l)
          ],
        )
  | inr f ↦
      rw (f, client_always)
        (
          λ m. inl ((IsListed-iff s.always point k).0 m),
          elim [
            | inl l ↦ (IsListed-iff s.always point k).1 l
            | inr (q, l) ↦ absurd (true-false (sym q))
          ],
        )
]

pub always_specs_iff :
    (w : Always) (k : String) → (Dict.contains_key (always_specs w) k ≡ true) ↔ IsAlwaysOf w k
always_specs_iff (names ns) k = to_specs_iff ns k
always_specs_iff (specs c) k = HasKey-iff c k
