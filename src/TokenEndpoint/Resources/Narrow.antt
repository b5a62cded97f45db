-- ===== src/TokenEndpoint/Resources/Narrow.antt =====
-- What a request may ask for once the policy for resource indicators has narrowed it.
use idpy_oidc.Base.{
  In-append_either, ◌≡◌, refl, sym, ◌⊎◌, inl, inr, true, Option, none, some, List, [], ◌∷◌, String,
  arith, contains, contains-In, In-contains, In, In-append_one, Outcome, ok, err, ok_inj, >>=-eq_ok,
  Bool-cases,
}
use idpy_oidc.Dict
use idpy_oidc.Dict.{Dict}
use idpy_oidc.Scopes.{Client, keep_in}
use idpy_oidc.Scopes.Filter.{contains-keep_in}
use idpy_oidc.TokenEndpoint.{Exception}
use idpy_oidc.TokenEndpoint.Request.{AccessTokenRequest, request}
use idpy_oidc.TokenEndpoint.Resources.{
  Servers, permitted, known_of, allowed_of, scopes_of, with_client, end_narrow, narrow_known,
  narrow_common, validate_resource_indicators_policy,
}

-- A resource that was asked for, that the client may ask for and that is a client itself.
abbrev pub IsServed : Dict Client → List String → List String → String → Type 0
IsServed cdb asked l x = In x asked × In x l × (Dict.contains_key cdb x ≡ true)

-- A scope that one of the resources allows.
abbrev pub IsAllowed : Dict Client → List String → String → Type 0
IsAllowed cdb rs s =
    (x : String) × (c : Client) × (l : List String) × In x rs
    × (Dict.get cdb x ≡ some c)
    × (c.allowed_scopes ≡ some l)
    × In s l

pub In-keep_in :
    (allowed ss : List String) (s : String) → In s (keep_in allowed ss) → In s ss × In s allowed
In-keep_in allowed ss s m = (
  contains-In s ss
      (ground (arith, contains-keep_in allowed ss s, In-contains s (keep_in allowed ss) m)),
  contains-In s allowed
      (ground (arith, contains-keep_in allowed ss s, In-contains s (keep_in allowed ss) m)),
)

In-known_of :
    (cdb : Dict Client) (rs : List String) (x : String)
    → In x (known_of cdb rs)
    → In x rs × (Dict.contains_key cdb x ≡ true)
unfolding known_of
In-known_of cdb [] x m = absurd m
In-known_of cdb (r ∷ rs) x m = elim (Bool-cases (Dict.contains_key cdb r)) [
  | inr f ↦ let (i, k) = In-known_of cdb rs x (rw f at m) in (inr i, k)
  | inl t ↦ elim (rw t at m) [
    | inl e ↦ (inl e, rw e t)
    | inr i ↦ let (j, k) = In-known_of cdb rs x i in (inr j, k)
  ]
]

allowed_of_lem :
    (o : Option Client) (l : List String)
    → allowed_of o ≡ ok l
    → (c : Client) × (o ≡ some c) × (c.allowed_scopes ≡ some l)
allowed_of_lem none l h = absurd (ground arith)
allowed_of_lem (some c) l h = (c, refl, ground (arith, h))

scopes_of-IsAllowed :
    (cdb : Dict Client) (rs scopes : List String) (s : String)
    → scopes_of cdb rs ≡ ok scopes
    → In s scopes
    → IsAllowed cdb rs s
unfolding scopes_of
scopes_of-IsAllowed cdb [] scopes s h m = absurd (rw (sym (ok_inj h)) at m)
scopes_of-IsAllowed cdb (r ∷ rs) scopes s h m =
    let (l, e, h') = >>=-eq_ok (allowed_of (Dict.get cdb r)) _ h in
    let (ls, e', h'') = >>=-eq_ok (scopes_of cdb rs) _ h' in
    let (c, g, a) = allowed_of_lem (Dict.get cdb r) l e in
    elim (In-append_either s l ls (rw (sym (ok_inj h'')) at m)) [
      | inl i ↦ (r, c, l, inl refl, g, a, i)
      | inr j ↦
          let (x, c', l', i, g', a', k) = scopes_of-IsAllowed cdb rs ls s e' j in
          (x, c', l', inr i, g', a', k)
    ]

end_narrow_lem :
    (req : AccessTokenRequest) (rs : List String) (o : Outcome Exception (List String))
    (r : AccessTokenRequest)
    → end_narrow req rs o ≡ request r
    → (scopes : List String) × (o ≡ ok scopes)
      × (r ≡ record req { resource = some rs; scope = keep_in scopes req.scope })
end_narrow_lem req rs (err x) r h = absurd (ground arith)
end_narrow_lem req rs (ok scopes) r h = (scopes, refl, cc)

-- The resources that are left, and the scopes.
pub record IsNarrowed (cdb : Dict Client) (req : AccessTokenRequest) (asked l : List String)
    (client_id : String) (r : AccessTokenRequest) : Type 0 where
  pub resources : List String
  pub resource : r.resource ≡ some resources
  pub served : (x : String) → In x resources → (x ≡ client_id) ⊎ IsServed cdb asked l x
  pub scoped : (s : String) → In s r.scope → In s req.scope × IsAllowed cdb resources s

with_client-In :
    (client_id : String) (rs : List String) (x : String)
    → In x (with_client client_id rs)
    → (x ≡ client_id) ⊎ In x rs
with_client-In client_id rs x m = elim (Bool-cases (contains client_id rs)) [
  | inl t ↦ inr (rw t at m)
  | inr f ↦ elim (In-append_one x client_id rs (rw f at m)) [ inl i ↦ inr i | inr e ↦ inl e ]
]

module _ (cdb : Dict Client) (req : AccessTokenRequest) (asked l : List String) (client_id : String)
    (r : AccessTokenRequest) where
  narrow_known-IsNarrowed :
      (rs : List String)
      → ((x : String) → In x rs → IsServed cdb asked l x)
      → narrow_known cdb req client_id rs ≡ request r
      → IsNarrowed cdb req asked l client_id r
  narrow_known-IsNarrowed [] served h = absurd (ground arith)
  narrow_known-IsNarrowed (k ∷ ks) served h =
      let all : List String = with_client client_id (k ∷ ks) in
      let (scopes, e, q) = end_narrow_lem req all (scopes_of cdb all) r h in
      rw q (record {
        resources = all;
        resource = refl;
        served = λ x m. elim (with_client-In client_id (k ∷ ks) x m) [
          | inl e ↦ inl e
          | inr i ↦ inr (served x i)
        ];
        scoped = λ s m.
            let (asked_for, i) = In-keep_in scopes req.scope s m in
            (asked_for, scopes_of-IsAllowed cdb all scopes s e i);
      })

  narrow_common-IsNarrowed :
      (rs : List String)
      → ((x : String) → In x rs → In x asked × In x l)
      → narrow_common cdb req client_id rs ≡ request r
      → IsNarrowed cdb req asked l client_id r
  narrow_common-IsNarrowed [] served h = absurd (ground arith)
  narrow_common-IsNarrowed (k ∷ ks) served h =
      narrow_known-IsNarrowed (known_of cdb (k ∷ ks))
        (λ x m.
          let (i, known) = In-known_of cdb (k ∷ ks) x m in let (a, p) = served x i in (a, p, known))
        h

  -- A request that the policy lets through asks for resources of which each is the client itself, or
  -- was asked for, is permitted to the client and is known; and for scopes of which each was asked
  -- for and is allowed by one of these resources.
  pub validate_resource_indicators_policy-IsNarrowed :
      (servers : Servers)
      → req.resource ≡ some asked
      → req.client_id ≡ some client_id
      → permitted servers client_id ≡ some l
      → validate_resource_indicators_policy servers cdb req ≡ request r
      → IsNarrowed cdb req asked l client_id r
  unfolding validate_resource_indicators_policy
  validate_resource_indicators_policy-IsNarrowed servers given who may h =
      narrow_common-IsNarrowed (keep_in l asked) (In-keep_in l asked)
        (rw (given, who, may, validate_resource_indicators_policy) at h)
