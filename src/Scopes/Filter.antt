-- ===== src/Scopes/Filter.antt =====
-- Which scopes a client gets, and which requests the policy on unknown scopes refuses.
use idpy_oidc.Base.{
  ◌≡◌, refl, ap, ◌↔◌, inl, inr, Bool, true, ◌&&◌, Option, List, [], ◌∷◌, String, arith, In,
  contains, contains-In, In-contains, eq_iff,
}
use idpy_oidc.Scopes.{
  Scopes, Client, get_allowed_scopes, keep_in, filter_scopes, subset, denies,
  check_unknown_scopes_policy,
}

same_contains : (s x : String) (l : List String) → s ≡ x → contains s l ≡ contains x l
same_contains s x l e = ap (λ t. contains t l) e

pub contains-keep_in :
    (allowed ss : List String) (s : String)
    → contains s (keep_in allowed ss) ≡ (contains s allowed && contains s ss)
unfolding keep_in
contains-keep_in allowed [] s = ground arith
contains-keep_in allowed (x ∷ xs) s =
    ground (arith, eq_iff s x, same_contains s x allowed, contains-keep_in allowed xs s)

pub subset-In :
    (xs ys : List String) → subset xs ys ≡ true → (s : String) → In s xs → contains s ys ≡ true
subset-In [] ys h s m = absurd m
subset-In (x ∷ xs) ys h s (inl e) = ground (arith, same_contains s x ys e)
subset-In (x ∷ xs) ys h s (inr m) = subset-In xs ys (ground arith) s m

In-subset :
    (xs ys : List String) → ((s : String) → In s xs → contains s ys ≡ true) → subset xs ys ≡ true
In-subset [] ys h = refl
In-subset (x ∷ xs) ys h = rw (h x (inl refl)) (In-subset xs ys (λ s m. h s (inr m)))

-- A scope is kept exactly when it was asked for and the client may use it.
pub filter_scopes_iff :
    (sc : Scopes) (scopes : List String) (client : Option Client) (s : String)
    → In s (filter_scopes sc scopes client) ↔ (In s scopes × In s (get_allowed_scopes sc client))
unfolding filter_scopes
filter_scopes_iff sc scopes client s = (to, from)
  where
    eq :
        contains s (keep_in (get_allowed_scopes sc client) scopes)
        ≡ (contains s (get_allowed_scopes sc client) && contains s scopes)
    eq = contains-keep_in (get_allowed_scopes sc client) scopes s

    to :
        In s (keep_in (get_allowed_scopes sc client) scopes)
        → In s scopes × In s (get_allowed_scopes sc client)
    to m =
        let t = In-contains s _ m in
        (
          contains-In s scopes (ground (arith, eq, t)),
          contains-In s (get_allowed_scopes sc client) (ground (arith, eq, t)),
        )

    from :
        In s scopes × In s (get_allowed_scopes sc client)
        → In s (keep_in (get_allowed_scopes sc client) scopes)
    from (m, a) =
        contains-In s _ (
          ground
            (arith, eq, In-contains s scopes m, In-contains s (get_allowed_scopes sc client) a))

-- Where unknown scopes are denied, by the client's entry or else by the preference, a request
-- passes exactly when the client may use every scope in it.
pub check_unknown_scopes_policy_iff :
    (sc : Scopes) (scopes : List String) (client : Option Client) (preference : Bool)
    → denies client preference ≡ true
    → (check_unknown_scopes_policy sc preference scopes client ≡ true)
      ↔ ((s : String) → In s scopes → In s (get_allowed_scopes sc client))
unfolding check_unknown_scopes_policy filter_scopes
check_unknown_scopes_policy_iff sc scopes client preference d = (to, from)
  where
    to :
        check_unknown_scopes_policy sc preference scopes client ≡ true
        → (s : String) → In s scopes
        → In s (get_allowed_scopes sc client)
    to h s m = contains-In s (get_allowed_scopes sc client) (
        ground (
          arith,
          contains-keep_in (get_allowed_scopes sc client) scopes s,
          subset-In scopes (keep_in (get_allowed_scopes sc client) scopes) (ground arith) s m,
        ))

    back :
        (s : String)
        → In s (keep_in (get_allowed_scopes sc client) scopes)
        → contains s scopes ≡ true
    back s m =
        ground (arith, contains-keep_in (get_allowed_scopes sc client) scopes s, In-contains s _ m)

    from :
        ((s : String) → In s scopes → In s (get_allowed_scopes sc client))
        → check_unknown_scopes_policy sc preference scopes client ≡ true
    from h = rw d (
        ground (
          arith,
          In-subset scopes (keep_in (get_allowed_scopes sc client) scopes) (λ s m. ground (
            arith,
            contains-keep_in (get_allowed_scopes sc client) scopes s,
            In-contains s scopes m,
            In-contains s (get_allowed_scopes sc client) (h s m),
          )),
          In-subset (keep_in (get_allowed_scopes sc client) scopes) scopes back,
        ))
