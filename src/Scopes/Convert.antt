-- ===== src/Scopes/Convert.antt =====
-- Which claims a list of scopes stands for.
use idpy_oidc.Base.{
  ◌≡◌, refl, sym, ap, ◌∙◌, ◌↔◌, inl, inr, Bool, true, false, ◌&&◌, ◌||◌, Option, none, some, List,
  [], ◌∷◌, String, ◌==◌, arith, In, contains, contains-In, In-contains, eq_iff, Bool-cases,
  if◌then◌else◌,
}
use idpy_oidc.Dict
use idpy_oidc.Dict.{get-put}
use idpy_oidc.Session.Claims.{Claims}
use idpy_oidc.Scopes.{
  Mapping, claims_of, add_names, mapping_or, convert_from, convert_scopes2claims,
}

abbrev is_allowed : Option (List String) → String → Bool
is_allowed none n = true
is_allowed (some allowed) n = contains n allowed

put_key :
    (res : Claims) (k n : String)
    → Dict.contains_key (Dict.put res k none) n ≡ (n == k || Dict.contains_key res n)
unfolding Dict.contains_key
put_key res k n = ground (arith, get-put res k n none, eq_iff k n, eq_iff n k)

same_allowed :
    (allowed : Option (List String)) (n k : String)
    → n ≡ k
    → is_allowed allowed n ≡ is_allowed allowed k
same_allowed allowed n k e = ap (is_allowed allowed) e

add_names-key :
    (allowed : Option (List String)) (res : Claims) (ns : List String) (n : String)
    → Dict.contains_key (add_names allowed res ns) n
      ≡ (Dict.contains_key res n || (contains n ns && is_allowed allowed n))
unfolding add_names
add_names-key none res [] n = ground arith
add_names-key (some a) res [] n = ground arith
add_names-key none res (k ∷ ns) n =
    add_names-key none (Dict.put res k none) ns n ∙ ground (arith, put_key res k n)
add_names-key (some a) res (k ∷ ns) n =
    add_names-key (some a) (if contains k a then Dict.put res k none else res) ns n
    ∙ ground (arith, put_key res k n, eq_iff n k, same_allowed (some a) n k)

-- Some scope of the list stands for the claim.
abbrev in_some : Option (List String) → Mapping → List String → String → Bool
in_some allowed m [] n = false
in_some allowed m (s ∷ ss) n =
    (contains n (claims_of (Dict.get m s)) && is_allowed allowed n) || in_some allowed m ss n

convert_from-key :
    (allowed : Option (List String)) (m : Mapping) (res : Claims) (ss : List String) (n : String)
    → Dict.contains_key (convert_from allowed m res ss) n
      ≡ (Dict.contains_key res n || in_some allowed m ss n)
unfolding convert_from
convert_from-key allowed m res [] n = ground arith
convert_from-key allowed m res (s ∷ ss) n =
    convert_from-key allowed m (add_names allowed res (claims_of (Dict.get m s))) ss n
    ∙ ground (arith, add_names-key allowed res (claims_of (Dict.get m s)) n)

-- A scope of the list whose claims in the mapping have the name, where the name is allowed.
abbrev pub StandsFor : Option (List String) → Mapping → List String → String → Type 0
StandsFor allowed m scopes n =
    (s : String) × In s scopes × In n (claims_of (Dict.get m s)) × (is_allowed allowed n ≡ true)

in_some-found :
    (allowed : Option (List String)) (m : Mapping) (ss : List String) (n : String)
    → in_some allowed m ss n ≡ true
    → StandsFor allowed m ss n
in_some-found allowed m [] n h = absurd (ground arith)
in_some-found allowed m (s ∷ ss) n h =
    elim (Bool-cases (contains n (claims_of (Dict.get m s)) && is_allowed allowed n)) [
      | inl e ↦ (s, inl refl, contains-In n (claims_of (Dict.get m s)) (ground arith), ground arith)
      | inr e ↦ let (t, i, c, a) = in_some-found allowed m ss n (ground arith) in (t, inr i, c, a)
    ]

found-in_some :
    (allowed : Option (List String)) (m : Mapping) (ss : List String) (n s : String)
    → In s ss
    → In n (claims_of (Dict.get m s))
    → is_allowed allowed n ≡ true
    → in_some allowed m ss n ≡ true
found-in_some allowed m [] n s i c a = absurd i
found-in_some allowed m (t ∷ ss) n s (inl e) c a =
    rw (In-contains n (claims_of (Dict.get m t)) (rw e at c), a)
found-in_some allowed m (t ∷ ss) n s (inr i) c a =
    ground (arith, found-in_some allowed m ss n s i c a)

-- The result asks for a claim exactly when one of the scopes stands for it and it is allowed; an
-- empty mapping is the default one.
pub convert_scopes2claims_iff :
    (scopes : List String) (allowed : Option (List String)) (m : Mapping) (n : String)
    → (Dict.contains_key (convert_scopes2claims scopes allowed m) n ≡ true)
      ↔ StandsFor allowed (mapping_or m) scopes n
unfolding convert_scopes2claims
convert_scopes2claims_iff scopes allowed m n = (
  λ h. in_some-found allowed (mapping_or m) scopes n (sym eq ∙ h),
  λ (s, i, c, a). eq ∙ found-in_some allowed (mapping_or m) scopes n s i c a,
)
  where
    eq :
        Dict.contains_key (convert_from allowed (mapping_or m) [] scopes) n
        ≡ in_some allowed (mapping_or m) scopes n
    eq =
        convert_from-key allowed (mapping_or m) [] scopes n
        ∙ unfold Dict.contains_key Dict.get in refl
