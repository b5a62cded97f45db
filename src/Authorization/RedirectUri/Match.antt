-- ===== src/Authorization/RedirectUri/Match.antt =====
-- Which URIs `verify_uri` accepts.
use idpy_oidc.Base.{
  ◌≡◌, refl, ap, inl, inr, Bool, false, Option, none, some, List, [], ◌∷◌, String, ◌==◌, eq_iff,
  arith, In, is_nonempty, contains-In, ok, >>=-eq_ok, Bool-cases,
}
use idpy_oidc.Dict
use idpy_oidc.Dict.{Dict}
use idpy_oidc.Authorization.RedirectUri.{
  Query, Uri, Error, not_in_query, missing_value, extra_in_query, extra_value, all_in, values_in,
  covered, same_query, match_uri, Client, verify_uri,
}

-- Every entry of the first query part has its values among those of the same name in the second.
abbrev pub IsWithin : Query → Query → Type 0
IsWithin r q =
    (k : String) (vs : List String)
    → In (k, vs) r
    → (ws : List String) × (Dict.get q k ≡ some ws) × ((v : String) → In v vs → In v ws)

all_in-In :
    (e : Error) (vs ws : List String) → all_in e vs ws ≡ ok tt → (v : String) → In v vs → In v ws
unfolding all_in
all_in-In e [] ws h v m = absurd m
all_in-In e (x ∷ vs) ws h v (inl p) = rw p (contains-In x ws (ground arith))
all_in-In e (x ∷ vs) ws h v (inr m) = all_in-In e vs ws (ground arith) v m

values_in-some :
    (a e : Error) (us : List String) (found : Option (List String))
    → values_in a e us found ≡ ok tt
    → (ws : List String) × (found ≡ some ws) × (all_in e us ws ≡ ok tt)
values_in-some a e us none h = absurd (ground arith)
values_in-some a e us (some ws) h = (ws, refl, h)

covered_cons :
    (a e : Error) (j : String) (us : List String) (r q : Query)
    → covered a e ((j, us) ∷ r) q ≡ ok tt
    → (values_in a e us (Dict.get q j) ≡ ok tt) × (covered a e r q ≡ ok tt)
unfolding covered
covered_cons a e j us r q h =
    let (u, first, rest) = >>=-eq_ok (values_in a e us (Dict.get q j)) (λ _. covered a e r q) h in
    (first, rest)

entry-IsWithin :
    (a e : Error) (us : List String) (found : Option (List String))
    → values_in a e us found ≡ ok tt
    → (ws : List String) × (found ≡ some ws) × ((v : String) → In v us → In v ws)
entry-IsWithin a e us found h =
    let (ws, f, g) = values_in-some a e us found h in (ws, f, all_in-In e us ws g)

covered-IsWithin : (a e : Error) (r q : Query) → covered a e r q ≡ ok tt → IsWithin r q
covered-IsWithin a e [] q h k vs m = absurd m
covered-IsWithin a e ((j, us) ∷ r) q h k vs (inl p) =
    let (first, rest) = covered_cons a e j us r q h in
    let key : k ≡ j = cc in
    let values : vs ≡ us = cc in rw (key, values) (entry-IsWithin a e us (Dict.get q j) first)
covered-IsWithin a e ((j, us) ∷ r) q h k vs (inr m) =
    let (first, rest) = covered_cons a e j us r q h in covered-IsWithin a e r q rest k vs m

same_query-IsWithin : (r q : Query) → same_query r q ≡ ok tt → IsWithin r q × IsWithin q r
unfolding same_query
same_query-IsWithin [] [] h = (λ k vs m. absurd m, λ k vs m. absurd m)
same_query-IsWithin (r ∷ rs) [] h = absurd (ground arith)
same_query-IsWithin [] (q ∷ qs) h = absurd (ground arith)
same_query-IsWithin (r ∷ rs) (q ∷ qs) h =
    let (u, there, back) =
      >>=-eq_ok (covered not_in_query missing_value (r ∷ rs) (q ∷ qs))
        (λ _. covered extra_in_query extra_value (q ∷ qs) (r ∷ rs)) h in
    (
      covered-IsWithin not_in_query missing_value (r ∷ rs) (q ∷ qs) there,
      covered-IsWithin extra_in_query extra_value (q ∷ qs) (r ∷ rs) back,
    )

-- A registered URI with this base, and the same values of the same names in the query part.
abbrev pub IsRegistered : String → Query → List (String × Query) → Type 0
IsRegistered base query uris =
    (rquery : Query) × In (base, rquery) uris × IsWithin rquery query × IsWithin query rquery

match_uri-IsRegistered :
    (base : String) (query : Query) (uris : List (String × Query))
    → match_uri base query uris ≡ ok tt
    → IsRegistered base query uris
unfolding match_uri
match_uri-IsRegistered base query [] h = absurd (ground arith)
match_uri-IsRegistered base query ((regbase, rquery) ∷ uris) h =
    elim (Bool-cases (base == regbase)) [
      | inl t ↦
          let (there, back) = same_query-IsWithin rquery query (ground arith) in
          (rquery, inl (ap (λ b. (b, rquery)) (ground (arith, eq_iff base regbase))), there, back)
      | inr f ↦
          let (found, m, there, back) = match_uri-IsRegistered base query uris (ground arith) in
          (found, inr m, there, back)
    ]

-- Where the client has registered URIs, a request's URI that passes, on any type of endpoint, has no
-- fragment and is one of them: a registered URI has its base, and the same values of the same names
-- in its query part.
pub verify_uri-IsRegistered :
    (cdb : Dict Client) (oidc : Bool) (cid : String) (uri : Uri) (uris : List (String × Query))
    → Dict.get cdb cid ≡ some record { uris = some uris }
    → verify_uri cdb oidc (some cid) (some uri) ≡ ok tt
    → (is_nonempty uri.fragment ≡ false) × IsRegistered uri.base uri.query uris
unfolding verify_uri
verify_uri-IsRegistered cdb oidc cid uri uris known h =
    (ground arith, match_uri-IsRegistered uri.base uri.query uris (ground (arith, known)))
