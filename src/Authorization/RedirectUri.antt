-- ===== src/Authorization/RedirectUri.antt =====
-- `verify_uri` and `get_uri` of src/idpyoidc/server/oauth2/authorization.py. A URI is taken apart by
-- `urllib` and `split_uri`; here it comes as its parts.
pub mod Match
use idpy_oidc.Base.{
  Bool, not, Option, none, some, List, [], ◌∷◌, String, ◌==◌, is_nonempty, contains, Outcome, ok,
  err, ◌>>=◌, ◌>>◌, if◌then◌else◌,
}
use idpy_oidc.Dict
use idpy_oidc.Dict.{Dict}

-- The part after `?`, as `parse_qs` gives it; no query part is an empty dictionary.
abbrev pub Query : Type 0
Query = Dict (List String)

pub record Uri : Type 0 where
  pub text : String
  pub fragment : String
  pub base : String
  pub query : Query

pub data Error : Type 0 where
  unknown_client wrong_uri_type contains_fragment no_such_client no_registered_uri : Error
  missing_query no_registered_query not_in_query missing_value extra_in_query extra_value : Error
  no_match parameter_missing several_registered : Error

-- The loop over the values of a query component.
unfoldable pub all_in : Error → List String → List String → Outcome Error (Unit {0})
all_in e [] ws = ok tt
all_in e (v ∷ vs) ws = let rest = all_in e vs ws in if contains v ws then rest else err e

abbrev values_in : Error → Error → List String → Option (List String) → Outcome Error (Unit {0})
values_in absent e vs none = err absent
values_in absent e vs (some ws) = all_in e vs ws

-- Every component of one query part is in the other.
unfoldable pub covered : Error → Error → Query → Query → Outcome Error (Unit {0})
covered absent e [] q = ok tt
covered absent e ((k, vs) ∷ r) q = do values_in absent e vs (Dict.get q k); covered absent e r q

-- The checks where the base of the URI is that of a registered one.
unfoldable pub same_query : Query → Query → Outcome Error (Unit {0})
same_query [] [] = ok tt
same_query (r ∷ rs) [] = err missing_query
same_query [] (q ∷ qs) = err no_registered_query
same_query (r ∷ rs) (q ∷ qs) = do
  covered not_in_query missing_value (r ∷ rs) (q ∷ qs)
  covered extra_in_query extra_value (q ∷ qs) (r ∷ rs)

-- The loop over the registered URIs ends at the first with this base. A URI that is registered as
-- a text has an empty query part.
unfoldable pub match_uri : String → Query → List (String × Query) → Outcome Error (Unit {0})
match_uri base query [] = err no_match
match_uri base query ((regbase, rquery) ∷ uris) =
    let rest = match_uri base query uris in
    if base == regbase then same_query rquery query else rest

-- A client, by the URIs that it has registered for the type of URI; `none` is no such entry.
pub record Client : Type 0 where
  pub uris : Option (List (String × Query))

abbrev registered : Bool → Uri → Option (List (String × Query)) → Outcome Error (Unit {0})
registered oidc uri none = if oidc then err no_registered_uri else ok tt
registered oidc uri (some uris) = match_uri uri.base uri.query uris

abbrev of_client : Bool → Uri → Option Client → Outcome Error (Unit {0})
of_client oidc uri none = err no_such_client
of_client oidc uri (some c) = registered oidc uri c.uris

-- `verify_uri`, on the client's identifier of the request, or else the argument, and the URI of the
-- request; `cdb` is the dictionary of clients, and `oidc` the test on the type of the endpoint.
unfoldable pub verify_uri :
    Dict Client → Bool → Option String → Option Uri → Outcome Error (Unit {0})
verify_uri cdb oidc none uri = err unknown_client
verify_uri cdb oidc (some cid) none =
    if is_nonempty cid then err wrong_uri_type else err unknown_client
verify_uri cdb oidc (some cid) (some uri) =
    if not (is_nonempty cid)
    then err unknown_client
    else if is_nonempty uri.fragment
    then err contains_fragment
    else of_client oidc uri (Dict.get cdb cid)

abbrev only_one : (String → Query → String) → Option (List (String × Query)) → Outcome Error String
only_one join none = err parameter_missing
only_one join (some []) = err parameter_missing
only_one join (some ((base, query) ∷ [])) = ok (join base query)
only_one join (some (u ∷ v ∷ us)) = err several_registered

-- `get_uri`; `join` is `join_query`, which has `urlencode` write the query part.
unfoldable pub get_uri :
    (String → Query → String) → Dict Client → Bool → String → Option Uri → Outcome Error String
get_uri join cdb oidc cid (some uri) = do verify_uri cdb oidc (some cid) (some uri); ok uri.text
get_uri join cdb oidc cid none = elim (Dict.get cdb cid) [
  | none ↦ err unknown_client
  | some c ↦ only_one join c.uris
]
