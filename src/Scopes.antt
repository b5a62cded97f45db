-- ===== src/Scopes.antt =====
-- src/idpyoidc/server/scopes.py, and `check_unknown_scopes_policy` of
-- src/idpyoidc/server/oauth2/authorization.py.
pub mod Filter
pub mod Convert
use idpy_oidc.Base.{
  Bool, true, ◌&&◌, not, Option, none, some, List, [], ◌∷◌, String, contains, if◌then◌else◌,
}
use idpy_oidc.Dict
use idpy_oidc.Dict.{Dict}
use idpy_oidc.Session.Claims.{Claims}

abbrev pub Mapping : Type 0
Mapping = Dict (List String)

-- `SCOPE2CLAIMS`
abbrev pub scope2claims : Mapping
scope2claims =
    ("openid", "sub" ∷ [])
    ∷ (
      "profile",
      "name" ∷ "given_name" ∷ "family_name" ∷ "middle_name" ∷ "nickname" ∷ "profile" ∷ "picture"
          ∷ "website" ∷ "gender" ∷ "birthdate" ∷ "zoneinfo" ∷ "locale" ∷ "updated_at"
          ∷ "preferred_username" ∷ [],
    )
    ∷ ("email", "email" ∷ "email_verified" ∷ [])
    ∷ ("address", "address" ∷ [])
    ∷ ("phone", "phone_number" ∷ "phone_number_verified" ∷ [])
    ∷ ("offline_access", [])
    ∷ []

abbrev pub claims_of : Option (List String) → List String
claims_of none = []
claims_of (some l) = l

-- `{name: None for name in names if name in allowed_claims}`, put into `res`; no list of allowed
-- claims allows all.
unfoldable pub add_names : Option (List String) → Claims → List String → Claims
add_names allowed res [] = res
add_names none res (n ∷ ns) = add_names none (Dict.put res n none) ns
add_names (some allowed) res (n ∷ ns) =
    add_names (some allowed) (if contains n allowed then Dict.put res n none else res) ns

abbrev pub mapping_or : Mapping → Mapping
mapping_or [] = scope2claims
mapping_or (e ∷ m) = e ∷ m

unfoldable pub convert_from : Option (List String) → Mapping → Claims → List String → Claims
convert_from allowed m res [] = res
convert_from allowed m res (s ∷ ss) =
    convert_from allowed m (add_names allowed res (claims_of (Dict.get m s))) ss

unfoldable pub convert_scopes2claims : List String → Option (List String) → Mapping → Claims
convert_scopes2claims scopes allowed_claims m = convert_from allowed_claims (mapping_or m) [] scopes

-- What the handler reads of a client.
pub record Client : Type 0 where
  pub allowed_scopes : Option (List String)
  pub scopes_to_claims : Option Mapping
  pub deny_unknown_scopes : Option Bool

pub record Scopes : Type 0 where
  pub scopes_to_claims : Mapping
  pub allowed_scopes : List String

-- `Scopes.__init__`; the argument `allowed_scopes` is not used.
unfoldable pub init_scopes : Option (List String) → Mapping → Scopes
init_scopes allowed_scopes m = record {
  scopes_to_claims = mapping_or m;
  allowed_scopes = Dict.keys (mapping_or m);
}

abbrev pub or_own {ℓ} : {A : Type ℓ} → Option A → A → A
or_own none d = d
or_own (some a) d = a

-- A client that is not known, or no client, is `none`.
unfoldable pub get_allowed_scopes : Scopes → Option Client → List String
get_allowed_scopes s none = s.allowed_scopes
get_allowed_scopes s (some c) = or_own c.allowed_scopes s.allowed_scopes

unfoldable pub get_scopes_mapping : Scopes → Option Client → Mapping
get_scopes_mapping s none = s.scopes_to_claims
get_scopes_mapping s (some c) = or_own c.scopes_to_claims s.scopes_to_claims

unfoldable pub keep_in : List String → List String → List String
keep_in allowed [] = []
keep_in allowed (s ∷ ss) =
    let rest = keep_in allowed ss in if contains s allowed then s ∷ rest else rest

unfoldable pub filter_scopes : Scopes → List String → Option Client → List String
filter_scopes s scopes client = keep_in (get_allowed_scopes s client) scopes

-- `Scopes.scopes_to_claims`, on a mapping of the caller's or an empty one
unfoldable pub scopes_to_claims : Scopes → List String → Mapping → Option Client → Claims
scopes_to_claims s scopes m client =
    convert_scopes2claims (filter_scopes s scopes client) none
      (elim m [ [] ↦ get_scopes_mapping s client | e ∷ es ↦ e ∷ es ])

unfoldable pub set_scopes_mapping : Scopes → Mapping → Scopes
set_scopes_mapping s m = record s { scopes_to_claims = m }

abbrev pub subset : List String → List String → Bool
subset [] ys = true
subset (x ∷ xs) ys = contains x ys && subset xs ys

abbrev pub denies : Option Client → Bool → Bool
denies none d = d
denies (some c) d = or_own c.deny_unknown_scopes d

-- `check_unknown_scopes_policy`: false is an `UnAuthorizedClientScope`. The two sets are equal when
-- each has the other's members.
unfoldable pub check_unknown_scopes_policy : Scopes → Bool → List String → Option Client → Bool
check_unknown_scopes_policy s preference scope client =
    let kept = filter_scopes s scope client in
    if not (denies client preference) then true else subset scope kept && subset kept scope
