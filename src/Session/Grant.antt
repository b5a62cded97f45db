-- ===== src/Session/Grant.antt =====
-- src/idpyoidc/server/session/grant.py: `Grant`. Token objects are shared: a grant lists
-- references to them, the caller of a method may hold one too, and a change through either is seen
-- through the other. So the tokens are on a heap, and a grant holds their addresses.
pub mod Revoke
pub mod Payload
pub mod Mint
pub mod Scope
use idpy_oidc.Base.{
  ℕ, suc, Bool, ◌&&◌, Option, none, some, List, [], ◌∷◌, String, ◌==◌, eqb, ltb, if◌then◌else◌,
}
use idpy_oidc.Dict
use idpy_oidc.Dict.{Dict}
use idpy_oidc.Session.Token.{Item, SessionToken, UsageRules, is_active}
use idpy_oidc.Session.Claims.{Value, Claims}

-- `next` is the first free address.
pub record Heap : Type 0 where
  pub at : ℕ → SessionToken
  pub next : ℕ

abbrev pub write : Heap → ℕ → SessionToken → Heap
write h p t = record h { at = λ q. if eqb p q then t else h.at q }

abbrev pub alloc : Heap → SessionToken → Heap
alloc h t = record { at = λ q. if eqb h.next q then t else h.at q; next = suc h.next }

-- What the code reads of an authorization request. `none` is a missing key.
pub record AuthorizationRequest : Type 0 where
  pub client_id : String
  pub redirect_uri : Option String
  pub code_challenge : Option String
  pub code_challenge_method : Option String
  pub audience : List String
  pub scope : Option (List String)
  pub claims : Option (Dict Claims)

-- `claims` of a grant: for each release point, the claims that are asked for.
-- `authn_info` is the authentication event's entry of that name. A grant's own `usage_rules` has a
-- set of rules for each class of token (`class_rules`).
pub record Grant : Type 0 where
  pub item : Item
  pub open item use *
  pub id : String
  pub class_rules : Dict UsageRules
  pub scope : List String
  pub claims : Dict Claims
  pub resources : List String
  pub authorization_request : Option AuthorizationRequest
  pub authn_info : Option Value
  pub issued_token : List ℕ
  pub sub : String
  pub dpop_jkt : Option String
  pub remembers : Bool
  pub remove_inactive_token : Bool

-- the loop of `get_token`
unfoldable pub token_with_value : Heap → List ℕ → String → Option ℕ
token_with_value h [] value = none
token_with_value h (t ∷ ts) value =
    if (h.at t).value == value then some t else token_with_value h ts value

unfoldable pub get_token : Heap → Grant → String → Option ℕ
unfolding token_with_value
get_token h g value = token_with_value h g.issued_token value

-- `last_issued_token_of_type`: the first of the latest of the class.
unfoldable pub last_of_type : Heap → String → List ℕ → Option ℕ → Option ℕ
last_of_type h c [] res = res
last_of_type h c (t ∷ ts) none =
    last_of_type h c ts (if (h.at t).token_class == c then some t else none)
last_of_type h c (t ∷ ts) (some r) = last_of_type h c ts (
    if (h.at t).token_class == c && ltb (h.at r).issued_at (h.at t).issued_at
    then some t
    else some r)

unfoldable pub last_issued_token_of_type : Heap → Grant → String → Option ℕ
unfolding last_of_type
last_issued_token_of_type h g token_class = last_of_type h token_class g.issued_token none

abbrev pub or_nonempty : List String → List String → List String
or_nonempty [] ys = ys
or_nonempty (x ∷ xs) ys = x ∷ xs

-- The claims in a token's specification: the names that the token has, or what the grant asks for.
pub data SpecClaims : Type 0 where
  of_token : List String → SpecClaims
  of_grant : Dict Claims → SpecClaims

abbrev pub claims_or : List String → Dict Claims → SpecClaims
claims_or [] c = of_grant c
claims_or (x ∷ xs) c = of_token (x ∷ xs)

-- The dictionary that `get_spec` returns; an entry left out of it is empty here.
pub record TokenSpec : Type 0 where
  pub scope : List String
  pub claims : SpecClaims
  pub resources : List String

-- `token.is_active is False` compares the method itself with `False`, which never holds, so the
-- token plays no part in the test.
unfoldable pub get_spec : ℕ → Grant → SessionToken → Option TokenSpec
get_spec now g token =
    if is_active now g.item
    then some (record {
      scope = or_nonempty token.scope g.scope;
      claims = claims_or token.claims g.claims;
      resources = or_nonempty token.resources g.resources;
    })
    else none
