-- ===== src/Session/Claims/Interface/Sources.antt =====
-- Where the claims come from that `get_claims_from_request` asks for.
use idpy_oidc.Base.{
  ◌≡◌, refl, ap, ◌∙◌, Bool, true, false, ◌||◌, Option, some, List, [], ◌∷◌, String, ◌==◌, arith,
  if◌then◌else◌,
}
use idpy_oidc.Dict
use idpy_oidc.Dict.{Dict, get-put}
use idpy_oidc.Scopes.{Scopes, Client, scopes_to_claims}
use idpy_oidc.Session.Claims.{Claims}
use idpy_oidc.Session.Claims.Interface.{
  Module, AddClaims, ClaimsRequest, authorization_request_claims, always_for, by_scope_for,
  own_settings, scopes_or, scope_claims, get_claims_from_request,
}

module _ {V : Type 0} where
  contains_key-put :
      (d : Dict V) (k j : String) (v : V)
      → Dict.contains_key (Dict.put d k v) j ≡ (k == j || Dict.contains_key d j)
  unfolding Dict.contains_key
  contains_key-put d k j v = ground (arith, get-put d k j v)

  contains_key-update :
      (d e : Dict V) (k : String)
      → Dict.contains_key (Dict.update d e) k ≡ (Dict.contains_key d k || Dict.contains_key e k)
  unfolding Dict.update Dict.contains_key Dict.get
  contains_key-update d [] k = ground arith
  contains_key-update d ((j, v) ∷ e) k =
      contains_key-update (Dict.put d j v) e k ∙ ground (arith, contains_key-put d j k v)

-- The scopes' claims, where they are added.
abbrev pub asks_by_scope : Scopes → Option Client → Bool → List String → String → Bool
asks_by_scope handler client by_scope scopes k =
    if by_scope then Dict.contains_key (scopes_to_claims handler scopes [] client) k else false

scope_claims-key :
    (handler : Scopes) (client : Option Client) (b : Bool) (scopes : Option (List String))
    (r : ClaimsRequest) (k : String)
    → Dict.contains_key (scope_claims handler client b scopes r) k
      ≡ asks_by_scope handler client b (scopes_or scopes r.scope) k
unfolding scope_claims
scope_claims-key handler client true scopes r k = refl
scope_claims-key handler client false scopes r k = unfold Dict.contains_key Dict.get in refl

or_assoc : (a b c d : Bool) → (((a || b) || c) || d) ≡ (a || b || c || d)
or_assoc a b c d = ground arith

-- The key of a claim is in one of the dictionaries that are merged.
pub get_claims_from_request-key :
    (handler : Scopes) (client : Option Client) (m : Module) (a : Option AddClaims)
    (r : ClaimsRequest) (point : String) (scopes : Option (List String)) (secondary k : String)
    → Dict.contains_key
        (get_claims_from_request handler client (some m) a r point scopes secondary).0
        k
      ≡ (Dict.contains_key m.base_claims k
          || Dict.contains_key (always_for m (own_settings m a) point secondary) k
          || asks_by_scope handler client
              (by_scope_for m (own_settings m a) point secondary)
              (scopes_or scopes r.scope)
              k
          || Dict.contains_key (authorization_request_claims r point) k)
unfolding get_claims_from_request
get_claims_from_request-key handler client m a r point scopes secondary k =
    contains_key-update (Dict.update base scoped) (authorization_request_claims r point) k
    ∙ ap (λ b. b || Dict.contains_key (authorization_request_claims r point) k)
        (contains_key-update base scoped k
          ∙ ap (◌||◌ (Dict.contains_key base k)) (
              scope_claims-key handler client (by_scope_for m (own_settings m a) point secondary)
                scopes r k)
          ∙ ap
              (λ b.
                b
                || asks_by_scope handler client (by_scope_for m (own_settings m a) point secondary)
                    (scopes_or scopes r.scope) k)
              (contains_key-update m.base_claims (always_for m (own_settings m a) point secondary)
                k))
    ∙ or_assoc (Dict.contains_key m.base_claims k)
        (Dict.contains_key (always_for m (own_settings m a) point secondary) k)
        (asks_by_scope handler client (by_scope_for m (own_settings m a) point secondary)
          (scopes_or scopes r.scope) k)
        (Dict.contains_key (authorization_request_claims r point) k)
  where
    base : Claims
    base = Dict.update m.base_claims (always_for m (own_settings m a) point secondary)

    scoped : Claims
    scoped =
        scope_claims handler client (by_scope_for m (own_settings m a) point secondary) scopes r
