-- ===== src/Authz/Leak.antt =====
-- What a call of `get_usage_rules` for one grant leaves for the next.
use idpy_oidc.Base.{◌≡◌, true, false, none, some, String}
use idpy_oidc.Dict
use idpy_oidc.Dict.{Dict}
use idpy_oidc.Dict.Keys.{get-put_self}
use idpy_oidc.Session.Token.{UsageRules}
use idpy_oidc.Authz.{Shared, merge, is_empty, usage_rules_for, get_usage_rules}

-- Where neither the configuration nor the client has rules for a type of token, a call for a grant
-- that has some leaves them in `DEFAULT_USAGE`: the next call, for a grant that has none, gets the
-- rules of the first grant.
pub get_usage_rules_leaks :
    (rules : Dict UsageRules) (t : String) (u d : UsageRules) (s : Shared)
    → is_empty (usage_rules_for rules s.per_client t) ≡ true
    → is_empty u ≡ false
    → Dict.get s.defaults t ≡ some d
    → (s' : Shared) × (get_usage_rules rules (some u) t s ≡ some (merge d u, s'))
      × (get_usage_rules rules none t s' ≡ some (merge d u, s'))
unfolding get_usage_rules
get_usage_rules_leaks rules t u d s e ne g = (
  record s { defaults = Dict.put s.defaults t (merge d u) },
  rw (e, g, ne),
  rw (e, get-put_self s.defaults t (merge d u)),
)
