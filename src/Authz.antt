-- ===== src/Authz.antt =====
-- src/idpyoidc/server/authz/__init__.py: the usage rules of a client's tokens, and
-- `get_usage_rules` of src/idpyoidc/server/session/grant.py. The dictionary of an entry of the
-- client's own (`token_usage_rules`), and the one of `DEFAULT_USAGE`, are handed out and written to.
pub mod Rules
pub mod Leak
use idpy_oidc.Base.{Bool, true, false, Option, none, some, [], ◌∷◌, String, is_some, if◌then◌else◌}
use idpy_oidc.Dict
use idpy_oidc.Dict.{Dict}
use idpy_oidc.Session.Token.{UsageRules, no_rules}

abbrev or_old {ℓ} : {A : Type ℓ} → Option A → Option A → Option A
or_old none o = o
or_old (some a) o = some a

-- `old.update(new)`, on dictionaries of rules
unfoldable pub merge : UsageRules → UsageRules → UsageRules
merge old new = record {
  max_usage = or_old new.max_usage old.max_usage;
  supports_minting = or_old new.supports_minting old.supports_minting;
  expires_in = or_old new.expires_in old.expires_in;
}

-- An empty dictionary of rules, which is false in Python.
unfoldable pub is_empty : UsageRules → Bool
is_empty r =
    if is_some r.max_usage
    then false
    else if is_some r.supports_minting
    then false
    else if is_some r.expires_in
    then false
    else true

-- One round of the first loop in `usage_rules`.
abbrev pub adjust : UsageRules → Option UsageRules → UsageRules
adjust rule none = rule
adjust rule (some pc) = if is_empty pc then no_rules else merge rule pc

unfoldable pub adjust_all : Dict UsageRules → Dict UsageRules → Dict UsageRules
adjust_all [] per_client = []
adjust_all ((t, rule) ∷ rules) per_client =
    (t, adjust rule (Dict.get per_client t)) ∷ adjust_all rules per_client

-- The second loop.
unfoldable pub add_missing : Dict UsageRules → Dict UsageRules → Dict UsageRules
add_missing rules [] = rules
add_missing rules ((t, rule) ∷ per_client) =
    add_missing (if Dict.contains_key rules t then rules else Dict.put rules t rule) per_client

-- `usage_rules`, on `grant_config["usage_rules"]`, or an empty dictionary, and the client's
-- `token_usage_rules`; `none` is no client, or a client without the entry.
unfoldable pub usage_rules : Dict UsageRules → Option (Dict UsageRules) → Dict UsageRules
usage_rules rules none = rules
usage_rules [] (some per_client) = per_client
usage_rules (r ∷ rules) (some per_client) =
    add_missing (adjust_all (r ∷ rules) per_client) per_client

abbrev rules_or_none : Option UsageRules → UsageRules
rules_or_none none = no_rules
rules_or_none (some r) = r

unfoldable pub usage_rules_for : Dict UsageRules → Option (Dict UsageRules) → String → UsageRules
usage_rules_for rules per_client token_type =
    rules_or_none (Dict.get (usage_rules rules per_client) token_type)

-- What `get_usage_rules` may write to: `DEFAULT_USAGE`, and the client's own entry.
pub record Shared : Type 0 where
  pub defaults : Dict UsageRules
  pub per_client : Option (Dict UsageRules)

-- `_usage.update(_grant_usage)`, where `_usage` is an entry of `DEFAULT_USAGE`
abbrev update_default : Shared → String → UsageRules → UsageRules × Shared
update_default s t r = (r, record s { defaults = Dict.put s.defaults t r })

-- the same, where `_usage` came from `usage_rules`: it is a copy of the configuration's entry, or the
-- client's own entry, when the configuration has none
abbrev update_own : Dict UsageRules → Shared → String → UsageRules → UsageRules × Shared
update_own rules s t r = if Dict.contains_key rules t then (r, s) else (
  r,
  record s { per_client = elim s.per_client [ none ↦ none | some d ↦ some (Dict.put d t r) ] },
)

-- `get_usage_rules`, with the rules of the grant for the type of token. `none` is a `KeyError`.
unfoldable pub get_usage_rules :
    Dict UsageRules → Option UsageRules → String → Shared → Option (UsageRules × Shared)
get_usage_rules rules grant_usage token_type s =
    let usage = usage_rules_for rules s.per_client token_type in
    if is_empty usage
    then elim (Dict.get s.defaults token_type) [
      | none ↦ none
      | some d ↦ elim grant_usage [
        | none ↦ some (d, s)
        | some u ↦
            if is_empty u then some (d, s) else some (update_default s token_type (merge d u))
      ]
    ]
    else elim grant_usage [
      | none ↦ some (usage, s)
      | some u ↦
          if is_empty u
          then some (usage, s)
          else some (update_own rules s token_type (merge usage u))
    ]
