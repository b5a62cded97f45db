-- ===== src/Authz/Rules.antt =====
-- The rules for each type of token, from those of the configuration and of the client.
use idpy_oidc.Base.{
  ◌≡◌, refl, ◌∙◌, Option, none, some, [], ◌∷◌, String, ◌==◌, eq_iff, arith, Bool-cases, inl, inr,
  if◌then◌else◌,
}
use idpy_oidc.Dict
use idpy_oidc.Dict.{Dict, get-put}
use idpy_oidc.Session.Token.{UsageRules}
use idpy_oidc.Authz.{adjust, adjust_all, add_missing, usage_rules}

-- What the client's entry makes of the configuration's: nothing if there is none, an empty entry
-- clears it, another one overrides it key by key, and stands alone where the configuration has none.
abbrev pub combine : Option UsageRules → Option UsageRules → Option UsageRules
combine none pc = pc
combine (some r) pc = some (adjust r pc)

abbrev adjusted : Option UsageRules → Option UsageRules → Option UsageRules
adjusted none pc = none
adjusted (some r) pc = some (adjust r pc)

abbrev first : Option UsageRules → Option UsageRules → Option UsageRules
first none o = o
first (some r) o = some r

get-adjust_all :
    (rules pc : Dict UsageRules) (t : String)
    → Dict.get (adjust_all rules pc) t ≡ adjusted (Dict.get rules t) (Dict.get pc t)
unfolding adjust_all Dict.get
get-adjust_all [] pc t = refl
get-adjust_all ((u, r) ∷ rules) pc t = elim (Bool-cases (u == t)) [
  | inl e ↦ rw (e, (eq_iff u t).0 e)
  | inr e ↦ rw e (get-adjust_all rules pc t)
]

add_missing_step :
    (rules : Dict UsageRules) (u t : String) (r : UsageRules) (o : Option UsageRules)
    → first (Dict.get (if Dict.contains_key rules u then rules else Dict.put rules u r) t) o
      ≡ first (Dict.get rules t) (if u == t then some r else o)
unfolding Dict.contains_key
add_missing_step rules u t r o = elim (Bool-cases (u == t)) [
  | inl e ↦ rw (e, (eq_iff u t).0 e) (ground (arith, get-put rules t t r, eq_iff t t))
  | inr e ↦ ground (arith, get-put rules u t r)
]

get-add_missing :
    (rules pc : Dict UsageRules) (t : String)
    → Dict.get (add_missing rules pc) t ≡ first (Dict.get rules t) (Dict.get pc t)
unfolding add_missing
get-add_missing rules [] t = unfold Dict.get in ground arith
get-add_missing rules ((u, r) ∷ pc) t =
    get-add_missing (if Dict.contains_key rules u then rules else Dict.put rules u r) pc t
    ∙ add_missing_step rules u t r (Dict.get pc t)
    ∙ unfold Dict.get in refl

combine_lem : (o pc : Option UsageRules) → first (adjusted o pc) pc ≡ combine o pc
combine_lem none pc = refl
combine_lem (some r) pc = refl

-- For a client with an entry of its own, the rules for a type of token are those of the
-- configuration and of that entry, combined.
pub get-usage_rules :
    (rules pc : Dict UsageRules) (t : String)
    → Dict.get (usage_rules rules (some pc)) t ≡ combine (Dict.get rules t) (Dict.get pc t)
unfolding usage_rules
get-usage_rules [] pc t = unfold Dict.get in refl
get-usage_rules (r ∷ rules) pc t =
    rw (get-add_missing (adjust_all (r ∷ rules) pc) pc t, get-adjust_all (r ∷ rules) pc t)
      (combine_lem (Dict.get (r ∷ rules) t) (Dict.get pc t))
