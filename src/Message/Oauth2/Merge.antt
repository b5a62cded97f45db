-- ===== src/Message/Oauth2/Merge.antt =====
-- A request and the request object that is merged into it.
use idpy_oidc.Base.{
  ◌≡◌, refl, sym, ap, ◌∙◌, inl, inr, Bool, true, false, Bool-cases, Option, none, some, [], ◌∷◌,
  String, ◌==◌, eq_iff, ==_of_eq, ◌⊎◌, arith, contains, is_some, if◌then◌else◌,
}
use idpy_oidc.Dict
use idpy_oidc.Dict.{Dict}
use idpy_oidc.Dict.Keys.{or_else, IsDict, get-update}
use idpy_oidc.Message.{Value}
use idpy_oidc.Message.Oauth2.{Treatment, strict, lax, whitelist, keep_if, merge}

get-keep_if :
    (p : String → Bool) (d : Dict Value) (k : String)
    → Dict.get (keep_if p d) k ≡ (if p k then Dict.get d k else none)
unfolding keep_if Dict.get
get-keep_if p [] k = ground (arith)
get-keep_if p ((j, v) ∷ d) k = elim (Bool-cases (j == k)) [
  | inl e ↦ hit ((eq_iff j k).0 e) (Bool-cases (p j)) (get-keep_if p d k)
  | inr n ↦ miss n (Bool-cases (p j)) (get-keep_if p d k)
]
  where
    hit :
        j ≡ k
        → (p j ≡ true) ⊎ (p j ≡ false)
        → Dict.get (keep_if p d) k ≡ (if p k then Dict.get d k else none)
        → Dict.get (if p j then (j, v) ∷ keep_if p d else keep_if p d) k
          ≡ (if p k then Dict.get ((j, v) ∷ d) k else none)
    hit q (inl y) ih = rw (y, sym (ap p q) ∙ y, ==_of_eq q) refl
    hit q (inr n) ih = rw (n, sym (ap p q) ∙ n) (ih ∙ rw (sym (ap p q) ∙ n) refl)

    miss :
        (j == k) ≡ false
        → (p j ≡ true) ⊎ (p j ≡ false)
        → Dict.get (keep_if p d) k ≡ (if p k then Dict.get d k else none)
        → Dict.get (if p j then (j, v) ∷ keep_if p d else keep_if p d) k
          ≡ (if p k then Dict.get ((j, v) ∷ d) k else none)
    miss n (inl y) ih = rw (y, n) ih
    miss n (inr x) ih = rw (x, n) ih

-- What a treatment keeps of the request's own value of a parameter.
abbrev pub own_value : Treatment → Dict Value → String → Option Value
own_value strict d k = none
own_value lax d k = Dict.get d k
own_value (whitelist []) d k = Dict.get d k
own_value (whitelist (x ∷ xs)) d k = if contains k (x ∷ xs) then Dict.get d k else none

none_kept : (o own : Option Value) → or_else o (if is_some o then own else none) ≡ or_else o none
none_kept none own = refl
none_kept (some v) own = refl

-- After a merge a parameter has the value that the request object has for it. One that the object does not
-- have is gone where the treatment is strict, has its own value where it is lax or the whitelist is empty or
-- has it, and is gone else.
pub get-merge :
    (t : Treatment) (o d : Dict Value) (k : String)
    → IsDict o
    → Dict.get (merge t o d) k ≡ or_else (Dict.get o k) (own_value t d k)
unfolding merge Dict.contains_key
get-merge lax o d k h = get-update d o k h
get-merge (whitelist []) o d k h = get-update d o k h
get-merge (whitelist (x ∷ xs)) o d k h =
    get-update (keep_if (λ j. contains j (x ∷ xs)) d) o k h
    ∙ ap (or_else (Dict.get o k)) (get-keep_if (λ j. contains j (x ∷ xs)) d k)
get-merge strict o d k h =
    get-update (keep_if (Dict.contains_key o) d) o k h
    ∙ ap (or_else (Dict.get o k)) (get-keep_if (Dict.contains_key o) d k)
    ∙ none_kept (Dict.get o k) (Dict.get d k)
