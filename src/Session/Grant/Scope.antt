-- ===== src/Session/Grant/Scope.antt =====
-- `Grant.find_scope`: the scope of a token is its own, or else that of the token it is based on.
pub mod Enough
use idpy_oidc.Base.{
  ℕ, zero, suc, Option, none, some, List, [], ◌∷◌, String, is_nonempty, if◌then◌else◌,
}
use idpy_oidc.Session.Grant.{Heap, Grant, get_token}

-- The method calls itself with a token's `based_on`, a text, and looks it up; it begins with a
-- token, or with `None`. The number bounds the depth; `none` is Python's `RecursionError`.
unfoldable pub find_scope : ℕ → Heap → Grant → Option ℕ → Option (List String)
find_scope depth h g none = some g.scope
find_scope zero h g (some t) = none
find_scope (suc depth) h g (some t) = elim (h.at t).scope [
  | s ∷ ss ↦ some (s ∷ ss)
  | [] ↦ elim (h.at t).based_on [
    | none ↦ some g.scope
    | some v ↦
        let rest = find_scope depth h g (get_token h g v) in
        if is_nonempty v then rest else some g.scope
  ]
]
