-- ===== src/Session/Database/Key/Length.antt =====
-- The key of a branch is longer than the keys of the nodes above.
use Prim.Native.String.{◌++◌ as ◌++ₛ◌, count}
use text.Mathlib.TextLemmas.{length-append, append_assoc}
use idpy_oidc.Base.{◌<◌, ◌≡◌, refl, sym, ap, ◌∙◌, List, [], ◌∷◌, ◌++◌, String, arith}
use idpy_oidc.Session.Database.Key.{divider, branch_key}

branch_key-append :
    (z : String) (zs : List String) (y : String)
    → branch_key (z ∷ zs ++ y ∷ []) ≡ branch_key (z ∷ zs) ++ₛ (divider ++ₛ y)
unfolding branch_key
branch_key-append z [] y = refl
branch_key-append z (w ∷ ws) y =
    ap (λ s. z ++ₛ (divider ++ₛ s)) (branch_key-append w ws y)
    ∙ ap (◌++ₛ◌ z) (sym (append_assoc divider (branch_key (w ∷ ws)) (divider ++ₛ y)))
    ∙ sym (append_assoc z (divider ++ₛ branch_key (w ∷ ws)) (divider ++ₛ y))

pub count-branch_key :
    (z : String) (zs : List String) (y : String)
    → count (branch_key (z ∷ zs)) < count (branch_key (z ∷ zs ++ y ∷ []))
count-branch_key z zs y =
    rw (branch_key-append z zs y)
      (omega (arith, length-append (branch_key (z ∷ zs)) (divider ++ₛ y), length-append divider y))
