-- ===== src/Session/Database/Key/Unpack.antt =====
-- When the key of a branch gives the branch back.
use Prim.Native.Char.{Char}
use Prim.Native.String.{◌++◌, ◌∷◌ as ◌∷ₛ◌}
use Prim.Native.String.append
use text.Mathlib.TextLemmas.{append_assoc}
use idpy_oidc.Base.{◌≡◌, refl, sym, ap, ◌∙◌, false, ◌&&◌, List, [], ◌∷◌, All, String}
use idpy_oidc.Session.Database.Key.{divider, branch_key, is_semicolon, push, unpack_branch_key}

-- A name with no two semicolons side by side, and none at the end.
abbrev pub IsPlain : String → Type 0
IsPlain String.[] = Unit
IsPlain (String.◌∷◌ c String.[]) = is_semicolon c ≡ false
IsPlain (String.◌∷◌ c (String.◌∷◌ d s)) =
    ((is_semicolon c && is_semicolon d) ≡ false) × IsPlain (String.◌∷◌ d s)

abbrev pub semicolon : Char
semicolon = ";"

divider-append : (s : String) → divider ++ s ≡ (semicolon ∷ₛ semicolon ∷ₛ s)
divider-append s =
    append.cons semicolon (semicolon ∷ₛ "") s
    ∙ ap (◌∷ₛ◌ semicolon) (append.cons semicolon "" s ∙ ap (◌∷ₛ◌ semicolon) (append.nil s))

unpack-divider : (s : String) → unpack_branch_key (divider ++ s) ≡ "" ∷ unpack_branch_key s
unfolding unpack_branch_key
unpack-divider s = rw (divider-append s)

unpack-no_divider :
    (c d : Char) (s : String)
    → (is_semicolon c && is_semicolon d) ≡ false
    → unpack_branch_key (c ∷ₛ d ∷ₛ s) ≡ push c (unpack_branch_key (d ∷ₛ s))
unfolding unpack_branch_key
unpack-no_divider c d s e = rw (e, unpack_branch_key)

-- A plain name in front of a divider is the first part.
unpack-plain :
    (x s : String) → IsPlain x → unpack_branch_key (x ++ (divider ++ s)) ≡ x ∷ unpack_branch_key s
unpack-plain String.[] s h = rw (append.nil (divider ++ s)) (unpack-divider s)
unpack-plain (String.◌∷◌ c String.[]) s h =
    ap unpack_branch_key
      (append.cons c "" (divider ++ s) ∙ ap (◌∷ₛ◌ c) (append.nil (divider ++ s) ∙ divider-append s))
    ∙ unpack-no_divider c semicolon (semicolon ∷ₛ s) (rw h)
    ∙ ap (push c) (ap unpack_branch_key (sym (divider-append s)) ∙ unpack-divider s)
unpack-plain (String.◌∷◌ c (String.◌∷◌ d x)) s h =
    ap unpack_branch_key
      (append.cons c (d ∷ₛ x) (divider ++ s) ∙ ap (◌∷ₛ◌ c) (append.cons d x (divider ++ s)))
    ∙ unpack-no_divider c d (x ++ (divider ++ s)) h.0
    ∙ ap (push c)
        (ap unpack_branch_key (sym (append.cons d x (divider ++ s))) ∙ unpack-plain (d ∷ₛ x) s h.1)

unpack_one : (x : String) → IsPlain x → unpack_branch_key x ≡ x ∷ []
unfolding unpack_branch_key
unpack_one String.[] h = refl
unpack_one (String.◌∷◌ c String.[]) h = refl
unpack_one (String.◌∷◌ c (String.◌∷◌ d x)) h =
    unpack-no_divider c d x h.0 ∙ ap (push c) (unpack_one (d ∷ₛ x) h.1)

-- A branch of plain names is read back from its key.
pub unpack-branch_key :
    (x : String) (xs : List String)
    → IsPlain x
    → All IsPlain xs
    → unpack_branch_key (branch_key (x ∷ xs)) ≡ x ∷ xs
unfolding branch_key
unpack-branch_key x [] h hs = unpack_one x h
unpack-branch_key x (y ∷ ys) h hs =
    unpack-plain x (branch_key (y ∷ ys)) h ∙ ap (◌∷◌ x) (unpack-branch_key y ys hs.0 hs.1)

-- A name that ends in one semicolon, before another name, is not read back: the semicolon goes to
-- the next name.
pub unpack-branch_key-semicolon :
    (x y : String)
    → IsPlain x
    → IsPlain (semicolon ∷ₛ y)
    → unpack_branch_key (branch_key ((x ++ ";") ∷ y ∷ [])) ≡ x ∷ (semicolon ∷ₛ y) ∷ []
unfolding branch_key
unpack-branch_key-semicolon x y hx hy =
    ap unpack_branch_key (append_assoc x ";" (divider ++ y) ∙ ap (◌++◌ x) moved)
    ∙ unpack-plain x (semicolon ∷ₛ y) hx
    ∙ ap (◌∷◌ x) (unpack_one (semicolon ∷ₛ y) hy)
  where
    moved : ";" ++ (divider ++ y) ≡ divider ++ (semicolon ∷ₛ y)
    moved =
        append.cons semicolon "" (divider ++ y)
        ∙ ap (◌∷ₛ◌ semicolon) (append.nil (divider ++ y) ∙ divider-append y)
        ∙ sym (divider-append (semicolon ∷ₛ y))
