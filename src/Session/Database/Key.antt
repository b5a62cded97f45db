-- ===== src/Session/Database/Key.antt =====
-- `branch_key` and `unpack_branch_key` of database.py, with `DIVIDER` of
-- src/idpyoidc/server/constant.py.
pub mod Unpack
pub mod Length
use Prim.Native.Char.{Char, code}
use Prim.Native.String.{◌++◌}
use Prim.Native.String
use idpy_oidc.Base.{Bool, true, false, ◌&&◌, List, [], ◌∷◌, String, eqb}

abbrev pub divider : String
divider = ";;"

-- `DIVIDER.join(args)`
unfoldable pub branch_key : List String → String
branch_key [] = ""
branch_key (x ∷ []) = x
branch_key (x ∷ y ∷ ys) = x ++ (divider ++ branch_key (y ∷ ys))

abbrev pub is_semicolon : Char → Bool
is_semicolon c = eqb (code c) b';'

-- A character in front of the first of the parts.
abbrev pub push : Char → List String → List String
push c [] = String.◌∷◌ c String.[] ∷ []
push c (x ∷ xs) = String.◌∷◌ c x ∷ xs

-- `key.split(DIVIDER)`, from the left
unfoldable pub unpack_branch_key : String → List String
unpack_branch_key String.[] = "" ∷ []
unpack_branch_key (String.◌∷◌ c String.[]) = String.◌∷◌ c String.[] ∷ []
unpack_branch_key (String.◌∷◌ c (String.◌∷◌ d s)) = elim (is_semicolon c && is_semicolon d) [
  | true ↦ "" ∷ unpack_branch_key s
  | false ↦ push c (unpack_branch_key (String.◌∷◌ d s))
]
