-- ===== src/Session/BranchId.antt =====
-- `encrypted_branch_id` and `decrypt_branch_id` of src/idpyoidc/server/session/database.py, over
-- `lv_pack` and `lv_unpack` of src/idpyoidc/server/util.py. The encrypter and `base64` are parameters,
-- taken together.
pub mod Packing
pub mod Identifier
use Prim.Native.Char.{Char, code}
use Prim.Native.String.{◌++◌, count}
use Prim.Native.String
use idpy_oidc.Base.{
  ℕ, zero, suc, Bool, ◌||◌, ◌&&◌, Option, none, some, List, [], ◌∷◌, String, eqb, leb, Outcome, ok,
  err, ◌>>=◌, if◌then◌else◌,
}
use idpy_oidc.Base.Decimal.{show, read}
use idpy_oidc.Session.Database.{Error, value_error, index_error}
use idpy_oidc.Session.Database.Key.{branch_key, unpack_branch_key}

-- `encrypt` is what base64 makes of a cipher text; `decrypt` is `none` where either step raises.
pub record Crypt : Type 0 where
  pub encrypt : String → String
  pub decrypt : String → Option String

-- `lv_pack`
unfoldable pub lv_pack : List String → String
lv_pack [] = ""
lv_pack (a ∷ rest) = show (count a) ++ (":" ++ (a ++ lv_pack rest))

-- The first `n` characters of a text, and those after them.
unfoldable pub take_text : ℕ → String → String
take_text zero s = ""
take_text (suc n) String.[] = ""
take_text (suc n) (String.◌∷◌ c s) = String.◌∷◌ c (take_text n s)

unfoldable pub drop_text : ℕ → String → String
drop_text zero s = s
drop_text (suc n) String.[] = ""
drop_text (suc n) (String.◌∷◌ c s) = drop_text n s

abbrev in_front : Char → Option (String × String) → Option (String × String)
in_front c none = none
in_front c (some (l, v)) = some (String.◌∷◌ c l, v)

-- `txt.split(":", 1)`, `none` where there is no colon and the two parts cannot be told.
unfoldable pub split_colon : String → Option (String × String)
split_colon String.[] = none
split_colon (String.◌∷◌ c s) =
    let rest = split_colon s in if eqb (code c) b':' then some ("", s) else in_front c rest

-- Python's white space, which `str.strip` takes away.
abbrev pub is_space : Char → Bool
is_space c =
    (leb 9 (code c) && leb (code c) 13)
    || (leb 28 (code c) && leb (code c) 32)
    || (eqb (code c) 133 || eqb (code c) 160 || eqb (code c) 5760)
    || (leb 8192 (code c) && leb (code c) 8202)
    || (leb 8232 (code c) && leb (code c) 8233)
    || (eqb (code c) 8239 || eqb (code c) 8287 || eqb (code c) 12288)

abbrev pub drop_spaces : String → String
drop_spaces String.[] = ""
drop_spaces (String.◌∷◌ c s) = if is_space c then drop_spaces s else String.◌∷◌ c s

abbrev keep_if_text : Char → String → String
keep_if_text c String.[] = if is_space c then "" else String.◌∷◌ c ""
keep_if_text c (String.◌∷◌ d s) = String.◌∷◌ c (String.◌∷◌ d s)

abbrev pub drop_last_spaces : String → String
drop_last_spaces String.[] = ""
drop_last_spaces (String.◌∷◌ c s) = keep_if_text c (drop_last_spaces s)

-- `txt.strip()`
unfoldable pub strip : String → String
strip s = drop_last_spaces (drop_spaces s)

abbrev pub value_of :
    (String → Outcome Error (List String)) → String → Option ℕ → Outcome Error (List String)
value_of next v none = err value_error
value_of next v (some n) = do rest ← next (drop_text n v); ok (take_text n v ∷ rest)

abbrev pub field :
    (String → Outcome Error (List String)) → Option (String × String) → Outcome Error (List String)
field next none = err value_error
field next (some (l, v)) = value_of next v (read l)

-- The loop of `lv_unpack`. A round takes a colon at least, so the number of characters is enough
-- rounds.
unfoldable pub fields : ℕ → String → Outcome Error (List String)
fields rounds String.[] = ok []
fields zero (String.◌∷◌ c s) = err value_error
fields (suc rounds) (String.◌∷◌ c s) = field (fields rounds) (split_colon (String.◌∷◌ c s))

unfoldable pub lv_unpack : String → Outcome Error (List String)
unfolding strip fields
lv_unpack txt = fields (count txt) (strip txt)

abbrev pub second : List String → Outcome Error String
second [] = err index_error
second (x ∷ []) = err index_error
second (x ∷ y ∷ ys) = ok y

-- `encrypted_branch_id`: `rnd` is `rndstr(32)`.
unfoldable pub encrypted_branch_id : Crypt → String → List String → String
encrypted_branch_id c rnd path = c.encrypt (lv_pack (rnd ∷ branch_key path ∷ []))

abbrev plain_or_error : Option String → Outcome Error String
plain_or_error none = err value_error
plain_or_error (some s) = ok s

-- `decrypt_branch_id`
unfoldable pub decrypt_branch_id : Crypt → String → Outcome Error (List String)
decrypt_branch_id c key = do
  plain ← plain_or_error (c.decrypt key)
  parts ← lv_unpack plain
  sid ← second parts
  ok (unpack_branch_key sid)
