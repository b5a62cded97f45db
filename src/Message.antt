-- ===== src/Message.antt =====
-- `Message` of src/idpyoidc/message/__init__.py: a class of messages, the values of its parameters, and
-- the operations on them. JWTs, the urlencoded format and the printing of messages are left out.
pub mod Parse
pub mod Verify
pub mod Specs
pub mod Oauth2
use Prim.Native.Char.{code}
use Prim.Native.String
use idpy_oidc.Base.{
  ℕ, zero, suc, ◌+◌, ◌-◌, ◌*◌, Bool, true, false, not, ◌&&◌, Option, none, some, List, [], ◌∷◌,
  String, ◌==◌, eqb, is_nonempty, is_nonzero, if◌then◌else◌,
}
use idpy_oidc.Base.Decimal.{is_digit}
use idpy_oidc.Dict
use idpy_oidc.Dict.{Dict}
use idpy_oidc.Session.BranchId.{strip}

-- Whole numbers: `negsuc n` is `-(n + 1)`.
pub data ℤ : Type 0 where
  pos : ℕ → ℤ
  negsuc : ℕ → ℤ

-- A JSON object: the names of its members, and the text of each.
abbrev pub Json : Type 0
Json = Dict String

-- A value that is not a list. A message has the name of its class, and its members.
pub data Atom : Type 0 where
  null : Atom
  boolean : Bool → Atom
  integer : ℤ → Atom
  str : String → Atom
  dict : Json → Atom
  message : String → Json → Atom

pub data Value : Type 0 where
  atom : Atom → Value
  list : List Atom → Value

-- The types that a specification has for a value, or for the elements of a list of values.
pub data Kind : Type 0 where
  str_type : Kind
  int_type : Kind
  bool_type : Kind
  dict_type : Kind
  message_type : String → Kind

pub data Vtype : Type 0 where
  single : Kind → Vtype
  several : Kind → Vtype

pub data Format : Type 0 where
  urlencoded : Format
  dict_format : Format

-- A deserializer, `none` where it raises.
abbrev pub Deserializer : Type 0
Deserializer = Format → Value → Option Value

-- An entry of `c_param`.
pub record Spec : Type 0 where
  pub vtype : Vtype
  pub required : Bool
  pub deserializer : Option Deserializer
  pub null_allowed : Bool

-- A class of messages. `is_subclass` is of two classes by their names; `new_message` makes an instance of
-- a class from the members of an object, and is `none` where it raises.
pub record MessageClass : Type 0 where
  pub c_param : Dict Spec
  pub c_allowed_values : Dict (List String)
  pub c_default : Dict Value
  pub is_subclass : String → String → Bool
  pub new_message : String → Json → Option Atom

-- `isinstance` of a value and a type. A truth value is a number in Python.
abbrev pub is_instance : MessageClass → Kind → Atom → Bool
is_instance c str_type (str s) = true
is_instance c int_type (integer z) = true
is_instance c int_type (boolean b) = true
is_instance c bool_type (boolean b) = true
is_instance c dict_type (dict j) = true
is_instance c (message_type n) (message m j) = c.is_subclass m n
is_instance c t a = false

abbrev is_nonempty_dict : Json → Bool
is_nonempty_dict [] = false
is_nonempty_dict (p ∷ j) = true

abbrev is_nonzero_int : ℤ → Bool
is_nonzero_int (pos n) = is_nonzero n
is_nonzero_int (negsuc n) = true

-- The truth value of a value.
abbrev pub is_true : Value → Bool
is_true (atom null) = false
is_true (atom (boolean b)) = b
is_true (atom (integer z)) = is_nonzero_int z
is_true (atom (str s)) = is_nonempty s
is_true (atom (dict j)) = is_nonempty_dict j
is_true (atom (message n j)) = is_nonempty_dict j
is_true (list []) = false
is_true (list (a ∷ as_given)) = true

-- The digits that `int` reads, with single underscores between them; the first argument tells that a
-- digit must come.
unfoldable pub digits : Bool → ℕ → String → Option ℕ
digits true v String.[] = none
digits false v String.[] = some v
digits true v (String.◌∷◌ c s) =
    let rest = digits false (v * 10 + (code c - 48)) s in if is_digit c then rest else none
digits false v (String.◌∷◌ c s) =
    let rest = digits false (v * 10 + (code c - 48)) s in
    let next = digits true v s in
    if is_digit c then rest else if eqb (code c) b'_' then next else none

abbrev negated : ℕ → ℤ
negated zero = pos 0
negated (suc n) = negsuc n

abbrev pub with_sign : Bool → Option ℕ → Option ℤ
with_sign negative none = none
with_sign true (some n) = some (negated n)
with_sign false (some n) = some (pos n)

abbrev signed : String → Option ℤ
signed String.[] = none
signed (String.◌∷◌ c s) =
    if eqb (code c) b'-'
    then with_sign true (digits true 0 s)
    else if eqb (code c) b'+'
    then with_sign false (digits true 0 s)
    else with_sign false (digits true 0 (String.◌∷◌ c s))

-- `int(s)`, of a text of ASCII digits; `none` where it raises
unfoldable pub int_text : String → Option ℤ
unfolding digits strip
int_text s = signed (strip s)

-- `key.split("#")[0]`
unfoldable pub base_name : String → String
base_name String.[] = ""
base_name (String.◌∷◌ c s) =
    let rest = base_name s in if eqb (code c) b'#' then "" else String.◌∷◌ c rest

-- `set_defaults`
unfoldable pub set_defaults : Dict Value → Dict Value → Dict Value
set_defaults [] d = d
set_defaults ((k, v) ∷ r) d = set_defaults r (if Dict.contains_key d k then d else Dict.put d k v)

-- `extra`
unfoldable pub extra : MessageClass → Dict Value → Dict Value
extra c [] = []
extra c ((k, v) ∷ d) =
    let rest = extra c d in if Dict.contains_key c.c_param k then rest else (k, v) ∷ rest

-- `weed`
unfoldable pub weed : MessageClass → Dict Value → Dict Value
weed c [] = []
weed c ((k, v) ∷ d) =
    let rest = weed c d in if Dict.contains_key c.c_param k then (k, v) ∷ rest else rest

-- `only_extras`
unfoldable pub only_extras : MessageClass → Dict Value → Bool
only_extras c [] = true
only_extras c ((k, v) ∷ d) = not (Dict.contains_key c.c_param k) && only_extras c d

-- `rm_blanks`
unfoldable pub rm_blanks : Dict Value → Dict Value
rm_blanks [] = []
rm_blanks ((k, v) ∷ d) = let rest = rm_blanks d in if is_true v then (k, v) ∷ rest else rest

-- `required_parameters`
unfoldable pub required_parameters : Dict Spec → List String
required_parameters [] = []
required_parameters ((k, s) ∷ r) =
    let rest = required_parameters r in if s.required then k ∷ rest else rest

-- The loop of `has_none_or_one_of`, once a claim was found or not.
unfoldable pub one_at_most : Dict Value → Bool → List String → Bool
one_at_most d found_one [] = true
one_at_most d found_one (c ∷ cs) =
    let rest = one_at_most d found_one cs in
    let next = one_at_most d true cs in
    if not (Dict.contains_key d c) then rest else if found_one then false else next

unfoldable pub has_none_or_one_of : Dict Value → List String → Bool
unfolding one_at_most
has_none_or_one_of d claims = one_at_most d false claims
