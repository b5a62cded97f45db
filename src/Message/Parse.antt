-- ===== src/Message/Parse.antt =====
-- `from_dict`, `_add_value` and `__setitem__` of `Message`: how values get into a message.
pub mod Typed
pub mod Several
pub mod Stored
use Prim.Native.String
use idpy_oidc.Base.{
  Bool, true, false, not, ◌&&◌, Option, none, some, List, [], ◌∷◌, ◌++◌, String, ◌==◌, Outcome, ok,
  err, ◌>>=◌, is_nonempty, if◌then◌else◌,
}
use idpy_oidc.Dict
use idpy_oidc.Dict.{Dict}
use idpy_oidc.Message.{
  Atom, null, boolean, integer, str, dict, message, Value, atom, list, Kind, int_type, bool_type,
  message_type, single, several, Format, urlencoded, dict_format, Deserializer, Spec, MessageClass,
  is_instance, int_text, base_name, Json,
}

pub data Error : Type 0 where
  decode_error : Error
  value_error : Error
  type_error : Error

-- An empty list, or a list that begins with `None`.
abbrev pub is_blank_list : Value → Bool
is_blank_list (atom a) = false
is_blank_list (list []) = true
is_blank_list (list (null ∷ xs)) = true
is_blank_list (list (x ∷ xs)) = false

abbrev pub or_decode_error : {A : Type 0} → Option A → Outcome Error A
or_decode_error none = err decode_error
or_decode_error (some a) = ok a

-- A call of a deserializer, which may be `None`.
abbrev pub call : Option Deserializer → Format → Value → Outcome Error Value
call none f v = err decode_error
call (some g) f v = or_decode_error (g f v)

abbrev pub call_if : Option Deserializer → Format → Value → Outcome Error Value
call_if none f v = ok v
call_if (some g) f v = or_decode_error (g f v)

abbrev pub letters : String → List Atom
letters String.[] = []
letters (String.◌∷◌ c s) = str (String.◌∷◌ c "") ∷ letters s

abbrev pub names : Json → List Atom
names [] = []
names ((k, v) ∷ j) = str k ∷ names j

-- What `for v in val` goes over; `none` is a `TypeError`.
abbrev pub elements : Value → Option (List Atom)
elements (list xs) = some xs
elements (atom (str s)) = some (letters s)
elements (atom (dict j)) = some (names j)
elements (atom (message n j)) = some (names j)
elements (atom null) = none
elements (atom (boolean b)) = none
elements (atom (integer z)) = none

-- `vtype(**v)`: only the dictionaries and the messages have `items`.
abbrev pub build : MessageClass → String → Atom → Outcome Error Atom
build c n (dict j) = or_decode_error (c.new_message n j)
build c n (message m j) = or_decode_error (c.new_message n j)
build c n a = err decode_error

-- The elements of a list of messages.
unfoldable pub build_all : MessageClass → String → List Atom → Outcome Error (List Atom)
build_all c n [] = ok []
build_all c n (a ∷ xs) = do
  b ← if is_instance c (message_type n) a then ok a else build c n a
  rest ← build_all c n xs
  ok (b ∷ rest)

-- The check of the elements of other lists.
unfoldable pub check_all : MessageClass → Kind → List Atom → Outcome Error Unit
check_all c t [] = ok tt
check_all c t (a ∷ xs) = do
  _ ← if is_instance c t a then ok tt else err decode_error
  check_all c t xs

abbrev pub no_type_error : Option (List Atom) → Outcome Error (List Atom)
no_type_error none = err type_error
no_type_error (some xs) = ok xs

-- The value that is stored for a list.
unfoldable pub checked : MessageClass → Kind → Value → Outcome Error Value
unfolding build_all check_all
checked c (message_type n) v = do
  xs ← or_decode_error (elements v)
  ys ← build_all c n xs
  ok (list ys)
checked c t v = do xs ← no_type_error (elements v); _ ← check_all c t xs; ok v

-- A value of the type of the elements. Without a deserializer it becomes an attribute of the object.
abbrev pub add_one :
    Kind → Option Deserializer → Format → String → Atom → Dict Value → Outcome Error (Dict Value)
add_one (message_type n) g f k a d = ok (Dict.put d k (list (a ∷ [])))
add_one t none f k a d = ok d
add_one t (some g) f k a d = do v ← or_decode_error (g f (atom a)); ok (Dict.put d k v)

-- A value of another type.
abbrev pub add_other : Option Deserializer → String → Atom → Dict Value → Outcome Error (Dict Value)
add_other g k (dict j) d = do v ← call g dict_format (atom (dict j)); ok (Dict.put d k v)
add_other g k a d = err decode_error

-- The part of `_add_value` for a parameter whose value is a list.
unfoldable pub add_several :
    MessageClass → Kind → Spec → Format → String → Value → Dict Value → Outcome Error (Dict Value)
unfolding checked
add_several c t s f k (atom null) d =
    if s.null_allowed then ok (Dict.put d k (atom null)) else err value_error
add_several c t s f k (list xs) d = do
  v ← call_if s.deserializer dict_format (list xs)
  w ← checked c t v
  ok (Dict.put d k w)
add_several c t s f k (atom a) d =
    if is_instance c t a then add_one t s.deserializer f k a d else add_other s.deserializer k a d

abbrev pub or_value_error : {A : Type 0} → Option A → Outcome Error A
or_value_error none = err value_error
or_value_error (some a) = ok a

-- `int(val)`
abbrev pub int_value : Value → Option Value
int_value (atom (str s)) = elim (int_text s) [ none ↦ none | some z ↦ some (atom (integer z)) ]
int_value v = none

-- A parameter of the type `Message` takes dictionaries and texts as they are.
abbrev pub as_message : String → Value → Outcome Error Value
as_message n (atom (dict j)) = if n == "Message" then ok (atom (dict j)) else err value_error
as_message n (atom (str s)) = if n == "Message" then ok (atom (str s)) else err value_error
as_message n v = err value_error

-- A value of another type than the parameter's.
abbrev pub convert : Kind → Option Deserializer → Value → Outcome Error Value
convert t (some g) v = or_decode_error (g dict_format v)
convert int_type none v = or_value_error (int_value v)
convert (message_type n) none v = as_message n v
convert t none v = err value_error

abbrev pub has_type : MessageClass → Kind → Value → Bool
has_type c t (atom a) = is_instance c t a
has_type c t (list xs) = false

-- The part of `_add_value` for a parameter with one value: the value that is stored.
unfoldable pub single_value : MessageClass → Kind → Spec → Value → Outcome Error Value
unfolding int_text
single_value c t s (atom null) = ok (atom null)
single_value c bool_type s (atom (boolean b)) = ok (atom (boolean b))
single_value c t s (atom (boolean b)) = err value_error
single_value c t s v = if has_type c t v then ok v else convert t s.deserializer v

-- `_add_value`
unfoldable pub add_value :
    MessageClass → Spec → Format → String → Value → Dict Value → Outcome Error (Dict Value)
unfolding add_several single_value
add_value c s f k v d = if is_blank_list v && not s.null_allowed then ok d else elim s.vtype [
  | several t ↦ add_several c t s f k v d
  | single t ↦ do w ← single_value c t s v; ok (Dict.put d k w)
]

-- `val in ["", [""]]`
abbrev pub is_empty_text : Value → Bool
is_empty_text (atom (str s)) = not (is_nonempty s)
is_empty_text (list (str s ∷ [])) = not (is_nonempty s)
is_empty_text v = false

abbrev pub is_null : Value → Bool
is_null (atom null) = true
is_null v = false

-- The entry for a parameter: its own, or that of its name without a language tag.
abbrev or_entry : Option Spec → Option Spec → Option Spec
or_entry none o = o
or_entry (some s) o = some s

unfoldable pub known_spec : MessageClass → String → Option Spec
unfolding base_name
known_spec c k = or_entry (Dict.get c.c_param k) (Dict.get c.c_param (base_name k))

-- A round of `from_dict`.
unfoldable pub insert : MessageClass → String → Value → Dict Value → Outcome Error (Dict Value)
unfolding add_value known_spec
insert c k v d = if is_empty_text v then ok d else elim (known_spec c k) [
  | some s ↦ add_value c s dict_format k v d
  | none ↦ elim (Dict.get c.c_param "*") [
    | none ↦ ok (Dict.put d k v)
    | some s ↦ if is_null v then ok (Dict.put d k v) else add_value c s dict_format k v d
  ]
]

unfoldable pub from_dict : MessageClass → Dict Value → Dict Value → Outcome Error (Dict Value)
unfolding insert
from_dict c [] d = ok d
from_dict c ((k, v) ∷ r) d = do d' ← insert c k v d; from_dict c r d'

-- `__init__`, with the default values
unfoldable pub init_message : MessageClass → Dict Value → Outcome Error (Dict Value)
unfolding from_dict
init_message c kwargs = from_dict c kwargs c.c_default

-- `__setitem__`
unfoldable pub set_item : MessageClass → String → Value → Dict Value → Outcome Error (Dict Value)
unfolding add_value
set_item c k v d = elim (Dict.get c.c_param k) [
  | none ↦ ok (Dict.put d k v)
  | some s ↦ add_value c s urlencoded k v d
]
