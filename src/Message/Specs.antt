-- ===== src/Message/Specs.antt =====
-- The entries of `c_param` that src/idpyoidc/message/__init__.py gives names to, with the serializers and
-- deserializers of lists.
pub mod Spaces
use Prim.Native.Char.{Char, code}
use Prim.Native.String.{◌++◌ as ◌++ₛ◌}
use Prim.Native.String
use idpy_oidc.Base.{
  true, false, Option, none, some, List, [], ◌∷◌, String, ◌==◌, ◌||◌, eqb, if◌then◌else◌,
}
use idpy_oidc.Message.{
  Json, Atom, str, dict, message, Value, atom, list, str_type, int_type, bool_type, single, several,
  Format, urlencoded, dict_format, Deserializer, Spec,
}

abbrev pub in_first : Char → List String → List String
in_first c [] = String.◌∷◌ c "" ∷ []
in_first c (s ∷ ss) = String.◌∷◌ c s ∷ ss

-- `s.split(" ")`
unfoldable pub split_spaces : String → List String
split_spaces String.[] = "" ∷ []
split_spaces (String.◌∷◌ c s) =
    let rest = split_spaces s in if eqb (code c) b' ' then "" ∷ rest else in_first c rest

-- `" ".join(vals)`
unfoldable pub join_spaces : List String → String
join_spaces [] = ""
join_spaces (s ∷ []) = s
join_spaces (s ∷ t ∷ ss) = s ++ₛ (" " ++ₛ join_spaces (t ∷ ss))

abbrev pub texts : List String → List Atom
texts [] = []
texts (s ∷ ss) = str s ∷ texts ss

-- The texts of a list; `none` is the exception of `join` and `split` on other values.
abbrev pub texts_of : List Atom → Option (List String)
texts_of [] = some []
texts_of (str s ∷ xs) = elim (texts_of xs) [ none ↦ none | some ss ↦ some (s ∷ ss) ]
texts_of (x ∷ xs) = none

abbrev joined : Option (List String) → Option Value
joined none = none
joined (some ss) = some (atom (str (join_spaces ss)))

-- `list_serializer`
unfoldable pub list_serializer : Format → Value → Option Value
unfolding join_spaces
list_serializer dict_format (atom (str s)) = some (list (str s ∷ []))
list_serializer f (atom a) = none
list_serializer urlencoded (list xs) = joined (texts_of xs)
list_serializer dict_format (list xs) = some (list xs)

abbrev split_only : List Atom → Option Value
split_only (str s ∷ []) = some (list (texts (split_spaces s)))
split_only (x ∷ []) = none
split_only xs = some (list xs)

-- `list_deserializer`
unfoldable pub list_deserializer : Deserializer
unfolding split_spaces
list_deserializer urlencoded (atom (str s)) = some (list (texts (split_spaces s)))
list_deserializer urlencoded (atom a) = some (atom a)
list_deserializer urlencoded (list xs) = split_only xs
list_deserializer dict_format (atom (str s)) = some (list (str s ∷ []))
list_deserializer dict_format v = some v

abbrev member_names : Json → List String
member_names [] = []
member_names ((k, v) ∷ j) = k ∷ member_names j

-- `sp_sep_list_serializer`: of a dictionary or a message, the names of its members are joined.
unfoldable pub sp_sep_list_serializer : Format → Value → Option Value
unfolding join_spaces
sp_sep_list_serializer f (atom (str s)) = some (atom (str s))
sp_sep_list_serializer f (atom (dict j)) = joined (some (member_names j))
sp_sep_list_serializer f (atom (message n j)) = joined (some (member_names j))
sp_sep_list_serializer f (atom a) = none
sp_sep_list_serializer f (list xs) = joined (texts_of xs)

-- `sp_sep_list_deserializer`
unfoldable pub sp_sep_list_deserializer : Deserializer
unfolding split_spaces
sp_sep_list_deserializer f (atom (str s)) = some (list (texts (split_spaces s)))
sp_sep_list_deserializer f (atom a) = some (atom a)
sp_sep_list_deserializer f (list xs) = split_only xs

abbrev pub single_required_string : Spec
single_required_string = record {
  vtype = single str_type;
  required = true;
  deserializer = none;
  null_allowed = false;
}

abbrev pub single_optional_string : Spec
single_optional_string = record single_required_string { required = false }

abbrev pub single_optional_int : Spec
single_optional_int = record single_optional_string { vtype = single int_type }

abbrev pub single_required_int : Spec
single_required_int = record single_required_string { vtype = single int_type }

abbrev pub single_required_boolean : Spec
single_required_boolean = record single_required_string { vtype = single bool_type }

abbrev pub optional_list_of_strings : Spec
optional_list_of_strings = record {
  vtype = several str_type;
  required = false;
  deserializer = some list_deserializer;
  null_allowed = false;
}

abbrev pub required_list_of_strings : Spec
required_list_of_strings = record optional_list_of_strings { required = true }

abbrev pub optional_list_of_sp_sep_strings : Spec
optional_list_of_sp_sep_strings = record optional_list_of_strings {
  deserializer = some sp_sep_list_deserializer;
}

abbrev pub required_list_of_sp_sep_strings : Spec
required_list_of_sp_sep_strings = record optional_list_of_sp_sep_strings { required = true }
