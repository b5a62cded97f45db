-- ===== src/Message/Verify.antt =====
-- `verify` of `Message`: the required parameters, and the values that are allowed.
pub mod Allowed
pub mod Rules
use idpy_oidc.Base.{
  Bool, true, false, ◌&&◌, ◌||◌, Option, none, some, List, [], ◌∷◌, String, ◌==◌, Outcome, ok, err,
  ◌>>=◌, contains, if◌then◌else◌,
}
use idpy_oidc.Dict
use idpy_oidc.Dict.{Dict}
use idpy_oidc.Message.{
  Atom, null, str, Value, atom, list, str_type, int_type, bool_type, Vtype, single, several, Spec,
  MessageClass, is_true,
}

pub data Fault : Type 0 where
  missing_required_attribute : String → Fault
  not_allowed_value : Value → Fault

-- `item in _allowed`: the values that are allowed are texts.
abbrev pub is_in : List String → Atom → Bool
is_in allowed (str s) = contains s allowed
is_in allowed a = false

abbrev pub all_in : List String → List Atom → Bool
all_in allowed [] = true
all_in allowed (a ∷ xs) = is_in allowed a && all_in allowed xs

abbrev pub value_in : List String → Value → Bool
value_in allowed (atom a) = is_in allowed a
value_in allowed (list xs) = false

abbrev pub null_passes : Bool → Value → Bool
null_passes na (atom null) = na
null_passes na v = true

-- `_type_check`
unfoldable pub type_check : Vtype → List String → Value → Bool → Bool
type_check (single str_type) allowed v na = value_in allowed v
type_check (single int_type) allowed v na = value_in allowed v
type_check (several t) allowed (list xs) na = all_in allowed xs
type_check (several t) allowed v na = true
type_check (single t) allowed v na = null_passes na v

abbrev pub is_bool : Vtype → Bool
is_bool (single bool_type) = true
is_bool t = false

-- The check of a value that is there against those that are allowed.
abbrev pub check_allowed : Option (List String) → Spec → Value → Outcome Fault Unit
check_allowed none s v = ok tt
check_allowed (some allowed) s v =
    if type_check s.vtype allowed v s.null_allowed then ok tt else err (not_allowed_value v)

-- A missing or empty value.
abbrev pub check_required : String → Spec → Outcome Fault Unit
check_required k s = if s.required then err (missing_required_attribute k) else ok tt

abbrev pub check_found : MessageClass → String → Spec → Value → Outcome Fault Unit
check_found c k s v =
    if is_bool s.vtype || is_true v
    then check_allowed (Dict.get c.c_allowed_values k) s v
    else check_required k s

-- A round of the loop of `verify`.
unfoldable pub check_one : MessageClass → Dict Value → String → Spec → Outcome Fault Unit
unfolding type_check
check_one c d k s =
    if k == "*"
    then ok tt
    else elim (Dict.get d k) [ none ↦ check_required k s | some v ↦ check_found c k s v ]

unfoldable pub check_specs : MessageClass → Dict Value → Dict Spec → Outcome Fault Unit
unfolding check_one
check_specs c d [] = ok tt
check_specs c d ((k, s) ∷ r) = check_one c d k s >>= λ _. check_specs c d r

-- `verify`
unfoldable pub verify : MessageClass → Dict Value → Outcome Fault Unit
unfolding check_specs
verify c d = check_specs c d c.c_param
