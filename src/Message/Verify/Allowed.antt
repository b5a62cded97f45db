-- ===== src/Message/Verify/Allowed.antt =====
-- What `_type_check` asks of a value.
use idpy_oidc.Base.{
  ◌≡◌, refl, sym, ◌↔◌, inl, inr, Bool, true, ◌&&◌, true-false, List, [], ◌∷◌, String, arith, In,
  contains-In, In-contains,
}
use idpy_oidc.Message.{
  Atom, str, null, boolean, integer, dict, message, Value, atom, list, str_type, int_type,
  bool_type, dict_type, message_type, Vtype, single, several,
}
use idpy_oidc.Message.Verify.{is_in, all_in, value_in, null_passes, type_check}

-- A text that is among those that are allowed.
abbrev pub IsOneOf : List String → Atom → Type 0
IsOneOf allowed a = (s : String) × (a ≡ str s) × In s allowed

-- What `_type_check` asks of a value, by the type of the parameter.
abbrev pub IsAllowed : Vtype → List String → Value → Bool → Type 0
IsAllowed (single str_type) allowed v na = (a : Atom) × (v ≡ atom a) × IsOneOf allowed a
IsAllowed (single int_type) allowed v na = (a : Atom) × (v ≡ atom a) × IsOneOf allowed a
IsAllowed (several t) allowed v na =
    (xs : List Atom) → v ≡ list xs → (a : Atom) → In a xs → IsOneOf allowed a
IsAllowed (single t) allowed v na = v ≡ atom null → na ≡ true

str_inj : {s t : String} → str s ≡ str t → s ≡ t
str_inj e = cc

atom_inj : {a b : Atom} → atom a ≡ atom b → a ≡ b
atom_inj e = cc

list_inj : {xs ys : List Atom} → list xs ≡ list ys → xs ≡ ys
list_inj e = cc

is_in_iff : (allowed : List String) (a : Atom) → (is_in allowed a ≡ true) ↔ IsOneOf allowed a
is_in_iff allowed (str s) =
    (λ e. (s, refl, contains-In s allowed e), λ (t, e, m). rw (str_inj e) (In-contains t allowed m))
is_in_iff allowed null = (λ e. absurd (true-false (sym e)), λ (t, e, m). cc)
is_in_iff allowed (boolean b) = (λ e. absurd (true-false (sym e)), λ (t, e, m). cc)
is_in_iff allowed (integer b) = (λ e. absurd (true-false (sym e)), λ (t, e, m). cc)
is_in_iff allowed (dict b) = (λ e. absurd (true-false (sym e)), λ (t, e, m). cc)
is_in_iff allowed (message n b) = (λ e. absurd (true-false (sym e)), λ (t, e, m). cc)

and_both : (a b : Bool) → a && b ≡ true → (a ≡ true) × (b ≡ true)
and_both a b e = (ground (arith, e), ground (arith, e))

all_in_iff :
    (allowed : List String) (xs : List Atom)
    → (all_in allowed xs ≡ true) ↔ ((a : Atom) → In a xs → IsOneOf allowed a)
all_in_iff allowed [] = (λ e a m. absurd m, λ h. refl)
all_in_iff allowed (x ∷ xs) = (
  λ e a m.
      let (p, q) = and_both (is_in allowed x) (all_in allowed xs) e in
      elim m [ inl i ↦ rw i ((is_in_iff allowed x).0 p) | inr i ↦ (all_in_iff allowed xs).0 q a i ],
  λ h.
      rw ((is_in_iff allowed x).1 (h x (inl refl)), (all_in_iff allowed xs).1 (λ a m. h a (inr m)))
        refl,
)

value_in_iff :
    (allowed : List String) (v : Value)
    → (value_in allowed v ≡ true) ↔ ((a : Atom) × (v ≡ atom a) × IsOneOf allowed a)
value_in_iff allowed (atom a) = (
  λ e. (a, refl, (is_in_iff allowed a).0 e),
  λ (b, e, o). rw (atom_inj e) ((is_in_iff allowed b).1 o),
)
value_in_iff allowed (list xs) = (λ e. absurd (true-false (sym e)), λ (t, e, m). cc)

null_passes_iff : (na : Bool) (v : Value) → (null_passes na v ≡ true) ↔ (v ≡ atom null → na ≡ true)
null_passes_iff na (atom null) = (λ e q. e, λ h. h refl)
null_passes_iff na (atom (boolean b)) = (λ e q. cc, λ h. refl)
null_passes_iff na (atom (integer b)) = (λ e q. cc, λ h. refl)
null_passes_iff na (atom (str b)) = (λ e q. cc, λ h. refl)
null_passes_iff na (atom (dict b)) = (λ e q. cc, λ h. refl)
null_passes_iff na (atom (message n b)) = (λ e q. cc, λ h. refl)
null_passes_iff na (list xs) = (λ e q. cc, λ h. refl)

pub type_check_iff :
    (t : Vtype) (allowed : List String) (v : Value) (na : Bool)
    → (type_check t allowed v na ≡ true) ↔ IsAllowed t allowed v na
unfolding type_check
type_check_iff (single str_type) allowed v na = value_in_iff allowed v
type_check_iff (single int_type) allowed v na = value_in_iff allowed v
type_check_iff (several t) allowed (list ys) na = (
  λ e xs q a m. (all_in_iff allowed ys).0 e a (rw (list_inj q) m),
  λ h. (all_in_iff allowed ys).1 (h ys refl),
)
type_check_iff (several t) allowed (atom x) na = (λ e xs q. cc, λ h. refl)
type_check_iff (single bool_type) allowed v na = null_passes_iff na v
type_check_iff (single dict_type) allowed v na = null_passes_iff na v
type_check_iff (single (message_type n)) allowed v na = null_passes_iff na v
