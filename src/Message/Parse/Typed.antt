-- ===== src/Message/Parse/Typed.antt =====
-- The types of the values that `from_dict` stores.
use mathlib.Core.Path.{subst}
use idpy_oidc.Base.{
  ◌≡◌, refl, sym, ap, ◌⊎◌, inl, inr, true, Bool-cases, Option, none, some, List, [], ◌∷◌, String,
  ◌==◌, eq_iff, Outcome, ok, err, ◌>>=◌, >>=-eq_ok, ok_inj, In, if◌then◌else◌,
}
use idpy_oidc.Message.{
  ℤ, Atom, str, null, boolean, integer, dict, message, Value, atom, list, Kind, str_type, int_type,
  bool_type, dict_type, message_type, Vtype, single, several, Format, dict_format, Deserializer,
  Spec, MessageClass, is_instance, Json, int_text,
}
use idpy_oidc.Message.Parse.{
  Error, decode_error, value_error, or_decode_error, elements, build, build_all, check_all,
  or_value_error, int_value, as_message, convert, has_type, single_value,
}

-- An element of the type, or one that the class of messages made.
abbrev pub IsElement : MessageClass → Kind → Atom → Type 0
IsElement c t a =
    (is_instance c t a ≡ true)
    ⊎ ((n : String) × (t ≡ message_type n) × (j : Json) × (c.new_message n j ≡ some a))

-- Something to iterate over, whose elements have the type.
abbrev pub IsListOf : MessageClass → Kind → Value → Type 0
IsListOf c t v =
    (xs : List Atom) × (elements v ≡ some xs) × ((a : Atom) → In a xs → IsElement c t a)

-- What the deserializer of the parameter made of a value.
abbrev pub IsMade : Spec → Value → Type 0
IsMade s v =
    (g : Deserializer) × (s.deserializer ≡ some g) × (f : Format) × (w : Value) × (g f w ≡ some v)

-- What the deserializer made of a single value, which had the type of the elements or was a dictionary.
abbrev pub IsMadeOfOne : MessageClass → Kind → Spec → Value → Type 0
IsMadeOfOne c t s v =
    (g : Deserializer) × (s.deserializer ≡ some g)
    × (f : Format) × (a : Atom) × ((is_instance c t a ≡ true) ⊎ ((j : Json) × (a ≡ dict j)))
    × (g f (atom a) ≡ some v)

-- What is taken for a message as it is.
abbrev pub IsRaw : Kind → Value → Type 0
IsRaw t v =
    (t ≡ message_type "Message")
    × (((j : Json) × (v ≡ atom (dict j))) ⊎ ((s : String) × (v ≡ atom (str s))))

abbrev pub IsOf : MessageClass → Spec → Vtype → Value → Type 0
IsOf c s (single t) v = (v ≡ atom null) ⊎ (has_type c t v ≡ true) ⊎ IsRaw t v ⊎ IsMade s v
IsOf c s (several t) v = (v ≡ atom null) ⊎ IsListOf c t v ⊎ IsMadeOfOne c t s v

pub decoded : {A : Type 0} (o : Option A) {a : A} → or_decode_error o ≡ ok a → o ≡ some a
decoded none e = cc
decoded (some a) e = ap some (ok_inj e)

convert_made :
    (c : MessageClass) (t : Kind) (s : Spec) (g : Deserializer) (v w : Value)
    → s.deserializer ≡ some g
    → or_decode_error (g dict_format v) ≡ ok w
    → IsOf c s (single t) w
convert_made c t s g v w q e = inr (inr (inr (g, q, dict_format, v, decoded (g dict_format v) e)))

int_value-IsOf :
    (c : MessageClass) (s : Spec) (v w : Value)
    → or_value_error (int_value v) ≡ ok w
    → IsOf c s (single int_type) w
int_value-IsOf c s (list xs) w e = cc
int_value-IsOf c s (atom null) w e = cc
int_value-IsOf c s (atom (boolean b)) w e = cc
int_value-IsOf c s (atom (integer z)) w e = cc
int_value-IsOf c s (atom (dict j)) w e = cc
int_value-IsOf c s (atom (message n j)) w e = cc
int_value-IsOf c s (atom (str x)) w e = go (int_text x) e
  where
    go :
        (o : Option ℤ)
        → or_value_error (elim o [ none ↦ none | some z ↦ some (atom (integer z)) ]) ≡ ok w
        → IsOf c s (single int_type) w
    go none e = cc
    go (some z) e = inr (inl (subst (λ u. has_type c int_type u ≡ true) (ok_inj e) refl))

only_messages :
    (n : String) (v w : Value)
    → ◌≡◌ {A = Outcome Error Value} (if n == "Message" then ok v else err value_error) (ok w)
    → (message_type n ≡ message_type "Message") × (w ≡ v)
only_messages n v w e = elim (Bool-cases (n == "Message")) [
  | inl y ↦ (ap message_type ((eq_iff n "Message").0 y), sym (ok_inj (rw y at e)))
  | inr x ↦ absurd (no_ok (rw x at e))
]
  where
    no_ok : ¬ (◌≡◌ {A = Outcome Error Value} (err value_error) (ok w))
    no_ok e = cc

as_message-IsOf :
    (c : MessageClass) (s : Spec) (n : String) (v w : Value)
    → as_message n v ≡ ok w
    → IsOf c s (single (message_type n)) w
as_message-IsOf c s n (list xs) w e = cc
as_message-IsOf c s n (atom null) w e = cc
as_message-IsOf c s n (atom (boolean b)) w e = cc
as_message-IsOf c s n (atom (integer z)) w e = cc
as_message-IsOf c s n (atom (message m j)) w e = cc
as_message-IsOf c s n (atom (dict j)) w e =
    let (p, q) = only_messages n (atom (dict j)) w e in inr (inr (inl (p, inl (j, q))))
as_message-IsOf c s n (atom (str x)) w e =
    let (p, q) = only_messages n (atom (str x)) w e in inr (inr (inl (p, inr (x, q))))

convert-IsOf :
    (c : MessageClass) (t : Kind) (s : Spec) (o : Option Deserializer) (v w : Value)
    → s.deserializer ≡ o
    → convert t o v ≡ ok w
    → IsOf c s (single t) w
convert-IsOf c t s (some g) v w q e = convert_made c t s g v w q e
convert-IsOf c int_type s none v w q e = int_value-IsOf c s v w e
convert-IsOf c (message_type n) s none v w q e = as_message-IsOf c s n v w e
convert-IsOf c str_type s none v w q e = cc
convert-IsOf c bool_type s none v w q e = cc
convert-IsOf c dict_type s none v w q e = cc

-- The end of the part for one value.
typed_or_converted :
    (c : MessageClass) (t : Kind) (s : Spec) (v w : Value)
    → (if has_type c t v then ok v else convert t s.deserializer v) ≡ ok w
    → IsOf c s (single t) w
typed_or_converted c t s v w e = elim (Bool-cases (has_type c t v)) [
  | inl y ↦ inr (inl (subst (λ u. has_type c t u ≡ true) (ok_inj (rw y at e)) y))
  | inr n ↦ convert-IsOf c t s s.deserializer v w refl (rw n at e)
]

pub single_value-IsOf :
    (c : MessageClass) (t : Kind) (s : Spec) (v w : Value)
    → single_value c t s v ≡ ok w
    → IsOf c s (single t) w
unfolding single_value
single_value-IsOf c t s (atom null) w e = inl (sym (ok_inj e))
single_value-IsOf c bool_type s (atom (boolean b)) w e =
    inr (inl (subst (λ u. has_type c bool_type u ≡ true) (ok_inj e) refl))
single_value-IsOf c str_type s (atom (boolean b)) w e = cc
single_value-IsOf c int_type s (atom (boolean b)) w e = cc
single_value-IsOf c dict_type s (atom (boolean b)) w e = cc
single_value-IsOf c (message_type n) s (atom (boolean b)) w e = cc
single_value-IsOf c t s (atom (integer z)) w e = typed_or_converted c t s (atom (integer z)) w e
single_value-IsOf c t s (atom (str x)) w e = typed_or_converted c t s (atom (str x)) w e
single_value-IsOf c t s (atom (dict j)) w e = typed_or_converted c t s (atom (dict j)) w e
single_value-IsOf c t s (atom (message n j)) w e = typed_or_converted c t s (atom (message n j)) w e
single_value-IsOf c t s (list xs) w e = typed_or_converted c t s (list xs) w e

build-Built :
    (c : MessageClass) (n : String) (a b : Atom)
    → build c n a ≡ ok b
    → (j : Json) × (c.new_message n j ≡ some b)
build-Built c n (dict j) b e = (j, decoded (c.new_message n j) e)
build-Built c n (message m j) b e = (j, decoded (c.new_message n j) e)
build-Built c n null b e = cc
build-Built c n (boolean x) b e = cc
build-Built c n (integer x) b e = cc
build-Built c n (str x) b e = cc

built-IsElement :
    (c : MessageClass) (n : String) (a b : Atom)
    → (if is_instance c (message_type n) a then ok a else build c n a) ≡ ok b
    → IsElement c (message_type n) b
built-IsElement c n a b e = elim (Bool-cases (is_instance c (message_type n) a)) [
  | inl y ↦ inl (subst (λ x. is_instance c (message_type n) x ≡ true) (ok_inj (rw y at e)) y)
  | inr x ↦ let (j, q) = build-Built c n a b (rw x at e) in inr (n, refl, j, q)
]

pub build_all-IsElement :
    (c : MessageClass) (n : String) (xs ys : List Atom)
    → build_all c n xs ≡ ok ys
    → (a : Atom) → In a ys
    → IsElement c (message_type n) a
unfolding build_all
build_all-IsElement c n [] ys e a m = absurd (subst (λ l. In a l) (sym (ok_inj e)) m)
build_all-IsElement c n (x ∷ xs) ys e a m =
    let (b, p, q) =
      >>=-eq_ok (if is_instance c (message_type n) x then ok x else build c n x)
        (λ b. build_all c n xs >>= λ r. ok (b ∷ r)) e in
    let (r, p', q') = >>=-eq_ok (build_all c n xs) (λ r. ok (b ∷ r)) q in
    elim (subst (λ l. In a l) (sym (ok_inj q')) m) [
      | inl i ↦ rw i (built-IsElement c n x b p)
      | inr i ↦ build_all-IsElement c n xs r p' a i
    ]

pub check_all-IsElement :
    (c : MessageClass) (t : Kind) (xs : List Atom)
    → check_all c t xs ≡ ok tt
    → (a : Atom) → In a xs
    → IsElement c t a
unfolding check_all
check_all-IsElement c t [] e a m = absurd m
check_all-IsElement c t (x ∷ xs) e a m = elim (Bool-cases (is_instance c t x)) [
  | inl y ↦ elim m [ inl i ↦ inl (rw i y) | inr i ↦ check_all-IsElement c t xs (rw y at e) a i ]
  | inr n ↦ absurd (no_ok (rw n at e))
]
  where
    no_ok : ¬ (◌≡◌ {A = Outcome Error Unit} (err decode_error) (ok tt))
    no_ok e = cc
