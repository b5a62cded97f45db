-- ===== src/Message/Parse/Several.antt =====
-- The lists that `_add_value` stores, and the values that stand for them.
use mathlib.Core.Path.{subst}
use idpy_oidc.Base.{
  ◌≡◌, refl, sym, ap, ◌⊎◌, inl, inr, true, Bool-cases, Option, none, some, List, [], ◌∷◌, String,
  Outcome, ok, err, ◌>>=◌, >>=-eq_ok, ok_inj, In, if◌then◌else◌,
}
use idpy_oidc.Dict
use idpy_oidc.Dict.{Dict}
use idpy_oidc.Message.{
  Atom, str, null, boolean, integer, dict, message, Value, atom, list, Kind, str_type, int_type,
  bool_type, dict_type, message_type, several, Format, dict_format, Deserializer, Spec,
  MessageClass, is_instance, Json,
}
use idpy_oidc.Message.Parse.{
  Error, value_error, or_decode_error, call_if, elements, build_all, check_all, no_type_error,
  checked, add_one, add_other, add_several,
}
use idpy_oidc.Message.Parse.Typed.{
  IsOf, IsListOf, IsElement, decoded, build_all-IsElement, check_all-IsElement,
}

some_elements : (o : Option (List Atom)) {xs : List Atom} → no_type_error o ≡ ok xs → o ≡ some xs
some_elements none e = cc
some_elements (some xs) e = ap some (ok_inj e)

plain_checked :
    (c : MessageClass) (t : Kind) (v w : Value)
    → ((no_type_error (elements v)) >>= λ xs. check_all c t xs >>= λ _. ok v) ≡ ok w
    → IsListOf c t w
plain_checked c t v w e =
    let (xs, p, q) =
      >>=-eq_ok (no_type_error (elements v)) (λ xs. check_all c t xs >>= λ _. ok v) e in
    let (u, p', q') = >>=-eq_ok (check_all c t xs) (λ _. ok v) q in
    subst (IsListOf c t) (ok_inj q')
      (xs, some_elements (elements v) p, check_all-IsElement c t xs p')

checked-IsListOf :
    (c : MessageClass) (t : Kind) (v w : Value) → checked c t v ≡ ok w → IsListOf c t w
unfolding checked
checked-IsListOf c (message_type n) v w e =
    let (xs, p, q) =
      >>=-eq_ok (or_decode_error (elements v)) (λ xs. build_all c n xs >>= λ ys. ok (list ys)) e in
    let (ys, p', q') = >>=-eq_ok (build_all c n xs) (λ ys. ok (list ys)) q in
    subst (IsListOf c (message_type n)) (ok_inj q') (ys, refl, build_all-IsElement c n xs ys p')
checked-IsListOf c str_type v w e = plain_checked c str_type v w e
checked-IsListOf c int_type v w e = plain_checked c int_type v w e
checked-IsListOf c bool_type v w e = plain_checked c bool_type v w e
checked-IsListOf c dict_type v w e = plain_checked c dict_type v w e

-- Nothing changes, or a value of the type is stored.
abbrev pub Adds : (Value → Type 0) → String → Dict Value → Dict Value → Type 0
Adds P k d d' = (d' ≡ d) ⊎ ((w : Value) × (d' ≡ Dict.put d k w) × P w)

Adds-made :
    (c : MessageClass) (t : Kind) (s : Spec) (g : Deserializer) (f : Format) (k : String) (a : Atom)
    (d d' : Dict Value)
    → s.deserializer ≡ some g
    → ((is_instance c t a ≡ true) ⊎ ((j : Json) × (a ≡ dict j)))
    → (or_decode_error (g f (atom a)) >>= λ w. ok (Dict.put d k w)) ≡ ok d'
    → Adds (IsOf c s (several t)) k d d'
Adds-made c t s g f k a d d' q i e =
    let (w, p, r) = >>=-eq_ok (or_decode_error (g f (atom a))) (λ w. ok (Dict.put d k w)) e in
    inr (w, sym (ok_inj r), inr (inr (g, q, f, a, i, decoded (g f (atom a)) p)))

Adds-one :
    (c : MessageClass) (t : Kind) (s : Spec) (o : Option Deserializer) (f : Format) (k : String)
    (a : Atom) (d d' : Dict Value)
    → s.deserializer ≡ o
    → is_instance c t a ≡ true
    → add_one t o f k a d ≡ ok d'
    → Adds (IsOf c s (several t)) k d d'
Adds-one c (message_type n) s o f k a d d' q y e =
    inr (list (a ∷ []), sym (ok_inj e), inr (inl (a ∷ [], refl, single_element)))
  where
    single_element : (b : Atom) → In b (a ∷ []) → IsElement c (message_type n) b
    single_element b (inl i) = inl (rw i y)
    single_element b (inr m) = absurd m
Adds-one c str_type s none f k a d d' q y e = inl (sym (ok_inj e))
Adds-one c str_type s (some g) f k a d d' q y e = Adds-made c str_type s g f k a d d' q (inl y) e
Adds-one c int_type s none f k a d d' q y e = inl (sym (ok_inj e))
Adds-one c int_type s (some g) f k a d d' q y e = Adds-made c int_type s g f k a d d' q (inl y) e
Adds-one c bool_type s none f k a d d' q y e = inl (sym (ok_inj e))
Adds-one c bool_type s (some g) f k a d d' q y e = Adds-made c bool_type s g f k a d d' q (inl y) e
Adds-one c dict_type s none f k a d d' q y e = inl (sym (ok_inj e))
Adds-one c dict_type s (some g) f k a d d' q y e = Adds-made c dict_type s g f k a d d' q (inl y) e

Adds-other :
    (c : MessageClass) (t : Kind) (s : Spec) (o : Option Deserializer) (k : String) (a : Atom)
    (d d' : Dict Value)
    → s.deserializer ≡ o
    → add_other o k a d ≡ ok d'
    → Adds (IsOf c s (several t)) k d d'
Adds-other c t s none k (dict j) d d' q e = cc
Adds-other c t s (some g) k (dict j) d d' q e =
    Adds-made c t s g dict_format k (dict j) d d' q (inr (j, refl)) e
Adds-other c t s o k null d d' q e = cc
Adds-other c t s o k (boolean b) d d' q e = cc
Adds-other c t s o k (integer b) d d' q e = cc
Adds-other c t s o k (str b) d d' q e = cc
Adds-other c t s o k (message n j) d d' q e = cc

Adds-atom :
    (c : MessageClass) (t : Kind) (s : Spec) (f : Format) (k : String) (a : Atom)
    (d d' : Dict Value)
    → (if is_instance c t a
        then add_one t s.deserializer f k a d
        else add_other s.deserializer k a d)
      ≡ ok d'
    → Adds (IsOf c s (several t)) k d d'
Adds-atom c t s f k a d d' e = elim (Bool-cases (is_instance c t a)) [
  | inl y ↦ Adds-one c t s s.deserializer f k a d d' refl y (rw y at e)
  | inr n ↦ Adds-other c t s s.deserializer k a d d' refl (rw n at e)
]

pub add_several-Adds :
    (c : MessageClass) (t : Kind) (s : Spec) (f : Format) (k : String) (v : Value)
    (d d' : Dict Value)
    → add_several c t s f k v d ≡ ok d'
    → Adds (IsOf c s (several t)) k d d'
unfolding add_several
add_several-Adds c t s f k (atom null) d d' e = elim (Bool-cases s.null_allowed) [
  | inl y ↦ inr (atom null, sym (ok_inj (rw y at e)), inl refl)
  | inr n ↦ absurd (no_ok (rw n at e))
]
  where
    no_ok : ¬ (◌≡◌ {A = Outcome Error (Dict Value)} (err value_error) (ok d'))
    no_ok e = cc
add_several-Adds c t s f k (list xs) d d' e =
    let (v, p, q) =
      >>=-eq_ok (call_if s.deserializer dict_format (list xs))
        (λ v. checked c t v >>= λ w. ok (Dict.put d k w)) e in
    let (w, p', q') = >>=-eq_ok (checked c t v) (λ w. ok (Dict.put d k w)) q in
    inr (w, sym (ok_inj q'), inr (inl (checked-IsListOf c t v w p')))
add_several-Adds c t s f k (atom (boolean b)) d d' e = Adds-atom c t s f k (boolean b) d d' e
add_several-Adds c t s f k (atom (integer b)) d d' e = Adds-atom c t s f k (integer b) d d' e
add_several-Adds c t s f k (atom (str b)) d d' e = Adds-atom c t s f k (str b) d d' e
add_several-Adds c t s f k (atom (dict j)) d d' e = Adds-atom c t s f k (dict j) d d' e
add_several-Adds c t s f k (atom (message n j)) d d' e = Adds-atom c t s f k (message n j) d d' e
