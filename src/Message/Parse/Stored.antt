-- ===== src/Message/Parse/Stored.antt =====
-- The types of the values of a message, over the rounds of `from_dict`.
use mathlib.Core.Path.{subst}
use idpy_oidc.Base.{
  none-some, some_inj, ◌≡◌, refl, sym, ◌∙◌, inl, inr, true, not, ◌&&◌, Bool-cases, true-false,
  Option, none, some, [], ◌∷◌, String, ◌==◌, eq_iff, ok, ◌>>=◌, >>=-eq_ok, ok_inj, if◌then◌else◌,
}
use idpy_oidc.Dict
use idpy_oidc.Dict.{Dict, get-put}
use idpy_oidc.Message.{
  str, null, boolean, integer, dict, message, Value, atom, list, Vtype, single, several, Format,
  dict_format, Spec, MessageClass,
}
use idpy_oidc.Message.Parse.{
  add_several, single_value, add_value, is_blank_list, is_empty_text, is_null, or_entry, known_spec,
  insert, from_dict,
}
use idpy_oidc.Message.Parse.Typed.{IsOf, single_value-IsOf}
use idpy_oidc.Message.Parse.Several.{Adds, add_several-Adds}

add_value-Adds :
    (c : MessageClass) (s : Spec) (f : Format) (k : String) (v : Value) (d d' : Dict Value)
    → add_value c s f k v d ≡ ok d'
    → Adds (IsOf c s s.vtype) k d d'
unfolding add_value
add_value-Adds c s f k v d d' e = elim (Bool-cases (is_blank_list v && not s.null_allowed)) [
  | inl y ↦ inl (sym (ok_inj (rw y at e)))
  | inr n ↦ by_type s.vtype (rw n at e)
]
  where
    by_type :
        (t : Vtype)
        → (elim t [
          | several u ↦ add_several c u s f k v d
          | single u ↦ single_value c u s v >>= λ w. ok (Dict.put d k w)
        ])
          ≡ ok d'
        → Adds (IsOf c s t) k d d'
    by_type (several u) e = add_several-Adds c u s f k v d d' e
    by_type (single u) e =
        let (w, p, q) = >>=-eq_ok (single_value c u s v) (λ w. ok (Dict.put d k w)) e in
        inr (w, sym (ok_inj q), single_value-IsOf c u s v w p)

-- The entry that `from_dict` goes by: the parameter's, that of its name without a language tag, or `*`.
abbrev pub spec_for : MessageClass → String → Option Spec
spec_for c k = or_entry (known_spec c k) (Dict.get c.c_param "*")

-- What the entry for a parameter says of a value, if there is one.
abbrev pub Fits : MessageClass → String → Value → Type 0
Fits c k v = (s : Spec) → spec_for c k ≡ some s → IsOf c s s.vtype v

Adds-fitting :
    (c : MessageClass) (s : Spec) (k : String) (d d' : Dict Value)
    → spec_for c k ≡ some s
    → Adds (IsOf c s s.vtype) k d d'
    → Adds (Fits c k) k d d'
Adds-fitting c s k d d' q (inl e) = inl e
Adds-fitting c s k d d' q (inr (w, e, p)) =
    inr (w, e, λ t r. subst (λ x. IsOf c x x.vtype w) (some_inj (sym q ∙ r)) p)

null-IsOf : (c : MessageClass) (s : Spec) (t : Vtype) → IsOf c s t (atom null)
null-IsOf c s (single t) = inl refl
null-IsOf c s (several t) = inl refl

null_lem : (v : Value) → is_null v ≡ true → v ≡ atom null
null_lem (atom null) e = refl
null_lem (atom (boolean b)) e = absurd (true-false (sym e))
null_lem (atom (integer b)) e = absurd (true-false (sym e))
null_lem (atom (str b)) e = absurd (true-false (sym e))
null_lem (atom (dict b)) e = absurd (true-false (sym e))
null_lem (atom (message n b)) e = absurd (true-false (sym e))
null_lem (list xs) e = absurd (true-false (sym e))

insert-Adds :
    (c : MessageClass) (k : String) (v : Value) (d d' : Dict Value)
    → insert c k v d ≡ ok d'
    → Adds (Fits c k) k d d'
unfolding insert
insert-Adds c k v d d' e = elim (Bool-cases (is_empty_text v)) [
  | inl y ↦ inl (sym (ok_inj (rw y at e)))
  | inr n ↦ known (known_spec c k) refl (rw n at e)
]
  where
    or_null :
        (s : Spec)
        → spec_for c k ≡ some s
        → (if is_null v then ok (Dict.put d k v) else add_value c s dict_format k v d) ≡ ok d'
        → Adds (Fits c k) k d d'
    or_null s q e = elim (Bool-cases (is_null v)) [
      | inl y ↦ inr (v, sym (ok_inj (rw y at e)), λ t r. rw (null_lem v y) (null-IsOf c t t.vtype))
      | inr n ↦ Adds-fitting c s k d d' q (add_value-Adds c s dict_format k v d d' (rw n at e))
    ]

    other :
        (o : Option Spec)
        → spec_for c k ≡ o
        → (elim o [
          | none ↦ ok (Dict.put d k v)
          | some s ↦ if is_null v then ok (Dict.put d k v) else add_value c s dict_format k v d
        ])
          ≡ ok d'
        → Adds (Fits c k) k d d'
    other none q e = inr (v, sym (ok_inj e), λ s r. absurd (none-some (sym q ∙ r)))
    other (some s) q e = or_null s q e

    known :
        (o : Option Spec)
        → known_spec c k ≡ o
        → (elim o [
          | some s ↦ add_value c s dict_format k v d
          | none ↦ elim (Dict.get c.c_param "*") [
            | none ↦ ok (Dict.put d k v)
            | some s ↦ if is_null v then ok (Dict.put d k v) else add_value c s dict_format k v d
          ]
        ])
          ≡ ok d'
        → Adds (Fits c k) k d d'
    known (some s) q e =
        Adds-fitting c s k d d' (rw q refl) (add_value-Adds c s dict_format k v d d' e)
    known none q e = other (Dict.get c.c_param "*") (rw q refl) e

-- Every value of a message is what the entry for its parameter says.
abbrev pub IsTyped : MessageClass → Dict Value → Type 0
IsTyped c d = (k : String) (v : Value) → Dict.get d k ≡ some v → Fits c k v

pub IsTyped-empty : (c : MessageClass) → IsTyped c []
unfolding Dict.get
IsTyped-empty c k v e = absurd (none-some e)

put-IsTyped :
    (c : MessageClass) (k : String) (d : Dict Value) (w : Value)
    → IsTyped c d
    → Fits c k w
    → IsTyped c (Dict.put d k w)
put-IsTyped c k d w h p j v q = elim (Bool-cases (k == j)) [
  | inl y ↦
      subst (λ u. Fits c j u) (some_inj (sym (get-put d k j w ∙ rw y refl) ∙ q))
        (subst (λ i. Fits c i w) ((eq_iff k j).0 y) p)
  | inr n ↦ h j v (sym (get-put d k j w ∙ rw n refl) ∙ q)
]

Adds-IsTyped :
    (c : MessageClass) (k : String) (d d' : Dict Value)
    → IsTyped c d
    → Adds (Fits c k) k d d'
    → IsTyped c d'
Adds-IsTyped c k d d' h (inl e) = subst (IsTyped c) (sym e) h
Adds-IsTyped c k d d' h (inr (w, e, p)) = subst (IsTyped c) (sym e) (put-IsTyped c k d w h p)

-- `from_dict` keeps a message typed, where it returns. A value that it stores for a parameter whose entry is
-- for one value is null, has the entry's type, was taken as it is for a message, or is what the entry's
-- deserializer made of a value. One for a parameter whose entry is for a list is null, has elements that all
-- have the entry's type (those that the class made into messages included), or is what the deserializer made
-- of a single value of that type or of a dictionary, never of a list.
pub from_dict-IsTyped :
    (c : MessageClass) (r d : Dict Value) {d' : Dict Value}
    → IsTyped c d
    → from_dict c r d ≡ ok d'
    → IsTyped c d'
unfolding from_dict
from_dict-IsTyped c [] d h e = subst (IsTyped c) (ok_inj e) h
from_dict-IsTyped c ((k, v) ∷ r) d h e =
    let (d'', p, q) = >>=-eq_ok (insert c k v d) (λ d''. from_dict c r d'') e in
    from_dict-IsTyped c r d'' (Adds-IsTyped c k d d'' h (insert-Adds c k v d d'' p)) q
