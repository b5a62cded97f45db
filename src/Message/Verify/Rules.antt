-- ===== src/Message/Verify/Rules.antt =====
-- What `verify` asks of a message, parameter by parameter.
use mathlib.Core.Path.{subst}
use idpy_oidc.Base.{
  none-some, some_inj, ◌≡◌, ◌≢◌, refl, sym, ◌∙◌, ◌↔◌, inl, inr, Bool, true, false, ◌||◌, Bool-cases,
  true-false, Option, none, some, List, [], ◌∷◌, String, ◌==◌, ok, err, >>=-eq_ok, In, not-==_of_ne,
  ==_of_eq, if◌then◌else◌,
}
use idpy_oidc.Dict
use idpy_oidc.Dict.{Dict}
use idpy_oidc.Message.{Value, Spec, MessageClass, is_true}
use idpy_oidc.Message.Verify.{
  Fault, not_allowed_value, missing_required_attribute, type_check, is_bool, check_allowed,
  check_required, check_found, check_one, check_specs, verify,
}
use idpy_oidc.Message.Verify.Allowed.{IsAllowed, type_check_iff}

-- A value that `verify` looks at: all but the empty ones, where the type is not `bool`.
abbrev pub Counts : Spec → Value → Type 0
Counts s v = is_bool s.vtype || is_true v ≡ true

-- What is asked of a parameter: if it is required it has a value that counts, and a value that counts is
-- allowed, where there is a list of those that are.
abbrev pub IsRight : MessageClass → Dict Value → String → Spec → Type 0
IsRight c d k s =
    (s.required ≡ true → (v : Value) × (Dict.get d k ≡ some v) × Counts s v)
    × ((v : Value) (allowed : List String)
        → Dict.get d k ≡ some v
        → Counts s v
        → Dict.get c.c_allowed_values k ≡ some allowed
        → IsAllowed s.vtype allowed v s.null_allowed)

false_of : (b : Bool) → ¬ (b ≡ true) → b ≡ false
false_of true h = absurd (h refl)
false_of false h = refl

err_if_iff : (b : Bool) (x : Fault) → ((if b then err x else ok tt) ≡ ok tt) ↔ (b ≡ false)
err_if_iff true x = (λ e. cc, λ e. absurd (true-false e))
err_if_iff false x = (λ e. refl, λ e. refl)

ok_if_iff : (b : Bool) (x : Fault) → ((if b then ok tt else err x) ≡ ok tt) ↔ (b ≡ true)
ok_if_iff true x = (λ e. refl, λ e. refl)
ok_if_iff false x = (λ e. cc, λ e. absurd (true-false (sym e)))

check_allowed_iff :
    (o : Option (List String)) (s : Spec) (v : Value)
    → (check_allowed o s v ≡ ok tt)
      ↔ ((allowed : List String) → o ≡ some allowed → IsAllowed s.vtype allowed v s.null_allowed)
check_allowed_iff none s v = (λ e a q. cc, λ h. refl)
check_allowed_iff (some xs) s v = (
  λ e a q.
      subst (λ ys. IsAllowed s.vtype ys v s.null_allowed) (some_inj q)
        ((type_check_iff s.vtype xs v s.null_allowed).0
          ((ok_if_iff (type_check s.vtype xs v s.null_allowed) (not_allowed_value v)).0 e)),
  λ h.
      (ok_if_iff (type_check s.vtype xs v s.null_allowed) (not_allowed_value v)).1
        ((type_check_iff s.vtype xs v s.null_allowed).1 (h xs refl)),
)

-- What is asked of a value that is there.
abbrev FoundIsRight : MessageClass → String → Spec → Value → Type 0
FoundIsRight c k s v =
    (s.required ≡ true → Counts s v)
    × ((allowed : List String)
        → Counts s v
        → Dict.get c.c_allowed_values k ≡ some allowed
        → IsAllowed s.vtype allowed v s.null_allowed)

check_found_iff :
    (c : MessageClass) (k : String) (s : Spec) (v : Value)
    → (check_found c k s v ≡ ok tt) ↔ FoundIsRight c k s v
check_found_iff c k s v = elim (Bool-cases (is_bool s.vtype || is_true v)) [
  | inl y ↦ rw y (
    λ e. (λ r. refl, λ a n. (check_allowed_iff (Dict.get c.c_allowed_values k) s v).0 e a),
    λ h. (check_allowed_iff (Dict.get c.c_allowed_values k) s v).1 (λ a. h.1 a refl),
  )
  | inr n ↦ rw n (
    λ e. (
      λ r. absurd (true-false (sym r ∙ (err_if_iff s.required (missing_required_attribute k)).0 e)),
      λ a y. absurd (true-false (sym y)),
    ),
    λ h.
        (err_if_iff s.required (missing_required_attribute k)).1
          (false_of s.required (λ r. true-false (sym (h.0 r)))),
  )
]

-- Every way that the look-up of a parameter may end.
found_iff :
    (c : MessageClass) (k : String) (s : Spec) (o : Option Value)
    → ((elim o [ none ↦ check_required k s | some v ↦ check_found c k s v ]) ≡ ok tt) ↔ (
        (s.required ≡ true → (v : Value) × (o ≡ some v) × Counts s v)
        × ((v : Value) (allowed : List String)
            → o ≡ some v
            → Counts s v
            → Dict.get c.c_allowed_values k ≡ some allowed
            → IsAllowed s.vtype allowed v s.null_allowed))
found_iff c k s none = (
  λ e. (
    λ r. absurd (true-false (sym r ∙ (err_if_iff s.required (missing_required_attribute k)).0 e)),
    λ v a q. cc,
  ),
  λ h.
      (err_if_iff s.required (missing_required_attribute k)).1
        (false_of s.required (λ r. none-some (h.0 r).1)),
)
found_iff c k s (some w) = (
  λ e.
      let (r, a) = (check_found_iff c k s w).0 e in
      (
        λ q. (w, refl, r q),
        λ v allowed q.
            subst
              (λ u.
                Counts s u
                → Dict.get c.c_allowed_values k ≡ some allowed
                → IsAllowed s.vtype allowed u s.null_allowed)
              (some_inj q) (a allowed),
      ),
  λ h.
      (check_found_iff c k s w).1
        (λ r. let (v, e, n) = h.0 r in subst (Counts s) (sym (some_inj e)) n, λ a. h.1 w a refl),
)

check_one_iff :
    (c : MessageClass) (d : Dict Value) (k : String) (s : Spec)
    → k ≢ "*"
    → (check_one c d k s ≡ ok tt) ↔ IsRight c d k s
unfolding check_one
check_one_iff c d k s ne = rw (not-==_of_ne ne) (found_iff c k s (Dict.get d k))

check_star :
    (c : MessageClass) (d : Dict Value) (k : String) (s : Spec)
    → (k == "*") ≡ true
    → check_one c d k s ≡ ok tt
unfolding check_one
check_star c d k s e = rw e refl

check_specs_iff :
    (c : MessageClass) (d : Dict Value) (r : Dict Spec)
    → (check_specs c d r ≡ ok tt)
      ↔ ((k : String) (s : Spec) → In (k, s) r → check_one c d k s ≡ ok tt)
unfolding check_specs
check_specs_iff c d [] = (λ e k s m. absurd m, λ h. refl)
check_specs_iff c d ((j, t) ∷ r) = (
  λ e k s m.
      let (u, p, q) = >>=-eq_ok (check_one c d j t) (λ _. check_specs c d r) e in
      elim m [
        | inl i ↦ subst (λ x. check_one c d x.0 x.1 ≡ ok tt) (sym i) p
        | inr i ↦ (check_specs_iff c d r).0 q k s i
      ],
  λ h. rw (h j t (inl refl)) ((check_specs_iff c d r).1 (λ k s m. h k s (inr m))),
)

-- `verify` passes exactly when each parameter of the class but `*` is right.
pub verify_iff :
    (c : MessageClass) (d : Dict Value)
    → (verify c d ≡ ok tt)
      ↔ ((k : String) (s : Spec) → In (k, s) c.c_param → k ≢ "*" → IsRight c d k s)
unfolding verify
verify_iff c d = (
  λ e k s m ne. (check_one_iff c d k s ne).0 ((check_specs_iff c d c.c_param).0 e k s m),
  λ h. (check_specs_iff c d c.c_param).1 (λ k s m. elim (Bool-cases (k == "*")) [
    | inl e ↦ check_star c d k s e
    | inr e ↦
        (check_one_iff c d k s (λ q. true-false (sym (==_of_eq q) ∙ e))).1
          (h k s m (λ q. true-false (sym (==_of_eq q) ∙ e)))
  ]),
)
