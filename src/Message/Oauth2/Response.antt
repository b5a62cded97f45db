-- ===== src/Message/Oauth2/Response.antt =====
-- What `verify` of an authorization response asks.
use Prim.Native.Char.{Char, code}
use mathlib.Core.Path.{subst}
use idpy_oidc.Base.{
  ℕ, ◌≤◌, ◌⊎◌, [], ◌∷◌, arith, none-some, some_inj, ◌≡◌, ◌≢◌, refl, sym, ap, ◌∙◌, ◌↔◌, inl, inr,
  true, Bool-cases, true-false, Option, none, some, List, String, ◌==◌, eq_iff, Outcome, ok, err,
  ◌>>=◌, ==_of_eq, In,
}
use idpy_oidc.Dict
use idpy_oidc.Dict.{Dict}
use idpy_oidc.Message.{
  Atom, str, null, boolean, integer, dict, message, Value, atom, list, Spec, is_true,
}
use idpy_oidc.Message.Parse.{elements}
use idpy_oidc.Message.Verify as Verify
use idpy_oidc.Message.Verify.{Fault}
use idpy_oidc.Message.Verify.Rules.{IsRight, verify_iff}
use idpy_oidc.Message.Oauth2.{
  Error, verification_error, lift, check_description, is_error_char, all_error_chars,
  single_required_string, single_optional_string, check_elements, check_same, verify_response,
  verify_authorization_response, authorization_response,
}

-- A parameter that is there is the value that the caller expects, if there is one.
abbrev pub IsExpected : Option Value → Option String → Type 0
IsExpected v o = (s : String) (w : Value) → o ≡ some s → v ≡ some w → w ≡ atom (str s)

str_inj : {s t : String} → atom (str s) ≡ atom (str t) → s ≡ t
str_inj e = cc

mismatch_iff :
    (what : String) (v : Value) (t : String)
    → v ≢ atom (str t)
    → (◌≡◌ {A = Outcome Error Unit} (err (verification_error what)) (ok tt))
      ↔ IsExpected (some v) (some t)
mismatch_iff what v t ne = (λ e s w p q. cc, λ h. absurd (ne (h t v refl refl)))

check_same_iff :
    (what : String) (v : Option Value) (o : Option String)
    → (check_same what v o ≡ ok tt) ↔ IsExpected v o
check_same_iff what none o = (λ e s w p q. cc, λ h. refl)
check_same_iff what (some v) none = (λ e s w p q. cc, λ h. refl)
check_same_iff what (some (atom (str x))) (some t) = (
  λ e s w p q. elim (Bool-cases (x == t)) [
    | inl y ↦ sym (some_inj q) ∙ ap (λ z. atom (str z)) ((eq_iff x t).0 y ∙ some_inj p)
    | inr n ↦ absurd (no_ok (rw n at e))
  ],
  λ h. rw (==_of_eq (str_inj (h t (atom (str x)) refl refl))) refl,
)
  where
    no_ok : ¬ (◌≡◌ {A = Outcome Error Unit} (err (verification_error what)) (ok tt))
    no_ok e = cc
check_same_iff what (some (atom null)) (some t) = mismatch_iff what (atom null) t (λ e. cc)
check_same_iff what (some (atom (boolean b))) (some t) =
    mismatch_iff what (atom (boolean b)) t (λ e. cc)
check_same_iff what (some (atom (integer b))) (some t) =
    mismatch_iff what (atom (integer b)) t (λ e. cc)
check_same_iff what (some (atom (dict b))) (some t) = mismatch_iff what (atom (dict b)) t (λ e. cc)
check_same_iff what (some (atom (message n b))) (some t) =
    mismatch_iff what (atom (message n b)) t (λ e. cc)
check_same_iff what (some (list xs)) (some t) = mismatch_iff what (list xs) t (λ e. cc)

-- The alphabet of the code: A to Z, a to z, the space and the exclamation mark.
abbrev pub IsErrorChar : ℕ → Type 0
IsErrorChar n = ((65 ≤ n) × (n ≤ 90)) ⊎ ((97 ≤ n) × (n ≤ 122)) ⊎ (n ≡ 32) ⊎ (n ≡ 33)

abbrev pub IsErrorLetter : Atom → Type 0
IsErrorLetter a = (c : Char) × (a ≡ str (String.◌∷◌ c "")) × IsErrorChar (code c)

abbrev pub AllErrorLetters : List Atom → Type 0
AllErrorLetters xs = (a : Atom) → In a xs → IsErrorLetter a

-- A description is something to iterate over, and has only letters of that alphabet.
abbrev pub HasErrorChars : Option Value → Type 0
HasErrorChars o =
    (v : Value) → o ≡ some v → (xs : List Atom) × (elements v ≡ some xs) × AllErrorLetters xs

is_error_char_iff : (c : Char) → (is_error_char c ≡ true) ↔ IsErrorChar (code c)
is_error_char_iff c = (λ e. ground arith, λ h. ground arith)

one_letter : (a : Atom) (xs : List Atom) → all_error_chars (a ∷ xs) ≡ true → IsErrorLetter a
one_letter (str (String.◌∷◌ c String.[])) xs e = (c, refl, (is_error_char_iff c).0 (ground arith))
one_letter (str String.[]) xs e = ground arith
one_letter (str (String.◌∷◌ c (String.◌∷◌ d s))) xs e = ground arith
one_letter null xs e = ground arith
one_letter (boolean b) xs e = ground arith
one_letter (integer z) xs e = ground arith
one_letter (dict j) xs e = ground arith
one_letter (message n j) xs e = ground arith

letters_left :
    (a : Atom) (xs : List Atom) → all_error_chars (a ∷ xs) ≡ true → all_error_chars xs ≡ true
letters_left (str s) xs e = ground arith
letters_left null xs e = ground arith
letters_left (boolean b) xs e = ground arith
letters_left (integer z) xs e = ground arith
letters_left (dict j) xs e = ground arith
letters_left (message n j) xs e = ground arith

all_error_chars_iff : (xs : List Atom) → (all_error_chars xs ≡ true) ↔ AllErrorLetters xs
all_error_chars_iff [] = (λ e a m. absurd m, λ h. refl)
all_error_chars_iff (x ∷ xs) = (
  λ e a m. elim m [
    | inl i ↦ subst IsErrorLetter (sym i) (one_letter x xs e)
    | inr i ↦ (all_error_chars_iff xs).0 (letters_left x xs e) a i
  ],
  λ h.
      let (c, q, n) = h x (inl refl) in
      rw (q, (is_error_char_iff c).1 n) ((all_error_chars_iff xs).1 (λ a i. h a (inr i))),
)

check_elements_iff :
    (o : Option (List Atom))
    → (check_elements o ≡ ok tt) ↔ ((xs : List Atom) × (o ≡ some xs) × AllErrorLetters xs)
check_elements_iff none = (λ e. cc, λ (xs, e, h). cc)
check_elements_iff (some xs) = elim (Bool-cases (all_error_chars xs)) [
  | inl y ↦ rw y (λ e. (xs, refl, (all_error_chars_iff xs).0 y), λ h. refl)
  | inr n ↦ rw n (
    λ e. cc,
    λ (ys, e, h). absurd (
        true-false
          (sym ((all_error_chars_iff ys).1 h) ∙ ap all_error_chars (sym (some_inj e)) ∙ n)),
  )
]

check_description_iff : (o : Option Value) → (check_description o ≡ ok tt) ↔ HasErrorChars o
check_description_iff none = (λ e v q. cc, λ h. refl)
check_description_iff (some v) = (
  λ e w q.
      subst (λ u. (xs : List Atom) × (elements u ≡ some xs) × AllErrorLetters xs) (some_inj q)
        ((check_elements_iff (elements v)).0 e),
  λ h. (check_elements_iff (elements v)).1 (h v refl),
)

-- A response has a code, which is not empty.
abbrev pub HasCode : Dict Value → Type 0
HasCode d = (v : Value) × (Dict.get d "code" ≡ some v) × (is_true v ≡ true)

optional_IsRight :
    (d : Dict Value) (k : String) → IsRight authorization_response d k single_optional_string
unfolding Dict.get
optional_IsRight d k = (λ r. absurd (true-false (sym r)), λ v a q n e. absurd (none-some e))

code_IsRight :
    (d : Dict Value) → HasCode d → IsRight authorization_response d "code" single_required_string
unfolding Dict.get
code_IsRight d h = (λ r. h, λ v a q n e. absurd (none-some e))

-- Of the parameters of the class only the code is required, and none has a list of allowed values.
verify_class_iff : (d : Dict Value) → (Verify.verify authorization_response d ≡ ok tt) ↔ HasCode d
unfolding Dict.update Dict.put
verify_class_iff d = (
  λ e.
      ((verify_iff authorization_response d).0 e "code" single_required_string
          (inr (inr (inr (inl refl)))) (λ q. true-false (sym (==_of_eq q)))).0
        refl,
  λ h. (verify_iff authorization_response d).1 (right h),
)
  where
    right :
        HasCode d
        → (k : String) (s : Spec) → In (k, s) authorization_response.c_param
        → k ≢ "*"
        → IsRight authorization_response d k s
    right h k s (inl e) ne =
        subst (λ x. IsRight authorization_response d x.0 x.1) (sym e) (optional_IsRight d _)
    right h k s (inr (inl e)) ne =
        subst (λ x. IsRight authorization_response d x.0 x.1) (sym e) (optional_IsRight d _)
    right h k s (inr (inr (inl e))) ne =
        subst (λ x. IsRight authorization_response d x.0 x.1) (sym e) (optional_IsRight d _)
    right h k s (inr (inr (inr (inl e)))) ne =
        subst (λ x. IsRight authorization_response d x.0 x.1) (sym e) (code_IsRight d h)
    right h k s (inr (inr (inr (inr (inl e))))) ne =
        subst (λ x. IsRight authorization_response d x.0 x.1) (sym e) (optional_IsRight d _)
    right h k s (inr (inr (inr (inr (inr (inl e)))))) ne =
        subst (λ x. IsRight authorization_response d x.0 x.1) (sym e) (optional_IsRight d _)
    right h k s (inr (inr (inr (inr (inr (inr (inl e))))))) ne =
        subst (λ x. IsRight authorization_response d x.0 x.1) (sym e) (optional_IsRight d _)
    right h k s (inr (inr (inr (inr (inr (inr (inr e))))))) ne = absurd e

lift_iff : (o : Outcome Fault Unit) → (lift o ≡ ok tt) ↔ (o ≡ ok tt)
lift_iff (ok u) = (λ e. refl, λ e. refl)
lift_iff (err f) = (λ e. cc, λ e. cc)

-- Two checks, one after the other.
both_iff : (m n : Outcome Error Unit) → ((m >>= λ _. n) ≡ ok tt) ↔ ((m ≡ ok tt) × (n ≡ ok tt))
both_iff (ok u) n = (λ e. (refl, e), λ (p, q). q)
both_iff (err f) n = (λ e. cc, λ (p, q). cc)

-- `verify` of an authorization response passes exactly when it has a code that is not empty, an error
-- description, if there is one, is made of letters from A to Z and a to z, spaces and exclamation marks (the
-- code's `error_chars`, fewer than the ranges that the comment in `ResponseMessage.verify` gives), and its
-- client identifier and its issuer, where they are there, are those that the caller expects, where it
-- expects some.
pub verify_authorization_response_iff :
    (client_id iss : Option String) (d : Dict Value)
    → (verify_authorization_response client_id iss d ≡ ok tt) ↔ (
        HasCode d
        × HasErrorChars (Dict.get d "error_description")
        × IsExpected (Dict.get d "client_id") client_id
        × IsExpected (Dict.get d "iss") iss)
unfolding verify_authorization_response verify_response
verify_authorization_response_iff client_id iss d = (
  λ e.
      let (r, e') =
        (both_iff
            (lift (Verify.verify authorization_response d) >>= λ _.
              check_description (Dict.get d "error_description"))
            (check_same "client_id mismatch" (Dict.get d "client_id") client_id >>= λ _.
              check_same "Issuer mismatch" (Dict.get d "iss") iss)).0
          e in
      let (b, c) =
        (both_iff (lift (Verify.verify authorization_response d))
            (check_description (Dict.get d "error_description"))).0
          r in
      let (i, j) =
        (both_iff (check_same "client_id mismatch" (Dict.get d "client_id") client_id)
            (check_same "Issuer mismatch" (Dict.get d "iss") iss)).0
          e' in
      (
        (verify_class_iff d).0 ((lift_iff (Verify.verify authorization_response d)).0 b),
        (check_description_iff (Dict.get d "error_description")).0 c,
        (check_same_iff "client_id mismatch" (Dict.get d "client_id") client_id).0 i,
        (check_same_iff "Issuer mismatch" (Dict.get d "iss") iss).0 j,
      ),
  λ (b, c, i, j).
      rw
        (
          (verify_class_iff d).1 b,
          (check_description_iff (Dict.get d "error_description")).1 c,
          (check_same_iff "client_id mismatch" (Dict.get d "client_id") client_id).1 i,
          (check_same_iff "Issuer mismatch" (Dict.get d "iss") iss).1 j,
        )
        refl,
)
