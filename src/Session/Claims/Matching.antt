-- ===== src/Session/Claims/Matching.antt =====
-- What `claims_match` accepts.
use idpy_oidc.Base.{
  ◌≡◌, ◌↔◌, ◌||◌, ◌⊎◌, inl, inr, true, Bool, some, List, [], ◌∷◌, In, arith, Bool-cases, refl,
  String, eq_iff,
}
use idpy_oidc.Session.Claims.{
  Value, text, number, texts, flag, jkt, bit, same_texts, Entry, value_is, values_are, essential,
  other, same_value, member, entry_matches, some_match, only_essential, claims_match,
}

same_texts_iff : (s t : List String) → (same_texts s t ≡ true) ↔ (s ≡ t)
same_texts_iff [] [] = (λ _. refl, λ _. refl)
same_texts_iff [] (y ∷ ys) = (λ h. ground arith, λ h. ground arith)
same_texts_iff (x ∷ xs) [] = (λ h. ground arith, λ h. ground arith)
same_texts_iff (x ∷ xs) (y ∷ ys) = (
  λ h. ground (arith, eq_iff x y, (same_texts_iff xs ys).0),
  λ h. ground (arith, eq_iff x y, (same_texts_iff xs ys).1),
)

-- A Boolean is the number that Python has for it.
abbrev pub as_number : Value → Value
as_number (flag b) = number (bit b)
as_number v = v

-- Python's equality: of the values themselves, but that a Boolean equals its number.
abbrev pub Equals : Value → Value → Type 0
Equals v w = as_number v ≡ as_number w

-- The test on values decides their equality.
pub same_value_iff : (v w : Value) → (same_value v w ≡ true) ↔ Equals v w
unfolding same_value
same_value_iff (text s) (text t) =
    (λ h. ground (arith, eq_iff s t), λ h. ground (arith, eq_iff s t))
same_value_iff (texts s) (texts t) =
    (λ h. ground (arith, (same_texts_iff s t).0), λ h. ground (arith, (same_texts_iff s t).1))
same_value_iff (jkt s) (jkt t) = (λ h. ground (arith, eq_iff s t), λ h. ground (arith, eq_iff s t))
same_value_iff _ _ = (λ h. ground arith, λ h. ground arith)

-- What one entry of a specification accepts; `essential` and unknown keys accept nothing.
abbrev pub Accepts : Value → Entry → Type 0
Accepts v (value_is w) = Equals v w
Accepts v (values_are ws) = (w : Value) × In w ws × Equals v w
Accepts v (essential b) = ⊥
Accepts v (other k) = ⊥

member_cons :
    (v w : Value) (ws : List Value) {x : Value}
    → In x (w ∷ ws)
    → Equals v x
    → (In x ws → member v ws ≡ true)
    → (same_value v w || member v ws) ≡ true
member_cons v w ws (inl e) q later = rw ((same_value_iff v w).1 (rw (← e) q)) refl
member_cons v w ws (inr m) q later = ground (arith, later m)

member_iff :
    (v : Value) (ws : List Value) → (member v ws ≡ true) ↔ ((w : Value) × In w ws × Equals v w)
unfolding member
member_iff v [] = (λ h. ground arith, λ (x, m, q). absurd m)
member_iff v (w ∷ ws) = (
  λ h. elim (Bool-cases (same_value v w)) [
    | inl e ↦ (w, inl refl, (same_value_iff v w).0 e)
    | inr e ↦ let (x, m, q) = (member_iff v ws).0 (rw e at h) in (x, inr m, q)
  ],
  λ (x, m, q). member_cons v w ws m q (λ i. (member_iff v ws).1 (x, i, q)),
)

entry_matches_iff : (v : Value) (e : Entry) → (entry_matches v e ≡ true) ↔ Accepts v e
unfolding entry_matches
entry_matches_iff v (value_is w) = same_value_iff v w
entry_matches_iff v (values_are ws) = member_iff v ws
entry_matches_iff v (essential b) = (λ h. ground arith, λ h. absurd h)
entry_matches_iff v (other k) = (λ h. ground arith, λ h. absurd h)

match_found :
    (v : Value) (es : List Entry) → some_match v es ≡ true → (e : Entry) × In e es × Accepts v e
unfolding some_match
match_found v [] h = ground arith
match_found v (x ∷ xs) h = elim (Bool-cases (entry_matches v x)) [
  | inl t ↦ (x, inl refl, (entry_matches_iff v x).0 t)
  | inr f ↦ let (e, m, a) = match_found v xs (rw (f) at h) in (e, inr m, a)
]

found_match :
    (v : Value) (es : List Entry) (e : Entry) → In e es → Accepts v e → some_match v es ≡ true
unfolding some_match
found_match v [] e m a = absurd m
found_match v (x ∷ xs) e (inl p) a = ground (arith, (entry_matches_iff v e).1 a)
found_match v (x ∷ xs) e (inr m) a = ground (arith, found_match v xs e m a)

only_essential_eq :
    (es : List Entry) → only_essential es ≡ true → (b : Bool) × (es ≡ essential b ∷ [])
unfolding only_essential
only_essential_eq (essential b ∷ []) h = (b, refl)
only_essential_eq (essential b ∷ e ∷ es) h = ground arith
only_essential_eq [] h = ground arith
only_essential_eq (value_is w ∷ es) h = ground arith
only_essential_eq (values_are w ∷ es) h = ground arith
only_essential_eq (other w ∷ es) h = ground arith

-- What satisfies a request for a claim: a value that some entry accepts, or any value where the
-- request says only whether the claim is essential.
abbrev pub Satisfies : Value → List Entry → Type 0
Satisfies v es = ((e : Entry) × In e es × Accepts v e) ⊎ ((b : Bool) × (es ≡ essential b ∷ []))

-- A claim that has a value matches a request exactly when it satisfies it; the order of the
-- entries, and where the loop stops, do not matter.
pub claims_match_iff :
    (v : Value) (es : List Entry) → (claims_match (some v) (some es) ≡ true) ↔ Satisfies v es
claims_match_iff v es = (to, from)
  where
    to : claims_match (some v) (some es) ≡ true → Satisfies v es
    to h = elim (Bool-cases (some_match v es)) [
      | inl t ↦ inl (match_found v es t)
      | inr f ↦ inr (only_essential_eq es (unfold claims_match in rw f at h))
    ]

    from : Satisfies v es → claims_match (some v) (some es) ≡ true
    from (inl (e, m, a)) = unfold claims_match in rw (found_match v es e m a)
    from (inr (b, p)) = unfold claims_match only_essential in ground arith
