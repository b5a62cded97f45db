-- ===== src/Base/Lists.antt =====
-- Lists: length over the native numbers, membership by recursion, tests on texts.
use Prim.Native.Nat.{ℕ, zero, suc, ◌+◌}
use Prim.Native.String.{String}
use mathlib.Core.Path.{◌≡◌, refl}
use mathlib.Core.Logic.{◌⊎◌, inl, inr}
use mathlib.Core.Bool.{Bool, true, false, ◌||◌}
use mathlib.Core.Option.{Option, none, some}
use mathlib.Core.List.{List, [], ◌∷◌, ◌++◌}
use native.Mathlib.Omega.{arith}
use text.Mathlib.Text.{◌==◌}
use text.Mathlib.TextEquality.{eq_iff}
use idpy_oidc.Base.Tests.{if◌then◌else◌}

module _ {ℓ} {A : Type ℓ} where
  abbrev pub length : List A → ℕ
  length [] = 0
  length (x ∷ xs) = suc (length xs)

  abbrev pub get_elem? : List A → ℕ → Option A
  get_elem? [] i = none
  get_elem? (x ∷ xs) zero = some x
  get_elem? (x ∷ xs) (suc i) = get_elem? xs i

  pub length-append : (xs ys : List A) → length (xs ++ ys) ≡ length xs + length ys
  length-append [] ys = omega arith
  length-append (x ∷ xs) ys = omega (arith, length-append xs ys)

module _ {A : Type 0} where
  -- Membership, as a type that computes.
  abbrev pub In : A → List A → Type 0
  In a [] = ⊥
  In a (x ∷ xs) = (a ≡ x) ⊎ In a xs

  abbrev pub All : (A → Type 0) → List A → Type 0
  All P [] = Unit
  All P (x ∷ xs) = P x × All P xs

  pub In-append_one : (a x : A) (xs : List A) → In a (xs ++ x ∷ []) → In a xs ⊎ (a ≡ x)
  In-append_one a x [] (inl e) = inr e
  In-append_one a x [] (inr m) = absurd m
  In-append_one a x (y ∷ ys) (inl e) = inl (inl e)
  In-append_one a x (y ∷ ys) (inr m) = elim (In-append_one a x ys m) [
    | inl i ↦ inl (inr i)
    | inr e ↦ inr e
  ]

  pub In-append_last : (x : A) (xs : List A) → In x (xs ++ x ∷ [])
  In-append_last x [] = inl refl
  In-append_last x (y ∷ ys) = inr (In-append_last x ys)

  pub In-append_either : (a : A) (xs ys : List A) → In a (xs ++ ys) → In a xs ⊎ In a ys
  In-append_either a [] ys m = inr m
  In-append_either a (x ∷ xs) ys (inl e) = inl (inl e)
  In-append_either a (x ∷ xs) ys (inr m) = elim (In-append_either a xs ys m) [
    | inl i ↦ inl (inr i)
    | inr i ↦ inr i
  ]

  pub In-append_left : (a : A) (xs ys : List A) → In a xs → In a (xs ++ ys)
  In-append_left a [] ys m = absurd m
  In-append_left a (x ∷ xs) ys (inl e) = inl e
  In-append_left a (x ∷ xs) ys (inr m) = inr (In-append_left a xs ys m)

  pub In-append_right : (a : A) (xs ys : List A) → In a ys → In a (xs ++ ys)
  In-append_right a [] ys m = m
  In-append_right a (x ∷ xs) ys m = inr (In-append_right a xs ys m)

-- `s in xs`
abbrev pub contains : String → List String → Bool
contains s [] = false
contains s (x ∷ xs) = s == x || contains s xs

-- `xs.remove(s)`, the first occurrence; Python raises where there is none.
abbrev pub remove : String → List String → List String
remove s [] = []
remove s (x ∷ xs) = if s == x then xs else x ∷ remove s xs

pub contains-In : (s : String) (xs : List String) → contains s xs ≡ true → In s xs
contains-In s [] h = ground arith
contains-In s (x ∷ xs) h = ground (arith, eq_iff s x, contains-In s xs)

pub In-contains : (s : String) (xs : List String) → In s xs → contains s xs ≡ true
In-contains s [] h = absurd h
In-contains s (x ∷ xs) (inl e) = ground (arith, eq_iff s x)
In-contains s (x ∷ xs) (inr m) = ground (arith, In-contains s xs m)

pub contains-append :
    (s : String) (xs ys : List String) → contains s (xs ++ ys) ≡ (contains s xs || contains s ys)
contains-append s [] ys = refl
contains-append s (x ∷ xs) ys = ground (arith, contains-append s xs ys)
