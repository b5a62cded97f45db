-- ===== src/Base/Tests.antt =====
-- Boolean tests on native numbers, texts and options.
use Prim.Native.Nat.{ℕ, compare, Ordering}
use Prim.Native.String.{String}
use mathlib.Core.Path.{◌≡◌, refl}
use mathlib.Core.Logic.{◌≢◌, ◌⊎◌, inl, inr}
use mathlib.Core.Bool.{Bool, true, false, not}
use mathlib.Core.Option.{Option, none, some}
use native.Mathlib.Omega.{arith}
use text.Mathlib.Text.{◌==◌}
use text.Mathlib.TextEquality.{eq_iff}

pub true-false : ◌≡◌ {A = Bool} true false → ⊥
true-false e = cc

pub some_inj : {A : Type 0} {a b : A} → ◌≡◌ {A = Option A} (some a) (some b) → a ≡ b
some_inj e = cc

pub none-some : {A : Type 0} {a : A} → ¬ (◌≡◌ {A = Option A} none (some a))
none-some e = cc

abbrev pub ltb : ℕ → ℕ → Bool
ltb a b = elim (compare a b) [ Ordering.lt ↦ true | _ ↦ false ]

abbrev pub leb : ℕ → ℕ → Bool
leb a b = elim (compare a b) [ Ordering.gt ↦ false | _ ↦ true ]

abbrev pub eqb : ℕ → ℕ → Bool
eqb a b = elim (compare a b) [ Ordering.eq ↦ true | _ ↦ false ]

infix 1 if◌then◌else◌
abbrev pub if◌then◌else◌ {ℓ} : {A : Type ℓ} → Bool → A → A → A
if true then x else y = x
if false then x else y = y

-- Python's truth value of a number and of a text.
abbrev pub is_nonzero : ℕ → Bool
is_nonzero n = ltb 0 n

abbrev pub is_nonempty : String → Bool
is_nonempty s = not (s == "")

-- `o == s`, where `o` may be `None`.
abbrev pub opt_is : Option String → String → Bool
opt_is none s = false
opt_is (some t) s = t == s

-- `o is not None`
abbrev pub is_some {ℓ} : {A : Type ℓ} → Option A → Bool
is_some none = false
is_some (some a) = true

-- To split on a computed value and keep the equation.
pub Bool-cases : (b : Bool) → (b ≡ true) ⊎ (b ≡ false)
Bool-cases true = inl refl
Bool-cases false = inr refl

pub Option-cases {ℓ} : {A : Type ℓ} (o : Option A) → (o ≡ none) ⊎ ((a : A) × (o ≡ some a))
Option-cases none = inl refl
Option-cases (some a) = inr (a, refl)

pub not-==_of_ne : {s t : String} → s ≢ t → (s == t) ≡ false
not-==_of_ne {s} {t} h = ground (arith, eq_iff s t)

pub ==_of_eq : {s t : String} → s ≡ t → (s == t) ≡ true
==_of_eq {s} {t} h = ground (arith, eq_iff s t)

pub opt_is_lem : (o : Option String) (s : String) → opt_is o s ≡ true → o ≡ some s
opt_is_lem none s h = ground arith
opt_is_lem (some t) s h = ground (arith, eq_iff t s)

pub opt_is_of_eq : (o : Option String) (s : String) → o ≡ some s → opt_is o s ≡ true
opt_is_of_eq none s h = ground arith
opt_is_of_eq (some t) s h = ground (arith, eq_iff t s)
