-- ===== src/Base/Decimal.antt =====
-- Decimal numerals: Python's `str(n)` for a natural number, and `int(s)` for a text of digits alone;
-- the signs, spaces and underscores that `int` also takes are not read.
use Prim.Native.Nat.{ℕ, zero, suc, ◌+◌, ◌-◌, ◌*◌, ◌/◌, ◌%◌, ◌<◌}
use Prim.Native.Char.{Char, code}
use Prim.Native.String.{String, ◌∷◌, []}
use mathlib.Core.Path.{◌≡◌, refl, ap, ◌∙◌}
use mathlib.Core.Bool.{Bool, true, ◌&&◌}
use mathlib.Core.Logic.{inl, inr}
use mathlib.Core.Option.{Option, none, some}
use native.Mathlib.Omega.{arith}
use idpy_oidc.Base.Tests.{ltb, leb, if◌then◌else◌, Bool-cases}

-- The character of a number below 10.
abbrev pub digit : ℕ → Char
digit zero = "0"
digit (suc zero) = "1"
digit (suc (suc zero)) = "2"
digit (suc (suc (suc zero))) = "3"
digit (suc (suc (suc (suc zero)))) = "4"
digit (suc (suc (suc (suc (suc zero))))) = "5"
digit (suc (suc (suc (suc (suc (suc zero)))))) = "6"
digit (suc (suc (suc (suc (suc (suc (suc zero))))))) = "7"
digit (suc (suc (suc (suc (suc (suc (suc (suc zero)))))))) = "8"
digit (suc (suc (suc (suc (suc (suc (suc (suc (suc d))))))))) = "9"

-- The digits of a number in front of a text; one digit more than the number counts is never needed.
unfoldable pub show_before : ℕ → ℕ → String → String
show_before zero n s = s
show_before (suc fuel) n s =
    let rest = show_before fuel (n / 10) (digit (n % 10) ∷ s) in
    if ltb n 10 then digit n ∷ s else rest

unfoldable pub show : ℕ → String
unfolding show_before
show n = show_before (suc n) n []

abbrev pub is_digit : Char → Bool
is_digit c = leb 48 (code c) && leb (code c) 57

unfoldable pub read_from : ℕ → String → Option ℕ
read_from v [] = some v
read_from v (c ∷ s) =
    let rest = read_from (v * 10 + (code c - 48)) s in if is_digit c then rest else none

-- `int(s)`, which raises where this is `none`.
unfoldable pub read : String → Option ℕ
unfolding read_from
read [] = none
read (c ∷ s) = read_from 0 (c ∷ s)

digit-code : (d : ℕ) → d < 10 → code (digit d) ≡ 48 + d
digit-code zero h = refl
digit-code (suc zero) h = refl
digit-code (suc (suc zero)) h = refl
digit-code (suc (suc (suc zero))) h = refl
digit-code (suc (suc (suc (suc zero)))) h = refl
digit-code (suc (suc (suc (suc (suc zero))))) h = refl
digit-code (suc (suc (suc (suc (suc (suc zero)))))) h = refl
digit-code (suc (suc (suc (suc (suc (suc (suc zero))))))) h = refl
digit-code (suc (suc (suc (suc (suc (suc (suc (suc zero)))))))) h = refl
digit-code (suc (suc (suc (suc (suc (suc (suc (suc (suc zero))))))))) h = refl
digit-code (suc (suc (suc (suc (suc (suc (suc (suc (suc (suc d)))))))))) h =
    absurd (omega (arith, h))

digit-is_digit : (d : ℕ) → d < 10 → is_digit (digit d) ≡ true
digit-is_digit d h = ground (arith, digit-code d h)

read_digit : (v d : ℕ) (s : String) → d < 10 → read_from v (digit d ∷ s) ≡ read_from (v * 10 + d) s
unfolding read_from
read_digit v d s h =
    rw (digit-is_digit d h) (ap (λ w. read_from w s) (omega (arith, digit-code d h)))

read_show : (f n : ℕ) (s : String) → n < f → read_from 0 (show_before f n s) ≡ read_from n s
unfolding show_before
read_show zero n s h = absurd (omega arith)
read_show (suc f) n s h = elim (Bool-cases (ltb n 10)) [
  | inl e ↦ rw e (read_digit 0 n s (ground arith) ∙ ap (λ m. read_from m s) (omega arith))
  | inr e ↦ rw e (
      read_show f (n / 10) (digit (n % 10) ∷ s) (ground arith)
      ∙ read_digit (n / 10) (n % 10) s (omega arith)
      ∙ ap (λ m. read_from m s) (omega arith))
]

-- A text of digits alone.
abbrev pub IsDigits : String → Type 0
IsDigits [] = Unit
IsDigits (c ∷ s) = (is_digit c ≡ true) × IsDigits s

show_before-IsDigits : (f n : ℕ) (s : String) → n < f → IsDigits s → IsDigits (show_before f n s)
unfolding show_before
show_before-IsDigits zero n s h d = absurd (omega (arith, h))
show_before-IsDigits (suc f) n s h d = elim (Bool-cases (ltb n 10)) [
  | inl e ↦ rw e (digit-is_digit n (ground arith), d)
  | inr e ↦ rw e (
      show_before-IsDigits f (n / 10) (digit (n % 10) ∷ s) (ground arith)
        (digit-is_digit (n % 10) (omega arith), d))
]

pub show-IsDigits : (n : ℕ) → IsDigits (show n)
unfolding show
show-IsDigits n = show_before-IsDigits (suc n) n [] (omega arith) tt

-- A text that is not empty.
abbrev pub IsFilled : String → Type 0
IsFilled [] = ⊥
IsFilled (c ∷ s) = Unit

show_before-IsFilled : (f n : ℕ) (s : String) → n < f → IsFilled (show_before f n s)
unfolding show_before
show_before-IsFilled zero n s h = absurd (omega (arith, h))
show_before-IsFilled (suc f) n s h = elim (Bool-cases (ltb n 10)) [
  | inl e ↦ rw e tt
  | inr e ↦ rw e (show_before-IsFilled f (n / 10) (digit (n % 10) ∷ s) (ground arith))
]

read_filled : (s : String) → IsFilled s → read s ≡ read_from 0 s
unfolding read
read_filled [] h = absurd h
read_filled (c ∷ s) h = refl

pub read-show : (n : ℕ) → read (show n) ≡ some n
unfolding show read_from
read-show n =
    read_filled (show_before (suc n) n []) (show_before-IsFilled (suc n) n [] (omega arith))
    ∙ read_show (suc n) n [] (omega arith)

-- A numeral begins with a digit.
pub show-cons :
    (n : ℕ) → (c : Char) × (s : String) × (show n ≡ c ∷ s) × (is_digit c ≡ true) × IsDigits s
unfolding show
show-cons n = go (show n) refl (show-IsDigits n) (show_before-IsFilled (suc n) n [] (omega arith))
  where
    go :
        (t : String)
        → show n ≡ t
        → IsDigits t
        → IsFilled t
        → (c : Char) × (s : String) × (show n ≡ c ∷ s) × (is_digit c ≡ true) × IsDigits s
    go [] e d f = absurd f
    go (c ∷ s) e d f = (c, s, e, d.0, d.1)
