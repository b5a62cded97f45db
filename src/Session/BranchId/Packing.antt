-- ===== src/Session/BranchId/Packing.antt =====
-- What `lv_unpack` reads back of what `lv_pack` wrote.
use Prim.Native.Char.{Char, code}
use Prim.Native.String.{◌++◌, count, ◌∷◌ as ◌∷ₛ◌}
use Prim.Native.String.append
use Prim.Native.String.count as Count
use text.Mathlib.TextLemmas.{length-append, append-nil}
use idpy_oidc.Base.{
  ℕ, zero, suc, ◌≤◌, ◌≡◌, refl, ap, ◌∙◌, true, false, some, List, [], ◌∷◌, String, arith, ok,
  length, Outcome, eqb, ◌>>=◌,
}
use idpy_oidc.Base.Decimal.{show, read-show, IsDigits, is_digit, show-IsDigits, show-cons, IsFilled}
use idpy_oidc.Session.BranchId.{
  lv_pack, lv_unpack, take_text, drop_text, split_colon, is_space, strip, drop_spaces,
  drop_last_spaces, fields, field,
}
use idpy_oidc.Session.Database.{Error}

take_text-append : (s t : String) → take_text (count s) (s ++ t) ≡ s
unfolding take_text
take_text-append String.[] t = refl
take_text-append (String.◌∷◌ c s) t =
    rw (append.cons c s t, Count.cons c s) (ap (◌∷ₛ◌ c) (take_text-append s t))

drop_text-append : (s t : String) → drop_text (count s) (s ++ t) ≡ t
unfolding drop_text
drop_text-append String.[] t = append.nil t
drop_text-append (String.◌∷◌ c s) t = rw (append.cons c s t, Count.cons c s) (drop_text-append s t)

digit_no_colon : (c : Char) → is_digit c ≡ true → eqb (code c) b':' ≡ false
digit_no_colon c h = ground arith

split_colon-append : (s t : String) → IsDigits s → split_colon (s ++ (":" ++ t)) ≡ some (s, t)
unfolding split_colon
split_colon-append String.[] t d =
    rw (append.nil (":" ++ t), append.cons ":" "" t, append.nil t) refl
split_colon-append (String.◌∷◌ c s) t d =
    rw (append.cons c s (":" ++ t), digit_no_colon c d.0, split_colon-append s t d.1) refl

field_pack :
    (next : String → Outcome Error (List String)) (a t : String)
    → field next (split_colon (show (count a) ++ (":" ++ (a ++ t))))
      ≡ (next t >>= λ rest. ok (a ∷ rest))
field_pack next a t =
    rw
      (
        split_colon-append (show (count a)) (a ++ t) (show-IsDigits (count a)),
        read-show (count a),
        take_text-append a t,
        drop_text-append a t,
      )
      refl

step_filled :
    (f : ℕ) (n : ℕ) (t : String)
    → fields (suc f) (show n ++ t) ≡ field (fields f) (split_colon (show n ++ t))
unfolding fields
step_filled f n t = let (c, s, e, _, _) = show-cons n in rw (e, append.cons c s t) refl

-- With as many rounds as there are values, the fields are the values.
fields-lv_pack : (f : ℕ) (xs : List String) → length xs ≤ f → fields f (lv_pack xs) ≡ ok xs
unfolding lv_pack
fields-lv_pack zero [] h = unfold fields in refl
fields-lv_pack (suc f) [] h = unfold fields in refl
fields-lv_pack zero (x ∷ xs) h = absurd (omega (arith, h))
fields-lv_pack (suc f) (x ∷ xs) h =
    step_filled f (count x) (":" ++ (x ++ lv_pack xs))
    ∙ field_pack (fields f) x (lv_pack xs)
    ∙ ap (λ o. o >>= λ rest. ok (x ∷ rest)) (fields-lv_pack f xs (omega (arith, h)))

count-lv_pack : (xs : List String) → length xs ≤ count (lv_pack xs)
unfolding lv_pack
count-lv_pack [] = omega arith
count-lv_pack (x ∷ xs) = omega (
  arith,
  count-lv_pack xs,
  length-append (show (count x)) (":" ++ (x ++ lv_pack xs)),
  length-append ":" (x ++ lv_pack xs),
  length-append x (lv_pack xs),
)

-- No white space at the end.
abbrev pub IsClosed : String → Type 0
IsClosed String.[] = Unit
IsClosed (String.◌∷◌ c String.[]) = is_space c ≡ false
IsClosed (String.◌∷◌ c (String.◌∷◌ d s)) = IsClosed (String.◌∷◌ d s)

drop_last_closed : (s : String) → IsClosed s → drop_last_spaces s ≡ s
drop_last_closed String.[] h = refl
drop_last_closed (String.◌∷◌ c String.[]) h = rw h refl
drop_last_closed (String.◌∷◌ c (String.◌∷◌ d s)) h = rw (drop_last_closed (d ∷ₛ s) h) refl

digit_no_space : (c : Char) → is_digit c ≡ true → is_space c ≡ false
digit_no_space c h = ground arith

IsFilled-of_right : (s t : String) → IsFilled t → IsFilled (s ++ t)
IsFilled-of_right String.[] t f = rw (append.nil t) f
IsFilled-of_right (String.◌∷◌ c s) t f = rw (append.cons c s t) tt

IsClosed-cons : (c : Char) (s : String) → IsFilled s → IsClosed s → IsClosed (c ∷ₛ s)
IsClosed-cons c String.[] f h = absurd f
IsClosed-cons c (String.◌∷◌ d s) f h = h

-- What follows ends a text.
IsClosed-of_right : (s t : String) → IsFilled t → IsClosed t → IsClosed (s ++ t)
IsClosed-of_right String.[] t f h = rw (append.nil t) h
IsClosed-of_right (String.◌∷◌ c s) t f h =
    rw (append.cons c s t)
      (IsClosed-cons c (s ++ t) (IsFilled-of_right s t f) (IsClosed-of_right s t f h))

IsClosed-append : (s t : String) → IsClosed s → IsClosed t → IsClosed (s ++ t)
IsClosed-append s String.[] hs ht = rw (append-nil s) hs
IsClosed-append s (String.◌∷◌ d t) hs ht = IsClosed-of_right s (d ∷ₛ t) tt ht

IsDigits-IsClosed : (s : String) → IsDigits s → IsClosed s
IsDigits-IsClosed String.[] d = tt
IsDigits-IsClosed (String.◌∷◌ c String.[]) d = digit_no_space c d.0
IsDigits-IsClosed (String.◌∷◌ c (String.◌∷◌ e s)) d = IsDigits-IsClosed (e ∷ₛ s) d.1

-- The last of the values has no white space at its end.
abbrev pub LastIsClosed : List String → Type 0
LastIsClosed [] = Unit
LastIsClosed (x ∷ []) = IsClosed x
LastIsClosed (x ∷ y ∷ ys) = LastIsClosed (y ∷ ys)

lv_pack-IsFilled : (x : String) (xs : List String) → IsFilled (lv_pack (x ∷ xs))
unfolding lv_pack
lv_pack-IsFilled x xs =
    IsFilled-of_right (show (count x)) (":" ++ (x ++ lv_pack xs))
      (rw (append.cons ":" "" (x ++ lv_pack xs)) tt)

packed_IsClosed : (x t : String) → IsClosed t → IsClosed (show (count x) ++ (":" ++ t))
packed_IsClosed x t h =
    IsClosed-append (show (count x)) (":" ++ t)
      (IsDigits-IsClosed (show (count x)) (show-IsDigits (count x))) (IsClosed-append ":" t refl h)

lv_pack-IsClosed : (xs : List String) → LastIsClosed xs → IsClosed (lv_pack xs)
unfolding lv_pack
lv_pack-IsClosed [] h = tt
lv_pack-IsClosed (x ∷ []) h = packed_IsClosed x (x ++ "") (rw (append-nil x) h)
lv_pack-IsClosed (x ∷ y ∷ ys) h =
    packed_IsClosed x (x ++ lv_pack (y ∷ ys))
      (IsClosed-of_right x (lv_pack (y ∷ ys)) (lv_pack-IsFilled y ys) (lv_pack-IsClosed (y ∷ ys) h))

strip-lv_pack : (xs : List String) → LastIsClosed xs → strip (lv_pack xs) ≡ lv_pack xs
unfolding strip lv_pack
strip-lv_pack [] h = refl
strip-lv_pack (x ∷ xs) h =
    let (c, s, e, d, _) = show-cons (count x) in
    ap drop_last_spaces (go c s e d)
    ∙ drop_last_closed (lv_pack (x ∷ xs)) (lv_pack-IsClosed (x ∷ xs) h)
  where
    go :
        (c : Char) (s : String)
        → show (count x) ≡ c ∷ₛ s
        → is_digit c ≡ true
        → drop_spaces (show (count x) ++ (":" ++ (x ++ lv_pack xs)))
          ≡ show (count x) ++ (":" ++ (x ++ lv_pack xs))
    go c s e d = rw (e, append.cons c s (":" ++ (x ++ lv_pack xs)), digit_no_space c d) refl

-- `lv_unpack` gives back the values that `lv_pack` packed, where the last has no white space at its
-- end.
pub lv_unpack-lv_pack : (xs : List String) → LastIsClosed xs → lv_unpack (lv_pack xs) ≡ ok xs
unfolding lv_unpack
lv_unpack-lv_pack xs h =
    rw (strip-lv_pack xs h) (fields-lv_pack (count (lv_pack xs)) xs (count-lv_pack xs))
