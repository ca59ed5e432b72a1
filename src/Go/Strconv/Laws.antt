-- ===== src/Go/Strconv/Laws.antt =====
-- `atoi` reads back what `itoa` prints.
use scramjet_app.Base.{
  Bool-cases, Bytes, Lacks, [], ap, arith, false, inl, inr, ltb, ltb→lt, lt→ltb, some, suc, true,
  zero, ℕ, ◌%◌, ◌+◌, ◌/◌, ◌<◌, ◌==◌, ◌^◌, ◌∙◌, ◌∷◌, ◌≡◌,
}
use scramjet_app.Go.Strconv.{digits_onto, digits_value, is_digit, atoi, itoa_ℕ, pos, magnitude}

digit_test : (d : ℕ) → d < 10 → is_digit (48 + d) ≡ true
digit_test d h = ground arith

large_test : (n : ℕ) → ltb n 10 ≡ false → n / 10 < n
large_test n h = ground arith

push_digit :
    (n : ℕ) (rest : Bytes) → digits_value (n / 10) ((48 + n % 10) ∷ rest) ≡ digits_value n rest
unfolding digits_value
push_digit n rest =
    rw (digit_test (n % 10) (omega arith)) (ap (λ (k : ℕ). digits_value k rest) (omega arith))

last_digit :
    (n : ℕ) (rest : Bytes) → n < 10 → digits_value 0 ((48 + n) ∷ rest) ≡ digits_value n rest
unfolding digits_value
last_digit n rest h = rw (digit_test n h) (ap (λ (k : ℕ). digits_value k rest) (omega arith))

digits_value-onto :
    (fuel n : ℕ) (rest : Bytes)
    → n < fuel
    → digits_value 0 (digits_onto fuel n rest) ≡ digits_value n rest
unfolding digits_onto
digits_value-onto zero n rest h = elim h [ ]
digits_value-onto (suc fuel) n rest h = elim (Bool-cases (ltb n 10)) [
  | inl small ↦ rw small (last_digit n rest (ltb→lt n 10 small))
  | inr large ↦ rw large (
      digits_value-onto fuel (n / 10) ((48 + n % 10) ∷ rest) (omega (arith, large_test n large))
      ∙ push_digit n rest)
]

pub digits_value-itoa_ℕ : (n : ℕ) → digits_value 0 (itoa_ℕ n) ≡ some n
unfolding itoa_ℕ digits_value
digits_value-itoa_ℕ n = digits_value-onto (suc n) n [] (omega arith)

-- The first character is a digit.
abbrev StartsWithDigit : Bytes → Type 0
StartsWithDigit [] = ⊥
StartsWithDigit (c ∷ s) = is_digit c ≡ true

digits_onto-StartsWithDigit :
    (fuel n : ℕ) (rest : Bytes) → n < fuel → StartsWithDigit (digits_onto fuel n rest)
unfolding digits_onto
digits_onto-StartsWithDigit zero n rest h = elim h [ ]
digits_onto-StartsWithDigit (suc fuel) n rest h = elim (Bool-cases (ltb n 10)) [
  | inl small ↦ rw small (digit_test n (ltb→lt n 10 small))
  | inr large ↦ rw large (
      digits_onto-StartsWithDigit fuel (n / 10) ((48 + n % 10) ∷ rest)
        (omega (arith, large_test n large)))
]

not_digit : (c d : ℕ) → is_digit c ≡ false → d < 10 → ((48 + d) == c) ≡ false
not_digit c d h k = ground arith

digits_onto-Lacks :
    (c fuel n : ℕ) (rest : Bytes)
    → is_digit c ≡ false
    → Lacks c rest
    → Lacks c (digits_onto fuel n rest)
unfolding digits_onto
digits_onto-Lacks c zero n rest h k = k
digits_onto-Lacks c (suc fuel) n rest h k = elim (Bool-cases (ltb n 10)) [
  | inl small ↦ rw small (not_digit c n h (ltb→lt n 10 small), k)
  | inr large ↦ rw large (
      digits_onto-Lacks c fuel (n / 10) ((48 + n % 10) ∷ rest) h
        (not_digit c (n % 10) h (omega arith), k))
]

-- No character of a printed number is `c`, if `c` is no digit.
pub itoa_ℕ-Lacks : (c n : ℕ) → is_digit c ≡ false → Lacks c (itoa_ℕ n)
unfolding itoa_ℕ
itoa_ℕ-Lacks c n h = digits_onto-Lacks c (suc n) n [] h tt

no_sign : (c : ℕ) → is_digit c ≡ true → ((c == b'-') ≡ false) × ((c == b'+') ≡ false)
no_sign c d = ground arith

magnitude_of_digits :
    (c : ℕ) (s : Bytes) (n : ℕ)
    → n < 2 ^ 63
    → digits_value 0 (c ∷ s) ≡ some n
    → magnitude false (c ∷ s) ≡ some (pos n)
magnitude_of_digits c s n h e = rw (e, magnitude) (rw (lt→ltb n (2 ^ 63) h))

from_digits :
    (s : Bytes) (n : ℕ)
    → n < 2 ^ 63
    → digits_value 0 s ≡ some n
    → StartsWithDigit s
    → atoi s ≡ some (pos n)
unfolding atoi
from_digits [] n h e d = absurd d
from_digits (c ∷ s) n h e d = rw ((no_sign c d).0, (no_sign c d).1) (magnitude_of_digits c s n h e)

-- A printed number in the range of int64 is read back.
pub atoi-itoa_ℕ : (n : ℕ) → n < 2 ^ 63 → atoi (itoa_ℕ n) ≡ some (pos n)
unfolding atoi itoa_ℕ
atoi-itoa_ℕ n h =
    from_digits (itoa_ℕ n) n h (digits_value-itoa_ℕ n)
      (digits_onto-StartsWithDigit (suc n) n [] (omega arith))
