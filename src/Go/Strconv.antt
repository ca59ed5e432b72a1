-- ===== src/Go/Strconv.antt =====
-- Package strconv: decimal integers.
pub mod Laws
use scramjet_app.Base.{
  Bool, Bytes, Option, [], false, if◌then◌else◌, leb, ltb, none, some, suc, true, zero, ℕ, ◌%◌,
  ◌&&◌, ◌*◌, ◌+◌, ◌-◌, ◌/◌, ◌==◌, ◌^◌, ◌∷◌,
}
use scramjet_app.Base.Int.{ℤ, pos, negsuc}

abbrev pub is_digit : ℕ → Bool
is_digit c = leb b'0' c && leb c b'9'

-- The digits of `n` in front of `rest`, with fuel for the number of digits.
digits_onto : ℕ → ℕ → Bytes → Bytes
digits_onto zero n rest = rest
digits_onto (suc fuel) n rest =
    let more = digits_onto fuel (n / 10) ((48 + n % 10) ∷ rest) in
    if ltb n 10 then (48 + n) ∷ rest else more

-- `strconv.Itoa` of a number that is not negative. A number has fewer digits than `n + 1`.
unfoldable pub itoa_ℕ : ℕ → Bytes
unfolding digits_onto
itoa_ℕ n = digits_onto (suc n) n []

-- `strconv.Itoa`, and what `%d` prints.
unfoldable pub itoa : ℤ → Bytes
unfolding itoa_ℕ
itoa (pos n) = itoa_ℕ n
itoa (negsuc n) = b'-' ∷ itoa_ℕ (suc n)

-- The value of a text of digits alone, after the value `acc` of what stands before it.
unfoldable pub digits_value : ℕ → Bytes → Option ℕ
digits_value acc [] = some acc
digits_value acc (c ∷ s) =
    let rest = digits_value (acc * 10 + (c - 48)) s in if is_digit c then rest else none

-- A magnitude with its sign, in the range of int64.
abbrev pub signed : Bool → ℕ → Option ℤ
signed true zero = some (pos 0)
signed true (suc n) = if ltb n (2 ^ 63) then some (negsuc n) else none
signed false n = if ltb n (2 ^ 63) then some (pos n) else none

abbrev pub magnitude : Bool → Bytes → Option ℤ
magnitude negative [] = none
magnitude negative (c ∷ s) = elim (digits_value 0 (c ∷ s)) [
  | none ↦ none
  | some n ↦ signed negative n
]

-- `strconv.Atoi` on a 64-bit platform: an optional sign and decimal digits, `none` on an error.
unfoldable pub atoi : Bytes → Option ℤ
unfolding digits_value
atoi [] = none
atoi (c ∷ s) =
    if c == b'-'
    then magnitude true s
    else if c == b'+'
    then magnitude false s
    else magnitude false (c ∷ s)
