-- ===== src/Go/Base64.antt =====
-- Packages encoding/base64 (the decoder of `StdEncoding`) and encoding/hex.
pub mod Laws
use scramjet_app.Base.{
  Bool, Bytes, Option, [], if◌then◌else◌, leb, ltb, none, not, some, ℕ, ◌%◌, ◌&&◌, ◌*◌, ◌++◌, ◌+◌,
  ◌-◌, ◌/◌, ◌==◌, ◌||◌, ◌∷◌,
}

abbrev pub pad : ℕ
pad = b'='

-- The value of a character of the standard alphabet, 64 if it is none.
unfoldable pub sextet : ℕ → ℕ
sextet c =
    if leb b'A' c && leb c b'Z'
    then c - 65
    else if leb b'a' c && leb c b'z'
    then c - 71
    else if leb b'0' c && leb c b'9'
    then c + 4
    else if c == b'+'
    then 62
    else if c == b'/'
    then 63
    else 64

-- The decoder skips line ends wherever they stand.
abbrev pub is_line_end : ℕ → Bool
is_line_end c = c == 10 || c == 13

unfoldable pub drop_line_ends : Bytes → Bytes
drop_line_ends [] = []
drop_line_ends (c ∷ s) = let rest = drop_line_ends s in if is_line_end c then rest else c ∷ rest

abbrev pub is_sextet : ℕ → Bool
is_sextet c = ltb (sextet c) 64

abbrev pub onto : Bytes → Option Bytes → Option Bytes
onto front none = none
onto front (some s) = some (front ++ s)

-- The three bytes of four characters.
abbrev pub first_byte : ℕ → ℕ → ℕ
first_byte a b = sextet a * 4 + sextet b / 16

abbrev pub second_byte : ℕ → ℕ → ℕ
second_byte b c = sextet b % 16 * 16 + sextet c / 4

abbrev pub third_byte : ℕ → ℕ → ℕ
third_byte c d = sextet c % 4 * 64 + sextet d

-- The last group of four, where one or two characters may be padding.
abbrev pub last_quad : ℕ → ℕ → ℕ → ℕ → Option Bytes
last_quad a b c d =
    if not (is_sextet a && is_sextet b)
    then none
    else if c == pad
    then if d == pad then some (first_byte a b ∷ []) else none
    else if not (is_sextet c)
    then none
    else if d == pad
    then some (first_byte a b ∷ second_byte b c ∷ [])
    else if is_sextet d
    then some (first_byte a b ∷ second_byte b c ∷ third_byte c d ∷ [])
    else none

-- Groups of four characters. Bits left over in a padded group are dropped (the encoding is not
-- strict).
unfoldable pub decode_quads : Bytes → Option Bytes
decode_quads [] = some []
decode_quads (a ∷ b ∷ c ∷ d ∷ []) = last_quad a b c d
decode_quads (a ∷ b ∷ c ∷ d ∷ e ∷ s) =
    let rest = decode_quads (e ∷ s) in
    if is_sextet a && is_sextet b && is_sextet c && is_sextet d
    then onto (first_byte a b ∷ second_byte b c ∷ third_byte c d ∷ []) rest
    else none
decode_quads _ = none

-- `base64.StdEncoding.DecodeString`; `none` is a `CorruptInputError`.
unfoldable pub decode_base64 : Bytes → Option Bytes
unfolding drop_line_ends decode_quads sextet
decode_base64 s = decode_quads (drop_line_ends s)

abbrev pub hex_digit : ℕ → ℕ
hex_digit n = if ltb n 10 then 48 + n else 87 + n

-- `hex.EncodeToString`
unfoldable pub encode_hex : Bytes → Bytes
encode_hex [] = []
encode_hex (b ∷ s) = hex_digit (b / 16) ∷ hex_digit (b % 16) ∷ encode_hex s
