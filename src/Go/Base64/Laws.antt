-- ===== src/Go/Base64/Laws.antt =====
-- The decoder reads back every text of the standard encoding, and hexadecimal text keeps its bytes.
use scramjet_app.Base.{
  All, Bool, Bytes, Option, [], all, ap, arith, false, if◌then◌else◌, leb, length, ltb, lt→ltb,
  none, refl, some, true, ℕ, ◌%◌, ◌&&◌, ◌*◌, ◌+◌, ◌-◌, ◌/◌, ◌<◌, ◌==◌, ◌||◌, ◌∙◌, ◌∷◌, ◌≡◌,
}
use scramjet_app.Go.Base64.{
  pad, sextet, drop_line_ends, is_sextet, is_line_end, decode_quads, first_byte, third_byte,
  second_byte, onto, decode_base64, encode_hex, hex_digit, last_quad,
}

-- The character for a value below 64.
unfoldable pub alphabet : ℕ → ℕ
alphabet n =
    if ltb n 26
    then n + 65
    else if ltb n 52
    then n + 71
    else if ltb n 62
    then n - 4
    else if n == 62
    then b'+'
    else b'/'

-- The standard encoding with padding, by the table of RFC 4648.
unfoldable pub encode_base64 : Bytes → Bytes
encode_base64 [] = []
encode_base64 (x ∷ []) = alphabet (x / 4) ∷ alphabet (x % 4 * 16) ∷ pad ∷ pad ∷ []
encode_base64 (x ∷ y ∷ []) =
    alphabet (x / 4) ∷ alphabet (x % 4 * 16 + y / 16) ∷ alphabet (y % 16 * 4) ∷ pad ∷ []
encode_base64 (x ∷ y ∷ z ∷ s) =
    alphabet (x / 4)
    ∷ alphabet (x % 4 * 16 + y / 16)
    ∷ alphabet (y % 16 * 4 + z / 64)
    ∷ alphabet (z % 64)
    ∷ encode_base64 s

abbrev pub IsByte : ℕ → Type 0
IsByte x = x < 256

sextet-alphabet : (n : ℕ) → n < 64 → sextet (alphabet n) ≡ n
unfolding sextet alphabet
sextet-alphabet n h = ground arith

alphabet-ne-line_end : (n : ℕ) → n < 64 → is_line_end (alphabet n) ≡ false
unfolding alphabet
alphabet-ne-line_end n h = ground arith

alphabet-ne-pad : (n : ℕ) → n < 64 → (alphabet n == pad) ≡ false
unfolding alphabet
alphabet-ne-pad n h = ground arith

is_sextet-alphabet : (n : ℕ) → n < 64 → is_sextet (alphabet n) ≡ true
is_sextet-alphabet n h = rw (sextet-alphabet n h) (lt→ltb n 64 h)

drop-alphabet :
    (n : ℕ) (s : Bytes) → n < 64 → drop_line_ends (alphabet n ∷ s) ≡ alphabet n ∷ drop_line_ends s
unfolding drop_line_ends
drop-alphabet n s h = rw (alphabet-ne-line_end n h)

drop-pad : (s : Bytes) → drop_line_ends (pad ∷ s) ≡ pad ∷ drop_line_ends s
unfolding drop_line_ends
drop-pad s = refl

drop-nil : drop_line_ends [] ≡ []
unfolding drop_line_ends
drop-nil = refl

drop-encode : (s : Bytes) → All IsByte s → drop_line_ends (encode_base64 s) ≡ encode_base64 s
unfolding encode_base64
drop-encode [] h = drop-nil
drop-encode (x ∷ []) h = rw (
  drop-alphabet (x / 4) _ (omega arith),
  drop-alphabet (x % 4 * 16) _ (omega arith),
  drop-pad,
  drop-pad,
  drop-nil,
)
drop-encode (x ∷ y ∷ []) h = rw (
  drop-alphabet (x / 4) _ (omega arith),
  drop-alphabet (x % 4 * 16 + y / 16) _ (omega arith),
  drop-alphabet (y % 16 * 4) _ (omega arith),
  drop-pad,
  drop-nil,
)
drop-encode (x ∷ y ∷ z ∷ s) h = rw (
  drop-alphabet (x / 4) _ (omega arith),
  drop-alphabet (x % 4 * 16 + y / 16) _ (omega arith),
  drop-alphabet (y % 16 * 4 + z / 64) _ (omega arith),
  drop-alphabet (z % 64) _ (omega arith),
  drop-encode s h.1.1.1,
)

module _ (a b : ℕ) (ha : a < 64) (hb : b < 64) where
  first_byte_lem : first_byte (alphabet a) (alphabet b) ≡ a * 4 + b / 16
  first_byte_lem = rw (sextet-alphabet a ha, sextet-alphabet b hb)

  second_byte_lem : second_byte (alphabet a) (alphabet b) ≡ a % 16 * 16 + b / 4
  second_byte_lem = rw (sextet-alphabet a ha, sextet-alphabet b hb)

  third_byte_lem : third_byte (alphabet a) (alphabet b) ≡ a % 4 * 64 + b
  third_byte_lem = rw (sextet-alphabet a ha, sextet-alphabet b hb)

module _ (a b : ℕ) (ha : a < 64) (hb : b < 64) where
  decode_one :
      decode_quads (alphabet a ∷ alphabet b ∷ pad ∷ pad ∷ []) ≡ some ((a * 4 + b / 16) ∷ [])
  unfolding decode_quads
  decode_one = rw (is_sextet-alphabet a ha, is_sextet-alphabet b hb, first_byte_lem a b ha hb)

  decode_two :
      (c : ℕ)
      → c < 64
      → decode_quads (alphabet a ∷ alphabet b ∷ alphabet c ∷ pad ∷ [])
        ≡ some ((a * 4 + b / 16) ∷ (b % 16 * 16 + c / 4) ∷ [])
  unfolding decode_quads
  decode_two c hc = rw (
    is_sextet-alphabet a ha,
    is_sextet-alphabet b hb,
    alphabet-ne-pad c hc,
    is_sextet-alphabet c hc,
    first_byte_lem a b ha hb,
    second_byte_lem b c hb hc,
  )

  decode_three :
      (c d : ℕ) (s : Bytes)
      → c < 64
      → d < 64
      → decode_quads (alphabet a ∷ alphabet b ∷ alphabet c ∷ alphabet d ∷ s)
        ≡ onto ((a * 4 + b / 16) ∷ (b % 16 * 16 + c / 4) ∷ (c % 4 * 64 + d) ∷ []) (decode_quads s)
  unfolding decode_quads
  decode_three c d [] hc hd = rw (
    is_sextet-alphabet a ha,
    is_sextet-alphabet b hb,
    alphabet-ne-pad c hc,
    is_sextet-alphabet c hc,
    alphabet-ne-pad d hd,
    is_sextet-alphabet d hd,
    first_byte_lem a b ha hb,
    second_byte_lem b c hb hc,
    third_byte_lem c d hc hd,
  )
  decode_three c d (x ∷ s) hc hd = rw (
    is_sextet-alphabet a ha,
    is_sextet-alphabet b hb,
    is_sextet-alphabet c hc,
    is_sextet-alphabet d hd,
    first_byte_lem a b ha hb,
    second_byte_lem b c hb hc,
    third_byte_lem c d hc hd,
  )

decode_nil : decode_quads [] ≡ some []
unfolding decode_quads
decode_nil = refl

onto_two :
    {x y x' y' : ℕ}
    → x' ≡ x
    → y' ≡ y
    → ◌≡◌ {A = Option Bytes} (some (x' ∷ y' ∷ [])) (some (x ∷ y ∷ []))
onto_two p q = rw (p, q)

onto_cong :
    {x y z x' y' z' : ℕ} {s : Bytes} {r : Option Bytes}
    → x' ≡ x
    → y' ≡ y
    → z' ≡ z
    → r ≡ some s
    → onto (x' ∷ y' ∷ z' ∷ []) r ≡ some (x ∷ y ∷ z ∷ s)
onto_cong p q r e = rw (p, q, r, e)

decode-encode : (s : Bytes) → All IsByte s → decode_quads (encode_base64 s) ≡ some s
unfolding encode_base64
decode-encode [] h = decode_nil
decode-encode (x ∷ []) h =
    decode_one (x / 4) (x % 4 * 16) (omega arith) (omega arith)
    ∙ ap (λ (k : ℕ). some (k ∷ [])) (omega arith)
decode-encode (x ∷ y ∷ []) h =
    decode_two (x / 4) (x % 4 * 16 + y / 16) (omega arith) (omega arith) (y % 16 * 4) (omega arith)
    ∙ onto_two (omega arith) (omega arith)
decode-encode (x ∷ y ∷ z ∷ s) h =
    decode_three (x / 4) (x % 4 * 16 + y / 16) (omega arith) (omega arith) (y % 16 * 4 + z / 64)
      (z % 64) (encode_base64 s) (omega arith) (omega arith)
    ∙ onto_cong (omega arith) (omega arith) (omega arith) (decode-encode s h.1.1.1)

-- Every byte string is read back from its encoding.
pub decode_base64-encode_base64 :
    (s : Bytes) → All IsByte s → decode_base64 (encode_base64 s) ≡ some s
unfolding decode_base64
decode_base64-encode_base64 s h = rw (drop-encode s h) (decode-encode s h)

pub length-encode_hex : (s : Bytes) → length (encode_hex s) ≡ 2 * length s
unfolding encode_hex
length-encode_hex [] = refl
length-encode_hex (b ∷ s) = omega (arith, length-encode_hex s)

-- The characters of hexadecimal text.
abbrev pub is_hex : ℕ → Bool
is_hex c = (leb b'0' c && leb c b'9') || (leb b'a' c && leb c b'f')

hex_digit-is_hex : (n : ℕ) → n < 16 → is_hex (hex_digit n) ≡ true
hex_digit-is_hex n h = ground arith

pub encode_hex-is_hex : (s : Bytes) → All IsByte s → all is_hex (encode_hex s) ≡ true
unfolding encode_hex
encode_hex-is_hex [] h = refl
encode_hex-is_hex (b ∷ s) h =
    rw (hex_digit-is_hex (b / 16) (omega arith), hex_digit-is_hex (b % 16) (omega arith))
      (encode_hex-is_hex s h.1)

-- What is decoded is a byte string.
abbrev Bytewise : Option Bytes → Type 0
Bytewise none = Unit
Bytewise (some s) = All IsByte s

last_quad-Bytewise : (a b c d : ℕ) → Bytewise (last_quad a b c d)
last_quad-Bytewise a b c d = ground arith

sextets_bytes :
    (a b c d : ℕ)
    → (is_sextet a && is_sextet b && is_sextet c && is_sextet d) ≡ true
    → (first_byte a b < 256) × (second_byte b c < 256) × (third_byte c d < 256)
sextets_bytes a b c d h = ground arith

onto-Bytewise :
    {f g h : ℕ} (t : Bool) (r : Option Bytes)
    → (t ≡ true → (f < 256) × (g < 256) × (h < 256))
    → Bytewise r
    → Bytewise (if t then onto (f ∷ g ∷ h ∷ []) r else none)
onto-Bytewise true none k w = tt
onto-Bytewise true (some s) k w = let (p, q, r) = k refl in (p, (q, (r, w)))
onto-Bytewise false r k w = tt

decode_quads-Bytewise : (s : Bytes) → Bytewise (decode_quads s)
unfolding decode_quads
decode_quads-Bytewise [] = tt
decode_quads-Bytewise (a ∷ []) = tt
decode_quads-Bytewise (a ∷ b ∷ []) = tt
decode_quads-Bytewise (a ∷ b ∷ c ∷ []) = tt
decode_quads-Bytewise (a ∷ b ∷ c ∷ d ∷ []) = last_quad-Bytewise a b c d
decode_quads-Bytewise (a ∷ b ∷ c ∷ d ∷ e ∷ s) =
    onto-Bytewise _ (decode_quads (e ∷ s)) (sextets_bytes a b c d) (decode_quads-Bytewise (e ∷ s))

pub decode_base64-IsByte : (s : Bytes) {d : Bytes} → decode_base64 s ≡ some d → All IsByte d
unfolding decode_base64
decode_base64-IsByte s h = rw h at (decode_quads-Bytewise (drop_line_ends s))
