-- ===== src/Config/Keys.antt =====
-- `encodeBase64ToHex`: which texts are accepted as keys, and what they become.
use mathlib.Core.Path.{subst}
use scramjet_app.Base.{
  ==_iff, All, Bool-cases, Bytes, Option-cases, all, arith, bytes, err, if◌then◌else◌, inl, inr,
  length, ok, ok-ne-err, ok_inj, sym, true, ◌++◌, ◌==◌, ◌≡◌,
}
use scramjet_app.Config.Values.{encode_base64_to_hex}
use scramjet_app.Go.Base64.{decode_base64, encode_hex}
use scramjet_app.Go.Base64.Laws.{
  IsByte, encode_base64, decode_base64-encode_base64, length-encode_hex, is_hex, encode_hex-is_hex,
  decode_base64-IsByte,
}

-- A key in the form that the WireGuard device reads: 64 hexadecimal digits in lower case.
pub record IsHexKey (key : Bytes) : Type 0 where
  pub size : length key ≡ 64
  pub digits : all is_hex key ≡ true

encode_hex-IsHexKey : (d : Bytes) → All IsByte d → length d ≡ 32 → IsHexKey (encode_hex d)
encode_hex-IsHexKey d h e = record {
  size = omega (arith, length-encode_hex d);
  digits = encode_hex-is_hex d h;
}

sized-IsHexKey :
    (d hex m : Bytes)
    → All IsByte d
    → (if length d == 32 then ok (encode_hex d) else err m) ≡ ok hex
    → IsHexKey hex
sized-IsHexKey d hex m h e = elim (Bool-cases (length d == 32)) [
  | inl right ↦
      subst IsHexKey (ok_inj (rw right at e))
        (encode_hex-IsHexKey d h ((==_iff (length d) 32).0 right))
  | inr wrong ↦ absurd (ok-ne-err (sym (rw wrong at e)))
]

-- Whatever text is accepted as a key, the result is a key of 64 lower-case hexadecimal digits.
pub encode_base64_to_hex-IsHexKey :
    (key : Bytes) {hex : Bytes} → encode_base64_to_hex key ≡ ok hex → IsHexKey hex
unfolding encode_base64_to_hex
encode_base64_to_hex-IsHexKey key {hex} h = elim (Option-cases (decode_base64 key)) [
  | inl bad ↦ absurd (ok-ne-err (sym (rw (bad, encode_base64_to_hex) at h)))
  | inr (d, e) ↦
      sized-IsHexKey d hex _ (decode_base64-IsByte key e) (rw (e, encode_base64_to_hex) at h)
]

-- The standard base64 encoding of a byte string is accepted exactly when the string has 32 bytes,
-- and then it becomes the string's hexadecimal text; any other length is refused with the key in
-- the message.
pub encode_base64_to_hex-encode_base64 :
    (s : Bytes)
    → All IsByte s
    → encode_base64_to_hex (encode_base64 s) ≡ (
        if length s == 32
        then ok (encode_hex s)
        else err (bytes "key should be 32 bytes: " ++ encode_base64 s))
unfolding encode_base64_to_hex
encode_base64_to_hex-encode_base64 s h = rw (decode_base64-encode_base64 s h, encode_base64_to_hex)
