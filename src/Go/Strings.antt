-- ===== src/Go/Strings.antt =====
-- Package strings (and the same functions of bytes), on byte strings.
pub mod Laws
use mathlib.Core.List.{reverse}
use scramjet_app.Base.{
  Bool, Bytes, List, Option, [], all, drop, false, if◌then◌else◌, leb, length, ltb, map, none, some,
  suc, true, zero, ℕ, ◌&&◌, ◌++◌, ◌+◌, ◌==◌, ◌||◌, ◌∷◌,
}

unfoldable pub has_prefix : Bytes → Bytes → Bool
has_prefix s [] = true
has_prefix [] (p ∷ ps) = false
has_prefix (c ∷ s) (p ∷ ps) = c == p && has_prefix s ps

unfoldable pub trim_prefix : Bytes → Bytes → Bytes
unfolding has_prefix
trim_prefix s prefix = if has_prefix s prefix then drop (length prefix) s else s

unfoldable pub contains : Bytes → Bytes → Bool
unfolding has_prefix
contains [] sub = has_prefix [] sub
contains (c ∷ s) sub = has_prefix (c ∷ s) sub || contains s sub

-- `strings.Replace(s, old, new, 1)`
unfoldable pub replace_once : Bytes → Bytes → Bytes → Bytes
unfolding has_prefix
replace_once [] old new = if has_prefix [] old then new else []
replace_once (c ∷ s) old new =
    if has_prefix (c ∷ s) old then new ++ drop (length old) (c ∷ s) else c ∷ replace_once s old new

abbrev pub onto_first : ℕ → List Bytes → List Bytes
onto_first c [] = (c ∷ []) ∷ []
onto_first c (part ∷ parts) = (c ∷ part) ∷ parts

-- `strings.Split(s, sep)` for a separator of one byte.
unfoldable pub split : ℕ → Bytes → List Bytes
split sep [] = [] ∷ []
split sep (c ∷ s) = if c == sep then [] ∷ split sep s else onto_first c (split sep s)

abbrev pub push_front : ℕ → Option (Bytes × Bytes) → Option (Bytes × Bytes)
push_front c none = none
push_front c (some (before, after)) = some (c ∷ before, after)

-- The text before and after the first `sep`, if there is one.
unfoldable pub cut : ℕ → Bytes → Option (Bytes × Bytes)
cut sep [] = none
cut sep (c ∷ s) = if c == sep then some ([], s) else push_front c (cut sep s)

-- `strings.SplitN(s, sep, 2)` for a separator of one byte.
unfoldable pub split_n2 : ℕ → Bytes → List Bytes
unfolding cut
split_n2 sep s = elim (cut sep s) [ none ↦ s ∷ [] | some (before, after) ↦ before ∷ after ∷ [] ]

-- The text before and after the last `sep`, if there is one.
unfoldable pub cut_last : ℕ → Bytes → Option (Bytes × Bytes)
cut_last sep [] = none
cut_last sep (c ∷ s) = elim (cut_last sep s) [
  | some (before, after) ↦ some (c ∷ before, after)
  | none ↦ if c == sep then some ([], s) else none
]

unfoldable pub has_byte : ℕ → Bytes → Bool
has_byte b [] = false
has_byte b (c ∷ s) = c == b || has_byte b s

-- The bytes of the white space character (`unicode.IsSpace`, in UTF-8) at the start of the text,
-- 0 if there is none.
unfoldable pub space_width : Bytes → ℕ
space_width [] = 0
space_width (c ∷ s) = if (leb 9 c && leb c 13) || c == 32 then 1 else elim s [
  | [] ↦ 0
  | d ∷ s' ↦ if c == 0xC2 && (d == 0x85 || d == 0xA0) then 2 else elim s' [
    | [] ↦ 0
    | e ∷ _ ↦
        if (c == 0xE1 && d == 0x9A && e == 0x80)
          || (c == 0xE2
              && d == 0x80
              && ((leb 0x80 e && leb e 0x8A) || e == 0xA8 || e == 0xA9 || e == 0xAF))
          || (c == 0xE2 && d == 0x81 && e == 0x9F)
          || (c == 0xE3 && d == 0x80 && e == 0x80)
        then 3
        else 0
  ]
]

-- The same at the end of the text, which is given reversed.
unfoldable pub space_width_back : Bytes → ℕ
unfolding space_width
space_width_back [] = 0
space_width_back (c ∷ []) = space_width (c ∷ [])
space_width_back (d ∷ c ∷ []) =
    if space_width (d ∷ []) == 1 then 1 else if space_width (c ∷ d ∷ []) == 2 then 2 else 0
space_width_back (e ∷ d ∷ c ∷ _) =
    if space_width (e ∷ []) == 1
    then 1
    else if space_width (d ∷ e ∷ []) == 2
    then 2
    else if space_width (c ∷ d ∷ e ∷ []) == 3
    then 3
    else 0

-- Drops `skip` bytes, then every white space character that `width` finds in front.
unfoldable pub trim_by : (Bytes → ℕ) → ℕ → Bytes → Bytes
trim_by width skip [] = []
trim_by width (suc skip) (c ∷ s) = trim_by width skip s
trim_by width zero (c ∷ s) = elim (width (c ∷ s)) [ zero ↦ c ∷ s | suc more ↦ trim_by width more s ]

unfoldable pub trim_space : Bytes → Bytes
unfolding trim_by space_width space_width_back
trim_space s = reverse (trim_by space_width_back 0 (reverse (trim_by space_width 0 s)))

abbrev pub lower_byte : ℕ → ℕ
lower_byte c = if leb b'A' c && leb c b'Z' then c + 32 else c

-- `strings.ToLower`; the Unicode case tables, used on text that is not ASCII, are a parameter.
unfoldable pub to_lower : (Bytes → Bytes) → Bytes → Bytes
to_lower lower_runes s = if all (λ c. ltb c 128) s then map lower_byte s else lower_runes s
