-- ===== src/Go/Net.antt =====
-- Package net: `SplitHostPort` and `JoinHostPort`.
pub mod Laws
use scramjet_app.Base.{
  Bytes, Result, [], bytes, err, if◌then◌else◌, none, ok, some, ◌++◌, ◌==◌, ◌∷◌,
}
use scramjet_app.Go.Strings.{cut, cut_last, has_byte}

abbrev pub addr_error {ℓ} : {A : Type ℓ} → Bytes → Bytes → Result A
addr_error hostport why = err (bytes "address " ++ (hostport ++ (bytes ": " ++ why)))

abbrev pub missing_port : Bytes
missing_port = bytes "missing port in address"

abbrev pub too_many_colons : Bytes
too_many_colons = bytes "too many colons in address"

-- The last two tests of the function, on the texts that it searches for brackets.
abbrev pub check_brackets : Bytes → Bytes → Bytes → Bytes × Bytes → Result (Bytes × Bytes)
check_brackets hostport from_j from_k result =
    if has_byte b'[' from_j
    then addr_error hostport (bytes "unexpected '[' in address")
    else if has_byte b']' from_k
    then addr_error hostport (bytes "unexpected ']' in address")
    else ok result

-- The text is "[host]after"; `rest` is what stands behind the first bracket.
abbrev pub split_bracketed : Bytes → Bytes → Bytes → Bytes → Result (Bytes × Bytes)
split_bracketed hostport rest host [] = addr_error hostport missing_port
split_bracketed hostport rest host (c ∷ port) =
    if c == b':'
    then if has_byte b':' port
      then addr_error hostport too_many_colons
      else check_brackets hostport rest (c ∷ port) (host, port)
    else addr_error hostport missing_port

-- The text begins with `c`; the text before and after its last colon are known.
abbrev pub split_at_colon : Bytes → Bytes → Bytes → Result (Bytes × Bytes)
split_at_colon hostport host port =
    if has_byte b':' host
    then addr_error hostport too_many_colons
    else check_brackets hostport hostport hostport (host, port)

abbrev pub split_from : Bytes → Bytes × Bytes → Result (Bytes × Bytes)
split_from [] (host, port) = split_at_colon [] host port
split_from (c ∷ rest) (host, port) =
    if c == b'['
    then elim (cut b']' rest) [
      | none ↦ addr_error (c ∷ rest) (bytes "missing ']' in address")
      | some (inner, after) ↦ split_bracketed (c ∷ rest) rest inner after
    ]
    else split_at_colon (c ∷ rest) host port

unfoldable pub split_host_port : Bytes → Result (Bytes × Bytes)
unfolding cut cut_last has_byte
split_host_port hostport = elim (cut_last b':' hostport) [
  | none ↦ addr_error hostport missing_port
  | some parts ↦ split_from hostport parts
]

unfoldable pub join_host_port : Bytes → Bytes → Bytes
unfolding has_byte
join_host_port host port =
    if has_byte b':' host then b'[' ∷ host ++ (b']' ∷ b':' ∷ port) else host ++ b':' ∷ port
