-- ===== src/Config/Values.antt =====
-- wireproxy/config.go: the parsers of single values.
use scramjet_app.Base.{
  Bytes, List, Result, [], bytes, err, if◌then◌else◌, length, none, not, ok, some, ◌++◌, ◌==◌,
  ◌>>=◌, ◌||◌, ◌∷◌,
}
use scramjet_app.Base.Int.{ℤ, pos, ltb_ℤ}
use scramjet_app.Go.Base64.{decode_base64, encode_hex}
use scramjet_app.Go.Net.{split_host_port, join_host_port}
use scramjet_app.Go.Strings.{
  has_prefix, trim_prefix, replace_once, contains, split, trim_space, to_lower,
}
use scramjet_app.Platform.{Platform, TcpAddr}

-- `encodeBase64ToHex`
unfoldable pub encode_base64_to_hex : Bytes → Result Bytes
encode_base64_to_hex key = elim (decode_base64 key) [
  | none ↦ err (bytes "invalid base64 string: " ++ key)
  | some decoded ↦
      if length decoded == 32
      then ok (encode_hex decoded)
      else err (bytes "key should be 32 bytes: " ++ key)
]

abbrev pub not_empty : Bytes
not_empty = bytes "should not be empty"

abbrev pub missing {ℓ} : {A : Type ℓ} → Bytes → Result A
missing key_name = err (key_name ++ b' ' ∷ not_empty)

-- One round of the loop below: an empty part is skipped.
abbrev pub add_part {ℓ} :
    {A : Type ℓ} → (Bytes → Result A) → Bytes → Result (List A) → Result (List A)
add_part parse [] rest = rest
add_part parse (c ∷ s) rest = do ip ← parse (c ∷ s); ips ← rest; ok (ip ∷ ips)

-- The loop that `parseNetIP`, `parseCIDRNetIP` and `parseAllowedIPs` share: the parts are
-- trimmed, empty parts are skipped, and the first part that `parse` refuses ends it.
unfoldable pub parse_parts {ℓ} : {A : Type ℓ} → (Bytes → Result A) → List Bytes → Result (List A)
parse_parts parse [] = ok []
parse_parts parse (str ∷ keys) = add_part parse (trim_space str) (parse_parts parse keys)

-- A key that the section lacks is an empty list. The error is told by its text.
abbrev pub parse_list {ℓ} : {A : Type ℓ} → (Bytes → Result A) → Result Bytes → Result (List A)
parse_list parse (ok text) = parse_parts parse (split b',' text)
parse_list parse (err e) = if contains e not_empty then ok [] else err e

module _ (w : Platform) where
  open w use {
    Section, Key, key, get_key, key_string, key_int, Addr, Prefix, parse_addr, parse_prefix,
    prefix_addr, lookup_env, resolve_ip_addr, resolve_tcp_addr, lower_runes,
  }

  -- What the text of a key stands for: "$$…" for "$…", "$NAME" for an environment variable.
  unfoldable pub expand : Bytes → Bytes → Result Bytes
  expand key_name value =
      if has_prefix value (bytes "$")
      then if has_prefix value (bytes "$$")
        then ok (replace_once value (bytes "$$") (bytes "$"))
        else elim (lookup_env (trim_prefix value (bytes "$"))) [
          | none ↦ err (key_name ++ (bytes " references unset environment variable " ++ value))
          | some found ↦ ok found
        ]
      else ok value

  -- `parseString`
  unfoldable pub parse_string : Section → Bytes → Result Bytes
  parse_string section key_name = elim (key section (to_lower lower_runes key_name)) [
    | none ↦ missing key_name
    | some k ↦ expand key_name (key_string k)
  ]

  abbrev pub port_error : Bytes
  port_error = bytes "port should be >= 0 and < 65536"

  -- `parsePort`
  unfoldable pub parse_port : Section → Bytes → Result ℤ
  parse_port section key_name = elim (key section key_name) [
    | none ↦ missing key_name
    | some k ↦ do
      port ← key_int k
      if ltb_ℤ port (pos 0) || not (ltb_ℤ port (pos 65536)) then err port_error else ok port
  ]

  -- `parseTCPAddr`
  unfoldable pub parse_tcp_addr : Section → Bytes → Result TcpAddr
  parse_tcp_addr section key_name = do
    addr_str ← parse_string section key_name
    resolve_tcp_addr addr_str

  -- `parseBase64KeyToHex`
  unfoldable pub parse_base64_key_to_hex : Section → Bytes → Result Bytes
  parse_base64_key_to_hex section key_name = do
    text ← parse_string section key_name
    encode_base64_to_hex text

  -- `parseNetIP`
  unfoldable pub parse_net_ip : Section → Bytes → Result (List Addr)
  parse_net_ip section key_name = parse_list parse_addr (parse_string section key_name)

  -- An address, or else the address of a prefix.
  unfoldable pub parse_addr_or_prefix : Bytes → Result Addr
  parse_addr_or_prefix str = elim (parse_addr str) [
    | ok addr ↦ ok addr
    | err _ ↦ do prefix ← parse_prefix str; ok (prefix_addr prefix)
  ]

  -- `parseCIDRNetIP`
  unfoldable pub parse_cidr_net_ip : Section → Bytes → Result (List Addr)
  parse_cidr_net_ip section key_name =
      parse_list parse_addr_or_prefix (parse_string section key_name)

  -- `parseAllowedIPs`
  unfoldable pub parse_allowed_ips : Section → Result (List Prefix)
  parse_allowed_ips section = parse_list parse_prefix (parse_string section (bytes "AllowedIPs"))

  -- `resolveIP`
  unfoldable pub resolve_ip : Bytes → Result Bytes
  resolve_ip ip = resolve_ip_addr ip

  -- `resolveIPPAndPort`
  unfoldable pub resolve_ip_and_port : Bytes → Result Bytes
  unfolding resolve_ip
  resolve_ip_and_port addr = do
    (host, port) ← split_host_port addr
    ip ← resolve_ip host
    ok (join_host_port ip port)
