-- ===== src/Tests/Sample.antt =====
-- A platform to run the definitions on: a file of two sections, addresses told by their
-- punctuation, and an environment with one variable.
use scramjet_app.Base.{
  Bytes, List, Option, Result, [], bytes, bytes_eq, err, if◌then◌else◌, leb, map, none, ok, some, ℕ,
  ◌&&◌, ◌++◌, ◌+◌, ◌∷◌,
}
use scramjet_app.Go.Strconv.{atoi, itoa_ℕ, digits_value}
use scramjet_app.Go.Strings.{cut, has_byte}
use scramjet_app.Platform.{Platform}

abbrev pub Pairs : Type 0
Pairs = List (Bytes × Bytes)

unfoldable pub find : Bytes → Pairs → Option Bytes
unfolding bytes_eq
find name [] = none
find name ((key, value) ∷ pairs) = if bytes_eq key name then some value else find name pairs

abbrev lower : Bytes → Bytes
lower = map (λ c. if leb b'A' c && leb c b'Z' then c + 32 else c)

unfoldable pub sections_named : Bytes → List (Bytes × Pairs) → List Pairs
unfolding bytes_eq
sections_named name [] = []
sections_named name ((found, pairs) ∷ file) =
    let rest = sections_named name file in
    if bytes_eq found (lower name) then pairs ∷ rest else rest

abbrev some_if_any {ℓ} : {A : Type ℓ} → List A → Option (List A)
some_if_any [] = none
some_if_any (x ∷ xs) = some (x ∷ xs)

abbrev first_of {ℓ} : {A : Type ℓ} → List A → Option A
first_of [] = none
first_of (x ∷ xs) = some x

abbrev first_or_empty : List Pairs → Pairs
first_or_empty [] = []
first_or_empty (x ∷ xs) = x

abbrev value_or_empty : Option Bytes → Bytes
value_or_empty none = []
value_or_empty (some value) = value

abbrev to_result {ℓ} : {A : Type ℓ} → Option A → Result A
to_result none = err (bytes "no number")
to_result (some a) = ok a

-- A prefix is given by its length.
abbrev prefix_of : Option (Bytes × Bytes) → Result ℕ
prefix_of none = err (bytes "no prefix")
prefix_of (some (ip, bits)) = to_result (digits_value 0 bits)

abbrev pub file : List (Bytes × Pairs)
file =
    (
      bytes "interface",
      (bytes "privatekey", bytes "LAr1aNSNF9d0MjwUgAVC4020T0N/E5NUtqVv5EnsSz0=")
          ∷ (bytes "address", bytes "10.5.0.2, 10.5.0.0/23")
          ∷ (bytes "dns", bytes "1.1.1.1")
          ∷ [],
    )
    ∷ (
      bytes "peer",
      (bytes "publickey", bytes "e8LKAc+f9xEzq9Ar7+MfKRrs+gZ/4yzvpRJLRJ/VJ1w=")
          ∷ (bytes "allowedips", bytes "0.0.0.0/0, ::/8")
          ∷ (bytes "endpoint", bytes "94.140.11.15:51820")
          ∷ (bytes "persistentkeepalive", bytes "25")
          ∷ [],
    )
    ∷ (bytes "socks5", (bytes "bindaddress", bytes "127.0.0.1:25344") ∷ [])
    ∷ (
      bytes "tcpservertunnel",
      (bytes "listenport", bytes "3422") ∷ (bytes "target", bytes "localhost:25545") ∷ [],
    )
    ∷ []

abbrev pub sample : Platform
sample = record {
  File = List (Bytes × Pairs);
  Section = Pairs;
  Key = Bytes;
  load_sources = λ path. ok file;
  section = λ f name. [];
  get_section = λ f name. first_of (sections_named name f);
  sections_by_name = λ f name. some_if_any (sections_named name f);
  key = λ s name. some (value_or_empty (find (lower name) s));
  get_key = λ s name. find (lower name) s;
  key_string = λ k. k;
  key_int = λ k. to_result (atoi k);
  Addr = Bytes;
  Prefix = ℕ;
  parse_addr = λ s. if has_byte b'/' s then err (bytes "no address") else ok s;
  parse_prefix = λ s. prefix_of (cut b'/' s);
  prefix_addr = λ n. bytes "10.5.0.0";
  prefix_string = λ n. bytes "0.0.0.0/" ++ itoa_ℕ n;
  addr_string = λ a. a;
  is4 = λ a. has_byte b'.' a;
  is6 = λ a. has_byte b':' a;
  lookup_env = λ name. if bytes_eq name (bytes "USER") then some (bytes "proxy") else none;
  resolve_ip_addr = λ host. ok host;
  resolve_tcp_addr = λ addr. ok (record { ip = []; port = 1080 });
  lower_runes = λ s. s;
}

abbrev pub private_hex : Bytes
private_hex = bytes "2c0af568d48d17d774323c14800542e34db44f437f139354b6a56fe449ec4b3d"

abbrev pub public_hex : Bytes
public_hex = bytes "7bc2ca01cf9ff71133abd02befe31f291aecfa067fe32cefa5124b449fd5275c"
