-- ===== src/Wireguard/Reading.antt =====
-- The request of `CreateIPCRequest` is read back as the settings that the configuration asks for.
use mathlib.Core.List.{append_assoc}
use scramjet_app.Base.{
  All, All-append, Bytes, Lacks, Lacks-append, List, Option, [], all, and-eq-true, ap, arith, bytes,
  false, map, none, refl, some, suc, sym, true, ℕ, ◌++◌, ◌==◌, ◌∙◌, ◌∷◌, ◌≡◌,
}
use scramjet_app.Base.Int.{ℤ, pos, negsuc}
use scramjet_app.Config.{DeviceConfig, PeerConfig}
use scramjet_app.Config.Device.{IsDevice, IsPeer}
use scramjet_app.Go.Base64.Laws.{is_hex}
use scramjet_app.Go.Strconv.{itoa}
use scramjet_app.Go.Strconv.Laws.{itoa_ℕ-Lacks}
use scramjet_app.Go.Strings.{split, cut, has_byte}
use scramjet_app.Go.Strings.Laws.{cut-append, split-append, has_byte-Lacks}
use scramjet_app.Platform.{Platform}
use scramjet_app.Wireguard.{line_end, create_ipc_request}
use scramjet_app.Wireguard.Request.{
  Unindents, Pair, print_pairs, listen_port_pairs, endpoint_pairs, ip_pair, allowed_ip_pairs,
  peer_pairs, all_peer_pairs, device_pairs, create_ipc_request-print,
}

-- A device's reading of one line.
abbrev pub read_line : Bytes → List Pair
read_line s = elim (cut b'=' s) [ none ↦ [] | some pair ↦ pair ∷ [] ]

unfoldable pub read_lines : List Bytes → List Pair
read_lines [] = []
read_lines (s ∷ lines) = read_line s ++ read_lines lines

-- The settings of a request: each line is cut at its first "=".
unfoldable pub read_request : Bytes → List Pair
unfolding read_lines
read_request request = read_lines (split line_end request)

-- A setting that a line can hold.
abbrev pub IsLine : Pair → Type 0
IsLine (key, value) = Lacks b'=' key × Lacks line_end key × Lacks line_end value

nil_read : read_request [] ≡ []
unfolding read_request split cut
nil_read = refl

pub split_line :
    (key value rest : Bytes)
    → Lacks line_end key
    → Lacks line_end value
    → split line_end (key ++ (b'=' ∷ value ++ (line_end ∷ rest)))
      ≡ (key ++ b'=' ∷ value) ∷ split line_end rest
split_line key value rest l v =
    ap (split line_end) (sym (append_assoc key (b'=' ∷ value) (line_end ∷ rest)))
    ∙ split-append line_end (key ++ b'=' ∷ value) rest
        (Lacks-append line_end key (b'=' ∷ value) l (refl, v))

read-print : (pairs : List Pair) → All IsLine pairs → read_request (print_pairs pairs) ≡ pairs
unfolding read_request print_pairs
read-print [] h = nil_read
read-print ((key, value) ∷ pairs) ((k, l, v), h) =
    rw
      (
        split_line key value (print_pairs pairs) l v,
        read_lines,
        read_line,
        cut-append b'=' key value k,
      )
      (ap (λ more. (key, value) ∷ more) (read-print pairs h))

pair-IsLine :
    (key value : Bytes)
    → has_byte b'=' key ≡ false
    → has_byte line_end key ≡ false
    → Lacks line_end value
    → IsLine (key, value)
pair-IsLine key value h k v = ((has_byte-Lacks b'=' key).0 h, (has_byte-Lacks line_end key).0 k, v)

hex_ne : (c : ℕ) → is_hex c ≡ true → (c == line_end) ≡ false
hex_ne c h = ground arith

hex-Lacks : (key : Bytes) → all is_hex key ≡ true → Lacks line_end key
hex-Lacks [] h = tt
hex-Lacks (c ∷ key) h = let (p, q) = and-eq-true _ _ h in (hex_ne c p, hex-Lacks key q)

itoa-Lacks : (n : ℤ) → Lacks line_end (itoa n)
unfolding itoa
itoa-Lacks (pos n) = itoa_ℕ-Lacks line_end n refl
itoa-Lacks (negsuc n) = (refl, itoa_ℕ-Lacks line_end (suc n) refl)

-- An endpoint that is one line of text.
abbrev pub OneLine : Option Bytes → Type 0
OneLine none = Unit
OneLine (some endpoint) = Lacks line_end endpoint

module _ (w : Platform) (one_line : (ip : w.Prefix) → Lacks line_end (w.prefix_string ip)) where
  endpoint_pairs-IsLine : (e : Option Bytes) → OneLine e → All IsLine (endpoint_pairs w e)
  unfolding has_byte
  endpoint_pairs-IsLine none h = tt
  endpoint_pairs-IsLine (some e) h = (pair-IsLine (bytes "endpoint") e refl refl h, tt)

  listen_port_pairs-IsLine : (p : Option ℤ) → All IsLine (listen_port_pairs w p)
  unfolding has_byte
  listen_port_pairs-IsLine none = tt
  listen_port_pairs-IsLine (some p) =
      (pair-IsLine (bytes "listen_port") (itoa p) refl refl (itoa-Lacks p), tt)

  ip_pairs-IsLine : (ips : List w.Prefix) → All IsLine (map (ip_pair w) ips)
  unfolding has_byte
  ip_pairs-IsLine [] = tt
  ip_pairs-IsLine (ip ∷ ips) = (
    pair-IsLine (bytes "allowed_ip") (w.prefix_string ip) refl refl (one_line ip),
    ip_pairs-IsLine ips,
  )

  allowed_ip_pairs-IsLine : (ips : List w.Prefix) → All IsLine (allowed_ip_pairs w ips)
  unfolding has_byte
  allowed_ip_pairs-IsLine [] = (
    pair-IsLine (bytes "allowed_ip") (bytes "0.0.0.0/0") refl refl
        ((has_byte-Lacks line_end (bytes "0.0.0.0/0")).0 refl),
    (
      pair-IsLine (bytes "allowed_ip") (bytes "::0/0") refl refl
          ((has_byte-Lacks line_end (bytes "::0/0")).0 refl),
      tt,
    ),
  )
  allowed_ip_pairs-IsLine (ip ∷ ips) = ip_pairs-IsLine (ip ∷ ips)

  peer_pairs-IsLine :
      (peer : PeerConfig w) → IsPeer w peer → OneLine peer.endpoint → All IsLine (peer_pairs w peer)
  unfolding peer_pairs has_byte
  peer_pairs-IsLine peer good line = (
    pair-IsLine (bytes "public_key") peer.public_key refl refl
        (hex-Lacks peer.public_key good.keyed.digits),
    (
      pair-IsLine (bytes "persistent_keepalive_interval") (itoa peer.keep_alive) refl refl
          (itoa-Lacks peer.keep_alive),
      (
        pair-IsLine (bytes "preshared_key") peer.pre_shared_key refl refl
            (hex-Lacks peer.pre_shared_key good.shared.digits),
        All-append IsLine (endpoint_pairs w peer.endpoint) (allowed_ip_pairs w peer.allowed_ips)
            (endpoint_pairs-IsLine peer.endpoint line) (allowed_ip_pairs-IsLine peer.allowed_ips),
      ),
    ),
  )

  all_peer_pairs-IsLine :
      (peers : List (PeerConfig w))
      → All (IsPeer w) peers
      → All (λ peer. OneLine peer.endpoint) peers
      → All IsLine (all_peer_pairs w peers)
  unfolding all_peer_pairs
  all_peer_pairs-IsLine [] good lines = tt
  all_peer_pairs-IsLine (peer ∷ peers) good lines =
      All-append IsLine (peer_pairs w peer) (all_peer_pairs w peers)
        (peer_pairs-IsLine peer good.0 lines.0) (all_peer_pairs-IsLine peers good.1 lines.1)

  device_pairs-IsLine :
      (conf : DeviceConfig w)
      → IsDevice w conf
      → All (IsPeer w) conf.peers
      → All (λ peer. OneLine peer.endpoint) conf.peers
      → All IsLine (device_pairs w conf)
  unfolding device_pairs has_byte
  device_pairs-IsLine conf good peers lines = (
    pair-IsLine (bytes "private_key") conf.secret_key refl refl
        (hex-Lacks conf.secret_key good.keyed.digits),
    All-append IsLine (listen_port_pairs w conf.listen_port) (all_peer_pairs w conf.peers)
        (listen_port_pairs-IsLine conf.listen_port) (all_peer_pairs-IsLine conf.peers peers lines),
  )

  -- For a device as `ParseConfig` returns it, whose endpoints and prefixes print as one line each,
  -- the device reads back exactly the settings that the configuration asks for: the private key, the
  -- listening port if there is one, and for each peer, in order, its keys, keep-alive, endpoint and
  -- allowed addresses. No value can add a setting of its own.
  pub read_request-create_ipc_request :
      (doc : Bytes → Bytes) (conf : DeviceConfig w)
      → Unindents doc
      → IsDevice w conf
      → All (IsPeer w) conf.peers
      → All (λ peer. OneLine peer.endpoint) conf.peers
      → read_request (create_ipc_request w doc conf).ipc_request ≡ device_pairs w conf
  read_request-create_ipc_request doc conf u good peers lines =
      rw (create_ipc_request-print w doc u conf)
        (read-print (device_pairs w conf) (device_pairs-IsLine conf good peers lines))
