-- ===== src/Wireguard/Request.antt =====
-- The request of `CreateIPCRequest`, read as the WireGuard device reads it: lines of a key, "=" and
-- a value.
use mathlib.Core.List.{append_assoc}
use scramjet_app.Go.Fmt.{sprintf}
use scramjet_app.Base.{Bytes, List, Option, [], bytes, map, none, refl, some, sym, ◌++◌, ◌∷◌, ◌≡◌}
use scramjet_app.Base.Int.{ℤ}
use scramjet_app.Config.{DeviceConfig, PeerConfig}
use scramjet_app.Go.Strconv.{itoa}
use scramjet_app.Platform.{Platform}
use scramjet_app.Wireguard.{
  line_end, peer_literal, any_ip_literal, peer_part, allowed_ips_part, sprintf, allowed_ip_lines,
  listen_port_line, endpoint_line, create_ipc_request, peer_parts,
}

-- What is relied on of heredoc: it takes the common indentation off the two literals.
pub record Unindents (doc : Bytes → Bytes) : Type 0 where
  pub peer_text :
      doc peer_literal
      ≡ bytes "public_key=%s"
        ++ (line_end ∷ bytes "persistent_keepalive_interval=%d"
            ++ (line_end ∷ bytes "preshared_key=%s" ++ (line_end ∷ [])))
  pub any_ip_text :
      doc any_ip_literal
      ≡ bytes "allowed_ip=0.0.0.0/0" ++ (line_end ∷ bytes "allowed_ip=::0/0" ++ (line_end ∷ []))

-- A setting of the device: a key and its value.
abbrev pub Pair : Type 0
Pair = Bytes × Bytes

-- The text of settings, a line each.
unfoldable pub print_pairs : List Pair → Bytes
print_pairs [] = []
print_pairs ((key, value) ∷ pairs) = key ++ (b'=' ∷ value ++ (line_end ∷ print_pairs pairs))

nil_printed : [] ≡ print_pairs []
unfolding print_pairs
nil_printed = refl

print_pairs-append : (ps qs : List Pair) → print_pairs (ps ++ qs) ≡ print_pairs ps ++ print_pairs qs
unfolding print_pairs
print_pairs-append [] qs = refl
print_pairs-append ((key, value) ∷ ps) qs = rw (print_pairs-append ps qs) (simp append_assoc)

module _ (w : Platform) where
  abbrev pub listen_port_pairs : Option ℤ → List Pair
  listen_port_pairs none = []
  listen_port_pairs (some port) = (bytes "listen_port", itoa port) ∷ []

  abbrev pub endpoint_pairs : Option Bytes → List Pair
  endpoint_pairs none = []
  endpoint_pairs (some endpoint) = (bytes "endpoint", endpoint) ∷ []

  abbrev pub ip_pair : w.Prefix → Pair
  ip_pair ip = (bytes "allowed_ip", w.prefix_string ip)

  -- A peer with no allowed addresses is allowed all of IPv4 and IPv6.
  abbrev pub allowed_ip_pairs : List w.Prefix → List Pair
  allowed_ip_pairs [] =
      (bytes "allowed_ip", bytes "0.0.0.0/0") ∷ (bytes "allowed_ip", bytes "::0/0") ∷ []
  allowed_ip_pairs (ip ∷ ips) = map ip_pair (ip ∷ ips)

  unfoldable pub peer_pairs : PeerConfig w → List Pair
  peer_pairs peer =
      (bytes "public_key", peer.public_key)
        ∷ (bytes "persistent_keepalive_interval", itoa peer.keep_alive)
        ∷ (bytes "preshared_key", peer.pre_shared_key)
        ∷ endpoint_pairs peer.endpoint
      ++ allowed_ip_pairs peer.allowed_ips

  unfoldable pub all_peer_pairs : List (PeerConfig w) → List Pair
  all_peer_pairs [] = []
  all_peer_pairs (peer ∷ peers) = peer_pairs peer ++ all_peer_pairs peers

  -- What a device configuration asks for.
  unfoldable pub device_pairs : DeviceConfig w → List Pair
  unfolding peer_pairs all_peer_pairs
  device_pairs conf =
      (bytes "private_key", conf.secret_key) ∷ listen_port_pairs conf.listen_port
      ++ all_peer_pairs conf.peers

module _ (w : Platform) (doc : Bytes → Bytes) (u : Unindents doc) where
  endpoint_line-print :
      (endpoint : Option Bytes)
      → endpoint_line w doc endpoint ≡ print_pairs (endpoint_pairs w endpoint)
  unfolding sprintf print_pairs
  endpoint_line-print none = refl
  endpoint_line-print (some endpoint) = refl

  listen_port_line-print :
      (port : Option ℤ) → listen_port_line w doc port ≡ print_pairs (listen_port_pairs w port)
  unfolding sprintf print_pairs
  listen_port_line-print none = refl
  listen_port_line-print (some port) = refl

  allowed_ip_lines-print :
      (ips : List w.Prefix) → allowed_ip_lines w doc ips ≡ print_pairs (map (ip_pair w) ips)
  unfolding allowed_ip_lines sprintf print_pairs
  allowed_ip_lines-print [] = refl
  allowed_ip_lines-print (ip ∷ ips) = rw (allowed_ip_lines-print ips) (simp append_assoc)

  allowed_ips_part-print :
      (ips : List w.Prefix) → allowed_ips_part w doc ips ≡ print_pairs (allowed_ip_pairs w ips)
  unfolding print_pairs
  allowed_ips_part-print [] = u.any_ip_text
  allowed_ips_part-print (ip ∷ ips) = allowed_ip_lines-print (ip ∷ ips)

  peer_keys-print :
      (public_key keep_alive pre_shared_key : Bytes) (rest : List Pair)
      → sprintf (doc peer_literal) (public_key ∷ keep_alive ∷ pre_shared_key ∷ [])
          ++ print_pairs rest
        ≡ print_pairs (
            (bytes "public_key", public_key)
            ∷ (bytes "persistent_keepalive_interval", keep_alive)
            ∷ (bytes "preshared_key", pre_shared_key)
            ∷ rest)
  unfolding sprintf print_pairs
  peer_keys-print public_key keep_alive pre_shared_key rest = rw u.peer_text (simp append_assoc)

  peer_part-print : (peer : PeerConfig w) → peer_part w doc peer ≡ print_pairs (peer_pairs w peer)
  unfolding peer_part peer_pairs
  peer_part-print peer =
      rw
        (
          endpoint_line-print peer.endpoint,
          allowed_ips_part-print peer.allowed_ips,
          ← print_pairs-append (endpoint_pairs w peer.endpoint)
              (allowed_ip_pairs w peer.allowed_ips),
        )
        (peer_keys-print peer.public_key (itoa peer.keep_alive) peer.pre_shared_key _)

  peer_parts-print :
      (peers : List (PeerConfig w)) → peer_parts w doc peers ≡ print_pairs (all_peer_pairs w peers)
  unfolding peer_parts all_peer_pairs
  peer_parts-print [] = nil_printed
  peer_parts-print (peer ∷ peers) =
      rw (peer_part-print peer, peer_parts-print peers)
        (sym (print_pairs-append (peer_pairs w peer) (all_peer_pairs w peers)))

  private_key-print :
      (key : Bytes) (rest : List Pair)
      → sprintf (bytes "private_key=%s" ++ line_end ∷ []) (key ∷ []) ++ print_pairs rest
        ≡ print_pairs ((bytes "private_key", key) ∷ rest)
  unfolding sprintf print_pairs
  private_key-print key rest = simp append_assoc

  pub create_ipc_request-print :
      (conf : DeviceConfig w)
      → (create_ipc_request w doc conf).ipc_request ≡ print_pairs (device_pairs w conf)
  unfolding create_ipc_request device_pairs
  create_ipc_request-print conf =
      rw
        (
          listen_port_line-print conf.listen_port,
          peer_parts-print conf.peers,
          ← print_pairs-append (listen_port_pairs w conf.listen_port) (all_peer_pairs w conf.peers),
        )
        (private_key-print conf.secret_key _)
