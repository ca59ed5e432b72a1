-- ===== src/Config/Interface.antt =====
-- wireproxy/config.go: `ParseInterface` and `ParsePeers`. The fields that a failed call has
-- already set are not kept: `ParseConfig` drops the device with the error.
use scramjet_app.Base.{
  Bytes, List, Option, Result, [], bytes, err, if◌then◌else◌, length, none, ok, some, ◌==◌, ◌>>=◌,
  ◌∷◌,
}
use scramjet_app.Base.Int.{ℤ, pos}
use scramjet_app.Config.{DeviceConfig, PeerConfig}
use scramjet_app.Config.Each.{append_all}
use scramjet_app.Config.Values.{
  encode_base64_to_hex, parse_cidr_net_ip, parse_base64_key_to_hex, parse_net_ip, parse_allowed_ips,
  resolve_ip_and_port,
}
use scramjet_app.Go.Strings.{to_lower}
use scramjet_app.Platform.{Platform}

module _ (w : Platform) where
  open w use {File, Section, Key, sections_by_name, get_key, key_string, key_int, lower_runes}

  abbrev pub one_section : Option (List Section) → Result Section
  one_section (some (s ∷ [])) = ok s
  one_section _ = err (bytes "one and only one [Interface] is expected")

  -- `if sectionKey, err := section.GetKey(…); err == nil { value, err := sectionKey.Int() … }`
  abbrev pub int_or : ℤ → Option Key → Result ℤ
  int_or d none = ok d
  int_or d (some k) = key_int k

  abbrev pub optional_int : Option Key → Result (Option ℤ)
  optional_int none = ok none
  optional_int (some k) = do value ← key_int k; ok (some value)

  abbrev pub alive_error : Bytes
  alive_error = bytes "CheckAliveInterval is only valid when CheckAlive is set"

  abbrev pub interval : List w.Addr → Option Key → Result ℤ
  interval check_alive none = ok (pos 5)
  interval check_alive (some k) = do
    value ← key_int k
    if length check_alive == 0 then err alive_error else ok value

  -- The body of `ParseInterface`, for its one section.
  unfoldable pub parse_interface_section : Section → DeviceConfig w → Result (DeviceConfig w)
  parse_interface_section section device = do
    address ← parse_cidr_net_ip w section (bytes "Address")
    priv_key ← parse_base64_key_to_hex w section (bytes "PrivateKey")
    dns ← parse_net_ip w section (bytes "DNS")
    mtu ← int_or device.mtu (get_key section (bytes "MTU"))
    listen_port ← optional_int (get_key section (bytes "ListenPort"))
    check_alive ← parse_net_ip w section (bytes "CheckAlive")
    check_alive_interval ← interval check_alive (get_key section (bytes "CheckAliveInterval"))
    ok record device {
      endpoint = address;
      secret_key = priv_key;
      dns = dns;
      mtu = mtu;
      listen_port = listen_port;
      check_alive = check_alive;
      check_alive_interval = check_alive_interval;
    }

  -- `ParseInterface`
  unfoldable pub parse_interface : File → DeviceConfig w → Result (DeviceConfig w)
  unfolding parse_interface_section
  parse_interface cfg device = do
    section ← one_section (sections_by_name cfg (bytes "Interface"))
    parse_interface_section section device

  abbrev pub no_key : Bytes
  no_key = bytes "0000000000000000000000000000000000000000000000000000000000000000"

  abbrev pub shared_key : Option Key → Result Bytes
  shared_key none = ok no_key
  shared_key (some k) = encode_base64_to_hex (key_string k)

  abbrev pub peer_endpoint : Option Key → Result (Option Bytes)
  peer_endpoint none = ok none
  peer_endpoint (some k) = do
    decoded ← resolve_ip_and_port w (to_lower lower_runes (key_string k))
    ok (some decoded)

  -- One round of the loop of `ParsePeers`.
  unfoldable pub parse_peer : Section → Result (PeerConfig w)
  parse_peer section = do
    decoded ← parse_base64_key_to_hex w section (bytes "PublicKey")
    pre_shared_key ← shared_key (get_key section (bytes "PreSharedKey"))
    endpoint ← peer_endpoint (get_key section (bytes "Endpoint"))
    keep_alive ← int_or (pos 0) (get_key section (bytes "PersistentKeepalive"))
    allowed_ips ← parse_allowed_ips w section
    ok record {
      public_key = decoded;
      pre_shared_key = pre_shared_key;
      endpoint = endpoint;
      keep_alive = keep_alive;
      allowed_ips = allowed_ips;
    }

  abbrev pub some_sections : Option (List Section) → Result (List Section)
  some_sections (some (s ∷ ss)) = ok (s ∷ ss)
  some_sections _ = err (bytes "at least one [Peer] is expected")

  -- `ParsePeers`
  unfoldable pub parse_peers : File → List (PeerConfig w) → Result (List (PeerConfig w))
  parse_peers cfg peers = do
    sections ← some_sections (sections_by_name cfg (bytes "Peer"))
    append_all parse_peer sections peers
