-- ===== src/Tests/Config.antt =====
-- Runs of the configuration parsers, and their theorems at concrete data.
use scramjet_app.Config.File.{parse_config, parse_routines, default_device}
use scramjet_app.Config.Values.{
  parse_cidr_net_ip, encode_base64_to_hex, parse_port, parse_allowed_ips, parse_net_ip,
  parse_string, expand, parse_base64_key_to_hex, parse_parts, parse_addr_or_prefix,
  resolve_ip_and_port, parse_tcp_addr,
}
use scramjet_app.Config.Device.{IsDevice, parse_interface-IsDevice, parse_peers_iff}
use scramjet_app.Config.Keys.{encode_base64_to_hex-encode_base64}
use scramjet_app.Config.Expand.{escape, parse_port_iff, parse_string-escape}
use scramjet_app.Config.{
  PeerConfig, RoutineSpawner, DeviceConfig, Configuration, socks5, tcp_server,
}
use scramjet_app.Config.Interface.{parse_peers, parse_interface, parse_peer}
use scramjet_app.Config.Whole.{IsConfiguration, parse_config_iff}
use scramjet_app.Config.Routines.{Groups, parse_routines_iff}
use scramjet_app.Config.Lists.{Denotes, parse_net_ip_iff}
use scramjet_app.Go.Base64.Laws.{encode_base64}
use scramjet_app.Config.Each.{Each, append_all}
use scramjet_app.Go.Strings.{
  split, to_lower, has_prefix, trim_prefix, replace_once, trim_space, cut, has_byte, contains,
}
use scramjet_app.Go.Base64.{encode_hex, decode_base64}
use scramjet_app.Config.Tunnels.{
  parse_routines_config, parse_tcp_client_tunnel_config, parse_stdio_tunnel_config,
  parse_tcp_server_tunnel_config, parse_socks5_config, parse_http_config,
  parse_udp_proxy_tunnel_config,
}
use scramjet_app.Go.Strconv.{digits_value, atoi}
use scramjet_app.Go.Net.{split_host_port, join_host_port}
use scramjet_app.Base.{
  Bytes, List, Result, [], arith, bytes, err, if◌then◌else◌, length, none, ok, refl, some, ℕ, ◌++◌,
  ◌<◌, ◌==◌, ◌↔◌, ◌∷◌, ◌≡◌, ◌≢◌,
}
use scramjet_app.Base.Int.{pos}
use scramjet_app.Tests.Sample.{sample, file, find, sections_named, private_hex, public_hex, Pairs}

-- The parsers of values, with all that they call.
run_values : Pairs → Bytes → Result Bytes
unfolding parse_string expand to_lower has_prefix trim_prefix replace_once find encode_base64_to_hex
    decode_base64 encode_hex parse_base64_key_to_hex parse_parts trim_space split cut has_byte
    parse_net_ip parse_cidr_net_ip parse_allowed_ips parse_addr_or_prefix digits_value atoi
    resolve_ip_and_port split_host_port join_host_port parse_tcp_addr parse_port contains
run_values = parse_string sample

run_config : Bytes → Result (Configuration sample)
unfolding run_values parse_config parse_interface parse_peers parse_peer append_all
    parse_routines_config sections_named parse_tcp_client_tunnel_config parse_stdio_tunnel_config
    parse_tcp_server_tunnel_config parse_socks5_config parse_http_config
    parse_udp_proxy_tunnel_config
run_config = parse_config sample

abbrev peer : PeerConfig sample
peer = record {
  public_key = public_hex;
  pre_shared_key = bytes "0000000000000000000000000000000000000000000000000000000000000000";
  endpoint = some (bytes "94.140.11.15:51820");
  keep_alive = pos 25;
  allowed_ips = 0 ∷ 8 ∷ [];
}

abbrev device : DeviceConfig sample
device = record {
  secret_key = private_hex;
  endpoint = bytes "10.5.0.2" ∷ bytes "10.5.0.0" ∷ [];
  peers = [];
  dns = bytes "1.1.1.1" ∷ [];
  mtu = pos 1420;
  listen_port = none;
  check_alive = [];
  check_alive_interval = pos 5;
}

abbrev server : RoutineSpawner
server = tcp_server (record { listen_port = pos 3422; target = bytes "localhost:25545" })

abbrev proxy : RoutineSpawner
proxy = socks5 (record { bind_address = bytes "127.0.0.1:25344"; username = []; password = [] })

abbrev pub configuration : Configuration sample
configuration = record {
  device = record device { peers = peer ∷ [] };
  routines = server ∷ proxy ∷ [];
  resolve = record { resolve_strategy = bytes "auto" };
}

pub config_run : parse_config sample (bytes "wireproxy.conf") ≡ ok configuration
unfolding run_config
config_run = refl

short_key : encode_base64_to_hex (bytes "QUJD") ≡ err (bytes "key should be 32 bytes: QUJD")
unfolding run_values
short_key = refl

abbrev abc : Bytes
abc = bytes "ABC"

encode_base64_to_hex-encode_base64_example : encode_base64_to_hex (encode_base64 abc) ≡ (
    if length abc == 32
    then ok (encode_hex abc)
    else err (bytes "key should be 32 bytes: " ++ encode_base64 abc))
encode_base64_to_hex-encode_base64_example = encode_base64_to_hex-encode_base64 abc (omega arith)

abbrev literal : Pairs
literal =
    (bytes "target", bytes "$$5")
    ∷ (bytes "username", bytes "$USER")
    ∷ (bytes "listenport", bytes "65535")
    ∷ []

parse_string-escape_example : parse_string sample literal (bytes "Target") ≡ ok (bytes "$5")
unfolding run_values escape
parse_string-escape_example =
    parse_string-escape sample literal (bytes "Target") (bytes "$5") (bytes "$$5") refl refl

parse_port_iff_example : (parse_port sample literal (bytes "ListenPort") ≡ ok (pos 65535)) ↔ (
    (k : Bytes) × (sample.key literal (bytes "ListenPort") ≡ some k)
    × (sample.key_int k ≡ ok (pos 65535))
    × ((n : ℕ) × (pos 65535 ≡ pos n) × (n < 65536)))
parse_port_iff_example = parse_port_iff sample literal (bytes "ListenPort") (pos 65535)

abbrev addresses : Pairs
addresses = (bytes "dns", bytes "1.1.1.1, ,::1") ∷ (bytes "allowedips", bytes "0.0.0.0/0,") ∷ []

parse_net_ip_iff_example :
    (parse_net_ip sample addresses (bytes "DNS") ≡ ok (bytes "1.1.1.1" ∷ bytes "::1" ∷ []))
    ↔ Denotes sample.parse_addr
        (split b',' (bytes "1.1.1.1, ,::1"))
        (bytes "1.1.1.1" ∷ bytes "::1" ∷ [])
unfolding run_values
parse_net_ip_iff_example =
    parse_net_ip_iff sample addresses (bytes "DNS") (bytes "1.1.1.1, ,::1")
      (bytes "1.1.1.1" ∷ bytes "::1" ∷ []) refl

parse_interface-IsDevice_example : IsDevice sample device
unfolding run_config
parse_interface-IsDevice_example = parse_interface-IsDevice sample file (default_device sample) refl

parse_peers_iff_example : (parse_peers sample file [] ≡ ok (peer ∷ [])) ↔ (
    (sections : List Pairs) × (new : List (PeerConfig sample)) × (sample.sections_by_name file
        (bytes "Peer")
      ≡ some sections)
    × (sections ≢ [])
    × Each (parse_peer sample) sections new
    × (peer ∷ [] ≡ [] ++ new))
parse_peers_iff_example = parse_peers_iff sample file [] (peer ∷ [])

parse_routines_iff_example :
    (parse_routines sample file ≡ ok (server ∷ proxy ∷ []))
    ↔ Groups sample file (server ∷ proxy ∷ [])
parse_routines_iff_example = parse_routines_iff sample file (server ∷ proxy ∷ [])

parse_config_iff_example :
    (parse_config sample (bytes "wireproxy.conf") ≡ ok configuration)
    ↔ IsConfiguration sample (bytes "wireproxy.conf") configuration
parse_config_iff_example = parse_config_iff sample (bytes "wireproxy.conf") configuration
