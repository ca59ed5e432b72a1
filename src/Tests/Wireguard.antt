-- ===== src/Tests/Wireguard.antt =====
-- Runs of the device's set-up and of name resolution, and their theorems at concrete data.
use scramjet_app.Wireguard.Start.{
  Netstack, VirtualTun, IsStarted, start_wireguard, choose_strategy, start_wireguard-IsStarted,
}
use scramjet_app.Config.{Configuration}
use scramjet_app.Wireguard.Reading.{read_request, read_request-create_ipc_request}
use scramjet_app.Wireguard.{line_end, any_ip_literal, create_ipc_request}
use scramjet_app.Resolve.{resolve_addr}
use scramjet_app.Config.{ResolveConfig, DeviceConfig, PeerConfig}
use scramjet_app.Resolve.Laws.{Outcome, is_v6}
use scramjet_app.Resolve.Strategy.{resolve_addr_lem}
use scramjet_app.Config.Device.{IsPeer, IsDevice}
use scramjet_app.Wireguard.Request.{Unindents, device_pairs}
use scramjet_app.Go.Strconv.{itoa_ℕ}
use scramjet_app.Go.Strings.{has_byte}
use scramjet_app.Go.Strings.Laws.{has_byte-Lacks}
use scramjet_app.Go.Strconv.Laws.{itoa_ℕ-Lacks}
use scramjet_app.Base.{
  Bytes, Lacks, Lacks-append, List, Option, Result, [], bytes, bytes_eq, err, false, if◌then◌else◌,
  length, none, ok, refl, some, true, ℕ, ◌++◌, ◌∷◌, ◌≡◌, ◌≢◌,
}
use scramjet_app.Base.Int.{pos}
use scramjet_app.Startup.{StartsUp, parse_config-StartsUp}
use scramjet_app.Tests.Config.{configuration, config_run}
use scramjet_app.Tests.Sample.{sample, private_hex, public_hex}

abbrev peer : PeerConfig sample
peer = record {
  public_key = public_hex;
  pre_shared_key = bytes "0000000000000000000000000000000000000000000000000000000000000000";
  endpoint = some (bytes "94.140.11.15:51820");
  keep_alive = pos 25;
  allowed_ips = 8 ∷ [];
}

abbrev device : DeviceConfig sample
device = record {
  secret_key = private_hex;
  endpoint = bytes "10.5.0.2" ∷ [];
  peers = peer ∷ record peer { endpoint = none; allowed_ips = [] } ∷ [];
  dns = [];
  mtu = pos 1420;
  listen_port = some (pos 51820);
  check_alive = [];
  check_alive_interval = pos 5;
}

-- Takes the two literals to their texts.
unindent : Bytes → Bytes
unfolding bytes_eq
unindent s =
    if bytes_eq s any_ip_literal
    then bytes "allowed_ip=0.0.0.0/0" ++ (line_end ∷ bytes "allowed_ip=::0/0" ++ (line_end ∷ []))
    else bytes "public_key=%s"
      ++ (line_end ∷ bytes "persistent_keepalive_interval=%d"
          ++ (line_end ∷ bytes "preshared_key=%s" ++ (line_end ∷ [])))

unindent-Unindents : Unindents unindent
unfolding unindent
unindent-Unindents = record { peer_text = refl; any_ip_text = refl }

absent : (c : ℕ) (s : Bytes) → has_byte c s ≡ false → Lacks c s
absent c s = (has_byte-Lacks c s).0

prefix_line : (ip : ℕ) → Lacks line_end (sample.prefix_string ip)
unfolding has_byte
prefix_line ip =
    Lacks-append line_end (bytes "0.0.0.0/") (itoa_ℕ ip) (absent line_end (bytes "0.0.0.0/") refl)
      (itoa_ℕ-Lacks line_end ip refl)

device_keys : IsDevice sample device
device_keys = record { keyed = record { size = refl; digits = refl }; checked = λ e. refl }

peer_keys :
    (endpoint : Option Bytes) (ips : List ℕ)
    → IsPeer sample (record peer { endpoint = endpoint; allowed_ips = ips })
peer_keys endpoint ips = record {
  keyed = record { size = refl; digits = refl };
  shared = record { size = refl; digits = refl };
}

read_request-create_ipc_request_example :
    read_request (create_ipc_request sample unindent device).ipc_request
    ≡ device_pairs sample device
unfolding has_byte
read_request-create_ipc_request_example =
    read_request-create_ipc_request sample prefix_line unindent device unindent-Unindents
      device_keys (peer_keys (some (bytes "94.140.11.15:51820")) (8 ∷ []), (peer_keys none [], tt))
      (absent line_end (bytes "94.140.11.15:51820") refl, (tt, tt))

abbrev found : Bytes → Result (List Bytes)
found name = ok (bytes "::1" ∷ bytes "10.0.0.1" ∷ bytes "10.0.0.2" ∷ [])

abbrev strategy : Bytes → ResolveConfig
strategy s = record { resolve_strategy = s }

resolve_addr_lem_example :
    ((found_addrs : List Bytes)
      → found (bytes "example") ≡ ok found_addrs
      → (bytes "ipv4" ≡ bytes "ipv4"
          → Outcome sample sample.is4 (is_v6 sample) found_addrs (
              resolve_addr sample
                (strategy (bytes "ipv4"))
                found
                (λ i. i)
                (λ i. i)
                (bytes "example")))
        × (bytes "ipv4" ≡ bytes "ipv6"
            → Outcome sample (is_v6 sample) sample.is4 found_addrs (
                resolve_addr sample
                  (strategy (bytes "ipv4"))
                  found
                  (λ i. i)
                  (λ i. i)
                  (bytes "example"))))
    × (bytes "ipv4" ≢ bytes "ipv4"
        → bytes "ipv4" ≢ bytes "ipv6"
        → (message : Bytes) × (resolve_addr sample
              (strategy (bytes "ipv4"))
              found
              (λ i. i)
              (λ i. i)
              (bytes "example")
            ≡ err message))
    × ((e : Bytes)
        → found (bytes "example") ≡ err e
        → resolve_addr sample (strategy (bytes "ipv4")) found (λ i. i) (λ i. i) (bytes "example")
          ≡ err e)
resolve_addr_lem_example =
    resolve_addr_lem sample (strategy (bytes "ipv4")) found (λ i. i) (λ i. i) (bytes "example")

-- A device that accepts everything.
abbrev stack : Netstack sample
stack = record {
  Tun = ℕ;
  Net = ℕ;
  Device = ℕ;
  create_net_tun = λ addrs dns mtu. ok (length addrs, length dns);
  new_device = λ tun level. tun;
  ipc_set = λ dev request. ok (length request);
  up = λ dev. ok dev;
}

abbrev conf : Configuration sample
conf = record { device = device; routines = []; resolve = strategy (bytes "auto") }

abbrev tunnel : VirtualTun sample stack
tunnel = record {
  tnet = 0;
  dev = length (create_ipc_request sample unindent device).ipc_request;
  system_dns = true;
  conf = device;
  resolve_config = strategy (bytes "ipv4");
  ping_record = [];
}

start_wireguard-IsStarted_example : IsStarted sample stack unindent conf 2 tunnel
unfolding start_wireguard choose_strategy create_ipc_request bytes_eq has_byte
start_wireguard-IsStarted_example =
    start_wireguard-IsStarted sample stack unindent conf 2 tunnel refl

-- The tunnel that the configuration of the sample file starts.
abbrev started : VirtualTun sample stack
started = record {
  tnet = 1;
  dev = length (create_ipc_request sample unindent configuration.device).ipc_request;
  system_dns = false;
  conf = configuration.device;
  resolve_config = strategy (bytes "ipv4");
  ping_record = [];
}

parse_config-StartsUp_example :
    StartsUp sample stack unindent (bytes "wireproxy.conf") configuration 2 started
unfolding start_wireguard choose_strategy create_ipc_request bytes_eq has_byte
parse_config-StartsUp_example =
    parse_config-StartsUp sample stack unindent prefix_line unindent-Unindents
      (bytes "wireproxy.conf") configuration 2 started config_run
      (absent line_end (bytes "94.140.11.15:51820") refl, tt) refl
