-- ===== src/Tests/Tunnels.antt =====
-- A TCP client tunnel and a TCP server tunnel with two connections each, and the theorems about the
-- servers of the sections.
use scramjet_app.Base.{
  All, Bytes, List, Result, [], any, arith, bytes, bytes_eq, err, false, none, ok, refl, some, true,
  ◌&&◌, ◌||◌, ◌↔◌, ◌∷◌, ◌≡◌, ◌≢◌,
}
use scramjet_app.Base.Int.{pos}
use scramjet_app.Accept.{accept_loop}
use scramjet_app.Config.{
  ResolveConfig, TcpClientTunnelConfig, TcpServerTunnelConfig, StdioTunnelConfig, Socks5Config,
  HttpConfig,
}
use scramjet_app.Forward.{tcp_tunnel}
use scramjet_app.Go.Net.{split_host_port, join_host_port}
use scramjet_app.Go.Strconv.{itoa_ℕ, atoi}
use scramjet_app.Go.Strings.{has_byte}
use scramjet_app.Go.Strings.Laws.{has_byte-Lacks}
use scramjet_app.Go.Rand.{shuffle}
use scramjet_app.Http.{http_server, is_set}
use scramjet_app.Http.Listen.{
  Connection, spawn_http, listen, IsAuthenticated, is_tls, Listener, spawn_http-IsAuthenticated,
}
use scramjet_app.Resolve.{parse_address_port, resolve_to_addr_port, resolve_addr, collect}
use scramjet_app.Socks5.{socks5_options, is_no_auth, no_auth_iff}
use scramjet_app.Tunnels.{
  Incoming, fatal, handled, undialed, forwards, spawn_tcp_client_tunnel, spawn_tcp_server_tunnel,
  spawn_stdio_tunnel, tcp_client_forward,
}
use scramjet_app.Tunnels.Targets.{Serves, Streams, spawn_tunnels-Serves}
use scramjet_app.Tests.Sample.{sample}

abbrev resolve : ResolveConfig
resolve = record { resolve_strategy = bytes "ipv4" }

-- The host has one address, which can be dialed.
abbrev incoming : Incoming sample
incoming = record {
  lookup = λ name. ok (bytes "10.0.0.1" ∷ []);
  draw4 = λ i. i;
  draw6 = λ i. i;
  dial_tcp = λ target. some (bytes "hello");
  input = bytes "hi";
}

abbrev refused : Incoming sample
refused = record incoming { dial_tcp = λ target. none }

abbrev client : TcpClientTunnelConfig
client = record { bind_address = record { ip = []; port = 25565 }; target = bytes "example:80" }

abbrev server : TcpServerTunnelConfig
server = record { listen_port = pos 3422; target = bytes "example:80" }

abbrev streams : StdioTunnelConfig
streams = record { target = bytes "example:80" }

abbrev accepts : List (Result (Incoming sample))
accepts = ok incoming ∷ ok refused ∷ err (bytes "closed") ∷ ok incoming ∷ []

runs :
    spawn_tcp_client_tunnel sample resolve client (λ addr. ok tt) accepts
    ≡ handled incoming (forwards (bytes "10.0.0.1", 80) (tcp_tunnel (bytes "hi") (bytes "hello")))
      ∷ handled refused (undialed (bytes "10.0.0.1", 80))
      ∷ fatal (bytes "closed")
      ∷ []
unfolding spawn_tcp_client_tunnel tcp_client_forward parse_address_port split_host_port atoi
    accept_loop resolve_to_addr_port resolve_addr collect shuffle bytes_eq has_byte
runs = refl

spawn_tunnels-Serves_example :
    Serves sample resolve
      (record { address = bytes "example"; port = 80 })
      accepts
      (spawn_tcp_client_tunnel sample resolve client (λ addr. ok tt) accepts)
    × Serves sample resolve
        (record { address = bytes "example"; port = 80 })
        accepts
        (spawn_tcp_server_tunnel sample resolve server (λ port. ok tt) accepts)
    × Streams sample resolve
        (record { address = bytes "example"; port = 80 })
        incoming
        (spawn_stdio_tunnel sample resolve streams incoming)
unfolding join_host_port itoa_ℕ has_byte
spawn_tunnels-Serves_example =
    spawn_tunnels-Serves sample resolve client server streams (λ addr. ok tt) (λ port. ok tt)
      (bytes "example") 80 accepts incoming
      (
        (has_byte-Lacks b'[' (bytes "example")).0 refl,
        (has_byte-Lacks b']' (bytes "example")).0 refl,
      )
      (omega arith) refl refl refl refl refl

abbrev socks5_config : Socks5Config
socks5_config = record {
  bind_address = bytes "127.0.0.1:1080";
  username = [];
  password = bytes "secret";
}

abbrev http_config : HttpConfig
http_config = record {
  bind_address = bytes "127.0.0.1:25345";
  username = [];
  password = bytes "secret";
  cert_file = [];
  key_file = [];
}

no_auth_iff_example :
    (any is_no_auth (socks5_options ok socks5_config).auth_methods ≡ false
      → (http_server http_config).auth_required ≡ true)
    × (((any is_no_auth (socks5_options ok socks5_config).auth_methods ≡ true)
          × ((http_server http_config).auth_required ≡ true))
        ↔ ((http_config.username ≡ []) × (http_config.password ≢ [])))
no_auth_iff_example = no_auth_iff ok socks5_config http_config refl

abbrev connection : Connection
connection = record {
  net = record { dial = λ addr. some 7; client_writable = true; peer_writable = true };
  request = some (record {
    method = bytes "CONNECT";
    host = bytes "example";
    proto = bytes "HTTP/1.1";
    proxy_authorization = bytes "Basic OnNlY3JldA==";
  });
}

-- A certificate is the text of its file.
abbrev load : Bytes → Bytes → Result Bytes
load cert key = ok cert

spawn_http-IsAuthenticated_example :
    ((is_set http_config.username || is_set http_config.password) ≡ true
      → All
          (IsAuthenticated load (λ c a. ok tt) (λ a. ok tt) http_config)
          (spawn_http load (λ c a. ok tt) (λ a. ok tt) http_config (ok connection ∷ [])))
    × ((l : Listener load (λ c a. ok tt) (λ a. ok tt))
        → listen load (λ c a. ok tt) (λ a. ok tt) (http_server http_config) http_config.bind_address
          ≡ ok l
        → is_tls load (λ c a. ok tt) (λ a. ok tt) l
          ≡ (is_set http_config.cert_file && is_set http_config.key_file))
spawn_http-IsAuthenticated_example =
    spawn_http-IsAuthenticated load (λ c a. ok tt) (λ a. ok tt) http_config (ok connection ∷ [])
