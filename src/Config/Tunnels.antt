-- ===== src/Config/Tunnels.antt =====
-- wireproxy/config.go: the sections that describe routines.
use scramjet_app.Base.{Bytes, List, Option, Result, [], bytes, none, ok, or_zero, some, ◌>>=◌}
use scramjet_app.Base.Int.{pos}
use scramjet_app.Config.{
  RoutineSpawner, tcp_client, stdio, tcp_server, socks5, http, udp_proxy, ResolveConfig,
}
use scramjet_app.Config.Each.{append_all}
use scramjet_app.Config.Values.{parse_string, parse_port, parse_tcp_addr}
use scramjet_app.Config.Interface.{int_or}
use scramjet_app.Platform.{Platform}

module _ (w : Platform) where
  open w use {File, Section, sections_by_name, get_key}

  -- `value, _ := parseString(…)`
  abbrev pub string_or_empty : Section → Bytes → Bytes
  string_or_empty section key_name = or_zero [] (parse_string w section key_name)

  -- `parseTCPClientTunnelConfig`
  unfoldable pub parse_tcp_client_tunnel_config : Section → Result RoutineSpawner
  parse_tcp_client_tunnel_config section = do
    tcp_addr ← parse_tcp_addr w section (bytes "BindAddress")
    target ← parse_string w section (bytes "Target")
    ok (tcp_client (record { bind_address = tcp_addr; target = target }))

  -- `parseSTDIOTunnelConfig`
  unfoldable pub parse_stdio_tunnel_config : Section → Result RoutineSpawner
  parse_stdio_tunnel_config section = do
    target ← parse_string w section (bytes "Target")
    ok (stdio (record { target = target }))

  -- `parseTCPServerTunnelConfig`
  unfoldable pub parse_tcp_server_tunnel_config : Section → Result RoutineSpawner
  parse_tcp_server_tunnel_config section = do
    listen_port ← parse_port w section (bytes "ListenPort")
    target ← parse_string w section (bytes "Target")
    ok (tcp_server (record { listen_port = listen_port; target = target }))

  -- `parseSocks5Config`
  unfoldable pub parse_socks5_config : Section → Result RoutineSpawner
  parse_socks5_config section = do
    bind_address ← parse_string w section (bytes "BindAddress")
    ok (
        socks5 (record {
          bind_address = bind_address;
          username = string_or_empty section (bytes "Username");
          password = string_or_empty section (bytes "Password");
        }))

  -- `parseHTTPConfig`
  unfoldable pub parse_http_config : Section → Result RoutineSpawner
  parse_http_config section = do
    bind_address ← parse_string w section (bytes "BindAddress")
    ok (
        http (record {
          bind_address = bind_address;
          username = string_or_empty section (bytes "Username");
          password = string_or_empty section (bytes "Password");
          cert_file = string_or_empty section (bytes "CertFile");
          key_file = string_or_empty section (bytes "KeyFile");
        }))

  -- `parseResolveConfig`; it has no error path.
  unfoldable pub parse_resolve_config : Section → ResolveConfig
  parse_resolve_config section = record {
    resolve_strategy = string_or_empty section (bytes "ResolveStrategy");
  }

  -- `parseUDPProxyTunnelConfig`
  unfoldable pub parse_udp_proxy_tunnel_config : Section → Result RoutineSpawner
  parse_udp_proxy_tunnel_config section = do
    bind_address ← parse_string w section (bytes "BindAddress")
    target ← parse_string w section (bytes "Target")
    timeout ← int_or w (pos 0) (get_key section (bytes "InactivityTimeout"))
    ok (
        udp_proxy
          (record { bind_address = bind_address; target = target; inactivity_timeout = timeout }))

  -- The sections that `SectionsByName` found; none is no error.
  abbrev pub by_sections :
      List RoutineSpawner
      → (Section → Result RoutineSpawner)
      → Option (List Section)
      → Result (List RoutineSpawner)
  by_sections routines f none = ok routines
  by_sections routines f (some sections) = append_all f sections routines

  -- `parseRoutinesConfig`
  unfoldable pub parse_routines_config :
      List RoutineSpawner
      → File
      → Bytes
      → (Section → Result RoutineSpawner)
      → Result (List RoutineSpawner)
  parse_routines_config routines cfg section_name f =
      by_sections routines f (sections_by_name cfg section_name)
