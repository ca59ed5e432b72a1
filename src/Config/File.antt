-- ===== src/Config/File.antt =====
-- wireproxy/config.go: `ParseConfig`.
use scramjet_app.Base.{Bytes, List, Option, Result, [], bytes, none, ok, some, ◌>>=◌}
use scramjet_app.Base.Int.{pos}
use scramjet_app.Config.{DeviceConfig, RoutineSpawner, ResolveConfig, Configuration}
use scramjet_app.Config.Interface.{parse_interface, parse_peers}
use scramjet_app.Config.Tunnels.{
  parse_tcp_client_tunnel_config, parse_stdio_tunnel_config, parse_tcp_server_tunnel_config,
  parse_socks5_config, parse_http_config, parse_resolve_config, parse_udp_proxy_tunnel_config,
  parse_routines_config,
}
use scramjet_app.Platform.{Platform}

module _ (w : Platform) where
  open w use {File, Section, Key, load_sources, section, get_section, get_key, key_string}

  abbrev pub default_device : DeviceConfig w
  default_device = record {
    secret_key = [];
    endpoint = [];
    peers = [];
    dns = [];
    mtu = pos 1420;
    listen_port = none;
    check_alive = [];
    check_alive_interval = pos 0;
  }

  -- The file that holds [Interface] and [Peer]: the one that `WGConfig` names, or this one.
  unfoldable pub wg_file : File → Result File
  wg_file cfg = elim (get_key (section cfg []) (bytes "WGConfig")) [
    | none ↦ ok cfg
    | some wg_conf ↦ load_sources (key_string wg_conf)
  ]

  -- The routines of `ParseConfig`, in the order of its calls. [Resolve] cannot fail, so its place
  -- before the last call does not matter.
  unfoldable pub parse_routines : File → Result (List RoutineSpawner)
  parse_routines cfg = do
    r1 ← parse_routines_config w [] cfg (bytes "TCPClientTunnel") (parse_tcp_client_tunnel_config w)
    r2 ← parse_routines_config w r1 cfg (bytes "STDIOTunnel") (parse_stdio_tunnel_config w)
    r3 ← parse_routines_config w r2 cfg (bytes "TCPServerTunnel") (parse_tcp_server_tunnel_config w)
    r4 ← parse_routines_config w r3 cfg (bytes "Socks5") (parse_socks5_config w)
    r5 ← parse_routines_config w r4 cfg (bytes "http") (parse_http_config w)
    parse_routines_config w r5 cfg (bytes "UDPProxyTunnel") (parse_udp_proxy_tunnel_config w)

  abbrev pub auto : Bytes
  auto = bytes "auto"

  unfoldable pub resolve_section : Option Section → ResolveConfig
  resolve_section none = record { resolve_strategy = auto }
  resolve_section (some s) = parse_resolve_config w s

  -- `ParseConfig`
  unfoldable pub parse_config : Bytes → Result (Configuration w)
  unfolding wg_file parse_routines resolve_section
  parse_config path = do
    cfg ← load_sources path
    wg_cfg ← wg_file cfg
    device ← parse_interface w wg_cfg default_device
    peers ← parse_peers w wg_cfg device.peers
    routines ← parse_routines cfg
    ok record {
      device = record device { peers = peers };
      routines = routines;
      resolve = resolve_section (get_section cfg (bytes "Resolve"));
    }
