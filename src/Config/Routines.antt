-- ===== src/Config/Routines.antt =====
-- The routines of `ParseConfig`.
use mathlib.Core.List.{append-nil}
use scramjet_app.Base.{
  >>=-eq-ok, Bytes, List, Option, Result, [], ap, bytes, none, ok, ok_inj, some, sym, ◌++◌, ◌↔◌,
  ◌∙◌, ◌≡◌,
}
use scramjet_app.Config.{RoutineSpawner}
use scramjet_app.Config.Each.{Each, nil, append_all_complete, append_all_sound}
use scramjet_app.Config.File.{parse_routines}
use scramjet_app.Config.Tunnels.{
  by_sections, parse_routines_config, parse_tcp_client_tunnel_config, parse_stdio_tunnel_config,
  parse_tcp_server_tunnel_config, parse_socks5_config, parse_http_config,
  parse_udp_proxy_tunnel_config,
}
use scramjet_app.Platform.{Platform}

module _ (w : Platform) where
  open w use {
    File, Section, Key, section, get_key, key_string, sections_by_name, load_sources, get_section,
  }

  -- The sections of a name, none where the file has none.
  abbrev pub sections_or_none : Option (List Section) → List Section
  sections_or_none none = []
  sections_or_none (some sections) = sections

  abbrev pub named : File → Bytes → List Section
  named cfg name = sections_or_none (sections_by_name cfg name)

  from_sections :
      (routines : List RoutineSpawner) (f : Section → Result RoutineSpawner)
      (found : Option (List Section)) {result : List RoutineSpawner}
      → by_sections w routines f found ≡ ok result
      → (new : List RoutineSpawner) × Each f (sections_or_none found) new
        × (result ≡ routines ++ new)
  from_sections routines f none h = ([], nil, sym (ok_inj h) ∙ sym (append-nil routines))
  from_sections routines f (some sections) h = append_all_sound f sections routines _ h

  to_sections :
      (routines : List RoutineSpawner) (f : Section → Result RoutineSpawner)
      (found : Option (List Section)) {new : List RoutineSpawner}
      → Each f (sections_or_none found) new
      → by_sections w routines f found ≡ ok (routines ++ new)
  to_sections routines f none nil = ap ok (sym (append-nil routines))
  to_sections routines f (some sections) each = append_all_complete f routines each

  parse_routines_config_sound :
      (routines : List RoutineSpawner) (cfg : File) (name : Bytes)
      (f : Section → Result RoutineSpawner) {result : List RoutineSpawner}
      → parse_routines_config w routines cfg name f ≡ ok result
      → (new : List RoutineSpawner) × Each f (named cfg name) new × (result ≡ routines ++ new)
  unfolding parse_routines_config
  parse_routines_config_sound routines cfg name f {result} h =
      from_sections routines f (sections_by_name cfg name) h

  parse_routines_config_complete :
      (routines : List RoutineSpawner) (cfg : File) (name : Bytes)
      (f : Section → Result RoutineSpawner) {new : List RoutineSpawner}
      → Each f (named cfg name) new
      → parse_routines_config w routines cfg name f ≡ ok (routines ++ new)
  unfolding parse_routines_config
  parse_routines_config_complete routines cfg name f each =
      to_sections routines f (sections_by_name cfg name) each

  -- The routines of a file, kind by kind: one for each section of the kind, in the file's order.
  pub record Groups (cfg : File) (routines : List RoutineSpawner) : Type 0 where
    pub tcp_clients : List RoutineSpawner
    pub stdios : List RoutineSpawner
    pub tcp_servers : List RoutineSpawner
    pub socks5s : List RoutineSpawner
    pub https : List RoutineSpawner
    pub udp_proxies : List RoutineSpawner
    pub of_tcp_clients :
        Each (parse_tcp_client_tunnel_config w) (named cfg (bytes "TCPClientTunnel")) tcp_clients
    pub of_stdios : Each (parse_stdio_tunnel_config w) (named cfg (bytes "STDIOTunnel")) stdios
    pub of_tcp_servers :
        Each (parse_tcp_server_tunnel_config w) (named cfg (bytes "TCPServerTunnel")) tcp_servers
    pub of_socks5s : Each (parse_socks5_config w) (named cfg (bytes "Socks5")) socks5s
    pub of_https : Each (parse_http_config w) (named cfg (bytes "http")) https
    pub of_udp_proxies :
        Each (parse_udp_proxy_tunnel_config w) (named cfg (bytes "UDPProxyTunnel")) udp_proxies
    pub joined :
        routines
        ≡ ((((([] ++ tcp_clients) ++ stdios) ++ tcp_servers) ++ socks5s) ++ https) ++ udp_proxies

  pub parse_routines-Groups :
      (cfg : File) (routines : List RoutineSpawner)
      → parse_routines w cfg ≡ ok routines
      → Groups cfg routines
  unfolding parse_routines
  parse_routines-Groups cfg routines h0 =
      let (r1, e1, h1) =
        >>=-eq-ok
          (parse_routines_config w [] cfg (bytes "TCPClientTunnel")
            (parse_tcp_client_tunnel_config w))
          _ h0 in
      let (n1, k1, p1) =
        parse_routines_config_sound [] cfg (bytes "TCPClientTunnel")
          (parse_tcp_client_tunnel_config w) e1 in
      let (r2, e2, h2) =
        >>=-eq-ok
          (parse_routines_config w r1 cfg (bytes "STDIOTunnel") (parse_stdio_tunnel_config w)) _
          h1 in
      let (n2, k2, p2) =
        parse_routines_config_sound r1 cfg (bytes "STDIOTunnel") (parse_stdio_tunnel_config w) e2 in
      let (r3, e3, h3) =
        >>=-eq-ok
          (parse_routines_config w r2 cfg (bytes "TCPServerTunnel")
            (parse_tcp_server_tunnel_config w))
          _ h2 in
      let (n3, k3, p3) =
        parse_routines_config_sound r2 cfg (bytes "TCPServerTunnel")
          (parse_tcp_server_tunnel_config w) e3 in
      let (r4, e4, h4) =
        >>=-eq-ok (parse_routines_config w r3 cfg (bytes "Socks5") (parse_socks5_config w)) _ h3 in
      let (n4, k4, p4) =
        parse_routines_config_sound r3 cfg (bytes "Socks5") (parse_socks5_config w) e4 in
      let (r5, e5, h5) =
        >>=-eq-ok (parse_routines_config w r4 cfg (bytes "http") (parse_http_config w)) _ h4 in
      let (n5, k5, p5) =
        parse_routines_config_sound r4 cfg (bytes "http") (parse_http_config w) e5 in
      let (n6, k6, p6) =
        parse_routines_config_sound r5 cfg (bytes "UDPProxyTunnel")
          (parse_udp_proxy_tunnel_config w) h5 in
      record {
        tcp_clients = n1;
        stdios = n2;
        tcp_servers = n3;
        socks5s = n4;
        https = n5;
        udp_proxies = n6;
        of_tcp_clients = k1;
        of_stdios = k2;
        of_tcp_servers = k3;
        of_socks5s = k4;
        of_https = k5;
        of_udp_proxies = k6;
        joined = cc;
      }

  pub Groups-parse_routines :
      (cfg : File) (routines : List RoutineSpawner)
      → Groups cfg routines
      → parse_routines w cfg ≡ ok routines
  unfolding parse_routines
  Groups-parse_routines cfg routines g =
      rw
        (
          parse_routines_config_complete [] cfg (bytes "TCPClientTunnel")
              (parse_tcp_client_tunnel_config w) g.of_tcp_clients,
          parse_routines_config_complete ([] ++ g.tcp_clients) cfg (bytes "STDIOTunnel")
              (parse_stdio_tunnel_config w) g.of_stdios,
          parse_routines_config_complete (([] ++ g.tcp_clients) ++ g.stdios) cfg
              (bytes "TCPServerTunnel") (parse_tcp_server_tunnel_config w) g.of_tcp_servers,
          parse_routines_config_complete ((([] ++ g.tcp_clients) ++ g.stdios) ++ g.tcp_servers) cfg
              (bytes "Socks5") (parse_socks5_config w) g.of_socks5s,
          parse_routines_config_complete
              (((([] ++ g.tcp_clients) ++ g.stdios) ++ g.tcp_servers) ++ g.socks5s) cfg
              (bytes "http") (parse_http_config w) g.of_https,
          parse_routines_config_complete
              ((((([] ++ g.tcp_clients) ++ g.stdios) ++ g.tcp_servers) ++ g.socks5s) ++ g.https) cfg
              (bytes "UDPProxyTunnel") (parse_udp_proxy_tunnel_config w) g.of_udp_proxies,
        )
        (ap ok (sym g.joined))

  -- The routines of `ParseConfig` are returned exactly when every section of every kind parses;
  -- they are then the sections' routines, grouped by kind in the order TCPClientTunnel,
  -- STDIOTunnel, TCPServerTunnel, Socks5, http, UDPProxyTunnel.
  pub parse_routines_iff :
      (cfg : File) (routines : List RoutineSpawner)
      → (parse_routines w cfg ≡ ok routines) ↔ Groups cfg routines
  parse_routines_iff cfg routines =
      (parse_routines-Groups cfg routines, Groups-parse_routines cfg routines)
