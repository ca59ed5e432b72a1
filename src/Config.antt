-- ===== src/Config.antt =====
-- wireproxy/config.go: the types of a configuration. Values, sections and files are parsed in the
-- modules below.
pub mod Values
pub mod Routines
pub mod Whole
pub mod Device
pub mod Each
pub mod Expand
pub mod Lists
pub mod Keys
pub mod Interface
pub mod Tunnels
pub mod File
use scramjet_app.Base.{Bytes, List, Option}
use scramjet_app.Base.Int.{ℤ}
use scramjet_app.Platform.{Platform, TcpAddr}

-- `Endpoint` is nil or an address with a port.
pub record PeerConfig (w : Platform) : Type 0 where
  pub public_key : Bytes
  pub pre_shared_key : Bytes
  pub endpoint : Option Bytes
  pub keep_alive : ℤ
  pub allowed_ips : List w.Prefix

pub record DeviceConfig (w : Platform) : Type 0 where
  pub secret_key : Bytes
  pub endpoint : List w.Addr
  pub peers : List (PeerConfig w)
  pub dns : List w.Addr
  pub mtu : ℤ
  pub listen_port : Option ℤ
  pub check_alive : List w.Addr
  pub check_alive_interval : ℤ

pub record UdpProxyTunnelConfig : Type 0 where
  pub bind_address : Bytes
  pub target : Bytes
  pub inactivity_timeout : ℤ

pub record TcpClientTunnelConfig : Type 0 where
  pub bind_address : TcpAddr
  pub target : Bytes

-- `Input` and `Output` are always the process's standard streams.
pub record StdioTunnelConfig : Type 0 where
  pub target : Bytes

pub record TcpServerTunnelConfig : Type 0 where
  pub listen_port : ℤ
  pub target : Bytes

pub record Socks5Config : Type 0 where
  pub bind_address : Bytes
  pub username : Bytes
  pub password : Bytes

pub record HttpConfig : Type 0 where
  pub bind_address : Bytes
  pub username : Bytes
  pub password : Bytes
  pub cert_file : Bytes
  pub key_file : Bytes

pub record ResolveConfig : Type 0 where
  pub resolve_strategy : Bytes

-- The implementations of the interface `RoutineSpawner`.
pub data RoutineSpawner : Type 0 where
  tcp_client : TcpClientTunnelConfig → RoutineSpawner
  stdio : StdioTunnelConfig → RoutineSpawner
  tcp_server : TcpServerTunnelConfig → RoutineSpawner
  socks5 : Socks5Config → RoutineSpawner
  http : HttpConfig → RoutineSpawner
  udp_proxy : UdpProxyTunnelConfig → RoutineSpawner

pub record Configuration (w : Platform) : Type 0 where
  pub device : DeviceConfig w
  pub routines : List RoutineSpawner
  pub resolve : ResolveConfig
