-- ===== src/Wireguard.antt =====
-- wireproxy/wireguard.go: `CreateIPCRequest` and `StartWireguard`.
pub mod Request
pub mod Reading
pub mod Start
use scramjet_app.Base.{Bytes, List, Option, [], bytes, none, some, suc, zero, ℕ, ◌++◌, ◌∷◌}
use scramjet_app.Base.Int.{ℤ}
use scramjet_app.Config.{DeviceConfig, PeerConfig}
use scramjet_app.Go.Fmt.{sprintf}
use scramjet_app.Go.Strconv.{itoa}
use scramjet_app.Platform.{Platform}

pub record DeviceSetting (w : Platform) : Type 0 where
  pub ipc_request : Bytes
  pub dns : List w.Addr
  pub device_addr : List w.Addr
  pub mtu : ℤ

abbrev pub line_end : ℕ
line_end = 10

-- A line of a raw string literal, indented by `n` tabs.
abbrev pub tabs : ℕ → Bytes → Bytes
tabs zero s = s
tabs (suc n) s = 9 ∷ tabs n s

-- The two raw string literals, as they stand in the source.
abbrev pub peer_literal : Bytes
peer_literal =
    line_end ∷ tabs 4 (bytes "public_key=%s")
    ++ (line_end ∷ tabs 4 (bytes "persistent_keepalive_interval=%d")
        ++ (line_end ∷ tabs 4 (bytes "preshared_key=%s") ++ (line_end ∷ tabs 3 [])))

abbrev pub any_ip_literal : Bytes
any_ip_literal =
    line_end ∷ tabs 4 (bytes "allowed_ip=0.0.0.0/0")
    ++ (line_end ∷ tabs 4 (bytes "allowed_ip=::0/0") ++ (line_end ∷ tabs 3 []))

-- The library heredoc is a parameter: `doc` is `heredoc.Doc`.
module _ (w : Platform) (doc : Bytes → Bytes) where
  open w use {prefix_string}

  abbrev pub listen_port_line : Option ℤ → Bytes
  listen_port_line none = []
  listen_port_line (some port) = sprintf (bytes "listen_port=%d" ++ line_end ∷ []) (itoa port ∷ [])

  abbrev pub endpoint_line : Option Bytes → Bytes
  endpoint_line none = []
  endpoint_line (some endpoint) = sprintf (bytes "endpoint=%s" ++ line_end ∷ []) (endpoint ∷ [])

  unfoldable pub allowed_ip_lines : List w.Prefix → Bytes
  allowed_ip_lines [] = []
  allowed_ip_lines (ip ∷ ips) =
      sprintf (bytes "allowed_ip=%s" ++ line_end ∷ []) (prefix_string ip ∷ [])
      ++ allowed_ip_lines ips

  abbrev pub allowed_ips_part : List w.Prefix → Bytes
  allowed_ips_part [] = doc any_ip_literal
  allowed_ips_part (ip ∷ ips) = allowed_ip_lines (ip ∷ ips)

  -- What one round of the loop over the peers appends to the request.
  unfoldable pub peer_part : PeerConfig w → Bytes
  unfolding allowed_ip_lines
  peer_part peer =
      sprintf (doc peer_literal) (peer.public_key ∷ itoa peer.keep_alive ∷ peer.pre_shared_key ∷ [])
      ++ (endpoint_line peer.endpoint ++ allowed_ips_part peer.allowed_ips)

  unfoldable pub peer_parts : List (PeerConfig w) → Bytes
  peer_parts [] = []
  peer_parts (peer ∷ peers) = peer_part peer ++ peer_parts peers

  -- `CreateIPCRequest`; it has no error path.
  unfoldable pub create_ipc_request : DeviceConfig w → DeviceSetting w
  unfolding peer_part peer_parts
  create_ipc_request conf = record {
    ipc_request =
        sprintf (bytes "private_key=%s" ++ line_end ∷ []) (conf.secret_key ∷ [])
        ++ (listen_port_line conf.listen_port ++ peer_parts conf.peers);
    dns = conf.dns;
    device_addr = conf.endpoint;
    mtu = conf.mtu;
  }
