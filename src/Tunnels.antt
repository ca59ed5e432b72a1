-- ===== src/Tunnels.antt =====
-- wireproxy/routine.go: the TCP client, STDIO and TCP server tunnels. The two TCP tunnels differ in
-- which side is behind WireGuard: `listen` and `dial` are the system's or the tunnel's.
pub mod Targets
use scramjet_app.Base.{Bytes, List, Option, Result, [], err, none, ok, some, ℕ, ◌∷◌}
use scramjet_app.Base.Int.{ℤ}
use scramjet_app.Accept.{accept_loop}
use scramjet_app.Config.{
  ResolveConfig, TcpClientTunnelConfig, TcpServerTunnelConfig, StdioTunnelConfig,
}
use scramjet_app.Forward.{Tunnel, tcp_tunnel, stdio_tunnel}
use scramjet_app.Platform.{Platform, TcpAddr}
use scramjet_app.Resolve.{AddressPort, parse_address_port, resolve_to_addr_port}

module _ (w : Platform) where
  open w use {Addr}

  -- What one connection meets: the look-up of names at its time, the two shuffles' draws, what
  -- dialing an address gives (the bytes that the other side is going to send, unless it fails), and
  -- the bytes that the connection is going to send.
  pub record Incoming : Type 0 where
    pub lookup : Bytes → Result (List Bytes)
    pub draw4 : ℕ → ℕ
    pub draw6 : ℕ → ℕ
    pub dial_tcp : Addr × ℕ → Option Bytes
    pub input : Bytes

  -- How the forwarding of a connection begins. On the two errors it returns, and nothing is closed.
  pub data Outcome : Type 0 where
    unresolved : Bytes → Outcome
    undialed : Addr × ℕ → Outcome
    forwards : Addr × ℕ → Tunnel → Outcome

  abbrev pub dialed : (Bytes → Bytes → Tunnel) → Incoming → Addr × ℕ → Option Bytes → Outcome
  dialed make i target none = undialed target
  dialed make i target (some sconn_input) = forwards target (make i.input sconn_input)

  abbrev pub resolved : (Bytes → Bytes → Tunnel) → Incoming → Result (Addr × ℕ) → Outcome
  resolved make i (err e) = unresolved e
  resolved make i (ok target) = dialed make i target (i.dial_tcp target)

  module _ (resolve : ResolveConfig) where
    abbrev pub target_of : Incoming → AddressPort → Result (Addr × ℕ)
    target_of i raddr = resolve_to_addr_port w resolve i.lookup i.draw4 i.draw6 raddr

    -- `tcpClientForward`, where `DialTCP` is the tunnel's
    unfoldable pub tcp_client_forward : AddressPort → Incoming → Outcome
    tcp_client_forward raddr i = resolved tcp_tunnel i (target_of i raddr)

    -- `STDIOTcpForward`, where the connection is the pair of standard streams
    unfoldable pub stdio_tcp_forward : AddressPort → Incoming → Outcome
    stdio_tcp_forward raddr i = resolved stdio_tunnel i (target_of i raddr)

    -- `tcpServerForward`, where `DialTCP` is the system's
    unfoldable pub tcp_server_forward : AddressPort → Incoming → Outcome
    tcp_server_forward raddr i = resolved tcp_tunnel i (target_of i raddr)

    -- What a tunnel does: `log.Fatal`, which ends the program, or the handling of a connection.
    pub data TunnelEvent : Type 0 where
      fatal : Bytes → TunnelEvent
      handled : Incoming → Outcome → TunnelEvent

    abbrev pub handles : (Incoming → Outcome) → Incoming → TunnelEvent
    handles forward i = handled i (forward i)

    abbrev pub listening :
        (Incoming → Outcome) → List (Result Incoming) → Result (Unit {0}) → List TunnelEvent
    listening forward accepts (err e) = fatal e ∷ []
    listening forward accepts (ok tt) = accept_loop fatal (handles forward) accepts

    abbrev pub client_from :
        TcpClientTunnelConfig
        → (TcpAddr → Result (Unit {0}))
        → List (Result Incoming)
        → Result AddressPort
        → List TunnelEvent
    client_from conf listen accepts (err e) = fatal e ∷ []
    client_from conf listen accepts (ok raddr) =
        listening (tcp_client_forward raddr) accepts (listen conf.bind_address)

    -- `TCPClientTunnelConfig.SpawnRoutine`
    unfoldable pub spawn_tcp_client_tunnel :
        TcpClientTunnelConfig
        → (TcpAddr → Result (Unit {0}))
        → List (Result Incoming)
        → List TunnelEvent
    unfolding tcp_client_forward
    spawn_tcp_client_tunnel conf listen accepts =
        client_from conf listen accepts (parse_address_port conf.target)

    abbrev pub stdio_from : Incoming → Result AddressPort → List TunnelEvent
    stdio_from i (err e) = fatal e ∷ []
    stdio_from i (ok raddr) = handles (stdio_tcp_forward raddr) i ∷ []

    -- `STDIOTunnelConfig.SpawnRoutine`
    unfoldable pub spawn_stdio_tunnel : StdioTunnelConfig → Incoming → List TunnelEvent
    unfolding stdio_tcp_forward
    spawn_stdio_tunnel conf i = stdio_from i (parse_address_port conf.target)

    abbrev pub server_from :
        TcpServerTunnelConfig
        → (ℤ → Result (Unit {0}))
        → List (Result Incoming)
        → Result AddressPort
        → List TunnelEvent
    server_from conf listen accepts (err e) = fatal e ∷ []
    server_from conf listen accepts (ok raddr) =
        listening (tcp_server_forward raddr) accepts (listen conf.listen_port)

    -- `TCPServerTunnelConfig.SpawnRoutine`, which listens on a port of the tunnel
    unfoldable pub spawn_tcp_server_tunnel :
        TcpServerTunnelConfig → (ℤ → Result (Unit {0})) → List (Result Incoming) → List TunnelEvent
    unfolding tcp_server_forward
    spawn_tcp_server_tunnel conf listen accepts =
        server_from conf listen accepts (parse_address_port conf.target)
