-- ===== src/Tunnels/Targets.antt =====
-- Where the tunnels forward their connections to.
use mathlib.Core.Path.{subst}
use scramjet_app.Go.Net.Laws.{NoBrackets}
use scramjet_app.Go.Net.{join_host_port}
use scramjet_app.Go.Strconv.{itoa_ℕ}
use scramjet_app.Base.{
  >>=-eq-ok, All, Bool, Bytes, List, Option, Result, [], any, ap, err, false, none, ok, ok_inj,
  refl, some, true, ℕ, ◌<◌, ◌∙◌, ◌∷◌, ◌≡◌,
}
use scramjet_app.Accept.{accepted, is_err, accept_loop}
use scramjet_app.Config.{
  ResolveConfig, TcpClientTunnelConfig, TcpServerTunnelConfig, StdioTunnelConfig,
}
use scramjet_app.Forward.{Tunnel, tcp_tunnel, stdio_tunnel}
use scramjet_app.Platform.{Platform, TcpAddr}
use scramjet_app.Resolve.{AddressPort, resolve_to_addr_port, resolve_addr, parse_address_port}
use scramjet_app.Resolve.Laws.{From, parse_address_port-join_host_port}
use scramjet_app.Resolve.Strategy.{resolve_addr-From}
use scramjet_app.Tunnels.{
  Incoming, Outcome, unresolved, undialed, forwards, dialed, resolved, target_of, TunnelEvent,
  fatal, handled, spawn_tcp_client_tunnel, handles, spawn_tcp_server_tunnel, tcp_client_forward,
  tcp_server_forward, ℤ, spawn_stdio_tunnel, stdio_tcp_forward,
}

module _ (w : Platform) (resolve : ResolveConfig) where
  open w use {Addr}

  -- An address that the look-up of the host returned, with the port of the endpoint.
  pub record Goes (raddr : AddressPort) (i : Incoming w) (target : Addr × ℕ) : Type 0 where
    pub port : target.1 ≡ raddr.port
    pub addrs : List Bytes
    pub looked_up : i.lookup raddr.address ≡ ok addrs
    pub found : From w addrs target.0

  -- What the forwarding of a connection comes to.
  abbrev pub IsTo : (Bytes → Bytes → Tunnel) → AddressPort → Incoming w → Outcome w → Type 0
  IsTo make raddr i (unresolved e) = target_of w resolve i raddr ≡ err e
  IsTo make raddr i (undialed target) = Goes raddr i target × (i.dial_tcp target ≡ none)
  IsTo make raddr i (forwards target tunnel) =
      Goes raddr i target
      × ((sconn_input : Bytes) × (i.dial_tcp target ≡ some sconn_input)
          × (tunnel ≡ make i.input sconn_input))

  target_of-Goes :
      (raddr : AddressPort) (i : Incoming w) {target : Addr × ℕ}
      → target_of w resolve i raddr ≡ ok target
      → Goes raddr i target
  unfolding resolve_to_addr_port
  target_of-Goes raddr i h =
      let (addr, e, h1) =
        >>=-eq-ok (resolve_addr w resolve i.lookup i.draw4 i.draw6 raddr.address) _ h in
      let (addrs, looked, from) =
        resolve_addr-From w resolve i.lookup i.draw4 i.draw6 raddr.address e in
      subst (Goes raddr i) (ok_inj h1)
        (record { port = refl; addrs = addrs; looked_up = looked; found = from })

  dialed-IsTo :
      (make : Bytes → Bytes → Tunnel) (raddr : AddressPort) (i : Incoming w) (target : Addr × ℕ)
      (o : Option Bytes)
      → i.dial_tcp target ≡ o
      → Goes raddr i target
      → IsTo make raddr i (dialed w make i target o)
  dialed-IsTo make raddr i target none e g = (g, e)
  dialed-IsTo make raddr i target (some sconn_input) e g = (g, (sconn_input, e, refl))

  resolved-IsTo :
      (make : Bytes → Bytes → Tunnel) (raddr : AddressPort) (i : Incoming w) (r : Result (Addr × ℕ))
      → target_of w resolve i raddr ≡ r
      → IsTo make raddr i (resolved w make i r)
  resolved-IsTo make raddr i (err e) h = h
  resolved-IsTo make raddr i (ok target) h =
      dialed-IsTo make raddr i target (i.dial_tcp target) refl (target_of-Goes raddr i h)

  abbrev pub is_fatal : TunnelEvent w resolve → Bool
  is_fatal (fatal e) = true
  is_fatal (handled i o) = false

  -- The connections that are handled.
  abbrev pub handled_connections : List (TunnelEvent w resolve) → List (Incoming w)
  handled_connections [] = []
  handled_connections (fatal e ∷ events) = handled_connections events
  handled_connections (handled i o ∷ events) = i ∷ handled_connections events

  -- The events of a tunnel to an endpoint, given what its calls of `Accept` return: every connection
  -- before the first error is handled, in order, and goes to the endpoint; only the error is fatal.
  pub record Serves (raddr : AddressPort) (accepts : List (Result (Incoming w)))
      (events : List (TunnelEvent w resolve)) : Type 0 where
    pub connections : handled_connections events ≡ accepted accepts
    pub ends : any is_fatal events ≡ any is_err accepts
    pub each :
        All
          (λ e. elim e as (λ _. Type 0) [
            | fatal m ↦ Unit
            | handled i o ↦ IsTo tcp_tunnel raddr i o
          ])
          events

  accept_loop-Serves :
      (raddr : AddressPort) (forward : Incoming w → Outcome w)
      → ((i : Incoming w) → IsTo tcp_tunnel raddr i (forward i))
      → (accepts : List (Result (Incoming w)))
      → Serves raddr accepts (accept_loop fatal (handles w resolve forward) accepts)
  unfolding accept_loop
  accept_loop-Serves raddr forward good [] = record { connections = refl; ends = refl; each = tt }
  accept_loop-Serves raddr forward good (err e ∷ accepts) = record {
    connections = refl;
    ends = refl;
    each = (tt, tt);
  }
  accept_loop-Serves raddr forward good (ok i ∷ accepts) =
      let rest = accept_loop-Serves raddr forward good accepts in
      record {
        connections = ap (λ l. i ∷ l) rest.connections;
        ends = rest.ends;
        each = (good i, rest.each);
      }

  client-Serves :
      (raddr : AddressPort) (client : TcpClientTunnelConfig) (listen : TcpAddr → Result (Unit {0}))
      (accepts : List (Result (Incoming w)))
      → parse_address_port client.target ≡ ok raddr
      → listen client.bind_address ≡ ok tt
      → Serves raddr accepts (spawn_tcp_client_tunnel w resolve client listen accepts)
  unfolding spawn_tcp_client_tunnel tcp_client_forward
  client-Serves raddr client listen accepts parsed listens =
      let good =
        λ (i : Incoming w). resolved-IsTo tcp_tunnel raddr i (target_of w resolve i raddr) refl in
      rw (parsed, listens)
        (accept_loop-Serves raddr (tcp_client_forward w resolve raddr) good accepts)

  server-Serves :
      (raddr : AddressPort) (server : TcpServerTunnelConfig) (listen : ℤ → Result (Unit {0}))
      (accepts : List (Result (Incoming w)))
      → parse_address_port server.target ≡ ok raddr
      → listen server.listen_port ≡ ok tt
      → Serves raddr accepts (spawn_tcp_server_tunnel w resolve server listen accepts)
  unfolding spawn_tcp_server_tunnel tcp_server_forward
  server-Serves raddr server listen accepts parsed listens =
      let good =
        λ (i : Incoming w). resolved-IsTo tcp_tunnel raddr i (target_of w resolve i raddr) refl in
      rw (parsed, listens)
        (accept_loop-Serves raddr (tcp_server_forward w resolve raddr) good accepts)

  -- The standard streams are forwarded once.
  abbrev pub Streams : AddressPort → Incoming w → List (TunnelEvent w resolve) → Type 0
  Streams raddr i events =
      (o : Outcome w) × (events ≡ handled i o ∷ []) × IsTo stdio_tunnel raddr i o

  stdio-Streams :
      (raddr : AddressPort) (conf : StdioTunnelConfig) (i : Incoming w)
      → parse_address_port conf.target ≡ ok raddr
      → Streams raddr i (spawn_stdio_tunnel w resolve conf i)
  unfolding spawn_stdio_tunnel stdio_tcp_forward
  stdio-Streams raddr conf i parsed =
      (_, rw parsed refl, resolved-IsTo stdio_tunnel raddr i (target_of w resolve i raddr) refl)

  -- Where its target is a host and a port below 65536, each TCP tunnel that can listen handles every
  -- connection that it accepts before an `Accept` fails, and ends the program only then; an STDIO
  -- tunnel handles the standard streams. What is handled is forwarded to one of the addresses that the
  -- host resolves to, at the port; it is not when the host does not resolve or the address cannot be
  -- dialed.
  pub spawn_tunnels-Serves :
      (client : TcpClientTunnelConfig) (server : TcpServerTunnelConfig)
      (streams : StdioTunnelConfig) (listen_here : TcpAddr → Result (Unit {0}))
      (listen_there : ℤ → Result (Unit {0})) (host : Bytes) (port : ℕ)
      (accepts : List (Result (Incoming w))) (i : Incoming w)
      → NoBrackets host
      → port < 65536
      → client.target ≡ join_host_port host (itoa_ℕ port)
      → server.target ≡ join_host_port host (itoa_ℕ port)
      → streams.target ≡ join_host_port host (itoa_ℕ port)
      → listen_here client.bind_address ≡ ok tt
      → listen_there server.listen_port ≡ ok tt
      → Serves
          (record { address = host; port = port })
          accepts
          (spawn_tcp_client_tunnel w resolve client listen_here accepts)
        × Serves
            (record { address = host; port = port })
            accepts
            (spawn_tcp_server_tunnel w resolve server listen_there accepts)
        × Streams
            (record { address = host; port = port })
            i
            (spawn_stdio_tunnel w resolve streams i)
  spawn_tunnels-Serves client server streams here there host port accepts i nb lt ct st io hl tl =
      let raddr : AddressPort = record { address = host; port = port } in
      let parsed = parse_address_port-join_host_port host port nb lt in
      (
        client-Serves raddr client here accepts (ap parse_address_port ct ∙ parsed) hl,
        server-Serves raddr server there accepts (ap parse_address_port st ∙ parsed) tl,
        stdio-Streams raddr streams i (ap parse_address_port io ∙ parsed),
      )
