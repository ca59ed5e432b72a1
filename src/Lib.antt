-- ===== src/Lib.antt =====
-- A verification library of wireproxy (wireproxy/), the program that gives the web application of
-- this repository its way into a WireGuard network: it reads a configuration, starts a WireGuard
-- device on a network stack in user space, and serves proxies and tunnels over it.
--
-- The parts of the program, and the files that model them:
--
--   wireproxy/config.go          Config.antt      the types; `error` is `err`, nil is `ok` or `none`
--                                Config/Values    parseString … resolveIPPAndPort
--                                Config/Interface ParseInterface, ParsePeers
--                                Config/Tunnels   parseTCPClientTunnelConfig … parseRoutinesConfig
--                                Config/File      ParseConfig
--   wireproxy/wireguard.go       Wireguard.antt   CreateIPCRequest
--                                Wireguard/Start  StartWireguard, VirtualTun
--   wireproxy/routine.go         Resolve.antt     LookupAddr … resolveToAddrPort
--                                Health.antt      ServeHTTP, the check of a reply, StartPingIPs
--                                Health/Rounds    pingIPs with its goroutines and sockets
--                                Forward.antt     connForward: the two goroutines of a tunnel
--                                Tunnels.antt     the TCP client, TCP server and STDIO tunnels
--                                Socks5.antt      Socks5Config.SpawnRoutine
--                                Http.antt        CredentialValidator
--                                Http/Listen      HTTPConfig.SpawnRoutine
--   wireproxy/http.go, util.go   Http.antt        authenticate, handleConn, handle, serve,
--                                                 responseWith
--                                Http/Listen      listen, ListenAndServe
--   wireproxy/udp_proxy.go       Udp.antt         UDPProxyTunnelConfig.SpawnRoutine and
--                                                 handleRemoteToLocal, as a step relation
--                                Udp/Table        what they promise: a table by source address
--   wireproxy/cmd/wireproxy/main.go
--                                Main.antt        main, lockNetwork, extractPort, configFilePath
--                                Main/Lock        lock
--
-- The loop that accepts connections, which the two TCP tunnels and the HTTP proxy share, is
-- Accept.antt. Main/Runs lists the ways that a run of `main` can go, for the proofs about it.
--
-- `ParseConfig` gives `StartWireguard` a configuration, whose device becomes the text of an IPC
-- request; the routines of the configuration then run over the network of the device. Startup.antt
-- puts the three steps together.
--
-- A string is the list of its bytes (Base.Bytes). The functions of Go's standard library that the
-- program's behaviour rests on, and whose documentation fixes them, stand in Go: strings, strconv,
-- net.SplitHostPort, base64 and hex, durations, and the Fisher-Yates loop of math/rand. An `int` is
-- an integer of Base.Int; `strconv.Atoi` refuses what 64 bits do not hold; durations wrap around at
-- 2 ^ 64 and an uint16 at 2 ^ 16. Everything else that is outside the repository is a field of
-- Platform.Platform (the INI library, net/netip, the environment, the resolver of the system) or a
-- parameter of the section that uses it (heredoc.Doc, wireguard-go, the resolvers, the draws of the
-- random source, crypto/tls, go-socks5, the network of a proxy's connection). `io.Copy` is the
-- sequence of reads and writes that its documentation tells of; how many bytes the reader of an HTTP
-- request has read ahead of the tunnel is a parameter of the tunnel. No loop runs on fuel: each goes
-- through a list, that of the servers through what their calls of `Accept` have returned; goroutines
-- are step relations, in which any of them may take the next step.
--
-- Not modelled: texts that are only logged; the server of go-socks5; the texts that `main` prints
-- and its wait for a signal; what unveil and landlock do, beyond the calls of them (of pledge,
-- Main/Promises says what each action needs); the contexts of look-ups, which are never cancelled.
pub mod Base
pub mod Go
pub mod Platform
pub mod Config
pub mod Wireguard
pub mod Resolve
pub mod Http
pub mod Udp
pub mod Health
pub mod Startup
pub mod Forward
pub mod Accept
pub mod Tunnels
pub mod Socks5
pub mod Main
mod Tests
