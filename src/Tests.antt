-- ===== src/Tests.antt =====
-- Runs of the definitions on inputs that can be followed in the sources, and the theorems at
-- concrete data.
mod Sample
mod Config
mod Wireguard
mod Http
mod Udp
mod Health
mod Main
mod Forward
mod Tunnels
