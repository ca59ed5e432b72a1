-- ===== src/Http/Target.antt =====
-- The address that a request is forwarded to.
use scramjet_app.Base.{
  Bool-cases, Bytes, Lacks, [], arith, false, inl, inr, ok, refl, true, ℕ, ◌++◌, ◌∷◌, ◌≡◌,
}
use scramjet_app.Go.Net.{split_host_port, join_host_port, addr_error, missing_port}
use scramjet_app.Go.Net.Laws.{NoBrackets, split_host_port-join_host_port, split_bracketed_alone}
use scramjet_app.Go.Strings.{contains, has_byte}
use scramjet_app.Go.Strings.Laws.{has_byte-Lacks, has_byte-append}
use scramjet_app.Http.{target_addr}

contains-has_byte : (c : ℕ) (s : Bytes) → contains s (c ∷ []) ≡ has_byte c s
unfolding contains has_byte
contains-has_byte c [] = refl
contains-has_byte c (x ∷ s) = ground (arith, contains-has_byte c s)

target_addr_bare :
    (port host : Bytes)
    → has_byte b':' host ≡ false
    → target_addr port host ≡ join_host_port host port
unfolding target_addr
target_addr_bare port host h = rw (contains-has_byte b':' host, h)

target_addr_full : (port host : Bytes) → has_byte b':' host ≡ true → target_addr port host ≡ host
unfolding target_addr
target_addr_full port host h = rw (contains-has_byte b':' host, h)

has_byte-join : (host port : Bytes) → has_byte b':' (join_host_port host port) ≡ true
unfolding join_host_port has_byte
has_byte-join host port = elim (Bool-cases (has_byte b':' host)) [
  | inl colons ↦ rw (colons, has_byte-append b':' host (b']' ∷ b':' ∷ port), colons)
  | inr plain ↦ rw (plain, has_byte-append b':' host (b':' ∷ port), plain)
]

-- A host with no colon and no bracket, and so with no port, is dialed at the default port; a host that
-- comes with a port, which may be an IPv6 address in brackets, is dialed at its own.
pub split_host_port-target_addr :
    (default_port host port : Bytes)
    → NoBrackets host
    → NoBrackets port
    → NoBrackets default_port
    → Lacks b':' port
    → Lacks b':' default_port
    → (Lacks b':' host → split_host_port (target_addr default_port host) ≡ ok (host, default_port))
      × (split_host_port (target_addr default_port (join_host_port host port)) ≡ ok (host, port))
split_host_port-target_addr default_port host port nh np nd cp cd = (
  λ bare.
      rw (target_addr_bare default_port host ((has_byte-Lacks b':' host).1 bare))
        (split_host_port-join_host_port host default_port nh nd cd),
  rw (target_addr_full default_port (join_host_port host port) (has_byte-join host port))
      (split_host_port-join_host_port host port nh np cp),
)

has_colon :
    (host : Bytes) → has_byte b':' host ≡ true → has_byte b':' (b'[' ∷ host ++ b']' ∷ []) ≡ true
unfolding has_byte
has_colon host h = rw (has_byte-append b':' host (b']' ∷ []), h)

-- An IPv6 address in brackets that comes with no port is dialed as it stands, with no default port,
-- and such an address cannot be split: it has no port.
pub target_addr_ipv6 :
    (default_port host : Bytes)
    → NoBrackets host
    → has_byte b':' host ≡ true
    → split_host_port (target_addr default_port (b'[' ∷ host ++ b']' ∷ []))
      ≡ addr_error (b'[' ∷ host ++ b']' ∷ []) missing_port
target_addr_ipv6 default_port host n colon =
    rw (target_addr_full default_port (b'[' ∷ host ++ b']' ∷ []) (has_colon host colon))
      (split_bracketed_alone host n colon)
