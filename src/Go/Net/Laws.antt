-- ===== src/Go/Net/Laws.antt =====
-- `split_host_port` reads back what `join_host_port` writes.
use scramjet_app.Go.Strings.Laws.{
  cut_last-append, cut_last-prepend, cut-append, has_byte-Lacks, no_byte-append, cut_last-has_byte,
  has_byte-append,
}
use scramjet_app.Base.{
  Bool-cases, Bytes, Lacks, Result, [], false, inl, inr, ok, refl, true, ◌++◌, ◌∷◌, ◌≡◌,
}
use scramjet_app.Go.Strings.{has_byte}
use scramjet_app.Go.Net.{
  split_host_port, join_host_port, split_at_colon, split_from, addr_error, missing_port,
}

-- A text with no bracket in it.
abbrev pub NoBrackets : Bytes → Type 0
NoBrackets s = Lacks b'[' s × Lacks b']' s

at_colon_ok :
    (hostport host port : Bytes)
    → has_byte b':' host ≡ false
    → has_byte b'[' hostport ≡ false
    → has_byte b']' hostport ≡ false
    → split_at_colon hostport host port ≡ ok (host, port)
at_colon_ok hostport host port h k l = rw (h, k, l)

-- A text that does not begin with a bracket is split at its last colon.
from_plain :
    (rest host port : Bytes) {r : Result (Bytes × Bytes)}
    → NoBrackets host
    → split_at_colon (host ++ b':' ∷ rest) host port ≡ r
    → split_from (host ++ b':' ∷ rest) (host, port) ≡ r
from_plain rest [] port n e = e
from_plain rest (c ∷ h) port n e = rw n.0.0 e

module _ (host port : Bytes) (hh : NoBrackets host) (hp : NoBrackets port)
    (colon : Lacks b':' port) where
  -- A host with a colon is written in brackets.
  split-join_bracketed : split_host_port (b'[' ∷ host ++ (b']' ∷ b':' ∷ port)) ≡ ok (host, port)
  unfolding split_host_port
  split-join_bracketed =
      let last =
        cut_last-prepend b':' (b'[' ∷ host) (b']' ∷ b':' ∷ port)
          (cut_last-append b':' (b']' ∷ []) port colon) in
      rw (
        last,
        split_host_port,
        cut-append b']' host (b':' ∷ port) hh.1,
        (has_byte-Lacks b':' port).1 colon,
        no_byte-append b'[' host (b']' ∷ b':' ∷ port) hh.0 (refl, (refl, hp.0)),
        (has_byte-Lacks b']' port).1 hp.1,
      )

  split-join_plain :
      has_byte b':' host ≡ false → split_host_port (host ++ b':' ∷ port) ≡ ok (host, port)
  unfolding split_host_port
  split-join_plain no_colon =
      rw (cut_last-append b':' host port colon, split_host_port)
        (from_plain port host port hh (
          at_colon_ok _ host port no_colon
            (no_byte-append b'[' host (b':' ∷ port) hh.0 (refl, hp.0))
            (no_byte-append b']' host (b':' ∷ port) hh.1 (refl, hp.1))))

  pub split_host_port-join_host_port : split_host_port (join_host_port host port) ≡ ok (host, port)
  unfolding join_host_port
  split_host_port-join_host_port = elim (Bool-cases (has_byte b':' host)) [
    | inl colons ↦ rw colons split-join_bracketed
    | inr none_there ↦ rw none_there (split-join_plain none_there)
  ]

-- An IPv6 address in brackets with nothing behind it has no port.
pub split_bracketed_alone :
    (host : Bytes)
    → NoBrackets host
    → has_byte b':' host ≡ true
    → split_host_port (b'[' ∷ host ++ b']' ∷ [])
      ≡ addr_error (b'[' ∷ host ++ b']' ∷ []) missing_port
unfolding split_host_port
split_bracketed_alone host n colon =
    let ((a, b), e) =
      cut_last-has_byte b':' (b'[' ∷ host ++ b']' ∷ [])
        (rw (has_byte-append b':' host (b']' ∷ []), colon)) in
    rw (e, split_host_port, cut-append b']' host [] n.1)
