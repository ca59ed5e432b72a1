-- ===== src/Main/Rules.antt =====
-- What the network rules allow.
use mathlib.Core.Path.{subst}
use mathlib.Core.List.{append_assoc}
use scramjet_app.Base.{
  >>=-eq-ok, All, All-mono, Bool, Bytes, List, Option, [], all, any, ap, arith, false, none, ok,
  ok_inj, refl, some, sym, true, ℕ, ◌%◌, ◌++◌, ◌<◌, ◌∙◌, ◌∷◌, ◌≡◌,
}
use scramjet_app.Config.{RoutineSpawner, tcp_client, stdio, tcp_server, socks5, http, udp_proxy}
use scramjet_app.Go.Net.{join_host_port}
use scramjet_app.Go.Net.Laws.{NoBrackets, split_host_port-join_host_port}
use scramjet_app.Go.Strconv.{itoa_ℕ}
use scramjet_app.Go.Strconv.Laws.{itoa_ℕ-Lacks, atoi-itoa_ℕ}
use scramjet_app.Main.{
  Rule, bind_tcp, connect_tcp, section_rules, all_section_rules, lock_network, extract_port,
  info_rules,
}

abbrev pub HasRule : Rule → List Rule → Type 0
HasRule rule rules = (before after : List Rule) × (rules ≡ before ++ rule ∷ after)

-- Where the address is a host and a port below 65536, the port may be bound.
abbrev pub Binds : List Rule → Bytes → Type 0
Binds rules address =
    (host : Bytes) (port : ℕ)
    → NoBrackets host
    → port < 65536
    → address ≡ join_host_port host (itoa_ℕ port)
    → HasRule (bind_tcp port) rules

-- What the server of a section needs: to bind the port that it listens on.
abbrev pub Serves : List Rule → RoutineSpawner → Type 0
Serves rules (http c) = Binds rules c.bind_address
Serves rules (socks5 c) = Binds rules c.bind_address
Serves rules _ = Unit

extract_port-join_host_port :
    (host : Bytes) (port : ℕ)
    → NoBrackets host
    → port < 65536
    → extract_port (join_host_port host (itoa_ℕ port)) ≡ ok port
unfolding extract_port
extract_port-join_host_port host port h small =
    let fits : port % 65536 ≡ port = omega arith in
    rw (
      split_host_port-join_host_port host (itoa_ℕ port) h
          (itoa_ℕ-Lacks b'[' port refl, itoa_ℕ-Lacks b']' port refl) (itoa_ℕ-Lacks b':' port refl),
      atoi-itoa_ℕ port (omega arith),
      fits,
    )

abbrev pub is_bind : Rule → Bool
is_bind (bind_tcp port) = true
is_bind (connect_tcp port) = false

abbrev pub is_tcp_client : RoutineSpawner → Bool
is_tcp_client (tcp_client c) = true
is_tcp_client _ = false

clients_rules :
    (sections : List RoutineSpawner)
    → all is_tcp_client sections ≡ true
    → (rules : List Rule) × (all_section_rules sections ≡ ok rules) × (any is_bind rules ≡ false)
unfolding all_section_rules section_rules
clients_rules [] h = ([], refl, refl)
clients_rules (tcp_client c ∷ sections) h =
    let (rules, e, none_bind) = clients_rules sections h in
    (connect_tcp (c.bind_address.port % 65536) ∷ rules, rw e refl, none_bind)
clients_rules (stdio c ∷ sections) h = cc
clients_rules (tcp_server c ∷ sections) h = cc
clients_rules (socks5 c ∷ sections) h = cc
clients_rules (http c ∷ sections) h = cc
clients_rules (udp_proxy c ∷ sections) h = cc

-- Where every section is a TCPClientTunnel and there is no health endpoint, the rules allow no port to
-- be bound, although each of these tunnels listens on one.
pub lock_network-tcp_client :
    (sections : List RoutineSpawner)
    → all is_tcp_client sections ≡ true
    → (rules : List Rule) × (lock_network sections [] ≡ ok rules) × (any is_bind rules ≡ false)
unfolding lock_network
lock_network-tcp_client sections h =
    let (rules, e, none_bind) = clients_rules sections h in (rules, rw e refl, none_bind)

HasRule-later :
    (rule : Rule) (first rules : List Rule) → HasRule rule rules → HasRule rule (first ++ rules)
HasRule-later rule first rules (before, after, e) = (
  first ++ before,
  after,
  ap (λ l. first ++ l) e ∙ sym (append_assoc first before (rule ∷ after)),
)

Binds-later :
    (first rules : List Rule) (address : Bytes)
    → Binds rules address
    → Binds (first ++ rules) address
Binds-later first rules address h host port n small e =
    HasRule-later (bind_tcp port) first rules (h host port n small e)

Binds-first :
    (address : Bytes) (rest : List Rule) {bound : ℕ}
    → extract_port address ≡ ok bound
    → Binds (bind_tcp bound ∷ rest) address
Binds-first address rest {bound} h host port n small e =
    let same : bound ≡ port =
      ok_inj (sym h ∙ ap extract_port e ∙ extract_port-join_host_port host port n small) in
    ([], rest, ap (λ p. bind_tcp p ∷ rest) same)

Serves-later :
    (first rules : List Rule) (s : RoutineSpawner) → Serves rules s → Serves (first ++ rules) s
Serves-later first rules (http c) h = Binds-later first rules c.bind_address h
Serves-later first rules (socks5 c) h = Binds-later first rules c.bind_address h
Serves-later first rules (tcp_client c) h = tt
Serves-later first rules (tcp_server c) h = tt
Serves-later first rules (stdio c) h = tt
Serves-later first rules (udp_proxy c) h = tt

Serves-first :
    (s : RoutineSpawner) (rules rest : List Rule)
    → section_rules s ≡ ok rules
    → Serves (rules ++ rest) s
unfolding section_rules
Serves-first (http c) rules rest h =
    let (port, e, h1) = >>=-eq-ok (extract_port c.bind_address) _ h in
    subst (λ l. Binds (l ++ rest) c.bind_address) (ok_inj h1) (Binds-first c.bind_address rest e)
Serves-first (socks5 c) rules rest h =
    let (port, e, h1) = >>=-eq-ok (extract_port c.bind_address) _ h in
    subst (λ l. Binds (l ++ rest) c.bind_address) (ok_inj h1) (Binds-first c.bind_address rest e)
Serves-first (tcp_client c) rules rest h = tt
Serves-first (tcp_server c) rules rest h = tt
Serves-first (stdio c) rules rest h = tt
Serves-first (udp_proxy c) rules rest h = tt

all_section_rules-Serves :
    (sections : List RoutineSpawner) (rules : List Rule)
    → all_section_rules sections ≡ ok rules
    → All (Serves rules) sections
unfolding all_section_rules
all_section_rules-Serves [] rules h = tt
all_section_rules-Serves (s ∷ sections) rules h =
    let (first, e, h1) = >>=-eq-ok (section_rules s) _ h in
    let (rest, e1, h2) = >>=-eq-ok (all_section_rules sections) _ h1 in
    subst (λ l. All (Serves l) (s ∷ sections)) (ok_inj h2)
      (
        Serves-first s first rest e,
        All-mono (Serves rest) (Serves (first ++ rest)) (Serves-later first rest) sections
            (all_section_rules-Serves sections rest e1),
      )

lock_network-Serves :
    (sections : List RoutineSpawner) (info : Bytes) (rules : List Rule)
    → lock_network sections info ≡ ok rules
    → All (Serves rules) sections
unfolding lock_network
lock_network-Serves sections info rules h =
    let (first, e, h1) = >>=-eq-ok (info_rules info) _ h in
    let (rest, e1, h2) = >>=-eq-ok (all_section_rules sections) _ h1 in
    subst (λ l. All (Serves l) sections) (ok_inj h2)
      (All-mono (Serves rest) (Serves (first ++ rest)) (Serves-later first rest) sections
        (all_section_rules-Serves sections rest e1))

-- Where the server of a section listens.
abbrev pub listens_on : RoutineSpawner → Option Bytes
listens_on (http c) = some c.bind_address
listens_on (socks5 c) = some c.bind_address
listens_on _ = none

Serves-Binds :
    (rules : List Rule) (s : RoutineSpawner) {address : Bytes}
    → listens_on s ≡ some address
    → Serves rules s
    → Binds rules address
Serves-Binds rules (http c) {address} e h =
    let same : c.bind_address ≡ address = cc in subst (Binds rules) same h
Serves-Binds rules (socks5 c) {address} e h =
    let same : c.bind_address ≡ address = cc in subst (Binds rules) same h
Serves-Binds rules (tcp_client c) e h = cc
Serves-Binds rules (tcp_server c) e h = cc
Serves-Binds rules (stdio c) e h = cc
Serves-Binds rules (udp_proxy c) e h = cc

All-at {ℓ κ} :
    {A : Type ℓ} (P : A → Type κ) (before : List A) (x : A) (after : List A)
    → All P (before ++ x ∷ after)
    → P x
All-at P [] x after h = h.0
All-at P (y ∷ before) x after h = All-at P before x after h.1

-- An HTTP or SOCKS5 section whose BindAddress is a host and a port below 65536 may bind that port: the
-- rules that `lockNetwork` builds for a configuration with the section have it.
pub lock_network-HasRule :
    (before after : List RoutineSpawner) (section : RoutineSpawner) (info : Bytes)
    (rules : List Rule) (host : Bytes) (port : ℕ)
    → lock_network (before ++ section ∷ after) info ≡ ok rules
    → listens_on section ≡ some (join_host_port host (itoa_ℕ port))
    → NoBrackets host
    → port < 65536
    → HasRule (bind_tcp port) rules
lock_network-HasRule before after section info rules host port h listens n small =
    Serves-Binds rules section listens
      (All-at (Serves rules) before section after
        (lock_network-Serves (before ++ section ∷ after) info rules h))
      host port n small refl
