-- ===== src/Tests/Main.antt =====
-- A run of the program, and the theorems about `main` at it.
use scramjet_app.Base.{
  List, [], any, arith, bytes, bytes_eq, false, none, not, ok, refl, true, ◌∷◌, ◌≡◌,
}
use scramjet_app.Config.{RoutineSpawner, tcp_client, http}
use scramjet_app.Main.{
  Rule, bind_tcp, connect_tcp, Options, Run, Action, main, own_args, lock_network,
  all_section_rules, section_rules, extract_port, locks, parses_config, prints, restricts,
  starts_wireguard, spawns_routine, pings,
}
use scramjet_app.Main.Lock.{boot, read_config, ready, promises, words, lock}
use scramjet_app.Main.Order.{guarded, main-guarded, Starts, main-Starts}
use scramjet_app.Main.Promises.{keeps_promises, loads_certificate, main-keeps_promises}
use scramjet_app.Main.Daemon.{Daemonizes, daemon_of, main-Daemonizes}
use scramjet_app.Http.{http_server}
use scramjet_app.Main.Rules.{HasRule, is_bind, lock_network-tcp_client, lock_network-HasRule}
use scramjet_app.Go.Strings.Laws.{has_byte-Lacks}
use scramjet_app.Go.Strings.{has_byte, split}
use scramjet_app.Go.Net.{join_host_port, split_host_port}
use scramjet_app.Go.Strconv.{itoa_ℕ, atoi}
use scramjet_app.Tests.Sample.{sample}
use scramjet_app.Tests.Config.{configuration}

abbrev proxy : RoutineSpawner
proxy = http (record {
  bind_address = bytes "127.0.0.1:25345";
  username = [];
  password = [];
  cert_file = [];
  key_file = [];
})

abbrev client : RoutineSpawner
client =
    tcp_client
      (record { bind_address = record { ip = []; port = 25565 }; target = bytes "example:80" })

abbrev options : Options
options = record {
  config = bytes "wireproxy.conf";
  silent = false;
  daemon = false;
  info = [];
  print_version = false;
  config_test = false;
}

abbrev run : Run sample
run = record {
  program = bytes "wireproxy";
  arguments = bytes "-c" ∷ bytes "wireproxy.conf" ∷ [];
  executable = ok (bytes "/usr/bin/wireproxy");
  parse = λ args. ok options;
  exists_path = λ path. false;
  home = bytes "/root";
  configuration = λ path. ok (record configuration { routines = proxy ∷ client ∷ [] });
  wireguard = ok tt;
}

actions : Run sample → List Action
unfolding bytes_eq main own_args lock_network all_section_rules section_rules extract_port
    split_host_port atoi
actions r = main sample r

runs :
    actions run
    ≡ locks boot
      ∷ locks read_config
      ∷ parses_config (bytes "wireproxy.conf")
      ∷ restricts (bind_tcp 25345 ∷ connect_tcp 25565 ∷ [])
      ∷ locks ready
      ∷ starts_wireguard false
      ∷ spawns_routine proxy
      ∷ spawns_routine client
      ∷ pings
      ∷ []
unfolding actions
runs = refl

tests_only :
    actions (record run { parse = λ args. ok (record options { config_test = true }) })
    ≡ locks boot ∷ locks read_config ∷ parses_config (bytes "wireproxy.conf") ∷ prints ∷ []
unfolding actions
tests_only = refl

main-guarded_example : guarded false false (main sample run) ≡ true
main-guarded_example = main-guarded sample run

main-Starts_example : Starts sample run
unfolding actions
main-Starts_example = main-Starts sample run refl

lock_network-HasRule_example : HasRule (bind_tcp 25345) (bind_tcp 25345 ∷ connect_tcp 25565 ∷ [])
unfolding actions join_host_port itoa_ℕ has_byte
lock_network-HasRule_example =
    lock_network-HasRule [] (client ∷ []) proxy [] (bind_tcp 25345 ∷ connect_tcp 25565 ∷ [])
      (bytes "127.0.0.1") 25345 refl refl
      (
        (has_byte-Lacks b'[' (bytes "127.0.0.1")).0 refl,
        (has_byte-Lacks b']' (bytes "127.0.0.1")).0 refl,
      )
      (omega arith)

lock_network-tcp_client_example :
    (rules : List Rule) × (lock_network (client ∷ []) [] ≡ ok rules) × (any is_bind rules ≡ false)
lock_network-tcp_client_example = lock_network-tcp_client (client ∷ []) refl

main-keeps_promises_example :
    keeps_promises none (main sample run) ≡ not (any loads_certificate (main sample run))
main-keeps_promises_example = main-keeps_promises sample run

-- With a certificate and a key, the server's start asks for what "ready" has given up.
abbrev secure_proxy : RoutineSpawner
secure_proxy = http (record {
  bind_address = bytes "127.0.0.1:25345";
  username = [];
  password = [];
  cert_file = bytes "cert.pem";
  key_file = bytes "key.pem";
})

breaks_promises :
    keeps_promises none (
      main sample (record run {
        configuration = λ path. ok (record configuration { routines = secure_proxy ∷ [] });
      }))
    ≡ false
unfolding actions promises words lock split http_server
breaks_promises = refl

abbrev parent : Run sample
parent = record run { parse = λ args. ok (record options { daemon = true }) }

main-Daemonizes_example : Daemonizes sample parent (daemon_of sample parent)
unfolding actions
main-Daemonizes_example = main-Daemonizes sample parent (λ p q args. refl) refl
