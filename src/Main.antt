-- ===== src/Main.antt =====
-- wireproxy/cmd/wireproxy/main.go: the order of what `main` does, and the network rules. What a stage
-- of `lock` asks of the system is in Main/Lock.
pub mod Lock
pub mod Runs
pub mod Order
pub mod Rules
pub mod Promises
pub mod Daemon
use scramjet_app.Base.{
  Bool, Bytes, List, Option, Result, [], bytes, bytes_eq, drop, err, false, if◌then◌else◌, none,
  not, ok, some, suc, ℕ, ◌%◌, ◌&&◌, ◌++◌, ◌-◌, ◌>>=◌, ◌∷◌,
}
use scramjet_app.Base.Int.{ℤ, pos, negsuc}
use scramjet_app.Config.{
  Configuration, RoutineSpawner, tcp_client, stdio, tcp_server, socks5, http, udp_proxy,
}
use scramjet_app.Go.Net.{split_host_port}
use scramjet_app.Go.Strconv.{atoi}
use scramjet_app.Main.Lock.{Stage, boot, boot_daemon, read_config, ready}
use scramjet_app.Platform.{Platform}

-- `uint16` of an `int`
abbrev pub uint16 : ℤ → ℕ
uint16 (pos n) = n % 65536
uint16 (negsuc n) = (65536 - suc n % 65536) % 65536

abbrev pub port_number : Option ℤ → Result ℕ
port_number none = err (bytes "failed to extract port")
port_number (some port) = ok (uint16 port)

-- `extractPort`; an error is a panic.
unfoldable pub extract_port : Bytes → Result ℕ
extract_port addr = do (host, port_str) ← split_host_port addr; port_number (atoi port_str)

-- The rules of landlock.
pub data Rule : Type 0 where
  bind_tcp connect_tcp : ℕ → Rule

-- The `switch` over the type of a section.
unfoldable pub section_rules : RoutineSpawner → Result (List Rule)
section_rules (tcp_server c) = do port ← extract_port c.target; ok (connect_tcp port ∷ [])
section_rules (http c) = do port ← extract_port c.bind_address; ok (bind_tcp port ∷ [])
section_rules (tcp_client c) = ok (connect_tcp (c.bind_address.port % 65536) ∷ [])
section_rules (socks5 c) = do port ← extract_port c.bind_address; ok (bind_tcp port ∷ [])
section_rules (stdio c) = ok []
section_rules (udp_proxy c) = ok []

unfoldable pub all_section_rules : List RoutineSpawner → Result (List Rule)
all_section_rules [] = ok []
all_section_rules (section ∷ sections) = do
  rules ← section_rules section
  rest ← all_section_rules sections
  ok (rules ++ rest)

-- The rule for the health endpoint, if there is one; `main` never passes a nil pointer.
abbrev pub info_rules : Bytes → Result (List Rule)
info_rules [] = ok []
info_rules (c ∷ s) = do port ← extract_port (c ∷ s); ok (bind_tcp port ∷ [])

-- The rules that `lockNetwork` restricts the process to.
unfoldable pub lock_network : List RoutineSpawner → Bytes → Result (List Rule)
unfolding all_section_rules
lock_network sections info_addr = do
  rules ← info_rules info_addr
  rest ← all_section_rules sections
  ok (rules ++ rest)

-- The command line.
pub record Options : Type 0 where
  pub config : Bytes
  pub silent : Bool
  pub daemon : Bool
  pub info : Bytes
  pub print_version : Bool
  pub config_test : Bool

pub data Action : Type 0 where
  locks : Stage → Action
  prints : Action
  parses_config : Bytes → Action
  fails : Bytes → Action
  restricts : List Rule → Action
  -- a daemon process drops its output
  opens_null : Action
  -- the path and the arguments of the process that is started
  spawns_daemon : Bytes → List Bytes → Action
  starts_wireguard : Bool → Action
  spawns_routine : RoutineSpawner → Action
  pings : Action
  serves_info : Bytes → Action

-- The environment of a run: `os.Args`, `os.Executable`, the argument parser, which paths exist, the
-- variable HOME, `ParseConfig`, and whether `StartWireguard` works.
pub record Run (w : Platform) : Type 0 where
  pub program : Bytes
  pub arguments : List Bytes
  pub executable : Result Bytes
  pub parse : List Bytes → Result Options
  pub exists_path : Bytes → Bool
  pub home : Bytes
  pub configuration : Bytes → Result (Configuration w)
  pub wireguard : Result (Unit {0})

abbrev pub daemon_process : Bytes
daemon_process = bytes "daemon-process"

abbrev pub first_is_daemon : List Bytes → Bool
first_is_daemon [] = false
first_is_daemon (arg ∷ args) = bytes_eq arg daemon_process

abbrev pub default_config_paths : Bytes → List Bytes
default_config_paths home =
    bytes "/etc/wireproxy/wireproxy.conf" ∷ (home ++ bytes "/.config/wireproxy.conf") ∷ []

-- `configFilePath`: the first default path that exists.
unfoldable pub config_file_path : (Bytes → Bool) → List Bytes → Option Bytes
config_file_path exists_path [] = none
config_file_path exists_path (path ∷ paths) =
    let rest = config_file_path exists_path paths in if exists_path path then some path else rest

abbrev pub spawns_all : List RoutineSpawner → List Action
spawns_all [] = []
spawns_all (routine ∷ routines) = spawns_routine routine ∷ spawns_all routines

module _ (w : Platform) where
  -- `executablePath`
  unfoldable pub executable_path : Run w → Bytes
  executable_path r = elim r.executable [ err _ ↦ r.program | ok path ↦ path ]

  abbrev pub is_daemon_process : Run w → Bool
  is_daemon_process r = first_is_daemon r.arguments

  -- `args`, after the argument that marks a daemon is taken out.
  unfoldable pub own_args : Run w → List Bytes
  own_args r = r.program ∷ (if is_daemon_process r then drop 1 r.arguments else r.arguments)

  abbrev pub serve_part : Options → List Action
  serve_part o = if not (bytes_eq o.info []) then serves_info o.info ∷ [] else []

  abbrev pub started : Options → Configuration w → Result (Unit {0}) → List Action
  started o conf (err e) = fails e ∷ []
  started o conf (ok tt) = spawns_all conf.routines ++ (pings ∷ serve_part o)

  -- The process that `-d` starts: `args[0] = daemonProcess`.
  abbrev pub spawns_child : Run w → Action
  spawns_child r = spawns_daemon (executable_path r) (daemon_process ∷ drop 1 (own_args r))

  -- From the locked network on.
  abbrev pub after_lock : Run w → Options → Configuration w → Result (List Rule) → List Action
  after_lock r o conf (err e) = fails e ∷ []
  after_lock r o conf (ok rules) =
      restricts rules ∷ (if is_daemon_process r then opens_null ∷ [] else [])
      ++ (if o.daemon && not (is_daemon_process r)
          then spawns_child r ∷ []
          else locks ready ∷ starts_wireguard o.silent ∷ started o conf r.wireguard)

  -- From the parsed configuration on.
  abbrev pub with_config : Run w → Options → Result (Configuration w) → List Action
  with_config r o (err e) = fails e ∷ []
  with_config r o (ok conf) =
      if o.config_test then prints ∷ [] else after_lock r o conf (lock_network conf.routines o.info)

  abbrev pub with_path : Run w → Options → Option Bytes → List Action
  with_path r o none = prints ∷ []
  with_path r o (some path) =
      (if o.daemon then [] else locks read_config ∷ [])
      ++ (parses_config path ∷ with_config r o (r.configuration path))

  abbrev pub config_path : Run w → Options → Option Bytes
  config_path r o =
      if bytes_eq o.config []
      then config_file_path r.exists_path (default_config_paths r.home)
      else some o.config

  abbrev pub with_options : Run w → Result Options → List Action
  with_options r (err e) = prints ∷ []
  with_options r (ok o) = if o.print_version then prints ∷ [] else with_path r o (config_path r o)

  -- `main`
  unfoldable pub main : Run w → List Action
  unfolding own_args
  main r =
      locks boot ∷ (if is_daemon_process r then locks boot_daemon ∷ [] else [])
      ++ with_options r (r.parse (own_args r))
