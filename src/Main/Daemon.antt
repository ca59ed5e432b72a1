-- ===== src/Main/Daemon.antt =====
-- wireproxy/cmd/wireproxy/main.go: the process that `-d` starts.
use mathlib.Core.List.{append-nil}
use scramjet_app.Base.{
  Bytes, List, Result, [], any, ap, arith, bytes_eq, err, false, if-cases, if◌then◌else◌, not, ok,
  refl, sym, true, ◌++◌, ◌∙◌, ◌∷◌, ◌≡◌,
}
use scramjet_app.Config.{Configuration, RoutineSpawner}
use scramjet_app.Main.{
  Rule, Options, Action, locks, prints, fails, pings, parses_config, restricts, opens_null,
  spawns_daemon, starts_wireguard, Run, main, own_args, started, spawns_all, spawns_child,
  is_daemon_process, executable_path, daemon_process, with_options, lock_network, spawns_routine,
}
use scramjet_app.Main.Lock.{boot, boot_daemon, ready}
use scramjet_app.Main.Order.{is_spawn}
use scramjet_app.Main.Runs.{
  Reads, null_part, Runs, only_prints, config_fails, config_tested, rules_fail, becomes_parent,
  goes_on, main-Runs, reading-any, null-any, boot-any,
}
use scramjet_app.Platform.{Platform}

routines-spawns :
    (routines : List RoutineSpawner) (rest : List Action)
    → any is_spawn (spawns_all routines ++ rest) ≡ any is_spawn rest
routines-spawns [] rest = refl
routines-spawns (routine ∷ routines) rest = routines-spawns routines rest

-- The routines that a run spawns, in order.
abbrev pub spawned : List Action → List RoutineSpawner
spawned [] = []
spawned (spawns_routine routine ∷ actions) = routine ∷ spawned actions
spawned (_ ∷ actions) = spawned actions

spawned-all :
    (routines : List RoutineSpawner) (rest : List Action)
    → spawned (spawns_all routines ++ rest) ≡ routines ++ spawned rest
spawned-all [] rest = refl
spawned-all (routine ∷ routines) rest = ap (λ l. routine ∷ l) (spawned-all routines rest)

-- Those of a configuration, once the device has started.
abbrev pub routines_of : Result (Unit {0}) → List RoutineSpawner → List RoutineSpawner
routines_of (err e) routines = []
routines_of (ok tt) routines = routines

module _ (w : Platform) where
  -- The run of a process that is started with some arguments, in the environment of another run.
  abbrev pub started_with : Run w → Bytes → List Bytes → Run w
  started_with r path args = record r { program = path; arguments = args }

  -- A run that starts a daemon, and the run of the daemon.
  pub record Daemonizes (r : Run w) (daemon : Run w) : Type 0 where
    pub options : Options
    pub path : Bytes
    pub configuration : Configuration w
    pub rules : List Rule
    pub reads : Reads w r options path configuration
    pub parent :
        main w r
        ≡ locks boot
          ∷ parses_config path
          ∷ restricts rules
          ∷ spawns_daemon daemon.program daemon.arguments
          ∷ []
    pub child :
        main w daemon
        ≡ locks boot
          ∷ locks boot_daemon
          ∷ parses_config path
          ∷ restricts rules
          ∷ opens_null
          ∷ locks ready
          ∷ starts_wireguard options.silent
          ∷ started w options configuration r.wireguard
    -- every routine of the configuration, unless the device fails to start
    pub runs : spawned (main w daemon) ≡ routines_of r.wireguard configuration.routines

  spawned-started :
      (o : Options) (conf : Configuration w) (wg : Result (Unit {0}))
      → spawned (started w o conf wg) ≡ routines_of wg conf.routines
  spawned-started o conf (err e) = refl
  spawned-started o conf (ok tt) =
      spawned-all conf.routines _
      ∙ if-cases (λ (a : List Action). conf.routines ++ spawned (pings ∷ a) ≡ conf.routines)
          (not (bytes_eq o.info [])) (λ _. append-nil conf.routines) (λ _. append-nil conf.routines)

  -- The run that `-d` leads to.
  abbrev pub daemon_of : Run w → Run w
  daemon_of r = started_with r (executable_path w r) (daemon_process ∷ r.arguments)

  -- What both processes do once the command line with `-d` is parsed.
  detached-main :
      (r : Run w) (o : Options) (path : Bytes) (conf : Configuration w) (rules : List Rule)
      → o.daemon ≡ true
      → Reads w r o path conf
      → lock_network conf.routines o.info ≡ ok rules
      → with_options w r (r.parse (own_args w r))
        ≡ parses_config path ∷ restricts rules ∷ null_part w r
          ++ (if not (is_daemon_process w r)
              then spawns_child w r ∷ []
              else locks ready ∷ starts_wireguard o.silent ∷ started w o conf r.wireguard)
  detached-main r o path conf rules daemon reads locked =
      let parsed = reads.options.parsed in
      let chosen = reads.options.chosen in
      let no_version = reads.options.no_version in
      let valid = reads.valid in
      let no_test = reads.no_test in rw (parsed, no_version, chosen, daemon, valid, no_test, locked)

  daemon-main :
      (r : Run w) (o : Options) (path : Bytes) (conf : Configuration w) (rules : List Rule)
      → ((p q : Bytes) (args : List Bytes) → r.parse (p ∷ args) ≡ r.parse (q ∷ args))
      → is_daemon_process w r ≡ false
      → o.daemon ≡ true
      → Reads w r o path conf
      → lock_network conf.routines o.info ≡ ok rules
      → Daemonizes r (daemon_of r)
  unfolding main own_args bytes_eq
  daemon-main r o path conf rules same_options first daemon reads locked =
      let plain : own_args w r ≡ r.program ∷ r.arguments = rw first refl in
      let again : Reads w (daemon_of r) o path conf = record {
        options = record {
          parsed =
              same_options (executable_path w r) r.program r.arguments
              ∙ ap r.parse (sym plain)
              ∙ reads.options.parsed;
          no_version = reads.options.no_version;
          chosen = reads.options.chosen;
        };
        valid = reads.valid;
        no_test = reads.no_test;
      } in
      let child : main w (daemon_of r)
          ≡ locks boot
            ∷ locks boot_daemon
            ∷ parses_config path
            ∷ restricts rules
            ∷ opens_null
            ∷ locks ready
            ∷ starts_wireguard o.silent
            ∷ started w o conf r.wireguard =
        ap (λ a. locks boot ∷ locks boot_daemon ∷ a)
          (detached-main (daemon_of r) o path conf rules daemon again locked) in
      record {
        options = o;
        path = path;
        configuration = conf;
        rules = rules;
        reads = reads;
        parent =
            ap
              (λ a.
                locks boot ∷ (if is_daemon_process w r then locks boot_daemon ∷ [] else []) ++ a)
              (detached-main r o path conf rules daemon reads locked)
            ∙ rw first refl;
        child = child;
        runs = ap spawned child ∙ spawned-started o conf r.wireguard;
      }

  started-spawns :
      (o : Options) (conf : Configuration w) (wg : Result (Unit {0}))
      → any is_spawn (started w o conf wg) ≡ false
  started-spawns o conf (err e) = refl
  started-spawns o conf (ok tt) =
      routines-spawns conf.routines _
      ∙ if-cases (λ (a : List Action). any is_spawn (pings ∷ a) ≡ false) (not (bytes_eq o.info []))
          (λ _. refl) (λ _. refl)

  Runs-Daemonizes :
      {r : Run w} {rest : List Action}
      → ((p q : Bytes) (args : List Bytes) → r.parse (p ∷ args) ≡ r.parse (q ∷ args))
      → Runs w r rest
      → any is_spawn rest ≡ true
      → Daemonizes r (daemon_of r)
  Runs-Daemonizes same only_prints h = cc
  Runs-Daemonizes same (config_fails o path e options) h =
      let quiet = reading-any w is_spawn o path (fails e ∷ []) refl refl in cc
  Runs-Daemonizes same (config_tested o path options test) h =
      let quiet = reading-any w is_spawn o path (prints ∷ []) refl refl in cc
  Runs-Daemonizes same (rules_fail o path conf e reads locked) h =
      let quiet = reading-any w is_spawn o path (fails e ∷ []) refl refl in cc
  Runs-Daemonizes {r} same (becomes_parent o path conf rules reads locked parent) h =
      daemon-main r o path conf rules same (ground arith) (ground arith) reads locked
  Runs-Daemonizes {r} same (goes_on o path conf rules reads locked here) h =
      let quiet =
        sym (
          reading-any w is_spawn o path _ refl refl
          ∙ null-any w is_spawn r _ refl
          ∙ started-spawns o conf r.wireguard)
        ∙ h in
      cc

  -- Where the parser of the command line ignores the program's name, a run that starts a process does
  -- nothing after it, and the process that it starts, with the same files and environment, reads the
  -- same configuration, restricts itself by the same rules, drops its output, starts no process, and
  -- goes on to the device and, once that has started, to every routine of the configuration, in order.
  pub main-Daemonizes :
      (r : Run w)
      → ((p q : Bytes) (args : List Bytes) → r.parse (p ∷ args) ≡ r.parse (q ∷ args))
      → any is_spawn (main w r) ≡ true
      → Daemonizes r (daemon_of r)
  main-Daemonizes r same h =
      let (rest, e, runs) = main-Runs w r in
      let quiet = boot-any w is_spawn r rest refl refl in
      Runs-Daemonizes same runs (sym (ap (any is_spawn) e ∙ quiet) ∙ h)
