-- ===== src/Main/Order.antt =====
-- The order of what `main` does.
use scramjet_app.Base.{
  Bool, Bytes, List, Result, [], any, ap, arith, err, false, if-cases, not, ok, refl, sym, true,
  ◌&&◌, ◌++◌, ◌∙◌, ◌∷◌, ◌≡◌,
}
use scramjet_app.Config.{Configuration}
use scramjet_app.Platform.{Platform}
use scramjet_app.Main.Lock.{ready}
use scramjet_app.Main.{
  Options, Action, locks, prints, parses_config, fails, restricts, spawns_daemon, starts_wireguard,
  spawns_routine, pings, serves_info, Run, main, started, spawns_all, is_daemon_process,
}
use scramjet_app.Main.Runs.{
  Reads, reading, null_part, Runs, only_prints, config_fails, config_tested, rules_fail,
  becomes_parent, goes_on, main-Runs, boot-any, reading-any, null-any,
}
use scramjet_app.Config.{RoutineSpawner}

-- The device, the routines, the pings and the health endpoint.
abbrev pub is_running : Action → Bool
is_running (starts_wireguard silent) = true
is_running (spawns_routine n) = true
is_running pings = true
is_running (serves_info addr) = true
is_running _ = false

abbrev pub is_spawn : Action → Bool
is_spawn (spawns_daemon path args) = true
is_spawn _ = false

-- Whether the stage "ready" comes only after the network is restricted, and whatever runs comes only
-- after both.
abbrev pub guarded : Bool → Bool → List Action → Bool
guarded restricted is_ready [] = true
guarded restricted is_ready (restricts rules ∷ actions) = guarded true is_ready actions
guarded restricted is_ready (locks ready ∷ actions) = restricted && guarded restricted true actions
guarded restricted is_ready (starts_wireguard s ∷ actions) =
    restricted && is_ready && guarded restricted is_ready actions
guarded restricted is_ready (spawns_routine n ∷ actions) =
    restricted && is_ready && guarded restricted is_ready actions
guarded restricted is_ready (pings ∷ actions) =
    restricted && is_ready && guarded restricted is_ready actions
guarded restricted is_ready (serves_info a ∷ actions) =
    restricted && is_ready && guarded restricted is_ready actions
guarded restricted is_ready (_ ∷ actions) = guarded restricted is_ready actions

guarded-spawns :
    (routines : List RoutineSpawner) (rest : List Action)
    → guarded true true (spawns_all routines ++ rest) ≡ guarded true true rest
guarded-spawns [] rest = refl
guarded-spawns (routine ∷ routines) rest = guarded-spawns routines rest

module _ (w : Platform) where
  started-guarded :
      (o : Options) (conf : Configuration w) (wg : Result (Unit {0}))
      → guarded true true (started w o conf wg) ≡ true
  started-guarded o conf (err e) = refl
  started-guarded o conf (ok tt) = guarded-spawns conf.routines _ ∙ (ground arith)

  reading-guarded :
      (o : Options) (path : Bytes) (rest : List Action)
      → guarded false false (reading w o path rest) ≡ guarded false false rest
  reading-guarded o path rest =
      if-cases
        (λ (a : List Action).
          guarded false false (a ++ (parses_config path ∷ rest)) ≡ guarded false false rest)
        o.daemon (λ _. refl) (λ _. refl)

  null-guarded :
      (r : Run w) (rest : List Action)
      → guarded true false (null_part w r ++ rest) ≡ guarded true false rest
  null-guarded r rest =
      if-cases (λ (a : List Action). guarded true false (a ++ rest) ≡ guarded true false rest)
        (is_daemon_process w r) (λ _. refl) (λ _. refl)

  Runs-guarded : {r : Run w} {rest : List Action} → Runs w r rest → guarded false false rest ≡ true
  Runs-guarded only_prints = refl
  Runs-guarded (config_fails o path e options) = reading-guarded o path _
  Runs-guarded (config_tested o path options test) = reading-guarded o path _
  Runs-guarded (rules_fail o path conf e reads locked) = reading-guarded o path _
  Runs-guarded {r} (becomes_parent o path conf rules reads locked parent) =
      reading-guarded o path _ ∙ null-guarded r _
  Runs-guarded {r} (goes_on o path conf rules reads locked here) =
      reading-guarded o path _ ∙ null-guarded r _ ∙ started-guarded o conf r.wireguard

  -- In every run the network is restricted before the stage "ready", and the device, the routines,
  -- the pings and the health endpoint start only after both.
  pub main-guarded : (r : Run w) → guarded false false (main w r) ≡ true
  main-guarded r =
      let (rest, same, runs) = main-Runs w r in
      ap (guarded false false) same
      ∙ if-cases (λ (a : List Action). guarded false false (a ++ rest) ≡ guarded false false rest)
          (is_daemon_process w r) (λ _. refl) (λ _. refl)
      ∙ Runs-guarded runs

  -- A run that starts the device, or anything that needs it.
  pub record Starts (r : Run w) : Type 0 where
    pub options : Options
    pub path : Bytes
    pub configuration : Configuration w
    pub reads : Reads w r options path configuration
    pub foreground : (options.daemon && not (is_daemon_process w r)) ≡ false

  Runs-Starts :
      {r : Run w} {rest : List Action} → Runs w r rest → any is_running rest ≡ true → Starts r
  Runs-Starts only_prints h = cc
  Runs-Starts (config_fails o path e options) h =
      let quiet = reading-any w is_running o path (fails e ∷ []) refl refl in cc
  Runs-Starts (config_tested o path options test) h =
      let quiet = reading-any w is_running o path (prints ∷ []) refl refl in cc
  Runs-Starts (rules_fail o path conf e reads locked) h =
      let quiet = reading-any w is_running o path (fails e ∷ []) refl refl in cc
  Runs-Starts {r} (becomes_parent o path conf rules reads locked parent) h =
      let quiet =
        sym (reading-any w is_running o path _ refl refl ∙ null-any w is_running r _ refl) ∙ h in
      cc
  Runs-Starts (goes_on o path conf rules reads locked here) h = record {
    options = o;
    path = path;
    configuration = conf;
    reads = reads;
    foreground = here;
  }

  -- A run starts the device, a routine, the pings or the health endpoint only if its arguments are
  -- parsed, neither the version nor a test of the configuration is asked for, a configuration is
  -- parsed, and the process is not the parent of a daemon. What the parsing of the configuration
  -- itself looks up is not meant.
  pub main-Starts : (r : Run w) → any is_running (main w r) ≡ true → Starts r
  main-Starts r h =
      let (rest, same, runs) = main-Runs w r in
      let quiet = boot-any w is_running r rest refl refl in
      Runs-Starts runs (sym (ap (any is_running) same ∙ quiet) ∙ h)
