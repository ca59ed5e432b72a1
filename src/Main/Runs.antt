-- ===== src/Main/Runs.antt =====
-- The ways that a run of `main` can go, one constructor each.
use scramjet_app.Base.{
  Bool, Bytes, List, Option, Result, [], any, err, false, if-cases, if◌then◌else◌, none, not, ok,
  refl, some, true, ◌&&◌, ◌++◌, ◌∷◌, ◌≡◌,
}
use scramjet_app.Config.{Configuration}
use scramjet_app.Platform.{Platform}
use scramjet_app.Main.Lock.{boot, boot_daemon, read_config, ready}
use scramjet_app.Main.{
  Rule, Options, Action, locks, prints, parses_config, fails, restricts, opens_null,
  starts_wireguard, Run, main, own_args, is_daemon_process, started, spawns_child, after_lock,
  with_config, with_path, with_options, config_path, lock_network,
}

module _ (w : Platform) where
  -- The options and the configuration's path of a run.
  pub record Chosen (r : Run w) (o : Options) (path : Bytes) : Type 0 where
    pub parsed : r.parse (own_args w r) ≡ ok o
    pub no_version : o.print_version ≡ false
    pub chosen : config_path w r o ≡ some path

  -- The configuration of a run that is not a test of it.
  pub record Reads (r : Run w) (o : Options) (path : Bytes) (conf : Configuration w) : Type 0 where
    pub options : Chosen r o path
    pub valid : r.configuration path ≡ ok conf
    pub no_test : o.config_test ≡ false

  abbrev pub boot_part : Run w → List Action
  boot_part r = locks boot ∷ (if is_daemon_process w r then locks boot_daemon ∷ [] else [])

  abbrev pub reading : Options → Bytes → List Action → List Action
  reading o path rest =
      (if o.daemon then [] else locks read_config ∷ []) ++ (parses_config path ∷ rest)

  abbrev pub null_part : Run w → List Action
  null_part r = if is_daemon_process w r then opens_null ∷ [] else []

  -- A test that fails on the actions of a part is decided by the rest of the run.
  pub reading-any :
      (p : Action → Bool) (o : Options) (path : Bytes) (rest : List Action)
      → p (locks read_config) ≡ false
      → p (parses_config path) ≡ false
      → any p (reading o path rest) ≡ any p rest
  reading-any p o path rest locked parsed =
      if-cases (λ (a : List Action). any p (a ++ (parses_config path ∷ rest)) ≡ any p rest) o.daemon
        (λ _. rw parsed) (λ _. rw (locked, parsed))

  pub null-any :
      (p : Action → Bool) (r : Run w) (rest : List Action)
      → p opens_null ≡ false
      → any p (null_part r ++ rest) ≡ any p rest
  null-any p r rest opened =
      if-cases (λ (a : List Action). any p (a ++ rest) ≡ any p rest) (is_daemon_process w r)
        (λ _. rw opened) (λ _. refl)

  pub boot-any :
      (p : Action → Bool) (r : Run w) (rest : List Action)
      → p (locks boot) ≡ false
      → p (locks boot_daemon) ≡ false
      → any p (boot_part r ++ rest) ≡ any p rest
  boot-any p r rest first second = rw first (
      if-cases (λ (a : List Action). any p (a ++ rest) ≡ any p rest) (is_daemon_process w r)
        (λ _. rw second) (λ _. refl))

  -- What comes after the boot.
  pub data Runs (r : Run w) : List Action → Type 0 where
    only_prints : Runs r (prints ∷ [])
    config_fails :
        (o : Options) (path e : Bytes) → Chosen r o path → Runs r (reading o path (fails e ∷ []))
    config_tested :
        (o : Options) (path : Bytes)
        → Chosen r o path
        → o.config_test ≡ true
        → Runs r (reading o path (prints ∷ []))
    rules_fail :
        (o : Options) (path : Bytes) (conf : Configuration w) (e : Bytes)
        → Reads r o path conf
        → lock_network conf.routines o.info ≡ err e
        → Runs r (reading o path (fails e ∷ []))
    becomes_parent :
        (o : Options) (path : Bytes) (conf : Configuration w) (rules : List Rule)
        → Reads r o path conf
        → lock_network conf.routines o.info ≡ ok rules
        → (o.daemon && not (is_daemon_process w r)) ≡ true
        → Runs r (reading o path (restricts rules ∷ null_part r ++ (spawns_child w r ∷ [])))
    goes_on :
        (o : Options) (path : Bytes) (conf : Configuration w) (rules : List Rule)
        → Reads r o path conf
        → lock_network conf.routines o.info ≡ ok rules
        → (o.daemon && not (is_daemon_process w r)) ≡ false
        → Runs r (
            reading o path (
              restricts rules ∷ null_part r
              ++ (locks ready ∷ starts_wireguard o.silent ∷ started w o conf r.wireguard)))

  locked-Runs :
      (r : Run w) (o : Options) (path : Bytes) (conf : Configuration w) (rules : Result (List Rule))
      → Reads r o path conf
      → lock_network conf.routines o.info ≡ rules
      → Runs r (reading o path (after_lock w r o conf rules))
  locked-Runs r o path conf (err e) reads locked = rules_fail o path conf e reads locked
  locked-Runs r o path conf (ok rules) reads locked =
      if-cases (λ (a : List Action). Runs r (reading o path (restricts rules ∷ null_part r ++ a)))
        (o.daemon && not (is_daemon_process w r)) (becomes_parent o path conf rules reads locked)
        (goes_on o path conf rules reads locked)

  configured-Runs :
      (r : Run w) (o : Options) (path : Bytes) (c : Result (Configuration w))
      → Chosen r o path
      → r.configuration path ≡ c
      → Runs r (reading o path (with_config w r o c))
  configured-Runs r o path (err e) options valid = config_fails o path e options
  configured-Runs r o path (ok conf) options valid =
      if-cases (λ (a : List Action). Runs r (reading o path a)) o.config_test
        (config_tested o path options)
        (λ no_test.
          locked-Runs r o path conf (lock_network conf.routines o.info)
            (record { options = options; valid = valid; no_test = no_test }) refl)

  path-Runs :
      (r : Run w) (o : Options) (path : Option Bytes)
      → r.parse (own_args w r) ≡ ok o
      → o.print_version ≡ false
      → config_path w r o ≡ path
      → Runs r (with_path w r o path)
  path-Runs r o none parsed no_version chosen = only_prints
  path-Runs r o (some path) parsed no_version chosen =
      configured-Runs r o path (r.configuration path)
        (record { parsed = parsed; no_version = no_version; chosen = chosen }) refl

  options-Runs :
      (r : Run w) (options : Result Options)
      → r.parse (own_args w r) ≡ options
      → Runs r (with_options w r options)
  options-Runs r (err e) parsed = only_prints
  options-Runs r (ok o) parsed =
      if-cases (λ (a : List Action). Runs r a) o.print_version (λ _. only_prints)
        (λ no_version. path-Runs r o (config_path w r o) parsed no_version refl)

  -- Every run of `main` goes one of these ways.
  pub main-Runs :
      (r : Run w) → (rest : List Action) × (main w r ≡ boot_part r ++ rest) × Runs r rest
  unfolding main
  main-Runs r = (_, refl, options-Runs r (r.parse (own_args w r)) refl)
