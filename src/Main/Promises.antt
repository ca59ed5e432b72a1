-- ===== src/Main/Promises.antt =====
-- wireproxy/cmd/wireproxy/main.go: what the process has promised (OpenBSD's pledge) when it does
-- something.
use scramjet_app.Http.{http_server}
use scramjet_app.Go.Strings.{split}
use mathlib.Core.Path.{subst}
use scramjet_app.Base.{
  Bool, Bytes, List, Option, Result, [], all, any, arith, bytes, bytes_eq, err, false, if-cases,
  if◌then◌else◌, none, not, ok, refl, some, sym, true, ◌&&◌, ◌++◌, ◌||◌, ◌∷◌, ◌≡◌,
}
use scramjet_app.Config.{RoutineSpawner, http, Configuration}
use scramjet_app.Main.{
  Action, locks, parses_config, opens_null, spawns_daemon, starts_wireguard, spawns_routine, pings,
  serves_info, Platform, spawns_all, Options, started, Run, main, is_daemon_process, boot,
}
use scramjet_app.Main.Lock.{promises, words, lock}
use scramjet_app.Main.Runs.{
  reading, null_part, Runs, only_prints, config_fails, config_tested, rules_fail, becomes_parent,
  goes_on, main-Runs,
}

-- An HTTP section whose server loads a certificate and a key: `tlsRequired`.
abbrev loads_files : RoutineSpawner → Bool
loads_files (http c) = (http_server c).tls_required
loads_files _ = false

abbrev pub loads_certificate : Action → Bool
loads_certificate (spawns_routine routine) = loads_files routine
loads_certificate _ = false

-- The promises that an action needs.
abbrev needs : Action → List Bytes
needs (parses_config path) = bytes "rpath" ∷ bytes "dns" ∷ []
needs opens_null = bytes "rpath" ∷ []
needs (spawns_daemon path args) = bytes "proc" ∷ bytes "exec" ∷ []
needs (starts_wireguard silent) = bytes "inet" ∷ []
needs (spawns_routine routine) =
    bytes "inet" ∷ bytes "dns" ∷ (if loads_files routine then bytes "rpath" ∷ [] else [])
needs pings = bytes "inet" ∷ []
needs (serves_info addr) = bytes "inet" ∷ bytes "dns" ∷ []
needs _ = bytes "stdio" ∷ []

-- A process that has promised nothing yet may do everything.
abbrev may : Option (List Bytes) → List Bytes → Bool
may none needed = true
may (some promised) needed = all (λ word. any (bytes_eq word) promised) needed

abbrev narrows : Option (List Bytes) → Option (List Bytes) → Bool
narrows now none = true
narrows now (some later) = may now later

abbrev narrowed : Option (List Bytes) → Option (List Bytes) → Option (List Bytes)
narrowed now none = now
narrowed now (some later) = some later

-- Whether every action needs only what is promised by then, and every promise is among the earlier.
abbrev pub keeps_promises : Option (List Bytes) → List Action → Bool
keeps_promises now [] = true
keeps_promises now (locks stage ∷ actions) =
    narrows now (promises stage) && keeps_promises (narrowed now (promises stage)) actions
keeps_promises now (action ∷ actions) = may now (needs action) && keeps_promises now actions

abbrev IsKept : Option (List Bytes) → List Action → Type 0
IsKept now actions = keeps_promises now actions ≡ not (any loads_certificate actions)

abbrev boot_words : Option (List Bytes)
boot_words =
    some (
      bytes "stdio" ∷ bytes "rpath" ∷ bytes "inet" ∷ bytes "dns" ∷ bytes "proc" ∷ bytes "exec" ∷ [])

abbrev config_words : Option (List Bytes)
config_words = some (bytes "stdio" ∷ bytes "rpath" ∷ bytes "inet" ∷ bytes "dns" ∷ [])

abbrev ready_words : Option (List Bytes)
ready_words = some (bytes "stdio" ∷ bytes "inet" ∷ bytes "dns" ∷ [])

spawned-IsKept :
    (routine : RoutineSpawner) (rest : List Action)
    → IsKept ready_words rest
    → IsKept ready_words (spawns_routine routine ∷ rest)
unfolding bytes_eq
spawned-IsKept routine rest h =
    if-cases
      (λ (b : List Bytes).
        (may ready_words (bytes "inet" ∷ bytes "dns" ∷ b) && keeps_promises ready_words rest)
        ≡ not (loads_files routine || any loads_certificate rest))
      (loads_files routine) (λ loads. ground arith) (λ loads. ground arith)

spawns-IsKept :
    (routines : List RoutineSpawner) (rest : List Action)
    → IsKept ready_words rest
    → IsKept ready_words (spawns_all routines ++ rest)
spawns-IsKept [] rest h = h
spawns-IsKept (routine ∷ routines) rest h =
    spawned-IsKept routine (spawns_all routines ++ rest) (spawns-IsKept routines rest h)

module _ (w : Platform) where
  started-IsKept :
      (o : Options) (conf : Configuration w) (wg : Result (Unit {0}))
      → IsKept ready_words (started w o conf wg)
  unfolding bytes_eq
  started-IsKept o conf (err e) = refl
  started-IsKept o conf (ok tt) = spawns-IsKept conf.routines _ (
      if-cases (λ (a : List Action). IsKept ready_words (pings ∷ a)) (not (bytes_eq o.info []))
        (λ _. refl) (λ _. refl))

  -- The configuration is read with the words of the boot, or with fewer.
  reading-IsKept :
      (o : Options) (path : Bytes) (rest : List Action)
      → IsKept boot_words rest
      → (o.daemon ≡ false → IsKept config_words rest)
      → IsKept boot_words (reading w o path rest)
  unfolding bytes_eq promises words lock split
  reading-IsKept o path rest with_boot with_config =
      if-cases (λ (a : List Action). IsKept boot_words (a ++ (parses_config path ∷ rest))) o.daemon
        (λ _. with_boot) with_config

  null-IsKept :
      (now : List Bytes) (r : Run w) (rest : List Action)
      → may (some now) (bytes "rpath" ∷ []) ≡ true
      → IsKept (some now) rest
      → IsKept (some now) (null_part w r ++ rest)
  null-IsKept now r rest opens h =
      if-cases (λ (a : List Action). IsKept (some now) (a ++ rest)) (is_daemon_process w r)
        (λ _. ground arith) (λ _. h)

  Runs-IsKept : {r : Run w} {rest : List Action} → Runs w r rest → IsKept boot_words rest
  unfolding bytes_eq promises words lock split
  Runs-IsKept only_prints = refl
  Runs-IsKept (config_fails o path e options) = reading-IsKept o path _ refl (λ _. refl)
  Runs-IsKept (config_tested o path options test) = reading-IsKept o path _ refl (λ _. refl)
  Runs-IsKept (rules_fail o path conf e reads locked) = reading-IsKept o path _ refl (λ _. refl)
  Runs-IsKept {r} (becomes_parent o path conf rules reads locked parent) =
      reading-IsKept o path _ (null-IsKept _ r _ refl refl) (λ attached. ground arith)
  Runs-IsKept {r} (goes_on o path conf rules reads locked here) =
      let runs = started-IsKept o conf r.wireguard in
      reading-IsKept o path _ (null-IsKept _ r _ refl runs) (λ _. null-IsKept _ r _ refl runs)

  -- `main` does nothing that the process has not promised by then, and never asks for a promise back,
  -- except for one thing: a run keeps its promises exactly if it spawns no HTTP server that loads a
  -- certificate and a key, because "ready" has given up the reading of files.
  pub main-keeps_promises :
      (r : Run w) → keeps_promises none (main w r) ≡ not (any loads_certificate (main w r))
  unfolding bytes_eq promises words lock split
  main-keeps_promises r =
      let (rest, same, runs) = main-Runs w r in
      subst (IsKept none) (sym same) (
        if-cases (λ (a : List Action). IsKept none (locks boot ∷ a ++ rest)) (is_daemon_process w r)
          (λ _. Runs-IsKept runs) (λ _. Runs-IsKept runs))
