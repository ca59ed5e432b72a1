-- ===== src/Config/Whole.antt =====
-- What `ParseConfig` guarantees of a configuration.
use mathlib.Core.Path.{subst}
use scramjet_app.Config.Values.{parse_string}
use scramjet_app.Base.{
  >>=-eq-ok, All, Bytes, List, Option, Result, [], ap, bytes, err, none, ok, ok_inj, or_zero, refl,
  some, sym, ◌++◌, ◌↔◌, ◌∙◌, ◌∷◌, ◌≡◌, ◌≢◌,
}
use scramjet_app.Config.{DeviceConfig, RoutineSpawner, Configuration, PeerConfig}
use scramjet_app.Config.Device.{
  IsDevice, IsPeer, parse_peer-IsPeer, parse_peers_iff, parse_interface-peers,
  parse_interface-IsDevice,
}
use scramjet_app.Config.Each.{Each, nil, cons, Each-All}
use scramjet_app.Config.File.{
  wg_file, parse_routines, default_device, resolve_section, parse_config,
}
use scramjet_app.Config.Interface.{parse_interface, parse_peer, parse_peers}
use scramjet_app.Config.Tunnels.{parse_resolve_config}
use scramjet_app.Config.Routines.{Groups, parse_routines-Groups, Groups-parse_routines}
use scramjet_app.Platform.{Platform}

module _ (w : Platform) where
  open w use {
    File, Section, Key, section, get_key, key_string, sections_by_name, load_sources, get_section,
  }

  -- The file that the key `WGConfig` of the first file names; the first file where it has no such
  -- key.
  pub data NamedBy (cfg : File) : Option Key → File → Type 0 where
    itself : NamedBy cfg none cfg
    loaded_from :
        (k : Key) (wg_cfg : File)
        → load_sources (key_string k) ≡ ok wg_cfg
        → NamedBy cfg (some k) wg_cfg

  -- The strategy that [Resolve] sets, "auto" where there is no such section.
  pub data Strategy : Option Section → Bytes → Type 0 where
    by_default : Strategy none (bytes "auto")
    unset :
        (section : Section) (e : Bytes)
        → parse_string w section (bytes "ResolveStrategy") ≡ err e
        → Strategy (some section) []
    set :
        (section : Section) (s : Bytes)
        → parse_string w section (bytes "ResolveStrategy") ≡ ok s
        → Strategy (some section) s

  wg_file-NamedBy :
      (cfg : File) (k : Option Key) {wg_cfg : File}
      → get_key (section cfg []) (bytes "WGConfig") ≡ k
      → wg_file w cfg ≡ ok wg_cfg
      → NamedBy cfg k wg_cfg
  unfolding wg_file
  wg_file-NamedBy cfg none e h =
      let same : wg_file w cfg ≡ ok cfg = rw (wg_file, e) in
      subst (NamedBy cfg none) (ok_inj (sym same ∙ h)) itself
  wg_file-NamedBy cfg (some k) e h =
      let same : wg_file w cfg ≡ load_sources (key_string k) = rw (wg_file, e) in
      loaded_from k _ (sym same ∙ h)

  set_or_unset :
      (section : Section) (r : Result Bytes)
      → parse_string w section (bytes "ResolveStrategy") ≡ r
      → Strategy (some section) (or_zero [] r)
  set_or_unset section (ok s) e = set section s e
  set_or_unset section (err m) e = unset section m e

  resolve_section-Strategy :
      (found : Option Section) → Strategy found (resolve_section w found).resolve_strategy
  unfolding resolve_section parse_resolve_config
  resolve_section-Strategy none = by_default
  resolve_section-Strategy (some section) = set_or_unset section _ refl

  -- A configuration with the files and the sections that it comes from.
  pub record IsConfiguration (path : Bytes) (conf : Configuration w) : Type 0 where
    pub cfg : File
    pub wg_cfg : File
    pub loaded : load_sources path ≡ ok cfg
    pub wg_loaded : NamedBy cfg (get_key (section cfg []) (bytes "WGConfig")) wg_cfg
    pub device : DeviceConfig w
    pub interface : parse_interface w wg_cfg (default_device w) ≡ ok device
    pub rest_of_device : conf.device ≡ record device { peers = conf.device.peers }
    pub sections : List Section
    pub of_peers : sections_by_name wg_cfg (bytes "Peer") ≡ some sections
    pub each_peer : Each (parse_peer w) sections conf.device.peers
    pub is_device : IsDevice w conf.device
    pub some_peer : conf.device.peers ≢ []
    pub are_peers : All (IsPeer w) conf.device.peers
    pub groups : Groups w cfg conf.routines
    pub resolved : Strategy (get_section cfg (bytes "Resolve")) conf.resolve.resolve_strategy

  new_peers :
      {sections : List Section} {new : List (PeerConfig w)}
      → Each (parse_peer w) sections new
      → sections ≢ []
      → (new ≢ []) × All (IsPeer w) new
  new_peers nil n = absurd (n refl)
  new_peers (cons p each) n =
      (λ e. cc, Each-All (parse_peer w) (IsPeer w) (parse_peer-IsPeer w) (cons p each))

  conclude :
      (path : Bytes) (cfg wg_cfg : File) (device : DeviceConfig w) (peers : List (PeerConfig w))
      (routines : List RoutineSpawner) {conf : Configuration w}
      → load_sources path ≡ ok cfg
      → wg_file w cfg ≡ ok wg_cfg
      → parse_interface w wg_cfg (default_device w) ≡ ok device
      → parse_peers w wg_cfg device.peers ≡ ok peers
      → parse_routines w cfg ≡ ok routines
      → record {
        device = record device { peers = peers };
        routines = routines;
        resolve = resolve_section w (get_section cfg (bytes "Resolve"));
      }
        ≡ conf
      → IsConfiguration path conf
  conclude path cfg wg_cfg device peers routines e1 e2 e3 e4 e5 same =
      let (sections, new, found, filled, each, joined) =
        (parse_peers_iff w wg_cfg device.peers peers).0 e4 in
      let all_new : peers ≡ new =
        joined ∙ ap (λ old. old ++ new) (parse_interface-peers w wg_cfg (default_device w) e3) in
      let (nonempty, good_peers) = new_peers each filled in
      let good = parse_interface-IsDevice w wg_cfg (default_device w) e3 in
      subst (IsConfiguration path) same (record {
        cfg = cfg;
        wg_cfg = wg_cfg;
        loaded = e1;
        wg_loaded = wg_file-NamedBy cfg _ refl e2;
        device = device;
        interface = e3;
        rest_of_device = refl;
        sections = sections;
        of_peers = found;
        each_peer = subst (Each (parse_peer w) sections) (sym all_new) each;
        is_device = record { keyed = good.keyed; checked = good.checked };
        some_peer = λ e. nonempty (sym all_new ∙ e);
        are_peers = subst (All (IsPeer w)) (sym all_new) good_peers;
        groups = parse_routines-Groups w cfg routines e5;
        resolved = resolve_section-Strategy (get_section cfg (bytes "Resolve"));
      })

  NamedBy-wg_file :
      (cfg : File) (k : Option Key) {wg_cfg : File}
      → get_key (section cfg []) (bytes "WGConfig") ≡ k
      → NamedBy cfg k wg_cfg
      → wg_file w cfg ≡ ok wg_cfg
  unfolding wg_file
  NamedBy-wg_file cfg none e itself = rw (wg_file, e) refl
  NamedBy-wg_file cfg (some k) e (loaded_from _ wg_cfg h) = rw (wg_file, e) h

  Strategy-resolve_section :
      (found : Option Section) (s : Bytes)
      → Strategy found s
      → resolve_section w found ≡ record { resolve_strategy = s }
  unfolding resolve_section parse_resolve_config
  Strategy-resolve_section none s by_default = refl
  Strategy-resolve_section (some section) s (unset _ e h) = rw h refl
  Strategy-resolve_section (some section) s (set _ t h) = rw h refl

  some_sections :
      (sections : List Section) {peers : List (PeerConfig w)}
      → Each (parse_peer w) sections peers
      → peers ≢ []
      → sections ≢ []
  some_sections [] nil n = absurd (n refl)
  some_sections (s ∷ sections) each n = λ e. cc

  IsConfiguration-parse_config :
      (path : Bytes) (conf : Configuration w)
      → IsConfiguration path conf
      → parse_config w path ≡ ok conf
  unfolding parse_config
  IsConfiguration-parse_config path conf c =
      let wg = NamedBy-wg_file c.cfg _ refl c.wg_loaded in
      let fresh = parse_interface-peers w c.wg_cfg (default_device w) c.interface in
      let peers : parse_peers w c.wg_cfg c.device.peers ≡ ok conf.device.peers =
        (parse_peers_iff w c.wg_cfg c.device.peers conf.device.peers).1 (
          c.sections,
          conf.device.peers,
          c.of_peers,
          some_sections c.sections c.each_peer c.some_peer,
          c.each_peer,
          ap (λ old. old ++ conf.device.peers) (sym fresh),
        ) in
      let routines = Groups-parse_routines w c.cfg conf.routines c.groups in
      let resolve = Strategy-resolve_section (get_section c.cfg (bytes "Resolve")) _ c.resolved in
      rw (parse_config, c.loaded, wg, c.interface, peers, routines, resolve)
        (ap (λ d. ok (record conf { device = d })) (sym c.rest_of_device))

  parse_config-IsConfiguration :
      (path : Bytes) (conf : Configuration w)
      → parse_config w path ≡ ok conf
      → IsConfiguration path conf
  unfolding parse_config
  parse_config-IsConfiguration path conf h =
      let (cfg, e1, h1) = >>=-eq-ok (load_sources path) _ h in
      let (wg_cfg, e2, h2) = >>=-eq-ok (wg_file w cfg) _ h1 in
      let (device, e3, h3) = >>=-eq-ok (parse_interface w wg_cfg (default_device w)) _ h2 in
      let (peers, e4, h4) = >>=-eq-ok (parse_peers w wg_cfg device.peers) _ h3 in
      let (routines, e5, h5) = >>=-eq-ok (parse_routines w cfg) _ h4 in
      conclude path cfg wg_cfg device peers routines e1 e2 e3 e4 e5 (ok_inj h5)

  -- `ParseConfig` returns a configuration exactly when it comes from the file at the path and the file
  -- that its `WGConfig` names (itself where it names none): the device is what `ParseInterface` reads
  -- of the second file, with one peer for each of its [Peer] sections in their order, at least one,
  -- all keys 64 hexadecimal digits; the routines are those of the first file, grouped by kind; and
  -- the strategy is its [Resolve] section's, or "auto" where there is none.
  pub parse_config_iff :
      (path : Bytes) (conf : Configuration w)
      → (parse_config w path ≡ ok conf) ↔ IsConfiguration path conf
  parse_config_iff path conf =
      (parse_config-IsConfiguration path conf, IsConfiguration-parse_config path conf)
