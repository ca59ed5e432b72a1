-- ===== src/Startup.antt =====
-- From the file of the configuration to a running tunnel: wireproxy/config.go, `ParseConfig`, then
-- wireproxy/wireguard.go, `StartWireguard`, then wireproxy/routine.go, `ResolveAddrWithContext`.
use scramjet_app.Base.{
  All, Bool, Bytes, Lacks, List, Option, Result, any, bytes, false, none, ok, refl, some, true, ℕ,
  ◌≡◌,
}
use scramjet_app.Config.{Configuration}
use scramjet_app.Config.File.{parse_config}
use scramjet_app.Config.Whole.{IsConfiguration, Strategy, by_default, unset, set, parse_config_iff}
use scramjet_app.Platform.{Platform}
use scramjet_app.Resolve.{resolve_addr}
use scramjet_app.Resolve.Laws.{Outcome, is_v6, resolve_addr_ipv4, resolve_addr_ipv6}
use scramjet_app.Wireguard.{create_ipc_request, line_end}
use scramjet_app.Wireguard.Reading.{read_request, OneLine, read_request-create_ipc_request}
use scramjet_app.Wireguard.Request.{Unindents, device_pairs}
use scramjet_app.Wireguard.Start.{
  Netstack, VirtualTun, IsStarted, start_wireguard, start_wireguard-IsStarted,
}

module _ (w : Platform) (n : Netstack w) (doc : Bytes → Bytes) where
  open w use {Section, get_section, Addr, is4, is6}

  -- What a name resolves to over a tunnel, for the addresses that are looked up.
  abbrev pub Resolves : (Addr → Bool) → (Addr → Bool) → VirtualTun w n → Type 0
  Resolves first second vt =
      (lookup : Bytes → Result (List Bytes)) (draw4 draw6 : ℕ → ℕ) (name : Bytes)
      (addrs : List Bytes)
      → lookup name ≡ ok addrs
      → Outcome w first second addrs (resolve_addr w vt.resolve_config lookup draw4 draw6 name)

  -- A tunnel with the configuration that it is started from.
  pub record StartsUp (path : Bytes) (conf : Configuration w) (level : ℕ) (vt : VirtualTun w n)
      : Type 0 where
    pub source : IsConfiguration w path conf
    pub started : IsStarted w n doc conf level vt
    -- the device was given these settings, and took them
    pub request :
        read_request (create_ipc_request w doc conf.device).ipc_request ≡ device_pairs w conf.device
    pub over_v4 :
        get_section source.cfg (bytes "Resolve") ≡ none
        → any is4 conf.device.endpoint ≡ true
        → any is6 conf.device.endpoint ≡ false
        → Resolves is4 (is_v6 w) vt
    pub over_v6 :
        get_section source.cfg (bytes "Resolve") ≡ none
        → any is6 conf.device.endpoint ≡ true
        → Resolves (is_v6 w) is4 vt

  default-Strategy :
      {s : Bytes} (found : Option Section) → found ≡ none → Strategy w found s → s ≡ bytes "auto"
  default-Strategy none e by_default = refl
  default-Strategy (some section) e (unset _ m h) = cc
  default-Strategy (some section) e (set _ s h) = cc

  -- Where `ParseConfig` accepts a file and `StartWireguard` starts what it read, heredoc.Doc gives the
  -- two literals with no indentation, and prefixes and endpoints print as one line each: the device
  -- has accepted a request that reads back as the settings of the file; and without a section
  -- [Resolve] every name resolves, over IPv4 first where the device has IPv4 addresses alone and over
  -- IPv6 first where it has one of IPv6, unless no address that was looked up parses.
  pub parse_config-StartsUp :
      ((ip : w.Prefix) → Lacks line_end (w.prefix_string ip))
      → Unindents doc
      → (path : Bytes) (conf : Configuration w) (level : ℕ) (vt : VirtualTun w n)
      → parse_config w path ≡ ok conf
      → All (λ peer. OneLine peer.endpoint) conf.device.peers
      → start_wireguard w n doc conf level ≡ ok vt
      → StartsUp path conf level vt
  parse_config-StartsUp prefix_line u path conf level vt parsed lines runs =
      let source = (parse_config_iff w path conf).0 parsed in
      let started = start_wireguard-IsStarted w n doc conf level vt runs in
      let auto : get_section source.cfg (bytes "Resolve") ≡ none
          → conf.resolve.resolve_strategy ≡ bytes "auto" =
        λ e. default-Strategy _ e source.resolved in
      record {
        source = source;
        started = started;
        request =
            read_request-create_ipc_request w prefix_line doc conf.device u source.is_device
              source.are_peers lines;
        over_v4 = λ e v4 v6 lookup draw4 draw6 name addrs h.
            resolve_addr_ipv4 w vt.resolve_config lookup draw4 draw6 name addrs
              (started.only_v4 (auto e) v4 v6) h;
        over_v6 = λ e v6 lookup draw4 draw6 name addrs h.
            resolve_addr_ipv6 w vt.resolve_config lookup draw4 draw6 name addrs
              (started.with_v6 (auto e) v6) h;
      }
