-- ===== src/Wireguard/Start.antt =====
-- wireproxy/wireguard.go: `StartWireguard`. The network stack and the device are a parameter.
use mathlib.Core.Path.{subst}
use scramjet_app.Base.{
  >>=-eq-ok, Bool, Bytes, List, Result, [], any, arith, bytes, bytes_eq, bytes_eq_iff, bytes_eq_ne,
  false, if◌then◌else◌, not, ok, ok_inj, refl, true, ℕ, ◌&&◌, ◌>>=◌, ◌↔◌, ◌∙◌, ◌∷◌, ◌≡◌, ◌≢◌,
}
use scramjet_app.Base.Int.{ℤ}
use scramjet_app.Config.{DeviceConfig, Configuration, ResolveConfig}
use scramjet_app.Platform.{Platform}
use scramjet_app.Wireguard.{create_ipc_request}

-- The library wireguard-go.
pub record Netstack (w : Platform) : Type 1 where
  pub Tun : Type 0
  pub Net : Type 0
  pub Device : Type 0
  -- `netstack.CreateNetTUN`
  pub create_net_tun : List w.Addr → List w.Addr → ℤ → Result (Tun × Net)
  -- `device.NewDevice`, with the level of its logger
  pub new_device : Tun → ℕ → Device
  -- `Device.IpcSet` and `Device.Up`: the device afterwards, or the error
  pub ipc_set : Device → Bytes → Result Device
  pub up : Device → Result Device

-- `VirtualTun`; its `PingRecord` is empty at first.
pub record VirtualTun (w : Platform) (n : Netstack w) : Type 0 where
  pub tnet : n.Net
  pub dev : n.Device
  pub system_dns : Bool
  pub conf : DeviceConfig w
  pub resolve_config : ResolveConfig
  pub ping_record : List (Bytes × ℕ)

abbrev pub is_empty {ℓ} : {A : Type ℓ} → List A → Bool
is_empty [] = true
is_empty (x ∷ xs) = false

module _ (w : Platform) where
  open w use {Addr, is4, is6}

  -- The last part of `StartWireguard`: "auto" means IPv4 if the device has IPv4 addresses alone.
  unfoldable pub choose_strategy : List Addr → ResolveConfig → ResolveConfig
  choose_strategy addrs resolve =
      let has_v4 = any is4 addrs in
      let has_v6 = any is6 addrs in
      if bytes_eq resolve.resolve_strategy (bytes "auto")
      then record { resolve_strategy = if has_v4 && not has_v6 then bytes "ipv4" else bytes "ipv6" }
      else resolve

  module _ (n : Netstack w) (doc : Bytes → Bytes) where
    -- `StartWireguard`
    unfoldable pub start_wireguard : Configuration w → ℕ → Result (VirtualTun w n)
    unfolding choose_strategy
    start_wireguard conf log_level = do
      let setting = create_ipc_request w doc conf.device
      (tun, tnet) ← n.create_net_tun setting.device_addr setting.dns setting.mtu
      dev ← n.ipc_set (n.new_device tun log_level) setting.ipc_request
      running ← n.up dev
      ok record {
        tnet = tnet;
        dev = running;
        system_dns = is_empty setting.dns;
        conf = conf.device;
        resolve_config = choose_strategy setting.device_addr conf.resolve;
        ping_record = [];
      }

    -- What `StartWireguard` did to give a tunnel.
    pub record IsStarted (conf : Configuration w) (log_level : ℕ) (vt : VirtualTun w n)
        : Type 0 where
      pub tun : n.Tun
      pub configured : n.Device
      pub created :
          n.create_net_tun conf.device.endpoint conf.device.dns conf.device.mtu ≡ ok (tun, vt.tnet)
      pub accepted :
          n.ipc_set (n.new_device tun log_level) (create_ipc_request w doc conf.device).ipc_request
          ≡ ok configured
      pub running : n.up configured ≡ ok vt.dev
      pub system : (vt.system_dns ≡ true) ↔ (conf.device.dns ≡ [])
      pub kept : conf.resolve.resolve_strategy ≢ bytes "auto" → vt.resolve_config ≡ conf.resolve
      pub only_v4 :
          conf.resolve.resolve_strategy ≡ bytes "auto"
          → any is4 conf.device.endpoint ≡ true
          → any is6 conf.device.endpoint ≡ false
          → vt.resolve_config.resolve_strategy ≡ bytes "ipv4"
      pub with_v6 :
          conf.resolve.resolve_strategy ≡ bytes "auto"
          → any is6 conf.device.endpoint ≡ true
          → vt.resolve_config.resolve_strategy ≡ bytes "ipv6"

    is_empty_iff : (addrs : List Addr) → (is_empty addrs ≡ true) ↔ (addrs ≡ [])
    is_empty_iff [] = (λ e. refl, λ e. refl)
    is_empty_iff (a ∷ addrs) = (λ e. cc, λ e. cc)

    choose_kept :
        (addrs : List Addr) (r : ResolveConfig)
        → r.resolve_strategy ≢ bytes "auto"
        → choose_strategy addrs r ≡ r
    unfolding choose_strategy
    choose_kept addrs r other = rw (bytes_eq_ne r.resolve_strategy (bytes "auto") other) refl

    choose_auto :
        (addrs : List Addr) (r : ResolveConfig)
        → r.resolve_strategy ≡ bytes "auto"
        → (choose_strategy addrs r).resolve_strategy
          ≡ (if any is4 addrs && not (any is6 addrs) then bytes "ipv4" else bytes "ipv6")
    unfolding choose_strategy
    choose_auto addrs r auto = rw ((bytes_eq_iff r.resolve_strategy (bytes "auto")).1 auto) refl

    -- A tunnel that `StartWireguard` returns stands on a network with the addresses, DNS servers and
    -- MTU of the configuration, and on a device that accepted the configuration's request and is up.
    -- It uses the system's resolver exactly when no DNS server is given. The strategy "auto" has
    -- become "ipv4" where the addresses are IPv4 alone and "ipv6" where one is IPv6; another is kept.
    pub start_wireguard-IsStarted :
        (conf : Configuration w) (log_level : ℕ) (vt : VirtualTun w n)
        → start_wireguard conf log_level ≡ ok vt
        → IsStarted conf log_level vt
    unfolding start_wireguard create_ipc_request
    start_wireguard-IsStarted conf log_level vt h =
        let addrs = conf.device.endpoint in
        let ((tun, tnet), e1, h1) =
          >>=-eq-ok (n.create_net_tun addrs conf.device.dns conf.device.mtu) _ h in
        let (dev, e2, h2) =
          >>=-eq-ok
            (n.ipc_set (n.new_device tun log_level)
              (create_ipc_request w doc conf.device).ipc_request)
            _ h1 in
        let (up, e3, h3) = >>=-eq-ok (n.up dev) _ h2 in
        subst (IsStarted conf log_level) (ok_inj h3) (record {
          tun = tun;
          configured = dev;
          created = e1;
          accepted = e2;
          running = e3;
          system = is_empty_iff conf.device.dns;
          kept = choose_kept addrs conf.resolve;
          only_v4 = λ auto v4 v6. choose_auto addrs conf.resolve auto ∙ rw (v4, v6) refl;
          with_v6 = λ auto v6. choose_auto addrs conf.resolve auto ∙ (ground arith);
        })
