-- ===== src/Config/Device.antt =====
-- What `ParseInterface` and `ParsePeers` guarantee of the device.
use mathlib.Core.Path.{subst}
use scramjet_app.Base.{
  >>=-eq-ok, Bytes, List, Option, [], bytes, none, ok, ok-ne-err, ok_inj, refl, some, sym, ◌++◌,
  ◌↔◌, ◌∷◌, ◌≡◌, ◌≢◌,
}
use scramjet_app.Base.Int.{ℤ, pos}
use scramjet_app.Config.{DeviceConfig, PeerConfig}
use scramjet_app.Config.Interface.{
  parse_interface, parse_peers, parse_peer, parse_interface_section, one_section, no_key, interval,
  shared_key, some_sections, peer_endpoint, int_or, optional_int,
}
use scramjet_app.Config.Keys.{IsHexKey, encode_base64_to_hex-IsHexKey}
use scramjet_app.Config.Each.{Each, append_all_sound, append_all_complete}
use scramjet_app.Config.Values.{
  parse_base64_key_to_hex, parse_string, parse_cidr_net_ip, parse_net_ip, parse_allowed_ips,
}
use scramjet_app.Platform.{Platform}

no_key-IsHexKey : (w : Platform) → IsHexKey (no_key w)
no_key-IsHexKey w = record { size = refl; digits = refl }

module _ (w : Platform) where
  open w use {File, Section, Key, sections_by_name, get_key, key_int}

  pub record IsDevice (d : DeviceConfig w) : Type 0 where
    pub keyed : IsHexKey d.secret_key
    pub checked : d.check_alive ≡ [] → d.check_alive_interval ≡ pos 5

  pub record IsPeer (p : PeerConfig w) : Type 0 where
    pub keyed : IsHexKey p.public_key
    pub shared : IsHexKey p.pre_shared_key

  parse_base64_key-IsHexKey :
      (section : Section) (key_name : Bytes) {key : Bytes}
      → parse_base64_key_to_hex w section key_name ≡ ok key
      → IsHexKey key
  unfolding parse_base64_key_to_hex
  parse_base64_key-IsHexKey section key_name h =
      let (text, e, encoded) = >>=-eq-ok (parse_string w section key_name) _ h in
      encode_base64_to_hex-IsHexKey text encoded

  interval_default :
      (check_alive : List w.Addr) (k : Option Key) {value : ℤ}
      → interval w check_alive k ≡ ok value
      → check_alive ≡ []
      → value ≡ pos 5
  interval_default alive none h e = sym (ok_inj h)
  interval_default [] (some k) {value} h e =
      let (read, p, tested) = >>=-eq-ok (key_int k) _ h in absurd (ok-ne-err (sym tested))
  interval_default (a ∷ alive) (some k) h e = cc

  parse_interface_section-IsDevice :
      (section : Section) (device : DeviceConfig w) {d : DeviceConfig w}
      → parse_interface_section w section device ≡ ok d
      → IsDevice d × (d.peers ≡ device.peers)
  unfolding parse_interface_section
  parse_interface_section-IsDevice section device h =
      let (address, e1, h1) = >>=-eq-ok (parse_cidr_net_ip w section (bytes "Address")) _ h in
      let (priv_key, e2, h2) =
        >>=-eq-ok (parse_base64_key_to_hex w section (bytes "PrivateKey")) _ h1 in
      let (dns, e3, h3) = >>=-eq-ok (parse_net_ip w section (bytes "DNS")) _ h2 in
      let (mtu, e4, h4) = >>=-eq-ok (int_or w device.mtu (get_key section (bytes "MTU"))) _ h3 in
      let (port, e5, h5) = >>=-eq-ok (optional_int w (get_key section (bytes "ListenPort"))) _ h4 in
      let (alive, e6, h6) = >>=-eq-ok (parse_net_ip w section (bytes "CheckAlive")) _ h5 in
      let (value, e7, h7) =
        >>=-eq-ok (interval w alive (get_key section (bytes "CheckAliveInterval"))) _ h6 in
      subst (λ d. IsDevice d × (d.peers ≡ device.peers)) (ok_inj h7)
        (
          record {
            keyed = parse_base64_key-IsHexKey section (bytes "PrivateKey") e2;
            checked = interval_default alive (get_key section (bytes "CheckAliveInterval")) e7;
          },
          refl,
        )

  interface_section :
      (cfg : File) (device : DeviceConfig w) {d : DeviceConfig w}
      → parse_interface w cfg device ≡ ok d
      → IsDevice d × (d.peers ≡ device.peers)
  unfolding parse_interface
  interface_section cfg device h =
      let (section, e, h1) =
        >>=-eq-ok (one_section w (sections_by_name cfg (bytes "Interface"))) _ h in
      parse_interface_section-IsDevice section device h1

  pub parse_interface-peers :
      (cfg : File) (device : DeviceConfig w) {d : DeviceConfig w}
      → parse_interface w cfg device ≡ ok d
      → d.peers ≡ device.peers
  parse_interface-peers cfg device h = (interface_section cfg device h).1

  -- A device that `ParseInterface` returns has a private key of 64 hexadecimal digits, and checks
  -- at the default interval of 5 seconds unless addresses to check are given.
  pub parse_interface-IsDevice :
      (cfg : File) (device : DeviceConfig w) {d : DeviceConfig w}
      → parse_interface w cfg device ≡ ok d
      → IsDevice d
  parse_interface-IsDevice cfg device h = (interface_section cfg device h).0

  shared_key-IsHexKey : (k : Option Key) {key : Bytes} → shared_key w k ≡ ok key → IsHexKey key
  shared_key-IsHexKey none h = subst IsHexKey (ok_inj h) (no_key-IsHexKey w)
  shared_key-IsHexKey (some k) h = encode_base64_to_hex-IsHexKey _ h

  pub parse_peer-IsPeer :
      (section : Section) (p : PeerConfig w) → parse_peer w section ≡ ok p → IsPeer p
  unfolding parse_peer
  parse_peer-IsPeer section p h =
      let (decoded, e1, h1) =
        >>=-eq-ok (parse_base64_key_to_hex w section (bytes "PublicKey")) _ h in
      let (shared, e2, h2) =
        >>=-eq-ok (shared_key w (get_key section (bytes "PreSharedKey"))) _ h1 in
      let (endpoint, e3, h3) =
        >>=-eq-ok (peer_endpoint w (get_key section (bytes "Endpoint"))) _ h2 in
      let (alive, e4, h4) =
        >>=-eq-ok (int_or w (pos 0) (get_key section (bytes "PersistentKeepalive"))) _ h3 in
      let (ips, e5, h5) = >>=-eq-ok (parse_allowed_ips w section) _ h4 in
      subst IsPeer (ok_inj h5) (record {
        keyed = parse_base64_key-IsHexKey section (bytes "PublicKey") e1;
        shared = shared_key-IsHexKey (get_key section (bytes "PreSharedKey")) e2;
      })

  some_sections-eq-ok :
      (o : Option (List Section)) {sections : List Section}
      → some_sections w o ≡ ok sections
      → (o ≡ some sections) × (sections ≢ [])
  some_sections-eq-ok none h = absurd (ok-ne-err (sym h))
  some_sections-eq-ok (some []) h = absurd (ok-ne-err (sym h))
  some_sections-eq-ok (some (s ∷ ss)) h = (cc, λ e. cc)

  some_sections_filled :
      (sections : List Section) → sections ≢ [] → some_sections w (some sections) ≡ ok sections
  some_sections_filled [] n = absurd (n refl)
  some_sections_filled (s ∷ ss) n = refl

  -- `ParsePeers` returns a list exactly when there is a [Peer] section and every one of them parses
  -- as a peer; then it has appended one peer for each section, in the order of the file.
  pub parse_peers_iff :
      (cfg : File) (peers result : List (PeerConfig w))
      → (parse_peers w cfg peers ≡ ok result) ↔ (
          (sections : List Section) × (new : List (PeerConfig w)) × (sections_by_name cfg
              (bytes "Peer")
            ≡ some sections)
          × (sections ≢ [])
          × Each (parse_peer w) sections new
          × (result ≡ peers ++ new))
  unfolding parse_peers
  parse_peers_iff cfg peers result = (
    λ h.
        let (sections, e, h1) =
          >>=-eq-ok (some_sections w (sections_by_name cfg (bytes "Peer"))) _ h in
        let (found, filled) = some_sections-eq-ok (sections_by_name cfg (bytes "Peer")) e in
        let (new, each, same) = append_all_sound (parse_peer w) sections peers result h1 in
        (sections, new, found, filled, each, same),
    λ (sections, new, found, filled, each, same).
        rw (found, some_sections_filled sections filled, same)
          (append_all_complete (parse_peer w) peers each),
  )
