-- ===== src/Resolve/Strategy.antt =====
-- `ResolveAddrWithContext` under every strategy.
use mathlib.Core.Path.{subst}
use scramjet_app.Base.{
  >>=-eq-ok, Bool, Bool-cases, Bytes, List, Result, Result-cases, bytes, bytes_eq, bytes_eq_iff,
  err, inl, inr, ok, ok_inj, refl, sym, ℕ, ◌∙◌, ◌≡◌, ◌≢◌,
}
use scramjet_app.Config.{ResolveConfig}
use scramjet_app.Platform.{Platform}
use scramjet_app.Resolve.{resolve_addr, resolve_name}
use scramjet_app.Resolve.Laws.{
  From, Outcome, is_v6, resolve_addr_ipv4, resolve_addr_ipv6, resolve_addr_unknown,
}

module _ (w : Platform) (resolve : ResolveConfig) (lookup : Bytes → Result (List Bytes))
    (draw4 draw6 : ℕ → ℕ) (name : Bytes) where
  open w use {Addr, is4}

  resolve_addr-lookup-err :
      {e : Bytes} → lookup name ≡ err e → resolve_addr w resolve lookup draw4 draw6 name ≡ err e
  unfolding resolve_addr
  resolve_addr-lookup-err h = rw h refl

  -- With the strategy "ipv4" a name resolves to one of the addresses that the look-up returned, to an
  -- IPv4 address if there is one and to an IPv6 address otherwise, and it fails only if no address of
  -- either family was returned; the shuffles do not matter. With "ipv6" the families change places.
  -- With any other strategy every name fails to resolve. An error of the look-up is passed on.
  pub resolve_addr_lem :
      ((addrs : List Bytes)
        → lookup name ≡ ok addrs
        → (resolve.resolve_strategy ≡ bytes "ipv4"
            → Outcome w is4 (is_v6 w) addrs (resolve_addr w resolve lookup draw4 draw6 name))
          × (resolve.resolve_strategy ≡ bytes "ipv6"
              → Outcome w (is_v6 w) is4 addrs (resolve_addr w resolve lookup draw4 draw6 name)))
      × (resolve.resolve_strategy ≢ bytes "ipv4"
          → resolve.resolve_strategy ≢ bytes "ipv6"
          → (message : Bytes) × (resolve_addr w resolve lookup draw4 draw6 name ≡ err message))
      × ((e : Bytes) → lookup name ≡ err e → resolve_addr w resolve lookup draw4 draw6 name ≡ err e)
  resolve_addr_lem = (
    λ addrs h. (
      λ s. resolve_addr_ipv4 w resolve lookup draw4 draw6 name addrs s h,
      λ s. resolve_addr_ipv6 w resolve lookup draw4 draw6 name addrs s h,
    ),
    λ n4 n6. resolve_addr_unknown w resolve lookup draw4 draw6 name n4 n6,
    λ e h. resolve_addr-lookup-err h,
  )

  outcome-From :
      (first second : Addr → Bool) (addrs : List Bytes) {r : Result Addr} {a : Addr}
      → r ≡ ok a
      → Outcome w first second addrs r
      → From w addrs a
  outcome-From first second addrs h (inl (b, e, p)) =
      subst (From w addrs) (ok_inj (sym e ∙ h)) p.found
  outcome-From first second addrs h (inr (e1, e2, (m, e))) = cc

  -- What a name resolves to was looked up.
  pub resolve_addr-From :
      {a : Addr}
      → resolve_addr w resolve lookup draw4 draw6 name ≡ ok a
      → (addrs : List Bytes) × (lookup name ≡ ok addrs) × From w addrs a
  resolve_addr-From h = elim (Result-cases (lookup name)) [
    | inr (e, failed) ↦ let passed = resolve_addr-lookup-err failed in cc
    | inl (addrs, found) ↦ elim (Bool-cases (bytes_eq resolve.resolve_strategy (bytes "ipv4"))) [
      | inl s4 ↦ (
        addrs,
        found,
        outcome-From is4 (is_v6 w) addrs h (
            (resolve_addr_lem.0 addrs found).0
              ((bytes_eq_iff resolve.resolve_strategy (bytes "ipv4")).0 s4)),
      )
      | inr n4 ↦ elim (Bool-cases (bytes_eq resolve.resolve_strategy (bytes "ipv6"))) [
        | inl s6 ↦ (
          addrs,
          found,
          outcome-From (is_v6 w) is4 addrs h (
              (resolve_addr_lem.0 addrs found).1
                ((bytes_eq_iff resolve.resolve_strategy (bytes "ipv6")).0 s6)),
        )
        | inr n6 ↦
            let (m, fails) =
              resolve_addr_unknown w resolve lookup draw4 draw6 name
                (λ s. let yes4 = (bytes_eq_iff resolve.resolve_strategy (bytes "ipv4")).1 s in cc)
                (λ s.
                  let yes6 = (bytes_eq_iff resolve.resolve_strategy (bytes "ipv6")).1 s in cc) in
            cc
      ]
    ]
  ]

  -- What the SOCKS5 server is told of a name is the text of an address that was looked up.
  resolve_name-From :
      (as_slice : Addr → Bytes) {ip : Bytes}
      → resolve_name w as_slice resolve lookup draw4 draw6 name ≡ ok ip
      → (addrs : List Bytes) × (a : Addr) × (lookup name ≡ ok addrs)
        × From w addrs a
        × (ip ≡ as_slice a)
  unfolding resolve_name
  resolve_name-From as_slice h =
      let (a, e, h1) = >>=-eq-ok (resolve_addr w resolve lookup draw4 draw6 name) _ h in
      let (addrs, looked, from) = resolve_addr-From e in (addrs, a, looked, from, sym (ok_inj h1))
