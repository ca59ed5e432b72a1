-- ===== src/Resolve.antt =====
-- wireproxy/routine.go: name resolution, `parseAddressPort` and `resolveToAddrPort`.
pub mod Laws
pub mod Strategy
use scramjet_app.Base.{
  Bool, Bytes, List, Option, Result, [], bytes, bytes_eq, err, if◌then◌else◌, ltb, not, ok, some, ℕ,
  ◌&&◌, ◌++◌, ◌>>=◌, ◌∷◌,
}
use scramjet_app.Base.Int.{ℤ, pos}
use scramjet_app.Config.{ResolveConfig}
use scramjet_app.Go.Net.{split_host_port}
use scramjet_app.Go.Rand.{shuffle}
use scramjet_app.Go.Strconv.{atoi}
use scramjet_app.Platform.{Platform}

-- `addressPort`; the port is an uint16.
pub record AddressPort : Type 0 where
  pub address : Bytes
  pub port : ℕ

abbrev pub numeric_error : Bytes
numeric_error = bytes "dial: port must be numeric"

-- An integer from 0 to 65535, as an uint16.
abbrev pub checked_port : Bytes → Option ℤ → Result AddressPort
checked_port name (some (pos port)) =
    if ltb 65535 port then err numeric_error else ok (record { address = name; port = port })
checked_port name _ = err numeric_error

-- `parseAddressPort`
unfoldable pub parse_address_port : Bytes → Result AddressPort
parse_address_port endpoint = do
  (name, sport) ← split_host_port endpoint
  checked_port name (atoi sport)

-- `LookupAddr`: the system's resolver, or the one behind the tunnel.
unfoldable pub lookup_addr :
    Bool
    → (Bytes → Result (List Bytes))
    → (Bytes → Result (List Bytes))
    → Bytes
    → Result (List Bytes)
lookup_addr system_dns system tunnel name = if system_dns then system name else tunnel name

module _ (w : Platform) where
  open w use {Addr, parse_addr, is4, is6}

  abbrev pub kept : (Addr → Bool) → Result Addr → List Addr → List Addr
  kept keep (err _) rest = rest
  kept keep (ok addr) rest = if keep addr then addr ∷ rest else rest

  -- The addresses that parse and that `keep` accepts, in order: one of the two lists that the loop
  -- of `ResolveAddrWithContext` fills.
  unfoldable pub collect : (Addr → Bool) → List Bytes → List Addr
  collect keep [] = []
  collect keep (saddr ∷ addrs) = kept keep (parse_addr saddr) (collect keep addrs)

  -- The `switch` over the strategy.
  abbrev pub ordered : ResolveConfig → List Addr → List Addr → List Addr
  ordered resolve v4 v6 =
      if bytes_eq resolve.resolve_strategy (bytes "ipv4")
      then v4 ++ v6
      else if bytes_eq resolve.resolve_strategy (bytes "ipv6")
      then v6 ++ v4
      else []

  abbrev pub first_of_all : Bytes → List Addr → Result Addr
  first_of_all name [] = err (bytes "no address found for: " ++ name)
  first_of_all name (addr ∷ rest) = ok addr

  -- `ResolveAddrWithContext`, given the look-up of names and the two shuffles' random sources.
  unfoldable pub resolve_addr :
      ResolveConfig → (Bytes → Result (List Bytes)) → (ℕ → ℕ) → (ℕ → ℕ) → Bytes → Result Addr
  unfolding collect
  resolve_addr resolve lookup draw4 draw6 name = do
    addrs ← lookup name
    let addrs_v4 = shuffle draw4 (collect is4 addrs)
    let addrs_v6 = shuffle draw6 (collect (λ a. not (is4 a) && is6 a) addrs)
    first_of_all name (ordered resolve addrs_v4 addrs_v6)

  -- `Resolve`, which the SOCKS5 server calls; `as_slice` is netip's `Addr.AsSlice`.
  unfoldable pub resolve_name :
      (Addr → Bytes)
      → ResolveConfig
      → (Bytes → Result (List Bytes))
      → (ℕ → ℕ)
      → (ℕ → ℕ)
      → Bytes
      → Result Bytes
  unfolding resolve_addr
  resolve_name as_slice resolve lookup draw4 draw6 name = do
    addr ← resolve_addr resolve lookup draw4 draw6 name
    ok (as_slice addr)

  -- `resolveToAddrPort`
  unfoldable pub resolve_to_addr_port :
      ResolveConfig
      → (Bytes → Result (List Bytes))
      → (ℕ → ℕ)
      → (ℕ → ℕ)
      → AddressPort
      → Result (Addr × ℕ)
  unfolding resolve_addr
  resolve_to_addr_port resolve lookup draw4 draw6 endpoint = do
    addr ← resolve_addr resolve lookup draw4 draw6 endpoint.address
    ok (addr, endpoint.port)
