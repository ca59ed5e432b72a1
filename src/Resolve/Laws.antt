-- ===== src/Resolve/Laws.antt =====
-- Which address a name resolves to, by the strategy.
use mathlib.Core.Path.{subst}
use scramjet_app.Base.Int.{negsuc}
use scramjet_app.Base.{
  >>=-eq-ok, All, All-mono, Bool, Bool-cases, Bytes, List, Option, Result, Result-cases, [], ap,
  arith, bytes, bytes_eq, bytes_eq_ne, err, false, inl, inr, length, ltb, none, not, ok, ok-ne-err,
  ok_inj, refl, some, sym, true, ℕ, ◌&&◌, ◌++◌, ◌<◌, ◌^◌, ◌∙◌, ◌∷◌, ◌≡◌, ◌≢◌, ◌⊎◌,
}
use scramjet_app.Go.Net.{join_host_port, split_host_port}
use scramjet_app.Go.Net.Laws.{NoBrackets, split_host_port-join_host_port}
use scramjet_app.Go.Rand.{shuffle, length-shuffle, All-shuffle}
use scramjet_app.Go.Strconv.{itoa_ℕ, atoi}
use scramjet_app.Go.Strconv.Laws.{itoa_ℕ-Lacks, atoi-itoa_ℕ}
use scramjet_app.Platform.{Platform}
use scramjet_app.Resolve.{
  AddressPort, parse_address_port, collect, first_of_all, resolve_addr, ℤ, checked_port, kept,
  ResolveConfig, pos,
}

small_port : (port : ℕ) → port < 65536 → port < 2 ^ 63
small_port port h = omega arith

not_large :
    {host : Bytes} (port : ℕ)
    → port < 65536
    → checked_port host (some (pos port)) ≡ ok (record { address = host; port = port })
not_large port h = ground arith

checked_port-lt :
    (name : Bytes) (n : Option ℤ) (a : AddressPort) → checked_port name n ≡ ok a → a.port < 65536
checked_port-lt name none a h = cc
checked_port-lt name (some (negsuc n)) a h = cc
checked_port-lt name (some (pos n)) a h = elim (Bool-cases (ltb 65535 n)) [
  | inl large ↦ absurd (ok-ne-err (sym (rw large at h)))
  | inr fits ↦ subst (λ (b : AddressPort). b.port < 65536) (ok_inj (rw fits at h)) (ground arith)
]

-- An address with a port from 0 to 65535 in decimal is parsed into its parts, whether the host is a
-- name, an IPv4 address or an IPv6 address, which is written in brackets.
pub parse_address_port-join_host_port :
    (host : Bytes) (port : ℕ)
    → NoBrackets host
    → port < 65536
    → parse_address_port (join_host_port host (itoa_ℕ port))
      ≡ ok (record { address = host; port = port })
unfolding parse_address_port
parse_address_port-join_host_port host port h small =
    rw
      (
        split_host_port-join_host_port host (itoa_ℕ port) h
            (itoa_ℕ-Lacks b'[' port refl, itoa_ℕ-Lacks b']' port refl)
            (itoa_ℕ-Lacks b':' port refl),
        atoi-itoa_ℕ port (small_port port small),
      )
      (not_large port small)

-- Every endpoint that is accepted has a port below 65536.
parse_address_port-lt :
    (endpoint : Bytes) {a : AddressPort} → parse_address_port endpoint ≡ ok a → a.port < 65536
unfolding parse_address_port
parse_address_port-lt endpoint {a} h =
    let ((name, sport), e, h1) = >>=-eq-ok (split_host_port endpoint) _ h in
    checked_port-lt name (atoi sport) a h1

module _ (w : Platform) where
  open w use {Addr, parse_addr, is4, is6}

  -- One of the texts is the address.
  abbrev pub From : List Bytes → Addr → Type 0
  From [] a = ⊥
  From (saddr ∷ addrs) a = (parse_addr saddr ≡ ok a) ⊎ From addrs a

  kept-All :
      (keep : Addr → Bool) (saddr : Bytes) (addrs : List Bytes) (r : Result Addr) (rest : List Addr)
      → parse_addr saddr ≡ r
      → All (λ a. From (saddr ∷ addrs) a × (keep a ≡ true)) rest
      → All (λ a. From (saddr ∷ addrs) a × (keep a ≡ true)) (kept w keep r rest)
  kept-All keep saddr addrs (err e) rest p h = h
  kept-All keep saddr addrs (ok a) rest p h = elim (Bool-cases (keep a)) [
    | inl kept_it ↦ rw kept_it ((inl p, kept_it), h)
    | inr dropped ↦ rw dropped h
  ]

  collect-All :
      (keep : Addr → Bool) (addrs : List Bytes)
      → All (λ a. From addrs a × (keep a ≡ true)) (collect w keep addrs)
  unfolding collect
  collect-All keep [] = tt
  collect-All keep (saddr ∷ addrs) =
      kept-All keep saddr addrs (parse_addr saddr) (collect w keep addrs) refl (
        All-mono (λ a. From addrs a × (keep a ≡ true))
          (λ a. From (saddr ∷ addrs) a × (keep a ≡ true)) (λ a h. (inr h.0, h.1))
          (collect w keep addrs) (collect-All keep addrs))

  shuffle-nil : (draw : ℕ → ℕ) (xs : List Addr) → shuffle draw xs ≡ [] → xs ≡ []
  shuffle-nil draw [] h = refl
  shuffle-nil draw (x ∷ xs) h = absurd (omega (arith, length-shuffle draw (x ∷ xs), ap length h))

  -- The first address of two lists, of which the second counts if the first is empty.
  first_of_two {κ} :
      (P Q : Addr → Type κ) (name : Bytes) (xs ys : List Addr)
      → All P xs
      → All Q ys
      → ((first_of_all w name (xs ++ ys) ≡ err (bytes "no address found for: " ++ name))
          × (xs ≡ [])
          × (ys ≡ []))
        ⊎ ((a : Addr) × (first_of_all w name (xs ++ ys) ≡ ok a) × (P a ⊎ ((xs ≡ []) × Q a)))
  first_of_two P Q name [] [] hx hy = inl (refl, refl, refl)
  first_of_two P Q name [] (y ∷ ys) hx hy = inr (y, refl, inr (refl, hy.0))
  first_of_two P Q name (x ∷ xs) ys hx hy = inr (x, refl, inl hx.0)

  -- No text parses as an address of the family.
  abbrev pub Lacking : (Addr → Bool) → List Bytes → Type 0
  Lacking family addrs = (a : Addr) → From addrs a → family a ≡ false

  kept-nil :
      (keep : Addr → Bool) (r : Result Addr) (rest : List Addr)
      → kept w keep r rest ≡ []
      → (rest ≡ []) × ((a : Addr) → r ≡ ok a → keep a ≡ false)
  kept-nil keep (err e) rest h = (h, λ a same. cc)
  kept-nil keep (ok b) rest h = elim (Bool-cases (keep b)) [
    | inl kept_it ↦
        let same : kept w keep (ok b) rest ≡ b ∷ rest = rw kept_it refl in
        let nothing = sym same ∙ h in cc
    | inr dropped ↦
        let same : kept w keep (ok b) rest ≡ rest = rw dropped refl in
        (sym same ∙ h, λ a e. subst (λ x. keep x ≡ false) (ok_inj e) dropped)
  ]

  -- What is not collected is not there.
  collect-nil :
      (keep : Addr → Bool) (addrs : List Bytes) → collect w keep addrs ≡ [] → Lacking keep addrs
  unfolding collect
  collect-nil keep [] h a found = absurd found
  collect-nil keep (saddr ∷ addrs) h a (inl parses) =
      (kept-nil keep (parse_addr saddr) (collect w keep addrs) h).1 a parses
  collect-nil keep (saddr ∷ addrs) h a (inr later) =
      collect-nil keep addrs (kept-nil keep (parse_addr saddr) (collect w keep addrs) h).0 a later

  -- The addresses that a name may resolve to when those that `first` accepts are preferred.
  pub record Prefers (first second : Addr → Bool) (addrs : List Bytes) (a : Addr) : Type 0 where
    pub found : From addrs a
    pub family : (first a ≡ true) ⊎ (Lacking first addrs × (second a ≡ true))

  abbrev pub is_v6 : Addr → Bool
  is_v6 a = not (is4 a) && is6 a

  -- Either there is an address, and the preferred family comes first, or no address parses.
  abbrev pub Outcome : (Addr → Bool) → (Addr → Bool) → List Bytes → Result Addr → Type 0
  Outcome first second addrs r =
      ((a : Addr) × (r ≡ ok a) × Prefers first second addrs a)
      ⊎ (Lacking first addrs × Lacking second addrs × ((message : Bytes) × (r ≡ err message)))

  two_lists :
      (first second : Addr → Bool) (name : Bytes) (addrs : List Bytes) (draw1 draw2 : ℕ → ℕ)
      → Outcome first second addrs (
          first_of_all w name
            (shuffle draw1 (collect w first addrs) ++ shuffle draw2 (collect w second addrs)))
  two_lists first second name addrs draw1 draw2 =
      elim (first_of_two (λ a. From addrs a × (first a ≡ true))
        (λ a. From addrs a × (second a ≡ true)) name (shuffle draw1 (collect w first addrs))
        (shuffle draw2 (collect w second addrs))
        (All-shuffle (λ a. From addrs a × (first a ≡ true)) draw1 (collect w first addrs)
          (collect-All first addrs))
        (All-shuffle (λ a. From addrs a × (second a ≡ true)) draw2 (collect w second addrs)
          (collect-All second addrs))) [
            | inl (e, none1, none2) ↦ inr (
              collect-nil first addrs (shuffle-nil draw1 _ none1),
              collect-nil second addrs (shuffle-nil draw2 _ none2),
              (_, e),
            )
            | inr (a, e, inl h) ↦ inl (a, e, record { found = h.0; family = inl h.1 })
            | inr (a, e, inr (none1, h)) ↦ inl (
              a,
              e,
              record {
                found = h.0;
                family = inr (collect-nil first addrs (shuffle-nil draw1 _ none1), h.1);
              },
            )
          ]

  resolve_addr-v4 :
      (resolve : ResolveConfig) (lookup : Bytes → Result (List Bytes)) (draw4 draw6 : ℕ → ℕ)
      (name : Bytes) (addrs : List Bytes)
      → resolve.resolve_strategy ≡ bytes "ipv4"
      → lookup name ≡ ok addrs
      → resolve_addr w resolve lookup draw4 draw6 name
        ≡ first_of_all w name
            (shuffle draw4 (collect w is4 addrs) ++ shuffle draw6 (collect w is_v6 addrs))
  unfolding resolve_addr bytes_eq
  resolve_addr-v4 resolve lookup draw4 draw6 name addrs s e = rw (e, s)

  resolve_addr-v6 :
      (resolve : ResolveConfig) (lookup : Bytes → Result (List Bytes)) (draw4 draw6 : ℕ → ℕ)
      (name : Bytes) (addrs : List Bytes)
      → resolve.resolve_strategy ≡ bytes "ipv6"
      → lookup name ≡ ok addrs
      → resolve_addr w resolve lookup draw4 draw6 name
        ≡ first_of_all w name
            (shuffle draw6 (collect w is_v6 addrs) ++ shuffle draw4 (collect w is4 addrs))
  unfolding resolve_addr bytes_eq
  resolve_addr-v6 resolve lookup draw4 draw6 name addrs s e = rw (e, s)

  -- With the strategy "ipv4" a name resolves to one of the addresses that the look-up returned, to
  -- an IPv4 address if there is one and to an IPv6 address otherwise; it fails only if no address
  -- of either family was returned. The shuffles do not matter.
  pub resolve_addr_ipv4 :
      (resolve : ResolveConfig) (lookup : Bytes → Result (List Bytes)) (draw4 draw6 : ℕ → ℕ)
      (name : Bytes) (addrs : List Bytes)
      → resolve.resolve_strategy ≡ bytes "ipv4"
      → lookup name ≡ ok addrs
      → Outcome is4 is_v6 addrs (resolve_addr w resolve lookup draw4 draw6 name)
  resolve_addr_ipv4 resolve lookup draw4 draw6 name addrs s e =
      subst (Outcome is4 is_v6 addrs)
        (sym (resolve_addr-v4 resolve lookup draw4 draw6 name addrs s e))
        (two_lists is4 is_v6 name addrs draw4 draw6)

  -- With the strategy "ipv6" the families change places.
  pub resolve_addr_ipv6 :
      (resolve : ResolveConfig) (lookup : Bytes → Result (List Bytes)) (draw4 draw6 : ℕ → ℕ)
      (name : Bytes) (addrs : List Bytes)
      → resolve.resolve_strategy ≡ bytes "ipv6"
      → lookup name ≡ ok addrs
      → Outcome is_v6 is4 addrs (resolve_addr w resolve lookup draw4 draw6 name)
  resolve_addr_ipv6 resolve lookup draw4 draw6 name addrs s e =
      subst (Outcome is_v6 is4 addrs)
        (sym (resolve_addr-v6 resolve lookup draw4 draw6 name addrs s e))
        (two_lists is_v6 is4 name addrs draw6 draw4)

  -- With any other strategy every name fails to resolve, whatever the look-up returns.
  pub resolve_addr_unknown :
      (resolve : ResolveConfig) (lookup : Bytes → Result (List Bytes)) (draw4 draw6 : ℕ → ℕ)
      (name : Bytes)
      → resolve.resolve_strategy ≢ bytes "ipv4"
      → resolve.resolve_strategy ≢ bytes "ipv6"
      → (message : Bytes) × (resolve_addr w resolve lookup draw4 draw6 name ≡ err message)
  unfolding resolve_addr
  resolve_addr_unknown resolve lookup draw4 draw6 name n4 n6 = elim (Result-cases (lookup name)) [
    | inl (addrs, e) ↦ (
      bytes "no address found for: " ++ name,
      rw (
        e,
        bytes_eq_ne resolve.resolve_strategy (bytes "ipv4") n4,
        bytes_eq_ne resolve.resolve_strategy (bytes "ipv6") n6,
      ),
    )
    | inr (message, e) ↦ (message, rw e)
  ]
