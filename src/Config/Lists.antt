-- ===== src/Config/Lists.antt =====
-- The comma-separated lists of `parseNetIP`, `parseCIDRNetIP` and `parseAllowedIPs`.
use scramjet_app.Platform.{Platform}
use mathlib.Core.Path.{subst}
use scramjet_app.Base.{
  >>=-eq-ok, Bytes, List, Result, Result-cases, [], bytes, inl, inr, ok, ok_inj, refl, ◌↔◌, ◌∷◌,
  ◌≡◌, ◌≢◌,
}
use scramjet_app.Config.Values.{
  parse_parts, add_part, parse_allowed_ips, parse_net_ip, parse_addr_or_prefix, parse_string,
  parse_cidr_net_ip,
}
use scramjet_app.Go.Strings.{trim_space, split}

-- What the parts of a list stand for, one after the other: a part that is blank when trimmed
-- stands for nothing, any other for what `parse` makes of the trimmed text.
pub data Denotes {ℓ} {A : Type ℓ} (parse : Bytes → Result A) : List Bytes → List A → Type ℓ where
  done : Denotes parse [] []
  blank :
      {str : Bytes} {keys : List Bytes} {ips : List A}
      → trim_space str ≡ []
      → Denotes parse keys ips
      → Denotes parse (str ∷ keys) ips
  item :
      {str text : Bytes} {keys : List Bytes} {ip : A} {ips : List A}
      → trim_space str ≡ text
      → text ≢ []
      → parse text ≡ ok ip
      → Denotes parse keys ips
      → Denotes parse (str ∷ keys) (ip ∷ ips)

module _ {ℓ} {A : Type ℓ} (parse : Bytes → Result A) where
  add_part_sound :
      (str : Bytes) (keys : List Bytes) (text : Bytes) (rest : Result (List A)) (ips : List A)
      → trim_space str ≡ text
      → ((ips' : List A) → rest ≡ ok ips' → Denotes parse keys ips')
      → add_part parse text rest ≡ ok ips
      → Denotes parse (str ∷ keys) ips
  add_part_sound str keys [] rest ips t ih h = blank t (ih ips h)
  add_part_sound str keys (c ∷ s) rest ips t ih h =
      let (ip, parsed, h1) = >>=-eq-ok (parse (c ∷ s)) _ h in
      let (more, e, h2) = >>=-eq-ok rest _ h1 in
      subst (Denotes parse (str ∷ keys)) (ok_inj h2) (item t (λ p. cc) parsed (ih more e))

  pub parts_sound :
      (keys : List Bytes) (ips : List A) → parse_parts parse keys ≡ ok ips → Denotes parse keys ips
  unfolding parse_parts
  parts_sound [] ips h = subst (Denotes parse []) (ok_inj h) done
  parts_sound (str ∷ keys) ips h =
      add_part_sound str keys (trim_space str) (parse_parts parse keys) ips refl (parts_sound keys)
        h

  add_part_item :
      (text : Bytes) (ip : A) (ips : List A)
      → text ≢ []
      → parse text ≡ ok ip
      → add_part parse text (ok ips) ≡ ok (ip ∷ ips)
  add_part_item [] ip ips n p = absurd (n refl)
  add_part_item (c ∷ s) ip ips n p = rw p

  pub parts_complete :
      {keys : List Bytes} {ips : List A} → Denotes parse keys ips → parse_parts parse keys ≡ ok ips
  unfolding parse_parts
  parts_complete done = refl
  parts_complete (blank b d) = rw b (parts_complete d)
  parts_complete (item {text} {ip} {ips} t n p d) =
      rw (t, parts_complete d) (add_part_item text ip ips n p)

module _ (w : Platform) (section : w.Section) where
  -- Where the key's value is a text, `parseNetIP` returns a list exactly when the list is what the
  -- comma-separated parts of the text denote, each as an address.
  pub parse_net_ip_iff :
      (key_name text : Bytes) (ips : List w.Addr)
      → parse_string w section key_name ≡ ok text
      → (parse_net_ip w section key_name ≡ ok ips) ↔ Denotes w.parse_addr (split b',' text) ips
  unfolding parse_net_ip
  parse_net_ip_iff key_name text ips h = (
    λ e. parts_sound w.parse_addr (split b',' text) ips (rw h at e),
    λ d. rw h (parts_complete w.parse_addr d),
  )

  -- So does `parseAllowedIPs`, each part as a prefix.
  parse_allowed_ips_iff :
      (text : Bytes) (ips : List w.Prefix)
      → parse_string w section (bytes "AllowedIPs") ≡ ok text
      → (parse_allowed_ips w section ≡ ok ips) ↔ Denotes w.parse_prefix (split b',' text) ips
  unfolding parse_allowed_ips
  parse_allowed_ips_iff text ips h = (
    λ e. parts_sound w.parse_prefix (split b',' text) ips (rw h at e),
    λ d. rw h (parts_complete w.parse_prefix d),
  )

  widen :
      {keys : List Bytes} {ips : List w.Addr}
      → Denotes w.parse_addr keys ips
      → Denotes (parse_addr_or_prefix w) keys ips
  unfolding parse_addr_or_prefix
  widen done = done
  widen (blank b d) = blank b (widen d)
  widen (item t n p d) = item t n (rw (p, parse_addr_or_prefix)) (widen d)

  -- `parseCIDRNetIP` accepts every list that `parseNetIP` accepts, with the same result; it
  -- accepts prefixes besides.
  parse_cidr_net_ip-parse_net_ip :
      (key_name : Bytes) (ips : List w.Addr)
      → parse_net_ip w section key_name ≡ ok ips
      → parse_cidr_net_ip w section key_name ≡ ok ips
  unfolding parse_net_ip parse_cidr_net_ip
  parse_cidr_net_ip-parse_net_ip key_name ips h =
      elim (Result-cases (parse_string w section key_name)) [
        | inl (text, e) ↦ rw e (
            parts_complete (parse_addr_or_prefix w)
              (widen (parts_sound w.parse_addr (split b',' text) ips (rw e at h))))
        | inr (message, e) ↦ rw e (rw e at h)
      ]
