-- ===== src/Config/Expand.antt =====
-- `parseString` and `parsePort`: what the value of a key stands for.
use scramjet_app.Base.{
  ==_iff, >>=-eq-ok, Bool-cases, Bytes, Option-cases, [], arith, bytes, err, false, if◌then◌else◌,
  inl, inr, ltb, none, not, ok, ok-ne-err, refl, some, sym, true, ℕ, ◌++◌, ◌<◌, ◌==◌, ◌||◌, ◌↔◌,
  ◌∷◌, ◌≡◌,
}
use scramjet_app.Base.Int.{ℤ, pos, ltb_ℤ, negsuc}
use scramjet_app.Config.Values.{expand, parse_string, parse_port, port_error}
use scramjet_app.Go.Strings.{has_prefix, trim_prefix, to_lower, replace_once}
use scramjet_app.Platform.{Platform}

-- How to write a literal value: a value that begins with a dollar gets a second one.
unfoldable pub escape : Bytes → Bytes
escape [] = []
escape (c ∷ s) = if c == b'$' then c ∷ c ∷ s else c ∷ s

escape_nil : escape [] ≡ []
unfolding escape
escape_nil = refl

escape_dollar : (c : ℕ) (s : Bytes) → (c == b'$') ≡ true → escape (c ∷ s) ≡ c ∷ c ∷ s
unfolding escape
escape_dollar c s h = rw h

escape_other : (c : ℕ) (s : Bytes) → (c == b'$') ≡ false → escape (c ∷ s) ≡ c ∷ s
unfolding escape
escape_other c s h = rw h

module _ (w : Platform) where
  open w use {Section, key, key_string, key_int, lookup_env, lower_runes}

  expand_doubled :
      (key_name s : Bytes) {c : ℕ} → (c == b'$') ≡ true → expand w key_name (c ∷ c ∷ s) ≡ ok (c ∷ s)
  unfolding expand replace_once
  expand_doubled key_name s h = rw ((==_iff _ b'$').0 h)

  expand_plain :
      (key_name s : Bytes) {c : ℕ} → (c == b'$') ≡ false → expand w key_name (c ∷ s) ≡ ok (c ∷ s)
  unfolding expand has_prefix
  expand_plain key_name s h = rw h

  expand_nil : (key_name : Bytes) → expand w key_name [] ≡ ok []
  unfolding expand has_prefix
  expand_nil key_name = refl

  expand-escape : (key_name value : Bytes) → expand w key_name (escape value) ≡ ok value
  expand-escape key_name [] = rw escape_nil (expand_nil key_name)
  expand-escape key_name (c ∷ s) = elim (Bool-cases (c == b'$')) [
    | inl doubled ↦ rw (escape_dollar c s doubled) (expand_doubled key_name s doubled)
    | inr other ↦ rw (escape_other c s other) (expand_plain key_name s other)
  ]

  -- A single dollar names a variable.
  expand_env :
      (key_name name : Bytes)
      → has_prefix name (bytes "$") ≡ false
      → expand w key_name (b'$' ∷ name) ≡ elim (lookup_env name) [
        | none ↦ err (key_name ++ (bytes " references unset environment variable " ++ b'$' ∷ name))
        | some found ↦ ok found
      ]
  unfolding expand has_prefix trim_prefix
  expand_env key_name name plain = rw plain

  -- Every value can be written: a key that holds the value escaped is read as the value itself,
  -- whatever the environment.
  pub parse_string-escape :
      (section : Section) (key_name value : Bytes) (k : w.Key)
      → key section (to_lower lower_runes key_name) ≡ some k
      → key_string k ≡ escape value
      → parse_string w section key_name ≡ ok value
  unfolding parse_string
  parse_string-escape section key_name value k found e =
      rw (found, parse_string, e) (expand-escape key_name value)

  -- "$NAME" is the variable's value if it is set, and an error with the name if it is not, as long
  -- as the name does not begin with a dollar.
  parse_string_env :
      (section : Section) (key_name name : Bytes) (k : w.Key)
      → key section (to_lower lower_runes key_name) ≡ some k
      → key_string k ≡ b'$' ∷ name
      → has_prefix name (bytes "$") ≡ false
      → parse_string w section key_name ≡ elim (lookup_env name) [
        | none ↦ err (key_name ++ (bytes " references unset environment variable " ++ b'$' ∷ name))
        | some found ↦ ok found
      ]
  unfolding parse_string
  parse_string_env section key_name name k found e plain =
      rw (found, parse_string, e) (expand_env key_name name plain)

  in_range_ok : (n : ℕ) → n < 65536 → (ltb n 0 || not (ltb n 65536)) ≡ false
  in_range_ok n h = ground arith

  in_range :
      (p : ℤ) (message : Bytes) {port : ℤ}
      → (if ltb_ℤ p (pos 0) || not (ltb_ℤ p (pos 65536)) then err message else ok p) ≡ ok port
      → (port ≡ p) × (n : ℕ) × (port ≡ pos n) × (n < 65536)
  in_range (pos n) message h = ground arith
  in_range (negsuc n) message h = ground arith

  -- A port is accepted exactly when its key holds an integer from 0 to 65535.
  pub parse_port_iff :
      (section : Section) (key_name : Bytes) (port : ℤ)
      → (parse_port w section key_name ≡ ok port) ↔ (
          (k : w.Key) × (key section key_name ≡ some k)
          × (key_int k ≡ ok port)
          × ((n : ℕ) × (port ≡ pos n) × (n < 65536)))
  unfolding parse_port
  parse_port_iff section key_name port = (
    λ h. elim (Option-cases (key section key_name)) [
      | inl gone ↦ absurd (ok-ne-err (sym (rw (gone, parse_port) at h)))
      | inr (k, found) ↦
          let (p, read, tested) = >>=-eq-ok (key_int k) _ (rw (found, parse_port) at h) in
          let (same, n, e, small) = in_range p (port_error w) tested in
          (k, found, rw same read, (n, e, small))
    ],
    λ (k, found, read, range). rw (found, parse_port, read, range.1, in_range_ok range.0 range.2),
  )
