-- ===== src/Health/Metrics.antt =====
-- The redaction of the metrics.
use scramjet_app.Base.{
  All, Bool-cases, Bytes, List, [], ap, bytes, bytes_eq, bytes_eq_iff, if◌then◌else◌, inl, inr, map,
  ok, refl, sym, ◌∷◌, ◌≡◌, ◌≢◌,
}
use mathlib.Core.List.{append_assoc}
use mathlib.Core.Path.{subst}
use scramjet_app.Go.Strings.{split, split_n2}
use scramjet_app.Go.Strings.Laws.{cut-append}
use scramjet_app.Health.{is_secret, redacted, metrics_lines, metrics}
use scramjet_app.Wireguard.Request.{Pair, print_pairs}
use scramjet_app.Wireguard.Reading.{IsLine, split_line}

-- A setting of the device as the metrics show it.
abbrev redact : Pair → Pair
redact (key, value) = (key, if is_secret key then redacted else value)

lines-print :
    (pairs : List Pair)
    → All IsLine pairs
    → metrics_lines (split 10 (print_pairs pairs)) ≡ print_pairs (map redact pairs)
unfolding metrics_lines print_pairs split split_n2
lines-print [] h = refl
lines-print ((key, value) ∷ pairs) ((k, l, v), h) =
    rw
      (
        split_line key value (print_pairs pairs) l v,
        metrics_lines,
        split_n2,
        cut-append b'=' key value k,
        lines-print pairs h,
      )
      (simp append_assoc)

-- What the metrics show of a setting.
pub data Shows : Pair → Pair → Type 0 where
  hides_private_key :
      (value : Bytes) → Shows (bytes "private_key", value) (bytes "private_key", bytes "REDACTED")
  hides_preshared_key :
      (value : Bytes)
      → Shows (bytes "preshared_key", value) (bytes "preshared_key", bytes "REDACTED")
  keeps :
      (key value : Bytes)
      → key ≢ bytes "private_key"
      → key ≢ bytes "preshared_key"
      → Shows (key, value) (key, value)

pub data ShowsAll : List Pair → List Pair → Type 0 where
  shows_nothing : ShowsAll [] []
  shows_first :
      {setting shown : Pair} {settings rest : List Pair}
      → Shows setting shown
      → ShowsAll settings rest
      → ShowsAll (setting ∷ settings) (shown ∷ rest)

redact-Shows : (setting : Pair) → Shows setting (redact setting)
redact-Shows (key, value) = elim (Bool-cases (bytes_eq key (bytes "private_key"))) [
  | inl private ↦ rw private (
      subst (λ k. Shows (k, value) (k, redacted))
        (sym ((bytes_eq_iff key (bytes "private_key")).0 private)) (hides_private_key value))
  | inr public ↦ elim (Bool-cases (bytes_eq key (bytes "preshared_key"))) [
    | inl shared ↦
        rw (public, shared)
          (subst (λ k. Shows (k, value) (k, redacted))
            (sym ((bytes_eq_iff key (bytes "preshared_key")).0 shared)) (hides_preshared_key value))
    | inr other ↦
        rw (public, other)
          (keeps key value (λ e. let yes_it = (bytes_eq_iff key (bytes "private_key")).1 e in cc)
            (λ e. let yes_it = (bytes_eq_iff key (bytes "preshared_key")).1 e in cc))
  ]
]

redact-ShowsAll : (settings : List Pair) → ShowsAll settings (map redact settings)
redact-ShowsAll [] = shows_nothing
redact-ShowsAll (setting ∷ settings) = shows_first (redact-Shows setting) (redact-ShowsAll settings)

-- Where no key of the device's settings holds "=" and no key or value holds a line end, the metrics are
-- the settings, line by line and in order: each "private_key" and "preshared_key" with the value
-- "REDACTED", and every other setting as it is.
pub metrics-print :
    (pairs : List Pair)
    → All IsLine pairs
    → (shown : List Pair) × ShowsAll pairs shown
      × (metrics (ok (print_pairs pairs)) ≡ record { status = 200; body = print_pairs shown })
unfolding metrics
metrics-print pairs h = (
  map redact pairs,
  redact-ShowsAll pairs,
  ap (λ b. record { status = 200; body = b }) (lines-print pairs h),
)
