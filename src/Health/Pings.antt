-- ===== src/Health/Pings.antt =====
-- What a ping record stands for, and what the readiness check makes of it.
use mathlib.Core.Path.{subst}
use scramjet_app.Base.{
  All, Bool, Bool-cases, Bytes, List, [], any, ap, arith, bytes_eq, bytes_eq_iff, bytes_eq_refl,
  false, if-cases, inl, inr, refl, sym, true, ℕ, ◌%◌, ◌*◌, ◌+◌, ◌<◌, ◌↔◌, ◌∙◌, ◌∷◌, ◌≡◌, ◌≤◌,
}
use scramjet_app.Base.Int.{pos, ◌+ℤ◌}
use scramjet_app.Go.Time.{longer, seconds}
use scramjet_app.Health.{
  refused, check_v4, check_v6, other_body, panics, and_then, PingRecord, is_stale, ready_status,
  Echo, ReplyBody, echo, raw, accepted, check_pong, check_bytes, Pong, put, start_ping_ips,
}

-- Not more than the interval and two seconds ago.
abbrev pub IsFresh : ℕ → ℕ → Bytes × ℕ → Type 0
IsFresh n now e = now ≤ (e.1 + (n + 2)) * 1000000000

pos_add : (a b : ℕ) → (pos a +ℤ pos b) ≡ pos (a + b)
unfolding ◌+ℤ◌
pos_add a b = ground arith

stale_iff :
    (n now : ℕ) (e : Bytes × ℕ)
    → (n + 2) * 1000000000 < 9223372036854775808
    → (is_stale (pos n) now e ≡ false) ↔ IsFresh n now e
unfolding is_stale
stale_iff n now (name, time) small =
    let same : ((n + 2) * 1000000000) % 18446744073709551616 ≡ (n + 2) * 1000000000 = omega arith in
    subst (λ z. (longer (seconds z) (time * 1000000000) now ≡ false) ↔ IsFresh n now (name, time))
      (sym (pos_add n 2))
      (subst (λ d. (longer d (time * 1000000000) now ≡ false) ↔ IsFresh n now (name, time))
        (sym same) (ground arith))

none_stale :
    (n now : ℕ) (records : PingRecord)
    → (n + 2) * 1000000000 < 9223372036854775808
    → (any (is_stale (pos n) now) records ≡ false) ↔ All (IsFresh n now) records
none_stale n now [] small = (λ e. tt, λ a. refl)
none_stale n now (e ∷ records) small =
    let here = stale_iff n now e small in
    let rest = none_stale n now records small in
    (
      λ f. (here.0 (ground arith), rest.0 (ground arith)),
      λ all_fresh. let a = here.1 all_fresh.0 in let b = rest.1 all_fresh.1 in ground arith,
    )

-- The endpoint reports readiness exactly when every record is at most the interval and two seconds
-- old, for an interval whose nanoseconds an int64 holds.
pub ready_status_iff :
    (n now : ℕ) (records : PingRecord)
    → (n + 2) * 1000000000 < 9223372036854775808
    → (ready_status (pos n) now records ≡ 200) ↔ All (IsFresh n now) records
unfolding ready_status
ready_status_iff n now records small =
    let all_fresh = none_stale n now records small in
    (λ e. all_fresh.0 (ground arith), λ h. let f = all_fresh.1 h in ground arith)

v4_accepted : (ping : Echo) (reply : ReplyBody) → check_v4 ping reply ≡ accepted → reply ≡ echo ping
v4_accepted ping (echo reply) h =
    let d = (bytes_eq_iff reply.data_bytes ping.data_bytes).0 in
    let data_same : reply.data_bytes ≡ ping.data_bytes = d (ground arith) in
    let seq_same : reply.seq ≡ ping.seq = ground arith in cc
v4_accepted ping (raw bs) h = cc
v4_accepted ping other_body h = cc

v4_echo : (ping : Echo) → check_v4 ping (echo ping) ≡ accepted
v4_echo ping = let same = bytes_eq_refl ping.data_bytes in ground arith

-- Four bytes, the last two the sequence number, and the data.
abbrev pub IsRawEcho : Echo → ReplyBody → Type 0
IsRawEcho ping reply =
    (x y hi lo : ℕ) × (reply ≡ raw (x ∷ y ∷ hi ∷ lo ∷ ping.data_bytes)) × (hi * 256 + lo ≡ ping.seq)

bytes_accepted :
    (ping : Echo) (bs : Bytes) → check_bytes ping bs ≡ accepted → IsRawEcho ping (raw bs)
bytes_accepted ping (x ∷ y ∷ hi ∷ lo ∷ pong_body) h =
    let d = (bytes_eq_iff pong_body ping.data_bytes).0 in
    (x, y, hi, lo, ap (λ b. raw (x ∷ y ∷ hi ∷ lo ∷ b)) (d (ground arith)), ground arith)
bytes_accepted ping (x ∷ y ∷ z ∷ []) h = cc
bytes_accepted ping (x ∷ y ∷ []) h = cc
bytes_accepted ping (x ∷ []) h = cc
bytes_accepted ping [] h = cc

v6_accepted :
    (ping : Echo) (reply : ReplyBody) → check_v6 ping reply ≡ accepted → IsRawEcho ping reply
v6_accepted ping (raw bs) h = bytes_accepted ping bs h
v6_accepted ping (echo e) h = cc
v6_accepted ping other_body h = cc

v6_raw : (ping : Echo) (reply : ReplyBody) → IsRawEcho ping reply → check_v6 ping reply ≡ accepted
v6_raw ping reply (x, y, hi, lo, e, s) =
    let same = bytes_eq_refl ping.data_bytes in
    let bs = x ∷ y ∷ hi ∷ lo ∷ ping.data_bytes in
    let good : check_bytes ping bs ≡ accepted = ground arith in ap (check_v6 ping) e ∙ good

alone : (p : Pong) → (and_then p accepted ≡ accepted) ↔ (p ≡ accepted)
alone accepted = (λ e. refl, λ e. refl)
alone refused = (λ e. e, λ e. e)
alone panics = (λ e. e, λ e. e)

-- A reply counts exactly when it is the echo that was sent: over IPv4 its sequence number and data,
-- over IPv6 four bytes, the last two the sequence number, and then the data.
pub check_pong_iff :
    (ping : Echo) (reply : ReplyBody)
    → ((check_pong true false ping reply ≡ accepted) ↔ (reply ≡ echo ping))
      × ((check_pong false true ping reply ≡ accepted) ↔ IsRawEcho ping reply)
unfolding check_pong
check_pong_iff ping reply =
    let v4 = alone (check_v4 ping reply) in
    (
      (λ e. v4_accepted ping reply (v4.0 e), λ e. v4.1 (ap (check_v4 ping) e ∙ v4_echo ping)),
      (v6_accepted ping reply, v6_raw ping reply),
    )

put-any :
    (P : Bytes × ℕ → Bool) (name : Bytes) (time : ℕ) (records : PingRecord)
    → ((key : Bytes) → P (key, time) ≡ true)
    → any P (put name time records) ≡ true
unfolding put
put-any P name time [] every = let e = every name in ground arith
put-any P name time ((key, old) ∷ records) every =
    let e = every key in
    let ih = put-any P name time records every in
    if-cases (λ (r : PingRecord). any P r ≡ true) (bytes_eq key name) (λ _. ground arith)
      (λ _. ground arith)

start-any :
    (P : Bytes × ℕ → Bool) (names : List Bytes) (records : PingRecord)
    → ((key : Bytes) → P (key, 0) ≡ true)
    → any P records ≡ true
    → any P (start_ping_ips names records) ≡ true
unfolding start_ping_ips
start-any P [] records every h = h
start-any P (name ∷ names) records every h =
    start-any P names (put name 0 records) every (put-any P name 0 records every)

zero_stale :
    (n now : ℕ) (key : Bytes)
    → (n + 2) * 1000000000 < 9223372036854775808
    → (n + 2) * 1000000000 < now
    → is_stale (pos n) now (key, 0) ≡ true
zero_stale n now key small late =
    let fresh = (stale_iff n now (key, 0) small).0 in
    elim (Bool-cases (is_stale (pos n) now (key, 0))) [
      | inl e ↦ e
      | inr e ↦ let le = fresh e in absurd (omega arith)
    ]

-- Where there are addresses to check, the endpoint answers 503 after the start until pongs come, as
-- long as the time is past the interval and two seconds after the epoch.
ready_status-start_ping_ips :
    (n now : ℕ) (name : Bytes) (names : List Bytes) (records : PingRecord)
    → (n + 2) * 1000000000 < 9223372036854775808
    → (n + 2) * 1000000000 < now
    → ready_status (pos n) now (start_ping_ips (name ∷ names) records) ≡ 503
unfolding ready_status start_ping_ips
ready_status-start_ping_ips n now name names records small late =
    let every = λ (key : Bytes). zero_stale n now key small late in
    let stale =
      start-any (is_stale (pos n) now) names (put name 0 records) every
        (put-any (is_stale (pos n) now) name 0 records every) in
    ground arith
