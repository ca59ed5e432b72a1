-- ===== src/Tests/Health.antt =====
-- Runs of the health endpoint, and its theorems at concrete data.
use scramjet_app.Base.{
  All, Bytes, List, [], arith, bytes, bytes_eq, false, ok, refl, true, ℕ, ◌↔◌, ◌∷◌, ◌≡◌,
}
use scramjet_app.Base.Int.{pos, ◌+ℤ◌}
use scramjet_app.Go.Strings.{has_byte, cut, split_n2, split}
use scramjet_app.Go.Strings.Laws.{has_byte-Lacks}
use scramjet_app.Health.{
  put, is_stale, ready_status, metrics, metrics_lines, serve_http, Echo, echo, raw, accepted,
  check_pong, start_ping_ips,
}
use scramjet_app.Health.Metrics.{ShowsAll, metrics-print}
use scramjet_app.Health.Pings.{IsFresh, ready_status_iff, check_pong_iff, IsRawEcho}
use scramjet_app.Health.Rounds.{Pinging, started_pings, send_ping, read_reply, abandoned}
use scramjet_app.Wireguard.Request.{Pair, print_pairs}
use scramjet_app.Wireguard.Reading.{IsLine}

run : Bytes → ℕ
unfolding serve_http ready_status is_stale ◌+ℤ◌ metrics metrics_lines split split_n2 cut print_pairs
    bytes_eq has_byte put start_ping_ips check_pong
run path =
    (serve_http (λ p. p) (λ r. ok []) (pos 5) 8000000000 ((bytes "1.1.1.1", 1) ∷ []) (ok [])
      path).status

ready : run (bytes "/readyz") ≡ 200
unfolding run
ready = refl

not_found : run (bytes "/") ≡ 404
unfolding run
not_found = refl

abbrev settings : List Pair
settings = (bytes "private_key", bytes "ab") ∷ (bytes "listen_port", bytes "1") ∷ []

line :
    (key value : Bytes)
    → has_byte b'=' key ≡ false
    → has_byte 10 key ≡ false
    → has_byte 10 value ≡ false
    → IsLine (key, value)
line key value a b c =
    ((has_byte-Lacks b'=' key).0 a, (has_byte-Lacks 10 key).0 b, (has_byte-Lacks 10 value).0 c)

metrics-print_example :
    (shown : List Pair) × ShowsAll settings shown
    × (metrics (ok (print_pairs settings)) ≡ record { status = 200; body = print_pairs shown })
unfolding run
metrics-print_example = metrics-print settings (
  line (bytes "private_key") (bytes "ab") refl refl refl,
  (line (bytes "listen_port") (bytes "1") refl refl refl, tt),
)

ready_status_iff_example :
    (ready_status (pos 5) 8000000000 ((bytes "1.1.1.1", 1) ∷ []) ≡ 200)
    ↔ All (IsFresh 5 8000000000) ((bytes "1.1.1.1", 1) ∷ [])
ready_status_iff_example = ready_status_iff 5 8000000000 ((bytes "1.1.1.1", 1) ∷ []) (omega arith)

abbrev ping : Echo
ping = record { seq = 258; data_bytes = 7 ∷ 8 ∷ [] }

check_pong_iff_example :
    ((check_pong true false ping (raw (0 ∷ 0 ∷ 1 ∷ 2 ∷ 7 ∷ 8 ∷ [])) ≡ accepted)
      ↔ (raw (0 ∷ 0 ∷ 1 ∷ 2 ∷ 7 ∷ 8 ∷ []) ≡ echo ping))
    × ((check_pong false true ping (raw (0 ∷ 0 ∷ 1 ∷ 2 ∷ 7 ∷ 8 ∷ [])) ≡ accepted)
        ↔ IsRawEcho ping (raw (0 ∷ 0 ∷ 1 ∷ 2 ∷ 7 ∷ 8 ∷ [])))
check_pong_iff_example = check_pong_iff ping (raw (0 ∷ 0 ∷ 1 ∷ 2 ∷ 7 ∷ 8 ∷ []))

-- An address is pinged and answers.
abbrev address : Bytes
address = bytes "1.1.1.1"

abbrev sent : Pinging
sent = send_ping address true false ping true true (started_pings (address ∷ []))

abbrev pong : Pinging
pong = read_reply 0 9 (ok (echo ping)) sent

-- A reply from an IPv6 address of one byte ends the program.
crashes :
    (read_reply 0 9
      (ok (raw (1 ∷ [])))
      (send_ping address false true ping true true (started_pings (address ∷ [])))).crashed
    ≡ true
unfolding run send_ping read_reply
crashes = refl

-- A ping that is refused leaves its socket open.
leaks : ((read_reply 0 9 (ok (echo (record ping { seq = 1 }))) sent).sockets 0).phase ≡ abandoned
unfolding run send_ping read_reply
leaks = refl
