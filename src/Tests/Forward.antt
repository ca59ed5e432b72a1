-- ===== src/Tests/Forward.antt =====
-- A run of a TCP tunnel: `conn` sends a byte and ends, and the other goroutine gives up.
use scramjet_app.Base.{[], arith, bytes, false, inr, length, refl, true, ◌*◌, ◌+◌, ◌≡◌, ◌≤◌}
use scramjet_app.Forward.{
  Copy, Tunnel, Opened, Steps, one_more, none_yet, Step, left_moves, right_moves, reads, writes,
  reads_end, closes_first, closes_second, fails_to_read, tcp_tunnel, http_tunnel, conn_forward,
  read_chunk, write_chunk, return_copy, close, closing_second, ended,
}
use scramjet_app.Forward.Order.{tcp}
use scramjet_app.Forward.Delivery.{route, Delivers, tunnel-Delivers}
use scramjet_app.Forward.Ends.{IsOver, tunnel_terminates}
use scramjet_app.Forward.Release.{tcp_both, returned-Steps}

abbrev begin : Tunnel
begin = tcp_tunnel (bytes "a") (bytes "b")

abbrev right_read : Copy
right_read = read_chunk 1 begin.right

abbrev right_wrote : Copy
right_wrote = write_chunk 1 right_read

abbrev right_done : Copy
right_done = return_copy false right_wrote

abbrev right_closing : Copy
right_closing = record right_done { phase = closing_second }

abbrev right_ended : Copy
right_ended = record right_closing { phase = ended }

abbrev one_closed : Opened
one_closed = close 1 (λ c. true)

abbrev both_closed : Opened
both_closed = close 0 one_closed

abbrev with_right : Copy → Opened → Tunnel
with_right c o = record { left = begin.left; right = c; opened = o }

ended-Steps : Steps begin 5 (with_right right_ended both_closed)
unfolding tcp_tunnel conn_forward read_chunk write_chunk return_copy close
ended-Steps =
    one_more
      (one_more
        (one_more
          (one_more
            (one_more none_yet
              (right_moves right_read _ (reads 1 refl refl (omega arith) (omega arith) refl)))
            (right_moves right_wrote _ (writes refl (λ e. cc) refl)))
          (right_moves right_done _ (reads_end refl refl refl refl)))
        (right_moves right_closing _ (closes_first refl)))
      (right_moves right_ended _ (closes_second refl))

abbrev last : Tunnel
last = record { left = return_copy true begin.left; right = right_ended; opened = both_closed }

one_step : Steps (with_right right_ended both_closed) 1 last
unfolding tcp_tunnel conn_forward read_chunk write_chunk return_copy close
one_step = one_more none_yet (left_moves _ _ (fails_to_read refl refl))

tunnel-Delivers_example :
    Delivers (route 1 0 (bytes "b")) both_closed begin.left
    × Delivers (route 0 1 (bytes "a")) both_closed right_ended
tunnel-Delivers_example = tunnel-Delivers tcp ended-Steps

tunnel_terminates_example :
    (5 ≤ 6 + 2 * (length (bytes "b") + length (bytes "a")))
    × (((u : Tunnel) → Step (with_right right_ended both_closed) u → ⊥)
        → IsOver begin (with_right right_ended both_closed))
tunnel_terminates_example = tunnel_terminates tcp ended-Steps

returned-Steps_example : 1 ≤ 3
unfolding tcp_tunnel conn_forward read_chunk write_chunk return_copy
returned-Steps_example = returned-Steps tcp_both ended-Steps (inr refl) one_step

-- A client sends its request and six bytes at once, and its reader has read three of them ahead.
read_ahead_lost : (http_tunnel 3 (bytes "ABCDEF") []).right.source ≡ bytes "DEF"
unfolding http_tunnel conn_forward
read_ahead_lost = refl
