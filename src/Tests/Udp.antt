-- ===== src/Tests/Udp.antt =====
-- A run of a UDP tunnel, and its theorems at the states of the run.
use scramjet_app.Base.{
  [], arith, bytes, bytes_eq, false, none, refl, some, true, ℕ, ◌*◌, ◌+◌, ◌<◌, ◌↔◌, ◌∷◌, ◌≡◌, ◌≤◌,
}
use scramjet_app.Base.Int.{pos}
use scramjet_app.Udp.{
  State, Reachable, start, step, receives, forwards, checks, ticks, reads, initial, receive,
  forward, tick, check_closed, handle_read, data_read, at_top, find, delete, update, expired,
  expire, get_or_create_session, remove_session, finish,
}
use scramjet_app.Udp.Invariant.Steps.{IsWellFormed, Reachable-IsWellFormed}
use scramjet_app.Udp.Table.{table, end_idle}
use scramjet_app.Udp.Refinement.{Step-next_table}
use scramjet_app.Udp.Sessions.{tick_iff}
use scramjet_app.Udp.Ending.{Steps, none_yet, by_itself, IsEnding, closed-IsEnding}

second : ℕ → ℕ
unfolding find delete update expired expire tick get_or_create_session receive forward
    remove_session finish check_closed handle_read bytes_eq
second n = n * 1000000000

-- A datagram of the source "a" opens a session, whose goroutine begins to wait.
abbrev opened : State
opened = receive (bytes "a") (some 7) 0 initial

abbrev waiting : State
waiting = check_closed 0 (forward 0 1 opened)

waiting-Reachable : Reachable (pos 30) waiting
unfolding second
waiting-Reachable =
    step (step (step start (receives (bytes "a") (some 7) 0 refl)) (forwards 0 1 refl))
      (checks 0 (omega arith) refl)

-- Thirty seconds later the ticker closes it.
abbrev closed : State
closed = tick (pos 30) 30000000001 waiting

closes : (closed.sessions ≡ []) × ((closed.heap 0).closed ≡ true)
unfolding second
closes = (refl, refl)

stays : (tick (pos 30) 30000000000 waiting).sessions ≡ (bytes "a", 0) ∷ []
unfolding second
stays = refl

-- What the remote side sends is still passed on; then the goroutine ends.
passes_on : ((handle_read 0 (data_read 30000000002 true true) closed).heap 0).phase ≡ at_top
unfolding second
passes_on = refl

Reachable-IsWellFormed_example : IsWellFormed waiting
Reachable-IsWellFormed_example = Reachable-IsWellFormed (pos 30) waiting waiting-Reachable

-- Another datagram of the source is received; before it is written, the session runs out.
abbrev received : State
received = receive (bytes "a") none 5 waiting

abbrev too_late : State
too_late = tick (pos 30) 30000000005 received

lost : (too_late.pending ≡ some 0) × ((too_late.heap 0).closed ≡ true)
unfolding second
lost = (refl, refl)

tick_iff_example :
    (((tick (pos 30) 20 waiting).heap 0).closed ≡ false)
    ↔ (((waiting.heap 0).closed ≡ false) × (20 < (waiting.heap 0).last_active + 30 * 1000000000))
unfolding second
tick_iff_example = tick_iff 30 20 waiting 0 waiting-Reachable (omega arith) (omega arith)

-- The goroutine passes on what it reads, and then returns.
returned : State
unfolding second
returned = check_closed 0 (handle_read 0 (data_read 30000000002 true true) closed)

closed-Steps : Steps (pos 30) 0 closed 2 returned
unfolding second returned
closed-Steps =
    by_itself
      (by_itself none_yet (reads 0 (data_read 30000000002 true true) (omega arith) refl) refl)
      (checks 0 (omega arith) refl) refl

closed-IsEnding_example : (2 ≤ 2) × IsEnding (pos 30) 0 returned
unfolding second
closed-IsEnding_example = closed-IsEnding (omega arith) refl closed-Steps

Step-next_table_example :
    table closed (bytes "a") ≡ end_idle (pos 30) 30000000001 (table waiting) (bytes "a")
Step-next_table_example = Step-next_table waiting-Reachable (ticks 30000000001 refl) (bytes "a")
