-- ===== src/Udp/Table.antt =====
-- What a UDP tunnel promises of its sessions: a table by source address, with no order, no heap, no
-- channels and no goroutines. A session is the step at which it was opened, its connection and the time
-- of its last datagram.
use scramjet_app.Base.{Bool, Bytes, Option, bytes_eq, if◌then◌else◌, none, not, some, ℕ, ◌&&◌, ◌==◌}
use scramjet_app.Base.Int.{ℤ}
use scramjet_app.Go.Time.{seconds, at_least}
use scramjet_app.Udp.{
  Reading, timed_out, failed, data_read, State, Heap, Step, receives, forwards, ticks, checks,
  reads, find,
}

pub record Entry : Type 0 where
  pub id : ℕ
  pub conn : ℕ
  pub last : ℕ

abbrev pub Table : Type 0
Table = Bytes → Option Entry

abbrev pub put : Bytes → Option Entry → Table → Table
put src e a = λ key. if bytes_eq src key then e else a key

abbrev pub touched : ℕ → Entry → Entry
touched now e = record e { last = now }

abbrev pub touched_if : ℕ → ℕ → Option Entry → Option Entry
touched_if id now none = none
touched_if id now (some e) = some (if e.id == id then touched now e else e)

abbrev pub kept_if : (Entry → Bool) → Option Entry → Option Entry
kept_if keep none = none
kept_if keep (some e) = if keep e then some e else none

-- A datagram of a source keeps the source's session, or opens one if the target can be dialed.
abbrev pub session_of : ℕ → Option ℕ → ℕ → Option Entry → Option Entry
session_of id dialed now (some e) = some (touched now e)
session_of id none now none = none
session_of id (some conn) now none = some (record { id = id; conn = conn; last = now })

-- A session that was used is active.
abbrev pub use_session : ℕ → ℕ → Table → Table
use_session id now a = λ key. touched_if id now (a key)

abbrev pub end_session : ℕ → Table → Table
end_session id a = λ key. kept_if (λ e. not (e.id == id)) (a key)

-- The sessions that have been idle for the timeout go.
abbrev pub end_idle : ℤ → ℕ → Table → Table
end_idle timeout now a = λ key. kept_if (λ e. not (at_least (seconds timeout) e.last now)) (a key)

-- What the remote side gives ends its session, unless it is a time-out or data that is passed on.
abbrev pub after_reading : ℕ → Reading → Table → Table
after_reading id timed_out a = a
after_reading id failed a = end_session id a
after_reading id (data_read now resolved written) a =
    if resolved && written then use_session id now a else end_session id a

-- The table after each kind of step.
abbrev pub next_table : {timeout : ℤ} {s t : State} → Step timeout s t → Table → Table
next_table {s = s} (receives src dialed now e) a = put src (session_of s.next dialed now (a src)) a
next_table (forwards i now e) a = use_session i now a
next_table {timeout} (ticks now e) a = end_idle timeout now a
next_table (checks i lt e) a = a
next_table (reads i r lt e) a = after_reading i r a

-- The table of a state.
abbrev pub entry : Heap → Option ℕ → Option Entry
entry h none = none
entry h (some i) = some (record { id = i; conn = (h i).remote_conn; last = (h i).last_active })

abbrev pub table : State → Table
table s = λ key. entry s.heap (find key s.sessions)
