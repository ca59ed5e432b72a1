-- ===== src/Udp.antt =====
-- wireproxy/udp_proxy.go: the sessions of a UDP tunnel, the main loop that forwards datagrams, the
-- ticker that expires sessions, and one goroutine per session, `handleRemoteToLocal`.
--
-- Sessions are shared by pointer: the map holds indices into a heap. What stands between a lock and
-- its unlock is one step, and so is what a goroutine does between two waits. Times are nanoseconds.
pub mod Map
pub mod Expiry
pub mod Invariant
pub mod Beside
pub mod Sessions
pub mod Pending
pub mod Ending
pub mod Table
pub mod Entries
pub mod Refinement
use scramjet_app.Base.{
  Bool, Bytes, List, Option, [], bytes_eq, false, if◌then◌else◌, none, some, suc, true, ℕ, ◌&&◌,
  ◌<◌, ◌==◌, ◌∷◌, ◌≡◌,
}
use scramjet_app.Go.Time.{seconds, at_least}
use scramjet_app.Base.Int.{ℤ, pos, ltb_ℤ}

-- Where the goroutine of a session stands: at the top of its loop, waiting for the remote side, or
-- returned, with the remote connection closed.
pub data Phase : Type 0 where
  at_top reading ended : Phase

-- `udpSession`, with the source address that its goroutine is given; `inactivityDur` is never read.
pub record UdpSession : Type 0 where
  pub src_addr : Bytes
  pub remote_conn : ℕ
  pub last_active : ℕ
  -- whether `closeChan` is closed
  pub closed : Bool
  pub phase : Phase

abbrev pub Sessions : Type 0
Sessions = List (Bytes × ℕ)

abbrev pub Heap : Type 0
Heap = ℕ → UdpSession

pub record State : Type 0 where
  pub sessions : Sessions
  pub heap : Heap
  -- the index of the next session
  pub next : ℕ
  -- the session that the main loop is about to write to
  pub pending : Option ℕ

-- `sessions[src]`
unfoldable pub find : Bytes → Sessions → Option ℕ
find src [] = none
find src ((key, i) ∷ m) = if bytes_eq key src then some i else find src m

-- `delete(sessions, src)`
unfoldable pub delete : Bytes → Sessions → Sessions
delete src [] = []
delete src ((key, i) ∷ m) = if bytes_eq key src then delete src m else (key, i) ∷ delete src m

unfoldable pub update : ℕ → (UdpSession → UdpSession) → Heap → Heap
update i f h = λ j. if j == i then f (h j) else h j

-- `closeSessionChan`: a channel that is closed stays closed.
abbrev pub close_chan : UdpSession → UdpSession
close_chan s = record s { closed = true }

abbrev pub touch : ℕ → UdpSession → UdpSession
touch now s = record s { last_active = now }

abbrev pub move : Phase → UdpSession → UdpSession
move p s = record s { phase = p }

-- `now.Sub(lastActive) >= inactivityDur`, where `inactivityDur` is the timeout in seconds.
unfoldable pub expired : ℤ → ℕ → UdpSession → Bool
expired timeout now s = at_least (seconds timeout) s.last_active now

-- One round of the loop over the map, after the others: an entry that is expired is closed and
-- deleted.
abbrev pub settle : Bool → Bytes → ℕ → Sessions × Heap → Sessions × Heap
settle true key i (kept, h) = (kept, update i close_chan h)
settle false key i (kept, h) = ((key, i) ∷ kept, h)

-- The loop, over the map's entries, whose order does not matter.
unfoldable pub expire : ℤ → ℕ → Sessions → Heap → Sessions × Heap
expire timeout now [] h = ([], h)
expire timeout now ((key, i) ∷ m) h =
    settle (expired timeout now (h i)) key i (expire timeout now m h)

-- One tick of the ticker.
unfoldable pub tick : ℤ → ℕ → State → State
tick timeout now s =
    let (kept, h) = expire timeout now s.sessions s.heap in record s { sessions = kept; heap = h }

-- The session for a source that has none, given the result of dialing the target: the new
-- connection, if any.
abbrev pub dial_session : Bytes → ℕ → State → Option ℕ → State × Option ℕ
dial_session src_addr now s none = (s, none)
dial_session src_addr now s (some conn) =
    let session : UdpSession = record {
      src_addr = src_addr;
      remote_conn = conn;
      last_active = now;
      closed = false;
      phase = at_top;
    } in
    (
      record s {
        sessions = (src_addr, s.next) ∷ s.sessions;
        heap = update s.next (λ _. session) s.heap;
        next = suc s.next;
      },
      some s.next,
    )

abbrev pub session_for : Bytes → Option ℕ → ℕ → State → Option ℕ → State × Option ℕ
session_for src_addr dialed now s (some i) =
    (record s { heap = update i (touch now) s.heap }, some i)
session_for src_addr dialed now s none = dial_session src_addr now s dialed

-- `getOrCreateSession`
unfoldable pub get_or_create_session : Bytes → Option ℕ → ℕ → State → State × Option ℕ
get_or_create_session src_addr dialed now s =
    session_for src_addr dialed now s (find src_addr s.sessions)

-- The main loop, up to the session of a datagram.
unfoldable pub receive : Bytes → Option ℕ → ℕ → State → State
unfolding get_or_create_session
receive src dialed now s =
    let (s1, session) = get_or_create_session src dialed now s in record s1 { pending = session }

-- The rest of the round: the session is active, and the datagram is written to its connection. An
-- error of the write is only logged.
unfoldable pub forward : ℕ → ℕ → State → State
forward i now s = record s { heap = update i (touch now) s.heap; pending = none }

-- `removeSession`: only the session that the map still holds is removed.
abbrev pub remove_found : Bytes → ℕ → State → Option ℕ → State
remove_found src i s none = s
remove_found src i s (some current) =
    if current == i
    then record s { sessions = delete src s.sessions; heap = update current close_chan s.heap }
    else s

unfoldable pub remove_session : Bytes → ℕ → State → State
remove_session src i s = remove_found src i s (find src s.sessions)

-- The deferred function of `handleRemoteToLocal`, on each of its returns.
unfoldable pub finish : ℕ → State → State
unfolding remove_session
finish i s =
    let s1 = remove_session (s.heap i).src_addr i s in
    record s1 { heap = update i (move ended) s1.heap }

-- The top of the loop of `handleRemoteToLocal`.
unfoldable pub check_closed : ℕ → State → State
unfolding finish
check_closed i s =
    if (s.heap i).closed then finish i s else record s { heap = update i (move reading) s.heap }

-- What `Read` gives: a time-out, another error, or data, with the time, and whether the source
-- address resolves and the write to it works.
pub data Reading : Type 0 where
  timed_out failed : Reading
  data_read : ℕ → Bool → Bool → Reading

-- The rest of the loop, from `Read` on.
unfoldable pub handle_read : ℕ → Reading → State → State
unfolding finish
handle_read i timed_out s =
    if (s.heap i).closed then finish i s else record s { heap = update i (move at_top) s.heap }
handle_read i failed s = finish i s
handle_read i (data_read now resolved written) s =
    let s1 = record s { heap = update i (touch now) s.heap } in
    if resolved && written then record s1 { heap = update i (move at_top) s1.heap } else finish i s1

-- The steps of a tunnel whose `InactivityTimeout` is `timeout`, interleaved in any way.
pub data Step (timeout : ℤ) (s : State) : State → Type 0 where
  receives :
      (src : Bytes) (dialed : Option ℕ) (now : ℕ)
      → s.pending ≡ none
      → Step timeout s (receive src dialed now s)
  forwards : (i now : ℕ) → s.pending ≡ some i → Step timeout s (forward i now s)
  ticks : (now : ℕ) → ltb_ℤ (pos 0) timeout ≡ true → Step timeout s (tick timeout now s)
  checks : (i : ℕ) → i < s.next → (s.heap i).phase ≡ at_top → Step timeout s (check_closed i s)
  reads :
      (i : ℕ) (r : Reading)
      → i < s.next
      → (s.heap i).phase ≡ reading
      → Step timeout s (handle_read i r s)

-- The state in which `SpawnRoutine` starts; the heap holds nothing yet.
abbrev pub initial : State
initial = record {
  sessions = [];
  heap =
      λ i. record { src_addr = []; remote_conn = 0; last_active = 0; closed = true; phase = ended };
  next = 0;
  pending = none;
}

pub data Reachable (timeout : ℤ) : State → Type 0 where
  start : Reachable timeout initial
  step : {s t : State} → Reachable timeout s → Step timeout s t → Reachable timeout t
