-- ===== src/Udp/Pending.antt =====
-- The session of a datagram, from its choice to the write: `getOrCreateSession` unlocks the map before
-- the main loop writes, so the ticker and the goroutines may move in between.
use scramjet_app.Base.{Bytes, some, true, ℕ, ◌<◌, ◌≡◌, ◌⊎◌}
use scramjet_app.Base.Int.{ℤ}
use scramjet_app.Udp.{State, Step}
use scramjet_app.Udp.Invariant.{Running}

-- Steps after which the datagram is still to be written.
pub data Waits (timeout : ℤ) (i : ℕ) (s : State) : State → Type 0 where
  not_yet : Waits timeout i s s
  meanwhile :
      {t u : State}
      → Waits timeout i s t
      → Step timeout t u
      → u.pending ≡ some i
      → Waits timeout i s u

-- The session of a source, when the datagram is written to its connection.
pub record HeldFor (src : Bytes) (i : ℕ) (t : State) : Type 0 where
  pub pending : t.pending ≡ some i
  pub created : i < t.next
  pub own : (t.heap i).src_addr ≡ src
  -- it runs, unless its channel was closed in the meantime
  pub runs : ((t.heap i).closed ≡ true) ⊎ Running src (t.heap i)
