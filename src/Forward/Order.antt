-- ===== src/Forward/Order.antt =====
-- What the two goroutines of a tunnel deliver.
use mathlib.Core.Path.{subst}
use scramjet_app.Base.{Bytes, [], ap, arith, drop, false, refl, sym, ℕ, ◌++◌, ◌∙◌, ◌≡◌}
use scramjet_app.Forward.{
  Copy, Opened, CopyStep, reads, writes, fails_to_write, fails_to_read, reads_end, closes_first,
  closes_second, Tunnel, Step, left_moves, right_moves, Steps, none_yet, one_more, tcp_tunnel,
  stdio_tunnel, http_tunnel, conn_forward, copying,
}
use scramjet_app.Forward.Copies.{IsSound, CopyStep-IsSound, close_other}

-- A connection that is closed stays closed.
pub stays_closed :
    {o : Opened} {c d : Copy} {p : Opened} → CopyStep o c d p → (e : ℕ) → o e ≡ false → p e ≡ false
stays_closed (reads n copies empty pos le open_from) e h = h
stays_closed (writes copies some_held open_into) e h = h
stays_closed (fails_to_write n copies lt) e h = h
stays_closed (fails_to_read copies empty) e h = h
stays_closed (reads_end copies empty over open_from) e h = h
stays_closed {o} {c} (closes_first closes) e h = close_other c.first_close e o h
stays_closed {o} {c} (closes_second closes) e h = close_other c.second_close e o h

-- What one goroutine keeps, the other does not break.
beside-IsSound :
    {input : Bytes} {o p : Opened} {c : Copy}
    → ((e : ℕ) → o e ≡ false → p e ≡ false)
    → IsSound input o c
    → IsSound input p c
beside-IsSound {c = c} closed s = record {
  part = s.part;
  nothing_lost = s.nothing_lost;
  complete = s.complete;
  one_closed = λ e. closed c.first_close (s.one_closed e);
  both_closed = λ e. closed c.second_close (s.both_closed e);
}

-- Both directions of a tunnel, for the bytes that the two sides give.
pub record AreSound (left_input right_input : Bytes) (s : Tunnel) : Type 0 where
  pub left : IsSound left_input s.opened s.left
  pub right : IsSound right_input s.opened s.right

Step-AreSound : {a b : Bytes} {s t : Tunnel} → Step s t → AreSound a b s → AreSound a b t
Step-AreSound (left_moves c o st) h = record {
  left = CopyStep-IsSound st h.left;
  right = beside-IsSound (stays_closed st) h.right;
}
Step-AreSound (right_moves c o st) h = record {
  left = beside-IsSound (stays_closed st) h.left;
  right = CopyStep-IsSound st h.right;
}

pub Steps-AreSound :
    {a b : Bytes} {s t : Tunnel} {n : ℕ} → Steps s n t → AreSound a b s → AreSound a b t
Steps-AreSound none_yet h = h
Steps-AreSound (one_more ss st) h = Step-AreSound st (Steps-AreSound ss h)

-- The tunnels that the program starts, with what the source of each goroutine gives: in an HTTP
-- tunnel, what the client sent less the bytes that were read ahead.
pub data Begins (a b : Bytes) : Tunnel → Type 0 where
  tcp : Begins a b (tcp_tunnel b a)
  stdio : Begins a b (stdio_tunnel a b)
  http :
      (read_ahead : ℕ) (sent : Bytes)
      → drop read_ahead sent ≡ b
      → Begins a b (http_tunnel read_ahead sent a)

fresh-IsSound :
    (o : Opened) (c : Copy) → c.phase ≡ copying → c.held ≡ [] → c.sink ≡ [] → IsSound c.source o c
fresh-IsSound o c copies no_held no_sink =
    let all_ahead : c.source ≡ c.sink ++ (c.held ++ c.source) =
      ap (λ h. h ++ c.source) (sym no_held) ∙ ap (λ s. s ++ (c.held ++ c.source)) (sym no_sink) in
    record {
      part = (c.held ++ c.source, all_ahead);
      nothing_lost = λ e. all_ahead;
      complete = λ e f. absurd (e copies);
      one_closed = λ e. ground arith;
      both_closed = λ e. cc;
    }

pub Begins-AreSound : {a b : Bytes} {s : Tunnel} → Begins a b s → AreSound a b s
unfolding tcp_tunnel stdio_tunnel http_tunnel conn_forward
Begins-AreSound tcp = record {
  left = fresh-IsSound _ _ refl refl refl;
  right = fresh-IsSound _ _ refl refl refl;
}
Begins-AreSound stdio = record {
  left = fresh-IsSound _ _ refl refl refl;
  right = fresh-IsSound _ _ refl refl refl;
}
Begins-AreSound {a} (http read_ahead sent e) =
    let t = http_tunnel read_ahead sent a in
    record {
      left = fresh-IsSound t.opened t.left refl refl refl;
      right =
          subst (λ i. IsSound i t.opened t.right) e (fresh-IsSound t.opened t.right refl refl refl);
    }

-- In every state that a tunnel reaches, each side has received a first part of what the other gave, in
-- order; all of it once the copy has returned with no error; and a goroutine that has returned has
-- closed its two connections.
pub tunnel-AreSound :
    {a b : Bytes} {s t : Tunnel} {n : ℕ} → Begins a b s → Steps s n t → AreSound a b t
tunnel-AreSound b ss = Steps-AreSound ss (Begins-AreSound b)
