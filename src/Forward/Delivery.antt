-- ===== src/Forward/Delivery.antt =====
-- Between which connections the two goroutines of a tunnel deliver.
use mathlib.Core.Path.{subst}
use scramjet_app.Base.{Bytes, drop, false, inr, refl, sym, ℕ, ◌++◌, ◌∙◌, ◌≡◌, ◌≢◌}
use scramjet_app.Forward.{
  Copy, Opened, Tunnel, Steps, copying, ended, tcp_tunnel, stdio_tunnel, http_tunnel, conn_forward,
}
use scramjet_app.Forward.Copies.{IsSound}
use scramjet_app.Forward.Order.{Begins, tcp, stdio, http, tunnel-AreSound}
use scramjet_app.Forward.Ends.{SameEnds, Steps-SameEnds}

-- What one connection gives, and the connection that it is for.
pub record Route : Type 0 where
  pub from : ℕ
  pub into : ℕ
  pub input : Bytes

abbrev pub route : ℕ → ℕ → Bytes → Route
route from into input = record { from = from; into = into; input = input }

-- In a tunnel of two connections each is for the other, but an HTTP tunnel is not given what was read
-- ahead of it; in one of the standard streams, the input is for the remote connection, and what that
-- gives is for the output.
abbrev pub routes : {a b : Bytes} {s : Tunnel} → Begins a b s → Route × Route
routes {a} {b} tcp = (route 1 0 a, route 0 1 b)
routes {a} {b} stdio = (route 0 1 a, route 1 2 b)
routes {a} (http read_ahead sent e) = (route 1 0 a, route 0 1 (drop read_ahead sent))

-- What a goroutine has done for a route.
pub record Delivers (r : Route) (o : Opened) (c : Copy) : Type 0 where
  pub from : c.from ≡ r.from
  pub into : c.into ≡ r.into
  -- a first part of the input
  pub part : (rest : Bytes) × (r.input ≡ c.sink ++ rest)
  -- all of it, where `io.Copy` has returned no error
  pub complete : c.phase ≢ copying → c.failed ≡ false → c.sink ≡ r.input
  -- where it has returned, both connections are closed
  pub closed : c.phase ≡ ended → (o r.from ≡ false) × (o r.into ≡ false)

-- The connections of a copy, and those that it closes, are the route's.
record IsFor (r : Route) (input : Bytes) (c : Copy) : Type 0 where
  input_same : input ≡ r.input
  from : c.from ≡ r.from
  into : c.into ≡ r.into
  closes :
      (o : Opened)
      → o c.first_close ≡ false
      → o c.second_close ≡ false
      → (o r.from ≡ false) × (o r.into ≡ false)

Begins-IsFor :
    {a b : Bytes} {s : Tunnel} (g : Begins a b s)
    → IsFor (routes g).0 a s.left × IsFor (routes g).1 b s.right
unfolding tcp_tunnel stdio_tunnel http_tunnel conn_forward
Begins-IsFor tcp = (
  record { input_same = refl; from = refl; into = refl; closes = λ o h k. (k, h) },
  record { input_same = refl; from = refl; into = refl; closes = λ o h k. (k, h) },
)
Begins-IsFor stdio = (
  record { input_same = refl; from = refl; into = refl; closes = λ o h k. (k, h) },
  record { input_same = refl; from = refl; into = refl; closes = λ o h k. (k, h) },
)
Begins-IsFor (http read_ahead sent e) = (
  record { input_same = refl; from = refl; into = refl; closes = λ o h k. (h, k) },
  record { input_same = sym e; from = refl; into = refl; closes = λ o h k. (k, h) },
)

sound-Delivers :
    {r : Route} {input : Bytes} {o : Opened} {c d : Copy}
    → IsFor r input c
    → SameEnds c d
    → IsSound input o d
    → Delivers r o d
sound-Delivers {r} {o = o} {d = d} is_for ends sound = record {
  from = ends.from ∙ is_for.from;
  into = ends.into ∙ is_for.into;
  part = subst (λ i. (rest : Bytes) × (i ≡ d.sink ++ rest)) is_for.input_same sound.part;
  complete = λ over worked. sound.complete over worked ∙ is_for.input_same;
  closed = λ over.
      is_for.closes o (subst (λ e. o e ≡ false) ends.first_close (sound.one_closed (inr over)))
        (subst (λ e. o e ≡ false) ends.second_close (sound.both_closed over));
}

-- In every state that a tunnel reaches, each connection has been given a first part of what its peer
-- sent, in order, over the goroutine that is for it; all of it once the copy has returned with no
-- error; and where a goroutine has returned, the two connections that it copies between are closed.
-- In an HTTP tunnel, what the client sent counts from after the bytes that the reader of its request
-- had read ahead: the peer is never given those.
pub tunnel-Delivers :
    {a b : Bytes} {s t : Tunnel} {n : ℕ} (g : Begins a b s)
    → Steps s n t
    → Delivers (routes g).0 t.opened t.left × Delivers (routes g).1 t.opened t.right
tunnel-Delivers g ss =
    let sound = tunnel-AreSound g ss in
    let (left_ends, right_ends) = Steps-SameEnds ss in
    let (left, right) = Begins-IsFor g in
    (sound-Delivers left left_ends sound.left, sound-Delivers right right_ends sound.right)
