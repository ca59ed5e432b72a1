-- ===== src/Forward/Release.antt =====
-- When one goroutine of a tunnel has returned, the other follows at once.
use mathlib.Core.Path.{subst}
use scramjet_app.Base.{Bytes, ap, arith, drop, false, inl, inr, sym, ℕ, ◌+◌, ◌<◌, ◌≡◌, ◌≤◌, ◌⊎◌}
use scramjet_app.Forward.{
  copying, closing, closing_second, ended, Copy, Opened, CopyStep, reads, writes, fails_to_write,
  fails_to_read, reads_end, closes_first, closes_second, read_chunk, write_chunk, return_copy,
  Tunnel, Step, left_moves, right_moves, Steps, none_yet, one_more, tcp_tunnel, http_tunnel,
  conn_forward, Phase,
}
use scramjet_app.Forward.Order.{Begins, stays_closed, tcp, http, tunnel-AreSound}
use scramjet_app.Forward.Ends.{rank, SameEnds, SameEnds-refl, CopyStep-SameEnds, Steps-SameEnds}

-- Between two closed connections there is nothing left to do but to fail and to close.
CopyStep-rank :
    {o : Opened} {c d : Copy} {p : Opened}
    → CopyStep o c d p
    → o c.from ≡ false
    → o c.into ≡ false
    → rank d.phase < rank c.phase
unfolding read_chunk write_chunk return_copy
CopyStep-rank (reads n copies empty pos le open_from) hf hi = cc
CopyStep-rank (writes copies some_held open_into) hf hi = cc
CopyStep-rank (fails_to_write n copies lt) hf hi = let before = ap rank copies in omega arith
CopyStep-rank (fails_to_read copies empty) hf hi = let before = ap rank copies in omega arith
CopyStep-rank (reads_end copies empty over open_from) hf hi = cc
CopyStep-rank (closes_first closes) hf hi = let before = ap rank closes in omega arith
CopyStep-rank (closes_second closes) hf hi = let before = ap rank closes in omega arith

-- Every connection that a copy reads or writes is closed.
abbrev IsCut : Opened → Copy → Type 0
IsCut o c = (o c.from ≡ false) × (o c.into ≡ false)

IsCut-step :
    {o p : Opened} {c d : Copy}
    → ((e : ℕ) → o e ≡ false → p e ≡ false)
    → SameEnds c d
    → IsCut o c
    → IsCut p d
IsCut-step {o} {p} {c} closed ends (hf, hi) = (
  subst (λ e. p e ≡ false) (sym ends.from) (closed c.from hf),
  subst (λ e. p e ≡ false) (sym ends.into) (closed c.into hi),
)

AreCut : Tunnel → Type 0
AreCut s = IsCut s.opened s.left × IsCut s.opened s.right

Step-rank :
    {s t : Tunnel}
    → Step s t
    → AreCut s
    → AreCut t × (rank t.left.phase + rank t.right.phase < rank s.left.phase + rank s.right.phase)
unfolding AreCut
Step-rank {s} (left_moves c o st) (l, r) =
    let less = CopyStep-rank st l.0 l.1 in
    (
      (
        IsCut-step (stays_closed st) (CopyStep-SameEnds st) l,
        IsCut-step (stays_closed st) (SameEnds-refl s.right) r,
      ),
      omega arith,
    )
Step-rank {s} (right_moves c o st) (l, r) =
    let less = CopyStep-rank st r.0 r.1 in
    (
      (
        IsCut-step (stays_closed st) (SameEnds-refl s.left) l,
        IsCut-step (stays_closed st) (CopyStep-SameEnds st) r,
      ),
      omega arith,
    )

Steps-rank :
    {s t : Tunnel} {n : ℕ}
    → Steps s n t
    → AreCut s
    → AreCut t
      × (n + (rank t.left.phase + rank t.right.phase) ≤ rank s.left.phase + rank s.right.phase)
Steps-rank none_yet h = (h, omega arith)
Steps-rank (one_more ss st) h =
    let (cut, spent) = Steps-rank ss h in
    let (cut_again, less) = Step-rank st cut in (cut_again, omega arith)

-- The tunnels whose two goroutines copy between the same two connections.
pub data Joins (a b : Bytes) : Tunnel → Type 0 where
  tcp_both : Joins a b (tcp_tunnel b a)
  http_both :
      (read_ahead : ℕ) (sent : Bytes)
      → drop read_ahead sent ≡ b
      → Joins a b (http_tunnel read_ahead sent a)

Joins-Begins : {a b : Bytes} {s : Tunnel} → Joins a b s → Begins a b s
Joins-Begins tcp_both = tcp
Joins-Begins (http_both read_ahead sent e) = http read_ahead sent e

left-AreCut :
    {a b : Bytes} {s : Tunnel} (o : Opened)
    → Joins a b s
    → o s.left.first_close ≡ false
    → o s.left.second_close ≡ false
    → IsCut o s.left × IsCut o s.right
unfolding tcp_tunnel http_tunnel conn_forward
left-AreCut o tcp_both h1 h2 = ((h2, h1), (h1, h2))
left-AreCut o (http_both read_ahead sent e) h1 h2 = ((h1, h2), (h2, h1))

right-AreCut :
    {a b : Bytes} {s : Tunnel} (o : Opened)
    → Joins a b s
    → o s.right.first_close ≡ false
    → o s.right.second_close ≡ false
    → IsCut o s.left × IsCut o s.right
unfolding tcp_tunnel http_tunnel conn_forward
right-AreCut o tcp_both h1 h2 = ((h1, h2), (h2, h1))
right-AreCut o (http_both read_ahead sent e) h1 h2 = ((h1, h2), (h2, h1))

moved-AreCut :
    {s t : Tunnel} {n : ℕ} → Steps s n t → IsCut t.opened s.left × IsCut t.opened s.right → AreCut t
unfolding AreCut
moved-AreCut {t = t} ss (l, r) =
    let (left_ends, right_ends) = Steps-SameEnds ss in
    (
      IsCut-step {o = t.opened} {p = t.opened} (λ e h. h) left_ends l,
      IsCut-step {o = t.opened} {p = t.opened} (λ e h. h) right_ends r,
    )

-- In the tunnels between two connections, both are closed when one goroutine has returned.
returned-AreCut :
    {a b : Bytes} {s t : Tunnel} {n : ℕ}
    → Joins a b s
    → Steps s n t
    → (t.left.phase ≡ ended) ⊎ (t.right.phase ≡ ended)
    → AreCut t
returned-AreCut {t = t} j ss (inl over) =
    let sound = (tunnel-AreSound (Joins-Begins j) ss).left in
    let ends = (Steps-SameEnds ss).0 in
    moved-AreCut ss (
      left-AreCut t.opened j
        (subst (λ e. t.opened e ≡ false) ends.first_close (sound.one_closed (inr over)))
        (subst (λ e. t.opened e ≡ false) ends.second_close (sound.both_closed over)))
returned-AreCut {t = t} j ss (inr over) =
    let sound = (tunnel-AreSound (Joins-Begins j) ss).right in
    let ends = (Steps-SameEnds ss).1 in
    moved-AreCut ss (
      right-AreCut t.opened j
        (subst (λ e. t.opened e ≡ false) ends.first_close (sound.one_closed (inr over)))
        (subst (λ e. t.opened e ≡ false) ends.second_close (sound.both_closed over)))

rank-le : (p : Phase) → rank p ≤ 3
rank-le copying = omega arith
rank-le closing = omega arith
rank-le closing_second = omega arith
rank-le ended = omega arith

-- In a tunnel between two connections, once one goroutine has returned at most three more steps are
-- taken, however much the other side still had to give.
pub returned-Steps :
    {a b : Bytes} {s t u : Tunnel} {n m : ℕ}
    → Joins a b s
    → Steps s n t
    → (t.left.phase ≡ ended) ⊎ (t.right.phase ≡ ended)
    → Steps t m u
    → m ≤ 3
returned-Steps {t = t} j ss (inl over) more =
    let (cut, spent) = Steps-rank more (returned-AreCut j ss (inl over)) in
    let none_left = ap rank over in let others = rank-le t.right.phase in omega arith
returned-Steps {t = t} j ss (inr over) more =
    let (cut, spent) = Steps-rank more (returned-AreCut j ss (inr over)) in
    let none_left = ap rank over in let others = rank-le t.left.phase in omega arith
