-- ===== src/Udp/Ending.antt =====
-- The goroutine of a session whose channel is closed ends.
use mathlib.Core.Path.{subst}
use scramjet_app.Base.{
  ==_iff, ap, arith, false, if-cases, inl, inr, refl, suc, sym, true, ℕ, ◌&&◌, ◌+◌, ◌<◌, ◌≡◌, ◌≤◌,
  ◌⊎◌,
}
use scramjet_app.Base.Int.{ℤ}
use scramjet_app.Udp.{
  State, Phase, at_top, reading, ended, Step, receives, forwards, ticks, checks, reads,
  check_closed, handle_read, finish, move, touch, update, Reading, timed_out, failed, data_read,
}
use scramjet_app.Udp.Beside.{Step-Leaves, moves}
use scramjet_app.Udp.Map.{update-cases}
use scramjet_app.Udp.Sessions.{finish-phase, check_closed-phase}

-- Runs, with the number of steps that the goroutine of one session takes in them.
pub data Steps (timeout : ℤ) (i : ℕ) (s : State) : ℕ → State → Type 0 where
  none_yet : Steps timeout i s 0 s
  by_others :
      {n : ℕ} {t u : State}
      → Steps timeout i s n t
      → (st : Step timeout t u) → moves i st ≡ false
      → Steps timeout i s n u
  by_itself :
      {n : ℕ} {t u : State}
      → Steps timeout i s n t
      → (st : Step timeout t u) → moves i st ≡ true
      → Steps timeout i s (suc n) u

-- The steps that a goroutine has before it, once its channel is closed.
abbrev rank : Phase → ℕ
rank reading = 2
rank at_top = 1
rank ended = 0

phase-rank : (p q : Phase) → p ≡ q → rank p ≡ rank q
phase-rank p q e = ap rank e

moved-rank :
    (i : ℕ) (s : State)
    → rank (((record s { heap = update i (move at_top) s.heap }).heap i).phase) ≤ 1
moved-rank i s =
    update-cases (λ x. rank x.phase ≤ 1) i i (move at_top) s.heap (λ e. omega arith)
      (λ n. absurd (n refl))

finished-rank : (i : ℕ) (s : State) → rank ((finish i s).heap i).phase ≤ 1
finished-rank i s = let e = ap rank (finish-phase i s) in omega arith

read-rank : (i : ℕ) (r : Reading) (s : State) → rank ((handle_read i r s).heap i).phase ≤ 1
unfolding handle_read
read-rank i timed_out s =
    if-cases (λ (t : State). rank (t.heap i).phase ≤ 1) (s.heap i).closed (λ e. finished-rank i s)
      (λ e. moved-rank i s)
read-rank i failed s = finished-rank i s
read-rank i (data_read now resolved written) s =
    if-cases (λ (t : State). rank (t.heap i).phase ≤ 1) (resolved && written)
      (λ e. moved-rank i (record s { heap = update i (touch now) s.heap }))
      (λ e. finished-rank i (record s { heap = update i (touch now) s.heap }))

own-rank :
    {timeout : ℤ} {s t : State} (i : ℕ) (st : Step timeout s t)
    → moves i st ≡ true
    → (s.heap i).closed ≡ true
    → rank (t.heap i).phase < rank (s.heap i).phase
own-rank i (receives src dialed now e) own gone = cc
own-rank i (forwards j now e) own gone = cc
own-rank i (ticks now e) own gone = cc
own-rank {s = s} i (checks j lt e) own gone =
    let same = (==_iff j i).0 own in
    let before = ap rank (subst (λ k. (s.heap k).phase ≡ at_top) same e) in
    let after = ap rank (
      subst (λ k. ((check_closed k s).heap i).phase ≡ ended) (sym same)
        (check_closed-phase i s gone)) in
    omega arith
own-rank {s = s} i (reads j r lt e) own gone =
    let same = (==_iff j i).0 own in
    let before = ap rank (subst (λ k. (s.heap k).phase ≡ reading) same e) in
    let after =
      subst (λ k. rank ((handle_read k r s).heap i).phase ≤ 1) (sym same) (read-rank i r s) in
    omega arith

-- What a run keeps of a session that is closed.
record Winds (i n : ℕ) (s t : State) : Type 0 where
  created : i < t.next
  gone : (t.heap i).closed ≡ true
  spent : n + rank (t.heap i).phase ≤ rank (s.heap i).phase

Steps-Winds :
    {timeout : ℤ} {i : ℕ} {s : State} {n : ℕ} {t : State}
    → i < s.next
    → (s.heap i).closed ≡ true
    → Steps timeout i s n t
    → Winds i n s t
Steps-Winds lt gone none_yet = record { created = lt; gone = gone; spent = omega arith }
Steps-Winds {i = i} lt gone (by_others ss st other) =
    let w = Steps-Winds lt gone ss in
    let (mover, l, apart) = Step-Leaves i st w.created in
    let c = w.created in
    let o = l.older in
    let p = ap rank (l.phase (apart other)) in
    let b = w.spent in record { created = omega arith; gone = l.stays w.gone; spent = omega arith }
Steps-Winds {i = i} lt gone (by_itself ss st own) =
    let w = Steps-Winds lt gone ss in
    let (mover, l, apart) = Step-Leaves i st w.created in
    let c = w.created in
    let o = l.older in
    let p = own-rank i st own w.gone in
    let b = w.spent in record { created = omega arith; gone = l.stays w.gone; spent = omega arith }

rank-le : (p : Phase) → rank p ≤ 2
rank-le at_top = omega arith
rank-le reading = omega arith
rank-le ended = omega arith

-- The goroutine has returned, or it can take a step.
abbrev pub IsEnding : ℤ → ℕ → State → Type 0
IsEnding timeout i t =
    ((t.heap i).phase ≡ ended) ⊎ ((u : State) × (st : Step timeout t u) × (moves i st ≡ true))

can_move :
    (timeout : ℤ) (i : ℕ) (t : State) (p : Phase)
    → i < t.next
    → (t.heap i).phase ≡ p
    → IsEnding timeout i t
can_move timeout i t at_top lt e = inr (_, checks i lt e, ground arith)
can_move timeout i t reading lt e = inr (_, reads i timed_out lt e, ground arith)
can_move timeout i t ended lt e = inl e

-- Once the channel of a session is closed, the goroutine of the session takes at most two more steps,
-- in every run and whatever the main loop, the ticker and the other goroutines do; and until it has
-- returned, and with it closed the remote connection, it can take the next.
pub closed-IsEnding :
    {timeout : ℤ} {i n : ℕ} {s t : State}
    → i < s.next
    → (s.heap i).closed ≡ true
    → Steps timeout i s n t
    → (n ≤ 2) × IsEnding timeout i t
closed-IsEnding {timeout} {i} {n} {s} {t} lt gone ss =
    let w = Steps-Winds lt gone ss in
    let spent = w.spent in
    let most = rank-le (s.heap i).phase in
    (omega arith, can_move timeout i t (t.heap i).phase w.created refl)
