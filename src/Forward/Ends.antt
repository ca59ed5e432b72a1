-- ===== src/Forward/Ends.antt =====
-- The two goroutines of a tunnel end.
use mathlib.Core.Path.{subst}
use scramjet_app.Base.{
  Bytes, [], ap, arith, false, inl, inr, length, length-take, length-take-drop, length_pos, refl, ℕ,
  ◌*◌, ◌+◌, ◌<◌, ◌∙◌, ◌∷◌, ◌≡◌, ◌≢◌, ◌≤◌, ◌⊎◌,
}
use scramjet_app.Forward.{
  Phase, copying, closing, closing_second, ended, Copy, Opened, CopyStep, reads, writes,
  fails_to_write, fails_to_read, reads_end, closes_first, closes_second, read_chunk, write_chunk,
  return_copy, Tunnel, Step, left_moves, right_moves, Steps, none_yet, one_more, tcp_tunnel,
  stdio_tunnel, http_tunnel, conn_forward,
}
use scramjet_app.Forward.Order.{Begins, tcp, stdio, http, tunnel-AreSound}

-- The steps that a goroutine has before it after `io.Copy` has nothing more to do.
abbrev pub rank : Phase → ℕ
rank copying = 3
rank closing = 2
rank closing_second = 1
rank ended = 0

abbrev pub work : Copy → ℕ
work c = rank c.phase + (2 * length c.source + length c.held)

CopyStep-work : {o : Opened} {c d : Copy} {p : Opened} → CopyStep o c d p → work d < work c
unfolding read_chunk write_chunk return_copy
CopyStep-work {o} {c} (reads n copies empty pos le open_from) =
    let split_source = length-take-drop n c.source in
    let taken = length-take n c.source le in let none_held = ap length empty in omega arith
CopyStep-work {o} {c} (writes copies some_held open_into) =
    let split_held = length-take-drop (length c.held) c.held in
    let taken = length-take (length c.held) c.held (omega arith) in
    let some_bytes = length_pos c.held some_held in omega arith
CopyStep-work {o} {c} (fails_to_write n copies lt) =
    let split_held = length-take-drop n c.held in let before = ap rank copies in omega arith
CopyStep-work (fails_to_read copies empty) = let before = ap rank copies in omega arith
CopyStep-work (reads_end copies empty over open_from) = let before = ap rank copies in omega arith
CopyStep-work (closes_first closes) = let before = ap rank closes in omega arith
CopyStep-work (closes_second closes) = let before = ap rank closes in omega arith

abbrev pub measure : Tunnel → ℕ
measure s = work s.left + work s.right

Step-measure : {s t : Tunnel} → Step s t → measure t < measure s
Step-measure (left_moves c o st) = let less = CopyStep-work st in omega arith
Step-measure (right_moves c o st) = let less = CopyStep-work st in omega arith

Steps-measure : {s t : Tunnel} {n : ℕ} → Steps s n t → n + measure t ≤ measure s
Steps-measure none_yet = omega arith
Steps-measure (one_more ss st) =
    let ih = Steps-measure ss in let less = Step-measure st in omega arith

Begins-measure :
    {a b : Bytes} {s : Tunnel} → Begins a b s → measure s ≡ 6 + 2 * (length a + length b)
unfolding tcp_tunnel stdio_tunnel http_tunnel conn_forward
Begins-measure tcp = omega arith
Begins-measure stdio = omega arith
Begins-measure (http read_ahead sent e) = let same = ap length e in omega arith

-- A goroutine that has not returned can move.
copying_moves :
    (o : Opened) (c : Copy) (held : Bytes)
    → c.held ≡ held
    → c.phase ≡ copying
    → (d : Copy) × (p : Opened) × CopyStep o c d p
copying_moves o c [] e copies = (_, _, fails_to_read copies e)
copying_moves o c (x ∷ held) e copies =
    let more = ap length e in (_, _, fails_to_write 0 copies (omega arith))

can_move :
    (o : Opened) (c : Copy) (p : Phase)
    → c.phase ≡ p
    → p ≢ ended
    → (d : Copy) × (q : Opened) × CopyStep o c d q
can_move o c copying e runs = copying_moves o c c.held refl e
can_move o c closing e runs = (_, _, closes_first e)
can_move o c closing_second e runs = (_, _, closes_second e)
can_move o c ended e runs = absurd (runs refl)

is_ended : (p : Phase) → (p ≡ ended) ⊎ (p ≢ ended)
is_ended copying = inr (λ e. cc)
is_ended closing = inr (λ e. cc)
is_ended closing_second = inr (λ e. cc)
is_ended ended = inl refl

stuck_ended :
    (o : Opened) (c : Copy) → ((d : Copy) (p : Opened) → CopyStep o c d p → ⊥) → c.phase ≡ ended
stuck_ended o c stuck = elim (is_ended c.phase) [
  | inl e ↦ e
  | inr runs ↦ let (d, p, st) = can_move o c c.phase refl runs in absurd (stuck d p st)
]

-- No step changes which connections a goroutine has.
pub record SameEnds (c d : Copy) : Type 0 where
  pub from : d.from ≡ c.from
  pub into : d.into ≡ c.into
  pub first_close : d.first_close ≡ c.first_close
  pub second_close : d.second_close ≡ c.second_close

SameEnds-trans : {c d e : Copy} → SameEnds c d → SameEnds d e → SameEnds c e
SameEnds-trans a b = record {
  from = b.from ∙ a.from;
  into = b.into ∙ a.into;
  first_close = b.first_close ∙ a.first_close;
  second_close = b.second_close ∙ a.second_close;
}

pub SameEnds-refl : (c : Copy) → SameEnds c c
SameEnds-refl c = record { from = refl; into = refl; first_close = refl; second_close = refl }

pub CopyStep-SameEnds : {o : Opened} {c d : Copy} {p : Opened} → CopyStep o c d p → SameEnds c d
unfolding read_chunk write_chunk return_copy
CopyStep-SameEnds {c = c} (reads n copies empty pos le open_from) = record {
  from = refl;
  into = refl;
  first_close = refl;
  second_close = refl;
}
CopyStep-SameEnds (writes copies some_held open_into) = record {
  from = refl;
  into = refl;
  first_close = refl;
  second_close = refl;
}
CopyStep-SameEnds (fails_to_write n copies lt) = record {
  from = refl;
  into = refl;
  first_close = refl;
  second_close = refl;
}
CopyStep-SameEnds (fails_to_read copies empty) = record {
  from = refl;
  into = refl;
  first_close = refl;
  second_close = refl;
}
CopyStep-SameEnds (reads_end copies empty over open_from) = record {
  from = refl;
  into = refl;
  first_close = refl;
  second_close = refl;
}
CopyStep-SameEnds (closes_first closes) = record {
  from = refl;
  into = refl;
  first_close = refl;
  second_close = refl;
}
CopyStep-SameEnds (closes_second closes) = record {
  from = refl;
  into = refl;
  first_close = refl;
  second_close = refl;
}

pub Steps-SameEnds :
    {s t : Tunnel} {n : ℕ} → Steps s n t → SameEnds s.left t.left × SameEnds s.right t.right
Steps-SameEnds {s} none_yet = (SameEnds-refl s.left, SameEnds-refl s.right)
Steps-SameEnds (one_more ss (left_moves c o st)) =
    let (l, r) = Steps-SameEnds ss in (SameEnds-trans l (CopyStep-SameEnds st), r)
Steps-SameEnds (one_more ss (right_moves c o st)) =
    let (l, r) = Steps-SameEnds ss in (l, SameEnds-trans r (CopyStep-SameEnds st))

-- Both goroutines have returned, and every connection of theirs is closed.
pub record IsOver (s t : Tunnel) : Type 0 where
  pub left : t.left.phase ≡ ended
  pub right : t.right.phase ≡ ended
  pub left_from : t.opened s.left.from ≡ false
  pub left_into : t.opened s.left.into ≡ false
  pub right_from : t.opened s.right.from ≡ false
  pub right_into : t.opened s.right.into ≡ false

-- The connections that a goroutine closes are the two that it copies between.
closes_both :
    {a b : Bytes} {s : Tunnel} (o : Opened)
    → Begins a b s
    → o s.left.first_close ≡ false
    → o s.left.second_close ≡ false
    → o s.right.first_close ≡ false
    → o s.right.second_close ≡ false
    → (o s.left.from ≡ false)
      × (o s.left.into ≡ false)
      × (o s.right.from ≡ false)
      × (o s.right.into ≡ false)
unfolding tcp_tunnel stdio_tunnel http_tunnel conn_forward
closes_both o tcp h1 h2 h3 h4 = (h2, h1, h4, h3)
closes_both o stdio h1 h2 h3 h4 = (h2, h1, h4, h3)
closes_both o (http read_ahead sent e) h1 h2 h3 h4 = (h1, h2, h4, h3)

stuck-IsOver :
    {a b : Bytes} {s t : Tunnel} {n : ℕ}
    → Begins a b s
    → Steps s n t
    → ((u : Tunnel) → Step t u → ⊥)
    → IsOver s t
stuck-IsOver {t = t} b ss stuck =
    let left = stuck_ended t.opened t.left (λ c o st. stuck _ (left_moves c o st)) in
    let right = stuck_ended t.opened t.right (λ c o st. stuck _ (right_moves c o st)) in
    let sound = tunnel-AreSound b ss in
    let (l, r) = Steps-SameEnds ss in
    let (lf, li, rf, ri) =
      closes_both t.opened b
        (subst (λ e. t.opened e ≡ false) l.first_close (sound.left.one_closed (inr left)))
        (subst (λ e. t.opened e ≡ false) l.second_close (sound.left.both_closed left))
        (subst (λ e. t.opened e ≡ false) r.first_close (sound.right.one_closed (inr right)))
        (subst (λ e. t.opened e ≡ false) r.second_close (sound.right.both_closed right)) in
    record {
      left = left;
      right = right;
      left_from = lf;
      left_into = li;
      right_from = rf;
      right_into = ri;
    }

-- Whatever the two goroutines of a tunnel do, they take at most six steps and two for each byte that
-- they are given to copy; and where neither can take another, both have returned and every connection of the
-- tunnel is closed.
pub tunnel_terminates :
    {a b : Bytes} {s t : Tunnel} {n : ℕ}
    → Begins a b s
    → Steps s n t
    → (n ≤ 6 + 2 * (length a + length b)) × (((u : Tunnel) → Step t u → ⊥) → IsOver s t)
tunnel_terminates b ss =
    let spent = Steps-measure ss in let first = Begins-measure b in (omega arith, stuck-IsOver b ss)
