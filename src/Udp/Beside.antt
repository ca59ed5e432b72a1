-- ===== src/Udp/Beside.antt =====
-- What a step of a UDP tunnel leaves of a session that exists.
use scramjet_app.Base.{
  Bool, Bytes, Option, arith, false, if-cases, none, refl, some, suc, true, ℕ, ◌&&◌, ◌<◌, ◌==◌, ◌∙◌,
  ◌≡◌, ◌≢◌, ◌≤◌,
}
use scramjet_app.Base.Int.{ℤ}
use scramjet_app.Udp.{
  State, UdpSession, Phase, at_top, reading, ended, update, touch, move, close_chan, tick,
  remove_found, remove_session, finish, check_closed, handle_read, Reading, timed_out, failed,
  data_read, receive, get_or_create_session, session_for, forward, Step, receives, forwards, ticks,
  checks, reads,
}
use scramjet_app.Udp.Expiry.{Keeps-expire, closed-expire}
use scramjet_app.Udp.Map.{update-cases}

-- Its source, and that its channel is closed; its phase, unless it is the session that moves.
pub record Leaves (i mover : ℕ) (s t : State) : Type 0 where
  pub older : s.next ≤ t.next
  pub source : (t.heap i).src_addr ≡ (s.heap i).src_addr
  pub stays : (s.heap i).closed ≡ true → (t.heap i).closed ≡ true
  pub phase : mover ≢ i → (t.heap i).phase ≡ (s.heap i).phase

Leaves-refl : (i mover : ℕ) (s : State) → Leaves i mover s s
Leaves-refl i mover s = record {
  older = omega arith;
  source = refl;
  stays = λ h. h;
  phase = λ n. refl;
}

Leaves-trans :
    {i mover : ℕ} {s t u : State} → Leaves i mover s t → Leaves i mover t u → Leaves i mover s u
Leaves-trans a b = record {
  older = (let x = a.older in let y = b.older in omega arith);
  source = b.source ∙ a.source;
  stays = λ h. b.stays (a.stays h);
  phase = λ n. b.phase n ∙ a.phase n;
}

-- A change of a session that leaves the phase.
change-Leaves :
    (i mover j : ℕ) (f : UdpSession → UdpSession) (s : State)
    → ((x : UdpSession)
        → ((f x).src_addr ≡ x.src_addr)
          × (x.closed ≡ true → (f x).closed ≡ true)
          × ((f x).phase ≡ x.phase))
    → Leaves i mover s (record s { heap = update j f s.heap })
change-Leaves i mover j f s keeps = record {
  older = omega arith;
  source =
      update-cases (λ x. x.src_addr ≡ (s.heap i).src_addr) j i f s.heap (λ e. (keeps (s.heap i)).0)
        (λ n. refl);
  stays =
      λ h. update-cases (λ x. x.closed ≡ true) j i f s.heap (λ e. (keeps (s.heap i)).1 h) (λ n. h);
  phase = λ apart.
      update-cases (λ x. x.phase ≡ (s.heap i).phase) j i f s.heap (λ e. (keeps (s.heap i)).2)
        (λ n. refl);
}

move-Leaves :
    (i j : ℕ) (p : Phase) (s : State) → Leaves i j s (record s { heap = update j (move p) s.heap })
move-Leaves i j p s = record {
  older = omega arith;
  source =
      update-cases (λ x. x.src_addr ≡ (s.heap i).src_addr) j i (move p) s.heap (λ e. refl)
        (λ n. refl);
  stays = λ h. update-cases (λ x. x.closed ≡ true) j i (move p) s.heap (λ e. h) (λ n. h);
  phase = λ apart.
      update-cases (λ x. x.phase ≡ (s.heap i).phase) j i (move p) s.heap (λ e. absurd (apart e))
        (λ n. refl);
}

touch-Leaves :
    (i mover j now : ℕ) (s : State)
    → Leaves i mover s (record s { heap = update j (touch now) s.heap })
touch-Leaves i mover j now s = change-Leaves i mover j (touch now) s (λ x. (refl, (λ h. h), refl))

remove_found-Leaves :
    (i mover : ℕ) (src : Bytes) (j : ℕ) (s : State) (o : Option ℕ)
    → Leaves i mover s (remove_found src j s o)
remove_found-Leaves i mover src j s none = Leaves-refl i mover s
remove_found-Leaves i mover src j s (some current) =
    if-cases (Leaves i mover s) (current == j)
      (λ e.
        let c = change-Leaves i mover current close_chan s (λ x. (refl, (λ h. refl), refl)) in
        record { older = omega arith; source = c.source; stays = c.stays; phase = c.phase })
      (λ e. Leaves-refl i mover s)

finish-Leaves : (i j : ℕ) (s : State) → Leaves i j s (finish j s)
unfolding finish remove_session
finish-Leaves i j s =
    Leaves-trans (remove_found-Leaves i j (s.heap j).src_addr j s _) (move-Leaves i j ended _)

check_closed-Leaves : (i j : ℕ) (s : State) → Leaves i j s (check_closed j s)
unfolding check_closed
check_closed-Leaves i j s =
    if-cases (Leaves i j s) (s.heap j).closed (λ e. finish-Leaves i j s)
      (λ e. move-Leaves i j reading s)

handle_read-Leaves : (i j : ℕ) (r : Reading) (s : State) → Leaves i j s (handle_read j r s)
unfolding handle_read
handle_read-Leaves i j timed_out s =
    if-cases (Leaves i j s) (s.heap j).closed (λ e. finish-Leaves i j s)
      (λ e. move-Leaves i j at_top s)
handle_read-Leaves i j failed s = finish-Leaves i j s
handle_read-Leaves i j (data_read now resolved written) s =
    if-cases (Leaves i j s) (resolved && written)
      (λ e. Leaves-trans (touch-Leaves i j j now s) (move-Leaves i j at_top _))
      (λ e. Leaves-trans (touch-Leaves i j j now s) (finish-Leaves i j _))

tick-Leaves : (timeout : ℤ) (i mover now : ℕ) (s : State) → Leaves i mover s (tick timeout now s)
unfolding tick
tick-Leaves timeout i mover now s =
    let k = Keeps-expire timeout now s.sessions s.heap i in
    let after = closed-expire timeout now s.sessions s.heap i in
    record {
      older = omega arith;
      source = k.src;
      stays = λ h. after ∙ (ground arith);
      phase = λ apart. k.phase;
    }

session_for-Leaves :
    (i mover : ℕ) (src : Bytes) (dialed : Option ℕ) (now : ℕ) (s : State) (o : Option ℕ)
    → i < s.next
    → Leaves i mover s (session_for src dialed now s o).0
session_for-Leaves i mover src none now s none lt = Leaves-refl i mover s
session_for-Leaves i mover src (some conn) now s none lt = record {
  older = omega arith;
  source =
      update-cases (λ x. x.src_addr ≡ (s.heap i).src_addr) s.next i (λ _. _) s.heap
        (λ e. absurd (omega arith)) (λ n. refl);
  stays = λ h.
      update-cases (λ x. x.closed ≡ true) s.next i (λ _. _) s.heap (λ e. absurd (omega arith))
        (λ n. h);
  phase = λ apart.
      update-cases (λ x. x.phase ≡ (s.heap i).phase) s.next i (λ _. _) s.heap
        (λ e. absurd (omega arith)) (λ n. refl);
}
session_for-Leaves i mover src dialed now s (some j) lt = touch-Leaves i mover j now s

-- The session whose goroutine takes the step; the main loop and the ticker are none.
abbrev pub moves : {timeout : ℤ} {s t : State} → ℕ → Step timeout s t → Bool
moves i (checks j lt e) = j == i
moves i (reads j r lt e) = j == i
moves i _ = false

-- A step of another goroutine, of the main loop or of the ticker.
pub Step-Leaves :
    {timeout : ℤ} {s t : State} (i : ℕ) (st : Step timeout s t)
    → i < s.next
    → (mover : ℕ) × Leaves i mover s t × (moves i st ≡ false → mover ≢ i)
unfolding receive get_or_create_session forward
Step-Leaves {s = s} i (receives src dialed now e) lt =
    let l = session_for-Leaves i (suc i) src dialed now s _ lt in
    (
      suc i,
      record { older = l.older; source = l.source; stays = l.stays; phase = l.phase },
      λ h. omega arith,
    )
Step-Leaves {s = s} i (forwards j now e) lt =
    let l = touch-Leaves i (suc i) j now s in
    (
      suc i,
      record { older = l.older; source = l.source; stays = l.stays; phase = l.phase },
      λ h. omega arith,
    )
Step-Leaves {timeout} {s} i (ticks now e) lt =
    (suc i, tick-Leaves timeout i (suc i) now s, λ h. omega arith)
Step-Leaves {s = s} i (checks j jlt e) lt = (j, check_closed-Leaves i j s, λ h. ground arith)
Step-Leaves {s = s} i (reads j r jlt e) lt = (j, handle_read-Leaves i j r s, λ h. ground arith)
