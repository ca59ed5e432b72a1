-- ===== src/Udp/Invariant/Steps.antt =====
-- Every step keeps the invariant of the sessions.
use scramjet_app.Base.{
  ==_iff, Bool-cases, Bytes, Option, arith, bytes_eq, bytes_eq_iff, false, if-cases, if◌then◌else◌,
  inl, inr, none, refl, some, suc, sym, true, ℕ, ◌&&◌, ◌<◌, ◌==◌, ◌∙◌, ◌∷◌, ◌≡◌, ◌≢◌, ◌⊎◌,
}
use scramjet_app.Base.Int.{ℤ}
use scramjet_app.Udp.{
  timed_out, failed, data_read, start, step, receives, forwards, ticks, checks, reads, Sessions,
  Heap, UdpSession, State, find, update, expire, expired, tick, receive, get_or_create_session,
  finish, session_for, check_closed, remove_found, at_top, move, remove_session, ended, touch,
  reading, handle_read, Reachable, forward, Phase, Reading, Step, step, delete, data_read, receives,
  forwards, ticks, checks, reads,
}
use scramjet_app.Udp.Map.{has, find-none, update-cases}
use scramjet_app.Udp.Expiry.{holds-has, has-expire, closed-expire, Keeps-expire}
use scramjet_app.Udp.Invariant.{
  IsConsistent, Running, subst, IsConsistent-change, IsConsistent-ended, unfound_unmapped, has-find,
  IsConsistent-removed, removed_unmapped,
}

abbrev pub IsWellFormed : State → Type 0
IsWellFormed s = IsConsistent s.sessions s.heap s.next

expire-IsConsistent :
    (timeout : ℤ) (now : ℕ) {m : Sessions} {h : Heap} {n : ℕ}
    → IsConsistent m h n
    → IsConsistent (expire timeout now m h).0 (expire timeout now m h).1 n
expire-IsConsistent timeout now {m} {h} inv =
    let stays : (key : Bytes) (i : ℕ)
        → has (expire timeout now m h).0 key i ≡ true
        → (has m key i ≡ true) × (expired timeout now (h i) ≡ false) =
      λ key i e.
        let both = sym (has-expire timeout now m h key i) ∙ e in (ground arith, ground arith) in
    let keeps = Keeps-expire timeout now m h in
    record {
      created = λ key i e. inv.created key i (stays key i e).0;
      running = λ key i e.
          let r = inv.running key i (stays key i e).0 in
          record {
            own = (keeps i).src ∙ r.own;
            open_chan =
                (let was = r.open_chan in
                  let fresh = (stays key i e).1 in
                  closed-expire timeout now m h i ∙ (ground arith));
            alive = λ dead. r.alive (sym (keeps i).phase ∙ dead);
          };
      listed = λ i lt e.
          let still = sym (closed-expire timeout now m h i) ∙ e in
          let there = inv.listed i lt (ground arith) in
          let held = holds-has m (h i).src_addr i there in
          subst (λ key. has (expire timeout now m h).0 key i ≡ true) (sym (keeps i).src)
            (has-expire timeout now m h (h i).src_addr i ∙ (ground arith));
      single = λ key i j a b. inv.single key i j (stays key i a).0 (stays key j b).0;
    }

has-cons-cases :
    (key k : Bytes) (n i : ℕ) (m : Sessions)
    → has ((key, n) ∷ m) k i ≡ true
    → ((key ≡ k) × (n ≡ i)) ⊎ (has m k i ≡ true)
unfolding has
has-cons-cases key k n i m e = elim (Bool-cases (bytes_eq key k && (n == i))) [
  | inl here ↦
      let same = (bytes_eq_iff key k).0 in
      let first : bytes_eq key k ≡ true = ground arith in inl (same first, ground arith)
  | inr none_here ↦ inr (ground arith)
]

-- A new session at the next index, for a source that has none.
module _ {m : Sessions} {h : Heap} {n : ℕ} (inv : IsConsistent m h n) where
  absent-ne : (key k : Bytes) (i : ℕ) → find key m ≡ none → has m k i ≡ true → key ≢ k
  absent-ne key k i absent e same =
      let no = find-none key m i absent in
      let found = subst (λ x. has m x i ≡ true) (sym same) e in cc

  added_single :
      (key k : Bytes) (i j : ℕ)
      → find key m ≡ none
      → ((key ≡ k) × (n ≡ i)) ⊎ (has m k i ≡ true)
      → ((key ≡ k) × (n ≡ j)) ⊎ (has m k j ≡ true)
      → i ≡ j
  added_single key k i j absent (inl a) (inl b) = sym a.1 ∙ b.1
  added_single key k i j absent (inl a) (inr b) = absurd (absent-ne key k j absent b a.0)
  added_single key k i j absent (inr a) (inl b) = absurd (absent-ne key k i absent a b.0)
  added_single key k i j absent (inr a) (inr b) = inv.single k i j a b

  added_created : (key k : Bytes) (i : ℕ) → ((key ≡ k) × (n ≡ i)) ⊎ (has m k i ≡ true) → i < suc n
  added_created key k i (inl a) = let e = a.1 in omega arith
  added_created key k i (inr a) = let lt = inv.created k i a in omega arith

  added-Running :
      (key k : Bytes) (new : UdpSession) (i : ℕ)
      → Running key new
      → ((key ≡ k) × (n ≡ i)) ⊎ (has m k i ≡ true)
      → Running k (update n (λ _. new) h i)
  added-Running key k new i r (inl a) =
      update-cases (Running k) n i (λ _. new) h (λ same. subst (λ x. Running x new) a.0 r)
        (λ other. absurd (other a.1))
  added-Running key k new i r (inr a) =
      update-cases (Running k) n i (λ _. new) h
        (λ same. let lt = inv.created k i a in absurd (omega arith)) (λ other. inv.running k i a)

  added-IsConsistent :
      (key : Bytes) (new : UdpSession)
      → find key m ≡ none
      → Running key new
      → IsConsistent ((key, n) ∷ m) (update n (λ _. new) h) (suc n)
  unfolding has
  added-IsConsistent key new absent r = record {
    created = λ k i e. added_created key k i (has-cons-cases key k n i m e);
    running = λ k i e. added-Running key k new i r (has-cons-cases key k n i m e);
    listed = λ i lt.
        update-cases (λ s. s.closed ≡ false → has ((key, n) ∷ m) s.src_addr i ≡ true) n i (λ _. new)
          h (λ same e. let found = (bytes_eq_iff key new.src_addr).1 (sym r.own) in ground arith)
          (λ other e. let there = inv.listed i (omega arith) e in ground arith);
    single = λ k i j a b.
        added_single key k i j absent (has-cons-cases key k n i m a) (has-cons-cases key k n j m b);
  }

tick-IsWellFormed :
    (timeout : ℤ) (now : ℕ) (s : State) → IsWellFormed s → IsWellFormed (tick timeout now s)
unfolding tick
tick-IsWellFormed timeout now s inv = expire-IsConsistent timeout now inv

session_for-IsWellFormed :
    (src : Bytes) (dialed : Option ℕ) (now : ℕ) (s : State) (o : Option ℕ)
    → find src s.sessions ≡ o
    → IsWellFormed s
    → IsWellFormed (session_for src dialed now s o).0
session_for-IsWellFormed src none now s none e inv = inv
session_for-IsWellFormed src (some conn) now s none e inv =
    added-IsConsistent inv src _ e (record { own = refl; open_chan = refl; alive = λ dead. cc })
session_for-IsWellFormed src dialed now s (some i) e inv =
    IsConsistent-change inv i (touch now) refl refl (λ d. d)

pub receive-IsWellFormed :
    (src : Bytes) (dialed : Option ℕ) (now : ℕ) (s : State)
    → IsWellFormed s
    → IsWellFormed (receive src dialed now s)
unfolding receive get_or_create_session
receive-IsWellFormed src dialed now s inv = session_for-IsWellFormed src dialed now s _ refl inv

end_found :
    (i : ℕ) (s : State) (o : Option ℕ)
    → find (s.heap i).src_addr s.sessions ≡ o
    → IsWellFormed s
    → IsConsistent
        (remove_found (s.heap i).src_addr i s o).sessions
        (update i (move ended) (remove_found (s.heap i).src_addr i s o).heap)
        (remove_found (s.heap i).src_addr i s o).next
end_found i s none e inv = IsConsistent-ended inv i (unfound_unmapped inv i none e (λ j f. cc))
end_found i s (some current) e inv =
    let src = (s.heap i).src_addr in
    let found = has-find src s.sessions current e in
    if-cases (λ (t : State). IsConsistent t.sessions (update i (move ended) t.heap) t.next)
      (current == i)
      (λ same. IsConsistent-ended (IsConsistent-removed inv src current found) i (
        subst (λ j. (k : Bytes) → has (delete src s.sessions) k j ≢ true)
          ((==_iff current i).0 same) (removed_unmapped inv src current found)))
      (λ other.
        IsConsistent-ended inv i
          (unfound_unmapped inv i (some current) e (λ j f same. ground arith)))

finish-IsWellFormed : (i : ℕ) (s : State) → IsWellFormed s → IsWellFormed (finish i s)
unfolding finish remove_session
finish-IsWellFormed i s inv = end_found i s _ refl inv

-- What the goroutine does where its channel may be closed: it ends, or it goes on.
ends_or_moves :
    (i : ℕ) (p : Phase) (s : State)
    → p ≢ ended
    → IsWellFormed s
    → IsWellFormed
        (if (s.heap i).closed then finish i s else record s { heap = update i (move p) s.heap })
ends_or_moves i p s lives inv =
    if-cases IsWellFormed (s.heap i).closed (λ e. finish-IsWellFormed i s inv)
      (λ e. IsConsistent-change inv i (move p) refl refl (λ dead. absurd (lives dead)))

check_closed-IsWellFormed : (i : ℕ) (s : State) → IsWellFormed s → IsWellFormed (check_closed i s)
unfolding check_closed
check_closed-IsWellFormed i s inv = ends_or_moves i reading s (λ e. cc) inv

handle_read-IsWellFormed :
    (i : ℕ) (r : Reading) (s : State) → IsWellFormed s → IsWellFormed (handle_read i r s)
unfolding handle_read
handle_read-IsWellFormed i timed_out s inv = ends_or_moves i at_top s (λ e. cc) inv
handle_read-IsWellFormed i failed s inv = finish-IsWellFormed i s inv
handle_read-IsWellFormed i (data_read now resolved written) s inv =
    let inv1 = IsConsistent-change inv i (touch now) refl refl (λ d. d) in
    if-cases IsWellFormed (resolved && written)
      (λ e. IsConsistent-change inv1 i (move at_top) refl refl (λ dead. cc))
      (λ e. finish-IsWellFormed i (record s { heap = update i (touch now) s.heap }) inv1)

Step-IsWellFormed : {timeout : ℤ} {s t : State} → Step timeout s t → IsWellFormed s → IsWellFormed t
unfolding forward
Step-IsWellFormed {s = s} (receives src dialed now e) inv =
    receive-IsWellFormed src dialed now s inv
Step-IsWellFormed (forwards i now e) inv = IsConsistent-change inv i (touch now) refl refl (λ d. d)
Step-IsWellFormed {timeout} {s} (ticks now e) inv = tick-IsWellFormed timeout now s inv
Step-IsWellFormed {s = s} (checks i lt e) inv = check_closed-IsWellFormed i s inv
Step-IsWellFormed {s = s} (reads i r lt e) inv = handle_read-IsWellFormed i r s inv

-- In every state that a tunnel reaches, in whatever order its goroutines run: the map holds running
-- sessions alone, each under its own source; every session that is not closed is in the map, so
-- that the ticker reaches it; and no source has two sessions.
pub Reachable-IsWellFormed : (timeout : ℤ) (s : State) → Reachable timeout s → IsWellFormed s
unfolding has
Reachable-IsWellFormed timeout s start = record {
  created = λ key i e. cc;
  running = λ key i e. cc;
  listed = λ i lt e. cc;
  single = λ key i j a b. cc;
}
Reachable-IsWellFormed timeout t (step {s} r st) =
    Step-IsWellFormed st (Reachable-IsWellFormed timeout s r)
