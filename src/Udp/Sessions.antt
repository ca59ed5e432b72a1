-- ===== src/Udp/Sessions.antt =====
-- What the sessions of a UDP tunnel promise, from the invariant.
use mathlib.Core.Path.{subst}
use scramjet_app.Base.{
  Bytes, Option, arith, bytes_eq_refl, false, if-cases, if◌then◌else◌, leb, ltb, none, refl, some,
  sym, true, ℕ, ◌%◌, ◌*◌, ◌+◌, ◌-◌, ◌<◌, ◌↔◌, ◌∙◌, ◌≡◌,
}
use scramjet_app.Base.Int.{ℤ, pos}
use scramjet_app.Udp.{
  State, Reachable, UdpSession, ended, find, move, tick, receive, get_or_create_session,
  session_for, finish, check_closed, expired, remove_session,
}
use scramjet_app.Udp.Map.{has, has-find, update-cases}
use scramjet_app.Udp.Expiry.{holds-has, closed-expire}
use scramjet_app.Udp.Invariant.{Running}
use scramjet_app.Udp.Invariant.Steps.{Reachable-IsWellFormed, receive-IsWellFormed}

session_for-has :
    (src : Bytes) (dialed : Option ℕ) (now : ℕ) (s : State) (o : Option ℕ) {i : ℕ}
    → find src s.sessions ≡ o
    → (session_for src dialed now s o).1 ≡ some i
    → has (session_for src dialed now s o).0.sessions src i ≡ true
unfolding has
session_for-has src none now s none e h = cc
session_for-has src (some conn) now s none e h = let same = bytes_eq_refl src in ground arith
session_for-has src dialed now s (some j) e h = let found = has-find src s.sessions j e in cc

-- The session that is chosen for a datagram is one of the datagram's own source that is open and whose
-- goroutine runs, whether it was found or is new.
pub receive-Running :
    (timeout : ℤ) (s : State) (src : Bytes) (dialed : Option ℕ) (now : ℕ) {i : ℕ}
    → Reachable timeout s
    → (receive src dialed now s).pending ≡ some i
    → Running src ((receive src dialed now s).heap i)
unfolding receive get_or_create_session
receive-Running timeout s src dialed now r h =
    (receive-IsWellFormed src dialed now s (Reachable-IsWellFormed timeout s r)).running src _
      (session_for-has src dialed now s _ refl h)

pub receive-created :
    (timeout : ℤ) (s : State) (src : Bytes) (dialed : Option ℕ) (now : ℕ) {i : ℕ}
    → Reachable timeout s
    → (receive src dialed now s).pending ≡ some i
    → i < (receive src dialed now s).next
unfolding receive get_or_create_session
receive-created timeout s src dialed now r h =
    (receive-IsWellFormed src dialed now s (Reachable-IsWellFormed timeout s r)).created src _
      (session_for-has src dialed now s _ refl h)

expired_iff :
    (n now : ℕ) (s : UdpSession)
    → n * 1000000000 < 9223372036854775808
    → (expired (pos n) now s ≡ false) ↔ (now < s.last_active + n * 1000000000)
unfolding expired
expired_iff n now s small =
    let same : (n * 1000000000) % 18446744073709551616 ≡ n * 1000000000 = omega arith in
    subst
      (λ d.
        ((if ltb d 9223372036854775808
            then leb (s.last_active + d) now
            else leb s.last_active (now + (18446744073709551616 - d)))
          ≡ false)
        ↔ (now < s.last_active + n * 1000000000))
      (sym same) (ground arith)

-- In every state that a tunnel reaches, a tick leaves open exactly the sessions that were open and
-- have been idle for less than the timeout, for a timeout whose nanoseconds an int64 holds.
pub tick_iff :
    (n now : ℕ) (s : State) (i : ℕ)
    → Reachable (pos n) s
    → i < s.next
    → n * 1000000000 < 9223372036854775808
    → (((tick (pos n) now s).heap i).closed ≡ false)
      ↔ (((s.heap i).closed ≡ false) × (now < (s.heap i).last_active + n * 1000000000))
unfolding tick
tick_iff n now s i r lt small =
    let after = closed-expire (pos n) now s.sessions s.heap i in
    let fresh = expired_iff n now (s.heap i) small in
    let listed = (Reachable-IsWellFormed (pos n) s r).listed i lt in
    (
      λ e.
          let still = sym after ∙ e in
          let was : (s.heap i).closed ≡ false = ground arith in
          let held = holds-has s.sessions (s.heap i).src_addr i (listed was) in
          (was, fresh.0 (ground arith)),
      λ both. after ∙ (let was = both.0 in let ok1 = fresh.1 both.1 in ground arith),
    )

pub finish-phase : (i : ℕ) (s : State) → ((finish i s).heap i).phase ≡ ended
unfolding finish
finish-phase i s =
    update-cases (λ x. x.phase ≡ ended) i i (move ended)
      (remove_session (s.heap i).src_addr i s).heap (λ e. refl) (λ n. absurd (n refl))

pub check_closed-phase :
    (i : ℕ) (s : State) → (s.heap i).closed ≡ true → ((check_closed i s).heap i).phase ≡ ended
unfolding check_closed
check_closed-phase i s h =
    if-cases (λ (t : State). (t.heap i).phase ≡ ended) (s.heap i).closed (λ e. finish-phase i s)
      (λ e. cc)
