-- ===== src/Udp/Refinement.antt =====
-- The sessions of a UDP tunnel are a table by source address.
use mathlib.Core.Path.{subst}
use scramjet_app.Base.{
  ==_iff, Bool-cases, Bytes, Option, ap, arith, bytes_eq, bytes_eq_iff, if-cases, if◌then◌else◌,
  inl, inr, none, not, refl, some, sym, true, ℕ, ◌&&◌, ◌==◌, ◌∙◌, ◌≡◌,
}
use scramjet_app.Base.Int.{ℤ}
use scramjet_app.Udp.{
  Heap, State, Phase, find, update, touch, move, session_for, expired, expire, tick, delete, ended,
  remove_found, remove_session, finish, close_chan, check_closed, reading, at_top, handle_read,
  Reading, timed_out, failed, data_read, Step, receives, forwards, ticks, checks, reads, receive,
  forward, get_or_create_session, Reachable,
}
use scramjet_app.Udp.Expiry.{Keeps-expire, has-expire}
use scramjet_app.Udp.Map.{has, has-find}
use scramjet_app.Udp.Invariant.{IsConsistent, unfound_unmapped, IsConsistent-change}
use scramjet_app.Udp.Invariant.Steps.{IsWellFormed, Reachable-IsWellFormed}
use scramjet_app.Udp.Table.{
  entry, table, put, session_of, end_idle, end_session, after_reading, next_table,
}
use scramjet_app.Udp.Entries.{
  find-keep, touched-entry, kept-entry, found-put, added-entry, entry-keep, entry-same,
  unmapped-table, delete-part, ended-touched,
}

session_for-table :
    (src : Bytes) (dialed : Option ℕ) (now : ℕ) (s : State) (key : Bytes) (o : Option ℕ)
    → IsConsistent s.sessions s.heap s.next
    → find src s.sessions ≡ o
    → table (session_for src dialed now s o).0 key
      ≡ put src (session_of s.next dialed now (entry s.heap o)) (table s) key
unfolding find update
session_for-table src dialed now s key (some i) inv e =
    touched-entry i now s.heap (find key s.sessions) ∙ found-put src now s i key inv e
session_for-table src none now s key none inv e = elim (Bool-cases (bytes_eq src key)) [
  | inl same ↦
      let here : find key s.sessions ≡ none =
        subst (λ k. find k s.sessions ≡ none) ((bytes_eq_iff src key).0 same) e in
      rw (same, here)
  | inr other ↦ rw other
]
session_for-table src (some conn) now s key none inv e = elim (Bool-cases (bytes_eq src key)) [
  | inl same ↦ rw same (let itself : (s.next == s.next) ≡ true = ground arith in rw itself)
  | inr other ↦ rw other (
      added-entry s.next _ s.heap (find key s.sessions)
        (λ j f. inv.created key j (has-find key s.sessions j f)))
]

tick-table :
    (timeout : ℤ) (now : ℕ) (s : State) (key : Bytes)
    → IsWellFormed s
    → table (tick timeout now s) key ≡ end_idle timeout now (table s) key
unfolding tick expired
tick-table timeout now s key inv =
    let (kept, h) = expire timeout now s.sessions s.heap in
    ap (entry h) (
      find-keep kept (λ i. not (expired timeout now (s.heap i))) key (find key s.sessions) _ inv
        (has-expire timeout now s.sessions s.heap key) refl refl)
    ∙ entry-same h s.heap _
        (λ i. let k = Keeps-expire timeout now s.sessions s.heap i in (k.conn, k.active))
    ∙ entry-keep s.heap _ _ (find key s.sessions) (λ i. refl)

kept_ended :
    (i : ℕ) (p : Phase) (h : Heap) (o : Option ℕ) → entry (update i (move p) h) o ≡ entry h o
kept_ended i p h o = kept-entry i (move p) h o (λ s. (refl, refl))

end_found-table :
    (i : ℕ) (s : State) (key : Bytes) (o : Option ℕ)
    → IsWellFormed s
    → find (s.heap i).src_addr s.sessions ≡ o
    → table (remove_found (s.heap i).src_addr i s o) key ≡ end_session i (table s) key
end_found-table i s key none inv e = unmapped-table i s.heap (find key s.sessions) (λ j f same.
    unfound_unmapped inv i none e (λ j none_there. cc) key
      (subst (λ x. has s.sessions key x ≡ true) same (has-find key s.sessions j f)))
end_found-table i s key (some current) inv e =
    if-cases (λ (t : State). table t key ≡ end_session i (table s) key) (current == i)
      (λ same.
        let src = (s.heap i).src_addr in
        let at = subst (λ x. find src s.sessions ≡ some x) ((==_iff current i).0 same) e in
        kept-entry current close_chan s.heap _ (λ x. (refl, refl))
        ∙ ap (entry s.heap) (
            find-keep (delete src s.sessions) (λ j. not (j == i)) key (find key s.sessions) _ inv
              (λ j. delete-part src key i j inv (has-find src s.sessions i at)) refl refl)
        ∙ entry-keep s.heap _ _ (find key s.sessions) (λ j. refl))
      (λ other. unmapped-table i s.heap (find key s.sessions) (λ j f same.
        unfound_unmapped inv i (some current) e (λ k g eq. ground arith) key
          (subst (λ x. has s.sessions key x ≡ true) same (has-find key s.sessions j f))))

finish-table :
    (i : ℕ) (s : State) (key : Bytes)
    → IsWellFormed s
    → table (finish i s) key ≡ end_session i (table s) key
unfolding finish remove_session
finish-table i s key inv = kept_ended i ended _ _ ∙ end_found-table i s key _ inv refl

-- A session that is closed is in no table, so its goroutine ends without changing it.
ends_or_moves-table :
    (i : ℕ) (p : Phase) (s : State) (key : Bytes)
    → IsWellFormed s
    → table
        (if (s.heap i).closed then finish i s else record s { heap = update i (move p) s.heap })
        key
      ≡ table s key
ends_or_moves-table i p s key inv =
    if-cases (λ (t : State). table t key ≡ table s key) (s.heap i).closed
      (λ gone.
        finish-table i s key inv
        ∙ sym (
            unmapped-table i s.heap (find key s.sessions) (λ j f same.
              let open_chan = (inv.running key j (has-find key s.sessions j f)).open_chan in
              let closed = subst (λ x. (s.heap x).closed ≡ true) (sym same) gone in cc)))
      (λ here. kept_ended i p s.heap (find key s.sessions))

handle_read-table :
    (i : ℕ) (r : Reading) (s : State) (key : Bytes)
    → IsWellFormed s
    → table (handle_read i r s) key ≡ after_reading i r (table s) key
unfolding handle_read
handle_read-table i timed_out s key inv = ends_or_moves-table i at_top s key inv
handle_read-table i failed s key inv = finish-table i s key inv
handle_read-table i (data_read now resolved written) s key inv =
    elim (Bool-cases (resolved && written)) [
      | inl passed ↦
          rw passed (kept_ended i at_top _ _ ∙ touched-entry i now s.heap (find key s.sessions))
      | inr lost ↦ rw lost (
          finish-table i (record s { heap = update i (touch now) s.heap }) key
            (IsConsistent-change inv i (touch now) refl refl (λ d. d))
          ∙ ended-touched i now s.heap (find key s.sessions))
    ]

-- Each step of a tunnel, from a state that the tunnel reaches, changes the table of sessions as the
-- description says: a datagram keeps its source's session or opens one, a use of a session is its last
-- activity, the ticker ends the idle sessions and no others, and a goroutine that ends takes its own
-- session with it, and no session that was opened since; nothing else changes the table.
pub Step-next_table :
    {timeout : ℤ} {s t : State}
    → Reachable timeout s
    → (st : Step timeout s t) → (key : Bytes) → table t key ≡ next_table st (table s) key
unfolding receive get_or_create_session forward check_closed
Step-next_table {timeout} {s} r (receives src dialed now e) key =
    session_for-table src dialed now s key _ (Reachable-IsWellFormed timeout s r) refl
Step-next_table {s = s} r (forwards i now e) key = touched-entry i now s.heap (find key s.sessions)
Step-next_table {timeout} {s} r (ticks now e) key =
    tick-table timeout now s key (Reachable-IsWellFormed timeout s r)
Step-next_table {timeout} {s} r (checks i lt e) key =
    ends_or_moves-table i reading s key (Reachable-IsWellFormed timeout s r)
Step-next_table {timeout} {s} r (reads i x lt e) key =
    handle_read-table i x s key (Reachable-IsWellFormed timeout s r)
