-- ===== src/Udp/Entries.antt =====
-- The entries of a table of sessions: what each change of the map and of the heap does to them.
use mathlib.Core.Path.{subst}
use scramjet_app.Base.{
  ==_iff, Bool, Bool-cases, Bytes, Option, arith, bytes_eq, bytes_eq_iff, bytes_eq_ne, false,
  if-cases, if◌then◌else◌, inl, inr, none, not, refl, some, sym, true, ℕ, ◌&&◌, ◌<◌, ◌==◌, ◌∙◌, ◌≡◌,
  ◌≢◌,
}
use scramjet_app.Udp.{Sessions, Heap, UdpSession, State, find, update, touch, delete}
use scramjet_app.Udp.Map.{has, has-find, find-none, has-delete}
use scramjet_app.Udp.Invariant.{IsConsistent}
use scramjet_app.Udp.Table.{entry, touched_if, table, put, session_of, Entry, kept_if}

abbrev pub keep_index : (ℕ → Bool) → Option ℕ → Option ℕ
keep_index keep none = none
keep_index keep (some i) = if keep i then some i else none

-- A map with some of the entries of another.
pub find-keep :
    {m : Sessions} {h : Heap} {l : ℕ} (n : Sessions) (keep : ℕ → Bool) (key : Bytes)
    (o p : Option ℕ)
    → IsConsistent m h l
    → ((i : ℕ) → has n key i ≡ (has m key i && keep i))
    → find key m ≡ o
    → find key n ≡ p
    → p ≡ keep_index keep o
find-keep n keep key none none inv part e f = refl
find-keep {m} n keep key none (some j) inv part e f =
    let there = has-find key n j f in
    let before = part j in let gone = find-none key m j e in absurd (ground arith)
find-keep {m} n keep key (some i) none inv part e f =
    let before = has-find key m i e in
    let gone = find-none key n i f in
    let same = part i in let out : keep i ≡ false = ground arith in rw out
find-keep {m} n keep key (some i) (some j) inv part e f =
    let before = has-find key m i e in
    let there = has-find key n j f in
    let same = part j in
    let held : has m key j ≡ true = ground arith in
    let one = inv.single key i j before held in
    let kept : keep i ≡ true = subst (λ x. keep x ≡ true) (sym one) (ground arith) in rw (kept, one)

pub touched-entry :
    (i now : ℕ) (h : Heap) (o : Option ℕ)
    → entry (update i (touch now) h) o ≡ touched_if i now (entry h o)
unfolding update
touched-entry i now h none = refl
touched-entry i now h (some j) = elim (Bool-cases (j == i)) [
  | inl same ↦ rw same
  | inr other ↦ rw other
]

-- What leaves the connection and the time of a session leaves its entry.
pub kept-entry :
    (i : ℕ) (f : UdpSession → UdpSession) (h : Heap) (o : Option ℕ)
    → ((s : UdpSession) → ((f s).remote_conn ≡ s.remote_conn) × ((f s).last_active ≡ s.last_active))
    → entry (update i f h) o ≡ entry h o
unfolding update
kept-entry i f h none same = refl
kept-entry i f h (some j) same = elim (Bool-cases (j == i)) [
  | inl here ↦ rw (here, (same (h j)).0, (same (h j)).1)
  | inr other ↦ rw other
]

touched-entry-other :
    (i now : ℕ) (h : Heap) (o : Option ℕ)
    → ((j : ℕ) → o ≡ some j → j ≢ i)
    → touched_if i now (entry h o) ≡ entry h o
touched-entry-other i now h none other = refl
touched-entry-other i now h (some j) other =
    let apart : (j == i) ≡ false = (let n = other j refl in ground arith) in rw apart

found_apart :
    {m : Sessions} {h : Heap} {n : ℕ} (src key : Bytes) (i j : ℕ)
    → IsConsistent m h n
    → find src m ≡ some i
    → find key m ≡ some j
    → src ≢ key
    → j ≢ i
found_apart {m} src key i j inv e f apart same =
    let found = has-find src m i e in
    let there = subst (λ x. has m key x ≡ true) same (has-find key m j f) in
    apart (sym (inv.running src i found).own ∙ (inv.running key i there).own)

pub found-put :
    (src : Bytes) (now : ℕ) (s : State) (i : ℕ) (key : Bytes)
    → IsConsistent s.sessions s.heap s.next
    → find src s.sessions ≡ some i
    → touched_if i now (table s key)
      ≡ put src (session_of s.next none now (entry s.heap (some i))) (table s) key
found-put src now s i key inv e = elim (Bool-cases (bytes_eq src key)) [
  | inl same ↦
      let here : find key s.sessions ≡ some i =
        subst (λ k. find k s.sessions ≡ some i) ((bytes_eq_iff src key).0 same) e in
      let itself : (i == i) ≡ true = ground arith in rw (same, here, itself)
  | inr other ↦ rw other (
      touched-entry-other i now s.heap (find key s.sessions) (λ j f.
        found_apart src key i j inv e f (λ eq. let yes = (bytes_eq_iff src key).1 eq in cc)))
]

pub added-entry :
    (i : ℕ) (new : UdpSession) (h : Heap) (o : Option ℕ)
    → ((j : ℕ) → o ≡ some j → j < i)
    → entry (update i (λ _. new) h) o ≡ entry h o
unfolding update
added-entry i new h none before = refl
added-entry i new h (some j) before =
    let apart : (j == i) ≡ false = (let n = before j refl in ground arith) in rw apart

pub entry-keep :
    (h : Heap) (p : ℕ → Bool) (q : Entry → Bool) (o : Option ℕ)
    → ((i : ℕ) → p i ≡ q (record { id = i; conn = (h i).remote_conn; last = (h i).last_active }))
    → entry h (keep_index p o) ≡ kept_if q (entry h o)
entry-keep h p q none same = refl
entry-keep h p q (some i) same = rw (← same i) (
    if-cases (λ (o : Option ℕ). entry h o ≡ (if p i then entry h (some i) else none)) (p i)
      (λ e. rw e) (λ e. rw e))

pub entry-same :
    (g h : Heap) (o : Option ℕ)
    → ((i : ℕ) → ((g i).remote_conn ≡ (h i).remote_conn) × ((g i).last_active ≡ (h i).last_active))
    → entry g o ≡ entry h o
entry-same g h none same = refl
entry-same g h (some i) same = rw ((same i).0, (same i).1)

pub unmapped-table :
    (i : ℕ) (h : Heap) (o : Option ℕ)
    → ((j : ℕ) → o ≡ some j → j ≢ i)
    → entry h o ≡ kept_if (λ e. not (e.id == i)) (entry h o)
unmapped-table i h none other = refl
unmapped-table i h (some j) other =
    let apart : (j == i) ≡ false = (let n = other j refl in ground arith) in rw apart

-- Under another key than its own, a deletion leaves the session.
pub delete-part :
    {m : Sessions} {h : Heap} {n : ℕ} (src key : Bytes) (i j : ℕ)
    → IsConsistent m h n
    → has m src i ≡ true
    → has (delete src m) key j ≡ (has m key j && not (j == i))
delete-part {m} src key i j inv found = has-delete src key m j ∙ elim (Bool-cases (has m key j)) [
  | inr gone ↦ rw gone (ground arith)
  | inl there ↦ elim (Bool-cases (j == i)) [
    | inl same ↦
        let own = subst (λ x. has m key x ≡ true) ((==_iff j i).0 same) there in
        let keys =
          (bytes_eq_iff src key).1
            (sym (inv.running src i found).own ∙ (inv.running key i own).own) in
        rw (there, same, keys)
    | inr other ↦
        let keys : bytes_eq src key ≡ false = bytes_eq_ne src key (λ eq.
          let one = inv.single key i j (subst (λ k. has m k i ≡ true) eq found) there in
          ground arith) in
        rw (there, other, keys)
  ]
]

pub ended-touched :
    (i now : ℕ) (h : Heap) (o : Option ℕ)
    → kept_if (λ e. not (e.id == i)) (entry (update i (touch now) h) o)
      ≡ kept_if (λ e. not (e.id == i)) (entry h o)
unfolding update
ended-touched i now h none = refl
ended-touched i now h (some j) = elim (Bool-cases (j == i)) [
  | inl same ↦ rw same
  | inr other ↦ rw other
]
