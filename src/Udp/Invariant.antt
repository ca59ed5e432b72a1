-- ===== src/Udp/Invariant.antt =====
-- The invariant of the sessions of a UDP tunnel.
pub mod Steps
use mathlib.Core.Path.{subst}
use scramjet_app.Base.{
  Bytes, Option, arith, bytes_eq_iff, bytes_eq_ne, false, none, refl, some, sym, true, ℕ, ◌<◌, ◌∙◌,
  ◌≡◌, ◌≢◌,
}
use scramjet_app.Udp.{Sessions, Heap, UdpSession, ended, find, delete, update, close_chan, move}
use scramjet_app.Udp.Map.{has, has-find, find-none, has-delete, update-cases}

-- A session that the map may hold under the key.
pub record Running (key : Bytes) (s : UdpSession) : Type 0 where
  pub own : s.src_addr ≡ key
  pub open_chan : s.closed ≡ false
  pub alive : s.phase ≢ ended

-- Each entry of the map is a running session of the key's source; each session whose channel is
-- open is in the map; and a key has one session.
pub record IsConsistent (m : Sessions) (h : Heap) (n : ℕ) : Type 0 where
  pub created : (key : Bytes) (i : ℕ) → has m key i ≡ true → i < n
  pub running : (key : Bytes) (i : ℕ) → has m key i ≡ true → Running key (h i)
  pub listed : (i : ℕ) → i < n → (h i).closed ≡ false → has m (h i).src_addr i ≡ true
  pub single : (key : Bytes) (i j : ℕ) → has m key i ≡ true → has m key j ≡ true → i ≡ j

module _ {m : Sessions} {h : Heap} {n : ℕ} (inv : IsConsistent m h n) where
  -- A change that leaves the channel, the source and the life of the session.
  pub IsConsistent-change :
      (i : ℕ) (f : UdpSession → UdpSession)
      → (f (h i)).src_addr ≡ (h i).src_addr
      → (f (h i)).closed ≡ (h i).closed
      → ((f (h i)).phase ≡ ended → (h i).phase ≡ ended)
      → IsConsistent m (update i f h) n
  IsConsistent-change i f src chan life = record {
    created = inv.created;
    running = λ key j e.
        update-cases (Running key) i j f h
          (λ same.
            subst (λ x. Running key (f (h x))) same
              (let r = inv.running key i (subst (λ x. has m key x ≡ true) (sym same) e) in
                record {
                  own = src ∙ r.own;
                  open_chan = chan ∙ r.open_chan;
                  alive = λ dead. r.alive (life dead);
                }))
          (λ other. inv.running key j e);
    listed = λ j lt.
        update-cases (λ s. s.closed ≡ false → has m s.src_addr j ≡ true) i j f h
          (λ same.
            subst (λ x. (f (h x)).closed ≡ false → has m (f (h x)).src_addr x ≡ true) same
              (λ e.
                subst (λ s. has m s i ≡ true) (sym src)
                  (inv.listed i (subst (λ x. x < n) (sym same) lt) (sym chan ∙ e))))
          (λ other. inv.listed j lt);
    single = inv.single;
  }

  -- A session that is not in the map may end.
  pub IsConsistent-ended :
      (i : ℕ) → ((key : Bytes) → has m key i ≢ true) → IsConsistent m (update i (move ended) h) n
  IsConsistent-ended i unmapped = record {
    created = inv.created;
    running = λ key j e.
        update-cases (Running key) i j (move ended) h
          (λ same. absurd (unmapped key (subst (λ x. has m key x ≡ true) (sym same) e)))
          (λ other. inv.running key j e);
    listed = λ j lt.
        update-cases (λ s. s.closed ≡ false → has m s.src_addr j ≡ true) i j (move ended) h
          (λ same. inv.listed j lt) (λ other. inv.listed j lt);
    single = inv.single;
  }

  -- Where an entry is deleted, its key is another.
  deleted :
      (src key : Bytes) (j : ℕ)
      → has (delete src m) key j ≡ true
      → (src ≢ key) × (has m key j ≡ true)
  deleted src key j e =
      let both = sym (has-delete src key m j) ∙ e in
      let same = (bytes_eq_iff src key).1 in
      (λ eq. let there = same eq in ground arith, ground arith)

  -- Its channel closed, a session is deleted.
  pub IsConsistent-removed :
      (key : Bytes) (i : ℕ)
      → has m key i ≡ true
      → IsConsistent (delete key m) (update i close_chan h) n
  IsConsistent-removed key i found = record {
    created = λ k j e. inv.created k j (deleted key k j e).1;
    running = λ k j e.
        update-cases (Running k) i j close_chan h
          (λ same. absurd (
            (deleted key k j e).0 (
              sym (inv.running key i found).own
              ∙ (inv.running k i
                  (subst (λ x. has m k x ≡ true) (sym same) (deleted key k j e).1)).own)))
          (λ other. inv.running k j (deleted key k j e).1);
    listed = λ j lt.
        update-cases (λ s. s.closed ≡ false → has (delete key m) s.src_addr j ≡ true) i j close_chan
          h (λ same e. cc)
          (λ other e.
            has-delete key (h j).src_addr m j
            ∙ (let there = inv.listed j lt e in
                let apart = bytes_eq_ne key (h j).src_addr (λ eq.
                  other (
                    inv.single (h j).src_addr i j (subst (λ k. has m k i ≡ true) eq found)
                      there)) in
                ground arith));
    single = λ k a b e1 e2. inv.single k a b (deleted key k a e1).1 (deleted key k b e2).1;
  }

  -- After it, no key has the session.
  pub removed_unmapped :
      (key : Bytes) (i : ℕ) → has m key i ≡ true → (k : Bytes) → has (delete key m) k i ≢ true
  removed_unmapped key i found k e =
      (deleted key k i e).0
        (sym (inv.running key i found).own ∙ (inv.running k i (deleted key k i e).1).own)

  -- A session that its own source does not find is in the map under no key.
  pub unfound_unmapped :
      (i : ℕ) (o : Option ℕ)
      → find (h i).src_addr m ≡ o
      → ((j : ℕ) → o ≡ some j → j ≢ i)
      → (key : Bytes) → has m key i ≢ true
  unfound_unmapped i none e other key there =
      let gone = find-none (h i).src_addr m i e in
      let here = subst (λ k. has m k i ≡ true) (sym (inv.running key i there).own) there in cc
  unfound_unmapped i (some j) e other key there = other j refl (
      inv.single (h i).src_addr j i (has-find (h i).src_addr m j e)
        (subst (λ k. has m k i ≡ true) (sym (inv.running key i there).own) there))
