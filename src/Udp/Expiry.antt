-- ===== src/Udp/Expiry.antt =====
-- The ticker that expires sessions.
use scramjet_app.Base.{
  ==_iff, Bool, Bool-cases, Bytes, [], ap, arith, bytes_eq, false, inl, inr, not, refl, true, ℕ,
  ◌&&◌, ◌==◌, ◌||◌, ◌∷◌, ◌≡◌,
}
use scramjet_app.Base.Int.{ℤ}
use scramjet_app.Udp.{Sessions, Heap, UdpSession, update, expired, expire, close_chan, settle}
use scramjet_app.Udp.Map.{has, update-cases}

-- Whether some key of the map has the session.
unfoldable pub holds : Sessions → ℕ → Bool
holds [] i = false
holds ((k, j) ∷ m) i = (j == i) || holds m i

pub holds-has : (m : Sessions) (key : Bytes) (i : ℕ) → has m key i ≡ true → holds m i ≡ true
unfolding has holds
holds-has [] key i h = cc
holds-has ((k, j) ∷ m) key i h = let ih = holds-has m key i in ground arith

has-settle :
    (b : Bool) (key k : Bytes) (i j : ℕ) (p : Sessions × Heap)
    → has (settle b k j p).0 key i ≡ ((not b && (bytes_eq k key && (j == i))) || has p.0 key i)
unfolding has
has-settle true key k i j p = refl
has-settle false key k i j p = refl

pub has-expire :
    (timeout : ℤ) (now : ℕ) (m : Sessions) (h : Heap) (key : Bytes) (i : ℕ)
    → has (expire timeout now m h).0 key i ≡ (has m key i && not (expired timeout now (h i)))
unfolding expire has
has-expire timeout now [] h key i = refl
has-expire timeout now ((k, j) ∷ m) h key i =
    let ih = has-expire timeout now m h key i in
    let here = has-settle (expired timeout now (h j)) key k i j (expire timeout now m h) in
    elim (Bool-cases (j == i)) [
      | inl e ↦ let same = ap (λ x. expired timeout now (h x)) ((==_iff j i).0 e) in ground arith
      | inr e ↦ ground arith
    ]

closed-settle :
    (b : Bool) (key : Bytes) (i j : ℕ) (p : Sessions × Heap)
    → ((settle b key j p).1 i).closed ≡ ((p.1 i).closed || (b && (j == i)))
unfolding update
closed-settle true key i j p =
    update-cases (λ s. s.closed ≡ ((p.1 i).closed || (j == i))) j i close_chan p.1
      (λ e. ground arith) (λ n. ground arith)
closed-settle false key i j p = ground arith

pub closed-expire :
    (timeout : ℤ) (now : ℕ) (m : Sessions) (h : Heap) (i : ℕ)
    → ((expire timeout now m h).1 i).closed
      ≡ ((h i).closed || (holds m i && expired timeout now (h i)))
unfolding expire holds
closed-expire timeout now [] h i = ground arith
closed-expire timeout now ((k, j) ∷ m) h i =
    let ih = closed-expire timeout now m h i in
    let here = closed-settle (expired timeout now (h j)) k i j (expire timeout now m h) in
    elim (Bool-cases (j == i)) [
      | inl e ↦ let same = ap (λ x. expired timeout now (h x)) ((==_iff j i).0 e) in ground arith
      | inr e ↦ ground arith
    ]

-- What no closing of a channel changes.
pub record Keeps (s t : UdpSession) : Type 0 where
  pub src : t.src_addr ≡ s.src_addr
  pub conn : t.remote_conn ≡ s.remote_conn
  pub active : t.last_active ≡ s.last_active
  pub phase : t.phase ≡ s.phase

Keeps-settle :
    (b : Bool) (key : Bytes) (i j : ℕ) (p : Sessions × Heap) (s : UdpSession)
    → Keeps s (p.1 i)
    → Keeps s ((settle b key j p).1 i)
Keeps-settle true key i j p s k =
    update-cases (Keeps s) j i close_chan p.1
      (λ _. record { src = k.src; conn = k.conn; active = k.active; phase = k.phase }) (λ _. k)
Keeps-settle false key i j p s k = k

pub Keeps-expire :
    (timeout : ℤ) (now : ℕ) (m : Sessions) (h : Heap) (i : ℕ)
    → Keeps (h i) ((expire timeout now m h).1 i)
unfolding expire
Keeps-expire timeout now [] h i = record { src = refl; conn = refl; active = refl; phase = refl }
Keeps-expire timeout now ((k, j) ∷ m) h i =
    Keeps-settle (expired timeout now (h j)) k i j (expire timeout now m h) (h i)
      (Keeps-expire timeout now m h i)
