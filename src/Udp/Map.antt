-- ===== src/Udp/Map.antt =====
-- The map of sessions.
use mathlib.Core.Path.{subst}
use scramjet_app.Base.{
  ==_iff, Bool, Bool-cases, Bytes, [], ap, arith, bytes_eq, bytes_eq_iff, false, if◌then◌else◌, inl,
  inr, none, not, refl, some, sym, true, ℕ, ◌&&◌, ◌==◌, ◌||◌, ◌∷◌, ◌≡◌, ◌≢◌,
}
use scramjet_app.Udp.{Sessions, find, delete, UdpSession, Heap, update}

-- Whether the map has an entry.
unfoldable pub has : Sessions → Bytes → ℕ → Bool
has [] key i = false
has ((k, j) ∷ m) key i = (bytes_eq k key && (j == i)) || has m key i

pub has-find : (key : Bytes) (m : Sessions) (i : ℕ) → find key m ≡ some i → has m key i ≡ true
unfolding find has
has-find key [] i h = cc
has-find key ((k, j) ∷ m) i h = let ih = has-find key m i in ground arith

pub find-none : (key : Bytes) (m : Sessions) (i : ℕ) → find key m ≡ none → has m key i ≡ false
unfolding find has
find-none key [] i h = refl
find-none key ((k, j) ∷ m) i h = let ih = find-none key m i in ground arith

bytes_eq_other :
    (k src key : Bytes) → bytes_eq k src ≡ false → bytes_eq src key ≡ true → bytes_eq k key ≡ false
bytes_eq_other k src key h e = subst (λ s. bytes_eq k s ≡ false) ((bytes_eq_iff src key).0 e) h

pub has-delete :
    (src key : Bytes) (m : Sessions) (i : ℕ)
    → has (delete src m) key i ≡ (not (bytes_eq src key) && has m key i)
unfolding delete has
has-delete src key [] i = ground arith
has-delete src key ((k, j) ∷ m) i =
    let ih = has-delete src key m i in
    elim (Bool-cases (bytes_eq k src)) [
      | inl e ↦ let same = ap (λ s. bytes_eq s key) ((bytes_eq_iff k src).0 e) in ground arith
      | inr e ↦ let other = bytes_eq_other k src key e in ground arith
    ]

-- An update is the update's function or nothing, at every index.
pub update-cases {ℓ} :
    (P : UdpSession → Type ℓ) (i j : ℕ) (f : UdpSession → UdpSession) (h : Heap)
    → (i ≡ j → P (f (h j)))
    → (i ≢ j → P (h j))
    → P (update i f h j)
unfolding update
update-cases P i j f h same other =
    elim (Bool-cases (j == i)) as (λ _. P (if j == i then f (h j) else h j)) [
      | inl e ↦ subst (λ b. P (if b then f (h j) else h j)) (sym e) (same (sym ((==_iff j i).0 e)))
      | inr e ↦ subst (λ b. P (if b then f (h j) else h j)) (sym e) (other (λ h. ground arith))
    ]
