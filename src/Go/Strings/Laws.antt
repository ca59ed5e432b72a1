-- ===== src/Go/Strings/Laws.antt =====
-- Laws of cutting and splitting byte strings.
use scramjet_app.Base.{
  ==_iff, Bool-cases, Bytes, Lacks, Lacks-append, Option, Option-cases, [], arith, drop-append,
  false, inl, inr, none, refl, some, sym, true, ℕ, ◌++◌, ◌==◌, ◌||◌, ◌↔◌, ◌∙◌, ◌∷◌, ◌≡◌,
}
use scramjet_app.Go.Strings.{has_prefix, trim_prefix, split, cut, cut_last, has_byte}

pub has_prefix-append : (p s : Bytes) → has_prefix (p ++ s) p ≡ true
unfolding has_prefix
has_prefix-append [] s = refl
has_prefix-append (c ∷ p) s = ground (arith, has_prefix-append p s)

pub trim_prefix-append : (p s : Bytes) → trim_prefix (p ++ s) p ≡ s
unfolding trim_prefix
trim_prefix-append p s = rw (has_prefix-append p s) (drop-append p s)

pub cut-append : (c : ℕ) (a b : Bytes) → Lacks c a → cut c (a ++ c ∷ b) ≡ some (a, b)
unfolding cut
cut-append c [] b h = ground arith
cut-append c (x ∷ a) b h = rw (h.0, cut-append c a b h.1)

-- What a result of `cut` says of the text.
abbrev Cuts : ℕ → Bytes → Option (Bytes × Bytes) → Type 0
Cuts c s none = Lacks c s
Cuts c s (some (a, b)) = (s ≡ a ++ c ∷ b) × Lacks c a

cut-Cuts : (c : ℕ) (s : Bytes) → Cuts c s (cut c s)
unfolding cut
cut-Cuts c [] = tt
cut-Cuts c (x ∷ s) = ground (arith, cut-Cuts c s, ==_iff x c)

pub cut-eq-some :
    (c : ℕ) (s : Bytes) {a b : Bytes} → cut c s ≡ some (a, b) → (s ≡ a ++ c ∷ b) × Lacks c a
cut-eq-some c s h = rw h at (cut-Cuts c s)

pub cut-eq-none : (c : ℕ) (s : Bytes) → cut c s ≡ none → Lacks c s
cut-eq-none c s h = rw h at (cut-Cuts c s)

pub cut-Lacks : (c : ℕ) (s : Bytes) → Lacks c s → cut c s ≡ none
unfolding cut
cut-Lacks c [] h = refl
cut-Lacks c (x ∷ s) h = rw (h.0, cut-Lacks c s h.1)

pub has_byte-Lacks : (c : ℕ) (s : Bytes) → (has_byte c s ≡ false) ↔ Lacks c s
unfolding has_byte
has_byte-Lacks c [] = (λ h. tt, λ h. refl)
has_byte-Lacks c (x ∷ s) = ground (arith, has_byte-Lacks c s)

pub cut_last-Lacks : (c : ℕ) (s : Bytes) → Lacks c s → cut_last c s ≡ none
unfolding cut_last
cut_last-Lacks c [] h = refl
cut_last-Lacks c (x ∷ s) h = rw (cut_last-Lacks c s h.1, cut_last) (rw h.0)

pub cut_last-append : (c : ℕ) (a b : Bytes) → Lacks c b → cut_last c (a ++ c ∷ b) ≡ some (a, b)
unfolding cut_last
cut_last-append c [] b h = rw (cut_last-Lacks c b h, cut_last) (ground arith)
cut_last-append c (x ∷ a) b h = rw (cut_last-append c a b h, cut_last)

pub split-Lacks : (c : ℕ) (s : Bytes) → Lacks c s → split c s ≡ s ∷ []
unfolding split
split-Lacks c [] h = refl
split-Lacks c (x ∷ s) h = rw (h.0, split-Lacks c s h.1)

pub split-append : (c : ℕ) (a b : Bytes) → Lacks c a → split c (a ++ c ∷ b) ≡ a ∷ split c b
unfolding split
split-append c [] b h = ground arith
split-append c (x ∷ a) b h = rw (h.0, split-append c a b h.1)

pub cut_last-prepend :
    (c : ℕ) (s t : Bytes) {a b : Bytes}
    → cut_last c t ≡ some (a, b)
    → cut_last c (s ++ t) ≡ some (s ++ a, b)
unfolding cut_last
cut_last-prepend c [] t h = h
cut_last-prepend c (x ∷ s) t h = rw (cut_last-prepend c s t h, cut_last)

pub no_byte-append : (c : ℕ) (s t : Bytes) → Lacks c s → Lacks c t → has_byte c (s ++ t) ≡ false
no_byte-append c s t hs ht = (has_byte-Lacks c _).1 (Lacks-append c s t hs ht)

pub has_byte-append : (c : ℕ) (s t : Bytes) → has_byte c (s ++ t) ≡ (has_byte c s || has_byte c t)
unfolding has_byte
has_byte-append c [] t = refl
has_byte-append c (x ∷ s) t = ground (arith, has_byte-append c s t)

none-ne-some {ℓ} : {A : Type ℓ} {a : A} → none ≡ some a → ⊥
none-ne-some h = cc

pub cut_last-has_byte :
    (c : ℕ) (s : Bytes) → has_byte c s ≡ true → (p : Bytes × Bytes) × (cut_last c s ≡ some p)
unfolding has_byte cut_last
cut_last-has_byte c [] h = cc
cut_last-has_byte c (x ∷ s) h = elim (Option-cases (cut_last c s)) [
  | inl none_there ↦ elim (Bool-cases (x == c)) [
    | inl same ↦ (([], s), rw (none_there, cut_last, same))
    | inr other ↦ absurd (none-ne-some (sym none_there ∙ (cut_last-has_byte c s (rw other at h)).1))
  ]
  | inr ((a, b), e) ↦ ((x ∷ a, b), rw (e, cut_last))
]
