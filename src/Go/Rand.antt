-- ===== src/Go/Rand.antt =====
-- Package math/rand: `Shuffle`. The random source is a parameter.
use mathlib.Core.Path.{subst}
use scramjet_app.Base.{
  All, List, Option, [], ap, get_elem?, length, none, refl, set, some, suc, zero, ℕ, ◌%◌, ◌-◌, ◌∙◌,
  ◌∷◌, ◌≡◌,
}

module _ {ℓ} {A : Type ℓ} where
  abbrev pub exchange : List A → ℕ → ℕ → Option A → Option A → List A
  exchange xs i j none b = xs
  exchange xs i j (some a) none = xs
  exchange xs i j (some a) (some b) = set (set xs i b) j a

  -- `xs[i], xs[j] = xs[j], xs[i]`
  unfoldable pub swap : ℕ → ℕ → List A → List A
  swap i j xs = exchange xs i j (get_elem? xs i) (get_elem? xs j)

  -- The swaps of the indices from `i` down to 1; `draw i` gives the number from which the partner
  -- of `i` is taken, below `i + 1`.
  unfoldable pub shuffle_from : (ℕ → ℕ) → ℕ → List A → List A
  shuffle_from draw zero xs = xs
  shuffle_from draw (suc i) xs =
      shuffle_from draw i (swap (suc i) (draw (suc i) % (suc (suc i))) xs)

  -- `rand.Shuffle(len(xs), …)`
  unfoldable pub shuffle : (ℕ → ℕ) → List A → List A
  unfolding swap shuffle_from
  shuffle draw xs = shuffle_from draw (length xs - 1) xs

module _ {ℓ} {A : Type ℓ} where
  length-set : (xs : List A) (i : ℕ) (v : A) → length (set xs i v) ≡ length xs
  length-set [] i v = refl
  length-set (x ∷ xs) zero v = refl
  length-set (x ∷ xs) (suc i) v = ap suc (length-set xs i v)

  length-exchange :
      (xs : List A) (i j : ℕ) (a b : Option A) → length (exchange xs i j a b) ≡ length xs
  length-exchange xs i j none b = refl
  length-exchange xs i j (some a) none = refl
  length-exchange xs i j (some a) (some b) = length-set (set xs i b) j a ∙ length-set xs i b

  length-swap : (i j : ℕ) (xs : List A) → length (swap i j xs) ≡ length xs
  unfolding swap
  length-swap i j xs = length-exchange xs i j (get_elem? xs i) (get_elem? xs j)

  length-shuffle_from :
      (draw : ℕ → ℕ) (i : ℕ) (xs : List A) → length (shuffle_from draw i xs) ≡ length xs
  unfolding shuffle_from
  length-shuffle_from draw zero xs = refl
  length-shuffle_from draw (suc i) xs =
      length-shuffle_from draw i (swap _ _ xs) ∙ length-swap _ _ xs

  pub length-shuffle : (draw : ℕ → ℕ) (xs : List A) → length (shuffle draw xs) ≡ length xs
  unfolding shuffle
  length-shuffle draw xs = length-shuffle_from draw (length xs - 1) xs

some_inj {ℓ} : {A : Type ℓ} {a b : A} → some a ≡ some b → a ≡ b
some_inj h = cc

module _ {ℓ κ} {A : Type ℓ} (P : A → Type κ) where
  All-get : (xs : List A) (i : ℕ) {a : A} → All P xs → get_elem? xs i ≡ some a → P a
  All-get [] i h e = cc
  All-get (x ∷ xs) zero h e = subst P (some_inj e) h.0
  All-get (x ∷ xs) (suc i) h e = All-get xs i h.1 e

  All-set : (xs : List A) (i : ℕ) {v : A} → All P xs → P v → All P (set xs i v)
  All-set [] i h p = tt
  All-set (x ∷ xs) zero h p = (p, h.1)
  All-set (x ∷ xs) (suc i) h p = (h.0, All-set xs i h.1 p)

  All-exchange :
      (xs : List A) (i j : ℕ) (a b : Option A)
      → get_elem? xs i ≡ a
      → get_elem? xs j ≡ b
      → All P xs
      → All P (exchange xs i j a b)
  All-exchange xs i j none b p q h = h
  All-exchange xs i j (some a) none p q h = h
  All-exchange xs i j (some a) (some b) p q h =
      All-set (set xs i b) j (All-set xs i h (All-get xs j h q)) (All-get xs i h p)

  All-swap : (i j : ℕ) (xs : List A) → All P xs → All P (swap i j xs)
  unfolding swap
  All-swap i j xs h = All-exchange xs i j (get_elem? xs i) (get_elem? xs j) refl refl h

  All-shuffle_from :
      (draw : ℕ → ℕ) (i : ℕ) (xs : List A) → All P xs → All P (shuffle_from draw i xs)
  unfolding shuffle_from
  All-shuffle_from draw zero xs h = h
  All-shuffle_from draw (suc i) xs h = All-shuffle_from draw i (swap _ _ xs) (All-swap _ _ xs h)

  -- A shuffle keeps what holds of every element.
  pub All-shuffle : (draw : ℕ → ℕ) (xs : List A) → All P xs → All P (shuffle draw xs)
  unfolding shuffle
  All-shuffle draw xs h = All-shuffle_from draw (length xs - 1) xs h
