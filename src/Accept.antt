-- ===== src/Accept.antt =====
-- The loop `for { conn, err := server.Accept() … go handle(conn) }` of the servers, over the results of
-- its calls of `Accept` so far: it ends at the first error.
use scramjet_app.Base.{All, Bool, Bytes, List, Result, [], err, false, ok, true, ◌∷◌}

module _ {ℓ κ} {A : Type ℓ} {E : Type κ} where
  unfoldable pub accept_loop : (Bytes → E) → (A → E) → List (Result A) → List E
  accept_loop stop handle [] = []
  accept_loop stop handle (err e ∷ accepts) = stop e ∷ []
  accept_loop stop handle (ok conn ∷ accepts) = handle conn ∷ accept_loop stop handle accepts

  -- What holds of each connection that is handled, and of the end.
  pub accept_loop-All {μ} :
      (P : E → Type μ) (stop : Bytes → E) (handle : A → E)
      → ((e : Bytes) → P (stop e))
      → ((conn : A) → P (handle conn))
      → (accepts : List (Result A)) → All P (accept_loop stop handle accepts)
  unfolding accept_loop
  accept_loop-All P stop handle ends goes [] = tt
  accept_loop-All P stop handle ends goes (err e ∷ accepts) = (ends e, tt)
  accept_loop-All P stop handle ends goes (ok conn ∷ accepts) =
      (goes conn, accept_loop-All P stop handle ends goes accepts)

-- The connections before the first error.
abbrev pub accepted {ℓ} : {A : Type ℓ} → List (Result A) → List A
accepted [] = []
accepted (err e ∷ accepts) = []
accepted (ok conn ∷ accepts) = conn ∷ accepted accepts

abbrev pub is_err {ℓ} : {A : Type ℓ} → Result A → Bool
is_err (err e) = true
is_err (ok a) = false
