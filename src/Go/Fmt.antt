-- ===== src/Go/Fmt.antt =====
-- Package fmt: `Fprintf` with the verbs %s and %d, whose arguments are given as the texts that they
-- print.
use scramjet_app.Base.{Bytes, List, [], if◌then◌else◌, ◌&&◌, ◌++◌, ◌==◌, ◌||◌, ◌∷◌}

unfoldable pub sprintf : Bytes → List Bytes → Bytes
sprintf [] args = []
sprintf (c ∷ []) args = c ∷ []
sprintf (c ∷ verb ∷ s) [] = c ∷ sprintf (verb ∷ s) []
sprintf (c ∷ verb ∷ s) (arg ∷ args) =
    let plain = c ∷ sprintf (verb ∷ s) (arg ∷ args) in
    let filled = arg ++ sprintf s args in
    if c == b'%' && (verb == b's' || verb == b'd') then filled else plain
