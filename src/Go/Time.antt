-- ===== src/Go/Time.antt =====
-- Durations: int64 numbers of nanoseconds, as numbers below `2 ^ 64`.
use scramjet_app.Base.{Bool, if◌then◌else◌, leb, ltb, suc, ℕ, ◌%◌, ◌*◌, ◌+◌, ◌-◌}
use scramjet_app.Base.Int.{ℤ, pos, negsuc}

-- `time.Duration(n) * time.Second`
abbrev pub seconds : ℤ → ℕ
seconds (pos n) = (n * 1000000000) % 18446744073709551616
seconds (negsuc n) =
    (18446744073709551616 - (suc n * 1000000000) % 18446744073709551616) % 18446744073709551616

-- `now.Sub(last) >= d`; from `2 ^ 63` on a duration is negative.
abbrev pub at_least : ℕ → ℕ → ℕ → Bool
at_least d last now =
    if ltb d 9223372036854775808
    then leb (last + d) now
    else leb last (now + (18446744073709551616 - d))

-- `now.Sub(last) > d`
abbrev pub longer : ℕ → ℕ → ℕ → Bool
longer d last now =
    if ltb d 9223372036854775808
    then ltb (last + d) now
    else ltb last (now + (18446744073709551616 - d))
