-- ===== src/Text/Patterns.antt =====
-- The range of the numbers that %zd and %u store.
use zz_ftp.Prelude.{ℕ, ◌<◌, ◌^◌, arith, Bool, Option, none, some, Bytes}
use zz_ftp.Text.{scan_number, scan_sign, skip_spaces, scan_signed, scan_i64, to_i64}

-- The value is a 64-bit pattern.
abbrev pub IsPattern : Option (ℕ × Bytes) → Type 0
IsPattern none = Unit
IsPattern (some (n, _)) = n < 2 ^ 64

to_i64-bound : (negative : Bool) (n : ℕ) → to_i64 negative n < 2 ^ 64
unfolding to_i64
to_i64-bound negative n = ground arith

converted-IsPattern :
    (negative : Bool) (o : Option (ℕ × Bytes))
    → IsPattern (elim o [ none ↦ none | some (n, more) ↦ some (to_i64 negative n, more) ])
converted-IsPattern negative none = tt
converted-IsPattern negative (some (n, more)) = to_i64-bound negative n

scan_signed-IsPattern : (p : Bool × Bytes) → IsPattern (scan_signed to_i64 p)
unfolding scan_signed
scan_signed-IsPattern (negative, cs) = converted-IsPattern negative (scan_number cs)

pub scan_i64-IsPattern : (s : Bytes) → IsPattern (scan_i64 s)
unfolding scan_i64
scan_i64-IsPattern s = scan_signed-IsPattern (scan_sign (skip_spaces s))
