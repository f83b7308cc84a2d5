-- ===== src/Misc/Binfc.antt =====
-- misc/binfc.c: a byte-by-byte comparison of two files from given offsets on. fopen() is a
-- parameter; of the output there are the lines that report a difference.
pub mod Reports
mod Tests
use zz_ftp.Prelude.{
  ℕ, zero, suc, ◌^◌, Bool, true, false, Option, none, some, List, [], ◌∷◌, ◌++◌, ◌==◌, ltb,
  if◌then◌else◌, Bytes, drop,
}
use zz_ftp.Text.{scan_i32}

-- "Byte %d: a = %3d, b = %3d\n"
pub record Report : Type 0 where
  pub index : ℕ
  pub a : ℕ
  pub b : ℕ

-- fgetc() as an unsigned char: EOF is 255.
unfoldable pub first_byte : Bytes → ℕ
first_byte [] = 255
first_byte (c ∷ cs) = c

unfoldable pub behind_first : Bytes → Bytes
behind_first [] = []
behind_first (c ∷ cs) = cs

-- for (int i = 0; i < len; i++), with `count` passes left, from where the two files stand.
unfoldable pub compare_bytes : ℕ → ℕ → Bytes → Bytes → List Report
unfolding first_byte behind_first
compare_bytes zero i a b = []
compare_bytes (suc count) i a b =
    let rest = compare_bytes count (suc i) (behind_first a) (behind_first b) in
    if first_byte a == first_byte b
    then rest
    else record { index = i; a = first_byte a; b = first_byte b } ∷ rest

-- strtoll() kept in an int; what is no number is 0.
unfoldable pub int_arg : Bytes → ℕ
int_arg s = elim (scan_i32 s) [ none ↦ 0 | some (n, _) ↦ n ]

-- A negative offset makes fseek() fail, and a negative length no pass.
unfoldable pub not_negative : ℕ → ℕ
not_negative n = if ltb n (2 ^ 31) then n else 0

pub data BinfcEnd : Type 0 where
  usage : BinfcEnd
  cannot_open : List Bytes → BinfcEnd
  finished : List Report → BinfcEnd

unfoldable pub compare_files : Option Bytes → Option Bytes → Bytes → Bytes → ℕ → ℕ → ℕ → BinfcEnd
unfolding compare_bytes
compare_files none none name_a name_b start_a start_b len = cannot_open (name_a ∷ name_b ∷ [])
compare_files none (some b) name_a name_b start_a start_b len = cannot_open (name_a ∷ [])
compare_files (some a) none name_a name_b start_a start_b len = cannot_open (name_b ∷ [])
compare_files (some a) (some b) name_a name_b start_a start_b len =
    finished (compare_bytes len 0 (drop start_a a) (drop start_b b))

-- main() of misc/binfc.c, with the arguments behind the program's name.
unfoldable pub binfc : (Bytes → Option Bytes) → List Bytes → BinfcEnd
unfolding compare_files int_arg not_negative
binfc opens (name_a ∷ start_a ∷ name_b ∷ start_b ∷ len ∷ _) =
    compare_files (opens name_a) (opens name_b) name_a name_b (not_negative (int_arg start_a))
      (not_negative (int_arg start_b)) (not_negative (int_arg len))
binfc opens _ = usage
