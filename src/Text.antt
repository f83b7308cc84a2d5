-- ===== src/Text.antt =====
-- What the program uses of printf and scanf: decimal numbers, over lists of bytes.
pub mod Patterns
pub mod RoundTrip
use zz_ftp.Prelude.{
  ℕ, zero, suc, ◌+◌, ◌-◌, ◌*◌, ◌/◌, ◌%◌, ◌^◌, Bool, true, false, ◌&&◌, ◌||◌, Option, none, some,
  List, [], ◌∷◌, ◌++◌, ◌==◌, leb, ltb, if◌then◌else◌, Bytes, codes, take,
}

unfoldable pub is_digit : ℕ → Bool
is_digit c = leb b'0' c && leb c b'9'

-- isspace() in the C locale.
unfoldable pub is_space : ℕ → Bool
is_space c = c == b' ' || (leb 9 c && leb c 13)

-- toupper() in the C locale.
unfoldable pub to_upper : ℕ → ℕ
to_upper c = if leb b'a' c && leb c b'z' then c - 32 else c

show_fuel : ℕ → ℕ → Bytes
show_fuel zero n = []
show_fuel (suc f) n =
    let more = show_fuel f (n / 10) in (if ltb n 10 then [] else more) ++ (b'0' + n % 10) ∷ []

-- %u, and %d of a number that is not negative. The number of digits is below n + 1.
unfoldable pub show : ℕ → Bytes
unfolding show_fuel
show n = show_fuel (suc n) n

-- %zd of a 64-bit pattern: the upper half of the patterns is negative.
unfoldable pub show_signed : ℕ → Bytes
unfolding show
show_signed n = if ltb n (2 ^ 63) then show n else b'-' ∷ show (2 ^ 64 - n)

-- snprintf(s, size, ...) keeps at most size - 1 bytes of the text.
abbrev pub truncate_to : ℕ → Bytes → Bytes
truncate_to size text = take (size - 1) text

unfoldable pub skip_spaces : Bytes → Bytes
unfolding is_space
skip_spaces [] = []
skip_spaces (c ∷ cs) = if is_space c then skip_spaces cs else c ∷ cs

-- Whether there is a minus sign, and what follows the sign.
unfoldable pub scan_sign : Bytes → Bool × Bytes
scan_sign [] = (false, [])
scan_sign (c ∷ cs) =
    if c == b'-' then (true, cs) else if c == b'+' then (false, cs) else (false, c ∷ cs)

unfoldable pub scan_digits : ℕ → Bytes → ℕ × Bytes
unfolding is_digit
scan_digits n [] = (n, [])
scan_digits n (c ∷ cs) = if is_digit c then scan_digits (n * 10 + (c - b'0')) cs else (n, c ∷ cs)

-- At least one digit; none is a matching failure.
unfoldable pub scan_number : Bytes → Option (ℕ × Bytes)
unfolding scan_digits
scan_number [] = none
scan_number (c ∷ cs) = if is_digit c then some (scan_digits 0 (c ∷ cs)) else none

-- strtoul() and its conversion to unsigned int: out of range is ULONG_MAX, a sign negates.
unfoldable pub to_u32 : Bool → ℕ → ℕ
to_u32 negative n =
    (if ltb n (2 ^ 64) then (if negative then (2 ^ 64 - n) % 2 ^ 64 else n) else 2 ^ 64 - 1)
    % 2 ^ 32

-- strtol() as a 64-bit pattern: out of range is LONG_MIN or LONG_MAX.
unfoldable pub to_i64 : Bool → ℕ → ℕ
to_i64 negative n =
    if negative
    then (if leb n (2 ^ 63) then (2 ^ 64 - n) % 2 ^ 64 else 2 ^ 63)
    else (if ltb n (2 ^ 63) then n else 2 ^ 63 - 1)

scan_signed : (Bool → ℕ → ℕ) → Bool × Bytes → Option (ℕ × Bytes)
scan_signed convert (negative, cs) = elim (scan_number cs) [
  | none ↦ none
  | some (n, rest) ↦ some (convert negative n, rest)
]

-- %u
unfoldable pub scan_u32 : Bytes → Option (ℕ × Bytes)
unfolding skip_spaces scan_sign scan_number to_u32 scan_signed
scan_u32 s = scan_signed to_u32 (scan_sign (skip_spaces s))

-- %zd
unfoldable pub scan_i64 : Bytes → Option (ℕ × Bytes)
unfolding skip_spaces scan_sign scan_number to_i64 scan_signed
scan_i64 s = scan_signed to_i64 (scan_sign (skip_spaces s))

-- %d: the value of strtol() cut to an int, as a 32-bit pattern.
unfoldable pub to_i32 : Bool → ℕ → ℕ
unfolding to_i64
to_i32 negative n = to_i64 negative n % 2 ^ 32

unfoldable pub scan_i32 : Bytes → Option (ℕ × Bytes)
unfolding skip_spaces scan_sign scan_number to_i32 scan_signed
scan_i32 s = scan_signed to_i32 (scan_sign (skip_spaces s))

expect_comma : Bytes → Option Bytes
expect_comma [] = none
expect_comma (c ∷ cs) = if c == b',' then some cs else none

-- n + 1 fields of the format "%u,%u, ...,%u"; what stands behind the last one is not looked at.
unfoldable pub scan_fields : ℕ → Bytes → Option (List ℕ)
unfolding scan_u32 expect_comma
scan_fields zero s = elim (scan_u32 s) [ none ↦ none | some (x, _) ↦ some (x ∷ []) ]
scan_fields (suc n) s = elim (scan_u32 s) [
  | none ↦ none
  | some (x, rest) ↦ elim (expect_comma rest) [
    | none ↦ none
    | some more ↦ elim (scan_fields n more) [ none ↦ none | some xs ↦ some (x ∷ xs) ]
  ]
]

-- The format "%u,%u,%u,%u,%u,%u" of the two programs, with no space behind a comma.
unfoldable pub show_fields : ℕ → List ℕ → Bytes
unfolding show
show_fields x [] = show x
show_fields x (y ∷ ys) = show x ++ b',' ∷ show_fields y ys
