-- ===== src/Text/RoundTrip.antt =====
-- Numbers that were printed are read back.
use native.Mathlib.Nat.{pow-suc}
use zz_ftp.Prelude.{
  ℕ, zero, suc, ◌+◌, ◌*◌, ◌/◌, ◌%◌, ◌<◌, ◌≤◌, length-append, ◌^◌, ◌≡◌, refl, ap, ◌∙◌, arith, true,
  false, some, List, [], ◌∷◌, ◌++◌, append-nil, append_assoc, Bytes, Bool-cases, inl, inr, ltb, All,
  length,
}
use zz_ftp.Text.{
  is_digit, show, show_fuel, skip_spaces, scan_sign, scan_digits, scan_number, to_u32, scan_signed,
  scan_u32, scan_i64, scan_i32, to_i32, to_i64, expect_comma, scan_fields, show_fields,
}

-- What follows a number must not be one more digit.
abbrev pub Stops : Bytes → Type 0
Stops [] = Unit
Stops (c ∷ cs) = is_digit c ≡ false

scan_digits-stop : (n : ℕ) (rest : Bytes) → Stops rest → scan_digits n rest ≡ (n, rest)
unfolding scan_digits
scan_digits-stop n [] h = refl
scan_digits-stop n (c ∷ cs) h = rw h

digit-is_digit : (d : ℕ) → d < 10 → is_digit (b'0' + d) ≡ true
unfolding is_digit
digit-is_digit d h = ground arith

scan_digits-digit :
    (n d : ℕ) (rest : Bytes)
    → d < 10
    → scan_digits n ((b'0' + d) ∷ rest) ≡ scan_digits (n * 10 + d) rest
unfolding scan_digits
scan_digits-digit n d rest h = rw (digit-is_digit d h) (ap (λ m. scan_digits m rest) (omega arith))

-- A printed number of one digit, and one of more digits.
show_fuel-small : (f n : ℕ) → n < 10 → show_fuel (suc f) n ≡ (b'0' + n % 10) ∷ []
unfolding show_fuel
show_fuel-small f n h = ground arith

show_fuel-large :
    (f n : ℕ)
    → ltb n 10 ≡ false
    → show_fuel (suc f) n ≡ show_fuel f (n / 10) ++ (b'0' + n % 10) ∷ []
unfolding show_fuel
show_fuel-large f n h = rw h

scan_digits-show_fuel :
    (f n : ℕ) (rest : Bytes) → n < f → scan_digits 0 (show_fuel f n ++ rest) ≡ scan_digits n rest
scan_digits-show_fuel zero n rest h = absurd (omega arith)
scan_digits-show_fuel (suc f) n rest h = elim (Bool-cases (ltb n 10)) [
  | inl small ↦ rw (show_fuel-small f n (ground arith)) (
      scan_digits-digit 0 (n % 10) rest (omega arith) ∙ ap (λ m. scan_digits m rest) (ground arith))
  | inr large ↦
      rw
        (show_fuel-large f n large, append_assoc (show_fuel f (n / 10)) ((b'0' + n % 10) ∷ []) rest)
        (scan_digits-show_fuel f (n / 10) ((b'0' + n % 10) ∷ rest) (ground arith)
          ∙ scan_digits-digit (n / 10) (n % 10) rest (omega arith)
          ∙ ap (λ m. scan_digits m rest) (omega arith))
]

-- The first byte of a printed number is a digit.
show_fuel-cons :
    (f n : ℕ) → n < f → (d : ℕ) × (ds : Bytes) × (show_fuel f n ≡ d ∷ ds) × (is_digit d ≡ true)
show_fuel-cons zero n h = absurd (omega arith)
show_fuel-cons (suc f) n h = elim (Bool-cases (ltb n 10)) [
  | inl small ↦
      (b'0' + n % 10, [], show_fuel-small f n (ground arith), digit-is_digit (n % 10) (omega arith))
  | inr large ↦
      let (d, ds, e, k) = show_fuel-cons f (n / 10) (ground arith) in
      (d, ds ++ (b'0' + n % 10) ∷ [], rw (show_fuel-large f n large, e), k)
]

digit_plain :
    (d : ℕ) (ds : Bytes) → is_digit d ≡ true → scan_sign (skip_spaces (d ∷ ds)) ≡ (false, d ∷ ds)
unfolding is_digit scan_sign skip_spaces
digit_plain d ds h = ground arith

scan_number-show :
    (n : ℕ) (rest : Bytes) → Stops rest → scan_number (show n ++ rest) ≡ some (n, rest)
unfolding scan_number show
scan_number-show n rest h =
    let (d, ds, e, k) = show_fuel-cons (suc n) n (omega arith) in
    ground (arith, e, scan_digits-show_fuel (suc n) n rest (omega arith), scan_digits-stop n rest h)

scan_sign-show :
    (n : ℕ) (rest : Bytes) → scan_sign (skip_spaces (show n ++ rest)) ≡ (false, show n ++ rest)
unfolding show
scan_sign-show n rest =
    let (d, ds, e, k) = show_fuel-cons (suc n) n (omega arith) in
    rw e (digit_plain d (ds ++ rest) k)

to_u32-small : (n : ℕ) → n < 2 ^ 32 → to_u32 false n ≡ n
unfolding to_u32
to_u32-small n h = ground arith

pub scan_u32-show :
    (n : ℕ) (rest : Bytes) → n < 2 ^ 32 → Stops rest → scan_u32 (show n ++ rest) ≡ some (n, rest)
unfolding scan_u32 scan_signed
scan_u32-show n rest h k =
    rw (scan_sign-show n rest) (ground (arith, scan_number-show n rest k, to_u32-small n h))

comma_stops : is_digit b',' ≡ false
unfolding is_digit
comma_stops = refl

-- A list of 32-bit numbers printed with commas is read back by the scan for as many fields.
pub scan_fields-show_fields :
    (x : ℕ) (xs : List ℕ) (rest : Bytes)
    → x < 2 ^ 32
    → All (λ y. y < 2 ^ 32) xs
    → Stops rest
    → scan_fields (length xs) (show_fields x xs ++ rest) ≡ some (x ∷ xs)
unfolding scan_fields show_fields expect_comma
scan_fields-show_fields x [] rest h hs k = ground (arith, scan_u32-show x rest h k)
scan_fields-show_fields x (y ∷ ys) rest h hs k =
    rw (append_assoc (show x) (b',' ∷ show_fields y ys) rest) (
      ground (
        arith,
        scan_u32-show x (b',' ∷ (show_fields y ys ++ rest)) h comma_stops,
        scan_fields-show_fields y ys rest hs.0 hs.1 k,
      ))

-- A number of two digits is not below 10 ^ 1.
pow_positive : (k n : ℕ) → n < 10 ^ suc k → ltb n 10 ≡ false → 0 < k
pow_positive zero n h large = absurd (ground arith)
pow_positive (suc k) n h large = omega arith

-- A byte is printed with at most three digits.
length-show_fuel : (f k n : ℕ) → n < 10 ^ k → 0 < k → length (show_fuel f n) ≤ k
unfolding show_fuel
length-show_fuel zero k n h p = omega arith
length-show_fuel (suc f) zero n h p = absurd (omega arith)
length-show_fuel (suc f) (suc k) n h p = elim (Bool-cases (ltb n 10)) [
  | inl small ↦ omega (arith, ap length (show_fuel-small f n (ground arith)))
  | inr large ↦
      let few : length (show_fuel f (n / 10)) ≤ k =
        length-show_fuel f k (n / 10) (omega (arith, pow-suc 10 k)) (pow_positive k n h large) in
      omega (
        arith,
        few,
        ap length (show_fuel-large f n large),
        length-append (show_fuel f (n / 10)) ((b'0' + n % 10) ∷ []),
      )
]

pub length-show_byte : (n : ℕ) → n < 256 → length (show n) ≤ 3
unfolding show
length-show_byte n h = length-show_fuel (suc n) 3 n (omega arith) (omega arith)

pub show-cons : (n : ℕ) → (d : ℕ) × (ds : Bytes) × (show n ≡ d ∷ ds) × (is_digit d ≡ true)
unfolding show
show-cons n = show_fuel-cons (suc n) n (omega arith)

pub scan_i64-show : (n : ℕ) → n < 2 ^ 63 → scan_i64 (show n) ≡ some (n, [])
unfolding scan_i64 scan_signed to_i64
scan_i64-show n h =
    rw (← append-nil (show n)) (rw (scan_sign-show n []) (ground (arith, scan_number-show n [] tt)))

-- Different numbers are printed differently.
pub show_injective : (m n : ℕ) → show m ≡ show n → m ≡ n
show_injective m n e =
    let a = scan_number-show m [] tt in
    let b = scan_number-show n [] tt in let c = ap (λ x. scan_number (x ++ [])) e in ground arith

pub scan_i32-show : (n : ℕ) → n < 2 ^ 31 → scan_i32 (show n) ≡ some (n, [])
unfolding scan_i32 scan_signed to_i32 to_i64
scan_i32-show n h =
    rw (← append-nil (show n)) (rw (scan_sign-show n []) (ground (arith, scan_number-show n [] tt)))
