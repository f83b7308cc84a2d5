-- ===== src/Misc/Binfc/Reports.antt =====
-- Which bytes are reported.
use zz_ftp.Prelude.{
  ℕ, zero, suc, ◌+◌, ◌^◌, ◌<◌, ◌≡◌, refl, ap, ◌∙◌, arith, Bool, true, false, not, ◌&&◌, ◌||◌,
  Option, some, List, [], ◌∷◌, ◌==◌, ltb, if◌then◌else◌, Bytes, drop,
}
use zz_ftp.Text.{show}
use zz_ftp.Text.RoundTrip.{scan_i32-show}
use zz_ftp.Misc.Binfc.{
  Report, first_byte, behind_first, compare_bytes, BinfcEnd, finished, compare_files, binfc,
  int_arg, not_negative,
}

-- The byte at an offset, 255 behind the end.
unfoldable pub byte_at : ℕ → Bytes → ℕ
byte_at n [] = 255
byte_at zero (c ∷ cs) = c
byte_at (suc n) (c ∷ cs) = byte_at n cs

unfoldable pub is_reported : ℕ → List Report → Bool
is_reported n [] = false
is_reported n (r ∷ rs) = r.index == n || is_reported n rs

byte_at-zero : (cs : Bytes) → first_byte cs ≡ byte_at 0 cs
unfolding first_byte byte_at
byte_at-zero [] = refl
byte_at-zero (c ∷ cs) = refl

byte_at-suc : (n : ℕ) (cs : Bytes) → byte_at n (behind_first cs) ≡ byte_at (suc n) cs
unfolding behind_first byte_at
byte_at-suc n [] = refl
byte_at-suc n (c ∷ cs) = refl

byte_at-drop : (s n : ℕ) (cs : Bytes) → byte_at n (drop s cs) ≡ byte_at (s + n) cs
unfolding byte_at
byte_at-drop zero n cs = let e : (n ≡ 0 + n) = omega arith in ap (λ k. byte_at k cs) e
byte_at-drop (suc s) n [] = refl
byte_at-drop (suc s) n (c ∷ cs) =
    let e : (suc (s + n) ≡ suc s + n) = omega arith in
    byte_at-drop s n cs ∙ ap (λ k. byte_at k (c ∷ cs)) e

is_reported-if :
    (same : Bool) (n : ℕ) (r : Report) (rs : List Report)
    → is_reported n (if same then rs else r ∷ rs) ≡ ((not same && r.index == n) || is_reported n rs)
unfolding is_reported
is_reported-if true n r rs = refl
is_reported-if false n r rs = refl

neither : (same q late : Bool) → q ≡ false → late ≡ false → ((not same && q) || late) ≡ false
neither true q late e f = f
neither false q late e f = rw (e, f) refl

this_one : (same q late : Bool) → q ≡ true → late ≡ false → ((not same && q) || late) ≡ not same
this_one true q late e f = f
this_one false q late e f = rw e refl

later_one : (same q late : Bool) → q ≡ false → ((not same && q) || late) ≡ late
later_one true q late e = refl
later_one false q late e = rw e refl

-- No index below the one that the loop stands at.
is_reported-below :
    (count i n : ℕ) (a b : Bytes) → n < i → is_reported n (compare_bytes count i a b) ≡ false
unfolding is_reported compare_bytes
is_reported-below zero i n a b h = refl
is_reported-below (suc count) i n a b h =
    is_reported-if (first_byte a == first_byte b) n _ _
    ∙ neither _ (i == n) _ (ground arith)
        (is_reported-below count (suc i) n (behind_first a) (behind_first b) (omega arith))

in_front : (count : ℕ) → true ≡ ltb 0 (suc count)
in_front count = ground arith

shifted : (i n : ℕ) → i + suc n ≡ suc i + n
shifted i n = omega arith

from_zero : (n : ℕ) → n ≡ 0 + n
from_zero n = omega arith

one_less : (n count : ℕ) → ltb n count ≡ ltb (suc n) (suc count)
one_less n count = ground arith

is_reported-at :
    (count i n : ℕ) (a b : Bytes)
    → is_reported (i + n) (compare_bytes count i a b)
      ≡ (ltb n count && not (byte_at n a == byte_at n b))
unfolding is_reported compare_bytes
is_reported-at zero i n a b = ground arith
is_reported-at (suc count) i zero a b =
    is_reported-if (first_byte a == first_byte b) (i + 0) _ _
    ∙ this_one _ (i == i + 0) _ (ground arith)
        (is_reported-below count (suc i) (i + 0) (behind_first a) (behind_first b) (omega arith))
    ∙ ap (λ x. not (x == first_byte b)) (byte_at-zero a)
    ∙ ap (λ x. not (byte_at 0 a == x)) (byte_at-zero b)
    ∙ ap (λ t. t && not (byte_at 0 a == byte_at 0 b)) (in_front count)
is_reported-at (suc count) i (suc n) a b =
    is_reported-if (first_byte a == first_byte b) (i + suc n) _ _
    ∙ later_one _ (i == i + suc n) _ (ground arith)
    ∙ ap (λ k. is_reported k (compare_bytes count (suc i) (behind_first a) (behind_first b)))
        (shifted i n)
    ∙ is_reported-at count (suc i) n (behind_first a) (behind_first b)
    ∙ ap (λ x. ltb n count && not (x == byte_at n (behind_first b))) (byte_at-suc n a)
    ∙ ap (λ x. ltb n count && not (byte_at (suc n) a == x)) (byte_at-suc n b)
    ∙ ap (λ t. t && not (byte_at (suc n) a == byte_at (suc n) b)) (one_less n count)

int_arg-show : (n : ℕ) → n < 2 ^ 31 → not_negative (int_arg (show n)) ≡ n
unfolding int_arg not_negative
int_arg-show n h = ground (arith, scan_i32-show n h)

-- What was found out about an offset.
abbrev pub tells : ℕ → BinfcEnd → Bool
tells n (finished rs) = is_reported n rs
tells n _ = false

-- For two files that can be opened, and offsets and a length below 2 ^ 31 in decimal, a line is
-- written for an index exactly where it is below the length and the two bytes at that distance from
-- the offsets differ; a file goes on with bytes 255 behind its end.
pub binfc-tells :
    (opens : Bytes → Option Bytes) (name_a name_b a b : Bytes) (start_a start_b len n : ℕ)
    → opens name_a ≡ some a
    → opens name_b ≡ some b
    → start_a < 2 ^ 31
    → start_b < 2 ^ 31
    → len < 2 ^ 31
    → tells n (binfc opens (name_a ∷ show start_a ∷ name_b ∷ show start_b ∷ show len ∷ []))
      ≡ (ltb n len && not (byte_at (start_a + n) a == byte_at (start_b + n) b))
unfolding binfc compare_files
binfc-tells opens name_a name_b a b start_a start_b len n oa ob ha hb hl =
    rw (oa, ob, int_arg-show start_a ha, int_arg-show start_b hb, int_arg-show len hl)
      (ap (λ k. is_reported k (compare_bytes len 0 (drop start_a a) (drop start_b b))) (from_zero n)
        ∙ is_reported-at len 0 n (drop start_a a) (drop start_b b)
        ∙ ap (λ x. ltb n len && not (x == byte_at n (drop start_b b))) (byte_at-drop start_a n a)
        ∙ ap (λ x. ltb n len && not (byte_at (start_a + n) a == x)) (byte_at-drop start_b n b))
