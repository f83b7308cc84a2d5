-- ===== src/Io/Rlb/Progress.antt =====
-- Every line that rlb_read_line returns uses up some of what read() has to give.
use zz_ftp.Prelude.{
  ℕ, zero, suc, ◌+◌, ◌≤◌, ◌<◌, ◌≡◌, ◌⊎◌, inl, inr, refl, arith, Bool, true, false, ◌&&◌, List, [],
  ◌∷◌, ◌==◌, leb, Bytes, length, Bool-cases,
}
use zz_ftp.Io.Rlb.{
  Recv, received, failed, Rlb, get_from, rlb_get_char, read_upto, weight_of, weight, drain, Line,
  line, closed, finish_line, is_empty, check_closed, rlb_read_line,
}

-- What reading one character leaves, against a bound w on what there was.
abbrev Uses : ℕ → ℕ × Rlb → Type 0
Uses w (c, b) = (weight b < w) ⊎ ((c ≡ b'\n') × (b.no_more ≡ true) × (weight b ≤ w))

Uses-weaken : (v w : ℕ) (r : ℕ × Rlb) → v ≤ w → Uses v r → Uses w r
Uses-weaken v w (c, b) h (inl less) = inl (omega arith)
Uses-weaken v w (c, b) h (inr (newline, ended, most)) = inr (newline, ended, omega arith)

get_from-Uses :
    (input : List Recv) (pending : Bytes) (nm : Bool)
    → Uses (length pending + weight_of input) (get_from input pending nm)
unfolding get_from weight weight_of
get_from-Uses input (c ∷ pending) nm = elim (Bool-cases (c == b'\r')) [
  | inl cr ↦ rw cr (
      Uses-weaken (length pending + weight_of input) _ (get_from input pending nm) (omega arith)
        (get_from-Uses input pending nm))
  | inr other ↦ rw other (inl (omega arith))
]
get_from-Uses [] [] nm = inr (refl, refl, omega arith)
get_from-Uses (failed ∷ input) [] nm = inr (refl, refl, omega arith)
get_from-Uses (received [] ∷ input) [] nm = inr (refl, refl, omega arith)
get_from-Uses (received (c ∷ cs) ∷ input) [] nm =
    Uses-weaken _ _ (get_from input (c ∷ cs) nm) (omega arith) (get_from-Uses input (c ∷ cs) nm)

get_char-Uses : (b : Rlb) → Uses (weight b) (rlb_get_char b)
unfolding rlb_get_char weight
get_char-Uses b = get_from-Uses b.input b.pending b.no_more

Uses-le : (w : ℕ) (r : ℕ × Rlb) → Uses w r → weight r.1 ≤ w
Uses-le w (c, b) (inl less) = omega arith
Uses-le w (c, b) (inr (newline, ended, most)) = most

get_char-le : (b : Rlb) → weight (rlb_get_char b).1 ≤ weight b
get_char-le b = Uses-le (weight b) (rlb_get_char b) (get_char-Uses b)

drain-le : (f : ℕ) (b : Rlb) → weight (drain f b) ≤ weight b
unfolding drain
drain-le zero b = omega arith
drain-le (suc f) b = elim (Bool-cases ((rlb_get_char b).0 == b'\n')) [
  | inl newline ↦ rw (newline, drain) (get_char-le b)
  | inr other ↦ rw (other, drain) (omega (arith, drain-le f (rlb_get_char b).1, get_char-le b))
]

read_upto-le : (n : ℕ) (b : Rlb) → weight (read_upto n b).2 ≤ weight b
unfolding read_upto
read_upto-le zero b = omega arith
read_upto-le (suc n) b = elim (Bool-cases ((rlb_get_char b).0 == b'\n')) [
  | inl newline ↦ rw (newline, read_upto) (get_char-le b)
  | inr other ↦
      rw (other, read_upto) (omega (arith, read_upto-le n (rlb_get_char b).1, get_char-le b))
]

-- Some of what there was has been used, or nothing has been read and the connection has ended.
abbrev Advances : ℕ → Bytes × Bool × Rlb → Type 0
Advances w (text, met, b) = (weight b < w) ⊎ ((text ≡ []) × (met ≡ true) × (b.no_more ≡ true))

read_upto-Advances : (n : ℕ) (b : Rlb) → Advances (weight b) (read_upto (suc n) b)
unfolding read_upto
read_upto-Advances n b = elim (Bool-cases ((rlb_get_char b).0 == b'\n')) [
  | inl newline ↦ rw (newline, read_upto) (at_newline (get_char-Uses b))
  | inr other ↦ rw (other, read_upto) (behind (get_char-Uses b) other)
]
  where
    at_newline :
        Uses (weight b) (rlb_get_char b) → Advances (weight b) ([], true, (rlb_get_char b).1)
    at_newline (inl less) = inl less
    at_newline (inr (newline, ended, most)) = inr (refl, refl, ended)

    behind :
        Uses (weight b) (rlb_get_char b)
        → ((rlb_get_char b).0 == b'\n') ≡ false
        → Advances (weight b) (
          (rlb_get_char b).0 ∷ (read_upto n (rlb_get_char b).1).0,
          (read_upto n (rlb_get_char b).1).1,
          (read_upto n (rlb_get_char b).1).2,
        )
    behind (inl less) other = inl (omega (arith, less, read_upto-le n (rlb_get_char b).1))
    behind (inr (newline, ended, most)) other = absurd (ground (arith, newline, other))

-- A line uses up some of what there was, unless the connection is closed.
abbrev pub LineUses : ℕ → Line × Rlb → Type 0
LineUses w (l, b) = (weight b < w) ⊎ (l ≡ closed)

checked-LineUses :
    (w : ℕ) (text : Bytes) (b : Rlb) → weight b < w → LineUses w (check_closed (line text, b))
unfolding check_closed
checked-LineUses w text b less = elim (Bool-cases (is_empty text && b.no_more)) [
  | inl none_left ↦ rw none_left (inl less)
  | inr some_left ↦ rw some_left (inl less)
]

finished-LineUses :
    (w size : ℕ) (r : Bytes × Bool × Rlb)
    → Advances w r
    → LineUses w (check_closed (finish_line size r))
unfolding finish_line check_closed is_empty
finished-LineUses w size (text, true, b) (inl less) = checked-LineUses w text b less
finished-LineUses w size (text, true, b) (inr (none, met, ended)) = inr (rw (none, ended) refl)
finished-LineUses w size (text, false, b) (inl less) =
    inl (omega (arith, less, drain-le (suc (weight b)) b))
finished-LineUses w size (text, false, b) (inr (none, met, ended)) = absurd (cc)

pub read_line-LineUses : (n : ℕ) (b : Rlb) → LineUses (weight b) (rlb_read_line (suc (suc n)) b)
unfolding rlb_read_line
read_line-LineUses n b =
    let large : leb (suc (suc n)) 1 ≡ false = ground arith in
    rw large (
      finished-LineUses (weight b) (suc (suc n)) (read_upto (suc (suc n)) b)
        (read_upto-Advances (suc n) b))
