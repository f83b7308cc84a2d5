-- ===== src/Io/Rlb/Chars.antt =====
-- The characters that a read-line buffer will deliver, however read() cuts the data up: the view
-- in which rlb_get_char takes the head of a list.
use zz_ftp.Prelude.{
  ℕ, ◌≤◌, ◌≡◌, refl, arith, Bool, true, false, List, [], ◌∷◌, ◌++◌, ◌==◌, if◌then◌else◌, Bytes,
  length, length-append, Bool-cases, inl, inr,
}
use zz_ftp.Io.Rlb.{Recv, received, failed, Rlb, get_from, rlb_get_char, weight_of, weight}

unfoldable pub drop_cr : Bytes → Bytes
drop_cr [] = []
drop_cr (c ∷ cs) = if c == b'\r' then drop_cr cs else c ∷ drop_cr cs

-- What read() gives up to the first empty or failed result, as characters.
unfoldable pub chars_of : List Recv → Bytes
unfolding drop_cr
chars_of [] = []
chars_of (failed ∷ input) = []
chars_of (received [] ∷ input) = []
chars_of (received (c ∷ cs) ∷ input) = drop_cr (c ∷ cs) ++ chars_of input

unfoldable pub chars : Rlb → Bytes
unfolding drop_cr
chars b = drop_cr b.pending ++ chars_of b.input

unfoldable pub no_newline : Bytes → Bool
no_newline [] = true
no_newline (c ∷ cs) = if c == b'\n' then false else no_newline cs

-- A buffer that delivers `cs`, with its flag.
pub record Delivers (cs : Bytes) (nm : Bool) (b : Rlb) : Type 0 where
  pub text : chars b ≡ cs
  pub flag : b.no_more ≡ nm

get_from-cons :
    (input : List Recv) (pending : Bytes) (nm : Bool) {c : ℕ} {cs : Bytes}
    → drop_cr pending ++ chars_of input ≡ c ∷ cs
    → (b : Rlb) × (get_from input pending nm ≡ (c, b)) × Delivers cs nm b
unfolding get_from chars_of chars
get_from-cons input (p ∷ pending) nm h = elim (Bool-cases (p == b'\r')) [
  | inl cr ↦ rw cr (get_from-cons input pending nm (ground arith))
  | inr other ↦ (
    record { pending = pending; input = input; no_more = nm },
    ground arith,
    record { text = ground arith; flag = refl },
  )
]
get_from-cons [] [] nm h = absurd (cc)
get_from-cons (failed ∷ input) [] nm h = absurd (cc)
get_from-cons (received [] ∷ input) [] nm h = absurd (cc)
get_from-cons (received (c ∷ cs) ∷ input) [] nm h = get_from-cons input (c ∷ cs) nm h

get_from-nil :
    (input : List Recv) (pending : Bytes) (nm : Bool)
    → drop_cr pending ++ chars_of input ≡ []
    → (b : Rlb) × (get_from input pending nm ≡ (b'\n', b)) × (b.no_more ≡ true)
unfolding get_from chars_of
get_from-nil input (p ∷ pending) nm h = elim (Bool-cases (p == b'\r')) [
  | inl cr ↦ rw cr (get_from-nil input pending nm (ground arith))
  | inr other ↦ absurd (ground arith)
]
get_from-nil [] [] nm h = (record { pending = []; input = []; no_more = true }, refl, refl)
get_from-nil (failed ∷ input) [] nm h =
    (record { pending = []; input = input; no_more = true }, refl, refl)
get_from-nil (received [] ∷ input) [] nm h =
    (record { pending = []; input = input; no_more = true }, refl, refl)
get_from-nil (received (c ∷ cs) ∷ input) [] nm h = get_from-nil input (c ∷ cs) nm h

pub get_char-cons :
    (b : Rlb) (c : ℕ) (cs : Bytes) (nm : Bool)
    → Delivers (c ∷ cs) nm b
    → (b' : Rlb) × (rlb_get_char b ≡ (c, b')) × Delivers cs nm b'
unfolding rlb_get_char chars
get_char-cons b c cs nm d =
    let (b', e, k) = get_from-cons b.input b.pending b.no_more d.text in
    (b', e, record { text = k.text; flag = ground arith })

pub get_char-nil :
    (b : Rlb) → chars b ≡ [] → (b' : Rlb) × (rlb_get_char b ≡ (b'\n', b')) × (b'.no_more ≡ true)
unfolding rlb_get_char chars
get_char-nil b h = get_from-nil b.input b.pending b.no_more h

drop_cr-le : (cs : Bytes) → length (drop_cr cs) ≤ length cs
unfolding drop_cr
drop_cr-le [] = omega arith
drop_cr-le (c ∷ cs) = ground (arith, drop_cr-le cs)

chars_of-le : (input : List Recv) → length (chars_of input) ≤ weight_of input
unfolding chars_of weight_of
chars_of-le [] = omega arith
chars_of-le (failed ∷ input) = omega arith
chars_of-le (received [] ∷ input) = omega arith
chars_of-le (received (c ∷ cs) ∷ input) = omega (
  arith,
  drop_cr-le (c ∷ cs),
  chars_of-le input,
  length-append (drop_cr (c ∷ cs)) (chars_of input),
)

pub chars-le-weight : (b : Rlb) → length (chars b) ≤ weight b
unfolding chars weight
chars-le-weight b = omega (
  arith,
  drop_cr-le b.pending,
  chars_of-le b.input,
  length-append (drop_cr b.pending) (chars_of b.input),
)
