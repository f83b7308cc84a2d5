-- ===== src/Io/Rlb/Lines.antt =====
-- rlb_read_line against the characters delivered: lines end at '\n', and lengths are exact.
use zz_ftp.Prelude.{
  ℕ, zero, suc, ◌-◌, ◌≤◌, ◌<◌, ◌≡◌, refl, arith, ap, sym, ◌∙◌, Bool, true, false, [], ◌∷◌, ◌++◌,
  append_assoc, ◌==◌, if◌then◌else◌, Bytes, length, length-append, Bool-cases, inl, inr, ltb, take,
  drop, take-append-drop, length-take, take-take,
}
use zz_ftp.Io.Rlb.{
  Rlb, rlb_get_char, read_upto, weight, drain, Line, line, too_long, closed, finish_line, is_empty,
  check_closed, rlb_read_line,
}
use zz_ftp.Io.Rlb.Chars.{no_newline, Delivers, get_char-cons, get_char-nil, chars-le-weight}

no_newline-append :
    (a b : Bytes) → no_newline (a ++ b) ≡ true → (no_newline a ≡ true) × (no_newline b ≡ true)
unfolding no_newline
no_newline-append [] b h = (refl, h)
no_newline-append (c ∷ a) b h = ground (arith, no_newline-append a b)

read_upto-met :
    (n : ℕ) (l rest : Bytes) (nm : Bool) (b : Rlb)
    → no_newline l ≡ true
    → length l < n
    → Delivers (l ++ b'\n' ∷ rest) nm b
    → (b' : Rlb) × (read_upto n b ≡ (l, true, b')) × Delivers rest nm b'
unfolding read_upto no_newline
read_upto-met zero l rest nm b nl h d = absurd (omega arith)
read_upto-met (suc n) [] rest nm b nl h d =
    let (b1, e, d1) = get_char-cons b b'\n' rest nm d in (b1, ground (arith, e), d1)
read_upto-met (suc n) (c ∷ l) rest nm b nl h d =
    let (b1, e, d1) = get_char-cons b c (l ++ b'\n' ∷ rest) nm d in
    let (b2, e2, d2) = read_upto-met n l rest nm b1 (ground arith) (omega arith) d1 in
    (b2, ground (arith, e, e2), d2)

read_upto-cut :
    (n : ℕ) (l rest : Bytes) (nm : Bool) (b : Rlb)
    → no_newline l ≡ true
    → length l ≡ n
    → Delivers (l ++ rest) nm b
    → (b' : Rlb) × (read_upto n b ≡ (l, false, b')) × Delivers rest nm b'
unfolding read_upto no_newline
read_upto-cut zero [] rest nm b nl h d = (b, refl, d)
read_upto-cut zero (c ∷ l) rest nm b nl h d = absurd (omega arith)
read_upto-cut (suc n) [] rest nm b nl h d = absurd (omega arith)
read_upto-cut (suc n) (c ∷ l) rest nm b nl h d =
    let (b1, e, d1) = get_char-cons b c (l ++ rest) nm d in
    let (b2, e2, d2) = read_upto-cut n l rest nm b1 (ground arith) (omega arith) d1 in
    (b2, ground (arith, e, e2), d2)

read_upto_end :
    (n : ℕ) (l : Bytes) (nm : Bool) (b : Rlb)
    → no_newline l ≡ true
    → length l < n
    → Delivers l nm b
    → (b' : Rlb) × (read_upto n b ≡ (l, true, b')) × (b'.no_more ≡ true)
unfolding read_upto no_newline
read_upto_end zero l nm b nl h d = absurd (omega arith)
read_upto_end (suc n) [] nm b nl h d =
    let (b1, e, k) = get_char-nil b d.text in (b1, ground (arith, e), k)
read_upto_end (suc n) (c ∷ l) nm b nl h d =
    let (b1, e, d1) = get_char-cons b c l nm d in
    let (b2, e2, d2) = read_upto_end n l nm b1 (ground arith) (omega arith) d1 in
    (b2, ground (arith, e, e2), d2)

drain_met : (f : ℕ) (b b1 : Rlb) → rlb_get_char b ≡ (b'\n', b1) → drain (suc f) b ≡ b1
unfolding drain
drain_met f b b1 e = ground arith

drain_more :
    (f c : ℕ) (b b1 : Rlb)
    → rlb_get_char b ≡ (c, b1)
    → (c == b'\n') ≡ false
    → drain (suc f) b ≡ drain f b1
unfolding drain
drain_more f c b b1 e other = ground arith

drain_lem :
    (f : ℕ) (l rest : Bytes) (nm : Bool) (b : Rlb)
    → no_newline l ≡ true
    → length l < f
    → Delivers (l ++ b'\n' ∷ rest) nm b
    → Delivers rest nm (drain f b)
unfolding no_newline
drain_lem zero l rest nm b nl h d = absurd (omega arith)
drain_lem (suc f) [] rest nm b nl h d =
    let (b1, e, d1) = get_char-cons b b'\n' rest nm d in rw (drain_met f b b1 e) d1
drain_lem (suc f) (c ∷ l) rest nm b nl h d =
    let (b1, e, d1) = get_char-cons b c (l ++ b'\n' ∷ rest) nm d in
    rw (drain_more f c b b1 e (ground arith))
      (drain_lem f l rest nm b1 (ground arith) (omega arith) d1)

abbrev pub line_of : ℕ → Bytes → Line
line_of size l = if ltb (length l) size then line l else too_long (take (size - 1) l)

read_line-short :
    (size : ℕ) (l rest : Bytes) (b : Rlb)
    → 2 ≤ size
    → no_newline l ≡ true
    → length l < size
    → Delivers (l ++ b'\n' ∷ rest) false b
    → (b' : Rlb) × (rlb_read_line size b ≡ (line l, b')) × Delivers rest false b'
unfolding rlb_read_line finish_line check_closed
read_line-short size l rest b two nl h d =
    let (b1, e, d1) = read_upto-met size l rest false b nl h d in
    (b1, ground (arith, e, d1.flag), d1)

read_line-long :
    (size : ℕ) (l rest : Bytes) (b : Rlb)
    → 2 ≤ size
    → no_newline l ≡ true
    → size ≤ length l
    → Delivers (l ++ b'\n' ∷ rest) false b
    → (b' : Rlb) × (rlb_read_line size b ≡ (too_long (take (size - 1) l), b'))
      × Delivers rest false b'
unfolding rlb_read_line finish_line check_closed
read_line-long size l rest b two nl h d =
    let whole = take-append-drop size l in
    let parts = no_newline-append (take size l) (drop size l) (rw whole nl) in
    let regroup : take size l ++ (drop size l ++ b'\n' ∷ rest) ≡ l ++ b'\n' ∷ rest =
      sym (append_assoc (take size l) (drop size l) (b'\n' ∷ rest))
      ∙ ap (λ s. s ++ b'\n' ∷ rest) whole in
    let (b1, e, d1) =
      read_upto-cut size (take size l) (drop size l ++ b'\n' ∷ rest) false b parts.0
        (length-take size l h) (record { text = d.text ∙ sym regroup; flag = d.flag }) in
    let enough : length (drop size l) < suc (weight b1) =
      omega (
        arith,
        chars-le-weight b1,
        ap length d1.text,
        length-append (drop size l) (b'\n' ∷ rest),
      ) in
    (
      drain (suc (weight b1)) b1,
      ground (arith, e, take-take (size - 1) size l),
      drain_lem (suc (weight b1)) (drop size l) rest false b1 parts.1 enough d1,
    )

-- A line that ends in '\n' comes back whole if it is shorter than the array, and otherwise cut to
-- what fits with its terminator; either way the next line starts behind its '\n'. How read() cuts
-- the data up, and where '\r' stands, makes no difference.
pub read_line-terminated :
    (size : ℕ) (l rest : Bytes) (b : Rlb)
    → 2 ≤ size
    → no_newline l ≡ true
    → Delivers (l ++ b'\n' ∷ rest) false b
    → (b' : Rlb) × (rlb_read_line size b ≡ (line_of size l, b')) × Delivers rest false b'
read_line-terminated size l rest b two nl d = elim (Bool-cases (ltb (length l) size)) [
  | inl small ↦ rw small (read_line-short size l rest b two nl (ground arith) d)
  | inr large ↦ rw large (read_line-long size l rest b two nl (ground arith) d)
]

-- Where the connection closes behind fewer characters than the array holds, with no '\n', they
-- are returned as a last line, and -1 where there are none.
pub read_line-closed :
    (size : ℕ) (l : Bytes) (b : Rlb)
    → 2 ≤ size
    → no_newline l ≡ true
    → length l < size
    → Delivers l false b
    → (rlb_read_line size b).0 ≡ (if is_empty l then closed else line l)
unfolding rlb_read_line finish_line check_closed
read_line-closed size l b two nl h d =
    let (b1, e, k) = read_upto_end size l false b nl h d in ground (arith, e, k)
