-- ===== src/Gui/Listing/Lines.antt =====
-- A listing of whole lines: every line becomes at most one entry, and the block has room for all.
use zz_ftp.Prelude.{
  ℕ, suc, ◌≤◌, ◌≡◌, refl, arith, Bool, ◌&&◌, true, false, Option, none, some, List, [], ◌∷◌, ◌++◌,
  ◌==◌, if◌then◌else◌, Bytes, equal, length, length-append, c_str, All, ap, ◌∙◌, zero, Bool-cases,
  inl, inr,
}
use zz_ftp.Gui.FileList.{FileRec}
use zz_ftp.Gui.Listing.{
  count_lines, cut_line, scan_entry, add_entry, scan_lines, with_parent, in_block, parse_listing,
}

-- A byte of a line: neither NUL nor a newline.
unfoldable pub is_inner : ℕ → Bool
is_inner c = if c == 0 then false else if c == b'\n' then false else true

abbrev pub IsLine : Bytes → Type 0
IsLine l = All (λ c. is_inner c ≡ true) l

-- What `ls` writes: each line and its newline.
abbrev pub written : List Bytes → Bytes
written [] = []
written (l ∷ lines) = l ++ (b'\n' ∷ written lines)

-- One entry for each line that has the nine fields, in order.
abbrev pub entries : List Bytes → List FileRec
entries [] = []
entries (l ∷ lines) = add_entry (scan_entry l) (entries lines)

count_lines-line :
    (l rest : Bytes) → IsLine l → count_lines (l ++ (b'\n' ∷ rest)) ≡ suc (count_lines rest)
unfolding count_lines is_inner
count_lines-line [] rest h = refl
count_lines-line (c ∷ l) rest h = let i = h.0 in let k = count_lines-line l rest h.1 in ground arith

cut_line-line : (l rest : Bytes) → IsLine l → cut_line (l ++ (b'\n' ∷ rest)) ≡ some (l, rest)
unfolding cut_line is_inner
cut_line-line [] rest h = refl
cut_line-line (c ∷ l) rest h = let i = h.0 in let k = cut_line-line l rest h.1 in ground arith

c_str-line : (l : Bytes) → IsLine l → c_str l ≡ l
unfolding c_str is_inner
c_str-line [] h = refl
c_str-line (c ∷ l) h = let i = h.0 in let k = c_str-line l h.1 in ground arith

inner_nonzero : (c : ℕ) → is_inner c ≡ true → (c == 0) ≡ false
unfolding is_inner
inner_nonzero c i = ground arith

-- The entries behind one line.
abbrev with_line : Bytes → Option (List FileRec) → Option (List FileRec)
with_line l o = elim o [ none ↦ none | some recs ↦ some (add_entry (scan_entry l) recs) ]

abbrev cut_off : ℕ → Bool → Option (Bytes × Bytes) → Option (List FileRec)
cut_off f b o = elim b [
  | true ↦ some []
  | false ↦ elim o [
    | none ↦ none
    | some (l, more) ↦ elim (scan_lines f more) [
      | none ↦ none
      | some recs ↦ some (add_entry (scan_entry (c_str l)) recs)
    ]
  ]
]

scan_lines-line :
    (l rest : Bytes) (f : ℕ)
    → IsLine l
    → scan_lines (suc f) (l ++ (b'\n' ∷ rest)) ≡ with_line l (scan_lines f rest)
unfolding scan_lines c_str
scan_lines-line [] rest f h = refl
scan_lines-line (c ∷ l) rest f h =
    ap (λ b. cut_off f b (cut_line (c ∷ (l ++ (b'\n' ∷ rest))))) (inner_nonzero c h.0)
    ∙ (ap (cut_off f false) (cut_line-line (c ∷ l) rest h)
        ∙ ap (λ x. with_line x (scan_lines f rest)) (c_str-line (c ∷ l) h))

scan_lines-written :
    (lines : List Bytes) (f : ℕ)
    → All IsLine lines
    → length lines ≤ f
    → scan_lines f (written lines) ≡ some (entries lines)
unfolding scan_lines
scan_lines-written [] f h b = refl
scan_lines-written (l ∷ lines) zero h b = absurd (omega arith)
scan_lines-written (l ∷ lines) (suc f) h b =
    scan_lines-line l (written lines) f h.0
    ∙ ap (with_line l) (scan_lines-written lines f h.1 (omega arith))

count_lines-written :
    (lines : List Bytes) → All IsLine lines → count_lines (written lines) ≡ length lines
unfolding count_lines
count_lines-written [] h = refl
count_lines-written (l ∷ lines) h =
    count_lines-line l (written lines) h.0 ∙ ap suc (count_lines-written lines h.1)

length-written : (lines : List Bytes) → length lines ≤ length (written lines)
length-written [] = omega arith
length-written (l ∷ lines) =
    omega (arith, length-written lines, length-append l (b'\n' ∷ written lines))

length-add_entry :
    (o : Option FileRec) (recs : List FileRec) → length (add_entry o recs) ≤ suc (length recs)
unfolding add_entry
length-add_entry none recs = omega arith
length-add_entry (some r) recs = omega arith

length-entries : (lines : List Bytes) → length (entries lines) ≤ length lines
length-entries [] = omega arith
length-entries (l ∷ lines) =
    omega (arith, length-entries lines, length-add_entry (scan_entry l) (entries lines))

length-with_parent :
    (cwd : Bytes) (recs : List FileRec) → length (with_parent cwd recs) ≤ suc (length recs)
unfolding with_parent
length-with_parent cwd recs = elim (Bool-cases (equal cwd (b'/' ∷ []))) [
  | inl root ↦ simp (root) (omega arith)
  | inr below ↦ simp (below) (omega arith)
]

in_block-fits :
    (room : ℕ) (recs : List FileRec) → length recs ≤ room → in_block room recs ≡ some recs
unfolding in_block
in_block-fits room recs h = ground arith

both : (a b : Bool) → (a && b) ≡ true → (a ≡ true) × (b ≡ true)
both true true e = (refl, refl)
both true false e = cc
both false b e = cc

unfoldable pub is_line : Bytes → Bool
unfolding is_inner
is_line [] = true
is_line (c ∷ l) = is_inner c && is_line l

pub is_line-IsLine : (l : Bytes) → is_line l ≡ true → IsLine l
unfolding is_line is_inner
is_line-IsLine [] e = tt
is_line-IsLine (c ∷ l) e = let (a, b) = both (is_inner c) (is_line l) e in (a, is_line-IsLine l b)

-- A listing whose lines hold no NUL and all end in a newline is read without an access out of
-- bounds: into an entry for the parent directory, but in the root directory, and one for every line
-- with all the fields, in the order of the lines.
pub parse_listing-written :
    (cwd : Bytes) (lines : List Bytes)
    → All IsLine lines
    → parse_listing cwd (written lines) ≡ some (with_parent cwd (entries lines))
unfolding parse_listing
parse_listing-written cwd lines h =
    simp (scan_lines-written lines (length (written lines)) h (length-written lines)) (
      in_block-fits _ _ (
        omega (
          arith,
          count_lines-written lines h,
          length-with_parent cwd (entries lines),
          length-entries lines,
        )))
