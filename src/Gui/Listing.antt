-- ===== src/Gui/Listing.antt =====
-- list_1 and list_3 of client/main.c: what the client takes from a reply to PWD, and from the
-- listing that LIST sends.
pub mod Lines
mod Tests
use zz_ftp.Prelude.{
  ◌>>=◌, ℕ, zero, suc, true, false, Option, none, some, List, [], ◌∷◌, ◌++◌, ◌==◌, if◌then◌else◌,
  Bytes, c_str, equal, length, leb,
}
use zz_ftp.Text.{is_space, skip_spaces, scan_i32, truncate_to}
use zz_ftp.Gui.FileList.{file, directory, parent, FileRec, split_last}

-- p = strchr(s, '"'), as the bytes behind it
unfoldable pub behind_first : ℕ → Bytes → Option Bytes
behind_first c [] = none
behind_first c (x ∷ s) = if x == c then some s else behind_first c s

-- The bytes between the first and the last '"'. With a single one memcpy() is called with a length
-- of -1: `fault`.
pub data Quoted : Type 0 where
  quoted : Bytes → Quoted
  unquoted fault : Quoted

unfoldable pub between : Option Bytes → Quoted
between none = unquoted
between (some s) = elim (split_last b'"' s) [ none ↦ fault | some (inside, _) ↦ quoted inside ]

unfoldable pub quoted_dir : Bytes → Quoted
unfolding behind_first between split_last
quoted_dir s = between (behind_first b'"' s)

-- for (char *p = data; *p != '\0'; p++) if (*p == '\n') count++;
unfoldable pub count_lines : Bytes → ℕ
count_lines [] = 0
count_lines (c ∷ s) =
    if c == 0 then 0 else if c == b'\n' then suc (count_lines s) else count_lines s

-- %Ns: at most n bytes of a word that is not empty, and what follows them.
unfoldable pub take_word : ℕ → Bytes → Bytes × Bytes
take_word zero s = ([], s)
take_word (suc n) [] = ([], [])
take_word (suc n) (c ∷ s) =
    let (w, rest) = take_word n s in if is_space c then ([], c ∷ s) else (c ∷ w, rest)

unfoldable pub nonempty_word : Bytes × Bytes → Option (Bytes × Bytes)
nonempty_word ([], rest) = none
nonempty_word (c ∷ w, rest) = some (c ∷ w, rest)

unfoldable pub scan_word : ℕ → Bytes → Option (Bytes × Bytes)
unfolding take_word nonempty_word skip_spaces
scan_word n s = nonempty_word (take_word n (skip_spaces s))

-- %*s
unfoldable pub skip_word : Bytes → Option Bytes
unfolding scan_word
skip_word s = elim (scan_word (suc (length s)) s) [ none ↦ none | some (_, rest) ↦ some rest ]

unfoldable pub entry : Bytes → ℕ → Bytes → Bytes → Bytes → Bytes → FileRec
entry attr size d1 d2 d3 name = record {
  is_dir = elim attr [ [] ↦ file | c ∷ _ ↦ if c == b'd' then directory else file ];
  name = name;
  size = size;
  date = truncate_to 32 (d1 ++ (b' ' ∷ (d2 ++ (b' ' ∷ d3))));
}

-- sscanf(p, "%15s%*s%*s%*s%d%7s%7s%7s%63s", ...) == 6, on one line; size is the pattern of an int.
unfoldable pub scan_entry : Bytes → Option FileRec
scan_entry s = do
  (attr, s1) ← scan_word 15 s
  s2 ← skip_word s1
  s3 ← skip_word s2
  s4 ← skip_word s3
  (size, s5) ← scan_i32 s4
  (d1, s6) ← scan_word 7 s5
  (d2, s7) ← scan_word 7 s6
  (d3, s8) ← scan_word 7 s7
  (name, _) ← scan_word 63 s8
  some (entry attr size d1 d2 d3 name)

-- The lines of the listing, each up to its '\n'. A line that has none runs past the end of the
-- block: `none`.
unfoldable pub cut_line : Bytes → Option (Bytes × Bytes)
cut_line [] = none
cut_line (c ∷ s) =
    if c == b'\n'
    then some ([], s)
    else elim (cut_line s) [ none ↦ none | some (l, rest) ↦ some (c ∷ l, rest) ]

unfoldable pub add_entry : Option FileRec → List FileRec → List FileRec
add_entry none recs = recs
add_entry (some r) recs = r ∷ recs

-- for (char *p = data, *q = p; *p != '\0'; p = q + 1): the entries, for at most the given number of
-- lines; `none` is an access out of bounds. sscanf() sees a line up to its first NUL.
unfoldable pub scan_lines : ℕ → Bytes → Option (List FileRec)
unfolding cut_line scan_entry add_entry
scan_lines f [] = some []
scan_lines zero (c ∷ s) = none
scan_lines (suc f) (c ∷ s) = elim (c == 0) [
  | true ↦ some []
  | false ↦ elim (cut_line (c ∷ s)) [
    | none ↦ none
    | some (l, more) ↦ elim (scan_lines f more) [
      | none ↦ none
      | some recs ↦ some (add_entry (scan_entry (c_str l)) recs)
    ]
  ]
]

abbrev pub parent_rec : FileRec
parent_rec = record { is_dir = parent; name = b'.' ∷ b'.' ∷ []; size = 0; date = [] }

-- strcmp(cwd, "/") != 0
unfoldable pub with_parent : Bytes → List FileRec → List FileRec
with_parent cwd recs = if equal cwd (b'/' ∷ []) then recs else parent_rec ∷ recs

-- The block has room for one entry and one for each line that was counted.
unfoldable pub in_block : ℕ → List FileRec → Option (List FileRec)
in_block room recs = if leb (length recs) room then some recs else none

-- A line has at least one byte, so there are no more lines than bytes.
unfoldable pub parse_listing : Bytes → Bytes → Option (List FileRec)
unfolding scan_lines with_parent in_block count_lines
parse_listing cwd listing = do
  recs ← scan_lines (length listing) listing
  in_block (suc (count_lines listing)) (with_parent cwd recs)
