-- ===== src/Gui/FileList/Types.antt =====
-- The types of the columns, modelColumnType of client/model_filelist.c, and those of the cells.
use zz_ftp.Prelude.{
  ℕ, zero, suc, ◌≡◌, ◌<◌, refl, arith, Bool, true, false, Option, some, List, [], ◌∷◌, ◌==◌,
  if◌then◌else◌, Bytes, length, Bool-cases, inl, inr, if-else, sym,
}
use mathlib.Core.Path.{subst}
use zz_ftp.Gui.FileList.{FileRec, FileList}
use zz_ftp.Gui.FileList.Cells.{
  enabled, renamable, deletable, Column, icon, name, size, date, download, delete, text_colour,
  empty, enabling, Cell, image, text, flag, colour, num_rows, nth, last_row, file_row, row_of,
  cell_value,
}

-- uiTableValueType
pub data ValueType : Type 0 where
  string_type image_type int_type colour_type : ValueType

unfoldable pub column_type : Column → ValueType
column_type icon = image_type
column_type (enabling _) = int_type
column_type text_colour = colour_type
column_type _ = string_type

-- The type of a value, by the function of libui that makes it.
unfoldable pub value_type : Cell → ValueType
value_type (image _) = image_type
value_type (text _) = string_type
value_type (flag _) = int_type
value_type (colour _) = colour_type

last_row-type : (l : FileList) (c : Column) → value_type (last_row l c) ≡ column_type c
unfolding last_row value_type column_type
last_row-type l icon = refl
last_row-type l name = refl
last_row-type l size = refl
last_row-type l date = refl
last_row-type l download = refl
last_row-type l delete = refl
last_row-type l text_colour = refl
last_row-type l empty = refl
last_row-type l (enabling enabled) = refl
last_row-type l (enabling renamable) = refl
last_row-type l (enabling deletable) = refl

file_row-type :
    (size_text : ℕ → Bytes) (l : FileList) (r : FileRec) (c : Column)
    → value_type (file_row size_text l r c) ≡ column_type c
unfolding file_row value_type column_type
file_row-type size_text l r icon = refl
file_row-type size_text l r name = refl
file_row-type size_text l r size = refl
file_row-type size_text l r date = refl
file_row-type size_text l r download = refl
file_row-type size_text l r delete = refl
file_row-type size_text l r text_colour = refl
file_row-type size_text l r empty = refl
file_row-type size_text l r (enabling enabled) = refl
file_row-type size_text l r (enabling renamable) = refl
file_row-type size_text l r (enabling deletable) = refl

-- A value that is there, of the type of its column.
pub record HasType (o : Option Cell) (c : Column) : Type 0 where
  pub value : Cell
  pub there : o ≡ some value
  pub typed : value_type value ≡ column_type c

row_of-HasType :
    (size_text : ℕ → Bytes) (l : FileList) (files : List FileRec) (row : ℕ) (c : Column)
    → row < length files
    → HasType (row_of size_text l (nth files row) c) c
unfolding row_of
row_of-HasType size_text l [] row c h = absurd (omega arith)
row_of-HasType size_text l (r ∷ files) zero c h = record {
  value = file_row size_text l r c;
  there = refl;
  typed = file_row-type size_text l r c;
}
row_of-HasType size_text l (r ∷ files) (suc row) c h =
    row_of-HasType size_text l files row c (omega arith)

inner_row : (b : Bool) (row n : ℕ) → row < (if b then suc n else 0) → (row == n) ≡ false → row < n
inner_row true row n h k = ground arith
inner_row false row n h k = absurd (omega arith)

-- Every cell of a row that the table has, by modelNumRows, is read inside of the array of files, and
-- its value has the type that modelColumnType gives for its column.
pub cell_value-HasType :
    (size_text : ℕ → Bytes) (l : FileList) (row : ℕ) (c : Column)
    → row < num_rows l
    → HasType (cell_value size_text l row c) c
unfolding cell_value num_rows
cell_value-HasType size_text l row c h = elim (Bool-cases (row == length l.files)) [
  | inl last ↦
      subst
        (λ b. HasType (if b then some (last_row l c) else row_of size_text l (nth l.files row) c) c)
        (sym last) (record { value = last_row l c; there = refl; typed = last_row-type l c })
  | inr inside ↦
      if-else (λ o. HasType o c) (row == length l.files) _ _ inside
        (row_of-HasType size_text l l.files row c
          (inner_row l.has_contents row (length l.files) h inside))
]
