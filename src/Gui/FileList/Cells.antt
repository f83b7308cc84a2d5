-- ===== src/Gui/FileList/Cells.antt =====
-- The cells of the table: modelNumRows and modelCellValue of client/model_filelist.c.
use zz_ftp.Prelude.{
  sym, ◌∙◌, ℕ, zero, suc, ◌≡◌, refl, arith, Bool, true, false, not, ◌&&◌, Option, none, some, List,
  [], ◌∷◌, ◌==◌, if◌then◌else◌, Bytes, codes, length, Bool-cases, inl, inr,
}
use mathlib.Core.Option.{some-injective}
use zz_ftp.Gui.FileList.{
  FileType, file, directory, parent, FileRec, FileList, starts_new_folder, file_list_set_enabled,
}

-- The columns; `enabling` are those whose value says whether a cell can be clicked or edited.
pub data Enabling : Type 0 where
  enabled renamable deletable : Enabling

pub data Column : Type 0 where
  icon name size date download delete text_colour empty : Column
  enabling : Enabling → Column

pub data Image : Type 0 where
  plus folder page : Image

pub data Colour : Type 0 where
  black orange blue : Colour

pub data Cell : Type 0 where
  image : Image → Cell
  text : Bytes → Cell
  flag : Bool → Cell
  colour : Colour → Cell

unfoldable pub num_rows : FileList → ℕ
num_rows l = if l.has_contents then suc (length l.files) else 0

abbrev pub nth : List FileRec → ℕ → Option FileRec
nth [] n = none
nth (r ∷ files) zero = some r
nth (r ∷ files) (suc n) = nth files n

unfoldable pub last_row : FileList → Column → Cell
last_row l icon = image plus
last_row l download = text (codes "Upload")
last_row l delete = text (codes "Make dir")
last_row l (enabling enabled) = flag l.enabled
last_row l (enabling renamable) = flag false
last_row l (enabling deletable) = flag l.enabled
last_row l text_colour = colour black
last_row l _ = text []

abbrev is_parent : FileType → Bool
is_parent parent = true
is_parent _ = false

-- `size_text` is get_size_str.
unfoldable pub file_row : (ℕ → Bytes) → FileList → FileRec → Column → Cell
unfolding starts_new_folder
file_row size_text l r icon =
    image (elim r.is_dir [ file ↦ page | directory ↦ folder | parent ↦ folder ])
file_row size_text l r name = text r.name
file_row size_text l r size =
    text (elim r.is_dir [ file ↦ size_text r.size | directory ↦ [] | parent ↦ [] ])
file_row size_text l r date = text r.date
file_row size_text l r download =
    text (elim r.is_dir [
      | parent ↦ codes "Go up"
      | directory ↦ codes "Open"
      | file ↦ codes "Download"
    ])
file_row size_text l r delete = text (if is_parent r.is_dir then [] else codes "Delete")
file_row size_text l r (enabling enabled) = flag l.enabled
file_row size_text l r (enabling renamable) = flag (l.enabled && not (is_parent r.is_dir))
file_row size_text l r (enabling deletable) = flag (l.enabled && not (is_parent r.is_dir))
file_row size_text l r text_colour = colour (elim r.is_dir [
  | directory ↦ if starts_new_folder r.name then orange else blue
  | file ↦ black
  | parent ↦ black
])
file_row size_text l r empty = text []

unfoldable pub row_of : (ℕ → Bytes) → FileList → Option FileRec → Column → Option Cell
unfolding file_row
row_of size_text l none c = none
row_of size_text l (some r) c = some (file_row size_text l r c)

-- `none`: a row behind the last one, which is out of the array.
unfoldable pub cell_value : (ℕ → Bytes) → FileList → ℕ → Column → Option Cell
unfolding last_row row_of
cell_value size_text l row c =
    if row == length l.files then some (last_row l c) else row_of size_text l (nth l.files row) c

disabled_row :
    (size_text : ℕ → Bytes) (l : FileList) (o : Option FileRec) (e : Enabling) (v : Cell)
    → row_of size_text (file_list_set_enabled false l) o (enabling e) ≡ some v
    → v ≡ flag false
unfolding row_of file_row file_list_set_enabled
disabled_row size_text l none e v h = cc
disabled_row size_text l (some r) enabled v h = ground arith
disabled_row size_text l (some r) renamable v h = ground arith
disabled_row size_text l (some r) deletable v h = ground arith

disabled_last :
    (l : FileList) (e : Enabling)
    → last_row (file_list_set_enabled false l) (enabling e) ≡ flag false
unfolding last_row file_list_set_enabled
disabled_last l enabled = refl
disabled_last l renamable = refl
disabled_last l deletable = refl

-- Behind file_list_set_enabled(false) no cell of any row can be clicked or edited, the buttons of
-- the last row included.
pub disabled_cells :
    (size_text : ℕ → Bytes) (l : FileList) (row : ℕ) (e : Enabling) (v : Cell)
    → cell_value size_text (file_list_set_enabled false l) row (enabling e) ≡ some v
    → v ≡ flag false
unfolding cell_value
disabled_cells size_text l row e v h =
    elim (Bool-cases (row == length (file_list_set_enabled false l).files)) [
      | inl last ↦ sym (some-injective _ _ (simp (last) at h)) ∙ disabled_last l e
      | inr inside ↦
          disabled_row size_text l (nth (file_list_set_enabled false l).files row) e v
            (simp (inside) at h)
    ]
