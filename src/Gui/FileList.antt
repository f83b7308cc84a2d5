-- ===== src/Gui/FileList.antt =====
-- The entries of the file list: file_rec of client/model_filelist.h, and what client/model_filelist.c
-- does with them: their order and the search for free names. Cells has the cells of the table.
pub mod Cells
pub mod Names
pub mod Order
pub mod Types
mod Tests
use zz_ftp.Prelude.{
  ℕ, zero, suc, Bool, true, false, not, ◌&&◌, ◌||◌, Option, none, some, List, [], ◌∷◌, ◌++◌, ◌==◌,
  ltb, if◌then◌else◌, Bytes, codes, equal, length, take,
}
use zz_ftp.Text.{show, truncate_to}

-- is_dir: 0, 1 and 2.
pub data FileType : Type 0 where
  file directory parent : FileType

pub record FileRec : Type 0 where
  pub is_dir : FileType
  pub name : Bytes
  pub size : ℕ
  pub date : Bytes

-- What the table keeps: `files` and n_files, has_contents, and enabled.
pub record FileList : Type 0 where
  pub files : List FileRec
  pub has_contents : Bool
  pub enabled : Bool

unfoldable pub file_list_clear : FileList → FileList
file_list_clear l = record l { has_contents = false }

unfoldable pub file_list_set_enabled : Bool → FileList → FileList
file_list_set_enabled on l = record l { enabled = on }

abbrev pub new_folder : Bytes
new_folder = codes "new_folder_"

-- memcmp(name, "new_folder_", 11) == 0, for a name whose array has that many bytes.
unfoldable pub starts_new_folder : Bytes → Bool
starts_new_folder name = equal (take 11 name) new_folder

-- a_type and b_type, as their order: 2, 1, 0, and -1 for a new folder come in this order.
unfoldable pub rank : FileRec → ℕ
unfolding starts_new_folder
rank r = elim r.is_dir [
  | parent ↦ 0
  | directory ↦ if starts_new_folder r.name then 3 else 1
  | file ↦ 2
]

-- strcmp(a, b) <= 0
unfoldable pub text_le : Bytes → Bytes → Bool
text_le [] b = true
text_le (x ∷ a) [] = false
text_le (x ∷ a) (y ∷ b) = ltb x y || (x == y && text_le a b)

-- file_rec_cmp(a, b) <= 0
unfoldable pub file_rec_le : FileRec → FileRec → Bool
unfolding rank text_le
file_rec_le a b = ltb (rank a) (rank b) || (rank a == rank b && text_le a.name b.name)

-- qsort() is a parameter, like all that is not in the repository.
unfoldable pub file_list_reset : (List FileRec → List FileRec) → List FileRec → FileList → FileList
file_list_reset qsort recs l = record { files = qsort recs; has_contents = true; enabled = true }

unfoldable pub file_exists : List FileRec → Bytes → Bool
file_exists [] name = false
file_exists (f ∷ files) name = equal f.name name || file_exists files name

-- The bytes behind the last `c`, if there is one, and those before it.
unfoldable pub split_last : ℕ → Bytes → Option (Bytes × Bytes)
split_last c [] = none
split_last c (x ∷ s) = elim (split_last c s) [
  | some (before, behind) ↦ some (x ∷ before, behind)
  | none ↦ if x == c then some ([], s) else none
]

-- f = strrchr(local_path, '/'), and the text behind it
unfoldable pub base_name : Bytes → Bytes
unfolding split_last
base_name p = elim (split_last b'/' p) [ none ↦ p | some (_, behind) ↦ behind ]

-- The text before the last dot, and the text from there on.
unfoldable pub split_ext : Bytes → Bytes × Bytes
unfolding split_last
split_ext f = elim (split_last b'.' f) [
  | none ↦ (f, [])
  | some (before, behind) ↦ (before, b'.' ∷ behind)
]

-- sprintf(out + base_len, "_%d%s", i, dot)
unfoldable pub numbered : Bytes → Bytes → ℕ → Bytes
numbered base dot i = base ++ (b'_' ∷ (show i ++ dot))

-- for (int i = 1; ; i++), from i on and for at most the given number of rounds.
unfoldable pub first_free : ℕ → (ℕ → Bytes) → List FileRec → ℕ → Option Bytes
first_free zero candidate files i = none
first_free (suc f) candidate files i =
    let later = first_free f candidate files (suc i) in
    if file_exists files (candidate i) then later else some (candidate i)

-- file_list_get_upload_name; as many rounds as there are files, and one.
unfoldable pub file_list_get_upload_name : List FileRec → Bytes → Option Bytes
unfolding base_name split_ext numbered
file_list_get_upload_name files local_path =
    let f = base_name local_path in
    if not (file_exists files f)
    then some f
    else first_free (suc (length files)) (numbered (split_ext f).0 (split_ext f).1) files 1

-- snprintf(s, sizeof s, "new_folder_%d", i)
unfoldable pub folder_name : ℕ → Bytes
folder_name i = truncate_to 32 (new_folder ++ show i)

-- The loop of modelSetCellValue that looks for a name for a directory.
unfoldable pub free_folder_name : List FileRec → Option Bytes
unfolding folder_name
free_folder_name files = first_free (suc (length files)) folder_name files 1
