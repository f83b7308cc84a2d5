-- ===== src/Gui/FileList/Tests.antt =====
-- The file list at concrete inputs.
use zz_ftp.Prelude.{◌<◌, arith, ◌≡◌, refl, true, false, some, List, [], ◌∷◌, Bytes, codes, equal}
use zz_ftp.Gui.FileList.{
  FileRec, FileList, file_list_set_enabled, FileType, file, directory, rank, file_rec_le,
  starts_new_folder, file_exists, file_list_get_upload_name,
}
use zz_ftp.Gui.FileList.Cells.{num_rows, flag, enabling, deletable, cell_value}
use zz_ftp.Gui.FileList.Types.{HasType, cell_value-HasType}
use zz_ftp.Gui.FileList.Names.{upload_name_found}

abbrev item : FileType → Bytes → FileRec
item t name = record { is_dir = t; name = name; size = 0; date = [] }

abbrev two_files : List FileRec
two_files = item file (codes "a.txt") ∷ item file (codes "a_1.txt") ∷ []

upload_name_found_example :
    (name : Bytes) × ((file_list_get_upload_name two_files (codes "/home/a.txt") ≡ some name)
      × (file_exists two_files name ≡ false))
upload_name_found_example = upload_name_found two_files (codes "/home/a.txt")

abbrev new_one : FileRec
new_one = item directory (codes "new_folder_1")

abbrev old_one : FileRec
old_one = item directory (codes "docs")

abbrev a_file : FileRec
a_file = item file (codes "a.txt")

docs_first : file_rec_le old_one a_file ≡ true
unfolding file_rec_le rank starts_new_folder codes equal
docs_first = refl

new_last : file_rec_le a_file new_one ≡ true
unfolding file_rec_le rank starts_new_folder codes equal
new_last = refl

abbrev shown : FileList
shown = record { files = two_files; has_contents = true; enabled = true }

deletable_off :
    cell_value (λ n. []) (file_list_set_enabled false shown) 1 (enabling deletable)
    ≡ some (flag false)
unfolding cell_value file_list_set_enabled
deletable_off = refl

in_table : 1 < num_rows shown
unfolding num_rows
in_table = omega arith

cell_value-HasType_example :
    HasType (cell_value (λ n. []) shown 1 (enabling deletable)) (enabling deletable)
cell_value-HasType_example = cell_value-HasType (λ n. []) shown 1 (enabling deletable) (in_table)
