-- ===== src/Gui/Events.antt =====
-- Downloads, uploads, the login and the buttons of client/main.c, the buttons of the file list in
-- client/model_filelist.c, and which function an event calls.
use zz_ftp.Prelude.{
  ℕ, ◌%◌, ◌^◌, Bool, true, false, not, Option, none, some, List, ◌++◌, reverse, ◌==◌, if◌then◌else◌,
  Bytes, codes,
}
use zz_ftp.Text.{skip_spaces}
use zz_ftp.Gui.FileList.{
  FileRec, FileType, file, directory, parent, file_list_clear, file_list_get_upload_name,
  free_folder_name,
}
use zz_ftp.Gui.State.{
  OnMark, no_callback, data_pasv_1, data_port_1, list_1, sys_1, sys_2, cwd_1, rename_1, rename_2,
  mkd_1, rm_1, stor_3, auth_1, auth_2, auth_3, disconn_1, OnConnect, data_2, connection_setup,
  OnData, list_3, retr_2, stor_2, retr_1, stor_1, from_fd, to_fd, ConnCode, established,
  err_connect, connects_control, closes_control, closes_data, closes_fd, Gui, Screen, loading, done,
  status, statusf, act, request, give_up, reads_mark,
}
use zz_ftp.Gui.Actions.{
  crlf, do_data, on_data_pasv_1, on_data_port_1, on_data_2, do_list, on_list_1, on_list_3,
  do_sys_setup, on_sys_1, on_sys_2, do_cwd, on_cwd_1, do_rename, on_rename_1, on_rename_2, do_mkd,
  on_mkd_1, do_rm, on_rm_1,
}

-- Retrieving a file

unfoldable pub open_out : Option ℕ → Screen → Bytes → ℕ → Gui → Gui
open_out none w name size g = statusf (codes "Cannot create local file: " ++ w.open_error) (done g)
open_out (some fd) w name size g =
    do_data w (to_fd fd) retr_1 retr_2
      (record g { retr_name = name; retr_size = size; retr_out_fd = fd })

unfoldable pub do_retr : Screen → Bytes → ℕ → Bytes → Gui → Gui
unfolding open_out
do_retr w name size local_path g =
    open_out (w.opens local_path) w name size
      (statusf (codes "Requesting file " ++ name) (loading g))

-- The length is -1 for the end: `none`.
unfoldable pub on_retr_2 : Screen → Option ℕ → Gui → Gui
on_retr_2 w none g =
    statusf
      (codes "Successfully downloaded \""
        ++ (g.retr_name ++ (codes "\" (" ++ (w.size_text g.retr_size ++ codes ")"))))
      (done (act (closes_fd g.retr_out_fd) (act (reads_mark no_callback) (act closes_data g))))
on_retr_2 w (some len) g =
    statusf
      (codes "Downloading \""
        ++ (g.retr_name
            ++ (codes "\" ("
                ++ (w.size_text len ++ (codes " / " ++ (w.size_text g.retr_size ++ codes ")"))))))
      g

-- Storing a file; its size is kept in an int, whose pattern this is.

abbrev pub size_or_zero : Option ℕ → ℕ
size_or_zero none = 0
size_or_zero (some n) = n

unfoldable pub open_in : Option ℕ → Screen → Bytes → Gui → Gui
open_in none w name g = statusf (codes "Cannot open local file: " ++ w.open_error) (done g)
open_in (some fd) w name g =
    do_data w (from_fd fd) stor_1 stor_2 (record g {
      stor_name = name;
      stor_size = size_or_zero (w.sizes fd) % 2 ^ 32;
      stor_in_fd = fd;
    })

unfoldable pub do_stor : Screen → Bytes → Bytes → Gui → Gui
unfolding open_in
do_stor w name local_path g =
    open_in (w.opens local_path) w name (statusf (codes "Storing file " ++ name) (loading g))

unfoldable pub on_stor_2 : Screen → Option ℕ → Gui → Gui
on_stor_2 w none g =
    status (codes "Successfully uploaded, awaiting confirmation")
      (act (closes_fd g.stor_in_fd) (act (reads_mark stor_3) (act closes_data g)))
on_stor_2 w (some len) g =
    statusf
      (codes "Uploading \""
        ++ (g.stor_name
            ++ (codes "\" ("
                ++ (w.size_text len ++ (codes " / " ++ (w.size_text g.stor_size ++ codes ")"))))))
      g

unfoldable pub on_stor_3 : Screen → ℕ → Gui → Gui
unfolding do_list
on_stor_3 w code g =
    if code == 226
    then do_list (
        statusf
          (codes "Successfully uploaded \""
            ++ (g.stor_name ++ (codes "\" (" ++ (w.size_text g.stor_size ++ codes ")"))))
          (done g))
    else status (codes "Did not see a valid upload finish confirmation") g

-- Logging in

unfoldable pub do_auth : Gui → Gui
do_auth g = act (reads_mark auth_1) (status (codes "Connected, waiting for welcome message") g)

abbrev enable_form : Gui → Gui
enable_form g = record g { form = true }

unfoldable pub on_auth_1 : Screen → ℕ → Gui → Gui
on_auth_1 w code g =
    if code == 220
    then request (codes "USER " ++ (w.user ++ crlf)) auth_2
        (status (codes "Welcome message received, logging in") g)
    else enable_form (give_up (codes "Did not see a valid welcome mark") g)

unfoldable pub on_auth_2 : Screen → ℕ → Gui → Gui
on_auth_2 w code g =
    if code == 331
    then request (codes "PASS " ++ (w.password ++ crlf)) auth_3 g
    else enable_form (give_up (codes "Did not see a valid password request mark") g)

unfoldable pub on_auth_3 : ℕ → Gui → Gui
unfolding do_sys_setup
on_auth_3 code g =
    if code == 230
    then do_sys_setup (record (status (codes "Logged in") (done g)) {
      connected = true;
      button = codes "Disconnect";
    })
    else enable_form (
        status
          (if code == 530
            then codes "Incorrect credentials"
            else codes "Did not see a valid log in mark")
          (done g))

unfoldable pub on_connection_setup : ConnCode → Gui → Gui
unfolding do_auth
on_connection_setup established g = do_auth g
on_connection_setup err_connect g = enable_form (give_up (codes "Cannot connect to the server") g)
on_connection_setup _ g = enable_form (give_up (codes "Internal error during connection") g)

-- The buttons of the window

unfoldable pub conn_click : Screen → Gui → Gui
conn_click w g =
    if not g.connected
    then act (connects_control w.host w.port connection_setup)
        (record (statusf (codes "Connecting to " ++ w.host) (loading g)) { form = false })
    else request (codes "QUIT\r\n") disconn_1 (status (codes "Disconnecting") (loading g))

-- while (t > s && isspace(*(t - 1))) t--, on the reversed text
unfoldable pub trim : Bytes → Bytes
trim s = reverse (skip_spaces (reverse s))

unfoldable pub on_disconn_1 : ℕ → Bytes → Gui → Gui
unfolding trim file_list_clear
on_disconn_1 code s g =
    let g1 =
      if code == 221
      then statusf (codes "Disconnected: " ++ trim s) g
      else status (codes "Disconnected") g in
    let g2 = done (act closes_control g1) in
    record g2 {
      connected = false;
      form = true;
      button = codes "Connect";
      list = file_list_clear g2.list;
    }

unfoldable pub mode_click : Gui → Gui
mode_click g = record g { passive_mode = not g.passive_mode }

-- The buttons of the file list; the dialogs of libui choose `w.chosen`.

unfoldable pub save_to : Option Bytes → Screen → FileRec → Gui → Gui
save_to none w r g = g
save_to (some local_path) w r g = do_retr w r.name r.size local_path g

unfoldable pub download_as : FileType → Screen → FileRec → Gui → Gui
unfolding save_to
download_as file w r g = save_to w.chosen w r g
download_as directory w r g = do_cwd r.name g
download_as parent w r g = do_cwd r.name g

unfoldable pub file_list_download : Screen → FileRec → Gui → Gui
unfolding download_as
file_list_download w r g = download_as r.is_dir w r g

unfoldable pub upload_as : Option Bytes → Screen → Bytes → Gui → Gui
upload_as none w local_path g = g
upload_as (some name) w local_path g = do_stor w name local_path g

unfoldable pub upload_from : Option Bytes → Screen → Gui → Gui
unfolding upload_as
upload_from none w g = g
upload_from (some local_path) w g =
    upload_as (file_list_get_upload_name g.list.files local_path) w local_path g

unfoldable pub file_list_upload : Screen → Gui → Gui
unfolding upload_from
file_list_upload w g = upload_from w.chosen w g

unfoldable pub make_dir : Option Bytes → Gui → Gui
make_dir none g = g
make_dir (some name) g = do_mkd name g

-- What happens in the window: a callback of client/xfer.c, or a button or cell. A cell is given
-- with its record; the last row has the cells `upload` and `make_directory`.
pub data Event : Type 0 where
  on_mark : OnMark → ℕ → Bytes → Event
  on_connect : OnConnect → ConnCode → Event
  on_data : OnData → Option ℕ → Bytes → Event
  conn_clicked mode_clicked upload make_directory : Event
  download : FileRec → Event
  rename : FileRec → Bytes → Event
  delete : FileRec → Event

unfoldable pub run_mark : Screen → OnMark → ℕ → Bytes → Gui → Option Gui
run_mark w no_callback code s g = some g
run_mark w data_pasv_1 code s g = some (on_data_pasv_1 code s g)
run_mark w data_port_1 code s g = some (on_data_port_1 code g)
run_mark w list_1 code s g = on_list_1 w code s g
run_mark w sys_1 code s g = some (on_sys_1 code g)
run_mark w sys_2 code s g = some (on_sys_2 code s g)
run_mark w cwd_1 code s g = some (on_cwd_1 code g)
run_mark w rename_1 code s g = some (on_rename_1 code g)
run_mark w rename_2 code s g = some (on_rename_2 code g)
run_mark w mkd_1 code s g = some (on_mkd_1 code g)
run_mark w rm_1 code s g = some (on_rm_1 code g)
run_mark w stor_3 code s g = some (on_stor_3 w code g)
run_mark w auth_1 code s g = some (on_auth_1 w code g)
run_mark w auth_2 code s g = some (on_auth_2 w code g)
run_mark w auth_3 code s g = some (on_auth_3 code g)
run_mark w disconn_1 code s g = some (on_disconn_1 code s g)

-- (*data_next)(len, data), which data_3 calls with NULL for the data.
unfoldable pub run_data :
    Screen → (List FileRec → List FileRec) → OnData → Option ℕ → Bytes → Gui → Option Gui
run_data w qsort list_3 len listing g = on_list_3 qsort listing g
run_data w qsort retr_2 len listing g = some (on_retr_2 w len g)
run_data w qsort stor_2 len listing g = some (on_stor_2 w len g)

unfoldable pub is_dir_rec : FileRec → Bool
is_dir_rec r = elim r.is_dir [ file ↦ false | directory ↦ true | parent ↦ true ]

unfoldable pub handle_event : Screen → (List FileRec → List FileRec) → Event → Gui → Option Gui
unfolding run_mark run_data is_dir_rec make_dir
handle_event w qsort (on_mark k code s) g = run_mark w k code s g
handle_event w qsort (on_connect data_2 code) g = some (on_data_2 code g)
handle_event w qsort (on_connect connection_setup code) g = some (on_connection_setup code g)
handle_event w qsort (on_data k len listing) g = run_data w qsort k len listing g
handle_event w qsort conn_clicked g = some (conn_click w g)
handle_event w qsort mode_clicked g = some (mode_click g)
handle_event w qsort upload g = some (file_list_upload w g)
handle_event w qsort make_directory g = some (make_dir (free_folder_name g.list.files) g)
handle_event w qsort (download r) g = some (file_list_download w r g)
handle_event w qsort (rename r to) g = some (do_rename r.name to g)
handle_event w qsort (delete r) g = some (do_rm (is_dir_rec r) r.name g)
