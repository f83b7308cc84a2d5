-- ===== src/Gui/Actions.antt =====
-- The actions of client/main.c and their callbacks, each a function on the state. A call of
-- client/xfer.c is an entry of `acts`; its callback is an event of its own, also where the call
-- fails at once. Threads start, as allocation succeeds.
use zz_ftp.Prelude.{
  ℕ, Bool, ◌||◌, Option, none, some, List, [], ◌∷◌, ◌++◌, reverse, ◌==◌, if◌then◌else◌, Bytes,
  codes,
}
use zz_ftp.Text.{is_space, show}
use zz_ftp.Gui.Address.{port_command, pasv_address}
use zz_ftp.Gui.FileList.{FileRec, file_list_reset}
use zz_ftp.Gui.Listing.{Quoted, quoted, unquoted, fault, quoted_dir, parse_listing}
use zz_ftp.Gui.State.{
  no_callback, data_pasv_1, data_port_1, list_1, sys_1, sys_2, cwd_1, rename_1, rename_2, mkd_1,
  rm_1, data_2, OnData, list_3, Inter, no_inter, list_2, retr_1, stor_1, DataFd, to_memory, from_fd,
  to_fd, ConnCode, established, connects_data, listens, writes_all_from, reads_all_to, reads_all,
  closes_data, Gui, Screen, loading, done, status, statusf, act, request, give_up, reads_mark,
}

abbrev pub crlf : Bytes
crlf = codes "\r\n"

-- code == 450 || code == 550
abbrev is_refusal : ℕ → Bool
is_refusal code = code == 450 || code == 550

-- Data connections

unfoldable pub do_data_port : Option (List ℕ) → Gui → Gui
do_data_port (some (a ∷ rest)) g = request (port_command a rest) data_port_1 g
do_data_port _ g = give_up (codes "Cannot listen on a local port, try passive mode instead") g

unfoldable pub do_data : Screen → DataFd → Inter → OnData → Gui → Gui
unfolding do_data_port
do_data w fd inter next g =
    let g1 = record (loading g) { data_fd = fd; data_inter = inter; data_next = next } in
    if g.passive_mode
    then request (codes "PASV\r\n") data_pasv_1 (status (codes "Entering passive mode") g1)
    else do_data_port w.local_addr (status (codes "Entering active (port) mode") g1)

-- The functions that data_inter points at.
abbrev pub on_list_2 : Gui → Gui
on_list_2 g = request (codes "LIST\r\n") no_callback g

abbrev pub on_retr_1 : Gui → Gui
on_retr_1 g = request (codes "RETR " ++ (g.retr_name ++ crlf)) no_callback g

abbrev pub on_stor_1 : Gui → Gui
on_stor_1 g = request (codes "STOR " ++ (g.stor_name ++ crlf)) no_callback g

-- if (data_inter != NULL) (*data_inter)();
unfoldable pub run_inter : Inter → Gui → Gui
run_inter no_inter g = g
run_inter list_2 g = on_list_2 g
run_inter retr_1 g = on_retr_1 g
run_inter stor_1 g = on_stor_1 g

unfoldable pub connect_data : Option (Bytes × ℕ) → Gui → Gui
unfolding run_inter
connect_data none g = give_up (codes "Did not see a valid passive mode response") g
connect_data (some (host, port)) g = run_inter g.data_inter (
    act (connects_data host port data_2)
      (statusf (codes "Passive mode: connecting to " ++ (host ++ (codes ":" ++ show port))) g))

unfoldable pub on_data_pasv_1 : ℕ → Bytes → Gui → Gui
unfolding connect_data
on_data_pasv_1 code s g = connect_data (pasv_address code s) g

unfoldable pub on_data_port_1 : ℕ → Gui → Gui
unfolding run_inter
on_data_port_1 code g =
    if code == 200
    then act (listens data_2) (statusf (codes "Port mode: listening") (run_inter g.data_inter g))
    else give_up (codes "Did not see a valid port mode response") g

unfoldable pub start_data : DataFd → Gui → Gui
start_data (from_fd fd) g = act (writes_all_from fd) g
start_data (to_fd fd) g = act (reads_all_to fd) g
start_data to_memory g = act (reads_all g.data_next) g

unfoldable pub on_data_2 : ConnCode → Gui → Gui
unfolding start_data
on_data_2 established g =
    start_data g.data_fd (status (codes "Data connection established, starting transfer") g)
on_data_2 _ g = give_up (codes "Cannot establish data connection") g

-- Listing the directory

unfoldable pub do_list : Gui → Gui
do_list g =
    request (codes "PWD\r\n") list_1
      (status (codes "Querying current working directory") (loading g))

-- `none`: memcpy() with a length of -1.
unfoldable pub list_dir : Screen → Quoted → Gui → Option Gui
list_dir w (quoted d) g = some (
    do_data w to_memory list_2 list_3 (
      status (codes "Directory: " ++ (d ++ codes " - retrieving file list"))
        (record g { cwd = some d })))
list_dir w unquoted g = some (
    give_up (codes "Cannot understand server's working directory response")
      (record g { cwd = none }))
list_dir w fault g = none

unfoldable pub on_list_1 : Screen → ℕ → Bytes → Gui → Option Gui
unfolding list_dir
on_list_1 w code s g =
    if code == 257
    then list_dir w (quoted_dir s) g
    else some (give_up (codes "Cannot query current working directory") g)

abbrev text_of : Option Bytes → Bytes
text_of none = []
text_of (some s) = s

unfoldable pub show_listing :
    (List FileRec → List FileRec) → Option (List FileRec) → Gui → Option Gui
unfolding file_list_reset
show_listing qsort none g = none
show_listing qsort (some recs) g = some (record g { list = file_list_reset qsort recs g.list })

-- `none`: an access out of bounds. list_3 is called only behind list_1 has set cwd.
unfoldable pub on_list_3 : (List FileRec → List FileRec) → Bytes → Gui → Option Gui
unfolding show_listing
on_list_3 qsort listing g =
    let g1 = act closes_data (done (act (reads_mark no_callback) g)) in
    show_listing qsort (parse_listing (text_of g.cwd) listing)
      (statusf (codes "Directory: " ++ text_of g.cwd) g1)

-- The type and the system

unfoldable pub do_sys_setup : Gui → Gui
do_sys_setup g =
    request (codes "TYPE I\r\n") sys_1 (status (codes "Setting type to binary (image)") (loading g))

unfoldable pub on_sys_1 : ℕ → Gui → Gui
on_sys_1 code g =
    if code == 200
    then request (codes "SYST\r\n") sys_2 g
    else give_up (codes "Did not see a valid transmission type response") g

-- while (p > s && isspace(*p)) *(p--) = '\0', on the reversed text: the first byte stays.
unfoldable pub trim_to_one : Bytes → Bytes
trim_to_one [] = []
trim_to_one (c ∷ []) = c ∷ []
trim_to_one (c ∷ d ∷ s) = if is_space c then trim_to_one (d ∷ s) else c ∷ d ∷ s

unfoldable pub on_sys_2 : ℕ → Bytes → Gui → Gui
unfolding trim_to_one do_list
on_sys_2 code s g =
    if code == 215
    then do_list (statusf (codes "System type is " ++ reverse (trim_to_one (reverse s))) g)
    else give_up (codes "Did not see a valid system type response") g

-- Changing the directory

unfoldable pub do_cwd : Bytes → Gui → Gui
do_cwd name g =
    request (codes "CWD " ++ (name ++ crlf)) cwd_1
      (status (codes "Changing working directory") (loading g))

unfoldable pub on_cwd_1 : ℕ → Gui → Gui
unfolding do_list
on_cwd_1 code g =
    if code == 250
    then do_list g
    else give_up
        (if is_refusal code
          then codes "Cannot change directory: not available or no access"
          else codes "Did not see a valid working directory change result")
        g

-- Renaming

unfoldable pub do_rename : Bytes → Bytes → Gui → Gui
do_rename from to g = request (codes "RNFR " ++ (from ++ crlf)) rename_1 (
    statusf (codes "Renaming " ++ (from ++ (codes " to " ++ (to ++ codes " (RNFR)"))))
      (record (loading g) { rename_from = from; rename_to = to }))

unfoldable pub on_rename_1 : ℕ → Gui → Gui
on_rename_1 code g =
    if code == 250
    then request (codes "RNTO " ++ (g.rename_to ++ crlf)) rename_2 g
    else give_up
        (if is_refusal code
          then codes "Cannot rename file: not available or no access"
          else codes "Did not see a valid rename-from response")
        g

unfoldable pub on_rename_2 : ℕ → Gui → Gui
unfolding do_list
on_rename_2 code g =
    if code == 250
    then do_list (
        statusf
          (codes "Successfully renamed \""
            ++ (g.rename_from ++ (codes "\" to \"" ++ (g.rename_to ++ codes "\""))))
          g)
    else give_up
        (if is_refusal code
          then codes "Cannot rename file: not available or no access"
          else codes "Did not see a valid rename-to response")
        g

-- Making a directory, and removing

unfoldable pub do_mkd : Bytes → Gui → Gui
do_mkd name g =
    request (codes "MKD " ++ (name ++ crlf)) mkd_1
      (statusf (codes "Making directory \"" ++ (name ++ codes "\"")) (loading g))

unfoldable pub on_mkd_1 : ℕ → Gui → Gui
unfolding do_list
on_mkd_1 code g =
    if code == 250
    then do_list (status (codes "Successfully created new directory") (done g))
    else status
        (if is_refusal code
          then codes "Cannot create directory: not available or no access"
          else codes "Did not see a valid directory creation result")
        (done g)

unfoldable pub do_rm : Bool → Bytes → Gui → Gui
do_rm is_dir name g =
    request ((if is_dir then codes "RMD" else codes "DELE") ++ (codes " " ++ (name ++ crlf))) rm_1
      (statusf (codes "Removing \"" ++ (name ++ codes "\"")) (loading g))

unfoldable pub on_rm_1 : ℕ → Gui → Gui
unfolding do_list
on_rm_1 code g =
    if code == 250
    then do_list (status (codes "Successfully removed") (done g))
    else status
        (if is_refusal code
          then codes "Cannot delete: not available, no access, or directory non-empty"
          else codes "Did not see a valid entry deletion result")
        (done g)
