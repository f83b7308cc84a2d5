-- ===== src/Gui/State.antt =====
-- The state of client/main.c: its static variables and what its widgets show, with the calls of
-- client/xfer.c that a callback makes. The callbacks that are passed to those calls are names here.
use zz_ftp.Prelude.{ℕ, Bool, true, false, Option, List, [], ◌∷◌, ◌++◌, Bytes}
use zz_ftp.Text.{truncate_to}
use zz_ftp.Gui.FileList.{FileList, file_list_set_enabled}

-- The callbacks of xfer_read_mark; `no_callback` is NULL.
pub data OnMark : Type 0 where
  no_callback data_pasv_1 data_port_1 list_1 sys_1 sys_2 cwd_1 rename_1 rename_2 mkd_1 rm_1 stor_3
        auth_1 auth_2 auth_3 disconn_1 :
      OnMark

-- Those of xfer_init and xfer_init_listen_2.
pub data OnConnect : Type 0 where
  data_2 connection_setup : OnConnect

-- data_next, and data_inter.
pub data OnData : Type 0 where
  list_3 retr_2 stor_2 : OnData

pub data Inter : Type 0 where
  no_inter list_2 retr_1 stor_1 : Inter

-- data_fd: zero, a descriptor to send from, or the negative of one to receive to.
pub data DataFd : Type 0 where
  to_memory : DataFd
  from_fd to_fd : ℕ → DataFd

-- The codes for the callbacks of a connection.
pub data ConnCode : Type 0 where
  established err_socket err_thread err_connect : ConnCode

pub data Act : Type 0 where
  writes : Bytes → Act
  reads_mark : OnMark → Act
  connects_control connects_data : Bytes → ℕ → OnConnect → Act
  listens : OnConnect → Act
  writes_all_from reads_all_to : ℕ → Act
  reads_all : OnData → Act
  closes_control closes_data : Act
  closes_fd : ℕ → Act

-- `loading` is what loading() sets and done() clears: the button and the list are disabled.
-- `form` is the box with host, user and password, enabled.
pub record Gui : Type 0 where
  pub loading : Bool
  pub form : Bool
  pub status : Bytes
  pub button : Bytes
  pub cwd : Option Bytes
  pub passive_mode : Bool
  pub connected : Bool
  pub data_fd : DataFd
  pub data_inter : Inter
  pub data_next : OnData
  pub rename_from : Bytes
  pub rename_to : Bytes
  pub retr_name : Bytes
  pub retr_size : ℕ
  pub retr_out_fd : ℕ
  pub stor_name : Bytes
  pub stor_size : ℕ
  pub stor_in_fd : ℕ
  pub list : FileList
  pub acts : List Act

-- What the widgets and the system give during one callback. `size_text` is get_size_str, whose
-- floating point is not modelled; `opens` is open(), `sizes` lseek() to the end of a descriptor,
-- `local_addr` the address of xfer_init_listen_1.
pub record Screen : Type 0 where
  pub host : Bytes
  pub port : ℕ
  pub user : Bytes
  pub password : Bytes
  pub size_text : ℕ → Bytes
  pub opens : Bytes → Option ℕ
  pub open_error : Bytes
  pub sizes : ℕ → Option ℕ
  pub local_addr : Option (List ℕ)
  pub chosen : Option Bytes

unfoldable pub loading : Gui → Gui
unfolding file_list_set_enabled
loading g = record g { loading = true; list = file_list_set_enabled false g.list }

unfoldable pub done : Gui → Gui
unfolding file_list_set_enabled
done g = record g { loading = false; list = file_list_set_enabled true g.list }

abbrev pub status : Bytes → Gui → Gui
status s g = record g { status = s }

-- #define statusf(...), on the formatted text
abbrev pub statusf : Bytes → Gui → Gui
statusf s g = status (truncate_to 128 s) g

abbrev pub act : Act → Gui → Gui
act a g = record g { acts = g.acts ++ a ∷ [] }

-- xfer_write(&x, ...) and xfer_read_mark(&x, next)
abbrev pub request : Bytes → OnMark → Gui → Gui
request line next g = act (reads_mark next) (act (writes line) g)

-- done() and a message: how a callback gives up.
abbrev pub give_up : Bytes → Gui → Gui
give_up s g = status s (done g)
