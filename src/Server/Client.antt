-- ===== src/Server/Client.antt =====
-- The connection record of server/client.h, with client_create and client_xfer_in_progress of
-- server/client.c and user_auth of server/auth.h. The buffer of the control connection is the
-- reader of Io/Rlb and is held by the command loop; locks and the thread handle have no value here.
use zz_ftp.Prelude.{
  ℕ, Bool, true, false, ◌&&◌, Option, none, some, List, [], ◌∷◌, Bytes, codes, equal,
}

pub data ClientState : Type 0 where
  conn wait_pass ready port_mode pasv_mode : ClientState

-- The values of enum client_state_t, by which states are compared.
unfoldable pub state_value : ClientState → ℕ
state_value conn = 0
state_value wait_pass = 1
state_value ready = 2
state_value port_mode = 16
state_value pasv_mode = 32

pub data DatType : Type 0 where
  undefined send_file recv_file send_pipe : DatType

-- `dat_fp` is NULL or an open stream, `thr_dat_running` asks the data thread to go on.
pub record Client : Type 0 where
  pub sock_ctl : ℕ
  pub state : ClientState
  pub username : Option Bytes
  pub xferred_files_bytes : ℕ
  pub xferred_files_num : ℕ
  pub wd : Bytes
  pub rnfr : Option Bytes
  pub rest_offs : ℕ
  pub addr : List ℕ
  pub port : ℕ
  pub thr_dat_running : Bool
  pub dat_fp : Option ℕ
  pub dat_type : DatType

-- The last three arguments are what malloc() left in the fields that are not set.
unfoldable pub client_create : ℕ → List ℕ → ℕ → DatType → Client
client_create sock_ctl addr port dat_type = record {
  sock_ctl = sock_ctl;
  state = conn;
  username = none;
  xferred_files_bytes = 0;
  xferred_files_num = 0;
  wd = b'/' ∷ [];
  rnfr = none;
  rest_offs = 0;
  addr = addr;
  port = port;
  thr_dat_running = false;
  dat_fp = none;
  dat_type = dat_type;
}

abbrev pub is_some {ℓ} : {A : Type ℓ} → Option A → Bool
is_some none = false
is_some (some _) = true

unfoldable pub client_xfer_in_progress : Client → Bool
client_xfer_in_progress c = is_some c.dat_fp

unfoldable pub user_auth : Bytes → Bytes → Bool
user_auth user pass = equal user (codes "qwq") && equal pass (codes "quq")
