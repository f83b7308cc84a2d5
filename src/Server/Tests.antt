-- ===== src/Server/Tests.antt =====
-- The theorems about commands and sessions at concrete inputs.
use zz_ftp.Prelude.{
  ℕ, zero, suc, ◌≢◌, equal, ◌≡◌, ◌⊎◌, refl, arith, true, false, none, some, [], ◌∷◌, ◌++◌, Bytes,
  codes, equal,
}
use zz_ftp.Text.{show}
use zz_ftp.Io.Rlb.{received, weight, weight_of, rlb_init}
use zz_ftp.Gui.Address.{pasv_address}
use zz_ftp.Server.Path.{
  is_here, is_up, path, path_cat, path_exists, relative, is_reg, any, regular, is_path_char,
  is_absolute, walk_items, walk, terminate, process_item, append_item, start_buffer, push_all,
  exists_relative, meets,
}
use zz_ftp.Server.Path.Resolve.{stays, leaves, render, is_name, IsName, render_names}
use zz_ftp.Server.Client.{
  ready, port_mode, pasv_mode, undefined, send_file, state_value, client_create,
  client_xfer_in_progress,
}
use zz_ftp.Server.System.{
  over, ends, System, Ctl, always, done, returned, reply_done, mark, markf, call, set_client,
  checked, calls_rename, calls_fopen, calls_fseek, signals_data, starts_active, starts_passive,
  has_data_mode, Ip,
}
use zz_ftp.Server.System.Ends.{Ends}
use zz_ftp.Server.Thread.{client_close_threads}
use zz_ftp.Server.Handlers.Files.{handler_rnfr, handler_rnto}
use zz_ftp.Server.Handlers.Transfers.{handler_port, handler_pasv, handler_rest, handler_retr}
use zz_ftp.Server.Commands.{retr, handle, process_command}
use zz_ftp.Server.Commands.Sound.{IsSound}
use zz_ftp.Server.Commands.Ranges.{Keeps}
use zz_ftp.Server.Commands.Typed.{process_command-Keeps}
use zz_ftp.Server.Commands.Safety.{process_command-IsSound}
use zz_ftp.Server.Commands.Access.{is_open, IsLoggedOut, IsGuarded, handle-IsGuarded}
use zz_ftp.Gui.Listing.{quoted, fault, quoted_dir}
use zz_ftp.Server.Handlers.Files.{handler_pwd}
use zz_ftp.Server.Commands.Directory.{absent, pwd_exchange, pwd_overlong}
use zz_ftp.Server.Commands.Busy.{handle_busy}
use zz_ftp.Server.Commands.Renaming.{
  IsFree, rename_sequence, reply_250, renaming_text, renamed_text,
}
use zz_ftp.Server.Commands.Restart.{IsPrepared, restart_sequence}
use zz_ftp.Server.Commands.Addresses.{
  AreBytes, IsIp, dotted, fields, handler_port-fields, pasv_exchange,
}
use zz_ftp.Server.Loop.{serve_client, exhausted}
use zz_ftp.Server.Loop.Total.{serve_client-ne-exhausted}
use zz_ftp.Server.Loop.Safety.{EndsSound, serve_client-EndsSound}

-- A system in which every path is a regular file and every call succeeds.
abbrev sys : System
sys = record {
  lstat = λ _. some is_reg;
  mkdir = λ _. none;
  rmdir = λ _. none;
  rename = λ _ _. none;
  unlink = λ _. none;
  popen = λ _. some 7;
  fopen = λ _ _. some 8;
  socket = some 9;
  bind = true;
  local_port = 2113;
  local_addr = record { a = 127; b = 0; c = 0; d = 1 };
  set_nonblock = true;
  listen = true;
  thread_starts = true;
  join = ends 1;
}

-- A connection behind accept().
abbrev fresh : Ctl
fresh = record { client = client_create 4 [] 0 undefined; replies = []; calls = [] }

-- One that has logged in and changed to /quq.
abbrev at_quq : Ctl
at_quq =
    set_client
      (record (client_create 4 [] 0 undefined) {
        state = ready;
        wd = codes "/quq";
        username = some (codes "qwq");
      })
      fresh

IsName-quq : IsName (codes "quq")
unfolding is_name is_path_char codes stays leaves equal
IsName-quq = record { chars = refl; not_here = refl; not_up = refl }

at_quq-IsSound : IsSound at_quq
unfolding client_create render codes render_names
at_quq-IsSound = record {
  wd = record { dirs = codes "quq" ∷ []; names = (IsName-quq, tt); text = refl };
  rnfr = tt;
  calls = tt;
}

at_quq-IsFree : IsFree at_quq.client
unfolding client_create client_xfer_in_progress state_value
at_quq-IsFree = record { no_file = refl; in_session = refl }

fresh-IsLoggedOut : IsLoggedOut fresh.client
unfolding client_create state_value
fresh-IsLoggedOut = record { low = omega arith; idle = refl; no_file = refl }

names_a : path_cat always (codes "/quq") (codes "a") ≡ path (codes "/quq/a")
unfolding path_cat is_absolute codes walk_items walk is_path_char terminate process_item is_here
    is_up append_item start_buffer push_all
names_a = refl

names_b : path_cat always (codes "/quq") (codes "/b") ≡ path (codes "/b")
unfolding path_cat is_absolute codes walk_items walk process_item is_here is_path_char terminate
    is_up append_item start_buffer push_all
names_b = refl

process_command-IsSound_example :
    Ends IsSound (process_command sys at_quq (codes "RMD") (codes "../quq"))
process_command-IsSound_example =
    process_command-IsSound sys at_quq (codes "RMD") (codes "../quq") at_quq-IsSound

process_command-Keeps_example :
    Keeps (process_command sys at_quq (codes "PORT") (codes "127,0,0,1,8,63"))
unfolding client_create
process_command-Keeps_example =
    process_command-Keeps sys at_quq (codes "PORT") (codes "127,0,0,1,8,63")
      (omega arith, (tt, omega arith))

serve_client-EndsSound_example : EndsSound (
    serve_client 9
      (λ _. record { thread = over; system = sys })
      sys
      4
      (received (codes "USER qwq\r\nPASS quq\r\nCWD ../..\r\nQUIT\r\n") ∷ [])
      []
      0
      undefined)
serve_client-EndsSound_example =
    serve_client-EndsSound 9 (λ _. record { thread = over; system = sys }) sys 4
      (received (codes "USER qwq\r\nPASS quq\r\nCWD ../..\r\nQUIT\r\n") ∷ []) [] 0 undefined

serve_client-ne-exhausted_example :
    serve_client 9
      (λ _. record { thread = over; system = sys })
      sys
      4
      (received (codes "QUIT\r\n") ∷ [])
      []
      0
      undefined
    ≢ exhausted
serve_client-ne-exhausted_example =
    serve_client-ne-exhausted 9 (λ _. record { thread = over; system = sys }) sys 4
      (received (codes "QUIT\r\n") ∷ []) [] 0 undefined
      (unfold weight weight_of rlb_init codes in omega arith)

handle-IsGuarded_example :
    Ends (IsGuarded fresh retr (codes "a")) (handle retr sys fresh (codes "a"))
    × ((is_open retr ≡ true)
        ⊎ (handle retr sys fresh (codes "a") ≡ reply_done 530 (codes "Log in first.") fresh))
handle-IsGuarded_example = handle-IsGuarded sys fresh (codes "a") retr fresh-IsLoggedOut

-- A transfer is under way.
abbrev sending : Ctl
sending = set_client (record at_quq.client { state = port_mode; dat_fp = some 8 }) at_quq

handle_busy_example :
    handle retr sys sending (codes "a")
    ≡ reply_done 503 (codes "Data transfer in progress, ignored.") sending
handle_busy_example =
    handle_busy sys sending (codes "a") retr (unfold client_xfer_in_progress in refl) (λ e. cc)
      (λ e. cc) (λ e. cc)

a_exists : path_exists sys.lstat (codes "/quq/a") any ≡ true
unfolding path_exists exists_relative relative codes meets
a_exists = refl

a_is_file : path_exists sys.lstat (codes "/quq/a") regular ≡ true
unfolding path_exists exists_relative relative codes meets
a_is_file = refl

differs : equal (codes "/quq") (codes "/quq/a") ≡ false
unfolding equal codes
differs = refl

rename_sequence_example :
    (s1 s2 : Ctl) × (handler_rnfr sys at_quq (codes "a") ≡ returned s1 done)
    × (handler_rnto sys s1 (codes "/b") ≡ returned s2 done)
    × (s2.calls
        ≡ (checked (codes "/quq/a") at_quq).calls
          ++ calls_rename (relative (codes "/quq/a")) (relative (codes "/b")) ∷ [])
    × (s2.client ≡ record at_quq.client { rnfr = none })
    × (s1.replies ≡ at_quq.replies ++ reply_250 (renaming_text (codes "/quq/a")) ∷ [])
    × (s2.replies
        ≡ at_quq.replies
          ++ reply_250 (renaming_text (codes "/quq/a"))
            ∷ reply_250 (renamed_text (codes "/quq/a") (codes "/b"))
            ∷ [])
rename_sequence_example =
    rename_sequence sys at_quq (codes "a") (codes "/b") (codes "/quq/a") (codes "/b") at_quq-IsFree
      names_a names_b (unfold codes in refl) (unfold codes in refl) a_exists refl differs

-- PORT has been used.
abbrev in_port_mode : Ctl
in_port_mode = set_client (record at_quq.client { state = port_mode }) at_quq

in_port_mode-IsPrepared : IsPrepared in_port_mode.client
unfolding client_create client_xfer_in_progress state_value has_data_mode
in_port_mode-IsPrepared = record {
  free = record { no_file = refl; in_session = refl };
  mode = refl;
}

restart_sequence_example :
    (s1 s2 : Ctl) × (handler_rest sys in_port_mode (show 100) ≡ returned s1 done)
    × (s1.client ≡ record in_port_mode.client { rest_offs = 100 })
    × (handler_retr sys s1 (codes "a") ≡ returned s2 done)
    × (s2.calls
        ≡ (checked (codes "/quq/a") in_port_mode).calls
          ++ calls_fopen (relative (codes "/quq/a")) (codes "r") ∷ []
          ++ calls_fseek 100 ∷ []
          ++ signals_data ∷ [])
    × (s2.client
        ≡ record in_port_mode.client { rest_offs = 0; dat_fp = some 8; dat_type = send_file })
restart_sequence_example =
    restart_sequence sys in_port_mode 100 (codes "a") (codes "/quq/a") 8 in_port_mode-IsPrepared
      (omega arith) names_a a_is_file refl

-- The address 127.0.0.1.
abbrev ip : Ip
ip = record { a = 127; b = 0; c = 0; d = 1 }

ip-AreBytes : AreBytes ip 8 65
ip-AreBytes = omega arith

ip-IsIp : IsIp ip
ip-IsIp = omega arith

at_quq-closed : client_close_threads sys at_quq ≡ some at_quq
unfolding client_close_threads client_create
at_quq-closed = refl

handler_port-fields_example :
    (msg : Bytes) × (handler_port sys at_quq (fields ip 8 65)
      ≡ returned
          (markf 200 msg (
            call starts_active (
              set_client
                (record at_quq.client {
                  state = port_mode;
                  addr = 127 ∷ 0 ∷ 0 ∷ 1 ∷ [];
                  port = 2113;
                  thr_dat_running = true;
                })
                at_quq)))
          done)
handler_port-fields_example =
    handler_port-fields sys at_quq at_quq ip 8 65 at_quq-IsFree ip-AreBytes at_quq-closed refl

pasv_exchange_example :
    (msg : Bytes) × (handler_pasv sys at_quq (codes "")
      ≡ returned
          (mark 227 msg (
            call starts_passive (
              set_client
                (record at_quq.client { state = pasv_mode; thr_dat_running = true })
                at_quq)))
          done)
    × (pasv_address 227 (msg ++ codes "\n") ≡ some (dotted ip, 2113))
pasv_exchange_example =
    pasv_exchange sys at_quq at_quq (codes "") 9 at_quq-IsFree at_quq-closed refl refl refl refl
      refl ip-IsIp (omega arith)

pwd_exchange_example :
    (msg : Bytes) × ((handler_pwd sys at_quq (codes "") ≡ returned (mark 257 msg at_quq) done)
      × (quoted_dir (msg ++ codes "\n") ≡ quoted (codes "/quq")))
pwd_exchange_example =
    pwd_exchange sys at_quq (codes "") at_quq-IsFree (unfold codes in omega arith)

abbrev repeated : ℕ → Bytes
repeated zero = []
repeated (suc n) = b'a' ∷ repeated n

-- A directory whose name has 240 bytes.
abbrev in_deep : Ctl
in_deep = set_client (record at_quq.client { wd = b'/' ∷ repeated 240 }) at_quq

in_deep-IsFree : IsFree in_deep.client
unfolding client_create client_xfer_in_progress state_value
in_deep-IsFree = record { no_file = refl; in_session = refl }

pwd_overlong_example :
    (msg : Bytes) × ((handler_pwd sys in_deep (codes "") ≡ returned (mark 257 msg in_deep) done)
      × (quoted_dir (msg ++ codes "\n") ≡ fault))
pwd_overlong_example =
    pwd_overlong sys in_deep (codes "") in_deep-IsFree (omega arith) (unfold absent in refl)
