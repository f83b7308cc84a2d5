-- ===== src/Server/Handlers/Transfers.antt =====
-- PORT, PASV, LIST, REST, RETR, STOR and ABOR of server/client_cmds.c.
use zz_ftp.Prelude.{
  ℕ, ◌+◌, ◌*◌, Bool, true, false, not, ◌||◌, Option, none, some, List, [], ◌∷◌, ◌++◌, leb,
  if◌then◌else◌, Bytes, codes,
}
use zz_ftp.Text.{show, show_signed, scan_fields, scan_i64, show_fields}
use zz_ftp.Server.Path.{regular, path_exists, relative}
use zz_ftp.Server.Client.{
  port_mode, pasv_mode, DatType, send_file, recv_file, send_pipe, client_xfer_in_progress,
}
use zz_ftp.Server.System.{
  System, Ctl, Outcome, set_client, call, starts_active, starts_passive, signals_data, calls_popen,
  calls_fopen, calls_truncate, calls_fseek, reply_done, replyf_done, mark, returned, done,
  ignore_if_xfer, auth, data_mode, disconnect, disconnect_if, refuse_if, refusef_if, if_null,
  Ephemeral, full_path, checked, ephemeral, bound,
}
use zz_ftp.Server.Thread.{client_close_threads, after_close}

unfoldable pub is_byte_list : List ℕ → Bool
is_byte_list [] = true
is_byte_list (x ∷ xs) = if leb 256 x then false else is_byte_list xs

-- Behind the test of the address: scan_fields 5 gives six numbers.
unfoldable pub start_port : System → Ctl → List ℕ → Outcome
start_port sys s (a ∷ b ∷ c ∷ d ∷ hi ∷ lo ∷ []) =
    let s1 = call starts_active (set_client (record s.client { thr_dat_running = true }) s) in
    disconnect_if (not sys.thread_starts) (codes "Cannot enter port mode: pthread_create() failed.")
      s1
      (let port = hi * 256 + lo in
        replyf_done 200
          (codes "Will connect to "
            ++ show a
            ++ codes "."
            ++ show b
            ++ codes "."
            ++ show c
            ++ codes "."
            ++ show d
            ++ codes ":"
            ++ show port
            ++ codes "\n")
          (set_client
            (record s1.client { state = port_mode; addr = a ∷ b ∷ c ∷ d ∷ []; port = port }) s1))
start_port sys s _ = reply_done 501 (codes "Incorrect address format.") s

unfoldable pub parse_port : System → Ctl → Option (List ℕ) → Outcome
parse_port sys s none = reply_done 501 (codes "Incorrect address format.") s
parse_port sys s (some x) =
    refuse_if (not (is_byte_list x)) 501 (codes "Incorrect address format.") s (start_port sys s x)

unfoldable pub handler_port : System → Ctl → Bytes → Outcome
handler_port sys s arg =
    ignore_if_xfer s (
      auth s (after_close (client_close_threads sys s) λ s1. parse_port sys s1 (scan_fields 5 arg)))

unfoldable pub start_pasv : System → Ctl → Ephemeral → Outcome
start_pasv sys s (bound fd ip hi lo) =
    disconnect_if (not sys.set_nonblock || not sys.listen)
      (codes "Cannot enter passive mode: cannot start data connection.") s
      (let c1 = record s.client { state = pasv_mode; thr_dat_running = true } in
        let s1 = call starts_passive (set_client c1 s) in
        disconnect_if (not sys.thread_starts)
          (codes "Cannot enter passive mode: pthread_create() failed.") s1
          (replyf_done 227
            (codes "Entering Passive Mode ("
              ++ (show_fields ip.a (ip.b ∷ ip.c ∷ ip.d ∷ hi ∷ lo ∷ []) ++ codes ")"))
            s1))
start_pasv sys s _ = disconnect (codes "Cannot enter passive mode: cannot start data connection.") s

unfoldable pub handler_pasv : System → Ctl → Bytes → Outcome
handler_pasv sys s arg =
    ignore_if_xfer s
      (auth s (after_close (client_close_threads sys s) λ s1. start_pasv sys s1 (ephemeral sys)))

-- #define signal_file(_ty)
unfoldable pub signal_file : DatType → ℕ → Ctl → Ctl
signal_file ty f s =
    call signals_data (set_client (record s.client { dat_fp = some f; dat_type = ty }) s)

unfoldable pub handler_list : System → Ctl → Bytes → Outcome
handler_list sys s arg = ignore_if_xfer s (
    auth s (
      data_mode s (
        let cmd = codes "ls -lH " ++ relative s.client.wd in
        let s1 = call (calls_popen cmd) s in
        if_null (sys.popen cmd) (reply_done 550 (codes "Internal error. Cannot list.") s1) λ f.
          returned
            (signal_file send_pipe f
              (mark 150 (codes "Directory listing is being sent over the data connection.") s1))
            done)))

unfoldable pub set_rest : Ctl → Option (ℕ × Bytes) → Outcome
set_rest s none = reply_done 501 (codes "Invalid mark. Expected an integer.") s
set_rest s (some (offs, _)) =
    replyf_done 350 (codes "Restart position accepted (" ++ show_signed offs ++ codes ").")
      (set_client (record s.client { rest_offs = offs }) s)

unfoldable pub handler_rest : System → Ctl → Bytes → Outcome
handler_rest sys s arg = ignore_if_xfer s (auth s (set_rest s (scan_i64 arg)))

unfoldable pub handler_retr : System → Ctl → Bytes → Outcome
handler_retr sys s arg = ignore_if_xfer s (
    auth s (
      data_mode s (
        full_path s arg λ d.
          let s1 = checked d s in
          refusef_if (not (path_exists sys.lstat d regular)) 550
            (codes "File \"" ++ d ++ codes "\" does not exist.") s1
            (let s2 = call (calls_fopen (relative d) (codes "r")) s1 in
              if_null (sys.fopen (relative d) (codes "r"))
                (reply_done 550 (codes "Internal error. Cannot retrieve file.") s2)
                λ f.
                  let s3 = call (calls_fseek s2.client.rest_offs) s2 in
                  let s4 = set_client (record s3.client { rest_offs = 0 }) s3 in
                  returned
                    (signal_file send_file f (
                      mark 150 (codes "File contents are being sent over the data connection.") s4))
                    done))))

unfoldable pub handler_stor : System → Ctl → Bytes → Outcome
handler_stor sys s arg = ignore_if_xfer s (
    auth s (
      data_mode s (
        full_path s arg λ d.
          let s1 = call (calls_truncate (relative d) s.client.rest_offs) s in
          let s2 = set_client (record s1.client { rest_offs = 0 }) s1 in
          let s3 = call (calls_fopen (relative d) (codes "a")) s2 in
          if_null (sys.fopen (relative d) (codes "a"))
            (reply_done 550 (codes "Cannot write to file.") s3)
            λ f.
              returned
                (signal_file recv_file f
                  (mark 150 (codes "Send file contents over the data connection.") s3))
                done)))

unfoldable pub abort_msg : DatType → Bytes
abort_msg recv_file = codes "Transfer aborted. Partial data written."
abort_msg _ = codes "Transfer aborted."

-- if (client_xfer_in_progress(c)) { ... } else { ... }
unfoldable pub abort_if : Bool → System → Ctl → Outcome
abort_if true sys s =
    after_close (client_close_threads sys s) (reply_done 226 (abort_msg s.client.dat_type))
abort_if false sys s = reply_done 225 (codes "No transfer in progress.") s

unfoldable pub handler_abor : System → Ctl → Bytes → Outcome
handler_abor sys s arg = abort_if (client_xfer_in_progress s.client) sys s
