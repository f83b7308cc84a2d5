-- ===== src/Server/System.antt =====
-- What the system calls of one command answer, and what the command does: the state that the
-- handlers of server/client_cmds.c pass on, and the macros that they are written with.
pub mod Ends
use zz_ftp.Prelude.{
  ℕ, ◌+◌, Bool, true, false, not, ◌||◌, Option, none, some, List, [], ◌∷◌, ◌++◌, ltb, if◌then◌else◌,
  Bytes, codes, equal, ◌/◌, ◌%◌,
}
use zz_ftp.Text.{truncate_to}
use zz_ftp.Server.Path.{
  PathResult, null, path, fault, PathRequirement, FileKind, path_cat, path_exists, relative,
}
use zz_ftp.Server.Client.{
  Client, ready, port_mode, pasv_mode, ClientState, state_value, client_xfer_in_progress,
}

-- How pthread_join() on the data thread comes out: the thread had returned before; it stops and
-- does its cleanup with the status `st`; it cannot connect, says so and does its cleanup; or it
-- does not return.
pub data ThreadEnd : Type 0 where
  over : ThreadEnd
  ends : ℕ → ThreadEnd
  refused : Bytes → ThreadEnd
  never : ThreadEnd

-- The four bytes of an IPv4 address.
pub record Ip : Type 0 where
  pub a : ℕ
  pub b : ℕ
  pub c : ℕ
  pub d : ℕ

-- The answers of the system during one command. A call that returns 0 or an error has `none` for
-- success and `some` text of strerror(errno) for an error; a call that opens has `some` handle.
pub record System : Type 0 where
  pub lstat : Bytes → Option FileKind
  pub mkdir : Bytes → Option Bytes
  pub rmdir : Bytes → Option Bytes
  pub rename : Bytes → Bytes → Option Bytes
  pub unlink : Bytes → Option Bytes
  pub popen : Bytes → Option ℕ
  pub fopen : Bytes → Bytes → Option ℕ
  pub socket : Option ℕ
  pub bind : Bool
  pub local_port : ℕ
  pub local_addr : Ip
  pub set_nonblock : Bool
  pub listen : Bool
  pub thread_starts : Bool
  pub join : ThreadEnd

-- The calls that reach the file system or start something, with the path that they are given.
pub data Call : Type 0 where
  calls_lstat calls_mkdir calls_rmdir calls_unlink : Bytes → Call
  calls_rename : Bytes → Bytes → Call
  calls_popen : Bytes → Call
  calls_fopen : Bytes → Bytes → Call
  calls_truncate : Bytes → ℕ → Call
  calls_fseek : ℕ → Call
  starts_active starts_passive signals_data : Call

pub record Reply : Type 0 where
  pub code : ℕ
  pub msg : Bytes

-- The connection, the replies sent and the calls made, in order.
pub record Ctl : Type 0 where
  pub client : Client
  pub replies : List Reply
  pub calls : List Call

pub data CmdResult : Type 0 where
  done shutdown : CmdResult

-- `hangs`: a join that never returns. `faults`: an access out of bounds or through NULL.
pub data Outcome : Type 0 where
  returned : Ctl → CmdResult → Outcome
  hangs : Outcome
  faults : Outcome

abbrev pub always {ℓ} : {A : Type ℓ} → A → Bool
always _ = true

-- #define mark(_code, _str)
abbrev pub mark : ℕ → Bytes → Ctl → Ctl
mark code msg s = record s { replies = s.replies ++ record { code = code; msg = msg } ∷ [] }

-- #define markf(_code, ...), on the formatted text
abbrev pub markf : ℕ → Bytes → Ctl → Ctl
markf code text s = mark code (truncate_to 256 text) s

abbrev pub call : Call → Ctl → Ctl
call k s = record s { calls = s.calls ++ k ∷ [] }

abbrev pub set_client : Client → Ctl → Ctl
set_client c s = record s { client = c }

abbrev pub reply_done : ℕ → Bytes → Ctl → Outcome
reply_done code msg s = returned (mark code msg s) done

abbrev pub replyf_done : ℕ → Bytes → Ctl → Outcome
replyf_done code text s = returned (markf code text s) done

-- A guard of a handler: if (test) { mark(code, msg); return CMD_RESULT_DONE; }
unfoldable pub refuse_if : Bool → ℕ → Bytes → Ctl → Outcome → Outcome
refuse_if test code msg s rest = if test then reply_done code msg s else rest

-- The same with markf.
unfoldable pub refusef_if : Bool → ℕ → Bytes → Ctl → Outcome → Outcome
refusef_if test code text s rest = if test then replyf_done code text s else rest

-- if (call(...) != 0), for a call that sets errno.
unfoldable pub if_fails : Option Bytes → (Bytes → Outcome) → Outcome → Outcome
if_fails (some e) failed rest = failed e
if_fails none failed rest = rest

-- if (f == NULL), for a call that opens a stream.
unfoldable pub if_null : Option ℕ → Outcome → (ℕ → Outcome) → Outcome
if_null none failed rest = failed
if_null (some f) failed rest = rest f

-- #define ignore_if_xfer()
unfoldable pub ignore_if_xfer : Ctl → Outcome → Outcome
ignore_if_xfer s rest =
    refuse_if (client_xfer_in_progress s.client) 503 (codes "Data transfer in progress, ignored.") s
      rest

-- #define auth()
unfoldable pub auth : Ctl → Outcome → Outcome
auth s rest =
    refuse_if (ltb (state_value s.client.state) (state_value ready)) 530 (codes "Log in first.") s
      rest

-- c->state == CLST_PORT || c->state == CLST_PASV
unfoldable pub has_data_mode : ClientState → Bool
has_data_mode port_mode = true
has_data_mode pasv_mode = true
has_data_mode _ = false

-- #define data()
unfoldable pub data_mode : Ctl → Outcome → Outcome
data_mode s rest =
    refuse_if (not (has_data_mode s.client.state)) 425 (codes "Use PORT or PASV first.") s rest

-- #define disconnect(_str)
unfoldable pub disconnect : Bytes → Ctl → Outcome
disconnect msg s = returned (mark 421 (msg ++ codes " Shutting down connection.") s) shutdown

unfoldable pub disconnect_if : Bool → Bytes → Ctl → Outcome → Outcome
disconnect_if test msg s rest = if test then disconnect msg s else rest

-- #define full_path(_d), on what path_cat returned
unfoldable pub with_path : PathResult → Ctl → (Bytes → Outcome) → Outcome
with_path null s rest = reply_done 501 (codes "Argument is not a valid path.") s
with_path fault s rest = faults
with_path (path d) s rest = rest d

-- Allocation succeeds, as it is taken to do wherever the handlers allocate.
unfoldable pub full_path : Ctl → Bytes → (Bytes → Outcome) → Outcome
unfolding with_path
full_path s arg rest = with_path (path_cat always s.client.wd arg) s rest

-- path_exists with the call of lstat() that it makes; none is made for the root.
unfoldable pub lookups : Bytes → List Call
lookups [] = []
lookups (c ∷ p) = calls_lstat (c ∷ p) ∷ []

unfoldable pub checked : Bytes → Ctl → Ctl
unfolding lookups
checked d s = record s { calls = s.calls ++ lookups (relative d) }

-- #define mark_dir(_msg, _cmp, ...): `text` is the formatted _msg, `d` the local variable.
unfoldable pub changed_up : PathResult → Bytes → Ctl → Outcome
changed_up null text s = faults
changed_up fault text s = faults
changed_up (path up) text s =
    replyf_done 250 (text ++ codes " Working directory changed to \"" ++ up ++ codes "\".")
      (set_client (record s.client { wd = up }) s)

unfoldable pub mark_dir : Bytes → Bytes → Bytes → Ctl → Outcome
unfolding changed_up
mark_dir text cmp d s =
    if equal s.client.wd cmp
    then changed_up (path_cat always d (b'.' ∷ b'.' ∷ [])) text s
    else replyf_done 250 text s

-- sock_ephemeral() and ephemeral() of server/io_utils.c: the socket, the four bytes
-- of the address and the two of the port, in network order, or the negative result.
pub data Ephemeral : Type 0 where
  bound : ℕ → Ip → ℕ → ℕ → Ephemeral
  no_socket not_bound : Ephemeral

unfoldable pub ephemeral : System → Ephemeral
ephemeral sys = elim sys.socket [
  | none ↦ no_socket
  | some fd ↦
      if sys.bind
      then bound fd sys.local_addr (sys.local_port / 256 % 256) (sys.local_port % 256)
      else not_bound
]
