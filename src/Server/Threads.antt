-- ===== src/Server/Threads.antt =====
-- The two threads of a session, a shared access at a time: the commands of server/client_cmds.c with
-- client_close_threads of server/client.c, and active_data, passive_data and cleanup of
-- server/client_xfer_thr.h; Server/Transfer has what process_block does. A block of crit() is one
-- step, since nothing in it waits but pthread_cond_wait(). The user has logged in, and
-- pthread_create() succeeds.
pub mod Close
pub mod Ending
pub mod Invariant
pub mod Join
pub mod Lost
pub mod Refines
pub mod Schedule
pub mod Streams
mod Tests
pub mod Wedged
use zz_ftp.Prelude.{
  ℕ, zero, suc, Bool, true, false, not, ◌&&◌, ◌||◌, Option, none, some, List, [], ◌∷◌, ◌++◌, ◌==◌,
  ◌≡◌, if◌then◌else◌,
}
use zz_ftp.Server.Client.{ClientState, ready, port_mode, pasv_mode, DatType, is_some}
use zz_ftp.Server.Transfer.{is_sending}
use zz_ftp.Server.Transfer.Passive.{Accepted, connection, not_now, fails}

-- The fields of the record that both threads use, and the codes of the marks that were sent.
pub record Shared : Type 0 where
  pub running : Bool
  pub dat_fp : Option ℕ
  pub dat_type : DatType
  pub state : ClientState
  pub marks : List ℕ

-- What the system and the user give in one step: whether calls succeed, what accept() gives, the
-- stream that is opened, what process_block returns, whether the peer has closed, and the code of
-- the mark where a handler has no stream to open (501 or 550). `returns`: whether connect() or
-- process_block, where the data thread is in one, comes back by now. process_block need not:
-- write_all tries again for as long as write() gives EAGAIN, and on an accepted connection read() and
-- write() may wait.
pub record Env : Type 0 where
  pub ok : Bool
  pub accepted : Accepted
  pub file : ℕ
  pub status : ℕ
  pub hung_up : Bool
  pub refusal : ℕ
  pub returns : Bool

-- Where the data thread stands, with its variables. `dead`: the program has ended, by panic() or by
-- the use of a NULL stream.
pub data DataPc : Type 0 where
  active_start active_wait active_woken : DataPc
  active_connect active_test active_block : Option ℕ → DatType → DataPc
  passive_test : Bool → Option ℕ → DatType → DataPc
  passive_accept : Option ℕ → DatType → DataPc
  passive_take : DataPc
  passive_poll : DatType → DataPc
  passive_block : ℕ → DatType → DataPc
  closing : Option ℕ → DatType → ℕ → DataPc
  clear_file set_ready final_mark : ℕ → DataPc
  finished dead : DataPc

abbrev pub send : ℕ → Shared → Shared
send code m = record m { marks = m.marks ++ code ∷ [] }

-- if (fp == NULL) ... if (fp != NULL) ...
abbrev pub with_file : Option ℕ → DatType → DataPc
with_file none ty = passive_take
with_file (some f) ty = passive_block f ty

abbrev pub behind_block : ℕ → DataPc → Option ℕ → DatType → DataPc
behind_block zero again fp ty = again
behind_block (suc k) again fp ty = closing fp ty (suc k)

abbrev pub accepts : Accepted → Option ℕ → DatType → DataPc
accepts connection fp ty = with_file fp ty
accepts not_now fp ty = passive_test false fp ty
accepts fails fp ty = dead

abbrev pub connected_or : Bool → Option ℕ → DatType → DataPc
connected_or true fp ty = with_file fp ty
connected_or false fp ty = passive_accept fp ty

abbrev pub taken : Option ℕ → DatType → DataPc
taken none ty = passive_poll ty
taken (some f) ty = passive_block f ty

abbrev pub status_mark : ℕ → Shared → Shared
status_mark st m = if st == 1 then send 226 m else if st == 2 then send 451 m else m

-- process_block with no stream: the receiving branch does not use it where read() gives nothing more,
-- and goes on to ferror(fp) where it gives EAGAIN, or fwrite() where it gives bytes.
unfoldable pub null_block : Env → DatType → DataPc
null_block e ty = if not (is_sending ty) && e.status == 1 then closing none ty 1 else dead

-- What follows a call that is over, or `none`: the thread is still in it.
abbrev pub if_returns {ℓ} : {A : Type ℓ} → Bool → A → Option A
if_returns true x = some x
if_returns false x = none

-- One step of the data thread; `none`: it cannot move by itself, or is still in a call.
unfoldable pub data_step : Env → Shared → DataPc → Option (Shared × DataPc)
unfolding null_block
data_step e m active_start = some (m, active_wait)
data_step e m active_wait = none
data_step e m active_woken = some (m, active_connect m.dat_fp m.dat_type)
data_step e m (active_connect fp ty) =
    if_returns e.returns (if e.ok then (m, active_test fp ty) else (send 425 m, closing fp ty 0))
data_step e m (active_test fp ty) =
    some (m, if m.running then active_block fp ty else closing fp ty 0)
data_step e m (active_block none ty) = if_returns e.returns (m, null_block e ty)
data_step e m (active_block (some f) ty) =
    if_returns e.returns (m, behind_block e.status (active_test (some f) ty) (some f) ty)
data_step e m (passive_test conn fp ty) =
    some (m, if m.running then connected_or conn fp ty else closing fp ty 0)
data_step e m (passive_accept fp ty) = some (m, accepts e.accepted fp ty)
data_step e m passive_take = some (m, taken m.dat_fp m.dat_type)
data_step e m (passive_poll ty) =
    some (m, if e.hung_up then passive_test false none ty else passive_test true none ty)
data_step e m (passive_block f ty) =
    if_returns e.returns (m, behind_block e.status (passive_test true (some f) ty) (some f) ty)
data_step e m (closing fp ty st) = some (m, clear_file st)
data_step e m (clear_file st) = some (record m { dat_fp = none }, set_ready st)
data_step e m (set_ready st) = some (record m { state = ready }, final_mark st)
data_step e m (final_mark st) = some (status_mark st m, finished)
data_step e m finished = none
data_step e m dead = none

-- The commands that have to do with the data thread; a transfer is LIST, RETR or STOR. `hang_up` is
-- the end of the command loop, with client_close(), where the client is gone or a command says so.
pub data Cmd : Type 0 where
  port pasv abort quit hang_up : Cmd
  transfer : DatType → Cmd

-- Where the command thread stands.
pub data CmdPc : Type 0 where
  idle : CmdPc
  check close_test stop join rejoined behind set_flag create entered : Cmd → CmdPc
  data_test open_file : DatType → CmdPc
  signal : ℕ → DatType → CmdPc
  gone : CmdPc

abbrev pub begin : Cmd → Shared → Shared × CmdPc
begin quit m = (m, close_test quit)
begin hang_up m = (send 221 m, close_test hang_up)
begin c m = (m, check c)

-- ignore_if_xfer(), and the test of ABOR.
abbrev pub passes : Cmd → Bool → Shared → Shared × CmdPc
passes abort true m = (m, close_test abort)
passes c true m = (send 503 m, idle)
passes abort false m = (send 225 m, idle)
passes (transfer ty) false m = (m, data_test ty)
passes c false m = (m, close_test c)

-- The rest of a handler behind client_close_threads().
abbrev pub carry_on : Cmd → Env → Shared → Shared × CmdPc
carry_on port e m = if e.ok then (m, set_flag port) else (send 501 m, idle)
carry_on pasv e m =
    if e.ok
    then (record m { state = pasv_mode }, set_flag pasv)
    else (send 221 (send 421 m), close_test hang_up)
carry_on abort e m = (send 226 m, idle)
carry_on quit e m = (send 221 m, close_test hang_up)
carry_on hang_up e m = (m, gone)
carry_on (transfer ty) e m = (m, idle)

abbrev pub has_mode : ClientState → Bool
has_mode port_mode = true
has_mode pasv_mode = true
has_mode _ = false

abbrev pub entering : Cmd → Shared → Shared
entering port m = send 200 (record m { state = port_mode })
entering c m = send 227 m

-- `thread` is the data thread that was created and not yet joined.
pub record World : Type 0 where
  pub mem : Shared
  pub cmd : CmdPc
  pub thread : Option DataPc

abbrev pub moved : World → Shared × CmdPc → World
moved u (m, c) = record u { mem = m; cmd = c }

abbrev pub first_pc : Cmd → DataPc
first_pc pasv = passive_test false none DatType.undefined
first_pc c = active_start

-- pthread_cond_signal()
abbrev pub woken : Option DataPc → Option DataPc
woken (some active_wait) = some active_woken
woken thread = thread

-- pthread_join() returns when the thread has ended.
abbrev pub joins : Cmd → Option DataPc → World → Option World
joins c (some finished) u = some (record u { cmd = rejoined c; thread = none })
joins c _ u = none

-- One step of the command thread, with the command that comes next where it waits for one.
unfoldable pub cmd_step : Cmd → Env → CmdPc → World → Option World
cmd_step next e idle u = some (moved u (begin next u.mem))
cmd_step next e (check c) u = some (moved u (passes c (is_some u.mem.dat_fp) u.mem))
cmd_step next e (close_test c) u =
    some (record u { cmd = if u.mem.running then stop c else behind c })
cmd_step next e (stop c) u =
    some (record u { mem = record u.mem { running = false }; cmd = join c })
cmd_step next e (join c) u = joins c u.thread u
cmd_step next e (rejoined c) u =
    some (record u { mem = record u.mem { state = ready }; cmd = behind c })
cmd_step next e (behind c) u = some (moved u (carry_on c e u.mem))
cmd_step next e (set_flag c) u =
    some (record u { mem = record u.mem { running = true }; cmd = create c })
cmd_step next e (create c) u = some (record u { cmd = entered c; thread = some (first_pc c) })
cmd_step next e (entered c) u = some (record u { mem = entering c u.mem; cmd = idle })
cmd_step next e (data_test ty) u = some (
    if has_mode u.mem.state
    then record u { cmd = open_file ty }
    else record u { mem = send 425 u.mem; cmd = idle })
cmd_step next e (open_file ty) u = some (
    if e.ok
    then record u { mem = send 150 u.mem; cmd = signal e.file ty }
    else record u { mem = send e.refusal u.mem; cmd = idle })
cmd_step next e (signal f ty) u = some (record u {
  mem = record u.mem { dat_fp = some f; dat_type = ty };
  cmd = idle;
  thread = woken u.thread;
})
cmd_step next e gone u = none

abbrev pub thread_moved : World → Option (Shared × DataPc) → Option World
thread_moved u none = none
thread_moved u (some (m, p)) = some (record u { mem = m; thread = some p })

unfoldable pub thread_step : Env → Option DataPc → World → Option World
unfolding data_step
thread_step e none u = none
thread_step e (some p) u = thread_moved u (data_step e u.mem p)

-- pthread_cond_wait() may return with no signal.
abbrev pub wakes_up : Option DataPc → World → Option World
wakes_up (some active_wait) u = some (record u { thread = some active_woken })
wakes_up _ u = none

-- Who moves next.
pub data Pick : Type 0 where
  command : Cmd → Env → Pick
  data_thread : Env → Pick
  spurious : Pick

unfoldable pub step : Pick → World → Option World
unfolding cmd_step thread_step
step (command next e) u = cmd_step next e u.cmd u
step (data_thread e) u = thread_step e u.thread u
step spurious u = wakes_up u.thread u

-- A session in which the user has logged in.
abbrev pub fresh : World
fresh = record {
  mem = record {
    running = false;
    dat_fp = none;
    dat_type = DatType.undefined;
    state = ready;
    marks = [];
  };
  cmd = idle;
  thread = none;
}

abbrev pub not_spurious : Pick → Bool
not_spurious spurious = false
not_spurious _ = true

-- The worlds that follow by steps of either thread, in any order; a wait ends without a signal only
-- where `wakes` allows it.
pub data Reach (wakes : Bool) (u : World) : World → Type 0 where
  here : Reach wakes u u
  next :
      {v x : World}
      → Reach wakes u v
      → (k : Pick) → (wakes || not_spurious k) ≡ true
      → step k v ≡ some x
      → Reach wakes u x
