-- ===== src/Server/Threads/Tests.antt =====
-- Schedules of the two threads.
use zz_ftp.Prelude.{
  arith, ℕ, zero, suc, ◌≡◌, ◌≢◌, refl, Bool, true, false, Option, none, some, List, [], ◌∷◌, ◌++◌,
  ap, ◌∙◌,
}
use zz_ftp.Server.Client.{DatType, ready, port_mode, pasv_mode}
use zz_ftp.Server.Transfer.{is_sending}
use zz_ftp.Server.Transfer.Passive.{connection, fails}
use zz_ftp.Server.Threads.{
  Env, DataPc, active_start, active_wait, active_block, clear_file, finished, Cmd, port, pasv,
  abort, quit, transfer, CmdPc, idle, join, World, Pick, command, data_thread, spurious, step,
  fresh, Reach, here,
}
use zz_ftp.Server.System.{System, never, Ctl}
use zz_ftp.Server.Threads.Refines.{Closes, client_close_threads-Closes}
use zz_ftp.Server.Threads.Schedule.{run_picks, run_picks-Reach}
use zz_ftp.Server.Threads.Invariant.{Inv, Reach-Inv}
use zz_ftp.Server.Threads.Streams.{no_null_stream}
use zz_ftp.Server.Threads.Ending.{returning}
use zz_ftp.Server.Threads.Join.{
  Joined, join_returns, in_join, placed, in_join-run_thread, block_keeps,
}
use zz_ftp.Server.Threads.Lost.{IsLost, never_woken}
use zz_ftp.Server.Threads.Wedged.{IsWedged, never_served}

-- Calls succeed; the file is 7, and a block ends the transfer.
abbrev fine : Env
fine = record {
  ok = true;
  accepted = connection;
  file = 7;
  status = 1;
  hung_up = false;
  refusal = 550;
  returns = true;
}

-- The steps of a command that is in order.
abbrev steps_of : ℕ → Cmd → List Pick
steps_of zero c = []
steps_of (suc n) c = command c fine ∷ steps_of n c

abbrev thread_steps : ℕ → List Pick
thread_steps zero = []
thread_steps (suc n) = data_thread fine ∷ thread_steps n

abbrev retr : Cmd
retr = transfer DatType.send_file

abbrev world : Bool → Option ℕ → DatType → List ℕ → CmdPc → Option DataPc → World
world run fp ty marks c t = record {
  mem = record { running = run; dat_fp = fp; dat_type = ty; state = port_mode; marks = marks };
  cmd = c;
  thread = t;
}

abbrev port_open : World
port_open = world true none DatType.undefined (200 ∷ []) idle (some active_start)

port_opens : run_picks (steps_of 7 port) fresh ≡ some port_open
unfolding run_picks step
port_opens = refl

-- PORT and RETR, up to the first block; the world then, and at the end of the transfer.
abbrev to_block : List Pick
to_block = steps_of 7 port ++ thread_steps 1 ++ steps_of 5 retr ++ thread_steps 3

abbrev at_block : World
at_block =
    world true (some 7) DatType.send_file (200 ∷ 150 ∷ []) idle
      (some (active_block (some 7) DatType.send_file))

reaches_block : run_picks to_block fresh ≡ some at_block
unfolding run_picks step
reaches_block = refl

transfers :
    run_picks (thread_steps 5) at_block
    ≡ some (record {
      mem = record {
        running = true;
        dat_fp = none;
        dat_type = DatType.send_file;
        state = ready;
        marks = 200 ∷ 150 ∷ 226 ∷ [];
      };
      cmd = idle;
      thread = some finished;
    })
unfolding run_picks step
transfers = refl

block_follows : Reach false fresh at_block
unfolding run_picks step
block_follows = run_picks-Reach false fresh fresh at_block to_block here refl refl

login_Inv : Inv fresh
login_Inv = record { uses = tt; agrees = refl }

Reach-Inv_example : Inv at_block
Reach-Inv_example = Reach-Inv login_Inv block_follows

no_null_stream_example : at_block.thread ≢ some (active_block none DatType.send_file)
no_null_stream_example = no_null_stream block_follows DatType.send_file

-- ABOR during the transfer, up to pthread_join().
abbrev to_join : List Pick
to_join = to_block ++ steps_of 4 abort

abbrev at_join : World
at_join =
    world false (some 7) DatType.send_file (200 ∷ 150 ∷ []) (join abort)
      (some (active_block (some 7) DatType.send_file))

join_follows : Reach false fresh at_join
unfolding run_picks step
join_follows = run_picks-Reach false fresh fresh at_join to_join here refl refl

join_Inv : Inv at_join
join_Inv = Reach-Inv login_Inv join_follows

-- A peer that takes nothing for a while, and then all that there is.
abbrev late : ℕ → Env
late zero = record fine { returns = false }
late (suc zero) = record fine { returns = false }
late (suc (suc n)) = fine

late_accepted : (i : ℕ) → (late i).accepted ≢ fails
late_accepted zero e = cc
late_accepted (suc zero) e = cc
late_accepted (suc (suc n)) e = cc

join_returns_example : Joined quit fine abort (in_join 10 late 0 at_join)
join_returns_example =
    join_returns 10 quit fine late abort at_join (active_block (some 7) DatType.send_file) refl refl
      join_Inv refl tt late_accepted (unfold returning in omega arith)

-- The same with a peer that takes no more bytes, so that write_all does not return: ABOR is not
-- answered, in any number of steps of the data thread.
abbrev stalled : Env
stalled = record fine { returns = false }

stalls : (k : ℕ) → in_join k (λ i. stalled) 0 at_join ≡ at_join
stalls k =
    in_join-run_thread k (λ i. stalled) 0 at_join at_join.mem
      (active_block (some 7) DatType.send_file)
    ∙ ap (placed at_join)
        (block_keeps k (λ i. stalled) 0 at_join.mem 7 DatType.send_file (λ i. refl))

never_joins : (k : ℕ) → step (command quit fine) (in_join k (λ i. stalled) 0 at_join) ≡ none
unfolding step
never_joins k = rw (stalls k) refl

-- RETR before the data thread waits: the signal is lost, and ABOR is caught in pthread_join().
abbrev to_lost : List Pick
to_lost = steps_of 7 port ++ steps_of 5 retr

abbrev lost : World
lost = world true (some 7) DatType.send_file (200 ∷ 150 ∷ []) idle (some active_start)

abbrev lost_abort : World
lost_abort = world false (some 7) DatType.send_file (200 ∷ 150 ∷ []) (join abort) (some active_wait)

loses : run_picks to_lost fresh ≡ some lost
unfolding run_picks step
loses = refl

abort_follows : Reach false lost lost_abort
unfolding run_picks step
abort_follows =
    run_picks-Reach false lost lost lost_abort (thread_steps 1 ++ steps_of 4 abort) here refl refl

never_woken_example : IsLost lost_abort
never_woken_example =
    never_woken (record { waits_on = refl; gives_none = (refl, refl) }) abort_follows

-- PORT twice.
opens_twice :
    run_picks (steps_of 7 port ++ thread_steps 1 ++ steps_of 4 port) fresh
    ≡ some (world false none DatType.undefined (200 ∷ []) (join port) (some active_wait))
unfolding run_picks step
opens_twice = refl

-- RETR between the two assignments at the end of the data thread of the transfer before.
abbrev to_wedge : List Pick
to_wedge = to_block ++ thread_steps 3 ++ steps_of 5 retr ++ thread_steps 2

abbrev wedge : World
wedge = record {
  mem = record {
    running = true;
    dat_fp = some 7;
    dat_type = DatType.send_file;
    state = ready;
    marks = 200 ∷ 150 ∷ 150 ∷ 226 ∷ [];
  };
  cmd = idle;
  thread = some finished;
}

wedges : run_picks to_wedge fresh ≡ some wedge
unfolding run_picks step
wedges = refl

-- ABOR is answered 226, and PORT 503 also behind it.
abbrev still_wedged : World
still_wedged = record wedge {
  mem = record wedge.mem { running = false; marks = 200 ∷ 150 ∷ 150 ∷ 226 ∷ 226 ∷ 503 ∷ [] };
  thread = none;
}

wedge_follows : Reach false wedge still_wedged
unfolding run_picks step
wedge_follows =
    run_picks-Reach false wedge wedge still_wedged (steps_of 7 abort ++ steps_of 2 port) here refl
      refl

never_served_example : IsWedged still_wedged
never_served_example =
    never_served (record { on_record = refl; past = refl; starts = refl }) wedge_follows

-- A wait that ends without a signal makes the data thread use a NULL stream.
null_stream :
    run_picks (steps_of 7 port ++ thread_steps 1 ++ spurious ∷ thread_steps 3) fresh
    ≡ some (
        world true none DatType.undefined
          (200 ∷ [])
          idle
          (some (active_block none DatType.undefined)))
unfolding run_picks step
null_stream = refl

-- With no type on record it reads: at the end of the connection the stream is not used.
null_stream_ends :
    run_picks (steps_of 7 port ++ thread_steps 1 ++ spurious ∷ thread_steps 5) fresh
    ≡ some (world true none DatType.undefined (200 ∷ []) idle (some (clear_file 1)))
unfolding run_picks step is_sending
null_stream_ends = refl

-- PASV, RETR and ABOR with no connection: the stream is taken off the record and is not closed.
abandons :
    run_picks (steps_of 7 pasv ++ steps_of 5 retr ++ steps_of 4 abort ++ thread_steps 2) fresh
    ≡ some (record {
      mem = record {
        running = false;
        dat_fp = some 7;
        dat_type = DatType.send_file;
        state = pasv_mode;
        marks = 227 ∷ 150 ∷ [];
      };
      cmd = join abort;
      thread = some (clear_file 0);
    })
unfolding run_picks step
abandons = refl

-- The connection record of the sequential model at the first block, and the system's answers.
abbrev at_block_record : Ctl
at_block_record = record {
  client = record {
    sock_ctl = 4;
    state = port_mode;
    username = none;
    xferred_files_bytes = 0;
    xferred_files_num = 0;
    wd = b'/' ∷ [];
    rnfr = none;
    rest_offs = 0;
    addr = [];
    port = 0;
    thr_dat_running = true;
    dat_fp = some 7;
    dat_type = DatType.send_file;
  };
  replies = record { code = 200; msg = [] } ∷ record { code = 150; msg = [] } ∷ [];
  calls = [];
}

abbrev sys : System
sys = record {
  lstat = λ p. none;
  mkdir = λ p. none;
  rmdir = λ p. none;
  rename = λ p q. none;
  unlink = λ p. none;
  popen = λ p. none;
  fopen = λ p m. none;
  socket = none;
  bind = true;
  local_port = 0;
  local_addr = record { a = 127; b = 0; c = 0; d = 1 };
  set_nonblock = true;
  listen = true;
  thread_starts = true;
  join = never;
}

client_close_threads-Closes_example :
    Closes sys at_block_record abort fine
      (λ i. fine)
      abort
      at_block.mem
      (active_block (some 7) DatType.send_file)
client_close_threads-Closes_example =
    client_close_threads-Closes sys at_block_record abort fine (λ i. fine) abort at_block.mem
      (active_block (some 7) DatType.send_file)
      (record { running = refl; dat_fp = refl; dat_type = refl; state = refl; marks = refl }) refl
      refl tt (λ i e. cc) (λ i. refl)
