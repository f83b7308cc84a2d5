-- ===== src/Server/Transfer.antt =====
-- The transfer of one file by the data thread: process_block of server/client_xfer_thr.h, and the
-- loop of active_data that calls it.
pub mod Rounds
pub mod Passive
mod Tests
use zz_ftp.Prelude.{
  ℕ, zero, suc, ◌+◌, ◌*◌, Bool, true, false, not, ◌&&◌, ◌||◌, Option, none, some, List, [], ◌∷◌,
  ◌++◌, ltb, if◌then◌else◌, Bytes, length, take, drop,
}
use zz_ftp.Io.Transfer.{Attempt, Written, write_all, Input, got, retry, failure}
use zz_ftp.Server.Client.{DatType, undefined, send_file, recv_file, send_pipe}

unfoldable pub double_and_limit : ℕ → ℕ → ℕ
double_and_limit x limit = if ltb (x * 2) limit then x * 2 else limit

-- The stream fp: what fread() has yet to give, and whether an error stands behind it in place of
-- the end of the file; what fwrite() has put there; and ferror().
pub record Stream : Type 0 where
  pub rest : Bytes
  pub error_behind : Bool
  pub written : Bytes
  pub error : Bool

-- What the system does during one block: the results of write() and of read() on the connection,
-- and the number of bytes that fwrite() stores.
pub record BlockEnv : Type 0 where
  pub attempts : List Attempt
  pub input : Input
  pub stores : ℕ

-- The status that is returned, or `none` where the calls of write() that are given do not bring
-- write_all to its end, with what is another behind the call.
pub record Block : Type 0 where
  pub status : Option ℕ
  pub stream : Stream
  pub sent : Bytes
  pub sleep : ℕ

-- if (xfer_complete) return 1; else if (ferror(fp) != 0) return 2; return 0;
unfoldable pub block_status : Bool → Bool → ℕ
block_status complete error = if complete then 1 else if error then 2 else 0

-- What write_all() returns is not looked at, but it has to return.
unfoldable pub once_written : Option ℕ → ℕ → Option ℕ
once_written none status = none
once_written (some n) status = some status

-- if (bytes_read > 0) write_all(...)
unfoldable pub write_chunk : List Attempt → Bytes → Written
write_chunk attempts chunk =
    if ltb 0 (length chunk)
    then write_all attempts chunk
    else record { sent = []; remaining = some 0 }

-- fread() gives BUF_SIZE bytes, or all that are left and then end of file or error.
unfoldable pub send_block : BlockEnv → Stream → ℕ → Block
unfolding block_status once_written write_chunk
send_block env fp sleep =
    let chunk = take 1024 fp.rest in
    let short = ltb (length chunk) 1024 in
    let error = fp.error || (short && fp.error_behind) in
    let written = write_chunk env.attempts chunk in
    record {
      status = once_written written.remaining (block_status (short && not fp.error_behind) error);
      stream = record fp { rest = drop 1024 fp.rest; error = error };
      sent = written.sent;
      sleep = sleep;
    }

-- On what read() gave: bytes, nothing at the end of the connection, EAGAIN, or another error,
-- which is taken for the end.
unfoldable pub recv_block : Input → BlockEnv → Stream → ℕ → Block
unfolding block_status double_and_limit
recv_block (got []) env fp sleep = record {
  status = some (block_status true fp.error);
  stream = fp;
  sent = [];
  sleep = sleep;
}
recv_block (got (c ∷ cs)) env fp sleep =
    let error = fp.error || ltb env.stores (length (c ∷ cs)) in
    record {
      status = some (block_status false error);
      stream = record fp { written = fp.written ++ take env.stores (c ∷ cs); error = error };
      sent = [];
      sleep = 1000;
    }
recv_block retry env fp sleep = record {
  status = some (block_status false fp.error);
  stream = fp;
  sent = [];
  sleep = double_and_limit sleep 200000;
}
recv_block failure env fp sleep = record {
  status = some (block_status true fp.error);
  stream = fp;
  sent = [];
  sleep = sleep;
}

-- dat_type == DATA_SEND_FILE || dat_type == DATA_SEND_PIPE
unfoldable pub is_sending : DatType → Bool
is_sending send_file = true
is_sending send_pipe = true
is_sending _ = false

unfoldable pub process_block : DatType → BlockEnv → Stream → ℕ → Block
process_block ty env fp sleep =
    if is_sending ty then send_block env fp sleep else recv_block env.input env fp sleep

-- The status with which the loop is left, the stream, and the bytes sent; `still_going` also where a
-- block is not over.
pub data Ended : Type 0 where
  ended : ℕ → Stream → Bytes → Ended
  still_going : Ended

unfoldable pub on_status : Option ℕ → Stream → ℕ → Bytes → (Stream → ℕ → Bytes → Ended) → Ended
on_status none fp sleep sent rounds = still_going
on_status (some zero) fp sleep sent rounds = rounds fp sleep sent
on_status (some (suc k)) fp sleep sent rounds = ended (suc k) fp sent

unfoldable pub after_block : Block → Bytes → (Stream → ℕ → Bytes → Ended) → Ended
unfolding on_status
after_block blk sent rounds = on_status blk.status blk.stream blk.sleep (sent ++ blk.sent) rounds

-- while (1), for at most the given number of rounds; `running` is thr_dat_running in each.
unfoldable pub transfer_rounds :
    ℕ → DatType → (ℕ → Bool) → (ℕ → BlockEnv) → ℕ → Stream → ℕ → Bytes → Ended
unfolding after_block
transfer_rounds zero ty running env n fp sleep sent = still_going
transfer_rounds (suc f) ty running env n fp sleep sent =
    let later =
      after_block (process_block ty (env n) fp sleep) sent
        (λ fp1 sleep1 sent1. transfer_rounds f ty running env (suc n) fp1 sleep1 sent1) in
    if running n then later else ended 0 fp sent

-- active_data behind connect(): process_sleep begins at 1000.
unfoldable pub active_transfer : ℕ → DatType → (ℕ → Bool) → (ℕ → BlockEnv) → Stream → Ended
active_transfer rounds ty running env fp = transfer_rounds rounds ty running env 0 fp 1000 []
