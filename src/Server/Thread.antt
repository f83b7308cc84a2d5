-- ===== src/Server/Thread.antt =====
-- The end of the data thread: cleanup of server/client_xfer_thr.h, and client_close_threads of
-- server/client.c, which waits for it.
use zz_ftp.Prelude.{ℕ, Bool, true, false, Option, none, some, ◌==◌, if◌then◌else◌, codes}
use zz_ftp.Server.Client.{ready}
use zz_ftp.Server.System.{
  ThreadEnd, over, ends, refused, never, System, Ctl, mark, set_client, Outcome, hangs,
}

-- Both shared fields, then the mark for the status `st`. The descriptors that are closed have no
-- value here.
unfoldable pub cleanup : ℕ → Ctl → Ctl
cleanup st s =
    let s1 = set_client (record s.client { dat_fp = none; state = ready }) s in
    if st == 1
    then mark 226 (codes "Transfer complete.") s1
    else if st == 2
    then mark 451 (codes "Transfer aborted by internal I/O error.") s1
    else s1

-- What the data thread does up to its end, and `none` where it does not end.
unfoldable pub thread_end : ThreadEnd → Ctl → Option Ctl
unfolding cleanup
thread_end over s = some s
thread_end (ends st) s = some (cleanup st s)
thread_end (refused msg) s = some (cleanup 0 (mark 425 msg s))
thread_end never s = none

-- c->state = CLST_READY behind the join.
unfoldable pub joined : Option Ctl → Option Ctl
joined none = none
joined (some s) = some (set_client (record s.client { state = ready }) s)

-- if (running) { ... }; `none`: pthread_join() does not return.
unfoldable pub close_if : Bool → System → Ctl → Option Ctl
close_if true sys s =
    joined (thread_end sys.join (set_client (record s.client { thr_dat_running = false }) s))
close_if false sys s = some s

unfoldable pub client_close_threads : System → Ctl → Option Ctl
unfolding close_if
client_close_threads sys s = close_if s.client.thr_dat_running sys s

-- The rest of a handler behind client_close_threads.
unfoldable pub after_close : Option Ctl → (Ctl → Outcome) → Outcome
after_close none rest = hangs
after_close (some s) rest = rest s
