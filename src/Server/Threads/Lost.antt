-- ===== src/Server/Threads/Lost.antt =====
-- Where a session is lost: a data thread that waits for a signal that no command gives any more.
use zz_ftp.Prelude.{◌≡◌, refl, arith, Bool, true, false, Option, none, some}
use mathlib.Core.Path.{subst}
use zz_ftp.Server.Client.{is_some}
use zz_ftp.Server.Threads.{
  thread_moved, Shared, Env, DataPc, active_start, active_wait, active_woken, active_connect,
  active_test, active_block, passive_test, passive_accept, passive_take, passive_poll,
  passive_block, closing, clear_file, set_ready, final_mark, finished, dead, data_step, Cmd, CmdPc,
  idle, check, close_test, stop, join, rejoined, behind, set_flag, create, entered, data_test,
  open_file, signal, gone, World, cmd_step, thread_step, Pick, command, data_thread, spurious, step,
  not_spurious, Reach, here, next,
}
use zz_ftp.Server.Threads.Invariant.{Ensures, Ensures-some}

-- The data thread of the active mode before the end of its pthread_cond_wait().
abbrev pub waits_for_signal : Option DataPc → Bool
waits_for_signal (some active_start) = true
waits_for_signal (some active_wait) = true
waits_for_signal _ = false

-- A command thread that gives no signal: it is in pthread_join(), or a stream is on record and the
-- data thread is taken for running.
abbrev pub GivesNone : CmdPc → Shared → Type 0
GivesNone idle m = (is_some m.dat_fp ≡ true) × (m.running ≡ true)
GivesNone (check c) m = (is_some m.dat_fp ≡ true) × (m.running ≡ true)
GivesNone (close_test c) m = (is_some m.dat_fp ≡ true) × (m.running ≡ true)
GivesNone (stop c) m = (is_some m.dat_fp ≡ true) × (m.running ≡ true)
GivesNone (join c) m = Unit
GivesNone _ m = ⊥

pub record IsLost (u : World) : Type 0 where
  pub waits_on : waits_for_signal u.thread ≡ true
  pub gives_none : GivesNone u.cmd u.mem

data_step-IsLost :
    (e : Env) (p : DataPc) (u : World)
    → waits_for_signal (some p) ≡ true
    → GivesNone u.cmd u.mem
    → Ensures IsLost (thread_moved u (data_step e u.mem p))
unfolding data_step
data_step-IsLost e active_start u h g = ground arith
data_step-IsLost e active_wait u h g = ground arith
data_step-IsLost e active_woken u h g = ground arith
data_step-IsLost e (active_connect fp ty) u h g = ground arith
data_step-IsLost e (active_test fp ty) u h g = ground arith
data_step-IsLost e (active_block none ty) u h g = ground arith
data_step-IsLost e (active_block (some f) ty) u h g = ground arith
data_step-IsLost e (passive_test conn fp ty) u h g = ground arith
data_step-IsLost e (passive_accept fp ty) u h g = ground arith
data_step-IsLost e passive_take u h g = ground arith
data_step-IsLost e (passive_poll ty) u h g = ground arith
data_step-IsLost e (passive_block f ty) u h g = ground arith
data_step-IsLost e (closing fp ty st) u h g = ground arith
data_step-IsLost e (clear_file st) u h g = ground arith
data_step-IsLost e (set_ready st) u h g = ground arith
data_step-IsLost e (final_mark st) u h g = ground arith
data_step-IsLost e finished u h g = ground arith
data_step-IsLost e dead u h g = ground arith

thread_step-IsLost :
    (e : Env) (t : Option DataPc) (u : World)
    → u.thread ≡ t
    → IsLost u
    → Ensures IsLost (thread_step e t u)
unfolding thread_step
thread_step-IsLost e none u q i = tt
thread_step-IsLost e (some p) u q i =
    data_step-IsLost e p u (subst (λ x. waits_for_signal x ≡ true) q i.waits_on) i.gives_none

cmd_step-IsLost :
    (n : Cmd) (e : Env) (c : CmdPc) (u : World)
    → waits_for_signal u.thread ≡ true
    → GivesNone c u.mem
    → Ensures IsLost (cmd_step n e c u)
unfolding cmd_step
cmd_step-IsLost n e idle u h g = ground arith
cmd_step-IsLost n e (check c) u h g = ground arith
cmd_step-IsLost n e (close_test c) u h g = ground arith
cmd_step-IsLost n e (stop c) u h g = ground arith
cmd_step-IsLost n e (join c) u h g = ground arith
cmd_step-IsLost n e (rejoined c) u h g = ground arith
cmd_step-IsLost n e (behind c) u h g = ground arith
cmd_step-IsLost n e (set_flag c) u h g = ground arith
cmd_step-IsLost n e (create c) u h g = ground arith
cmd_step-IsLost n e (entered c) u h g = ground arith
cmd_step-IsLost n e (data_test ty) u h g = ground arith
cmd_step-IsLost n e (open_file ty) u h g = ground arith
cmd_step-IsLost n e (signal f ty) u h g = ground arith
cmd_step-IsLost n e gone u h g = ground arith

step-IsLost : (k : Pick) (u : World) → not_spurious k ≡ true → IsLost u → Ensures IsLost (step k u)
unfolding step
step-IsLost (command n e) u a i = cmd_step-IsLost n e u.cmd u i.waits_on i.gives_none
step-IsLost (data_thread e) u a i = thread_step-IsLost e u.thread u refl i
step-IsLost spurious u a i = cc

-- Where the data thread of the active mode is not yet beyond its pthread_cond_wait(), and either the
-- command thread is in pthread_join(), or a stream is on record, the data thread is taken for
-- running, and no command is beyond the point where it tells it to stop: this stays so in every
-- order of the steps, whatever commands come, as long as pthread_cond_wait() returns for signals
-- only.
pub never_woken : {u v : World} → IsLost u → Reach false u v → IsLost v
never_woken i here = i
never_woken i (next {v} {x} r k a s) =
    Ensures-some IsLost (step k v) x (step-IsLost k v a (never_woken i r)) s
