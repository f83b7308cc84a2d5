-- ===== src/Server/Threads/Wedged.antt =====
-- Where a session is lost: a stream on record that no data thread takes off it any more.
use zz_ftp.Prelude.{◌≡◌, refl, arith, Bool, true, false, Option, none, some}
use mathlib.Core.Path.{subst}
use zz_ftp.Server.Client.{is_some}
use zz_ftp.Server.Threads.{
  thread_moved, wakes_up, Env, DataPc, active_start, active_wait, active_woken, active_connect,
  active_test, active_block, passive_test, passive_accept, passive_take, passive_poll,
  passive_block, closing, clear_file, set_ready, final_mark, finished, dead, data_step, Cmd, abort,
  quit, hang_up, CmdPc, idle, check, close_test, stop, join, rejoined, behind, set_flag, create,
  entered, data_test, open_file, signal, gone, World, cmd_step, thread_step, Pick, command,
  data_thread, spurious, step, Reach, here, next,
}
use zz_ftp.Server.Threads.Invariant.{Ensures, Ensures-some}

-- A data thread that has ended, or only sets the state and sends the last mark.
abbrev pub is_past : Option DataPc → Bool
is_past none = true
is_past (some (set_ready st)) = true
is_past (some (final_mark st)) = true
is_past (some finished) = true
is_past _ = false

-- The commands that do not begin with ignore_if_xfer().
abbrev pub ends_only : Cmd → Bool
ends_only abort = true
ends_only quit = true
ends_only hang_up = true
ends_only _ = false

-- Where such a command or the test of ignore_if_xfer() stands.
abbrev pub starts_none : CmdPc → Bool
starts_none idle = true
starts_none (check c) = true
starts_none (close_test c) = ends_only c
starts_none (stop c) = ends_only c
starts_none (join c) = ends_only c
starts_none (rejoined c) = ends_only c
starts_none (behind c) = ends_only c
starts_none gone = true
starts_none _ = false

pub record IsWedged (u : World) : Type 0 where
  pub on_record : is_some u.mem.dat_fp ≡ true
  pub past : is_past u.thread ≡ true
  pub starts : starts_none u.cmd ≡ true

data_step-IsWedged :
    (e : Env) (p : DataPc) (u : World)
    → is_past (some p) ≡ true
    → is_some u.mem.dat_fp ≡ true
    → starts_none u.cmd ≡ true
    → Ensures IsWedged (thread_moved u (data_step e u.mem p))
unfolding data_step
data_step-IsWedged e active_start u h r s = ground arith
data_step-IsWedged e active_wait u h r s = ground arith
data_step-IsWedged e active_woken u h r s = ground arith
data_step-IsWedged e (active_connect fp ty) u h r s = ground arith
data_step-IsWedged e (active_test fp ty) u h r s = ground arith
data_step-IsWedged e (active_block none ty) u h r s = ground arith
data_step-IsWedged e (active_block (some f) ty) u h r s = ground arith
data_step-IsWedged e (passive_test conn fp ty) u h r s = ground arith
data_step-IsWedged e (passive_accept fp ty) u h r s = ground arith
data_step-IsWedged e passive_take u h r s = ground arith
data_step-IsWedged e (passive_poll ty) u h r s = ground arith
data_step-IsWedged e (passive_block f ty) u h r s = ground arith
data_step-IsWedged e (closing fp ty st) u h r s = ground arith
data_step-IsWedged e (clear_file st) u h r s = ground arith
data_step-IsWedged e (set_ready st) u h r s = ground arith
data_step-IsWedged e (final_mark st) u h r s = ground arith
data_step-IsWedged e finished u h r s = ground arith
data_step-IsWedged e dead u h r s = ground arith

thread_step-IsWedged :
    (e : Env) (t : Option DataPc) (u : World)
    → u.thread ≡ t
    → IsWedged u
    → Ensures IsWedged (thread_step e t u)
unfolding thread_step
thread_step-IsWedged e none u q i = tt
thread_step-IsWedged e (some p) u q i =
    data_step-IsWedged e p u (subst (λ x. is_past x ≡ true) q i.past) i.on_record i.starts

wakes_up-IsWedged :
    (t : Option DataPc) (u : World) → is_past t ≡ true → Ensures IsWedged (wakes_up t u)
wakes_up-IsWedged (some active_wait) u h = cc
wakes_up-IsWedged none u h = tt
wakes_up-IsWedged (some p) u h = tt

cmd_step-IsWedged :
    (n : Cmd) (e : Env) (c : CmdPc) (u : World)
    → starts_none c ≡ true
    → is_some u.mem.dat_fp ≡ true
    → is_past u.thread ≡ true
    → Ensures IsWedged (cmd_step n e c u)
unfolding cmd_step
cmd_step-IsWedged n e idle u h r p = ground arith
cmd_step-IsWedged n e (check c) u h r p = ground arith
cmd_step-IsWedged n e (close_test c) u h r p = ground arith
cmd_step-IsWedged n e (stop c) u h r p = ground arith
cmd_step-IsWedged n e (join c) u h r p = ground arith
cmd_step-IsWedged n e (rejoined c) u h r p = ground arith
cmd_step-IsWedged n e (behind c) u h r p = ground arith
cmd_step-IsWedged n e (set_flag c) u h r p = ground arith
cmd_step-IsWedged n e (create c) u h r p = ground arith
cmd_step-IsWedged n e (entered c) u h r p = ground arith
cmd_step-IsWedged n e (data_test ty) u h r p = ground arith
cmd_step-IsWedged n e (open_file ty) u h r p = ground arith
cmd_step-IsWedged n e (signal f ty) u h r p = ground arith
cmd_step-IsWedged n e gone u h r p = ground arith

step-IsWedged : (k : Pick) (u : World) → IsWedged u → Ensures IsWedged (step k u)
unfolding step
step-IsWedged (command n e) u i = cmd_step-IsWedged n e u.cmd u i.starts i.on_record i.past
step-IsWedged (data_thread e) u i = thread_step-IsWedged e u.thread u refl i
step-IsWedged spurious u i = wakes_up-IsWedged u.thread u i.past

-- Where a stream is on record while there is no data thread, or one that has already cleared the
-- record, and no command is beyond ignore_if_xfer() but ABOR, QUIT and the end of the session: this
-- stays so in every order of the steps, whatever commands come.
pub never_served : {wakes : Bool} {u v : World} → IsWedged u → Reach wakes u v → IsWedged v
never_served i here = i
never_served i (next {v} {x} r k a s) =
    Ensures-some IsWedged (step k v) x (step-IsWedged k v (never_served i r)) s
