-- ===== src/Server/Threads/Streams.antt =====
-- A signal brings a stream: the data thread of the active mode has one wherever it uses it, as long
-- as pthread_cond_wait() returns for signals only.
use zz_ftp.Prelude.{◌≡◌, ◌≢◌, refl, arith, true, false, Option, none, some}
use mathlib.Core.Path.{subst}
use zz_ftp.Server.Client.{DatType, is_some}
use zz_ftp.Server.Threads.{
  thread_moved, Shared, Env, DataPc, active_start, active_wait, active_woken, active_connect,
  active_test, active_block, passive_test, passive_accept, passive_take, passive_poll,
  passive_block, closing, clear_file, set_ready, final_mark, finished, dead, data_step, Cmd, CmdPc,
  idle, check, close_test, stop, join, rejoined, behind, set_flag, create, entered, data_test,
  open_file, signal, gone, World, cmd_step, thread_step, Pick, command, data_thread, spurious, step,
  fresh, not_spurious, Reach, here, next,
}
use zz_ftp.Server.Threads.Invariant.{Ensures, Ensures-some}

-- What a data thread of the active mode has once it has been woken.
abbrev pub Fed : Option DataPc → Shared → Type 0
Fed (some active_woken) m = is_some m.dat_fp ≡ true
Fed (some (active_connect fp ty)) m = is_some fp ≡ true
Fed (some (active_test fp ty)) m = is_some fp ≡ true
Fed (some (active_block fp ty)) m = is_some fp ≡ true
Fed _ m = Unit

pub record IsFed (u : World) : Type 0 where
  pub fed : Fed u.thread u.mem

data_step-IsFed :
    (e : Env) (p : DataPc) (u : World)
    → Fed (some p) u.mem
    → Ensures IsFed (thread_moved u (data_step e u.mem p))
unfolding data_step
data_step-IsFed e active_start u h = ground arith
data_step-IsFed e active_wait u h = ground arith
data_step-IsFed e active_woken u h = ground arith
data_step-IsFed e (active_connect fp ty) u h = ground arith
data_step-IsFed e (active_test fp ty) u h = ground arith
data_step-IsFed e (active_block none ty) u h = ground arith
data_step-IsFed e (active_block (some f) ty) u h = ground arith
data_step-IsFed e (passive_test conn fp ty) u h = ground arith
data_step-IsFed e (passive_accept fp ty) u h = ground arith
data_step-IsFed e passive_take u h = ground arith
data_step-IsFed e (passive_poll ty) u h = ground arith
data_step-IsFed e (passive_block f ty) u h = ground arith
data_step-IsFed e (closing fp ty st) u h = ground arith
data_step-IsFed e (clear_file st) u h = ground arith
data_step-IsFed e (set_ready st) u h = ground arith
data_step-IsFed e (final_mark st) u h = ground arith
data_step-IsFed e finished u h = ground arith
data_step-IsFed e dead u h = ground arith

thread_step-IsFed :
    (e : Env) (t : Option DataPc) (u : World)
    → u.thread ≡ t
    → IsFed u
    → Ensures IsFed (thread_step e t u)
unfolding thread_step
thread_step-IsFed e none u q i = tt
thread_step-IsFed e (some p) u q i = data_step-IsFed e p u (subst (λ x. Fed x u.mem) q i.fed)

cmd_step-IsFed :
    (n : Cmd) (e : Env) (c : CmdPc) (u : World)
    → Fed u.thread u.mem
    → Ensures IsFed (cmd_step n e c u)
unfolding cmd_step
cmd_step-IsFed n e idle u h = ground arith
cmd_step-IsFed n e (check c) u h = ground arith
cmd_step-IsFed n e (close_test c) u h = ground arith
cmd_step-IsFed n e (stop c) u h = ground arith
cmd_step-IsFed n e (join c) u h = ground arith
cmd_step-IsFed n e (rejoined c) u h = ground arith
cmd_step-IsFed n e (behind c) u h = ground arith
cmd_step-IsFed n e (set_flag c) u h = ground arith
cmd_step-IsFed n e (create c) u h = ground arith
cmd_step-IsFed n e (entered c) u h = ground arith
cmd_step-IsFed n e (data_test ty) u h = ground arith
cmd_step-IsFed n e (open_file ty) u h = ground arith
cmd_step-IsFed n e (signal f ty) u h = ground arith
cmd_step-IsFed n e gone u h = ground arith

step-IsFed : (k : Pick) (u : World) → not_spurious k ≡ true → IsFed u → Ensures IsFed (step k u)
unfolding step
step-IsFed (command n e) u a i = cmd_step-IsFed n e u.cmd u i.fed
step-IsFed (data_thread e) u a i = thread_step-IsFed e u.thread u refl i
step-IsFed spurious u a i = cc

pub Reach-IsFed : {u v : World} → IsFed u → Reach false u v → IsFed v
Reach-IsFed i here = i
Reach-IsFed i (next {v} {x} r k a s) =
    Ensures-some IsFed (step k v) x (step-IsFed k v a (Reach-IsFed i r)) s

-- As long as pthread_cond_wait() returns for signals only, the data thread of a session never
-- transfers to or from a NULL stream in the active mode, whatever the order of the steps.
pub no_null_stream :
    {u : World} → Reach false fresh u → (ty : DatType) → u.thread ≢ some (active_block none ty)
no_null_stream {u} r ty e =
    let i = Reach-IsFed (record { fed = tt }) r in let h = subst (λ x. Fed x u.mem) e i.fed in cc
