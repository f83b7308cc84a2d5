-- ===== src/Server/Threads/Join.antt =====
-- What pthread_join() waits for: the data thread, with the command thread in it.
use zz_ftp.Prelude.{
  ℕ, zero, suc, ◌≤◌, ◌≡◌, ◌≢◌, refl, sym, ap, ◌∙◌, arith, false, Option, none, some,
}
use mathlib.Core.Path.{subst}
use zz_ftp.Server.Client.{DatType, ready}
use zz_ftp.Server.Transfer.Passive.{fails}
use zz_ftp.Server.Threads.{
  thread_moved, Shared, Env, DataPc, active_block, data_step, Cmd, join, rejoined, World, cmd_step,
  thread_step, command, data_thread, step,
}
use zz_ftp.Server.Threads.Invariant.{Inv, CmdAgrees}
use zz_ftp.Server.Threads.Ending.{
  go_on, run_thread, IsAwake, IsCleared, Ends, steps_left-bound, returning, run_thread-Ends,
}

-- The steps that the data thread makes while the other one is in pthread_join().
unfoldable pub in_join : ℕ → (ℕ → Env) → ℕ → World → World
unfolding step
in_join zero env n u = u
in_join (suc f) env n u = in_join f env (suc n) (go_on (step (data_thread (env n)) u) u)

abbrev pub placed : World → Shared × DataPc → World
placed u (m, p) = record u { mem = m; thread = some p }

go_on-thread_moved :
    (u : World) (m : Shared) (p : DataPc) (o : Option (Shared × DataPc))
    → go_on (thread_moved (placed u (m, p)) o) (placed u (m, p)) ≡ placed u (go_on o (m, p))
go_on-thread_moved u m p none = refl
go_on-thread_moved u m p (some now) = refl

pub in_join-run_thread :
    (f : ℕ) (env : ℕ → Env) (n : ℕ) (u : World) (m : Shared) (p : DataPc)
    → in_join f env n (placed u (m, p)) ≡ placed u (run_thread f env n (m, p))
unfolding in_join run_thread step thread_step
in_join-run_thread zero env n u m p = refl
in_join-run_thread (suc f) env n u m p =
    let now = go_on (data_step (env n) m p) (m, p) in
    ap (in_join f env (suc n)) (go_on-thread_moved u m p (data_step (env n) m p))
    ∙ in_join-run_thread f env (suc n) u now.0 now.1

-- pthread_join() returns at once, and what the transfer leaves behind is cleared.
abbrev pub Joined : Cmd → Env → Cmd → World → Type 0
Joined n e c v =
    (step (command n e) v ≡ some (record { mem = v.mem; cmd = rejoined c; thread = none }))
    × ((v.mem.dat_fp ≡ none) × (v.mem.state ≡ ready))

Joined-Ends :
    (n : Cmd) (e : Env) (c : Cmd) (u : World) (now : Shared × DataPc)
    → u.cmd ≡ join c
    → Ends now
    → Joined n e c (placed u now)
unfolding step cmd_step
Joined-Ends n e c u (m, p) q h = ground arith

-- Where the command thread is in pthread_join(), and the data thread has been woken, with a stream
-- in the active mode, and has left the record clear if it is past that point: if accept() does not
-- fail, then after any number of steps of the data thread of which at least eight are such that
-- connect() or process_block, if the thread is in it, returns (process_block need not, since its
-- write_all may try for ever), the data thread has ended, so that pthread_join() returns; then there
-- is no stream on record, and the state is READY.
pub join_returns :
    (f : ℕ) (n : Cmd) (e : Env) (env : ℕ → Env) (c : Cmd) (u : World) (p : DataPc)
    → u.cmd ≡ join c
    → u.thread ≡ some p
    → Inv u
    → IsAwake p u.mem
    → IsCleared p u.mem
    → ((i : ℕ) → (env i).accepted ≢ fails)
    → 8 ≤ returning f env 0
    → Joined n e c (in_join f env 0 u)
join_returns f n e env c u p q t i w l a b =
    let r = (subst (λ x. CmdAgrees x u.mem u.thread) q i.agrees).0 in
    let d = steps_left-bound p in
    let h = run_thread-Ends f env 0 u.mem p a r w l (omega arith) in
    subst (λ x. Joined n e c (in_join f env 0 x)) (ap (λ x. record u { thread = x }) (sym t))
      (subst (Joined n e c) (sym (in_join-run_thread f env 0 u u.mem p))
        (Joined-Ends n e c u (run_thread f env 0 (u.mem, p)) q h))

-- A data thread in a process_block that does not return stays there, also when thr_dat_running has
-- been cleared.
pub block_keeps :
    (f : ℕ) (env : ℕ → Env) (n : ℕ) (m : Shared) (g : ℕ) (ty : DatType)
    → ((i : ℕ) → (env i).returns ≡ false)
    → run_thread f env n (m, active_block (some g) ty) ≡ (m, active_block (some g) ty)
unfolding run_thread data_step
block_keeps zero env n m g ty h = refl
block_keeps (suc f) env n m g ty h = rw (h n) (block_keeps f env (suc n) m g ty h)
