-- ===== src/Server/Threads/Invariant.antt =====
-- What holds of both threads in every order of their steps.
use zz_ftp.Prelude.{ℕ, ◌≡◌, refl, arith, Bool, true, false, Option, none, some}
use mathlib.Core.Path.{subst}
use zz_ftp.Server.Client.{is_some}
use zz_ftp.Server.Threads.{
  thread_moved, wakes_up, Shared, Env, DataPc, active_start, active_wait, active_woken,
  active_connect, active_test, active_block, passive_test, passive_accept, passive_take,
  passive_poll, passive_block, closing, clear_file, set_ready, final_mark, finished, dead,
  data_step, Cmd, CmdPc, idle, check, close_test, stop, join, rejoined, behind, set_flag, create,
  entered, data_test, open_file, signal, gone, World, cmd_step, thread_step, Pick, command,
  data_thread, spurious, step, Reach, here, next,
}

-- The stream that the data thread transfers or closes.
abbrev pub held : DataPc → Option ℕ
held (active_connect fp ty) = fp
held (active_test fp ty) = fp
held (active_block fp ty) = fp
held (passive_test conn fp ty) = fp
held (passive_accept fp ty) = fp
held (passive_block f ty) = some f
held (closing fp ty st) = fp
held _ = none

-- The stream of the data thread is the one of the record.
abbrev pub Uses : Option ℕ → Option ℕ → Type 0
Uses none dat_fp = Unit
Uses (some f) dat_fp = dat_fp ≡ some f

abbrev pub ThreadUses : Option DataPc → Option ℕ → Type 0
ThreadUses none dat_fp = Unit
ThreadUses (some p) dat_fp = Uses (held p) dat_fp

-- thr_dat_running says whether there is a data thread, but from where it is told to stop to where a
-- new one is created. The stream is NULL from ignore_if_xfer() to where a command sets it.
abbrev pub CmdAgrees : CmdPc → Shared → Option DataPc → Type 0
CmdAgrees (stop c) m thread = (m.running ≡ true) × (is_some thread ≡ true)
CmdAgrees (join c) m thread = (m.running ≡ false) × (is_some thread ≡ true)
CmdAgrees (rejoined c) m thread = (m.running ≡ false) × (thread ≡ none)
CmdAgrees (behind c) m thread = (m.running ≡ false) × (thread ≡ none)
CmdAgrees (set_flag c) m thread = (m.running ≡ false) × (thread ≡ none)
CmdAgrees (create c) m thread = (m.running ≡ true) × (thread ≡ none)
CmdAgrees (data_test ty) m thread = (m.running ≡ is_some thread) × (m.dat_fp ≡ none)
CmdAgrees (open_file ty) m thread = (m.running ≡ is_some thread) × (m.dat_fp ≡ none)
CmdAgrees (signal f ty) m thread = (m.running ≡ is_some thread) × (m.dat_fp ≡ none)
CmdAgrees gone m thread = (m.running ≡ false) × (thread ≡ none)
CmdAgrees _ m thread = m.running ≡ is_some thread

pub record Inv (u : World) : Type 0 where
  pub uses : ThreadUses u.thread u.mem.dat_fp
  pub agrees : CmdAgrees u.cmd u.mem u.thread

-- A property of what a step gives, if it can be made.
abbrev pub Ensures {ℓ} : {A : Type ℓ} → (A → Type 0) → Option A → Type 0
Ensures P none = Unit
Ensures P (some x) = P x

Uses-self : (fp : Option ℕ) → Uses fp fp
Uses-self none = tt
Uses-self (some f) = refl

abbrev Keeps : Shared → Shared × DataPc → Type 0
Keeps m (m1, p1) =
    Uses (held p1) m1.dat_fp × ((m1.running ≡ m.running) × (m.dat_fp ≡ none → m1.dat_fp ≡ none))

data_step-Keeps :
    (e : Env) (m : Shared) (p : DataPc)
    → Uses (held p) m.dat_fp
    → Ensures (Keeps m) (data_step e m p)
unfolding data_step
data_step-Keeps e m active_start h = ground arith
data_step-Keeps e m active_wait h = ground arith
data_step-Keeps e m active_woken h = ground arith
data_step-Keeps e m (active_connect fp ty) h = ground arith
data_step-Keeps e m (active_test fp ty) h = ground arith
data_step-Keeps e m (active_block none ty) h = ground arith
data_step-Keeps e m (active_block (some f) ty) h = ground arith
data_step-Keeps e m (passive_test conn fp ty) h = ground arith
data_step-Keeps e m (passive_accept fp ty) h = ground arith
data_step-Keeps e m passive_take h = ground arith
data_step-Keeps e m (passive_poll ty) h = ground arith
data_step-Keeps e m (passive_block f ty) h = ground arith
data_step-Keeps e m (closing fp ty st) h = ground arith
data_step-Keeps e m (clear_file st) h = ground arith
data_step-Keeps e m (set_ready st) h = ground arith
data_step-Keeps e m (final_mark st) h = ground arith
data_step-Keeps e m finished h = ground arith
data_step-Keeps e m dead h = ground arith

-- What the data thread keeps is enough for the command thread.
CmdAgrees-Keeps :
    (c : CmdPc) (m m1 : Shared) (p p1 : DataPc)
    → CmdAgrees c m (some p)
    → Keeps m (m1, p1)
    → CmdAgrees c m1 (some p1)
CmdAgrees-Keeps idle m m1 p p1 a k = ground arith
CmdAgrees-Keeps (check c) m m1 p p1 a k = ground arith
CmdAgrees-Keeps (close_test c) m m1 p p1 a k = ground arith
CmdAgrees-Keeps (stop c) m m1 p p1 a k = ground arith
CmdAgrees-Keeps (join c) m m1 p p1 a k = ground arith
CmdAgrees-Keeps (rejoined c) m m1 p p1 a k = ground arith
CmdAgrees-Keeps (behind c) m m1 p p1 a k = ground arith
CmdAgrees-Keeps (set_flag c) m m1 p p1 a k = ground arith
CmdAgrees-Keeps (create c) m m1 p p1 a k = ground arith
CmdAgrees-Keeps (entered c) m m1 p p1 a k = ground arith
CmdAgrees-Keeps (data_test ty) m m1 p p1 a k = ground arith
CmdAgrees-Keeps (open_file ty) m m1 p p1 a k = ground arith
CmdAgrees-Keeps (signal f ty) m m1 p p1 a k = ground arith
CmdAgrees-Keeps gone m m1 p p1 a k = ground arith

thread_moved-Inv :
    (u : World) (p : DataPc) (o : Option (Shared × DataPc))
    → CmdAgrees u.cmd u.mem (some p)
    → Ensures (Keeps u.mem) o
    → Ensures Inv (thread_moved u o)
thread_moved-Inv u p none a k = tt
thread_moved-Inv u p (some (m1, p1)) a k = record {
  uses = k.0;
  agrees = CmdAgrees-Keeps u.cmd u.mem m1 p p1 a k;
}

thread_step-Inv :
    (e : Env) (t : Option DataPc) (u : World)
    → u.thread ≡ t
    → Inv u
    → Ensures Inv (thread_step e t u)
unfolding thread_step
thread_step-Inv e none u q i = tt
thread_step-Inv e (some p) u q i =
    thread_moved-Inv u p (data_step e u.mem p) (subst (CmdAgrees u.cmd u.mem) q i.agrees)
      (data_step-Keeps e u.mem p (subst (λ x. ThreadUses x u.mem.dat_fp) q i.uses))

wakes_up-Inv : (t : Option DataPc) (u : World) → u.thread ≡ t → Inv u → Ensures Inv (wakes_up t u)
wakes_up-Inv (some active_wait) u q i = record {
  uses = tt;
  agrees =
      CmdAgrees-Keeps u.cmd u.mem u.mem active_wait active_woken
        (subst (CmdAgrees u.cmd u.mem) q i.agrees) (tt, (refl, λ x. x));
}
wakes_up-Inv none u q i = tt
wakes_up-Inv (some p) u q i = tt

cmd_step-Inv :
    (n : Cmd) (e : Env) (c : CmdPc) (u : World)
    → ThreadUses u.thread u.mem.dat_fp
    → CmdAgrees c u.mem u.thread
    → Ensures Inv (cmd_step n e c u)
unfolding cmd_step
cmd_step-Inv n e idle u h a = ground arith
cmd_step-Inv n e (check c) u h a = ground arith
cmd_step-Inv n e (close_test c) u h a = ground arith
cmd_step-Inv n e (stop c) u h a = ground arith
cmd_step-Inv n e (join c) u h a = ground arith
cmd_step-Inv n e (rejoined c) u h a = ground arith
cmd_step-Inv n e (behind c) u h a = ground arith
cmd_step-Inv n e (set_flag c) u h a = ground arith
cmd_step-Inv n e (create c) u h a = ground arith
cmd_step-Inv n e (entered c) u h a = ground arith
cmd_step-Inv n e (data_test ty) u h a = ground arith
cmd_step-Inv n e (open_file ty) u h a = ground arith
cmd_step-Inv n e (signal f ty) u h a = ground arith
cmd_step-Inv n e gone u h a = ground arith

step-Inv : (k : Pick) (u : World) → Inv u → Ensures Inv (step k u)
unfolding step
step-Inv (command n e) u i = cmd_step-Inv n e u.cmd u i.uses i.agrees
step-Inv (data_thread e) u i = thread_step-Inv e u.thread u refl i
step-Inv spurious u i = wakes_up-Inv u.thread u refl i

-- The step that was made.
pub Ensures-some {ℓ} :
    {A : Type ℓ} (P : A → Type 0) (o : Option A) (x : A) → Ensures P o → o ≡ some x → P x
Ensures-some P o x h e = subst (Ensures P) e h

-- In every order of the steps of both threads, also where a wait ends without a signal: the stream
-- that the data thread transfers or closes is the one on record; thr_dat_running says whether there
-- is a data thread, but from where it is told to stop up to where a new one is created; at that
-- point, and wherever the session is over, there is none; and where a command is to set the stream
-- there is none on record.
pub Reach-Inv : {wakes : Bool} {u v : World} → Inv u → Reach wakes u v → Inv v
Reach-Inv i here = i
Reach-Inv i (next {v} {x} r k a s) = Ensures-some Inv (step k v) x (step-Inv k v (Reach-Inv i r)) s
