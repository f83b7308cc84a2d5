-- ===== src/Server/Threads/Close.antt =====
-- The sequential account of a join (ThreadEnd in Server/System, thread_end in Server/Thread) against
-- the steps of the data thread.
use zz_ftp.Prelude.{
  if-holds, if-else, Bool, ℕ, zero, suc, ◌≤◌, ◌≡◌, ◌≢◌, refl, ap, ◌∙◌, arith, true, false, Option,
  none, some, [],
}
use zz_ftp.Server.Client.{DatType, ready}
use zz_ftp.Server.Transfer.Passive.{Accepted, connection, not_now, fails}
use zz_ftp.Server.System.{ThreadEnd, over, ends, refused, never}
use zz_ftp.Server.Threads.{
  send, status_mark, accepts, taken, behind_block, Shared, Env, DataPc, active_start, active_wait,
  active_woken, active_connect, active_test, active_block, passive_test, passive_accept,
  passive_take, passive_poll, passive_block, closing, clear_file, set_ready, final_mark, finished,
  dead, data_step, if_returns,
}
use zz_ftp.Server.Threads.Ending.{
  go_on, run_thread, steps_left, IsAwake, IsCleared, run_thread-finished,
}

abbrev pub cleared : Shared → Shared
cleared m = record m { dat_fp = none; state = ready }

-- The fields behind the end of the data thread, as thread_end has it.
abbrev pub ended : ThreadEnd → Shared → Shared
ended over m = m
ended (ends st) m = status_mark st (cleared m)
ended (refused msg) m = cleared (send 425 m)
ended never m = m

-- A call that returns.
goes_on :
    (P : Shared × DataPc → Type 0) (r : Bool) (x y : Shared × DataPc)
    → r ≡ true
    → P x
    → P (go_on (if_returns r x) y)
goes_on P true x y e p = p
goes_on P false x y e p = cc

-- From the point where the thread leaves its loop.
closing_run :
    (f : ℕ) (env : ℕ → Env) (n : ℕ) (m : Shared) (fp : Option ℕ) (ty : DatType) (st : ℕ)
    → 4 ≤ f
    → run_thread f env n (m, closing fp ty st) ≡ (ended (ends st) m, finished)
unfolding run_thread data_step
closing_run (suc (suc (suc (suc f)))) env n m fp ty st l =
    run_thread-finished f env _ (status_mark st (cleared m))
closing_run zero env n m fp ty st l = absurd (omega arith)
closing_run (suc zero) env n m fp ty st l = absurd (omega arith)
closing_run (suc (suc zero)) env n m fp ty st l = absurd (omega arith)
closing_run (suc (suc (suc zero))) env n m fp ty st l = absurd (omega arith)

clear_file_run :
    (f : ℕ) (env : ℕ → Env) (n : ℕ) (m : Shared) (st : ℕ)
    → 3 ≤ f
    → run_thread f env n (m, clear_file st) ≡ (ended (ends st) m, finished)
unfolding run_thread data_step
clear_file_run (suc (suc (suc f))) env n m st l =
    run_thread-finished f env _ (status_mark st (cleared m))
clear_file_run zero env n m st l = absurd (omega arith)
clear_file_run (suc zero) env n m st l = absurd (omega arith)
clear_file_run (suc (suc zero)) env n m st l = absurd (omega arith)

-- Behind the two assignments, the fields are as they set them.
already_cleared : (m : Shared) → m.dat_fp ≡ none → m.state ≡ ready → m ≡ cleared m
already_cleared m a b =
    ap (λ x. record m { dat_fp = x }) a ∙ ap (λ x. record m { dat_fp = none; state = x }) b

-- A way to end that explains the fields.
pub record Explained (m m1 : Shared) : Type 0 where
  pub end : ThreadEnd
  pub returns : end ≢ never
  pub same : m1 ≡ ended end m

set_ready_run :
    (f : ℕ) (env : ℕ → Env) (n : ℕ) (m : Shared) (st : ℕ)
    → 2 ≤ f
    → m.dat_fp ≡ none
    → (run_thread f env n (m, set_ready st)).0 ≡ ended (ends st) m
unfolding run_thread data_step
set_ready_run (suc (suc f)) env n m st l c =
    ap (λ x. x.0) (run_thread-finished f env _ (status_mark st (record m { state = ready })))
    ∙ ap (λ x. status_mark st (record m { dat_fp = x; state = ready })) c
set_ready_run zero env n m st l c = absurd (omega arith)
set_ready_run (suc zero) env n m st l c = absurd (omega arith)

final_mark_run :
    (f : ℕ) (env : ℕ → Env) (n : ℕ) (m : Shared) (st : ℕ)
    → 1 ≤ f
    → m ≡ cleared m
    → (run_thread f env n (m, final_mark st)).0 ≡ ended (ends st) m
unfolding run_thread data_step
final_mark_run (suc f) env n m st l c =
    ap (λ x. x.0) (run_thread-finished f env _ (status_mark st m)) ∙ ap (status_mark st) c
final_mark_run zero env n m st l c = absurd (omega arith)

by_end : {m m1 : Shared} (st : ℕ) → m1 ≡ ended (ends st) m → Explained m m1
by_end st e = record { end = ends st; returns = λ x. cc; same = e }

-- One step of a thread that is told to stop, given what follows it with the fields as they are.
module _ (f : ℕ) (env : ℕ → Env) (n : ℕ) (m : Shared)
    (rest : (p : DataPc)
      → IsAwake p m
      → IsCleared p m
      → steps_left p ≤ f
      → Explained m (run_thread f env n (m, p)).0) where
  behind-Explained :
      (st : ℕ) (p : DataPc) (fp : Option ℕ) (ty : DatType)
      → IsAwake p m
      → IsCleared p m
      → steps_left p ≤ f
      → 4 ≤ f
      → Explained m (run_thread f env n (m, behind_block st p fp ty)).0
  behind-Explained zero p fp ty w c l h = rest p w c l
  behind-Explained (suc k) p fp ty w c l h =
      by_end (suc k) (ap (λ x. x.0) (closing_run f env n m fp ty (suc k) h))

  accepts-Explained :
      (a : Accepted) (fp : Option ℕ) (ty : DatType)
      → a ≢ fails
      → 7 ≤ f
      → Explained m (run_thread f env n (m, accepts a fp ty)).0
  accepts-Explained connection none ty h l = rest passive_take tt tt l
  accepts-Explained connection (some g) ty h l = rest (passive_block g ty) tt tt (omega arith)
  accepts-Explained not_now fp ty h l = rest (passive_test false fp ty) tt tt (omega arith)
  accepts-Explained fails fp ty h l = absurd (h refl)

  taken-Explained :
      (o : Option ℕ) (ty : DatType) → 6 ≤ f → Explained m (run_thread f env n (m, taken o ty)).0
  taken-Explained none ty l = rest (passive_poll ty) tt tt l
  taken-Explained (some g) ty l = rest (passive_block g ty) tt tt l

  closing-Explained :
      (fp : Option ℕ) (ty : DatType)
      → 4 ≤ f
      → Explained m (run_thread f env n (m, closing fp ty 0)).0
  closing-Explained fp ty l = by_end 0 (ap (λ x. x.0) (closing_run f env n m fp ty 0 l))

pub run_thread-Explained :
    (f : ℕ) (env : ℕ → Env) (n : ℕ) (m : Shared) (p : DataPc)
    → ((i : ℕ) → (env i).accepted ≢ fails)
    → ((i : ℕ) → (env i).returns ≡ true)
    → m.running ≡ false
    → IsAwake p m
    → IsCleared p m
    → steps_left p ≤ f
    → Explained m (run_thread f env n (m, p)).0
unfolding run_thread data_step
run_thread-Explained zero env n m p a b r w c l = record {
  end = over;
  returns = λ x. cc;
  same = refl;
}
run_thread-Explained (suc f) env n m active_start a b r w c l = absurd w
run_thread-Explained (suc f) env n m active_wait a b r w c l = absurd w
run_thread-Explained (suc f) env n m dead a b r w c l = absurd w
run_thread-Explained (suc f) env n m active_woken a b r w c l =
    run_thread-Explained f env (suc n) m (active_connect m.dat_fp m.dat_type) a b r w tt
      (omega arith)
run_thread-Explained (suc f) env n m (active_connect fp ty) a b r w c l =
    goes_on (λ now. Explained m (run_thread f env (suc n) now).0) (env n).returns _ _ (b n)
      (if-holds (λ now. Explained m (run_thread f env (suc n) now).0) (env n).ok _ _
        (run_thread-Explained f env (suc n) m (active_test fp ty) a b r w tt (omega arith))
        (record {
          end = refused [];
          returns = λ x. cc;
          same = ap (λ x. x.0) (closing_run f env (suc n) (send 425 m) fp ty 0 (omega arith));
        }))
run_thread-Explained (suc f) env n m (active_test fp ty) a b r w c l =
    if-else (λ q. Explained m (run_thread f env (suc n) (m, q)).0) m.running _ _ r
      (by_end 0 (ap (λ x. x.0) (closing_run f env (suc n) m fp ty 0 (omega arith))))
run_thread-Explained (suc f) env n m (active_block none ty) a b r w c l = absurd (cc)
run_thread-Explained (suc f) env n m (active_block (some g) ty) a b r w c l =
    goes_on (λ now. Explained m (run_thread f env (suc n) now).0) (env n).returns _ _ (b n)
      (behind-Explained f env (suc n) m
        (λ q x y z. run_thread-Explained f env (suc n) m q a b r x y z) (env n).status
        (active_test (some g) ty) (some g) ty refl tt (omega arith) (omega arith))
run_thread-Explained (suc f) env n m (passive_test conn fp ty) a b r w c l =
    if-else (λ q. Explained m (run_thread f env (suc n) (m, q)).0) m.running _ _ r
      (by_end 0 (ap (λ x. x.0) (closing_run f env (suc n) m fp ty 0 (omega arith))))
run_thread-Explained (suc f) env n m (passive_accept fp ty) a b r w c l =
    accepts-Explained f env (suc n) m
      (λ q x y z. run_thread-Explained f env (suc n) m q a b r x y z) (env n).accepted fp ty (a n)
      (omega arith)
run_thread-Explained (suc f) env n m passive_take a b r w c l =
    taken-Explained f env (suc n) m (λ q x y z. run_thread-Explained f env (suc n) m q a b r x y z)
      m.dat_fp m.dat_type (omega arith)
run_thread-Explained (suc f) env n m (passive_poll ty) a b r w c l =
    if-holds (λ q. Explained m (run_thread f env (suc n) (m, q)).0) (env n).hung_up _ _
      (run_thread-Explained f env (suc n) m (passive_test false none ty) a b r tt tt (omega arith))
      (run_thread-Explained f env (suc n) m (passive_test true none ty) a b r tt tt (omega arith))
run_thread-Explained (suc f) env n m (passive_block g ty) a b r w c l =
    goes_on (λ now. Explained m (run_thread f env (suc n) now).0) (env n).returns _ _ (b n)
      (behind-Explained f env (suc n) m
        (λ q x y z. run_thread-Explained f env (suc n) m q a b r x y z) (env n).status
        (passive_test true (some g) ty) (some g) ty tt tt (omega arith) (omega arith))
run_thread-Explained (suc f) env n m (closing fp ty st) a b r w c l =
    by_end st (ap (λ x. x.0) (closing_run (suc f) env n m fp ty st l))
run_thread-Explained (suc f) env n m (clear_file st) a b r w c l =
    by_end st (ap (λ x. x.0) (clear_file_run (suc f) env n m st l))
run_thread-Explained (suc f) env n m (set_ready st) a b r w c l =
    by_end st (set_ready_run (suc f) env n m st l c)
run_thread-Explained (suc f) env n m (final_mark st) a b r w c l =
    by_end st (final_mark_run (suc f) env n m st l (already_cleared m c.0 c.1))
run_thread-Explained (suc f) env n m finished a b r w c l = record {
  end = over;
  returns = λ x. cc;
  same = ap (λ x. x.0) (run_thread-finished (suc f) env n m);
}
