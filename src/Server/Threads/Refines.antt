-- ===== src/Server/Threads/Refines.antt =====
-- client_close_threads of Server/Thread, which takes how the join comes out as a parameter, against
-- the steps of both threads.
use zz_ftp.Prelude.{
  arith, ℕ, ◌≡◌, ◌≢◌, refl, sym, ap, ◌∙◌, true, false, Option, none, some, List, [], ◌∷◌, ◌++◌,
  ◌==◌, Bytes, Bool-cases, inl, inr,
}
use mathlib.Core.Path.{subst}
use zz_ftp.Server.Client.{ready}
use zz_ftp.Server.Transfer.Passive.{fails}
use zz_ftp.Server.System.{
  System, ThreadEnd, over, ends, refused, never, Ctl, Reply, mark, set_client,
}
use zz_ftp.Server.Thread.{thread_end, cleanup, joined, close_if, client_close_threads}
use zz_ftp.Server.Threads.{
  send, status_mark, Shared, Env, DataPc, finished, Cmd, close_test, join, behind, World, command,
  step, cmd_step,
}
use zz_ftp.Server.Threads.Schedule.{run_picks}
use zz_ftp.Server.Threads.Ending.{
  returning_all, run_thread, steps_left-bound, IsAwake, IsCleared, run_thread-Ends,
}
use zz_ftp.Server.Threads.Join.{in_join, in_join-run_thread}
use zz_ftp.Server.Threads.Close.{cleared, ended, Explained, run_thread-Explained}

abbrev pub codes_of : List Reply → List ℕ
codes_of [] = []
codes_of (r ∷ rs) = r.code ∷ codes_of rs

codes_of-append :
    (rs : List Reply) (r : Reply) → codes_of (rs ++ r ∷ []) ≡ codes_of rs ++ r.code ∷ []
codes_of-append [] r = refl
codes_of-append (q ∷ rs) r = ap (λ x. q.code ∷ x) (codes_of-append rs r)

-- The shared fields are those of the connection record, and the marks are its replies.
pub record Agrees (s : Ctl) (m : Shared) : Type 0 where
  pub running : m.running ≡ s.client.thr_dat_running
  pub dat_fp : m.dat_fp ≡ s.client.dat_fp
  pub dat_type : m.dat_type ≡ s.client.dat_type
  pub state : m.state ≡ s.client.state
  pub marks : m.marks ≡ codes_of s.replies

mark-Agrees :
    (code : ℕ) (msg : Bytes) (s : Ctl) (m : Shared)
    → Agrees s m
    → Agrees (mark code msg s) (send code m)
mark-Agrees code msg s m h = record {
  running = h.running;
  dat_fp = h.dat_fp;
  dat_type = h.dat_type;
  state = h.state;
  marks =
      ap (λ x. x ++ code ∷ []) h.marks
      ∙ sym (codes_of-append s.replies (record { code = code; msg = msg }));
}

cleared-Agrees :
    (s : Ctl) (m : Shared)
    → Agrees s m
    → Agrees (set_client (record s.client { dat_fp = none; state = ready }) s) (cleared m)
cleared-Agrees s m h = record {
  running = h.running;
  dat_fp = refl;
  dat_type = h.dat_type;
  state = refl;
  marks = h.marks;
}

cleanup-Agrees :
    (st : ℕ) (s : Ctl) (m : Shared)
    → Agrees s m
    → Agrees (cleanup st s) (status_mark st (cleared m))
unfolding cleanup
cleanup-Agrees st s m h = elim (Bool-cases (st == 1)) [
  | inl one ↦ rw one (mark-Agrees 226 _ _ (cleared m) (cleared-Agrees s m h))
  | inr other ↦ elim (Bool-cases (st == 2)) [
    | inl two ↦ rw (other, two) (mark-Agrees 451 _ _ (cleared m) (cleared-Agrees s m h))
    | inr neither ↦ rw (other, neither) (cleared-Agrees s m h)
  ]
]

abbrev OnEnd : Option Ctl → Shared → Type 0
OnEnd o m = (s1 : Ctl) × ((o ≡ some s1) × Agrees s1 m)

thread_end-Agrees :
    (e : ThreadEnd) (s : Ctl) (m : Shared)
    → e ≢ never
    → Agrees s m
    → OnEnd (thread_end e s) (ended e m)
unfolding thread_end
thread_end-Agrees over s m d h = (s, (refl, h))
thread_end-Agrees (ends st) s m d h = (cleanup st s, (refl, cleanup-Agrees st s m h))
thread_end-Agrees (refused msg) s m d h =
    (_, (refl, cleared-Agrees (mark 425 msg s) (send 425 m) (mark-Agrees 425 msg s m h)))
thread_end-Agrees never s m d h = absurd (d refl)

-- thr_dat_running is cleared.
abbrev pub stopped : Shared → Shared
stopped m = record m { running = false }

joined-Agrees :
    (o : Option Ctl) (m : Shared) → OnEnd o m → OnEnd (joined o) (record m { state = ready })
unfolding joined
joined-Agrees o m h = (
  set_client (record h.0.client { state = ready }) h.0,
  (
    ap joined h.1.0,
    record {
      running = h.1.1.running;
      dat_fp = h.1.1.dat_fp;
      dat_type = h.1.1.dat_type;
      state = refl;
      marks = h.1.1.marks;
    },
  ),
)

close_if-Agrees :
    (sys : System) (s : Ctl) (m m1 : Shared) (x : Explained (stopped m) m1)
    → m.running ≡ true
    → Agrees s m
    → OnEnd (client_close_threads (record sys { join = x.end }) s) (record m1 { state = ready })
unfolding client_close_threads close_if joined
close_if-Agrees sys s m m1 x r h =
    let quiet : Agrees (set_client (record s.client { thr_dat_running = false }) s) (stopped m) =
      record {
        running = refl;
        dat_fp = h.dat_fp;
        dat_type = h.dat_type;
        state = h.state;
        marks = h.marks;
      } in
    let left = thread_end-Agrees x.end _ (stopped m) x.returns quiet in
    subst (λ b. OnEnd (close_if b (record sys { join = x.end }) s) (record m1 { state = ready }))
      (sym (sym h.running ∙ r))
      (joined-Agrees _ m1 (left.0, (left.1.0, subst (Agrees left.0) (sym x.same) left.1.1)))

-- From the test of thr_dat_running to the end of client_close_threads.
pub record Closes (sys : System) (s : Ctl) (n : Cmd) (e : Env) (env : ℕ → Env) (c : Cmd)
    (m : Shared) (p : DataPc) : Type 0 where
  pub waiting : World
  pub left : Shared
  pub end : ThreadEnd
  pub kept : Ctl
  pub waits :
      run_picks
        (command n e ∷ command n e ∷ [])
        (record { mem = m; cmd = close_test c; thread = some p })
      ≡ some waiting
  pub returns :
      run_picks (command n e ∷ command n e ∷ []) (in_join 8 env 0 waiting)
      ≡ some (record { mem = left; cmd = behind c; thread = none })
  pub as_taken : client_close_threads (record sys { join = end }) s ≡ some kept
  pub agrees : Agrees kept left

abbrev told : Cmd → Shared → DataPc → World
told c m p = record { mem = stopped m; cmd = join c; thread = some p }

told-waits :
    (n : Cmd) (e : Env) (c : Cmd) (m : Shared) (p : DataPc)
    → m.running ≡ true
    → run_picks
        (command n e ∷ command n e ∷ [])
        (record { mem = m; cmd = close_test c; thread = some p })
      ≡ some (told c m p)
unfolding run_picks step cmd_step
told-waits n e c m p r =
    subst
      (λ b.
        run_picks (command n e ∷ command n e ∷ [])
          (record { mem = record m { running = b }; cmd = close_test c; thread = some p })
        ≡ some (told c m p))
      (sym r) refl

joined-returns :
    (n : Cmd) (e : Env) (c : Cmd) (m : Shared) (p : DataPc)
    → p ≡ finished
    → run_picks (command n e ∷ command n e ∷ []) (record { mem = m; cmd = join c; thread = some p })
      ≡ some (record { mem = record m { state = ready }; cmd = behind c; thread = none })
unfolding run_picks step cmd_step
joined-returns n e c m p f =
    subst
      (λ x.
        run_picks (command n e ∷ command n e ∷ [])
          (record { mem = m; cmd = join c; thread = some x })
        ≡ some (record { mem = record m { state = ready }; cmd = behind c; thread = none }))
      (sym f) refl

-- Where the command thread tests thr_dat_running, which is set, and the data thread has been woken,
-- with a stream in the active mode, and has left the record clear if it is past that point: if
-- accept() does not fail, connect() and process_block return where the data thread is in one, and it
-- moves while the command waits for it,
-- the command comes out of client_close_threads behind at most eight of its steps, and for one way in which a join can
-- come out (ThreadEnd) client_close_threads of Server/Thread leaves a connection record with the
-- same shared fields, and the same codes of replies.
pub client_close_threads-Closes :
    (sys : System) (s : Ctl) (n : Cmd) (e : Env) (env : ℕ → Env) (c : Cmd) (m : Shared) (p : DataPc)
    → Agrees s m
    → m.running ≡ true
    → IsAwake p (stopped m)
    → IsCleared p (stopped m)
    → ((i : ℕ) → (env i).accepted ≢ fails)
    → ((i : ℕ) → (env i).returns ≡ true)
    → Closes sys s n e env c m p
client_close_threads-Closes sys s n e env c m p h r w l a b =
    let now = run_thread 8 env 0 (stopped m, p) in
    let x = run_thread-Explained 8 env 0 (stopped m) p a b refl w l (steps_left-bound p) in
    let d = steps_left-bound p in
    let g = returning_all 8 env 0 b in
    let f = run_thread-Ends 8 env 0 (stopped m) p a refl w l (omega arith) in
    let k = close_if-Agrees sys s m now.0 x r h in
    record {
      waiting = told c m p;
      left = record now.0 { state = ready };
      end = x.end;
      kept = k.0;
      waits = told-waits n e c m p r;
      returns =
          ap (run_picks (command n e ∷ command n e ∷ []))
            (in_join-run_thread 8 env 0 (told c m p) (stopped m) p)
          ∙ joined-returns n e c now.0 now.1 f.0;
      as_taken = k.1.0;
      agrees = k.1.1;
    }
