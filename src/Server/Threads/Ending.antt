-- ===== src/Server/Threads/Ending.antt =====
-- How a data thread that is told to stop comes to its end, by itself.
use zz_ftp.Prelude.{
  ℕ, zero, suc, ◌+◌, if◌then◌else◌, Bool, ◌≤◌, ◌<◌, ◌≡◌, ◌≢◌, refl, sym, ap, ◌∙◌, arith, true,
  false, Option, none, some, ◌⊎◌, inl, inr,
}
use mathlib.Core.Path.{subst}
use zz_ftp.Server.Client.{DatType, ready, is_some}
use zz_ftp.Server.Transfer.Passive.{Accepted, connection, not_now, fails}
use zz_ftp.Server.Threads.{
  accepts, Shared, Env, DataPc, active_start, active_wait, active_woken, active_connect,
  active_test, active_block, passive_test, passive_accept, passive_take, passive_poll,
  passive_block, closing, clear_file, set_ready, final_mark, finished, dead, data_step, if_returns,
}

abbrev pub go_on {ℓ} : {A : Type ℓ} → Option A → A → A
go_on none now = now
go_on (some later) now = later

-- The data thread by itself, for the given number of steps, or until it has ended.
unfoldable pub run_thread : ℕ → (ℕ → Env) → ℕ → Shared × DataPc → Shared × DataPc
unfolding data_step
run_thread zero env n now = now
run_thread (suc f) env n (m, p) = run_thread f env (suc n) (go_on (data_step (env n) m p) (m, p))

-- The steps to the end of a thread that is told to stop. One that has yet to be woken, or whose
-- program has ended, has none.
abbrev pub steps_left : DataPc → ℕ
steps_left active_woken = 7
steps_left (active_connect fp ty) = 6
steps_left (active_test fp ty) = 5
steps_left (active_block fp ty) = 6
steps_left (passive_test conn fp ty) = 5
steps_left (passive_accept fp ty) = 8
steps_left passive_take = 7
steps_left (passive_poll ty) = 6
steps_left (passive_block f ty) = 6
steps_left (closing fp ty st) = 4
steps_left (clear_file st) = 3
steps_left (set_ready st) = 2
steps_left (final_mark st) = 1
steps_left _ = 0

-- A thread that need not be woken, with a stream where it uses one.
abbrev pub IsAwake : DataPc → Shared → Type 0
IsAwake active_start m = ⊥
IsAwake active_wait m = ⊥
IsAwake dead m = ⊥
IsAwake active_woken m = is_some m.dat_fp ≡ true
IsAwake (active_connect fp ty) m = is_some fp ≡ true
IsAwake (active_test fp ty) m = is_some fp ≡ true
IsAwake (active_block fp ty) m = is_some fp ≡ true
IsAwake _ m = Unit

-- A thread that has taken the stream off the record has left it clear.
abbrev pub IsCleared : DataPc → Shared → Type 0
IsCleared (set_ready st) m = m.dat_fp ≡ none
IsCleared (final_mark st) m = (m.dat_fp ≡ none) × (m.state ≡ ready)
IsCleared finished m = (m.dat_fp ≡ none) × (m.state ≡ ready)
IsCleared _ m = Unit

abbrev Nears : ℕ → Shared × DataPc → Type 0
Nears k (m, p) = (steps_left p < k) × (IsAwake p m × (IsCleared p m × (m.running ≡ false)))

accepts-Nears :
    (a : Accepted) (m : Shared) (fp : Option ℕ) (ty : DatType)
    → m.running ≡ false
    → a ≢ fails
    → Nears 8 (m, accepts a fp ty)
accepts-Nears connection m none ty r h = ground arith
accepts-Nears connection m (some f) ty r h = ground arith
accepts-Nears not_now m fp ty r h = ground arith
accepts-Nears fails m fp ty r h = absurd (h refl)

-- A step that is nearer to the end, or that is kept by a call.
abbrev NearsOrWaits : ℕ → Bool → Shared × DataPc → Shared × DataPc → Type 0
NearsOrWaits k r now before = Nears k now ⊎ ((r ≡ false) × (now ≡ before))

call_waits :
    (k : ℕ) (r : Bool) (x before : Shared × DataPc)
    → Nears k x
    → NearsOrWaits k r (go_on (if_returns r x) before) before
call_waits k true x before h = inl h
call_waits k false x before h = inr (refl, refl)

data_step-Nears :
    (e : Env) (m : Shared) (p : DataPc)
    → m.running ≡ false
    → e.accepted ≢ fails
    → IsAwake p m
    → IsCleared p m
    → (p ≡ finished) ⊎ NearsOrWaits (steps_left p) e.returns (go_on (data_step e m p) (m, p)) (m, p)
unfolding data_step
data_step-Nears e m active_start r a w c = ground arith
data_step-Nears e m active_wait r a w c = ground arith
data_step-Nears e m active_woken r a w c = ground arith
data_step-Nears e m (active_connect fp ty) r a w c = inr (call_waits _ e.returns _ _ (ground arith))
data_step-Nears e m (active_test fp ty) r a w c = ground arith
data_step-Nears e m (active_block none ty) r a w c = ground arith
data_step-Nears e m (active_block (some f) ty) r a w c =
    inr (call_waits _ e.returns _ _ (ground arith))
data_step-Nears e m (passive_test conn fp ty) r a w c = ground arith
data_step-Nears e m (passive_accept fp ty) r a w c =
    inr (inl (accepts-Nears e.accepted m fp ty r a))
data_step-Nears e m passive_take r a w c = ground arith
data_step-Nears e m (passive_poll ty) r a w c = ground arith
data_step-Nears e m (passive_block f ty) r a w c = inr (call_waits _ e.returns _ _ (ground arith))
data_step-Nears e m (closing fp ty st) r a w c = ground arith
data_step-Nears e m (clear_file st) r a w c = ground arith
data_step-Nears e m (set_ready st) r a w c = ground arith
data_step-Nears e m (final_mark st) r a w c = ground arith
data_step-Nears e m finished r a w c = ground arith
data_step-Nears e m dead r a w c = ground arith

go_on-finished :
    (e : Env) (m : Shared) → go_on (data_step e m finished) (m, finished) ≡ (m, finished)
unfolding data_step
go_on-finished e m = refl

pub run_thread-finished :
    (f : ℕ) (env : ℕ → Env) (n : ℕ) (m : Shared) → run_thread f env n (m, finished) ≡ (m, finished)
unfolding run_thread
run_thread-finished zero env n m = refl
run_thread-finished (suc f) env n m =
    ap (run_thread f env (suc n)) (go_on-finished (env n) m) ∙ run_thread-finished f env (suc n) m

-- The state behind a data thread that has ended and was not beyond its cleanup.
abbrev pub Ends : Shared × DataPc → Type 0
Ends (m, p) = (p ≡ finished) × ((m.dat_fp ≡ none) × (m.state ≡ ready))

pub steps_left-bound : (p : DataPc) → steps_left p ≤ 8
steps_left-bound active_start = omega arith
steps_left-bound active_wait = omega arith
steps_left-bound active_woken = omega arith
steps_left-bound (active_connect fp ty) = omega arith
steps_left-bound (active_test fp ty) = omega arith
steps_left-bound (active_block fp ty) = omega arith
steps_left-bound (passive_test conn fp ty) = omega arith
steps_left-bound (passive_accept fp ty) = omega arith
steps_left-bound passive_take = omega arith
steps_left-bound (passive_poll ty) = omega arith
steps_left-bound (passive_block f ty) = omega arith
steps_left-bound (closing fp ty st) = omega arith
steps_left-bound (clear_file st) = omega arith
steps_left-bound (set_ready st) = omega arith
steps_left-bound (final_mark st) = omega arith
steps_left-bound finished = omega arith
steps_left-bound dead = omega arith

IsCleared-finished : (m : Shared) (p : DataPc) → IsCleared p m → p ≡ finished → Ends (m, p)
IsCleared-finished m p c q = (q, subst (λ x. IsCleared x m) q c)

pub no_steps_left : (p : DataPc) (m : Shared) → IsAwake p m → steps_left p ≤ 0 → p ≡ finished
no_steps_left active_start m w l = absurd w
no_steps_left active_wait m w l = absurd w
no_steps_left active_woken m w l = absurd (omega arith)
no_steps_left (active_connect fp ty) m w l = absurd (omega arith)
no_steps_left (active_test fp ty) m w l = absurd (omega arith)
no_steps_left (active_block fp ty) m w l = absurd (omega arith)
no_steps_left (passive_test conn fp ty) m w l = absurd (omega arith)
no_steps_left (passive_accept fp ty) m w l = absurd (omega arith)
no_steps_left passive_take m w l = absurd (omega arith)
no_steps_left (passive_poll ty) m w l = absurd (omega arith)
no_steps_left (passive_block f ty) m w l = absurd (omega arith)
no_steps_left (closing fp ty st) m w l = absurd (omega arith)
no_steps_left (clear_file st) m w l = absurd (omega arith)
no_steps_left (set_ready st) m w l = absurd (omega arith)
no_steps_left (final_mark st) m w l = absurd (omega arith)
no_steps_left finished m w l = refl
no_steps_left dead m w l = absurd w

-- In how many of f steps, from the n-th on, connect() or process_block would return.
unfoldable pub returning : ℕ → (ℕ → Env) → ℕ → ℕ
returning zero env n = 0
returning (suc f) env n = (if (env n).returns then 1 else 0) + returning f env (suc n)

pub returning_all :
    (f : ℕ) (env : ℕ → Env) (n : ℕ) → ((i : ℕ) → (env i).returns ≡ true) → returning f env n ≡ f
unfolding returning
returning_all zero env n h = refl
returning_all (suc f) env n h = rw (h n) (omega (arith, returning_all f env (suc n) h))

returning-le :
    (f : ℕ) (env : ℕ → Env) (n : ℕ) → returning (suc f) env n ≤ suc (returning f env (suc n))
unfolding returning
returning-le f env n = ground arith

returning-waits :
    (f : ℕ) (env : ℕ → Env) (n : ℕ)
    → (env n).returns ≡ false
    → returning (suc f) env n ≡ returning f env (suc n)
unfolding returning
returning-waits f env n h = rw h (omega arith)

pub run_thread-Ends :
    (f : ℕ) (env : ℕ → Env) (n : ℕ) (m : Shared) (p : DataPc)
    → ((i : ℕ) → (env i).accepted ≢ fails)
    → m.running ≡ false
    → IsAwake p m
    → IsCleared p m
    → steps_left p ≤ returning f env n
    → Ends (run_thread f env n (m, p))
unfolding run_thread returning
run_thread-Ends zero env n m p a r w c l = IsCleared-finished m p c (no_steps_left p m w l)
run_thread-Ends (suc f) env n m p a r w c l =
    let now = go_on (data_step (env n) m p) (m, p) in
    let fewer = returning-le f env n in
    elim (data_step-Nears (env n) m p r (a n) w c) [
      | inl q ↦
          subst (λ x. Ends (run_thread (suc f) env n (m, x))) (sym q)
            (subst Ends (sym (run_thread-finished (suc f) env n m))
              (refl, subst (λ x. IsCleared x m) q c))
      | inr (inl h) ↦
          run_thread-Ends f env (suc n) now.0 now.1 a h.1.1.1 h.1.0 h.1.1.0 (omega arith)
      | inr (inr h) ↦
          subst (λ x. Ends (run_thread f env (suc n) x)) (sym h.1)
            (run_thread-Ends f env (suc n) m p a r w c
              (subst (λ k. steps_left p ≤ k) (returning-waits f env n h.0) l))
    ]
