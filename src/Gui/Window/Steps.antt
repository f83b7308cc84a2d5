-- ===== src/Gui/Window/Steps.antt =====
-- One event of an orderly window, and of a locked one.
use zz_ftp.Prelude.{
  All, sym, length, append-nil, ◌≤◌, ◌-◌, ℕ, ◌≡◌, ◌≢◌, refl, arith, Bool, true, false, some, List,
  [], ◌∷◌, ◌++◌, if◌then◌else◌, ◌⊎◌, inl, inr,
}
use mathlib.Core.Path.{subst, ap, ◌∙◌}
use mathlib.Core.Option.{some-injective}
use zz_ftp.Gui.FileList.{FileRec}
use zz_ftp.Gui.State.{
  Act, writes_all_from, reads_all_to, OnData, list_3, retr_2, stor_2, Gui, Screen,
}
use zz_ftp.Gui.Events.{on_data, Event, handle_event, mode_click, on_retr_2, on_stor_2, run_data}
use zz_ftp.Gui.Window.{
  waits, awaited, fresh, moves_file, Answers, Window, Step, answer, progress, click, toggle,
  is_click, refuses, is_refusal,
}
use zz_ftp.Gui.Window.Balance.{work, left, Agrees, Fits, IsSettled, busy}
use zz_ftp.Gui.Window.Clicks.{idle, click-IsSettled}
use zz_ftp.Gui.Window.Replies.{IsDecided, answer-IsDecided}

-- Where the controls are disabled exactly one callback is to come, and else none; data_next is the
-- callback for what data_fd says, and a pending transfer is the one of data_next.
pub record IsOrderly (u : Window) : Type 0 where
  pub balance : length u.pending ≡ (if u.gui.loading then 1 else 0)
  pub agrees : Agrees u.gui.data_fd u.gui.data_next
  pub fits : All (Fits u.gui.data_next) u.pending

-- The controls are disabled and nothing is to come.
abbrev pub IsLocked : Window → Type 0
IsLocked u = (u.gui.loading ≡ true) × (u.pending ≡ [])

-- Orderly with at most n answers to come before the controls are enabled again; behind a refusal,
-- locked.
abbrev pub Holds : Bool → ℕ → Window → Type 0
Holds refused n u =
    ((refused ≡ false) × (IsOrderly u × (work u.gui.data_next u.pending ≤ n)))
    ⊎ ((refused ≡ true) × IsLocked u)

settled-Holds :
    (n : ℕ) (g : Gui) → IsSettled n g → Holds false n (record { gui = g; pending = awaited g.acts })
settled-Holds n g s =
    inl (refl, (record { balance = s.balance; agrees = s.agrees; fits = s.fits }, s.falls))

decided-Holds :
    (b : Bool) (n : ℕ) (g : Gui)
    → IsDecided b n g
    → Holds b n (record { gui = g; pending = awaited g.acts })
decided-Holds b n g (inl s) =
    inl (s.0, (record { balance = s.1.balance; agrees = s.1.agrees; fits = s.1.fits }, s.1.falls))
decided-Holds b n g (inr s) = inr s

-- What is known of a window, given whether an upload was refused on the way to it.
abbrev pub Outcome : Bool → Window → Type 0
Outcome refused u = ((refused ≡ false) × IsOrderly u) ⊎ ((refused ≡ true) × IsLocked u)

pub forget : {b : Bool} {n : ℕ} {u : Window} → Holds b n u → Outcome b u
forget (inl o) = inl (o.0, o.1.0)
forget (inr k) = inr k

Holds-mono : (b : Bool) (m n : ℕ) (u : Window) → m ≤ n → Holds b m u → Holds b n u
Holds-mono b m n u l (inl o) = let d = o.1.1 in inl (o.0, (o.1.0, omega arith))
Holds-mono b m n u l (inr k) = inr k

-- One pending call has nothing before or behind it.
pub alone :
    (before behind : List Act) (a : Act) (b : Bool)
    → length (before ++ a ∷ behind) ≡ (if b then 1 else 0)
    → (before ≡ []) × ((behind ≡ []) × (b ≡ true))
alone [] [] a true e = (refl, (refl, refl))
alone [] [] a false e = ground arith
alone [] (c ∷ behind) a true e = ground arith
alone [] (c ∷ behind) a false e = ground arith
alone (c ∷ []) behind a true e = ground arith
alone (c ∷ []) behind a false e = ground arith
alone (c ∷ d ∷ before) behind a true e = ground arith
alone (c ∷ d ∷ before) behind a false e = ground arith

none_pending :
    (acts : List Act) (b : Bool) → b ≡ false → length acts ≡ (if b then 1 else 0) → acts ≡ []
none_pending [] b n e = refl
none_pending (a ∷ acts) true n e = ground arith
none_pending (a ∷ acts) false n e = ground arith

one : (a : Act) (b : Bool) → b ≡ true → length (a ∷ []) ≡ (if b then 1 else 0)
one a b l = rw l refl

file-next : (a : Act) (k : OnData) → moves_file a ≡ true → Fits k a → k ≢ list_3
unfolding moves_file
file-next (writes_all_from fd) k m f e = cc
file-next (reads_all_to fd) k m f e = cc
file-next a k m f e = cc

pub fresh-busy : (g : Gui) → g.loading ≡ true → fresh g ≡ busy g
fresh-busy g l = ap (λ b. record g { acts = []; loading = b }) l

fresh-idle : (g : Gui) → g.loading ≡ false → fresh g ≡ idle g
fresh-idle g l = ap (λ b. record g { acts = []; loading = b }) l

module _ (w : Screen) (qsort : List FileRec → List FileRec) (g : Gui)
    (h : Agrees g.data_fd g.data_next) where
  answered-Holds :
      (a : Act) (e : Event) (g1 : Gui)
      → g.loading ≡ true
      → waits a ≡ true
      → Fits g.data_next a
      → Answers g a e
      → handle_event w qsort e (fresh g) ≡ some g1
      → Holds (refuses e) (left g.data_next a) (record { gui = g1; pending = awaited g1.acts })
  answered-Holds a e g1 l n f r q = decided-Holds _ _ g1 (
      answer-IsDecided g h w qsort a e g1 n f r
        (ap (handle_event w qsort e) (sym (fresh-busy g l)) ∙ q))

  clicked-Holds :
      (e : Event) (g1 : Gui)
      → g.loading ≡ false
      → is_click e ≡ true
      → handle_event w qsort e (fresh g) ≡ some g1
      → Holds false 10 (record { gui = g1; pending = awaited g1.acts })
  clicked-Holds e g1 l c q =
      settled-Holds 10 g1 (
        click-IsSettled g h w qsort e g1 c (ap (handle_event w qsort e) (sym (fresh-idle g l)) ∙ q))

  reported-Holds :
      (a : Act) (len : ℕ) (k : OnData) (n : ℕ) (g1 : Gui)
      → g.loading ≡ true
      → Fits g.data_next a
      → k ≢ list_3
      → work g.data_next (a ∷ []) ≤ n
      → run_data w qsort k (some len) [] (fresh g) ≡ some g1
      → Holds false n (record { gui = g1; pending = a ∷ awaited g1.acts })
  unfolding run_data on_stor_2 on_retr_2 awaited
  reported-Holds a len list_3 n g1 l f d b q = absurd (d refl)
  reported-Holds a len stor_2 n g1 l f d b q =
      subst (λ x. Holds false n (record { gui = x; pending = a ∷ awaited x.acts }))
        (some-injective _ _ q)
        (inl (refl, (record { balance = one a g.loading l; agrees = h; fits = (f, tt) }, b)))
  reported-Holds a len retr_2 n g1 l f d b q =
      subst (λ x. Holds false n (record { gui = x; pending = a ∷ awaited x.acts }))
        (some-injective _ _ q)
        (inl (refl, (record { balance = one a g.loading l; agrees = h; fits = (f, tt) }, b)))

  toggled-Holds :
      (pending : List Act) (n : ℕ) (g1 : Gui)
      → IsOrderly (record { gui = g; pending = pending })
      → work g.data_next pending ≤ n
      → some (mode_click (fresh g)) ≡ some g1
      → Holds false n (record { gui = g1; pending = pending ++ awaited g1.acts })
  unfolding mode_click awaited
  toggled-Holds pending n g1 o b q =
      subst (λ x. Holds false n (record { gui = x; pending = pending ++ awaited x.acts }))
        (some-injective _ _ q)
        (inl (
          refl,
          (
            record {
              balance = rw (append-nil pending) o.balance;
              agrees = o.agrees;
              fits = rw (append-nil pending) o.fits;
            },
            rw (append-nil pending) b,
          ),
        ))

  answer-Holds :
      (before behind : List Act) (a : Act) (e : Event) (n : ℕ) (g1 : Gui)
      → length (before ++ a ∷ behind) ≡ (if g.loading then 1 else 0)
      → All (Fits g.data_next) (before ++ a ∷ behind)
      → work g.data_next (before ++ a ∷ behind) ≤ n
      → waits a ≡ true
      → Answers g a e
      → handle_event w qsort e (fresh g) ≡ some g1
      → Holds
          (refuses e)
          (n - 1)
          (record { gui = g1; pending = before ++ (behind ++ awaited g1.acts) })
  answer-Holds [] [] a e n g1 b f d t r q =
      Holds-mono _ (left g.data_next a) (n - 1) _ (omega arith)
        (answered-Holds a e g1 (alone [] [] a g.loading b).1.1 t f.0 r q)
  answer-Holds [] (c ∷ behind) a e n g1 b f d t r q =
      let z = (alone [] (c ∷ behind) a g.loading b).1.0 in cc
  answer-Holds (c ∷ before) behind a e n g1 b f d t r q =
      let z = (alone (c ∷ before) behind a g.loading b).0 in cc

  progress-Holds :
      (before behind : List Act) (a : Act) (len n : ℕ) (g1 : Gui)
      → length (before ++ a ∷ behind) ≡ (if g.loading then 1 else 0)
      → All (Fits g.data_next) (before ++ a ∷ behind)
      → work g.data_next (before ++ a ∷ behind) ≤ n
      → moves_file a ≡ true
      → handle_event w qsort (on_data g.data_next (some len) []) (fresh g) ≡ some g1
      → Holds false n (record { gui = g1; pending = (before ++ a ∷ behind) ++ awaited g1.acts })
  unfolding handle_event
  progress-Holds [] [] a len n g1 b f d m q =
      reported-Holds a len g.data_next n g1 (alone [] [] a g.loading b).1.1 f.0
        (file-next a g.data_next m f.0) d q
  progress-Holds [] (c ∷ behind) a len n g1 b f d m q =
      let z = (alone [] (c ∷ behind) a g.loading b).1.0 in cc
  progress-Holds (c ∷ before) behind a len n g1 b f d m q =
      let z = (alone (c ∷ before) behind a g.loading b).0 in cc

-- What an event leaves of n answers.
abbrev pub rest : {qsort : List FileRec → List FileRec} {u v : Window} → ℕ → Step qsort u v → ℕ
rest n (answer _ _ _ _ _ _ _ _ _ _ _) = n - 1
rest n (progress _ _ _ _ _ _ _ _ _ _) = n
rest n (click _ _ _ _ _ _ _) = 10
rest n (toggle _ _ _ _) = n

module _ (qsort : List FileRec → List FileRec) where
  -- An event of an orderly window.
  pub step_outcome :
      {u v : Window} (n : ℕ)
      → IsOrderly u
      → work u.gui.data_next u.pending ≤ n
      → (s : Step qsort u v) → Holds (is_refusal qsort s) (rest n s) v
  unfolding handle_event is_refusal
  step_outcome {u} {v} m o d (answer w before behind a e g1 p n r q s) =
      subst (Holds (refuses e) (m - 1)) (sym s) (
        answer-Holds w qsort u.gui o.agrees before behind a e m g1 (ap length (sym p) ∙ o.balance)
          (subst (All (Fits u.gui.data_next)) p o.fits)
          (subst (λ x. work u.gui.data_next x ≤ m) p d) n r q)
  step_outcome {u} {v} n o d (progress w before behind a len g1 p m q s) =
      subst (Holds false n) (sym s) (
        subst (λ x. Holds false n (record { gui = g1; pending = x ++ awaited g1.acts })) (sym p)
          (progress-Holds w qsort u.gui o.agrees before behind a len n g1
            (ap length (sym p) ∙ o.balance) (subst (All (Fits u.gui.data_next)) p o.fits)
            (subst (λ x. work u.gui.data_next x ≤ n) p d) m q))
  step_outcome {u} {v} n o d (click w e g1 c l q s) = subst (Holds false 10) (sym s) (
      subst (λ x. Holds false 10 (record { gui = g1; pending = x ++ awaited g1.acts }))
        (sym (none_pending u.pending u.gui.loading l o.balance))
        (clicked-Holds w qsort u.gui o.agrees e g1 l c q))
  step_outcome {u} {v} n o d (toggle w g1 q s) =
      subst (Holds false n) (sym s) (toggled-Holds w qsort u.gui o.agrees u.pending n g1 o d q)

  pub nothing : (before behind : List Act) (a : Act) → before ++ a ∷ behind ≢ []
  nothing [] behind a e = cc
  nothing (c ∷ before) behind a e = cc

  -- An event of a locked window.
  pub step_never_unlocks : {u v : Window} → IsLocked u → Step qsort u v → IsLocked v
  unfolding handle_event mode_click awaited
  step_never_unlocks {u} {v} k (answer w before behind a e g1 p n r q s) =
      absurd (nothing before behind a (sym p ∙ k.1))
  step_never_unlocks {u} {v} k (progress w before behind a len g1 p m q s) =
      absurd (nothing before behind a (sym p ∙ k.1))
  step_never_unlocks {u} {v} k (click w e g1 c l q s) = let z = k.0 in cc
  step_never_unlocks {u} {v} k (toggle w g1 q s) = subst IsLocked (sym s) (
      subst (λ x. IsLocked (record { gui = x; pending = u.pending ++ awaited x.acts }))
        (some-injective _ _ q) (k.0, rw (append-nil u.pending) k.1))
