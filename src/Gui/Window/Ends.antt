-- ===== src/Gui/Window/Ends.antt =====
-- A run without clicks comes to an end: how many answers it can have.
use zz_ftp.Prelude.{
  sym, length, ◌≤◌, ◌+◌, ◌-◌, suc, ℕ, ◌≡◌, refl, arith, Bool, true, false, ◌||◌, List, [], ◌∷◌,
  ◌++◌, if◌then◌else◌, ◌⊎◌, inl, inr,
}
use mathlib.Core.Path.{subst, ap}
use zz_ftp.Gui.FileList.{FileRec}
use zz_ftp.Gui.State.{
  OnMark, no_callback, data_pasv_1, data_port_1, list_1, sys_1, sys_2, cwd_1, rename_1, rename_2,
  mkd_1, rm_1, stor_3, auth_1, auth_2, auth_3, disconn_1, OnConnect, data_2, connection_setup,
  reads_mark, Act, writes, connects_control, connects_data, listens, writes_all_from, reads_all_to,
  reads_all, closes_control, closes_data, closes_fd, OnData, list_3, retr_2, stor_2,
}
use zz_ftp.Gui.Window.{
  Window, Step, answer, progress, click, toggle, is_answer, is_clicked, is_refusal, has_refusal,
  unclicked_run, Unclicked, begun, answered, passed,
}
use zz_ftp.Gui.Window.Balance.{work, left, after, dialled}
use zz_ftp.Gui.Window.Steps.{IsOrderly, IsLocked, Holds, rest, step_outcome, step_never_unlocks}

after-bound : (k : OnData) → after k ≤ 6
after-bound list_3 = omega arith
after-bound retr_2 = omega arith
after-bound stor_2 = omega arith

dialled-bound : (k : OnData) (c : OnConnect) → dialled k c ≤ 9
dialled-bound k data_2 = let b = after-bound k in omega arith
dialled-bound k connection_setup = omega arith

marked-bound : (k : OnData) (m : OnMark) → left k (reads_mark m) ≤ 9
marked-bound k no_callback = omega arith
marked-bound k data_pasv_1 = let b = after-bound k in omega arith
marked-bound k data_port_1 = let b = after-bound k in omega arith
marked-bound k list_1 = omega arith
marked-bound k sys_1 = omega arith
marked-bound k sys_2 = omega arith
marked-bound k cwd_1 = omega arith
marked-bound k rename_1 = omega arith
marked-bound k rename_2 = omega arith
marked-bound k mkd_1 = omega arith
marked-bound k rm_1 = omega arith
marked-bound k stor_3 = omega arith
marked-bound k auth_1 = omega arith
marked-bound k auth_2 = omega arith
marked-bound k auth_3 = omega arith
marked-bound k disconn_1 = omega arith

left-bound : (k : OnData) (a : Act) → left k a ≤ 9
left-bound k (reads_mark m) = marked-bound k m
left-bound k (connects_control host port c) = dialled-bound k c
left-bound k (connects_data host port c) = dialled-bound k c
left-bound k (listens c) = dialled-bound k c
left-bound k (writes s) = omega arith
left-bound k (writes_all_from fd) = omega arith
left-bound k (reads_all_to fd) = omega arith
left-bound k (reads_all c) = omega arith
left-bound k closes_control = omega arith
left-bound k closes_data = omega arith
left-bound k (closes_fd fd) = omega arith

work-bound :
    (k : OnData) (acts : List Act) (b : Bool)
    → length acts ≡ (if b then 1 else 0)
    → work k acts ≤ 10
work-bound k [] b e = omega arith
work-bound k (a ∷ []) b e = let d = left-bound k a in omega arith
work-bound k (a ∷ c ∷ acts) true e = ground arith
work-bound k (a ∷ c ∷ acts) false e = ground arith

-- The answers that were given and those that can still come are ten at most.
Spent : Bool → ℕ → Window → Type 0
Spent refused n u =
    ((refused ≡ false) × (IsOrderly u × (n + work u.gui.data_next u.pending ≤ 10)))
    ⊎ ((refused ≡ true) × (IsLocked u × (n ≤ 10)))

module _ (qsort : List FileRec → List FileRec) where
  due : (k : OnData) (before behind : List Act) (a : Act) → 1 ≤ work k (before ++ a ∷ behind)
  due k [] behind a = omega arith
  due k (c ∷ before) behind a = omega arith

  answer-due :
      {u v : Window} (s : Step qsort u v)
      → is_answer qsort s ≡ true
      → 1 ≤ work u.gui.data_next u.pending
  unfolding is_answer
  answer-due {u} (answer w before behind a e g1 p n r q s) t =
      subst (λ x. 1 ≤ work u.gui.data_next x) (sym p) (due u.gui.data_next before behind a)
  answer-due (progress w before behind a len g1 p m q s) t = cc
  answer-due (click w e g1 c l q s) t = cc
  answer-due (toggle w g1 q s) t = cc

  rest-answer :
      {u v : Window} (n : ℕ) (s : Step qsort u v) → is_answer qsort s ≡ true → rest n s ≡ n - 1
  unfolding is_answer
  rest-answer n (answer w before behind a e g1 p m r q s) t = refl
  rest-answer n (progress w before behind a len g1 p m q s) t = cc
  rest-answer n (click w e g1 c l q s) t = cc
  rest-answer n (toggle w g1 q s) t = cc

  rest-passed :
      {u v : Window} (n : ℕ) (s : Step qsort u v)
      → is_answer qsort s ≡ false
      → is_clicked qsort s ≡ false
      → rest n s ≡ n
  unfolding is_answer is_clicked
  rest-passed n (answer w before behind a e g1 p m r q s) t c = cc
  rest-passed n (progress w before behind a len g1 p m q s) t c = refl
  rest-passed n (click w e g1 b l q s) t c = cc
  rest-passed n (toggle w g1 q s) t c = refl

  settle :
      (a b : Bool) (m n : ℕ) (u : Window)
      → a ≡ false
      → m + n ≤ 10
      → Holds b m u
      → Spent (a || b) n u
  unfolding Spent
  settle a b m n u z l (inl o) = let d = o.1.1 in inl (ground arith, (o.1.0, omega arith))
  settle a b m n u z l (inr k) = inr (ground arith, (k.1, omega arith))

  Spent-answer :
      {u v : Window} (a : Bool) (n : ℕ) (s : Step qsort u v)
      → is_answer qsort s ≡ true
      → Spent a n u
      → Spent (a || is_refusal qsort s) (suc n) v
  unfolding Spent
  Spent-answer {u} {v} a n s t (inl (z, (o, b))) =
      let d = answer-due s t in
      settle a _ (10 - n - 1) (suc n) v z (omega arith) (
        subst (λ x. Holds (is_refusal qsort s) x v) (rest-answer (10 - n) s t)
          (step_outcome qsort (10 - n) o (omega arith) s))
  Spent-answer {u} {v} a n s t (inr (z, (k, b))) =
      let d = subst (λ x. 1 ≤ work u.gui.data_next x) k.1 (answer-due s t) in ground arith

  Spent-passed :
      {u v : Window} (a : Bool) (n : ℕ) (s : Step qsort u v)
      → is_answer qsort s ≡ false
      → is_clicked qsort s ≡ false
      → Spent a n u
      → Spent (a || is_refusal qsort s) n v
  unfolding Spent
  Spent-passed {u} {v} a n s t c (inl (z, (o, b))) = settle a _ (10 - n) n v z (omega arith) (
      subst (λ x. Holds (is_refusal qsort s) x v) (rest-passed (10 - n) s t c)
        (step_outcome qsort (10 - n) o (omega arith) s))
  Spent-passed {u} {v} a n s t c (inr (z, (k, b))) =
      inr (ground arith, (step_never_unlocks qsort k s, b))

  Unclicked-Spent :
      {u : Window} {n : ℕ} {v : Window}
      → IsOrderly u
      → (r : Unclicked qsort u n v) → Spent (has_refusal qsort (unclicked_run qsort r)) n v
  unfolding Spent has_refusal unclicked_run
  Unclicked-Spent {u} o begun =
      let d = work-bound u.gui.data_next u.pending u.gui.loading o.balance in
      inl (refl, (o, omega arith))
  Unclicked-Spent o (answered r s a) = Spent-answer _ _ s a (Unclicked-Spent o r)
  Unclicked-Spent o (passed r s a c) = Spent-passed _ _ s a c (Unclicked-Spent o r)

  length-work : (k : OnData) (acts : List Act) → length acts ≤ work k acts
  length-work k [] = omega arith
  length-work k (a ∷ acts) = let d = length-work k acts in omega arith

  Spent-ends :
      (b : Bool) (n : ℕ) (v : Window)
      → Spent b n v
      → (n + length v.pending ≤ 10)
        × (((b ≡ false) × (length v.pending ≡ (if v.gui.loading then 1 else 0)))
            ⊎ ((b ≡ true) × IsLocked v))
  unfolding Spent
  Spent-ends b n v (inl (z, (o, l))) =
      let d = length-work v.gui.data_next v.pending in (omega arith, inl (z, o.balance))
  Spent-ends b n v (inr (z, (k, l))) = (let e = ap length k.1 in omega arith, inr (z, k))

  -- A run without clicks from an orderly window has at most ten answers, the one that is still to
  -- come included. If no upload is refused in it, one callback is to come behind it exactly where
  -- the controls are disabled, so that ten answers enable them; if one is, the controls are disabled
  -- with nothing to come.
  pub ends_soon :
      {u v : Window} {n : ℕ}
      → IsOrderly u
      → (r : Unclicked qsort u n v)
      → (n + length v.pending ≤ 10)
        × (((has_refusal qsort (unclicked_run qsort r) ≡ false)
              × (length v.pending ≡ (if v.gui.loading then 1 else 0)))
            ⊎ ((has_refusal qsort (unclicked_run qsort r) ≡ true) × IsLocked v))
  ends_soon o r = Spent-ends _ _ _ (Unclicked-Spent o r)
