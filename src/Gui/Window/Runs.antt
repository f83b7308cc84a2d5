-- ===== src/Gui/Window/Runs.antt =====
-- Runs of the window, with and without the refusal of an upload.
use zz_ftp.Prelude.{
  sym, length, ℕ, ◌≡◌, ◌==◌, refl, arith, Bool, true, false, ◌||◌, some, List, [], ◌∷◌, Bytes, ◌⊎◌,
  inl, inr,
}
use mathlib.Core.Path.{subst, ap, ◌∙◌}
use zz_ftp.Gui.FileList.{FileRec}
use zz_ftp.Gui.State.{stor_3, reads_mark, Gui, Screen}
use zz_ftp.Gui.Events.{on_mark, on_stor_3, run_mark, handle_event}
use zz_ftp.Gui.Window.{
  waits, mark_read, awaited, fresh, Window, Step, answer, Reach, here, next, has_refusal,
}
use zz_ftp.Gui.Window.Balance.{work}
use zz_ftp.Gui.Window.Replies.{refused-IsStuck, IsStuck}
use zz_ftp.Gui.Window.Steps.{
  IsOrderly, IsLocked, Outcome, forget, alone, fresh-busy, step_outcome, step_never_unlocks,
}

module _ (qsort : List FileRec → List FileRec) where
  or-unrefused : {a b : Bool} {v : Window} → a ≡ false → Outcome b v → Outcome (a || b) v
  or-unrefused e (inl o) = inl (ground arith, o.1)
  or-unrefused e (inr k) = inr (ground arith, k.1)

  -- A run from a window with one callback to come while its controls are disabled and none otherwise,
  -- and with data_next the callback that fits data_fd at each transfer: if no upload is refused in
  -- it (no mark behind an upload is other than 226), it leads to such a window again; if one is, it
  -- leads to a window whose controls are disabled with nothing to come.
  pub run_outcome :
      {u v : Window}
      → IsOrderly u
      → (r : Reach qsort u v)
      → ((has_refusal qsort r ≡ false) × IsOrderly v) ⊎ ((has_refusal qsort r ≡ true) × IsLocked v)
  unfolding has_refusal
  run_outcome o here = inl (refl, o)
  run_outcome o (next {v} r s) = elim (run_outcome o r) [
    | inl o1 ↦
        or-unrefused o1.0
          (forget (step_outcome qsort (work v.gui.data_next v.pending) o1.1 (omega arith) s))
    | inr k ↦ inr (let e = k.0 in ground arith, step_never_unlocks qsort k.1 s)
  ]

  -- A window whose controls are disabled with nothing to come stays so in every run: no event
  -- enables them again.
  pub never_unlocks : {u v : Window} → IsLocked u → Reach qsort u v → IsLocked v
  never_unlocks k here = k
  never_unlocks k (next r s) = step_never_unlocks qsort (never_unlocks k r) s

  -- Where the one callback to come is that of the mark behind an upload, and the mark that comes is
  -- not 226, the callback for it can be made, and leaves the controls disabled with nothing to come.
  pub refused_locks :
      {u : Window} (w : Screen) (code : ℕ) (s : Bytes)
      → IsOrderly u
      → u.pending ≡ reads_mark stor_3 ∷ []
      → (code == 226) ≡ false
      → (g : Gui) × (handle_event w qsort (on_mark stor_3 code s) (fresh u.gui) ≡ some g)
        × (Step qsort u (record { gui = g; pending = awaited g.acts })
            × IsLocked (record { gui = g; pending = awaited g.acts }))
  unfolding handle_event run_mark waits
  refused_locks {u} w code s o p n =
      let l = (alone [] [] (reads_mark stor_3) u.gui.loading (ap length (sym p) ∙ o.balance)).1.1 in
      let g1 = on_stor_3 w code (fresh u.gui) in
      (
        g1,
        refl,
        (
          answer w [] [] (reads_mark stor_3) (on_mark stor_3 code s) g1 p refl
              (mark_read stor_3 code s) refl refl,
          subst (λ x. IsStuck (on_stor_3 w code x)) (sym (fresh-busy u.gui l))
              (refused-IsStuck u.gui o.agrees w code n),
        ),
      )
