-- ===== src/Gui/Window/Replies.antt =====
-- The callback of a pending call settles the window, or is the refusal of an upload.
use zz_ftp.Prelude.{
  ℕ, ◌≡◌, refl, Bool, true, false, not, none, some, List, [], ◌==◌, Bytes, Bool-cases, ◌⊎◌, inl,
  inr,
}
use mathlib.Core.Path.{subst, ap}
use mathlib.Core.Option.{some-injective}
use zz_ftp.Gui.Address.{pasv_address}
use zz_ftp.Gui.FileList.{FileRec}
use zz_ftp.Gui.State.{
  OnMark, no_callback, data_pasv_1, data_port_1, list_1, sys_1, sys_2, cwd_1, rename_1, rename_2,
  mkd_1, rm_1, stor_3, auth_1, auth_2, auth_3, disconn_1, OnConnect, data_2, connection_setup,
  OnData, list_3, retr_2, stor_2, ConnCode, Act, reads_mark, reads_all, Gui, Screen,
}
use zz_ftp.Gui.Actions.{on_data_pasv_1}
use zz_ftp.Gui.Events.{on_stor_3, Event, on_mark, on_connect, run_mark, run_data, handle_event}
use zz_ftp.Gui.Window.{
  waits, awaited, refuses, Answers, mark_read, control_connected, data_connected, accepted,
  all_written, all_read_to, all_read,
}
use zz_ftp.Gui.Window.Balance.{
  left, dialled, Agrees, Fits, IsSettled, busy, on_sys_1-IsSettled, on_cwd_1-IsSettled,
  on_rename_1-IsSettled, on_rename_2-IsSettled, on_mkd_1-IsSettled, on_rm_1-IsSettled,
  on_auth_3-IsSettled, on_auth_1-IsSettled, on_auth_2-IsSettled, on_sys_2-IsSettled,
  on_disconn_1-IsSettled, on_connection_setup-IsSettled, connect_data-IsSettled,
  on_data_port_1-IsSettled,
}
use zz_ftp.Gui.Window.Callbacks.{
  on_data_2-IsSettled, on_list_1-IsSettled, on_list_3-IsSettled, on_retr_2-IsSettled,
  on_stor_2-IsSettled, on_stor_3-IsSettled,
}

-- The controls are disabled and no callback is to come.
abbrev pub IsStuck : Gui → Type 0
IsStuck g = (g.loading ≡ true) × (awaited g.acts ≡ [])

-- How many answers can follow on the end of a transfer.
abbrev ending : OnData → ℕ
ending list_3 = 0
ending retr_2 = 0
ending stor_2 = 5

-- Behind a refusal the window is stuck, and behind all else it is settled.
abbrev pub IsDecided : Bool → ℕ → Gui → Type 0
IsDecided refused n g = ((refused ≡ false) × IsSettled n g) ⊎ ((refused ≡ true) × IsStuck g)

decide : (n : ℕ) (g g1 : Gui) → IsSettled n g → some g ≡ some g1 → IsDecided false n g1
decide n g g1 s e = inl (refl, subst (IsSettled n) (some-injective _ _ e) s)

module _ (g : Gui) (h : Agrees g.data_fd g.data_next) where
  pub refused-IsStuck :
      (w : Screen) (code : ℕ) → (code == 226) ≡ false → IsStuck (on_stor_3 w code (busy g))
  unfolding on_stor_3 awaited
  refused-IsStuck w code n = simp (n) (refl, refl)

  confirmed-IsDecided :
      (w : Screen) (code : ℕ) → IsDecided (not (code == 226)) 4 (on_stor_3 w code (busy g))
  confirmed-IsDecided w code = elim (Bool-cases (code == 226)) [
    | inl ok ↦ inl (ap not ok, on_stor_3-IsSettled g h w code ok)
    | inr bad ↦ inr (ap not bad, refused-IsStuck w code bad)
  ]

  run_mark-IsDecided :
      (w : Screen) (k : OnMark) (code : ℕ) (s : Bytes) (g1 : Gui)
      → waits (reads_mark k) ≡ true
      → run_mark w k code s (busy g) ≡ some g1
      → IsDecided (refuses (on_mark k code s)) (left g.data_next (reads_mark k)) g1
  unfolding run_mark waits on_data_pasv_1 refuses
  run_mark-IsDecided w no_callback code s g1 n e = cc
  run_mark-IsDecided w data_pasv_1 code s g1 n e =
      decide _ _ g1 (connect_data-IsSettled g h (pasv_address code s)) e
  run_mark-IsDecided w data_port_1 code s g1 n e =
      decide _ _ g1 (on_data_port_1-IsSettled g h code) e
  run_mark-IsDecided w list_1 code s g1 n e = inl (refl, on_list_1-IsSettled g h w code s g1 e)
  run_mark-IsDecided w sys_1 code s g1 n e = decide _ _ g1 (on_sys_1-IsSettled g h code) e
  run_mark-IsDecided w sys_2 code s g1 n e = decide _ _ g1 (on_sys_2-IsSettled g h code s) e
  run_mark-IsDecided w cwd_1 code s g1 n e = decide _ _ g1 (on_cwd_1-IsSettled g h code) e
  run_mark-IsDecided w rename_1 code s g1 n e = decide _ _ g1 (on_rename_1-IsSettled g h code) e
  run_mark-IsDecided w rename_2 code s g1 n e = decide _ _ g1 (on_rename_2-IsSettled g h code) e
  run_mark-IsDecided w mkd_1 code s g1 n e = decide _ _ g1 (on_mkd_1-IsSettled g h code) e
  run_mark-IsDecided w rm_1 code s g1 n e = decide _ _ g1 (on_rm_1-IsSettled g h code) e
  run_mark-IsDecided w stor_3 code s g1 n e =
      subst (IsDecided _ _) (some-injective _ _ e) (confirmed-IsDecided w code)
  run_mark-IsDecided w auth_1 code s g1 n e = decide _ _ g1 (on_auth_1-IsSettled g h w code) e
  run_mark-IsDecided w auth_2 code s g1 n e = decide _ _ g1 (on_auth_2-IsSettled g h w code) e
  run_mark-IsDecided w auth_3 code s g1 n e = decide _ _ g1 (on_auth_3-IsSettled g h code) e
  run_mark-IsDecided w disconn_1 code s g1 n e = decide _ _ g1 (on_disconn_1-IsSettled g h code s) e

  connected-IsDecided :
      (w : Screen) (qsort : List FileRec → List FileRec) (k : OnConnect) (code : ConnCode)
      (g1 : Gui)
      → handle_event w qsort (on_connect k code) (busy g) ≡ some g1
      → IsDecided false (dialled g.data_next k) g1
  unfolding handle_event
  connected-IsDecided w qsort data_2 code g1 e = decide _ _ g1 (on_data_2-IsSettled g h code) e
  connected-IsDecided w qsort connection_setup code g1 e =
      decide _ _ g1 (on_connection_setup-IsSettled g h code) e

  run_data-IsDecided :
      (w : Screen) (qsort : List FileRec → List FileRec) (k : OnData) (listing : Bytes) (g1 : Gui)
      → run_data w qsort k none listing (busy g) ≡ some g1
      → IsDecided false (ending k) g1
  unfolding run_data
  run_data-IsDecided w qsort list_3 listing g1 e =
      inl (refl, on_list_3-IsSettled g h qsort listing g1 e)
  run_data-IsDecided w qsort retr_2 listing g1 e = decide _ _ g1 (on_retr_2-IsSettled g h w) e
  run_data-IsDecided w qsort stor_2 listing g1 e = decide _ _ g1 (on_stor_2-IsSettled g h w) e

  listed-IsDecided :
      (w : Screen) (qsort : List FileRec → List FileRec) (k : OnData) (len : ℕ) (listing : Bytes)
      (g1 : Gui)
      → Fits g.data_next (reads_all k)
      → run_data w qsort k (some len) listing (busy g) ≡ some g1
      → IsDecided false (left g.data_next (reads_all k)) g1
  unfolding run_data
  listed-IsDecided w qsort list_3 len listing g1 f e =
      inl (refl, on_list_3-IsSettled g h qsort listing g1 e)
  listed-IsDecided w qsort retr_2 len listing g1 f e = cc
  listed-IsDecided w qsort stor_2 len listing g1 f e = cc

  pub answer-IsDecided :
      (w : Screen) (qsort : List FileRec → List FileRec) (a : Act) (ev : Event) (g1 : Gui)
      → waits a ≡ true
      → Fits g.data_next a
      → Answers g a ev
      → handle_event w qsort ev (busy g) ≡ some g1
      → IsDecided (refuses ev) (left g.data_next a) g1
  unfolding handle_event refuses
  answer-IsDecided w qsort a ev g1 n f (mark_read k code s) e = run_mark-IsDecided w k code s g1 n e
  answer-IsDecided w qsort a ev g1 n f (control_connected host port k code) e =
      connected-IsDecided w qsort k code g1 e
  answer-IsDecided w qsort a ev g1 n f (data_connected host port k code) e =
      connected-IsDecided w qsort k code g1 e
  answer-IsDecided w qsort a ev g1 n f (accepted k code) e = connected-IsDecided w qsort k code g1 e
  answer-IsDecided w qsort a ev g1 n f (all_written fd) e =
      subst (λ m. IsDecided false m g1) (ap ending f)
        (run_data-IsDecided w qsort g.data_next [] g1 e)
  answer-IsDecided w qsort a ev g1 n f (all_read_to fd) e =
      subst (λ m. IsDecided false m g1) (ap ending f)
        (run_data-IsDecided w qsort g.data_next [] g1 e)
  answer-IsDecided w qsort a ev g1 n f (all_read k listing) e =
      listed-IsDecided w qsort k _ listing g1 f e
