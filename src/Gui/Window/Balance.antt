-- ===== src/Gui/Window/Balance.antt =====
-- One event of the window: behind it there is one callback to come where the controls are disabled,
-- and none where they are enabled.
use zz_ftp.Prelude.{
  All, List, ◌∷◌, suc, ◌+◌, ◌≤◌, ℕ, ◌≡◌, refl, arith, true, Option, none, some, [], ◌==◌,
  if◌then◌else◌, Bytes, length, Bool-cases, inl, inr,
}
use zz_ftp.Gui.State.{
  data_pasv_1, data_port_1, list_1, sys_1, sys_2, cwd_1, rename_1, rename_2, mkd_1, rm_1, stor_3,
  auth_1, auth_2, auth_3, reads_mark, connects_control, OnConnect, connection_setup, data_2, OnData,
  list_3, retr_2, stor_2, Inter, no_inter, list_2, retr_1, stor_1, DataFd, to_memory, from_fd,
  to_fd, ConnCode, established, err_socket, err_thread, err_connect, Act, connects_data, listens,
  act, statusf, reads_all, writes_all_from, reads_all_to, Gui, Screen, loading, done,
}
use zz_ftp.Gui.Actions.{
  run_inter, connect_data, on_data_port_1, do_list, do_sys_setup, on_sys_1, on_sys_2, on_cwd_1,
  on_rename_1, on_rename_2, on_mkd_1, on_rm_1,
}
use zz_ftp.Gui.Events.{do_auth, on_auth_1, on_auth_2, on_auth_3, on_connection_setup, on_disconn_1}
use zz_ftp.Gui.Window.{waits, awaited, keep_if}

abbrev pub Agrees : DataFd → OnData → Type 0
Agrees to_memory list_3 = Unit
Agrees (from_fd _) stor_2 = Unit
Agrees (to_fd _) retr_2 = Unit
Agrees _ _ = ⊥

-- A pending transfer is the one that data_fd and data_next are about.
abbrev pub Fits : OnData → Act → Type 0
Fits next (reads_all k) = k ≡ list_3
Fits next (writes_all_from _) = next ≡ stor_2
Fits next (reads_all_to _) = next ≡ retr_2
Fits next _ = Unit

-- How many answers the data connection takes once it is to be made.
abbrev pub after : OnData → ℕ
after list_3 = 1
after retr_2 = 1
after stor_2 = 6

abbrev pub dialled : OnData → OnConnect → ℕ
dialled next data_2 = after next
dialled next connection_setup = 9

-- How many answers can follow on the one to a call, before the controls are enabled again.
abbrev pub left : OnData → Act → ℕ
left next (reads_mark data_pasv_1) = suc (after next)
left next (reads_mark data_port_1) = suc (after next)
left next (reads_mark list_1) = 3
left next (reads_mark sys_1) = 5
left next (reads_mark sys_2) = 4
left next (reads_mark cwd_1) = 4
left next (reads_mark rename_1) = 5
left next (reads_mark rename_2) = 4
left next (reads_mark mkd_1) = 4
left next (reads_mark rm_1) = 4
left next (reads_mark stor_3) = 4
left next (reads_mark auth_1) = 8
left next (reads_mark auth_2) = 7
left next (reads_mark auth_3) = 6
left next (connects_control _ _ k) = dialled next k
left next (connects_data _ _ k) = dialled next k
left next (listens k) = dialled next k
left next (writes_all_from _) = 5
left next _ = 0

abbrev pub work : OnData → List Act → ℕ
work next [] = 0
work next (a ∷ acts) = suc (left next a) + work next acts

pub record IsSettled (n : ℕ) (g : Gui) : Type 0 where
  pub balance : length (awaited g.acts) ≡ (if g.loading then 1 else 0)
  pub agrees : Agrees g.data_fd g.data_next
  pub fits : All (Fits g.data_next) (awaited g.acts)
  pub falls : work g.data_next (awaited g.acts) ≤ n

pub weaken : (m n : ℕ) (g : Gui) → m ≤ n → IsSettled m g → IsSettled n g
weaken m n g l s = record {
  balance = s.balance;
  agrees = s.agrees;
  fits = s.fits;
  falls = (let f = s.falls in omega arith);
}

-- The state in which a callback finds the window.
abbrev pub busy : Gui → Gui
busy g = record g { acts = []; loading = true }

module _ (g : Gui) (h : Agrees g.data_fd g.data_next) where
  pub do_list-IsSettled : IsSettled 4 (do_list (busy g))
  unfolding do_list awaited keep_if waits loading
  do_list-IsSettled = record { balance = refl; agrees = h; fits = (tt, tt); falls = omega arith }

  pub on_sys_1-IsSettled : (code : ℕ) → IsSettled 5 (on_sys_1 code (busy g))
  unfolding on_sys_1 awaited keep_if waits loading done
  on_sys_1-IsSettled code = ground arith

  pub on_cwd_1-IsSettled : (code : ℕ) → IsSettled 4 (on_cwd_1 code (busy g))
  unfolding on_cwd_1 do_list awaited keep_if waits loading done
  on_cwd_1-IsSettled code = ground arith

  pub on_rename_1-IsSettled : (code : ℕ) → IsSettled 5 (on_rename_1 code (busy g))
  unfolding on_rename_1 awaited keep_if waits loading done
  on_rename_1-IsSettled code = ground arith

  pub on_rename_2-IsSettled : (code : ℕ) → IsSettled 4 (on_rename_2 code (busy g))
  unfolding on_rename_2 do_list awaited keep_if waits loading done
  on_rename_2-IsSettled code = ground arith

  pub on_mkd_1-IsSettled : (code : ℕ) → IsSettled 4 (on_mkd_1 code (busy g))
  unfolding on_mkd_1 do_list awaited keep_if waits loading done
  on_mkd_1-IsSettled code = ground arith

  pub on_rm_1-IsSettled : (code : ℕ) → IsSettled 4 (on_rm_1 code (busy g))
  unfolding on_rm_1 do_list awaited keep_if waits loading done
  on_rm_1-IsSettled code = ground arith

  pub on_auth_3-IsSettled : (code : ℕ) → IsSettled 6 (on_auth_3 code (busy g))
  unfolding on_auth_3 do_sys_setup awaited keep_if waits loading done
  on_auth_3-IsSettled code = ground arith

  pub on_auth_1-IsSettled : (w : Screen) (code : ℕ) → IsSettled 8 (on_auth_1 w code (busy g))
  unfolding on_auth_1 awaited keep_if waits loading done
  on_auth_1-IsSettled w code = ground arith

  pub on_auth_2-IsSettled : (w : Screen) (code : ℕ) → IsSettled 7 (on_auth_2 w code (busy g))
  unfolding on_auth_2 awaited keep_if waits loading done
  on_auth_2-IsSettled w code = ground arith

  pub on_sys_2-IsSettled : (code : ℕ) (s : Bytes) → IsSettled 4 (on_sys_2 code s (busy g))
  unfolding on_sys_2 do_list awaited keep_if waits loading done
  on_sys_2-IsSettled code s = ground arith

  pub on_disconn_1-IsSettled : (code : ℕ) (s : Bytes) → IsSettled 0 (on_disconn_1 code s (busy g))
  unfolding on_disconn_1 awaited keep_if waits loading done
  on_disconn_1-IsSettled code s = ground arith

  pub on_connection_setup-IsSettled :
      (code : ConnCode) → IsSettled 9 (on_connection_setup code (busy g))
  unfolding on_connection_setup do_auth awaited keep_if waits loading done
  on_connection_setup-IsSettled established = ground arith
  on_connection_setup-IsSettled err_socket = ground arith
  on_connection_setup-IsSettled err_thread = ground arith
  on_connection_setup-IsSettled err_connect = ground arith

  pub connect_inter-IsSettled :
      (i : Inter) (host s : Bytes) (port : ℕ)
      → IsSettled
          (suc (after g.data_next))
          (run_inter i (act (connects_data host port data_2) (statusf s (busy g))))
  unfolding run_inter awaited keep_if waits loading done
  connect_inter-IsSettled no_inter host s port = ground arith
  connect_inter-IsSettled list_2 host s port = ground arith
  connect_inter-IsSettled retr_1 host s port = ground arith
  connect_inter-IsSettled stor_1 host s port = ground arith

  pub connect_data-IsSettled :
      (o : Option (Bytes × ℕ)) → IsSettled (suc (after g.data_next)) (connect_data o (busy g))
  unfolding connect_data awaited keep_if waits loading done
  connect_data-IsSettled none = ground arith
  connect_data-IsSettled (some (host, port)) = connect_inter-IsSettled g.data_inter host _ port

  pub listen_inter-IsSettled :
      (i : Inter) (s : Bytes)
      → IsSettled
          (suc (after g.data_next))
          (act (listens data_2) (statusf s (run_inter i (busy g))))
  unfolding run_inter awaited keep_if waits loading done
  listen_inter-IsSettled no_inter s = ground arith
  listen_inter-IsSettled list_2 s = ground arith
  listen_inter-IsSettled retr_1 s = ground arith
  listen_inter-IsSettled stor_1 s = ground arith

  pub on_data_port_1-IsSettled :
      (code : ℕ) → IsSettled (suc (after g.data_next)) (on_data_port_1 code (busy g))
  unfolding on_data_port_1 awaited keep_if waits loading done
  on_data_port_1-IsSettled code = elim (Bool-cases (code == 200)) [
    | inl ok ↦ rw ok (listen_inter-IsSettled g.data_inter _)
    | inr bad ↦ rw bad (record { balance = refl; agrees = h; fits = tt; falls = omega arith })
  ]
