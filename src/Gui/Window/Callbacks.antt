-- ===== src/Gui/Window/Callbacks.antt =====
-- The callbacks that carry data, and the clicks, settle the window like the others.
use zz_ftp.Prelude.{
  suc, ◌≤◌, ℕ, codes, ◌≡◌, refl, arith, Bool, true, false, Option, none, some, List, [], ◌∷◌, ◌++◌,
  ◌==◌, if◌then◌else◌, Bytes, Bool-cases, inl, inr,
}
use mathlib.Core.Path.{subst}
use mathlib.Core.Option.{some-injective}
use zz_ftp.Gui.FileList.{FileRec}
use zz_ftp.Gui.Listing.{Quoted, quoted, unquoted, fault, quoted_dir}
use zz_ftp.Gui.State.{
  no_callback, data_pasv_1, OnData, list_3, retr_2, stor_2, Inter, list_2, DataFd, to_memory,
  from_fd, to_fd, ConnCode, established, err_socket, err_thread, err_connect, act, statusf, status,
  reads_mark, closes_data, Gui, Screen, loading, done, give_up, request,
}
use zz_ftp.Gui.Actions.{
  do_data_port, do_data, start_data, on_data_2, do_list, list_dir, on_list_1, show_listing,
  on_list_3,
}
use zz_ftp.Gui.Events.{on_retr_2, on_stor_2, on_stor_3}
use zz_ftp.Gui.Window.{waits, awaited, keep_if, fresh}
use zz_ftp.Gui.Window.Balance.{after, Agrees, IsSettled, busy}

pub if-IsSettled :
    (n : ℕ) (b : Bool) (g g1 : Gui)
    → IsSettled n g
    → IsSettled n g1
    → IsSettled n (if b then g else g1)
if-IsSettled n true g g1 s s1 = s
if-IsSettled n false g g1 s s1 = s1

module _ (g : Gui) (h : Agrees g.data_fd g.data_next) where
  do_data_port-IsSettled :
      (o : Option (List ℕ)) (t : Bytes)
      → IsSettled (suc (suc (after g.data_next))) (do_data_port o (status t (loading (fresh g))))
  unfolding do_data_port awaited keep_if waits loading done
  do_data_port-IsSettled none t = record {
    balance = refl;
    agrees = h;
    fits = tt;
    falls = omega arith;
  }
  do_data_port-IsSettled (some []) t = record {
    balance = refl;
    agrees = h;
    fits = tt;
    falls = omega arith;
  }
  do_data_port-IsSettled (some (a ∷ rest)) t = record {
    balance = refl;
    agrees = h;
    fits = (tt, tt);
    falls = omega arith;
  }

  pasv-IsSettled :
      (t : Bytes)
      → IsSettled
          (suc (suc (after g.data_next)))
          (request (codes "PASV\r\n") data_pasv_1 (status t (loading (fresh g))))
  unfolding awaited keep_if waits loading
  pasv-IsSettled t = record { balance = refl; agrees = h; fits = (tt, tt); falls = omega arith }

pub do_data-IsSettled :
    (w : Screen) (fd : DataFd) (inter : Inter) (k : OnData) (g : Gui)
    → Agrees fd k
    → IsSettled (suc (suc (after k))) (do_data w fd inter k (fresh g))
unfolding do_data loading
do_data-IsSettled w fd inter k g h =
    if-IsSettled _ g.passive_mode _ _
      (pasv-IsSettled (record g { data_fd = fd; data_inter = inter; data_next = k }) h _)
      (do_data_port-IsSettled (record g { data_fd = fd; data_inter = inter; data_next = k }) h
        w.local_addr _)

memory_next : (k : OnData) → Agrees to_memory k → k ≡ list_3
memory_next list_3 h = refl
memory_next retr_2 h = elim h [ ]
memory_next stor_2 h = elim h [ ]

at_least_one : (k : OnData) → 1 ≤ after k
at_least_one list_3 = omega arith
at_least_one retr_2 = omega arith
at_least_one stor_2 = omega arith

whole_upload : (k : OnData) → k ≡ stor_2 → 6 ≤ after k
whole_upload k e = rw e (omega arith)

from_next : (fd : ℕ) (k : OnData) → Agrees (from_fd fd) k → k ≡ stor_2
from_next fd stor_2 h = refl
from_next fd list_3 h = elim h [ ]
from_next fd retr_2 h = elim h [ ]

to_next : (fd : ℕ) (k : OnData) → Agrees (to_fd fd) k → k ≡ retr_2
to_next fd retr_2 h = refl
to_next fd list_3 h = elim h [ ]
to_next fd stor_2 h = elim h [ ]

module _ (g : Gui) (h : Agrees g.data_fd g.data_next) where
  start_data-IsSettled :
      (fd : DataFd) (s : Bytes)
      → g.data_fd ≡ fd
      → IsSettled (after g.data_next) (start_data fd (status s (busy g)))
  unfolding start_data awaited keep_if waits loading done
  start_data-IsSettled to_memory s e = record {
    balance = refl;
    agrees = h;
    fits = (memory_next g.data_next (rw e at h), tt);
    falls = at_least_one g.data_next;
  }
  start_data-IsSettled (from_fd fd) s e = record {
    balance = refl;
    agrees = h;
    fits = (from_next fd g.data_next (rw e at h), tt);
    falls = whole_upload g.data_next (from_next fd g.data_next (rw e at h));
  }
  start_data-IsSettled (to_fd fd) s e = record {
    balance = refl;
    agrees = h;
    fits = (to_next fd g.data_next (rw e at h), tt);
    falls = at_least_one g.data_next;
  }

  pub on_data_2-IsSettled :
      (code : ConnCode) → IsSettled (after g.data_next) (on_data_2 code (busy g))
  unfolding on_data_2
  on_data_2-IsSettled established = start_data-IsSettled g.data_fd _ refl
  on_data_2-IsSettled err_socket = unfold awaited keep_if waits loading done in ground arith
  on_data_2-IsSettled err_thread = unfold awaited keep_if waits loading done in ground arith
  on_data_2-IsSettled err_connect = unfold awaited keep_if waits loading done in ground arith

  gave_up-IsSettled :
      (s : Bytes) (cwd : Option Bytes) → IsSettled 3 (give_up s (record (busy g) { cwd = cwd }))
  unfolding awaited keep_if waits loading done
  gave_up-IsSettled s cwd = record { balance = refl; agrees = h; fits = tt; falls = omega arith }

  -- A result that is there settles the window.
  list_dir-IsSettled :
      (w : Screen) (q : Quoted) (g1 : Gui) → list_dir w q (busy g) ≡ some g1 → IsSettled 3 g1
  unfolding list_dir
  list_dir-IsSettled w (quoted d) g1 e = subst (IsSettled _) (some-injective _ _ e) (
      do_data-IsSettled w to_memory list_2 list_3
        (status (codes "Directory: " ++ (d ++ codes " - retrieving file list"))
          (record (busy g) { cwd = some d }))
        tt)
  list_dir-IsSettled w unquoted g1 e =
      subst (IsSettled _) (some-injective _ _ e) (gave_up-IsSettled _ none)
  list_dir-IsSettled w fault g1 e = cc

  pub on_list_1-IsSettled :
      (w : Screen) (code : ℕ) (s : Bytes) (g1 : Gui)
      → on_list_1 w code s (busy g) ≡ some g1
      → IsSettled 3 g1
  unfolding on_list_1
  on_list_1-IsSettled w code s g1 e = elim (Bool-cases (code == 257)) [
    | inl ok ↦ list_dir-IsSettled w (quoted_dir s) g1 (rw ok at e)
    | inr bad ↦ subst (IsSettled _) (some-injective _ _ (rw bad at e)) (gave_up-IsSettled _ g.cwd)
  ]

  show_listing-IsSettled :
      (qsort : List FileRec → List FileRec) (recs : Option (List FileRec)) (g1 g2 : Gui)
      → IsSettled 0 g1
      → show_listing qsort recs g1 ≡ some g2
      → IsSettled 0 g2
  unfolding show_listing
  show_listing-IsSettled qsort none g1 g2 s e = cc
  show_listing-IsSettled qsort (some recs) g1 g2 s e =
      subst (IsSettled _) (some-injective _ _ e)
        (record { balance = s.balance; agrees = s.agrees; fits = s.fits; falls = s.falls })

  listed-IsSettled :
      (t : Bytes)
      → IsSettled 0 (statusf t (act closes_data (done (act (reads_mark no_callback) (busy g)))))
  unfolding awaited keep_if waits done
  listed-IsSettled t = record { balance = refl; agrees = h; fits = tt; falls = omega arith }

  pub on_list_3-IsSettled :
      (qsort : List FileRec → List FileRec) (listing : Bytes) (g1 : Gui)
      → on_list_3 qsort listing (busy g) ≡ some g1
      → IsSettled 0 g1
  unfolding on_list_3 awaited keep_if waits done
  on_list_3-IsSettled qsort listing g1 e =
      show_listing-IsSettled qsort _ _ g1 (listed-IsSettled _) e

  pub on_retr_2-IsSettled : (w : Screen) → IsSettled 0 (on_retr_2 w none (busy g))
  unfolding on_retr_2 awaited keep_if waits done
  on_retr_2-IsSettled w = record { balance = refl; agrees = h; fits = tt; falls = omega arith }

  pub on_stor_2-IsSettled : (w : Screen) → IsSettled 5 (on_stor_2 w none (busy g))
  unfolding on_stor_2 awaited keep_if waits
  on_stor_2-IsSettled w = record {
    balance = refl;
    agrees = h;
    fits = (tt, tt);
    falls = omega arith;
  }

  pub on_stor_3-IsSettled :
      (w : Screen) (code : ℕ) → (code == 226) ≡ true → IsSettled 4 (on_stor_3 w code (busy g))
  unfolding on_stor_3 do_list awaited keep_if waits loading done
  on_stor_3-IsSettled w code ok =
      simp (ok) (record { balance = refl; agrees = h; fits = (tt, tt); falls = omega arith })
