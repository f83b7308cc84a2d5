-- ===== src/Gui/Window/Clicks.antt =====
-- What the user does where the controls are enabled settles the window.
use zz_ftp.Prelude.{
  arith, ℕ, ◌%◌, ◌^◌, ◌≡◌, refl, Bool, not, true, false, Option, none, some, List, [], Bytes,
}
use mathlib.Core.Path.{subst}
use mathlib.Core.Option.{some-injective}
use zz_ftp.Gui.FileList.{
  FileRec, FileType, file, directory, parent, file_list_get_upload_name, free_folder_name,
}
use zz_ftp.Gui.State.{
  retr_2, stor_2, retr_1, stor_1, from_fd, to_fd, statusf, Gui, Screen, loading, done,
}
use zz_ftp.Gui.Actions.{do_cwd, do_rename, do_mkd, do_rm}
use zz_ftp.Gui.Events.{
  size_or_zero, is_dir_rec, open_out, do_retr, open_in, do_stor, conn_click, save_to, download_as,
  file_list_download, upload_as, upload_from, file_list_upload, make_dir, Event, on_mark,
  on_connect, on_data, conn_clicked, mode_clicked, upload, make_directory, download, rename, delete,
  handle_event,
}
use zz_ftp.Gui.Window.{waits, awaited, keep_if, is_click}
use zz_ftp.Gui.Window.Balance.{weaken, Agrees, IsSettled}
use zz_ftp.Gui.Window.Callbacks.{do_data-IsSettled, if-IsSettled}

-- The state in which a click finds the window.
abbrev pub idle : Gui → Gui
idle g = record g { acts = []; loading = false }

module _ (g : Gui) (h : Agrees g.data_fd g.data_next) where
  idle-IsSettled : IsSettled 10 (idle g)
  unfolding awaited
  idle-IsSettled = record { balance = refl; agrees = h; fits = tt; falls = omega arith }

  failed-IsSettled : (t s : Bytes) → IsSettled 10 (statusf s (done (statusf t (loading (idle g)))))
  unfolding awaited keep_if waits loading done
  failed-IsSettled t s = record { balance = refl; agrees = h; fits = tt; falls = omega arith }

  do_cwd-IsSettled : (name : Bytes) → IsSettled 10 (do_cwd name (idle g))
  unfolding do_cwd awaited keep_if waits loading
  do_cwd-IsSettled name = record {
    balance = refl;
    agrees = h;
    fits = (tt, tt);
    falls = omega arith;
  }

  pub do_rename-IsSettled : (from to : Bytes) → IsSettled 10 (do_rename from to (idle g))
  unfolding do_rename awaited keep_if waits loading
  do_rename-IsSettled from to = record {
    balance = refl;
    agrees = h;
    fits = (tt, tt);
    falls = omega arith;
  }

  do_mkd-IsSettled : (name : Bytes) → IsSettled 10 (do_mkd name (idle g))
  unfolding do_mkd awaited keep_if waits loading
  do_mkd-IsSettled name = record {
    balance = refl;
    agrees = h;
    fits = (tt, tt);
    falls = omega arith;
  }

  pub do_rm-IsSettled : (d : Bool) (name : Bytes) → IsSettled 10 (do_rm d name (idle g))
  unfolding do_rm awaited keep_if waits loading
  do_rm-IsSettled d name = record {
    balance = refl;
    agrees = h;
    fits = (tt, tt);
    falls = omega arith;
  }

  pub conn_click-IsSettled : (w : Screen) → IsSettled 10 (conn_click w (idle g))
  unfolding conn_click awaited keep_if waits loading
  conn_click-IsSettled w =
      if-IsSettled _ (not g.connected) _ _
        (record { balance = refl; agrees = h; fits = (tt, tt); falls = omega arith })
        (record { balance = refl; agrees = h; fits = (tt, tt); falls = omega arith })

  open_out-IsSettled :
      (o : Option ℕ) (w : Screen) (name : Bytes) (size : ℕ) (t : Bytes)
      → IsSettled 10 (open_out o w name size (statusf t (loading (idle g))))
  unfolding open_out
  open_out-IsSettled none w name size t = failed-IsSettled t _
  open_out-IsSettled (some fd) w name size t =
      unfold loading in
      weaken 3 10 _ (omega arith) (
        do_data-IsSettled w (to_fd fd) retr_1 retr_2
          (record (statusf t (loading (idle g))) {
            retr_name = name;
            retr_size = size;
            retr_out_fd = fd;
          })
          tt)

  open_in-IsSettled :
      (o : Option ℕ) (w : Screen) (name t : Bytes)
      → IsSettled 10 (open_in o w name (statusf t (loading (idle g))))
  unfolding open_in
  open_in-IsSettled none w name t = failed-IsSettled t _
  open_in-IsSettled (some fd) w name t =
      unfold loading in
      weaken 8 10 _ (omega arith) (
        do_data-IsSettled w (from_fd fd) stor_1 stor_2
          (record (statusf t (loading (idle g))) {
            stor_name = name;
            stor_size = size_or_zero (w.sizes fd) % 2 ^ 32;
            stor_in_fd = fd;
          })
          tt)

  save_to-IsSettled :
      (o : Option Bytes) (w : Screen) (r : FileRec) → IsSettled 10 (save_to o w r (idle g))
  unfolding save_to do_retr
  save_to-IsSettled none w r = idle-IsSettled
  save_to-IsSettled (some path) w r = open_out-IsSettled (w.opens path) w r.name r.size _

  download_as-IsSettled :
      (k : FileType) (w : Screen) (r : FileRec) → IsSettled 10 (download_as k w r (idle g))
  unfolding download_as
  download_as-IsSettled file w r = save_to-IsSettled w.chosen w r
  download_as-IsSettled directory w r = do_cwd-IsSettled r.name
  download_as-IsSettled parent w r = do_cwd-IsSettled r.name

  upload_as-IsSettled :
      (o : Option Bytes) (w : Screen) (path : Bytes) → IsSettled 10 (upload_as o w path (idle g))
  unfolding upload_as do_stor
  upload_as-IsSettled none w path = idle-IsSettled
  upload_as-IsSettled (some name) w path = open_in-IsSettled (w.opens path) w name _

  upload_from-IsSettled : (o : Option Bytes) (w : Screen) → IsSettled 10 (upload_from o w (idle g))
  unfolding upload_from
  upload_from-IsSettled none w = idle-IsSettled
  upload_from-IsSettled (some path) w =
      upload_as-IsSettled (file_list_get_upload_name g.list.files path) w path

  make_dir-IsSettled : (o : Option Bytes) → IsSettled 10 (make_dir o (idle g))
  unfolding make_dir
  make_dir-IsSettled none = idle-IsSettled
  make_dir-IsSettled (some name) = do_mkd-IsSettled name

  -- Each of the clicks leaves the window settled.
  pub click-IsSettled :
      (w : Screen) (qsort : List FileRec → List FileRec) (e : Event) (g1 : Gui)
      → is_click e ≡ true
      → handle_event w qsort e (idle g) ≡ some g1
      → IsSettled 10 g1
  unfolding handle_event file_list_download file_list_upload is_click
  click-IsSettled w qsort (on_mark _ _ _) g1 c e = cc
  click-IsSettled w qsort (on_connect _ _) g1 c e = cc
  click-IsSettled w qsort (on_data _ _ _) g1 c e = cc
  click-IsSettled w qsort mode_clicked g1 c e = cc
  click-IsSettled w qsort conn_clicked g1 c e =
      subst (IsSettled _) (some-injective _ _ e) (conn_click-IsSettled w)
  click-IsSettled w qsort upload g1 c e =
      subst (IsSettled _) (some-injective _ _ e) (upload_from-IsSettled w.chosen w)
  click-IsSettled w qsort make_directory g1 c e =
      subst (IsSettled _) (some-injective _ _ e)
        (make_dir-IsSettled (free_folder_name g.list.files))
  click-IsSettled w qsort (download r) g1 c e =
      subst (IsSettled _) (some-injective _ _ e) (download_as-IsSettled r.is_dir w r)
  click-IsSettled w qsort (rename r to) g1 c e =
      subst (IsSettled _) (some-injective _ _ e) (do_rename-IsSettled r.name to)
  click-IsSettled w qsort (delete r) g1 c e =
      subst (IsSettled _) (some-injective _ _ e) (do_rm-IsSettled (is_dir_rec r) r.name)
