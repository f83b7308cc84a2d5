-- ===== src/Gui/Window.antt =====
-- Runs of the window of client/main.c: what the user may do, and the callbacks that are to come.
pub mod Balance
pub mod Callbacks
pub mod Clicks
pub mod Ends
pub mod Replies
pub mod Runs
pub mod Steps
mod Tests
use zz_ftp.Prelude.{
  ◌⊎◌, ℕ, zero, suc, ◌+◌, ◌≡◌, ◌≢◌, Bool, true, false, not, Option, none, some, List, [], ◌∷◌, ◌++◌,
  if◌then◌else◌, Bytes, length, ◌==◌, ◌||◌,
}
use zz_ftp.Gui.FileList.{FileRec}
use zz_ftp.Gui.State.{
  OnMark, no_callback, stor_3, OnConnect, ConnCode, OnData, list_3, retr_2, stor_2, Act, writes,
  reads_mark, connects_control, connects_data, listens, writes_all_from, reads_all_to, reads_all,
  closes_control, closes_data, closes_fd, Gui, Screen,
}
use zz_ftp.Gui.Events.{
  Event, on_mark, on_connect, on_data, conn_clicked, mode_clicked, upload, make_directory, download,
  rename, delete, handle_event,
}

-- Whether a callback follows.
unfoldable pub waits : Act → Bool
waits (writes _) = false
waits (reads_mark no_callback) = false
waits (reads_mark _) = true
waits (connects_control _ _ _) = true
waits (connects_data _ _ _) = true
waits (listens _) = true
waits (writes_all_from _) = true
waits (reads_all_to _) = true
waits (reads_all _) = true
waits closes_control = false
waits closes_data = false
waits (closes_fd _) = false

unfoldable pub keep_if : Bool → Act → List Act → List Act
keep_if true a rest = a ∷ rest
keep_if false a rest = rest

unfoldable pub awaited : List Act → List Act
awaited [] = []
awaited (a ∷ acts) = keep_if (waits a) a (awaited acts)

-- The state between two events: the calls of this event are no longer listed, and `pending` are
-- those whose callback is still to come.
pub record Window : Type 0 where
  pub gui : Gui
  pub pending : List Act

abbrev pub fresh : Gui → Gui
fresh g = record g { acts = [] }

-- The last callback of a call; that of a file is data_next, called by data_3.
pub data Answers (g : Gui) : Act → Event → Type 0 where
  mark_read : (k : OnMark) (code : ℕ) (s : Bytes) → Answers g (reads_mark k) (on_mark k code s)
  control_connected :
      (host : Bytes) (port : ℕ) (k : OnConnect) (code : ConnCode)
      → Answers g (connects_control host port k) (on_connect k code)
  data_connected :
      (host : Bytes) (port : ℕ) (k : OnConnect) (code : ConnCode)
      → Answers g (connects_data host port k) (on_connect k code)
  accepted : (k : OnConnect) (code : ConnCode) → Answers g (listens k) (on_connect k code)
  all_written : (fd : ℕ) → Answers g (writes_all_from fd) (on_data g.data_next none [])
  all_read_to : (fd : ℕ) → Answers g (reads_all_to fd) (on_data g.data_next none [])
  all_read :
      (k : OnData) (listing : Bytes)
      → Answers g (reads_all k) (on_data k (some (length listing)) listing)

-- The calls that report how far they are, with data_next as the callback.
unfoldable pub moves_file : Act → Bool
moves_file (writes_all_from _) = true
moves_file (reads_all_to _) = true
moves_file _ = false

-- What the user can do where the button and the list are enabled.
unfoldable pub is_click : Event → Bool
is_click conn_clicked = true
is_click upload = true
is_click make_directory = true
is_click (download _) = true
is_click (rename _ _) = true
is_click (delete _) = true
is_click _ = false

-- A mark other than 226 behind an upload.
unfoldable pub refuses : Event → Bool
refuses (on_mark stor_3 code _) = not (code == 226)
refuses _ = false

module _ (qsort : List FileRec → List FileRec) where
  -- A callback of a pending call; a report of progress, behind which the call is still pending; a
  -- click; and the button for the mode, which is never disabled.
  pub data Step (u v : Window) : Type 0 where
    answer :
        (w : Screen) (before behind : List Act) (a : Act) (e : Event) (g : Gui)
        → u.pending ≡ before ++ a ∷ behind
        → waits a ≡ true
        → Answers u.gui a e
        → handle_event w qsort e (fresh u.gui) ≡ some g
        → v ≡ record { gui = g; pending = before ++ (behind ++ awaited g.acts) }
        → Step u v
    progress :
        (w : Screen) (before behind : List Act) (a : Act) (len : ℕ) (g : Gui)
        → u.pending ≡ before ++ a ∷ behind
        → moves_file a ≡ true
        → handle_event w qsort (on_data u.gui.data_next (some len) []) (fresh u.gui) ≡ some g
        → v ≡ record { gui = g; pending = u.pending ++ awaited g.acts }
        → Step u v
    click :
        (w : Screen) (e : Event) (g : Gui)
        → is_click e ≡ true
        → u.gui.loading ≡ false
        → handle_event w qsort e (fresh u.gui) ≡ some g
        → v ≡ record { gui = g; pending = u.pending ++ awaited g.acts }
        → Step u v
    toggle :
        (w : Screen) (g : Gui)
        → handle_event w qsort mode_clicked (fresh u.gui) ≡ some g
        → v ≡ record { gui = g; pending = u.pending ++ awaited g.acts }
        → Step u v

  unfoldable pub is_refusal : {u v : Window} → Step u v → Bool
  unfolding refuses
  is_refusal (answer _ _ _ _ e _ _ _ _ _ _) = refuses e
  is_refusal _ = false

  pub data Reach (u : Window) : Window → Type 0 where
    here : Reach u u
    next : {v x : Window} → Reach u v → Step v x → Reach u x

  -- Whether a run has the refusal of an upload.
  unfoldable pub has_refusal : {u v : Window} → Reach u v → Bool
  unfolding is_refusal
  has_refusal here = false
  has_refusal (next r s) = has_refusal r || is_refusal s

  -- Runs without a click, with the number of answers.
  unfoldable pub is_answer : {u v : Window} → Step u v → Bool
  is_answer (answer _ _ _ _ _ _ _ _ _ _ _) = true
  is_answer _ = false

  unfoldable pub is_clicked : {u v : Window} → Step u v → Bool
  is_clicked (click _ _ _ _ _ _ _) = true
  is_clicked _ = false

  pub data Unclicked (u : Window) : ℕ → Window → Type 0 where
    begun : Unclicked u 0 u
    answered :
        {n : ℕ} {v x : Window}
        → Unclicked u n v
        → (s : Step v x) → is_answer s ≡ true
        → Unclicked u (suc n) x
    passed :
        {n : ℕ} {v x : Window}
        → Unclicked u n v
        → (s : Step v x) → is_answer s ≡ false
        → is_clicked s ≡ false
        → Unclicked u n x

  unfoldable pub unclicked_run : {u : Window} {n : ℕ} {v : Window} → Unclicked u n v → Reach u v
  unclicked_run begun = here
  unclicked_run (answered r s _) = next (unclicked_run r) s
  unclicked_run (passed r s _ _) = next (unclicked_run r) s
