-- ===== src/Gui/Window/Tests.antt =====
-- The window at concrete inputs: a connection, and an upload that is refused.
use zz_ftp.Prelude.{
  some, Bytes, arith, ◌≡◌, ◌+◌, ◌≤◌, length, refl, true, false, none, [], ◌∷◌, codes, List, ◌⊎◌,
  if◌then◌else◌,
}
use zz_ftp.Gui.FileList.{FileRec}
use zz_ftp.Gui.State.{
  err_connect, done, Gui, Screen, to_memory, from_fd, no_inter, list_3, stor_1, stor_2, stor_3,
  reads_mark, loading, connects_control, connection_setup,
}
use zz_ftp.Gui.Events.{
  on_mark, on_connect, on_connection_setup, on_retr_2, conn_clicked, handle_event, mode_click,
  conn_click,
}
use zz_ftp.Io.Transfer.{Input, got}
use zz_ftp.Gui.Transfer.Whole.{more, empty, no_more, one_more}
use zz_ftp.Gui.Calls.{xfer_read_all_to, reported, download_outcome}
use zz_ftp.Gui.Window.Ends.{ends_soon}
use zz_ftp.Gui.Window.{
  is_answer, has_refusal, unclicked_run, Unclicked, answered, begun, answer, control_connected,
  fresh, Window, Step, toggle, here, next, click, awaited, waits, keep_if, is_click,
}
use zz_ftp.Gui.Window.Steps.{IsOrderly, IsLocked}
use zz_ftp.Gui.Window.Runs.{run_outcome, refused_locks}

abbrev screen : Screen
screen = record {
  host = codes "127.0.0.1";
  port = 21;
  user = codes "anonymous";
  password = [];
  size_text = λ n. [];
  opens = λ p. none;
  open_error = [];
  sizes = λ fd. none;
  local_addr = none;
  chosen = none;
}

-- The window before the first click; data_next is not read before do_data sets it.
abbrev opened : Gui
opened = record {
  loading = false;
  form = true;
  status = [];
  button = codes "Connect";
  cwd = none;
  passive_mode = true;
  connected = false;
  data_fd = to_memory;
  data_inter = no_inter;
  data_next = list_3;
  rename_from = [];
  rename_to = [];
  retr_name = [];
  retr_size = 0;
  retr_out_fd = 0;
  stor_name = [];
  stor_size = 0;
  stor_in_fd = 0;
  list = record { files = []; has_contents = false; enabled = false };
  acts = [];
}

abbrev keep_order : List FileRec → List FileRec
keep_order recs = recs

abbrev start : Window
start = record { gui = opened; pending = [] }

abbrev connecting : Gui
connecting = conn_click screen opened

abbrev waiting : Window
waiting = record {
  gui = connecting;
  pending = connects_control screen.host 21 connection_setup ∷ [];
}

connect : Step keep_order start waiting
unfolding handle_event conn_click awaited keep_if waits is_click loading
connect = click screen conn_clicked connecting refl refl refl refl

start-IsOrderly : IsOrderly start
start-IsOrderly = record { balance = refl; agrees = tt; fits = tt }

run_outcome_example :
    ((has_refusal keep_order (next here connect) ≡ false) × IsOrderly waiting)
    ⊎ ((has_refusal keep_order (next here connect) ≡ true) × IsLocked waiting)
run_outcome_example = run_outcome keep_order start-IsOrderly (next here connect)

-- An upload whose confirmation is to come.
abbrev confirming : Window
confirming = record {
  gui = record opened {
    loading = true;
    connected = true;
    data_fd = from_fd 3;
    data_inter = stor_1;
    data_next = stor_2;
    stor_name = codes "a.txt";
  };
  pending = reads_mark stor_3 ∷ [];
}

confirming-IsOrderly : IsOrderly confirming
confirming-IsOrderly = record { balance = refl; agrees = tt; fits = (tt, tt) }

refused_locks_example :
    (g : Gui) × (handle_event screen keep_order (on_mark stor_3 426 []) (fresh confirming.gui)
      ≡ some g)
    × (Step keep_order confirming (record { gui = g; pending = awaited g.acts })
        × IsLocked (record { gui = g; pending = awaited g.acts }))
refused_locks_example = refused_locks keep_order screen 426 [] confirming-IsOrderly refl refl

-- The window after the refusal, and after a click on the button for the mode.
abbrev locked : Window
locked = record { gui = confirming.gui; pending = [] }

abbrev toggled : Window
toggled = record { gui = record confirming.gui { passive_mode = false }; pending = [] }

toggle_mode : Step keep_order locked toggled
unfolding handle_event mode_click awaited
toggle_mode = toggle screen toggled.gui refl refl

-- The connection fails: one answer, and the controls are enabled.
abbrev failed : Window
failed = record { gui = on_connection_setup err_connect (fresh connecting); pending = [] }

fail : Step keep_order waiting failed
unfolding handle_event on_connection_setup awaited keep_if waits done
fail =
    answer screen [] [] (connects_control screen.host 21 connection_setup)
      (on_connect connection_setup err_connect) failed.gui refl refl
      (control_connected screen.host 21 connection_setup err_connect) refl refl

waiting-IsOrderly : IsOrderly waiting
unfolding conn_click loading
waiting-IsOrderly = record { balance = refl; agrees = tt; fits = (tt, tt) }

failing : Unclicked keep_order waiting 1 failed
unfolding is_answer fail
failing = answered begun fail refl

ends_soon_example :
    (1 + length failed.pending ≤ 10)
    × (((has_refusal keep_order (unclicked_run keep_order failing) ≡ false)
          × (length failed.pending ≡ (if failed.gui.loading then 1 else 0)))
        ⊎ ((has_refusal keep_order (unclicked_run keep_order failing) ≡ true) × IsLocked failed))
ends_soon_example = ends_soon keep_order waiting-IsOrderly failing

-- A download of three bytes in two blocks, where a thread starts, and where none does.
abbrev two_blocks : List Bytes
two_blocks = (b'a' ∷ b'b' ∷ []) ∷ (b'c' ∷ []) ∷ []

abbrev two_reads : List Input
two_reads = got (b'a' ∷ b'b' ∷ []) ∷ got (b'c' ∷ []) ∷ got [] ∷ []

download_outcome_example :
    ((xfer_read_all_to false two_reads (some 2 ∷ some 1 ∷ [])).written ≡ [])
    × ((reported
          (on_retr_2 screen)
          (xfer_read_all_to false two_reads (some 2 ∷ some 1 ∷ [])).reports
          (loading opened)).loading
        ≡ true)
unfolding loading
download_outcome_example =
    download_outcome false screen two_reads two_blocks (some 2 ∷ some 1 ∷ []) (loading opened)
      (more b'a' (b'b' ∷ []) _ _ (omega arith) (more b'c' [] _ _ (omega arith) (empty [])))
      (one_more _ _ _ (one_more _ _ _ (no_more [])))
