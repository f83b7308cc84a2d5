-- ===== src/Server/Commands/Restart.antt =====
-- REST and RETR of server/client_cmds.c together.
use zz_ftp.Prelude.{ℕ, ◌<◌, ◌^◌, ◌≡◌, ◌∙◌, refl, ap, true, some, [], ◌∷◌, ◌++◌, Bytes, codes}
use zz_ftp.Text.{show, show_signed}
use zz_ftp.Text.RoundTrip.{scan_i64-show}
use zz_ftp.Server.Path.{path, path_cat, path_exists, relative, regular}
use zz_ftp.Server.Client.{Client, send_file, client_xfer_in_progress}
use zz_ftp.Server.System.{
  System, Ctl, done, Outcome, returned, calls_fopen, calls_fseek, signals_data, call, mark, markf,
  set_client, always, refuse_if, refusef_if, if_null, data_mode, has_data_mode, checked,
}
use zz_ftp.Server.Handlers.Transfers.{handler_rest, set_rest, handler_retr, signal_file}
use zz_ftp.Server.Commands.Renaming.{IsFree, guards_pass, full_path-path}

-- Behind RETR of the file d, opened as f, with the mark at n.
abbrev pub retrieving : Bytes → ℕ → Ctl → Ctl
retrieving d f s =
    let s2 = call (calls_fopen (relative d) (codes "r")) (checked d s) in
    let s3 = call (calls_fseek s.client.rest_offs) s2 in
    signal_file send_file f (
      mark 150 (codes "File contents are being sent over the data connection.")
        (set_client (record s3.client { rest_offs = 0 }) s3))

-- A data connection is set up, and nothing is transferred yet.
pub record IsPrepared (c : Client) : Type 0 where
  pub free : IsFree c
  pub mode : has_data_mode c.state ≡ true

data_mode_passes : (s : Ctl) (r : Outcome) → has_data_mode s.client.state ≡ true → data_mode s r ≡ r
unfolding data_mode refuse_if
data_mode_passes s r m = rw m

retr_starts :
    (sys : System) (s : Ctl) (arg d : Bytes) (f : ℕ)
    → IsPrepared s.client
    → path_cat always s.client.wd arg ≡ path d
    → path_exists sys.lstat d regular ≡ true
    → sys.fopen (relative d) (codes "r") ≡ some f
    → handler_retr sys s arg ≡ returned (retrieving d f s) done
unfolding handler_retr refusef_if if_null checked
retr_starts sys s arg d f p e there opens =
    guards_pass s _ p.free
    ∙ data_mode_passes s _ p.mode
    ∙ full_path-path s arg d _ e
    ∙ rw (there, opens)

-- REST with a number that fits, and then RETR of a file that opens, seek to exactly this number
-- before the transfer is handed to the data thread, and forget it: the next transfer begins at 0.
pub restart_sequence :
    (sys : System) (s : Ctl) (n : ℕ) (arg d : Bytes) (f : ℕ)
    → IsPrepared s.client
    → n < 2 ^ 63
    → path_cat always s.client.wd arg ≡ path d
    → path_exists sys.lstat d regular ≡ true
    → sys.fopen (relative d) (codes "r") ≡ some f
    → (s1 s2 : Ctl) × (handler_rest sys s (show n) ≡ returned s1 done)
      × (s1.client ≡ record s.client { rest_offs = n })
      × (handler_retr sys s1 arg ≡ returned s2 done)
      × (s2.calls
          ≡ (checked d s).calls
            ++ calls_fopen (relative d) (codes "r") ∷ []
            ++ calls_fseek n ∷ []
            ++ signals_data ∷ [])
      × (s2.client ≡ record s.client { rest_offs = 0; dat_fp = some f; dat_type = send_file })
unfolding handler_rest set_rest signal_file checked client_xfer_in_progress
restart_sequence sys s n arg d f p small e there opens =
    let s1 =
      markf 350 (codes "Restart position accepted (" ++ show_signed n ++ codes ").")
        (set_client (record s.client { rest_offs = n }) s) in
    (
      s1,
      retrieving d f s1,
      guards_pass s _ p.free ∙ ap (set_rest s) (scan_i64-show n small),
      refl,
      retr_starts sys s1 arg d f
          (record {
            free = record { no_file = p.free.no_file; in_session = p.free.in_session };
            mode = p.mode;
          })
          e there opens,
      refl,
      refl,
    )
