-- ===== src/Server/Commands/Renaming.antt =====
-- RNFR and RNTO of server/client_cmds.c together.
use zz_ftp.Prelude.{
  append_assoc, ◌≡◌, ◌∙◌, refl, true, false, none, some, [], ◌∷◌, ◌++◌, Bytes, codes, equal, length,
  ◌==◌, ltb,
}
use zz_ftp.Text.{truncate_to}
use zz_ftp.Server.Path.{path, path_cat, path_exists, relative, any}
use zz_ftp.Server.Client.{Client, client_xfer_in_progress, state_value, ready}
use zz_ftp.Server.System.{
  Reply, System, Ctl, done, Outcome, returned, calls_rename, reply_done, replyf_done, markf, call,
  set_client, always, ignore_if_xfer, auth, refuse_if, refusef_if, if_fails, full_path, with_path,
  checked, mark_dir,
}
use zz_ftp.Server.Handlers.Files.{handler_rnfr, handler_rnto, rename_from, take_rnfr}

-- Logged in, and no transfer under way.
pub record IsFree (c : Client) : Type 0 where
  pub no_file : client_xfer_in_progress c ≡ false
  pub in_session : ltb (state_value c.state) (state_value ready) ≡ false

pub guards_pass : (s : Ctl) (r : Outcome) → IsFree s.client → ignore_if_xfer s (auth s r) ≡ r
unfolding ignore_if_xfer auth refuse_if
guards_pass s r f = rw (f.no_file, f.in_session)

pub full_path-path :
    (s : Ctl) (arg d : Bytes) (r : Bytes → Outcome)
    → path_cat always s.client.wd arg ≡ path d
    → full_path s arg r ≡ r d
unfolding full_path with_path
full_path-path s arg d r e = rw e

-- The connection behind an accepted RNFR.
abbrev pub renaming : Bytes → Ctl → Ctl
renaming d s =
    let s1 = checked d s in
    markf 250 (codes "Renaming \"" ++ d ++ codes "\".")
      (set_client (record s1.client { rnfr = some d }) s1)

module _ (sys : System) (s : Ctl) (free : IsFree s.client) where
  rnfr_accepts :
      (arg d : Bytes)
      → path_cat always s.client.wd arg ≡ path d
      → (length d == 1) ≡ false
      → path_exists sys.lstat d any ≡ true
      → handler_rnfr sys s arg ≡ returned (renaming d s) done
  unfolding handler_rnfr refuse_if refusef_if
  rnfr_accepts arg d e long there =
      rw (guards_pass s _ free, full_path-path s arg d _ e, long, there)

  -- Behind the guards, RNTO with a source on record and a target that is not the root.
  rnto_reaches :
      (from arg d : Bytes)
      → s.client.rnfr ≡ some from
      → path_cat always s.client.wd arg ≡ path d
      → (length d == 1) ≡ false
      → sys.rename (relative from) (relative d) ≡ none
      → handler_rnto sys s arg
        ≡ mark_dir (codes "Renamed \"" ++ from ++ codes "\" to \"" ++ d ++ codes "\".") from d (
            call
              (calls_rename (relative from) (relative d))
              (set_client (record s.client { rnfr = none }) s))
  unfolding handler_rnto take_rnfr rename_from refuse_if if_fails
  rnto_reaches from arg d on_record e long moved =
      guards_pass s _ free
      ∙ simp on_record (
          full_path-path (set_client (record s.client { rnfr = none }) s) arg d _ e
          ∙ rw (long, moved))

  rnto_missing :
      (arg : Bytes)
      → s.client.rnfr ≡ none
      → handler_rnto sys s arg ≡ reply_done 503 (codes "Use RNFR first.") s
  unfolding handler_rnto take_rnfr
  rnto_missing arg unset = guards_pass s _ free ∙ simp unset

IsFree-renaming : (d : Bytes) (s : Ctl) → IsFree s.client → IsFree (renaming d s).client
unfolding client_xfer_in_progress checked
IsFree-renaming d s f = record { no_file = f.no_file; in_session = f.in_session }

mark_dir_stays :
    (text cmp d : Bytes) (s : Ctl)
    → equal s.client.wd cmp ≡ false
    → mark_dir text cmp d s ≡ replyf_done 250 text s
unfolding mark_dir
mark_dir_stays text cmp d s other = rw other

-- The two replies; markf cuts its text to 256 bytes with the NUL.
abbrev pub reply_250 : Bytes → Reply
reply_250 text = record { code = 250; msg = truncate_to 256 text }

abbrev pub renaming_text : Bytes → Bytes
renaming_text from = codes "Renaming \"" ++ from ++ codes "\"."

abbrev pub renamed_text : Bytes → Bytes → Bytes
renamed_text from to = codes "Renamed \"" ++ from ++ codes "\" to \"" ++ to ++ codes "\"."

-- RNFR of a path that exists and then RNTO of another make one call of rename() from the first to
-- the second, both relative to the root directory; the source is forgotten, the working directory
-- (which is not what was renamed) and all else of the connection stay. RNFR adds one
-- reply, which is 250 and says what is renamed, and RNTO one more, which is 250 and says what was
-- renamed to what, each cut as markf does.
pub rename_sequence :
    (sys : System) (s : Ctl) (a b from to : Bytes)
    → IsFree s.client
    → path_cat always s.client.wd a ≡ path from
    → path_cat always s.client.wd b ≡ path to
    → (length from == 1) ≡ false
    → (length to == 1) ≡ false
    → path_exists sys.lstat from any ≡ true
    → sys.rename (relative from) (relative to) ≡ none
    → equal s.client.wd from ≡ false
    → (s1 s2 : Ctl) × (handler_rnfr sys s a ≡ returned s1 done)
      × (handler_rnto sys s1 b ≡ returned s2 done)
      × (s2.calls ≡ (checked from s).calls ++ calls_rename (relative from) (relative to) ∷ [])
      × (s2.client ≡ record s.client { rnfr = none })
      × (s1.replies ≡ s.replies ++ reply_250 (renaming_text from) ∷ [])
      × (s2.replies
          ≡ s.replies ++ reply_250 (renaming_text from) ∷ reply_250 (renamed_text from to) ∷ [])
unfolding checked
rename_sequence sys s a b from to free ea eb la lb there moved other =
    let s1 = renaming from s in
    let s2 =
      call (calls_rename (relative from) (relative to))
        (set_client (record s1.client { rnfr = none }) s1) in
    (
      s1,
      markf 250 (codes "Renamed \"" ++ from ++ codes "\" to \"" ++ to ++ codes "\".") s2,
      rnfr_accepts sys s free a from ea la there,
      rnto_reaches sys s1 (IsFree-renaming from s free) from b to refl eb lb moved
          ∙ mark_dir_stays _ from to s2 other,
      refl,
      refl,
      refl,
      append_assoc s.replies _ _,
    )
