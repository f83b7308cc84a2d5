-- ===== src/Server/Handlers/Files.antt =====
-- CWD, PWD, MKD, RMD, RNFR, RNTO and DELE of server/client_cmds.c.
use zz_ftp.Prelude.{not, Option, none, some, ◌++◌, ◌==◌, Bytes, codes, length}
use zz_ftp.Server.Path.{any, directory, regular, path_exists, relative}
use zz_ftp.Server.System.{
  System, Ctl, Outcome, set_client, call, calls_mkdir, calls_rmdir, calls_rename, calls_unlink,
  reply_done, replyf_done, ignore_if_xfer, auth, full_path, refuse_if, refusef_if, if_fails,
  checked, mark_dir,
}

unfoldable pub handler_cwd : System → Ctl → Bytes → Outcome
handler_cwd sys s arg = ignore_if_xfer s (
    auth s (
      full_path s arg λ d.
        let s1 = checked d s in
        refusef_if (not (path_exists sys.lstat d directory)) 550
          (codes "Directory \"" ++ d ++ codes "\" does not exist.") s1
          (replyf_done 250 (codes "Working directory changed to \"" ++ d ++ codes "\".")
            (set_client (record s1.client { wd = d }) s1))))

unfoldable pub handler_pwd : System → Ctl → Bytes → Outcome
handler_pwd sys s arg =
    ignore_if_xfer s
      (auth s (replyf_done 257 (codes "Working directory is \"" ++ s.client.wd ++ codes "\".") s))

unfoldable pub handler_mkd : System → Ctl → Bytes → Outcome
handler_mkd sys s arg = ignore_if_xfer s (
    auth s (
      full_path s arg λ d.
        let s1 = call (calls_mkdir (relative d)) s in
        if_fails (sys.mkdir (relative d))
          (λ e.
            replyf_done 550
              (codes "Cannot create directory \"" ++ d ++ codes "\" (" ++ e ++ codes ").") s1)
          (replyf_done 250 (codes "Directory \"" ++ d ++ codes "\" created.") s1)))

unfoldable pub handler_rmd : System → Ctl → Bytes → Outcome
handler_rmd sys s arg = ignore_if_xfer s (
    auth s (
      full_path s arg λ d. refuse_if (length d == 1) 550 (codes "Cannot remove root directory.") s (
        let s1 = call (calls_rmdir (relative d)) s in
        if_fails (sys.rmdir (relative d))
          (λ e.
            replyf_done 550
              (codes "Cannot remove directory \"" ++ d ++ codes "\" (" ++ e ++ codes ").") s1)
          (mark_dir (codes "Directory \"" ++ d ++ codes "\" removed.") d d s1))))

unfoldable pub handler_rnfr : System → Ctl → Bytes → Outcome
handler_rnfr sys s arg = ignore_if_xfer s (
    auth s (
      full_path s arg λ d. refuse_if (length d == 1) 550 (codes "Cannot rename root directory.") s (
        let s1 = checked d s in
        refusef_if (not (path_exists sys.lstat d any)) 550
          (codes "Path \"" ++ d ++ codes "\" does not exist.") s1
          (replyf_done 250 (codes "Renaming \"" ++ d ++ codes "\".")
            (set_client (record s1.client { rnfr = some d }) s1)))))

-- Behind the guards, with the source of the renaming taken out of the connection.
unfoldable pub rename_from : System → Ctl → Bytes → Bytes → Outcome
rename_from sys s rnfr arg = full_path s arg λ d.
    refuse_if (length d == 1) 550 (codes "Cannot rename to root directory.") s (
      let s1 = call (calls_rename (relative rnfr) (relative d)) s in
      if_fails (sys.rename (relative rnfr) (relative d))
        (λ e.
          replyf_done 550
            (codes "Cannot rename \""
              ++ rnfr
              ++ codes "\" to \""
              ++ d
              ++ codes "\" ("
              ++ e
              ++ codes ").")
            s1)
        (mark_dir (codes "Renamed \"" ++ rnfr ++ codes "\" to \"" ++ d ++ codes "\".") rnfr d s1))

unfoldable pub take_rnfr : System → Ctl → Option Bytes → Bytes → Outcome
take_rnfr sys s none arg = reply_done 503 (codes "Use RNFR first.") s
take_rnfr sys s (some rnfr) arg =
    rename_from sys (set_client (record s.client { rnfr = none }) s) rnfr arg

unfoldable pub handler_rnto : System → Ctl → Bytes → Outcome
handler_rnto sys s arg = ignore_if_xfer s (auth s (take_rnfr sys s s.client.rnfr arg))

unfoldable pub handler_dele : System → Ctl → Bytes → Outcome
handler_dele sys s arg = ignore_if_xfer s (
    auth s (
      full_path s arg λ d. refuse_if (length d == 1) 550 (codes "Cannot rename root directory.") s (
        let s1 = checked d s in
        refusef_if (not (path_exists sys.lstat d regular)) 550
          (codes "File \"" ++ d ++ codes "\" does not exist.") s1
          (let s2 = call (calls_unlink (relative d)) s1 in
            if_fails (sys.unlink (relative d))
              (λ e.
                replyf_done 550 (codes "Cannot delete \"" ++ d ++ codes "\" (" ++ e ++ codes ").")
                  s2)
              (replyf_done 250 (codes "Deleted \"" ++ d ++ codes "\".") s2)))))
