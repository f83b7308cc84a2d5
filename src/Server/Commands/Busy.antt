-- ===== src/Server/Commands/Busy.antt =====
-- What commands do while a transfer is in progress: the guard `ignore_if_xfer` of the handlers.
use zz_ftp.Prelude.{◌≡◌, ◌≢◌, refl, true, Bytes, codes}
use zz_ftp.Server.Client.{client_xfer_in_progress}
use zz_ftp.Server.System.{System, Ctl, Outcome, reply_done, ignore_if_xfer, refuse_if}
use zz_ftp.Server.Handlers.Session.{handler_type, handler_user, handler_pass}
use zz_ftp.Server.Handlers.Files.{
  handler_cwd, handler_pwd, handler_mkd, handler_rmd, handler_rnfr, handler_rnto, handler_dele,
}
use zz_ftp.Server.Handlers.Transfers.{
  handler_port, handler_pasv, handler_list, handler_rest, handler_retr, handler_stor,
}
use zz_ftp.Server.Commands.{Verb, quit, syst, abor, handle}

ignored :
    (s : Ctl) (r : Outcome)
    → client_xfer_in_progress s.client ≡ true
    → ignore_if_xfer s r ≡ reply_done 503 (codes "Data transfer in progress, ignored.") s
unfolding ignore_if_xfer refuse_if
ignored s r busy = rw busy

-- While a transfer is in progress every command but QUIT, SYST and ABOR is answered with 503 and
-- changes nothing else, whatever its argument and the state of the login.
pub handle_busy :
    (sys : System) (s : Ctl) (arg : Bytes) (v : Verb)
    → client_xfer_in_progress s.client ≡ true
    → v ≢ quit
    → v ≢ syst
    → v ≢ abor
    → handle v sys s arg ≡ reply_done 503 (codes "Data transfer in progress, ignored.") s
unfolding handle handler_type handler_user handler_pass handler_port handler_pasv handler_cwd
    handler_pwd handler_mkd handler_rmd handler_rnfr handler_rnto handler_dele handler_list
    handler_rest handler_retr handler_stor
handle_busy sys s arg quit busy q y a = absurd (q refl)
handle_busy sys s arg syst busy q y a = absurd (y refl)
handle_busy sys s arg abor busy q y a = absurd (a refl)
handle_busy sys s arg _ busy q y a = ignored s _ busy
