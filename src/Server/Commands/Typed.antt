-- ===== src/Server/Commands/Typed.antt =====
-- Every command keeps the fields of the connection record in the ranges of their types.
use zz_ftp.Prelude.{arith, Bytes, Option, none, some}
use zz_ftp.Text.Patterns.{scan_i64-IsPattern}
use zz_ftp.Server.System.{System, Ctl, checked}
use zz_ftp.Server.Handlers.Session.{
  handler_quit, handler_syst, handler_type, handler_user, handler_pass,
}
use zz_ftp.Server.Handlers.Files.{
  handler_cwd, handler_pwd, handler_mkd, handler_rmd, handler_rnfr, handler_rnto, handler_dele,
}
use zz_ftp.Server.Handlers.Transfers.{
  handler_port, handler_pasv, handler_list, handler_rest, handler_retr, handler_stor, handler_abor,
  signal_file,
}
use zz_ftp.Server.Commands.{
  Verb, quit, syst, type, user, pass, port, pasv, cwd, pwd, mkd, rmd, rnfr, rnto, dele, list, rest,
  retr, stor, abor, find_verb, verbs, handle, dispatch, process_command,
}
use zz_ftp.Server.Commands.Ranges.Helpers.{
  parse_port-Keeps, start_pasv-Keeps, set_rest-Keeps, abort_if-Keeps, set_user-Keeps,
  check_password-Keeps, take_rnfr-Keeps,
}
use zz_ftp.Server.Commands.Ranges.{
  InRange, Keeps, Keeps-returned, Keeps-reply_done, Keeps-disconnect, Keeps-disconnect_if,
  Keeps-refuse_if, Keeps-refusef_if, Keeps-ignore_if_xfer, Keeps-auth, Keeps-data_mode,
  Keeps-full_path, Keeps-mark_dir, Keeps-if_fails, Keeps-if_null, closes-Keeps,
}

ruleset range_rules = (
  Keeps-returned, Keeps-reply_done, Keeps-disconnect, Keeps-disconnect_if, Keeps-refuse_if,
  Keeps-refusef_if, Keeps-ignore_if_xfer, Keeps-auth, Keeps-data_mode, Keeps-full_path,
  Keeps-mark_dir, Keeps-if_fails, Keeps-if_null, closes-Keeps, parse_port-Keeps, start_pasv-Keeps,
  set_rest-Keeps, abort_if-Keeps, set_user-Keeps, check_password-Keeps, take_rnfr-Keeps,
  scan_i64-IsPattern,
)

module _ (sys : System) (s : Ctl) (arg : Bytes) (h : InRange s.client) where
  handler_quit-Keeps : Keeps (handler_quit sys s arg)
  unfolding handler_quit
  handler_quit-Keeps = search range_rules depth 9

  handler_type-Keeps : Keeps (handler_type sys s arg)
  unfolding handler_type
  handler_type-Keeps = search range_rules depth 9

  handler_user-Keeps : Keeps (handler_user sys s arg)
  unfolding handler_user
  handler_user-Keeps = search range_rules depth 9

  handler_pass-Keeps : Keeps (handler_pass sys s arg)
  unfolding handler_pass
  handler_pass-Keeps = search range_rules depth 9

  handler_port-Keeps : Keeps (handler_port sys s arg)
  unfolding handler_port
  handler_port-Keeps = search range_rules depth 9

  handler_pasv-Keeps : Keeps (handler_pasv sys s arg)
  unfolding handler_pasv
  handler_pasv-Keeps = search range_rules depth 9

  handler_cwd-Keeps : Keeps (handler_cwd sys s arg)
  unfolding handler_cwd checked
  handler_cwd-Keeps = search range_rules depth 9

  handler_pwd-Keeps : Keeps (handler_pwd sys s arg)
  unfolding handler_pwd
  handler_pwd-Keeps = search range_rules depth 9

  handler_mkd-Keeps : Keeps (handler_mkd sys s arg)
  unfolding handler_mkd
  handler_mkd-Keeps = search range_rules depth 9

  handler_rmd-Keeps : Keeps (handler_rmd sys s arg)
  unfolding handler_rmd
  handler_rmd-Keeps = search range_rules depth 9

  handler_rnfr-Keeps : Keeps (handler_rnfr sys s arg)
  unfolding handler_rnfr checked
  handler_rnfr-Keeps = search range_rules depth 9

  handler_rnto-Keeps : Keeps (handler_rnto sys s arg)
  unfolding handler_rnto
  handler_rnto-Keeps = search range_rules depth 9

  handler_dele-Keeps : Keeps (handler_dele sys s arg)
  unfolding handler_dele checked
  handler_dele-Keeps = search range_rules depth 9

  handler_list-Keeps : Keeps (handler_list sys s arg)
  unfolding handler_list signal_file
  handler_list-Keeps = search range_rules depth 9

  handler_rest-Keeps : Keeps (handler_rest sys s arg)
  unfolding handler_rest
  handler_rest-Keeps = search range_rules depth 9

  handler_retr-Keeps : Keeps (handler_retr sys s arg)
  unfolding handler_retr checked signal_file
  handler_retr-Keeps = Keeps-ignore_if_xfer s h _ (
      Keeps-auth s h _ (
        Keeps-data_mode s h _ (
          Keeps-full_path s h arg _ λ d. Keeps-refusef_if _ h _ _ _ _ (
            Keeps-if_null _ _ _ (record { kept = h })
              (λ f. record { kept = (h.0, (h.1.0, omega arith)) })))))

  handler_stor-Keeps : Keeps (handler_stor sys s arg)
  unfolding handler_stor checked signal_file
  handler_stor-Keeps = Keeps-ignore_if_xfer s h _ (
      Keeps-auth s h _ (
        Keeps-data_mode s h _ (
          Keeps-full_path s h arg _ λ d.
            Keeps-if_null _ _ _ (record { kept = (h.0, (h.1.0, omega arith)) })
              (λ f. record { kept = (h.0, (h.1.0, omega arith)) }))))

  handler_abor-Keeps : Keeps (handler_abor sys s arg)
  unfolding handler_abor
  handler_abor-Keeps = search range_rules depth 9

  handle-Keeps : (v : Verb) → Keeps (handle v sys s arg)
  unfolding handle handler_syst
  handle-Keeps quit = handler_quit-Keeps
  handle-Keeps syst = search range_rules
  handle-Keeps type = handler_type-Keeps
  handle-Keeps user = handler_user-Keeps
  handle-Keeps pass = handler_pass-Keeps
  handle-Keeps port = handler_port-Keeps
  handle-Keeps pasv = handler_pasv-Keeps
  handle-Keeps cwd = handler_cwd-Keeps
  handle-Keeps pwd = handler_pwd-Keeps
  handle-Keeps mkd = handler_mkd-Keeps
  handle-Keeps rmd = handler_rmd-Keeps
  handle-Keeps rnfr = handler_rnfr-Keeps
  handle-Keeps rnto = handler_rnto-Keeps
  handle-Keeps dele = handler_dele-Keeps
  handle-Keeps list = handler_list-Keeps
  handle-Keeps rest = handler_rest-Keeps
  handle-Keeps retr = handler_retr-Keeps
  handle-Keeps stor = handler_stor-Keeps
  handle-Keeps abor = handler_abor-Keeps

  dispatch-Keeps : (o : Option Verb) (verb : Bytes) → Keeps (dispatch o sys s verb arg)
  unfolding dispatch
  dispatch-Keeps (some v) verb = handle-Keeps v
  dispatch-Keeps none verb = search range_rules

-- From a connection record whose port is below 2 ^ 16, whose address has bytes only, and whose mark
-- of REST is below 2 ^ 64, every command that returns, whatever its verb and argument and whatever
-- the system answers, leaves such a record.
pub process_command-Keeps :
    (sys : System) (s : Ctl) (verb arg : Bytes)
    → InRange s.client
    → Keeps (process_command sys s verb arg)
unfolding process_command
process_command-Keeps sys s verb arg h = dispatch-Keeps sys s arg h (find_verb verbs verb) verb
