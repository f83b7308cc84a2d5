-- ===== src/Server/Commands/Safety.antt =====
-- Every command keeps the paths of the connection canonical and gives the system only such paths.
use zz_ftp.Prelude.{ℕ, Bool, true, false, Option, none, some, List, [], ◌∷◌, Bytes}
use zz_ftp.Server.Path.Resolve.{IsCanonical}
use zz_ftp.Server.System.{System, Ctl, Ephemeral, bound, no_socket, not_bound}
use zz_ftp.Server.System.Ends.{Ends, Ends-ignore_if_xfer, Ends-auth, Ends-data_mode, Ends-full_path}
use zz_ftp.Server.Handlers.Session.{
  handler_quit, handler_syst, handler_type, handler_user, handler_pass, set_user, check_password,
  logged_in,
}
use zz_ftp.Server.Handlers.Files.{
  handler_cwd, handler_pwd, handler_mkd, handler_rmd, handler_rnfr, handler_rnto, handler_dele,
  rename_from, take_rnfr,
}
use zz_ftp.Server.Handlers.Transfers.{
  handler_port, handler_pasv, handler_list, handler_rest, handler_retr, handler_stor, handler_abor,
  start_port, parse_port, start_pasv, set_rest, abort_if,
}
use zz_ftp.Server.Commands.{
  Verb, quit, syst, type, user, pass, port, pasv, cwd, pwd, mkd, rmd, rnfr, rnto, dele, list, rest,
  retr, stor, abor, find_verb, verbs, handle, dispatch, process_command,
}
use zz_ftp.Server.Commands.Sound.{IsSound, IsSound-ignores, set_rnfr-IsSound, sound_rules, OnSome}

start_port-IsSound :
    (sys : System) {s : Ctl} (x : List ℕ) → IsSound s → Ends IsSound (start_port sys s x)
unfolding start_port
start_port-IsSound sys (a ∷ b ∷ c ∷ d ∷ hi ∷ lo ∷ []) h = search sound_rules
start_port-IsSound sys _ h = search sound_rules

parse_port-IsSound :
    (sys : System) {s : Ctl} (o : Option (List ℕ)) → IsSound s → Ends IsSound (parse_port sys s o)
unfolding parse_port
parse_port-IsSound sys none h = search sound_rules
parse_port-IsSound sys (some x) h = search (sound_rules, start_port-IsSound)

start_pasv-IsSound :
    (sys : System) {s : Ctl} (e : Ephemeral) → IsSound s → Ends IsSound (start_pasv sys s e)
unfolding start_pasv
start_pasv-IsSound sys (bound fd ip hi lo) h = search sound_rules
start_pasv-IsSound sys no_socket h = search sound_rules
start_pasv-IsSound sys not_bound h = search sound_rules

set_rest-IsSound : {s : Ctl} (o : Option (ℕ × Bytes)) → IsSound s → Ends IsSound (set_rest s o)
unfolding set_rest
set_rest-IsSound none h = search sound_rules
set_rest-IsSound (some (n, _)) h = search sound_rules

abort_if-IsSound : (b : Bool) (sys : System) {s : Ctl} → IsSound s → Ends IsSound (abort_if b sys s)
unfolding abort_if
abort_if-IsSound true sys h = search sound_rules
abort_if-IsSound false sys h = search sound_rules

set_user-IsSound : (b : Bool) {s : Ctl} (arg : Bytes) → IsSound s → Ends IsSound (set_user b s arg)
unfolding set_user
set_user-IsSound true arg h = search sound_rules
set_user-IsSound false arg h = search sound_rules

check_password-IsSound :
    (o : Option Bytes) {s : Ctl} (arg : Bytes) → IsSound s → Ends IsSound (check_password o s arg)
unfolding check_password logged_in
check_password-IsSound none arg h = search sound_rules
check_password-IsSound (some name) arg h = search sound_rules

rename_from-IsSound :
    (sys : System) {s : Ctl} (from : Bytes) (arg : Bytes)
    → IsCanonical from
    → IsSound s
    → Ends IsSound (rename_from sys s from arg)
unfolding rename_from
rename_from-IsSound sys from arg c h = search sound_rules depth 9

take_rnfr-IsSound :
    (sys : System) {s : Ctl} (o : Option Bytes) (arg : Bytes)
    → OnSome IsCanonical o
    → IsSound s
    → Ends IsSound (take_rnfr sys s o arg)
unfolding take_rnfr
take_rnfr-IsSound sys none arg c h = search sound_rules
take_rnfr-IsSound sys {s} (some from) arg c h =
    rename_from-IsSound sys from arg c (set_rnfr-IsSound {s = s} none tt h)

ruleset helper_rules = (
  sound_rules, parse_port-IsSound, start_pasv-IsSound, set_rest-IsSound, abort_if-IsSound,
  set_user-IsSound, check_password-IsSound, take_rnfr-IsSound,
)

module _ (sys : System) (s : Ctl) (arg : Bytes) (h : IsSound s) where
  handler_quit-IsSound : Ends IsSound (handler_quit sys s arg)
  unfolding handler_quit
  handler_quit-IsSound = search helper_rules depth 9

  handler_type-IsSound : Ends IsSound (handler_type sys s arg)
  unfolding handler_type
  handler_type-IsSound = search helper_rules depth 9

  handler_user-IsSound : Ends IsSound (handler_user sys s arg)
  unfolding handler_user
  handler_user-IsSound = search helper_rules depth 9

  handler_pass-IsSound : Ends IsSound (handler_pass sys s arg)
  unfolding handler_pass
  handler_pass-IsSound = search helper_rules depth 9

  handler_port-IsSound : Ends IsSound (handler_port sys s arg)
  unfolding handler_port
  handler_port-IsSound = search helper_rules depth 9

  handler_pasv-IsSound : Ends IsSound (handler_pasv sys s arg)
  unfolding handler_pasv
  handler_pasv-IsSound = search helper_rules depth 9

  handler_cwd-IsSound : Ends IsSound (handler_cwd sys s arg)
  unfolding handler_cwd
  handler_cwd-IsSound = search helper_rules depth 9

  handler_pwd-IsSound : Ends IsSound (handler_pwd sys s arg)
  unfolding handler_pwd
  handler_pwd-IsSound = search helper_rules depth 9

  handler_mkd-IsSound : Ends IsSound (handler_mkd sys s arg)
  unfolding handler_mkd
  handler_mkd-IsSound = search helper_rules depth 9

  handler_rmd-IsSound : Ends IsSound (handler_rmd sys s arg)
  unfolding handler_rmd
  handler_rmd-IsSound = search helper_rules depth 9

  handler_rnfr-IsSound : Ends IsSound (handler_rnfr sys s arg)
  unfolding handler_rnfr
  handler_rnfr-IsSound = search helper_rules depth 9

  handler_rnto-IsSound : Ends IsSound (handler_rnto sys s arg)
  unfolding handler_rnto
  handler_rnto-IsSound = search helper_rules depth 9

  handler_dele-IsSound : Ends IsSound (handler_dele sys s arg)
  unfolding handler_dele
  handler_dele-IsSound = search helper_rules depth 9

  handler_list-IsSound : Ends IsSound (handler_list sys s arg)
  unfolding handler_list
  handler_list-IsSound = search helper_rules depth 9

  handler_rest-IsSound : Ends IsSound (handler_rest sys s arg)
  unfolding handler_rest
  handler_rest-IsSound = search helper_rules depth 9

  handler_abor-IsSound : Ends IsSound (handler_abor sys s arg)
  unfolding handler_abor
  handler_abor-IsSound = search helper_rules depth 9

  handler_retr-IsSound : Ends IsSound (handler_retr sys s arg)
  unfolding handler_retr
  handler_retr-IsSound = Ends-ignore_if_xfer IsSound-ignores h _ (
      Ends-auth IsSound-ignores h _ (
        Ends-data_mode IsSound-ignores h _
          (Ends-full_path IsSound-ignores h arg _ h.wd λ d c. search sound_rules depth 9)))

  handler_stor-IsSound : Ends IsSound (handler_stor sys s arg)
  unfolding handler_stor
  handler_stor-IsSound = Ends-ignore_if_xfer IsSound-ignores h _ (
      Ends-auth IsSound-ignores h _ (
        Ends-data_mode IsSound-ignores h _
          (Ends-full_path IsSound-ignores h arg _ h.wd λ d c. search sound_rules depth 9)))

  handle-IsSound : (v : Verb) → Ends IsSound (handle v sys s arg)
  unfolding handle handler_syst
  handle-IsSound quit = handler_quit-IsSound
  handle-IsSound syst = search sound_rules
  handle-IsSound type = handler_type-IsSound
  handle-IsSound user = handler_user-IsSound
  handle-IsSound pass = handler_pass-IsSound
  handle-IsSound port = handler_port-IsSound
  handle-IsSound pasv = handler_pasv-IsSound
  handle-IsSound cwd = handler_cwd-IsSound
  handle-IsSound pwd = handler_pwd-IsSound
  handle-IsSound mkd = handler_mkd-IsSound
  handle-IsSound rmd = handler_rmd-IsSound
  handle-IsSound rnfr = handler_rnfr-IsSound
  handle-IsSound rnto = handler_rnto-IsSound
  handle-IsSound dele = handler_dele-IsSound
  handle-IsSound list = handler_list-IsSound
  handle-IsSound rest = handler_rest-IsSound
  handle-IsSound retr = handler_retr-IsSound
  handle-IsSound stor = handler_stor-IsSound
  handle-IsSound abor = handler_abor-IsSound

  dispatch-IsSound : (o : Option Verb) (verb : Bytes) → Ends IsSound (dispatch o sys s verb arg)
  unfolding dispatch
  dispatch-IsSound (some v) verb = handle-IsSound v
  dispatch-IsSound none verb = search sound_rules

-- From a connection whose working directory and source of renaming are canonical and whose calls
-- so far were confined, a command, whatever its verb and argument and whatever the system answers,
-- accesses no memory out of bounds or through NULL, and where it returns it leaves such a
-- connection: every path that was given to a system call, LIST's shell command included, is a
-- canonical path without its leading slash, which has no ".." in it.
pub process_command-IsSound :
    (sys : System) (s : Ctl) (verb arg : Bytes)
    → IsSound s
    → Ends IsSound (process_command sys s verb arg)
unfolding process_command
process_command-IsSound sys s verb arg h = dispatch-IsSound sys s arg h (find_verb verbs verb) verb
