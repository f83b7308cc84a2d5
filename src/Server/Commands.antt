-- ===== src/Server/Commands.antt =====
-- process_command of server/client_cmds.c.
pub mod Sound
pub mod Safety
pub mod Access
pub mod Busy
pub mod Directory
pub mod Ranges
pub mod Renaming
pub mod Restart
pub mod Typed
pub mod Addresses
use zz_ftp.Prelude.{
  ℕ, Bool, true, false, Option, none, some, List, [], ◌∷◌, ◌++◌, if◌then◌else◌, Bytes, codes, equal,
}
use zz_ftp.Text.{truncate_to}
use zz_ftp.Server.System.{System, Ctl, Outcome, reply_done}
use zz_ftp.Server.Handlers.Session.{
  handler_quit, handler_syst, handler_type, handler_user, handler_pass,
}
use zz_ftp.Server.Handlers.Files.{
  handler_cwd, handler_pwd, handler_mkd, handler_rmd, handler_rnfr, handler_rnto, handler_dele,
}
use zz_ftp.Server.Handlers.Transfers.{
  handler_port, handler_pasv, handler_list, handler_rest, handler_retr, handler_stor, handler_abor,
}

pub data Verb : Type 0 where
  quit syst type user pass port pasv cwd pwd mkd rmd rnfr rnto dele list rest retr stor abor : Verb

-- The verbs in the order of the def_cmd lines.
abbrev pub verbs : List (Bytes × Verb)
verbs =
    (codes "QUIT", quit)
    ∷ (codes "SYST", syst)
    ∷ (codes "TYPE", type)
    ∷ (codes "USER", user)
    ∷ (codes "PASS", pass)
    ∷ (codes "PORT", port)
    ∷ (codes "PASV", pasv)
    ∷ (codes "CWD", cwd)
    ∷ (codes "PWD", pwd)
    ∷ (codes "MKD", mkd)
    ∷ (codes "RMD", rmd)
    ∷ (codes "RNFR", rnfr)
    ∷ (codes "RNTO", rnto)
    ∷ (codes "DELE", dele)
    ∷ (codes "LIST", list)
    ∷ (codes "REST", rest)
    ∷ (codes "RETR", retr)
    ∷ (codes "STOR", stor)
    ∷ (codes "ABOR", abor)
    ∷ []

-- #define def_cmd(_verb): the first one that strcmp() finds equal.
find_verb : List (Bytes × Verb) → Bytes → Option Verb
find_verb [] verb = none
find_verb ((name, v) ∷ table) verb = if equal verb name then some v else find_verb table verb

unfoldable pub handle : Verb → System → Ctl → Bytes → Outcome
handle quit = handler_quit
handle syst = handler_syst
handle type = handler_type
handle user = handler_user
handle pass = handler_pass
handle port = handler_port
handle pasv = handler_pasv
handle cwd = handler_cwd
handle pwd = handler_pwd
handle mkd = handler_mkd
handle rmd = handler_rmd
handle rnfr = handler_rnfr
handle rnto = handler_rnto
handle dele = handler_dele
handle list = handler_list
handle rest = handler_rest
handle retr = handler_retr
handle stor = handler_stor
handle abor = handler_abor

-- The text is cut to the 64 bytes of `t`, terminator included.
dispatch : Option Verb → System → Ctl → Bytes → Bytes → Outcome
dispatch (some v) sys s verb arg = handle v sys s arg
dispatch none sys s verb arg =
    reply_done 202 (truncate_to 64 (codes "Unknown command \"" ++ verb ++ codes "\"")) s

unfoldable pub process_command : System → Ctl → Bytes → Bytes → Outcome
unfolding dispatch find_verb handle
process_command sys s verb arg = dispatch (find_verb verbs verb) sys s verb arg
