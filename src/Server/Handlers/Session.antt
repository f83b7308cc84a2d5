-- ===== src/Server/Handlers/Session.antt =====
-- QUIT, SYST, TYPE, USER and PASS of server/client_cmds.c.
use zz_ftp.Prelude.{
  ℕ, Bool, true, false, not, Option, none, some, [], ◌∷◌, ◌++◌, ◌==◌, ltb, leb, Bytes, codes, equal,
  length,
}
use zz_ftp.Text.{to_upper}
use zz_ftp.Server.Client.{wait_pass, ready, state_value, user_auth}
use zz_ftp.Server.System.{
  System, Ctl, shutdown, Outcome, returned, set_client, reply_done, replyf_done, ignore_if_xfer,
  refuse_if,
}
use zz_ftp.Server.Thread.{client_close_threads, after_close}

unfoldable pub handler_quit : System → Ctl → Bytes → Outcome
handler_quit sys s arg = after_close (client_close_threads sys s) (λ s1. returned s1 shutdown)

unfoldable pub handler_syst : System → Ctl → Bytes → Outcome
handler_syst sys s arg = reply_done 215 (codes "UNIX Type: L8") s

-- arg[0]: the terminator, where the argument is empty.
unfoldable pub first_byte : Bytes → ℕ
first_byte [] = 0
first_byte (c ∷ _) = c

unfoldable pub handler_type : System → Ctl → Bytes → Outcome
unfolding first_byte
handler_type sys s arg = ignore_if_xfer s (
    refuse_if (to_upper (first_byte arg) == b'I') 200 (codes "Type set to I.") s (
      refuse_if (to_upper (first_byte arg) == b'A') 200
        (codes "Type set to A.\nNote: no conversion is applied.") s
        (reply_done 504 (codes "Only ASCII mode (A) and image mode (I) are supported.") s)))

-- The state of the login and the user name, on both branches of the test for "anonymous".
unfoldable pub set_user : Bool → Ctl → Bytes → Outcome
set_user true s arg =
    reply_done 331 (codes "Logging in anonymously. Send your complete e-mail address as password.")
      (set_client (record s.client { state = wait_pass; username = none }) s)
set_user false s arg =
    reply_done 331 (codes "Please specify the password.")
      (set_client (record s.client { state = wait_pass; username = some arg }) s)

unfoldable pub handler_user : System → Ctl → Bytes → Outcome
handler_user sys s arg = ignore_if_xfer s (
    refuse_if (leb (state_value ready) (state_value s.client.state)) 503
      (codes "Already logged in.") s (set_user (equal arg (codes "anonymous")) s arg))

-- c->state = CLST_READY and the welcome, for the name that is logged in.
unfoldable pub logged_in : Bytes → Ctl → Outcome
logged_in name s =
    replyf_done 230 (codes "Logged in. Welcome, " ++ name ++ codes ".")
      (set_client (record s.client { state = ready; username = some name }) s)

unfoldable pub check_password : Option Bytes → Ctl → Bytes → Outcome
check_password none s arg =
    refuse_if (ltb 64 (length arg)) 530 (codes "Password too long (more than 64 characters).") s
      (logged_in (codes "anonymous/" ++ arg) s)
check_password (some name) s arg =
    refuse_if (not (user_auth name arg)) 530 (codes "Incorrect username/password.") s
      (logged_in name s)

unfoldable pub handler_pass : System → Ctl → Bytes → Outcome
handler_pass sys s arg = ignore_if_xfer s (
    refuse_if (ltb (state_value s.client.state) (state_value wait_pass)) 503
      (codes "Specify your username first.") s
      (refuse_if (leb (state_value ready) (state_value s.client.state)) 503
        (codes "Already logged in.") s (check_password s.client.username s arg)))
