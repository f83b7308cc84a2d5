-- ===== src/Server/Loop.antt =====
-- client_run_loop and client_close of server/client.c, and serve_client of server/main.c.
pub mod Safety
pub mod Total
use zz_ftp.Prelude.{
  c_str, ℕ, zero, suc, ◌+◌, Bool, true, false, not, ◌&&◌, ◌||◌, Option, none, some, List, [], ◌∷◌,
  ◌++◌, ◌==◌, leb, if◌then◌else◌, Bytes, codes,
}
use zz_ftp.Text.{to_upper}
use zz_ftp.Io.Rlb.{Recv, Rlb, rlb_init, Line, line, too_long, closed, rlb_read_line}
use zz_ftp.Server.Client.{Client, DatType, client_create}
use zz_ftp.Server.System.{
  ThreadEnd, over, ends, refused, never, System, Ctl, mark, done, shutdown, Outcome, returned,
  hangs, faults,
}
use zz_ftp.Server.Thread.{cleanup, client_close_threads}
use zz_ftp.Server.Commands.{process_command}

pub is_upper : ℕ → Bool
is_upper c = leb b'A' c && leb c b'Z'

-- while ((*p = toupper(*p)) >= 'A' && *p <= 'Z') p++; the verb, and the text from p on.
unfoldable pub scan_verb : Bytes → Bytes × Bytes
unfolding is_upper to_upper
scan_verb [] = ([], [])
scan_verb (c ∷ cs) =
    let (verb, rest) = scan_verb cs in
    if is_upper (to_upper c) then (to_upper c ∷ verb, rest) else ([], to_upper c ∷ cs)

pub data Parsed : Type 0 where
  command : Bytes → Bytes → Parsed
  malformed : Parsed

split_argument : Bytes × Bytes → Parsed
split_argument (verb, []) = command verb []
split_argument (verb, c ∷ arg) = if c == b' ' then command verb arg else malformed

unfoldable pub parse_line : Bytes → Parsed
unfolding scan_verb split_argument
parse_line text = split_argument (scan_verb text)

-- What happens while the loop waits for a line and handles it: the data thread may end first.
pub record Turn : Type 0 where
  pub thread : ThreadEnd
  pub system : System

thread_acts : ThreadEnd → Ctl → Ctl
thread_acts over s = s
thread_acts never s = s
thread_acts (ends st) s = cleanup st s
thread_acts (refused msg) s = cleanup 0 (mark 425 msg s)

-- How a session ends: the loop is left and the good-bye sent, or a join never returns, or an
-- access faults; `exhausted` stands for more rounds than were asked for.
pub data Session : Type 0 where
  finished : Ctl → Session
  stuck crashed exhausted : Session

pub data Next : Type 0 where
  go_on : Ctl → Next
  leave : Session → Next

goodbye : Ctl → Next
goodbye s = leave (finished (mark 221 (codes "Goodbye \\(^ ^)/~") s))

after_command : Outcome → Next
after_command (returned s done) = go_on s
after_command (returned s shutdown) = goodbye s
after_command hangs = leave stuck
after_command faults = leave crashed

run_parsed : System → Ctl → Parsed → Next
run_parsed sys s (command verb arg) = after_command (process_command sys s verb arg)
run_parsed sys s malformed =
    go_on (
      mark 500 (codes "The verb should be terminate the command line, or be followed by a space.")
        s)

-- The body of the loop behind rlb_read_line.
unfoldable pub run_line : System → Ctl → Line → Next
unfolding after_command run_parsed goodbye
run_line sys s closed = goodbye s
run_line sys s (too_long _) =
    go_on (mark 500 (codes "Command line too long, the limit is 1023 characters.") s)
run_line sys s (line text) = run_parsed sys s (parse_line (c_str text))

-- `break` and `continue`.
next_round : Next → (Ctl → Session) → Session
next_round (leave r) rounds = r
next_round (go_on s) rounds = rounds s

-- while (1), for at most the given number of rounds; `n` counts them.
unfoldable pub run_rounds : ℕ → (ℕ → Turn) → ℕ → Rlb → Ctl → Session
unfolding next_round thread_acts run_line
run_rounds zero turns n b s = exhausted
run_rounds (suc f) turns n b s =
    let (l, b1) = rlb_read_line 1024 b in
    next_round (run_line (turns n).system (thread_acts (turns n).thread s) l)
      (λ s1. run_rounds f turns (suc n) b1 s1)

abbrev pub welcome_msg : Bytes
welcome_msg =
    codes
      "                Welcome to zzftp.kawa.moe FTP archives                \n\nThis site is provided as a public service.  Use in violation of any\napplicable laws is strictly prohibited.  No guarantees, explicit or\nimplicit, about the contents of this site.  Use at your own risk.\n\nFTP server ready.\n"

unfoldable pub client_run_loop : ℕ → (ℕ → Turn) → Rlb → Ctl → Session
client_run_loop rounds turns b s = run_rounds rounds turns 0 b (mark 220 welcome_msg s)

joined_or_stuck : Option Ctl → Session
joined_or_stuck none = stuck
joined_or_stuck (some s) = finished s

-- client_close waits for the data thread; what it frees and closes has no value here.
client_close : System → Session → Session
client_close sys (finished s) = joined_or_stuck (client_close_threads sys s)
client_close sys r = r

-- serve_client: what arrives on the connection, and what the system does in the meantime.
unfoldable pub serve_client :
    ℕ → (ℕ → Turn) → System → ℕ → List Recv → List ℕ → ℕ → DatType → Session
unfolding client_close joined_or_stuck
serve_client rounds turns last fd input addr port dat_type = client_close last (
    client_run_loop rounds turns (rlb_init input)
      (record { client = client_create fd addr port dat_type; replies = []; calls = [] }))
