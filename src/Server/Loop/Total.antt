-- ===== src/Server/Loop/Total.antt =====
-- Sessions come to an end: rounds for everything that the client sends are enough.
use zz_ftp.Prelude.{ℕ, zero, suc, ◌<◌, ◌≡◌, ◌≢◌, inl, inr, arith, Option, none, some, List, c_str}
use zz_ftp.Io.Rlb.{Recv, Rlb, rlb_init, Line, line, too_long, closed, weight, rlb_read_line}
use zz_ftp.Io.Rlb.Progress.{read_line-LineUses}
use zz_ftp.Server.Client.{DatType}
use zz_ftp.Server.System.{System, Ctl, done, shutdown, Outcome, returned, hangs, faults}
use zz_ftp.Server.Thread.{client_close_threads}
use zz_ftp.Server.Commands.{process_command}
use zz_ftp.Server.Loop.{
  Parsed, command, malformed, parse_line, Turn, thread_acts, Session, finished, stuck, crashed,
  exhausted, Next, go_on, leave, goodbye, next_round, joined_or_stuck, after_command, run_parsed,
  run_line, run_rounds, client_run_loop, client_close, serve_client,
}

-- A session that came to its end, or to a join that does not return.
abbrev Completes : Session → Type 0
Completes exhausted = ⊥
Completes _ = Unit

abbrev Leaves : Next → Type 0
Leaves (go_on s) = Unit
Leaves (leave r) = Completes r

after_command-Leaves : (o : Outcome) → Leaves (after_command o)
unfolding after_command goodbye
after_command-Leaves (returned s done) = tt
after_command-Leaves (returned s shutdown) = tt
after_command-Leaves hangs = tt
after_command-Leaves faults = tt

run_parsed-Leaves : (sys : System) (s : Ctl) (p : Parsed) → Leaves (run_parsed sys s p)
unfolding run_parsed
run_parsed-Leaves sys s (command verb arg) = after_command-Leaves (process_command sys s verb arg)
run_parsed-Leaves sys s malformed = tt

run_line-Leaves : (sys : System) (s : Ctl) (l : Line) → Leaves (run_line sys s l)
unfolding run_line goodbye
run_line-Leaves sys s closed = tt
run_line-Leaves sys s (too_long _) = tt
run_line-Leaves sys s (line text) = run_parsed-Leaves sys s (parse_line (c_str text))

next_round-Completes :
    (x : Next) (rounds : Ctl → Session)
    → Leaves x
    → ((s : Ctl) → Completes (rounds s))
    → Completes (next_round x rounds)
unfolding next_round
next_round-Completes (go_on s) rounds h k = k s
next_round-Completes (leave r) rounds h k = h

closed-Completes :
    (sys : System) (s : Ctl) (l : Line) (rounds : Ctl → Session)
    → l ≡ closed
    → Completes (next_round (run_line sys s l) rounds)
unfolding next_round run_line goodbye
closed-Completes sys s l rounds e = rw e tt

run_rounds-Completes :
    (f : ℕ) (turns : ℕ → Turn) (n : ℕ) (b : Rlb) (s : Ctl)
    → weight b < f
    → Completes (run_rounds f turns n b s)
unfolding run_rounds
run_rounds-Completes zero turns n b s room = absurd (omega arith)
run_rounds-Completes (suc f) turns n b s room = elim (read_line-LineUses 1022 b) [
  | inl less ↦
      next_round-Completes
        (run_line (turns n).system (thread_acts (turns n).thread s) (rlb_read_line 1024 b).0)
        (λ s1. run_rounds f turns (suc n) (rlb_read_line 1024 b).1 s1)
        (run_line-Leaves (turns n).system _ (rlb_read_line 1024 b).0)
        (λ s1. run_rounds-Completes f turns (suc n) (rlb_read_line 1024 b).1 s1 (omega arith))
  | inr at_end ↦
      closed-Completes (turns n).system _ (rlb_read_line 1024 b).0
        (λ s1. run_rounds f turns (suc n) (rlb_read_line 1024 b).1 s1) at_end
]

joined_or_stuck-Completes : (o : Option Ctl) → Completes (joined_or_stuck o)
unfolding joined_or_stuck
joined_or_stuck-Completes none = tt
joined_or_stuck-Completes (some s) = tt

client_close-Completes : (sys : System) (r : Session) → Completes r → Completes (client_close sys r)
unfolding client_close
client_close-Completes sys (finished s) h = joined_or_stuck-Completes (client_close_threads sys s)
client_close-Completes sys stuck h = h
client_close-Completes sys crashed h = h
client_close-Completes sys exhausted h = h

Completes-ne-exhausted : (r : Session) → Completes r → r ≢ exhausted
Completes-ne-exhausted r h e = rw e at h

-- Whatever a client sends and whatever the system and the data thread do, a session needs no more
-- rounds of the command loop than there are bytes and results of read() to come, and one: its loop
-- is left, by the end of the connection or QUIT or in a command, before they are used up.
pub serve_client-ne-exhausted :
    (rounds : ℕ) (turns : ℕ → Turn) (last : System) (fd : ℕ) (input : List Recv) (addr : List ℕ)
    (port : ℕ) (dat_type : DatType)
    → weight (rlb_init input) < rounds
    → serve_client rounds turns last fd input addr port dat_type ≢ exhausted
unfolding serve_client client_run_loop
serve_client-ne-exhausted rounds turns last fd input addr port dat_type room =
    Completes-ne-exhausted _
      (client_close-Completes last _ (run_rounds-Completes rounds turns 0 (rlb_init input) _ room))
