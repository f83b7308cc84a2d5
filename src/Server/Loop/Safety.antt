-- ===== src/Server/Loop/Safety.antt =====
-- Whole sessions: what holds behind every command holds at their end.
use zz_ftp.Prelude.{c_str, ℕ, zero, suc, refl, Option, none, some, List, []}
use zz_ftp.Io.Rlb.{Recv, Rlb, rlb_init, Line, line, too_long, closed, rlb_read_line}
use zz_ftp.Server.Path.Resolve.{render}
use zz_ftp.Server.Client.{DatType, client_create}
use zz_ftp.Server.System.{
  ThreadEnd, over, ends, refused, never, System, Ctl, done, shutdown, Outcome, returned, hangs,
  faults,
}
use zz_ftp.Server.System.Ends.{Ends}
use zz_ftp.Server.Thread.{client_close_threads}
use zz_ftp.Server.Commands.Sound.{
  IsSound, IsSound-mark, OnCtl, cleanup-IsSound, close_threads-IsSound,
}
use zz_ftp.Server.Commands.Safety.{process_command-IsSound}
use zz_ftp.Server.Loop.{
  Parsed, command, malformed, parse_line, Turn, thread_acts, Session, finished, stuck, crashed,
  exhausted, Next, go_on, leave, goodbye, next_round, joined_or_stuck, after_command, run_parsed,
  run_line, run_rounds, welcome_msg, client_run_loop, client_close, serve_client,
}

-- A session that does not crash, and is sound where it is finished.
abbrev pub EndsSound : Session → Type 0
EndsSound (finished s) = IsSound s
EndsSound crashed = ⊥
EndsSound _ = Unit

abbrev NextSound : Next → Type 0
NextSound (go_on s) = IsSound s
NextSound (leave r) = EndsSound r

thread_acts-IsSound : (e : ThreadEnd) {s : Ctl} → IsSound s → IsSound (thread_acts e s)
unfolding thread_acts
thread_acts-IsSound over h = h
thread_acts-IsSound never h = h
thread_acts-IsSound (ends st) h = cleanup-IsSound st h
thread_acts-IsSound (refused msg) h = cleanup-IsSound 0 (IsSound-mark 425 msg h)

after_command-NextSound : (o : Outcome) → Ends IsSound o → NextSound (after_command o)
unfolding after_command goodbye
after_command-NextSound (returned s done) e = e.holds
after_command-NextSound (returned s shutdown) e = IsSound-mark 221 _ e.holds
after_command-NextSound hangs e = tt
after_command-NextSound faults e = e.holds

run_parsed-NextSound :
    (sys : System) (s : Ctl) (p : Parsed) → IsSound s → NextSound (run_parsed sys s p)
unfolding run_parsed
run_parsed-NextSound sys s (command verb arg) h =
    after_command-NextSound _ (process_command-IsSound sys s verb arg h)
run_parsed-NextSound sys s malformed h = IsSound-mark 500 _ h

run_line-NextSound : (sys : System) (s : Ctl) (l : Line) → IsSound s → NextSound (run_line sys s l)
unfolding run_line goodbye
run_line-NextSound sys s closed h = IsSound-mark 221 _ h
run_line-NextSound sys s (too_long _) h = IsSound-mark 500 _ h
run_line-NextSound sys s (line text) h = run_parsed-NextSound sys s (parse_line (c_str text)) h

next_round-EndsSound :
    (x : Next) (rounds : Ctl → Session)
    → NextSound x
    → ((s : Ctl) → IsSound s → EndsSound (rounds s))
    → EndsSound (next_round x rounds)
unfolding next_round
next_round-EndsSound (go_on s) rounds h k = k s h
next_round-EndsSound (leave r) rounds h k = h

run_rounds-EndsSound :
    (f : ℕ) (turns : ℕ → Turn) (n : ℕ) (b : Rlb) (s : Ctl)
    → IsSound s
    → EndsSound (run_rounds f turns n b s)
unfolding run_rounds
run_rounds-EndsSound zero turns n b s h = tt
run_rounds-EndsSound (suc f) turns n b s h =
    let (l, b1) = rlb_read_line 1024 b in
    next_round-EndsSound (run_line (turns n).system (thread_acts (turns n).thread s) l) _
      (run_line-NextSound (turns n).system _ l (thread_acts-IsSound (turns n).thread h))
      (λ s1 h1. run_rounds-EndsSound f turns (suc n) b1 s1 h1)

joined_or_stuck-EndsSound : (o : Option Ctl) → OnCtl IsSound o → EndsSound (joined_or_stuck o)
unfolding joined_or_stuck
joined_or_stuck-EndsSound none h = tt
joined_or_stuck-EndsSound (some s) h = h

client_close-EndsSound : (sys : System) (r : Session) → EndsSound r → EndsSound (client_close sys r)
unfolding client_close
client_close-EndsSound sys (finished s) h =
    joined_or_stuck-EndsSound (client_close_threads sys s) (close_threads-IsSound sys s h)
client_close-EndsSound sys stuck h = h
client_close-EndsSound sys crashed h = h
client_close-EndsSound sys exhausted h = h

client_create-IsSound :
    (fd : ℕ) (addr : List ℕ) (port : ℕ) (dat_type : DatType)
    → IsSound (record { client = client_create fd addr port dat_type; replies = []; calls = [] })
unfolding client_create render
client_create-IsSound fd addr port dat_type = record {
  wd = record { dirs = []; names = tt; text = refl };
  rnfr = tt;
  calls = tt;
}

-- However many commands a client sends and whatever they are, however the bytes arrive, whatever
-- the system answers and whenever the data thread ends, a session from its creation to its close
-- never reads or writes out of bounds in path_cat and never has a NULL working directory, and all
-- that it gave to system calls are canonical paths relative to the root directory.
pub serve_client-EndsSound :
    (rounds : ℕ) (turns : ℕ → Turn) (last : System) (fd : ℕ) (input : List Recv) (addr : List ℕ)
    (port : ℕ) (dat_type : DatType)
    → EndsSound (serve_client rounds turns last fd input addr port dat_type)
unfolding serve_client client_run_loop
serve_client-EndsSound rounds turns last fd input addr port dat_type =
    client_close-EndsSound last _ (
      run_rounds-EndsSound rounds turns 0 (rlb_init input) _
        (IsSound-mark 220 welcome_msg (client_create-IsSound fd addr port dat_type)))
