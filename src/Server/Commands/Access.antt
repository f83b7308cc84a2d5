-- ===== src/Server/Commands/Access.antt =====
-- What a client can do before it has logged in: the guard `auth` of the handlers, and PASS.
use zz_ftp.Prelude.{
  ◌≤◌, ◌<◌, ◌≡◌, refl, arith, Bool, true, false, not, ◌⊎◌, inl, inr, Option, none, some, Bytes,
  codes, equal_iff, length, ltb, lt→ltb,
}
use zz_ftp.Server.Client.{Client, state_value, client_xfer_in_progress, user_auth, wait_pass, ready}
use zz_ftp.Server.System.{
  System, Ctl, Outcome, reply_done, refuse_if, ignore_if_xfer, auth, set_client,
}
use zz_ftp.Server.System.Ends.{
  Ends, IgnoresReplies, Ends-returned, Ends-reply_done, Ends-ignore_if_xfer, Ends-refuse_if,
}
use zz_ftp.Server.Thread.{client_close_threads, close_if, after_close}
use zz_ftp.Server.Handlers.Session.{
  handler_quit, handler_syst, handler_type, handler_user, handler_pass, set_user, check_password,
  logged_in,
}
use zz_ftp.Server.Handlers.Files.{
  handler_cwd, handler_pwd, handler_mkd, handler_rmd, handler_rnfr, handler_rnto, handler_dele,
}
use zz_ftp.Server.Handlers.Transfers.{
  handler_port, handler_pasv, handler_list, handler_rest, handler_retr, handler_stor, handler_abor,
  abort_if,
}
use zz_ftp.Server.Commands.{Verb, quit, syst, type, user, pass, abor, handle}

-- Not logged in, and no data thread: as client_create leaves a connection.
pub record IsLoggedOut (c : Client) : Type 0 where
  pub low : state_value c.state < state_value ready
  pub idle : c.thr_dat_running ≡ false
  pub no_file : c.dat_fp ≡ none

-- Nothing but the login state, the user name and the replies is another.
pub record IsUntouched (s t : Ctl) : Type 0 where
  pub calls : t.calls ≡ s.calls
  pub wd : t.client.wd ≡ s.client.wd
  pub rnfr : t.client.rnfr ≡ s.client.rnfr
  pub rest_offs : t.client.rest_offs ≡ s.client.rest_offs
  pub running : t.client.thr_dat_running ≡ s.client.thr_dat_running
  pub dat_fp : t.client.dat_fp ≡ s.client.dat_fp
  pub addr : t.client.addr ≡ s.client.addr
  pub port : t.client.port ≡ s.client.port

-- The passwords that PASS takes for the name that USER left, NULL for an anonymous login.
abbrev pub IsAuthorised : Option Bytes → Bytes → Type 0
IsAuthorised none arg = length arg ≤ 64
IsAuthorised (some name) arg = (name ≡ codes "qwq") × (arg ≡ codes "quq")

-- The commands that need no login.
abbrev pub is_open : Verb → Bool
is_open quit = true
is_open syst = true
is_open type = true
is_open user = true
is_open pass = true
is_open abor = true
is_open _ = false

-- Behind a command: still not logged in, or a PASS with the right password has logged in.
pub record IsGuarded (s : Ctl) (v : Verb) (arg : Bytes) (t : Ctl) : Type 0 where
  pub untouched : IsUntouched s t
  pub login :
      (state_value t.client.state < state_value ready)
      ⊎ ((v ≡ pass) × IsAuthorised s.client.username arg)

user_auth-IsAuthorised :
    (name arg : Bytes) → user_auth name arg ≡ true → (name ≡ codes "qwq") × (arg ≡ codes "quq")
unfolding user_auth
user_auth-IsAuthorised name arg h = (
  (equal_iff name (codes "qwq")).0 (ground arith),
  (equal_iff arg (codes "quq")).0 (ground arith),
)

module _ (sys : System) (s : Ctl) (arg : Bytes) (v : Verb) (out : IsLoggedOut s.client) where
  stays : IsGuarded s v arg s
  stays = record {
    untouched = record {
      calls = refl;
      wd = refl;
      rnfr = refl;
      rest_offs = refl;
      running = refl;
      dat_fp = refl;
      addr = refl;
      port = refl;
    };
    login = inl out.low;
  }

  ignores : IgnoresReplies (IsGuarded s v arg)
  ignores code msg t h = record {
    untouched = record {
      calls = h.untouched.calls;
      wd = h.untouched.wd;
      rnfr = h.untouched.rnfr;
      rest_offs = h.untouched.rest_offs;
      running = h.untouched.running;
      dat_fp = h.untouched.dat_fp;
      addr = h.untouched.addr;
      port = h.untouched.port;
    };
    login = h.login;
  }

  -- Behind USER.
  waiting :
      (name : Option Bytes)
      → IsGuarded s v arg (set_client (record s.client { state = wait_pass; username = name }) s)
  unfolding state_value
  waiting name = record {
    untouched = record {
      calls = refl;
      wd = refl;
      rnfr = refl;
      rest_offs = refl;
      running = refl;
      dat_fp = refl;
      addr = refl;
      port = refl;
    };
    login = inl (omega arith);
  }

  -- Behind a PASS that was accepted.
  welcome :
      (name : Bytes)
      → v ≡ pass
      → IsAuthorised s.client.username arg
      → Ends (IsGuarded s v arg) (logged_in name s)
  unfolding logged_in
  welcome name p a =
      Ends-reply_done ignores
        {s = set_client (record s.client { state = ready; username = some name }) s}
        (record {
          untouched = record {
            calls = refl;
            wd = refl;
            rnfr = refl;
            rest_offs = refl;
            running = refl;
            dat_fp = refl;
            addr = refl;
            port = refl;
          };
          login = inr (p, a);
        })
        230 _

  auth_refuses : (rest : Outcome) → Ends (IsGuarded s v arg) (auth s rest)
  unfolding auth refuse_if
  auth_refuses r =
      rw (lt→ltb (state_value s.client.state) (state_value ready) out.low)
        (Ends-reply_done ignores stays 530 _)

  close_idle :
      (then_do : Ctl → Outcome) → after_close (client_close_threads sys s) then_do ≡ then_do s
  unfolding client_close_threads close_if after_close
  close_idle then_do = ground (arith, out.idle)

  set_user-IsGuarded : (b : Bool) → Ends (IsGuarded s v arg) (set_user b s arg)
  unfolding set_user
  set_user-IsGuarded true = Ends-reply_done ignores (waiting none) 331 _
  set_user-IsGuarded false = Ends-reply_done ignores (waiting (some arg)) 331 _

  check_password-IsGuarded :
      (o : Option Bytes)
      → s.client.username ≡ o
      → v ≡ pass
      → Ends (IsGuarded s v arg) (check_password o s arg)
  unfolding check_password
  check_password-IsGuarded none e p =
      Ends-refuse_if ignores stays (ltb 64 (length arg)) _ _ _
        λ short. welcome _ p (rw e (ground arith))
  check_password-IsGuarded (some name) e p =
      Ends-refuse_if ignores stays (not (user_auth name arg)) _ _ _
        λ right. welcome _ p (rw e (user_auth-IsAuthorised name arg (ground arith)))

  handler_quit-IsGuarded : Ends (IsGuarded s v arg) (handler_quit sys s arg)
  unfolding handler_quit
  handler_quit-IsGuarded = rw close_idle (Ends-returned s _ stays)

  handler_type-IsGuarded : Ends (IsGuarded s v arg) (handler_type sys s arg)
  unfolding handler_type
  handler_type-IsGuarded =
      search (ignores, stays, Ends-ignore_if_xfer, Ends-refuse_if, Ends-reply_done)

  handler_user-IsGuarded : Ends (IsGuarded s v arg) (handler_user sys s arg)
  unfolding handler_user
  handler_user-IsGuarded =
      search (ignores, stays, set_user-IsGuarded, Ends-ignore_if_xfer, Ends-refuse_if)

  handler_pass-IsGuarded : v ≡ pass → Ends (IsGuarded s v arg) (handler_pass sys s arg)
  unfolding handler_pass
  handler_pass-IsGuarded p = Ends-ignore_if_xfer ignores stays _ (
      Ends-refuse_if ignores stays _ _ _ _ λ _.
        Ends-refuse_if ignores stays _ _ _ _ λ _. check_password-IsGuarded s.client.username refl p)

  abort_idle : Ends (IsGuarded s v arg) (handler_abor sys s arg)
  unfolding handler_abor abort_if client_xfer_in_progress
  abort_idle = simp out.no_file (Ends-reply_done ignores stays 225 _)

  refused : (rest : Outcome) → Ends (IsGuarded s v arg) (ignore_if_xfer s (auth s rest))
  refused r = Ends-ignore_if_xfer ignores stays _ (auth_refuses r)

  handle-IsGuarded_as : (w : Verb) → v ≡ w → Ends (IsGuarded s v arg) (handle w sys s arg)
  unfolding handle handler_syst handler_port handler_pasv handler_cwd handler_pwd handler_mkd
      handler_rmd handler_rnfr handler_rnto handler_dele handler_list handler_rest handler_retr
      handler_stor
  handle-IsGuarded_as quit e = handler_quit-IsGuarded
  handle-IsGuarded_as syst e = Ends-reply_done ignores stays 215 _
  handle-IsGuarded_as type e = handler_type-IsGuarded
  handle-IsGuarded_as user e = handler_user-IsGuarded
  handle-IsGuarded_as pass e = handler_pass-IsGuarded e
  handle-IsGuarded_as abor e = abort_idle
  handle-IsGuarded_as _ e = refused _

not_logged_in :
    (s : Ctl) (r : Outcome)
    → IsLoggedOut s.client
    → ignore_if_xfer s (auth s r) ≡ reply_done 530 (codes "Log in first.") s
unfolding ignore_if_xfer auth refuse_if client_xfer_in_progress
not_logged_in s r out =
    rw (out.no_file, lt→ltb (state_value s.client.state) (state_value ready) out.low)

handle_closed :
    (sys : System) (s : Ctl) (arg : Bytes) (v : Verb)
    → IsLoggedOut s.client
    → (is_open v ≡ true) ⊎ (handle v sys s arg ≡ reply_done 530 (codes "Log in first.") s)
unfolding handle handler_port handler_pasv handler_cwd handler_pwd handler_mkd handler_rmd
    handler_rnfr handler_rnto handler_dele handler_list handler_rest handler_retr handler_stor
handle_closed sys s arg quit out = inl refl
handle_closed sys s arg syst out = inl refl
handle_closed sys s arg type out = inl refl
handle_closed sys s arg user out = inl refl
handle_closed sys s arg pass out = inl refl
handle_closed sys s arg abor out = inl refl
handle_closed sys s arg _ out = inr (not_logged_in s _ out)

-- Before login, and with no data thread about, no command makes a system call or changes the
-- working directory, a pending renaming, the restart mark, the address on record or the data
-- connection; the state stays below CLST_READY, but for a PASS whose argument is right for the user
-- name on record: at most 64 characters for an anonymous user, and the one password of the one named
-- user; and every command but QUIT, SYST, TYPE, USER, PASS and ABOR is answered 530 and does nothing
-- else.
pub handle-IsGuarded :
    (sys : System) (s : Ctl) (arg : Bytes) (v : Verb)
    → IsLoggedOut s.client
    → Ends (IsGuarded s v arg) (handle v sys s arg)
      × ((is_open v ≡ true) ⊎ (handle v sys s arg ≡ reply_done 530 (codes "Log in first.") s))
handle-IsGuarded sys s arg v out =
    (handle-IsGuarded_as sys s arg v out v refl, handle_closed sys s arg v out)
