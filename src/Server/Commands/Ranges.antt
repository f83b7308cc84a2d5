-- ===== src/Server/Commands/Ranges.antt =====
-- The fields of the connection record stay in the ranges of their types: the port is a uint16_t, the
-- address four uint8_t, and the mark of REST a size_t.
pub mod Helpers
use zz_ftp.Prelude.{
  ℕ, ◌≡◌, refl, arith, ◌<◌, ◌^◌, Bool, true, false, not, Option, none, some, List, [], ◌∷◌,
  if◌then◌else◌, Bytes, All, Bool-cases, inl, inr, ◌==◌, leb, equal,
}
use zz_ftp.Text.{truncate_to}
use zz_ftp.Text.Patterns.{IsPattern}
use zz_ftp.Server.Path.{PathResult, null, path, fault}
use zz_ftp.Server.Client.{Client}
use zz_ftp.Server.System.{
  System, ThreadEnd, over, ends, refused, never, Ctl, Outcome, returned, hangs, faults, mark_dir,
  changed_up, mark, set_client, ignore_if_xfer, auth, data_mode, refuse_if, refusef_if, if_fails,
  if_null, with_path, full_path, reply_done, disconnect, disconnect_if, CmdResult, Ephemeral, bound,
  no_socket, not_bound,
}
use zz_ftp.Server.Thread.{client_close_threads, after_close, cleanup, thread_end, joined, close_if}
use zz_ftp.Server.Handlers.Session.{set_user, check_password, logged_in}
use zz_ftp.Server.Handlers.Files.{rename_from, take_rnfr}
use zz_ftp.Server.Handlers.Transfers.{
  start_port, parse_port, start_pasv, set_rest, abort_if, is_byte_list,
}

abbrev pub InRange : Client → Type 0
InRange c = (c.port < 2 ^ 16) × (All (λ b. b < 256) c.addr × (c.rest_offs < 2 ^ 64))

abbrev pub OnReturn : Outcome → Type 0
OnReturn (returned s r) = InRange s.client
OnReturn hangs = Unit
OnReturn faults = Unit

-- Where the command returns, the fields are in range.
pub record Keeps (o : Outcome) : Type 0 where
  pub kept : OnReturn o

pub Keeps-returned : (s : Ctl) (r : CmdResult) → InRange s.client → Keeps (returned s r)
Keeps-returned s r h = record { kept = h }

pub Keeps-if :
    (b : Bool) (x y : Outcome) → Keeps x → (b ≡ false → Keeps y) → Keeps (if b then x else y)
Keeps-if true x y h k = h
Keeps-if false x y h k = k refl

module _ (s : Ctl) (h : InRange s.client) where
  pub Keeps-reply_done : (code : ℕ) (msg : Bytes) → Keeps (reply_done code msg s)
  Keeps-reply_done code msg = record { kept = h }

  pub Keeps-disconnect : (msg : Bytes) → Keeps (disconnect msg s)
  unfolding disconnect
  Keeps-disconnect msg = record { kept = h }

  pub Keeps-disconnect_if :
      (test : Bool) (msg : Bytes) (rest : Outcome)
      → Keeps rest
      → Keeps (disconnect_if test msg s rest)
  unfolding disconnect_if
  Keeps-disconnect_if true msg rest k = Keeps-disconnect msg
  Keeps-disconnect_if false msg rest k = k

  pub Keeps-refuse_if :
      (test : Bool) (code : ℕ) (msg : Bytes) (rest : Outcome)
      → (test ≡ false → Keeps rest)
      → Keeps (refuse_if test code msg s rest)
  unfolding refuse_if
  Keeps-refuse_if true code msg rest k = Keeps-reply_done code msg
  Keeps-refuse_if false code msg rest k = k refl

  pub Keeps-refusef_if :
      (test : Bool) (code : ℕ) (text : Bytes) (rest : Outcome)
      → Keeps rest
      → Keeps (refusef_if test code text s rest)
  unfolding refusef_if
  Keeps-refusef_if true code text rest k = Keeps-reply_done code (truncate_to 256 text)
  Keeps-refusef_if false code text rest k = k

  pub Keeps-ignore_if_xfer : (rest : Outcome) → Keeps rest → Keeps (ignore_if_xfer s rest)
  unfolding ignore_if_xfer
  Keeps-ignore_if_xfer rest k = Keeps-refuse_if _ _ _ rest (λ _. k)

  pub Keeps-auth : (rest : Outcome) → Keeps rest → Keeps (auth s rest)
  unfolding auth
  Keeps-auth rest k = Keeps-refuse_if _ _ _ rest (λ _. k)

  pub Keeps-data_mode : (rest : Outcome) → Keeps rest → Keeps (data_mode s rest)
  unfolding data_mode
  Keeps-data_mode rest k = Keeps-refuse_if _ _ _ rest (λ _. k)

  pub Keeps-with_path :
      (r : PathResult) (rest : Bytes → Outcome)
      → ((d : Bytes) → Keeps (rest d))
      → Keeps (with_path r s rest)
  unfolding with_path
  Keeps-with_path null rest k = Keeps-reply_done 501 _
  Keeps-with_path fault rest k = record { kept = tt }
  Keeps-with_path (path d) rest k = k d

  pub Keeps-full_path :
      (arg : Bytes) (rest : Bytes → Outcome)
      → ((d : Bytes) → Keeps (rest d))
      → Keeps (full_path s arg rest)
  unfolding full_path
  Keeps-full_path arg rest k = Keeps-with_path _ rest k

  pub Keeps-changed_up : (r : PathResult) (text : Bytes) → Keeps (changed_up r text s)
  unfolding changed_up
  Keeps-changed_up null text = record { kept = tt }
  Keeps-changed_up fault text = record { kept = tt }
  Keeps-changed_up (path up) text = record { kept = h }

  pub Keeps-mark_dir : (text cmp : Bytes) (d : Bytes) → Keeps (mark_dir text cmp d s)
  unfolding mark_dir
  Keeps-mark_dir text cmp d =
      Keeps-if (equal s.client.wd cmp) _ _ (Keeps-changed_up _ text) (λ _. record { kept = h })

pub Keeps-if_fails :
    (o : Option Bytes) (failed : Bytes → Outcome) (rest : Outcome)
    → ((e : Bytes) → Keeps (failed e))
    → Keeps rest
    → Keeps (if_fails o failed rest)
unfolding if_fails
Keeps-if_fails (some e) failed rest h k = h e
Keeps-if_fails none failed rest h k = k

pub Keeps-if_null :
    (o : Option ℕ) (failed : Outcome) (rest : ℕ → Outcome)
    → Keeps failed
    → ((f : ℕ) → Keeps (rest f))
    → Keeps (if_null o failed rest)
unfolding if_null
Keeps-if_null none failed rest h k = h
Keeps-if_null (some f) failed rest h k = k f

-- The client of a connection that is still there.
abbrev OnCtl : Option Ctl → Type 0
OnCtl none = Unit
OnCtl (some s) = InRange s.client

cleanup-InRange : (st : ℕ) (s : Ctl) → InRange s.client → InRange (cleanup st s).client
unfolding cleanup
cleanup-InRange st s h = elim (Bool-cases (st == 1)) [
  | inl one ↦ rw one h
  | inr other ↦ elim (Bool-cases (st == 2)) [
    | inl two ↦ rw (other, two) h
    | inr neither ↦ rw (other, neither) h
  ]
]

thread_end-OnCtl : (e : ThreadEnd) (s : Ctl) → InRange s.client → OnCtl (thread_end e s)
unfolding thread_end
thread_end-OnCtl over s h = h
thread_end-OnCtl (ends st) s h = cleanup-InRange st s h
thread_end-OnCtl (refused msg) s h = cleanup-InRange 0 (mark 425 msg s) h
thread_end-OnCtl never s h = tt

joined-OnCtl : (o : Option Ctl) → OnCtl o → OnCtl (joined o)
unfolding joined
joined-OnCtl none h = tt
joined-OnCtl (some s) h = h

close_if-OnCtl : (b : Bool) (sys : System) (s : Ctl) → InRange s.client → OnCtl (close_if b sys s)
unfolding close_if
close_if-OnCtl true sys s h =
    joined-OnCtl _
      (thread_end-OnCtl sys.join (set_client (record s.client { thr_dat_running = false }) s) h)
close_if-OnCtl false sys s h = h

pub after_close-Keeps :
    (o : Option Ctl) (then_do : Ctl → Outcome)
    → OnCtl o
    → ((s : Ctl) → InRange s.client → Keeps (then_do s))
    → Keeps (after_close o then_do)
unfolding after_close
after_close-Keeps none then_do h k = record { kept = tt }
after_close-Keeps (some s) then_do h k = k s h

pub closes-Keeps :
    (sys : System) (s : Ctl) (then_do : Ctl → Outcome)
    → InRange s.client
    → ((s1 : Ctl) → InRange s1.client → Keeps (then_do s1))
    → Keeps (after_close (client_close_threads sys s) then_do)
unfolding client_close_threads
closes-Keeps sys s then_do h k =
    after_close-Keeps _ then_do (close_if-OnCtl s.client.thr_dat_running sys s h) k
