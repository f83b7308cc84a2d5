-- ===== src/Server/Commands/Sound.antt =====
-- What every command keeps, and the rules for the macros and helpers of the handlers: the paths of
-- the connection are canonical, and the system is called only with paths below the root directory.
use zz_ftp.Prelude.{
  ℕ, ◌≡◌, ◌≢◌, refl, Bool, true, false, Option, none, some, [], ◌∷◌, ◌++◌, Bytes, codes, equal, All,
  All-append, Bool-cases, inl, inr, ◌==◌,
}
use zz_ftp.Server.Path.{PathResult, null, path, fault, relative, path_cat}
use zz_ftp.Server.Path.Resolve.{IsCanonical}
use zz_ftp.Server.Path.Bounds.{path_cat-ne-fault}
use zz_ftp.Server.Path.Canonical.{path_cat-IsCanonical, path_cat_up-ne-null}
use zz_ftp.Server.Client.{Client, ready, DatType}
use zz_ftp.Server.System.{
  System, ThreadEnd, over, ends, refused, never, Call, calls_lstat, calls_mkdir, calls_rmdir,
  calls_unlink, calls_rename, calls_popen, calls_fopen, calls_truncate, calls_fseek, starts_active,
  starts_passive, signals_data, Ctl, Outcome, always, checked, lookups, mark_dir, changed_up, call,
  mark, set_client,
}
use zz_ftp.Server.System.Ends.{
  Ends, IgnoresReplies, Ends-returned, Ends-if, Ends-reply_done, Ends-disconnect,
  Ends-ignore_if_xfer, Ends-auth, Ends-data_mode, Ends-full_path, Ends-refuse_if, Ends-refusef_if,
  Ends-if_fails, Ends-if_null, Ends-disconnect_if,
}
use zz_ftp.Server.Thread.{client_close_threads, after_close, cleanup, thread_end, joined, close_if}
use zz_ftp.Server.Handlers.Transfers.{signal_file}

-- A path as a system call gets it: a canonical path without its leading slash. Resolved from the
-- server's root directory it names something in or below that directory.
pub record IsConfined (p : Bytes) : Type 0 where
  pub whole : Bytes
  pub canonical : IsCanonical whole
  pub cut : p ≡ relative whole

-- The shell command of LIST is given a confined path.
pub record IsListing (cmd : Bytes) : Type 0 where
  pub listed : Bytes
  pub confined : IsConfined listed
  pub text : cmd ≡ codes "ls -lH " ++ listed

abbrev pub IsConfinedCall : Call → Type 0
IsConfinedCall (calls_lstat p) = IsConfined p
IsConfinedCall (calls_mkdir p) = IsConfined p
IsConfinedCall (calls_rmdir p) = IsConfined p
IsConfinedCall (calls_unlink p) = IsConfined p
IsConfinedCall (calls_rename p q) = IsConfined p × IsConfined q
IsConfinedCall (calls_popen cmd) = IsListing cmd
IsConfinedCall (calls_fopen p m) = IsConfined p
IsConfinedCall (calls_truncate p n) = IsConfined p
IsConfinedCall (calls_fseek n) = Unit
IsConfinedCall starts_active = Unit
IsConfinedCall starts_passive = Unit
IsConfinedCall signals_data = Unit

abbrev pub OnSome : (Bytes → Type 0) → Option Bytes → Type 0
OnSome P none = Unit
OnSome P (some p) = P p

pub record IsSound (s : Ctl) : Type 0 where
  pub wd : IsCanonical s.client.wd
  pub rnfr : OnSome IsCanonical s.client.rnfr
  pub calls : All IsConfinedCall s.calls

pub IsSound-mark : {s : Ctl} (code : ℕ) (msg : Bytes) → IsSound s → IsSound (mark code msg s)
IsSound-mark code msg h = record { wd = h.wd; rnfr = h.rnfr; calls = h.calls }

pub IsSound-call : {s : Ctl} (k : Call) → IsConfinedCall k → IsSound s → IsSound (call k s)
IsSound-call {s} k c h = record {
  wd = h.wd;
  rnfr = h.rnfr;
  calls = All-append IsConfinedCall s.calls (k ∷ []) h.calls (c, tt);
}

pub relative-IsConfined : {d : Bytes} → IsCanonical d → IsConfined (relative d)
relative-IsConfined {d} c = record { whole = d; canonical = c; cut = refl }

pub IsSound-ignores : IgnoresReplies IsSound
IsSound-ignores code msg s h = IsSound-mark code msg h

pub lookups-IsConfinedCall : (p : Bytes) → IsConfined p → All IsConfinedCall (lookups p)
unfolding lookups
lookups-IsConfinedCall [] c = tt
lookups-IsConfinedCall (b ∷ p) c = (c, tt)

pub checked-IsSound : {s : Ctl} {d : Bytes} → IsCanonical d → IsSound s → IsSound (checked d s)
unfolding checked
checked-IsSound {s} {d} c h = record {
  wd = h.wd;
  rnfr = h.rnfr;
  calls =
      All-append IsConfinedCall s.calls (lookups (relative d)) h.calls
        (lookups-IsConfinedCall (relative d) (relative-IsConfined c));
}

pub set_wd-IsSound :
    {s : Ctl} {d : Bytes}
    → IsCanonical d
    → IsSound s
    → IsSound (set_client (record s.client { wd = d }) s)
set_wd-IsSound c h = record { wd = c; rnfr = h.rnfr; calls = h.calls }

pub changed_up-IsSound :
    (r : PathResult) (text : Bytes) {s : Ctl}
    → ((up : Bytes) → r ≡ path up → IsCanonical up)
    → r ≢ null
    → r ≢ fault
    → IsSound s
    → Ends IsSound (changed_up r text s)
unfolding changed_up
changed_up-IsSound null text c n f h = absurd (n refl)
changed_up-IsSound fault text c n f h = absurd (f refl)
changed_up-IsSound (path up) text c n f h =
    Ends-reply_done IsSound-ignores (set_wd-IsSound (c up refl) h) 250 _

pub mark_dir-IsSound :
    (text cmp : Bytes) {d : Bytes} {s : Ctl}
    → IsCanonical d
    → IsSound s
    → Ends IsSound (mark_dir text cmp d s)
unfolding mark_dir
mark_dir-IsSound text cmp {d} {s} c h =
    Ends-if (equal s.client.wd cmp) _ _
      (λ _.
        changed_up-IsSound (path_cat always d (b'.' ∷ b'.' ∷ [])) text
          (λ up e. path_cat-IsCanonical always d (b'.' ∷ b'.' ∷ []) up c e)
          (path_cat_up-ne-null d c) (path_cat-ne-fault always d (b'.' ∷ b'.' ∷ [])) h)
      (λ _. Ends-reply_done IsSound-ignores h 250 _)

-- The fields that hold no path are free to change.
pub same_paths-IsSound :
    (c : Client) {s : Ctl}
    → c.wd ≡ s.client.wd
    → c.rnfr ≡ s.client.rnfr
    → IsSound s
    → IsSound (set_client c s)
same_paths-IsSound c e f h = record { wd = rw e h.wd; rnfr = rw f h.rnfr; calls = h.calls }

pub set_rnfr-IsSound :
    {s : Ctl} (o : Option Bytes)
    → OnSome IsCanonical o
    → IsSound s
    → IsSound (set_client (record s.client { rnfr = o }) s)
set_rnfr-IsSound o c h = record { wd = h.wd; rnfr = c; calls = h.calls }

pub signal_file-IsSound :
    {s : Ctl} (ty : DatType) (f : ℕ) → IsSound s → IsSound (signal_file ty f s)
unfolding signal_file
signal_file-IsSound ty f h =
    IsSound-call signals_data tt (record { wd = h.wd; rnfr = h.rnfr; calls = h.calls })

pub listing : {s : Ctl} → IsSound s → IsListing (codes "ls -lH " ++ relative s.client.wd)
listing {s} h = record {
  listed = relative s.client.wd;
  confined = relative-IsConfined h.wd;
  text = refl;
}

abbrev pub OnCtl : (Ctl → Type 0) → Option Ctl → Type 0
OnCtl P none = Unit
OnCtl P (some s) = P s

pub cleanup-IsSound : {s : Ctl} (st : ℕ) → IsSound s → IsSound (cleanup st s)
unfolding cleanup
cleanup-IsSound {s} st h =
    let k : IsSound (set_client (record s.client { dat_fp = none; state = ready }) s) =
      same_paths-IsSound (record s.client { dat_fp = none; state = ready }) refl refl h in
    elim (Bool-cases (st == 1)) [
      | inl one ↦ rw one (IsSound-mark _ _ k)
      | inr other ↦ elim (Bool-cases (st == 2)) [
        | inl two ↦ rw (other, two) (IsSound-mark _ _ k)
        | inr neither ↦ rw (other, neither) k
      ]
    ]

pub thread_end-IsSound : {s : Ctl} (e : ThreadEnd) → IsSound s → OnCtl IsSound (thread_end e s)
unfolding thread_end
thread_end-IsSound over h = h
thread_end-IsSound (ends st) h = cleanup-IsSound st h
thread_end-IsSound (refused msg) h = cleanup-IsSound 0 (IsSound-mark 425 msg h)
thread_end-IsSound never h = tt

pub joined-IsSound : (o : Option Ctl) → OnCtl IsSound o → OnCtl IsSound (joined o)
unfolding joined
joined-IsSound none h = tt
joined-IsSound (some s) h = record { wd = h.wd; rnfr = h.rnfr; calls = h.calls }

pub close_if-IsSound :
    (b : Bool) (sys : System) {s : Ctl} → IsSound s → OnCtl IsSound (close_if b sys s)
unfolding close_if
close_if-IsSound true sys {s} h = joined-IsSound _ (
    thread_end-IsSound sys.join
      (same_paths-IsSound (record s.client { thr_dat_running = false }) refl refl h))
close_if-IsSound false sys h = h

pub close_threads-IsSound :
    (sys : System) (s : Ctl) → IsSound s → OnCtl IsSound (client_close_threads sys s)
unfolding client_close_threads
close_threads-IsSound sys s h = close_if-IsSound s.client.thr_dat_running sys h

pub after_close-Ends :
    (o : Option Ctl) (then_do : Ctl → Outcome)
    → OnCtl IsSound o
    → ((s1 : Ctl) → IsSound s1 → Ends IsSound (then_do s1))
    → Ends IsSound (after_close o then_do)
unfolding after_close
after_close-Ends none then_do h k = record { holds = tt }
after_close-Ends (some s) then_do h k = k s h

pub ruleset sound_rules = (
  Ends-ignore_if_xfer, Ends-auth, Ends-data_mode, Ends-full_path, Ends-refuse_if, Ends-refusef_if,
  Ends-if_fails, Ends-if_null, Ends-returned, Ends-reply_done, IsSound-ignores, IsSound-call,
  relative-IsConfined, checked-IsSound, after_close-Ends, close_threads-IsSound, same_paths-IsSound,
  set_rnfr-IsSound, signal_file-IsSound, listing, Ends-disconnect, Ends-disconnect_if,
  set_wd-IsSound, mark_dir-IsSound,
)
