-- ===== src/Server/System/Ends.antt =====
-- Postconditions of commands, one rule for each macro of the handlers.
use zz_ftp.Prelude.{
  ℕ, ◌≡◌, ◌≢◌, refl, Bool, true, false, Option, none, some, if◌then◌else◌, Bytes, codes, ◌++◌,
}
use zz_ftp.Text.{truncate_to}
use zz_ftp.Server.Path.{PathResult, null, path, fault, path_cat}
use zz_ftp.Server.Path.Resolve.{IsCanonical}
use zz_ftp.Server.Path.Bounds.{path_cat-ne-fault}
use zz_ftp.Server.Path.Canonical.{path_cat-IsCanonical}
use zz_ftp.Server.System.{
  Ctl, Outcome, returned, hangs, faults, always, ignore_if_xfer, auth, data_mode, refuse_if,
  refusef_if, if_fails, if_null, with_path, full_path, mark, reply_done, disconnect, disconnect_if,
  CmdResult,
}

abbrev pub Holds : (Ctl → Type 0) → Outcome → Type 0
Holds P (returned s r) = P s
Holds P hangs = Unit
Holds P faults = ⊥

-- A command that returns has the property, and none faults.
pub record Ends (P : Ctl → Type 0) (o : Outcome) : Type 0 where
  pub holds : Holds P o

-- A property that no reply changes.
abbrev pub IgnoresReplies : (Ctl → Type 0) → Type 0
IgnoresReplies P = (code : ℕ) (msg : Bytes) (s : Ctl) → P s → P (mark code msg s)

module _ {P : Ctl → Type 0} where
  pub Ends-returned : (s : Ctl) (r : CmdResult) → P s → Ends P (returned s r)
  Ends-returned s r h = record { holds = h }

  pub Ends-if :
      (b : Bool) (x y : Outcome)
      → (b ≡ true → Ends P x)
      → (b ≡ false → Ends P y)
      → Ends P (if b then x else y)
  Ends-if true x y h k = h refl
  Ends-if false x y h k = k refl

  pub Ends-if_fails :
      (o : Option Bytes) (failed : Bytes → Outcome) (rest : Outcome)
      → ((e : Bytes) → Ends P (failed e))
      → Ends P rest
      → Ends P (if_fails o failed rest)
  unfolding if_fails
  Ends-if_fails (some e) failed rest h k = h e
  Ends-if_fails none failed rest h k = k

  pub Ends-if_null :
      (o : Option ℕ) (failed : Outcome) (rest : ℕ → Outcome)
      → Ends P failed
      → ((f : ℕ) → Ends P (rest f))
      → Ends P (if_null o failed rest)
  unfolding if_null
  Ends-if_null none failed rest h k = h
  Ends-if_null (some f) failed rest h k = k f

module _ {P : Ctl → Type 0} (stable : IgnoresReplies P) {s : Ctl} (h : P s) where
  pub Ends-reply_done : (code : ℕ) (msg : Bytes) → Ends P (reply_done code msg s)
  Ends-reply_done code msg = record { holds = stable code msg s h }

  pub Ends-disconnect : (msg : Bytes) → Ends P (disconnect msg s)
  unfolding disconnect
  Ends-disconnect msg = record {
    holds = stable 421 (msg ++ codes " Shutting down connection.") s h;
  }

  pub Ends-disconnect_if :
      (test : Bool) (msg : Bytes) (rest : Outcome)
      → Ends P rest
      → Ends P (disconnect_if test msg s rest)
  unfolding disconnect_if
  Ends-disconnect_if true msg rest k = Ends-disconnect msg
  Ends-disconnect_if false msg rest k = k

  pub Ends-refuse_if :
      (test : Bool) (code : ℕ) (msg : Bytes) (rest : Outcome)
      → (test ≡ false → Ends P rest)
      → Ends P (refuse_if test code msg s rest)
  unfolding refuse_if
  Ends-refuse_if true code msg rest k = Ends-reply_done code msg
  Ends-refuse_if false code msg rest k = k refl

  pub Ends-refusef_if :
      (test : Bool) (code : ℕ) (text : Bytes) (rest : Outcome)
      → (test ≡ false → Ends P rest)
      → Ends P (refusef_if test code text s rest)
  unfolding refusef_if
  Ends-refusef_if true code text rest k = Ends-reply_done code (truncate_to 256 text)
  Ends-refusef_if false code text rest k = k refl

  pub Ends-ignore_if_xfer : (rest : Outcome) → Ends P rest → Ends P (ignore_if_xfer s rest)
  unfolding ignore_if_xfer
  Ends-ignore_if_xfer rest k = Ends-refuse_if _ _ _ rest (λ _. k)

  pub Ends-auth : (rest : Outcome) → Ends P rest → Ends P (auth s rest)
  unfolding auth
  Ends-auth rest k = Ends-refuse_if _ _ _ rest (λ _. k)

  pub Ends-data_mode : (rest : Outcome) → Ends P rest → Ends P (data_mode s rest)
  unfolding data_mode
  Ends-data_mode rest k = Ends-refuse_if _ _ _ rest (λ _. k)

  Ends-with_path :
      (r : PathResult) (rest : Bytes → Outcome)
      → r ≢ fault
      → ((d : Bytes) → r ≡ path d → Ends P (rest d))
      → Ends P (with_path r s rest)
  unfolding with_path
  Ends-with_path null rest ok k = Ends-reply_done 501 _
  Ends-with_path fault rest ok k = absurd (ok refl)
  Ends-with_path (path d) rest ok k = k d refl

  pub Ends-full_path :
      (arg : Bytes) (rest : Bytes → Outcome)
      → IsCanonical s.client.wd
      → ((d : Bytes) → IsCanonical d → Ends P (rest d))
      → Ends P (full_path s arg rest)
  unfolding full_path
  Ends-full_path arg rest c k =
      Ends-with_path (path_cat always s.client.wd arg) rest
        (path_cat-ne-fault always s.client.wd arg)
        (λ d e. k d (path_cat-IsCanonical always s.client.wd arg d c e))
