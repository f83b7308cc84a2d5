-- ===== src/Server/Commands/Ranges/Helpers.antt =====
-- The helpers of the handlers keep the fields of the connection record in range.
use zz_ftp.Prelude.{
  ℕ, ◌≡◌, arith, ◌<◌, Bool, true, false, not, Option, none, some, List, [], ◌∷◌, Bytes, All,
  Bool-cases, inl, inr, leb,
}
use zz_ftp.Text.Patterns.{IsPattern}
use zz_ftp.Server.System.{System, Ctl, set_client, Ephemeral, bound, no_socket, not_bound}
use zz_ftp.Server.Handlers.Session.{set_user, check_password, logged_in}
use zz_ftp.Server.Handlers.Files.{rename_from, take_rnfr}
use zz_ftp.Server.Handlers.Transfers.{
  start_port, parse_port, start_pasv, set_rest, abort_if, is_byte_list,
}
use zz_ftp.Server.Commands.Ranges.{
  Keeps-reply_done, Keeps-disconnect, Keeps-disconnect_if, Keeps-refuse_if, Keeps-full_path,
  Keeps-mark_dir, Keeps-if_fails, closes-Keeps, InRange, Keeps,
}

-- The bytes of an address.
is_byte_list-All : (xs : List ℕ) → not (is_byte_list xs) ≡ false → All (λ b. b < 256) xs
unfolding is_byte_list
is_byte_list-All [] h = tt
is_byte_list-All (x ∷ xs) h = elim (Bool-cases (leb 256 x)) [
  | inl large ↦ absurd (cc)
  | inr small ↦ (ground arith, is_byte_list-All xs (rw small at h))
]

start_port-Keeps :
    (sys : System) (s : Ctl) (x : List ℕ)
    → InRange s.client
    → All (λ b. b < 256) x
    → Keeps (start_port sys s x)
unfolding start_port
start_port-Keeps sys s (a ∷ b ∷ c ∷ d ∷ hi ∷ lo ∷ []) h k =
    Keeps-disconnect_if _ h _ _ _
      (record { kept = (ground (arith, k), ((k.0, (k.1.0, (k.1.1.0, (k.1.1.1.0, tt)))), h.1.1)) })
start_port-Keeps sys s _ h k = Keeps-reply_done s h _ _

pub parse_port-Keeps :
    (sys : System) (s : Ctl) (o : Option (List ℕ)) → InRange s.client → Keeps (parse_port sys s o)
unfolding parse_port
parse_port-Keeps sys s none h = Keeps-reply_done s h _ _
parse_port-Keeps sys s (some x) h =
    Keeps-refuse_if s h _ _ _ _ (λ t. start_port-Keeps sys s x h (is_byte_list-All x t))

pub start_pasv-Keeps :
    (sys : System) (s : Ctl) (e : Ephemeral) → InRange s.client → Keeps (start_pasv sys s e)
unfolding start_pasv
start_pasv-Keeps sys s (bound fd ip hi lo) h =
    Keeps-disconnect_if s h _ _ _ (Keeps-disconnect_if _ h _ _ _ (record { kept = h }))
start_pasv-Keeps sys s no_socket h = Keeps-disconnect s h _
start_pasv-Keeps sys s not_bound h = Keeps-disconnect s h _

pub set_rest-Keeps :
    (s : Ctl) (o : Option (ℕ × Bytes)) → IsPattern o → InRange s.client → Keeps (set_rest s o)
unfolding set_rest
set_rest-Keeps s none k h = Keeps-reply_done s h _ _
set_rest-Keeps s (some (n, _)) k h = record { kept = (h.0, (h.1.0, k)) }

pub abort_if-Keeps :
    (b : Bool) (sys : System) (s : Ctl) → InRange s.client → Keeps (abort_if b sys s)
unfolding abort_if
abort_if-Keeps true sys s h = closes-Keeps sys s _ h (λ s1 h1. Keeps-reply_done s1 h1 _ _)
abort_if-Keeps false sys s h = Keeps-reply_done s h _ _

pub set_user-Keeps :
    (b : Bool) (s : Ctl) (arg : Bytes) → InRange s.client → Keeps (set_user b s arg)
unfolding set_user
set_user-Keeps true s arg h = record { kept = h }
set_user-Keeps false s arg h = record { kept = h }

pub check_password-Keeps :
    (o : Option Bytes) (s : Ctl) (arg : Bytes) → InRange s.client → Keeps (check_password o s arg)
unfolding check_password logged_in
check_password-Keeps none s arg h = Keeps-refuse_if s h _ _ _ _ (λ t. record { kept = h })
check_password-Keeps (some name) s arg h = Keeps-refuse_if s h _ _ _ _ (λ t. record { kept = h })

rename_from-Keeps :
    (sys : System) (s : Ctl) (from arg : Bytes)
    → InRange s.client
    → Keeps (rename_from sys s from arg)
unfolding rename_from
rename_from-Keeps sys s from arg h = Keeps-full_path s h arg _ (λ d.
    Keeps-refuse_if s h _ _ _ _
      (λ t. Keeps-if_fails _ _ _ (λ e. record { kept = h }) (Keeps-mark_dir _ h _ _ _)))

pub take_rnfr-Keeps :
    (sys : System) (s : Ctl) (o : Option Bytes) (arg : Bytes)
    → InRange s.client
    → Keeps (take_rnfr sys s o arg)
unfolding take_rnfr
take_rnfr-Keeps sys s none arg h = Keeps-reply_done s h _ _
take_rnfr-Keeps sys s (some from) arg h =
    rename_from-Keeps sys (set_client (record s.client { rnfr = none }) s) from arg h
