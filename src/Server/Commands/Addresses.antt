-- ===== src/Server/Commands/Addresses.antt =====
-- Addresses of data connections as the two programs exchange them: PORT and the reply to PASV.
use zz_ftp.Prelude.{
  ℕ, ◌+◌, ◌*◌, ◌/◌, ◌%◌, ◌≤◌, ◌<◌, ◌≡◌, ◌∙◌, refl, arith, ap, true, false, Option, some, [], ◌∷◌,
  ◌++◌, append_assoc, Bytes, codes, length, length-append, append-nil, take-le, leb,
}
use zz_ftp.Text.{show, is_digit, scan_fields, show_fields}
use zz_ftp.Text.RoundTrip.{scan_fields-show_fields, Stops, length-show_byte, show-cons}
use zz_ftp.Server.Client.{port_mode, pasv_mode}
use zz_ftp.Server.System.{
  System, Ctl, Ip, Outcome, returned, done, call, starts_active, starts_passive, mark, markf,
  set_client, refuse_if, disconnect_if, bound, ephemeral,
}
use zz_ftp.Server.Thread.{client_close_threads, after_close}
use zz_ftp.Server.Handlers.Transfers.{
  handler_port, handler_pasv, is_byte_list, start_port, parse_port, start_pasv,
}
use zz_ftp.Server.Commands.Renaming.{IsFree, guards_pass}
use zz_ftp.Gui.Address.{
  pasv_address, skip_to_digit, scan_reply, checked_address, all_bytes, host_and_port,
}

-- The fields of an address are bytes.
pub record AreBytes (ip : Ip) (hi lo : ℕ) : Type 0 where
  pub a_lt : ip.a < 256
  pub b_lt : ip.b < 256
  pub c_lt : ip.c < 256
  pub d_lt : ip.d < 256
  pub hi_lt : hi < 256
  pub lo_lt : lo < 256

-- The fields printed with commas.
abbrev pub fields : Ip → ℕ → ℕ → Bytes
fields ip hi lo = show_fields ip.a (ip.b ∷ ip.c ∷ ip.d ∷ hi ∷ lo ∷ [])

scan_fields_lem :
    (ip : Ip) (hi lo : ℕ) (rest : Bytes)
    → AreBytes ip hi lo
    → Stops rest
    → scan_fields 5 (fields ip hi lo ++ rest) ≡ some (ip.a ∷ ip.b ∷ ip.c ∷ ip.d ∷ hi ∷ lo ∷ [])
scan_fields_lem ip hi lo rest b stop =
    scan_fields-show_fields ip.a (ip.b ∷ ip.c ∷ ip.d ∷ hi ∷ lo ∷ []) rest (omega arith)
      (omega arith) stop

after_close-some :
    (o : Option Ctl) (s1 : Ctl) (r : Ctl → Outcome) → o ≡ some s1 → after_close o r ≡ r s1
unfolding after_close
after_close-some o s1 r e = rw e

-- PORT with the six bytes of an address printed with commas, behind guards that let it pass and a
-- wait for an earlier data thread that ends, records exactly this address, starts the data thread
-- and enters port mode.
pub handler_port-fields :
    (sys : System) (s s1 : Ctl) (ip : Ip) (hi lo : ℕ)
    → IsFree s.client
    → AreBytes ip hi lo
    → client_close_threads sys s ≡ some s1
    → sys.thread_starts ≡ true
    → (msg : Bytes) × (handler_port sys s (fields ip hi lo)
        ≡ returned
            (markf 200 msg (
              call starts_active (
                set_client
                  (record s1.client {
                    state = port_mode;
                    addr = ip.a ∷ ip.b ∷ ip.c ∷ ip.d ∷ [];
                    port = hi * 256 + lo;
                    thr_dat_running = true;
                  })
                  s1)))
            done)
unfolding handler_port parse_port start_port refuse_if disconnect_if is_byte_list
handler_port-fields sys s s1 ip hi lo free b closed starts = (
  codes "Will connect to "
      ++ show ip.a
      ++ codes "."
      ++ show ip.b
      ++ codes "."
      ++ show ip.c
      ++ codes "."
      ++ show ip.d
      ++ codes ":"
      ++ show (hi * 256 + lo)
      ++ codes "\n",
  guards_pass s _ free
      ∙ after_close-some (client_close_threads sys s) s1 _ closed
      ∙ ground (
        arith,
        starts,
        append-nil (fields ip hi lo),
        scan_fields_lem ip hi lo [] b tt,
        b.a_lt,
        b.b_lt,
        b.c_lt,
        b.d_lt,
        b.hi_lt,
        b.lo_lt,
      ),
)

lt→leb : (m n : ℕ) → n < m → leb m n ≡ false
lt→leb m n h = ground arith

length-fields : (ip : Ip) (hi lo : ℕ) → AreBytes ip hi lo → length (fields ip hi lo) ≤ 23
unfolding show_fields
length-fields ip hi lo b = omega (
  arith,
  length-show_byte ip.a b.a_lt,
  length-show_byte ip.b b.b_lt,
  length-show_byte ip.c b.c_lt,
  length-show_byte ip.d b.d_lt,
  length-show_byte hi b.hi_lt,
  length-show_byte lo b.lo_lt,
  length-append {0} {A = ℕ},
)

-- The text of the reply to PASV.
abbrev pub passive_text : Ip → ℕ → ℕ → Bytes
passive_text ip hi lo = codes "Entering Passive Mode (" ++ (fields ip hi lo ++ codes ")")

skip_to_fields :
    (ip : Ip) (hi lo : ℕ) (rest : Bytes)
    → skip_to_digit (codes "Entering Passive Mode (" ++ (fields ip hi lo ++ rest))
      ≡ fields ip hi lo ++ rest
unfolding skip_to_digit codes show_fields
skip_to_fields ip hi lo rest = let (d, ds, e, k) = show-cons ip.a in ground (arith, e, k)

-- The dotted text of an address.
abbrev pub dotted : Ip → Bytes
dotted ip =
    show ip.a
    ++ (codes "." ++ (show ip.b ++ (codes "." ++ (show ip.c ++ (codes "." ++ show ip.d)))))

length-dotted : (ip : Ip) (hi lo : ℕ) → AreBytes ip hi lo → length (dotted ip) ≤ 15
unfolding codes
length-dotted ip hi lo b = omega (
  arith,
  length-show_byte ip.a b.a_lt,
  length-show_byte ip.b b.b_lt,
  length-show_byte ip.c b.c_lt,
  length-show_byte ip.d b.d_lt,
  length-append {0} {A = ℕ},
)

scan_reply-cons :
    (text : Bytes) (d : ℕ) (ds : Bytes)
    → text ≡ d ∷ ds
    → scan_reply text ≡ checked_address (scan_fields 5 text)
unfolding scan_reply
scan_reply-cons text d ds e = rw e

checked_address-fields :
    (ip : Ip) (hi lo : ℕ)
    → AreBytes ip hi lo
    → checked_address (some (ip.a ∷ ip.b ∷ ip.c ∷ ip.d ∷ hi ∷ lo ∷ []))
      ≡ some (dotted ip, hi * 256 + lo)
unfolding checked_address all_bytes host_and_port
checked_address-fields ip hi lo b = rw (
  lt→leb 256 ip.a b.a_lt,
  lt→leb 256 ip.b b.b_lt,
  lt→leb 256 ip.c b.c_lt,
  lt→leb 256 ip.d b.d_lt,
  lt→leb 256 hi b.hi_lt,
  lt→leb 256 lo b.lo_lt,
  take-le 15 (dotted ip) (length-dotted ip hi lo b),
)

scan_reply-fields :
    (ip : Ip) (hi lo : ℕ) (rest : Bytes)
    → AreBytes ip hi lo
    → Stops rest
    → scan_reply (fields ip hi lo ++ rest) ≡ some (dotted ip, hi * 256 + lo)
unfolding show_fields
scan_reply-fields ip hi lo rest b stop =
    let (d, ds, e, k) = show-cons ip.a in
    scan_reply-cons (fields ip hi lo ++ rest) d
      ((ds ++ b',' ∷ show_fields ip.b (ip.c ∷ ip.d ∷ hi ∷ lo ∷ [])) ++ rest) (rw e)
    ∙ ap checked_address (scan_fields_lem ip hi lo rest b stop)
    ∙ checked_address-fields ip hi lo b

-- pasv_address reads the reply back.
pasv_address-passive_text :
    (ip : Ip) (hi lo : ℕ)
    → AreBytes ip hi lo
    → pasv_address 227 (passive_text ip hi lo ++ codes "\n") ≡ some (dotted ip, hi * 256 + lo)
unfolding pasv_address
pasv_address-passive_text ip hi lo b = rw regroup (
    ap scan_reply (skip_to_fields ip hi lo (codes ")" ++ codes "\n"))
    ∙ scan_reply-fields ip hi lo (codes ")" ++ codes "\n") b stop)
  where
    regroup :
        passive_text ip hi lo ++ codes "\n"
        ≡ codes "Entering Passive Mode (" ++ (fields ip hi lo ++ (codes ")" ++ codes "\n"))
    regroup = simp append_assoc

    stop : Stops (codes ")" ++ codes "\n")
    stop = unfold codes is_digit in refl

length-passive_text :
    (ip : Ip) (hi lo : ℕ) → AreBytes ip hi lo → length (passive_text ip hi lo) ≤ 48
unfolding codes
length-passive_text ip hi lo b =
    omega (arith, length-fields ip hi lo b, length-append (fields ip hi lo) (codes ")"))

start_pasv-mark :
    (sys : System) (s : Ctl) (fd : ℕ) (ip : Ip) (hi lo : ℕ)
    → AreBytes ip hi lo
    → sys.set_nonblock ≡ true
    → sys.listen ≡ true
    → sys.thread_starts ≡ true
    → start_pasv sys s (bound fd ip hi lo)
      ≡ returned
          (mark 227 (passive_text ip hi lo) (
            call starts_passive
              (set_client (record s.client { state = pasv_mode; thr_dat_running = true }) s)))
          done
unfolding start_pasv disconnect_if
start_pasv-mark sys s fd ip hi lo b nonblock listens starts = ground (
  arith,
  nonblock,
  listens,
  starts,
  take-le 255 (passive_text ip hi lo) (omega (arith, length-passive_text ip hi lo b)),
)

-- The bytes of an address that the system gives.
pub record IsIp (ip : Ip) : Type 0 where
  pub a_lt : ip.a < 256
  pub b_lt : ip.b < 256
  pub c_lt : ip.c < 256
  pub d_lt : ip.d < 256

port_bytes : (ip : Ip) (port : ℕ) → IsIp ip → AreBytes ip (port / 256 % 256) (port % 256)
port_bytes ip port h = omega arith

ephemeral-bound :
    (sys : System) (fd : ℕ)
    → sys.socket ≡ some fd
    → sys.bind ≡ true
    → ephemeral sys ≡ bound fd sys.local_addr (sys.local_port / 256 % 256) (sys.local_port % 256)
unfolding ephemeral
ephemeral-bound sys fd sock binds = ground arith

-- PASV, behind guards that let it pass and a wait for an earlier data thread that ends, and with
-- the socket calls successful, starts the data thread, enters passive mode and sends one reply,
-- in which the client finds exactly the address and the port that the server listens at.
pub pasv_exchange :
    (sys : System) (s s1 : Ctl) (arg : Bytes) (fd : ℕ)
    → IsFree s.client
    → client_close_threads sys s ≡ some s1
    → sys.socket ≡ some fd
    → sys.bind ≡ true
    → sys.set_nonblock ≡ true
    → sys.listen ≡ true
    → sys.thread_starts ≡ true
    → IsIp sys.local_addr
    → sys.local_port < 65536
    → (msg : Bytes) × (handler_pasv sys s arg
        ≡ returned
            (mark 227 msg (
              call starts_passive
                (set_client (record s1.client { state = pasv_mode; thr_dat_running = true }) s1)))
            done)
      × (pasv_address 227 (msg ++ codes "\n") ≡ some (dotted sys.local_addr, sys.local_port))
unfolding handler_pasv
pasv_exchange sys s s1 arg fd free closed sock binds nonblock listens starts is_ip port_lt =
    let hi = sys.local_port / 256 % 256 in
    let lo = sys.local_port % 256 in
    let b = port_bytes sys.local_addr sys.local_port is_ip in
    (
      passive_text sys.local_addr hi lo,
      guards_pass s _ free
          ∙ after_close-some (client_close_threads sys s) s1 _ closed
          ∙ ap (start_pasv sys s1) (ephemeral-bound sys fd sock binds)
          ∙ (start_pasv-mark sys s1 fd sys.local_addr hi lo b nonblock listens starts),
      pasv_address-passive_text sys.local_addr hi lo b
          ∙ ap (λ p. some (dotted sys.local_addr, p)) (omega arith),
    )
