-- ===== src/Gui/Connect/Descriptors.antt =====
-- Which descriptors are open behind a connection of client/xfer.c, and what its callback is told.
use zz_ftp.Prelude.{
  if-holds, ℕ, zero, suc, ◌≡◌, ◌≢◌, refl, sym, ap, arith, Bool, true, false, ◌||◌, ◌&&◌,
  if◌then◌else◌, Option, none, some, List, [], ◌∷◌, ◌++◌, ◌==◌, ◌⊎◌, inl, inr, All,
}
use zz_ftp.Server.Client.{is_some}
use zz_ftp.Gui.State.{ConnCode, established, err_socket, err_thread, err_connect}
use zz_ftp.Gui.Connect.{
  Sockets, Net, without, closed, opened, sock_ephemeral, bind_socket, ConnAddr, is_accepted,
  accepted, finish, conn_thr, connect_socket, xfer_init, xfer_init_listen_2, xfer_deinit,
}

-- A descriptor that is not open.
abbrev pub IsFresh : ℕ → List ℕ → Type 0
IsFresh n fds = All (λ m. (m == n) ≡ false) fds

without-fresh : (n : ℕ) (fds : List ℕ) → IsFresh n fds → without n fds ≡ fds
unfolding without
without-fresh n [] h = refl
without-fresh n (m ∷ ms) h = rw (h.0, without-fresh n ms h.1) refl

without-opened : (n : ℕ) (fds : List ℕ) → IsFresh n fds → without n (n ∷ fds) ≡ fds
unfolding without
without-opened n fds h = ground (arith, without-fresh n fds h)

-- The callback was told of a connection, whose descriptor is open besides those of before.
pub record IsConnected (w v : Sockets) : Type 0 where
  pub descriptor : ℕ
  pub in_use : v.xfer.fd ≡ some descriptor
  pub fresh : IsFresh descriptor w.fds
  pub one_more : v.fds ≡ descriptor ∷ w.fds
  pub told_so : v.told ≡ w.told ++ established ∷ []

-- The callback was told of a failure, and the descriptors are those of before.
pub record IsRefused (w v : Sockets) : Type 0 where
  pub code : ConnCode
  pub failure : code ≢ established
  pub as_before : v.fds ≡ w.fds
  pub told_so : v.told ≡ w.told ++ code ∷ []

-- What there is to tell, by the calls in the order of the code: the socket and its port, the thread,
-- and the connection.
abbrev pub how_it_went : Net → ConnAddr → ConnCode
how_it_went net addr =
    if is_some net.socket && net.bind
    then if net.thread_starts
      then if net.connect addr.host addr.port then established else err_connect
      else err_thread
    else err_socket

abbrev started : ℕ → Sockets → Sockets
started n w = record w { xfer = record w.xfer { fd = some n }; fds = n ∷ w.fds }

finish-Connected :
    (b : Bool) (n : ℕ) (w : Sockets)
    → IsFresh n w.fds
    → IsConnected w (finish b (started n w)) ⊎ IsRefused w (finish b (started n w))
unfolding finish closed
finish-Connected true n w h =
    inl (record { descriptor = n; in_use = refl; fresh = h; one_more = refl; told_so = refl })
finish-Connected false n w h = inr (record {
  code = err_connect;
  failure = λ e. cc;
  as_before = without-opened n w.fds h;
  told_so = refl;
})

abbrev Answers : Sockets → Sockets → Type 0
Answers w v = IsConnected w v ⊎ IsRefused w v

conn_thr-Answers :
    (net : Net) (addr : ConnAddr) (n : ℕ) (w : Sockets)
    → (addr.host == 0) ≡ false
    → IsFresh n w.fds
    → Answers w (conn_thr net addr (started n w))
unfolding conn_thr
conn_thr-Answers net addr n w a h = rw a (finish-Connected (net.connect addr.host addr.port) n w h)

connect_socket-Answers :
    (net : Net) (addr : ConnAddr) (n : ℕ) (w : Sockets)
    → (addr.host == 0) ≡ false
    → IsFresh n w.fds
    → Answers w (connect_socket net addr (some n, opened n w))
unfolding closed
connect_socket-Answers net addr n w a h =
    if-holds (Answers w) net.thread_starts _ _ (conn_thr-Answers net addr n w a h) (
      inr (record {
        code = err_thread;
        failure = λ e. cc;
        as_before = without-opened n w.fds h;
        told_so = refl;
      }))

no_socket-Answers :
    (net : Net) (addr : ConnAddr) (w v : Sockets)
    → v.fds ≡ w.fds
    → v.told ≡ w.told
    → Answers w (connect_socket net addr (none, v))
no_socket-Answers net addr w v f t = inr (record {
  code = err_socket;
  failure = λ e. cc;
  as_before = f;
  told_so = ap (λ x. x ++ err_socket ∷ []) t;
})

socket-Answers :
    (net : Net) (addr : ConnAddr) (o : Option ℕ) (w : Sockets)
    → (addr.host == 0) ≡ false
    → ((n : ℕ) → o ≡ some n → IsFresh n w.fds)
    → Answers w (connect_socket net addr (bind_socket net w o))
unfolding bind_socket closed
socket-Answers net addr none w a h = no_socket-Answers net addr w w refl refl
socket-Answers net addr (some n) w a h =
    if-holds (λ x. Answers w (connect_socket net addr x)) net.bind _ _
      (connect_socket-Answers net addr n w a (h n refl))
      (no_socket-Answers net addr w (record w { fds = without n (n ∷ w.fds) })
        (without-opened n w.fds (h n refl)) refl)

socket-told :
    (net : Net) (addr : ConnAddr) (o : Option ℕ) (w : Sockets)
    → (addr.host == 0) ≡ false
    → (connect_socket net addr (bind_socket net w o)).told
      ≡ w.told ++ how_it_went (record net { socket = o }) addr ∷ []
unfolding bind_socket conn_thr finish closed
socket-told net addr none w a = refl
socket-told net addr (some n) w a = ground (arith, a)

-- xfer_init to a host whose address is not 0, where socket() gives a descriptor that is not open,
-- tells its callback once how it went: err_socket where socket() or bind() fails, else err_thread
-- where no thread starts, else err_connect or established as connect() gives it. On success the
-- connected descriptor is open besides those of before, and else those of before are open.
pub xfer_init-Answers :
    (net : Net) (addr : ConnAddr) (w : Sockets)
    → (addr.host == 0) ≡ false
    → ((n : ℕ) → net.socket ≡ some n → IsFresh n w.fds)
    → ((xfer_init net addr w).told ≡ w.told ++ how_it_went net addr ∷ [])
      × (IsConnected w (xfer_init net addr w) ⊎ IsRefused w (xfer_init net addr w))
unfolding xfer_init sock_ephemeral
xfer_init-Answers net addr w a h =
    (socket-told net addr net.socket w a, socket-Answers net addr net.socket w a h)

-- A connection that xfer_init has made and xfer_deinit ends leaves the descriptors of before.
pub xfer_deinit-IsConnected : (w v : Sockets) → IsConnected w v → (xfer_deinit v).fds ≡ w.fds
unfolding xfer_deinit closed
xfer_deinit-IsConnected w v c =
    rw (c.in_use, c.one_more) (without-opened c.descriptor w.fds c.fresh)

unfoldable pub is_open : ℕ → List ℕ → Bool
is_open n [] = false
is_open n (m ∷ ms) = m == n || is_open n ms

is_open-without :
    (p n : ℕ) (fds : List ℕ) → p ≢ n → is_open p fds ≡ true → is_open p (without n fds) ≡ true
unfolding is_open without
is_open-without p n [] d h = h
is_open-without p n (m ∷ ms) d h = ground (arith, is_open-without p n ms d)

closed-open :
    (n : ℕ) (fds : List ℕ) (p : ℕ)
    → some n ≢ some p
    → is_open p fds ≡ true
    → is_open p (without n (n ∷ fds)) ≡ true
unfolding is_open
closed-open n fds p d h = is_open-without p n (n ∷ fds) (λ e. d (ap some (sym e))) (ground arith)

finish-open :
    (o : Option ℕ) (w : Sockets) (p : ℕ)
    → o ≢ some p
    → is_open p w.fds ≡ true
    → is_open p (xfer_deinit (finish (is_accepted o) (accepted o w))).fds ≡ true
unfolding xfer_deinit finish closed is_open
finish-open none w p d h = h
finish-open (some zero) w p d h =
    is_open-without p 0 (without 0 (0 ∷ w.fds)) (λ e. d (ap some (sym e)))
      (closed-open 0 w.fds p d h)
finish-open (some (suc n)) w p d h = closed-open (suc n) w.fds p d h

-- Where xfer_init_listen_2 starts its thread and listen() succeeds, and accept() does not give the
-- number of the listening socket, that socket is still open behind xfer_deinit, whether a connection
-- was accepted or not.
pub listening_stays_open :
    (net : Net) (w : Sockets) (p : ℕ)
    → net.thread_starts ≡ true
    → net.listen ≡ true
    → w.xfer.pasv_fd ≡ some p
    → is_open p w.fds ≡ true
    → net.accept ≢ some p
    → is_open p (xfer_deinit (xfer_init_listen_2 net w)).fds ≡ true
unfolding xfer_init_listen_2 conn_thr
listening_stays_open net w p t l q o a = rw (t, l) (finish-open net.accept w p a o)
