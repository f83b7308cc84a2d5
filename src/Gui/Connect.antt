-- ===== src/Gui/Connect.antt =====
-- How client/xfer.c makes and ends connections: xfer_init, xfer_init_listen_1 and _2, conn_thr and
-- xfer_deinit, with the sockets that are open. What the calls give is a parameter.
pub mod Descriptors
mod Tests
use zz_ftp.Prelude.{
  ℕ, zero, suc, Bool, true, false, Option, none, some, List, [], ◌∷◌, ◌++◌, ◌==◌, if◌then◌else◌,
}
use zz_ftp.Gui.State.{ConnCode, established, err_socket, err_thread, err_connect}

-- `none` is the descriptor -1.
pub record Xfer : Type 0 where
  pub fd : Option ℕ
  pub pasv_fd : Option ℕ

-- The connection, the descriptors that are open, and the codes that its callbacks were given, by a
-- direct call or through queue().
pub record Sockets : Type 0 where
  pub xfer : Xfer
  pub fds : List ℕ
  pub told : List ConnCode

-- What the calls give: socket(), bind(), pthread_create(), listen(), accept() and connect().
pub record Net : Type 0 where
  pub socket : Option ℕ
  pub bind : Bool
  pub thread_starts : Bool
  pub listen : Bool
  pub accept : Option ℕ
  pub connect : ℕ → ℕ → Bool

unfoldable pub without : ℕ → List ℕ → List ℕ
without n [] = []
without n (m ∷ ms) = if m == n then without n ms else m ∷ without n ms

-- close()
unfoldable pub closed : Option ℕ → Sockets → Sockets
unfolding without
closed none w = w
closed (some n) w = record w { fds = without n w.fds }

abbrev pub opened : ℕ → Sockets → Sockets
opened n w = record w { fds = n ∷ w.fds }

abbrev pub tell : ConnCode → Sockets → Sockets
tell code w = record w { told = w.told ++ code ∷ [] }

-- sock_ephemeral() of server/io_utils.c: the socket, where there is one.
unfoldable pub bind_socket : Net → Sockets → Option ℕ → Option ℕ × Sockets
unfolding closed
bind_socket net w none = (none, w)
bind_socket net w (some n) =
    if net.bind then (some n, opened n w) else (none, closed (some n) (opened n w))

unfoldable pub sock_ephemeral : Net → Sockets → Option ℕ × Sockets
unfolding bind_socket
sock_ephemeral net w = bind_socket net w net.socket

-- The address that conn_thr is given; the host is what inet_addr() makes of it.
pub record ConnAddr : Type 0 where
  pub host : ℕ
  pub port : ℕ

-- args.x->fd = accept(...), which succeeds with a descriptor above 0.
abbrev pub is_accepted : Option ℕ → Bool
is_accepted none = false
is_accepted (some zero) = false
is_accepted (some (suc n)) = true

abbrev pub opened_if : Option ℕ → Sockets → Sockets
opened_if none w = w
opened_if (some n) w = opened n w

abbrev pub accepted : Option ℕ → Sockets → Sockets
accepted o w = opened_if o (record w { xfer = record w.xfer { fd = o } })

unfoldable pub finish : Bool → Sockets → Sockets
unfolding closed
finish true w = tell established w
finish false w = tell err_connect (closed w.xfer.fd w)

unfoldable pub conn_thr : Net → ConnAddr → Sockets → Sockets
unfolding finish
conn_thr net addr w =
    if addr.host == 0
    then if net.listen
      then finish (is_accepted net.accept) (accepted net.accept w)
      else finish false w
    else finish (net.connect addr.host addr.port) w

-- What spawn_thread() is called for: the thread, run to its end, or what follows a failure.
abbrev pub spawned : Net → Sockets → Sockets → Sockets
spawned net thread failed = if net.thread_starts then thread else failed

abbrev pub connect_socket : Net → ConnAddr → Option ℕ × Sockets → Sockets
connect_socket net addr (none, w) = tell err_socket w
connect_socket net addr (some n, w) =
    let started = record w { xfer = record w.xfer { fd = some n } } in
    spawned net (conn_thr net addr started) (tell err_thread (closed (some n) started))

unfoldable pub xfer_init : Net → ConnAddr → Sockets → Sockets
unfolding sock_ephemeral conn_thr closed
xfer_init net addr w = connect_socket net addr (sock_ephemeral net w)

-- The code that is returned, and the socket that waits.
abbrev pub listen_on : Option ℕ × Sockets → ConnCode × Sockets
listen_on (none, w) = (err_socket, w)
listen_on (some n, w) = (established, record w { xfer = record w.xfer { pasv_fd = some n } })

unfoldable pub xfer_init_listen_1 : Net → Sockets → ConnCode × Sockets
unfolding sock_ephemeral
xfer_init_listen_1 net w = listen_on (sock_ephemeral net w)

unfoldable pub xfer_init_listen_2 : Net → Sockets → Sockets
unfolding conn_thr closed
xfer_init_listen_2 net w =
    spawned net (conn_thr net (record { host = 0; port = 0 }) w)
      (tell err_thread (closed w.xfer.pasv_fd w))

unfoldable pub xfer_deinit : Sockets → Sockets
unfolding closed
xfer_deinit w = closed w.xfer.fd w
