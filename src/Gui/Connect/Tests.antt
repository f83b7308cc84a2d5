-- ===== src/Gui/Connect/Tests.antt =====
-- Connections of client/xfer.c with given answers of the system.
use zz_ftp.Prelude.{◌≡◌, ◌⊎◌, refl, arith, true, false, some, [], ◌∷◌}
use zz_ftp.Gui.State.{established, err_connect}
use zz_ftp.Gui.Connect.{
  Net, Sockets, ConnAddr, xfer_init, xfer_init_listen_1, xfer_init_listen_2, xfer_deinit,
}
use zz_ftp.Gui.Connect.Descriptors.{
  IsConnected, IsRefused, xfer_init-Answers, is_open, listening_stays_open,
}

abbrev net : Net
net = record {
  socket = some 5;
  bind = true;
  thread_starts = true;
  listen = true;
  accept = some 6;
  connect = λ host port. true;
}

-- Standard input and output, and the control connection; the static record is all zeros.
abbrev sockets : Sockets
sockets = record {
  xfer = record { fd = some 0; pasv_fd = some 0 };
  fds = 0 ∷ 1 ∷ 2 ∷ 3 ∷ [];
  told = [];
}

abbrev peer : ConnAddr
peer = record { host = 7; port = 21 }

xfer_init-Answers_example :
    ((xfer_init net peer sockets).told ≡ established ∷ [])
    × (IsConnected sockets (xfer_init net peer sockets)
        ⊎ IsRefused sockets (xfer_init net peer sockets))
xfer_init-Answers_example = xfer_init-Answers net peer sockets refl (λ n e. ground arith)

abbrev listening : Sockets
listening = record {
  xfer = record { fd = some 0; pasv_fd = some 5 };
  fds = 5 ∷ 0 ∷ 1 ∷ 2 ∷ 3 ∷ [];
  told = [];
}

listens : xfer_init_listen_1 net sockets ≡ (established, listening)
unfolding xfer_init_listen_1
listens = refl

accepts : xfer_deinit (xfer_init_listen_2 net listening) ≡ record {
  xfer = record { fd = some 6; pasv_fd = some 5 };
  fds = 5 ∷ 0 ∷ 1 ∷ 2 ∷ 3 ∷ [];
  told = established ∷ [];
}
unfolding xfer_init_listen_2 xfer_deinit
accepts = refl

listening_stays_open_example : is_open 5 (xfer_deinit (xfer_init_listen_2 net listening)).fds ≡ true
unfolding is_open
listening_stays_open_example = listening_stays_open net listening 5 refl refl refl refl (λ e. cc)

-- Where listen() fails, a descriptor of before is closed: here standard input.
closes_stale : xfer_init_listen_2 (record net { listen = false }) listening ≡ record {
  xfer = record { fd = some 0; pasv_fd = some 5 };
  fds = 5 ∷ 1 ∷ 2 ∷ 3 ∷ [];
  told = err_connect ∷ [];
}
unfolding xfer_init_listen_2
closes_stale = refl

-- The address 0.0.0.0 means to listen, on whatever descriptor stands in pasv_fd.
listens_instead : xfer_init net (record { host = 0; port = 21 }) sockets ≡ record {
  xfer = record { fd = some 6; pasv_fd = some 0 };
  fds = 6 ∷ 5 ∷ 0 ∷ 1 ∷ 2 ∷ 3 ∷ [];
  told = established ∷ [];
}
unfolding xfer_init
listens_instead = refl
