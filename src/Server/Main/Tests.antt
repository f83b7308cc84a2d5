-- ===== src/Server/Main/Tests.antt =====
-- Tests of main.
use zz_ftp.Prelude.{◌≡◌, refl, arith, true, false, none, some, List, [], ◌∷◌, codes, equal}
use zz_ftp.Server.Main.{Host, Arrival, main, accept_loop, listens, usage}
use zz_ftp.Server.Main.Options.{sets_port, sets_root, main-arguments}
use zz_ftp.Text.{show, scan_i32}

abbrev host : Host
host = record {
  chdir = λ d. true;
  socket = true;
  setsockopt = true;
  bind = λ p. true;
  listen = true;
}

abbrev arrivals : List Arrival
arrivals =
    record { conn_fd = some 4; thread_starts = true }
    ∷ record { conn_fd = some 5; thread_starts = false }
    ∷ record { conn_fd = none; thread_starts = true }
    ∷ record { conn_fd = some 6; thread_starts = true }
    ∷ []

main-arguments_example :
    main host arrivals (codes "-root" ∷ codes "-h" ∷ codes "-port" ∷ codes "2121" ∷ [])
    ≡ listens 2121 (accept_loop arrivals)
unfolding codes show
main-arguments_example =
    main-arguments host arrivals (sets_root (codes "-h") ∷ sets_port 2121 ∷ [])
      (tt, (omega arith, tt)) refl refl refl refl refl

accepts_one : accept_loop arrivals ≡ record { served = 4 ∷ []; closed = 5 ∷ []; panics = true }
unfolding accept_loop
accepts_one = refl

-- The port is cut to an int before it is tested.
wraps : main host [] (codes "-port" ∷ codes "4294967317" ∷ []) ≡ listens 21 (accept_loop [])
unfolding main accept_loop equal codes scan_i32
wraps = refl

refuses_last : main host [] (codes "-port" ∷ codes "65535" ∷ []) ≡ usage 1
unfolding main accept_loop equal codes scan_i32
refuses_last = refl

unknown_option : main host [] (codes "-x" ∷ codes "-help" ∷ []) ≡ usage 0
unfolding main accept_loop equal codes
unknown_option = refl
