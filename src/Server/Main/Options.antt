-- ===== src/Server/Main/Options.antt =====
-- The options of main are read back, and the port is in range whatever they are.
use zz_ftp.Prelude.{
  if-holds, ℕ, ◌≡◌, ◌<◌, ◌%◌, ◌^◌, refl, ap, ◌∙◌, arith, Bool, true, false, not, ◌||◌, Option, none,
  some, List, [], ◌∷◌, leb, Bytes, codes, equal, Bool-cases, inl, inr, All,
}
use zz_ftp.Text.{show, scan_i32}
use zz_ftp.Text.RoundTrip.{scan_i32-show}
use zz_ftp.Server.Main.{
  Settings, Choice, chosen, exits, with_port, asks_help, parse_args, defaults, Host, Arrival,
  Served, accept_loop, MainEnd, listens, panic_if, run_server, main,
}

-- One option of a command line.
pub data Setting : Type 0 where
  sets_port : ℕ → Setting
  sets_root : Bytes → Setting

abbrev pub apply : List Setting → Settings → Settings
apply [] o = o
apply (sets_port n ∷ ss) o = apply ss (record o { port = n })
apply (sets_root r ∷ ss) o = apply ss (record o { root = r })

-- The arguments that give the options.
abbrev pub arguments : List Setting → List Bytes
arguments [] = []
arguments (sets_port n ∷ ss) = codes "-port" ∷ show n ∷ arguments ss
arguments (sets_root r ∷ ss) = codes "-root" ∷ r ∷ arguments ss

abbrev pub IsPort : Setting → Type 0
IsPort (sets_port n) = n < 65535
IsPort (sets_root r) = Unit

with_port-show :
    (n : ℕ) (o : Settings) (rest : Settings → Choice)
    → n < 65535
    → with_port (scan_i32 (show n)) o rest ≡ rest (record o { port = n })
unfolding with_port
with_port-show n o rest h = ground (arith, scan_i32-show n (omega arith))

parse_args-port :
    (v : Bytes) (args : List Bytes) (o : Settings)
    → parse_args (codes "-port" ∷ v ∷ args) o ≡ with_port (scan_i32 v) o (parse_args args)
unfolding parse_args codes equal
parse_args-port v args o = refl

parse_args-root :
    (v : Bytes) (args : List Bytes) (o : Settings)
    → parse_args (codes "-root" ∷ v ∷ args) o ≡ parse_args args (record o { root = v })
unfolding parse_args codes equal
parse_args-root v args o = refl

parse_args-arguments :
    (ss : List Setting) (o : Settings)
    → All IsPort ss
    → parse_args (arguments ss) o ≡ chosen (apply ss o)
unfolding parse_args
parse_args-arguments [] o h = refl
parse_args-arguments (sets_port n ∷ ss) o h =
    parse_args-port (show n) (arguments ss) o
    ∙ with_port-show n o (parse_args (arguments ss)) h.0
    ∙ parse_args-arguments ss (record o { port = n }) h.1
parse_args-arguments (sets_root r ∷ ss) o h =
    parse_args-root r (arguments ss) o ∙ parse_args-arguments ss (record o { root = r }) h.1

-- A choice has a port below 65535.
abbrev pub InRange : Choice → Type 0
InRange (chosen o) = o.port < 65535
InRange (exits code) = Unit

with_port-InRange :
    (v : Option (ℕ × Bytes)) (o : Settings) (rest : Settings → Choice)
    → ((p : Settings) → p.port < 65535 → InRange (rest p))
    → InRange (with_port v o rest)
unfolding with_port
with_port-InRange none o rest h = tt
with_port-InRange (some (n, _)) o rest h = elim (Bool-cases (leb (2 ^ 31) n || leb 65535 n)) [
  | inl bad ↦ rw bad tt
  | inr good ↦ rw good (h (record o { port = n }) (ground arith))
]

parse_args-InRange :
    (args : List Bytes) (o : Settings) → o.port < 65535 → InRange (parse_args args o)
unfolding parse_args
parse_args-InRange [] o h = h
parse_args-InRange (arg ∷ []) o h =
    if-holds InRange (asks_help arg) _ _ tt
      (if-holds InRange (equal arg (codes "-port") || equal arg (codes "-root")) _ _ tt h)
parse_args-InRange (arg ∷ value ∷ args) o h = if-holds InRange (asks_help arg) _ _ tt (
    if-holds InRange (equal arg (codes "-port")) _ _
      (with_port-InRange (scan_i32 value) o (parse_args args) (parse_args-InRange args))
      (if-holds InRange (equal arg (codes "-root")) _ _
        (parse_args-InRange args (record o { root = value }) h)
        (parse_args-InRange (value ∷ args) o h)))

panic_if-listens :
    (b : Bool) (msg : Bytes) (rest : MainEnd) (port : ℕ) (s : Served)
    → panic_if b msg rest ≡ listens port s
    → rest ≡ listens port s
panic_if-listens true msg rest port s h = absurd (cc)
panic_if-listens false msg rest port s h = h

run_server-InRange :
    (host : Host) (arrivals : List Arrival) (c : Choice) (port : ℕ) (s : Served)
    → InRange c
    → run_server host arrivals c ≡ listens port s
    → port < 65535
unfolding run_server
run_server-InRange host arrivals (exits code) port s r h = absurd (cc)
run_server-InRange host arrivals (chosen o) port s r h =
    let k = panic_if-listens (not host.listen) _ _ port s (
      panic_if-listens (not (host.bind (o.port % 2 ^ 16))) _ _ port s (
        panic_if-listens (not host.setsockopt) _ _ port s (
          panic_if-listens (not host.socket) _ _ port s
            (panic_if-listens (not (host.chdir o.root)) _ _ port s h)))) in
    ground (arith, r)

-- Whatever its arguments and whatever the calls give, a server that listens does so on a port below
-- 65535.
pub main-listens :
    (host : Host) (arrivals : List Arrival) (args : List Bytes) (port : ℕ) (s : Served)
    → main host arrivals args ≡ listens port s
    → port < 65535
unfolding main
main-listens host arrivals args port s h =
    run_server-InRange host arrivals (parse_args args defaults) port s
      (parse_args-InRange args defaults (omega arith)) h

apply-InRange :
    (ss : List Setting) (o : Settings) → All IsPort ss → o.port < 65535 → (apply ss o).port < 65535
apply-InRange [] o h k = k
apply-InRange (sets_port n ∷ ss) o h k = apply-InRange ss (record o { port = n }) h.1 h.0
apply-InRange (sets_root r ∷ ss) o h k = apply-InRange ss (record o { root = r }) h.1 k

run_server-chosen :
    (host : Host) (arrivals : List Arrival) (o : Settings)
    → o.port < 65535
    → host.chdir o.root ≡ true
    → host.socket ≡ true
    → host.setsockopt ≡ true
    → host.bind o.port ≡ true
    → host.listen ≡ true
    → run_server host arrivals (chosen o) ≡ listens o.port (accept_loop arrivals)
unfolding run_server
run_server-chosen host arrivals o h dir sock opt bind lis =
    let small : (o.port % 2 ^ 16 ≡ o.port) = omega arith in
    rw (dir, sock, opt, small, bind, lis) refl

-- Options of the server, in any order and number, are read back from the arguments that give them,
-- ports below 65535 in decimal and directories as they are, the last one of each kind counting:
-- where every call succeeds the server listens on that port, below that directory, and goes on to
-- accept connections.
pub main-arguments :
    (host : Host) (arrivals : List Arrival) (ss : List Setting)
    → All IsPort ss
    → host.chdir (apply ss defaults).root ≡ true
    → host.socket ≡ true
    → host.setsockopt ≡ true
    → host.bind (apply ss defaults).port ≡ true
    → host.listen ≡ true
    → main host arrivals (arguments ss) ≡ listens (apply ss defaults).port (accept_loop arrivals)
unfolding main
main-arguments host arrivals ss h dir sock opt bind lis =
    ap (run_server host arrivals) (parse_args-arguments ss defaults h)
    ∙ run_server-chosen host arrivals (apply ss defaults)
        (apply-InRange ss defaults h (omega arith)) dir sock opt bind lis
