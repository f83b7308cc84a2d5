-- ===== src/Server/Main.antt =====
-- main of server/main.c: the options, the listening socket, and the loop that accepts connections.
-- What the calls give is a parameter; the loop ends where the list of arrivals does.
pub mod Options
mod Tests
use zz_ftp.Prelude.{
  ℕ, ◌%◌, ◌^◌, Bool, true, false, not, ◌||◌, Option, none, some, List, [], ◌∷◌, leb, if◌then◌else◌,
  Bytes, codes, equal,
}
use zz_ftp.Text.{scan_i32}

pub record Settings : Type 0 where
  pub port : ℕ
  pub root : Bytes

-- What the options ask for, or the code that print_usage() exits with.
pub data Choice : Type 0 where
  chosen : Settings → Choice
  exits : ℕ → Choice

-- sscanf() of a port, which is an int as a 32-bit pattern, and its test.
unfoldable pub with_port : Option (ℕ × Bytes) → Settings → (Settings → Choice) → Choice
with_port none o rest = exits 1
with_port (some (port, _)) o rest =
    if leb (2 ^ 31) port || leb 65535 port then exits 1 else rest (record o { port = port })

unfoldable pub asks_help : Bytes → Bool
asks_help arg = equal arg (codes "-h") || equal arg (codes "-help")

-- for (int i = 1; i < argc; i++), over the arguments that are left.
unfoldable pub parse_args : List Bytes → Settings → Choice
unfolding with_port asks_help
parse_args [] o = chosen o
parse_args (arg ∷ []) o =
    if asks_help arg
    then exits 0
    else if equal arg (codes "-port") || equal arg (codes "-root")
    then exits 1
    else chosen o
parse_args (arg ∷ value ∷ args) o =
    let skipped = parse_args (value ∷ args) o in
    let rooted = parse_args args (record o { root = value }) in
    if asks_help arg
    then exits 0
    else if equal arg (codes "-port")
    then with_port (scan_i32 value) o (parse_args args)
    else if equal arg (codes "-root")
    then rooted
    else skipped

abbrev pub defaults : Settings
defaults = record { port = 21; root = codes "/tmp" }

-- What the calls give before the loop.
pub record Host : Type 0 where
  pub chdir : Bytes → Bool
  pub socket : Bool
  pub setsockopt : Bool
  pub bind : ℕ → Bool
  pub listen : Bool

-- What accept() gives, and whether a thread is created.
pub record Arrival : Type 0 where
  pub conn_fd : Option ℕ
  pub thread_starts : Bool

-- The connections that serve_client is called for, and those that are closed at once.
pub record Served : Type 0 where
  pub served : List ℕ
  pub closed : List ℕ
  pub panics : Bool

-- while (1) of main
unfoldable pub accept_loop : List Arrival → Served
accept_loop [] = record { served = []; closed = []; panics = false }
accept_loop (a ∷ arrivals) =
    let rest = accept_loop arrivals in
    elim a.conn_fd [
      | none ↦ record { served = []; closed = []; panics = true }
      | some fd ↦
          if a.thread_starts
          then record rest { served = fd ∷ rest.served }
          else record rest { closed = fd ∷ rest.closed }
    ]

pub data MainEnd : Type 0 where
  usage : ℕ → MainEnd
  panicked : Bytes → MainEnd
  listens : ℕ → Served → MainEnd

abbrev pub panic_if : Bool → Bytes → MainEnd → MainEnd
panic_if true msg rest = panicked msg
panic_if false msg rest = rest

-- htons(port) keeps 16 bits.
unfoldable pub run_server : Host → List Arrival → Choice → MainEnd
unfolding accept_loop
run_server host arrivals (exits code) = usage code
run_server host arrivals (chosen o) = panic_if (not (host.chdir o.root)) (codes "chdir() failed") (
    panic_if (not host.socket) (codes "socket() failed") (
      panic_if (not host.setsockopt) (codes "setsockopt() failed") (
        panic_if (not (host.bind (o.port % 2 ^ 16))) (codes "bind() failed") (
          panic_if (not host.listen) (codes "listen() failed")
            (listens (o.port % 2 ^ 16) (accept_loop arrivals))))))

unfoldable pub main : Host → List Arrival → List Bytes → MainEnd
unfolding parse_args run_server
main host arrivals args = run_server host arrivals (parse_args args defaults)
