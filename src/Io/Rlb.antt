-- ===== src/Io/Rlb.antt =====
-- The read-line buffer of server/io_utils.c. What read() gives is a list of results, one for each
-- call; where the list ends the peer has closed the connection.
pub mod Chars
pub mod Lines
pub mod Progress
use zz_ftp.Prelude.{
  ℕ, zero, suc, ◌+◌, ◌-◌, Bool, true, false, ◌&&◌, List, [], ◌∷◌, ◌==◌, leb, if◌then◌else◌, Bytes,
  length, take,
}

pub data Recv : Type 0 where
  received : Bytes → Recv
  failed : Recv

-- `pending` holds the bytes from head up to tail, `input` what read() has yet to give.
pub record Rlb : Type 0 where
  pub pending : Bytes
  pub input : List Recv
  pub no_more : Bool

unfoldable pub rlb_init : List Recv → Rlb
rlb_init input = record { pending = []; input = input; no_more = false }

abbrev ended : List Recv → ℕ × Rlb
ended input = (b'\n', record { pending = []; input = input; no_more = true })

-- The do-while loop passes over '\r'; a failed or empty read() ends it with '\n'.
get_from : List Recv → Bytes → Bool → ℕ × Rlb
get_from input (c ∷ pending) nm =
    if c == b'\r'
    then get_from input pending nm
    else (c, record { pending = pending; input = input; no_more = nm })
get_from [] [] nm = ended []
get_from (failed ∷ input) [] nm = ended input
get_from (received [] ∷ input) [] nm = ended input
get_from (received (c ∷ cs) ∷ input) [] nm = get_from input (c ∷ cs) nm

unfoldable pub rlb_get_char : Rlb → ℕ × Rlb
unfolding get_from
rlb_get_char b = get_from b.input b.pending b.no_more

-- The loop over i < size: the bytes before '\n', whether '\n' was met, and the buffer.
read_upto : ℕ → Rlb → Bytes × Bool × Rlb
read_upto zero b = ([], false, b)
read_upto (suc n) b =
    let (c, b1) = rlb_get_char b in
    let (line, met, b2) = read_upto n b1 in
    elim (c == b'\n') [ true ↦ ([], true, b1) | false ↦ (c ∷ line, met, b2) ]

-- A bound on the characters that are left.
unfoldable pub weight_of : List Recv → ℕ
weight_of [] = 0
weight_of (failed ∷ input) = suc (weight_of input)
weight_of (received cs ∷ input) = suc (length cs + weight_of input)

unfoldable pub weight : Rlb → ℕ
unfolding weight_of
weight b = length b.pending + weight_of b.input

-- while ((ch = rlb_get_char(b)) != '\n') { }
drain : ℕ → Rlb → Rlb
drain zero b = b
drain (suc f) b =
    let (c, b1) = rlb_get_char b in
    let more = drain f b1 in elim (c == b'\n') [ true ↦ b1 | false ↦ more ]

-- What rlb_read_line leaves in the caller's array, with what it returns: the length of the line,
-- `size` for a line that was cut, or -1.
pub data Line : Type 0 where
  line : Bytes → Line
  too_long : Bytes → Line
  closed : Line

finish_line : ℕ → Bytes × Bool × Rlb → Line × Rlb
finish_line size (text, true, b) = (line text, b)
finish_line size (text, false, b) = (too_long (take (size - 1) text), drain (suc (weight b)) b)

pub is_empty : Bytes → Bool
is_empty [] = true
is_empty _ = false

-- if (i == 0 && b->no_more) return -1;
check_closed : Line × Rlb → Line × Rlb
check_closed (line text, b) = if is_empty text && b.no_more then (closed, b) else (line text, b)
check_closed r = r

unfoldable pub rlb_read_line : ℕ → Rlb → Line × Rlb
unfolding rlb_get_char read_upto weight drain finish_line check_closed is_empty
rlb_read_line size b =
    if leb size 1 then (line [], b) else check_closed (finish_line size (read_upto size b))
