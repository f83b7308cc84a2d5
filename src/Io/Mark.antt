-- ===== src/Io/Mark.antt =====
-- send_mark of server/io_utils.c: the bytes that one reply puts on the control connection, given
-- that write_all writes all of each piece.
use zz_ftp.Prelude.{ℕ, ◌+◌, ◌/◌, ◌%◌, Bool, true, false, [], ◌∷◌, ◌++◌, ◌==◌, if◌then◌else◌, Bytes}

-- pfx[0] to pfx[2]
unfoldable pub code_digits : ℕ → Bytes
code_digits code = (b'0' + code / 100 % 10) ∷ (b'0' + code / 10 % 10) ∷ (b'0' + code % 10) ∷ []

-- The prefix, the line and CR LF.
unfoldable pub mark_line : ℕ → Bool → Bytes → Bytes
unfolding code_digits
mark_line code last_line text =
    code_digits code ++ (if last_line then b' ' else b'-') ∷ (text ++ b'\r' ∷ b'\n' ∷ [])

-- One pass over the message: `text` holds the line from `msg` up to where strchr() has searched.
unfoldable pub send_from : ℕ → Bytes → Bytes → Bytes
unfolding mark_line
send_from code text [] = mark_line code true text
send_from code text (c ∷ []) =
    if c == b'\n' then mark_line code true text else mark_line code true (text ++ c ∷ [])
send_from code text (c ∷ d ∷ msg) = elim (c == b'\n') [
  | true ↦ mark_line code false text ++ send_from code [] (d ∷ msg)
  | false ↦ send_from code (text ++ c ∷ []) (d ∷ msg)
]

unfoldable pub send_mark : ℕ → Bytes → Bytes
unfolding send_from
send_mark code msg = send_from code [] msg
