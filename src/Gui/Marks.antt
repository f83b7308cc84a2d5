-- ===== src/Gui/Marks.antt =====
-- The reader of replies in client/xfer.c: read_mark_thr. Its lines come from the read-line buffer
-- of server/io_utils.c, which the client is built with.
pub mod Rounds
pub mod RoundTrip
pub mod Closed
use zz_ftp.Prelude.{
  ℕ, zero, suc, ◌+◌, ◌-◌, ◌*◌, ◌%◌, ◌^◌, Bool, true, false, ◌&&◌, Option, none, some, List, [], ◌∷◌,
  ◌++◌, ◌==◌, leb, if◌then◌else◌, Bytes, length, drop, c_str,
}
use zz_ftp.Text.{is_digit}
use zz_ftp.Io.Rlb.{Rlb, Line, line, too_long, closed, rlb_read_line}

-- while (needed >= cap) buf = realloc(buf, cap <<= 1), with `room` for cap; `none`: the loop never ends. Sixty-four
-- doublings leave 0, and with it no end.
unfoldable pub grow : ℕ → ℕ → ℕ → Option ℕ
grow zero needed room = none
grow (suc f) needed room =
    let grown = grow f needed (room * 2 % 2 ^ 64) in if leb room needed then grown else some room

-- isdigit(line[0]) && isdigit(line[1]) && isdigit(line[2]) && line[3] == ' '
unfoldable pub ends_mark : Bytes → Bool
ends_mark (a ∷ b ∷ c ∷ d ∷ _) = is_digit a && (is_digit b && (is_digit c && d == b' '))
ends_mark _ = false

unfoldable pub mark_code : Bytes → ℕ
mark_code (a ∷ b ∷ c ∷ _) = (a - b'0') * 100 + (b - b'0') * 10 + (c - b'0')
mark_code _ = 0

-- The bytes that strcpy() does not reach are behind its NUL; they are shown as NULs.
unfoldable pub filled : ℕ → Bytes → Bytes
filled zero s = []
filled (suc n) [] = 0 ∷ filled n []
filled (suc n) (c ∷ s) = c ∷ filled n s

-- What one line does: it is too short and is passed over; it is stored; it is stored and is the
-- last; or the capacity is doubled for ever. `stale`: bytes of an earlier line are taken again.
pub data Stored : Type 0 where
  skipped : Stored
  stored : Bytes → ℕ → Stored
  complete : ℕ → Bytes → Stored
  endless stale : Stored

unfoldable pub store_in : Bytes → Bytes → Option ℕ → Stored
store_in l text none = endless
store_in l text (some room) =
    if ends_mark l then complete (mark_code l) (c_str text) else stored text room

-- The body of `if (lnsz >= 4)`, with `text` the bytes of buf and len their number.
unfoldable pub store : Bytes → ℕ → Bytes → ℕ → Stored
unfolding store_in
store l lnsz text room =
    store_in l (text ++ (filled (lnsz - 4) (c_str (drop 4 l)) ++ b'\n' ∷ []))
      (grow 65 ((length text + lnsz - 3) % 2 ^ 64) room)

unfoldable pub store_eof : Option ℕ → Stored
store_eof none = endless
store_eof (some _) = stale

-- The -1 of a closed connection is SIZE_MAX as a size_t, and passes for a long line.
unfoldable pub store_line : Line → Bytes → ℕ → Stored
unfolding store store_eof
store_line (line l) text room = if leb 4 (length l) then store l (length l) text room else skipped
store_line (too_long l) text room = store l 1024 text room
store_line closed text room =
    store_eof (grow 65 ((length text + (2 ^ 64 - 1) + (2 ^ 64 - 3)) % 2 ^ 64) room)

-- The code and the text for the callback, with what the connection has yet to give.
pub data Mark : Type 0 where
  marked : ℕ → Bytes → Rlb → Mark
  never_ends reads_stale out_of_rounds : Mark

unfoldable pub after_line : Stored → Bytes → ℕ → Rlb → (Bytes → ℕ → Mark) → Mark
after_line skipped text room b rounds = rounds text room
after_line (stored text1 room1) text room b rounds = rounds text1 room1
after_line (complete code s) text room b rounds = marked code s b
after_line endless text room b rounds = never_ends
after_line stale text room b rounds = reads_stale

-- while (1), for at most the given number of rounds.
unfoldable pub read_rounds : ℕ → Bytes → ℕ → Rlb → Mark
unfolding after_line store_line
read_rounds zero text room b = out_of_rounds
read_rounds (suc f) text room b =
    let (l, b1) = rlb_read_line 1024 b in
    after_line (store_line l text room) text room b1 (λ text1 room1. read_rounds f text1 room1 b1)

unfoldable pub read_mark : ℕ → Rlb → Mark
read_mark rounds b = read_rounds rounds [] 64 b
