-- ===== src/Gui/Tests.antt =====
-- The client's readers at concrete inputs.
use zz_ftp.Prelude.{◌≡◌, refl, arith, [], ◌∷◌, ◌++◌, codes, false}
use zz_ftp.Io.Rlb.{received, Rlb, rlb_init}
use zz_ftp.Io.Rlb.Chars.{Delivers, chars, chars_of, drop_cr}
use zz_ftp.Io.Mark.{send_mark}
use zz_ftp.Gui.Marks.{marked, never_ends, read_mark}
use zz_ftp.Gui.Marks.Rounds.{is_plain}
use zz_ftp.Gui.Marks.RoundTrip.{completed, fits, send_mark-read_mark}
use zz_ftp.Gui.Marks.Closed.{read_mark_closed}

-- A reply of two lines, and the start of another.
abbrev replies : Rlb
replies = rlb_init (received (send_mark 220 (codes "Hello\nzzFTP\n") ++ codes "331 ") ∷ [])

replies-Delivers :
    Delivers (drop_cr (send_mark 220 (codes "Hello\nzzFTP\n")) ++ codes "331 ") false replies
unfolding chars chars_of drop_cr codes rlb_init send_mark
replies-Delivers = record { text = refl; flag = refl }

send_mark-read_mark_example :
    (b1 : Rlb) × (read_mark 20 replies ≡ marked 220 (codes "Hello\nzzFTP\n") b1)
    × Delivers (codes "331 ") false b1
unfolding codes completed
send_mark-read_mark_example =
    send_mark-read_mark 220 (codes "Hello\nzzFTP\n") (codes "331 ") 20 replies (omega arith)
      (unfold is_plain in refl) (unfold fits in refl) (omega arith) (omega arith) replies-Delivers

-- The peer has closed the connection.
hung_up-Delivers : Delivers [] false (rlb_init [])
unfolding chars chars_of rlb_init drop_cr
hung_up-Delivers = record { text = refl; flag = refl }

read_mark_closed_example : read_mark 1 (rlb_init []) ≡ never_ends
read_mark_closed_example = read_mark_closed 0 (rlb_init []) hung_up-Delivers
