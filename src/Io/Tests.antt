-- ===== src/Io/Tests.antt =====
-- The reader and the transfer loops at concrete inputs.
use zz_ftp.Prelude.{false, [], ◌∷◌, ◌++◌, codes, ◌≡◌, refl, arith}
use zz_ftp.Io.Rlb.{received, Rlb, rlb_init, too_long, rlb_read_line}
use zz_ftp.Io.Rlb.Chars.{Delivers, chars, chars_of, drop_cr, no_newline}
use zz_ftp.Io.Rlb.Lines.{read_line-terminated}

-- "USER qwq\r\nPASS quq\n", cut up by read().
abbrev session : Rlb
session =
    rlb_init
      (received (codes "USE") ∷ received (codes "R qwq\r\nPA") ∷ received (codes "SS quq\n") ∷ [])

session-Delivers : Delivers (codes "USER qwq" ++ b'\n' ∷ codes "PASS quq\n") false session
unfolding chars chars_of drop_cr codes rlb_init
session-Delivers = record { text = refl; flag = refl }

read_line-terminated_example :
    (b : Rlb) × (rlb_read_line 8 session ≡ (too_long (codes "USER qw"), b))
    × Delivers (codes "PASS quq\n") false b
unfolding codes
read_line-terminated_example =
    read_line-terminated 8 (codes "USER qwq") (codes "PASS quq\n") session (omega arith)
      (unfold codes no_newline in refl) session-Delivers

-- "QUIT\r", and then the peer closes.
abbrev unfinished : Rlb
unfinished = rlb_init (received (codes "QU") ∷ received (codes "IT\r") ∷ received [] ∷ [])

unfinished-Delivers : Delivers (codes "QUIT") false unfinished
unfolding chars chars_of drop_cr codes rlb_init
unfinished-Delivers = record { text = refl; flag = refl }
