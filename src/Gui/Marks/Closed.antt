-- ===== src/Gui/Marks/Closed.antt =====
-- read_mark_thr of client/xfer.c on a connection that the server has closed.
use zz_ftp.Prelude.{ℕ, suc, ◌+◌, ◌-◌, ◌%◌, ◌^◌, ◌≡◌, refl, arith, false, none, []}
use zz_ftp.Io.Rlb.{Rlb, Line, closed, rlb_read_line}
use zz_ftp.Io.Rlb.Chars.{Delivers, no_newline}
use zz_ftp.Io.Rlb.Lines.{read_line-closed}
use zz_ftp.Gui.Marks.{grow, never_ends, store_line, store_eof, after_line, read_rounds, read_mark}

grow_forever : grow 65 ((0 + (2 ^ 64 - 1) + (2 ^ 64 - 3)) % 2 ^ 64) 64 ≡ none
unfolding grow
grow_forever = refl

after_closed :
    (rounds : ℕ) (b b1 : Rlb) (l : Line)
    → l ≡ closed
    → after_line (store_line l [] 64) [] 64 b1 (λ text1 room1. read_rounds rounds text1 room1 b1)
      ≡ never_ends
unfolding after_line store_line store_eof
after_closed rounds b b1 l e = rw (e, grow_forever) refl

-- Where the connection closes before a reply has begun, the reader never returns: the -1 for the
-- end of the connection passes for a long line, and no capacity is enough for it.
pub read_mark_closed :
    (rounds : ℕ) (b : Rlb) → Delivers [] false b → read_mark (suc rounds) b ≡ never_ends
unfolding read_mark read_rounds rlb_read_line
read_mark_closed rounds b d =
    let at_end : (rlb_read_line 1024 b).0 ≡ closed =
      read_line-closed 1024 [] b (omega arith) (unfold no_newline in refl) (omega arith) d in
    after_closed rounds b (rlb_read_line 1024 b).1 (rlb_read_line 1024 b).0 at_end
