-- ===== src/Gui/Transfer/Tests.antt =====
-- The threads that move data at concrete inputs.
use zz_ftp.Prelude.{◌≡◌, refl, arith, some, List, [], ◌∷◌, Bytes}
use zz_ftp.Io.Transfer.{moved, again, Input, got}
use zz_ftp.Gui.Transfer.{loaded, read_all_thr, read_all_to_thr, write_all_from_thr, block}
use zz_ftp.Gui.Transfer.Whole.{
  Ends, more, empty, all_of, sums, no_more, one_more, none_left, one_sent, read_all_thr_complete,
  read_all_to_thr_complete, write_all_from_thr_complete,
}

abbrev two_blocks : List Bytes
two_blocks = (b'a' ∷ b'b' ∷ []) ∷ (b'c' ∷ []) ∷ []

abbrev two_reads : List Input
two_reads = got (b'a' ∷ b'b' ∷ []) ∷ got (b'c' ∷ []) ∷ got [] ∷ []

two_reads-Ends : Ends two_reads two_blocks
two_reads-Ends = more b'a' (b'b' ∷ []) _ _ (omega arith) (more b'c' [] _ _ (omega arith) (empty []))

read_all_thr_complete_example : read_all_thr two_reads ≡ loaded (all_of two_blocks)
read_all_thr_complete_example =
    read_all_thr_complete two_reads two_blocks two_reads-Ends (omega arith)

read_all_to_thr_complete_example :
    read_all_to_thr two_reads (some 2 ∷ some 1 ∷ [])
    ≡ record { written = all_of two_blocks; reports = sums 0 two_blocks }
read_all_to_thr_complete_example =
    read_all_to_thr_complete two_reads two_blocks (some 2 ∷ some 1 ∷ []) two_reads-Ends
      (one_more _ _ _ (one_more _ _ _ (no_more [])))

-- The first block goes in two parts.
write_all_from_thr_complete_example :
    write_all_from_thr two_reads ((moved 1 ∷ again ∷ moved 1 ∷ []) ∷ (moved 1 ∷ []) ∷ [])
    ≡ record { written = all_of two_blocks; reports = sums 0 two_blocks }
write_all_from_thr_complete_example =
    write_all_from_thr_complete two_reads two_blocks
      ((moved 1 ∷ again ∷ moved 1 ∷ []) ∷ (moved 1 ∷ []) ∷ []) two_reads-Ends
      (one_sent _ _ _ _ (omega arith) (one_sent _ _ _ _ (omega arith) (none_left [])))

-- A write() of a part of a block passes for a whole one.
short_write :
    read_all_to_thr two_reads (some 1 ∷ some 1 ∷ [])
    ≡ record { written = b'a' ∷ b'c' ∷ []; reports = sums 0 two_blocks }
unfolding read_all_to_thr block
short_write = refl
