-- ===== src/Gui/Listing/Tests.antt =====
-- A listing of two entries.
use zz_ftp.Prelude.{◌≡◌, refl, some, List, [], ◌∷◌, Bytes, codes}
use zz_ftp.Gui.Listing.{parse_listing, with_parent}
use zz_ftp.Gui.Listing.Lines.{is_line-IsLine, is_line, written, entries, parse_listing-written}

abbrev two_lines : List Bytes
two_lines = codes "total 8" ∷ codes "-rw-r--r-- 1 ftp ftp 5 Nov 26 17:06 a.txt" ∷ []

parse_listing-written_example :
    parse_listing (codes "/quq") (written two_lines)
    ≡ some (with_parent (codes "/quq") (entries two_lines))
unfolding codes is_line
parse_listing-written_example = parse_listing-written (codes "/quq") two_lines (
  is_line-IsLine (codes "total 8") refl,
  (is_line-IsLine (codes "-rw-r--r-- 1 ftp ftp 5 Nov 26 17:06 a.txt") refl, tt),
)
