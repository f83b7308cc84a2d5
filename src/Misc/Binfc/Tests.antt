-- ===== src/Misc/Binfc/Tests.antt =====
-- binfc on two small files.
use zz_ftp.Prelude.{
  ◌≡◌, refl, arith, Option, none, some, [], ◌∷◌, ◌&&◌, not, ltb, ◌+◌, ◌==◌, Bytes, codes,
  if◌then◌else◌, equal,
}
use zz_ftp.Text.{show, scan_i32}
use zz_ftp.Misc.Binfc.{binfc, finished, cannot_open}
use zz_ftp.Misc.Binfc.Reports.{binfc-tells, tells, byte_at}

abbrev opens : Bytes → Option Bytes
opens name =
    if equal name (codes "a")
    then some (codes "xxhello")
    else if equal name (codes "b")
    then some (codes "hallo!")
    else none

reports :
    binfc opens (codes "a" ∷ codes "2" ∷ codes "b" ∷ codes "0" ∷ codes "6" ∷ [])
    ≡ finished
        (record { index = 1; a = b'e'; b = b'a' } ∷ record { index = 5; a = 255; b = b'!' } ∷ [])
unfolding binfc equal codes scan_i32
reports = refl

-- Behind the end of a file, 255 passes for a byte of it.
hides :
    binfc
      (λ name. if equal name (codes "a") then some (255 ∷ []) else some [])
      (codes "a" ∷ codes "0" ∷ codes "b" ∷ codes "0" ∷ codes "1" ∷ [])
    ≡ finished []
unfolding binfc equal codes scan_i32
hides = refl

cannot :
    binfc opens (codes "c" ∷ codes "0" ∷ codes "d" ∷ codes "0" ∷ codes "1" ∷ [])
    ≡ cannot_open (codes "c" ∷ codes "d" ∷ [])
unfolding binfc equal codes
cannot = refl

binfc-tells_example :
    tells 1 (binfc opens (codes "a" ∷ show 2 ∷ codes "b" ∷ show 0 ∷ show 6 ∷ []))
    ≡ (ltb 1 6 && not (byte_at (2 + 1) (codes "xxhello") == byte_at (0 + 1) (codes "hallo!")))
unfolding equal codes
binfc-tells_example =
    binfc-tells opens (codes "a") (codes "b") (codes "xxhello") (codes "hallo!") 2 0 6 1 refl refl
      (omega arith) (omega arith) (omega arith)
