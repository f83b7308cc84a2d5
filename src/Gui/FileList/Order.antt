-- ===== src/Gui/FileList/Order.antt =====
-- The comparison of entries is a total preorder, as qsort() asks for.
use zz_ftp.Prelude.{◌≡◌, refl, arith, true, false, ◌||◌, [], ◌∷◌, Bytes, ltb, ◌==◌, ◌&&◌, Bool, ℕ}
use zz_ftp.Gui.FileList.{FileRec, rank, text_le, file_rec_le}

text_le_total : (a b : Bytes) → (text_le a b || text_le b a) ≡ true
unfolding text_le
text_le_total [] [] = refl
text_le_total [] (y ∷ b) = refl
text_le_total (x ∷ a) [] = refl
text_le_total (x ∷ a) (y ∷ b) = ground (arith, text_le_total a b)

text_le_trans : (a b c : Bytes) → text_le a b ≡ true → text_le b c ≡ true → text_le a c ≡ true
unfolding text_le
text_le_trans [] b c p q = refl
text_le_trans (x ∷ a) [] c p q = cc
text_le_trans (x ∷ a) (y ∷ b) [] p q = cc
text_le_trans (x ∷ a) (y ∷ b) (z ∷ c) p q = ground (arith, text_le_trans a b c)

-- Two keys, the second where the first are equal.
first_by_total :
    (m n : ℕ) (p q : Bool)
    → (p || q) ≡ true
    → ((ltb m n || (m == n && p)) || (ltb n m || (n == m && q))) ≡ true
first_by_total m n true q h = ground arith
first_by_total m n false true h = ground arith
first_by_total m n false false h = cc

first_by_trans :
    (l m n : ℕ) (p q r : Bool)
    → (p ≡ true → q ≡ true → r ≡ true)
    → (ltb l m || (l == m && p)) ≡ true
    → (ltb m n || (m == n && q)) ≡ true
    → (ltb l n || (l == n && r)) ≡ true
first_by_trans l m n true true true h e f = ground arith
first_by_trans l m n true true false h e f = let z = h refl refl in cc
first_by_trans l m n true false r h e f = ground arith
first_by_trans l m n false q r h e f = ground arith

-- Of any two entries one comes before the other, or they are equal in the comparison.
pub file_rec_le_total : (a b : FileRec) → (file_rec_le a b || file_rec_le b a) ≡ true
unfolding file_rec_le
file_rec_le_total a b = first_by_total (rank a) (rank b) _ _ (text_le_total a.name b.name)

-- Where one entry comes before or with a second and that before or with a third, the first comes
-- before or with the third.
pub file_rec_le_trans :
    (a b c : FileRec) → file_rec_le a b ≡ true → file_rec_le b c ≡ true → file_rec_le a c ≡ true
unfolding file_rec_le
file_rec_le_trans a b c p q =
    first_by_trans (rank a) (rank b) (rank c) _ _ _ (text_le_trans a.name b.name c.name) p q
