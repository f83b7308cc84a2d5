-- ===== src/Server/Commands/Directory.antt =====
-- The working directory as the two programs exchange it: the reply to PWD and how the client reads it.
use zz_ftp.Prelude.{
  ℕ, zero, suc, ◌+◌, ◌-◌, ◌≤◌, ◌≡◌, ◌∙◌, refl, arith, ap, Bool, true, false, none, some, [], ◌∷◌,
  ◌++◌, append_assoc, Bytes, codes, length, take, if◌then◌else◌, ◌==◌,
}
use zz_ftp.Server.System.{System, Ctl, returned, done, mark}
use zz_ftp.Server.Handlers.Files.{handler_pwd}
use zz_ftp.Server.Commands.Renaming.{IsFree, guards_pass}
use zz_ftp.Gui.FileList.{split_last}
use zz_ftp.Gui.Listing.{quoted, fault, quoted_dir, behind_first, between}

abbrev quote : ℕ
quote = b'"'

take-append : (n k : ℕ) (xs ys : Bytes) → n ≡ length xs + k → take n (xs ++ ys) ≡ xs ++ take k ys
take-append n k [] ys e = ap (λ m. take m ys) (let d = e in omega arith)
take-append zero k (x ∷ xs) ys e = absurd (omega arith)
take-append (suc n) k (x ∷ xs) ys e = ap (◌∷◌ x) (take-append n k xs ys (omega arith))

take-short : (n : ℕ) (xs ys : Bytes) → n ≤ length xs → take n (xs ++ ys) ≡ take n xs
take-short zero xs ys h = refl
take-short (suc n) [] ys h = absurd (omega arith)
take-short (suc n) (x ∷ xs) ys h = ap (◌∷◌ x) (take-short n xs ys (omega arith))

-- A text without the byte c.
unfoldable pub absent : ℕ → Bytes → Bool
absent c [] = true
absent c (x ∷ s) = if x == c then false else absent c s

absent-take : (c n : ℕ) (s : Bytes) → absent c s ≡ true → absent c (take n s) ≡ true
unfolding absent
absent-take c zero s a = refl
absent-take c (suc n) [] a = refl
absent-take c (suc n) (x ∷ s) a = let k = absent-take c n s in ground arith

absent-append :
    (c : ℕ) (s t : Bytes) → absent c s ≡ true → absent c t ≡ true → absent c (s ++ t) ≡ true
unfolding absent
absent-append c [] t a b = b
absent-append c (x ∷ s) t a b = let k = absent-append c s t in ground arith

split_last-absent : (c : ℕ) (s : Bytes) → absent c s ≡ true → split_last c s ≡ none
unfolding split_last absent
split_last-absent c [] a = refl
split_last-absent c (x ∷ s) a = let k = split_last-absent c s in ground arith

split_last-found :
    (c : ℕ) (xs t : Bytes) → absent c t ≡ true → split_last c (xs ++ (c ∷ t)) ≡ some (xs, t)
unfolding split_last
split_last-found c [] t a = let k = split_last-absent c t a in ground arith
split_last-found c (x ∷ xs) t a = let k = split_last-found c xs t a in ground arith

-- The text that the handler makes, and the part that markf keeps of it.
abbrev pwd_text : Bytes → Bytes
pwd_text wd = codes "Working directory is \"" ++ wd ++ codes "\"."

kept :
    (wd : Bytes)
    → take 255 (pwd_text wd) ≡ codes "Working directory is \"" ++ take 233 (wd ++ codes "\".")
unfolding codes
kept wd = take-append 255 233 (codes "Working directory is \"") (wd ++ codes "\".") refl

read_back :
    (wd : Bytes)
    → quoted_dir (take 255 (pwd_text wd) ++ codes "\n")
      ≡ between (some (take 233 (wd ++ codes "\".") ++ codes "\n"))
unfolding quoted_dir behind_first codes
read_back wd = ap (λ x. quoted_dir (x ++ codes "\n")) (kept wd)

closed :
    (wd : Bytes) (k : ℕ)
    → length wd + suc k ≡ 233
    → take 233 (wd ++ codes "\".") ≡ wd ++ (quote ∷ take k (codes "."))
unfolding codes
closed wd k e = take-append 233 (suc k) wd (codes "\".") (omega arith)

tail-absent : (k : ℕ) → absent quote (take k (codes ".") ++ codes "\n") ≡ true
unfolding absent codes
tail-absent k =
    absent-append quote (take k (codes ".")) _ (absent-take quote k (codes ".") refl) refl

between-quoted :
    (wd t : Bytes) → absent quote t ≡ true → between (some (wd ++ (quote ∷ t))) ≡ quoted wd
unfolding between
between-quoted wd t a = let k = split_last-found quote wd t a in ground arith

between-fault : (s : Bytes) → absent quote s ≡ true → between (some s) ≡ fault
unfolding between
between-fault s a = let k = split_last-absent quote s a in ground arith

short_directory :
    (wd : Bytes) (k : ℕ)
    → length wd + suc k ≡ 233
    → quoted_dir (take 255 (pwd_text wd) ++ codes "\n") ≡ quoted wd
short_directory wd k e =
    read_back wd
    ∙ ap (λ x. between (some (x ++ codes "\n"))) (closed wd k e)
    ∙ ap (λ x. between (some x)) (append_assoc wd (quote ∷ take k (codes ".")) (codes "\n"))
    ∙ between-quoted wd (take k (codes ".") ++ codes "\n") (tail-absent k)

long_directory :
    (wd : Bytes)
    → 233 ≤ length wd
    → absent quote wd ≡ true
    → quoted_dir (take 255 (pwd_text wd) ++ codes "\n") ≡ fault
unfolding absent codes
long_directory wd l a =
    read_back wd
    ∙ ap (λ x. between (some (x ++ codes "\n"))) (take-short 233 wd (codes "\".") l)
    ∙ between-fault _
        (absent-append quote (take 233 wd) (codes "\n") (absent-take quote 233 wd a) refl)

-- PWD, behind guards that let it pass, sends one reply and changes nothing. Where the working
-- directory has at most 232 bytes the client finds exactly it in the reply, whatever bytes it has.
pub pwd_exchange :
    (sys : System) (s : Ctl) (arg : Bytes)
    → IsFree s.client
    → length s.client.wd ≤ 232
    → (msg : Bytes) × ((handler_pwd sys s arg ≡ returned (mark 257 msg s) done)
        × (quoted_dir (msg ++ codes "\n") ≡ quoted s.client.wd))
unfolding handler_pwd codes
pwd_exchange sys s arg free l = (
  take 255 (pwd_text s.client.wd),
  (guards_pass s _ free, short_directory s.client.wd (232 - length s.client.wd) (omega arith)),
)

-- Where the working directory has more than 232 bytes and no quotation mark, the reply to PWD is
-- cut before the closing one, and the client copies a block of length -1.
pub pwd_overlong :
    (sys : System) (s : Ctl) (arg : Bytes)
    → IsFree s.client
    → 233 ≤ length s.client.wd
    → absent quote s.client.wd ≡ true
    → (msg : Bytes) × ((handler_pwd sys s arg ≡ returned (mark 257 msg s) done)
        × (quoted_dir (msg ++ codes "\n") ≡ fault))
unfolding handler_pwd codes
pwd_overlong sys s arg free l a =
    (take 255 (pwd_text s.client.wd), (guards_pass s _ free, long_directory s.client.wd l a))
