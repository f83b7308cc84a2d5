-- ===== src/Io/Transfer.antt =====
-- read_all and write_all of server/io_utils.c. The results of read() and write() are a list, one
-- for each call; EAGAIN is retried after a sleep.
use native.Mathlib.Nat.{sub-zero}
use zz_ftp.Prelude.{
  ℕ, zero, suc, ◌-◌, ◌≤◌, ◌≡◌, refl, arith, Option, none, some, List, [], ◌∷◌, ◌++◌, Bytes, length,
  take, drop, take-append-drop, ap, ◌∙◌, append_assoc, sym,
}

-- A call that wrote (or may write) n bytes, one to be tried again, and one that failed.
pub data Attempt : Type 0 where
  moved : ℕ → Attempt
  again : Attempt
  broken : Attempt

-- What came out of a loop: the bytes that went to the descriptor and the number that is left.
-- `none` for the number: the list of results ended before the loop did.
pub record Written : Type 0 where
  pub sent : Bytes
  pub remaining : Option ℕ

abbrev prepend : Bytes → Written → Written
prepend bs w = record { sent = bs ++ w.sent; remaining = w.remaining }

-- while (len != 0), over the bytes that `buf` points at.
unfoldable pub write_all : List Attempt → Bytes → Written
write_all _ [] = record { sent = []; remaining = some 0 }
write_all [] (b ∷ buf) = record { sent = []; remaining = none }
write_all (again ∷ rs) (b ∷ buf) = write_all rs (b ∷ buf)
write_all (broken ∷ rs) (b ∷ buf) = record { sent = []; remaining = some (length (b ∷ buf)) }
write_all (moved n ∷ rs) (b ∷ buf) = prepend (take n (b ∷ buf)) (write_all rs (drop n (b ∷ buf)))

-- What read() gives: some bytes, none where the peer has closed, or an error.
pub data Input : Type 0 where
  got : Bytes → Input
  retry : Input
  failure : Input

-- while (tot < len), for the `len` bytes that are still wanted; read() is asked for no more.
unfoldable pub read_all : List Input → ℕ → Bytes
read_all _ zero = []
read_all [] (suc n) = []
read_all (retry ∷ rs) (suc n) = read_all rs (suc n)
read_all (failure ∷ rs) (suc n) = []
read_all (got [] ∷ rs) (suc n) = []
read_all (got (c ∷ cs) ∷ rs) (suc n) =
    take (suc n) (c ∷ cs) ++ read_all rs (suc n - length (take (suc n) (c ∷ cs)))

-- Bytes are neither lost nor doubled, whatever write() answers: what was sent is the front of the
-- buffer, and the number returned counts the bytes behind it.
pub record IsSplit (buf : Bytes) (w : Written) : Type 0 where
  pub unsent : Bytes
  pub splits : w.sent ++ unsent ≡ buf
  pub counted : (n : ℕ) → w.remaining ≡ some n → n ≡ length unsent

-- Whatever write() answers, the bytes sent are the front of the buffer, each once and in order,
-- and the number that write_all returns is the number of bytes behind them.
pub write_all-IsSplit : (rs : List Attempt) (buf : Bytes) → IsSplit buf (write_all rs buf)
unfolding write_all
write_all-IsSplit [] [] = record { unsent = []; splits = refl; counted = λ n h. ground arith }
write_all-IsSplit (r ∷ rs) [] = record { unsent = []; splits = refl; counted = λ n h. ground arith }
write_all-IsSplit [] (b ∷ buf) = record { unsent = b ∷ buf; splits = refl; counted = λ n h. cc }
write_all-IsSplit (again ∷ rs) (b ∷ buf) = write_all-IsSplit rs (b ∷ buf)
write_all-IsSplit (broken ∷ rs) (b ∷ buf) = record {
  unsent = b ∷ buf;
  splits = refl;
  counted = λ n h. ground arith;
}
write_all-IsSplit (moved n ∷ rs) (b ∷ buf) =
    let later = write_all-IsSplit rs (drop n (b ∷ buf)) in
    record {
      unsent = later.unsent;
      splits =
          append_assoc (take n (b ∷ buf)) (write_all rs (drop n (b ∷ buf))).sent later.unsent
          ∙ ap (λ s. take n (b ∷ buf) ++ s) later.splits
          ∙ take-append-drop n (b ∷ buf);
      counted = later.counted;
    }

-- The calls of write() that moved something, where none failed.
abbrev pub progress : List Attempt → ℕ
progress [] = 0
progress (moved zero ∷ rs) = progress rs
progress (moved (suc n) ∷ rs) = suc (progress rs)
progress (again ∷ rs) = progress rs
progress (broken ∷ rs) = 0

length-drop-le : (n : ℕ) (xs : Bytes) → length (drop n xs) ≤ length xs
length-drop-le zero xs = omega arith
length-drop-le (suc n) [] = omega arith
length-drop-le (suc n) (x ∷ xs) = omega (arith, length-drop-le n xs)

-- The loop ends with everything sent once write() has moved something as often as the buffer is
-- long, however often it had to be tried again and however little it moved at a time.
pub write_all_complete :
    (rs : List Attempt) (buf : Bytes)
    → length buf ≤ progress rs
    → write_all rs buf ≡ record { sent = buf; remaining = some 0 }
unfolding write_all
write_all_complete rs [] h = refl
write_all_complete [] (b ∷ buf) h = absurd (omega arith)
write_all_complete (again ∷ rs) (b ∷ buf) h = write_all_complete rs (b ∷ buf) h
write_all_complete (broken ∷ rs) (b ∷ buf) h = absurd (omega arith)
write_all_complete (moved zero ∷ rs) (b ∷ buf) h = write_all_complete rs (b ∷ buf) h
write_all_complete (moved (suc n) ∷ rs) (b ∷ buf) h =
    let later = write_all_complete rs (drop n buf) (omega (arith, length-drop-le n buf)) in
    ap (prepend (b ∷ take n buf)) later
    ∙ ap (λ s. record { sent = b ∷ s; remaining = some 0 }) (take-append-drop n buf)

-- What read() delivers before the first empty result or error.
abbrev pub delivered : List Input → Bytes
delivered [] = []
delivered (retry ∷ rs) = delivered rs
delivered (failure ∷ rs) = []
delivered (got [] ∷ rs) = []
delivered (got (c ∷ cs) ∷ rs) = (c ∷ cs) ++ delivered rs

take-append :
    (n : ℕ) (xs ys : Bytes) → take n (xs ++ ys) ≡ take n xs ++ take (n - length (take n xs)) ys
take-append zero xs ys = refl
take-append (suc n) [] ys = rw sub-zero refl
take-append (suc n) (x ∷ xs) ys =
    ap (◌∷◌ x) (take-append n xs ys ∙ ap (λ m. take n xs ++ take m ys) (omega arith))

-- read_all returns what the peer delivers, cut to the length that was asked for: retries and the
-- sizes of single read() results leave no trace.
pub read_all-take : (rs : List Input) (len : ℕ) → read_all rs len ≡ take len (delivered rs)
unfolding read_all
read_all-take [] zero = refl
read_all-take [] (suc n) = refl
read_all-take (r ∷ rs) zero = refl
read_all-take (retry ∷ rs) (suc n) = read_all-take rs (suc n)
read_all-take (failure ∷ rs) (suc n) = refl
read_all-take (got [] ∷ rs) (suc n) = refl
read_all-take (got (c ∷ cs) ∷ rs) (suc n) =
    ap (λ s. take (suc n) (c ∷ cs) ++ s) (read_all-take rs (suc n - length (take (suc n) (c ∷ cs))))
    ∙ sym (take-append (suc n) (c ∷ cs) (delivered rs))
