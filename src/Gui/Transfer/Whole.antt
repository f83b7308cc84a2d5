-- ===== src/Gui/Transfer/Whole.antt =====
-- What the threads move is what was to be moved.
use zz_ftp.Prelude.{
  ℕ, zero, suc, ◌+◌, ◌*◌, ◌%◌, ◌^◌, ◌≤◌, ◌<◌, ◌≡◌, ◌∙◌, refl, sym, ap, arith, true, Option, none,
  some, List, [], ◌∷◌, ◌++◌, append_assoc, append-nil, leb, if◌then◌else◌, Bytes, length,
  length-append, take, take-le,
}
use zz_ftp.Io.Transfer.{
  Attempt, Input, got, retry, failure, write_all, write_all_complete, progress,
}
use zz_ftp.Gui.Marks.{grow}
use zz_ftp.Gui.Marks.Rounds.{grow_enough}
use zz_ftp.Gui.Transfer.{
  block, Loaded, loaded, outside, close_text, append_block, load_blocks, read_all_thr, report,
  copy_blocks, read_all_to_thr, after_write, send_blocks, write_all_from_thr,
}

-- The results of read() reach an end, and `blocks` are the bytes before it.
pub data Ends : List Input → List Bytes → Type 0 where
  tried : (rs : List Input) → Ends (retry ∷ rs) []
  failed : (rs : List Input) → Ends (failure ∷ rs) []
  empty : (rs : List Input) → Ends (got [] ∷ rs) []
  more :
      (c : ℕ) (cs : Bytes) (rs : List Input) (blocks : List Bytes)
      → length (c ∷ cs) ≤ 65536
      → Ends rs blocks
      → Ends (got (c ∷ cs) ∷ rs) ((c ∷ cs) ∷ blocks)

abbrev pub all_of : List Bytes → Bytes
all_of [] = []
all_of (b ∷ blocks) = b ++ all_of blocks

grow_lt : (f needed room room1 : ℕ) → grow f needed room ≡ some room1 → needed < room1
unfolding grow
grow_lt zero needed room room1 e = cc
grow_lt (suc f) needed room room1 e =
    let k = grow_lt f needed (room * 2 % 2 ^ 64) room1 in ground arith

-- lengths after each block
abbrev pub sums : ℕ → List Bytes → List (Option ℕ)
sums len [] = none ∷ []
sums len (b ∷ blocks) = some (len + length b) ∷ sums (len + length b) blocks

-- Every write() writes its whole block.
pub data IsWhole : List Bytes → List (Option ℕ) → Type 0 where
  no_more : (ws : List (Option ℕ)) → IsWhole [] ws
  one_more :
      (b : Bytes) (blocks : List Bytes) (ws : List (Option ℕ))
      → IsWhole blocks ws
      → IsWhole (b ∷ blocks) (some (length b) ∷ ws)

block_le : (c : ℕ) (cs : Bytes) → length (c ∷ cs) ≤ 65536 → block (c ∷ cs) ≡ c ∷ cs
unfolding block
block_le c cs h = take-le 65536 (c ∷ cs) h

copy_blocks_complete :
    (rs : List Input) (blocks : List Bytes) (ws : List (Option ℕ)) (len : ℕ)
    → Ends rs blocks
    → IsWhole blocks ws
    → copy_blocks rs ws len ≡ record { written = all_of blocks; reports = sums len blocks }
unfolding copy_blocks
copy_blocks_complete rs blocks ws len (tried rs1) w = refl
copy_blocks_complete rs blocks ws len (failed rs1) w = refl
copy_blocks_complete rs blocks ws len (empty rs1) w = refl
copy_blocks_complete rs blocks ws len (more c cs rs1 blocks1 l e) (one_more b bs ws1 w) =
    ap
      (λ x.
        report (take (length (c ∷ cs)) x) (len + length x) (copy_blocks rs1 ws1 (len + length x)))
      (block_le c cs l)
    ∙ ap (λ x. report x (len + length (c ∷ cs)) (copy_blocks rs1 ws1 (len + length (c ∷ cs))))
        (take-le (length (c ∷ cs)) (c ∷ cs) (omega arith))
    ∙ ap (report (c ∷ cs) (len + length (c ∷ cs)))
        (copy_blocks_complete rs1 blocks1 ws1 (len + length (c ∷ cs)) e w)

-- Each block is sent by a write_all() with as many results as it needs.
pub data IsSent : List Bytes → List (List Attempt) → Type 0 where
  none_left : (ws : List (List Attempt)) → IsSent [] ws
  one_sent :
      (b : Bytes) (blocks : List Bytes) (w : List Attempt) (ws : List (List Attempt))
      → length b ≤ progress w
      → IsSent blocks ws
      → IsSent (b ∷ blocks) (w ∷ ws)

send_blocks_complete :
    (rs : List Input) (blocks : List Bytes) (ws : List (List Attempt)) (len : ℕ)
    → Ends rs blocks
    → IsSent blocks ws
    → send_blocks rs ws len ≡ record { written = all_of blocks; reports = sums len blocks }
unfolding send_blocks after_write
send_blocks_complete rs blocks ws len (tried rs1) w = refl
send_blocks_complete rs blocks ws len (failed rs1) w = refl
send_blocks_complete rs blocks ws len (empty rs1) w = refl
send_blocks_complete rs blocks ws len (more c cs rs1 blocks1 l e) (one_sent b bs w ws1 p s) =
    ap (λ x. after_write (write_all w x) (len + length x) (send_blocks rs1 ws1 (len + length x)))
      (block_le c cs l)
    ∙ ap (λ x. after_write x (len + length (c ∷ cs)) (send_blocks rs1 ws1 (len + length (c ∷ cs))))
        (write_all_complete w (c ∷ cs) p)
    ∙ ap (report (c ∷ cs) (len + length (c ∷ cs)))
        (send_blocks_complete rs1 blocks1 ws1 (len + length (c ∷ cs)) e s)

-- Where the results of read() come to an end and every write() writes its whole block, the file is
-- what was read, the callback hears of each block with the length so far, and of the end once, last.
pub read_all_to_thr_complete :
    (rs : List Input) (blocks : List Bytes) (ws : List (Option ℕ))
    → Ends rs blocks
    → IsWhole blocks ws
    → read_all_to_thr rs ws ≡ record { written = all_of blocks; reports = sums 0 blocks }
unfolding read_all_to_thr
read_all_to_thr_complete rs blocks ws e w = copy_blocks_complete rs blocks ws 0 e w

-- Where the file comes to an end and write() moves something as often as each block is long,
-- however little at a time, what was sent is the file, the callback hears of each block with the
-- length so far, and of the end once, last.
pub write_all_from_thr_complete :
    (rs : List Input) (blocks : List Bytes) (ws : List (List Attempt))
    → Ends rs blocks
    → IsSent blocks ws
    → write_all_from_thr rs ws ≡ record { written = all_of blocks; reports = sums 0 blocks }
unfolding write_all_from_thr
write_all_from_thr_complete rs blocks ws e s = send_blocks_complete rs blocks ws 0 e s

-- The buffer of read_all_thr.
close_text_fits :
    (text : Bytes) (room : ℕ) → length text < room → close_text text room ≡ loaded text
unfolding close_text
close_text_fits text room h = ground arith

leb-true : (a b : ℕ) → a < b → leb a b ≡ true
leb-true a b h = ground arith

append_block_fits :
    (room : ℕ) (text cs : Bytes) (rest : ℕ → Bytes → Loaded)
    → length text + length cs < room
    → append_block (some room) text cs rest ≡ rest room (text ++ cs)
unfolding append_block
append_block_fits room text cs rest h =
    ap (λ b. if b then rest room (text ++ cs) else outside) (leb-true _ _ h)

-- The block has room for one more.
grown :
    (text cs : Bytes) (room : ℕ)
    → length text < room
    → room ≤ 2 ^ 63
    → length text + length cs < 2 ^ 62
    → (room1 : ℕ) × ((grow 65 ((length text + length cs) % 2 ^ 64) room ≡ some room1)
        × ((length text + length cs < room1) × (room1 ≤ 2 ^ 63)))
grown text cs room h top n =
    let small : (length text + length cs) % 2 ^ 64 ≡ length text + length cs = ground arith in
    let (room1, g, pos1, top1) =
      grow_enough 64 (length text + length cs) room (omega arith) top n (omega arith) in
    (
      room1,
      (
        ap (λ x. grow 65 x room) small ∙ g,
        (grow_lt 65 (length text + length cs) room room1 g, top1),
      ),
    )

load_blocks_complete :
    (rs : List Input) (blocks : List Bytes) (text : Bytes) (room : ℕ)
    → Ends rs blocks
    → length text < room
    → room ≤ 2 ^ 63
    → length text + length (all_of blocks) < 2 ^ 62
    → load_blocks rs room text ≡ loaded (text ++ all_of blocks)
unfolding load_blocks
load_blocks_complete rs blocks text room (tried rs1) h top n =
    close_text_fits text room h ∙ ap loaded (sym (append-nil text))
load_blocks_complete rs blocks text room (failed rs1) h top n =
    close_text_fits text room h ∙ ap loaded (sym (append-nil text))
load_blocks_complete rs blocks text room (empty rs1) h top n =
    close_text_fits text room h ∙ ap loaded (sym (append-nil text))
load_blocks_complete rs blocks text room (more c cs rs1 blocks1 l e) h top n =
    let size = length-append (c ∷ cs) (all_of blocks1) in
    let size1 = length-append text (c ∷ cs) in
    let (room1, (g, (fits, top1))) = grown text (c ∷ cs) room h top (omega arith) in
    ap
      (λ x.
        append_block (grow 65 ((length text + length x) % 2 ^ 64) room) text x (load_blocks rs1))
      (block_le c cs l)
    ∙ ap (λ o. append_block o text (c ∷ cs) (load_blocks rs1)) g
    ∙ append_block_fits room1 text (c ∷ cs) (load_blocks rs1) fits
    ∙ load_blocks_complete rs1 blocks1 (text ++ (c ∷ cs)) room1 e (omega arith) top1 (omega arith)
    ∙ ap loaded (append_assoc text (c ∷ cs) (all_of blocks1))

-- Where the results of read() come to an end with fewer than 2 ^ 62 bytes before it, the callback
-- of read_all_thr gets exactly these, and no access is outside of the buffer.
pub read_all_thr_complete :
    (rs : List Input) (blocks : List Bytes)
    → Ends rs blocks
    → length (all_of blocks) < 2 ^ 62
    → read_all_thr rs ≡ loaded (all_of blocks)
unfolding read_all_thr
read_all_thr_complete rs blocks e n =
    load_blocks_complete rs blocks [] 64 e (omega arith) (omega arith) (omega arith)
