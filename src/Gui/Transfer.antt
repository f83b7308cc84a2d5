-- ===== src/Gui/Transfer.antt =====
-- The threads of client/xfer.c that move data: read_all_thr, read_all_to_thr, write_all_from_thr and
-- write_thr. The results of read() and write() are lists, one for each call; a thread that waits for
-- the next result is `waiting`.
pub mod Whole
mod Tests
use zz_ftp.Prelude.{
  ℕ, zero, suc, ◌+◌, ◌%◌, ◌^◌, Option, none, some, List, [], ◌∷◌, ◌++◌, leb, ltb, if◌then◌else◌,
  Bytes, length, take, c_str,
}
use zz_ftp.Io.Transfer.{Attempt, Input, got, retry, failure, Written, write_all}
use zz_ftp.Gui.Marks.{grow}

-- #define READALL_BLOCK_BUF_SIZE 65536: read() is asked for no more.
unfoldable pub block : Bytes → Bytes
block cs = take 65536 cs

-- What read_all_thr hands over; `endless` is the loop of realloc() on a capacity that has wrapped
-- to 0, `outside` an access behind the buffer.
pub data Loaded : Type 0 where
  loaded : Bytes → Loaded
  waiting endless outside : Loaded

-- buf[len] = '\0'
unfoldable pub close_text : Bytes → ℕ → Loaded
close_text text room = if ltb (length text) room then loaded text else outside

-- memcpy(buf + len, block, read_ret)
unfoldable pub append_block : Option ℕ → Bytes → Bytes → (ℕ → Bytes → Loaded) → Loaded
append_block none text cs rest = endless
append_block (some room) text cs rest =
    let later = rest room (text ++ cs) in
    if leb (length text + length cs) room then later else outside

-- while ((read_ret = read(...)) > 0), with `text` the bytes of buf and `room` its capacity.
unfoldable pub load_blocks : List Input → ℕ → Bytes → Loaded
unfolding append_block close_text
load_blocks [] room text = waiting
load_blocks (retry ∷ rs) room text = close_text text room
load_blocks (failure ∷ rs) room text = close_text text room
load_blocks (got [] ∷ rs) room text = close_text text room
load_blocks (got (c ∷ cs) ∷ rs) room text =
    append_block (grow 65 ((length text + length (block (c ∷ cs))) % 2 ^ 64) room) text
      (block (c ∷ cs)) (load_blocks rs)

unfoldable pub read_all_thr : List Input → Loaded
unfolding load_blocks
read_all_thr rs = load_blocks rs 64 []

-- What a thread that moves a file has done: the bytes that it wrote, and the lengths that it queued
-- for the callback, with `none` for the -1 at the end.
pub record Progress : Type 0 where
  pub written : Bytes
  pub reports : List (Option ℕ)

abbrev pub report : Bytes → ℕ → Progress → Progress
report bs len p = record { written = bs ++ p.written; reports = some len ∷ p.reports }

abbrev pub ended : Bytes → Progress
ended bs = record { written = bs; reports = none ∷ [] }

abbrev pub not_yet : Progress
not_yet = record { written = []; reports = [] }

-- One write() for each block: -1, or how many bytes of it were written.
unfoldable pub copy_blocks : List Input → List (Option ℕ) → ℕ → Progress
copy_blocks [] ws len = not_yet
copy_blocks (retry ∷ rs) ws len = ended []
copy_blocks (failure ∷ rs) ws len = ended []
copy_blocks (got [] ∷ rs) ws len = ended []
copy_blocks (got (c ∷ cs) ∷ rs) [] len = not_yet
copy_blocks (got (c ∷ cs) ∷ rs) (none ∷ ws) len = ended []
copy_blocks (got (c ∷ cs) ∷ rs) (some n ∷ ws) len =
    report (take n (block (c ∷ cs))) (len + length (block (c ∷ cs)))
      (copy_blocks rs ws (len + length (block (c ∷ cs))))

unfoldable pub read_all_to_thr : List Input → List (Option ℕ) → Progress
unfolding copy_blocks
read_all_to_thr rs ws = copy_blocks rs ws 0

-- What follows a write_all(): the loop breaks where bytes are left.
unfoldable pub after_write : Written → ℕ → Progress → Progress
after_write w len rest = elim w.remaining [
  | none ↦ record { written = w.sent; reports = [] }
  | some zero ↦ report w.sent len rest
  | some (suc n) ↦ ended w.sent
]

-- The results of write() are listed for each block by itself.
unfoldable pub send_blocks : List Input → List (List Attempt) → ℕ → Progress
unfolding after_write
send_blocks [] ws len = not_yet
send_blocks (retry ∷ rs) ws len = ended []
send_blocks (failure ∷ rs) ws len = ended []
send_blocks (got [] ∷ rs) ws len = ended []
send_blocks (got (c ∷ cs) ∷ rs) [] len = not_yet
send_blocks (got (c ∷ cs) ∷ rs) (w ∷ ws) len =
    after_write (write_all w (block (c ∷ cs))) (len + length (block (c ∷ cs)))
      (send_blocks rs ws (len + length (block (c ∷ cs))))

unfoldable pub write_all_from_thr : List Input → List (List Attempt) → Progress
unfolding send_blocks
write_all_from_thr rs ws = send_blocks rs ws 0

-- write_all(fd, str, strlen(str)); the -1 or 0 for the callback is `remaining`.
unfoldable pub write_thr : List Attempt → Bytes → Written
write_thr ws str = write_all ws (c_str str)
