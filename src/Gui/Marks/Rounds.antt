-- ===== src/Gui/Marks/Rounds.antt =====
-- One round of read_mark_thr of client/xfer.c over a line that send_mark of server/io_utils.c sent.
use zz_ftp.Prelude.{
  ℕ, zero, suc, ◌+◌, ◌-◌, ◌*◌, ◌%◌, ◌^◌, ◌≤◌, ◌<◌, ◌≡◌, refl, sym, ap, ◌∙◌, arith, Bool, true,
  false, ◌||◌, Option, some, [], ◌∷◌, ◌++◌, append_assoc, ◌==◌, leb, lt→ltb, if◌then◌else◌, Bytes,
  length, drop, c_str, Bool-cases, inl, inr,
}
use zz_ftp.Text.{is_digit}
use zz_ftp.Io.Rlb.{Rlb, line}
use zz_ftp.Io.Rlb.Chars.{drop_cr, Delivers, no_newline}
use zz_ftp.Io.Rlb.Lines.{line_of, read_line-terminated}
use zz_ftp.Io.Mark.{code_digits, mark_line}
use zz_ftp.Gui.Marks.{
  grow, ends_mark, mark_code, filled, Stored, stored, complete, store_in, store, store_line, Mark,
  marked, after_line, read_rounds,
}

-- The capacity that f doublings give.
abbrev scaled : ℕ → ℕ → ℕ
scaled zero room = room
scaled (suc f) room = scaled f (room * 2)

grow_doubled :
    (f needed room : ℕ) (o : Option ℕ)
    → leb room needed ≡ true
    → room * 2 % 2 ^ 64 ≡ room * 2
    → grow f needed (room * 2) ≡ o
    → grow (suc f) needed room ≡ o
unfolding grow
grow_doubled f needed room o short doubled e = rw (short, doubled) e

grow_kept : (f needed room : ℕ) → leb room needed ≡ false → grow (suc f) needed room ≡ some room
unfolding grow
grow_kept f needed room enough = rw enough refl

-- Enough rounds are given for every text below 2 ^ 62 bytes.
pub grow_enough :
    (f needed room : ℕ)
    → 0 < room
    → room ≤ 2 ^ 63
    → needed < 2 ^ 62
    → needed < scaled f room
    → (room1 : ℕ) × (grow (suc f) needed room ≡ some room1) × (0 < room1) × (room1 ≤ 2 ^ 63)
grow_enough zero needed room pos top small h =
    (room, grow_kept 0 needed room (ground arith), pos, top)
grow_enough (suc f) needed room pos top small h = elim (Bool-cases (leb room needed)) [
  | inr enough ↦ (room, grow_kept (suc f) needed room enough, pos, top)
  | inl short ↦
      let doubled : room * 2 % 2 ^ 64 ≡ room * 2 = ground arith in
      let (room1, e, pos1, top1) =
        grow_enough f needed (room * 2) (omega arith) (ground arith) small h in
      (room1, grow_doubled (suc f) needed room (some room1) short doubled e, pos1, top1)
]

-- The bytes of a reply's text: no NUL, and no '\r', which the reader drops.
unfoldable pub is_plain : Bytes → Bool
is_plain [] = true
is_plain (c ∷ cs) = if c == 0 || c == b'\r' then false else is_plain cs

pub is_plain-append :
    (s t : Bytes) → is_plain s ≡ true → is_plain t ≡ true → is_plain (s ++ t) ≡ true
unfolding is_plain
is_plain-append [] t h k = k
is_plain-append (c ∷ s) t h k = ground (arith, is_plain-append s t)

pub c_str-plain : (s : Bytes) → is_plain s ≡ true → c_str s ≡ s
unfolding c_str is_plain
c_str-plain [] h = refl
c_str-plain (c ∷ s) h = ground (arith, c_str-plain s)

drop_cr-plain : (s : Bytes) → is_plain s ≡ true → drop_cr s ≡ s
unfolding drop_cr is_plain
drop_cr-plain [] h = refl
drop_cr-plain (c ∷ s) h = ground (arith, drop_cr-plain s)

pub drop_cr-append : (s t : Bytes) → drop_cr (s ++ t) ≡ drop_cr s ++ drop_cr t
unfolding drop_cr
drop_cr-append [] t = refl
drop_cr-append (c ∷ s) t = ground (arith, drop_cr-append s t)

pub no_newline-concat :
    (s : Bytes) (c : ℕ)
    → no_newline s ≡ true
    → (c == b'\n') ≡ false
    → no_newline (s ++ c ∷ []) ≡ true
unfolding no_newline
no_newline-concat [] c h k = rw k refl
no_newline-concat (d ∷ s) c h k = ground (arith, no_newline-concat s c)

filled-all : (s : Bytes) → filled (length s) s ≡ s
unfolding filled
filled-all [] = refl
filled-all (c ∷ s) = ap (◌∷◌ c) (filled-all s)

-- A line of a reply without its line end.
abbrev pub reply_line : ℕ → Bool → Bytes → Bytes
reply_line code last text = code_digits code ++ (if last then b' ' else b'-') ∷ text

sep_plain :
    (last : Bool) (text : Bytes)
    → is_plain text ≡ true
    → is_plain ((if last then b' ' else b'-') ∷ text) ≡ true
unfolding is_plain
sep_plain true text h = ground arith
sep_plain false text h = ground arith

reply_line-plain :
    (code : ℕ) (last : Bool) (text : Bytes)
    → is_plain text ≡ true
    → is_plain (reply_line code last text) ≡ true
unfolding code_digits
reply_line-plain code last text h =
    is_plain-append (code_digits code) _ (unfold is_plain in ground arith) (sep_plain last text h)

sep_no_newline :
    (last : Bool) (text : Bytes)
    → no_newline text ≡ true
    → no_newline ((if last then b' ' else b'-') ∷ text) ≡ true
unfolding no_newline
sep_no_newline true text h = ground arith
sep_no_newline false text h = ground arith

reply_line-no_newline :
    (code : ℕ) (last : Bool) (text : Bytes)
    → no_newline text ≡ true
    → no_newline (reply_line code last text) ≡ true
unfolding code_digits no_newline
reply_line-no_newline code last text h = ground (arith, sep_no_newline last text h)

pub drop_cr-mark_line :
    (code : ℕ) (last : Bool) (text : Bytes)
    → is_plain text ≡ true
    → drop_cr (mark_line code last text) ≡ reply_line code last text ++ b'\n' ∷ []
unfolding mark_line
drop_cr-mark_line code last text h =
    ap drop_cr (
      sym (
        append_assoc (code_digits code) ((if last then b' ' else b'-') ∷ text)
          (b'\r' ∷ b'\n' ∷ [])))
    ∙ drop_cr-append (reply_line code last text) (b'\r' ∷ b'\n' ∷ [])
    ∙ ap (λ s. s ++ drop_cr (b'\r' ∷ b'\n' ∷ []))
        (drop_cr-plain _ (reply_line-plain code last text h))
    ∙ ap (λ s. reply_line code last text ++ s) (unfold drop_cr in refl)

mark_code-digits :
    (code : ℕ) (last : Bool) (text : Bytes)
    → code < 1000
    → mark_code (reply_line code last text) ≡ code
unfolding mark_code code_digits
mark_code-digits code last text h = omega arith

ends_mark-last :
    (code : ℕ) (last : Bool) (text : Bytes) → ends_mark (reply_line code last text) ≡ last
unfolding ends_mark code_digits is_digit
ends_mark-last code true text = ground arith
ends_mark-last code false text = ground arith

length-reply_line :
    (code : ℕ) (last : Bool) (text : Bytes) → length (reply_line code last text) ≡ length text + 4
unfolding code_digits
length-reply_line code last text = omega arith

drop-reply_line :
    (code : ℕ) (last : Bool) (text : Bytes) → drop 4 (reply_line code last text) ≡ text
unfolding code_digits
drop-reply_line code last text = refl

line_of-reply :
    (code : ℕ) (last : Bool) (text : Bytes)
    → length text < 1020
    → line_of 1024 (reply_line code last text) ≡ line (reply_line code last text)
line_of-reply code last text short =
    let fits : length (reply_line code last text) < 1024 =
      omega (arith, length-reply_line code last text) in
    rw (lt→ltb (length (reply_line code last text)) 1024 fits) refl

-- What one line of a reply comes to.
abbrev reply_stored : ℕ → Bool → Bytes → ℕ → Stored
reply_stored code true text room = complete code (c_str text)
reply_stored code false text room = stored text room

if_stored :
    (last : Bool) (code : ℕ) (text : Bytes) (room : ℕ)
    → (if last then complete code (c_str text) else stored text room)
      ≡ reply_stored code last text room
if_stored true code text room = refl
if_stored false code text room = refl

after_reply :
    (last : Bool) (code : ℕ) (text : Bytes) (room old : ℕ) (acc : Bytes) (b : Rlb)
    (rounds : Bytes → ℕ → Mark)
    → after_line (reply_stored code last text room) acc old b rounds
      ≡ (if last then marked code (c_str text) b else rounds text room)
unfolding after_line
after_reply true code text room old acc b rounds = refl
after_reply false code text room old acc b rounds = refl

store_grown :
    (code : ℕ) (last : Bool) (text acc : Bytes) (room room1 : ℕ)
    → code < 1000
    → is_plain text ≡ true
    → length text < 1020
    → length acc < 2 ^ 61
    → grow 65 (length acc + length text + 1) room ≡ some room1
    → store_line (line (reply_line code last text)) acc room
      ≡ reply_stored code last (acc ++ (text ++ b'\n' ∷ [])) room1
unfolding store_line store store_in
store_grown code last text acc room room1 three plain short total g =
    let four : leb 4 (length text + 4) ≡ true = ground arith in
    let back : length text + 4 - 4 ≡ length text = omega arith in
    let needed : (length acc + (length text + 4) - 3) % 2 ^ 64 ≡ length acc + length text + 1 =
      ground arith in
    rw
      (
        length-reply_line code last text,
        four,
        back,
        drop-reply_line code last text,
        c_str-plain text plain,
        needed,
        g,
        filled-all text,
        ends_mark-last code last text,
        mark_code-digits code last text three,
      )
      (if_stored last code (acc ++ (text ++ b'\n' ∷ [])) room1)

store_reply :
    (code : ℕ) (last : Bool) (text acc : Bytes) (room : ℕ)
    → code < 1000
    → is_plain text ≡ true
    → length text < 1020
    → length acc < 2 ^ 61
    → 0 < room
    → room ≤ 2 ^ 63
    → (room1 : ℕ) × (store_line (line (reply_line code last text)) acc room
        ≡ reply_stored code last (acc ++ (text ++ b'\n' ∷ [])) room1)
      × (0 < room1)
      × (room1 ≤ 2 ^ 63)
store_reply code last text acc room three plain short total pos top =
    let (room1, g, pos1, top1) =
      grow_enough 64 (length acc + length text + 1) room pos top (omega arith) (omega arith) in
    (room1, store_grown code last text acc room room1 three plain short total g, pos1, top1)

-- One round over a line that the server has sent.
pub read_round :
    (f code : ℕ) (last : Bool) (text rest acc : Bytes) (room : ℕ) (b : Rlb)
    → code < 1000
    → is_plain text ≡ true
    → no_newline text ≡ true
    → length text < 1020
    → length acc < 2 ^ 61
    → 0 < room
    → room ≤ 2 ^ 63
    → Delivers (reply_line code last text ++ b'\n' ∷ rest) false b
    → (b1 : Rlb) × (room1 : ℕ) × (read_rounds (suc f) acc room b ≡ (
        if last
        then marked code (c_str (acc ++ (text ++ b'\n' ∷ []))) b1
        else read_rounds f (acc ++ (text ++ b'\n' ∷ [])) room1 b1))
      × Delivers rest false b1
      × (0 < room1)
      × (room1 ≤ 2 ^ 63)
unfolding read_rounds
read_round f code last text rest acc room b three plain nl short total pos top d =
    let l = reply_line code last text in
    let (b1, e, d1) =
      read_line-terminated 1024 l rest b (omega arith) (reply_line-no_newline code last text nl)
        d in
    let (room1, g, pos1, top1) =
      store_reply code last text acc room three plain short total pos top in
    (
      b1,
      room1,
      rw (e, line_of-reply code last text short, g) (after_reply last code _ room1 room acc b1 _),
      d1,
      pos1,
      top1,
    )
