-- ===== src/Gui/Marks/RoundTrip.antt =====
-- The replies of the server as the client reads them: send_mark of server/io_utils.c and
-- read_mark_thr of client/xfer.c.
use zz_ftp.Prelude.{
  ℕ, zero, suc, ◌+◌, ◌^◌, ◌≤◌, ◌<◌, ◌≡◌, refl, ap, ◌∙◌, arith, Bool, true, false, ◌&&◌, [], ◌∷◌,
  ◌++◌, append_assoc, ◌==◌, if◌then◌else◌, Bytes, length, length-append, Bool-cases, inl, inr,
}
use zz_ftp.Io.Rlb.{Rlb}
use zz_ftp.Io.Rlb.Chars.{drop_cr, Delivers, no_newline}
use zz_ftp.Io.Mark.{mark_line, send_from, send_mark}
use zz_ftp.Gui.Marks.{marked, read_rounds, read_mark}
use zz_ftp.Gui.Marks.Rounds.{
  is_plain, is_plain-append, c_str-plain, drop_cr-append, no_newline-concat, reply_line,
  drop_cr-mark_line, read_round,
}

-- The text of a reply as the callback gets it: every line of it ends in '\n'.
unfoldable pub completed : Bytes → Bytes
completed [] = b'\n' ∷ []
completed (c ∷ []) = if c == b'\n' then b'\n' ∷ [] else c ∷ b'\n' ∷ []
completed (c ∷ d ∷ msg) = c ∷ completed (d ∷ msg)

-- Lines of at most 1019 bytes, of which `n` are left in the first one.
unfoldable pub fits : ℕ → Bytes → Bool
fits n [] = true
fits zero (c ∷ msg) = c == b'\n' && fits 1019 msg
fits (suc n) (c ∷ msg) = if c == b'\n' then fits 1019 msg else fits n msg

-- Between two rounds: `acc` is in the client's buffer, of capacity `room`, and the server's line
-- begins with `text`, to which `msg` is still to be added.
record IsReading (acc text msg : Bytes) (n room : ℕ) : Type 0 where
  plain_acc : is_plain acc ≡ true
  plain_text : is_plain text ≡ true
  plain_msg : is_plain msg ≡ true
  one_line : no_newline text ≡ true
  left : length text + n ≡ 1019
  fitting : fits n msg ≡ true
  total : length acc + (length text + length msg) < 2 ^ 61
  pos : 0 < room
  top : room ≤ 2 ^ 63

newline_plain : (text : Bytes) → is_plain text ≡ true → is_plain (text ++ b'\n' ∷ []) ≡ true
newline_plain text h = is_plain-append text (b'\n' ∷ []) h (unfold is_plain in refl)

module _ (f code : ℕ) (three : code < 1000) (rest : Bytes) {acc text msg : Bytes} {n room : ℕ}
    {b : Rlb} where
  read_last :
      IsReading acc text msg n room
      → Delivers (drop_cr (mark_line code true text) ++ rest) false b
      → (b1 : Rlb) × (read_rounds (suc f) acc room b ≡ marked code (acc ++ (text ++ b'\n' ∷ [])) b1)
        × Delivers rest false b1
  read_last r d =
      let arrives =
        ap (λ s. s ++ rest) (drop_cr-mark_line code true text r.plain_text)
        ∙ append_assoc (reply_line code true text) (b'\n' ∷ []) rest in
      let (b1, room1, e, d1, _, _) =
        read_round f code true text rest acc room b three r.plain_text r.one_line
          (omega (arith, r.left)) (omega (arith, r.total)) r.pos r.top
          (record { text = d.text ∙ arrives; flag = d.flag }) in
      let whole =
        c_str-plain (acc ++ (text ++ b'\n' ∷ [])) (
          is_plain-append acc (text ++ b'\n' ∷ []) r.plain_acc (newline_plain text r.plain_text)) in
      (b1, e ∙ ap (λ s. marked code s b1) whole, d1)

  read_more :
      (more : Bytes)
      → IsReading acc text msg n room
      → Delivers (drop_cr (mark_line code false text ++ more) ++ rest) false b
      → (b1 : Rlb) × (room1 : ℕ) × (read_rounds (suc f) acc room b
          ≡ read_rounds f (acc ++ (text ++ b'\n' ∷ [])) room1 b1)
        × Delivers (drop_cr more ++ rest) false b1
        × (0 < room1)
        × (room1 ≤ 2 ^ 63)
  read_more more r d =
      let arrives =
        ap (λ s. s ++ rest) (drop_cr-append (mark_line code false text) more)
        ∙ ap (λ s. (s ++ drop_cr more) ++ rest) (drop_cr-mark_line code false text r.plain_text)
        ∙ append_assoc (reply_line code false text ++ b'\n' ∷ []) (drop_cr more) rest
        ∙ append_assoc (reply_line code false text) (b'\n' ∷ []) (drop_cr more ++ rest) in
      read_round f code false text (drop_cr more ++ rest) acc room b three r.plain_text r.one_line
        (omega (arith, r.left)) (omega (arith, r.total)) r.pos r.top
        (record { text = d.text ∙ arrives; flag = d.flag })

is_plain-uncons :
    (c : ℕ) (msg : Bytes)
    → is_plain (c ∷ msg) ≡ true
    → (is_plain (c ∷ []) ≡ true) × (is_plain msg ≡ true)
unfolding is_plain
is_plain-uncons c msg h = ground arith

fits-newline : (n : ℕ) (msg : Bytes) → fits n (b'\n' ∷ msg) ≡ true → fits 1019 msg ≡ true
unfolding fits
fits-newline zero msg h = h
fits-newline (suc n) msg h = h

-- A byte of the message that is not '\n' goes to the line.
IsReading-add :
    (c : ℕ) {acc text msg : Bytes} {n room : ℕ}
    → (c == b'\n') ≡ false
    → IsReading acc text (c ∷ msg) n room
    → (m : ℕ) × IsReading acc (text ++ c ∷ []) msg m room
unfolding fits
IsReading-add c {text = text} {n = zero} other r = absurd (ground (arith, r.fitting, other))
IsReading-add c {text = text} {n = suc m} other r = (
  m,
  record {
    plain_acc = r.plain_acc;
    plain_text = is_plain-append text (c ∷ []) r.plain_text (is_plain-uncons c _ r.plain_msg).0;
    plain_msg = (is_plain-uncons c _ r.plain_msg).1;
    one_line = no_newline-concat text c r.one_line other;
    left = omega (arith, r.left, length-append text (c ∷ []));
    fitting = ground (arith, r.fitting);
    total = omega (arith, r.total, length-append text (c ∷ []));
    pos = r.pos;
    top = r.top;
  },
)

-- A '\n' ends the line, which is then in the buffer.
IsReading-newline :
    {acc text msg : Bytes} {n room room1 : ℕ}
    → IsReading acc text (b'\n' ∷ msg) n room
    → 0 < room1
    → room1 ≤ 2 ^ 63
    → IsReading (acc ++ (text ++ b'\n' ∷ [])) [] msg 1019 room1
IsReading-newline {acc} {text} {msg} {n} r pos1 top1 = record {
  plain_acc =
      is_plain-append acc (text ++ b'\n' ∷ []) r.plain_acc (newline_plain text r.plain_text);
  plain_text = unfold is_plain in refl;
  plain_msg = (is_plain-uncons b'\n' msg r.plain_msg).1;
  one_line = unfold no_newline in refl;
  left = refl;
  fitting = fits-newline n msg r.fitting;
  total =
      omega
        (arith, r.total, length-append acc (text ++ b'\n' ∷ []), length-append text (b'\n' ∷ []));
  pos = pos1;
  top = top1;
}

send_from-newline :
    (code : ℕ) (text : Bytes) (c a : ℕ) (msg : Bytes)
    → (c == b'\n') ≡ true
    → send_from code text (c ∷ a ∷ msg) ≡ mark_line code false text ++ send_from code [] (a ∷ msg)
unfolding send_from
send_from-newline code text c a msg h = ground arith

send_from-add :
    (code : ℕ) (text : Bytes) (c a : ℕ) (msg : Bytes)
    → (c == b'\n') ≡ false
    → send_from code text (c ∷ a ∷ msg) ≡ send_from code (text ++ c ∷ []) (a ∷ msg)
unfolding send_from
send_from-add code text c a msg h = ground arith

regroup :
    (acc text : Bytes) (c : ℕ) (more : Bytes)
    → (acc ++ (text ++ c ∷ [])) ++ more ≡ acc ++ (text ++ c ∷ more)
regroup acc text c more =
    append_assoc acc (text ++ c ∷ []) more ∙ ap (λ s. acc ++ s) (append_assoc text (c ∷ []) more)

send_from-read :
    (msg : Bytes) (f code : ℕ) (rest acc text : Bytes) (n room : ℕ) (b : Rlb)
    → code < 1000
    → IsReading acc text msg n room
    → length msg < f
    → Delivers (drop_cr (send_from code text msg) ++ rest) false b
    → (b1 : Rlb) × (read_rounds f acc room b ≡ marked code (acc ++ (text ++ completed msg)) b1)
      × Delivers rest false b1
unfolding send_from completed
send_from-read msg zero code rest acc text n room b three r enough d = absurd (omega arith)
send_from-read [] (suc f) code rest acc text n room b three r enough d =
    read_last f code three rest r d
send_from-read (c ∷ []) (suc f) code rest acc text n room b three r enough d =
    elim (Bool-cases (c == b'\n')) [
      | inl newline ↦ rw newline (read_last f code three rest r (rw newline at d))
      | inr other ↦
          let (m, r1) = IsReading-add c other r in
          let (b1, e, d1) = read_last f code three rest r1 (rw other at d) in
          (
            b1,
            rw other
                (e ∙ ap (λ s. marked code (acc ++ s) b1) (append_assoc text (c ∷ []) (b'\n' ∷ []))),
            d1,
          )
    ]
send_from-read (c ∷ a ∷ msg) (suc f) code rest acc text n room b three r enough d =
    elim (Bool-cases (c == b'\n')) [
      | inl newline ↦
          let is_newline : b'\n' ≡ c = ground arith in
          let (b1, room1, e1, d1, pos1, top1) =
            read_more f code three rest (send_from code [] (a ∷ msg)) r
              (rw (send_from-newline code text c a msg newline) at d) in
          let (b2, e2, d2) =
            send_from-read (a ∷ msg) f code rest (acc ++ (text ++ b'\n' ∷ [])) [] 1019 room1 b1
              three (IsReading-newline (rw (← is_newline) at r) pos1 top1) (omega arith) d1 in
          (
            b2,
            rw (← is_newline) (
                e1
                ∙ e2
                ∙ ap (λ s. marked code s b2) (regroup acc text b'\n' (completed (a ∷ msg)))),
            d2,
          )
      | inr other ↦
          let (m, r1) = IsReading-add c other r in
          let (b1, e, d1) =
            send_from-read (a ∷ msg) (suc f) code rest acc (text ++ c ∷ []) m room b three r1
              (omega arith) (rw (send_from-add code text c a msg other) at d) in
          (
            b1,
            e
                ∙ ap (λ s. marked code (acc ++ s) b1)
                    (append_assoc text (c ∷ []) (completed (a ∷ msg))),
            d1,
          )
    ]

-- A reply that the server sends, of lines of at most 1019 bytes with no NUL or '\r', is read by the
-- client as the same code and the same text with '\n' behind every line, however read() cuts the
-- data up, and what follows on the connection is left for the next reply. Rounds for every byte of
-- the text are enough.
pub send_mark-read_mark :
    (code : ℕ) (msg rest : Bytes) (rounds : ℕ) (b : Rlb)
    → code < 1000
    → is_plain msg ≡ true
    → fits 1019 msg ≡ true
    → length msg < 2 ^ 61
    → length msg < rounds
    → Delivers (drop_cr (send_mark code msg) ++ rest) false b
    → (b1 : Rlb) × (read_mark rounds b ≡ marked code (completed msg) b1) × Delivers rest false b1
unfolding send_mark read_mark
send_mark-read_mark code msg rest rounds b three plain fitting total enough d =
    send_from-read msg rounds code rest [] [] 1019 64 b three
      (record {
        plain_acc = unfold is_plain in refl;
        plain_text = unfold is_plain in refl;
        plain_msg = plain;
        one_line = unfold no_newline in refl;
        left = refl;
        fitting = fitting;
        total = omega arith;
        pos = omega arith;
        top = omega arith;
      })
      enough d
