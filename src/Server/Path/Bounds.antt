-- ===== src/Server/Path/Bounds.antt =====
-- The buffer of path_cat: one byte for each byte of both arguments and two more are enough.
use mathlib.Core.Path.{subst}
use zz_ftp.Prelude.{
  sym, reverse-append, ℕ, ◌+◌, ◌≤◌, ◌<◌, Bool, true, Option, none, some, [], ◌∷◌, ◌++◌, reverse,
  ◌≡◌, ◌≢◌, refl, arith, Bytes, length, length-append, length-reverse, Bool-cases, Option-cases,
  inl, inr,
}
use zz_ftp.Server.Path.{
  go_up, PathResult, fault, strip_item, drop_slash, push_all, append_item, process_item, terminate,
  walk, start_buffer, walk_items, is_absolute, path_cat,
}

-- The buffer begins with a slash, so its reverse ends with one.
abbrev pub Rooted : Bytes → Type 0
Rooted [] = ⊥
Rooted (c ∷ []) = c ≡ b'/'
Rooted (c ∷ d ∷ buf) = Rooted (d ∷ buf)

-- A computed buffer: in bounds, rooted, and at most n bytes long.
abbrev pub Fits : ℕ → Option Bytes → Type 0
Fits n none = ⊥
Fits n (some b) = Rooted b × (length b ≤ n)

abbrev InBounds : PathResult → Type 0
InBounds fault = ⊥
InBounds _ = Unit

Rooted-cons : (c : ℕ) (buf : Bytes) → Rooted buf → Rooted (c ∷ buf)
Rooted-cons c [] h = absurd h
Rooted-cons c (d ∷ buf) h = h

strip_item-Fits : (buf : Bytes) → Rooted buf → Fits (length buf) (strip_item buf)
unfolding strip_item
strip_item-Fits [] h = h
strip_item-Fits (c ∷ []) h = ground arith
strip_item-Fits (c ∷ d ∷ buf) h = ground (arith, strip_item-Fits (d ∷ buf) h)

drop_slash-Fits : (n : ℕ) (buf : Bytes) → Fits n (some buf) → Fits n (some (drop_slash buf))
unfolding drop_slash
drop_slash-Fits n [] h = h
drop_slash-Fits n (c ∷ []) h = h
drop_slash-Fits n (c ∷ d ∷ buf) h = (h.0, omega arith)

push_all-Fits :
    (size : ℕ) (item buf : Bytes)
    → Rooted buf
    → length buf + length item < size
    → Fits (length buf + length item) (push_all size item buf)
unfolding push_all
push_all-Fits size [] buf r h = (r, omega arith)
push_all-Fits size (c ∷ cs) buf r h =
    ground (arith, push_all-Fits size cs (c ∷ buf) (Rooted-cons c buf r))

append_item-Fits :
    (size : ℕ) (item buf : Bytes)
    → Rooted buf
    → length buf + length item + 1 < size
    → Fits (length buf + length item + 1) (append_item size item buf)
unfolding append_item
append_item-Fits size item buf r h =
    ground (arith, push_all-Fits size item buf r, push_all-Fits size (b'/' ∷ item) buf r)

go_up-Fits : (buf : Bytes) → Rooted buf → Fits (length buf) (go_up buf)
unfolding go_up
go_up-Fits buf r = elim (Option-cases (strip_item buf)) [
  | inl e ↦ absurd (rw e at (strip_item-Fits buf r))
  | inr (b, e) ↦
      subst (λ o. Fits (length buf) (elim o [ none ↦ none | some b ↦ some (drop_slash b) ])) (sym e)
        (drop_slash-Fits (length buf) b (rw e at (strip_item-Fits buf r)))
]

pub process_item-Fits :
    (size : ℕ) (item buf : Bytes)
    → Rooted buf
    → length buf + length item + 1 < size
    → Fits (length buf + length item + 1) (process_item size item buf)
unfolding process_item
process_item-Fits size item buf r h = ground (
  arith,
  go_up-Fits buf r,
  append_item-Fits size item buf r h,
  Option-cases (append_item size item buf),
  Option-cases (go_up buf),
)

-- Room for what is pending and for the rest of the path keeps every write in the block.
walk-InBounds :
    (size : ℕ) (buf item todo : Bytes)
    → Rooted buf
    → length buf + length item + length todo + 1 < size
    → InBounds (walk size buf item todo)
unfolding walk terminate
walk-InBounds size buf item [] r h = ground (arith, process_item-Fits size item buf r)
walk-InBounds size buf item (d ∷ ds) r h = elim (Option-cases (process_item size item buf)) [
  | inl e ↦ absurd (rw e at (process_item-Fits size item buf r (omega arith)))
  | inr (b, e) ↦
      let f : Fits (length buf + length item + 1) (some b) =
        rw e at (process_item-Fits size item buf r (omega arith)) in
      ground (
        arith,
        e,
        walk-InBounds size b [] ds f.0,
        walk-InBounds size buf (item ++ d ∷ []) ds r,
        length-append item (d ∷ []),
      )
]

Rooted-concat : (xs : Bytes) (c : ℕ) → c ≡ b'/' → Rooted (xs ++ c ∷ [])
Rooted-concat [] c h = h
Rooted-concat (x ∷ []) c h = h
Rooted-concat (x ∷ y ∷ xs) c h = Rooted-concat (y ∷ xs) c h

Rooted-reverse : (p : Bytes) → is_absolute p ≡ true → Rooted (reverse p)
unfolding is_absolute
Rooted-reverse [] h = cc
Rooted-reverse (c ∷ p) h =
    subst Rooted (sym (reverse-append (c ∷ []) p)) (Rooted-concat (reverse p) c (ground arith))

pub start_buffer-bounds :
    (wd rel : Bytes)
    → is_absolute wd ≡ true
    → (is_absolute (start_buffer wd rel) ≡ true) × (length (start_buffer wd rel) ≤ length wd)
unfolding start_buffer is_absolute
start_buffer-bounds [] rel h = cc
start_buffer-bounds (w ∷ wd) [] h = (refl, omega arith)
start_buffer-bounds (w ∷ wd) (r ∷ rel) h = ground arith

walk_items-InBounds :
    (size : ℕ) (buf rel : Bytes)
    → Rooted buf
    → length buf + length rel + 1 < size
    → InBounds (walk_items size buf rel)
unfolding walk_items terminate
walk_items-InBounds size buf [] r h = ground arith
walk_items-InBounds size buf (c ∷ rel) r h = walk-InBounds size buf [] (c ∷ rel) r (omega arith)

path_cat-InBounds : (malloc : ℕ → Bool) (wd rel : Bytes) → InBounds (path_cat malloc wd rel)
unfolding path_cat
path_cat-InBounds malloc wd rel = elim (Bool-cases (is_absolute wd)) [
  | inr e ↦ rw e tt
  | inl e ↦
      let (rooted, small) = start_buffer-bounds wd rel e in
      let at_size =
        walk_items-InBounds (length wd + length rel + 2) (reverse (start_buffer wd rel)) rel
          (Rooted-reverse (start_buffer wd rel) rooted)
          (omega (arith, length-reverse (start_buffer wd rel))) in
      rw e (ground arith)
]

-- Whatever the arguments, path_cat reads and writes only inside of the block it allocated: the
-- search for the last slash stops in it, and names, slashes and the final NUL fit.
pub path_cat-ne-fault : (malloc : ℕ → Bool) (wd rel : Bytes) → path_cat malloc wd rel ≢ fault
path_cat-ne-fault malloc wd rel e = rw e at (path_cat-InBounds malloc wd rel)
