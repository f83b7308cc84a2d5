-- ===== src/Server/Path/Refines.antt =====
-- path_cat refines `resolve`: the byte loop over a buffer against a stack of names.
use zz_ftp.Prelude.{
  equal, ℕ, ◌+◌, ◌≤◌, ◌<◌, Bool, true, false, some, [], ◌∷◌, ◌++◌, reverse, ◌≡◌, refl, arith,
  if◌then◌else◌, Bytes, length, length-append, length-reverse, lt→ltb, All, ◌&&◌, ap, sym, ◌∙◌,
  append_assoc, append-nil, reverse-append, reverse-reverse,
}
use zz_ftp.Server.Path.{
  PathResult, null, path, is_here, is_up, strip_item, drop_slash, go_up, push_all, append_item,
  process_item, terminate, walk, start_buffer, walk_items, is_absolute, is_path_char, path_cat,
}
use zz_ftp.Server.Path.Resolve.{
  stays, leaves, Dirs, render, render_names, push_head, split, parent, enter, resolve, start, valid,
  is_name, IsName,
}
use zz_ftp.Server.Path.Bounds.{Rooted, Fits, start_buffer-bounds, process_item-Fits}

-- The buffer that holds a stack, the last byte first.
rev_names : Dirs → Bytes
rev_names [] = []
rev_names (d ∷ ds) = reverse d ++ b'/' ∷ rev_names ds

buffer_of : Dirs → Bytes
unfolding rev_names
buffer_of [] = b'/' ∷ []
buffer_of (d ∷ ds) = rev_names (d ∷ ds)

reverse-render_names : (ds : Dirs) → reverse (render_names ds) ≡ rev_names ds
unfolding render_names rev_names
reverse-render_names [] = refl
reverse-render_names (d ∷ ds) =
    reverse-append (render_names ds) (b'/' ∷ d)
    ∙ rw (reverse-append (b'/' ∷ []) d, reverse-render_names ds)
        (append_assoc (reverse d) (b'/' ∷ []) (rev_names ds))

reverse-render : (ds : Dirs) → reverse (render ds) ≡ buffer_of ds
unfolding render buffer_of
reverse-render [] = refl
reverse-render (d ∷ ds) = reverse-render_names (d ∷ ds)

reverse-buffer_of : (ds : Dirs) → reverse (buffer_of ds) ≡ render ds
reverse-buffer_of ds = ap reverse (sym (reverse-render ds)) ∙ reverse-reverse (render ds)

is_name-append : (a b : Bytes) → is_name a ≡ true → is_name b ≡ true → is_name (a ++ b) ≡ true
unfolding is_name
is_name-append [] b h k = k
is_name-append (c ∷ a) b h k = ground (arith, is_name-append a b)

is_name-reverse : (a : Bytes) → is_name a ≡ true → is_name (reverse a) ≡ true
unfolding is_name
is_name-reverse [] h = refl
is_name-reverse (c ∷ a) h =
    rw (reverse-append (c ∷ []) a)
      (is_name-append (reverse a) (c ∷ []) (is_name-reverse a (ground arith)) (ground arith))

strip_item-append :
    (a buf : Bytes) → is_name a ≡ true → strip_item (a ++ b'/' ∷ buf) ≡ some (b'/' ∷ buf)
unfolding strip_item is_name is_path_char
strip_item-append [] buf h = refl
strip_item-append (c ∷ a) buf h = ground (arith, strip_item-append a buf)

drop_slash-append : (c d : ℕ) (a buf : Bytes) → drop_slash (c ∷ (a ++ d ∷ buf)) ≡ a ++ d ∷ buf
unfolding drop_slash
drop_slash-append c d [] buf = refl
drop_slash-append c d (x ∷ a) buf = refl

go_up-append :
    (a buf : Bytes) → is_name a ≡ true → go_up (a ++ b'/' ∷ buf) ≡ some (drop_slash (b'/' ∷ buf))
unfolding go_up
go_up-append a buf h = ground (arith, strip_item-append a buf h)

go_up-buffer_of : (ds : Dirs) → All IsName ds → go_up (buffer_of ds) ≡ some (buffer_of (parent ds))
unfolding buffer_of drop_slash
go_up-buffer_of [] h = unfold go_up strip_item in refl
go_up-buffer_of (d ∷ []) h = go_up-append (reverse d) [] (is_name-reverse d h.0.chars)
go_up-buffer_of (d ∷ e ∷ ds) h =
    go_up-append (reverse d) (rev_names (e ∷ ds)) (is_name-reverse d h.0.chars)
    ∙ ap some (drop_slash-append b'/' b'/' (reverse e) (rev_names ds))

push_all-reverse :
    (size : ℕ) (item buf : Bytes)
    → length buf + length item ≤ size
    → push_all size item buf ≡ some (reverse item ++ buf)
unfolding push_all
push_all-reverse size [] buf h = refl
push_all-reverse size (c ∷ cs) buf h =
    rw
      (
        lt→ltb (length buf) size (omega arith),
        push_all-reverse size cs (c ∷ buf) (omega arith),
        reverse-append (c ∷ []) cs,
      )
      (ap some (sym (append_assoc (reverse cs) (c ∷ []) buf)))

length-rev_names : (d : Bytes) (ds : Dirs) → stays d ≡ false → 1 < length (rev_names (d ∷ ds))
unfolding rev_names stays equal
length-rev_names [] ds h = cc
length-rev_names (c ∷ d) ds h =
    omega (arith, length-append (reverse (c ∷ d)) (b'/' ∷ rev_names ds), length-reverse (c ∷ d))

append_item-buffer_of :
    (size : ℕ) (item : Bytes) (ds : Dirs)
    → All IsName ds
    → length (buffer_of ds) + length item + 1 < size
    → append_item size item (buffer_of ds) ≡ some (buffer_of (item ∷ ds))
unfolding append_item buffer_of
append_item-buffer_of size item [] h room = push_all-reverse size item (b'/' ∷ []) (omega arith)
append_item-buffer_of size item (d ∷ ds) h room =
    let long = length-rev_names d ds h.0.not_here in
    rw (lt→ltb 1 (length (rev_names (d ∷ ds))) long) (
      push_all-reverse size (b'/' ∷ item) (rev_names (d ∷ ds)) (omega arith)
      ∙ rw (reverse-append (b'/' ∷ []) item)
          (ap some (append_assoc (reverse item) (b'/' ∷ []) (rev_names (d ∷ ds)))))

is_here-stays : (item : Bytes) → is_here item ≡ stays item
unfolding is_here stays equal
is_here-stays [] = refl
is_here-stays (c ∷ []) = ground arith
is_here-stays (c ∷ d ∷ item) = ground arith

is_up-leaves : (item : Bytes) → is_up item ≡ leaves item
unfolding is_up leaves equal
is_up-leaves [] = refl
is_up-leaves (c ∷ []) = ground arith
is_up-leaves (c ∷ d ∷ []) = ground arith
is_up-leaves (c ∷ d ∷ e ∷ item) = ground arith

process_item-buffer_of :
    (size : ℕ) (item : Bytes) (ds : Dirs)
    → All IsName ds
    → length (buffer_of ds) + length item + 1 < size
    → process_item size item (buffer_of ds) ≡ some (buffer_of (enter ds item))
unfolding process_item
process_item-buffer_of size item ds h room = ground (
  arith,
  go_up-buffer_of ds h,
  append_item-buffer_of size item ds h room,
  is_here-stays item,
  is_up-leaves item,
)

All-parent : (ds : Dirs) → All IsName ds → All IsName (parent ds)
All-parent [] h = h
All-parent (d ∷ ds) h = h.1

-- One step of the specification keeps a stack of names.
pub enter-IsName :
    (ds : Dirs) (item : Bytes) → All IsName ds → is_name item ≡ true → All IsName (enter ds item)
enter-IsName ds item h k = ground (arith, All-parent ds h)

Rooted-append : (a buf : Bytes) → Rooted buf → Rooted (a ++ buf)
Rooted-append [] buf h = h
Rooted-append (c ∷ []) (d ∷ buf) h = h
Rooted-append (c ∷ []) [] h = absurd h
Rooted-append (c ∷ d ∷ a) buf h = Rooted-append (d ∷ a) buf h

Rooted-rev_names : (d : Bytes) (ds : Dirs) → Rooted (rev_names (d ∷ ds))
unfolding rev_names
Rooted-rev_names d [] = Rooted-append (reverse d) (b'/' ∷ []) refl
Rooted-rev_names d (e ∷ ds) =
    Rooted-append (reverse d) (b'/' ∷ rev_names (e ∷ ds))
      (Rooted-append (b'/' ∷ []) (rev_names (e ∷ ds)) (Rooted-rev_names e ds))

Rooted-buffer_of : (ds : Dirs) → Rooted (buffer_of ds)
unfolding buffer_of
Rooted-buffer_of [] = refl
Rooted-buffer_of (d ∷ ds) = Rooted-rev_names d ds

length-enter :
    (size : ℕ) (item : Bytes) (ds : Dirs)
    → All IsName ds
    → length (buffer_of ds) + length item + 1 < size
    → length (buffer_of (enter ds item)) ≤ length (buffer_of ds) + length item + 1
length-enter size item ds h room =
    let f : Fits (length (buffer_of ds) + length item + 1) (some (buffer_of (enter ds item))) =
      rw (process_item-buffer_of size item ds h room) at
        (process_item-Fits size item (buffer_of ds) (Rooted-buffer_of ds) room) in
    f.1

push_head-concat :
    (item : Bytes) (c : ℕ) (xs : Dirs)
    → push_head (item ++ c ∷ []) xs ≡ push_head item (push_head (c ∷ []) xs)
push_head-concat item c [] = refl
push_head-concat item c (x ∷ xs) = ap (λ d. d ∷ xs) (append_assoc item (c ∷ []) x)

abbrev outcome : Bool → Dirs → PathResult
outcome ok ds = if ok then path (render ds) else null

push_head-nil : (cs : Bytes) → push_head [] (split cs) ≡ split cs
unfolding split
push_head-nil [] = refl
push_head-nil (c ∷ cs) = ground (arith)

slash_not_char : is_path_char b'/' ≡ false
unfolding is_path_char
slash_not_char = refl

walk-resolve :
    (size : ℕ) (todo item : Bytes) (ds : Dirs)
    → All IsName ds
    → is_name item ≡ true
    → length (buffer_of ds) + length item + length todo + 1 < size
    → walk size (buffer_of ds) item todo
      ≡ outcome (valid todo) (resolve ds (push_head item (split todo)))
unfolding walk terminate valid split resolve is_name
walk-resolve size [] item ds h k room =
    rw
      (
        process_item-buffer_of size item ds h (omega arith),
        lt→ltb (length (buffer_of (enter ds item))) size
            (omega (arith, length-enter size item ds h (omega arith))),
        append-nil item,
      )
      (ap path (reverse-buffer_of (enter ds item)))
walk-resolve size (c ∷ cs) item ds h k room = ground (
  arith,
  process_item-buffer_of size item ds h (omega arith),
  walk-resolve size cs [] (enter ds item) (enter-IsName ds item h k) refl
      (omega (arith, length-enter size item ds h (omega arith))),
  push_head-nil cs,
  append-nil item,
  walk-resolve size cs (item ++ c ∷ []) ds h,
  is_name-append item (c ∷ []) k,
  length-append item (c ∷ []),
  push_head-concat item c (split cs),
)

is_absolute-append : (a b : Bytes) → is_absolute a ≡ true → is_absolute (a ++ b) ≡ true
unfolding is_absolute
is_absolute-append [] b h = cc
is_absolute-append (c ∷ a) b h = h

render_names-absolute : (d : Bytes) (ds : Dirs) → is_absolute (render_names (d ∷ ds)) ≡ true
unfolding render_names is_absolute
render_names-absolute d [] = refl
render_names-absolute d (e ∷ ds) =
    is_absolute-append (render_names (e ∷ ds)) (b'/' ∷ d) (render_names-absolute e ds)

pub render-absolute : (ds : Dirs) → is_absolute (render ds) ≡ true
unfolding render is_absolute
render-absolute [] = refl
render-absolute (d ∷ ds) = render_names-absolute d ds

reverse-start_buffer :
    (ds : Dirs) (rel : Bytes) → reverse (start_buffer (render ds) rel) ≡ buffer_of (start ds rel)
unfolding start_buffer start buffer_of
reverse-start_buffer ds [] = refl
reverse-start_buffer ds (c ∷ rel) = ground (arith, reverse-render ds)

pub start-IsName : (ds : Dirs) (rel : Bytes) → All IsName ds → All IsName (start ds rel)
unfolding start
start-IsName ds [] h = tt
start-IsName ds (c ∷ rel) h = ground arith

length-buffer_of-start :
    (ds : Dirs) (rel : Bytes) → length (buffer_of (start ds rel)) ≤ length (render ds)
length-buffer_of-start ds rel = omega (
  arith,
  ap length (reverse-start_buffer ds rel),
  length-reverse (start_buffer (render ds) rel),
  (start_buffer-bounds (render ds) rel (render-absolute ds)).1,
)

walk_items-resolve :
    (size : ℕ) (rel : Bytes) (ds : Dirs)
    → All IsName ds
    → length (buffer_of ds) + length rel + 1 < size
    → walk_items size (buffer_of ds) rel ≡ outcome (valid rel) (resolve ds (split rel))
unfolding walk_items terminate split resolve valid stays equal
walk_items-resolve size [] ds h room =
    rw (lt→ltb (length (buffer_of ds)) size (omega arith)) (ap path (reverse-buffer_of ds))
walk_items-resolve size (c ∷ rel) ds h room =
    walk-resolve size (c ∷ rel) [] ds h (unfold is_name in refl) (omega arith)
    ∙ ap (λ items. outcome (valid (c ∷ rel)) (resolve ds items)) (push_head-nil (c ∷ rel))

-- From a canonical working directory path_cat computes exactly what walking the items of the path
-- one at a time over the stack of directory names gives, or NULL where some character of the path
-- is neither a slash nor allowed in a name, or where the block cannot be allocated.
pub path_cat-resolve :
    (malloc : ℕ → Bool) (ds : Dirs) (rel : Bytes)
    → All IsName ds
    → path_cat malloc (render ds) rel ≡ (
        if malloc (length (render ds) + length rel + 2) && valid rel
        then path (render (resolve (start ds rel) (split rel)))
        else null)
unfolding path_cat
path_cat-resolve malloc ds rel h = ground (
  arith,
  render-absolute ds,
  reverse-start_buffer ds rel,
  walk_items-resolve (length (render ds) + length rel + 2) rel (start ds rel)
      (start-IsName ds rel h) (omega (arith, length-buffer_of-start ds rel)),
)
