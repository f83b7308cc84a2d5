-- ===== src/Server/Path/Canonical.antt =====
-- Paths that the server keeps: they stay canonical, and canonical paths resolve to themselves.
use zz_ftp.Prelude.{
  equal, ℕ, ◌+◌, Bool, true, [], ◌∷◌, ◌++◌, ◌≡◌, ◌≢◌, refl, arith, ◌==◌, Bytes, length, Bool-cases,
  All, inl, inr,
}
use zz_ftp.Server.Path.{
  PathResult, null, path, fault, is_absolute, is_path_char, path_cat, path_change,
}
use zz_ftp.Server.Path.Resolve.{
  stays, leaves, Dirs, render, render_names, push_head, split, parent, enter, resolve, start, valid,
  is_name, IsName, IsCanonical,
}
use zz_ftp.Server.Path.Refines.{enter-IsName, start-IsName, render-absolute, path_cat-resolve}

-- Items of a valid path are made of the allowed characters.
AreItems : Dirs → Type 0
AreItems = All (λ d. is_name d ≡ true)

push_head-AreItems :
    (c : ℕ) (xs : Dirs) → is_path_char c ≡ true → AreItems xs → AreItems (push_head (c ∷ []) xs)
unfolding AreItems is_name
push_head-AreItems c [] h k = ground arith
push_head-AreItems c (x ∷ xs) h k = ground arith

split-AreItems : (rel : Bytes) → valid rel ≡ true → AreItems (split rel)
unfolding split valid AreItems is_name
split-AreItems [] h = (refl, tt)
split-AreItems (c ∷ cs) h = ground (arith, split-AreItems cs, push_head-AreItems c (split cs))

resolve-IsName : (ds items : Dirs) → All IsName ds → AreItems items → All IsName (resolve ds items)
unfolding resolve AreItems
resolve-IsName ds [] h k = h
resolve-IsName ds (item ∷ items) h k =
    resolve-IsName (enter ds item) items (enter-IsName ds item h k.0) k.1

-- What path_cat returns for a canonical working directory is canonical: an absolute path with no
-- empty, "." or ".." component and no character but letters, digits, '-', '.' and '_' in its names.
pub path_cat-IsCanonical :
    (malloc : ℕ → Bool) (wd rel d : Bytes)
    → IsCanonical wd
    → path_cat malloc wd rel ≡ path d
    → IsCanonical d
path_cat-IsCanonical malloc wd rel d h e = elim (Bool-cases (valid rel)) [
  | inr bad ↦ absurd (ground (arith, path_cat-resolve malloc h.dirs rel h.names, h.text))
  | inl ok ↦ record {
    dirs = resolve (start h.dirs rel) (split rel);
    names =
        resolve-IsName (start h.dirs rel) (split rel) (start-IsName h.dirs rel h.names)
          (split-AreItems rel ok);
    text = ground (arith, path_cat-resolve malloc h.dirs rel h.names, h.text);
  }
]

-- The in-place variant keeps a canonical working directory canonical, whether it succeeds or not.
pub path_change-IsCanonical :
    (malloc : ℕ → Bool) (wd rel : Bytes)
    → IsCanonical wd
    → IsCanonical (path_change malloc wd rel).0
unfolding path_change
path_change-IsCanonical malloc wd rel h = go (path_cat malloc wd rel) refl
  where
    go : (r : PathResult) → path_cat malloc wd rel ≡ r → IsCanonical (path_change malloc wd rel).0
    go null e = rw e h
    go fault e = rw e h
    go (path d) e = rw e (path_cat-IsCanonical malloc wd rel d h e)

-- From any directory but the root, ".." is the directory that holds it; the root is its own parent.
pub path_cat-up :
    (malloc : ℕ → Bool) (ds : Dirs)
    → All IsName ds
    → malloc (length (render ds) + 4) ≡ true
    → path_cat malloc (render ds) (b'.' ∷ b'.' ∷ []) ≡ path (render (parent ds))
unfolding valid is_path_char resolve start split stays leaves equal
path_cat-up malloc ds h room = ground (arith, path_cat-resolve malloc ds (b'.' ∷ b'.' ∷ []) h)

split-cons : (a : Bytes) → (x : Bytes) × (xs : Dirs) × (split a ≡ x ∷ xs)
unfolding split
split-cons [] = ([], [], refl)
split-cons (c ∷ a) = elim (Bool-cases (c == b'/')) [
  | inl slash ↦ ([], split a, rw slash)
  | inr other ↦ let (x, xs, e) = split-cons a in (c ∷ x, xs, rw (other, e))
]

split_name : (d : Bytes) → is_name d ≡ true → split d ≡ d ∷ []
unfolding split is_name is_path_char
split_name [] h = refl
split_name (c ∷ d) h = ground (arith, split_name d)

split-concat : (a d : Bytes) → is_name d ≡ true → split (a ++ b'/' ∷ d) ≡ split a ++ d ∷ []
unfolding split
split-concat [] d h = rw (split_name d h)
split-concat (c ∷ a) d h = let (x, xs, e) = split-cons a in ground (arith, split-concat a d h, e)

resolve-concat :
    (ds items : Dirs) (item : Bytes)
    → resolve ds (items ++ item ∷ []) ≡ enter (resolve ds items) item
unfolding resolve
resolve-concat ds [] item = refl
resolve-concat ds (x ∷ items) item = resolve-concat (enter ds x) items item

resolve_names : (ds : Dirs) → All IsName ds → resolve [] (split (render_names ds)) ≡ ds
unfolding render_names
resolve_names [] h = unfold resolve split stays equal in refl
resolve_names (d ∷ ds) h = rw (
  split-concat (render_names ds) d h.0.chars,
  resolve-concat [] (split (render_names ds)) d,
  resolve_names ds h.1,
  h.0.not_here,
  h.0.not_up,
)

resolve-render : (ds : Dirs) → All IsName ds → resolve [] (split (render ds)) ≡ ds
unfolding render
resolve-render [] h = unfold resolve split stays equal in refl
resolve-render (d ∷ ds) h = resolve_names (d ∷ ds) h

valid-append : (a b : Bytes) → valid a ≡ true → valid b ≡ true → valid (a ++ b) ≡ true
unfolding valid
valid-append [] b h k = k
valid-append (c ∷ a) b h k = ground (arith, valid-append a b)

valid_name : (d : Bytes) → is_name d ≡ true → valid d ≡ true
unfolding valid is_name
valid_name [] h = refl
valid_name (c ∷ d) h = ground (arith, valid_name d)

valid_names : (ds : Dirs) → All IsName ds → valid (render_names ds) ≡ true
unfolding render_names
valid_names [] h = unfold valid in refl
valid_names (d ∷ ds) h =
    valid-append (render_names ds) (b'/' ∷ d) (valid_names ds h.1)
      (unfold valid in valid_name d h.0.chars)

valid-render : (ds : Dirs) → All IsName ds → valid (render ds) ≡ true
unfolding render
valid-render [] h = unfold valid in refl
valid-render (d ∷ ds) h = valid_names (d ∷ ds) h

start_absolute : (ds : Dirs) (rel : Bytes) → is_absolute rel ≡ true → start ds rel ≡ []
unfolding start is_absolute
start_absolute ds [] h = refl
start_absolute ds (c ∷ rel) h = rw h

-- A canonical path, given as an argument, names itself from every canonical working directory.
pub path_cat-render :
    (malloc : ℕ → Bool) (wd ds : Dirs)
    → All IsName wd
    → All IsName ds
    → malloc (length (render wd) + length (render ds) + 2) ≡ true
    → path_cat malloc (render wd) (render ds) ≡ path (render ds)
path_cat-render malloc wd ds h k room = ground (
  arith,
  path_cat-resolve malloc wd (render ds) h,
  valid-render ds k,
  start_absolute wd (render ds) (render-absolute ds),
  resolve-render ds k,
)

-- With memory at hand the parent of a canonical path is never refused.
pub path_cat_up-ne-null :
    (d : Bytes) → IsCanonical d → path_cat (λ _. true) d (b'.' ∷ b'.' ∷ []) ≢ null
path_cat_up-ne-null d c e = grind (arith, path_cat-up (λ _. true) c.dirs c.names refl, c.text)
