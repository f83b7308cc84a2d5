-- ===== src/Server/Path/Resolve.antt =====
-- What path_cat promises: a directory is a stack of names, the deepest first, and a relative path
-- is a list of items that are walked one at a time.
use zz_ftp.Prelude.{
  equal, ◌||◌, Bool, true, false, ◌&&◌, ◌||◌, List, [], ◌∷◌, ◌++◌, ◌≡◌, ◌==◌, if◌then◌else◌, Bytes,
  All,
}
use zz_ftp.Server.Path.{is_path_char}

abbrev pub Dirs : Type 0
Dirs = List Bytes

-- The canonical text of a stack: "/" for the root, otherwise each name behind a slash.
unfoldable pub render_names : Dirs → Bytes
render_names [] = []
render_names (d ∷ ds) = render_names ds ++ b'/' ∷ d

unfoldable pub render : Dirs → Bytes
render [] = b'/' ∷ []
render (d ∷ ds) = render_names (d ∷ ds)

abbrev pub push_head : Bytes → Dirs → Dirs
push_head item [] = item ∷ []
push_head item (x ∷ xs) = (item ++ x) ∷ xs

-- The items of a path, between its slashes.
unfoldable pub split : Bytes → Dirs
split [] = [] ∷ []
split (c ∷ cs) = if c == b'/' then [] ∷ split cs else push_head (c ∷ []) (split cs)

abbrev pub parent : Dirs → Dirs
parent [] = []
parent (d ∷ ds) = ds

-- An empty item and "." stay where they are, ".." goes to the parent.
unfoldable pub stays : Bytes → Bool
stays item = equal item [] || equal item (b'.' ∷ [])

unfoldable pub leaves : Bytes → Bool
leaves item = equal item (b'.' ∷ b'.' ∷ [])

abbrev pub enter : Dirs → Bytes → Dirs
enter ds item = if stays item then ds else if leaves item then parent ds else item ∷ ds

unfoldable pub resolve : Dirs → Dirs → Dirs
resolve ds [] = ds
resolve ds (item ∷ items) = resolve (enter ds item) items

-- Where the walk starts: at the root for an absolute or empty path, else in the directory.
unfoldable pub start : Dirs → Bytes → Dirs
start ds [] = []
start ds (c ∷ rel) = if c == b'/' then [] else ds

unfoldable pub valid : Bytes → Bool
valid [] = true
valid (c ∷ cs) = (c == b'/' || is_path_char c) && valid cs

-- A name of one directory: not empty, "." or "..", and made of the characters allowed.
unfoldable pub is_name : Bytes → Bool
is_name [] = true
is_name (c ∷ cs) = is_path_char c && is_name cs

pub record IsName (d : Bytes) : Type 0 where
  pub chars : is_name d ≡ true
  pub not_here : stays d ≡ false
  pub not_up : leaves d ≡ false

-- A path as the server keeps it: the text of a stack of names.
pub record IsCanonical (p : Bytes) : Type 0 where
  pub dirs : Dirs
  pub names : All IsName dirs
  pub text : p ≡ render dirs
