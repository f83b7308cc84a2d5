-- ===== src/Server/Path.antt =====
-- path_cat, path_change and path_exists of server/path_utils.c. The C buffer is kept with the
-- last byte first: the list `buf` is buf[len - 1], ..., buf[0]. An access outside of the
-- allocated block is a value, `none` or `fault`, so that its absence is a theorem.
pub mod Resolve
pub mod Bounds
pub mod Refines
pub mod Canonical
mod Tests
use zz_ftp.Prelude.{
  ℕ, ◌+◌, Bool, true, false, not, ◌&&◌, ◌||◌, Option, none, some, [], ◌∷◌, ◌++◌, reverse, ◌==◌, leb,
  ltb, if◌then◌else◌, Bytes, codes, length,
}

-- `null` is the NULL that path_cat returns; `fault` is an access out of bounds.
pub data PathResult : Type 0 where
  null : PathResult
  path : Bytes → PathResult
  fault : PathResult

unfoldable pub is_path_char : ℕ → Bool
is_path_char c =
    (leb b'0' c && leb c b'9')
    || (leb b'A' c && leb c b'Z')
    || (leb b'a' c && leb c b'z')
    || (c == b'-' || c == b'.' || c == b'_')

-- d - c == 0 || (d - c == 1 && c[0] == '.')
unfoldable pub is_here : Bytes → Bool
is_here [] = true
is_here (c ∷ []) = c == b'.'
is_here _ = false

-- d - c == 2 && c[0] == '.' && c[1] == '.'
unfoldable pub is_up : Bytes → Bool
is_up (c ∷ d ∷ []) = c == b'.' && d == b'.'
is_up _ = false

-- while (buf[len - 1] != '/') len--;
unfoldable pub strip_item : Bytes → Option Bytes
strip_item [] = none
strip_item (c ∷ buf) = if c == b'/' then some (c ∷ buf) else strip_item buf

-- if (len > 1) len--;
unfoldable pub drop_slash : Bytes → Bytes
drop_slash (c ∷ d ∷ buf) = d ∷ buf
drop_slash buf = buf

unfoldable pub go_up : Bytes → Option Bytes
go_up buf = elim (strip_item buf) [ none ↦ none | some b ↦ some (drop_slash b) ]

-- buf[len++] = *c, for each byte of the item
unfoldable pub push_all : ℕ → Bytes → Bytes → Option Bytes
push_all size [] buf = some buf
push_all size (c ∷ cs) buf = if ltb (length buf) size then push_all size cs (c ∷ buf) else none

unfoldable pub append_item : ℕ → Bytes → Bytes → Option Bytes
append_item size item buf =
    if ltb 1 (length buf) then push_all size (b'/' ∷ item) buf else push_all size item buf

-- The body of the loop over items, behind the search for the end of the item.
unfoldable pub process_item : ℕ → Bytes → Bytes → Option Bytes
process_item size item buf =
    if is_here item then some buf else if is_up item then go_up buf else append_item size item buf

-- buf[len] = '\0'; return buf;
unfoldable pub terminate : ℕ → Option Bytes → PathResult
terminate size none = fault
terminate size (some buf) = if ltb (length buf) size then path (reverse buf) else fault

-- Both loops: `item` holds the bytes from c up to d, and the last argument those from d on.
unfoldable pub walk : ℕ → Bytes → Bytes → Bytes → PathResult
walk size buf item [] = terminate size (process_item size item buf)
walk size buf item (d ∷ ds) = elim (d == b'/') [
  | true ↦ elim (process_item size item buf) [ none ↦ fault | some b ↦ walk size b [] ds ]
  | false ↦ elim (is_path_char d) [ true ↦ walk size buf (item ++ d ∷ []) ds | false ↦ null ]
]

-- strcpy(buf, (rel[0] == '/' || rel[0] == '\0') ? "/" : wd)
unfoldable pub start_buffer : Bytes → Bytes → Bytes
start_buffer wd [] = b'/' ∷ []
start_buffer wd (r ∷ rel) = if r == b'/' then b'/' ∷ [] else wd

-- The loop is not entered where rel is empty.
unfoldable pub walk_items : ℕ → Bytes → Bytes → PathResult
walk_items size buf [] = terminate size (some buf)
walk_items size buf (r ∷ rel) = walk size buf [] (r ∷ rel)

unfoldable pub is_absolute : Bytes → Bool
is_absolute [] = false
is_absolute (c ∷ _) = c == b'/'

-- `malloc n` says whether a block of n bytes could be allocated.
unfoldable pub path_cat : (ℕ → Bool) → Bytes → Bytes → PathResult
path_cat malloc wd rel =
    let size = length wd + length rel + 2 in
    if not (is_absolute wd)
    then null
    else if not (malloc size)
    then null
    else walk_items size (reverse (start_buffer wd rel)) rel

unfoldable pub change_to : Bytes → PathResult → Bytes × Bool
change_to wd (path p) = (p, true)
change_to wd _ = (wd, false)

-- The new *wd, and the result.
unfoldable pub path_change : (ℕ → Bool) → Bytes → Bytes → Bytes × Bool
unfolding change_to
path_change malloc wd rel = change_to wd (path_cat malloc wd rel)

pub data PathRequirement : Type 0 where
  any directory regular : PathRequirement

-- What lstat() tells of a path that exists.
pub data FileKind : Type 0 where
  is_dir is_reg is_other : FileKind

unfoldable pub meets : PathRequirement → FileKind → Bool
meets any k = true
meets directory is_dir = true
meets directory _ = false
meets regular is_reg = true
meets regular _ = false

-- `path++`: the path without its leading slash, as the system calls get it.
unfoldable pub relative : Bytes → Bytes
relative [] = []
relative (_ ∷ p) = p

unfoldable pub exists_relative : (Bytes → Option FileKind) → Bytes → PathRequirement → Bool
exists_relative lstat [] r = true
exists_relative lstat (c ∷ p) r = elim (lstat (c ∷ p)) [ none ↦ false | some k ↦ meets r k ]

unfoldable pub path_exists : (Bytes → Option FileKind) → Bytes → PathRequirement → Bool
path_exists lstat p r = exists_relative lstat (relative p) r
