-- ===== src/Server/Path/Tests.antt =====
-- The runs of the test program in server/path_utils.c, and the theorems at concrete inputs.
use Prim.Native.String.{String}
use zz_ftp.Prelude.{equal, true, [], ◌∷◌, codes, ◌≡◌, ◌≢◌, refl, All}
use zz_ftp.Server.Path.{
  PathResult, null, path, fault, path_cat, is_path_char, is_absolute, walk_items, walk,
  process_item, is_here, is_up, append_item, start_buffer, push_all, terminate, go_up, strip_item,
  drop_slash,
}
use zz_ftp.Server.Path.Resolve.{
  stays, leaves, Dirs, render, render_names, resolve, start, split, valid, is_name, IsName,
  IsCanonical,
}
use zz_ftp.Server.Path.Bounds.{path_cat-ne-fault}
use zz_ftp.Server.Path.Refines.{path_cat-resolve}

-- The runs of main(), in its order, with the results that it expects.
abbrev run : String → String → PathResult
run wd rel = path_cat (λ _. true) (codes wd) (codes rel)

run_0 : run "/quq/qvq/qwq/qxq" "qaq/qnq" ≡ path (codes "/quq/qvq/qwq/qxq/qaq/qnq")
unfolding path_cat is_absolute codes walk_items walk is_path_char process_item is_here is_up
    append_item start_buffer push_all terminate
run_0 = refl

run_1 : run "/quq/qvq" "qwq/../../qxq/" ≡ path (codes "/quq/qxq")
unfolding path_cat is_absolute codes walk_items walk is_path_char process_item is_here is_up
    append_item start_buffer push_all go_up strip_item drop_slash terminate
run_1 = refl

run_2 : run "/quq/qvq" "../../../../../.." ≡ path (codes "/")
unfolding path_cat is_absolute codes walk_items walk is_path_char process_item is_here is_up go_up
    strip_item start_buffer drop_slash terminate
run_2 = refl

run_3 : run "/quq/qvq/qwq/qxq" "" ≡ path (codes "/")
unfolding path_cat is_absolute codes walk_items terminate start_buffer
run_3 = refl

run_4 : run "/" "a//b" ≡ path (codes "/a/b")
unfolding path_cat is_absolute codes walk_items walk is_path_char process_item is_here is_up
    append_item start_buffer push_all terminate
run_4 = refl

run_5 : run "/" "../a" ≡ path (codes "/a")
unfolding path_cat is_absolute codes walk_items walk is_path_char process_item is_here is_up go_up
    strip_item start_buffer terminate append_item drop_slash push_all
run_5 = refl

run_6 : run "/quq/qvq" "//qwq/qxq/.." ≡ path (codes "/qwq")
unfolding path_cat is_absolute codes walk_items walk process_item is_here is_path_char is_up
    append_item start_buffer push_all terminate go_up strip_item drop_slash
run_6 = refl

run_7 : run "/quq" "qvq/.//.../././///./qwq" ≡ path (codes "/quq/qvq/.../qwq")
unfolding path_cat is_absolute codes walk_items walk is_path_char process_item is_here is_up
    append_item start_buffer push_all terminate
run_7 = refl

run_refused : run "/quq" "a b" ≡ null
unfolding path_cat is_absolute codes walk_items walk is_path_char
run_refused = refl

-- The directory /quq/qvq, deepest name first.
abbrev deep : Dirs
deep = codes "qvq" ∷ codes "quq" ∷ []

IsName-qvq : IsName (codes "qvq")
unfolding is_name is_path_char codes stays leaves equal
IsName-qvq = record { chars = refl; not_here = refl; not_up = refl }

IsName-quq : IsName (codes "quq")
unfolding is_name is_path_char codes stays leaves equal
IsName-quq = record { chars = refl; not_here = refl; not_up = refl }

deep-IsName : All IsName deep
deep-IsName = (IsName-qvq, (IsName-quq, tt))

deep-IsCanonical : IsCanonical (codes "/quq/qvq")
unfolding render render_names codes
deep-IsCanonical = record { dirs = deep; names = deep-IsName; text = refl }

path_cat-resolve_example : run "/quq/qvq" "qwq/../../qxq/" ≡ path (codes "/quq/qxq")
unfolding render resolve start split valid is_path_char codes render_names stays leaves equal
path_cat-resolve_example = path_cat-resolve (λ _. true) deep (codes "qwq/../../qxq/") deep-IsName

path_cat-ne-fault_example : run "/quq/qvq" "../../../../../.." ≢ fault
path_cat-ne-fault_example =
    path_cat-ne-fault (λ _. true) (codes "/quq/qvq") (codes "../../../../../..")
