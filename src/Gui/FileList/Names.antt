-- ===== src/Gui/FileList/Names.antt =====
-- The search for a free name: it ends, with a name that no entry has.
use zz_ftp.Prelude.{
  ℕ, zero, suc, ◌≤◌, ◌<◌, ◌≡◌, refl, sym, ap, ◌∙◌, arith, true, false, Option, some, List, [], ◌∷◌,
  if◌then◌else◌, Bytes, equal, equal_iff, length, drop, Bool-cases, inl, inr,
}
use mathlib.Core.List.{append_cancel_left, append_cancel_right}
use mathlib.Core.Option.{some-injective}
use mathlib.Core.Path.{subst}
use zz_ftp.Text.RoundTrip.{show_injective}
use zz_ftp.Gui.FileList.{
  FileRec, file_exists, base_name, split_ext, numbered, first_free, file_list_get_upload_name,
}

without : Bytes → List FileRec → List FileRec
without name [] = []
without name (f ∷ files) =
    let rest = without name files in if equal f.name name then rest else f ∷ rest

length-without : (name : Bytes) (files : List FileRec) → length (without name files) ≤ length files
unfolding without
length-without name [] = omega arith
length-without name (f ∷ files) = ground (arith, length-without name files)

length-without_less :
    (name : Bytes) (files : List FileRec)
    → file_exists files name ≡ true
    → length (without name files) < length files
unfolding without file_exists
length-without_less name [] e = cc
length-without_less name (f ∷ files) e =
    ground (arith, length-without name files, length-without_less name files)

equal_trans : (a b c : Bytes) → equal a b ≡ true → equal a c ≡ equal b c
equal_trans a b c e = ap (λ x. equal x c) ((equal_iff a b).0 e)

file_exists-without :
    (a b : Bytes) (files : List FileRec)
    → equal a b ≡ false
    → file_exists (without a files) b ≡ file_exists files b
unfolding without file_exists
file_exists-without a b [] n = refl
file_exists-without a b (f ∷ files) n = elim (Bool-cases (equal f.name a)) [
  | inl e ↦ ground (arith, e, n, equal_trans f.name a b e, file_exists-without a b files n)
  | inr d ↦ ground (arith, d, file_exists-without a b files n)
]

module _ (candidate : ℕ → Bytes) (distinct : (i j : ℕ) → candidate i ≡ candidate j → i ≡ j) where
  unlike : (i j : ℕ) → i < j → equal (candidate i) (candidate j) ≡ false
  unlike i j l = elim (Bool-cases (equal (candidate i) (candidate j))) [
    | inl e ↦ absurd (let d = distinct i j ((equal_iff _ _).0 e) in omega arith)
    | inr n ↦ n
  ]

  -- A candidate that was refused is not asked for again.
  first_free-without :
      (f i k : ℕ) (files : List FileRec)
      → k < i
      → first_free f candidate (without (candidate k) files) i ≡ first_free f candidate files i
  unfolding first_free
  first_free-without zero i k files l = refl
  first_free-without (suc f) i k files l = ground (
    arith,
    file_exists-without (candidate k) (candidate i) files (unlike k i l),
    first_free-without f (suc i) k files (omega arith),
  )

  found :
      (f i : ℕ) (files : List FileRec)
      → length files < f
      → (name : Bytes) × (first_free f candidate files i ≡ some name)
  unfolding first_free
  found zero i files l = absurd (omega arith)
  found (suc f) i files l = elim (Bool-cases (file_exists files (candidate i))) [
    | inl e ↦
        let d = length-without_less (candidate i) files e in
        let (name, q) = found f (suc i) (without (candidate i) files) (omega arith) in
        (name, simp (e) (sym (first_free-without f (suc i) i files (omega arith)) ∙ q))
    | inr n ↦ (candidate i, simp (n) refl)
  ]

  free :
      (f i : ℕ) (files : List FileRec) (name : Bytes)
      → first_free f candidate files i ≡ some name
      → file_exists files name ≡ false
  unfolding first_free
  free zero i files name e = cc
  free (suc f) i files name e = elim (Bool-cases (file_exists files (candidate i))) [
    | inl x ↦ free f (suc i) files name (simp (x) at e)
    | inr n ↦ subst (λ x. file_exists files x ≡ false) (some-injective _ _ (simp (n) at e)) n
  ]

numbered_distinct : (base dot : Bytes) (i j : ℕ) → numbered base dot i ≡ numbered base dot j → i ≡ j
unfolding numbered
numbered_distinct base dot i j e =
    show_injective i j (append_cancel_right _ _ dot (ap (drop 1) (append_cancel_left base _ _ e)))

module _ (files : List FileRec) (local_path : Bytes) where
  Named : Option Bytes → Type 0
  Named o = (name : Bytes) × ((o ≡ some name) × (file_exists files name ≡ false))

  searched-Named :
      (base dot : Bytes) → Named (first_free (suc (length files)) (numbered base dot) files 1)
  unfolding Named
  searched-Named base dot =
      let (name, q) =
        found (numbered base dot) (numbered_distinct base dot) (suc (length files)) 1 files
          (omega arith) in
      (
        name,
        (
          q,
          free (numbered base dot) (numbered_distinct base dot) (suc (length files)) 1 files name q,
        ),
      )

  -- For every list of files and every path there is a name for the upload, within as many rounds
  -- of the loop as there are files and one more, and no file of the list has that name.
  pub upload_name_found :
      (name : Bytes) × ((file_list_get_upload_name files local_path ≡ some name)
        × (file_exists files name ≡ false))
  unfolding file_list_get_upload_name Named
  upload_name_found = elim (Bool-cases (file_exists files (base_name local_path))) [
    | inl taken ↦
        simp (taken)
          (searched-Named (split_ext (base_name local_path)).0 (split_ext (base_name local_path)).1)
    | inr fresh ↦ (base_name local_path, (simp (fresh) refl, fresh))
  ]
