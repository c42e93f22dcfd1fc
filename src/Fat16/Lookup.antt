-- ===== src/Fat16/Lookup.antt =====
-- `find_root` and `find_subdir` of lab4/simple_fat16_new.c: the entry that a path names.
pub mod Loop
pub mod Tree
pub mod Path
use os2021_labscript.Common.{
  ℕ, zero, suc, ◌==◌, ◌&&◌, ◌||◌, ltb, if◌then◌else◌, Bool, true, false, List, [], ◌∷◌,
}
use os2021_labscript.Common.Outcome.{Outcome, done, undefined, ◌>>=◌}
use os2021_labscript.Fat16.Volume.{Fat16, DirEntry, first_byte, attr_archive, attr_directory}
use os2021_labscript.Fat16.Names.{path_split}
use os2021_labscript.Fat16.Scan.{
  Verdict, pass, accept, give_up, found, missed, scan_root, cursor_at, hit, stopped, exhausted,
  dir_scan,
}

-- `strncmp(a, b, n) == 0`
unfoldable pub strncmp_eq : ℕ → List ℕ → List ℕ → Bool
strncmp_eq zero xs ys = true
strncmp_eq (suc n) [] ys = false
strncmp_eq (suc n) (x ∷ xs) [] = false
strncmp_eq (suc n) (x ∷ xs) (y ∷ ys) = (x == y) && ((x == 0) || strncmp_eq n xs ys)

-- The loop of `find_subdir`: a `BYTE` against a `char`, which is negative from 128 on.
unfoldable pub same_name : List ℕ → List ℕ → Bool
same_name [] ys = true
same_name (x ∷ xs) [] = false
same_name (x ∷ xs) (y ∷ ys) = (x == y) && (ltb y 128 && same_name xs ys)

-- What a lookup returns: 0 or 1, with the entry left in `Dir`
abbrev pub Lookup : Type 0
Lookup = ℕ × DirEntry

-- An entry on which `find_subdir` leaves its loop
unfoldable pub subdir_match : List ℕ → Bool → DirEntry → Bool
unfolding same_name
subdir_match name is_last e =
    same_name e.name name
    && (if is_last
        then (e.attr == attr_archive) || (e.attr == attr_directory)
        else e.attr == attr_directory)

abbrev pub at_end : DirEntry → Bool
at_end e = first_byte e == 0

abbrev pub is_nil {ℓ} : {A : Type ℓ} → List A → Bool
is_nil [] = true
is_nil (x ∷ xs) = false

-- The list holds `paths[curDepth]` and the names behind it. Each directory has the fuel.
unfoldable pub find_subdir : ℕ → Fat16 → DirEntry → List (List ℕ) → Outcome Lookup
unfolding subdir_match
find_subdir fuel v dir [] = undefined
find_subdir fuel v dir (name ∷ names) = do
  s ← dir_scan fuel v at_end (subdir_match name (is_nil names)) (cursor_at v dir.fst_clus_lo) dir
  elim s [
    | hit c e ↦ elim (is_nil names) [ true ↦ done (0, e) | false ↦ find_subdir fuel v e names ]
    | stopped c e ↦ done (1, e)
    | exhausted c e ↦ done (1, e)
  ]

-- An entry on which the loop of `find_root` ends
unfoldable pub root_match : List ℕ → DirEntry → Verdict
unfolding strncmp_eq
root_match name e =
    if first_byte e == 0
    then give_up
    else if strncmp_eq 11 e.name name && ((e.attr == attr_archive) || (e.attr == attr_directory))
    then accept
    else pass

-- After the names are split. A file ends the search at any depth.
unfoldable pub find_names : ℕ → Fat16 → DirEntry → List (List ℕ) → Outcome Lookup
unfolding root_match
find_names fuel v dir [] = undefined
find_names fuel v dir (name ∷ names) = elim (scan_root v (root_match name) dir) [
  | found i cnt e ↦ elim ((e.attr == attr_archive) || is_nil names) [
    | true ↦ done (0, e)
    | false ↦ find_subdir fuel v e names
  ]
  | missed e ↦ done (1, e)
]

-- `raw` is the memory that `path_split` allocates, `dir` the caller's entry before the call.
unfoldable pub find_root : ℕ → (ℕ → List ℕ) → Fat16 → DirEntry → List ℕ → Outcome Lookup
unfolding find_names path_split
find_root fuel raw v dir path = do names ← path_split raw path; find_names fuel v dir names
