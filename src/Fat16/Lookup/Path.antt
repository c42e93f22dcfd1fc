-- ===== src/Fat16/Lookup/Path.antt =====
-- `find_root` of lab4/simple_fat16_new.c on a path of several names.
use os2021_labscript.Common.{
  ℕ, ◌+◌, ◌*◌, ◌/◌, ◌^◌, ◌<◌, ◌≡◌, ◌≢◌, ◌↔◌, ◌∙◌, refl, arith, ==_of_ne, List, ◌∷◌,
}
use os2021_labscript.Common.Outcome.{done}
use os2021_labscript.Fat16.Volume.{Fat16, DirEntry, attr_archive}
use os2021_labscript.Fat16.Names.{path_split}
use os2021_labscript.Fat16.Scan.{pass, accept, found, scan_root}
use os2021_labscript.Fat16.Scan.Root.{root_entry, scan_root-search}
use os2021_labscript.Fat16.Scan.Found.{root_search-found}
use os2021_labscript.Fat16.Lookup.{root_match, find_names, find_subdir, find_root}
use os2021_labscript.Fat16.Lookup.Loop.{IsClustered}
use os2021_labscript.Fat16.Lookup.Tree.{Resolves, find_subdir_iff}

-- Entry `k` of the root directory is the first that ends the search for the name.
pub record Starts (v : Fat16) (name : List ℕ) (k : ℕ) : Type 0 where
  pub below : k < v.bpb.root_ent_cnt
  pub matches : root_match name (root_entry v k) ≡ accept
  pub before : (m : ℕ) → m < k → root_match name (root_entry v m) ≡ pass
  pub directory : (root_entry v k).attr ≢ attr_archive

find_names_inside :
    (fuel : ℕ) (v : Fat16) (dir : DirEntry) (name name' : List ℕ) (names : List (List ℕ)) (k : ℕ)
    → 512 * v.first_root_dir_sec_num + 32 * v.bpb.root_ent_cnt < 2 ^ 32
    → Starts v name k
    → find_names fuel v dir (name ∷ name' ∷ names)
      ≡ find_subdir fuel v (root_entry v k) (name' ∷ names)
unfolding find_names
find_names_inside fuel v dir name name' names k fits s =
    let run : scan_root v (root_match name) dir ≡ found (k + 1) (k / 16 + 1) (root_entry v k) =
      scan_root-search v (root_match name) dir fits
      ∙ root_search-found v.bpb.root_ent_cnt 0 v (root_match name) k dir (omega arith)
          (omega (arith, s.below)) s.matches s.before in
    rw (find_names, run, ==_of_ne (root_entry v k).attr attr_archive s.directory) refl

-- On a volume with clusters of 1 to 128 sectors, whose root directory ends below 2 ^ 32, for a path
-- that `path_split` takes apart into two names or more: if the first entry of the root directory
-- that ends the search for the first name is not a file, `find_root` returns 0 with an entry
-- exactly if the other names lead from that directory to the entry, each but the last to a
-- directory, with fewer entries before it in its directory than the fuel.
pub find_root-Resolves :
    (fuel : ℕ) (raw : ℕ → List ℕ) {v : Fat16} (dir e : DirEntry) (path : List ℕ)
    (name name' : List ℕ) (names : List (List ℕ)) (k : ℕ)
    → IsClustered v
    → 512 * v.first_root_dir_sec_num + 32 * v.bpb.root_ent_cnt < 2 ^ 32
    → path_split raw path ≡ done (name ∷ name' ∷ names)
    → Starts v name k
    → (find_root fuel raw v dir path ≡ done (0, e))
      ↔ Resolves v fuel (root_entry v k) (name' ∷ names) e
unfolding find_root
find_root-Resolves fuel raw {v} dir e path name name' names k cl fits split s =
    rw (split, find_names_inside fuel v dir name name' names k fits s)
      (find_subdir_iff cl fuel (root_entry v k) (name' ∷ names) e)
