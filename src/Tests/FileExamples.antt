-- ===== src/Tests/FileExamples.antt =====
-- The theorems on whole operations on files, applied to the sample volume.
use os2021_labscript.Common.{ℕ, ◌≡◌, ◌↔◌, refl, arith, List, [], ◌∷◌, take}
use os2021_labscript.Common.Outcome.{done}
use os2021_labscript.Fat16.Volume.{Fat16, DirEntry, entry_at, entry_of}
use os2021_labscript.Fat16.Image.{store}
use os2021_labscript.Fat16.Names.Split.{short_name}
use os2021_labscript.Fat16.Files.Lifecycle.{lifecycle_of_file}
use os2021_labscript.Fat16.Table.{fat_entry_by_cluster}
use os2021_labscript.Fat16.Image.{sector_read}
use os2021_labscript.Fat16.Lookup.{find_root}
use os2021_labscript.Fat16.Read.{read_path}
use os2021_labscript.Fat16.Read.Bytes.{AgreesWith}
use os2021_labscript.Fat16.Write.{write_path}
use os2021_labscript.Fat16.Update.{success, fat16_mknod, fat16_unlink}
use os2021_labscript.Fat16.Files.Layout.{SameTable}
use os2021_labscript.Fat16.Files.Create.{Created, fat16_mknod-file}
use os2021_labscript.Fat16.Files.Unlink.{Unlinked, fat16_unlink-file}
use mathlib.Core.List.{Memᴰ}
use os2021_labscript.Fat16.Paths.{slash}
use os2021_labscript.Fat16.Attr.{fat16_readdir}
use os2021_labscript.Fat16.Attr.Listing.{ShownAt, fat16_readdir-ShownAt}
use os2021_labscript.Fat16.Files.NameSet.{Represents, IsClosed, remove}
use os2021_labscript.Fat16.Files.NameSet.Create.{fat16_mknod-Represents}
use os2021_labscript.Fat16.Files.NameSet.Unlink.{fat16_unlink-Represents}
use os2021_labscript.Tests.Sample.{raw, path_b, name_d, name_b, volume, unset, heap, path_a}
use os2021_labscript.Fat16.Lookup.Loop.{dir_entry}
use os2021_labscript.Fat16.Lookup.Tree.{Resolves}
use os2021_labscript.Fat16.Lookup.Path.{find_root-Resolves}
use os2021_labscript.Fat16.Scan.Root.{root_entry}
use os2021_labscript.Tests.SampleFiles.{
  layout, txt, path_n, xyz, now, volume-NoFile, volume-IsFirst, txt_names, volume-IsFile,
  volume-IsClosed, names, volume-Represents, volume_others, clustered, path_b_split, d-Starts,
}

lifecycle_of_file_example :
    (v1 : Fat16) × (v2 : Fat16) × (v3 : Fat16) × (e : DirEntry) × (bytes : List ℕ) × (fat16_mknod 9
        heap unset now volume path_n
      ≡ done (v1, success))
    × (write_path 9 heap unset v1 path_n 3 100 xyz ≡ done (v2, 3))
    × (read_path 9 (heap 0) unset (λ p. 0) v2 path_n 412 100 ≡ done (412, bytes))
    × AgreesWith 412 (take 3 xyz) bytes
    × (fat16_unlink 9 heap unset v2 path_n ≡ done (v3, success))
    × (find_root 9 (heap 0) v3 unset path_n ≡ done (1, e))
    × SameTable volume v3 200
unfolding fat_entry_by_cluster sector_read store
lifecycle_of_file_example =
    lifecycle_of_file b'n' (txt_names b'n' (omega arith) (omega arith)) layout now 2 volume-IsFirst
      6 3 100 412 9 heap unset (λ p. 0) xyz (omega arith) volume-NoFile (omega arith) (omega arith)
      refl (λ i j. refl) (omega arith) (omega arith) (omega arith) (omega arith) refl

fat16_mknod-file_example :
    (v' : Fat16) × (c : ℕ) × (fat16_mknod 9 heap unset now volume path_n ≡ done (v', success))
    × Created volume 200 now (short_name (b'n' ∷ []) (b't' ∷ b'x' ∷ b't' ∷ [])) 2 c v'
unfolding fat_entry_by_cluster sector_read store
fat16_mknod-file_example =
    fat16_mknod-file (txt_names b'n' (omega arith) (omega arith)) layout now 2 volume-IsFirst 9 heap
      unset 6 (λ i. refl) (omega arith) (omega arith) refl

fat16_unlink-file_example :
    (v' : Fat16) × (fat16_unlink 9 heap unset volume path_a ≡ done (v', success))
    × Unlinked volume 200 0 (2 ∷ 5 ∷ []) v'
unfolding fat_entry_by_cluster sector_read store entry_at entry_of
fat16_unlink-file_example =
    fat16_unlink-file (txt_names b'a' (omega arith) (omega arith)) layout 0 volume-IsFile 9 heap
      unset (5 ∷ []) (λ i j. refl) (omega arith) (omega arith, refl, (omega arith, refl, tt))
      (refl, refl, (refl, refl, refl))

fat16_readdir-ShownAt_example :
    (names : List (List ℕ)) × (fat16_readdir 9 (heap 0) unset volume (slash ∷ [])
      ≡ done (success, names))
    × ((n : List ℕ) → Memᴰ n names ↔ ((m : ℕ) × ShownAt volume n m))
fat16_readdir-ShownAt_example = fat16_readdir-ShownAt 9 (heap 0) unset volume (omega arith)

fat16_mknod-Represents_example :
    (v' : Fat16) × (fat16_mknod 9 heap unset now volume path_n ≡ done (v', success))
    × IsClosed v'
    × Represents v' (txt b'n' ∷ names)
unfolding fat_entry_by_cluster sector_read store
fat16_mknod-Represents_example =
    fat16_mknod-Represents b'n' (txt_names b'n' (omega arith) (omega arith)) layout now 2
      volume-IsFirst 9 heap unset 6 names (omega arith) volume-IsClosed (λ i. refl) (omega arith)
      (omega arith) refl volume-Represents

fat16_unlink-Represents_example :
    (v' : Fat16) × (fat16_unlink 9 heap unset volume path_a ≡ done (v', success))
    × IsClosed v'
    × Represents v' (remove (txt b'a') names)
unfolding fat_entry_by_cluster sector_read store entry_at entry_of
fat16_unlink-Represents_example =
    fat16_unlink-Represents b'a' (txt_names b'a' (omega arith) (omega arith)) layout 0 volume-IsFile
      9 heap unset (5 ∷ []) names volume-IsClosed volume_others (λ i j. refl) (omega arith)
      (omega arith, refl, (omega arith, refl, tt)) (refl, refl, (refl, refl, refl))
      volume-Represents

-- "/d/b": the second entry of the root directory, then the first one of cluster 3
find_root-Resolves_example :
    (find_root 9 raw volume unset path_b ≡ done (0, dir_entry volume 3 0))
    ↔ Resolves volume 9 (root_entry volume 1) (name_b ∷ []) (dir_entry volume 3 0)
find_root-Resolves_example =
    find_root-Resolves 9 raw unset (dir_entry volume 3 0) path_b name_d name_b [] 1 clustered
      (omega arith) path_b_split d-Starts
