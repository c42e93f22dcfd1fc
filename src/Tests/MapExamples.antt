-- ===== src/Tests/MapExamples.antt =====
-- The theorems on maps of files, applied to the volume that holds "/a.txt" and "/d".
use os2021_labscript.Common.{
  ℕ, ◌+◌, ◌%◌, ◌<◌, ◌≡◌, ◌↔◌, refl, arith, inl, not, List, [], ◌∷◌, length, take, drop, some, none,
  Option,
}
use mathlib.Core.List.{Memᴰ}
use os2021_labscript.Common.Outcome.{done, undefined}
use os2021_labscript.Fat16.Image.{Buffer, store, sector_read}
use os2021_labscript.Fat16.Volume.{Fat16, DirEntry, entry_at, entry_of}
use os2021_labscript.Fat16.Table.{fat_entry_by_cluster}
use os2021_labscript.Fat16.Paths.{slash}
use os2021_labscript.Fat16.Names.Split.{short_name}
use os2021_labscript.Fat16.Lookup.{find_root}
use os2021_labscript.Fat16.Locate.{is_free}
use os2021_labscript.Fat16.Locate.Root.{IsFirst}
use os2021_labscript.Fat16.Scan.Root.{root_entry}
use os2021_labscript.Fat16.Read.{read_path}
use os2021_labscript.Fat16.Read.Bytes.{AgreesWith}
use os2021_labscript.Fat16.Write.{write_path}
use os2021_labscript.Fat16.Update.{success, one, fat16_mknod, fat16_unlink}
use os2021_labscript.Fat16.Attr.{fat16_readdir}
use os2021_labscript.Fat16.Files.Create.{Created}
use os2021_labscript.Fat16.Files.Stored.{Written}
use os2021_labscript.Fat16.Files.Unlink.{Unlinked}
use os2021_labscript.Fat16.FileMap.{Node, file, update, path_of, Holds}
use os2021_labscript.Fat16.FileMap.Change.{moved}
use os2021_labscript.Fat16.FileMap.Make.{fat16_mknod-Holds}
use os2021_labscript.Fat16.FileMap.Write.{written, write_path-Holds}
use os2021_labscript.Fat16.FileMap.Unlink.{fat16_unlink-Holds}
use os2021_labscript.Fat16.FileMap.Read.{fat16_unlink_missing, read_path_over}
use os2021_labscript.Fat16.FileMap.Requests.{Request, make, write, unlink, serve_all, apply_all}
use os2021_labscript.Fat16.Attr.{Stat, fat16_getattr}
use os2021_labscript.Fat16.FileMap.Stat.{Shows, fat16_getattr-Holds}
use os2021_labscript.Fat16.FileMap.Run.{serve_all_observed}
use os2021_labscript.Tests.Sample.{heap, unset}
use os2021_labscript.Tests.SampleFiles.{
  txt, txt_names, xyz, now, all_below, all_below-true, eq_false_of_not,
}
use os2021_labscript.Tests.MapSample.{
  flat, flat_map, flat_place, flat-Holds, flat_slots, flat_clusters,
}

flat-IsFirst : IsFirst flat is_free 16 2
unfolding is_free entry_at entry_of store all_below
flat-IsFirst = record {
  below = omega arith;
  holds = refl;
  first =
      λ m h. eq_false_of_not _ (all_below-true (λ m. not (is_free (root_entry flat m))) 2 refl m h);
}

fat16_mknod-Holds_example :
    (v' : Fat16) × (c : ℕ) × (fat16_mknod 9 heap unset now flat (path_of (txt b'n'))
      ≡ done (v', success))
    × Created flat 200 now (short_name (b'n' ∷ []) (b't' ∷ b'x' ∷ b't' ∷ [])) 2 c v'
    × Holds v' 200 (update flat_map (txt b'n') (some (file []))) (moved flat_place (txt b'n') 2)
unfolding fat_entry_by_cluster sector_read store
fat16_mknod-Holds_example =
    fat16_mknod-Holds flat-Holds b'n' _ now 2 (txt_names b'n' (omega arith) (omega arith))
      flat-IsFirst 9 heap unset 6 (omega arith) (omega arith) refl (λ i. refl) (omega arith)
      (omega arith) refl

-- "xyz" becomes "xxyz".
write_path-Holds_example :
    (v' : Fat16) × (write_path 9 heap unset flat (path_of (txt b'a')) 3 1 xyz ≡ done (v', 3))
    × Written flat 200 0 2 1 (take 3 xyz) v'
    × Holds v' 200
        (update flat_map (txt b'a') (some (file (written xyz 1 (take 3 xyz)))))
        (moved flat_place (txt b'a') 0)
unfolding entry_at entry_of store
write_path-Holds_example =
    write_path-Holds flat-Holds (txt b'a') xyz 3 1 9 heap unset xyz refl (omega arith) (omega arith)
      (omega arith) (omega arith) (omega arith) (λ i j. refl)

fat16_unlink-Holds_example :
    (v' : Fat16) × (fat16_unlink 9 heap unset flat (path_of (txt b'a')) ≡ done (v', success))
    × Unlinked flat 200 0 (2 ∷ []) v'
    × Holds v' 200 (update flat_map (txt b'a') none) (moved flat_place (txt b'a') 0)
unfolding entry_at entry_of store
fat16_unlink-Holds_example =
    fat16_unlink-Holds flat-Holds b'a' _ xyz 9 heap unset refl (λ i j. refl) (omega arith)

fat16_unlink_missing_example :
    ((e : DirEntry) × (find_root 9 (heap 0) flat unset (path_of (txt b'n')) ≡ done (1, e)))
    × (fat16_unlink 9 heap unset flat (path_of (txt b'n')) ≡ done (flat, one))
fat16_unlink_missing_example =
    fat16_unlink_missing flat-Holds (txt b'n') (txt_names b'n' (omega arith) (omega arith)) 9 heap
      unset (omega arith, omega arith) refl (λ i. refl)

-- "a.txt" has its three bytes.
fat16_getattr-Holds_example :
    (r : Option Stat) × (fat16_getattr (λ t. 0) 7 7 9 (heap 0) unset flat (path_of (txt b'a'))
      ≡ done r)
    × Shows (some xyz) r
fat16_getattr-Holds_example =
    fat16_getattr-Holds (λ t. 0) 7 7 9 (heap 0) unset (λ i. refl) flat-Holds (omega arith)
      (txt b'a') (some xyz)
      ((omega arith, omega arith), (_, txt_names b'a' (omega arith) (omega arith))) refl

-- Three bytes are asked for: a sector does not fit.
read_path_over_example :
    read_path 9 (heap 0) unset (λ p. 0) flat (path_of (txt b'a')) 3 0 ≡ undefined
read_path_over_example =
    read_path_over flat-Holds (txt b'a') xyz refl 3 0 (λ p. 0) 9 (heap 0) unset (λ i. refl)
      (omega arith) (omega arith)

-- "n.txt" is made and written, "m.txt" is made, "a.txt" is unlinked, and "n.txt" is written again.
abbrev requests : List Request
requests =
    make now (txt b'n')
    ∷ write (txt b'n') 0 xyz
    ∷ make now (txt b'm')
    ∷ unlink (txt b'a')
    ∷ write (txt b'n') 3 xyz
    ∷ []

serve_all_observed_example :
    (v' : Fat16) × (names : List (List ℕ)) × (serve_all 9 heap unset flat requests ≡ done v')
    × (fat16_readdir 9 (heap 0) unset v' (slash ∷ []) ≡ done (success, names))
    × ((n : List ℕ) → Memᴰ n names ↔ ((node : Node) × (apply_all requests flat_map n ≡ some node)))
    × ((n bs : List ℕ) (size offset : ℕ) (b : Buffer)
        → apply_all requests flat_map n ≡ some (file bs)
        → offset < length bs
        → (size + offset) % 512 ≡ 0
        → (xs : List ℕ) × (read_path 9 (heap 0) unset b v' (path_of n) size offset
            ≡ done (size, xs))
          × AgreesWith size (drop offset bs) xs)
serve_all_observed_example =
    serve_all_observed 9 heap unset (omega arith) (λ i j. refl) requests flat-Holds
      (
        (((omega arith, omega arith), (_, txt_names b'n' (omega arith) (omega arith))), refl),
        (
          ([], refl, omega arith, omega arith, omega arith),
          (
            (((omega arith, omega arith), (_, txt_names b'm' (omega arith) (omega arith))), refl),
            (inl (xyz, refl), ((xyz, refl, omega arith, omega arith, omega arith), tt)),
          ),
        ),
      )
      (omega (arith, flat_slots)) flat_clusters
