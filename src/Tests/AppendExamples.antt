-- ===== src/Tests/AppendExamples.antt =====
-- The theorems on writes that take new clusters, applied to the sample volume: "/a.txt", in the
-- clusters 2 and 5, has two bytes left in cluster 5, and three bytes are written behind its end.
use os2021_labscript.Common.{ℕ, ◌≡◌, ◌++◌, refl, inr, arith, List, [], ◌∷◌, take, length}
use os2021_labscript.Common.Outcome.{done}
use os2021_labscript.Fat16.Image.{store, bytes_of_dword, sector_read}
use os2021_labscript.Fat16.Volume.{Fat16, entry_at, entry_of}
use os2021_labscript.Fat16.Table.{fat_entry_by_cluster}
use os2021_labscript.Fat16.Names.{to_upper}
use os2021_labscript.Fat16.Names.Split.{short_name}
use os2021_labscript.Fat16.Read.{read_path}
use os2021_labscript.Fat16.Read.Bytes.{AgreesWith}
use os2021_labscript.Fat16.Write.{write_path}
use os2021_labscript.Fat16.Files.Layout.{Layout, Layout-image}
use os2021_labscript.Fat16.Files.Search.{IsFile}
use os2021_labscript.Fat16.Files.Extend.{FreeAbove}
use os2021_labscript.Fat16.Files.Longer.{IsAppend, Longer}
use os2021_labscript.Fat16.Files.Longer.Run.{write_path-Longer}
use os2021_labscript.Fat16.Files.Longer.ReadBack.{append-read_path}
use os2021_labscript.Tests.Sample.{volume, unset, heap, path_a}
use os2021_labscript.Tests.SampleFiles.{layout, txt, txt_names, xyz}

abbrev brim : Fat16
brim = record volume { image = store volume.image 1564 (bytes_of_dword 1022) }

brim_layout : Layout brim 200
brim_layout = Layout-image layout brim.image

brim-IsFile : IsFile brim (txt b'a') (short_name (b'a' ∷ []) (b't' ∷ b'x' ∷ b't' ∷ [])) 0
unfolding to_upper entry_at entry_of store
brim-IsFile = record {
  below = omega arith;
  named = refl;
  archive = refl;
  first = λ m h. absurd (omega arith);
  used = λ m h z. absurd (omega arith);
}

-- The first free cluster above 5
six_free : FreeAbove brim 200 5 (6 ∷ [])
unfolding fat_entry_by_cluster sector_read store
six_free = (omega arith, omega arith, refl, λ m lo hi. absurd (omega arith), tt)

brim-IsAppend : IsAppend brim 200 0 2 (5 ∷ []) 6 [] 510 3 1022
unfolding entry_at entry_of store fat_entry_by_cluster sector_read
brim-IsAppend = record {
  starts = refl;
  size_of = refl;
  chain = (omega arith, omega arith, refl, refl, (omega arith, omega arith));
  ends = omega arith;
  free = six_free;
  at_end = refl;
  in_last = omega arith;
  tight = inr (omega arith);
  fits = record { above = omega arith; under = omega arith };
  small = omega arith;
}

write_path-Longer_example :
    (v' : Fat16) × (write_path 9 heap unset brim path_a 3 1022 xyz ≡ done (v', 3))
    × Longer brim 200 0 2 (5 ∷ []) (6 ∷ []) 1022 3 xyz v'
    × IsFile v' (txt b'a') (short_name (b'a' ∷ []) (b't' ∷ b'x' ∷ b't' ∷ [])) 0
write_path-Longer_example =
    write_path-Longer (txt_names b'a' (omega arith) (omega arith)) brim_layout 0 2 (5 ∷ []) 6 [] 510
      3 1022 xyz brim-IsFile brim-IsAppend (omega arith) 9 heap unset (λ i. refl) (λ i. refl)
      (omega arith)

append-read_path_example :
    (got : ℕ) × (old : List ℕ) × (v' : Fat16) × (grown : List ℕ) × (read_path 9
        (heap 0)
        unset
        (λ p. 0)
        brim
        path_a
        1024
        0
      ≡ done (got, old))
    × (length (take 1022 old) ≡ 1022)
    × (write_path 9 heap unset brim path_a 3 1022 xyz ≡ done (v', 3))
    × (read_path 9 (heap 0) unset (λ p. 0) v' path_a 1536 0 ≡ done (1536, grown))
    × AgreesWith 1536 (take 1022 old ++ take 3 xyz) grown
append-read_path_example =
    append-read_path (txt_names b'a' (omega arith) (omega arith)) brim_layout 0 2 (5 ∷ []) 6 [] 510
      3 1022 1024 1536 xyz brim-IsFile brim-IsAppend (omega arith) 9 heap unset (λ p. 0)
      (λ i j. refl) (omega arith) (omega arith) refl refl
