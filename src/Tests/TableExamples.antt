-- ===== src/Tests/TableExamples.antt =====
-- The theorems on the tables, applied to the sample volume.
use os2021_labscript.Common.{ℕ, ◌<◌, ◌≤◌, ◌≡◌, ◌≢◌, refl, inr, arith, ◌==◌, if◌then◌else◌, [], ◌∷◌}
use os2021_labscript.Common.Outcome.{done, diverged}
use os2021_labscript.Fat16.Image.{store, sector_read}
use os2021_labscript.Fat16.Volume.{Fat16}
use os2021_labscript.Fat16.Table.{
  fat_entry_by_cluster, cluster_is_empty, find_empty_cluster, find_empty_from, free_chain,
}
use os2021_labscript.Fat16.Table.Entries.{IsTable}
use os2021_labscript.Fat16.Table.Alloc.{
  second_entry, cluster_is_empty_links, find_empty_cluster_first, find_empty_full,
}
use os2021_labscript.Fat16.Table.Free.{contains, free_chain_lem}
use os2021_labscript.Tests.Sample.{volume}

abbrev table : IsTable volume 100
table = record { sector = refl; reach = omega arith; covers = omega arith; narrow = omega arith }

-- A volume on which every entry of the tables is taken
abbrev full : Fat16
full = record volume { image = λ p. 1 }

free_chain_lem_example :
    (v' : Fat16) × (free_chain 3 volume 2 ≡ done v')
    × ((m : ℕ)
        → m < 100
        → fat_entry_by_cluster v' m
          ≡ (if contains m (2 ∷ 5 ∷ []) then 0 else fat_entry_by_cluster volume m))
unfolding fat_entry_by_cluster sector_read store
free_chain_lem_example =
    free_chain_lem (5 ∷ []) table 3 2 (omega arith) (omega arith, refl, (omega arith, refl, tt))
      (refl, refl, (refl, refl, refl))

cluster_is_empty_links_example :
    ((cluster_is_empty volume 5 6).1 ≡ 0)
    × (fat_entry_by_cluster (cluster_is_empty volume 5 6).0 5
        ≡ (if 5 == 5 then 6 else fat_entry_by_cluster volume 5))
    × (second_entry (cluster_is_empty volume 5 6).0 5 ≡ second_entry volume 5)
unfolding fat_entry_by_cluster sector_read store
cluster_is_empty_links_example =
    cluster_is_empty_links table 5 5 6 (omega arith) (omega arith) (omega arith) (inr refl)

find_empty_cluster_first_example :
    (c : ℕ) × (find_empty_cluster volume ≡ done c)
    × (2 ≤ c)
    × (c ≤ 9)
    × (fat_entry_by_cluster volume c ≡ 0)
    × ((m : ℕ) → 2 ≤ m → m < c → fat_entry_by_cluster volume m ≢ 0)
unfolding fat_entry_by_cluster sector_read store
find_empty_cluster_first_example =
    find_empty_cluster_first volume 9 (omega arith) (omega arith) refl

find_empty_full_example : find_empty_from 1000 full 2 ≡ diverged
unfolding fat_entry_by_cluster sector_read
find_empty_full_example = find_empty_full 1000 full (λ m h. omega arith)
