-- ===== src/Fat16/Write.antt =====
-- `write_path` of lab4/simple_fat16_new.c, behind `fat16_write`.
pub mod Last
pub mod Counts
use os2021_labscript.Common.{
  ℕ, zero, suc, ◌+◌, ◌-◌, ◌*◌, ◌/◌, ◌%◌, ◌^◌, ◌==◌, ltb, if◌then◌else◌, not, true, false, List,
  Option, none, some, length, take, drop,
}
use os2021_labscript.Common.Outcome.{Outcome, done, undefined, diverged, ◌>>=◌}
use os2021_labscript.Common.Strtok.{after_strtok}
use os2021_labscript.Fat16.Image.{word, dword, store}
use os2021_labscript.Fat16.Volume.{Fat16, DirEntry}
use os2021_labscript.Fat16.Table.{
  fat_entry_by_cluster, cluster_is_empty, first_sector_of_cluster, is_link,
}
use os2021_labscript.Fat16.Paths.{slash}
use os2021_labscript.Fat16.Lookup.{find_root}
use os2021_labscript.Fat16.Update.{edit_size}

-- `bytes_per_cluster`
abbrev pub cluster_bytes : Fat16 → ℕ
cluster_bytes v = v.bpb.sec_per_clus * v.bpb.byts_per_sec

-- The first loop: `ClusterCountPre`, and `ClusterLast` if it is set
unfoldable pub count_chain : ℕ → Fat16 → ℕ → ℕ → Option ℕ → Outcome (ℕ × Option ℕ)
count_chain zero v n count last = diverged
count_chain (suc f) v n count last =
    let tmp : ℕ = fat_entry_by_cluster v n in
    elim (is_link n) [
      | true ↦ count_chain f v tmp (count + 1) (if is_link tmp then last else some n)
      | false ↦ done (count, last)
    ]

-- `while (ClusterIsEmpty(fat16_ins, ClusterLast, ClusterLast + b)) b++;`
unfoldable pub link_next : ℕ → Fat16 → (cluster_last b : ℕ) → Outcome Fat16
link_next zero v n b = diverged
link_next (suc f) v n b =
    let (v', r) = cluster_is_empty v n (word (n + b)) in
    elim (r == 0) [ true ↦ done v' | false ↦ link_next f v n (b + 1) ]

-- The loop over `a`, with `left` clusters to add. `b` reaches a WORD of 0xffff in 2 ^ 16 rounds.
unfoldable pub add_clusters : (left : ℕ) → Fat16 → (cluster_last : ℕ) → Outcome Fat16
unfolding link_next
add_clusters zero v n = done v
add_clusters (suc left) v n = do
  v' ← link_next (2 ^ 16) v n 1
  let next = fat_entry_by_cluster v' n
  add_clusters left (if left == 0 then (cluster_is_empty v' next 0xffff).0 else v') next

-- An `int` from a `size_t`, where only a positive one is used
abbrev pub positive_int : ℕ → ℕ
positive_int n = if ltb (dword n) (2 ^ 31) then dword n else 0

abbrev pub size_t : ℕ → ℕ
size_t n = n % 2 ^ 64

-- `(size - 1) / bytes_per_cluster + 1`
unfoldable pub clusters_for : ℕ → ℕ → ℕ
clusters_for size per = size_t (size + 2 ^ 64 - 1) / per + 1

-- `ClusterRequired` if it is positive, 0 if not
unfoldable pub cluster_required : (size offset per pre : ℕ) → ℕ
unfolding clusters_for
cluster_required size offset per pre =
    positive_int (dword (clusters_for (size + offset) per) + 2 ^ 32 - pre)

-- The variables of the second half; `rest` is what is left of `buffer`, `end` is `offset_temp2`.
pub record Writer : Type 0 where
  pub vol : Fat16
  pub cluster_value : ℕ
  pub fat_clus_entry_val : ℕ
  pub first_sector : ℕ
  pub rest : List ℕ
  pub end : ℕ

-- At a cluster of the file
unfoldable pub writer_at : Fat16 → ℕ → List ℕ → ℕ → Writer
writer_at v n rest end = record {
  vol = v;
  cluster_value = n;
  fat_clus_entry_val = fat_entry_by_cluster v n;
  first_sector = first_sector_of_cluster v n;
  rest = rest;
  end = end;
}

unfoldable pub next_cluster : Writer → Writer
unfolding writer_at
next_cluster w = writer_at w.vol w.fat_clus_entry_val w.rest w.end

-- `fseek`, `fwrite` of `len` bytes, `buffer += length` and `edit_size`. The bytes must be there.
module _ (fuel : ℕ) (raw : ℕ → List ℕ) (dir : DirEntry) (path : List ℕ) where
  unfoldable pub write_piece : Writer → (within len : ℕ) → Outcome Writer
  write_piece w within len = if ltb (length w.rest) len then undefined else do
    let pos = dword (w.first_sector * w.vol.bpb.byts_per_sec + within)
    let v = record w.vol { image = store w.vol.image pos (take len w.rest) }
    v' ← edit_size fuel raw dir v path (w.end + len)
    done (record w { vol = v'; rest = drop len w.rest; end = w.end + len })

  -- The last loop, with `left` rounds; in the last one `length = size % bytes_per_cluster`.
  unfoldable pub write_clusters : (left size : ℕ) → Writer → Outcome Writer
  unfolding write_piece next_cluster
  write_clusters zero size w = done w
  write_clusters (suc left) size w = do
    let per = cluster_bytes w.vol
    w' ← write_piece w 0 (if left == 0 then size % per else per)
    write_clusters left size (next_cluster w')

  -- New clusters were needed. `file_size` is that of the entry found by the second lookup.
  unfoldable pub write_grown : Writer → (size offset file_size : ℕ) → Outcome Writer
  unfolding write_clusters clusters_for
  write_grown w size offset file_size =
      let per : ℕ = cluster_bytes w.vol in
      let within : ℕ = offset % per in
      let left : ℕ = size_t (size + 2 ^ 64 - (per - within)) in
      if within == 0
      then write_clusters (positive_int (clusters_for size per)) size
          (if not (file_size == 0) then next_cluster w else w)
      else do
        w' ← write_piece w within (per - within)
        write_clusters (positive_int (clusters_for left per)) left (next_cluster w')

-- The new volume with the result. The second lookup reads the path that the first has cut.
unfoldable pub write_path :
    ℕ
    → (ℕ → ℕ → List ℕ)
    → DirEntry
    → Fat16
    → List ℕ
    → (size offset : ℕ) → List ℕ
    → Outcome (Fat16 × ℕ)
unfolding count_chain add_clusters cluster_required write_grown
write_path fuel heap dir v path size offset buffer = do
  r ← find_root fuel (heap 0) v dir path
  chain ← count_chain fuel v r.1.fst_clus_lo 0 none
  elim chain.1 [
    | none ↦ undefined
    | some last ↦
        let per : ℕ = cluster_bytes v in
        let required : ℕ = cluster_required size offset per chain.0 in
        if per == 0
        then undefined
        else if required == 0
        then (do
          w ←
              write_piece fuel (heap 1) dir path (writer_at v last buffer offset) (offset % per)
                size
          done (w.vol, size))
        else (do
          v' ← add_clusters required v last
          again ← find_root fuel (heap 2) v' dir (after_strtok slash path)
          w ←
              write_grown fuel (heap 1) dir path (writer_at v' last buffer offset) size offset
                again.1.file_size
          done (w.vol, size))
  ]
