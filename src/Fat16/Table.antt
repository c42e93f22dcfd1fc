-- ===== src/Fat16/Table.antt =====
-- The file allocation table: the functions of lab4/simple_fat16_new.c that read and write its
-- entries. `ClusterN` is a WORD, and so are the offset and the sector number computed from it.
pub mod Entries
pub mod Alloc
pub mod Free
use os2021_labscript.Common.{
  ℕ, zero, suc, ◌+◌, ◌-◌, ◌*◌, ◌/◌, ◌%◌, ◌^◌, ◌==◌, ◌&&◌, ltb, if◌then◌else◌, Bool, true, false,
  not,
}
use os2021_labscript.Common.Outcome.{Outcome, done, diverged}
use os2021_labscript.Fat16.Image.{Buffer, word, word_at, bytes_of_word, store, sector_read}
use os2021_labscript.Fat16.Volume.{Fat16}

-- `WORD offset = ClusterN * 2`
abbrev pub fat_offset : ℕ → ℕ
fat_offset n = word (n * 2)

-- `WORD secNumber`
abbrev pub fat_sector : Fat16 → ℕ → ℕ
fat_sector v n = word (v.bpb.rsvd_sec_cnt + fat_offset n / v.bpb.byts_per_sec)

-- `WORD tableSize`
abbrev pub fat_index : Fat16 → ℕ → ℕ
fat_index v n = fat_offset n % v.bpb.byts_per_sec

unfoldable pub fat_entry_by_cluster : Fat16 → ℕ → ℕ
fat_entry_by_cluster v n = word_at (sector_read v.image (fat_sector v n)) (fat_index v n)

-- The result 0 means that the entry is empty.
unfoldable pub cluster_empty : Fat16 → ℕ → ℕ
unfolding fat_entry_by_cluster
cluster_empty v n = if fat_entry_by_cluster v n == 0 then 0 else 1

-- The loop, with `ClusterN++` on a WORD
unfoldable pub find_empty_from : ℕ → Fat16 → ℕ → Outcome ℕ
find_empty_from zero v n = diverged
find_empty_from (suc f) v n = elim (cluster_empty v n == 0) [
  | true ↦ done n
  | false ↦ find_empty_from f v (word (n + 1))
]

-- After 2 ^ 16 rounds the counter is back at its start, and the loop goes on for ever.
unfoldable pub find_empty_cluster : Fat16 → Outcome ℕ
unfolding find_empty_from
find_empty_cluster v = find_empty_from (2 ^ 16) v 2

-- `fseek` and `fwrite` of one WORD
abbrev pub store_word : Fat16 → ℕ → ℕ → Fat16
store_word v pos w = record v { image = store v.image pos (bytes_of_word w) }

-- Writes `value` to the entry of `n`, if `value` ends a chain or its own entry is empty. The new
-- volume, with the result: 0 after a write, 1 if nothing was written.
unfoldable pub cluster_is_empty : Fat16 → ℕ → ℕ → Fat16 × ℕ
cluster_is_empty v n value =
    let next : ℕ = if value == 0xffff then 0 else fat_entry_by_cluster v value in
    if not (next == 0)
    then (v, 1)
    else (store_word v (fat_sector v n * v.bpb.byts_per_sec + fat_index v n) value, 0)

-- `*FirstSectorofCluster`, a WORD: the product is that of `ClusterN - 2`, which may be negative.
unfoldable pub first_sector_of_cluster : Fat16 → ℕ → ℕ
first_sector_of_cluster v n =
    word (n * v.bpb.sec_per_clus + v.first_data_sector + 2 ^ 32 - 2 * v.bpb.sec_per_clus)

-- The results of `first_sector_by_cluster`, those through its three pointers
pub record ClusterHead : Type 0 where
  pub fat_clus_entry_val : ℕ
  pub first_sector : ℕ
  pub buffer : Buffer

unfoldable pub first_sector_by_cluster : Fat16 → ℕ → ClusterHead
unfolding first_sector_of_cluster
first_sector_by_cluster v n = record {
  fat_clus_entry_val = fat_entry_by_cluster v n;
  first_sector = first_sector_of_cluster v n;
  buffer = sector_read v.image (first_sector_of_cluster v n);
}

-- `FatSecNum2`: the same entry in the second table
abbrev pub fat_sector2 : Fat16 → ℕ → ℕ
fat_sector2 v n = word (v.bpb.rsvd_sec_cnt + v.bpb.fat_sz16 + fat_offset n / v.bpb.byts_per_sec)

-- Clears the entry in both tables and returns what the first one held.
unfoldable pub free_cluster : Fat16 → ℕ → Fat16 × ℕ
free_cluster v n =
    let head : ClusterHead = first_sector_by_cluster v (word n) in
    let c : ℕ = word n in
    let v1 : Fat16 = store_word v (fat_sector v c * v.bpb.byts_per_sec + fat_index v c) 0 in
    let v2 : Fat16 = store_word v1 (fat_sector2 v c * v.bpb.byts_per_sec + fat_index v c) 0 in
    (v2, head.fat_clus_entry_val)

-- `ClusterN > 1 && ClusterN < 0xFFF8`
abbrev pub is_link : ℕ → Bool
is_link n = ltb 1 n && ltb n 0xfff8

-- The do-while loop of `fat16_unlink` over `freeCluster`
unfoldable pub free_chain : ℕ → Fat16 → ℕ → Outcome Fat16
free_chain zero v n = diverged
free_chain (suc f) v n =
    let (v', next) = free_cluster v n in
    elim (is_link next) [ true ↦ free_chain f v' next | false ↦ done v' ]
