-- ===== src/Fat16/Scan.antt =====
-- The two loops over directory entries that the functions of lab4/simple_fat16_new.c share: over
-- the sectors of the root directory, and over the sectors and clusters of another directory.
pub mod Root
pub mod Dir
pub mod Found
use os2021_labscript.Common.{
  ℕ, zero, suc, ◌+◌, ◌-◌, ◌*◌, ◌%◌, ◌==◌, ◌&&◌, ltb, if◌then◌else◌, Bool, true, false, not, Option,
  none, some,
}
use os2021_labscript.Common.Outcome.{Outcome, done, diverged}
use os2021_labscript.Fat16.Image.{Buffer, bytes_per_dir, bytes_per_sector, sector_read}
use os2021_labscript.Fat16.Volume.{Fat16, DirEntry, entry_at}
use os2021_labscript.Fat16.Table.{ClusterHead, first_sector_by_cluster}

-- `((i - 1) * BYTES_PER_DIR) % BYTES_PER_SECTOR`
abbrev pub entry_offset : ℕ → ℕ
entry_offset i = (i - 1) * bytes_per_dir % bytes_per_sector

-- What the body of a loop does with an entry: goes on, leaves with it, or gives up.
pub data Verdict : Type 0 where
  pass accept give_up : Verdict

-- How the loop over the root directory ended: at an entry, with `i` and `RootDirCnt` as they were
-- there, or without; the entry is what the loop's variable holds.
pub data RootResult : Type 0 where
  found : (i root_dir_cnt : ℕ) → DirEntry → RootResult
  missed : DirEntry → RootResult

-- `left` rounds from `i` on, with `i <= BPB_RootEntCnt` as long as a round is left
unfoldable pub root_scan :
    Fat16 → (DirEntry → Verdict) → (left i root_dir_cnt : ℕ) → Buffer → DirEntry → RootResult
root_scan v visit zero i cnt buffer dir = missed dir
root_scan v visit (suc left) i cnt buffer dir =
    let e : DirEntry = entry_at buffer (entry_offset i) in
    elim (visit e) [
      | accept ↦ found i cnt e
      | give_up ↦ missed e
      | pass ↦ elim ((i % 16 == 0) && not (i == v.bpb.root_ent_cnt)) [
        | true ↦
            root_scan v visit left (i + 1) (cnt + 1)
              (sector_read v.image (v.first_root_dir_sec_num + cnt)) e
        | false ↦ root_scan v visit left (i + 1) cnt buffer e
      ]
    ]

-- The loop from its start; `dir` is what the variable held before.
unfoldable pub scan_root : Fat16 → (DirEntry → Verdict) → DirEntry → RootResult
unfolding root_scan
scan_root v visit dir =
    root_scan v visit v.bpb.root_ent_cnt 1 1 (sector_read v.image v.first_root_dir_sec_num) dir

-- The variables of the loop over another directory
pub record Cursor : Type 0 where
  pub i : ℕ
  pub dir_sec_cnt : ℕ
  pub cluster : ℕ
  pub fat_clus_entry_val : ℕ
  pub first_sector : ℕ
  pub buffer : Buffer

-- At the first entry of a cluster
unfoldable pub cursor_at : Fat16 → ℕ → Cursor
unfolding first_sector_by_cluster
cursor_at v n =
    let head : ClusterHead = first_sector_by_cluster v n in
    record {
      i = 1;
      dir_sec_cnt = 1;
      cluster = n;
      fat_clus_entry_val = head.fat_clus_entry_val;
      first_sector = head.first_sector;
      buffer = head.buffer;
    }

-- The end of the body with the `i++` of the loop: the next sector after 16 entries, the next
-- cluster after the last sector; `none` where the table says 0xffff.
unfoldable pub advance : Fat16 → Cursor → Option Cursor
unfolding cursor_at
advance v c =
    if c.i % 16 == 0
    then (if ltb c.dir_sec_cnt v.bpb.sec_per_clus
        then some (record c {
          buffer = sector_read v.image (c.first_sector + c.dir_sec_cnt);
          dir_sec_cnt = c.dir_sec_cnt + 1;
          i = c.i + 1;
        })
        else if c.fat_clus_entry_val == 0xffff
        then none
        else some (cursor_at v c.fat_clus_entry_val))
    else some (record c { i = c.i + 1 })

-- How that loop ended: the body left at an entry, the loop's condition failed, or the chain of
-- clusters was used up.
pub data Scanned : Type 0 where
  hit : Cursor → DirEntry → Scanned
  stopped : Cursor → DirEntry → Scanned
  exhausted : Cursor → DirEntry → Scanned

-- `stop` is the negation of the condition, over the entry that the round before has read.
unfoldable pub dir_scan :
    ℕ → Fat16 → (stop visit : DirEntry → Bool) → Cursor → DirEntry → Outcome Scanned
unfolding advance
dir_scan zero v stop visit c dir = diverged
dir_scan (suc f) v stop visit c dir = elim (stop dir) [
  | true ↦ done (stopped c dir)
  | false ↦
      let e : DirEntry = entry_at c.buffer (entry_offset c.i) in
      elim (visit e) [
        | true ↦ done (hit c e)
        | false ↦ elim (advance v c) [
          | none ↦ done (exhausted c e)
          | some c' ↦ dir_scan f v stop visit c' e
        ]
      ]
]
