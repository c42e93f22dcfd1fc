-- ===== src/Fat16/Locate.antt =====
-- Where an entry stands in the image: the parts of `fat16_mknod`, `fat16_unlink` and `edit_size`
-- of lab4/simple_fat16_new.c that look for it in the parent directory.
pub mod Root
use os2021_labscript.Common.{
  ℕ, ◌+◌, ◌-◌, ◌*◌, ◌%◌, ◌^◌, ◌==◌, ◌||◌, if◌then◌else◌, same_text, Bool, false, List, [], ◌∷◌,
  Option, none, some,
}
use os2021_labscript.Common.Outcome.{Outcome, done, ◌>>=◌}
use os2021_labscript.Fat16.Image.{dword, bytes_per_dir, bytes_per_sector}
use os2021_labscript.Fat16.Volume.{Fat16, DirEntry, first_byte}
use os2021_labscript.Fat16.Paths.{slash, depth, org_path_split, get_prt_path, last_slot}
use os2021_labscript.Fat16.Names.{path_decode}
use os2021_labscript.Fat16.Scan.{
  entry_offset, pass, accept, found, missed, scan_root, Cursor, cursor_at, hit, stopped, exhausted,
  dir_scan,
}
use os2021_labscript.Fat16.Lookup.{find_root, at_end}

-- `sectorNum` and `offset`. The offset is an `int`, kept as its 32 bits.
pub record Slot : Type 0 where
  pub sector_num : ℕ
  pub offset : ℕ

-- `sectorNum * BPB_BytsPerSec + offset`
unfoldable pub slot_position : Fat16 → Slot → ℕ
slot_position v s = dword (s.sector_num * v.bpb.byts_per_sec + s.offset)

-- The sector of the root directory that the loop is in
unfoldable pub root_sector : Fat16 → ℕ → ℕ
root_sector v cnt = dword (cnt - 1 + v.bpb.rsvd_sec_cnt + v.bpb.num_fats * v.bpb.fat_sz16)

-- The sector that the loop over another directory is in
unfoldable pub dir_sector : Fat16 → Cursor → ℕ
dir_sector v c = dword (
    c.dir_sec_cnt
    - 1
    + c.cluster * v.bpb.sec_per_clus
    + v.first_data_sector
    + 2 ^ 32
    - 2 * v.bpb.sec_per_clus)

abbrev pub is_root_path : List ℕ → Bool
is_root_path prt = same_text prt (slash ∷ [])

-- `strcmp(path_decode(Root.DIR_Name), pathSplit[pathDepth - 1]) == 0`
unfoldable pub has_name : List ℕ → DirEntry → Bool
has_name name e = same_text (path_decode e.name) name

unfoldable pub locate_in_root : Fat16 → List ℕ → DirEntry → Option Slot
unfolding has_name root_sector
locate_in_root v name dir = elim (scan_root v (λ e. if has_name name e then accept else pass) dir) [
  | found i cnt e ↦ some (record { sector_num = root_sector v cnt; offset = entry_offset i })
  | missed e ↦ none
]

-- `dir` is the entry of the parent directory.
unfoldable pub locate_in_dir : ℕ → Fat16 → List ℕ → DirEntry → Outcome (Option Slot)
unfolding has_name dir_sector
locate_in_dir fuel v name dir = do
  s ← dir_scan fuel v at_end (has_name name) (cursor_at v dir.fst_clus_lo) dir
  elim s [
    | hit c e ↦ done (some (record { sector_num = dir_sector v c; offset = entry_offset c.i }))
    | stopped c e ↦ done none
    | exhausted c e ↦ done none
  ]

-- The entry of `path` in its parent, as `fat16_unlink` and `edit_size` look for it; `none` where
-- `findFlag` stays 0. What `find_root` returns for the parent is not looked at.
unfoldable pub locate : ℕ → (ℕ → List ℕ) → Fat16 → DirEntry → List ℕ → Outcome (Option Slot)
unfolding locate_in_root locate_in_dir
locate fuel raw v dir path = do
  prt ← get_prt_path path (org_path_split path) (depth path)
  name ← last_slot (org_path_split path)
  if is_root_path prt
      then done (locate_in_root v name dir)
      else do parent ← find_root fuel raw v dir prt; locate_in_dir fuel v name parent.1

-- `Root.DIR_Name[0] == 0x00 || Root.DIR_Name[0] == 0xe5`
unfoldable pub is_free : DirEntry → Bool
is_free e = (first_byte e == 0) || (first_byte e == 0xe5)

unfoldable pub free_in_root : Fat16 → DirEntry → Option Slot
unfolding is_free root_sector
free_in_root v dir = elim (scan_root v (λ e. if is_free e then accept else pass) dir) [
  | found i cnt e ↦ some (record { sector_num = root_sector v cnt; offset = entry_offset i })
  | missed e ↦ none
]

-- `((i - 2) * BYTES_PER_DIR) % BYTES_PER_SECTOR`, which is -32 at `i == 1`
unfoldable pub offset_before : ℕ → ℕ
offset_before i =
    if i == 1 then 2 ^ 32 - bytes_per_dir else (i - 2) * bytes_per_dir % bytes_per_sector

-- `dir` is the entry of the parent; the loop ends one round after the free entry was read.
unfoldable pub free_in_dir : ℕ → Fat16 → DirEntry → Outcome (Option Slot)
unfolding is_free dir_sector offset_before
free_in_dir fuel v dir = do
  s ← dir_scan fuel v is_free (λ e. false) (cursor_at v dir.fst_clus_lo) dir
  elim s [
    | hit c e ↦ done none
    | stopped c e ↦ done (some (record { sector_num = dir_sector v c; offset = offset_before c.i }))
    | exhausted c e ↦ done none
  ]
