-- ===== src/Fat16/Attr.antt =====
-- `fat16_getattr` and `fat16_readdir` of lab4/simple_fat16_new.c.
pub mod Blocks
pub mod Listing
use os2021_labscript.Common.{
  ℕ, zero, suc, ◌+◌, ◌*◌, ◌/◌, ◌%◌, ◌^◌, ◌==◌, ◌&&◌, ◌||◌, not, if◌then◌else◌, same_text, Bool,
  true, false, List, [], ◌∷◌, Option, none, some,
}
use os2021_labscript.Common.Outcome.{Outcome, done, undefined, diverged, ◌>>=◌}
use os2021_labscript.Fat16.Image.{Buffer, bytes_per_sector, sector_read}
use os2021_labscript.Fat16.Volume.{
  Fat16, DirEntry, entry_at, first_byte, attr_directory, attr_archive,
}
use os2021_labscript.Fat16.Paths.{slash}
use os2021_labscript.Fat16.Names.{path_decode}
use os2021_labscript.Fat16.Scan.{entry_offset, Cursor, cursor_at, advance}
use os2021_labscript.Fat16.Lookup.{find_root}
use os2021_labscript.Fat16.Update.{Tm, Code, success, enoent}

-- `st_mode`: a directory or a regular file, with its permission bits
pub data Mode : Type 0 where
  dir_mode : ℕ → Mode
  file_mode : ℕ → Mode

-- The members of `struct stat` that are set
pub record Stat : Type 0 where
  pub st_dev : ℕ
  pub st_blksize : ℕ
  pub st_uid : ℕ
  pub st_gid : ℕ
  pub st_mode : Mode
  pub st_size : ℕ
  pub st_blocks : ℕ
  pub st_mtime : ℕ

-- The `struct tm` handed to `mktime`; `x & ((1 << k) - 1)` is `x % 2 ^ k`.
unfoldable pub entry_time : DirEntry → Tm
entry_time e = record {
  tm_sec = e.wrt_time % 2 ^ 5;
  tm_min = e.wrt_time / 2 ^ 5 % 2 ^ 6;
  tm_hour = e.wrt_time / 2 ^ 11;
  tm_mday = e.wrt_date % 2 ^ 5;
  tm_mon = e.wrt_date / 2 ^ 5 % 2 ^ 4;
  tm_year = e.wrt_date / 2 ^ 9 + 80;
}

unfoldable pub block_count : ℕ → ℕ → ℕ
block_count size blksize = if not (size % blksize == 0) then size / blksize + 1 else size / blksize

-- `mktime`, `getuid` and `getgid` come from outside. A `BPB_SecPerClus` of 0 divides by zero.
module _ (mktime : Tm → ℕ) (uid gid : ℕ) where
  unfoldable pub root_stat : Fat16 → Stat
  root_stat v = record {
    st_dev = v.bpb.voll_id;
    st_blksize = bytes_per_sector * v.bpb.sec_per_clus;
    st_uid = uid;
    st_gid = gid;
    st_mode = dir_mode 0o700;
    st_size = 0;
    st_blocks = 0;
    st_mtime = 0;
  }

  unfoldable pub entry_stat : Fat16 → DirEntry → Stat
  unfolding entry_time block_count
  entry_stat v e = record {
    st_dev = v.bpb.voll_id;
    st_blksize = bytes_per_sector * v.bpb.sec_per_clus;
    st_uid = uid;
    st_gid = gid;
    st_mode = if e.attr == attr_directory then dir_mode 0o755 else file_mode 0o755;
    st_size = e.file_size;
    st_blocks = block_count e.file_size (bytes_per_sector * v.bpb.sec_per_clus);
    st_mtime = mktime (entry_time e);
  }

  -- `none` stands for `-ENOENT`.
  unfoldable pub fat16_getattr :
      ℕ → (ℕ → List ℕ) → DirEntry → Fat16 → List ℕ → Outcome (Option Stat)
  unfolding root_stat entry_stat
  fat16_getattr fuel raw dir v path =
      if same_text path (slash ∷ []) then done (some (root_stat v)) else do
        r ← find_root fuel raw v dir path
        if not (r.0 == 0)
            then done none
            else if v.bpb.sec_per_clus == 0
            then undefined
            else done (some (entry_stat v r.1))

-- An entry that `readdir` hands to `filler`
unfoldable pub is_listed : DirEntry → Bool
is_listed e = ((e.attr == attr_archive) || (e.attr == attr_directory)) && not (first_byte e == 0xe5)

unfoldable pub list_entry : DirEntry → List (List ℕ) → List (List ℕ)
unfolding is_listed
list_entry e names = if is_listed e then path_decode e.name ∷ names else names

-- The loop over the root directory; the result is what is handed to `filler`, in order.
unfoldable pub readdir_root : Fat16 → (left i root_dir_cnt : ℕ) → Buffer → List (List ℕ)
unfolding list_entry
readdir_root v zero i cnt buffer = []
readdir_root v (suc left) i cnt buffer =
    let e : DirEntry = entry_at buffer (entry_offset i) in
    let cross : Bool = (i % 16 == 0) && not (i == v.bpb.root_ent_cnt) in
    elim (first_byte e == 0) [
      | true ↦ []
      | false ↦ list_entry e (
          readdir_root v left (i + 1) (if cross then cnt + 1 else cnt)
            (if cross then sector_read v.image (v.first_root_dir_sec_num + cnt) else buffer))
    ]

unfoldable pub readdir_dir : ℕ → Fat16 → Cursor → DirEntry → Outcome (List (List ℕ))
unfolding list_entry
readdir_dir zero v c dir = diverged
readdir_dir (suc f) v c dir = elim (first_byte dir == 0) [
  | true ↦ done []
  | false ↦
      let e : DirEntry = entry_at c.buffer (entry_offset c.i) in
      elim (advance v c) [
        | none ↦ done (list_entry e [])
        | some c' ↦ readdir_dir f v c' e >>= λ names. done (list_entry e names)
      ]
]

unfoldable pub fat16_readdir :
    ℕ → (ℕ → List ℕ) → DirEntry → Fat16 → List ℕ → Outcome (Code × List (List ℕ))
unfolding readdir_root readdir_dir
fat16_readdir fuel raw dir v path =
    if same_text path (slash ∷ [])
    then done (
      success,
      readdir_root v v.bpb.root_ent_cnt 1 1 (sector_read v.image v.first_root_dir_sec_num),
    )
    else do
      r ← find_root fuel raw v dir path
      if r.0 == 1 then done (enoent, []) else (do
        names ← readdir_dir fuel v (cursor_at v r.1.fst_clus_lo) r.1
        done (success, names))
