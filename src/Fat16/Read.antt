-- ===== src/Fat16/Read.antt =====
-- `read_path` of lab4/simple_fat16_new.c, behind `fat16_read`.
pub mod Bytes
use os2021_labscript.Common.{
  ℕ, zero, suc, ◌+◌, ◌-◌, ◌/◌, ◌%◌, ◌==◌, ◌&&◌, ltb, leb, if◌then◌else◌, List, [], ◌∷◌,
}
use os2021_labscript.Common.Outcome.{Outcome, done, undefined, ◌>>=◌}
use os2021_labscript.Fat16.Image.{Buffer, bytes_per_sector, sector_read}
use os2021_labscript.Fat16.Volume.{Fat16, DirEntry}
use os2021_labscript.Fat16.Table.{fat_entry_by_cluster, first_sector_of_cluster}
use os2021_labscript.Fat16.Lookup.{find_root}

-- The variables of the loop
pub record Reader : Type 0 where
  pub i : ℕ
  pub j : ℕ
  pub fat_clus_entry_val : ℕ
  pub first_sector : ℕ
  pub sector_buffer : Buffer

-- The buffer with a sector from byte `pos` on
unfoldable pub with_sector : Buffer → ℕ → Buffer → Buffer
with_sector b pos sector q =
    if leb pos q && ltb q (pos + bytes_per_sector) then sector (q - pos) else b q

-- `sector_read` of one sector to `sector_buffer + pos`; the buffer has `room` bytes.
unfoldable pub put_sector : (room : ℕ) → Buffer → ℕ → Buffer → Outcome Buffer
unfolding with_sector
put_sector room b pos sector =
    if leb (pos + bytes_per_sector) room then done (with_sector b pos sector) else undefined

-- The variables behind a round, with its `i += 512, j++`; at the end of a cluster `j` goes to -1
-- before.
unfoldable pub next_sector : Fat16 → Reader → Buffer → Reader
next_sector v r b =
    if (r.j + 1) % v.bpb.sec_per_clus == 0
    then record {
      i = r.i + bytes_per_sector;
      j = 0;
      fat_clus_entry_val = fat_entry_by_cluster v r.fat_clus_entry_val;
      first_sector = first_sector_of_cluster v r.fat_clus_entry_val;
      sector_buffer = b;
    }
    else record r { i = r.i + bytes_per_sector; j = r.j + 1; sector_buffer = b }

-- One round. A `BPB_SecPerClus` of 0 divides by zero.
unfoldable pub read_round : (room : ℕ) → Fat16 → Reader → Outcome Reader
unfolding put_sector next_sector
read_round room v r = do
  b ← put_sector room r.sector_buffer r.i (sector_read v.image (r.first_sector + r.j))
  if v.bpb.sec_per_clus == 0 then undefined else done (next_sector v r b)

unfoldable pub read_rounds : (left room : ℕ) → Fat16 → Reader → Outcome Reader
unfolding read_round
read_rounds zero room v r = done r
read_rounds (suc n) room v r = do r' ← read_round room v r; read_rounds n room v r'

-- The rounds of `for (i = 0; i < size + offset; i += BYTES_PER_SECTOR)`
abbrev pub sectors_for : ℕ → ℕ
sectors_for n = (n + 511) / 512

-- At the first sector of a file; `b` is what `malloc` left.
unfoldable pub reader_at : Fat16 → ℕ → Buffer → Reader
reader_at v n b = record {
  i = 0;
  j = 0;
  fat_clus_entry_val = fat_entry_by_cluster v n;
  first_sector = first_sector_of_cluster v n;
  sector_buffer = b;
}

-- `memcpy` of `size` bytes from `b + pos`
unfoldable pub copy_bytes : Buffer → ℕ → ℕ → List ℕ
copy_bytes b pos zero = []
copy_bytes b pos (suc n) = b pos ∷ copy_bytes b (pos + 1) n

-- What is returned, with the bytes put in the caller's buffer. `sector_buffer` has
-- `size + offset` bytes, and the loop puts whole sectors into it.
unfoldable pub read_data : Fat16 → DirEntry → (size offset : ℕ) → Buffer → Outcome (ℕ × List ℕ)
unfolding read_rounds reader_at
read_data v dir size offset b = do
  r ← read_rounds (sectors_for (size + offset)) (size + offset) v (reader_at v dir.fst_clus_lo b)
  if ltb offset dir.file_size
      then done (size, copy_bytes r.sector_buffer offset size)
      else done (0, [])

-- What `find_root` returns is not looked at.
unfoldable pub read_path :
    ℕ → (ℕ → List ℕ) → DirEntry → Buffer → Fat16 → List ℕ → (size offset : ℕ) → Outcome (ℕ × List ℕ)
unfolding read_data
read_path fuel raw dir b v path size offset = do
  r ← find_root fuel raw v dir path
  read_data v r.1 size offset b
