-- ===== src/Fat16/Volume.antt =====
-- The structures of lab4/fat16.h, and `pre_init_fat16` of lab4/simple_fat16_new.c.
use os2021_labscript.Common.{
  ℕ, ◌+◌, ◌-◌, ◌*◌, ◌/◌, ◌==◌, if◌then◌else◌, List, [], ◌∷◌, Option, none, some, get_or,
}
use os2021_labscript.Common.Outcome.{Outcome, done, exit, undefined}
use os2021_labscript.Fat16.Image.{Image, Buffer, dword, word_at, dword_at, sector_read}

-- `BPB_BS`, without the byte arrays that no code reads
pub record Bpb : Type 0 where
  pub byts_per_sec : ℕ
  pub sec_per_clus : ℕ
  pub rsvd_sec_cnt : ℕ
  pub num_fats : ℕ
  pub root_ent_cnt : ℕ
  pub tot_sec16 : ℕ
  pub media : ℕ
  pub fat_sz16 : ℕ
  pub sec_per_trk : ℕ
  pub num_heads : ℕ
  pub hidd_sec : ℕ
  pub tot_sec32 : ℕ
  pub drv_num : ℕ
  pub boot_sig : ℕ
  pub voll_id : ℕ
  pub signature_word : ℕ

-- `DIR_ENTRY`; the name is its 11 bytes.
pub record DirEntry : Type 0 where
  pub name : List ℕ
  pub attr : ℕ
  pub nt_res : ℕ
  pub crt_time_tenth : ℕ
  pub crt_time : ℕ
  pub crt_date : ℕ
  pub lst_acc_date : ℕ
  pub fst_clus_hi : ℕ
  pub wrt_time : ℕ
  pub wrt_date : ℕ
  pub fst_clus_lo : ℕ
  pub file_size : ℕ

abbrev pub attr_directory : ℕ
attr_directory = 0x10

abbrev pub attr_archive : ℕ
attr_archive = 0x20

-- `FAT16`, with the image in place of the file handle
pub record Fat16 : Type 0 where
  pub image : Image
  pub first_root_dir_sec_num : ℕ
  pub first_data_sector : ℕ
  pub bpb : Bpb

-- `DIR_Name[0]`
abbrev pub first_byte : DirEntry → ℕ
first_byte e = get_or e.name 0 0

-- The fields of the packed structure, by their offsets
unfoldable pub entry_of : Buffer → DirEntry
entry_of b = record {
  name = b 0 ∷ b 1 ∷ b 2 ∷ b 3 ∷ b 4 ∷ b 5 ∷ b 6 ∷ b 7 ∷ b 8 ∷ b 9 ∷ b 10 ∷ [];
  attr = b 11;
  nt_res = b 12;
  crt_time_tenth = b 13;
  crt_time = word_at b 14;
  crt_date = word_at b 16;
  lst_acc_date = word_at b 18;
  fst_clus_hi = word_at b 20;
  wrt_time = word_at b 22;
  wrt_date = word_at b 24;
  fst_clus_lo = word_at b 26;
  file_size = dword_at b 28;
}

-- `memcpy(&Dir, &buffer[p], BYTES_PER_DIR)`
unfoldable pub entry_at : Buffer → ℕ → DirEntry
unfolding entry_of
entry_at b p = entry_of (λ j. b (p + j))

-- The packed structure over the first sector
unfoldable pub bpb_at : Buffer → Bpb
bpb_at b = record {
  byts_per_sec = word_at b 11;
  sec_per_clus = b 13;
  rsvd_sec_cnt = word_at b 14;
  num_fats = b 16;
  root_ent_cnt = word_at b 17;
  tot_sec16 = word_at b 19;
  media = b 21;
  fat_sz16 = word_at b 22;
  sec_per_trk = word_at b 24;
  num_heads = word_at b 26;
  hidd_sec = dword_at b 28;
  tot_sec32 = dword_at b 32;
  drv_num = b 36;
  boot_sig = b 38;
  voll_id = dword_at b 39;
  signature_word = word_at b 510;
}

-- The root directory starts behind the reserved sectors and the tables.
unfoldable pub first_root_dir_sector : Bpb → ℕ
first_root_dir_sector b = dword (b.rsvd_sec_cnt + b.fat_sz16 * b.num_fats)

unfoldable pub root_dir_sectors : Bpb → ℕ
root_dir_sectors b = (b.root_ent_cnt * 32 + (b.byts_per_sec - 1)) / b.byts_per_sec

-- `none` for an image that `fopen` does not open; a zero `BPB_BytsPerSec` divides by zero.
unfoldable pub pre_init_fat16 : Option Image → Outcome Fat16
unfolding first_root_dir_sector root_dir_sectors
pre_init_fat16 none = exit 1
pre_init_fat16 (some img) =
    let b : Bpb = bpb_at (sector_read img 0) in
    if b.byts_per_sec == 0
    then undefined
    else done (record {
      image = img;
      first_root_dir_sec_num = first_root_dir_sector b;
      first_data_sector = dword (b.rsvd_sec_cnt + b.num_fats * b.fat_sz16 + root_dir_sectors b);
      bpb = b;
    })
