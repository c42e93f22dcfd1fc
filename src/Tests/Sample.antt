-- ===== src/Tests/Sample.antt =====
-- A small volume: one sector to a cluster, two tables of one sector, 16 root entries.
-- `/a.txt` is in clusters 2 and 5; `/d` is the directory in cluster 3; `/d/b` is in cluster 4.
use os2021_labscript.Common.{ℕ, List, [], ◌∷◌, ◌++◌, replicate}
use os2021_labscript.Fat16.Image.{Image, store, bytes_of_word, bytes_of_dword}
use os2021_labscript.Fat16.Volume.{Fat16, Bpb, DirEntry}

abbrev pub bpb : Bpb
bpb = record {
  byts_per_sec = 512;
  sec_per_clus = 1;
  rsvd_sec_cnt = 1;
  num_fats = 2;
  root_ent_cnt = 16;
  tot_sec16 = 100;
  media = 0xf8;
  fat_sz16 = 1;
  sec_per_trk = 1;
  num_heads = 1;
  hidd_sec = 0;
  tot_sec32 = 0;
  drv_num = 0;
  boot_sig = 41;
  voll_id = 7;
  signature_word = 43605;
}

abbrev pub raw_entry : List ℕ → (attr cluster size : ℕ) → List ℕ
raw_entry name attr cluster size =
    name ++ ((attr ∷ replicate 14 0) ++ (bytes_of_word cluster ++ bytes_of_dword size))

-- "A       TXT", "D          " and "B          "
abbrev pub name_a : List ℕ
name_a = b'A' ∷ replicate 7 b' ' ++ (b'T' ∷ b'X' ∷ b'T' ∷ [])

abbrev pub name_d : List ℕ
name_d = b'D' ∷ replicate 10 b' '

abbrev pub name_b : List ℕ
name_b = b'B' ∷ replicate 10 b' '

abbrev pub table : List ℕ
table =
    bytes_of_word 0xfff8
    ++ (bytes_of_word 0xffff
        ++ (bytes_of_word 5
            ++ (bytes_of_word 0xffff ++ (bytes_of_word 0xffff ++ bytes_of_word 0xffff))))

abbrev pub boot : List ℕ
boot =
    replicate 11 0
    ++ (bytes_of_word 512
        ++ (1 ∷ bytes_of_word 1
            ++ (2 ∷ bytes_of_word 16
                ++ (bytes_of_word 100
                    ++ (0xf8 ∷ bytes_of_word 1
                        ++ (bytes_of_word 1
                            ++ (bytes_of_word 1
                                ++ (replicate 8 0 ++ (0 ∷ 0 ∷ 41 ∷ bytes_of_dword 7)))))))))

abbrev pub image : Image
image =
    store
      (store
        (store (store (store (store (λ p. 0) 0 boot) 510 (bytes_of_word 43605)) 512 table) 1024
          table)
        1536 (raw_entry name_a 0x20 2 600 ++ raw_entry name_d 0x10 3 0))
      2560 (raw_entry name_b 0x20 4 3)

abbrev pub volume : Fat16
volume = record { image = image; first_root_dir_sec_num = 3; first_data_sector = 4; bpb = bpb }

-- What `malloc` leaves, and an entry that is not set
abbrev pub raw : ℕ → List ℕ
raw i = replicate 11 0

abbrev pub heap : ℕ → ℕ → List ℕ
heap k i = replicate 11 0

abbrev pub unset : DirEntry
unset = record {
  name = replicate 11 0;
  attr = 0;
  nt_res = 0;
  crt_time_tenth = 0;
  crt_time = 0;
  crt_date = 0;
  lst_acc_date = 0;
  fst_clus_hi = 0;
  wrt_time = 0;
  wrt_date = 0;
  fst_clus_lo = 0;
  file_size = 0;
}

-- "/a.txt", "/d/b", "/d/c"
abbrev pub path_a : List ℕ
path_a = b'/' ∷ b'a' ∷ b'.' ∷ b't' ∷ b'x' ∷ b't' ∷ []

abbrev pub path_d : List ℕ
path_d = b'/' ∷ b'd' ∷ []

abbrev pub path_b : List ℕ
path_b = b'/' ∷ b'd' ∷ b'/' ∷ b'b' ∷ []

abbrev pub path_c : List ℕ
path_c = b'/' ∷ b'd' ∷ b'/' ∷ b'c' ∷ []
