-- ===== src/Fat16/Table/Entries.antt =====
-- Where the entries of the table lie, and what a write of one entry does to the others.
use os2021_labscript.Common.{
  ℕ, ◌+◌, ◌*◌, ◌^◌, ◌≤◌, ◌<◌, ◌≡◌, ◌==◌, if◌then◌else◌, ==_iff, ==_of_ne, ◌⊎◌, inl, inr, arith,
}
use mathlib.Core.Path.{ap₂}
use native.Mathlib.Decide.{ℕ_discrete}
use os2021_labscript.Fat16.Image.{Image, store, sector_read, dword, word_at, bytes_of_word}
use os2021_labscript.Fat16.Volume.{Fat16}
use os2021_labscript.Fat16.Table.{
  fat_entry_by_cluster, fat_sector, fat_sector2, fat_offset, fat_index, store_word,
}

-- Sectors of 512 bytes, both tables in reach of a WORD sector number, and the second one behind
-- the first, which has an entry for every cluster below `n`.
pub record IsTable (v : Fat16) (n : ℕ) : Type 0 where
  pub sector : v.bpb.byts_per_sec ≡ 512
  pub reach : v.bpb.rsvd_sec_cnt + v.bpb.fat_sz16 + 128 < 2 ^ 16
  pub covers : 2 * n ≤ 512 * v.bpb.fat_sz16
  pub narrow : n ≤ 2 ^ 15

-- The offset of an entry in the first table
abbrev pub entry_place : Fat16 → ℕ → ℕ
entry_place v n = 512 * v.bpb.rsvd_sec_cnt + 2 * n

module _ {v : Fat16} {top : ℕ} (t : IsTable v top) (n : ℕ) (h : n < top) where
  pub write_place : fat_sector v n * v.bpb.byts_per_sec + fat_index v n ≡ entry_place v n
  write_place = rw (t.sector) (omega arith)

  pub write_place2 :
      fat_sector2 v n * v.bpb.byts_per_sec + fat_index v n ≡ entry_place v n + 512 * v.bpb.fat_sz16
  write_place2 = rw (t.sector) (omega arith)

  pub read_place : dword (512 * fat_sector v n) + fat_index v n ≡ entry_place v n
  read_place = rw (t.sector) (omega arith)

  pub fat_entry_lem : fat_entry_by_cluster v n ≡ word_at v.image (entry_place v n)
  unfolding fat_entry_by_cluster sector_read
  fat_entry_lem = ap₂ (λ a b. v.image a + 256 * v.image b) read_place (omega (arith, read_place))

-- A word read back, and one that lies apart from the word written
pub word_at-store :
    (img : Image) (p w : ℕ) → w < 2 ^ 16 → word_at (store img p (bytes_of_word w)) p ≡ w
unfolding store
word_at-store img p w h = ground arith

pub word_at-store_apart :
    (img : Image) (p q w : ℕ)
    → (q + 2 ≤ p) ⊎ (p + 2 ≤ q)
    → word_at (store img p (bytes_of_word w)) q ≡ word_at img q
unfolding store
word_at-store_apart img p q w (inl h) = ground arith
word_at-store_apart img p q w (inr h) = ground arith

-- A write at the place of entry `n` is read back there, and no other entry changes.
pub fat_entry-store :
    {v : Fat16} {top : ℕ} (t : IsTable v top) (n m w : ℕ)
    → n < top
    → m < top
    → w < 2 ^ 16
    → fat_entry_by_cluster (store_word v (entry_place v n) w) m
      ≡ (if n == m then w else fat_entry_by_cluster v m)
fat_entry-store {v} {top} t n m w hn hm hw =
    rw (fat_entry_lem {v = store_word v (entry_place v n) w} t' m hm, fat_entry_lem t m hm)
      (elim (ℕ_discrete n m) [
        | yes e ↦ rw ((==_iff n m).1 e, ← e) (word_at-store v.image (entry_place v n) w hw)
        | no ne ↦
            rw (==_of_ne n m ne)
              (word_at-store_apart v.image (entry_place v n) (entry_place v m) w (omega arith))
      ])
  where
    t' : IsTable (store_word v (entry_place v n) w) top
    t' = record { sector = t.sector; reach = t.reach; covers = t.covers; narrow = t.narrow }

-- The offset in the table is a WORD: cluster `n + 2 ^ 15` has the same entry as cluster `n`.
pub fat_entry_alias :
    (v : Fat16) (n : ℕ) → fat_entry_by_cluster v (n + 2 ^ 15) ≡ fat_entry_by_cluster v n
unfolding fat_entry_by_cluster
fat_entry_alias v n = let e : fat_offset (n + 2 ^ 15) ≡ fat_offset n = omega arith in rw e
