-- ===== src/Fat16/Scan/Dir.antt =====
-- The loop over a directory that is not the root reads the entries of a cluster in order.
use os2021_labscript.Common.{
  ℕ, ◌+◌, ◌*◌, ◌/◌, ◌%◌, ◌^◌, ◌≤◌, ◌<◌, ◌≡◌, refl, ◌==◌, ==_of_ne, lt→ltb, ge→ltb, if◌then◌else◌,
  arith, some, none,
}
use mathlib.Core.Path.{ap, fun_ext}
use native.Mathlib.Decide.{ℕ_discrete}
use os2021_labscript.Fat16.Image.{sector_read, dword}
use os2021_labscript.Fat16.Volume.{Fat16, entry_at, entry_of}
use os2021_labscript.Fat16.Table.{
  fat_entry_by_cluster, first_sector_of_cluster, first_sector_by_cluster,
}
use os2021_labscript.Fat16.Scan.{Cursor, cursor_at, advance, entry_offset}

-- The loop at entry `t` of cluster `n`, both counted from 0
abbrev pub cursor_in : Fat16 → (n t : ℕ) → Cursor
cursor_in v n t = record {
  i = t + 1;
  dir_sec_cnt = t / 16 + 1;
  cluster = n;
  fat_clus_entry_val = fat_entry_by_cluster v n;
  first_sector = first_sector_of_cluster v n;
  buffer = sector_read v.image (first_sector_of_cluster v n + t / 16);
}

-- A step inside a cluster goes to the next entry.
advance-within :
    (v : Fat16) (n t : ℕ)
    → t + 1 < 16 * v.bpb.sec_per_clus
    → advance v (cursor_in v n t) ≡ some (cursor_in v n (t + 1))
unfolding advance
advance-within v n t h = elim (ℕ_discrete ((t + 1) % 16) 0) [
  | yes e ↦
      let q : (t + 1) / 16 ≡ t / 16 + 1 = omega arith in
      rw (advance, e, lt→ltb (t / 16 + 1) v.bpb.sec_per_clus (omega arith), q) refl
  | no ne ↦ let q : (t + 1) / 16 ≡ t / 16 = omega arith in rw (advance, ==_of_ne _ _ ne, q) refl
]

-- After the last entry of a cluster the chain is followed.
advance-last :
    (v : Fat16) (n t : ℕ)
    → t + 1 ≡ 16 * v.bpb.sec_per_clus
    → advance v (cursor_in v n t) ≡ (
        if fat_entry_by_cluster v n == 0xffff
        then none
        else some (cursor_at v (fat_entry_by_cluster v n)))
unfolding advance
advance-last v n t h =
    let q : (t + 1) % 16 ≡ 0 = omega arith in
    rw (advance, q, ge→ltb (t / 16 + 1) v.bpb.sec_per_clus (omega arith)) refl

cursor_at_first : (v : Fat16) (n : ℕ) → cursor_at v n ≡ cursor_in v n 0
unfolding cursor_at first_sector_by_cluster
cursor_at_first v n =
    let q : first_sector_of_cluster v n ≡ first_sector_of_cluster v n + 0 = omega arith in
    ap (λ z. record (cursor_in v n 0) { buffer = sector_read v.image z }) q

-- The entry that the cursor is at
entry_at-cursor :
    (v : Fat16) (n t : ℕ)
    → 512 * first_sector_of_cluster v n + 32 * t < 2 ^ 32
    → entry_at (cursor_in v n t).buffer (entry_offset (cursor_in v n t).i)
      ≡ entry_at v.image (512 * first_sector_of_cluster v n + 32 * t)
unfolding entry_at sector_read
entry_at-cursor v n t h = ap entry_of (fun_ext (λ j. ap v.image (place j)))
  where
    place :
        (j : ℕ)
        → dword (512 * (first_sector_of_cluster v n + t / 16)) + (entry_offset (t + 1) + j)
          ≡ 512 * first_sector_of_cluster v n + 32 * t + j
    place j = omega arith

-- What the loop over a cluster does: it starts at entry 0; at entry `t` it reads the entry at its
-- place in the image; then it goes to the next entry, and from the last one to the next cluster of
-- the chain, or to the end where the table says 0xffff.
pub record Walks (v : Fat16) (n : ℕ) : Type 0 where
  pub first : cursor_at v n ≡ cursor_in v n 0
  pub reads :
      (t : ℕ)
      → t < 16 * v.bpb.sec_per_clus
      → entry_at (cursor_in v n t).buffer (entry_offset (cursor_in v n t).i)
        ≡ entry_at v.image (512 * first_sector_of_cluster v n + 32 * t)
  pub next :
      (t : ℕ)
      → t + 1 < 16 * v.bpb.sec_per_clus
      → advance v (cursor_in v n t) ≡ some (cursor_in v n (t + 1))
  pub last :
      (t : ℕ)
      → t + 1 ≡ 16 * v.bpb.sec_per_clus
      → advance v (cursor_in v n t) ≡ (
          if fat_entry_by_cluster v n == 0xffff
          then none
          else some (cursor_at v (fat_entry_by_cluster v n)))

-- If cluster `n` ends at or below 2 ^ 32, the loop over a directory other than the root reads its
-- entries from the first to the last, each at its own place in the image, and then goes on to the
-- cluster that the table says, or ends where that is 0xffff.
pub advance-Walks :
    (v : Fat16) (n : ℕ)
    → 512 * (first_sector_of_cluster v n + v.bpb.sec_per_clus) ≤ 2 ^ 32
    → Walks v n
advance-Walks v n h = record {
  first = cursor_at_first v n;
  reads = λ t lt. entry_at-cursor v n t (omega arith);
  next = advance-within v n;
  last = advance-last v n;
}
