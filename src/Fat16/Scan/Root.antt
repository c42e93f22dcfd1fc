-- ===== src/Fat16/Scan/Root.antt =====
-- The loop over the root directory is a search through its entries in order.
use os2021_labscript.Common.{
  ℕ, zero, suc, ◌+◌, ◌*◌, ◌/◌, ◌%◌, ◌^◌, ◌<◌, ◌≡◌, ◌∙◌, refl, ◌==◌, ◌&&◌, not, Bool, true, false,
  arith, Bool-cases, ◌⊎◌, inl, inr,
}
use os2021_labscript.Fat16.Image.{Buffer, sector_read, dword}
use mathlib.Core.Path.{ap, fun_ext}
use os2021_labscript.Fat16.Volume.{Fat16, DirEntry, entry_at, entry_of}
use os2021_labscript.Fat16.Scan.{
  Verdict, pass, accept, give_up, RootResult, found, missed, root_scan, scan_root, entry_offset,
}

-- Entry `k` of the root directory, counted from 0, at its place in the image
abbrev pub root_place : Fat16 → ℕ → ℕ
root_place v k = 512 * v.first_root_dir_sec_num + 32 * k

abbrev pub root_entry : Fat16 → ℕ → DirEntry
root_entry v k = entry_at v.image (root_place v k)

-- The search through `left` entries from number `k` on
unfoldable pub root_search : Fat16 → (DirEntry → Verdict) → (left k : ℕ) → DirEntry → RootResult
root_search v visit zero k dir = missed dir
root_search v visit (suc left) k dir = elim (visit (root_entry v k)) [
  | accept ↦ found (k + 1) (k / 16 + 1) (root_entry v k)
  | give_up ↦ missed (root_entry v k)
  | pass ↦ root_search v visit left (k + 1) (root_entry v k)
]

-- An entry read from the right sector is the entry at its place.
pub entry_at-sector :
    (v : Fat16) (k : ℕ)
    → 512 * v.first_root_dir_sec_num + 32 * k < 2 ^ 32
    → entry_at (sector_read v.image (v.first_root_dir_sec_num + k / 16)) (entry_offset (k + 1))
      ≡ root_entry v k
unfolding entry_at sector_read
entry_at-sector v k h = ap entry_of (fun_ext (λ j. ap v.image (place j)))
  where
    place :
        (j : ℕ)
        → dword (512 * (v.first_root_dir_sec_num + k / 16)) + (entry_offset (k + 1) + j)
          ≡ root_place v k + j
    place j = omega arith

pub Verdict-cases : (d : Verdict) → (d ≡ pass) ⊎ ((d ≡ accept) ⊎ (d ≡ give_up))
Verdict-cases pass = inl refl
Verdict-cases accept = inr (inl refl)
Verdict-cases give_up = inr (inr refl)

-- Where the loop goes on after entry `k`, by the test for the end of a sector
abbrev root_next :
    Fat16 → (DirEntry → Verdict) → (left k : ℕ) → Buffer → DirEntry → Bool → RootResult
root_next v visit left k buffer e true =
    root_scan v visit left (k + 1 + 1) (k / 16 + 1 + 1)
      (sector_read v.image (v.first_root_dir_sec_num + (k / 16 + 1))) e
root_next v visit left k buffer e false = root_scan v visit left (k + 1 + 1) (k / 16 + 1) buffer e

abbrev pub crosses : Fat16 → ℕ → Bool
crosses v k = ((k + 1) % 16 == 0) && not (k + 1 == v.bpb.root_ent_cnt)

-- The buffer then holds the sector of entry `k + 1`, if there is one.
root_next_sector :
    (v : Fat16) (visit : DirEntry → Verdict) (left k : ℕ) (e : DirEntry)
    → k + suc left ≡ v.bpb.root_ent_cnt
    → root_next v visit left k
        (sector_read v.image (v.first_root_dir_sec_num + k / 16))
        e
        (crosses v k)
      ≡ root_scan v visit left
          (k + 1 + 1)
          ((k + 1) / 16 + 1)
          (sector_read v.image (v.first_root_dir_sec_num + (k + 1) / 16))
          e
unfolding root_scan
root_next_sector v visit zero k e h = elim (Bool-cases (crosses v k)) [
  | inl t ↦ rw t
  | inr f ↦ rw f
]
root_next_sector v visit (suc left) k e h = elim (Bool-cases (crosses v k)) [
  | inl t ↦ let q : (k + 1) / 16 ≡ k / 16 + 1 = ground arith in rw (t, q)
  | inr f ↦ let q : (k + 1) / 16 ≡ k / 16 = ground arith in rw (f, q)
]

-- The entry that the loop reads at entry `k`
abbrev read_entry : Fat16 → ℕ → DirEntry
read_entry v k =
    entry_at (sector_read v.image (v.first_root_dir_sec_num + k / 16)) (entry_offset (k + 1))

root_scan_pass :
    (v : Fat16) (visit : DirEntry → Verdict) (left k : ℕ) (dir : DirEntry)
    → visit (read_entry v k) ≡ pass
    → root_scan v visit
        (suc left)
        (k + 1)
        (k / 16 + 1)
        (sector_read v.image (v.first_root_dir_sec_num + k / 16))
        dir
      ≡ root_next v visit left k
          (sector_read v.image (v.first_root_dir_sec_num + k / 16))
          (read_entry v k)
          (crosses v k)
unfolding root_scan
root_scan_pass v visit left k dir p = elim (Bool-cases (crosses v k)) [
  | inl t ↦ rw (root_scan, p, t)
  | inr f ↦ rw (root_scan, p, f)
]

-- With the sector of entry `k` in the buffer the loop is the search from `k` on.
root_scan-search :
    (v : Fat16) (visit : DirEntry → Verdict) (left k : ℕ) (dir : DirEntry)
    → k + left ≡ v.bpb.root_ent_cnt
    → 512 * v.first_root_dir_sec_num + 32 * v.bpb.root_ent_cnt < 2 ^ 32
    → root_scan v visit left
        (k + 1)
        (k / 16 + 1)
        (sector_read v.image (v.first_root_dir_sec_num + k / 16))
        dir
      ≡ root_search v visit left k dir
unfolding root_scan root_search
root_scan-search v visit zero k dir e h = refl
root_scan-search v visit (suc left) k dir e h = elim (Verdict-cases (visit (root_entry v k))) [
  | inl p ↦
      root_scan_pass v visit left k dir (ap visit at_sector ∙ p)
      ∙ root_next_sector v visit left k (read_entry v k) e
      ∙ root_scan-search v visit left (k + 1) (read_entry v k) (omega arith) h
      ∙ rw (root_search, p) (ap (root_search v visit left (k + 1)) at_sector)
  | inr (inl a) ↦ rw (root_scan, root_search, at_sector, a) (rw at_sector)
  | inr (inr g) ↦ rw (root_scan, root_search, at_sector, g) (rw at_sector)
]
  where
    at_sector : read_entry v k ≡ root_entry v k
    at_sector = entry_at-sector v k (omega arith)

-- If the root directory ends below 2 ^ 32, the loop over it, with its sectors read one by one, is
-- the search through its entries in order, each at its own place in the image.
pub scan_root-search :
    (v : Fat16) (visit : DirEntry → Verdict) (dir : DirEntry)
    → 512 * v.first_root_dir_sec_num + 32 * v.bpb.root_ent_cnt < 2 ^ 32
    → scan_root v visit dir ≡ root_search v visit v.bpb.root_ent_cnt 0 dir
unfolding scan_root
scan_root-search v visit dir h =
    let e : v.first_root_dir_sec_num + 0 / 16 ≡ v.first_root_dir_sec_num = omega arith in
    rw (← root_scan-search v visit v.bpb.root_ent_cnt 0 dir (omega arith) h, e)
