-- ===== src/Fat16/Files/Write.antt =====
-- `write_path` of lab4/simple_fat16_new.c on a file of one cluster in the root directory.
use os2021_labscript.Common.{
  ℕ, zero, suc, ◌+◌, ◌-◌, ◌*◌, ◌/◌, ◌%◌, ◌^◌, ◌≤◌, ◌<◌, ◌≡◌, refl, ap, arith, ==_of_ne, ge→ltb,
  true, false, if◌then◌else◌, List, [], ◌∷◌, length, some, none, take,
}
use native.Mathlib.Nat.{div-eq_of_lt, mod-eq_of_lt}
use os2021_labscript.Common.Outcome.{Outcome, done, ◌>>=◌}
use os2021_labscript.Fat16.Image.{dword}
use os2021_labscript.Fat16.Volume.{Fat16, DirEntry}
use os2021_labscript.Fat16.Table.{fat_entry_by_cluster, first_sector_of_cluster, is_link}
use os2021_labscript.Fat16.Names.Split.{IsRaw}
use os2021_labscript.Fat16.Scan.Root.{root_entry}
use os2021_labscript.Fat16.Locate.{root_sector}
use os2021_labscript.Fat16.Update.{edit_size}
use os2021_labscript.Fat16.Write.{
  cluster_bytes, count_chain, clusters_for, cluster_required, writer_at, write_piece, write_path,
  Writer,
}
use os2021_labscript.Fat16.Files.Layout.{Layout, Layout-image, first_sector_lem}
use os2021_labscript.Fat16.Files.Stored.{
  data_place, Written, stored, sized, stored_root, sized-Piece,
}
use os2021_labscript.Fat16.Files.Names.{NamesFile}
use os2021_labscript.Fat16.Files.Search.{IsFile, IsFile-same, find_root-file, locate-file}

-- The file in root entry `k` has the cluster `c` alone.
pub record IsSmall (v : Fat16) (top k c : ℕ) : Type 0 where
  pub starts : (root_entry v k).fst_clus_lo ≡ c
  pub low : 2 ≤ c
  pub below : c < top
  pub ends : is_link (fat_entry_by_cluster v c) ≡ false

count_chain_one :
    (fuel : ℕ) (v : Fat16) (c : ℕ)
    → 2 ≤ fuel
    → 2 ≤ c
    → c < 0xfff8
    → is_link (fat_entry_by_cluster v c) ≡ false
    → count_chain fuel v c 0 none ≡ done (1, some c)
unfolding count_chain
count_chain_one zero v c two lo hi ends = absurd (omega arith)
count_chain_one (suc zero) v c two lo hi ends = absurd (omega arith)
count_chain_one (suc (suc f)) v c two lo hi ends =
    let a : is_link c ≡ true = ground arith in
    rw (count_chain, a, ends) (ap (λ t. done (1, if t then none else some c)) ends)

-- What fits in one cluster needs no other.
required_none :
    (size offset per : ℕ)
    → 0 < size
    → size + offset ≤ per
    → per < 2 ^ 32
    → cluster_required size offset per 1 ≡ 0
unfolding cluster_required clusters_for
required_none size offset per s h small =
    let q : ((size + offset + 2 ^ 64 - 1) % 2 ^ 64) / per ≡ 0 =
      rw (wrap) (div-eq_of_lt (omega arith)) in
    rw q refl
  where
    wrap : (size + offset + 2 ^ 64 - 1) % 2 ^ 64 ≡ size + offset - 1
    wrap = omega arith

abbrev written_result : Writer → ℕ → Outcome (Fat16 × ℕ)
written_result w size = done (w.vol, size)

pub length-take : (n : ℕ) (xs : List ℕ) → n ≤ length xs → length (take n xs) ≡ n
length-take zero xs h = refl
length-take (suc n) [] h = absurd (omega arith)
length-take (suc n) (x ∷ xs) h = ap suc (length-take n xs (omega arith))

module _ {path file name : List ℕ} (nf : NamesFile path file name) {v : Fat16} {top : ℕ}
    (l : Layout v top) (k c : ℕ) (is : IsFile v file name k) (sm : IsSmall v top k c)
    (size offset : ℕ) (some_bytes : 0 < size) (fits : offset + size ≤ cluster_bytes v) where
  per_lem : cluster_bytes v ≡ 512 * v.bpb.sec_per_clus
  per_lem = rw (l.mounted.sector) (omega arith)

  -- `FirstSectorofCluster * BPB_BytsPerSec + offset % bytes_per_cluster`
  write_position :
      dword (first_sector_of_cluster v c * v.bpb.byts_per_sec + offset % cluster_bytes v)
      ≡ data_place v c offset
  write_position =
      let small : offset < cluster_bytes v = omega arith in
      rw (mod-eq_of_lt small, first_sector_lem l c sm.below sm.low, l.mounted.sector)
        (omega (arith, l.reach c sm.below sm.low, per_lem))

  small : (bs : List ℕ) → length bs ≡ size → offset + length bs < 2 ^ 32
  small bs len = omega (arith, per_lem, l.reach c sm.below sm.low)

  edit_size-file :
      (fuel : ℕ) (raw : ℕ → List ℕ) (dir : DirEntry) (bs : List ℕ)
      → length bs ≡ size
      → edit_size fuel raw dir (stored v c offset bs) path (offset + size)
        ≡ done (sized v k c offset offset bs)
  unfolding edit_size sized root_sector
  edit_size-file fuel raw dir bs len =
      rw
        (
          locate-file nf (Layout-image l (stored v c offset bs).image).mounted fuel raw dir k
              (IsFile-same (stored_root l k c offset offset bs is.below (small bs len)) is),
          size_dword bs len,
        )
        refl
    where
      size_dword : (bs : List ℕ) → length bs ≡ size → dword (offset + size) ≡ offset + length bs
      size_dword bs len = omega (arith, small bs len)

  write_piece-file :
      (fuel : ℕ) (raw : ℕ → List ℕ) (dir : DirEntry) (buffer : List ℕ)
      → size ≤ length buffer
      → (write_piece fuel raw dir path (writer_at v c buffer offset) (offset % cluster_bytes v) size
          >>= λ w. written_result w size)
        ≡ done (sized v k c offset offset (take size buffer), size)
  unfolding write_piece writer_at
  write_piece-file fuel raw dir buffer h =
      rw
        (
          write_piece,
          ge→ltb (length buffer) size h,
          write_position,
          edit_size-file fuel raw dir (take size buffer) (length-take size buffer h),
        )
        refl

  per_small : cluster_bytes v < 2 ^ 32
  per_small = omega (arith, per_lem, l.reach c sm.below sm.low)

  -- `write_path` on a file of one cluster
  pub write_path-file :
      (fuel : ℕ) (heap : ℕ → ℕ → List ℕ) (dir : DirEntry) (buffer : List ℕ)
      → IsRaw (heap 0)
      → 2 ≤ fuel
      → size ≤ length buffer
      → (v' : Fat16) × (write_path fuel heap dir v path size offset buffer ≡ done (v', size))
        × Written v top k c offset (take size buffer) v'
  unfolding write_path
  write_path-file fuel heap dir buffer hr two enough = (
    sized v k c offset offset (take size buffer),
    rw
        (
          find_root-file nf l.mounted fuel (heap 0) dir k hr is,
          sm.starts,
          count_chain_one fuel v c two sm.low (omega (arith, sm.below, l.table.narrow)) sm.ends,
          ==_of_ne (cluster_bytes v) 0 (omega arith),
          required_none size offset (cluster_bytes v) some_bytes (omega arith) per_small,
        )
        (write_piece-file fuel (heap 1) dir buffer enough),
    sized-Piece l k c offset offset (take size buffer) is.below
        (small (take size buffer) (length-take size buffer enough)),
  )
