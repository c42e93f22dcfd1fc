-- ===== src/Fat16/Files/Stored.antt =====
-- The bytes and the size that one piece of a write of lab4/simple_fat16_new.c leaves.
use os2021_labscript.Common.{
  inl, ◌≢◌, ℕ, ◌+◌, ◌-◌, ◌*◌, ◌^◌, ◌≤◌, ◌<◌, ◌≡◌, ◌∙◌, refl, ap, ◌⊎◌, inr, arith, List, length,
  some, get_or,
}
use mathlib.Core.Path.{subst}
use native.Mathlib.Decide.{dec_lt}
use os2021_labscript.Fat16.Image.{store, dword, bytes_of_dword}
use os2021_labscript.Fat16.Volume.{Fat16}
use os2021_labscript.Fat16.Scan.Root.{root_entry, root_place}
use os2021_labscript.Fat16.Locate.{slot_position, root_sector}
use os2021_labscript.Fat16.Locate.Root.{root_slot, slot_position-root}
use os2021_labscript.Fat16.Update.{store_size}
use os2021_labscript.Fat16.Update.Entries.{store-in, store-out}
use os2021_labscript.Fat16.Update.InRoot.{Changes, store_size-root}
use os2021_labscript.Fat16.Write.{cluster_bytes}
use os2021_labscript.Fat16.Files.Layout.{
  Layout, with_image, Layout-image, SameTable, SameRoot, SameTable-store, SameRoot-store,
  RootChanges, Changes-after,
}

-- Byte `j` of a cluster, at its place in the image
abbrev pub data_place : Fat16 → ℕ → ℕ → ℕ
data_place v c j = 512 * (v.first_data_sector + (c - 2) * v.bpb.sec_per_clus) + j

pub mul_gap : (a b s : ℕ) → a < b → a * s + s ≤ b * s
mul_gap a b s h = grind arith

-- A byte of another cluster lies outside a write that stays in its cluster.
pub cluster_apart :
    {v : Fat16} {top : ℕ} (l : Layout v top) (c d offset n i : ℕ)
    → 2 ≤ c
    → 2 ≤ d
    → c ≢ d
    → offset + n ≤ cluster_bytes v
    → i < cluster_bytes v
    → (data_place v d i < data_place v c offset) ⊎ (data_place v c offset + n ≤ data_place v d i)
cluster_apart {v} l c d offset n i hc hd ne fits small = elim (dec_lt c d) [
  | yes lt ↦ inr (omega (arith, per, mul_gap (c - 2) (d - 2) v.bpb.sec_per_clus (omega arith)))
  | no ge ↦ inl (omega (arith, per, mul_gap (d - 2) (c - 2) v.bpb.sec_per_clus (omega arith)))
]
  where
    per : cluster_bytes v ≡ 512 * v.bpb.sec_per_clus
    per = rw (l.mounted.sector) (omega arith)

-- What a piece of a write leaves, put into cluster `c` from byte `within` on as the file grows from
-- `end`: the bytes in their places, the size in the entry, and all the rest of the volume.
pub record Piece (v : Fat16) (top k c within end : ℕ) (bs : List ℕ) (v' : Fat16) : Type 0 where
  pub others : v' ≡ with_image v v'.image
  pub layout : Layout v' top
  pub entry : RootChanges v v' k (record (root_entry v k) { file_size = end + length bs })
  pub table : SameTable v v' top
  pub bytes : (i : ℕ) → i < length bs → v'.image (data_place v c (within + i)) ≡ get_or bs i 0
  pub apart :
      (q : ℕ)
      → 512 * v.first_data_sector ≤ q
      → (q < data_place v c within) ⊎ (data_place v c within + length bs ≤ q)
      → v'.image q ≡ v.image q

-- A write to a file of one cluster
abbrev pub Written : (v : Fat16) (top k c offset : ℕ) → List ℕ → Fat16 → Type 0
Written v top k c offset = Piece v top k c offset offset

-- The volume after the bytes are written, then after the size is set
abbrev pub stored : Fat16 → (c within : ℕ) → List ℕ → Fat16
stored v c within bs = record v { image = store v.image (data_place v c within) bs }

unfoldable pub sized : Fat16 → (k c within end : ℕ) → List ℕ → Fat16
unfolding store_size
sized v k c within end bs =
    store_size (stored v c within bs) (end + length bs) (some (root_slot v k))

module _ {v : Fat16} {top : ℕ} (l : Layout v top) (k c within end : ℕ) (bs : List ℕ)
    (below : k < v.bpb.root_ent_cnt) (fits : end + length bs < 2 ^ 32) where
  pub stored_root : SameRoot v (stored v c within bs)
  stored_root = SameRoot-store l (data_place v c within) bs (inr (omega (arith, l.root_below)))

  size_place :
      dword (slot_position (stored v c within bs) (root_slot v k) + 28) ≡ root_place v k + 28
  unfolding root_sector
  size_place =
      rw (slot_position-root (Layout-image l (stored v c within bs).image).mounted k below)
        (omega (arith, l.mounted.fits))

  -- Behind the root directory only the bytes change.
  sized_data :
      (q : ℕ)
      → 512 * v.first_data_sector ≤ q
      → (sized v k c within end bs).image q ≡ store v.image (data_place v c within) bs q
  unfolding sized
  sized_data q h =
      store-out (bytes_of_dword (end + length bs)) (stored v c within bs).image _ q
        (inr (omega (arith, size_place, l.root_below)))

  pub sized-Piece : Piece v top k c within end bs (sized v k c within end bs)
  unfolding sized root_sector
  sized-Piece = record {
    others = refl;
    layout = Layout-image l _;
    entry = Changes-after stored_root (
        subst
          (λ e.
            Changes (stored v c within bs) (sized v k c within end bs) k
              (record e { file_size = end + length bs }))
          (stored_root k below)
          (store_size-root k (end + length bs) (Layout-image l (stored v c within bs).image).mounted
            below fits));
    table = λ m h.
        SameTable-store (Layout-image l (stored v c within bs).image) _ _
          (omega (arith, size_place)) m h
        ∙ SameTable-store l (data_place v c within) bs (omega (arith, l.root_below)) m h;
    bytes = λ i h.
        let place : data_place v c (within + i) ≡ data_place v c within + i = omega arith in
        sized_data _ (omega arith)
        ∙ ap (store v.image (data_place v c within) bs) place
        ∙ store-in bs v.image (data_place v c within) i h;
    apart = λ q h side. sized_data q h ∙ store-out bs v.image (data_place v c within) q side;
  }
