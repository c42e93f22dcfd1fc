-- ===== src/Fat16/Files/Layout.antt =====
-- The regions of a volume of lab4/simple_fat16_new.c lie apart: a write to one leaves the others.
use os2021_labscript.Common.{
  ℕ, ◌+◌, ◌-◌, ◌*◌, ◌^◌, ◌≤◌, ◌<◌, ◌≡◌, ◌≢◌, ◌∙◌, sym, ap, ◌⊎◌, inl, inr, arith, List, length,
}
use mathlib.Core.Path.{ap₂}
use native.Mathlib.Nat.{add-mul}
use os2021_labscript.Fat16.Image.{Image, store, bytes_of_word}
use os2021_labscript.Fat16.Volume.{Fat16, DirEntry, entry_at}
use os2021_labscript.Fat16.Table.{fat_entry_by_cluster, first_sector_of_cluster, store_word}
use os2021_labscript.Fat16.Table.Entries.{IsTable, entry_place, fat_entry_lem}
use os2021_labscript.Fat16.Scan.Root.{root_place, root_entry}
use os2021_labscript.Fat16.Locate.Root.{IsMounted}
use os2021_labscript.Fat16.Update.InRoot.{Changes}
use os2021_labscript.Fat16.Update.Entries.{store-out, entry_of-cong}

-- Two tables that hold every cluster below `top`, then the root directory, then the data, with
-- every cluster below `top` in reach of a WORD sector number
pub record Layout (v : Fat16) (top : ℕ) : Type 0 where
  pub table : IsTable v top
  pub mounted : IsMounted v
  pub behind : v.bpb.rsvd_sec_cnt + 2 * v.bpb.fat_sz16 ≤ v.first_root_dir_sec_num
  pub root_below :
      512 * v.first_root_dir_sec_num + 32 * v.bpb.root_ent_cnt ≤ 512 * v.first_data_sector
  pub reach :
      (n : ℕ)
      → n < top
      → 2 ≤ n
      → v.first_data_sector + (n - 2) * v.bpb.sec_per_clus + v.bpb.sec_per_clus < 2 ^ 16

-- The volume with another image
abbrev pub with_image : Fat16 → Image → Fat16
with_image v img = record v { image = img }

pub Layout-image :
    {v : Fat16} {top : ℕ} → Layout v top → (img : Image) → Layout (with_image v img) top
Layout-image l img = record {
  table = record {
    sector = l.table.sector;
    reach = l.table.reach;
    covers = l.table.covers;
    narrow = l.table.narrow;
  };
  mounted = record { sector = l.mounted.sector; start = l.mounted.start; fits = l.mounted.fits };
  behind = l.behind;
  root_below = l.root_below;
  reach = l.reach;
}

-- The entries of the clusters below `top`, and those of the root directory, are the same.
abbrev pub SameTable : (v v' : Fat16) (top : ℕ) → Type 0
SameTable v v' top = (m : ℕ) → m < top → fat_entry_by_cluster v' m ≡ fat_entry_by_cluster v m

abbrev pub SameRoot : (v v' : Fat16) → Type 0
SameRoot v v' = (m : ℕ) → m < v.bpb.root_ent_cnt → root_entry v' m ≡ root_entry v m

-- Every byte behind the root directory is the same.
abbrev pub SameData : (v v' : Fat16) → Type 0
SameData v v' = (q : ℕ) → 512 * v.first_data_sector ≤ q → v'.image q ≡ v.image q

module _ {v : Fat16} {top : ℕ} (l : Layout v top) (p : ℕ) (bs : List ℕ) where
  -- A write before the data
  pub SameData-store :
      p + length bs ≤ 512 * v.first_data_sector → SameData v (with_image v (store v.image p bs))
  SameData-store h q le = store-out bs v.image p q (inr (omega arith))

  -- A write behind the tables
  pub SameTable-store :
      512 * v.first_root_dir_sec_num ≤ p → SameTable v (with_image v (store v.image p bs)) top
  SameTable-store h m below =
      fat_entry_lem (Layout-image l (store v.image p bs)).table m below
      ∙ ap₂ (λ a b. a + 256 * b) (out (entry_place v m) (omega (arith, l.table.covers, l.behind)))
          (out (entry_place v m + 1) (omega (arith, l.table.covers, l.behind)))
      ∙ sym (fat_entry_lem l.table m below)
    where
      out : (q : ℕ) → q < 512 * v.first_root_dir_sec_num → store v.image p bs q ≡ v.image q
      out q lt = store-out bs v.image p q (inl (omega arith))

  -- A write outside the root directory
  pub SameRoot-store :
      (p + length bs ≤ 512 * v.first_root_dir_sec_num)
        ⊎ (512 * v.first_root_dir_sec_num + 32 * v.bpb.root_ent_cnt ≤ p)
      → SameRoot v (with_image v (store v.image p bs))
  unfolding entry_at
  SameRoot-store (inl h) m below =
      entry_of-cong _ _ (λ j lt. store-out bs v.image p (root_place v m + j) (inr (omega arith)))
  SameRoot-store (inr h) m below =
      entry_of-cong _ _ (λ j lt. store-out bs v.image p (root_place v m + j) (inl (omega arith)))

module _ {v : Fat16} {top : ℕ} (l : Layout v top) (n : ℕ) (below : n < top) where
  -- A write of an entry of the first table, and of the second
  pub SameRoot-entry : (w : ℕ) → SameRoot v (store_word v (entry_place v n) w)
  SameRoot-entry w =
      SameRoot-store l (entry_place v n) (bytes_of_word w)
        (inl (omega (arith, l.table.covers, l.behind)))

  pub SameRoot-entry2 :
      (w : ℕ) → SameRoot v (store_word v (entry_place v n + 512 * v.bpb.fat_sz16) w)
  SameRoot-entry2 w =
      SameRoot-store l (entry_place v n + 512 * v.bpb.fat_sz16) (bytes_of_word w)
        (inl (omega (arith, l.table.covers, l.behind)))

  -- The first sector of a cluster, without wrap-around
  pub first_sector_lem :
      2 ≤ n → first_sector_of_cluster v n ≡ v.first_data_sector + (n - 2) * v.bpb.sec_per_clus
  unfolding first_sector_of_cluster
  first_sector_lem two =
      let q : n ≡ n - 2 + 2 = omega arith in
      let a : n * v.bpb.sec_per_clus ≡ (n - 2) * v.bpb.sec_per_clus + 2 * v.bpb.sec_per_clus =
        ap (λ t. t * v.bpb.sec_per_clus) q ∙ add-mul (n - 2) 2 v.bpb.sec_per_clus in
      omega (arith, a, l.reach n below two)

module _ {v : Fat16} {top : ℕ} (l : Layout v top) (n : ℕ) (below : n < top) (w : ℕ) where
  pub SameData-entry : SameData v (store_word v (entry_place v n) w)
  SameData-entry =
      SameData-store l (entry_place v n) (bytes_of_word w)
        (omega (arith, l.table.covers, l.behind, l.root_below))

  pub SameData-entry2 : SameData v (store_word v (entry_place v n + 512 * v.bpb.fat_sz16) w)
  SameData-entry2 =
      SameData-store l (entry_place v n + 512 * v.bpb.fat_sz16) (bytes_of_word w)
        (omega (arith, l.table.covers, l.behind, l.root_below))

-- Entry `k` of the root directory becomes `e`, and every other entry stays.
pub record RootChanges (v v' : Fat16) (k : ℕ) (e : DirEntry) : Type 0 where
  pub here : root_entry v' k ≡ e
  pub apart : (m : ℕ) → m < v.bpb.root_ent_cnt → k ≢ m → root_entry v' m ≡ root_entry v m

-- A change of one entry, after writes that left the root directory
pub Changes-after :
    {v : Fat16} {img : Image} {v' : Fat16} {k : ℕ} {e : DirEntry}
    → SameRoot v (with_image v img)
    → Changes (with_image v img) v' k e
    → RootChanges v v' k e
Changes-after same c = record { here = c.here; apart = λ m h ne. c.apart m ne ∙ same m h }
