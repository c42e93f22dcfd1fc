-- ===== src/Fat16/Files/Unlink.antt =====
-- `fat16_unlink` of lab4/simple_fat16_new.c on a file in the root directory.
use os2021_labscript.Common.{
  ℕ, zero, suc, ◌+◌, ◌*◌, ◌<◌, ◌≡◌, ◌≢◌, ◌∙◌, refl, sym, ap, arith, ==_of_ne, false, if◌then◌else◌,
  List, [], ◌∷◌, length, some, drop,
}
use mathlib.Core.Path.{subst}
use native.Mathlib.Decide.{ℕ_discrete}
use os2021_labscript.Common.Outcome.{done}
use os2021_labscript.Fat16.Image.{Image, word}
use os2021_labscript.Fat16.Volume.{Fat16, DirEntry}
use os2021_labscript.Fat16.Table.{
  fat_entry_by_cluster, free_cluster, free_chain, first_sector_by_cluster, is_link, store_word,
}
use os2021_labscript.Fat16.Table.Entries.{entry_place, write_place, write_place2}
use os2021_labscript.Fat16.Table.Free.{
  IsChain, contains, IsFlat, free_cluster_lem, IsChain-free, free_chain_last, free_chain_next,
  free_chain_lem,
}
use os2021_labscript.Fat16.Names.{to_lower, decode_from, path_decode}
use os2021_labscript.Fat16.Names.Split.{IsRaw}
use os2021_labscript.Fat16.Scan.Root.{root_entry}
use os2021_labscript.Fat16.Lookup.{find_root}
use os2021_labscript.Fat16.Locate.{slot_position, root_sector, has_name}
use os2021_labscript.Fat16.Locate.Root.{root_slot, slot_position-root}
use os2021_labscript.Fat16.Update.{success, mark_deleted, fat16_unlink}
use os2021_labscript.Fat16.Update.InRoot.{Changes, mark_deleted-root}
use os2021_labscript.Fat16.Files.Layout.{
  Layout, with_image, Layout-image, SameRoot, SameRoot-entry, SameRoot-entry2, SameTable-store,
  RootChanges, Changes-after, SameData, SameData-store, SameData-entry, SameData-entry2,
}
use os2021_labscript.Fat16.Files.Names.{NamesFile}
use os2021_labscript.Fat16.Files.Search.{
  IsFile, IsFile-same, find_root-file, find_root_missing, locate-file,
}

-- Freeing a cluster leaves the root directory.
free_cluster_root :
    {v : Fat16} {top : ℕ} (l : Layout v top) (n : ℕ)
    → n < top
    → (img : Image) × ((free_cluster v n).0 ≡ with_image v img)
      × SameRoot v (with_image v img)
      × SameData v (with_image v img)
unfolding free_cluster first_sector_by_cluster
free_cluster_root {v} {top} l n below =
    let w : word n ≡ n = omega (arith, l.table.narrow) in
    let v1 : Fat16 = store_word v (entry_place v n) 0 in
    let v2 : Fat16 = store_word v1 (entry_place v n + 512 * v.bpb.fat_sz16) 0 in
    (
      v2.image,
      rw (w, write_place l.table n below, write_place2 l.table n below) refl,
      λ m h.
          SameRoot-entry2 {v = v1} (Layout-image l v1.image) n below 0 m h
          ∙ SameRoot-entry l n below 0 m h,
      λ q h.
          SameData-entry2 {v = v1} (Layout-image l v1.image) n below 0 q h
          ∙ SameData-entry l n below 0 q h,
    )

-- And so does freeing a chain.
free_chain_root :
    (cs : List ℕ) {v : Fat16} {top : ℕ} (l : Layout v top) (fuel c : ℕ)
    → length cs < fuel
    → IsFlat top (c ∷ cs)
    → IsChain v c (c ∷ cs)
    → (img : Image) × (free_chain fuel v c ≡ done (with_image v img))
      × SameRoot v (with_image v img)
      × SameData v (with_image v img)
free_chain_root cs l zero c h flat chain = absurd (omega arith)
free_chain_root [] {v} {top} l (suc f) c h flat chain =
    let (img, e, same, kept) = free_cluster_root l c flat.0 in
    (img, free_chain_last f v c ends ∙ ap done e, same, kept)
  where
    ends : is_link (free_cluster v c).1 ≡ false
    ends = rw ((free_cluster_lem l.table c c flat.0 flat.0).0) chain.2
free_chain_root (d ∷ ds) {v} {top} l (suc f) c h flat chain =
    let (img, e, same, kept) = free_cluster_root l c flat.0 in
    let (img2, run, same2, kept2) =
      free_chain_root ds (Layout-image l img) f d (omega arith) flat.2
        (subst (λ t. IsChain t d (d ∷ ds)) e rest) in
    (
      img2,
      free_chain_next f v c d (returned ∙ chain.2.0) chain.2.1 (ap (λ t. free_chain f t d) e ∙ run),
      λ m below. same2 m below ∙ same m below,
      λ q h. kept2 q h ∙ kept q h,
    )
  where
    returned : (free_cluster v c).1 ≡ fat_entry_by_cluster v c
    returned = (free_cluster_lem l.table c c flat.0 flat.0).0

    rest : IsChain (free_cluster v c).0 d (d ∷ ds)
    rest =
        rw (chain.2.0) at
          (IsChain-free l.table c (fat_entry_by_cluster v c) (d ∷ ds) flat.0 flat.1 flat.2 chain.2)

done_inj : {A : Type 0} {a b : A} → done a ≡ done b → a ≡ b
done_inj h = cc

-- The entry of a deleted file
abbrev pub deleted : DirEntry → DirEntry
deleted e = record e { name = 0xe5 ∷ drop 1 e.name }

-- A file in root entry `k` is gone, and the clusters `cs` that it had are free.
pub record Unlinked (v : Fat16) (top k : ℕ) (cs : List ℕ) (v' : Fat16) : Type 0 where
  pub others : v' ≡ with_image v v'.image
  pub layout : Layout v' top
  pub entry : RootChanges v v' k (deleted (root_entry v k))
  pub cleared :
      (m : ℕ)
      → m < top
      → fat_entry_by_cluster v' m ≡ (if contains m cs then 0 else fat_entry_by_cluster v m)
  pub content : SameData v v'

mark_Unlinked :
    {v : Fat16} (img : Image) {top : ℕ} (l : Layout v top) (k : ℕ) (cs : List ℕ)
    → k < v.bpb.root_ent_cnt
    → SameRoot v (with_image v img)
    → SameData v (with_image v img)
    → ((m : ℕ)
        → m < top
        → fat_entry_by_cluster (with_image v img) m
          ≡ (if contains m cs then 0 else fat_entry_by_cluster v m))
    → Unlinked v top k cs (mark_deleted (with_image v img) (some (root_slot v k)))
unfolding mark_deleted root_sector
mark_Unlinked {v} img {top} l k cs below same kept cleared =
    let l1 : Layout (with_image v img) top = Layout-image l img in
    let q = slot_position-root l.mounted k below in
    record {
      others = refl;
      layout = Layout-image l _;
      entry = Changes-after same (
          subst
            (λ e.
              Changes (with_image v img) (mark_deleted (with_image v img) (some (root_slot v k))) k
                (deleted e))
            (same k below) (mark_deleted-root k l1.mounted below));
      cleared = λ m h.
          SameTable-store l1 (slot_position v (root_slot v k)) (0xe5 ∷ []) (omega (arith, q)) m h
          ∙ cleared m h;
      content = λ q' h.
          SameData-store l1 (slot_position v (root_slot v k)) (0xe5 ∷ [])
            (omega (arith, q, below, l.root_below)) q' h
          ∙ kept q' h;
    }

-- On a volume with a `Layout`, for a path that by `NamesFile` names one component: if root entry
-- `k` is that file by `IsFile`, the clusters of its chain are distinct and below `top`, the fuel
-- is at least their number, and the memory for each name has 11 bytes, `fat16_unlink` returns 0.
-- Then the clusters of the chain are free in the first table and the other entries below `top`
-- are as before; the first byte of entry `k` is 0xe5, and nothing else in the root directory has
-- changed, nor any byte behind it.
pub fat16_unlink-file :
    {path file name : List ℕ} (nf : NamesFile path file name) {v : Fat16} {top : ℕ}
    (l : Layout v top) (k : ℕ) (is : IsFile v file name k) (fuel : ℕ) (heap : ℕ → ℕ → List ℕ)
    (dir : DirEntry) (cs : List ℕ)
    → ((i : ℕ) → IsRaw (heap i))
    → length cs < fuel
    → IsFlat top ((root_entry v k).fst_clus_lo ∷ cs)
    → IsChain v (root_entry v k).fst_clus_lo ((root_entry v k).fst_clus_lo ∷ cs)
    → (v' : Fat16) × (fat16_unlink fuel heap dir v path ≡ done (v', success))
      × Unlinked v top k ((root_entry v k).fst_clus_lo ∷ cs) v'
unfolding fat16_unlink root_sector
fat16_unlink-file nf {v} {top} l k is fuel heap dir cs hr enough flat chain =
    let c : ℕ = (root_entry v k).fst_clus_lo in
    let (img, run, same, kept) = free_chain_root cs l fuel c enough flat chain in
    let (v1, run1, cleared) = free_chain_lem cs l.table fuel c enough flat chain in
    let e : v1 ≡ with_image v img = done_inj (sym run1 ∙ run) in
    (
      mark_deleted (with_image v img) (some (root_slot v k)),
      rw
          (
            find_root-file nf l.mounted fuel (heap 0) dir k (hr 0) is,
            run,
            locate-file nf (Layout-image l img).mounted fuel (heap 1) dir k (IsFile-same same is),
          )
          refl,
      mark_Unlinked img l k (c ∷ cs) is.below same kept
          (λ m h. ap (λ t. fat_entry_by_cluster t m) (sym e) ∙ cleared m h),
    )

-- Unless the name starts with 0xe5, a deleted entry is not found under it.
pub deleted_name :
    (c : ℕ) (cs : List ℕ) (e : DirEntry) → c ≢ 0xe5 → has_name (c ∷ cs) (deleted e) ≡ false
unfolding has_name path_decode decode_from to_lower
deleted_name c cs e h = rw (==_of_ne 0xe5 c (λ q. h (sym q))) refl

-- After a file of the root directory is unlinked, `find_root` returns 1 for its path, if no other
-- entry has the name and the name does not start with the byte 0xe5.
pub find_root-fat16_unlink :
    {path : List ℕ} (x : ℕ) {xs name : List ℕ} (nf : NamesFile path (x ∷ xs) name) {v : Fat16}
    {top : ℕ} (l : Layout v top) (k : ℕ) {cs : List ℕ} {v' : Fat16} (fuel : ℕ) (raw : ℕ → List ℕ)
    (dir : DirEntry)
    → IsRaw raw
    → x ≢ 0xe5
    → ((m : ℕ) → m < v.bpb.root_ent_cnt → k ≢ m → has_name (x ∷ xs) (root_entry v m) ≡ false)
    → Unlinked v top k cs v'
    → (e : DirEntry) × (find_root fuel raw v' dir path ≡ done (1, e))
find_root-fat16_unlink x {xs} nf {v} l k {v'} fuel raw dir r hx others u =
    find_root_missing nf u.layout.mounted fuel raw dir r (λ m h. elim (ℕ_discrete k m) [
      | yes e ↦
          ap (λ z. has_name (x ∷ xs) (root_entry v' z)) (sym e)
          ∙ ap (has_name (x ∷ xs)) u.entry.here
          ∙ deleted_name x xs (root_entry v k) hx
      | no ne ↦ ap (has_name (x ∷ xs)) (u.entry.apart m (below m h) ne) ∙ others m (below m h) ne
    ])
  where
    below : (m : ℕ) → m < v'.bpb.root_ent_cnt → m < v.bpb.root_ent_cnt
    below m h = omega (arith, ap (λ t. t.bpb.root_ent_cnt) u.others)
