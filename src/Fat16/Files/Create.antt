-- ===== src/Fat16/Files/Create.antt =====
-- `fat16_mknod` of lab4/simple_fat16_new.c for a file in the root directory.
use os2021_labscript.Common.{
  ℕ, ◌+◌, ◌/◌, ◌≤◌, ◌<◌, ◌≡◌, ◌≢◌, ◌∙◌, refl, sym, ap, inl, arith, ◌==◌, ==_iff, true, false,
  if◌then◌else◌, List, some,
}
use os2021_labscript.Common.Outcome.{done}
use os2021_labscript.Fat16.Volume.{Fat16, DirEntry, first_byte, attr_archive}
use os2021_labscript.Fat16.Table.{fat_entry_by_cluster, cluster_is_empty, store_word}
use os2021_labscript.Fat16.Table.Entries.{entry_place, fat_entry-store}
use os2021_labscript.Fat16.Table.Alloc.{cluster_is_empty_free, find_empty_cluster_first}
use os2021_labscript.Fat16.Names.Split.{IsRaw}
use os2021_labscript.Fat16.Scan.{accept, pass, found, scan_root}
use os2021_labscript.Fat16.Scan.Root.{root_entry, scan_root-search}
use os2021_labscript.Fat16.Locate.{has_name, is_free, free_in_root, slot_position}
use os2021_labscript.Fat16.Locate.Root.{IsFirst, IsMounted, root_slot, slot_position-root}
use os2021_labscript.Fat16.Update.{
  Tm, success, dir_entry_create, create_at, create_opt, fat16_mknod,
}
use os2021_labscript.Fat16.Update.InRoot.{
  Changes, created, dir_entry_create-root, length-entry_info_name,
}
use os2021_labscript.Fat16.Files.Layout.{
  Layout, with_image, Layout-image, SameTable-store, SameRoot-entry, RootChanges, SameData,
  SameData-store, SameData-entry,
}
use os2021_labscript.Fat16.Files.Names.{NamesFile}
use os2021_labscript.Fat16.Files.Search.{IsFile, NoFile}
use os2021_labscript.Fat16.Scan.Found.{root_search-found}

-- Root entry `k` is a new file, whose chain is the cluster `c` alone.
pub record Created (v : Fat16) (top : ℕ) (now : Tm) (name : List ℕ) (k c : ℕ) (v' : Fat16)
    : Type 0 where
  pub others : v' ≡ with_image v v'.image
  pub layout : Layout v' top
  pub entry : RootChanges v v' k (created now name attr_archive c 0)
  pub low : 2 ≤ c
  pub below : c < top
  pub was_free : fat_entry_by_cluster v c ≡ 0
  pub taken :
      (m : ℕ)
      → m < top
      → fat_entry_by_cluster v' m ≡ (if c == m then 0xffff else fat_entry_by_cluster v m)
  pub content : SameData v v'

free_in_root-first :
    {v : Fat16} (mt : IsMounted v) (dir : DirEntry) (k : ℕ)
    → IsFirst v is_free v.bpb.root_ent_cnt k
    → free_in_root v dir ≡ some (root_slot v k)
unfolding free_in_root
free_in_root-first {v} mt dir k f =
    let run : scan_root v (λ e. if is_free e then accept else pass) dir
        ≡ found (k + 1) (k / 16 + 1) (root_entry v k) =
      scan_root-search v _ dir mt.fits
      ∙ root_search-found v.bpb.root_ent_cnt 0 v _ k dir (omega arith) (omega (arith, f.below))
          (rw (f.holds) refl) (λ m l. rw (f.first m l) refl) in
    rw (free_in_root, run) refl

module _ {path file name : List ℕ} (nf : NamesFile path file name) {v : Fat16} {top : ℕ}
    (l : Layout v top) (now : Tm) (k : ℕ) (first : IsFirst v is_free v.bpb.root_ent_cnt k) where
  -- The volume with the new entry, then with the end mark
  unfoldable with_entry : ℕ → Fat16
  unfolding dir_entry_create
  with_entry c = dir_entry_create now v (root_slot v k) name attr_archive c 0

  unfoldable with_file : ℕ → Fat16
  unfolding with_entry
  with_file c = store_word (with_entry c) (entry_place v c) 0xffff

  entry_content : (c : ℕ) → SameData v (with_entry c)
  unfolding with_entry dir_entry_create
  entry_content c = SameData-store l (slot_position v (root_slot v k)) _ (
      omega (
        arith,
        slot_position-root l.mounted k first.below,
        length-entry_info_name now name attr_archive c 0 nf.eleven,
        first.below,
        l.root_below,
      ))

  with_file-Created :
      (c : ℕ)
      → 2 ≤ c
      → c < top
      → fat_entry_by_cluster v c ≡ 0
      → Created v top now name k c (with_file c)
  unfolding with_file with_entry dir_entry_create
  with_file-Created c lo hi free =
      let img = (with_entry c).image in
      let l1 : Layout (with_image v img) top = Layout-image l img in
      let ch : Changes v (with_entry c) k (created now name attr_archive c 0) =
        dir_entry_create-root now name k attr_archive c 0 l.mounted first.below nf.eleven
          (omega (arith, l.table.narrow)) (omega arith) in
      record {
        others = refl;
        layout = Layout-image l _;
        entry = record {
          here = SameRoot-entry l1 c hi 0xffff k first.below ∙ ch.here;
          apart = λ m h ne. SameRoot-entry l1 c hi 0xffff m h ∙ ch.apart m ne;
        };
        low = lo;
        below = hi;
        was_free = free;
        taken = λ m h.
            fat_entry-store l1.table c m 0xffff hi h (omega arith)
            ∙ ap (λ t. if c == m then 0xffff else t)
                (SameTable-store l (slot_position v (root_slot v k)) _
                  (omega (arith, slot_position-root l.mounted k first.below)) m h);
        content = λ q h. SameData-entry l1 c hi 0xffff q h ∙ entry_content c q h;
      }

  end_mark : (c : ℕ) → c < top → cluster_is_empty (with_entry c) c 0xffff ≡ (with_file c, 0)
  unfolding with_file with_entry dir_entry_create
  end_mark c hi =
      cluster_is_empty_free (Layout-image l (with_entry c).image).table c 0xffff hi (inl refl)

  -- On a volume with a `Layout`, for a path that by `NamesFile` names one component: if root
  -- entry `k` is the first free one, the entry of some cluster from 2 on and below `top` is
  -- empty, and the memory for each name has 11 bytes, `fat16_mknod` returns 0. Then entry `k` is
  -- a file of size 0 with the name, the times and a first cluster that was free and is marked as
  -- the end of a chain; every other entry of the root directory, and of the first table below
  -- `top`, is as before, and so is every byte behind the root directory.
  pub fat16_mknod-file :
      (fuel : ℕ) (heap : ℕ → ℕ → List ℕ) (dir : DirEntry) (free : ℕ)
      → IsRaw (heap 0)
      → 2 ≤ free
      → free < top
      → fat_entry_by_cluster v free ≡ 0
      → (v' : Fat16) × (c : ℕ) × (fat16_mknod fuel heap dir now v path ≡ done (v', success))
        × Created v top now name k c v'
  unfolding fat16_mknod create_opt create_at with_file with_entry
  fat16_mknod-file fuel heap dir free hr lo hi z =
      let (c, run, lo', le, free', used) =
        find_empty_cluster_first v free lo (omega (arith, l.table.narrow)) z in
      (
        with_file c,
        c,
        rw (nf.parent, free_in_root-first l.mounted dir k first, nf.split (heap 0) hr, run)
            (ap (λ t. done (t.0, success)) (end_mark c (omega arith))),
        with_file-Created c lo' (omega arith) free',
      )

used_entry : (e : DirEntry) → is_free e ≡ false → first_byte e ≢ 0
unfolding is_free
used_entry e h z = let q : (first_byte e == 0) ≡ true = (==_iff _ 0).1 z in ground arith

-- The new file is the first one of its name, if there was none before.
pub Created-IsFile :
    {v v' : Fat16} {top : ℕ} {now : Tm} {file name : List ℕ} {k c : ℕ}
    → IsFirst v is_free v.bpb.root_ent_cnt k
    → NoFile v file
    → Created v top now name k c v'
    → IsFile v' file name k
Created-IsFile {v} {v'} {file} {k} first none_such cr = record {
  below = omega (arith, first.below, ap (λ t. t.bpb.root_ent_cnt) cr.others);
  named = ap (λ e. e.name) cr.entry.here;
  archive = ap (λ e. e.attr) cr.entry.here;
  first = λ m l. ap (has_name file) (same m l) ∙ none_such m (omega (arith, first.below));
  used =
      λ m l z. used_entry (root_entry v m) (first.first m l) (sym (ap first_byte (same m l)) ∙ z);
}
  where
    same : (m : ℕ) → m < k → root_entry v' m ≡ root_entry v m
    same m l = cr.entry.apart m (omega (arith, first.below)) (λ q. absurd (omega arith))
