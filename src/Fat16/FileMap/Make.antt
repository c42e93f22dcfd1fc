-- ===== src/Fat16/FileMap/Make.antt =====
-- `fat16_mknod` of lab4/simple_fat16_new.c puts an empty file into the map.
use os2021_labscript.Common.{
  ℕ, ◌≤◌, ◌<◌, ◌≡◌, ◌≢◌, ◌∙◌, refl, sym, ap, arith, ◌==◌, ==_iff, ==_of_ne, true, false,
  if◌then◌else◌, List, [], ◌∷◌, some, none,
}
use mathlib.Core.Path.{subst}
use os2021_labscript.Common.Outcome.{done}
use os2021_labscript.Fat16.Volume.{Fat16, DirEntry}
use os2021_labscript.Fat16.Table.{fat_entry_by_cluster}
use os2021_labscript.Fat16.Names.Split.{IsRaw}
use os2021_labscript.Fat16.Scan.Root.{root_entry}
use os2021_labscript.Fat16.Locate.{is_free}
use os2021_labscript.Fat16.Locate.Root.{IsFirst}
use os2021_labscript.Fat16.Update.{Tm, success, fat16_mknod}
use os2021_labscript.Fat16.Files.Names.{NamesFile}
use os2021_labscript.Fat16.Files.Create.{Created, fat16_mknod-file}
use os2021_labscript.Fat16.Files.Write.{IsSmall}
use os2021_labscript.Fat16.Files.Lifecycle.{Created-IsSmall}
use os2021_labscript.Fat16.Files.NameSet.Create.{Created-IsClosed}
use os2021_labscript.Fat16.FileMap.{
  file, FileMap, update, path_of, FileAt, NodeAt, cluster_at, Holds,
}
use os2021_labscript.Fat16.FileMap.Entries.{NodeAt-used}
use os2021_labscript.Fat16.FileMap.Change.{moved, some_inj, Changed, Changed-Holds}

module _ {v v' : Fat16} {top : ℕ} {fs : FileMap} {place : List ℕ → ℕ} (h : Holds v top fs place)
    (x : ℕ) (xs : List ℕ) {name : List ℕ} {now : Tm} {k c : ℕ}
    (nf : NamesFile (path_of (x ∷ xs)) (x ∷ xs) name) (nul : x ≢ 0) (mark : x ≢ 0xe5)
    (gone : fs (x ∷ xs) ≡ none) (first : IsFirst v is_free v.bpb.root_ent_cnt k)
    (cr : Created v top now name k c v') where
  cluster : cluster_at v' k ≡ c
  cluster = ap (λ e. e.fst_clus_lo) cr.entry.here

  end_mark : fat_entry_by_cluster v' (cluster_at v' k) ≡ 0xffff
  end_mark = ap (fat_entry_by_cluster v') cluster ∙ cr.taken c cr.below ∙ own _
    where
      own : (z : ℕ) → (if c == c then 0xffff else z) ≡ 0xffff
      own z = rw ((==_iff c c).1 refl) refl

  new_file : FileAt v' top (x ∷ xs) [] k
  new_file = record {
    below = omega (arith, first.below, ap (λ t. t.bpb.root_ent_cnt) cr.others);
    names = subst (NamesFile (path_of (x ∷ xs)) (x ∷ xs)) (sym (ap (λ e. e.name) cr.entry.here)) nf;
    plain = (nul, mark);
    archive = ap (λ e. e.attr) cr.entry.here;
    small = subst (IsSmall v' top k) (sym cluster) (Created-IsSmall cr);
    taken = λ z. absurd (omega (arith, end_mark, z));
    size = ap (λ e. e.file_size) cr.entry.here;
    fits = omega arith;
    bytes = λ i l. absurd (omega arith);
  }

  -- The new cluster was free, so it is that of no other file.
  not_of_others : (m bs : List ℕ) → fs m ≡ some (file bs) → c ≢ cluster_at v (place m)
  not_of_others m bs e q =
      (h.at m (file bs) e).taken (sym (ap (fat_entry_by_cluster v) q) ∙ cr.was_free)

  pub Created-Changed : Changed v top fs place (x ∷ xs) (some (file [])) k v'
  Created-Changed = record {
    others = cr.others;
    layout = cr.layout;
    closed = Created-IsClosed nf mark h.closed first cr;
    new = λ node e. subst (NodeAt v' top (x ∷ xs) k) (some_inj e) new_file;
    in_use = λ used. (file [], refl);
    entries = cr.entry.apart;
    one_entry = λ j below ne used q.
        let (node, e, at) = h.all j below used in
        let clash : none ≡ some node = sym gone ∙ ap fs q ∙ e in absurd (cc);
    one_name = λ m node ne e q.
        let clash : true ≡ false =
          sym first.holds
          ∙ ap (λ i. is_free (root_entry v i)) q
          ∙ NodeAt-used v top m (place m) node (h.at m node e) in
        cc;
    table = λ m bs ne e.
        let f = h.at m (file bs) e in
        cr.taken (cluster_at v (place m)) f.small.below
        ∙ rw (==_of_ne c (cluster_at v (place m)) (not_of_others m bs e)) refl;
    content = λ m bs ne e i l. cr.content _ (omega arith);
    own_cluster = λ m bs cs ne eo em q. not_of_others m cs em (sym cluster ∙ q);
  }

-- On a volume that holds a map of files, for a name that is not in the map, is short by
-- `NamesFile` and starts with neither NUL nor the byte 0xe5: if root entry `k` is the first free
-- one, the entry of some cluster from 2 on and below `top` is empty, and the memory for each name
-- has 11 bytes, `fat16_mknod` returns 0, and the volume then holds the map with an empty file
-- under the name. All other files are there with their bytes, and no two share a cluster.
pub fat16_mknod-Holds :
    {v : Fat16} {top : ℕ} {fs : FileMap} {place : List ℕ → ℕ} (h : Holds v top fs place) (x : ℕ)
    (xs : List ℕ) {name : List ℕ} (now : Tm) (k : ℕ)
    (nf : NamesFile (path_of (x ∷ xs)) (x ∷ xs) name)
    (first : IsFirst v is_free v.bpb.root_ent_cnt k) (fuel : ℕ) (heap : ℕ → ℕ → List ℕ)
    (dir : DirEntry) (free : ℕ)
    → x ≢ 0
    → x ≢ 0xe5
    → fs (x ∷ xs) ≡ none
    → IsRaw (heap 0)
    → 2 ≤ free
    → free < top
    → fat_entry_by_cluster v free ≡ 0
    → (v' : Fat16) × (c : ℕ) × (fat16_mknod fuel heap dir now v (path_of (x ∷ xs))
        ≡ done (v', success))
      × Created v top now name k c v'
      × Holds v' top (update fs (x ∷ xs) (some (file []))) (moved place (x ∷ xs) k)
fat16_mknod-Holds h x xs now k nf first fuel heap dir free nul mark gone hr lo hi z =
    let (v', c, run, cr) = fat16_mknod-file nf h.layout now k first fuel heap dir free hr lo hi z in
    (v', c, run, cr, Changed-Holds h (Created-Changed h x xs nf nul mark gone first cr))
