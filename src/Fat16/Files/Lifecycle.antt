-- ===== src/Fat16/Files/Lifecycle.antt =====
-- The life of a file in the root directory of lab4/simple_fat16_new.c: `fat16_mknod`, `write_path`,
-- `read_path` and `fat16_unlink`, one after the other.
use os2021_labscript.Common.{
  ℕ, ◌+◌, ◌%◌, ◌≤◌, ◌<◌, ◌≡◌, ◌^◌, ◌≢◌, ◌∙◌, refl, sym, ap, arith, ◌==◌, ==_of_ne, ==_iff, true,
  false, if◌then◌else◌, ◌||◌, List, [], ◌∷◌, length, take,
}
use native.Mathlib.Decide.{ℕ_discrete}
use os2021_labscript.Common.Outcome.{done}
use os2021_labscript.Fat16.Image.{Buffer}
use os2021_labscript.Fat16.Volume.{Fat16, DirEntry}
use os2021_labscript.Fat16.Table.{fat_entry_by_cluster, is_link}
use os2021_labscript.Fat16.Table.Free.{IsChain, IsFlat}
use os2021_labscript.Fat16.Names.Split.{IsRaw}
use os2021_labscript.Fat16.Scan.Root.{root_entry}
use os2021_labscript.Fat16.Lookup.{find_root}
use os2021_labscript.Fat16.Locate.{has_name, is_free}
use os2021_labscript.Fat16.Locate.Root.{IsFirst}
use os2021_labscript.Fat16.Read.{read_path}
use os2021_labscript.Fat16.Read.Bytes.{AgreesWith}
use os2021_labscript.Fat16.Write.{cluster_bytes, write_path}
use os2021_labscript.Fat16.Update.{Tm, success, fat16_mknod, fat16_unlink}
use os2021_labscript.Fat16.Files.Layout.{Layout, SameTable}
use os2021_labscript.Fat16.Files.Names.{NamesFile}
use os2021_labscript.Fat16.Files.Search.{NoFile}
use os2021_labscript.Fat16.Files.Create.{Created, Created-IsFile, fat16_mknod-file}
use os2021_labscript.Fat16.Files.Stored.{Written}
use os2021_labscript.Fat16.Files.Write.{IsSmall, length-take, write_path-file}
use os2021_labscript.Fat16.Files.ReadBack.{Piece-IsFile, Written-IsSmall, read_path-Written}
use os2021_labscript.Fat16.Files.Unlink.{Unlinked, fat16_unlink-file, find_root-fat16_unlink}

-- A new file has its one cluster.
pub Created-IsSmall :
    {v v' : Fat16} {top : ℕ} {now : Tm} {name : List ℕ} {k c : ℕ}
    → Created v top now name k c v'
    → IsSmall v' top k c
Created-IsSmall {c} cr = record {
  starts = ap (λ e. e.fst_clus_lo) cr.entry.here;
  low = cr.low;
  below = cr.below;
  ends = ap is_link (cr.taken c cr.below ∙ own _);
}
  where
    own : (x : ℕ) → (if c == c then 0xffff else x) ≡ 0xffff
    own x = rw ((==_iff c c).1 refl) refl

-- A file of one cluster is a chain that `fat16_unlink` frees.
pub IsSmall-IsChain :
    {v : Fat16} {top k c : ℕ}
    → IsSmall v top k c
    → top ≤ 2 ^ 15
    → IsFlat top ((root_entry v k).fst_clus_lo ∷ [])
      × IsChain v (root_entry v k).fst_clus_lo ((root_entry v k).fst_clus_lo ∷ [])
IsSmall-IsChain sm narrow =
    rw (sm.starts) ((sm.below, refl, tt), (refl, link _ sm.low (omega (arith, sm.below)), sm.ends))
  where
    link : (n : ℕ) → 2 ≤ n → n < 0xfff8 → is_link n ≡ true
    link n a b = ground arith

-- The entries of the table after a file of one cluster is made, written and unlinked
table_back :
    {v v1 v2 v3 : Fat16} {top : ℕ} {now : Tm} {name : List ℕ} {k c offset : ℕ} {bs : List ℕ}
    → Created v top now name k c v1
    → Written v1 top k c offset bs v2
    → Unlinked v2 top k ((root_entry v2 k).fst_clus_lo ∷ []) v3
    → SameTable v v3 top
table_back {v} {v2 = v2} {v3 = v3} {k = k} {c = c} cr w u m h = elim (ℕ_discrete c m) [
  | yes e ↦
      cleared ∙ rw ((==_iff c m).1 e) (sym (ap (fat_entry_by_cluster v) (sym e) ∙ cr.was_free))
  | no ne ↦ cleared ∙ rw (==_of_ne c m ne) (w.table m h ∙ cr.taken m h ∙ rw (==_of_ne c m ne) refl)
]
  where
    starts : (root_entry v2 k).fst_clus_lo ≡ c
    starts = (Written-IsSmall w (Created-IsSmall cr)).starts

    cleared :
        fat_entry_by_cluster v3 m ≡ (if (c == m) || false then 0 else fat_entry_by_cluster v2 m)
    cleared =
        u.cleared m h ∙ ap (λ n. if (n == m) || false then 0 else fat_entry_by_cluster v2 m) starts

-- What is left of the root directory: entry `k` alone has changed, and none has the name.
no_other :
    {v v1 v2 : Fat16} {top : ℕ} {now : Tm} (file : List ℕ) {name : List ℕ} {k c offset : ℕ}
    {bs : List ℕ}
    → Created v top now name k c v1
    → Written v1 top k c offset bs v2
    → NoFile v file
    → (m : ℕ) → m < v2.bpb.root_ent_cnt
    → k ≢ m
    → has_name file (root_entry v2 m) ≡ false
no_other {v} {v1} {v2} file cr w none_such m h ne =
    ap (has_name file) (w.entry.apart m below1 ne ∙ cr.entry.apart m below ne) ∙ none_such m below
  where
    below1 : m < v1.bpb.root_ent_cnt
    below1 = omega (arith, h, ap (λ t. t.bpb.root_ent_cnt) w.others)

    below : m < v.bpb.root_ent_cnt
    below = omega (arith, below1, ap (λ t. t.bpb.root_ent_cnt) cr.others)

-- On a volume with a `Layout`, for a path that by `NamesFile` names one component, where no entry
-- of the root directory has that name and it does not start with the byte 0xe5; with root entry
-- `k` the first free one, a cluster from 2 on and below `top` whose entry is empty, memory of 11
-- bytes for each name, and fuel of at least 2: `fat16_mknod` returns 0; `write_path` of at least
-- one byte, inside one cluster and with no more bytes than the buffer, then returns its size;
-- `read_path` of `n` bytes at the same offset, with `n + offset` a multiple of 512, returns `n`
-- with `n` bytes, which begin with the bytes written, or are the first of these; `fat16_unlink`
-- returns 0; `find_root` then returns 1; and every entry of the first table below `top` is as it
-- was before the file was made.
pub lifecycle_of_file :
    {path : List ℕ} (x : ℕ) {xs name : List ℕ} (nf : NamesFile path (x ∷ xs) name) {v : Fat16}
    {top : ℕ} (l : Layout v top) (now : Tm) (k : ℕ) (first : IsFirst v is_free v.bpb.root_ent_cnt k)
    (free size offset n fuel : ℕ) (heap : ℕ → ℕ → List ℕ) (dir : DirEntry) (b : Buffer)
    (buffer : List ℕ)
    → x ≢ 0xe5
    → NoFile v (x ∷ xs)
    → 2 ≤ free
    → free < top
    → fat_entry_by_cluster v free ≡ 0
    → ((i : ℕ) → IsRaw (heap i))
    → 2 ≤ fuel
    → 0 < size
    → offset + size ≤ cluster_bytes v
    → size ≤ length buffer
    → (n + offset) % 512 ≡ 0
    → (v1 : Fat16) × (v2 : Fat16) × (v3 : Fat16) × (e : DirEntry) × (bytes : List ℕ) × (fat16_mknod
          fuel heap dir now v path
        ≡ done (v1, success))
      × (write_path fuel heap dir v1 path size offset buffer ≡ done (v2, size))
      × (read_path fuel (heap 0) dir b v2 path n offset ≡ done (n, bytes))
      × AgreesWith n (take size buffer) bytes
      × (fat16_unlink fuel heap dir v2 path ≡ done (v3, success))
      × (find_root fuel (heap 0) v3 dir path ≡ done (1, e))
      × SameTable v v3 top
lifecycle_of_file {path} x {xs} nf {v} {top} l now k first free size offset n fuel heap dir b buffer
      hx none_such lo hi z hr two pos fits enough whole =
    let (v1, c, run1, cr) = fat16_mknod-file nf l now k first fuel heap dir free (hr 0) lo hi z in
    let is1 = Created-IsFile first none_such cr in
    let sm1 = Created-IsSmall cr in
    let fits1 : offset + size ≤ cluster_bytes v1 = rw (cr.others) fits in
    let (v2, run2, w) =
      write_path-file nf cr.layout k c is1 sm1 size offset pos fits1 fuel heap dir buffer (hr 0) two
        enough in
    let len : length (take size buffer) ≡ size = length-take size buffer enough in
    let is2 = Piece-IsFile w is1 in
    let (bytes, reads, agree) =
      read_path-Written cr.layout k c sm1 offset (take size buffer) (omega arith) w nf n fuel
        (heap 0) dir b (hr 0) is2 (omega arith) whole in
    let sm2 = Written-IsSmall w sm1 in
    let (flat, chain) = IsSmall-IsChain sm2 l.table.narrow in
    let (v3, run3, u) =
      fat16_unlink-file nf w.layout k is2 fuel heap dir [] hr (omega arith) flat chain in
    let (e, gone) =
      find_root-fat16_unlink x nf w.layout k fuel (heap 0) dir (hr 0) hx
        (no_other (x ∷ xs) cr w none_such) u in
    (v1, v2, v3, e, bytes, run1, run2, reads, agree, run3, gone, table_back cr w u)
