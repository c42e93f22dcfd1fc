-- ===== src/Fat16/FileMap/Write.antt =====
-- `write_path` of lab4/simple_fat16_new.c cuts a file of the map at the offset and appends the
-- bytes.
use os2021_labscript.Common.{
  ℕ, ◌+◌, ◌-◌, ◌≤◌, ◌<◌, ◌≡◌, ◌∙◌, refl, sym, ap, inl, arith, List, ◌++◌, length, length-append,
  get_or, get_or-append_left, get_or-append_right, take, some,
}
use mathlib.Core.Path.{subst}
use native.Mathlib.Decide.{dec_lt, ℕ_discrete}
use os2021_labscript.Common.Outcome.{done}
use os2021_labscript.Fat16.Volume.{Fat16, DirEntry, first_byte}
use os2021_labscript.Fat16.Table.{fat_entry_by_cluster}
use os2021_labscript.Fat16.Names.Split.{IsRaw}
use os2021_labscript.Fat16.Scan.Root.{root_entry}
use os2021_labscript.Fat16.Write.{cluster_bytes, write_path}
use os2021_labscript.Fat16.Files.Names.{NamesFile}
use os2021_labscript.Fat16.Files.Stored.{cluster_apart, Written, data_place}
use os2021_labscript.Fat16.Files.Write.{IsSmall, length-take, write_path-file}
use os2021_labscript.Fat16.Files.ReadBack.{Written-IsSmall, get_or-take}
use os2021_labscript.Fat16.Files.NameSet.{IsClosed}
use os2021_labscript.Fat16.FileMap.{
  file, FileMap, update, path_of, FileAt, NodeAt, cluster_at, Holds,
}
use os2021_labscript.Fat16.FileMap.Entries.{place-IsFile, place_inj}
use os2021_labscript.Fat16.FileMap.Change.{moved, some_inj, Changed, Changed-Holds}

-- What a write at an offset makes of the bytes of a file
abbrev pub written : List ℕ → (offset : ℕ) → List ℕ → List ℕ
written old offset bs = take offset old ++ bs

pub length-written :
    (old : List ℕ) (offset : ℕ) (bs : List ℕ)
    → offset ≤ length old
    → length (written old offset bs) ≡ offset + length bs
length-written old offset bs h =
    length-append (take offset old) bs ∙ omega (arith, length-take offset old h)

written_before :
    (old : List ℕ) (offset : ℕ) (bs : List ℕ) (i : ℕ)
    → offset ≤ length old
    → i < offset
    → get_or (written old offset bs) i 0 ≡ get_or old i 0
written_before old offset bs i h lt =
    get_or-append_left (take offset old) bs i 0 (omega (arith, length-take offset old h))
    ∙ get_or-take offset old i lt

written_from :
    (old : List ℕ) (offset : ℕ) (bs : List ℕ) (j : ℕ)
    → offset ≤ length old
    → get_or (written old offset bs) (offset + j) 0 ≡ get_or bs j 0
written_from old offset bs j h =
    ap (λ t. get_or (written old offset bs) (t + j) 0) (sym (length-take offset old h))
    ∙ get_or-append_right (take offset old) bs j 0

module _ {v v' : Fat16} {top : ℕ} {fs : FileMap} {place : List ℕ → ℕ} (h : Holds v top fs place)
    (n old bs : List ℕ) (offset : ℕ) (is : fs n ≡ some (file old)) (inside : offset ≤ length old)
    (fits : offset + length bs ≤ cluster_bytes v)
    (w : Written v top (place n) (cluster_at v (place n)) offset bs v') where
  before : FileAt v top n old (place n)
  before = h.at n (file old) is

  cluster : cluster_at v' (place n) ≡ cluster_at v (place n)
  cluster = ap (λ e. e.fst_clus_lo) w.entry.here

  same_name : (root_entry v' (place n)).name ≡ (root_entry v (place n)).name
  same_name = ap (λ e. e.name) w.entry.here

  moved_place :
      (i : ℕ) → data_place v' (cluster_at v' (place n)) i ≡ data_place v (cluster_at v (place n)) i
  moved_place i =
      ap (λ c. data_place v' c i) cluster
      ∙ ap (λ t. data_place t (cluster_at v (place n)) i) w.others

  new_bytes :
      (i : ℕ)
      → i < length (written old offset bs)
      → v'.image (data_place v' (cluster_at v' (place n)) i) ≡ get_or (written old offset bs) i 0
  new_bytes i l = ap v'.image (moved_place i) ∙ elim (dec_lt i offset) [
    | yes lt ↦
        w.apart _ (omega arith) (inl (omega arith))
        ∙ before.bytes i (omega arith)
        ∙ sym (written_before old offset bs i inside lt)
    | no ge ↦
        let q : offset + (i - offset) ≡ i = omega arith in
        ap (λ t. v'.image (data_place v (cluster_at v (place n)) t)) (sym q)
        ∙ w.bytes (i - offset) (omega (arith, length-written old offset bs inside))
        ∙ sym (written_from old offset bs (i - offset) inside)
        ∙ ap (λ t. get_or (written old offset bs) t 0) q
  ]

  new_file : FileAt v' top n (written old offset bs) (place n)
  new_file = record {
    below = omega (arith, before.below, ap (λ t. t.bpb.root_ent_cnt) w.others);
    names = subst (NamesFile (path_of n) n) (sym same_name) before.names;
    plain = before.plain;
    archive = ap (λ e. e.attr) w.entry.here ∙ before.archive;
    small = subst (IsSmall v' top (place n)) (sym cluster) (Written-IsSmall w before.small);
    taken = λ z. before.taken (
        sym (w.table (cluster_at v (place n)) before.small.below)
        ∙ ap (fat_entry_by_cluster v') (sym cluster)
        ∙ z);
    size = ap (λ e. e.file_size) w.entry.here ∙ sym (length-written old offset bs inside);
    fits = omega (arith, length-written old offset bs inside, ap cluster_bytes w.others, fits);
    bytes = new_bytes;
  }

  same_first :
      (j : ℕ) → j < v.bpb.root_ent_cnt → first_byte (root_entry v' j) ≡ first_byte (root_entry v j)
  same_first j l = elim (ℕ_discrete (place n) j) [
    | yes q ↦
        subst (λ i. first_byte (root_entry v' i) ≡ first_byte (root_entry v i)) q
          (ap first_byte w.entry.here)
    | no ne ↦ ap first_byte (w.entry.apart j l ne)
  ]

  Written-IsClosed : IsClosed v'
  Written-IsClosed j m le l z =
      let below : m < v.bpb.root_ent_cnt =
        omega (arith, l, ap (λ t. t.bpb.root_ent_cnt) w.others) in
      same_first m below ∙ h.closed j m le below (sym (same_first j (omega arith)) ∙ z)

  pub Written-Changed : Changed v top fs place n (some (file (written old offset bs))) (place n) v'
  Written-Changed = record {
    others = w.others;
    layout = w.layout;
    closed = Written-IsClosed;
    new = λ node e. subst (NodeAt v' top n (place n)) (some_inj e) new_file;
    in_use = λ used. (file (written old offset bs), refl);
    entries = w.entry.apart;
    one_entry = λ j below ne used q. let (node, e, at) = h.all j below used in ne (ap place q ∙ at);
    one_name = λ m node ne e q. ne (place_inj h n m (file old) node is e q);
    table = λ m cs ne e. w.table (cluster_at v (place m)) (h.at m (file cs) e).small.below;
    content = λ m cs ne e i l.
        let f = h.at m (file cs) e in
        w.apart _ (omega arith) (
          cluster_apart h.layout (cluster_at v (place n)) (cluster_at v (place m)) offset
            (length bs) i before.small.low f.small.low (h.apart n m old cs is e ne) fits
            (omega (arith, f.fits)));
    own_cluster = λ m ds cs ne eo em q. h.apart n m old cs is em ne (sym cluster ∙ q);
  }

-- On a volume that holds a map of files, for a name of the map that stands for a file: if the
-- offset is no more than the size of the file, the write has a byte at least, stays inside one
-- cluster and has no more bytes than the buffer, the fuel is at least 2 and the memory for each
-- name has 11 bytes, `write_path` returns its size. The volume then holds the map in which the
-- file has its bytes before the offset and then the bytes written, and no more; all other files
-- have their bytes.
pub write_path-Holds :
    {v : Fat16} {top : ℕ} {fs : FileMap} {place : List ℕ → ℕ} (h : Holds v top fs place)
    (n old : List ℕ) (size offset fuel : ℕ) (heap : ℕ → ℕ → List ℕ) (dir : DirEntry)
    (buffer : List ℕ)
    → fs n ≡ some (file old)
    → offset ≤ length old
    → 0 < size
    → offset + size ≤ cluster_bytes v
    → size ≤ length buffer
    → 2 ≤ fuel
    → ((i : ℕ) → IsRaw (heap i))
    → (v' : Fat16) × (write_path fuel heap dir v (path_of n) size offset buffer ≡ done (v', size))
      × Written v top (place n) (cluster_at v (place n)) offset (take size buffer) v'
      × Holds v' top
          (update fs n (some (file (written old offset (take size buffer)))))
          (moved place n (place n))
write_path-Holds h n old size offset fuel heap dir buffer is inside pos fits enough two hr =
    let f = h.at n (file old) is in
    let (v', run, w) =
      write_path-file f.names h.layout _ _ (place-IsFile h n old is) f.small size offset pos fits
        fuel heap dir buffer (hr 0) two enough in
    let len = length-take size buffer enough in
    (
      v',
      run,
      w,
      Changed-Holds h
          (Written-Changed h n old (take size buffer) offset is inside (omega (arith, len)) w),
    )
