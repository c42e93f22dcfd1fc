-- ===== src/Fat16/Files/ReadBack.antt =====
-- `read_path` of lab4/simple_fat16_new.c after `write_path`, on a file of one cluster in the root
-- directory.
use os2021_labscript.Common.{
  ℕ, zero, suc, ◌+◌, ◌*◌, ◌/◌, ◌%◌, ◌≤◌, ◌<◌, ◌≡◌, ◌∙◌, refl, sym, ap, arith, List, [], ◌∷◌, length,
  take, get_or,
}
use mathlib.Core.Path.{ap₂}
use os2021_labscript.Common.Outcome.{done}
use os2021_labscript.Fat16.Image.{Buffer, sector_read}
use os2021_labscript.Fat16.Volume.{Fat16, DirEntry, first_byte}
use os2021_labscript.Fat16.Table.{first_sector_of_cluster, is_link}
use os2021_labscript.Fat16.Names.Split.{IsRaw}
use os2021_labscript.Fat16.Scan.Root.{root_entry}
use os2021_labscript.Fat16.Locate.{has_name}
use os2021_labscript.Fat16.Read.{read_path}
use os2021_labscript.Fat16.Read.Bytes.{AgreesWith, AgreesWith-bytes, IsReading, read_data_bytes}
use os2021_labscript.Fat16.Write.{cluster_bytes}
use os2021_labscript.Fat16.Files.Layout.{Layout, first_sector_lem}
use os2021_labscript.Fat16.Files.Names.{NamesFile}
use os2021_labscript.Fat16.Files.Search.{IsFile, find_root-file}
use os2021_labscript.Fat16.Files.Stored.{Piece, Written, data_place}
use os2021_labscript.Fat16.Files.Write.{IsSmall}

pub list_ext :
    (xs ys : List ℕ)
    → length xs ≡ length ys
    → ((i : ℕ) → i < length xs → get_or xs i 0 ≡ get_or ys i 0)
    → xs ≡ ys
list_ext [] [] h same = refl
list_ext [] (y ∷ ys) h same = absurd (omega arith)
list_ext (x ∷ xs) [] h same = absurd (omega arith)
list_ext (x ∷ xs) (y ∷ ys) h same =
    ap₂ (λ a cs. a ∷ cs) (same 0 (omega arith))
      (list_ext xs ys (omega arith) (λ i l. same (suc i) (omega arith)))

-- A write leaves the file in its entry.
pub Piece-IsFile :
    {v v' : Fat16} {top k c within end : ℕ} {bs file name : List ℕ}
    → Piece v top k c within end bs v'
    → IsFile v file name k
    → IsFile v' file name k
Piece-IsFile {v} {v'} {k} {file} w is = record {
  below = omega (arith, is.below, ap (λ t. t.bpb.root_ent_cnt) w.others);
  named = ap (λ e. e.name) w.entry.here ∙ is.named;
  archive = ap (λ e. e.attr) w.entry.here ∙ is.archive;
  first = λ m l. ap (has_name file) (same m l) ∙ is.first m l;
  used = λ m l z. is.used m l (sym (ap first_byte (same m l)) ∙ z);
}
  where
    same : (m : ℕ) → m < k → root_entry v' m ≡ root_entry v m
    same m l = w.entry.apart m (omega (arith, is.below)) (λ q. absurd (omega arith))

-- A write leaves the file with the one cluster.
pub Written-IsSmall :
    {v v' : Fat16} {top k c offset : ℕ} {bs : List ℕ}
    → Written v top k c offset bs v'
    → IsSmall v top k c
    → IsSmall v' top k c
Written-IsSmall {c} w sm = record {
  starts = ap (λ e. e.fst_clus_lo) w.entry.here ∙ sm.starts;
  low = sm.low;
  below = sm.below;
  ends = ap is_link (w.table c sm.below) ∙ sm.ends;
}

-- Byte `t` of a cluster, as `read_path` reads it
pub data_byte :
    {v : Fat16} {top : ℕ} (l : Layout v top) (c t : ℕ)
    → 2 ≤ c
    → c < top
    → t < 512 * v.bpb.sec_per_clus
    → sector_read v.image (first_sector_of_cluster v c + t / 512) (t % 512)
      ≡ v.image (data_place v c t)
unfolding sector_read
data_byte {v} l c t lo hi h =
    rw (first_sector_lem l c hi lo) (ap v.image (omega (arith, l.reach c hi lo)))

pub get_or-take : (n : ℕ) (xs : List ℕ) (i : ℕ) → i < n → get_or (take n xs) i 0 ≡ get_or xs i 0
get_or-take zero xs i h = absurd (omega arith)
get_or-take (suc n) [] i h = refl
get_or-take (suc n) (x ∷ xs) zero h = refl
get_or-take (suc n) (x ∷ xs) (suc i) h = get_or-take n xs i (omega arith)

module _ {v : Fat16} {top : ℕ} (l : Layout v top) (k c : ℕ) (sm : IsSmall v top k c) (offset : ℕ)
    (bs : List ℕ) (fits : offset + length bs ≤ cluster_bytes v) {v' : Fat16}
    (w : Written v top k c offset bs v') where
  sectors : cluster_bytes v ≡ 512 * v'.bpb.sec_per_clus
  sectors = rw (l.mounted.sector) (omega (arith, ap (λ t. t.bpb.sec_per_clus) w.others))

  moved : (q : ℕ) → data_place v' c q ≡ data_place v c q
  moved q = rw (w.others) refl

  in_file : 0 < length bs → offset < (root_entry v' k).file_size
  in_file pos = omega (arith, ap (λ e. e.file_size) w.entry.here)

  -- The bytes written, at the place where they were written
  read_byte :
      (n : ℕ) (xs : List ℕ)
      → IsReading v' (root_entry v' k) n offset xs
      → (i : ℕ) → i < n
      → i < length bs
      → get_or xs i 0 ≡ get_or bs i 0
  read_byte n xs rd i lt h =
      let t : ℕ = offset + i in
      rd.bytes i 0 (t / 512) (t % 512) lt (omega (arith, sectors)) (omega arith) (omega arith)
      ∙ ap (λ n. sector_read v'.image (first_sector_of_cluster v' n + t / 512) (t % 512))
          (Written-IsSmall w sm).starts
      ∙ data_byte w.layout c t sm.low sm.below (omega (arith, sectors))
      ∙ ap v'.image (moved t)
      ∙ w.bytes i h

  pub read_path-Written :
      {path file name : List ℕ} (nf : NamesFile path file name) (n fuel : ℕ) (raw : ℕ → List ℕ)
      (dir : DirEntry) (b : Buffer)
      → IsRaw raw
      → IsFile v' file name k
      → 0 < length bs
      → (n + offset) % 512 ≡ 0
      → (xs : List ℕ) × (read_path fuel raw dir b v' path n offset ≡ done (n, xs))
        × AgreesWith n bs xs
  unfolding read_path
  read_path-Written nf n fuel raw dir b r is pos whole =
      let (xs, run, rd) =
        read_data_bytes v' (root_entry v' k) n offset b (omega (arith, sectors)) whole
          (in_file pos) in
      (
        xs,
        rw (find_root-file nf w.layout.mounted fuel raw dir k r is) run,
        AgreesWith-bytes bs xs rd.size_of (read_byte n xs rd),
      )
