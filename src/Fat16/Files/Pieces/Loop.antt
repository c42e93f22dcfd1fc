-- ===== src/Fat16/Files/Pieces/Loop.antt =====
-- The last loop of `write_path` of lab4/simple_fat16_new.c puts its bytes into the clusters of the
-- chain, in order.
use os2021_labscript.Common.{
  ℕ, zero, suc, ◌+◌, ◌*◌, ◌%◌, ◌^◌, ◌≤◌, ◌<◌, ◌≡◌, ◌∙◌, refl, sym, ap, arith, ◌==◌, ==_of_ne, false,
  List, [], ◌∷◌, length, get_or, take, drop,
}
use mathlib.Core.Path.{subst}
use native.Mathlib.Nat.{mod-lt, add_assoc}
use os2021_labscript.Common.Outcome.{done}
use os2021_labscript.Fat16.Volume.{Fat16, DirEntry}
use os2021_labscript.Fat16.Table.Free.{contains}
use os2021_labscript.Fat16.Scan.Root.{root_entry}
use os2021_labscript.Fat16.Write.{
  Writer, cluster_bytes, writer_at, next_cluster, write_piece, write_clusters,
}
use os2021_labscript.Fat16.Files.Layout.{Layout, with_image}
use os2021_labscript.Fat16.Files.Names.{NamesFile}
use os2021_labscript.Fat16.Files.Search.{IsFile}
use os2021_labscript.Fat16.Files.Stored.{data_place, Piece, sized}
use os2021_labscript.Fat16.Files.ReadBack.{Piece-IsFile}
use os2021_labscript.Fat16.Files.Pieces.{
  after_piece, write_piece-Piece, Follows, Follows-same, Pieces, or_right, ne_of_out, piece_bytes,
  piece_apart, piece_entry, one-Pieces,
}

pub get_or-drop : (n : ℕ) (xs : List ℕ) (i : ℕ) → get_or (drop n xs) i 0 ≡ get_or xs (n + i) 0
get_or-drop zero xs i = ap (λ t. get_or xs t 0) (omega arith)
get_or-drop (suc n) [] i = refl
get_or-drop (suc n) (x ∷ xs) i =
    let q : suc n + i ≡ suc (n + i) = omega arith in
    get_or-drop n xs i ∙ ap (λ t. get_or (x ∷ xs) t 0) (sym q)

pub length-drop : (n : ℕ) (xs : List ℕ) → n ≤ length xs → n + length (drop n xs) ≡ length xs
length-drop zero xs h = omega arith
length-drop (suc n) [] h = absurd (omega arith)
length-drop (suc n) (x ∷ xs) h = omega (arith, length-drop n xs (omega arith))

pub suc_mul : (a b : ℕ) → suc a * b ≡ b + a * b
suc_mul a b = grind arith

abbrev pub with_size : DirEntry → ℕ → DirEntry
with_size e s = record e { file_size = s }

module _ {v v1 v' : Fat16} {top k c end total : ℕ} (cs rest : List ℕ) (l : Layout v top)
    (lo : 2 ≤ c) (enough : cluster_bytes v ≤ length rest) (out : contains c cs ≡ false)
    (p : Piece v top k c 0 end (take (cluster_bytes v) rest) v1)
    (x : Pieces v1 top k cs (end + cluster_bytes v) total (drop (cluster_bytes v) rest) v')
    (below : k < v.bpb.root_ent_cnt) where
  per : cluster_bytes v1 ≡ cluster_bytes v
  per = ap cluster_bytes p.others

  place : (d i : ℕ) → data_place v1 d i ≡ data_place v d i
  place d i = ap (λ t. data_place t d i) p.others

  other_cluster :
      (d i : ℕ)
      → 2 ≤ d
      → contains d cs ≡ false
      → i < cluster_bytes v
      → v'.image (data_place v d i) ≡ v1.image (data_place v d i)
  other_cluster d i hd ho h =
      ap v'.image (sym (place d i))
      ∙ x.apart d i hd ho (omega (arith, per))
      ∙ ap v1.image (place d i)

  cons_bytes :
      (a r : ℕ)
      → r < cluster_bytes v
      → a * cluster_bytes v + r < cluster_bytes v + total
      → v'.image (data_place v (get_or (c ∷ cs) a 0) r) ≡ get_or rest (a * cluster_bytes v + r) 0
  cons_bytes zero r h small =
      let q : 0 * cluster_bytes v + r ≡ r = omega arith in
      rw q (other_cluster c r lo out h ∙ piece_bytes rest l lo (omega arith) enough p r h)
  cons_bytes (suc a) r h small =
      let e : suc a * cluster_bytes v ≡ cluster_bytes v + a * cluster_bytes v = grind arith in
      let e1 : a * cluster_bytes v1 ≡ a * cluster_bytes v = ap (λ t. a * t) per in
      ap v'.image (sym (place (get_or cs a 0) r))
      ∙ x.bytes a r (omega (arith, per)) (omega (arith, e, e1))
      ∙ get_or-drop (cluster_bytes v) rest (a * cluster_bytes v1 + r)
      ∙ ap (λ t. get_or rest t 0) (omega (arith, e, e1))

  -- A whole cluster, and then the pieces behind it
  pub cons-Pieces : Pieces v top k (c ∷ cs) end (cluster_bytes v + total) rest v'
  cons-Pieces = record {
    others = x.others ∙ ap (λ t. with_image t v'.image) p.others;
    layout = x.layout;
    entry = record {
      here =
          x.entry.here
          ∙ ap (λ e. with_size e (end + cluster_bytes v + total))
              (piece_entry rest l lo (omega arith) enough p).here
          ∙ ap (with_size (root_entry v k)) (omega arith);
      apart = λ m h ne.
          x.entry.apart m (omega (arith, h, ap (λ t. t.bpb.root_ent_cnt) p.others)) ne
          ∙ p.entry.apart m h ne;
    };
    table = λ m h. x.table m h ∙ p.table m h;
    bytes = cons_bytes;
    apart = λ d i hd ho h.
        other_cluster d i hd (or_right (c == d) (contains d cs) ho) h
        ∙ piece_apart rest l lo (omega arith) enough p d i hd (ne_of_out c d cs ho) h;
  }

module _ {path file name : List ℕ} (nf : NamesFile path file name) (fuel : ℕ) (raw : ℕ → List ℕ)
    (dir : DirEntry) (k : ℕ) where
  write_clusters_last :
      (size : ℕ) (w : Writer) {w' : Writer}
      → write_piece fuel raw dir path w 0 (size % cluster_bytes w.vol) ≡ done w'
      → write_clusters fuel raw dir path 1 size w ≡ done (next_cluster w')
  unfolding write_clusters
  write_clusters_last size w h = rw h refl

  write_clusters_more :
      (left size : ℕ) (w : Writer) {w1 w' : Writer}
      → write_piece fuel raw dir path w 0 (cluster_bytes w.vol) ≡ done w1
      → write_clusters fuel raw dir path (suc left) size (next_cluster w1) ≡ done w'
      → write_clusters fuel raw dir path (suc (suc left)) size w ≡ done w'
  unfolding write_clusters
  write_clusters_more left size w h run = rw (==_of_ne (suc left) 0 (omega arith), h) run

  -- On a volume with a `Layout`, for a path that by `NamesFile` names one component, the file in
  -- root entry `k` by `IsFile`: from cluster `c` on, with the clusters of the file behind it, none
  -- twice, from 2 on and below `top`, the loop with one round for each of them ends, if the buffer
  -- has the bytes for it and the size stays below 2 ^ 32. All but the last cluster are then filled,
  -- and the last one has `size % bytes_per_cluster` bytes, all from the buffer in order; the size
  -- of the file is the old end with the number of these bytes; and no other cluster, no entry of
  -- the first table below `top` and no other entry of the root directory has changed.
  pub write_clusters-Pieces :
      (cs : List ℕ) {v : Fat16} {top : ℕ} (l : Layout v top) (c end size per : ℕ) (rest : List ℕ)
      → cluster_bytes v ≡ per
      → IsFile v file name k
      → 0 < per
      → Follows v top c cs
      → length cs * per + size % per ≤ length rest
      → end + (length cs * per + size % per) < 2 ^ 32
      → (w : Writer) × (write_clusters fuel raw dir path
            (length (c ∷ cs))
            size
            (writer_at v c rest end)
          ≡ done w)
        × Pieces v top k (c ∷ cs) end (length cs * per + size % per) rest w.vol
  unfolding writer_at next_cluster
  write_clusters-Pieces [] {v} {top} l c end size per rest e is pos f enough small =
      let len : ℕ = size % cluster_bytes v in
      let same : len ≡ size % per = ap (λ t. size % t) e in
      let low : len < cluster_bytes v = mod-lt size (omega (arith, e)) in
      let z : 0 * per + size % per ≡ len = omega (arith, same) in
      let v1 : Fat16 = sized v k c 0 end (take len rest) in
      let (run, p) =
        write_piece-Piece nf fuel raw dir l k c 0 len end rest is f.0 f.1 (omega arith)
          (omega arith) (omega arith) in
      (
        next_cluster (after_piece (writer_at v c rest end) v1 len),
        write_clusters_last size (writer_at v c rest end) run,
        subst (λ n. Pieces v top k (c ∷ []) end n rest v1) (sym z)
            (one-Pieces rest l f.0 (omega arith) (omega arith) p),
      )
  write_clusters-Pieces (d ∷ ds) {v} {top} l c end size per rest e is pos (lo, hi, next, out, f)
        enough small =
      let len : ℕ = cluster_bytes v in
      let total : ℕ = length ds * per + size % per in
      let z : length (d ∷ ds) * per + size % per ≡ len + total =
        ap (λ t. t + size % per) (suc_mul (length ds) per)
        ∙ ap (λ t. t + (length ds * per) + size % per) (sym e)
        ∙ add_assoc len (length ds * per) (size % per) in
      let v1 : Fat16 = sized v k c 0 end (take len rest) in
      let (run, p) =
        write_piece-Piece nf fuel raw dir l k c 0 len end rest is lo hi (omega arith)
          (omega (arith, z)) (omega (arith, z)) in
      let dropped = length-drop len rest (omega (arith, z)) in
      let (w, run', x) =
        write_clusters-Pieces ds p.layout d (end + len) size per (drop len rest)
          (ap cluster_bytes p.others ∙ e) (Piece-IsFile p is) pos
          (Follows-same v v1 top d ds p.table f) (omega (arith, z, dropped)) (omega (arith, z)) in
      (
        w,
        write_clusters_more (length ds) size (writer_at v c rest end) run (
            ap
              (λ n.
                write_clusters fuel raw dir path (suc (length ds)) size
                  (writer_at v1 n (drop len rest) (end + len)))
              next
            ∙ run'),
        subst (λ n. Pieces v top k (c ∷ d ∷ ds) end n rest w.vol) (sym z)
            (cons-Pieces (d ∷ ds) rest l lo (omega (arith, z)) out p x is.below),
      )
