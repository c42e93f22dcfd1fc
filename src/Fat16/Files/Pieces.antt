-- ===== src/Fat16/Files/Pieces.antt =====
-- The loop of `write_path` of lab4/simple_fat16_new.c that fills one cluster after the other.
pub mod Loop
use os2021_labscript.Common.{
  ℕ, zero, suc, ◌+◌, ◌-◌, ◌*◌, ◌%◌, ◌^◌, ◌≤◌, ◌<◌, ◌≡◌, ◌≢◌, ◌∙◌, refl, sym, ap, ◌⊎◌, inl, inr,
  arith, ◌==◌, ◌||◌, ==_iff, ==_of_ne, ge→ltb, true, false, Bool, if◌then◌else◌, List, [], ◌∷◌,
  length, get_or, take, drop, some,
}
use mathlib.Core.Path.{subst}
use native.Mathlib.Decide.{ℕ_discrete}
use os2021_labscript.Common.Outcome.{Outcome, done, ◌>>=◌}
use os2021_labscript.Fat16.Image.{dword}
use os2021_labscript.Fat16.Volume.{Fat16, DirEntry}
use os2021_labscript.Fat16.Table.{fat_entry_by_cluster, first_sector_of_cluster}
use os2021_labscript.Fat16.Table.Free.{contains, IsFlat, or_left, or_right}
use os2021_labscript.Fat16.Scan.Root.{root_entry}
use os2021_labscript.Fat16.Locate.{root_sector}
use os2021_labscript.Fat16.Update.{edit_size}
use os2021_labscript.Fat16.Write.{
  Writer, cluster_bytes, writer_at, next_cluster, write_piece, write_clusters,
}
use os2021_labscript.Fat16.Files.Layout.{
  Layout, with_image, Layout-image, SameTable, RootChanges, first_sector_lem,
}
use os2021_labscript.Fat16.Files.Names.{NamesFile}
use os2021_labscript.Fat16.Files.Search.{IsFile, IsFile-same, locate-file}
use os2021_labscript.Fat16.Files.Stored.{
  data_place, cluster_apart, mul_gap, Piece, stored, sized, stored_root, sized-Piece,
}
use os2021_labscript.Fat16.Files.Write.{length-take}
use os2021_labscript.Fat16.Files.ReadBack.{get_or-take}

-- The writer after a piece was written
abbrev pub after_piece : Writer → Fat16 → ℕ → Writer
after_piece w v' len = record w { vol = v'; rest = drop len w.rest; end = w.end + len }

module _ {path file name : List ℕ} (nf : NamesFile path file name) (fuel : ℕ) (raw : ℕ → List ℕ)
    (dir : DirEntry) {v : Fat16} {top : ℕ} (l : Layout v top) (k c within len end : ℕ)
    (rest : List ℕ) (is : IsFile v file name k) (lo : 2 ≤ c) (below : c < top)
    (fits : within + len ≤ cluster_bytes v) (enough : len ≤ length rest)
    (small : end + len < 2 ^ 32) where
  per_lem : cluster_bytes v ≡ 512 * v.bpb.sec_per_clus
  per_lem = rw (l.mounted.sector) (omega arith)

  length_piece : length (take len rest) ≡ len
  length_piece = length-take len rest enough

  small_piece : end + length (take len rest) < 2 ^ 32
  small_piece = omega (arith, length_piece)

  piece_position :
      dword (first_sector_of_cluster v c * v.bpb.byts_per_sec + within) ≡ data_place v c within
  piece_position =
      rw (first_sector_lem l c below lo, l.mounted.sector)
        (omega (arith, l.reach c below lo, per_lem))

  piece_size :
      edit_size fuel raw dir (stored v c within (take len rest)) path (end + len)
      ≡ done (sized v k c within end (take len rest))
  unfolding edit_size sized root_sector
  piece_size =
      rw
        (
          locate-file nf (Layout-image l (stored v c within (take len rest)).image).mounted fuel raw
              dir k
              (IsFile-same (stored_root l k c within end (take len rest) is.below small_piece) is),
          size_dword,
        )
        refl
    where
      size_dword : dword (end + len) ≡ end + length (take len rest)
      size_dword = omega (arith, small_piece, length_piece)

  -- A piece is written, and the size is set to the end of it.
  pub write_piece-Piece :
      (write_piece fuel raw dir path (writer_at v c rest end) within len
        ≡ done (after_piece (writer_at v c rest end) (sized v k c within end (take len rest)) len))
      × Piece v top k c within end (take len rest) (sized v k c within end (take len rest))
  unfolding write_piece writer_at
  write_piece-Piece = (
    rw (write_piece, ge→ltb (length rest) len enough, piece_position, piece_size) refl,
    sized-Piece l k c within end (take len rest) is.below small_piece,
  )

-- The clusters of a file from `c` on, in order, each below `top` and none of them twice
abbrev pub Follows : Fat16 → (top c : ℕ) → List ℕ → Type 0
Follows v top c [] = (2 ≤ c) × (c < top)
Follows v top c (d ∷ ds) =
    (2 ≤ c)
    × (c < top)
    × (fat_entry_by_cluster v c ≡ d)
    × (contains c (d ∷ ds) ≡ false)
    × Follows v top d ds

pub Follows-head : (v : Fat16) (top c : ℕ) (cs : List ℕ) → Follows v top c cs → (2 ≤ c) × (c < top)
Follows-head v top c [] f = f
Follows-head v top c (d ∷ ds) f = (f.0, f.1)

pub Follows-same :
    (v v' : Fat16) (top c : ℕ) (cs : List ℕ)
    → SameTable v v' top
    → Follows v top c cs
    → Follows v' top c cs
Follows-same v v' top c [] same f = f
Follows-same v v' top c (d ∷ ds) same (lo, hi, next, out, rest) =
    (lo, hi, same c hi ∙ next, out, Follows-same v v' top d ds same rest)

-- The first `total` bytes of `rest` stand in the clusters `cs`, one after the other, and the file
-- ends `total` bytes behind `end`; other clusters, the tables and other entries are as before.
pub record Pieces (v : Fat16) (top k : ℕ) (cs : List ℕ) (end total : ℕ) (rest : List ℕ) (v' : Fat16)
    : Type 0 where
  pub others : v' ≡ with_image v v'.image
  pub layout : Layout v' top
  pub entry : RootChanges v v' k (record (root_entry v k) { file_size = end + total })
  pub table : SameTable v v' top
  pub bytes :
      (a r : ℕ)
      → r < cluster_bytes v
      → a * cluster_bytes v + r < total
      → v'.image (data_place v (get_or cs a 0) r) ≡ get_or rest (a * cluster_bytes v + r) 0
  pub apart :
      (d i : ℕ)
      → 2 ≤ d
      → contains d cs ≡ false
      → i < cluster_bytes v
      → v'.image (data_place v d i) ≡ v.image (data_place v d i)

pub ne_of_out : (c d : ℕ) (cs : List ℕ) → contains d (c ∷ cs) ≡ false → c ≢ d
ne_of_out c d cs out q =
    let clash : true ≡ false = sym ((==_iff c d).1 q) ∙ or_left (c == d) (contains d cs) out in cc

module _ {v v1 : Fat16} {top k c end len : ℕ} (rest : List ℕ) (l : Layout v top) (lo : 2 ≤ c)
    (fits : len ≤ cluster_bytes v) (enough : len ≤ length rest)
    (p : Piece v top k c 0 end (take len rest) v1) where
  taken : length (take len rest) ≡ len
  taken = length-take len rest enough

  pub piece_bytes : (r : ℕ) → r < len → v1.image (data_place v c r) ≡ get_or rest r 0
  piece_bytes r h =
      ap (λ i. v1.image (data_place v c i)) (omega arith)
      ∙ p.bytes r (omega (arith, taken))
      ∙ get_or-take len rest r h

  pub piece_apart :
      (d i : ℕ)
      → 2 ≤ d
      → c ≢ d
      → i < cluster_bytes v
      → v1.image (data_place v d i) ≡ v.image (data_place v d i)
  piece_apart d i hd ne h =
      p.apart _ (omega arith)
        (cluster_apart l c d 0 (length (take len rest)) i lo hd ne (omega (arith, taken)) h)

  pub piece_entry : RootChanges v v1 k (record (root_entry v k) { file_size = end + len })
  piece_entry =
      subst (λ n. RootChanges v v1 k (record (root_entry v k) { file_size = end + n })) taken
        p.entry

  -- The last piece
  pub one-Pieces : Pieces v top k (c ∷ []) end len rest v1
  one-Pieces = record {
    others = p.others;
    layout = p.layout;
    entry = piece_entry;
    table = p.table;
    bytes = one_bytes;
    apart = λ d i hd out h. piece_apart d i hd (ne_of_out c d [] out) h;
  }
    where
      one_bytes :
          (a r : ℕ)
          → r < cluster_bytes v
          → a * cluster_bytes v + r < len
          → v1.image (data_place v (get_or (c ∷ []) a 0) r)
            ≡ get_or rest (a * cluster_bytes v + r) 0
      one_bytes zero r h small =
          let q : 0 * cluster_bytes v + r ≡ r = omega arith in rw q (piece_bytes r (omega arith))
      one_bytes (suc a) r h small =
          absurd (omega (arith, mul_gap 0 (suc a) (cluster_bytes v) (omega arith)))
