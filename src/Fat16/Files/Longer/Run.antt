-- ===== src/Fat16/Files/Longer/Run.antt =====
-- `write_path` of lab4/simple_fat16_new.c at the end of a file in the root directory, as a whole,
-- and `read_path` behind it.
use os2021_labscript.Common.{
  ℕ, suc, ◌+◌, ◌*◌, ◌≤◌, ◌≡◌, ◌∙◌, refl, ap, arith, ==_of_ne, List, ◌∷◌, length, some, none,
}
use mathlib.Core.Path.{subst}
use native.Mathlib.Nat.{add-mul}
use os2021_labscript.Common.Outcome.{done}
use os2021_labscript.Fat16.Image.{Image}
use os2021_labscript.Fat16.Volume.{Fat16, DirEntry}
use os2021_labscript.Fat16.Names.Split.{IsRaw}
use os2021_labscript.Fat16.Write.{
  cluster_bytes, count_chain, cluster_required, add_clusters, write_path,
}
use os2021_labscript.Fat16.Write.Counts.{Inside, Inside-pos, cluster_required-Inside}
use os2021_labscript.Fat16.Files.Layout.{Layout, with_image}
use os2021_labscript.Fat16.Files.Names.{NamesFile}
use os2021_labscript.Fat16.Files.Search.{IsFile, IsFile-same, find_root-file}
use os2021_labscript.Fat16.Files.Extend.{Extended, add_clusters-Extended}
use os2021_labscript.Fat16.Files.Append.{write_grown-Appended}
use os2021_labscript.Fat16.Files.Append.Chain.{last_of, count_chain-Follows}
use os2021_labscript.Fat16.Files.Longer.{
  last_low, new_chain, Longer, IsAppend, Appended-Longer, Appended-IsFile,
}

module _ {path file name : List ℕ} (nf : NamesFile path file name) {v : Fat16} {top : ℕ}
    (l : Layout v top) (k c : ℕ) (cs : List ℕ) (e : ℕ) (es : List ℕ) (within size offset : ℕ)
    (buffer : List ℕ) (is : IsFile v file name k)
    (ia : IsAppend v top k c cs e es within size offset) (enough : size ≤ length buffer) (fuel : ℕ)
    (heap : ℕ → ℕ → List ℕ) (dir : DirEntry) (r0 : IsRaw (heap 0)) (r2 : IsRaw (heap 2))
    (fueled : length cs + 2 ≤ fuel) where
  abbrev Linked : Type 0
  Linked =
      (img : Image) × (add_clusters (length (e ∷ es)) v (last_of c cs) ≡ done (with_image v img))
      × Extended v top (last_of c cs) (e ∷ es) (with_image v img)

  linked_lem : Linked
  linked_lem =
      let (v1, run, x) =
        add_clusters-Extended es l (last_of c cs) e (last_low cs v top c ia.chain).1 ia.free in
      (v1.image, run ∙ ap done x.others, subst (Extended v top (last_of c cs) (e ∷ es)) x.others x)

  chain_lem : count_chain fuel v c 0 none ≡ done (suc (length cs), some (last_of c cs))
  chain_lem =
      count_chain-Follows cs fuel v top c 0 none (omega (arith, l.table.narrow)) fueled ia.chain
        ia.ends
      ∙ ap (λ t. done (t, some (last_of c cs))) (omega arith)

  required_lem : cluster_required size offset (cluster_bytes v) (suc (length cs)) ≡ length (e ∷ es)
  required_lem =
      cluster_required-Inside size offset (cluster_bytes v) (length cs) (length (e ∷ es)) inside
        (omega (arith, ia.small))
    where
      split :
          (length cs + length (e ∷ es)) * cluster_bytes v
          ≡ length cs * cluster_bytes v + length (e ∷ es) * cluster_bytes v
      split = add-mul (length cs) (length (e ∷ es)) (cluster_bytes v)

      inside : Inside (size + offset) (cluster_bytes v) (length cs + length (e ∷ es))
      inside = record {
        above = omega (arith, ia.fits.above, ia.at_end, split);
        under = omega (arith, ia.fits.under, ia.at_end, split);
      }

  -- On a volume with a `Layout`, for a path that by `NamesFile` names one component, the file in
  -- root entry `k` by `IsFile`, and a write of `size` bytes, no more than the buffer has, at the end
  -- of the file, that by `IsAppend` takes the new clusters `e` and `es`: with memory of 11 bytes for
  -- each name, and fuel of at least one more than the clusters of the file, `write_path` returns
  -- `size`; the chain of the file goes on in the new clusters, its entry has the new size, the
  -- bytes stand behind those of the file, which are as before, and so are the other entries of the
  -- root directory and of the first table (`Longer`); and the path still leads to the entry.
  pub write_path-Longer :
      (v' : Fat16) × (write_path fuel heap dir v path size offset buffer ≡ done (v', size))
      × Longer v top k c cs (e ∷ es) offset size buffer v'
      × IsFile v' file name k
  unfolding write_path
  write_path-Longer =
      let (img, add, x) = linked_lem in
      let is1 : IsFile (with_image v img) file name k = IsFile-same x.root is in
      let (w, run, y) =
        write_grown-Appended nf fuel (heap 1) dir k x.layout (last_of c cs) e es (length cs) within
          size offset buffer is1 (new_chain l ia x is.below) ia.at_end ia.fits enough ia.small
          ia.tight ia.in_last in
      (
        w.vol,
        rw
            (
              find_root-file nf l.mounted fuel (heap 0) dir k r0 is,
              ia.starts,
              chain_lem,
              ==_of_ne (cluster_bytes v) 0 (omega (arith, Inside-pos ia.fits)),
              required_lem,
              ==_of_ne (length (e ∷ es)) 0 (omega arith),
              add,
              nf.uncut,
              find_root-file nf x.layout.mounted fuel (heap 2) dir k r2 is1,
              x.root k is.below,
              ia.size_of,
              run,
            )
            refl,
        Appended-Longer l ia x is.below y,
        Appended-IsFile l ia x is.below y is,
      )
