-- ===== src/Fat16/Files/Append.antt =====
-- `write_path` of lab4/simple_fat16_new.c at the end of a file that needs new clusters.
pub mod Chain
use os2021_labscript.Common.{
  ℕ, zero, suc, ◌+◌, ◌-◌, ◌*◌, ◌%◌, ◌^◌, ◌≤◌, ◌<◌, ◌≡◌, ◌≢◌, ◌∙◌, refl, sym, ap, ◌⊎◌, inl, inr,
  arith, ◌==◌, ==_iff, ==_of_ne, not, true, false, if◌then◌else◌, List, [], ◌∷◌, length, take, drop,
}
use mathlib.Core.Path.{subst}
use native.Mathlib.Decide.{ℕ_discrete}
use native.Mathlib.Nat.{mod-eq_of_lt, mul-add-mod_self_right, mod_self, zero-mod}
use os2021_labscript.Common.Outcome.{Outcome, done, ◌>>=◌}
use os2021_labscript.Fat16.Volume.{Fat16, DirEntry}
use os2021_labscript.Fat16.Table.{fat_entry_by_cluster}
use os2021_labscript.Fat16.Table.Free.{contains}
use os2021_labscript.Fat16.Scan.Root.{root_entry}
use os2021_labscript.Fat16.Write.{
  Writer, cluster_bytes, positive_int, size_t, clusters_for, writer_at, next_cluster, write_piece,
  write_clusters, write_grown,
}
use os2021_labscript.Fat16.Write.Counts.{
  Inside, Inside-pos, Inside-small, div_mod-Inside, clusters_for-Inside, positive_int_lem,
}
use os2021_labscript.Fat16.Files.Layout.{Layout}
use os2021_labscript.Fat16.Files.Names.{NamesFile}
use os2021_labscript.Fat16.Files.Search.{IsFile}
use os2021_labscript.Fat16.Files.Stored.{Piece, sized}
use os2021_labscript.Fat16.Files.ReadBack.{Piece-IsFile}
use os2021_labscript.Fat16.Files.Pieces.{
  after_piece, write_piece-Piece, Follows, Follows-head, Follows-same, Pieces,
}
use os2021_labscript.Fat16.Files.Pieces.Loop.{length-drop, write_clusters-Pieces, suc_mul}
use os2021_labscript.Fat16.Files.Grown.{
  Appended, Pieces-Appended_empty, Pieces-Appended_full, Pieces-Appended_part,
}

module _ {path file name : List ℕ} (nf : NamesFile path file name) (fuel : ℕ) (raw : ℕ → List ℕ)
    (dir : DirEntry) (k : ℕ) where
  write_grown_start :
      (w : Writer) (size offset file_size n : ℕ) {w' : Writer}
      → offset % cluster_bytes w.vol ≡ 0
      → positive_int (clusters_for size (cluster_bytes w.vol)) ≡ n
      → write_clusters fuel raw dir path n size (if not (file_size == 0) then next_cluster w else w)
        ≡ done w'
      → write_grown fuel raw dir path w size offset file_size ≡ done w'
  unfolding write_grown
  write_grown_start w size offset file_size n h c run = rw (h, c) run

  write_grown_part :
      (w : Writer) (size offset file_size within len left n : ℕ) {w1 w' : Writer}
      → offset % cluster_bytes w.vol ≡ within
      → within ≢ 0
      → cluster_bytes w.vol - within ≡ len
      → size_t (size + 2 ^ 64 - len) ≡ left
      → positive_int (clusters_for left (cluster_bytes w.vol)) ≡ n
      → write_piece fuel raw dir path w within len ≡ done w1
      → write_clusters fuel raw dir path n left (next_cluster w1) ≡ done w'
      → write_grown fuel raw dir path w size offset file_size ≡ done w'
  unfolding write_grown
  write_grown_part w size offset file_size within len left n h nz e q c piece run =
      rw (h, ==_of_ne within 0 nz, e, q, c, piece) run

  -- The number of clusters that a rest needs, and what the last of them has
  rest_count :
      (n per q : ℕ)
      → Inside n per q
      → n < 2 ^ 31
      → (positive_int (clusters_for n per) ≡ suc q) × (q * per + n % per ≡ n)
  rest_count n per q i small =
      let c : clusters_for n per ≡ suc q =
        clusters_for-Inside n per q i (omega arith) ∙ omega arith in
      let low = Inside-small i small in
      let r = (div_mod-Inside n per q i).1 in
      (ap positive_int c ∙ positive_int_lem (suc q) low, omega (arith, r, i.above))

  module _ {v : Fat16} {top : ℕ} (l : Layout v top) (last e : ℕ) (es : List ℕ) (p within : ℕ)
      (size offset : ℕ) (buffer : List ℕ) (is : IsFile v file name k)
      (f : Follows v top last (e ∷ es)) (at : offset ≡ p * cluster_bytes v + within)
      (i : Inside (within + size) (cluster_bytes v) (length (e ∷ es)))
      (enough : size ≤ length buffer) (small : offset + size < 2 ^ 31) where
    abbrev pub Grown : Type 0
    Grown =
        (w : Writer) × (write_grown fuel raw dir path (writer_at v last buffer offset) size offset
            offset
          ≡ done w)
        × Appended v top k last (e ∷ es) within (offset + size) size buffer w.vol

    per_pos : 0 < cluster_bytes v
    per_pos = Inside-pos i

    grown_empty : offset ≡ 0 → within ≡ 0 → Grown
    unfolding writer_at next_cluster
    grown_empty z z' =
        let i' : Inside size (cluster_bytes v) (length (e ∷ es)) = record {
          above = omega (arith, i.above, z');
          under = omega (arith, i.under, z');
        } in
        let (count, total) = rest_count size (cluster_bytes v) (length (e ∷ es)) i' (omega arith) in
        let w0 : Writer = writer_at v last buffer offset in
        let (w, run, x) =
          write_clusters-Pieces nf fuel raw dir k (e ∷ es) l last offset size (cluster_bytes v)
            buffer refl is per_pos f (omega (arith, total)) (omega (arith, total)) in
        let start : offset % cluster_bytes v ≡ 0 =
          ap (λ t. t % cluster_bytes v) z ∙ zero-mod (cluster_bytes v) in
        (
          w,
          write_grown_start w0 size offset offset (length (last ∷ e ∷ es)) start count (
              ap
                (λ t.
                  write_clusters fuel raw dir path (length (last ∷ e ∷ es)) size
                    (if not t then next_cluster w0 else w0))
                ((==_iff offset 0).1 z)
              ∙ run),
          subst (λ t. Appended v top k last (e ∷ es) t (offset + size) size buffer w.vol) (sym z')
              (Pieces-Appended_empty
                (subst (λ n. Pieces v top k (last ∷ e ∷ es) offset n buffer w.vol) total x)),
        )

    grown_full : within ≡ cluster_bytes v → Grown
    unfolding writer_at next_cluster
    grown_full z =
        let m = suc_mul (length es) (cluster_bytes v) in
        let i' : Inside size (cluster_bytes v) (length es) = record {
          above = omega (arith, i.above, m);
          under = omega (arith, i.under, m);
        } in
        let (count, total) = rest_count size (cluster_bytes v) (length es) i' (omega arith) in
        let w0 : Writer = writer_at v last buffer offset in
        let (w, run, x) =
          write_clusters-Pieces nf fuel raw dir k es l e offset size (cluster_bytes v) buffer refl
            is per_pos f.4 (omega (arith, total)) (omega (arith, total)) in
        let start : offset % cluster_bytes v ≡ 0 =
          ap (λ t. t % cluster_bytes v) (at ∙ ap (λ t. p * cluster_bytes v + t) z)
          ∙ mul-add-mod_self_right p (cluster_bytes v) (cluster_bytes v)
          ∙ mod_self (cluster_bytes v) in
        (
          w,
          write_grown_start w0 size offset offset (length (e ∷ es)) start count (
              ap
                (λ t.
                  write_clusters fuel raw dir path (length (e ∷ es)) size
                    (if not t then next_cluster w0 else w0))
                (==_of_ne offset 0 (omega (arith, per_pos)))
              ∙ ap
                  (λ n.
                    write_clusters fuel raw dir path (length (e ∷ es)) size
                      (writer_at v n buffer offset))
                  f.2
              ∙ run),
          subst (λ t. Appended v top k last (e ∷ es) t (offset + size) size buffer w.vol) (sym z)
              (Pieces-Appended_full f.0 f.3
                (subst (λ n. Pieces v top k (e ∷ es) offset n buffer w.vol) total x)),
        )

    grown_part : 0 < within → within < cluster_bytes v → Grown
    unfolding writer_at next_cluster
    grown_part pos lt =
        let m = suc_mul (length es) (cluster_bytes v) in
        let len : ℕ = cluster_bytes v - within in
        let left : ℕ = size - len in
        let more : len < size = omega (arith, i.above, m) in
        let sum : len + left ≡ size = omega arith in
        let i' : Inside left (cluster_bytes v) (length es) = record {
          above = omega (arith, i.above, m);
          under = omega (arith, i.under, m);
        } in
        let (count, total) = rest_count left (cluster_bytes v) (length es) i' (omega arith) in
        let w0 : Writer = writer_at v last buffer offset in
        let v1 : Fat16 = sized v k last within offset (take len buffer) in
        let (run1, pc) =
          write_piece-Piece nf fuel raw dir l k last within len offset buffer is f.0 f.1
            (omega arith) (omega arith) (omega arith) in
        let dropped = length-drop len buffer (omega arith) in
        let (w, run, x) =
          write_clusters-Pieces nf fuel raw dir k es pc.layout e (offset + len) left
            (cluster_bytes v) (drop len buffer) (ap cluster_bytes pc.others) (Piece-IsFile pc is)
            per_pos (Follows-same v v1 top e es pc.table f.4) (omega (arith, total, dropped))
            (omega (arith, total)) in
        let start : offset % cluster_bytes v ≡ within =
          ap (λ t. t % cluster_bytes v) at
          ∙ mul-add-mod_self_right p (cluster_bytes v) within
          ∙ mod-eq_of_lt lt in
        (
          w,
          write_grown_part w0 size offset offset within len left (length (e ∷ es)) start
              (omega arith) refl (omega arith) count run1
              (ap
                  (λ n.
                    write_clusters fuel raw dir path (length (e ∷ es)) left
                      (writer_at v1 n (drop len buffer) (offset + len)))
                  f.2
                ∙ run),
          subst (λ n. Appended v top k last (e ∷ es) within (offset + n) n buffer w.vol) sum
              (Pieces-Appended_part within offset len left buffer l f.0 f.3 (omega arith)
                (omega arith) pc
                (subst (λ n. Pieces v1 top k (e ∷ es) (offset + len) n (drop len buffer) w.vol)
                  total x)),
        )

    -- From the place behind the bytes of a file that has no more clusters than it needs
    pub write_grown-Appended : (offset ≡ 0) ⊎ (0 < within) → within ≤ cluster_bytes v → Grown
    write_grown-Appended (inl z) le = grown_empty z (omega (arith, at))
    write_grown-Appended (inr pos) le = elim (ℕ_discrete within (cluster_bytes v)) [
      | yes q ↦ grown_full q
      | no ne ↦ grown_part pos (omega arith)
    ]
