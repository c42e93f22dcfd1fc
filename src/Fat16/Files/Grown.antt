-- ===== src/Fat16/Files/Grown.antt =====
-- The second half of `write_path` of lab4/simple_fat16_new.c, after new clusters were taken: the
-- bytes go behind those of the file.
use os2021_labscript.Common.{
  ℕ, zero, suc, ◌+◌, ◌*◌, ◌≤◌, ◌<◌, ◌≡◌, ◌∙◌, sym, ap, inl, arith, ◌==◌, false, List, ◌∷◌, length,
  get_or, take, drop,
}
use os2021_labscript.Fat16.Volume.{Fat16}
use os2021_labscript.Fat16.Table.Free.{contains, or_right}
use os2021_labscript.Fat16.Scan.Root.{root_entry}
use os2021_labscript.Fat16.Write.{cluster_bytes}
use os2021_labscript.Fat16.Files.Layout.{Layout, with_image, SameTable, RootChanges}
use os2021_labscript.Fat16.Files.Stored.{data_place, cluster_apart, Piece}
use os2021_labscript.Fat16.Files.Write.{length-take}
use os2021_labscript.Fat16.Files.ReadBack.{get_or-take}
use os2021_labscript.Fat16.Files.Pieces.{Pieces, ne_of_out}
use os2021_labscript.Fat16.Files.Pieces.Loop.{with_size, suc_mul, get_or-drop}

-- `size` bytes of the buffer stand from byte `within` of the cluster `last` on, and go on in the
-- clusters `es`; what was before them in `last`, all other clusters, the first table and the other
-- entries of the root directory are as before, and the file ends at `end`.
pub record Appended (v : Fat16) (top k last : ℕ) (es : List ℕ) (within end size : ℕ)
    (buffer : List ℕ) (v' : Fat16) : Type 0 where
  pub others : v' ≡ with_image v v'.image
  pub layout : Layout v' top
  pub entry : RootChanges v v' k (record (root_entry v k) { file_size = end })
  pub table : SameTable v v' top
  pub bytes :
      (a r t : ℕ)
      → r < cluster_bytes v
      → t < size
      → within + t ≡ a * cluster_bytes v + r
      → v'.image (data_place v (get_or (last ∷ es) a 0) r) ≡ get_or buffer t 0
  pub before :
      (r : ℕ)
      → r < within
      → r < cluster_bytes v
      → v'.image (data_place v last r) ≡ v.image (data_place v last r)
  pub apart :
      (d i : ℕ)
      → 2 ≤ d
      → contains d (last ∷ es) ≡ false
      → i < cluster_bytes v
      → v'.image (data_place v d i) ≡ v.image (data_place v d i)

-- The loop began in the last cluster, at its first byte.
pub Pieces-Appended_empty :
    {v v' : Fat16} {top k last end size : ℕ} {es buffer : List ℕ}
    → Pieces v top k (last ∷ es) end size buffer v'
    → Appended v top k last es 0 (end + size) size buffer v'
Pieces-Appended_empty {v} {buffer = buffer} x = record {
  others = x.others;
  layout = x.layout;
  entry = x.entry;
  table = x.table;
  bytes = λ a r t h lt e.
      let q : a * cluster_bytes v + r ≡ t = omega (arith, e) in
      x.bytes a r h (omega arith) ∙ ap (λ z. get_or buffer z 0) q;
  before = λ r h. absurd (omega arith);
  apart = x.apart;
}

-- It began behind the last cluster, which was full.
pub Pieces-Appended_full :
    {v v' : Fat16} {top k last end size : ℕ} {es buffer : List ℕ}
    → 2 ≤ last
    → contains last es ≡ false
    → Pieces v top k es end size buffer v'
    → Appended v top k last es (cluster_bytes v) (end + size) size buffer v'
Pieces-Appended_full {v} {v'} {last = last} {size = size} {es = es} {buffer = buffer} lo out x =
    record {
      others = x.others;
      layout = x.layout;
      entry = x.entry;
      table = x.table;
      bytes = full_bytes;
      before = λ r h h'. x.apart last r lo out h;
      apart = λ d i hd ho. x.apart d i hd (or_right (last == d) (contains d es) ho);
    }
  where
    full_bytes :
        (a r t : ℕ)
        → r < cluster_bytes v
        → t < size
        → cluster_bytes v + t ≡ a * cluster_bytes v + r
        → v'.image (data_place v (get_or (last ∷ es) a 0) r) ≡ get_or buffer t 0
    full_bytes zero r t h lt e = absurd (omega (arith, e))
    full_bytes (suc a) r t h lt e =
        let q : a * cluster_bytes v + r ≡ t = omega (arith, e, suc_mul a (cluster_bytes v)) in
        x.bytes a r h (omega arith) ∙ ap (λ z. get_or buffer z 0) q

-- It began behind the last cluster, which a first piece of `len` bytes had filled.
module _ {v v1 v' : Fat16} {top k last : ℕ} (within end len left : ℕ) {es : List ℕ}
    (buffer : List ℕ) (l : Layout v top) (lo : 2 ≤ last) (out : contains last es ≡ false)
    (fill : within + len ≡ cluster_bytes v) (enough : len + left ≤ length buffer)
    (p : Piece v top k last within end (take len buffer) v1)
    (x : Pieces v1 top k es (end + len) left (drop len buffer) v') where
  per : cluster_bytes v1 ≡ cluster_bytes v
  per = ap cluster_bytes p.others

  place : (d i : ℕ) → data_place v1 d i ≡ data_place v d i
  place d i = ap (λ t. data_place t d i) p.others

  taken : length (take len buffer) ≡ len
  taken = length-take len buffer (omega arith)

  other_cluster :
      (d i : ℕ)
      → 2 ≤ d
      → contains d es ≡ false
      → i < cluster_bytes v
      → v'.image (data_place v d i) ≡ v1.image (data_place v d i)
  other_cluster d i hd ho h =
      ap v'.image (sym (place d i))
      ∙ x.apart d i hd ho (omega (arith, per))
      ∙ ap v1.image (place d i)

  part_bytes :
      (a r t : ℕ)
      → r < cluster_bytes v
      → t < len + left
      → within + t ≡ a * cluster_bytes v + r
      → v'.image (data_place v (get_or (last ∷ es) a 0) r) ≡ get_or buffer t 0
  part_bytes zero r t h lt e =
      let q : r ≡ within + t = omega (arith, e) in
      other_cluster last r lo out h
      ∙ ap (λ z. v1.image (data_place v last z)) q
      ∙ p.bytes t (omega (arith, taken, fill))
      ∙ get_or-take len buffer t (omega (arith, fill))
  part_bytes (suc a) r t h lt e =
      let m = suc_mul a (cluster_bytes v) in
      let e1 : a * cluster_bytes v1 ≡ a * cluster_bytes v = ap (λ z. a * z) per in
      ap v'.image (sym (place (get_or es a 0) r))
      ∙ x.bytes a r (omega (arith, per)) (omega (arith, e, e1, m, fill))
      ∙ get_or-drop len buffer (a * cluster_bytes v1 + r)
      ∙ ap (λ z. get_or buffer z 0) (omega (arith, e, e1, m, fill))

  pub Pieces-Appended_part :
      Appended v top k last es within (end + (len + left)) (len + left) buffer v'
  Pieces-Appended_part = record {
    others = x.others ∙ ap (λ t. with_image t v'.image) p.others;
    layout = x.layout;
    entry = record {
      here =
          x.entry.here
          ∙ ap (λ e. with_size e (end + len + left)) p.entry.here
          ∙ ap (with_size (root_entry v k)) (omega arith);
      apart = λ m h ne.
          x.entry.apart m (omega (arith, h, ap (λ t. t.bpb.root_ent_cnt) p.others)) ne
          ∙ p.entry.apart m h ne;
    };
    table = λ m h. x.table m h ∙ p.table m h;
    bytes = part_bytes;
    before = λ r h h'. other_cluster last r lo out h' ∙ p.apart _ (omega arith) (inl (omega arith));
    apart = λ d i hd ho h.
        other_cluster d i hd (or_right (last == d) (contains d es) ho) h
        ∙ p.apart _ (omega arith) (
            cluster_apart l last d within (length (take len buffer)) i lo hd
              (ne_of_out last d es ho) (omega (arith, taken, fill)) h);
  }
