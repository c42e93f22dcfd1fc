-- ===== src/Fat16/Files/Longer.antt =====
-- What `write_path` of lab4/simple_fat16_new.c leaves where it writes at the end of a file in the
-- root directory and takes new clusters.
pub mod Run
pub mod ReadBack
use os2021_labscript.Common.{
  ℕ, zero, suc, ◌+◌, ◌-◌, ◌*◌, ◌%◌, ◌^◌, ◌≤◌, ◌<◌, ◌≡◌, ◌≢◌, ◌∙◌, refl, sym, ap, ◌⊎◌, inl, inr,
  arith, ◌==◌, ==_of_ne, true, false, if◌then◌else◌, List, [], ◌∷◌, ◌++◌, length, length-append,
  get_or, take, some, none,
}
use mathlib.Core.Path.{subst}
use native.Mathlib.Decide.{dec_lt}
use native.Mathlib.Nat.{add-mul}
use os2021_labscript.Common.Outcome.{Outcome, done, ◌>>=◌}
use os2021_labscript.Fat16.Image.{Image}
use os2021_labscript.Fat16.Volume.{Fat16, DirEntry, first_byte}
use os2021_labscript.Fat16.Locate.{has_name}
use os2021_labscript.Fat16.Table.{fat_entry_by_cluster}
use os2021_labscript.Fat16.Table.Free.{contains}
use os2021_labscript.Fat16.Names.Split.{IsRaw}
use os2021_labscript.Fat16.Scan.Root.{root_entry}
use os2021_labscript.Fat16.Write.{
  Writer, cluster_bytes, count_chain, cluster_required, add_clusters, writer_at, write_grown,
  write_path,
}
use os2021_labscript.Fat16.Write.Counts.{Inside, Inside-pos, cluster_required-Inside}
use os2021_labscript.Fat16.Files.Layout.{Layout, with_image, RootChanges}
use os2021_labscript.Fat16.Files.Names.{NamesFile}
use os2021_labscript.Fat16.Files.Search.{IsFile, IsFile-same, find_root-file}
use os2021_labscript.Fat16.Files.Stored.{data_place, mul_gap}
use os2021_labscript.Fat16.Files.Extend.{FreeAbove, Extended, add_clusters-Extended}
use os2021_labscript.Fat16.Files.Pieces.{Follows, Follows-same}
use os2021_labscript.Fat16.Files.Grown.{Appended}
use os2021_labscript.Fat16.Files.Append.{write_grown-Appended}
use os2021_labscript.Fat16.Files.Append.Chain.{
  last_of, count_chain-Follows, Follows-new, Follows-join, chain_apart, get_or-last, last_apart,
  get_or-contains, Follows-low, contains-last,
}

-- The file in root entry `k`, with the clusters `c` and `cs`, went on in the clusters `es`, and has
-- `size` bytes of the buffer behind its `offset` bytes. Its bytes before are as they were, and so
-- are the other entries of the root directory and of the first table.
pub record Longer (v : Fat16) (top k c : ℕ) (cs es : List ℕ) (offset size : ℕ) (buffer : List ℕ)
    (v' : Fat16) : Type 0 where
  pub others : v' ≡ with_image v v'.image
  pub layout : Layout v' top
  pub entry : RootChanges v v' k (record (root_entry v k) { file_size = offset + size })
  pub chain : Follows v' top c (cs ++ es)
  pub table :
      (m : ℕ)
      → m < top
      → last_of c cs ≢ m
      → contains m es ≡ false
      → fat_entry_by_cluster v' m ≡ fat_entry_by_cluster v m
  pub bytes :
      (a r t : ℕ)
      → r < cluster_bytes v
      → t < size
      → offset + t ≡ a * cluster_bytes v + r
      → v'.image (data_place v (get_or (c ∷ cs ++ es) a 0) r) ≡ get_or buffer t 0
  pub before :
      (a r : ℕ)
      → r < cluster_bytes v
      → a * cluster_bytes v + r < offset
      → v'.image (data_place v (get_or (c ∷ cs) a 0) r)
        ≡ v.image (data_place v (get_or (c ∷ cs) a 0) r)

-- What a write at the end of a file starts from: the file in root entry `k` has the clusters `c`
-- and `cs`, none twice, up to an end mark, and no more of them than its `offset` bytes need; the
-- clusters `e` and `es` are the first free ones above the last of them; and the write ends inside
-- the last of these.
pub record IsAppend (v : Fat16) (top k c : ℕ) (cs : List ℕ) (e : ℕ) (es : List ℕ)
    (within size offset : ℕ) : Type 0 where
  pub starts : (root_entry v k).fst_clus_lo ≡ c
  pub size_of : (root_entry v k).file_size ≡ offset
  pub chain : Follows v top c cs
  pub ends : 0xfff8 ≤ fat_entry_by_cluster v (last_of c cs)
  pub free : FreeAbove v top (last_of c cs) (e ∷ es)
  pub at_end : offset ≡ length cs * cluster_bytes v + within
  pub in_last : within ≤ cluster_bytes v
  pub tight : (offset ≡ 0) ⊎ (0 < within)
  pub fits : Inside (within + size) (cluster_bytes v) (length (e ∷ es))
  pub small : offset + size < 2 ^ 31

-- The last cluster by its number, and its bounds
pub get_or_end : (cs : List ℕ) (c : ℕ) → get_or (c ∷ cs) (length cs) 0 ≡ last_of c cs
get_or_end [] c = refl
get_or_end (d ∷ ds) c = get_or_end ds d

pub last_low :
    (cs : List ℕ) (v : Fat16) (top c : ℕ)
    → Follows v top c cs
    → (2 ≤ last_of c cs) × (last_of c cs < top)
last_low cs v top c f =
    subst (λ t. (2 ≤ t) × (t < top)) (get_or_end cs c)
      (Follows-low cs v top c (length cs) f (omega arith))

-- The block of a byte that lies behind block `l`, or not
block_behind : (l a r m s : ℕ) → r < s → a * s + r ≡ l * s + m → l ≤ a
block_behind l a r m s h q = elim (dec_lt a l) [
  | yes lt ↦ absurd (omega (arith, h, q, mul_gap a l s lt))
  | no ge ↦ omega arith
]

block_before : (l a r m s : ℕ) → m ≤ s → a * s + r < l * s + m → a ≤ l
block_before l a r m s h q = elim (dec_lt l a) [
  | yes lt ↦ absurd (omega (arith, h, q, mul_gap l a s lt))
  | no ge ↦ omega arith
]

module _ {v : Fat16} {top k c : ℕ} {cs : List ℕ} {e : ℕ} {es : List ℕ} {within size offset : ℕ}
    (l : Layout v top) (ia : IsAppend v top k c cs e es within size offset) {img : Image}
    (x : Extended v top (last_of c cs) (e ∷ es) (with_image v img))
    (below : k < v.bpb.root_ent_cnt) where
  -- The chain after the new clusters are taken, from its old last cluster on
  pub new_chain : Follows (with_image v img) top (last_of c cs) (e ∷ es)
  new_chain =
      let (lo, hi) = last_low cs v top c ia.chain in
      Follows-new (e ∷ es) v (with_image v img) top (last_of c cs) lo hi ia.free x.links

  disjoint : (m : ℕ) → contains m (c ∷ cs) ≡ true → contains m (e ∷ es) ≡ false
  disjoint m mem = chain_apart cs (e ∷ es) v top c (last_of c cs) m ia.chain ia.ends ia.free mem

  module _ {v' : Fat16} {buffer : List ℕ}
      (y : Appended
        (with_image v img)
        top
        k
        (last_of c cs)
        (e ∷ es)
        within
        (offset + size)
        size
        buffer
        v') where
    same_entry :
        (m : ℕ)
        → m < top
        → last_of c cs ≢ m
        → contains m (e ∷ es) ≡ false
        → fat_entry_by_cluster v' m ≡ fat_entry_by_cluster v m
    same_entry m h ne out = y.table m h ∙ x.entries m h ne out

    new_byte :
        (b r t : ℕ)
        → r < cluster_bytes v
        → t < size
        → offset + t ≡ (length cs + b) * cluster_bytes v + r
        → v'.image (data_place v (get_or (c ∷ cs ++ e ∷ es) (length cs + b) 0) r)
          ≡ get_or buffer t 0
    new_byte b r t h lt q =
        ap (λ d. v'.image (data_place v d r)) (get_or-last cs (e ∷ es) c b)
        ∙ y.bytes b r t h lt (omega (arith, q, ia.at_end, add-mul (length cs) b (cluster_bytes v)))

    old_byte :
        (a r : ℕ)
        → r < cluster_bytes v
        → a * cluster_bytes v + r < offset
        → a ≤ length cs
        → v'.image (data_place v (get_or (c ∷ cs) a 0) r)
          ≡ v.image (data_place v (get_or (c ∷ cs) a 0) r)
    old_byte a r h q le = elim (dec_lt a (length cs)) [
      | yes lt ↦
          let d : ℕ = get_or (c ∷ cs) a 0 in
          let (lo, hi) = Follows-low cs v top c a ia.chain le in
          let out : contains d (e ∷ es) ≡ false =
            disjoint d (get_or-contains (c ∷ cs) a (omega arith)) in
          let out' : contains d (last_of c cs ∷ e ∷ es) ≡ false =
            rw (==_of_ne (last_of c cs) d (last_apart cs v top c a ia.chain lt)) out in
          y.apart d r lo out' h ∙ x.content _ (omega arith)
      | no ge ↦
          let a_last : a ≡ length cs = omega arith in
          let same : get_or (c ∷ cs) a 0 ≡ last_of c cs =
            ap (λ t. get_or (c ∷ cs) t 0) a_last ∙ get_or_end cs c in
          let at : a * cluster_bytes v ≡ length cs * cluster_bytes v =
            ap (λ t. t * cluster_bytes v) a_last in
          subst (λ d. v'.image (data_place v d r) ≡ v.image (data_place v d r)) (sym same)
            (y.before r (omega (arith, at, q, ia.at_end)) h ∙ x.content _ (omega arith))
    ]

    pub Appended-Longer : Longer v top k c cs (e ∷ es) offset size buffer v'
    Appended-Longer = record {
      others = y.others;
      layout = y.layout;
      entry = record {
        here =
            y.entry.here
            ∙ ap {A = DirEntry} (λ n. record n { file_size = offset + size }) (x.root k below);
        apart = λ m h ne. y.entry.apart m h ne ∙ x.root m h;
      };
      chain =
          Follows-join cs (e ∷ es) v v' top c ia.chain
            (λ m h mem ne. same_entry m h ne (disjoint m mem)) disjoint
            (Follows-same (with_image v img) v' top (last_of c cs) (e ∷ es) y.table new_chain);
      table = same_entry;
      bytes = λ a r t h lt q.
          let ge : length cs ≤ a =
            block_behind (length cs) a r (within + t) (cluster_bytes v) h
              (omega (arith, q, ia.at_end)) in
          let sum : length cs + (a - length cs) ≡ a = omega arith in
          subst (λ n. v'.image (data_place v (get_or (c ∷ cs ++ e ∷ es) n 0) r) ≡ get_or buffer t 0)
            sum
            (new_byte (a - length cs) r t h lt (q ∙ ap (λ n. n * cluster_bytes v + r) (sym sum)));
      before = λ a r h q. old_byte a r h q (
          block_before (length cs) a r within (cluster_bytes v) ia.in_last
            (omega (arith, q, ia.at_end)));
    }

    pub Appended-IsFile : {file name : List ℕ} → IsFile v file name k → IsFile v' file name k
    Appended-IsFile is = record {
      below = omega (arith, below, ap (λ t. t.bpb.root_ent_cnt) y.others);
      named = ap (λ n. n.name) here ∙ is.named;
      archive = ap (λ n. n.attr) here ∙ is.archive;
      first = λ m h. ap (has_name _) (same m h) ∙ is.first m h;
      used = λ m h z. is.used m h (sym (ap first_byte (same m h)) ∙ z);
    }
      where
        here : root_entry v' k ≡ record (root_entry v k) { file_size = offset + size }
        here = Appended-Longer.entry.here

        same : (m : ℕ) → m < k → root_entry v' m ≡ root_entry v m
        same m h = Appended-Longer.entry.apart m (omega (arith, below)) (λ q. absurd (omega arith))
