-- ===== src/Fat16/Files/Extend.antt =====
-- `write_path` of lab4/simple_fat16_new.c takes new clusters: the loop over `a`, with the loop over
-- `b` inside.
use os2021_labscript.Common.{
  ℕ, zero, suc, ◌+◌, ◌^◌, ◌≤◌, ◌<◌, ◌≡◌, ◌≢◌, ◌∙◌, refl, sym, ap, inl, inr, arith, ◌==◌, ◌||◌,
  ==_iff, ==_of_ne, true, false, Bool, if◌then◌else◌, List, [], ◌∷◌, length,
}
use native.Mathlib.Decide.{ℕ_discrete}
use os2021_labscript.Common.Outcome.{done}
use os2021_labscript.Fat16.Image.{word}
use os2021_labscript.Fat16.Volume.{Fat16}
use os2021_labscript.Fat16.Table.{fat_entry_by_cluster, cluster_is_empty, store_word}
use os2021_labscript.Fat16.Table.Entries.{entry_place, fat_entry-store}
use os2021_labscript.Fat16.Table.Alloc.{cluster_is_empty_taken, cluster_is_empty_free}
use os2021_labscript.Fat16.Table.Free.{contains, or_left, or_right}
use os2021_labscript.Fat16.Write.{link_next, add_clusters}
use os2021_labscript.Fat16.Files.Layout.{
  Layout, with_image, Layout-image, SameRoot, SameData, SameRoot-entry, SameData-entry,
}

-- The first free clusters above `n`, in ascending order
abbrev pub FreeAbove : Fat16 → (top n : ℕ) → List ℕ → Type 0
FreeAbove v top n [] = Unit {0}
FreeAbove v top n (e ∷ es) =
    (n < e)
    × (e < top)
    × (fat_entry_by_cluster v e ≡ 0)
    × ((m : ℕ) → n < m → m < e → fat_entry_by_cluster v m ≢ 0)
    × FreeAbove v top e es

-- A chain from `n` on through the clusters, up to the end mark
abbrev pub LinksTo : Fat16 → ℕ → List ℕ → Type 0
LinksTo v n [] = fat_entry_by_cluster v n ≡ 0xffff
LinksTo v n (e ∷ es) = (fat_entry_by_cluster v n ≡ e) × LinksTo v e es

-- The chain that ended with `n` goes on through the clusters, and nothing else has changed.
pub record Extended (v : Fat16) (top n : ℕ) (es : List ℕ) (v' : Fat16) : Type 0 where
  pub others : v' ≡ with_image v v'.image
  pub layout : Layout v' top
  pub links : LinksTo v' n es
  pub entries :
      (m : ℕ)
      → m < top
      → n ≢ m
      → contains m es ≡ false
      → fat_entry_by_cluster v' m ≡ fat_entry_by_cluster v m
  pub root : SameRoot v v'
  pub content : SameData v v'

pub FreeAbove-contains :
    (v : Fat16) (top n : ℕ) (es : List ℕ) (m : ℕ)
    → FreeAbove v top n es
    → m ≤ n
    → contains m es ≡ false
FreeAbove-contains v top n [] m free le = refl
FreeAbove-contains v top n (e ∷ es) m (lo, hi, z, used, rest) le =
    rw (==_of_ne e m (λ q. absurd (omega arith)))
      (FreeAbove-contains v top e es m rest (omega arith))

-- Writing the entry of a cluster below leaves the free ones above.
FreeAbove-store :
    {v : Fat16} {top : ℕ} (l : Layout v top) (n w k : ℕ) (es : List ℕ)
    → n < top
    → w < 2 ^ 16
    → n ≤ k
    → FreeAbove v top k es
    → FreeAbove (store_word v (entry_place v n) w) top k es
FreeAbove-store l n w k [] below small le free = tt
FreeAbove-store {v} {top} l n w k (e ∷ es) below small le (lo, hi, z, used, rest) = (
  lo,
  hi,
  same e (omega arith) hi ∙ z,
  λ m a b q. used m a b (sym (same m (omega arith) (omega arith)) ∙ q),
  FreeAbove-store l n w e es below small (omega arith) rest,
)
  where
    same :
        (m : ℕ)
        → n < m
        → m < top
        → fat_entry_by_cluster (store_word v (entry_place v n) w) m ≡ fat_entry_by_cluster v m
    same m gt hm =
        fat_entry-store l.table n m w below hm small
        ∙ rw (==_of_ne n m (λ q. absurd (omega arith))) refl

link_next_hit :
    (f : ℕ) (v : Fat16) (n b : ℕ) {v' : Fat16}
    → cluster_is_empty v n (word (n + b)) ≡ (v', 0)
    → link_next (suc f) v n b ≡ done v'
unfolding link_next
link_next_hit f v n b h = rw (link_next, h) (ap (λ t. done t.0) h)

link_next_miss :
    (f : ℕ) (v : Fat16) (n b : ℕ) {v' : Fat16}
    → cluster_is_empty v n (word (n + b)) ≡ (v, 1)
    → link_next f v n (b + 1) ≡ done v'
    → link_next (suc f) v n b ≡ done v'
unfolding link_next
link_next_miss f v n b h run = rw (link_next, h) run

-- The loop over `b` ends at the first free cluster above.
link_next_lem :
    (f : ℕ) {v : Fat16} {top : ℕ} (l : Layout v top) (n b e : ℕ)
    → n < top
    → 0 < b
    → n + b ≤ e
    → e < n + b + f
    → e < top
    → fat_entry_by_cluster v e ≡ 0
    → ((m : ℕ) → n < m → m < e → fat_entry_by_cluster v m ≢ 0)
    → link_next f v n b ≡ done (store_word v (entry_place v n) e)
unfolding link_next
link_next_lem zero l n b e hn pos le reach he z used = absurd (omega arith)
link_next_lem (suc f) {v} l n b e hn pos le reach he z used = elim (ℕ_discrete (n + b) e) [
  | yes q ↦
      let w : word (n + b) ≡ e = omega (arith, l.table.narrow) in
      link_next_hit f v n b
        (ap (cluster_is_empty v n) w ∙ cluster_is_empty_free l.table n e hn (inr z))
  | no ne ↦
      let w : word (n + b) ≡ n + b = omega (arith, l.table.narrow) in
      link_next_miss f v n b
        (ap (cluster_is_empty v n) w
          ∙ cluster_is_empty_taken v n (n + b) (omega (arith, l.table.narrow))
              (used (n + b) (omega arith) (omega arith)))
        (link_next_lem f l n (b + 1) e hn (omega arith) (omega arith) (omega arith) he z used)
]

abbrev linked : Fat16 → (n e : ℕ) → Fat16
linked v n e = store_word v (entry_place v n) e

module _ {v : Fat16} {top : ℕ} (l : Layout v top) (n e : ℕ) (hn : n < top) (he : e < top) where
  own_entry : fat_entry_by_cluster (linked v n e) n ≡ e
  own_entry =
      fat_entry-store l.table n n e hn hn (omega (arith, l.table.narrow))
      ∙ rw ((==_iff n n).1 refl) refl

  other_entry :
      (m : ℕ) → m < top → n ≢ m → fat_entry_by_cluster (linked v n e) m ≡ fat_entry_by_cluster v m
  other_entry m hm ne =
      fat_entry-store l.table n m e hn hm (omega (arith, l.table.narrow))
      ∙ rw (==_of_ne n m ne) refl

Layout-linked : {v : Fat16} {top : ℕ} → Layout v top → (n e : ℕ) → Layout (linked v n e) top
Layout-linked l n e = Layout-image l _

-- The last round of the loop over `a` marks its new cluster.
last_Extended :
    {v : Fat16} {top : ℕ} (l : Layout v top) (n e : ℕ)
    → n < top
    → e < top
    → n < e
    → Extended v top n (e ∷ []) (linked (linked v n e) e 0xffff)
last_Extended {v} {top} l n e hn he lt = record {
  others = refl;
  layout = Layout-linked l1 e 0xffff;
  links =
      (marked n hn ∙ rw (==_of_ne e n (λ q. absurd (omega arith))) (own_entry l n e hn he), own);
  entries = λ m hm ne out.
      let apart : e ≢ m =
        λ q. let clash : true ≡ false = sym ((==_iff e m).1 q) ∙ no_or (e == m) out in cc in
      marked m hm ∙ rw (==_of_ne e m apart) (other_entry l n e hn he m hm ne);
  root = λ m h. SameRoot-entry l1 e he 0xffff m h ∙ SameRoot-entry l n hn e m h;
  content = λ q h. SameData-entry l1 e he 0xffff q h ∙ SameData-entry l n hn e q h;
}
  where
    l1 : Layout (linked v n e) top
    l1 = Layout-linked l n e

    marked :
        (m : ℕ)
        → m < top
        → fat_entry_by_cluster (linked (linked v n e) e 0xffff) m
          ≡ (if e == m then 0xffff else fat_entry_by_cluster (linked v n e) m)
    marked m hm = fat_entry-store l1.table e m 0xffff he hm (omega arith)

    own : fat_entry_by_cluster (linked (linked v n e) e 0xffff) e ≡ 0xffff
    own = marked e he ∙ rw ((==_iff e e).1 refl) refl

    no_or : (b : Bool) → (b || false) ≡ false → b ≡ false
    no_or true h = cc
    no_or false h = refl

-- And the rounds before it go on from theirs.
more_Extended :
    {v v' : Fat16} {top : ℕ} (l : Layout v top) (n e : ℕ) (es : List ℕ)
    → n < top
    → e < top
    → n < e
    → FreeAbove v top e es
    → Extended (linked v n e) top e es v'
    → Extended v top n (e ∷ es) v'
more_Extended {v} {v'} {top} l n e es hn he lt free x = record {
  others = x.others;
  layout = x.layout;
  links = (
    x.entries n hn (λ q. absurd (omega arith)) (FreeAbove-contains v top e es n free (omega arith))
        ∙ own_entry l n e hn he,
    x.links,
  );
  entries = λ m hm ne out.
      x.entries m hm
        (λ q.
          let clash : true ≡ false =
            sym ((==_iff e m).1 q) ∙ or_left (e == m) (contains m es) out in
          cc)
        (or_right (e == m) (contains m es) out)
      ∙ other_entry l n e hn he m hm ne;
  root = λ m h. x.root m h ∙ SameRoot-entry l n hn e m h;
  content = λ q h. x.content q h ∙ SameData-entry l n hn e q h;
}

add_clusters_more :
    (left : ℕ) (v : Fat16) (n e : ℕ) {v1 v' : Fat16}
    → link_next (2 ^ 16) v n 1 ≡ done v1
    → fat_entry_by_cluster v1 n ≡ e
    → add_clusters (suc left) v1 e ≡ done v'
    → add_clusters (suc (suc left)) v n ≡ done v'
unfolding add_clusters
add_clusters_more left v n e h next run = rw (h, ==_of_ne (suc left) 0 (omega arith), next) run

-- On a volume with a `Layout`, from a cluster below `top`: if the list holds the first free
-- clusters above it, in order, the loop over `a` for as many clusters ends; the chain then goes
-- on through these clusters up to an end mark, and no other entry of the first table below `top`,
-- no entry of the root directory and no byte behind it has changed.
pub add_clusters-Extended :
    (es : List ℕ) {v : Fat16} {top : ℕ} (l : Layout v top) (n e : ℕ)
    → n < top
    → FreeAbove v top n (e ∷ es)
    → (v' : Fat16) × (add_clusters (length (e ∷ es)) v n ≡ done v') × Extended v top n (e ∷ es) v'
unfolding add_clusters
add_clusters-Extended [] {v} l n e hn (lo, he, z, used, _) =
    let next : fat_entry_by_cluster (linked v n e) n ≡ e = own_entry l n e hn he in
    (
      linked (linked v n e) e 0xffff,
      rw
          (
            link_next_lem (2 ^ 16) l n 1 e hn (omega arith) (omega arith)
                (omega (arith, l.table.narrow)) he z used,
            next,
            cluster_is_empty_free (Layout-linked l n e).table e 0xffff he (inl refl),
          )
          refl,
      last_Extended l n e hn he lo,
    )
add_clusters-Extended (d ∷ ds) {v} l n e hn (lo, he, z, used, rest) =
    let next : fat_entry_by_cluster (linked v n e) n ≡ e = own_entry l n e hn he in
    let (v', run, x) =
      add_clusters-Extended ds (Layout-linked l n e) e d he
        (FreeAbove-store l n e e (d ∷ ds) hn (omega (arith, l.table.narrow)) (omega arith) rest) in
    (
      v',
      add_clusters_more (length ds) v n e
          (link_next_lem (2 ^ 16) l n 1 e hn (omega arith) (omega arith)
            (omega (arith, l.table.narrow)) he z used)
          next run,
      more_Extended l n e (d ∷ ds) hn he lo rest x,
    )
