-- ===== src/Fat16/FileMap/Change.antt =====
-- An operation of lab4/simple_fat16_new.c on one name: what it must leave alone for the volume to
-- hold the map with the one name changed.
use os2021_labscript.Common.{
  ℕ, ◌<◌, ◌≡◌, ◌≢◌, ◌∙◌, refl, sym, ap, ◌⊎◌, inl, inr, arith, true, false, Bool-cases,
  if◌then◌else◌, same_text, same_text_refl, eq_of_same_text, List, length, Option, some,
}
use mathlib.Core.Path.{subst}
use native.Mathlib.Decide.{ℕ_discrete}
use os2021_labscript.Fat16.Volume.{Fat16}
use os2021_labscript.Fat16.Table.{fat_entry_by_cluster, is_link}
use os2021_labscript.Fat16.Names.{path_decode}
use os2021_labscript.Fat16.Scan.Root.{root_entry}
use os2021_labscript.Fat16.Locate.{is_free}
use os2021_labscript.Fat16.Attr.{is_listed}
use os2021_labscript.Fat16.Write.{cluster_bytes}
use os2021_labscript.Fat16.Files.Layout.{Layout, with_image}
use os2021_labscript.Fat16.Files.Names.{NamesFile}
use os2021_labscript.Fat16.Files.Stored.{data_place}
use os2021_labscript.Fat16.Files.NameSet.{IsClosed}
use os2021_labscript.Fat16.FileMap.{
  Node, file, other, FileMap, update, path_of, FileAt, EntryAt, NodeAt, decoded, cluster_at, Holds,
}
use os2021_labscript.Fat16.FileMap.Entries.{NodeAt-below, NodeAt-decoded}

-- Two names are equal, or the update of one leaves the other.
pub name_cases :
    (n m : List ℕ) → ((n ≡ m) × (same_text n m ≡ true)) ⊎ ((n ≢ m) × (same_text n m ≡ false))
name_cases n m = elim (Bool-cases (same_text n m)) [
  | inl t ↦ inl (eq_of_same_text n m t, t)
  | inr f ↦
      inr (λ q. let clash : true ≡ false = sym (same_text_refl n) ∙ ap (same_text n) q ∙ f in cc, f)
]

pub some_inj {ℓ} : {A : Type ℓ} {a b : A} → some a ≡ some b → a ≡ b
some_inj h = cc

-- The places after the name `n` was put at `k`
abbrev pub moved : (List ℕ → ℕ) → List ℕ → ℕ → List ℕ → ℕ
moved place n k m = if same_text n m then k else place m

-- A file whose entry, table entry and bytes are as before is still there.
pub FileAt-same :
    {v v' : Fat16} {top : ℕ} {n bs : List ℕ} {k : ℕ}
    → v' ≡ with_image v v'.image
    → root_entry v' k ≡ root_entry v k
    → fat_entry_by_cluster v' (cluster_at v k) ≡ fat_entry_by_cluster v (cluster_at v k)
    → ((i : ℕ)
        → i < length bs
        → v'.image (data_place v (cluster_at v k) i) ≡ v.image (data_place v (cluster_at v k) i))
    → FileAt v top n bs k
    → FileAt v' top n bs k
FileAt-same {v} {v'} {n = n} {k = k} others same table content f = record {
  below = omega (arith, f.below, ap (λ t. t.bpb.root_ent_cnt) others);
  names = subst (NamesFile (path_of n) n) (sym (ap (λ e. e.name) same)) f.names;
  plain = f.plain;
  archive = ap (λ e. e.attr) same ∙ f.archive;
  small = record {
    starts = refl;
    low = omega (arith, f.small.low, cl);
    below = omega (arith, f.small.below, cl);
    ends = ap is_link entry ∙ f.small.ends;
  };
  taken = λ z. f.taken (sym entry ∙ z);
  size = ap (λ e. e.file_size) same ∙ f.size;
  fits = omega (arith, f.fits, ap cluster_bytes others);
  bytes = λ i h. ap v'.image (place i) ∙ content i h ∙ f.bytes i h;
}
  where
    cl : cluster_at v' k ≡ cluster_at v k
    cl = ap (λ e. e.fst_clus_lo) same

    entry : fat_entry_by_cluster v' (cluster_at v' k) ≡ fat_entry_by_cluster v (cluster_at v k)
    entry = ap (fat_entry_by_cluster v') cl ∙ table

    place : (i : ℕ) → data_place v' (cluster_at v' k) i ≡ data_place v (cluster_at v k) i
    place i = ap (λ c. data_place v' c i) cl ∙ ap (λ t. data_place t (cluster_at v k) i) others

EntryAt-same :
    {v v' : Fat16} {n : List ℕ} {k : ℕ}
    → v' ≡ with_image v v'.image
    → root_entry v' k ≡ root_entry v k
    → EntryAt v n k
    → EntryAt v' n k
EntryAt-same others same e = record {
  below = omega (arith, e.below, ap (λ t. t.bpb.root_ent_cnt) others);
  used = ap is_free same ∙ e.used;
  named = ap (λ d. path_decode d.name) same ∙ e.named;
  listed = ap is_listed same ∙ e.listed;
}

-- The operation puts `o` under the name `n`, at entry `k`.
pub record Changed (v : Fat16) (top : ℕ) (fs : FileMap) (place : List ℕ → ℕ) (n : List ℕ)
    (o : Option Node) (k : ℕ) (v' : Fat16) : Type 0 where
  pub others : v' ≡ with_image v v'.image
  pub layout : Layout v' top
  pub closed : IsClosed v'
  pub new : (node : Node) → o ≡ some node → NodeAt v' top n k node
  pub in_use : is_free (root_entry v' k) ≡ false → (node : Node) × (o ≡ some node)
  pub entries : (j : ℕ) → j < v.bpb.root_ent_cnt → k ≢ j → root_entry v' j ≡ root_entry v j
  -- No other entry has the name, and no other name has the entry.
  pub one_entry :
      (j : ℕ) → j < v.bpb.root_ent_cnt → k ≢ j → is_free (root_entry v j) ≡ false → n ≢ decoded v j
  pub one_name : (m : List ℕ) (node : Node) → n ≢ m → fs m ≡ some node → k ≢ place m
  -- The clusters of the other files are left as they are, and are not those of this one.
  pub table :
      (m bs : List ℕ)
      → n ≢ m
      → fs m ≡ some (file bs)
      → fat_entry_by_cluster v' (cluster_at v (place m))
        ≡ fat_entry_by_cluster v (cluster_at v (place m))
  pub content :
      (m bs : List ℕ)
      → n ≢ m
      → fs m ≡ some (file bs)
      → (i : ℕ) → i < length bs
      → v'.image (data_place v (cluster_at v (place m)) i)
        ≡ v.image (data_place v (cluster_at v (place m)) i)
  pub own_cluster :
      (m bs cs : List ℕ)
      → n ≢ m
      → o ≡ some (file bs)
      → fs m ≡ some (file cs)
      → cluster_at v' k ≢ cluster_at v (place m)

module _ {v v' : Fat16} {top : ℕ} {fs : FileMap} {place : List ℕ → ℕ} {n : List ℕ} {o : Option Node}
    {k : ℕ} (h : Holds v top fs place) (ch : Changed v top fs place n o k v') where
  same_entry :
      (m : List ℕ) (node : Node)
      → n ≢ m
      → fs m ≡ some node
      → root_entry v' (place m) ≡ root_entry v (place m)
  same_entry m node ne e =
      ch.entries (place m) (NodeAt-below v top m (place m) node (h.at m node e))
        (ch.one_name m node ne e)

  kept : (m : List ℕ) (node : Node) → n ≢ m → fs m ≡ some node → NodeAt v' top m (place m) node
  kept m (file bs) ne e =
      FileAt-same ch.others (same_entry m (file bs) ne e) (ch.table m bs ne e)
        (ch.content m bs ne e) (h.at m (file bs) e)
  kept m other ne e = EntryAt-same ch.others (same_entry m other ne e) (h.at m other e)

  new_or_kept :
      (m : List ℕ) (node : Node)
      → update fs n o m ≡ some node
      → NodeAt v' top m (moved place n k m) node
  new_or_kept m node e = elim (name_cases n m) [
    | inl (q, t) ↦ rw t (subst (λ z. NodeAt v' top z k node) q (ch.new node (rw t at e)))
    | inr (ne, f) ↦ rw f (kept m node ne (rw f at e))
  ]

  still_all :
      (j : ℕ)
      → j < v'.bpb.root_ent_cnt
      → is_free (root_entry v' j) ≡ false
      → (node : Node) × (update fs n o (decoded v' j) ≡ some node)
        × (moved place n k (decoded v' j) ≡ j)
  still_all j below used = elim (ℕ_discrete k j) [
    | yes q ↦
        let (node, e) = ch.in_use (ap (λ i. is_free (root_entry v' i)) q ∙ used) in
        let named : n ≡ decoded v' j =
          sym (NodeAt-decoded v' top n k node (ch.new node e)) ∙ ap (decoded v') q in
        subst Located named (node, rw (same_text_refl n) e, rw (same_text_refl n) q)
    | no ne ↦
        let small : j < v.bpb.root_ent_cnt =
          omega (arith, below, ap (λ t. t.bpb.root_ent_cnt) ch.others) in
        let same : root_entry v' j ≡ root_entry v j = ch.entries j small ne in
        let used' : is_free (root_entry v j) ≡ false = sym (ap is_free same) ∙ used in
        subst Located (ap (λ e. path_decode e.name) (sym same)) (elim (name_cases n (decoded v j)) [
          | inl (q, t) ↦ absurd (ch.one_entry j small ne used' q)
          | inr (nq, f) ↦ rw f (h.all j small used')
        ])
  ]
    where
      Located : List ℕ → Type 0
      Located z = (node : Node) × (update fs n o z ≡ some node) × (moved place n k z ≡ j)

  -- The clusters of two files, one of them the new one or both kept
  own_apart :
      (m bs cs : List ℕ)
      → n ≢ m
      → o ≡ some (file bs)
      → fs m ≡ some (file cs)
      → cluster_at v' k ≢ cluster_at v' (place m)
  own_apart m bs cs ne e e' q =
      ch.own_cluster m bs cs ne e e' (q ∙ ap (λ d. d.fst_clus_lo) (same_entry m (file cs) ne e'))

  clusters_apart :
      (a b bs cs : List ℕ)
      → update fs n o a ≡ some (file bs)
      → update fs n o b ≡ some (file cs)
      → a ≢ b
      → cluster_at v' (moved place n k a) ≢ cluster_at v' (moved place n k b)
  clusters_apart a b bs cs ea eb ne = elim (name_cases n a) [
    | inl (qa, ta) ↦ elim (name_cases n b) [
      | inl (qb, tb) ↦ absurd (ne (sym qa ∙ qb))
      | inr (nb, fb) ↦ rw (ta, fb) (own_apart b bs cs nb (rw ta at ea) (rw fb at eb))
    ]
    | inr (na, fa) ↦ elim (name_cases n b) [
      | inl (qb, tb) ↦ rw (fa, tb) (λ q. own_apart a cs bs na (rw tb at eb) (rw fa at ea) (sym q))
      | inr (nb, fb) ↦
          let old_a : fs a ≡ some (file bs) = rw fa at ea in
          let old_b : fs b ≡ some (file cs) = rw fb at eb in
          rw (fa, fb)
            (λ q. h.apart a b bs cs old_a old_b ne (
              sym (ap (λ d. d.fst_clus_lo) (same_entry a (file bs) na old_a))
              ∙ q
              ∙ ap (λ d. d.fst_clus_lo) (same_entry b (file cs) nb old_b)))
    ]
  ]

  pub Changed-Holds : Holds v' top (update fs n o) (moved place n k)
  Changed-Holds = record {
    layout = ch.layout;
    closed = ch.closed;
    at = new_or_kept;
    all = still_all;
    apart = clusters_apart;
  }
