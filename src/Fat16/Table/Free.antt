-- ===== src/Fat16/Table/Free.antt =====
-- Giving clusters back: `freeCluster`, and the loop of `fat16_unlink` over a chain.
use os2021_labscript.Common.{
  ℕ, zero, suc, ◌+◌, ◌*◌, ◌<◌, ◌≡◌, ◌∙◌, sym, refl, ◌==◌, if◌then◌else◌, Bool, true, false, ◌||◌,
  inl, arith, List, [], ◌∷◌, length,
}
use os2021_labscript.Common.Outcome.{done}
use os2021_labscript.Fat16.Image.{word, word_at}
use os2021_labscript.Fat16.Volume.{Fat16}
use os2021_labscript.Fat16.Table.{
  fat_entry_by_cluster, first_sector_by_cluster, free_cluster, free_chain, is_link, store_word,
}
use os2021_labscript.Fat16.Table.Entries.{
  IsTable, entry_place, write_place, write_place2, fat_entry_lem, fat_entry-store,
  word_at-store_apart,
}

-- The clusters of a chain from `n` on, in order, up to an entry that is no link
abbrev pub IsChain : Fat16 → ℕ → List ℕ → Type 0
IsChain v n [] = is_link n ≡ false
IsChain v n (c ∷ cs) = (n ≡ c) × (is_link c ≡ true) × IsChain v (fat_entry_by_cluster v c) cs

abbrev pub contains : ℕ → List ℕ → Bool
contains m [] = false
contains m (c ∷ cs) = (c == m) || contains m cs

pub or_left : (a b : Bool) → (a || b) ≡ false → a ≡ false
or_left true b h = cc
or_left false b h = refl

pub or_right : (a b : Bool) → (a || b) ≡ false → b ≡ false
or_right true b h = cc
or_right false b h = h

-- Every cluster lies below `top` and occurs once.
abbrev pub IsFlat : ℕ → List ℕ → Type 0
IsFlat top [] = Unit {0}
IsFlat top (c ∷ cs) = (c < top) × (contains c cs ≡ false) × IsFlat top cs

-- On a volume whose tables hold every cluster below `top`, for clusters below `top`:
-- `freeCluster` returns the entry of the cluster and clears it; the other entries of the first
-- table stay.
pub free_cluster_lem :
    {v : Fat16} {top : ℕ} (t : IsTable v top) (n m : ℕ)
    → n < top
    → m < top
    → ((free_cluster v n).1 ≡ fat_entry_by_cluster v n)
      × (fat_entry_by_cluster (free_cluster v n).0 m
          ≡ (if n == m then 0 else fat_entry_by_cluster v m))
unfolding free_cluster first_sector_by_cluster
free_cluster_lem {v} {top} t n m hn hm =
    let w : word n ≡ n = omega arith in
    rw (w, write_place t n hn, write_place2 t n hn)
      (
        refl,
        fat_entry_lem t2 m hm
            ∙ apart
            ∙ sym (fat_entry_lem t1 m hm)
            ∙ fat_entry-store t n m 0 hn hm (omega arith),
      )
  where
    v1 : Fat16
    v1 = store_word v (entry_place v n) 0

    v2 : Fat16
    v2 = store_word v1 (entry_place v n + 512 * v.bpb.fat_sz16) 0

    t1 : IsTable v1 top
    t1 = record { sector = t.sector; reach = t.reach; covers = t.covers; narrow = t.narrow }

    t2 : IsTable v2 top
    t2 = record { sector = t.sector; reach = t.reach; covers = t.covers; narrow = t.narrow }

    apart : word_at v2.image (entry_place v m) ≡ word_at v1.image (entry_place v m)
    apart =
        word_at-store_apart v1.image (entry_place v n + 512 * v.bpb.fat_sz16) (entry_place v m) 0
          (inl (omega arith))

pub free_cluster-IsTable :
    {v : Fat16} {top : ℕ} (t : IsTable v top) (n : ℕ) → IsTable (free_cluster v n).0 top
unfolding free_cluster
free_cluster-IsTable t n = record {
  sector = t.sector;
  reach = t.reach;
  covers = t.covers;
  narrow = t.narrow;
}

-- Clearing an entry outside a chain leaves the chain.
pub IsChain-free :
    {v : Fat16} {top : ℕ} (t : IsTable v top) (n c : ℕ) (cs : List ℕ)
    → n < top
    → contains n cs ≡ false
    → IsFlat top cs
    → IsChain v c cs
    → IsChain (free_cluster v n).0 c cs
IsChain-free t n c [] hn out flat chain = chain
IsChain-free {v} t n c (d ∷ ds) hn out flat (e, link, rest) =
    let same : fat_entry_by_cluster (free_cluster v n).0 d ≡ fat_entry_by_cluster v d =
      ground (arith, free_cluster_lem t n d hn flat.0) in
    (
      e,
      link,
      rw same (IsChain-free t n (fat_entry_by_cluster v d) ds hn (ground arith) flat.2 rest),
    )

cleared_join :
    (a b : Bool) (x : ℕ) → (if b then 0 else if a then 0 else x) ≡ (if a || b then 0 else x)
cleared_join true true x = refl
cleared_join true false x = refl
cleared_join false b x = refl

pub free_chain_last :
    (f : ℕ) (v : Fat16) (n : ℕ)
    → is_link (free_cluster v n).1 ≡ false
    → free_chain (suc f) v n ≡ done (free_cluster v n).0
unfolding free_chain
free_chain_last f v n h = ground arith

pub free_chain_next :
    (f : ℕ) (v : Fat16) (n next : ℕ) {v' : Fat16}
    → (free_cluster v n).1 ≡ next
    → is_link next ≡ true
    → free_chain f (free_cluster v n).0 next ≡ done v'
    → free_chain (suc f) v n ≡ done v'
unfolding free_chain
free_chain_next f v n next e h run = ground arith

-- On a volume whose tables hold every cluster below `top`: if the clusters of a chain are
-- distinct and below `top`, and the fuel is at least their number, the loop ends, and it clears
-- the entries of exactly those among the clusters below `top`.
pub free_chain_lem :
    (cs : List ℕ) {v : Fat16} {top : ℕ} (t : IsTable v top) (fuel c : ℕ)
    → length cs < fuel
    → IsFlat top (c ∷ cs)
    → IsChain v c (c ∷ cs)
    → (v' : Fat16) × (free_chain fuel v c ≡ done v')
      × ((m : ℕ)
          → m < top
          → fat_entry_by_cluster v' m
            ≡ (if contains m (c ∷ cs) then 0 else fat_entry_by_cluster v m))
free_chain_lem cs t zero c h flat chain = absurd (omega arith)
free_chain_lem [] {v} {top} t (suc f) c h flat chain = (
  (free_cluster v c).0,
  free_chain_last f v c ends,
  λ m hm. ground (arith, free_cluster_lem t c m),
)
  where
    ends : is_link (free_cluster v c).1 ≡ false
    ends = rw ((free_cluster_lem t c c flat.0 flat.0).0) chain.2
free_chain_lem (d ∷ ds) {v} {top} t (suc f) c h flat chain =
    let (v', run, cleared) =
      free_chain_lem ds (free_cluster-IsTable t c) f d (omega arith) flat.2 rest in
    (
      v',
      free_chain_next f v c d (returned ∙ chain.2.0) chain.2.1 run,
      λ m hm.
          cleared m hm
          ∙ (rw ((free_cluster_lem t c m flat.0 hm).1)
              (cleared_join (c == m) (contains m (d ∷ ds)) _)),
    )
  where
    returned : (free_cluster v c).1 ≡ fat_entry_by_cluster v c
    returned = (free_cluster_lem t c c flat.0 flat.0).0

    rest : IsChain (free_cluster v c).0 d (d ∷ ds)
    rest =
        rw (chain.2.0) at
          (IsChain-free t c (fat_entry_by_cluster v c) (d ∷ ds) flat.0 flat.1 flat.2 chain.2)
