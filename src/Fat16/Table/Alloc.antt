-- ===== src/Fat16/Table/Alloc.antt =====
-- Taking clusters: `ClusterIsEmpty`, `ClusterEmpty` and `FindEmptyCluster`.
use os2021_labscript.Common.{
  ℕ, zero, suc, ◌+◌, ◌*◌, ◌^◌, ◌≤◌, ◌<◌, ◌≡◌, ◌≢◌, refl, ◌==◌, ==_iff, ==_of_ne, if◌then◌else◌, ◌⊎◌,
  inr, arith,
}
use native.Mathlib.Decide.{ℕ_discrete}
use os2021_labscript.Common.Outcome.{done, diverged}
use os2021_labscript.Fat16.Image.{word, word_at}
use os2021_labscript.Fat16.Volume.{Fat16}
use os2021_labscript.Fat16.Table.{
  fat_entry_by_cluster, cluster_is_empty, cluster_empty, find_empty_from, find_empty_cluster,
  store_word,
}
use os2021_labscript.Fat16.Table.Entries.{
  IsTable, entry_place, write_place, fat_entry-store, word_at-store_apart,
}

-- Whether `ClusterIsEmpty` may link to the value: the end mark, or a cluster with an empty entry
abbrev pub MayLink : Fat16 → ℕ → Type 0
MayLink v value = (value ≡ 0xffff) ⊎ (fat_entry_by_cluster v value ≡ 0)

-- The word of the second table for a cluster
abbrev pub second_entry : Fat16 → ℕ → ℕ
second_entry v m = word_at v.image (entry_place v m + 512 * v.bpb.fat_sz16)

pub cluster_is_empty_taken :
    (v : Fat16) (n value : ℕ)
    → value ≢ 0xffff
    → fat_entry_by_cluster v value ≢ 0
    → cluster_is_empty v n value ≡ (v, 1)
unfolding cluster_is_empty
cluster_is_empty_taken v n value h k = ground arith

pub cluster_is_empty_free :
    {v : Fat16} {top : ℕ} (t : IsTable v top) (n value : ℕ)
    → n < top
    → MayLink v value
    → cluster_is_empty v n value ≡ (store_word v (entry_place v n) value, 0)
unfolding cluster_is_empty
cluster_is_empty_free t n value h m = rw (write_place t n h) (ground arith)

-- On a volume whose tables hold every cluster below `top`, for clusters below `top`: where
-- `ClusterIsEmpty` may link `n` to the value, the end mark or a cluster with an empty entry, it
-- returns 0, the entry of `n` becomes that value, every other entry of the first table stays, and
-- so do all entries of the second table.
pub cluster_is_empty_links :
    {v : Fat16} {top : ℕ} (t : IsTable v top) (n m value : ℕ)
    → n < top
    → m < top
    → value < 2 ^ 16
    → MayLink v value
    → ((cluster_is_empty v n value).1 ≡ 0)
      × (fat_entry_by_cluster (cluster_is_empty v n value).0 m
          ≡ (if n == m then value else fat_entry_by_cluster v m))
      × (second_entry (cluster_is_empty v n value).0 m ≡ second_entry v m)
cluster_is_empty_links {v} t n m value hn hm hv k = rw (cluster_is_empty_free t n value hn k) (
  refl,
  fat_entry-store t n m value hn hm hv,
  word_at-store_apart v.image (entry_place v n) (entry_place v m + 512 * v.bpb.fat_sz16) value
      (inr (omega arith)),
)

find_empty_from_step :
    (f : ℕ) (v : Fat16) (n : ℕ)
    → find_empty_from (suc f) v n
      ≡ (if fat_entry_by_cluster v n == 0 then done n else find_empty_from f v (word (n + 1)))
unfolding find_empty_from cluster_empty
find_empty_from_step f v n = ground arith

find_empty_from_more :
    (f : ℕ) (v : Fat16) (n : ℕ) {c : ℕ}
    → n + 1 < 2 ^ 16
    → fat_entry_by_cluster v n ≢ 0
    → find_empty_from f v (n + 1) ≡ done c
    → find_empty_from (suc f) v n ≡ done c
find_empty_from_more f v n h used run =
    let w : word (n + 1) ≡ n + 1 = omega arith in
    rw (find_empty_from_step, ==_of_ne _ 0 used, w) run

-- The loop finds a free cluster that its fuel reaches, and passes over none.
find_empty_from_lem :
    (f : ℕ) (v : Fat16) (n k : ℕ)
    → n ≤ k
    → k < 2 ^ 16
    → k < n + f
    → fat_entry_by_cluster v k ≡ 0
    → (c : ℕ) × (find_empty_from f v n ≡ done c)
      × (n ≤ c)
      × (c ≤ k)
      × (fat_entry_by_cluster v c ≡ 0)
      × ((m : ℕ) → n ≤ m → m < c → fat_entry_by_cluster v m ≢ 0)
unfolding find_empty_from
find_empty_from_lem zero v n k a b f e = absurd (omega arith)
find_empty_from_lem (suc f) v n k a b h e = elim (ℕ_discrete (fat_entry_by_cluster v n) 0) [
  | yes z ↦ (
    n,
    rw (find_empty_from_step, (==_iff _ 0).1 z),
    omega arith,
    a,
    z,
    λ m p q. absurd (omega arith),
  )
  | no nz ↦
      let ne : n ≢ k = λ (q : n ≡ k). nz (rw q e) in
      let (c, run, lo, hi, free, used) =
        find_empty_from_lem f v (n + 1) k (omega arith) b (omega arith) e in
      (
        c,
        find_empty_from_more f v n (omega arith) nz run,
        omega arith,
        hi,
        free,
        λ m p q. elim (ℕ_discrete m n) [
          | yes same ↦ rw same nz
          | no other ↦ used m (omega arith) q
        ],
      )
]

-- If the entry of some cluster from 2 on is empty, `FindEmptyCluster` returns the first such
-- cluster.
pub find_empty_cluster_first :
    (v : Fat16) (k : ℕ)
    → 2 ≤ k
    → k < 2 ^ 16
    → fat_entry_by_cluster v k ≡ 0
    → (c : ℕ) × (find_empty_cluster v ≡ done c)
      × (2 ≤ c)
      × (c ≤ k)
      × (fat_entry_by_cluster v c ≡ 0)
      × ((m : ℕ) → 2 ≤ m → m < c → fat_entry_by_cluster v m ≢ 0)
unfolding find_empty_cluster
find_empty_cluster_first v k a b e = find_empty_from_lem (2 ^ 16) v 2 k a b (omega arith) e

find_empty_from_full :
    (f : ℕ) (v : Fat16) (n : ℕ)
    → n < 2 ^ 16
    → ((m : ℕ) → m < 2 ^ 16 → fat_entry_by_cluster v m ≢ 0)
    → find_empty_from f v n ≡ diverged
unfolding find_empty_from
find_empty_from_full zero v n h used = refl
find_empty_from_full (suc f) v n h used =
    rw (find_empty_from_step, ==_of_ne _ 0 (used n h))
      (find_empty_from_full f v (word (n + 1)) (omega arith) used)

-- If no entry is empty, no number of rounds ends the loop of `FindEmptyCluster`.
pub find_empty_full :
    (f : ℕ) (v : Fat16)
    → ((m : ℕ) → m < 2 ^ 16 → fat_entry_by_cluster v m ≢ 0)
    → find_empty_from f v 2 ≡ diverged
find_empty_full f v used = find_empty_from_full f v 2 (omega arith) used
