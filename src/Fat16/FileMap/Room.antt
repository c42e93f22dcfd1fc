-- ===== src/Fat16/FileMap/Room.antt =====
-- How many entries of the root directory, and how many clusters, are free on a volume of
-- lab4/simple_fat16_new.c, and what the operations take of them.
use os2021_labscript.Common.{
  ℕ, zero, suc, ◌+◌, ◌≤◌, ◌<◌, ◌≡◌, ◌≢◌, ◌∙◌, refl, sym, ap, arith, ◌==◌, ◌&&◌, ==_iff, ==_of_ne,
  leb, true, false, Bool, Bool-cases, inl, inr, if◌then◌else◌, List,
}
use native.Mathlib.Decide.{dec_lt, ℕ_discrete}
use os2021_labscript.Fat16.Volume.{Fat16}
use os2021_labscript.Fat16.Table.{fat_entry_by_cluster}
use os2021_labscript.Fat16.Table.Free.{contains}
use os2021_labscript.Fat16.Scan.Root.{root_entry}
use os2021_labscript.Fat16.Locate.{is_free}
use os2021_labscript.Fat16.Locate.Root.{IsFirst}
use os2021_labscript.Fat16.Update.{Tm}
use os2021_labscript.Fat16.Files.Layout.{with_image}
use os2021_labscript.Fat16.Files.Create.{Created}
use os2021_labscript.Fat16.Files.Stored.{Written}
use os2021_labscript.Fat16.Files.Unlink.{Unlinked}

-- How many numbers below `n` pass the test
unfoldable pub count : (ℕ → Bool) → ℕ → ℕ
count p zero = 0
count p (suc n) = (if p n then 1 else 0) + count p n

pub count-le :
    (p q : ℕ → Bool) (n : ℕ) → ((m : ℕ) → m < n → p m ≡ true → q m ≡ true) → count p n ≤ count q n
unfolding count
count-le p q zero h = omega arith
count-le p q (suc n) h =
    let rest = count-le p q n (λ m l. h m (omega arith)) in
    elim (Bool-cases (p n)) [
      | inl t ↦ rw (t, h n (omega arith) t) (omega (arith, rest))
      | inr f ↦ rw f (ground (arith, rest))
    ]

-- One number may stop passing.
pub count-le_suc :
    (p q : ℕ → Bool) (k n : ℕ)
    → ((m : ℕ) → m < n → k ≢ m → p m ≡ true → q m ≡ true)
    → count p n ≤ count q n + 1
unfolding count
count-le_suc p q k zero h = omega arith
count-le_suc p q k (suc n) h = elim (ℕ_discrete k n) [
  | yes e ↦
      let rest = count-le p q n (λ m l. h m (omega arith) (λ z. absurd (omega arith))) in
      ground (arith, rest)
  | no ne ↦
      let rest = count-le_suc p q k n (λ m l. h m (omega arith)) in
      elim (Bool-cases (p n)) [
        | inl t ↦ rw (t, h n (omega arith) ne t) (omega (arith, rest))
        | inr f ↦ rw f (ground (arith, rest))
      ]
]

none_of_count : (p : ℕ → Bool) (n : ℕ) → count p n ≡ 0 → (m : ℕ) → m < n → p m ≡ false
unfolding count
none_of_count p zero h m l = absurd (omega arith)
none_of_count p (suc n) h m l = elim (ℕ_discrete m n) [
  | yes e ↦ rw e (elim (Bool-cases (p n)) [ inl t ↦ absurd (ground (arith, h)) | inr f ↦ f ])
  | no ne ↦ none_of_count p n (ground (arith, h)) m (omega arith)
]

-- Where some number passes, there is a first one.
pub least :
    (p : ℕ → Bool) (n : ℕ)
    → 0 < count p n
    → (k : ℕ) × (k < n) × (p k ≡ true) × ((m : ℕ) → m < k → p m ≡ false)
unfolding count
least p zero h = absurd (omega arith)
least p (suc n) h = elim (dec_lt 0 (count p n)) [
  | yes pos ↦ let (k, l, t, before) = least p n pos in (k, omega arith, t, before)
  | no none_below ↦
      let z : count p n ≡ 0 = omega arith in
      (n, omega arith, ground (arith, h), none_of_count p n z)
]

abbrev slot_free : Fat16 → ℕ → Bool
slot_free v k = is_free (root_entry v k)

abbrev cluster_free : Fat16 → ℕ → Bool
cluster_free v c = leb 2 c && (fat_entry_by_cluster v c == 0)

unfoldable pub free_slots : Fat16 → ℕ
free_slots v = count (slot_free v) v.bpb.root_ent_cnt

unfoldable pub free_clusters : Fat16 → ℕ → ℕ
free_clusters v top = count (cluster_free v) top

pub free_slots-IsFirst :
    (v : Fat16) → 0 < free_slots v → (k : ℕ) × IsFirst v is_free v.bpb.root_ent_cnt k
unfolding free_slots
free_slots-IsFirst v pos =
    let (k, l, t, before) = least (slot_free v) v.bpb.root_ent_cnt pos in
    (k, record { below = l; holds = t; first = before })

pub free_clusters_pos :
    (v : Fat16) (top : ℕ)
    → 0 < free_clusters v top
    → (c : ℕ) × (2 ≤ c) × (c < top) × (fat_entry_by_cluster v c ≡ 0)
unfolding free_clusters
free_clusters_pos v top pos =
    let (c, l, t, before) = least (cluster_free v) top pos in
    (c, ground arith, l, ground (arith, ==_iff (fat_entry_by_cluster v c) 0))

-- The counts of two volumes with as many entries
slots_mono :
    (v v' : Fat16)
    → v' ≡ with_image v v'.image
    → ((m : ℕ) → m < v.bpb.root_ent_cnt → slot_free v m ≡ true → slot_free v' m ≡ true)
    → free_slots v ≤ free_slots v'
unfolding free_slots
slots_mono v v' others h =
    rw (ap (λ t. t.bpb.root_ent_cnt) others)
      (count-le (slot_free v) (slot_free v') v.bpb.root_ent_cnt h)

slots_mono_suc :
    (v v' : Fat16) (k : ℕ)
    → v' ≡ with_image v v'.image
    → ((m : ℕ) → m < v.bpb.root_ent_cnt → k ≢ m → slot_free v m ≡ true → slot_free v' m ≡ true)
    → free_slots v ≤ free_slots v' + 1
unfolding free_slots
slots_mono_suc v v' k others h =
    rw (ap (λ t. t.bpb.root_ent_cnt) others)
      (count-le_suc (slot_free v) (slot_free v') k v.bpb.root_ent_cnt h)

-- A new file takes one entry and one cluster.
pub Created-room :
    {v v' : Fat16} {top : ℕ} {now : Tm} {name : List ℕ} {k c : ℕ}
    → Created v top now name k c v'
    → (free_slots v ≤ free_slots v' + 1) × (free_clusters v top ≤ free_clusters v' top + 1)
unfolding free_clusters
Created-room {v} {v'} {top} {k = k} {c = c} cr = (
  slots_mono_suc v v' k cr.others (λ m l ne t. ap is_free (cr.entry.apart m l ne) ∙ t),
  count-le_suc (cluster_free v) (cluster_free v') c top
      (λ m l ne t. ap (λ e. leb 2 m && (e == 0)) (cr.taken m l ∙ rw (==_of_ne c m ne) refl) ∙ t),
)

-- A write takes none.
pub Written-room :
    {v v' : Fat16} {top k c offset : ℕ} {bs : List ℕ}
    → Written v top k c offset bs v'
    → (free_slots v ≤ free_slots v') × (free_clusters v top ≤ free_clusters v' top)
unfolding free_clusters is_free
Written-room {v} {v'} {top} {k} w = (
  slots_mono v v' w.others (λ m l t. elim (ℕ_discrete k m) [
    | yes q ↦ ap (slot_free v') (sym q) ∙ ap is_free w.entry.here ∙ ap (slot_free v) q ∙ t
    | no ne ↦ ap is_free (w.entry.apart m l ne) ∙ t
  ]),
  count-le (cluster_free v) (cluster_free v') top
      (λ m l t. ap (λ e. leb 2 m && (e == 0)) (w.table m l) ∙ t),
)

freed_cluster :
    (b : Bool) (m e e' : ℕ)
    → e' ≡ (if b then 0 else e)
    → (leb 2 m && (e == 0)) ≡ true
    → (leb 2 m && (e' == 0)) ≡ true
freed_cluster true m e e' h t = rw h (ground arith)
freed_cluster false m e e' h t = rw h t

-- And a file that goes gives back what it had.
pub Unlinked-room :
    {v v' : Fat16} {top k : ℕ} {cs : List ℕ}
    → Unlinked v top k cs v'
    → (free_slots v ≤ free_slots v') × (free_clusters v top ≤ free_clusters v' top)
unfolding free_clusters is_free
Unlinked-room {v} {v'} {top} {k} {cs} u = (
  slots_mono v v' u.others (λ m l t. elim (ℕ_discrete k m) [
    | yes q ↦ ap (slot_free v') (sym q) ∙ ap is_free u.entry.here
    | no ne ↦ ap is_free (u.entry.apart m l ne) ∙ t
  ]),
  count-le (cluster_free v) (cluster_free v') top (λ m l t.
      freed_cluster (contains m cs) m (fat_entry_by_cluster v m) (fat_entry_by_cluster v' m)
        (u.cleared m l) t),
)
