-- ===== src/Fat16/Files/Append/Chain.antt =====
-- The chain of a file of lab4/simple_fat16_new.c before and after `write_path` has made it longer.
use os2021_labscript.Common.{
  ℕ, zero, suc, Bool-cases, ◌^◌, ◌+◌, ◌≤◌, ◌<◌, ◌≡◌, ◌≢◌, ◌∙◌, refl, sym, ap, inl, inr, arith, ◌==◌,
  ◌||◌, ==_iff, true, false, Bool, if◌then◌else◌, List, [], ◌∷◌, ◌++◌, length, get_or, Option, some,
}
use os2021_labscript.Common.Outcome.{done}
use os2021_labscript.Fat16.Volume.{Fat16}
use os2021_labscript.Fat16.Table.{fat_entry_by_cluster, is_link}
use os2021_labscript.Fat16.Table.Free.{contains}
use os2021_labscript.Fat16.Read.Bytes.{follow}
use os2021_labscript.Fat16.Write.{count_chain}
use os2021_labscript.Fat16.Files.Extend.{FreeAbove, LinksTo, FreeAbove-contains}
use os2021_labscript.Fat16.Files.Pieces.{Follows, Follows-head}

-- The last of the clusters `c` and `cs`
abbrev pub last_of : ℕ → List ℕ → ℕ
last_of c [] = c
last_of c (d ∷ ds) = last_of d ds

count_chain_step :
    (f : ℕ) (v : Fat16) (c n next : ℕ) (o : Option ℕ) {r : ℕ × Option ℕ}
    → is_link c ≡ true
    → fat_entry_by_cluster v c ≡ next
    → count_chain f v next (n + 1) (if is_link next then o else some c) ≡ done r
    → count_chain (suc f) v c n o ≡ done r
unfolding count_chain
count_chain_step f v c n next o h e run = rw (count_chain, h, e) run

count_chain_end :
    (f : ℕ) (v : Fat16) (c n : ℕ) (o : Option ℕ)
    → is_link c ≡ false
    → count_chain (suc f) v c n o ≡ done (n, o)
unfolding count_chain
count_chain_end f v c n o h = rw (count_chain, h) refl

link_true : (n : ℕ) → 2 ≤ n → n < 0xfff8 → is_link n ≡ true
link_true n lo hi = ground arith

link_false : (n : ℕ) → 0xfff8 ≤ n → is_link n ≡ false
link_false n h = ground arith

-- The first loop of `write_path` finds the number of clusters and the last one.
pub count_chain-Follows :
    (cs : List ℕ) (fuel : ℕ) (v : Fat16) (top c n : ℕ) (o : Option ℕ)
    → top ≤ 2 ^ 15
    → length cs + 2 ≤ fuel
    → Follows v top c cs
    → 0xfff8 ≤ fat_entry_by_cluster v (last_of c cs)
    → count_chain fuel v c n o ≡ done (n + suc (length cs), some (last_of c cs))
count_chain-Follows cs zero v top c n o narrow enough f ends = absurd (omega arith)
count_chain-Follows cs (suc zero) v top c n o narrow enough f ends = absurd (omega arith)
count_chain-Follows [] (suc (suc fuel)) v top c n o narrow enough f ends =
    let stop : is_link (fat_entry_by_cluster v c) ≡ false = link_false _ ends in
    count_chain_step (suc fuel) v c n (fat_entry_by_cluster v c) o
      (link_true c f.0 (omega (arith, f.1))) refl
      (ap
          (λ t.
            count_chain (suc fuel) v (fat_entry_by_cluster v c) (n + 1) (if t then o else some c))
          stop
        ∙ count_chain_end fuel v (fat_entry_by_cluster v c) (n + 1) (some c) stop)
count_chain-Follows (d ∷ ds) (suc (suc fuel)) v top c n o narrow enough (lo, hi, next, out, f)
      ends =
    let (lo', hi') = Follows-head v top d ds f in
    let go : is_link d ≡ true = link_true d lo' (omega arith) in
    count_chain_step (suc fuel) v c n d o (link_true c lo (omega arith)) next (
      ap (λ t. count_chain (suc fuel) v d (n + 1) (if t then o else some c)) go
      ∙ count_chain-Follows ds (suc fuel) v top d (n + 1) o narrow (omega arith) f ends
      ∙ ap (λ t. done (t, some (last_of d ds))) (omega arith))

-- The new clusters follow the old last one.
pub Follows-new :
    (es : List ℕ) (v v' : Fat16) (top n : ℕ)
    → 2 ≤ n
    → n < top
    → FreeAbove v top n es
    → LinksTo v' n es
    → Follows v' top n es
Follows-new [] v v' top n lo hi free links = (lo, hi)
Follows-new (e ∷ es) v v' top n lo hi (gt, lt, z, used, rest) (next, links) = (
  lo,
  hi,
  next,
  FreeAbove-contains v top n (e ∷ es) n (gt, lt, z, used, rest) (omega arith),
  Follows-new es v v' top e (omega arith) lt rest links,
)

-- The clusters from the last one on, by their numbers
pub get_or-last :
    (cs es : List ℕ) (c a : ℕ)
    → get_or (c ∷ cs ++ es) (length cs + a) 0 ≡ get_or (last_of c cs ∷ es) a 0
get_or-last [] es c a = ap (λ t. get_or (c ∷ es) t 0) (omega arith)
get_or-last (d ∷ ds) es c a =
    let q : suc (length ds) + a ≡ suc (length ds + a) = omega arith in
    ap (λ t. get_or (c ∷ (d ∷ ds) ++ es) t 0) q ∙ get_or-last ds es d a

or_true : (b : Bool) → (b || true) ≡ true
or_true true = refl
or_true false = refl

-- The entry of no cluster of a chain is empty.
chain_used :
    (cs : List ℕ) (v : Fat16) (top c m : ℕ)
    → Follows v top c cs
    → 0xfff8 ≤ fat_entry_by_cluster v (last_of c cs)
    → contains m (c ∷ cs) ≡ true
    → fat_entry_by_cluster v m ≢ 0
chain_used [] v top c m f ends mem z = elim (Bool-cases (c == m)) [
  | inl t ↦
      let q : fat_entry_by_cluster v c ≡ 0 = ap (fat_entry_by_cluster v) ((==_iff c m).0 t) ∙ z in
      absurd (omega (arith, q))
  | inr g ↦ let clash : false ≡ true = rw g at mem in cc
]
chain_used (d ∷ ds) v top c m (lo, hi, next, out, f) ends mem z = elim (Bool-cases (c == m)) [
  | inl t ↦
      let q : fat_entry_by_cluster v c ≡ 0 = ap (fat_entry_by_cluster v) ((==_iff c m).0 t) ∙ z in
      absurd (omega (arith, q, next, Follows-head v top d ds f))
  | inr g ↦ chain_used ds v top d m f ends (rw g at mem) z
]

-- That of a new one was.
new_free :
    (es : List ℕ) (v : Fat16) (top n m : ℕ)
    → FreeAbove v top n es
    → contains m es ≡ true
    → fat_entry_by_cluster v m ≡ 0
new_free [] v top n m free mem = absurd (cc)
new_free (e ∷ es) v top n m (gt, lt, z, used, rest) mem = elim (Bool-cases (e == m)) [
  | inl t ↦ ap (fat_entry_by_cluster v) (sym ((==_iff e m).0 t)) ∙ z
  | inr g ↦ new_free es v top e m rest (rw g at mem)
]

pub chain_apart :
    (cs es : List ℕ) (v : Fat16) (top c n m : ℕ)
    → Follows v top c cs
    → 0xfff8 ≤ fat_entry_by_cluster v (last_of c cs)
    → FreeAbove v top n es
    → contains m (c ∷ cs) ≡ true
    → contains m es ≡ false
chain_apart cs es v top c n m f ends free mem = elim (Bool-cases (contains m es)) [
  | inl t ↦ absurd (chain_used cs v top c m f ends mem (new_free es v top n m free t))
  | inr g ↦ g
]

contains-append :
    (m : ℕ) (xs ys : List ℕ)
    → contains m xs ≡ false
    → contains m ys ≡ false
    → contains m (xs ++ ys) ≡ false
contains-append m [] ys h k = k
contains-append m (x ∷ xs) ys h k = elim (Bool-cases (x == m)) [
  | inl t ↦ let clash : true ≡ false = rw t at h in cc
  | inr g ↦ rw g (contains-append m xs ys (rw g at h) k)
]

pub contains-last : (cs : List ℕ) (c : ℕ) → contains (last_of c cs) (c ∷ cs) ≡ true
contains-last [] c = ground (arith, ==_iff c c)
contains-last (d ∷ ds) c = rw (contains-last ds d) (or_true _)

-- A chain is joined to one that begins with its last cluster.
pub Follows-join :
    (cs es : List ℕ) (v v' : Fat16) (top c : ℕ)
    → Follows v top c cs
    → ((m : ℕ)
        → m < top
        → contains m (c ∷ cs) ≡ true
        → last_of c cs ≢ m
        → fat_entry_by_cluster v' m ≡ fat_entry_by_cluster v m)
    → ((m : ℕ) → contains m (c ∷ cs) ≡ true → contains m es ≡ false)
    → Follows v' top (last_of c cs) es
    → Follows v' top c (cs ++ es)
Follows-join [] es v v' top c f kept disjoint g = g
Follows-join (d ∷ ds) es v v' top c (lo, hi, next, out, f) kept disjoint g = (
  lo,
  hi,
  kept c hi here apart ∙ next,
  contains-append c (d ∷ ds) es out (disjoint c here),
  Follows-join ds es v v' top d f (λ m h mem ne. kept m h (there m mem) ne)
      (λ m mem. disjoint m (there m mem)) g,
)
  where
    here : contains c (c ∷ d ∷ ds) ≡ true
    here = ground (arith, ==_iff c c)

    there : (m : ℕ) → contains m (d ∷ ds) ≡ true → contains m (c ∷ d ∷ ds) ≡ true
    there m mem = rw mem (or_true (c == m))

    apart : last_of d ds ≢ c
    apart q =
        let clash : true ≡ false =
          sym (contains-last ds d) ∙ ap (λ t. contains t (d ∷ ds)) q ∙ out in
        cc

-- The clusters of a chain, by their numbers
Follows-step :
    (cs : List ℕ) (v : Fat16) (top c a : ℕ)
    → Follows v top c cs
    → a < length cs
    → fat_entry_by_cluster v (get_or (c ∷ cs) a 0) ≡ get_or (c ∷ cs) (suc a) 0
Follows-step [] v top c a f h = absurd (omega arith)
Follows-step (d ∷ ds) v top c zero f h = f.2
Follows-step (d ∷ ds) v top c (suc a) f h = Follows-step ds v top d a f.4 (omega arith)

pub follow-Follows :
    (cs : List ℕ) (v : Fat16) (top c a : ℕ)
    → Follows v top c cs
    → a ≤ length cs
    → follow v c a ≡ get_or (c ∷ cs) a 0
follow-Follows cs v top c zero f h = refl
follow-Follows cs v top c (suc a) f h =
    ap (fat_entry_by_cluster v) (follow-Follows cs v top c a f (omega arith))
    ∙ Follows-step cs v top c a f (omega arith)

-- Its last cluster is no other.
pub last_apart :
    (cs : List ℕ) (v : Fat16) (top c a : ℕ)
    → Follows v top c cs
    → a < length cs
    → last_of c cs ≢ get_or (c ∷ cs) a 0
last_apart [] v top c a f h q = absurd (omega arith)
last_apart (d ∷ ds) v top c zero (lo, hi, next, out, f) h q =
    let clash : true ≡ false = sym (contains-last ds d) ∙ ap (λ t. contains t (d ∷ ds)) q ∙ out in
    cc
last_apart (d ∷ ds) v top c (suc a) (lo, hi, next, out, f) h q =
    last_apart ds v top d a f (omega arith) q

pub get_or-contains : (cs : List ℕ) (a : ℕ) → a < length cs → contains (get_or cs a 0) cs ≡ true
get_or-contains [] a h = absurd (omega arith)
get_or-contains (c ∷ cs) zero h = ground (arith, ==_iff c c)
get_or-contains (c ∷ cs) (suc a) h = rw (get_or-contains cs a (omega arith)) (or_true _)

pub Follows-low :
    (cs : List ℕ) (v : Fat16) (top c a : ℕ)
    → Follows v top c cs
    → a ≤ length cs
    → (2 ≤ get_or (c ∷ cs) a 0) × (get_or (c ∷ cs) a 0 < top)
Follows-low cs v top c zero f h = Follows-head v top c cs f
Follows-low [] v top c (suc a) f h = absurd (omega arith)
Follows-low (d ∷ ds) v top c (suc a) f h = Follows-low ds v top d a f.4 (omega arith)
