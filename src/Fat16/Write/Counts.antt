-- ===== src/Fat16/Write/Counts.antt =====
-- The numbers of clusters that `write_path` of lab4/simple_fat16_new.c computes for a write whose
-- end lies inside a cluster.
use os2021_labscript.Common.{
  ℕ, suc, ◌+◌, ◌-◌, ◌*◌, ◌/◌, ◌%◌, ◌^◌, ◌≤◌, ◌<◌, ◌≡◌, refl, ap, arith, lt→ltb,
}
use native.Mathlib.Nat.{div-eq_of_lt-le, div-add-mod'}
use os2021_labscript.Fat16.Image.{dword}
use os2021_labscript.Fat16.Write.{positive_int, clusters_for, cluster_required}

-- The number lies inside block `q`, not at its ends.
pub record Inside (n per q : ℕ) : Type 0 where
  pub above : q * per < n
  pub under : n < q * per + per

pub Inside-pos : {n per q : ℕ} → Inside n per q → 0 < per
Inside-pos i = omega (arith, i.above, i.under)

one_more : (q per : ℕ) → (q + 1) * per ≡ q * per + per
one_more q per = grind arith

pub div_mod-Inside : (n per q : ℕ) → Inside n per q → (n / per ≡ q) × (n % per ≡ n - q * per)
div_mod-Inside n per q i =
    let e : n / per ≡ q =
      div-eq_of_lt-le per (omega (arith, i.above)) (omega (arith, i.under, one_more q per)) in
    (e, omega (arith, div-add-mod' n per, ap (λ t. t * per) e))

pub clusters_for-Inside : (n per q : ℕ) → Inside n per q → n < 2 ^ 64 → clusters_for n per ≡ q + 1
unfolding clusters_for
clusters_for-Inside n per q i small =
    let w : (n + 2 ^ 64 - 1) % 2 ^ 64 ≡ n - 1 = omega (arith, i.above) in
    let e : (n - 1) / per ≡ q =
      div-eq_of_lt-le per (omega (arith, i.above)) (omega (arith, i.under, one_more q per)) in
    rw w (ap (λ t. t + 1) e)

pub positive_int_lem : (n : ℕ) → n < 2 ^ 31 → positive_int n ≡ n
positive_int_lem n h = let w : dword n ≡ n = omega arith in rw (w, lt→ltb n (2 ^ 31) h) refl

le_mul : (a b : ℕ) → 0 < b → a ≤ a * b
le_mul a b h = grind arith

pub Inside-small : {n per q : ℕ} → Inside n per q → n < 2 ^ 31 → suc q < 2 ^ 31
Inside-small {per = per} {q = q} i h = omega (arith, i.above, le_mul q per (Inside-pos i))

-- What is missing behind `pre` clusters
pub cluster_required-Inside :
    (size offset per pre m : ℕ)
    → Inside (size + offset) per (pre + m)
    → size + offset < 2 ^ 31
    → cluster_required size offset per (suc pre) ≡ m
unfolding cluster_required
cluster_required-Inside size offset per pre m i small =
    let t : clusters_for (size + offset) per ≡ pre + m + 1 =
      clusters_for-Inside (size + offset) per (pre + m) i (omega arith) in
    let low = Inside-small i small in
    let w : dword (dword (pre + m + 1) + 2 ^ 32 - suc pre) ≡ m = omega arith in
    rw (t, w, lt→ltb m (2 ^ 31) (omega arith)) refl
