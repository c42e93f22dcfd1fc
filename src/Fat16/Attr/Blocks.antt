-- ===== src/Fat16/Attr/Blocks.antt =====
-- How `fat16_getattr` counts blocks and `write_path` counts clusters.
use os2021_labscript.Common.{ℕ, ◌+◌, ◌-◌, ◌*◌, ◌%◌, ◌^◌, ◌≤◌, ◌<◌, ◌≡◌, arith, ==_of_ne}
use native.Mathlib.Decide.{ℕ_discrete}
use native.Mathlib.Nat.{div-add-mod, mod-lt}
use os2021_labscript.Fat16.Attr.{block_count}
use os2021_labscript.Fat16.Write.{clusters_for}

-- The least number of blocks of `per` bytes that hold `size` bytes
pub record IsCeiling (size per n : ℕ) : Type 0 where
  pub enough : size ≤ per * n
  pub least : per * n < size + per

-- With blocks of at least one byte, `st_blocks` is the least number of blocks of `st_blksize`
-- bytes that hold the file.
pub block_count-IsCeiling : (size per : ℕ) → 0 < per → IsCeiling size per (block_count size per)
unfolding block_count
block_count-IsCeiling size per h = elim (ℕ_discrete (size % per) 0) [
  | yes e ↦
      rw (block_count, e)
        (record {
          enough = omega (arith, div-add-mod size per, e);
          least = omega (arith, div-add-mod size per, e, h);
        })
  | no ne ↦
      rw (block_count, ==_of_ne _ _ ne)
        (record {
          enough = grind (arith, div-add-mod size per, mod-lt size h);
          least = grind (arith, div-add-mod size per, mod-lt size h);
        })
]

-- For a write of at least one byte and of less than 2 ^ 64 bytes, the number of clusters that
-- `write_path` computes is the least that holds them, with clusters of at least one byte.
pub clusters_for-IsCeiling :
    (size per : ℕ) → 0 < per → 0 < size → size < 2 ^ 64 → IsCeiling size per (clusters_for size per)
unfolding clusters_for
clusters_for-IsCeiling size per h pos small =
    let q : (size + 2 ^ 64 - 1) % 2 ^ 64 ≡ size - 1 = omega arith in
    rw (q) (record {
      enough = grind (arith, div-add-mod (size - 1) per, mod-lt (size - 1) h);
      least = grind (arith, div-add-mod (size - 1) per, mod-lt (size - 1) h);
    })
