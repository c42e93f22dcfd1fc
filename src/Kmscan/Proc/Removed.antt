-- ===== src/Kmscan/Proc/Removed.antt =====
-- The files under /proc/kmscan over two rounds of the scanning thread of lab3/EXP3.2/sec3.c.
use os2021_labscript.Common.{ℕ, ◌<◌, ◌≡◌, refl, ==_refl, lt→ltb, false, none}
use os2021_labscript.Common.Outcome.{undefined, ◌>>=◌}
use os2021_labscript.Kmscan.Pages.{Counts}
use os2021_labscript.Kmscan.Proc.{
  Proc, ensure_dir, remove_de, create_vma_count, print_vma_count, print_page_count,
}

-- For a process below 32767 without a directory, and with no `vma_count` file before: a count of
-- the areas, then one of the pages, then one of the areas again removes a file that the second
-- has removed with its directory.
pub print_vma_count_stale :
    (pid m n : ℕ) (c : Counts) (p : Proc)
    → pid < 32767
    → p.de ≡ none
    → p.lock pid ≡ false
    → (print_vma_count pid m p >>= print_page_count pid c >>= print_vma_count pid n) ≡ undefined
unfolding print_vma_count ensure_dir remove_de create_vma_count print_page_count
print_vma_count_stale pid m n c p small none_open unlocked =
    rw (print_vma_count, lt→ltb pid 32767 small, unlocked, none_open, ==_refl pid)
      (rw (lt→ltb pid 32767 small, ==_refl pid) refl)
