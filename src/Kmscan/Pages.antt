-- ===== src/Kmscan/Pages.antt =====
-- The walks over the areas of a process in lab3/EXP3.2/sec3.c: `print_vma_count`,
-- `print_active_inactive_page_count` and `print_phys_num`.
pub mod Bounds
pub mod Tally
use os2021_labscript.Common.{
  ℕ, zero, suc, ◌+◌, ◌-◌, ◌*◌, ◌/◌, ◌%◌, ltb, if◌then◌else◌, Bool, List, [], ◌∷◌, ◌++◌, Option,
  none, some, length,
}
use os2021_labscript.Common.Outcome.{Outcome, done, undefined, ◌>>=◌}

-- `vm_area_struct`; the areas are chained by `vm_next`.
pub record Vma : Type 0 where
  pub vm_start : ℕ
  pub vm_end : ℕ

abbrev pub page_size : ℕ
page_size = 4096

-- What the kernel says of a page: `PageAnon`, and `page_referenced` not being 0
pub record Page : Type 0 where
  pub anon : Bool
  pub referenced : Bool

-- The loop of `print_vma_count`
unfoldable pub count_vmas : ℕ → List Vma → ℕ
count_vmas vma_count [] = vma_count
count_vmas vma_count (v ∷ vs) = count_vmas (vma_count + 1) vs

-- The four counters of `print_active_inactive_page_count`
pub record Counts : Type 0 where
  pub file : ℕ
  pub active_file : ℕ
  pub anon : ℕ
  pub active_anon : ℕ

abbrev pub no_pages : Counts
no_pages = record { file = 0; active_file = 0; anon = 0; active_anon = 0 }

unfoldable pub add_page : Option Page → Counts → Counts
add_page none c = c
add_page (some p) c =
    if p.anon
    then record c {
      anon = c.anon + 1;
      active_anon = if p.referenced then c.active_anon + 1 else c.active_anon;
    }
    else record c {
      file = c.file + 1;
      active_file = if p.referenced then c.active_file + 1 else c.active_file;
    }

-- The rounds of the `do ... while` over `addr`: at least one
abbrev pub rounds_of : Vma → ℕ
rounds_of v = if ltb v.vm_start v.vm_end then (v.vm_end - v.vm_start + 4095) / page_size else 1

-- `follow_page` comes from outside: the page at an address, if there is one.
module _ (follow_page : ℕ → Option Page) where
  -- That loop, with `left` rounds
  unfoldable pub count_pages : (left start addr : ℕ) → Counts → Counts
  unfolding add_page
  count_pages zero start addr c = c
  count_pages (suc left) start addr c =
      count_pages left start (addr + page_size) (add_page (follow_page (start + addr)) c)

  unfoldable pub count_vma_pages : List Vma → Counts → Counts
  unfolding count_pages
  count_vma_pages [] c = c
  count_vma_pages (v ∷ vs) c = count_vma_pages vs (count_pages (rounds_of v) v.vm_start 0 c)

-- A line of `physinfo`: a virtual address with the physical one
pub record PhysLine : Type 0 where
  pub virt : ℕ
  pub phys : ℕ

abbrev pub char_max_lenth : ℕ
char_max_lenth = 2048

-- `(pte_val(*pte) & PAGE_MASK) | (addr & ~PAGE_MASK)`, whose two parts share no bit
unfoldable pub phys_addr : (pte addr : ℕ) → ℕ
phys_addr pte addr = pte / page_size * page_size + addr % page_size

-- The rounds of `for (addr = vm_start; addr < vm_end; addr += PAGE_SIZE)`
abbrev pub rounds_in : Vma → ℕ
rounds_in v = (v.vm_end - v.vm_start + 4095) / page_size

-- `pte_of` is the walk through the page tables.
module _ (follow_page : ℕ → Option Page) (pte_of : ℕ → ℕ) where
  -- The lines of one area, behind those that there are; the array holds `char_max_lenth`.
  unfoldable pub phys_lines : (left addr : ℕ) → List PhysLine → Outcome (List PhysLine)
  unfolding phys_addr
  phys_lines zero addr lines = done lines
  phys_lines (suc left) addr lines =
      let next = phys_lines left (addr + page_size) in
      elim (follow_page addr) [
        | none ↦ next lines
        | some p ↦
            if ltb (length lines) char_max_lenth
            then next (lines ++ (record { virt = addr; phys = phys_addr (pte_of addr) addr } ∷ []))
            else undefined
      ]

  -- `physinfo` after the loop over the areas
  unfoldable pub print_phys_num : List Vma → List PhysLine → Outcome (List PhysLine)
  unfolding phys_lines
  print_phys_num [] lines = done lines
  print_phys_num (v ∷ vs) lines = do
    lines' ← phys_lines (rounds_in v) v.vm_start lines
    print_phys_num vs lines'
