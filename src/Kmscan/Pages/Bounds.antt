-- ===== src/Kmscan/Pages/Bounds.antt =====
-- The counts and addresses of lab3/EXP3.2/sec3.c.
use os2021_labscript.Common.{
  ℕ, zero, suc, ◌+◌, ◌/◌, ◌%◌, ◌≤◌, ◌≡◌, refl, arith, lt→ltb, inl, inr, List, [], ◌∷◌, ◌++◌, length,
  length-append, Option, Option-cases, none, some,
}
use os2021_labscript.Common.Outcome.{done}
use os2021_labscript.Kmscan.Pages.{
  Vma, Page, count_vmas, page_size, phys_addr, phys_lines, char_max_lenth, PhysLine,
}

-- The loop of `print_vma_count` counts the areas.
pub count_vmas_lem : (vs : List Vma) (n : ℕ) → count_vmas n vs ≡ n + length vs
unfolding count_vmas
count_vmas_lem [] n = omega arith
count_vmas_lem (v ∷ vs) n = omega (arith, count_vmas_lem vs (n + 1))

-- `*pte & PAGE_MASK | addr & ~PAGE_MASK`: the frame of the entry with the offset of the address.
pub phys_addr_lem :
    (pte addr : ℕ)
    → (phys_addr pte addr / page_size ≡ pte / page_size)
      × (phys_addr pte addr % page_size ≡ addr % page_size)
unfolding phys_addr
phys_addr_lem pte addr = (omega arith, omega arith)

-- The addresses of an area that have a page
module _ (follow_page : ℕ → Option Page) (pte_of : ℕ → ℕ) where
  unfoldable pub present : (left addr : ℕ) → ℕ
  present zero addr = 0
  present (suc left) addr = elim (follow_page addr) [
    | none ↦ present left (addr + page_size)
    | some p ↦ suc (present left (addr + page_size))
  ]

  -- If the array has room for a line for each page that is present in the rounds left, the loop
  -- adds exactly as many lines as there are such pages, and does not write behind the array.
  pub phys_lines_room :
      (left addr : ℕ) (lines : List PhysLine)
      → length lines + present left addr ≤ char_max_lenth
      → (lines' : List PhysLine) × (phys_lines follow_page pte_of left addr lines ≡ done lines')
        × (length lines' ≡ length lines + present left addr)
  unfolding phys_lines present
  phys_lines_room zero addr lines h = (lines, refl, omega arith)
  phys_lines_room (suc left) addr lines h = elim (Option-cases (follow_page addr)) [
    | inl e ↦
        let h' = rw (present, e) at h in
        let (lines', run, len) = phys_lines_room left (addr + page_size) lines h' in
        (lines', rw (phys_lines, e) run, rw (present, e) len)
    | inr (p, e) ↦
        let h' = rw (present, e) at h in
        let one : present (suc left) addr ≡ suc (present left (addr + page_size)) =
          rw (present, e) refl in
        let line : PhysLine = record { virt = addr; phys = phys_addr (pte_of addr) addr } in
        let l1 = length-append lines (line ∷ []) in
        let (lines', run, len) =
          phys_lines_room left (addr + page_size) (lines ++ (line ∷ [])) (omega (arith, l1, h')) in
        (
          lines',
          rw (phys_lines, e, lt→ltb (length lines) char_max_lenth (omega (arith, h'))) run,
          omega (arith, len, l1, one),
        )
  ]
