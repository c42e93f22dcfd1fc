-- ===== src/Kmscan/Pages/Tally.antt =====
-- What `print_active_inactive_page_count` of lab3/EXP3.2/sec3.c counts.
use os2021_labscript.Common.{
  ℕ, zero, suc, ◌+◌, ◌-◌, ◌*◌, ◌≤◌, ◌<◌, ◌≡◌, sym, ap, arith, lt→ltb, ge→ltb, Bool-cases, ◌⊎◌, inl,
  inr, if◌then◌else◌, Bool, not, ◌&&◌, List, [], ◌∷◌, Option, none, some,
}
use native.Mathlib.Decide.{dec_lt}
use os2021_labscript.Kmscan.Pages.{
  Vma, Page, Counts, add_page, count_pages, rounds_of, count_vma_pages, page_size,
}

-- The kinds of pages that are counted
abbrev pub is_file : Page → Bool
is_file p = not p.anon

abbrev pub is_active_file : Page → Bool
is_active_file p = not p.anon && p.referenced

abbrev pub is_anon : Page → Bool
is_anon p = p.anon

abbrev pub is_active_anon : Page → Bool
is_active_anon p = p.anon && p.referenced

abbrev bit : Bool → ℕ
bit b = if b then 1 else 0

abbrev pub hit : (Page → Bool) → Option Page → ℕ
hit kind none = 0
hit kind (some p) = bit (kind p)

-- The number of pages whose starts lie in the area, and one where there is none
pub record IsPages (v : Vma) (n : ℕ) : Type 0 where
  pub some_page : 1 ≤ n
  pub enough : v.vm_end ≤ v.vm_start + page_size * n
  pub least : (n ≡ 1) ⊎ (v.vm_start + page_size * (n - 1) < v.vm_end)

rounds_of-IsPages : (v : Vma) (n : ℕ) → IsPages v n → rounds_of v ≡ n
rounds_of-IsPages v n is = elim (dec_lt v.vm_start v.vm_end) [
  | yes lt ↦ elim is.least [
    | inl one ↦ rw (lt→ltb v.vm_start v.vm_end lt) (omega (arith, is.enough, one, lt))
    | inr low ↦ rw (lt→ltb v.vm_start v.vm_end lt) (omega (arith, is.enough, low, lt, is.some_page))
  ]
  | no ge ↦ elim is.least [
    | inl one ↦ rw (ge→ltb v.vm_start v.vm_end (omega arith)) (sym one)
    | inr low ↦ absurd (omega (arith, low))
  ]
]

-- A counter that goes up for the pages of a kind
abbrev CountsKind : (Counts → ℕ) → (Page → Bool) → Type 0
CountsKind field kind = (o : Option Page) (c : Counts) → field (add_page o c) ≡ field c + hit kind o

module _ (follow_page : ℕ → Option Page) where
  -- How many of the first `n` pages from an address on are of a kind
  unfoldable pub tally : (Page → Bool) → (start n : ℕ) → ℕ
  tally kind start zero = 0
  tally kind start (suc n) = tally kind start n + hit kind (follow_page (start + page_size * n))

  -- All areas, each with its number of pages
  unfoldable pub tally_all : (Page → Bool) → (Vma → ℕ) → List Vma → ℕ
  unfolding tally
  tally_all kind pages [] = 0
  tally_all kind pages (v ∷ vs) = tally kind v.vm_start (pages v) + tally_all kind pages vs

  module _ (field : Counts → ℕ) (kind : Page → Bool) (law : CountsKind field kind) where
    count_pages-tally :
        (left start m : ℕ) (c : Counts)
        → field (count_pages follow_page left start (page_size * m) c) + tally kind start m
          ≡ field c + tally kind start (m + left)
    unfolding count_pages tally
    count_pages-tally zero start m c = ap (λ t. field c + tally kind start t) (omega arith)
    count_pages-tally (suc left) start m c =
        let o = follow_page (start + page_size * m) in
        let next = count_pages-tally left start (m + 1) (add_page o c) in
        let at : page_size * m + page_size ≡ page_size * (m + 1) = omega arith in
        let e1 : m + 1 ≡ suc m = omega arith in
        let one : tally kind start (m + 1) ≡ tally kind start m + hit kind o =
          ap (tally kind start) e1 in
        let e2 : m + suc left ≡ m + 1 + left = omega arith in
        let end : tally kind start (m + suc left) ≡ tally kind start (m + 1 + left) =
          ap (tally kind start) e2 in
        let step : field
              (count_pages follow_page left start (page_size * m + page_size) (add_page o c))
            ≡ field (count_pages follow_page left start (page_size * (m + 1)) (add_page o c)) =
          ap (λ t. field (count_pages follow_page left start t (add_page o c))) at in
        omega (arith, next, one, end, law o c, step)

    count_vma_pages-tally_all :
        (vs : List Vma) (pages : Vma → ℕ) (c : Counts)
        → ((v : Vma) → IsPages v (pages v))
        → field (count_vma_pages follow_page vs c) ≡ field c + tally_all kind pages vs
    unfolding count_vma_pages tally_all tally
    count_vma_pages-tally_all [] pages c is = omega arith
    count_vma_pages-tally_all (v ∷ vs) pages c is =
        let c1 = count_pages follow_page (rounds_of v) v.vm_start 0 c in
        let rest = count_vma_pages-tally_all vs pages c1 is in
        let here = count_pages-tally (rounds_of v) v.vm_start 0 c in
        let n : tally kind v.vm_start (0 + rounds_of v) ≡ tally kind v.vm_start (pages v) =
          ap (tally kind v.vm_start) (omega (arith, rounds_of-IsPages v (pages v) (is v))) in
        omega (arith, rest, here, n)

-- The counters are those of the kinds.
pub record IsTally (follow_page : ℕ → Option Page) (pages : Vma → ℕ) (vs : List Vma) (c c' : Counts)
    : Type 0 where
  pub file : c'.file ≡ c.file + tally_all follow_page is_file pages vs
  pub active_file : c'.active_file ≡ c.active_file + tally_all follow_page is_active_file pages vs
  pub anon : c'.anon ≡ c.anon + tally_all follow_page is_anon pages vs
  pub active_anon : c'.active_anon ≡ c.active_anon + tally_all follow_page is_active_anon pages vs

file_law : CountsKind (λ c. c.file) is_file
unfolding add_page
file_law none c = omega arith
file_law (some p) c = elim (Bool-cases p.anon) [
  | inl a ↦ rw a (omega arith)
  | inr a ↦ rw a (omega arith)
]

active_file_law : CountsKind (λ c. c.active_file) is_active_file
unfolding add_page
active_file_law none c = omega arith
active_file_law (some p) c = elim (Bool-cases p.anon) [
  | inl a ↦ rw a (omega arith)
  | inr a ↦ elim (Bool-cases p.referenced) [
    | inl r ↦ rw (a, r) (omega arith)
    | inr r ↦ rw (a, r) (omega arith)
  ]
]

anon_law : CountsKind (λ c. c.anon) is_anon
unfolding add_page
anon_law none c = omega arith
anon_law (some p) c = elim (Bool-cases p.anon) [
  | inl a ↦ rw a (omega arith)
  | inr a ↦ rw a (omega arith)
]

active_anon_law : CountsKind (λ c. c.active_anon) is_active_anon
unfolding add_page
active_anon_law none c = omega arith
active_anon_law (some p) c = elim (Bool-cases p.anon) [
  | inl a ↦ elim (Bool-cases p.referenced) [
    | inl r ↦ rw (a, r) (omega arith)
    | inr r ↦ rw (a, r) (omega arith)
  ]
  | inr a ↦ rw a (omega arith)
]

-- With a number of pages for each area as `IsPages` says, 1 for an area without a page: the loops
-- over all areas add to each of the four counters the number of its pages, of those that
-- `follow_page` finds at the addresses a page apart from the start of each area on: the file
-- pages, those of them that are referenced, the anonymous pages, and those of them that are
-- referenced.
pub count_vma_pages-IsTally :
    (follow_page : ℕ → Option Page) (pages : Vma → ℕ) (vs : List Vma) (c : Counts)
    → ((v : Vma) → IsPages v (pages v))
    → IsTally follow_page pages vs c (count_vma_pages follow_page vs c)
count_vma_pages-IsTally follow_page pages vs c is = record {
  file = count_vma_pages-tally_all follow_page (λ c. c.file) is_file file_law vs pages c is;
  active_file =
      count_vma_pages-tally_all follow_page (λ c. c.active_file) is_active_file active_file_law vs
        pages c is;
  anon = count_vma_pages-tally_all follow_page (λ c. c.anon) is_anon anon_law vs pages c is;
  active_anon =
      count_vma_pages-tally_all follow_page (λ c. c.active_anon) is_active_anon active_anon_law vs
        pages c is;
}
