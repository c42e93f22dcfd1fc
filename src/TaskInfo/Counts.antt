-- ===== src/TaskInfo/Counts.antt =====
-- The counts that lab3/EXP3.1/sec2.c prints, and the numbers of its lines.
use os2021_labscript.Common.{
  ℕ, zero, suc, ◌+◌, ◌≡◌, ◌∙◌, refl, sym, ap, arith, if◌then◌else◌, Bool-cases, inl, inr, List, [],
  ◌∷◌, ◌++◌, map, length,
}
use os2021_labscript.TaskInfo.{
  Task, list_kernel_threads, count_kernel_threads, Member, numbered, ChildLine, number_children,
  count_of,
}

-- `count`, `count + 1`, ..., `n` numbers in all
unfoldable pub count_up : (count n : ℕ) → List ℕ
count_up count zero = []
count_up count (suc n) = count ∷ count_up (count + 1) n

-- The processes without an `mm`
unfoldable pub kernel_threads : List Task → List Task
kernel_threads [] = []
kernel_threads (p ∷ ps) = if p.mm then kernel_threads ps else p ∷ kernel_threads ps

-- The timer counts the processes without an `mm`.
pub count_kernel_threads_lem :
    (ps : List Task) (count : ℕ)
    → count_kernel_threads count ps ≡ count + length (kernel_threads ps)
unfolding count_kernel_threads kernel_threads
count_kernel_threads_lem [] count = omega arith
count_kernel_threads_lem (p ∷ ps) count = elim (Bool-cases p.mm) [
  | inl t ↦ rw (t) (count_kernel_threads_lem ps count)
  | inr f ↦ rw (f) (omega (arith, count_kernel_threads_lem ps (count + 1)))
]

-- The list of `loop == 1` has one line for each process without an `mm`, in order; the lines are
-- numbered from `count` on.
pub list_kernel_threads_lines :
    (ps : List Task) (count : ℕ)
    → (map (λ l. l.pid) (list_kernel_threads count ps).0 ≡ map (λ p. p.pid) (kernel_threads ps))
      × (map (λ l. l.number) (list_kernel_threads count ps).0
          ≡ count_up count (length (kernel_threads ps)))
unfolding list_kernel_threads kernel_threads count_up
list_kernel_threads_lines [] count = (refl, refl)
list_kernel_threads_lines (p ∷ ps) count = elim (Bool-cases p.mm) [
  | inl t ↦ rw (t) (list_kernel_threads_lines ps count)
  | inr f ↦
      let (pids, numbers) = list_kernel_threads_lines ps (count + 1) in
      rw (f) (ap (λ xs. p.pid ∷ xs) pids, ap (λ xs. count ∷ xs) numbers)
]

-- The total that follows the list is the timer's count.
pub list_kernel_threads-count :
    (ps : List Task) (count : ℕ) → (list_kernel_threads count ps).1 ≡ count_kernel_threads count ps
unfolding list_kernel_threads count_kernel_threads
list_kernel_threads-count [] count = refl
list_kernel_threads-count (p ∷ ps) count = elim (Bool-cases p.mm) [
  | inl t ↦ rw (t) (list_kernel_threads-count ps count)
  | inr f ↦ rw (f) (list_kernel_threads-count ps (count + 1))
]

-- The threads of all children, in the order in which they are printed
unfoldable pub all_threads : List ChildLine → List Member
all_threads [] = []
all_threads ((m, ms) ∷ cs) = ms ++ all_threads cs

unfoldable pub all_groups : List (Task × List Task) → List Task
all_groups [] = []
all_groups ((t, group) ∷ ts) = group ++ all_groups ts

numbered_append :
    (xs ys : List Task) (count : ℕ)
    → numbered count (xs ++ ys) ≡ numbered count xs ++ numbered (count + count_of xs) ys
unfolding numbered
numbered_append [] ys count = ap (λ c. numbered c ys) (omega arith)
numbered_append (x ∷ xs) ys count =
    let q : count + count_of (x ∷ xs) ≡ count + 1 + count_of xs = omega arith in
    rw (q)
      (ap (λ ms. record { number = count + 1; task = x } ∷ ms) (numbered_append xs ys (count + 1)))

-- The threads of all children are numbered as one list: the count goes on from child to child.
pub number_children_threads :
    (ts : List (Task × List Task)) (children threads : ℕ)
    → all_threads (number_children children threads ts) ≡ numbered threads (all_groups ts)
unfolding number_children all_threads all_groups numbered
number_children_threads [] children threads = refl
number_children_threads ((t, group) ∷ ts) children threads =
    ap (λ xs. numbered threads group ++ xs)
      (number_children_threads ts (children + 1) (threads + count_of group))
    ∙ sym (numbered_append group (all_groups ts) threads)
