-- ===== src/Tests/OtherExamples.antt =====
-- The theorems on the shell, the threads and the kernel code, applied to small data.
use os2021_labscript.Common.{
  ℕ, ◌+◌, ◌-◌, ◌≡◌, ◌≢◌, ◌==◌, if◌then◌else◌, ltb, lt→ltb, ge→ltb, inl, inr, ◌/◌, refl, arith, true,
  false, List, [], ◌∷◌, ◌++◌, map, length, drop, replicate, Option, some, none,
}
use os2021_labscript.Common.Outcome.{done, undefined, ◌>>=◌}
use os2021_labscript.Shell.Split.{split_string}
use os2021_labscript.Shell.Split.Join.{joined, padded, split_string-joined}
use os2021_labscript.Shell.Pipes.{terminal, FdTable, Locals, Chain, run_chain}
use os2021_labscript.Shell.Pipes.Linked.{Streams}
use os2021_labscript.Shell.Pipes.Pipeline.{Runs, run_chain_links}
use os2021_labscript.Threads.{waiting, Process, run}
use os2021_labscript.Threads.Race.{thread, pair, both_pass}
use os2021_labscript.TaskInfo.{Task}
use os2021_labscript.PsCalls
use os2021_labscript.Threads.{parent_process, threads_of}
use os2021_labscript.Threads.Alone.{thread_function_ends}
use os2021_labscript.PsCalls.{ProcessState, state_of, ps_state, shown}
use os2021_labscript.PsCalls.States.{ps_state_lem}
use os2021_labscript.Kmscan.Settings.{Settings, Attr, initial, store, stored, einval}
use os2021_labscript.Kmscan.Settings.Valid.{Holds, wakes, store-show, store_refuses}
use os2021_labscript.Kmscan.Pages.{Vma, Page, no_pages, count_vma_pages, phys_lines, PhysLine}
use native.Mathlib.Decide.{dec_lt}
use os2021_labscript.Kmscan.Pages.Tally.{IsPages, IsTally, count_vma_pages-IsTally}
use os2021_labscript.Kmscan.Pages.Bounds.{present, phys_lines_room}
use os2021_labscript.Kmscan.Proc.{start, print_vma_count, print_page_count}
use os2021_labscript.Kmscan.Proc.Removed.{print_vma_count_stale}
use os2021_labscript.ForceRmmod.{KernelModule, going, own}

abbrev table : FdTable
table = some terminal ∷ some terminal ∷ some terminal ∷ []

abbrev streams : Streams table terminal terminal
streams = record { stdin = refl; stdout = refl }

abbrev ls : List ℕ
ls = b'l' ∷ b's' ∷ []

abbrev chain : Chain
chain = record { table = table; fd0 = 0; fd1 = 0; last_read_end = 0; failed = false }

abbrev same_locals : ℕ → Locals → Locals
same_locals i l = l

run_chain_links_example :
    Runs table
      (run_chain same_locals (λ i. true) 0 chain (ls ∷ ls ∷ ls ∷ [])).0.table
      terminal
      terminal
      0
      (ls ∷ ls ∷ ls ∷ [])
      (run_chain same_locals (λ i. true) 0 chain (ls ∷ ls ∷ ls ∷ [])).1
run_chain_links_example =
    run_chain_links (λ i l. refl) (λ i. refl) chain ls ls (ls ∷ []) refl streams

-- Two threads that wait on counter 0, and a third one on counter 1
abbrev process : Process
process = record {
  mutex = λ k. if k == 0 then 1 else 0;
  threads = λ i. thread (waiting (if i == 2 then 1 else 0)) 0;
}

both_pass_example :
    ((run process (pair 0 1)).threads 0 ≡ thread [] 1)
    × ((run process (pair 0 1)).threads 1 ≡ thread [] 1)
    × ((run process (pair 0 1)).mutex 0 ≡ 1 - 1)
both_pass_example = both_pass process 0 1 0 0 0 [] [] (omega arith) refl refl refl

thread_function_ends_example :
    (n : ℕ) × (held : ℕ) × ((run parent_process (replicate n 2)).threads 2 ≡ thread [] held)
    × ((k : ℕ) → (run parent_process (replicate n 2)).mutex k ≡ parent_process.mutex k)
    × ((j : ℕ) → 2 ≢ j → (run parent_process (replicate n 2)).threads j ≡ parent_process.threads j)
unfolding parent_process threads_of
thread_function_ends_example = thread_function_ends parent_process 2 0 3 20 30 (λ k h. refl) refl

abbrev kthread : Task
kthread = record { pid = 2; mm = false; state = 1026; static_prio = 120; comm = ls }

abbrev user : Task
user = record { pid = 9; mm = true; state = 1; static_prio = 120; comm = ls }

abbrev children : List (Task × List Task)
children = (user, user ∷ user ∷ []) ∷ (user, user ∷ []) ∷ []

abbrev task : PsCalls.Task
task = record { pid = 1; utime = 5; comm = ls }

abbrev empty_state : ProcessState
empty_state = record { pid = 0; utime = 0; comm = [] }

ps_state_lem_example :
    ps_state (task ∷ []) (task ∷ []) (λ i. empty_state) (empty_state ∷ empty_state ∷ [])
    ≡ done (map state_of (task ∷ []) ++ drop 1 (empty_state ∷ empty_state ∷ []))
ps_state_lem_example = ps_state_lem (task ∷ []) (λ i. empty_state) (empty_state ∷ empty_state ∷ [])

store-show_example :
    (s' : Settings) × (store (λ buf. some 1) Attr.run [] 2 initial
      ≡ (s', stored 2, wakes Attr.run 1))
    × Holds initial s' Attr.run 1
store-show_example = store-show (λ buf. some 1) Attr.run [] 2 1 initial refl (omega arith)

store_refuses_example : store (λ buf. none) Attr.pid [] 2 initial ≡ (initial, einval, false)
store_refuses_example = store_refuses (λ buf. none) Attr.pid [] 2 initial (λ n e. cc)

abbrev area : Vma
area = record { vm_start = 4096; vm_end = 12288 }

abbrev pages : ℕ → Option Page
pages addr = some (record { anon = true; referenced = false })

-- The number of pages of an area, for all areas
abbrev pages_in : Vma → ℕ
pages_in v = if ltb v.vm_start v.vm_end then (v.vm_end - v.vm_start + 4095) / 4096 else 1

pages_in-IsPages : (v : Vma) → IsPages v (pages_in v)
pages_in-IsPages v = elim (dec_lt v.vm_start v.vm_end) [
  | yes lt ↦
      rw (lt→ltb v.vm_start v.vm_end lt)
        (record { some_page = omega arith; enough = omega arith; least = inr (omega arith) })
  | no ge ↦
      rw (ge→ltb v.vm_start v.vm_end (omega arith))
        (record { some_page = omega arith; enough = omega arith; least = inl refl })
]

count_vma_pages-IsTally_example :
    IsTally pages pages_in (area ∷ []) no_pages (count_vma_pages pages (area ∷ []) no_pages)
count_vma_pages-IsTally_example =
    count_vma_pages-IsTally pages pages_in (area ∷ []) no_pages pages_in-IsPages

phys_lines_room_example :
    (lines : List PhysLine) × (phys_lines pages (λ a. a) 2 4096 [] ≡ done lines)
    × (length lines ≡ 0 + present pages (λ a. a) 2 4096)
unfolding present
phys_lines_room_example = phys_lines_room pages (λ a. a) 2 4096 [] (omega arith)

print_vma_count_stale_example :
    (print_vma_count 7 3 start >>= print_page_count 7 no_pages >>= print_vma_count 7 4) ≡ undefined
print_vma_count_stale_example = print_vma_count_stale 7 3 4 no_pages start (omega arith) refl refl

abbrev stuck : KernelModule
stuck = record { name = ls; state = going; refcnt = 4; exit_function = own }

-- "ls; ls " split at the semicolon
split_string-joined_example :
    split_string 9 b';' (joined b';' (padded (0, ls, 0) ∷ padded (1, ls, 1) ∷ []))
    ≡ done (ls ∷ ls ∷ [])
split_string-joined_example =
    split_string-joined 9 b';' (0, ls, 0) ((1, ls, 1) ∷ []) (omega arith)
      (
        (omega arith, omega arith),
        (omega arith, (omega arith, tt)),
        ((omega arith, omega arith), (omega arith, (omega arith, tt)), tt),
      )
      (omega arith)
