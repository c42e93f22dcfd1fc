-- ===== src/PsCalls.antt =====
-- The system calls `ps_counter` and `ps_state` at the end of lab2/lab2.1/linux/sys.c, and the loop
-- of lab2/lab2.1/test_syscall.c that prints their result.
pub mod States
use os2021_labscript.Common.{
  ℕ, zero, suc, ◌+◌, ◌-◌, ◌==◌, ltb, if◌then◌else◌, List, [], ◌∷◌, ◌++◌, drop, length,
}
use os2021_labscript.Common.Outcome.{Outcome, done, undefined}

-- The members of `task_struct` that are read
pub record Task : Type 0 where
  pub pid : ℕ
  pub utime : ℕ
  pub comm : List ℕ

pub record ProcessState : Type 0 where
  pub pid : ℕ
  pub utime : ℕ
  pub comm : List ℕ

-- The loop `for_each_process(task) counter++;`
unfoldable pub count_tasks : ℕ → List Task → ℕ
count_tasks counter [] = counter
count_tasks counter (t ∷ ts) = count_tasks (counter + 1) ts

-- What is copied to `*num`
unfoldable pub ps_counter : List Task → ℕ
unfolding count_tasks
ps_counter tasks = count_tasks 0 tasks

-- `strncpy(dst, src, n)`: cut at `n` bytes, or filled with NULs
unfoldable pub strncpy : ℕ → List ℕ → List ℕ
strncpy zero src = []
strncpy (suc n) [] = 0 ∷ strncpy n []
strncpy (suc n) (c ∷ cs) = c ∷ strncpy n cs

unfoldable pub state_of : Task → ProcessState
unfolding strncpy
state_of t = record { pid = t.pid; utime = t.utime; comm = strncpy 16 t.comm }

-- The second loop, over `states` from `temp` on
unfoldable pub fill_states : List Task → List ProcessState
unfolding state_of
fill_states [] = []
fill_states (t ∷ ts) = state_of t ∷ fill_states ts

-- What `kmalloc` left in the structures from number `i` on
unfoldable pub left_over : (ℕ → ProcessState) → (i n : ℕ) → List ProcessState
left_over raw i zero = []
left_over raw i (suc n) = raw i ∷ left_over raw (i + 1) n

-- `buf` afterwards: `counter` structures are copied over what it held. The processes are counted
-- first, `before`, and read in a second loop, `during`; one more than counted is written behind
-- the array.
unfoldable pub ps_state :
    (before during : List Task)
    → (ℕ → ProcessState)
    → List ProcessState
    → Outcome (List ProcessState)
unfolding fill_states left_over count_tasks
ps_state before during raw buf =
    let counter : ℕ = count_tasks 0 before in
    let n : ℕ = length during in
    if ltb counter n
    then undefined
    else done (fill_states during ++ (left_over raw n (counter - n) ++ drop counter buf))

-- The lines that the test prints: up to the first process id of 0
unfoldable pub shown : List ProcessState → List ProcessState
shown [] = []
shown (s ∷ ss) = if s.pid == 0 then [] else s ∷ shown ss
