-- ===== src/TaskInfo.antt =====
-- The kernel module of lab3/EXP3.1/sec2.c: kernel threads, a timer, and the family of a process.
use os2021_labscript.Common.{
  ℕ, suc, ◌+◌, ◌*◌, ◌==◌, ltb, if◌then◌else◌, Bool, true, false, List, [], ◌∷◌, ◌++◌, Option, none,
  some,
}
use os2021_labscript.Common.Outcome.{Outcome, done, undefined}
pub mod Counts

-- The members of `task_struct` that are read; `mm` is whether it is not NULL.
pub record Task : Type 0 where
  pub pid : ℕ
  pub mm : Bool
  pub state : ℕ
  pub static_prio : ℕ
  pub comm : List ℕ

-- The status that is printed
pub data Stat : Type 0 where
  i_plain i_high s_nice s_plain s_high : Stat

-- "I", "I<", "SN", "S" and "S<"
unfoldable pub prio_char : Task → Stat
prio_char p =
    if p.state == 1026
    then (if ltb 100 p.static_prio then i_plain else i_high)
    else if ltb 120 p.static_prio
    then s_nice
    else if ltb p.static_prio 120
    then s_plain
    else s_high

-- A line of `loop == 1`: the process id, the status, the name, and `count` before it
pub record Line : Type 0 where
  pub pid : ℕ
  pub stat : Stat
  pub comm : List ℕ
  pub number : ℕ

-- The lines of the loop over all processes, and the count printed at the end
unfoldable pub list_kernel_threads : ℕ → List Task → List Line × ℕ
unfolding prio_char
list_kernel_threads count [] = ([], count)
list_kernel_threads count (p ∷ ps) =
    let (lines, total) = list_kernel_threads (if p.mm then count else count + 1) ps in
    (
      if p.mm
          then lines
          else record { pid = p.pid; stat = prio_char p; comm = p.comm; number = count } ∷ lines,
      total,
    )

-- The count of `timer_function`
unfoldable pub count_kernel_threads : ℕ → List Task → ℕ
count_kernel_threads count [] = count
count_kernel_threads count (p ∷ ps) = count_kernel_threads (if p.mm then count else count + 1) ps

-- `my_timer_list` with the counts printed so far
pub record Timer : Type 0 where
  pub armed : Bool
  pub expires : ℕ
  pub printed : List ℕ

-- `loop == 2` of `lab3_init` at `jiffies == now`
unfoldable pub start_timer : (hz now : ℕ) → Timer
start_timer hz now = record { armed = true; expires = now + hz; printed = [] }

-- The call of `timer_function` at `jiffies == now`, with the processes of that moment
unfoldable pub timer_function : (hz now : ℕ) → List Task → Timer → Timer
unfolding count_kernel_threads
timer_function hz now tasks t = record {
  armed = true;
  expires = now + 5 * hz;
  printed = t.printed ++ (count_kernel_threads 0 tasks ∷ []);
}

-- `lab3_exit`
unfoldable pub lab3_exit : Timer → Timer
lab3_exit t = record t { armed = false }

-- What `loop == 3` prints of one task
pub record Member : Type 0 where
  pub number : ℕ
  pub task : Task

-- A child with the threads of its group
abbrev pub ChildLine : Type 0
ChildLine = Member × List Member

pub record Family : Type 0 where
  pub parent : Option Task
  pub siblings : List Member
  pub children : List ChildLine
  pub threads : List Member

-- Numbers from `count + 1` on
unfoldable pub numbered : ℕ → List Task → List Member
numbered count [] = []
numbered count (t ∷ ts) = record { number = count + 1; task = t } ∷ numbered (count + 1) ts

abbrev pub count_of {ℓ} : {A : Type ℓ} → List A → ℕ
count_of [] = 0
count_of (x ∷ xs) = suc (count_of xs)

-- `pthread_count` goes on from one child to the next.
unfoldable pub number_children : (children threads : ℕ) → List (Task × List Task) → List ChildLine
unfolding numbered
number_children children threads [] = []
number_children children threads ((t, group) ∷ ts) =
    (record { number = children + 1; task = t }, numbered threads group)
    ∷ number_children (children + 1) (threads + count_of group) ts

-- What the kernel knows of the target. Its parent is null only for the first task; then the list
-- of siblings is read through a null pointer.
pub record Target : Type 0 where
  pub parent : Option (Task × List Task)
  pub children : List (Task × List Task)
  pub group : List Task

-- `find_vpid` and `pid_task` give `none` for an unknown pid, whose parent is read nevertheless.
unfoldable pub show_family : Option Target → Outcome Family
unfolding number_children
show_family none = undefined
show_family (some t) = elim t.parent [
  | none ↦ undefined
  | some (p, siblings) ↦ done (record {
    parent = some p;
    siblings = numbered 0 siblings;
    children = number_children 0 0 t.children;
    threads = numbered 0 t.group;
  })
]
