-- ===== src/Kmscan/Proc.antt =====
-- The files under /proc/kmscan that lab3/EXP3.2/sec3.c makes and removes.
pub mod Removed
use os2021_labscript.Common.{
  ℕ, ◌==◌, ltb, if◌then◌else◌, not, Bool, true, false, Option, none, some,
}
use os2021_labscript.Common.Outcome.{Outcome, done, undefined, ◌>>=◌}
use os2021_labscript.Kmscan.Pages.{Counts}

-- A directory of a process, with the numbers that its files are made for. A file keeps a pointer to
-- a local variable of the function that makes it, and holds the number only while that one runs.
pub record Dir : Type 0 where
  pub vma_count : Option ℕ
  pub counts : Option Counts

-- The directories, the locks `mutex[pid]`, and the process whose `vma_count` file the static `de`
-- of `print_vma_count` points to, with whether that file still exists.
pub record Proc : Type 0 where
  pub dir : ℕ → Option Dir
  pub lock : ℕ → Bool
  pub de : Option (ℕ × Bool)

abbrev pub update {ℓ} : {A : Type ℓ} → (ℕ → A) → ℕ → A → ℕ → A
update f i a j = if i == j then a else f j

abbrev pub empty_dir : Dir
empty_dir = record { vma_count = none; counts = none }

abbrev pub start : Proc
start = record { dir = λ p. none; lock = λ p. false; de = none }

-- `proc_mkdir` where the lock of the process is open; the array of locks has 32768 places and that
-- of the directories 32767.
unfoldable pub ensure_dir : ℕ → Proc → Outcome Proc
ensure_dir pid p =
    if not (ltb pid 32767)
    then undefined
    else if p.lock pid
    then done p
    else done (record p { dir = update p.dir pid (some empty_dir); lock = update p.lock pid true })

-- `proc_remove(de)`: nothing for a null pointer; a file that is gone already must not be removed.
unfoldable pub remove_de : Proc → Outcome Proc
remove_de p = elim p.de [
  | none ↦ done p
  | some (pid, alive) ↦
      if not alive
      then undefined
      else done (record p {
        dir =
            update p.dir pid
              (elim (p.dir pid) [ none ↦ none | some d ↦ some (record d { vma_count = none }) ]);
        de = none;
      })
]

-- `proc_create_data("vma_count", ...)` in the directory of the process
unfoldable pub create_vma_count : ℕ → ℕ → Proc → Proc
create_vma_count pid n p = record p {
  dir =
      update p.dir pid
        (elim (p.dir pid) [ none ↦ none | some d ↦ some (record d { vma_count = some n }) ]);
  de = some (pid, true);
}

unfoldable pub print_vma_count : (pid n : ℕ) → Proc → Outcome Proc
unfolding ensure_dir remove_de create_vma_count
print_vma_count pid n p = do
  p1 ← ensure_dir pid p
  p2 ← remove_de p1
  done (create_vma_count pid n p2)

-- The file behind `de` goes with the directory of its process.
abbrev pub drop_de : ℕ → Option (ℕ × Bool) → Option (ℕ × Bool)
drop_de pid none = none
drop_de pid (some (q, alive)) = if q == pid then some (q, false) else some (q, alive)

-- `print_active_inactive_page_count`: the directory is removed and made again.
unfoldable pub print_page_count : ℕ → Counts → Proc → Outcome Proc
print_page_count pid c p =
    if not (ltb pid 32767)
    then undefined
    else done (record {
      dir = update p.dir pid (some (record { vma_count = none; counts = some c }));
      lock = update p.lock pid true;
      de = if p.lock pid then drop_de pid p.de else p.de;
    })
