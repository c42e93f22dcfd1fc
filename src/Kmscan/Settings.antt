-- ===== src/Kmscan/Settings.antt =====
-- The sysfs files of lab3/EXP3.2/sec3.c, and its scanning thread.
pub mod Valid
use os2021_labscript.Common.{
  ℕ, ◌-◌, ◌^◌, ◌==◌, ltb, if◌then◌else◌, not, Bool, true, false, List, [], ◌∷◌, Option, none, some,
}

-- `pid`, `sysfs_test_func`, `sysfs_test_run` and `sysfs_test_thread_sleep_millisecs`
pub record Settings : Type 0 where
  pub pid : ℕ
  pub func : ℕ
  pub run : ℕ
  pub sleep_millisecs : ℕ

abbrev pub initial : Settings
initial = record { pid = 0; func = 0; run = 0; sleep_millisecs = 20000 }

abbrev pub uint_max : ℕ
uint_max = 2 ^ 32 - 1

-- What a store returns: `count`, or `-EINVAL`
pub data Stored : Type 0 where
  stored : ℕ → Stored
  einval : Stored

-- A sysfs file
pub data Attr : Type 0 where
  sleep_millisecs pid func run : Attr

-- `show`: the number that is printed
unfoldable pub show : Attr → Settings → ℕ
show Attr.sleep_millisecs s = s.sleep_millisecs
show Attr.pid s = s.pid
show Attr.func s = s.func
show Attr.run s = s.run

-- What a store does with a number that fits: the settings, and whether the thread is woken
unfoldable pub assign : Attr → ℕ → Settings → Option (Settings × Bool)
assign Attr.sleep_millisecs n s = some (record s { sleep_millisecs = n }, false)
assign Attr.pid n s = some (record s { pid = n }, false)
assign Attr.func n s = some (record s { func = n }, false)
assign Attr.run n s =
    if ltb 1 n then none else some (if not (s.run == n) then record s { run = n } else s, n == 1)

unfoldable pub finish : ℕ → Settings → Option (Settings × Bool) → Settings × Stored × Bool
finish count s none = (s, einval, false)
finish count s (some (s', woken)) = (s', stored count, woken)

-- `kstrtoul(buf, 10, &n)` comes from outside; `none` is an error.
module _ (kstrtoul : List ℕ → Option ℕ) where
  unfoldable pub parse_uint : List ℕ → Option ℕ
  parse_uint buf = elim (kstrtoul buf) [
    | none ↦ none
    | some n ↦ if ltb uint_max n then none else some n
  ]

  -- The four `_store` functions
  unfoldable pub store : Attr → List ℕ → (count : ℕ) → Settings → Settings × Stored × Bool
  unfolding parse_uint assign finish
  store a buf count s = elim (parse_uint buf) [
    | none ↦ (s, einval, false)
    | some n ↦ finish count s (assign a n s)
  ]

-- `sysfs_testd_should_run`: `run & 1`, and `run` is 0 or 1.
abbrev pub should_run : Settings → Bool
should_run s = s.run == 1

-- The function that `sysfs_test_to_do` calls
pub data Task : Type 0 where
  vma_count page_count phys_num : Task

unfoldable pub to_do : Settings → Option Task
to_do s =
    if s.func == 1
    then some vma_count
    else if s.func == 2
    then some page_count
    else if s.func == 3
    then some phys_num
    else none

-- How a round of `sysfs_testd_thread` ends: asleep for a time, or until it is woken
pub data Rest : Type 0 where
  sleep_for : ℕ → Rest
  wait_event : Rest

-- A round: `s` is read under the lock, `s'` after it, when a store may have come between.
unfoldable pub thread_round : (s s' : Settings) → Option Task × Rest
unfolding to_do
thread_round s s' = (
  if should_run s then to_do s else none,
  if should_run s' then sleep_for s'.sleep_millisecs else wait_event,
)

-- `sysfs_test_init`: whether each call outside succeeds, and what is left when it returns
pub record Resources : Type 0 where
  pub proc_root : Bool
  pub thread : Bool
  pub sysfs_group : Bool

unfoldable pub test_init : (mkdir_works kthread_works sysfs_works : Bool) → Bool × Resources
test_init mkdir_works kthread_works sysfs_works =
    if not mkdir_works
    then (false, record { proc_root = false; thread = false; sysfs_group = false })
    else if not kthread_works
    then (false, record { proc_root = true; thread = false; sysfs_group = false })
    else if not sysfs_works
    then (false, record { proc_root = true; thread = false; sysfs_group = false })
    else (true, record { proc_root = true; thread = true; sysfs_group = true })

-- `sysfs_test_exit`
unfoldable pub test_exit : Resources → Resources
test_exit r = record { proc_root = false; thread = false; sysfs_group = false }
