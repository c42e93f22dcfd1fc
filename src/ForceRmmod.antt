-- ===== src/ForceRmmod.antt =====
-- The kernel modules forcermmod.c and forcermmod_replace_exit.c under lab3: they make a module
-- that cannot be unloaded ready for it.
pub mod Found
pub mod ReplaceExit
use os2021_labscript.Common.{
  ℕ, zero, suc, ◌+◌, if◌then◌else◌, Bool, true, false, List, [], ◌∷◌, Option, none, some,
}

pub data ModuleState : Type 0 where
  live coming going unformed : ModuleState

-- The function that a module's `exit` points to
pub data ExitFunction : Type 0 where
  absent : ExitFunction
  own : ExitFunction
  replaced : ExitFunction

-- The fields of `struct module` that are read or written
pub record KernelModule : Type 0 where
  pub name : List ℕ
  pub state : ModuleState
  pub refcnt : ℕ
  pub exit_function : ExitFunction

-- The names that are printed of the modules that depend on this one
abbrev pub Relates : Type 0
Relates = List (List ℕ)

-- An assignment to fields of module number `k`
unfoldable pub change : ℕ → (KernelModule → KernelModule) → List KernelModule → List KernelModule
change k f [] = []
change zero f (m ∷ ms) = f m ∷ ms
change (suc k) f (m ∷ ms) = m ∷ change k f ms

-- Behind the loop over the CPUs; `replace` is CONFIG_REPLACE_EXIT_FUNCTION.
unfoldable pub finish : Bool → KernelModule → KernelModule
finish replace m = record m {
  refcnt = 1;
  exit_function = if replace then replaced else m.exit_function;
}

-- `for_each_possible_cpu`, from `cpu` on. `clear_cpu k cpu` is what `local_set` to 0 through
-- `per_cpu_ptr(&mod->refcnt, cpu)` does to the modules: `refcnt` is no per-CPU variable, and the
-- write goes to another place in the kernel's memory, which is not known here.
unfoldable pub clear_cpus :
    (clear_cpu : (k cpu : ℕ) → List KernelModule → List KernelModule) (left k cpu : ℕ)
    → List KernelModule
    → List KernelModule
clear_cpus clear_cpu zero k cpu ms = ms
clear_cpus clear_cpu (suc left) k cpu ms =
    clear_cpus clear_cpu left k (cpu + 1) (clear_cpu k cpu ms)

-- `find_module` is the kernel's: it gives the number of a module in the list. `relates` are the
-- names that are read where the entries of `source_list`, which belong to structures of another
-- type, are taken for modules.
module _ (find_module : List ℕ → List KernelModule → Option ℕ) (cpus : ℕ)
    (clear_cpu : (k cpu : ℕ) → List KernelModule → List KernelModule)
    (relates : ℕ → List KernelModule → Relates) where
  -- The flag is whether the result is 0.
  unfoldable pub force_cleanup_module :
      Bool → List ℕ → List KernelModule → List KernelModule × Relates × Bool
  unfolding change finish clear_cpus
  force_cleanup_module replace name ms = elim (find_module name ms) [
    | none ↦ (ms, [], false)
    | some k ↦
        let ms1 = change k (λ m. record m { state = live }) ms in
        let ms2 = clear_cpus clear_cpu cpus k 0 ms1 in
        (change k (finish replace) ms2, relates k ms, true)
  ]

  -- `force_rmmod_init`, without CONFIG_REPLACE_EXIT_FUNCTION
  unfoldable pub force_rmmod_init : List ℕ → List KernelModule → List KernelModule × Relates × Bool
  unfolding force_cleanup_module
  force_rmmod_init modname ms = force_cleanup_module false modname ms
