-- ===== src/ForceRmmod/ReplaceExit.antt =====
-- forcermmod_replace_exit.c under lab3: the same module, built with CONFIG_REPLACE_EXIT_FUNCTION.
use os2021_labscript.Common.{ℕ, Bool, true, List, Option}
use os2021_labscript.ForceRmmod.{KernelModule, Relates, force_cleanup_module}

module _ (find_module : List ℕ → List KernelModule → Option ℕ) (cpus : ℕ)
    (clear_cpu : (k cpu : ℕ) → List KernelModule → List KernelModule)
    (relates : ℕ → List KernelModule → Relates) where
  unfoldable pub force_cleanup_module_replace :
      List ℕ → List KernelModule → List KernelModule × Relates × Bool
  unfolding force_cleanup_module
  force_cleanup_module_replace del_mod_name ms =
      force_cleanup_module find_module cpus clear_cpu relates true del_mod_name ms

  unfoldable pub force_rmmod_init_replace :
      List ℕ → List KernelModule → List KernelModule × Relates × Bool
  unfolding force_cleanup_module_replace
  force_rmmod_init_replace modname ms = force_cleanup_module_replace modname ms
