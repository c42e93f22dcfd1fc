-- ===== src/ForceRmmod/Found.antt =====
-- Which module the cleanup changes.
use os2021_labscript.Common.{
  ℕ, ◌≡◌, if◌then◌else◌, same_text, Bool, true, false, List, [], ◌∷◌, ◌++◌, length, Option, none,
  some,
}
use os2021_labscript.ForceRmmod.{KernelModule, Relates, live, replaced}

-- No module of the list has the name.
abbrev pub NoModule : List ℕ → List KernelModule → Type 0
NoModule name [] = Unit
NoModule name (m ∷ ms) = (same_text m.name name ≡ false) × NoModule name ms

-- Module number `k` of the list
pub record IsModule (name : List ℕ) (ms : List KernelModule) (k : ℕ) : Type 0 where
  pub before : List KernelModule
  pub target : KernelModule
  pub after : List KernelModule
  pub split : ms ≡ before ++ (target ∷ after)
  pub place : length before ≡ k
  pub named : same_text target.name name ≡ true

-- What `find_module` promises: a module with the name, or that there is none
abbrev pub Finds : List ℕ → List KernelModule → Option ℕ → Type 0
Finds name ms none = NoModule name ms
Finds name ms (some k) = IsModule name ms k

-- The result where a module was found
pub record IsCleaned (replace : Bool) (name : List ℕ) (ms : List KernelModule) (related : Relates)
    (result : List KernelModule × Relates × Bool) (k : ℕ) : Type 0 where
  pub found : IsModule name ms k
  pub modules :
      result.0
      ≡ found.before
        ++ (record found.target {
          state = live;
          refcnt = 1;
          exit_function = if replace then replaced else found.target.exit_function;
        }
            ∷ found.after)
  pub printed : result.1 ≡ related
  pub zero_returned : result.2 ≡ true

-- What the cleanup has done, where `find_module` has found that
abbrev pub Outcomes :
    (replace : Bool) (name : List ℕ) (ms : List KernelModule)
    (relates : ℕ → List KernelModule → Relates)
    → List KernelModule × Relates × Bool
    → Option ℕ
    → Type 0
Outcomes replace name ms relates result none = NoModule name ms × (result ≡ (ms, [], false))
Outcomes replace name ms relates result (some k) = IsCleaned replace name ms (relates k ms) result k
