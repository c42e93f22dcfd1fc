-- ===== src/Fat16/Paths.antt =====
-- Paths as the FUSE operations of lab4/simple_fat16_new.c take them apart: `depth`,
-- `org_path_split` and `get_prt_path`. A path is its bytes before the NUL.
pub mod Join
use os2021_labscript.Common.{
  ℕ, zero, suc, ◌+◌, ◌-◌, ◌==◌, if◌then◌else◌, List, [], ◌∷◌, Option, none, some, length, take,
}
use os2021_labscript.Common.Outcome.{Outcome, done, undefined, ◌>>=◌}
use os2021_labscript.Common.Strtok.{tokens}

abbrev pub slash : ℕ
slash = b'/'

-- The number of slashes
unfoldable pub depth : List ℕ → ℕ
depth [] = 0
depth (c ∷ cs) = (if c == slash then 1 else 0) + depth cs

-- An array of `n` results of `strtok`, NULL when the tokens are used up
unfoldable pub slots : ℕ → List (List ℕ) → List (Option (List ℕ))
slots zero ts = []
slots (suc n) [] = none ∷ slots n []
slots (suc n) (t ∷ ts) = some t ∷ slots n ts

unfoldable pub org_path_split : List ℕ → List (Option (List ℕ))
unfolding slots tokens depth
org_path_split path = slots (depth path) (tokens slash path)

-- `orgPaths[pathDepth - 1]`; outside the array, or NULL where a string is read, is undefined.
unfoldable pub last_slot : List (Option (List ℕ)) → Outcome (List ℕ)
last_slot [] = undefined
last_slot (none ∷ []) = undefined
last_slot (some t ∷ []) = done t
last_slot (s ∷ s' ∷ ss) = last_slot (s' ∷ ss)

unfoldable pub get_prt_path : List ℕ → List (Option (List ℕ)) → ℕ → Outcome (List ℕ)
unfolding last_slot
get_prt_path path org_paths path_depth =
    if path_depth == 1
    then done (slash ∷ [])
    else do last ← last_slot org_paths; done (take (length path - length last - 1) path)
