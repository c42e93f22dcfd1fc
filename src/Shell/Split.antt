-- ===== src/Shell/Split.antt =====
-- `split_string` of lab2/lab2.2/lab2_shell.c; lab4/simple_fat16_new.c has a copy of it.
pub mod Join
use os2021_labscript.Common.{ℕ, ◌==◌, leb, if◌then◌else◌, List, [], ◌∷◌, map, length}
use mathlib.Core.List.{reverse}
use os2021_labscript.Common.Outcome.{Outcome, done, undefined}
use os2021_labscript.Common.Strtok.{tokens}

abbrev pub space : ℕ
space = b' '

-- `while (*head == ' ' && head != tail) head++;`
unfoldable pub trim_head : List ℕ → List ℕ
trim_head [] = []
trim_head (c ∷ []) = c ∷ []
trim_head (c ∷ d ∷ ds) = if c == space then trim_head (d ∷ ds) else c ∷ d ∷ ds

-- Both loops over one token; the second one goes from the tail to the head.
unfoldable pub trim : List ℕ → List ℕ
unfolding trim_head
trim t = reverse (trim_head (reverse (trim_head t)))

-- The tokens in an array of `cap` pointers, with a null pointer behind them. Of a text with no
-- token the first is a null pointer, and `strlen` follows it.
unfoldable pub clip_tokens : (cap : ℕ) → List (List ℕ) → Outcome (List (List ℕ))
unfolding trim
clip_tokens cap [] = undefined
clip_tokens cap (t ∷ ts) = if leb cap (length (t ∷ ts)) then undefined else done (map trim (t ∷ ts))

unfoldable pub split_string : (cap sep : ℕ) → List ℕ → Outcome (List (List ℕ))
unfolding clip_tokens tokens
split_string cap sep s = clip_tokens cap (tokens sep s)
