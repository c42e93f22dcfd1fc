-- ===== src/Common/Strtok.antt =====
-- `strtok` of the C library with a separator of one character, as the programs call it: over a
-- text (the bytes before the NUL), until it has no more tokens.
use os2021_labscript.Common.Tests.{◌==◌, ==_iff, ==_of_ne, if◌then◌else◌}
use Prim.Native.Nat.{ℕ}
use mathlib.Core.Bool.{true, false}
use mathlib.Core.List.{List, [], ◌∷◌, ◌++◌, append-nil, append_assoc}
use mathlib.Core.Path.{◌≡◌, ◌∙◌, refl, ap}
use mathlib.Core.Logic.{◌≢◌}

abbrev pub token_end : List ℕ → List (List ℕ) → List (List ℕ)
token_end [] ts = ts
token_end (c ∷ cs) ts = (c ∷ cs) ∷ ts

-- `cur` is the token read so far.
unfoldable pub tokens_from : ℕ → List ℕ → List ℕ → List (List ℕ)
tokens_from sep cur [] = token_end cur []
tokens_from sep cur (c ∷ cs) = elim (c == sep) [
  | true ↦ token_end cur (tokens_from sep [] cs)
  | false ↦ tokens_from sep (cur ++ (c ∷ [])) cs
]

-- No byte is the separator.
abbrev pub NoSep : ℕ → List ℕ → Type 0
NoSep sep [] = Unit {0}
NoSep sep (c ∷ cs) = (c ≢ sep) × NoSep sep cs

-- Such bytes join the token read so far.
pub tokens_from_run :
    (sep : ℕ) (cur d rest : List ℕ)
    → NoSep sep d
    → tokens_from sep cur (d ++ rest) ≡ tokens_from sep (cur ++ d) rest
unfolding tokens_from
tokens_from_run sep cur [] rest h = rw (append-nil) refl
tokens_from_run sep cur (c ∷ cs) rest h =
    rw (tokens_from, ==_of_ne c sep h.0)
      (tokens_from_run sep (cur ++ (c ∷ [])) cs rest h.1
        ∙ ap (λ l. tokens_from sep l rest) (append_assoc cur (c ∷ []) cs))

-- The tokens, in order
unfoldable pub tokens : ℕ → List ℕ → List (List ℕ)
unfolding tokens_from
tokens sep s = tokens_from sep [] s

-- The text up to the next separator
unfoldable pub until_sep : ℕ → List ℕ → List ℕ
until_sep sep [] = []
until_sep sep (c ∷ cs) = if c == sep then [] else c ∷ until_sep sep cs

-- What the caller's text reads as afterwards: `strtok` has put a NUL behind the first token.
unfoldable pub after_strtok : ℕ → List ℕ → List ℕ
unfolding until_sep
after_strtok sep [] = []
after_strtok sep (c ∷ cs) = if c == sep then c ∷ after_strtok sep cs else c ∷ until_sep sep cs

-- A text of one token reads the same afterwards.
pub until_sep-NoSep : (sep : ℕ) (d : List ℕ) → NoSep sep d → until_sep sep d ≡ d
unfolding until_sep
until_sep-NoSep sep [] h = refl
until_sep-NoSep sep (c ∷ cs) h =
    rw (==_of_ne c sep h.0) (ap (λ t. c ∷ t) (until_sep-NoSep sep cs h.1))

pub after_strtok-NoSep : (sep : ℕ) (d : List ℕ) → NoSep sep d → after_strtok sep (sep ∷ d) ≡ sep ∷ d
unfolding after_strtok
after_strtok-NoSep sep [] h = rw ((==_iff sep sep).1 refl) refl
after_strtok-NoSep sep (c ∷ cs) h =
    rw ((==_iff sep sep).1 refl, ==_of_ne c sep h.0)
      (ap (λ t. sep ∷ c ∷ t) (until_sep-NoSep sep cs h.1))
