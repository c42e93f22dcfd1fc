-- ===== src/Fat16/Names.antt =====
-- Names of directory entries: `path_split` and `path_decode` of lab4/simple_fat16_new.c.
pub mod Convert
pub mod Decode
pub mod Split
pub mod RoundTrip
pub mod Safe
use os2021_labscript.Common.{
  ℕ, zero, suc, ◌+◌, ◌-◌, ◌==◌, ltb, leb, if◌then◌else◌, Bool, true, false, not, ◌&&◌, List, [],
  ◌∷◌, Option, none, some, set, get_or,
}
use os2021_labscript.Common.Outcome.{Outcome, done, exit, undefined, ◌>>=◌}
use os2021_labscript.Common.Strtok.{tokens}
use os2021_labscript.Fat16.Paths.{slash, depth, slots}

abbrev pub space : ℕ
space = b' '

abbrev pub dot : ℕ
dot = b'.'

-- The `char` is lower case: 'a' to 'z', 32 above its capital.
unfoldable pub to_upper : ℕ → ℕ
to_upper c = if leb b'a' c && leb c b'z' then c - 32 else c

-- The array of 11 bytes with the byte at `k` set; `k` must lie inside.
abbrev pub put_cell : List ℕ → ℕ → ℕ → Outcome (List ℕ)
put_cell cells k c = if ltb k 11 then done (set cells k c) else undefined

-- `for (; k < end; k++) path_transform[i][k] = ' ';` over the `n` places that are left
unfoldable pub fill : ℕ → ℕ → List ℕ → Outcome (List ℕ)
fill zero k cells = done cells
fill (suc n) k cells = do cells' ← put_cell cells k space; fill n (k + 1) cells'

-- `paths[i][j + 1] == '\0'`
abbrev pub is_end : List ℕ → Bool
is_end [] = true
is_end (d ∷ ds) = false

-- `paths[i][j + 1] == '.' && paths[i][j + 2] == '\0'`
abbrev pub is_dot : List ℕ → Bool
is_dot [] = false
is_dot (d ∷ ds) = (d == dot) && is_end ds

-- The array with the flag as the loop leaves it
abbrev pub Converted : Type 0
Converted = List ℕ × Bool

-- The inner loop over `paths[i][j]`. `first` says that `j == 0`; the list is what is left.
unfoldable pub convert :
    Bool → List ℕ → (cells : List ℕ) (k name_len ext_len : ℕ) (flag : Bool) → Outcome Converted
unfolding fill to_upper
convert first [] cells k name_len ext_len flag = do
  cells' ← fill (11 - k) k cells
  done (cells', flag)
convert first (c ∷ cs) cells k name_len ext_len flag =
    let one_dot = (do
      cells' ← put_cell cells 0 dot
      filled ← fill 10 1 cells'
      done (filled, flag)) in
    let two_dots = (do
      cells' ← put_cell cells 0 dot
      both ← put_cell cells' 1 dot
      filled ← fill 9 2 both
      done (filled, flag)) in
    let after_dot = (do
      cells' ← fill (8 - k) k cells
      convert false cs cells' 8 name_len ext_len true) in
    let skip_char = convert false cs cells 8 name_len ext_len flag in
    let after_name = (do
      cells' ← put_cell cells k (to_upper c)
      convert false cs cells' (k + 1) (name_len + 1) ext_len flag) in
    let after_ext = (do
      cells' ← put_cell cells k (to_upper c)
      convert false cs cells' (k + 1) name_len (ext_len + 1) flag) in
    if c == dot
    then (if first && is_end cs
        then one_dot
        else if first && is_dot cs
        then two_dots
        else if flag
        then exit 1
        else if is_end cs
        then exit 1
        else after_dot)
    else if (name_len == 8) && not flag
    then skip_char
    else if ext_len == 3
    then done (cells, flag)
    else if flag
    then after_ext
    else after_name

-- The loop over the components. `raw i` is what `malloc` left in the array of component `i`; a
-- component that `strtok` did not find is a null pointer.
unfoldable pub convert_all :
    (ℕ → List ℕ) → ℕ → List (Option (List ℕ)) → Bool → Outcome (List (List ℕ))
convert_all raw i [] flag = done []
convert_all raw i (none ∷ ss) flag = undefined
convert_all raw i (some t ∷ ss) flag = do
  r ← convert true t (raw i) 0 0 0 flag
  names ← convert_all raw (i + 1) ss r.1
  done (r.0 ∷ names)

-- `*pathDepth_ret` is the length of the result.
unfoldable pub path_split : (ℕ → List ℕ) → List ℕ → Outcome (List (List ℕ))
unfolding convert_all slots tokens depth
path_split raw path = convert_all raw 0 (slots (depth path) (tokens slash path)) false

-- `path[i] - 'A' + 'a'` for a capital
unfoldable pub to_lower : ℕ → ℕ
to_lower c = if leb b'A' c && leb c b'Z' then c - b'A' + b'a' else c

-- The loop from `i` on; the result is what it appends to `pathDecoded`.
unfoldable pub decode_from : ℕ → List ℕ → List ℕ
unfolding to_lower
decode_from i [] = []
decode_from i (c ∷ cs) =
    let rest = decode_from (i + 1) cs in
    if c == space then rest else if i == 8 then dot ∷ to_lower c ∷ rest else to_lower c ∷ rest

unfoldable pub path_decode : List ℕ → List ℕ
unfolding decode_from
path_decode path =
    if (get_or path 0 0 == dot) && (get_or path 1 0 == dot) && (get_or path 2 0 == space)
    then dot ∷ dot ∷ []
    else if (get_or path 0 0 == dot) && (get_or path 1 0 == space)
    then dot ∷ []
    else decode_from 0 path
