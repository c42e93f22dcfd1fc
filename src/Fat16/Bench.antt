-- ===== src/Fat16/Bench.antt =====
-- The tests of lab4/bench.h, and `test_read_path` of lab4/simple_fat16_new.c.
use os2021_labscript.Common.{
  ℕ, ◌==◌, if◌then◌else◌, same_text, Bool, true, false, List, [], ◌∷◌, length, Option,
}
use os2021_labscript.Common.Outcome.{Outcome, done, exit, undefined, ◌>>=◌}
use os2021_labscript.Fat16.Image.{Image, Buffer}
use os2021_labscript.Fat16.Volume.{Fat16, DirEntry, pre_init_fat16}
use os2021_labscript.Fat16.Table.{fat_entry_by_cluster}
use os2021_labscript.Fat16.Names.{path_split, path_decode}
use os2021_labscript.Fat16.Lookup.{strncmp_eq, find_root}
use os2021_labscript.Fat16.Read.{read_path}

-- What a test comes to
abbrev pub Test : Type 0
Test = Outcome (Unit {0})

-- `assert`; a failure ends the process by `abort`, whose status a shell shows as 134.
abbrev pub assert : Bool → Test
assert true = done tt
assert false = exit 134

-- `strcmp(text, array) == 0`, where the array may hold no NUL: a comparison that comes to its end
-- reads behind it.
unfoldable pub strcmp_eq : List ℕ → List ℕ → Outcome Bool
strcmp_eq text [] = undefined
strcmp_eq [] (b ∷ bs) = done (b == 0)
strcmp_eq (a ∷ text) (b ∷ bs) =
    let rest = strcmp_eq text bs in
    if a == b then (if a == 0 then done true else rest) else done false

-- A loop over the cases of a test
abbrev pub for_each {ℓ} : {A : Type ℓ} → (A → Test) → List A → Test
for_each f [] = done tt
for_each f (a ∷ cases) = do u ← f a; for_each f cases

-- The names compared with `sr[i]`
abbrev pub check_names : List (List ℕ) → List (List ℕ) → Test
check_names [] ss = done tt
check_names (n ∷ ns) [] = undefined
check_names (n ∷ ns) (s ∷ ss) = do same ← strcmp_eq n s; u ← assert same; check_names ns ss

abbrev pub split_case : (ℕ → List ℕ) → List ℕ × List (List ℕ) → Test
split_case raw (path, names) = do
  ss ← path_split raw path
  u ← assert (length ss == length names)
  check_names names ss

unfoldable pub test_path_split : (ℕ → List ℕ) → Test
unfolding path_split strcmp_eq
test_path_split raw = for_each (split_case raw) (
    (
      (b'/' ∷ b't' ∷ b'e' ∷ b'x' ∷ b't' ∷ b's' ∷ []),
      ((b'T' ∷ b'E' ∷ b'X' ∷ b'T' ∷ b'S' ∷ b' ' ∷ b' ' ∷ b' ' ∷ b' ' ∷ b' ' ∷ b' ' ∷ []) ∷ []),
    )
    ∷ (
      (b'/' ∷ b'd' ∷ b'i' ∷ b'r' ∷ b'1' ∷ b'/' ∷ b'd' ∷ b'i' ∷ b'r' ∷ b'2' ∷ b'/' ∷ b'f' ∷ b'i'
          ∷ b'l' ∷ b'e' ∷ b'.' ∷ b't' ∷ b'x' ∷ b't' ∷ []),
      ((b'D' ∷ b'I' ∷ b'R' ∷ b'1' ∷ b' ' ∷ b' ' ∷ b' ' ∷ b' ' ∷ b' ' ∷ b' ' ∷ b' ' ∷ [])
          ∷ (b'D' ∷ b'I' ∷ b'R' ∷ b'2' ∷ b' ' ∷ b' ' ∷ b' ' ∷ b' ' ∷ b' ' ∷ b' ' ∷ b' ' ∷ [])
          ∷ (b'F' ∷ b'I' ∷ b'L' ∷ b'E' ∷ b' ' ∷ b' ' ∷ b' ' ∷ b' ' ∷ b'T' ∷ b'X' ∷ b'T' ∷ [])
          ∷ []),
    )
    ∷ (
      (b'/' ∷ b'.' ∷ b'T' ∷ b'r' ∷ b'a' ∷ b's' ∷ b'h' ∷ b'-' ∷ b'1' ∷ b'0' ∷ b'0' ∷ []),
      ((b' ' ∷ b' ' ∷ b' ' ∷ b' ' ∷ b' ' ∷ b' ' ∷ b' ' ∷ b' ' ∷ b'T' ∷ b'R' ∷ b'A' ∷ []) ∷ []),
    )
    ∷ [])

unfoldable pub test_path_decode : Test
unfolding path_decode
test_path_decode =
    for_each (λ (s, sr). assert (same_text (path_decode s) sr))
      ((
        (b'.' ∷ b'.' ∷ b' ' ∷ b' ' ∷ b' ' ∷ b' ' ∷ b' ' ∷ b' ' ∷ b' ' ∷ b' ' ∷ []),
        (b'.' ∷ b'.' ∷ []),
      )
        ∷ (
          (b'F' ∷ b'I' ∷ b'L' ∷ b'E' ∷ b' ' ∷ b' ' ∷ b' ' ∷ b' ' ∷ b'T' ∷ b'X' ∷ b'T' ∷ []),
          (b'f' ∷ b'i' ∷ b'l' ∷ b'e' ∷ b'.' ∷ b't' ∷ b'x' ∷ b't' ∷ []),
        )
        ∷ (
          (b'A' ∷ b'B' ∷ b'C' ∷ b'D' ∷ b' ' ∷ b' ' ∷ b' ' ∷ b' ' ∷ b'R' ∷ b'M' ∷ b' ' ∷ []),
          (b'a' ∷ b'b' ∷ b'c' ∷ b'd' ∷ b'.' ∷ b'r' ∷ b'm' ∷ []),
        )
        ∷ [])

-- The image is the file that `FAT_FILE_NAME` names.
unfoldable pub test_pre_init_fat16 : Option Image → Test
unfolding pre_init_fat16
test_pre_init_fat16 file = do
  v ← pre_init_fat16 file
  a ← assert (v.first_root_dir_sec_num == 124)
  b ← assert (v.first_data_sector == 156)
  c ← assert (v.bpb.rsvd_sec_cnt == 4)
  d ← assert (v.bpb.root_ent_cnt == 512)
  e ← assert (v.bpb.boot_sig == 41)
  f ← assert (v.bpb.voll_id == 1576933109)
  assert (v.bpb.signature_word == 43605)

unfoldable pub test_fat_entry_by_cluster : Option Image → Test
unfolding pre_init_fat16
test_fat_entry_by_cluster file = do
  v ← pre_init_fat16 file
  for_each (λ (cn, ce). assert (fat_entry_by_cluster v cn == ce))
      ((1, 65535) ∷ (2, 0) ∷ (4, 65535) ∷ [])

-- What a test looks up: the path, the name in 11 bytes, the tenths of a second, the first cluster
-- and the size
abbrev pub Case : Type 0
Case = List ℕ × List ℕ × ℕ × ℕ × ℕ

abbrev pub find_case : ℕ → (ℕ → List ℕ) → DirEntry → Fat16 → Case → Test
find_case fuel raw dir v (path, name, tenth, cluster, size) = do
  r ← find_root fuel raw v dir path
  a ← assert (strncmp_eq 11 r.1.name name)
  b ← assert (r.1.crt_time_tenth == tenth)
  c ← assert (r.1.fst_clus_lo == cluster)
  assert (r.1.file_size == size)

unfoldable pub test_find_root : ℕ → (ℕ → List ℕ) → DirEntry → Option Image → Test
unfolding pre_init_fat16 find_root strncmp_eq
test_find_root fuel raw dir file = do
  v ← pre_init_fat16 file
  for_each (find_case fuel raw dir v) (
      (
        (b'/' ∷ b'd' ∷ b'i' ∷ b'r' ∷ b'1' ∷ []),
        (b'D' ∷ b'I' ∷ b'R' ∷ b'1' ∷ b' ' ∷ b' ' ∷ b' ' ∷ b' ' ∷ b' ' ∷ b' ' ∷ b' ' ∷ []),
        100,
        4,
        0,
      )
      ∷ (
        (b'/' ∷ b'm' ∷ b'a' ∷ b'k' ∷ b'e' ∷ b'f' ∷ b'i' ∷ b'l' ∷ b'e' ∷ []),
        (b'M' ∷ b'A' ∷ b'K' ∷ b'E' ∷ b'F' ∷ b'I' ∷ b'L' ∷ b'E' ∷ b' ' ∷ b' ' ∷ b' ' ∷ []),
        100,
        8,
        226,
      )
      ∷ (
        (b'/' ∷ b'l' ∷ b'o' ∷ b'g' ∷ b'.' ∷ b'c' ∷ []),
        (b'L' ∷ b'O' ∷ b'G' ∷ b' ' ∷ b' ' ∷ b' ' ∷ b' ' ∷ b' ' ∷ b'C' ∷ b' ' ∷ b' ' ∷ []),
        100,
        3,
        517,
      )
      ∷ [])

unfoldable pub test_find_subdir : ℕ → (ℕ → List ℕ) → DirEntry → Option Image → Test
unfolding pre_init_fat16 find_root strncmp_eq
test_find_subdir fuel raw dir file = do
  v ← pre_init_fat16 file
  for_each (find_case fuel raw dir v) (
      (
        (b'/' ∷ b'd' ∷ b'i' ∷ b'r' ∷ b'1' ∷ b'/' ∷ b'd' ∷ b'i' ∷ b'r' ∷ b'2' ∷ []),
        (b'D' ∷ b'I' ∷ b'R' ∷ b'2' ∷ b' ' ∷ b' ' ∷ b' ' ∷ b' ' ∷ b' ' ∷ b' ' ∷ b' ' ∷ []),
        100,
        5,
        0,
      )
      ∷ (
        (b'/' ∷ b'd' ∷ b'i' ∷ b'r' ∷ b'1' ∷ b'/' ∷ b'd' ∷ b'i' ∷ b'r' ∷ b'2' ∷ b'/' ∷ b'd' ∷ b'i'
            ∷ b'r' ∷ b'3' ∷ []),
        (b'D' ∷ b'I' ∷ b'R' ∷ b'3' ∷ b' ' ∷ b' ' ∷ b' ' ∷ b' ' ∷ b' ' ∷ b' ' ∷ b' ' ∷ []),
        0,
        6,
        0,
      )
      ∷ (
        (b'/' ∷ b'd' ∷ b'i' ∷ b'r' ∷ b'1' ∷ b'/' ∷ b'd' ∷ b'i' ∷ b'r' ∷ b'2' ∷ b'/' ∷ b'd' ∷ b'i'
            ∷ b'r' ∷ b'3' ∷ b'/' ∷ b't' ∷ b'e' ∷ b's' ∷ b't' ∷ b'.' ∷ b'c' ∷ []),
        (b'T' ∷ b'E' ∷ b'S' ∷ b'T' ∷ b' ' ∷ b' ' ∷ b' ' ∷ b' ' ∷ b'C' ∷ b' ' ∷ b' ' ∷ []),
        0,
        7,
        517,
      )
      ∷ [])

-- `memory` is what `malloc` left in the sectors' buffer; the caller's buffer holds what is read.
unfoldable pub test_read_path : ℕ → (ℕ → List ℕ) → DirEntry → Buffer → Option Image → Test
unfolding pre_init_fat16 strncmp_eq
test_read_path fuel raw dir memory file = do
  v ← pre_init_fat16 file
  for_each
      (λ (path, size, offset, text). do
        r ← read_path fuel raw dir memory v path size offset
        assert (strncmp_eq size r.1 text))
      ((
        (b'/' ∷ b'M' ∷ b'a' ∷ b'k' ∷ b'e' ∷ b'f' ∷ b'i' ∷ b'l' ∷ b'e' ∷ []),
        32,
        8,
        (b'(' ∷ b's' ∷ b'h' ∷ b'e' ∷ b'l' ∷ b'l' ∷ b' ' ∷ b'p' ∷ b'k' ∷ b'g' ∷ b'-' ∷ b'c' ∷ b'o'
            ∷ b'n' ∷ b'f' ∷ b'i' ∷ b'g' ∷ b' ' ∷ b'f' ∷ b'u' ∷ b's' ∷ b'e' ∷ b' ' ∷ b'-' ∷ b'-'
            ∷ b'c' ∷ b'f' ∷ b'l' ∷ b'a' ∷ b'g' ∷ b's' ∷ b')' ∷ []),
      )
        ∷ (
          (b'/' ∷ b'l' ∷ b'o' ∷ b'g' ∷ b'.' ∷ b'c' ∷ []),
          9,
          9,
          (b'<' ∷ b'e' ∷ b'r' ∷ b'r' ∷ b'n' ∷ b'o' ∷ b'.' ∷ b'h' ∷ b'>' ∷ []),
        )
        ∷ (
          (b'/' ∷ b'd' ∷ b'i' ∷ b'r' ∷ b'1' ∷ b'/' ∷ b'd' ∷ b'i' ∷ b'r' ∷ b'2' ∷ b'/' ∷ b'd' ∷ b'i'
              ∷ b'r' ∷ b'3' ∷ b'/' ∷ b't' ∷ b'e' ∷ b's' ∷ b't' ∷ b'.' ∷ b'c' ∷ []),
          9,
          9,
          (b'<' ∷ b'e' ∷ b'r' ∷ b'r' ∷ b'n' ∷ b'o' ∷ b'.' ∷ b'h' ∷ b'>' ∷ []),
        )
        ∷ [])
