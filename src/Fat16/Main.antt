-- ===== src/Fat16/Main.antt =====
-- `main` of lab4/simple_fat16_new.c, and the functions that only hand over to FUSE or from it.
use os2021_labscript.Common.{ℕ, if◌then◌else◌, same_text, List, [], ◌∷◌, Option}
use os2021_labscript.Common.Outcome.{Outcome, exit, undefined, ◌>>=◌}
use os2021_labscript.Fat16.Image.{Image, Buffer}
use os2021_labscript.Fat16.Volume.{Fat16, DirEntry, pre_init_fat16}
use os2021_labscript.Fat16.Read.{read_path}
use os2021_labscript.Fat16.Write.{write_path}
use os2021_labscript.Fat16.Bench.{
  test_path_split, test_pre_init_fat16, test_fat_entry_by_cluster, test_find_subdir,
}

-- The functions that hand over to another one, with the volume that FUSE keeps for them
unfoldable pub fat16_read :
    ℕ → (ℕ → List ℕ) → DirEntry → Buffer → Fat16 → List ℕ → (size offset : ℕ) → Outcome (ℕ × List ℕ)
fat16_read fuel raw dir memory v path size offset = read_path fuel raw dir memory v path size offset

unfoldable pub fat16_write :
    ℕ
    → (ℕ → ℕ → List ℕ)
    → DirEntry
    → Fat16
    → (path buffer : List ℕ) (size offset : ℕ) → Outcome (Fat16 × ℕ)
fat16_write fuel heap dir v path buffer size offset =
    write_path fuel heap dir v path size offset buffer

-- What FUSE keeps as the private data
unfoldable pub fat16_init : Fat16 → Fat16
fat16_init private_data = private_data

unfoldable pub fat16_utimens : Fat16 → List ℕ → ℕ
fat16_utimens v path = 0

-- `argv` holds the arguments before its null pointer. `fuse_main` runs the operations on the volume
-- and returns a status; `test_image` is fat16_test.img and `file` the image of the file system.
unfoldable pub main :
    (fuse_main : Fat16 → Outcome ℕ)
    → ℕ
    → (ℕ → List ℕ)
    → DirEntry
    → (argv : List (List ℕ)) (test_image file : Option Image) → Outcome ℕ
unfolding fat16_init test_path_split test_pre_init_fat16 test_fat_entry_by_cluster test_find_subdir
main fuse_main fuel raw dir [] test_image file = undefined
main fuse_main fuel raw dir (program ∷ []) test_image file = undefined
main fuse_main fuel raw dir (program ∷ arg ∷ args) test_image file =
    if same_text arg (b'-' ∷ b'-' ∷ b't' ∷ b'e' ∷ b's' ∷ b't' ∷ [])
    then (do
      a ← test_path_split raw
      b ← test_pre_init_fat16 test_image
      c ← test_fat_entry_by_cluster test_image
      d ← test_find_subdir fuel raw dir test_image
      exit 0)
    else (do v ← pre_init_fat16 file; fuse_main (fat16_init v))
