-- ===== src/Fat16/FileMap/Requests.antt =====
-- Requests to the file system of lab4/simple_fat16_new.c, one after the other, and what they
-- promise about the map of files.
use os2021_labscript.Common.{ℕ, ◌+◌, ◌≤◌, ◌<◌, ◌≡◌, ◌⊎◌, List, [], ◌∷◌, length, Option, some, none}
use os2021_labscript.Common.Outcome.{Outcome, done, ◌>>=◌}
use os2021_labscript.Fat16.Volume.{Fat16, DirEntry}
use os2021_labscript.Fat16.Update.{Tm, fat16_mknod, fat16_unlink}
use os2021_labscript.Fat16.Write.{write_path}
use os2021_labscript.Fat16.Files.Names.{NamesFile}
use os2021_labscript.Fat16.FileMap.{Node, file, other, FileMap, update, IsPlain, path_of}
use os2021_labscript.Fat16.FileMap.Write.{written}

-- A call of `fat16_mknod`, `write_path` or `fat16_unlink` on a name of the root directory
pub data Request : Type 0 where
  make : Tm → (name : List ℕ) → Request
  write : (name : List ℕ) → (offset : ℕ) → (bytes : List ℕ) → Request
  unlink : (name : List ℕ) → Request

-- The code run on the volume; what the call returns is not looked at.
unfoldable pub serve : ℕ → (ℕ → ℕ → List ℕ) → DirEntry → Fat16 → Request → Outcome Fat16
serve fuel heap dir v (make now n) = do r ← fat16_mknod fuel heap dir now v (path_of n); done r.0
serve fuel heap dir v (write n offset bs) = do
  r ← write_path fuel heap dir v (path_of n) (length bs) offset bs
  done r.0
serve fuel heap dir v (unlink n) = do r ← fat16_unlink fuel heap dir v (path_of n); done r.0

unfoldable pub serve_all : ℕ → (ℕ → ℕ → List ℕ) → DirEntry → Fat16 → List Request → Outcome Fat16
unfolding serve
serve_all fuel heap dir v [] = done v
serve_all fuel heap dir v (r ∷ rs) = do v' ← serve fuel heap dir v r; serve_all fuel heap dir v' rs

abbrev pub node_written : (offset : ℕ) → List ℕ → Option Node → Option Node
node_written offset bs none = none
node_written offset bs (some (file old)) = some (file (written old offset bs))
node_written offset bs (some other) = some other

-- What a request does to the map
abbrev pub apply : Request → FileMap → FileMap
apply (make now n) fs = update fs n (some (file []))
apply (write n offset bs) fs = update fs n (node_written offset bs (fs n))
apply (unlink n) fs = update fs n none

abbrev pub apply_all : List Request → FileMap → FileMap
apply_all [] fs = fs
apply_all (r ∷ rs) fs = apply_all rs (apply r fs)

-- A name that a directory can hold as it is
abbrev pub IsShort : List ℕ → Type 0
IsShort n = IsPlain n × ((name : List ℕ) × NamesFile (path_of n) n name)

-- The requests that the map allows, with clusters of `per` bytes: a new name is made; a file is
-- written from a place inside it, up to the end of its cluster; a file or a missing name is
-- unlinked.
abbrev pub Allowed : (per : ℕ) → FileMap → Request → Type 0
Allowed per fs (make now n) = IsShort n × (fs n ≡ none)
Allowed per fs (write n offset bs) =
    (old : List ℕ) × (fs n ≡ some (file old))
    × (offset ≤ length old)
    × (0 < length bs)
    × (offset + length bs ≤ per)
Allowed per fs (unlink n) = ((bs : List ℕ) × (fs n ≡ some (file bs))) ⊎ (IsShort n × (fs n ≡ none))

abbrev pub AllAllowed : (per : ℕ) → FileMap → List Request → Type 0
AllAllowed per fs [] = Unit {0}
AllAllowed per fs (r ∷ rs) = Allowed per fs r × AllAllowed per (apply r fs) rs

-- How many files the requests make
abbrev pub cost : Request → ℕ
cost (make now n) = 1
cost (write n offset bs) = 0
cost (unlink n) = 0

abbrev pub makes : List Request → ℕ
makes [] = 0
makes (r ∷ rs) = cost r + makes rs
