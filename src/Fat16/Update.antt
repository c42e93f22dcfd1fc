-- ===== src/Fat16/Update.antt =====
-- The operations of lab4/simple_fat16_new.c that change directory entries: `dir_entry_create`,
-- `fat16_mknod`, `fat16_unlink` and `edit_size`.
pub mod Entries
pub mod InRoot
pub mod Times
use os2021_labscript.Common.{
  ℕ, ◌+◌, ◌-◌, ◌*◌, ◌/◌, ◌^◌, ◌==◌, if◌then◌else◌, List, [], ◌∷◌, ◌++◌, Option, none, some, take,
  replicate,
}
use os2021_labscript.Common.Outcome.{Outcome, done, undefined, ◌>>=◌}
use os2021_labscript.Fat16.Image.{word, dword, bytes_of_word, bytes_of_dword, store}
use os2021_labscript.Fat16.Volume.{Fat16, DirEntry, attr_archive}
use os2021_labscript.Fat16.Table.{find_empty_cluster, cluster_is_empty, free_chain}
use os2021_labscript.Fat16.Paths.{depth, org_path_split, get_prt_path}
use os2021_labscript.Fat16.Names.{path_split}
use os2021_labscript.Fat16.Lookup.{find_root}
use os2021_labscript.Fat16.Locate.{
  Slot, slot_position, is_root_path, locate, free_in_root, free_in_dir,
}

-- What an operation returns: 0, `-ENOENT`, or 1
pub data Code : Type 0 where
  success : Code
  enoent : Code
  one : Code

-- `struct tm`, as `localtime` fills it
pub record Tm : Type 0 where
  pub tm_sec : ℕ
  pub tm_min : ℕ
  pub tm_hour : ℕ
  pub tm_mday : ℕ
  pub tm_mon : ℕ
  pub tm_year : ℕ

-- `update_time`, a WORD
unfoldable pub update_time : Tm → ℕ
update_time t = word (t.tm_hour * 2048 + t.tm_min * 32 + t.tm_sec / 2)

-- `update_year`, a WORD: `(tm_year - 2000) * 512 + tm_mon * 32 + tm_mday`
unfoldable pub update_year : Tm → ℕ
update_year t = word (t.tm_year * 512 + t.tm_mon * 32 + t.tm_mday + 2 ^ 32 - 2000 * 512)

-- The 32 bytes of `entry_info`
unfoldable pub entry_info : Tm → List ℕ → (attr first_cluster file_size : ℕ) → List ℕ
unfolding update_time update_year
entry_info now name attr first_cluster file_size =
    take 11 name
    ++ ((attr ∷ replicate 10 0)
        ++ (bytes_of_word (update_time now)
            ++ (bytes_of_word (update_year now)
                ++ (bytes_of_word first_cluster ++ bytes_of_dword file_size))))

unfoldable pub dir_entry_create :
    Tm → Fat16 → Slot → List ℕ → (attr first_cluster file_size : ℕ) → Fat16
unfolding entry_info slot_position
dir_entry_create now v s name attr first_cluster file_size = record v {
  image = store v.image (slot_position v s) (entry_info now name attr first_cluster file_size);
}

-- `path_test[j - 1]`
unfoldable pub last_name : List (List ℕ) → Outcome (List ℕ)
last_name [] = undefined
last_name (n ∷ []) = done n
last_name (n ∷ m ∷ ms) = last_name (m ∷ ms)

-- `findFlag == 1`: the entry is written, and its cluster is marked as the end of a chain.
unfoldable pub create_at : (ℕ → List ℕ) → Tm → Fat16 → List ℕ → Slot → Outcome Fat16
unfolding last_name dir_entry_create
create_at raw now v path s = do
  names ← path_split raw path
  cluster ← find_empty_cluster v
  name ← last_name names
  done (cluster_is_empty (dir_entry_create now v s name attr_archive cluster 0) cluster 0xffff).0

-- A directory with no free entry is left as it is.
unfoldable pub create_opt :
    (ℕ → List ℕ) → Tm → Fat16 → List ℕ → Option Slot → Outcome (Fat16 × Code)
unfolding create_at
create_opt raw now v path none = done (v, success)
create_opt raw now v path (some s) = do v' ← create_at raw now v path s; done (v', success)

-- `heap k` is the memory that the `k`-th call of `path_split` allocates, `dir` an entry that is
-- not set yet.
unfoldable pub fat16_mknod :
    ℕ → (ℕ → ℕ → List ℕ) → DirEntry → Tm → Fat16 → List ℕ → Outcome (Fat16 × Code)
unfolding create_opt
fat16_mknod fuel heap dir now v path = do
  prt ← get_prt_path path (org_path_split path) (depth path)
  if is_root_path prt then create_opt (heap 0) now v path (free_in_root v dir) else do
    parent ← find_root fuel (heap 0) v dir prt
    if parent.0 == 0
        then (do s ← free_in_dir fuel v parent.1; create_opt (heap 1) now v path s)
        else done (v, enoent)

-- The first byte of the entry becomes 0xe5.
unfoldable pub mark_deleted : Fat16 → Option Slot → Fat16
unfolding slot_position
mark_deleted v none = v
mark_deleted v (some s) = record v { image = store v.image (slot_position v s) (0xe5 ∷ []) }

-- The clusters are freed before the entry is looked for.
unfoldable pub fat16_unlink :
    ℕ → (ℕ → ℕ → List ℕ) → DirEntry → Fat16 → List ℕ → Outcome (Fat16 × Code)
unfolding mark_deleted
fat16_unlink fuel heap dir v path = do
  r ← find_root fuel (heap 0) v dir path
  if r.0 == 1 then done (v, one) else do
    v' ← free_chain fuel v r.1.fst_clus_lo
    s ← locate fuel (heap 1) v' dir path
    done (mark_deleted v' s, success)

unfoldable pub store_size : Fat16 → ℕ → Option Slot → Fat16
unfolding slot_position
store_size v size none = v
store_size v size (some s) = record v {
  image = store v.image (dword (slot_position v s + 28)) (bytes_of_dword size);
}

-- The size is a DWORD.
unfoldable pub edit_size : ℕ → (ℕ → List ℕ) → DirEntry → Fat16 → List ℕ → ℕ → Outcome Fat16
unfolding store_size
edit_size fuel raw dir v path size = do
  s ← locate fuel raw v dir path
  done (store_size v (dword size) s)
