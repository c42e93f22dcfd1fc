-- ===== src/Fat16/FileMap.antt =====
-- What the root directory of lab4/simple_fat16_new.c promises: a map from names to the bytes of
-- files. The map, the requests on it, and when a volume holds it.
pub mod Entries
pub mod Change
pub mod Make
pub mod Room
pub mod Requests
pub mod Run
pub mod Stat
pub mod Read
pub mod Write
pub mod Unlink
use os2021_labscript.Common.{
  ℕ, ◌+◌, ◌≤◌, ◌<◌, ◌≡◌, ◌≢◌, false, true, if◌then◌else◌, same_text, List, [], ◌∷◌, ◌++◌, Option,
  none, some, length, get_or, take, drop,
}
use os2021_labscript.Fat16.Volume.{Fat16, attr_archive}
use os2021_labscript.Fat16.Table.{fat_entry_by_cluster}
use os2021_labscript.Fat16.Paths.{slash}
use os2021_labscript.Fat16.Names.{path_decode}
use os2021_labscript.Fat16.Scan.Root.{root_entry}
use os2021_labscript.Fat16.Locate.{is_free}
use os2021_labscript.Fat16.Attr.{is_listed}
use os2021_labscript.Fat16.Write.{cluster_bytes}
use os2021_labscript.Fat16.Files.Layout.{Layout}
use os2021_labscript.Fat16.Files.Names.{NamesFile}
use os2021_labscript.Fat16.Files.Stored.{data_place}
use os2021_labscript.Fat16.Files.Write.{IsSmall}
use os2021_labscript.Fat16.Files.NameSet.{IsClosed}

-- What a name stands for: a file with its bytes, or an entry of another kind, left as it is
pub data Node : Type 0 where
  file : List ℕ → Node
  other : Node

abbrev pub FileMap : Type 0
FileMap = List ℕ → Option Node

abbrev pub update : FileMap → List ℕ → Option Node → FileMap
update fs n o m = if same_text n m then o else fs m

-- The first byte of a name is neither NUL nor the mark of a deleted entry.
abbrev pub IsPlain : List ℕ → Type 0
IsPlain [] = ⊥
IsPlain (x ∷ xs) = (x ≢ 0) × (x ≢ 0xe5)

abbrev pub path_of : List ℕ → List ℕ
path_of n = slash ∷ n

-- Entry `k` of the root directory is the file `n`, of one cluster, with the bytes `bs`.
pub record FileAt (v : Fat16) (top : ℕ) (n bs : List ℕ) (k : ℕ) : Type 0 where
  pub below : k < v.bpb.root_ent_cnt
  pub names : NamesFile (path_of n) n (root_entry v k).name
  pub plain : IsPlain n
  pub archive : (root_entry v k).attr ≡ attr_archive
  pub small : IsSmall v top k (root_entry v k).fst_clus_lo
  pub taken : fat_entry_by_cluster v (root_entry v k).fst_clus_lo ≢ 0
  pub size : (root_entry v k).file_size ≡ length bs
  pub fits : length bs ≤ cluster_bytes v
  pub bytes :
      (i : ℕ)
      → i < length bs
      → v.image (data_place v (root_entry v k).fst_clus_lo i) ≡ get_or bs i 0

-- Entry `k` of the root directory is in use under the name `n`, and is listed.
pub record EntryAt (v : Fat16) (n : List ℕ) (k : ℕ) : Type 0 where
  pub below : k < v.bpb.root_ent_cnt
  pub used : is_free (root_entry v k) ≡ false
  pub named : path_decode (root_entry v k).name ≡ n
  pub listed : is_listed (root_entry v k) ≡ true

abbrev pub NodeAt : Fat16 → ℕ → List ℕ → ℕ → Node → Type 0
NodeAt v top n k (file bs) = FileAt v top n bs k
NodeAt v top n k other = EntryAt v n k

-- The name of entry `k`, as the program shows it
abbrev pub decoded : Fat16 → ℕ → List ℕ
decoded v k = path_decode (root_entry v k).name

-- The cluster of entry `k`
abbrev pub cluster_at : Fat16 → ℕ → ℕ
cluster_at v k = (root_entry v k).fst_clus_lo

-- The volume holds the map, each name at its place: every entry in use is the one of its name, no
-- two files share a cluster, and behind an entry that ends the directory none is in use.
pub record Holds (v : Fat16) (top : ℕ) (fs : FileMap) (place : List ℕ → ℕ) : Type 0 where
  pub layout : Layout v top
  pub closed : IsClosed v
  pub at : (n : List ℕ) (node : Node) → fs n ≡ some node → NodeAt v top n (place n) node
  pub all :
      (k : ℕ)
      → k < v.bpb.root_ent_cnt
      → is_free (root_entry v k) ≡ false
      → (node : Node) × (fs (decoded v k) ≡ some node) × (place (decoded v k) ≡ k)
  pub apart :
      (n m bs cs : List ℕ)
      → fs n ≡ some (file bs)
      → fs m ≡ some (file cs)
      → n ≢ m
      → cluster_at v (place n) ≢ cluster_at v (place m)
