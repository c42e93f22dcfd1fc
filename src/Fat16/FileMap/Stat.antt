-- ===== src/Fat16/FileMap/Stat.antt =====
-- What `fat16_getattr` of lab4/simple_fat16_new.c shows of the map of files.
use os2021_labscript.Common.{
  ℕ, ◌*◌, ◌<◌, ◌≡◌, ◌≢◌, refl, ap, arith, ==_of_ne, ◌==◌, if◌then◌else◌, same_text, false, List, [],
  ◌∷◌, length, Option, none, some,
}
use mathlib.Core.Path.{subst}
use os2021_labscript.Common.Outcome.{done}
use os2021_labscript.Fat16.Image.{bytes_per_sector}
use os2021_labscript.Fat16.Volume.{Fat16, DirEntry, attr_directory}
use os2021_labscript.Fat16.Paths.{slash}
use os2021_labscript.Fat16.Names.Split.{IsRaw}
use os2021_labscript.Fat16.Scan.Root.{root_entry}
use os2021_labscript.Fat16.Write.{cluster_bytes}
use os2021_labscript.Fat16.Update.{Tm}
use os2021_labscript.Fat16.Attr.{Stat, file_mode, dir_mode, block_count, entry_stat, fat16_getattr}
use os2021_labscript.Fat16.Attr.Blocks.{IsCeiling, block_count-IsCeiling}
use os2021_labscript.Fat16.Files.Search.{find_root-file, find_root_missing}
use os2021_labscript.Fat16.FileMap.{Node, file, FileMap, IsPlain, path_of, FileAt, Holds}
use os2021_labscript.Fat16.FileMap.Requests.{IsShort}
use os2021_labscript.Fat16.FileMap.Entries.{place-IsFile, missing-NoFile}

-- The attributes of a regular file with these bytes: its size, and as many blocks as it fills,
-- at least in part
pub record IsStatOf (bs : List ℕ) (s : Stat) : Type 0 where
  pub mode : s.st_mode ≡ file_mode 0o755
  pub size : s.st_size ≡ length bs
  pub blocks : IsCeiling (length bs) s.st_blksize s.st_blocks

-- What is found for a file, and for a name that the map does not have
abbrev pub Shows : Option (List ℕ) → Option Stat → Type 0
Shows (some bs) (some s) = IsStatOf bs s
Shows none none = Unit {0}
Shows (some bs) none = ⊥
Shows none (some s) = ⊥

abbrev pub file_or_none : Option (List ℕ) → Option Node
file_or_none (some bs) = some (file bs)
file_or_none none = none

not_root : (n : List ℕ) → IsPlain n → same_text (path_of n) (slash ∷ []) ≡ false
not_root [] plain = absurd plain
not_root (x ∷ xs) plain = refl

module _ (mktime : Tm → ℕ) (uid gid fuel : ℕ) (raw : ℕ → List ℕ) (dir : DirEntry) (hr : IsRaw raw)
    {v : Fat16} {top : ℕ} {fs : FileMap} {place : List ℕ → ℕ} (h : Holds v top fs place)
    (some_bytes : 0 < cluster_bytes v) where
  abbrev Found : List ℕ → Option (List ℕ) → Type 0
  Found n o =
      (r : Option Stat) × (fat16_getattr mktime uid gid fuel raw dir v (path_of n) ≡ done r)
      × Shows o r

  getattr_file : (n bs : List ℕ) → fs n ≡ some (file bs) → Found n (some bs)
  unfolding fat16_getattr entry_stat
  getattr_file n bs is = (
    some (entry_stat mktime uid gid v (root_entry v (place n))),
    rw
        (
          not_root n at_n.plain,
          find_root-file at_n.names h.layout.mounted fuel raw dir (place n) hr
              (place-IsFile h n bs is),
          ==_of_ne v.bpb.sec_per_clus 0 some_sectors,
        )
        refl,
    record {
      mode = ap (λ t. if t == attr_directory then dir_mode 0o755 else file_mode 0o755) at_n.archive;
      size = at_n.size;
      blocks =
          subst
            (λ m. IsCeiling m (bytes_per_sector * v.bpb.sec_per_clus) (
              block_count (root_entry v (place n)).file_size
                (bytes_per_sector * v.bpb.sec_per_clus)))
            at_n.size
            (block_count-IsCeiling (root_entry v (place n)).file_size
              (bytes_per_sector * v.bpb.sec_per_clus) (omega (arith, sectors)));
    },
  )
    where
      at_n : FileAt v top n bs (place n)
      at_n = h.at n (file bs) is

      sectors : cluster_bytes v ≡ bytes_per_sector * v.bpb.sec_per_clus
      sectors = rw (h.layout.mounted.sector) (omega arith)

      some_sectors : v.bpb.sec_per_clus ≢ 0
      some_sectors z = let q : cluster_bytes v ≡ 0 = rw z (omega arith) in absurd (omega arith)

  -- On a volume that holds a map of files, with clusters of a byte at least and memory of 11 bytes
  -- for each name, for a name that a directory can hold and that stands in the map for a file or for
  -- nothing: `fat16_getattr` of its path returns, for a file, the attributes of a regular file with
  -- the number of its bytes as the size and the least number of blocks that hold them, and for
  -- nothing `-ENOENT`.
  pub fat16_getattr-Holds :
      (n : List ℕ) (o : Option (List ℕ)) → IsShort n → fs n ≡ file_or_none o → Found n o
  unfolding fat16_getattr
  fat16_getattr-Holds n (some bs) short is = getattr_file n bs is
  fat16_getattr-Holds n none (plain, (name, nf)) gone =
      let (e, run) =
        find_root_missing nf h.layout.mounted fuel raw dir hr (missing-NoFile h n plain gone) in
      (none, rw (not_root n plain, run) refl, tt)
