-- ===== src/Fat16/FileMap/Read.antt =====
-- What the operations of lab4/simple_fat16_new.c that change nothing show of the map: `read_path`
-- the bytes of a file, `find_root` whether a name is there, `fat16_readdir` the names.
use os2021_labscript.Common.{
  ℕ, ◌+◌, ◌*◌, ◌/◌, ◌%◌, ◌<◌, ◌≡◌, ◌≢◌, ◌↔◌, ◌∙◌, refl, sym, ap, arith, ◌==◌, ==_iff, ==_of_ne,
  true, false, List, [], ◌∷◌, length, get_or, drop, some, none,
}
use mathlib.Core.List.{Memᴰ}
use os2021_labscript.Common.Outcome.{done, undefined}
use os2021_labscript.Fat16.Image.{Buffer}
use os2021_labscript.Fat16.Volume.{Fat16, DirEntry, first_byte, attr_archive}
use os2021_labscript.Fat16.Paths.{slash}
use os2021_labscript.Fat16.Names.Split.{IsRaw}
use os2021_labscript.Fat16.Scan.Root.{root_entry}
use os2021_labscript.Fat16.Locate.{is_free}
use os2021_labscript.Fat16.Lookup.{find_root}
use os2021_labscript.Fat16.Read.{read_path}
use os2021_labscript.Fat16.Read.Bytes.{
  AgreesWith, AgreesWith-bytes, IsReading, read_data_bytes, read_data_over,
}
use os2021_labscript.Fat16.Write.{cluster_bytes}
use os2021_labscript.Fat16.Update.{success, one, fat16_unlink}
use os2021_labscript.Fat16.Attr.{is_listed, fat16_readdir}
use os2021_labscript.Fat16.Attr.Listing.{ShownAt, fat16_readdir-ShownAt}
use os2021_labscript.Fat16.Files.Names.{NamesFile}
use os2021_labscript.Fat16.Files.Search.{find_root-file, find_root_missing}
use os2021_labscript.Fat16.Files.ReadBack.{data_byte}
use os2021_labscript.Fat16.Files.Pieces.Loop.{get_or-drop, length-drop}
use os2021_labscript.Fat16.Files.NameSet.{is_free_used}
use os2021_labscript.Fat16.FileMap.{
  Node, file, other, FileMap, IsPlain, path_of, FileAt, NodeAt, cluster_at, Holds,
}
use os2021_labscript.Fat16.FileMap.Entries.{
  FileAt-used, NodeAt-used, NodeAt-decoded, NodeAt-below, place-IsFile, missing-NoFile,
}

-- An entry that is listed is in use.
listed_used : (e : DirEntry) → is_listed e ≡ true → first_byte e ≢ 0 → is_free e ≡ false
unfolding is_listed is_free
listed_used e l nz = let q : (first_byte e == 0) ≡ false = ==_of_ne _ 0 nz in ground arith

-- An entry of the map is listed.
archive_listed : (e : DirEntry) → e.attr ≡ attr_archive → is_free e ≡ false → is_listed e ≡ true
unfolding is_listed is_free
archive_listed e a used =
    let q : (e.attr == attr_archive) ≡ true = (==_iff e.attr attr_archive).1 a in ground arith

NodeAt-listed :
    (v : Fat16) (top : ℕ) (n : List ℕ) (k : ℕ) (node : Node)
    → NodeAt v top n k node
    → is_listed (root_entry v k) ≡ true
NodeAt-listed v top n k (file bs) f = archive_listed (root_entry v k) f.archive (FileAt-used n f)
NodeAt-listed v top n k other e = e.listed

module _ {v : Fat16} {top : ℕ} {fs : FileMap} {place : List ℕ → ℕ} (h : Holds v top fs place) where
  module _ (n bs : List ℕ) (is : fs n ≡ some (file bs)) (size offset : ℕ) (b : Buffer) where
    at_n : FileAt v top n bs (place n)
    at_n = h.at n (file bs) is

    read_byte :
        (xs : List ℕ)
        → IsReading v (root_entry v (place n)) size offset xs
        → (i : ℕ) → i < size
        → i < length (drop offset bs)
        → offset < length bs
        → get_or xs i 0 ≡ get_or (drop offset bs) i 0
    read_byte xs rd i lt k inside =
        let t : ℕ = offset + i in
        let per : cluster_bytes v ≡ 512 * v.bpb.sec_per_clus =
          rw (h.layout.mounted.sector) (omega arith) in
        let low : t < length bs = omega (arith, k, length-drop offset bs (omega arith)) in
        rd.bytes i 0 (t / 512) (t % 512) lt (omega (arith, per, at_n.fits, low)) (omega arith)
          (omega arith)
        ∙ data_byte h.layout (cluster_at v (place n)) t at_n.small.low at_n.small.below
            (omega (arith, per, at_n.fits, low))
        ∙ at_n.bytes t low
        ∙ sym (get_or-drop offset bs i)

    -- On a volume that holds a map of files, for a name of the map that stands for a file, with
    -- memory of 11 bytes for each name: a read of `size` bytes from an offset inside the file on,
    -- with `size + offset` a multiple of 512, returns `size` with `size` bytes, which begin with
    -- those of the file from the offset on, or are the first of these.
    pub read_path-Holds :
        (fuel : ℕ) (raw : ℕ → List ℕ) (dir : DirEntry)
        → IsRaw raw
        → offset < length bs
        → (size + offset) % 512 ≡ 0
        → (xs : List ℕ) × (read_path fuel raw dir b v (path_of n) size offset ≡ done (size, xs))
          × AgreesWith size (drop offset bs) xs
    unfolding read_path
    read_path-Holds fuel raw dir r inside whole =
        let (xs, run, rd) =
          read_data_bytes v (root_entry v (place n)) size offset b some_sectors whole
            (omega (arith, at_n.size)) in
        (
          xs,
          rw
              (find_root-file at_n.names h.layout.mounted fuel raw dir (place n) r
                (place-IsFile h n bs is))
              run,
          AgreesWith-bytes (drop offset bs) xs rd.size_of (λ i lt k. read_byte xs rd i lt k inside),
        )
      where
        per : cluster_bytes v ≡ 512 * v.bpb.sec_per_clus
        per = rw (h.layout.mounted.sector) (omega arith)

        some_sectors : 0 < v.bpb.sec_per_clus
        some_sectors = omega (arith, per, at_n.fits, inside)

    -- On a volume that holds a map of files, with clusters of a byte at least, for a name of the
    -- map that stands for a file, with memory of 11 bytes for each name: a read with `size + offset`
    -- not a multiple of 512 writes behind the `size + offset` bytes of `sector_buffer`.
    pub read_path_over :
        (fuel : ℕ) (raw : ℕ → List ℕ) (dir : DirEntry)
        → IsRaw raw
        → 0 < cluster_bytes v
        → (size + offset) % 512 ≢ 0
        → read_path fuel raw dir b v (path_of n) size offset ≡ undefined
    unfolding read_path
    read_path_over fuel raw dir r some_bytes part =
        let per : cluster_bytes v ≡ 512 * v.bpb.sec_per_clus =
          rw (h.layout.mounted.sector) (omega arith) in
        rw
          (find_root-file at_n.names h.layout.mounted fuel raw dir (place n) r
            (place-IsFile h n bs is))
          (read_data_over v (root_entry v (place n)) size offset b (omega (arith, per, some_bytes))
            part)

  listed_at : (n : List ℕ) (node : Node) → fs n ≡ some node → ShownAt v n (place n)
  listed_at n node e =
      let at = h.at n node e in
      record {
        below = NodeAt-below v top n (place n) node at;
        before = λ j le z.
            is_free_used (root_entry v (place n)) (NodeAt-used v top n (place n) node at)
              (h.closed j (place n) le (NodeAt-below v top n (place n) node at) z);
        listed = NodeAt-listed v top n (place n) node at;
        named = NodeAt-decoded v top n (place n) node at;
      }

  shown_node : (n : List ℕ) (m : ℕ) → ShownAt v n m → (node : Node) × (fs n ≡ some node)
  shown_node n m s =
      let (node, e, at) = h.all m s.below (listed_used _ s.listed (s.before m (omega arith))) in
      (node, ap fs (sym s.named) ∙ e)

  -- On a volume that holds a map of files, `fat16_readdir` of "/" returns 0, and its list has
  -- exactly the names of the map.
  pub fat16_readdir-Holds :
      (fuel : ℕ) (raw : ℕ → List ℕ) (dir : DirEntry)
      → (names : List (List ℕ)) × (fat16_readdir fuel raw dir v (slash ∷ [])
          ≡ done (success, names))
        × ((n : List ℕ) → Memᴰ n names ↔ ((node : Node) × (fs n ≡ some node)))
  fat16_readdir-Holds fuel raw dir =
      let (names, run, shown) = fat16_readdir-ShownAt fuel raw dir v h.layout.mounted.fits in
      (
        names,
        run,
        λ n. (
          λ mem. let (m, s) = (shown n).0 mem in shown_node n m s,
          λ (node, e). (shown n).1 (place n, listed_at n node e),
        ),
      )

  -- On a volume that holds a map of files, for a name that is short by `NamesFile`, starts with
  -- neither NUL nor the byte 0xe5 and is not in the map, with memory of 11 bytes for each name:
  -- `find_root` returns 1 for its path, and `fat16_unlink` returns 1 and changes nothing.
  pub fat16_unlink_missing :
      (n : List ℕ) {name : List ℕ} (nf : NamesFile (path_of n) n name) (fuel : ℕ)
      (heap : ℕ → ℕ → List ℕ) (dir : DirEntry)
      → IsPlain n
      → fs n ≡ none
      → IsRaw (heap 0)
      → ((e : DirEntry) × (find_root fuel (heap 0) v dir (path_of n) ≡ done (1, e)))
        × (fat16_unlink fuel heap dir v (path_of n) ≡ done (v, one))
  unfolding fat16_unlink
  fat16_unlink_missing n nf fuel heap dir plain gone hr =
      let (e, run) =
        find_root_missing nf h.layout.mounted fuel (heap 0) dir hr
          (missing-NoFile h n plain gone) in
      ((e, run), rw run refl)
