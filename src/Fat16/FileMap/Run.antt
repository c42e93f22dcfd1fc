-- ===== src/Fat16/FileMap/Run.antt =====
-- Runs of many requests to the file system of lab4/simple_fat16_new.c do to the volume what they
-- promise about the map of files.
use os2021_labscript.Common.{
  ℕ, ◌+◌, ◌%◌, ◌≤◌, ◌<◌, ◌≡◌, ◌↔◌, ◌∙◌, refl, sym, ap, inl, inr, arith, List, [], ◌∷◌, length, take,
  drop, some, none,
}
use mathlib.Core.Path.{subst, fun_ext}
use mathlib.Core.List.{Memᴰ}
use os2021_labscript.Common.Outcome.{done}
use os2021_labscript.Fat16.Image.{Buffer}
use os2021_labscript.Fat16.Volume.{Fat16, DirEntry}
use os2021_labscript.Fat16.Paths.{slash}
use os2021_labscript.Fat16.Names.Split.{IsRaw}
use os2021_labscript.Fat16.Read.{read_path}
use os2021_labscript.Fat16.Read.Bytes.{AgreesWith}
use os2021_labscript.Fat16.Write.{cluster_bytes}
use os2021_labscript.Fat16.Update.{success}
use os2021_labscript.Fat16.Attr.{fat16_readdir}
use os2021_labscript.Fat16.FileMap.{Node, file, FileMap, update, path_of, Holds}
use os2021_labscript.Fat16.FileMap.Change.{name_cases, moved}
use os2021_labscript.Fat16.FileMap.Make.{fat16_mknod-Holds}
use os2021_labscript.Fat16.FileMap.Write.{written, write_path-Holds}
use os2021_labscript.Fat16.FileMap.Unlink.{fat16_unlink-Holds}
use os2021_labscript.Fat16.FileMap.Read.{read_path-Holds, fat16_readdir-Holds, fat16_unlink_missing}
use os2021_labscript.Fat16.FileMap.Room.{
  free_slots, free_clusters, free_slots-IsFirst, free_clusters_pos, Created-room, Written-room,
  Unlinked-room,
}
use os2021_labscript.Fat16.FileMap.Requests.{
  Request, make, write, unlink, serve, serve_all, apply, apply_all, Allowed, AllAllowed, cost,
  makes, node_written,
}

update_missing : (fs : FileMap) (n : List ℕ) → fs n ≡ none → fs ≡ update fs n none
update_missing fs n h =
    fun_ext (λ m. elim (name_cases n m) [
      | inl (q, t) ↦ rw t (ap fs (sym q) ∙ h)
      | inr (ne, f) ↦ rw f refl
    ])

take_all : (xs : List ℕ) → take (length xs) xs ≡ xs
take_all [] = refl
take_all (x ∷ xs) = ap (λ ys. x ∷ ys) (take_all xs)

write_map :
    (fs : FileMap) (n old : List ℕ) (offset : ℕ) (bs : List ℕ)
    → fs n ≡ some (file old)
    → update fs n (some (file (written old offset (take (length bs) bs))))
      ≡ apply (write n offset bs) fs
write_map fs n old offset bs is =
    ap (λ b. update fs n (some (file (written old offset b)))) (take_all bs)
    ∙ sym (ap (λ o. update fs n (node_written offset bs o)) is)

-- A request has run: the volume holds what it promises, and has lost no more than its cost.
abbrev Served : ℕ → (ℕ → ℕ → List ℕ) → DirEntry → Fat16 → ℕ → FileMap → Request → Type 0
Served fuel heap dir v top fs r =
    (v' : Fat16) × (place : List ℕ → ℕ) × (serve fuel heap dir v r ≡ done v')
    × Holds v' top (apply r fs) place
    × (cluster_bytes v' ≡ cluster_bytes v)
    × (free_slots v ≤ free_slots v' + cost r)
    × (free_clusters v top ≤ free_clusters v' top + cost r)

module _ (fuel : ℕ) (heap : ℕ → ℕ → List ℕ) (dir : DirEntry) (two : 2 ≤ fuel)
    (hr : (i : ℕ) → IsRaw (heap i)) {top : ℕ} where
  serve-Holds :
      {v : Fat16} {fs : FileMap} {place : List ℕ → ℕ} (h : Holds v top fs place) (r : Request)
      → Allowed (cluster_bytes v) fs r
      → cost r ≤ free_slots v
      → cost r ≤ free_clusters v top
      → Served fuel heap dir v top fs r
  unfolding serve
  serve-Holds h (make now []) ok slots clusters = absurd ok.0.0
  serve-Holds {v} h (make now (x ∷ xs)) ((plain, (name, nf)), gone) slots clusters =
      let (k, first) = free_slots-IsFirst v (omega arith) in
      let (free, lo, hi, z) = free_clusters_pos v top (omega arith) in
      let (v', c, run, cr, h') =
        fat16_mknod-Holds h x xs now k nf first fuel heap dir free plain.0 plain.1 gone (hr 0) lo hi
          z in
      let (s, t) = Created-room cr in (v', _, rw run refl, h', ap cluster_bytes cr.others, s, t)
  serve-Holds {fs = fs} {place = place} h (write n offset bs) (old, is, inside, pos, fits) slots
        clusters =
      let (v', run, w, h') =
        write_path-Holds h n old (length bs) offset fuel heap dir bs is inside pos fits
          (omega arith) two hr in
      let (s, t) = Written-room w in
      (
        v',
        _,
        rw run refl,
        subst (λ g. Holds v' top g (moved place n (place n))) (write_map fs n old offset bs is) h',
        ap cluster_bytes w.others,
        omega arith,
        omega arith,
      )
  serve-Holds h (unlink []) (inl (bs, is)) slots clusters = absurd (h.at [] (file bs) is).plain
  serve-Holds h (unlink []) (inr ok) slots clusters = absurd ok.0.0
  serve-Holds {v} {fs} {place} h (unlink (x ∷ xs)) (inl (bs, is)) slots clusters =
      let (v', run, u, h') = fat16_unlink-Holds h x xs bs fuel heap dir is hr (omega arith) in
      let (s, t) = Unlinked-room u in
      (v', _, rw run refl, h', ap cluster_bytes u.others, omega arith, omega arith)
  serve-Holds {v} {fs} {place} h (unlink (x ∷ xs)) (inr ((plain, (name, nf)), gone)) slots
        clusters =
      let (_, run) = fat16_unlink_missing h (x ∷ xs) nf fuel heap dir plain gone (hr 0) in
      (
        v,
        place,
        rw run refl,
        subst (λ g. Holds v top g place) (update_missing fs (x ∷ xs) gone) h,
        refl,
        omega arith,
        omega arith,
      )

  -- On a volume that holds a map of files, with fuel of at least 2 and memory of 11 bytes for each
  -- name: a list of requests that the map allows, each in its turn, and that make no more files
  -- than root entries and clusters are free, runs to its end, and the volume then holds the map
  -- with the requests applied to it.
  pub serve_all-Holds :
      (rs : List Request) {v : Fat16} {fs : FileMap} {place : List ℕ → ℕ} (h : Holds v top fs place)
      → AllAllowed (cluster_bytes v) fs rs
      → makes rs ≤ free_slots v
      → makes rs ≤ free_clusters v top
      → (v' : Fat16) × (place' : List ℕ → ℕ) × (serve_all fuel heap dir v rs ≡ done v')
        × Holds v' top (apply_all rs fs) place'
  unfolding serve_all
  serve_all-Holds [] {v} {place = place} h ok slots clusters = (v, place, refl, h)
  serve_all-Holds (r ∷ rs) {v} {fs} h (ok, oks) slots clusters =
      let (v1, place1, run, h1, per, s, t) = serve-Holds h r ok (omega arith) (omega arith) in
      let oks1 = subst (λ b. AllAllowed b (apply r fs) rs) (sym per) oks in
      let (v2, place2, run2, h2) = serve_all-Holds rs h1 oks1 (omega arith) (omega arith) in
      (v2, place2, rw run run2, h2)

  -- On a volume that holds a map of files, with fuel of at least 2 and memory of 11 bytes for each
  -- name: a list of requests that the map allows, each in its turn, and that make no more files
  -- than root entries and clusters are free, runs to its end. `fat16_readdir` of "/" then returns
  -- 0 with exactly the names of the map to which the requests were applied. `read_path` of `size`
  -- bytes from an offset inside a file of that map on, with `size + offset` a multiple of 512,
  -- returns `size` with `size` bytes, which begin with those that the map has from the offset on,
  -- or are the first of these.
  pub serve_all_observed :
      (rs : List Request) {v : Fat16} {fs : FileMap} {place : List ℕ → ℕ} (h : Holds v top fs place)
      → AllAllowed (cluster_bytes v) fs rs
      → makes rs ≤ free_slots v
      → makes rs ≤ free_clusters v top
      → (v' : Fat16) × (names : List (List ℕ)) × (serve_all fuel heap dir v rs ≡ done v')
        × (fat16_readdir fuel (heap 0) dir v' (slash ∷ []) ≡ done (success, names))
        × ((n : List ℕ) → Memᴰ n names ↔ ((node : Node) × (apply_all rs fs n ≡ some node)))
        × ((n bs : List ℕ) (size offset : ℕ) (b : Buffer)
            → apply_all rs fs n ≡ some (file bs)
            → offset < length bs
            → (size + offset) % 512 ≡ 0
            → (xs : List ℕ) × (read_path fuel (heap 0) dir b v' (path_of n) size offset
                ≡ done (size, xs))
              × AgreesWith size (drop offset bs) xs)
  serve_all_observed rs h ok slots clusters =
      let (v', place', run, h') = serve_all-Holds rs h ok slots clusters in
      let (names, listing, shown) = fat16_readdir-Holds h' fuel (heap 0) dir in
      (
        v',
        names,
        run,
        listing,
        shown,
        λ n bs size offset b is inside whole.
            read_path-Holds h' n bs is size offset b fuel (heap 0) dir (hr 0) inside whole,
      )
