-- ===== src/Fat16/FileMap/Unlink.antt =====
-- `fat16_unlink` of lab4/simple_fat16_new.c takes a file out of the map.
use os2021_labscript.Common.{
  ℕ, ◌<◌, ◌≡◌, ◌∙◌, refl, sym, ap, arith, ==_of_ne, true, false, List, [], ◌∷◌, some, none,
}
use os2021_labscript.Common.Outcome.{done}
use os2021_labscript.Fat16.Volume.{Fat16, DirEntry}
use os2021_labscript.Fat16.Names.Split.{IsRaw}
use os2021_labscript.Fat16.Scan.Root.{root_entry}
use os2021_labscript.Fat16.Locate.{is_free}
use os2021_labscript.Fat16.Update.{success, fat16_unlink}
use os2021_labscript.Fat16.Files.Unlink.{Unlinked, fat16_unlink-file}
use os2021_labscript.Fat16.Files.Lifecycle.{IsSmall-IsChain}
use os2021_labscript.Fat16.Files.NameSet.Unlink.{Unlinked-IsClosed}
use os2021_labscript.Fat16.FileMap.{file, FileMap, update, path_of, cluster_at, Holds}
use os2021_labscript.Fat16.FileMap.Entries.{place-IsFile, other_names, place_inj}
use os2021_labscript.Fat16.FileMap.Change.{moved, Changed, Changed-Holds}

module _ {v v' : Fat16} {top : ℕ} {fs : FileMap} {place : List ℕ → ℕ} (h : Holds v top fs place)
    (x : ℕ) (xs bs : List ℕ) (is : fs (x ∷ xs) ≡ some (file bs))
    (u : Unlinked v top (place (x ∷ xs)) (cluster_at v (place (x ∷ xs)) ∷ []) v') where
  freed : is_free (root_entry v' (place (x ∷ xs))) ≡ true
  unfolding is_free
  freed = ap is_free u.entry.here

  pub Unlinked-Changed : Changed v top fs place (x ∷ xs) none (place (x ∷ xs)) v'
  Unlinked-Changed = record {
    others = u.others;
    layout = u.layout;
    closed =
        Unlinked-IsClosed (h.at (x ∷ xs) (file bs) is).names h.closed
          (place-IsFile h (x ∷ xs) bs is) (other_names h (x ∷ xs) bs is) u;
    new = λ node e. absurd (cc);
    in_use = λ used. let clash : true ≡ false = sym freed ∙ used in absurd (cc);
    entries = u.entry.apart;
    one_entry = λ j below ne used q. let (node, e, at) = h.all j below used in ne (ap place q ∙ at);
    one_name = λ m node ne e q. ne (place_inj h (x ∷ xs) m (file bs) node is e q);
    table = λ m cs ne e.
        u.cleared (cluster_at v (place m)) (h.at m (file cs) e).small.below
        ∙ rw (==_of_ne _ _ (h.apart (x ∷ xs) m bs cs is e ne)) refl;
    content = λ m cs ne e i l. u.content _ (omega arith);
    own_cluster = λ m ds cs ne eo em. absurd (cc);
  }

-- On a volume that holds a map of files, for a name of the map that stands for a file: with fuel
-- of at least 1 and memory of 11 bytes for each name, `fat16_unlink` returns 0, and the volume
-- then holds the map without the name. All other files are there with their bytes.
pub fat16_unlink-Holds :
    {v : Fat16} {top : ℕ} {fs : FileMap} {place : List ℕ → ℕ} (h : Holds v top fs place) (x : ℕ)
    (xs bs : List ℕ) (fuel : ℕ) (heap : ℕ → ℕ → List ℕ) (dir : DirEntry)
    → fs (x ∷ xs) ≡ some (file bs)
    → ((i : ℕ) → IsRaw (heap i))
    → 0 < fuel
    → (v' : Fat16) × (fat16_unlink fuel heap dir v (path_of (x ∷ xs)) ≡ done (v', success))
      × Unlinked v top (place (x ∷ xs)) (cluster_at v (place (x ∷ xs)) ∷ []) v'
      × Holds v' top (update fs (x ∷ xs) none) (moved place (x ∷ xs) (place (x ∷ xs)))
fat16_unlink-Holds h x xs bs fuel heap dir is hr pos =
    let f = h.at (x ∷ xs) (file bs) is in
    let (flat, chain) = IsSmall-IsChain f.small h.layout.table.narrow in
    let (v', run, u) =
      fat16_unlink-file f.names h.layout _ (place-IsFile h (x ∷ xs) bs is) fuel heap dir [] hr
        (omega arith) flat chain in
    (v', run, u, Changed-Holds h (Unlinked-Changed h x xs bs is u))
