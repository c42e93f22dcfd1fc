-- ===== src/Fat16/Lookup/Tree.antt =====
-- `find_subdir` of lab4/simple_fat16_new.c as a relation on the directories of the image.
use os2021_labscript.Common.{
  ℕ, ◌<◌, ◌≡◌, ◌↔◌, ◌∙◌, refl, sym, ap, arith, true, false, List, [], ◌∷◌,
}
use mathlib.Core.Path.{subst}
use os2021_labscript.Common.Outcome.{Outcome, done, ◌>>=◌, >>=-eq-done}
use os2021_labscript.Fat16.Volume.{Fat16, DirEntry}
use os2021_labscript.Fat16.Scan.{cursor_at, Scanned, hit, stopped, exhausted, dir_scan}
use os2021_labscript.Fat16.Scan.Dir.{cursor_in}
use os2021_labscript.Fat16.Lookup.{Lookup, subdir_match, at_end, is_nil, find_subdir}
use os2021_labscript.Fat16.Lookup.Loop.{
  dir_entry, Finds, IsClustered, walks, Finds-scan, scan-Finds,
}

abbrev result : ℕ × DirEntry → Outcome Lookup
result r = done r

zero_one : {e e' : DirEntry} → result (1, e) ≡ result (0, e') → ⊥
zero_one h = cc

same_entry : {e e' : DirEntry} → result (0, e) ≡ result (0, e') → e ≡ e'
same_entry h = cc

-- The path of names from the directory `dir` leads to the entry: each name but the last to a
-- directory, each directory from its first cluster on.
pub data Resolves (v : Fat16) (fuel : ℕ) : DirEntry → List (List ℕ) → DirEntry → Type 0 where
  last :
      {dir : DirEntry} {name : List ℕ} {rounds n t : ℕ}
      → rounds < fuel
      → Finds v at_end (subdir_match name true) dir dir.fst_clus_lo 0 rounds n t
      → Resolves v fuel dir (name ∷ []) (dir_entry v n t)
  inside :
      {dir e : DirEntry} {name name' : List ℕ} {names : List (List ℕ)} {rounds n t : ℕ}
      → rounds < fuel
      → Finds v at_end (subdir_match name false) dir dir.fst_clus_lo 0 rounds n t
      → Resolves v fuel (dir_entry v n t) (name' ∷ names) e
      → Resolves v fuel dir (name ∷ name' ∷ names) e

module _ {v : Fat16} (k : IsClustered v) (fuel : ℕ) where
  -- What follows the loop of `find_subdir`
  abbrev after_scan : List (List ℕ) → Scanned → Outcome Lookup
  after_scan names (hit c e) = elim (is_nil names) [
    | true ↦ done (0, e)
    | false ↦ find_subdir fuel v e names
  ]
  after_scan names (stopped c e) = done (1, e)
  after_scan names (exhausted c e) = done (1, e)

  start : (n : ℕ) → cursor_at v n ≡ cursor_in v n 0
  start n = (walks k at_end at_end n).first

  Resolves-find_subdir :
      {dir : DirEntry} {names : List (List ℕ)} {e : DirEntry}
      → Resolves v fuel dir names e
      → find_subdir fuel v dir names ≡ done (0, e)
  unfolding find_subdir
  Resolves-find_subdir {dir} (last {name} {rounds} {n} {t} less found) =
      rw
        (
          find_subdir,
          start dir.fst_clus_lo,
          Finds-scan k at_end (subdir_match name true) fuel (omega (arith, k.low)) less found,
        )
        refl
  Resolves-find_subdir {dir} (inside {name} {name'} {names} less found rest) =
      rw
        (
          find_subdir,
          start dir.fst_clus_lo,
          Finds-scan k at_end (subdir_match name false) fuel (omega (arith, k.low)) less found,
        )
        (Resolves-find_subdir rest)

  find_subdir_step :
      (dir : DirEntry) (name : List ℕ) (names : List (List ℕ))
      → find_subdir fuel v dir (name ∷ names) ≡ (
          dir_scan fuel v at_end
            (subdir_match name (is_nil names))
            (cursor_in v dir.fst_clus_lo 0)
            dir
          >>= λ s. after_scan names s)
  unfolding find_subdir
  find_subdir_step dir name names = rw (find_subdir, start dir.fst_clus_lo) refl

  from_scan :
      (names : List (List ℕ))
      → ((dir e : DirEntry)
          → find_subdir fuel v dir names ≡ done (0, e)
          → Resolves v fuel dir names e)
      → (name : List ℕ) (dir e : DirEntry) (s : Scanned)
      → dir_scan fuel v at_end
          (subdir_match name (is_nil names))
          (cursor_in v dir.fst_clus_lo 0)
          dir
        ≡ done s
      → after_scan names s ≡ done (0, e)
      → Resolves v fuel dir (name ∷ names) e
  from_scan names ih name dir e (stopped c d) scan h = absurd (zero_one h)
  from_scan names ih name dir e (exhausted c d) scan h = absurd (zero_one h)
  from_scan [] ih name dir e (hit c d) scan h =
      let (rounds, n, t, less, at, found) =
        scan-Finds k at_end (subdir_match name true) fuel dir dir.fst_clus_lo 0 c d
          (omega (arith, k.low)) scan in
      subst (Resolves v fuel dir (name ∷ [])) (sym at ∙ same_entry h) (last less found)
  from_scan (name' ∷ names) ih name dir e (hit c d) scan h =
      let (rounds, n, t, less, at, found) =
        scan-Finds k at_end (subdir_match name false) fuel dir dir.fst_clus_lo 0 c d
          (omega (arith, k.low)) scan in
      inside less found
        (ih (dir_entry v n t) e (ap (λ z. find_subdir fuel v z (name' ∷ names)) (sym at) ∙ h))

  find_subdir-Resolves :
      (names : List (List ℕ)) (dir e : DirEntry)
      → find_subdir fuel v dir names ≡ done (0, e)
      → Resolves v fuel dir names e
  unfolding find_subdir
  find_subdir-Resolves [] dir e h = cc
  find_subdir-Resolves (name ∷ names) dir e h =
      let (s, scan, after) = >>=-eq-done _ _ (sym (find_subdir_step dir name names) ∙ h) in
      from_scan names (λ d e'. find_subdir-Resolves names d e') name dir e s scan after

  -- With clusters of 1 to 128 sectors, `find_subdir` returns 0 with an entry exactly if the names lead
  -- from the directory to it, where no directory has as many entries before the name as the fuel.
  pub find_subdir_iff :
      (dir : DirEntry) (names : List (List ℕ)) (e : DirEntry)
      → (find_subdir fuel v dir names ≡ done (0, e)) ↔ Resolves v fuel dir names e
  find_subdir_iff dir names e = (find_subdir-Resolves names dir e, λ r. Resolves-find_subdir r)
