-- ===== src/Fat16/Lookup/Loop.antt =====
-- The loop over a directory of lab4/simple_fat16_new.c that is not the root, as a relation on the
-- entries of its clusters.
use os2021_labscript.Common.{
  ℕ, zero, suc, ◌+◌, ◌*◌, ◌≤◌, ◌<◌, ◌≡◌, ◌≢◌, ◌∙◌, refl, sym, ap, inl, inr, arith, ==_iff, ==_of_ne,
  true, false, Bool, Bool-cases, some, none,
}
use native.Mathlib.Decide.{ℕ_discrete}
use os2021_labscript.Common.Outcome.{done}
use os2021_labscript.Fat16.Volume.{Fat16, DirEntry, entry_at}
use os2021_labscript.Fat16.Table.{fat_entry_by_cluster, first_sector_of_cluster}
use os2021_labscript.Fat16.Scan.{Cursor, advance, hit, stopped, exhausted, dir_scan}
use os2021_labscript.Fat16.Scan.Dir.{cursor_in, Walks, advance-Walks}

-- Entry `t` of cluster `n`, at its place in the image
abbrev pub dir_entry : Fat16 → (n t : ℕ) → DirEntry
dir_entry v n t = entry_at v.image (512 * first_sector_of_cluster v n + 32 * t)

-- From entry `t` of cluster `n`, with `prev` read before it, the entries of the chain are passed,
-- `rounds` of them, up to entry `t'` of cluster `n'`, which is accepted.
pub data Finds (v : Fat16) (stop visit : DirEntry → Bool)
    : DirEntry → (n t rounds n' t' : ℕ) → Type 0 where
  here :
      {prev : DirEntry} {n t : ℕ}
      → stop prev ≡ false
      → visit (dir_entry v n t) ≡ true
      → Finds v stop visit prev n t 0 n t
  next :
      {prev : DirEntry} {n t rounds n' t' : ℕ}
      → stop prev ≡ false
      → visit (dir_entry v n t) ≡ false
      → t + 1 < 16 * v.bpb.sec_per_clus
      → Finds v stop visit (dir_entry v n t) n (t + 1) rounds n' t'
      → Finds v stop visit prev n t (suc rounds) n' t'
  link :
      {prev : DirEntry} {n t rounds n' t' : ℕ}
      → stop prev ≡ false
      → visit (dir_entry v n t) ≡ false
      → t + 1 ≡ 16 * v.bpb.sec_per_clus
      → fat_entry_by_cluster v n ≢ 0xffff
      → Finds v stop visit (dir_entry v n t) (fat_entry_by_cluster v n) 0 rounds n' t'
      → Finds v stop visit prev n t (suc rounds) n' t'

-- Clusters of 1 to 128 sectors, as on every FAT volume
pub record IsClustered (v : Fat16) : Type 0 where
  pub low : 0 < v.bpb.sec_per_clus
  pub high : v.bpb.sec_per_clus ≤ 128

hit_entry : {c c' : Cursor} {e e' : DirEntry} → done (hit c e) ≡ done (hit c' e') → e ≡ e'
hit_entry h = cc

module _ {v : Fat16} (k : IsClustered v) (stop visit : DirEntry → Bool) where
  pub walks : (n : ℕ) → Walks v n
  unfolding first_sector_of_cluster
  walks n = advance-Walks v n (omega (arith, k.high))

  -- One round of the loop
  scan_stop :
      (f n t : ℕ) (prev : DirEntry)
      → stop prev ≡ true
      → dir_scan (suc f) v stop visit (cursor_in v n t) prev ≡ done (stopped (cursor_in v n t) prev)
  unfolding dir_scan
  scan_stop f n t prev h = rw (dir_scan, h) refl

  scan_hit :
      (f n t : ℕ) (prev : DirEntry)
      → t < 16 * v.bpb.sec_per_clus
      → stop prev ≡ false
      → visit (dir_entry v n t) ≡ true
      → dir_scan (suc f) v stop visit (cursor_in v n t) prev
        ≡ done (hit (cursor_in v n t) (dir_entry v n t))
  unfolding dir_scan
  scan_hit f n t prev lt h a =
      rw (dir_scan, h, (walks n).reads t lt, a)
        (ap (λ e. done (hit (cursor_in v n t) e)) ((walks n).reads t lt))

  scan_next :
      (f n t : ℕ) (prev : DirEntry)
      → t + 1 < 16 * v.bpb.sec_per_clus
      → stop prev ≡ false
      → visit (dir_entry v n t) ≡ false
      → dir_scan (suc f) v stop visit (cursor_in v n t) prev
        ≡ dir_scan f v stop visit (cursor_in v n (t + 1)) (dir_entry v n t)
  unfolding dir_scan
  scan_next f n t prev lt h a =
      rw (dir_scan, h, (walks n).reads t (omega arith), a, (walks n).next t lt)
        (ap (dir_scan f v stop visit (cursor_in v n (t + 1))) ((walks n).reads t (omega arith)))

  scan_link :
      (f n t : ℕ) (prev : DirEntry)
      → t + 1 ≡ 16 * v.bpb.sec_per_clus
      → stop prev ≡ false
      → visit (dir_entry v n t) ≡ false
      → fat_entry_by_cluster v n ≢ 0xffff
      → dir_scan (suc f) v stop visit (cursor_in v n t) prev
        ≡ dir_scan f v stop visit (cursor_in v (fat_entry_by_cluster v n) 0) (dir_entry v n t)
  unfolding dir_scan
  scan_link f n t prev e h a ne =
      let linked : advance v (cursor_in v n t) ≡ some (cursor_in v (fat_entry_by_cluster v n) 0) =
        (walks n).last t e
        ∙ rw (==_of_ne (fat_entry_by_cluster v n) 0xffff ne)
            (ap some ((walks (fat_entry_by_cluster v n)).first)) in
      rw (dir_scan, h, (walks n).reads t (omega arith), a, linked)
        (ap (dir_scan f v stop visit (cursor_in v (fat_entry_by_cluster v n) 0))
          ((walks n).reads t (omega arith)))

  scan_end :
      (f n t : ℕ) (prev : DirEntry)
      → t + 1 ≡ 16 * v.bpb.sec_per_clus
      → stop prev ≡ false
      → visit (dir_entry v n t) ≡ false
      → fat_entry_by_cluster v n ≡ 0xffff
      → dir_scan (suc f) v stop visit (cursor_in v n t) prev
        ≡ done (exhausted (cursor_in v n t) (dir_entry v n t))
  unfolding dir_scan
  scan_end f n t prev e h a z =
      let ended : advance v (cursor_in v n t) ≡ none =
        (walks n).last t e ∙ rw ((==_iff (fat_entry_by_cluster v n) 0xffff).1 z) refl in
      rw (dir_scan, h, (walks n).reads t (omega arith), a, ended)
        (ap (λ d. done (exhausted (cursor_in v n t) d)) ((walks n).reads t (omega arith)))

  -- What the relation says, the loop does, with fuel for the entries that are passed.
  pub Finds-scan :
      (fuel : ℕ) {prev : DirEntry} {n t rounds n' t' : ℕ}
      → t < 16 * v.bpb.sec_per_clus
      → rounds < fuel
      → Finds v stop visit prev n t rounds n' t'
      → dir_scan fuel v stop visit (cursor_in v n t) prev
        ≡ done (hit (cursor_in v n' t') (dir_entry v n' t'))
  Finds-scan zero lt enough h = absurd (omega arith)
  Finds-scan (suc f) {prev} {n} {t} lt enough (here a b) = scan_hit f n t prev lt a b
  Finds-scan (suc f) {prev} {n} {t} lt enough (next a b more rest) =
      scan_next f n t prev more a b ∙ Finds-scan f more (omega arith) rest
  Finds-scan (suc f) {prev} {n} {t} lt enough (link a b e ne rest) =
      scan_link f n t prev e a b ne ∙ Finds-scan f (omega (arith, k.low)) (omega arith) rest

  -- And what the loop finds, the relation says.
  abbrev pub Found : (prev : DirEntry) (n t fuel : ℕ) → DirEntry → Type 0
  Found prev n t fuel e =
      (rounds : ℕ) × (n' : ℕ) × (t' : ℕ) × (rounds < fuel)
      × (e ≡ dir_entry v n' t')
      × Finds v stop visit prev n t rounds n' t'

  pub scan-Finds :
      (fuel : ℕ) (prev : DirEntry) (n t : ℕ) (c : Cursor) (e : DirEntry)
      → t < 16 * v.bpb.sec_per_clus
      → dir_scan fuel v stop visit (cursor_in v n t) prev ≡ done (hit c e)
      → Found prev n t fuel e
  unfolding dir_scan
  scan-Finds zero prev n t c e lt run = cc
  scan-Finds (suc f) prev n t c e lt run = elim (Bool-cases (stop prev)) [
    | inl s ↦ let q = sym (scan_stop f n t prev s) ∙ run in cc
    | inr s ↦ elim (Bool-cases (visit (dir_entry v n t))) [
      | inl a ↦
          let q = sym (scan_hit f n t prev lt s a) ∙ run in
          (0, n, t, omega arith, sym (hit_entry q), here s a)
      | inr a ↦ elim (ℕ_discrete (t + 1) (16 * v.bpb.sec_per_clus)) [
        | yes last ↦ elim (ℕ_discrete (fat_entry_by_cluster v n) 0xffff) [
          | yes z ↦ let q = sym (scan_end f n t prev last s a z) ∙ run in cc
          | no ne ↦
              let (rounds, n', t', less, at, found) =
                scan-Finds f (dir_entry v n t) (fat_entry_by_cluster v n) 0 c e
                  (omega (arith, k.low)) (sym (scan_link f n t prev last s a ne) ∙ run) in
              (suc rounds, n', t', omega arith, at, link s a last ne found)
        ]
        | no more ↦
            let (rounds, n', t', less, at, found) =
              scan-Finds f (dir_entry v n t) n (t + 1) c e (omega arith)
                (sym (scan_next f n t prev (omega arith) s a) ∙ run) in
            (suc rounds, n', t', omega arith, at, next s a (omega arith) found)
      ]
    ]
  ]
