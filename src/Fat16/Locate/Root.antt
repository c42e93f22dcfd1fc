-- ===== src/Fat16/Locate/Root.antt =====
-- Where `fat16_unlink`, `edit_size` and `fat16_mknod` find an entry of the root directory.
use os2021_labscript.Common.{
  ℕ, zero, suc, ◌+◌, ◌*◌, ◌/◌, ◌^◌, ◌≤◌, ◌<◌, ◌≡◌, ◌∙◌, refl, ◌⊎◌, inl, inr, if◌then◌else◌, Bool,
  Bool-cases, true, false, arith, List, some, none,
}
use native.Mathlib.Decide.{ℕ_discrete}
use os2021_labscript.Fat16.Volume.{Fat16, DirEntry}
use os2021_labscript.Fat16.Scan.{
  Verdict, pass, accept, RootResult, found, missed, scan_root, entry_offset,
}
use os2021_labscript.Fat16.Scan.Root.{root_place, root_entry, root_search, scan_root-search}
use os2021_labscript.Fat16.Locate.{
  Slot, slot_position, root_sector, has_name, locate_in_root, is_free, free_in_root,
}

-- A volume whose root directory lies behind the tables, within the reach of a DWORD
pub record IsMounted (v : Fat16) : Type 0 where
  pub sector : v.bpb.byts_per_sec ≡ 512
  pub start : v.first_root_dir_sec_num ≡ v.bpb.rsvd_sec_cnt + v.bpb.num_fats * v.bpb.fat_sz16
  pub fits : 512 * v.first_root_dir_sec_num + 32 * v.bpb.root_ent_cnt < 2 ^ 32

abbrev pub root_slot : Fat16 → ℕ → Slot
root_slot v k = record { sector_num = root_sector v (k / 16 + 1); offset = entry_offset (k + 1) }

pub slot_position-root :
    {v : Fat16} (mt : IsMounted v) (k : ℕ)
    → k < v.bpb.root_ent_cnt
    → slot_position v (root_slot v k) ≡ root_place v k
unfolding slot_position root_sector
slot_position-root mt k h = rw (mt.sector) (omega (arith, mt.start, mt.fits))

-- The first entry with a property, among the `n` entries of the root directory
pub record IsFirst (v : Fat16) (p : DirEntry → Bool) (n k : ℕ) : Type 0 where
  pub below : k < n
  pub holds : p (root_entry v k) ≡ true
  pub first : (m : ℕ) → m < k → p (root_entry v m) ≡ false

abbrev Found : Fat16 → (DirEntry → Bool) → ℕ → (k left : ℕ) → RootResult → Type 0
Found v p i k left r =
    (r ≡ found (i + 1) (i / 16 + 1) (root_entry v i))
    × (k ≤ i)
    × (i < k + left)
    × (p (root_entry v i) ≡ true)
    × ((m : ℕ) → k ≤ m → m < i → p (root_entry v m) ≡ false)

abbrev Missed : Fat16 → (DirEntry → Bool) → (k left : ℕ) → RootResult → Type 0
Missed v p k left r =
    (e : DirEntry) × (r ≡ missed e) × ((m : ℕ) → k ≤ m → m < k + left → p (root_entry v m) ≡ false)

module _ (v : Fat16) (p : DirEntry → Bool) where
  abbrev visit : DirEntry → Verdict
  visit e = if p e then accept else pass

  root_search-first :
      (left k : ℕ) (dir : DirEntry)
      → ((i : ℕ) × Found v p i k left (root_search v visit left k dir))
        ⊎ Missed v p k left (root_search v visit left k dir)
  unfolding root_search
  root_search-first zero k dir = inr (dir, refl, λ m a b. absurd (omega arith))
  root_search-first (suc left) k dir = elim (Bool-cases (p (root_entry v k))) [
    | inl t ↦
        inl (k, (rw (root_search, t), omega arith, omega arith, t, λ m a b. absurd (omega arith)))
    | inr f ↦ elim (root_search-first left (k + 1) (root_entry v k)) [
      | inl (i, (run, lo, hi, holds, before)) ↦ inl (
        i,
        (
          rw (root_search, f) run,
          omega arith,
          omega arith,
          holds,
          λ m a b. elim (ℕ_discrete m k) [ yes e ↦ rw e f | no ne ↦ before m (omega arith) b ],
        ),
      )
      | inr (e, run, before) ↦ inr (
        e,
        rw (root_search, f) run,
        λ m a b. elim (ℕ_discrete m k) [
          | yes q ↦ rw q f
          | no ne ↦ before m (omega arith) (omega arith)
        ],
      )
    ]
  ]

  -- No entry of the root directory has the property.
  abbrev pub NoEntry : Type 0
  NoEntry = (m : ℕ) → m < v.bpb.root_ent_cnt → p (root_entry v m) ≡ false

  -- The loop over the root directory leaves at the first entry with the property, or there is none.
  scan_root-IsFirst :
      (dir : DirEntry)
      → IsMounted v
      → ((k : ℕ) × (scan_root v visit dir ≡ found (k + 1) (k / 16 + 1) (root_entry v k))
          × IsFirst v p v.bpb.root_ent_cnt k)
        ⊎ ((e : DirEntry) × (scan_root v visit dir ≡ missed e) × NoEntry)
  scan_root-IsFirst dir mt = elim (root_search-first v.bpb.root_ent_cnt 0 dir) [
    | inl (k, (run, lo, hi, t, before)) ↦ inl (
      k,
      scan_root-search v visit dir mt.fits ∙ run,
      record { below = omega arith; holds = t; first = λ m h. before m (omega arith) h },
    )
    | inr (e, run, before) ↦
        inr (
          e,
          scan_root-search v visit dir mt.fits ∙ run,
          λ m h. before m (omega arith) (omega arith),
        )
  ]

-- On a volume with sectors of 512 bytes, whose root directory lies behind the tables and ends
-- below 2 ^ 32, `fat16_unlink` and `edit_size` find in the root directory the slot of the first
-- entry whose decoded name is the one looked for, and none only if there is no such entry.
pub locate_in_root-IsFirst :
    {v : Fat16} (name : List ℕ) (dir : DirEntry)
    → IsMounted v
    → ((k : ℕ) × (locate_in_root v name dir ≡ some (root_slot v k))
        × (slot_position v (root_slot v k) ≡ root_place v k)
        × IsFirst v (has_name name) v.bpb.root_ent_cnt k)
      ⊎ ((locate_in_root v name dir ≡ none) × NoEntry v (has_name name))
unfolding locate_in_root
locate_in_root-IsFirst {v} name dir mt = elim (scan_root-IsFirst v (has_name name) dir mt) [
  | inl (k, run, f) ↦ inl (k, rw (run, locate_in_root), slot_position-root mt k f.below, f)
  | inr (e, run, all) ↦ inr (rw (run, locate_in_root), all)
]

-- On a volume with sectors of 512 bytes, whose root directory lies behind the tables and ends
-- below 2 ^ 32, `fat16_mknod` finds the slot of the first free entry of the root directory, and
-- none only if no entry is free.
pub free_in_root-IsFirst :
    {v : Fat16} (dir : DirEntry)
    → IsMounted v
    → ((k : ℕ) × (free_in_root v dir ≡ some (root_slot v k))
        × (slot_position v (root_slot v k) ≡ root_place v k)
        × IsFirst v is_free v.bpb.root_ent_cnt k)
      ⊎ ((free_in_root v dir ≡ none) × NoEntry v is_free)
unfolding free_in_root
free_in_root-IsFirst {v} dir mt = elim (scan_root-IsFirst v is_free dir mt) [
  | inl (k, run, f) ↦ inl (k, rw (run, free_in_root), slot_position-root mt k f.below, f)
  | inr (e, run, all) ↦ inr (rw (run, free_in_root), all)
]
