-- ===== src/Fat16/Attr/Listing.antt =====
-- Which names `fat16_readdir` of lab4/simple_fat16_new.c lists for the root directory.
use os2021_labscript.Common.{
  ℕ, zero, suc, ◌+◌, ◌*◌, ◌/◌, ◌^◌, ◌≤◌, ◌<◌, ◌≡◌, ◌≢◌, ◌↔◌, ◌∙◌, refl, sym, ap, ◌⊎◌, inl, inr,
  arith, ◌==◌, ==_iff, ==_of_ne, true, false, Bool, Bool-cases, if◌then◌else◌, List, [], ◌∷◌,
}
use mathlib.Core.Path.{ap₂}
use mathlib.Core.List.{Memᴰ}
use mathlib.Core.List.Memᴰ
use native.Mathlib.Decide.{ℕ_discrete}
use os2021_labscript.Common.Outcome.{done}
use os2021_labscript.Fat16.Image.{sector_read}
use os2021_labscript.Fat16.Volume.{Fat16, DirEntry, first_byte, entry_at}
use os2021_labscript.Fat16.Paths.{slash}
use os2021_labscript.Fat16.Names.{path_decode}
use os2021_labscript.Fat16.Scan.{entry_offset}
use os2021_labscript.Fat16.Scan.Root.{root_entry, entry_at-sector, crosses}
use os2021_labscript.Fat16.Update.{success}
use os2021_labscript.Fat16.Attr.{is_listed, list_entry, readdir_root, fat16_readdir}

-- The names of `left` entries from number `k` on, up to an entry that ends the directory
unfoldable pub listed_from : Fat16 → (left k : ℕ) → List (List ℕ)
unfolding list_entry
listed_from v zero k = []
listed_from v (suc left) k = elim (first_byte (root_entry v k) == 0) [
  | true ↦ []
  | false ↦ list_entry (root_entry v k) (listed_from v left (k + 1))
]

-- The buffer then holds the sector of entry `k + 1`, if there is one.
next_sector :
    (v : Fat16) (left k : ℕ)
    → k + suc left ≡ v.bpb.root_ent_cnt
    → readdir_root v left (k + 1 + 1) (if crosses v k then k / 16 + 1 + 1 else k / 16 + 1) (
        if crosses v k
        then sector_read v.image (v.first_root_dir_sec_num + (k / 16 + 1))
        else sector_read v.image (v.first_root_dir_sec_num + k / 16))
      ≡ readdir_root v left
          (k + 1 + 1)
          ((k + 1) / 16 + 1)
          (sector_read v.image (v.first_root_dir_sec_num + (k + 1) / 16))
unfolding readdir_root
next_sector v zero k h = refl
next_sector v (suc left) k h = elim (Bool-cases (crosses v k)) [
  | inl t ↦ let q : (k + 1) / 16 ≡ k / 16 + 1 = ground arith in rw (t, q) refl
  | inr f ↦ let q : (k + 1) / 16 ≡ k / 16 = ground arith in rw (f, q) refl
]

readdir_root-listed :
    (v : Fat16) (left k : ℕ)
    → k + left ≡ v.bpb.root_ent_cnt
    → 512 * v.first_root_dir_sec_num + 32 * v.bpb.root_ent_cnt < 2 ^ 32
    → readdir_root v left
        (k + 1)
        (k / 16 + 1)
        (sector_read v.image (v.first_root_dir_sec_num + k / 16))
      ≡ listed_from v left k
unfolding readdir_root listed_from
readdir_root-listed v zero k e h = refl
readdir_root-listed v (suc left) k e h =
    let at : entry_at (sector_read v.image (v.first_root_dir_sec_num + k / 16))
          (entry_offset (k + 1))
        ≡ root_entry v k =
      entry_at-sector v k (omega arith) in
    elim (Bool-cases (first_byte (root_entry v k) == 0)) [
      | inl t ↦ rw (readdir_root, listed_from, at, t) refl
      | inr f ↦
          rw (readdir_root, listed_from, at, f)
            (ap₂ list_entry at
              (next_sector v left k e ∙ readdir_root-listed v left (k + 1) (omega arith) h))
    ]

-- Entry `m` of the root directory is listed under the name: it stands before the end of the
-- directory, is a file or a directory, and is not marked as deleted.
pub record ShownAt (v : Fat16) (n : List ℕ) (m : ℕ) : Type 0 where
  pub below : m < v.bpb.root_ent_cnt
  pub before : (j : ℕ) → j ≤ m → first_byte (root_entry v j) ≢ 0
  pub listed : is_listed (root_entry v m) ≡ true
  pub named : path_decode (root_entry v m).name ≡ n

-- What a name in the list of `left` entries from `k` on says
abbrev From : Fat16 → (left k : ℕ) → List ℕ → Type 0
From v left k n =
    (m : ℕ) × (k ≤ m)
    × (m < k + left)
    × ((j : ℕ) → k ≤ j → j ≤ m → first_byte (root_entry v j) ≢ 0)
    × (is_listed (root_entry v m) ≡ true)
    × (path_decode (root_entry v m).name ≡ n)

list_entry-cases :
    (e : DirEntry) (names : List (List ℕ)) (n : List ℕ)
    → Memᴰ n (list_entry e names)
    → ((is_listed e ≡ true) × (path_decode e.name ≡ n)) ⊎ Memᴰ n names
unfolding list_entry
list_entry-cases e names n h = elim (Bool-cases (is_listed e)) [
  | inl t ↦ elim (Memᴰ.cases_cons (rw (list_entry, t) at h)) [
    | inl q ↦ inl (t, sym q)
    | inr m ↦ inr m
  ]
  | inr f ↦ inr (rw (list_entry, f) at h)
]

abbrev is_end : Fat16 → ℕ → Bool
is_end v j = first_byte (root_entry v j) == 0

ne_zero : (v : Fat16) (j : ℕ) → is_end v j ≡ false → first_byte (root_entry v j) ≢ 0
ne_zero v j h z =
    let t : is_end v j ≡ true = (==_iff _ 0).1 z in let clash : true ≡ false = sym t ∙ h in cc

listed_from-From :
    (v : Fat16) (left k : ℕ) (n : List ℕ) → Memᴰ n (listed_from v left k) → From v left k n
unfolding listed_from
listed_from-From v zero k n h = absurd (Memᴰ.not-nil h)
listed_from-From v (suc left) k n h = elim (Bool-cases (first_byte (root_entry v k) == 0)) [
  | inl t ↦ absurd (Memᴰ.not-nil (rw (listed_from, t) at h))
  | inr f ↦ elim (list_entry-cases (root_entry v k) _ n (rw (listed_from, f) at h)) [
    | inl (shown, named) ↦ (
      k,
      omega arith,
      omega arith,
      λ j lo hi. let q : j ≡ k = omega arith in ne_zero v j (ap (is_end v) q ∙ f),
      shown,
      named,
    )
    | inr rest ↦
        let (m, lo, hi, before, shown, named) = listed_from-From v left (k + 1) n rest in
        (
          m,
          omega arith,
          omega arith,
          λ j a b. elim (ℕ_discrete j k) [
            | yes q ↦ ne_zero v j (ap (is_end v) q ∙ f)
            | no ne ↦ before j (omega arith) b
          ],
          shown,
          named,
        )
  ]
]

list_entry-tail :
    (e : DirEntry) (names : List (List ℕ)) (n : List ℕ) → Memᴰ n names → Memᴰ n (list_entry e names)
unfolding list_entry
list_entry-tail e names n h = elim (Bool-cases (is_listed e)) [
  | inl t ↦ rw (list_entry, t) (Memᴰ.tail h)
  | inr f ↦ rw (list_entry, f) h
]

list_entry-head :
    (e : DirEntry) (names : List (List ℕ))
    → is_listed e ≡ true
    → Memᴰ (path_decode e.name) (list_entry e names)
unfolding list_entry
list_entry-head e names t = rw (list_entry, t) (Memᴰ.head refl)

From-listed_from :
    (v : Fat16) (left k : ℕ) (n : List ℕ) → From v left k n → Memᴰ n (listed_from v left k)
unfolding listed_from
From-listed_from v zero k n (m, lo, hi, before, shown, named) = absurd (omega arith)
From-listed_from v (suc left) k n (m, lo, hi, before, shown, named) =
    rw (listed_from, ==_of_ne (first_byte (root_entry v k)) 0 (before k (omega arith) lo))
      (elim (ℕ_discrete k m) [
        | yes q ↦
            rw (← named, q) (list_entry-head (root_entry v m) (listed_from v left (m + 1)) shown)
        | no ne ↦ list_entry-tail (root_entry v k) _ n (
            From-listed_from v left (k + 1) n
              (m, omega arith, omega arith, λ j a b. before j (omega arith) b, shown, named))
      ])

-- If the root directory ends below 2 ^ 32, `fat16_readdir` of "/" returns 0, and a name is in its
-- list exactly if some entry has it, is a file or a directory and is not marked as deleted, and
-- neither that entry nor one before it ends the directory.
pub fat16_readdir-ShownAt :
    (fuel : ℕ) (raw : ℕ → List ℕ) (dir : DirEntry) (v : Fat16)
    → 512 * v.first_root_dir_sec_num + 32 * v.bpb.root_ent_cnt < 2 ^ 32
    → (names : List (List ℕ)) × (fat16_readdir fuel raw dir v (slash ∷ []) ≡ done (success, names))
      × ((n : List ℕ) → Memᴰ n names ↔ ((m : ℕ) × ShownAt v n m))
unfolding fat16_readdir
fat16_readdir-ShownAt fuel raw dir v h = (
  listed_from v v.bpb.root_ent_cnt 0,
  ap (λ names. done (success, names))
      (ap (λ z. readdir_root v v.bpb.root_ent_cnt 1 1 (sector_read v.image z)) first
        ∙ readdir_root-listed v v.bpb.root_ent_cnt 0 (omega arith) h),
  λ n. (
    λ mem.
        let (m, lo, hi, before, shown, named) = listed_from-From v v.bpb.root_ent_cnt 0 n mem in
        (
          m,
          record {
            below = omega arith;
            before = λ j l. before j (omega arith) l;
            listed = shown;
            named = named;
          },
        ),
    λ (m, s).
        From-listed_from v v.bpb.root_ent_cnt 0 n
          (m, omega arith, omega (arith, s.below), λ j a b. s.before j b, s.listed, s.named),
  ),
)
  where
    first : v.first_root_dir_sec_num ≡ v.first_root_dir_sec_num + 0 / 16
    first = omega arith
