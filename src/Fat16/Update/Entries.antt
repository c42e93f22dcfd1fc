-- ===== src/Fat16/Update/Entries.antt =====
-- What the writes of `edit_size`, `fat16_unlink` and `dir_entry_create` do to directory entries.
use os2021_labscript.Common.{
  ℕ, zero, suc, ◌+◌, ◌-◌, ◌^◌, ◌≤◌, ◌<◌, ◌≡◌, ◌≢◌, ◌∙◌, refl, sym, ap, ◌⊎◌, inl, inr, ==_of_ne, ltb,
  lt→ltb, ge→ltb, if◌then◌else◌, arith, List, [], ◌∷◌, length, get_or,
}
use mathlib.Core.Path.{fun_ext}
use native.Mathlib.Decide.{dec_lt}
use os2021_labscript.Fat16.Image.{Image, Buffer, store, bytes_of_dword}
use os2021_labscript.Fat16.Volume.{Fat16, entry_of, entry_at}
use os2021_labscript.Fat16.Scan.Root.{root_place, root_entry}

-- A store leaves every byte outside it.
pub store-out :
    (bs : List ℕ) (img : Image) (p q : ℕ) → (q < p) ⊎ (p + length bs ≤ q) → store img p bs q ≡ img q
unfolding store
store-out [] img p q h = refl
store-out (b ∷ bs) img p q (inl h) =
    rw (==_of_ne q p (omega arith)) (store-out bs img (p + 1) q (inl (omega arith)))
store-out (b ∷ bs) img p q (inr h) =
    rw (==_of_ne q p (omega arith)) (store-out bs img (p + 1) q (inr (omega arith)))

-- Byte `i` of what was stored
pub store-in :
    (bs : List ℕ) (img : Image) (p i : ℕ) → i < length bs → store img p bs (p + i) ≡ get_or bs i 0
unfolding store
store-in [] img p i h = absurd (omega arith)
store-in (b ∷ bs) img p zero h = ground arith
store-in (b ∷ bs) img p (suc i) h =
    let q : p + suc i ≡ p + 1 + i = omega arith in
    rw (==_of_ne (p + suc i) p (omega arith)) (rw q (store-in bs img (p + 1) i (omega arith)))

-- An entry depends on 32 bytes.
clip : Buffer → Buffer
clip b j = if ltb j 32 then b j else 0

entry_of-clip : (b : Buffer) → entry_of (clip b) ≡ entry_of b
unfolding entry_of clip
entry_of-clip b = refl

pub entry_of-cong : (b c : Buffer) → ((j : ℕ) → j < 32 → b j ≡ c j) → entry_of b ≡ entry_of c
unfolding clip
entry_of-cong b c h = sym (entry_of-clip b) ∙ ap entry_of (fun_ext same) ∙ entry_of-clip c
  where
    same : (j : ℕ) → clip b j ≡ clip c j
    same j = elim (dec_lt j 32) [ yes l ↦ rw (lt→ltb j 32 l) (h j l) | no g ↦ ground arith ]

-- A store inside one entry of the root directory leaves the other entries.
pub root_entry-apart :
    (v : Fat16) (k m d : ℕ) (bs : List ℕ)
    → k ≢ m
    → d + length bs ≤ 32
    → root_entry (record v { image = store v.image (root_place v k + d) bs }) m ≡ root_entry v m
unfolding entry_at
root_entry-apart v k m d bs h l =
    entry_of-cong _ _
      (λ j lt. store-out bs v.image (root_place v k + d) (root_place v m + j) (side j lt))
  where
    side :
        (j : ℕ)
        → j < 32
        → (root_place v m + j < root_place v k + d)
          ⊎ (root_place v k + d + length bs ≤ root_place v m + j)
    side j lt = elim (dec_lt m k) [ yes a ↦ inl (omega arith) | no b ↦ inr (omega arith) ]

-- The bytes of a buffer with `bs` from offset `d` on
unfoldable pub overlay : Buffer → ℕ → List ℕ → Buffer
overlay b d bs j =
    if ltb j d then b j else if ltb (j - d) (length bs) then get_or bs (j - d) 0 else b j

pub store-overlay :
    (img : Image) (p d : ℕ) (bs : List ℕ) (j : ℕ)
    → store img (p + d) bs (p + j) ≡ overlay (λ i. img (p + i)) d bs j
unfolding overlay
store-overlay img p d bs j = elim (dec_lt j d) [
  | yes l ↦ rw (lt→ltb j d l) (store-out bs img (p + d) (p + j) (inl (omega arith)))
  | no g ↦ elim (dec_lt (j - d) (length bs)) [
    | yes l ↦
        let q : p + j ≡ p + d + (j - d) = omega arith in
        rw (ge→ltb j d (omega arith), lt→ltb (j - d) (length bs) l, q)
          (store-in bs img (p + d) (j - d) l)
    | no h ↦
        rw (ge→ltb j d (omega arith), ge→ltb (j - d) (length bs) (omega arith))
          (store-out bs img (p + d) (p + j) (inr (omega arith)))
  ]
]

-- Writing the four bytes of the size changes that member and no other.
pub size_of_entry :
    (img : Image) (p size : ℕ)
    → size < 2 ^ 32
    → entry_at (store img (p + 28) (bytes_of_dword size)) p
      ≡ record (entry_at img p) { file_size = size }
unfolding entry_at entry_of overlay
size_of_entry img p size h =
    entry_of-cong _ _ (λ j l. store-overlay img p 28 (bytes_of_dword size) j)
    ∙ ap (λ z. record (entry_at img p) { file_size = z }) (omega arith)
