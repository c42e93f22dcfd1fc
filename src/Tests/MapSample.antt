-- ===== src/Tests/MapSample.antt =====
-- The sample volume with "/a.txt" cut to three bytes holds a map of files.
use os2021_labscript.Common.{
  ℕ, zero, suc, Bool, ◌≤◌, ◌<◌, ◌≡◌, ◌∙◌, refl, sym, ap, inl, inr, arith, ◌==◌, ◌||◌, not, true,
  false, ltb, ge→ltb, if◌then◌else◌, same_text, List, [], ◌∷◌, some, none, get_or, ◌+◌,
}
use mathlib.Core.Path.{subst}
use native.Mathlib.Decide.{dec_lt}
use os2021_labscript.Fat16.Image.{store, bytes_of_dword, sector_read}
use os2021_labscript.Fat16.Update.Entries.{store-in}
use os2021_labscript.Fat16.Volume.{Fat16, entry_at, entry_of, first_byte}
use os2021_labscript.Fat16.Table.{fat_entry_by_cluster}
use os2021_labscript.Fat16.Names.{to_upper, to_lower, decode_from, path_decode}
use os2021_labscript.Fat16.Scan.Root.{root_entry}
use os2021_labscript.Fat16.Locate.{is_free}
use os2021_labscript.Fat16.Attr.{is_listed}
use os2021_labscript.Fat16.Files.Layout.{Layout-image}
use os2021_labscript.Fat16.FileMap.{
  Node, file, other, FileMap, update, FileAt, EntryAt, NodeAt, Holds, decoded,
}
use os2021_labscript.Fat16.FileMap.Change.{name_cases, some_inj}
use os2021_labscript.Fat16.FileMap.Room.{free_slots, free_clusters, count}
use os2021_labscript.Tests.SampleFiles.{
  layout, txt, txt_names, xyz, small, all_below, all_below-true, eq_false_of_not, closed_by,
}

abbrev pub flat : Fat16
flat = record small { image = store (store small.image 1564 (bytes_of_dword 3)) 2048 xyz }

abbrev pub dir_name : List ℕ
dir_name = b'd' ∷ []

-- "a.txt" with the bytes "xyz", and the directory "d"
abbrev pub flat_map : FileMap
flat_map = update (update (λ n. none) dir_name (some other)) (txt b'a') (some (file xyz))

abbrev pub flat_place : List ℕ → ℕ
flat_place n = if same_text (txt b'a') n then 0 else 1

flat_bytes : (i : ℕ) → i < 3 → flat.image (2048 + i) ≡ get_or xyz i 0
flat_bytes i h = store-in xyz (store small.image 1564 (bytes_of_dword 3)) 2048 i h

flat-FileAt : FileAt flat 200 (txt b'a') xyz 0
unfolding to_upper entry_at entry_of store fat_entry_by_cluster sector_read
flat-FileAt = record {
  below = omega arith;
  names = txt_names b'a' (omega arith) (omega arith);
  plain = (omega arith, omega arith);
  archive = refl;
  small = record { starts = refl; low = omega arith; below = omega arith; ends = refl };
  taken = λ z. absurd (omega (arith, z));
  size = refl;
  fits = omega arith;
  bytes = flat_bytes;
}

flat-EntryAt : EntryAt flat dir_name 1
unfolding entry_at entry_of store is_free is_listed path_decode decode_from to_lower
flat-EntryAt = record { below = omega arith; used = refl; named = refl; listed = refl }

flat-NodeAt :
    (n : List ℕ) (node : Node) → flat_map n ≡ some node → NodeAt flat 200 n (flat_place n) node
flat-NodeAt n node e = elim (name_cases (txt b'a') n) [
  | inl (q, t) ↦ rw t (
      subst (λ z. NodeAt flat 200 n 0 z) (some_inj (rw t at e))
        (subst (λ z. FileAt flat 200 z xyz 0) q flat-FileAt))
  | inr (ne, f) ↦
      let e' : update (λ n. none) dir_name (some other) n ≡ some node = rw f at e in
      elim (name_cases dir_name n) [
        | inl (q, t) ↦ rw f (
            subst (λ z. NodeAt flat 200 n 1 z) (some_inj (rw t at e'))
              (subst (λ z. EntryAt flat z 1) q flat-EntryAt))
        | inr (nd, g) ↦ let clash : none ≡ some node = rw g at e' in absurd (cc)
      ]
]

-- The entries from the third on are free, and end the directory.
free_above : (k : ℕ) → k < 16 → (ltb k 2 || is_free (root_entry flat k)) ≡ true
unfolding entry_at entry_of store is_free all_below
free_above = all_below-true (λ k. ltb k 2 || is_free (root_entry flat k)) 16 refl

used_below : (k : ℕ) → k < 16 → is_free (root_entry flat k) ≡ false → k < 2
used_below k h used = elim (dec_lt k 2) [
  | yes l ↦ l
  | no g ↦
      let clash : false ≡ true =
        sym used
        ∙ sym (ap (λ t. t || is_free (root_entry flat k)) (ge→ltb k 2 (omega arith)))
        ∙ free_above k h in
      absurd (cc)
]

abbrev Located : ℕ → Type 0
Located k =
    (node : Node) × (flat_map (decoded flat k) ≡ some node) × (flat_place (decoded flat k) ≡ k)

at_first : Located 0
unfolding entry_at entry_of store path_decode decode_from to_lower
at_first = (file xyz, refl, refl)

at_second : Located 1
unfolding entry_at entry_of store path_decode decode_from to_lower
at_second = (other, refl, refl)

located : (k : ℕ) → k < 2 → Located k
located zero h = at_first
located (suc zero) h = at_second
located (suc (suc k)) h = absurd (omega arith)

abbrev starts_zero : ℕ → Bool
starts_zero m = first_byte (root_entry flat m) == 0

in_use : (m : ℕ) → m < 2 → starts_zero m ≡ false
unfolding entry_at entry_of store all_below
in_use m h = eq_false_of_not _ (all_below-true (λ m. not (starts_zero m)) 2 refl m h)

unused : (m : ℕ) → m < 16 → (ltb m 2 || starts_zero m) ≡ true
unfolding entry_at entry_of store all_below
unused = all_below-true (λ m. ltb m 2 || starts_zero m) 16 refl

-- There is but one file.
one_file : (n bs : List ℕ) → flat_map n ≡ some (file bs) → txt b'a' ≡ n
one_file n bs e = elim (name_cases (txt b'a') n) [
  | inl (q, t) ↦ q
  | inr (ne, f) ↦
      let e' : update (λ n. none) dir_name (some other) n ≡ some (file bs) = rw f at e in
      elim (name_cases dir_name n) [
        | inl (q, t) ↦ let clash : some other ≡ some (file bs) = rw t at e' in absurd (cc)
        | inr (nd, g) ↦ let clash : none ≡ some (file bs) = rw g at e' in absurd (cc)
      ]
]

pub flat-Holds : Holds flat 200 flat_map flat_place
flat-Holds = record {
  layout = Layout-image layout flat.image;
  closed = closed_by (λ m. first_byte (root_entry flat m)) in_use unused;
  at = flat-NodeAt;
  all = λ k h used. located k (used_below k h used);
  apart = λ n m bs cs e e' ne. absurd (ne (sym (one_file n bs e) ∙ one_file m cs e'));
}

-- 14 entries of the root directory are free, and all but four of the clusters.
pub flat_slots : free_slots flat ≡ 14
unfolding free_slots count entry_at entry_of store is_free
flat_slots = refl

pub flat_clusters : 2 ≤ free_clusters flat 200
unfolding free_clusters count store fat_entry_by_cluster sector_read
flat_clusters = omega arith
