-- ===== src/Fat16/Files/Search.antt =====
-- Where `find_root`, `fat16_unlink` and `edit_size` find a file of the root directory.
use os2021_labscript.Common.{
  ℕ, ◌+◌, ◌/◌, ◌<◌, ◌≡◌, ◌≢◌, ◌∙◌, refl, sym, ap, inl, inr, arith, ◌==◌, ==_iff, ==_of_ne, true,
  false, Bool-cases, if◌then◌else◌, same_text, same_text_refl, some, List, [], ◌∷◌, length, get_or,
}
use os2021_labscript.Common.Outcome.{done}
use os2021_labscript.Fat16.Volume.{Fat16, DirEntry, first_byte, attr_archive, entry_at, entry_of}
use os2021_labscript.Fat16.Names.{path_decode}
use os2021_labscript.Fat16.Names.Split.{IsRaw}
use os2021_labscript.Fat16.Scan.{pass, accept, found, missed, scan_root}
use os2021_labscript.Fat16.Scan.Root.{root_entry, scan_root-search}
use os2021_labscript.Fat16.Scan.Found.{root_search-found, root_search-missed}
use os2021_labscript.Fat16.Lookup.{strncmp_eq, root_match, find_names, find_root}
use os2021_labscript.Fat16.Locate.{has_name, locate_in_root, locate}
use os2021_labscript.Fat16.Locate.Root.{IsMounted, root_slot}
use os2021_labscript.Fat16.Image.{Image}
use os2021_labscript.Fat16.Files.Layout.{with_image, SameRoot}
use os2021_labscript.Fat16.Files.Names.{NoNul, NamesFile, strncmp_eq_self, eq_of_strncmp_eq}

-- Entry `k` of the root directory is the file; before it there is no other entry of that name, and
-- no entry that ends the directory.
pub record IsFile (v : Fat16) (file name : List ℕ) (k : ℕ) : Type 0 where
  pub below : k < v.bpb.root_ent_cnt
  pub named : (root_entry v k).name ≡ name
  pub archive : (root_entry v k).attr ≡ attr_archive
  pub first : (m : ℕ) → m < k → has_name file (root_entry v m) ≡ false
  pub used : (m : ℕ) → m < k → first_byte (root_entry v m) ≢ 0

-- Writes that leave the root directory leave the file where it is.
pub IsFile-same :
    {v : Fat16} {img : Image} {file name : List ℕ} {k : ℕ}
    → SameRoot v (with_image v img)
    → IsFile v file name k
    → IsFile (with_image v img) file name k
IsFile-same {k} same is = record {
  below = is.below;
  named = ap (λ e. e.name) (same k is.below) ∙ is.named;
  archive = ap (λ e. e.attr) (same k is.below) ∙ is.archive;
  first = λ m l. ap (has_name _) (same m (omega (arith, is.below))) ∙ is.first m l;
  used = λ m l z. is.used m l (sym (ap first_byte (same m (omega (arith, is.below)))) ∙ z);
}

-- No entry of the root directory has the name.
abbrev pub NoFile : Fat16 → List ℕ → Type 0
NoFile v file = (m : ℕ) → m < v.bpb.root_ent_cnt → has_name file (root_entry v m) ≡ false

entry_name_length : (v : Fat16) (k : ℕ) → length (root_entry v k).name ≡ 11
unfolding entry_at entry_of
entry_name_length v k = refl

find_names_missed :
    (fuel : ℕ) (v : Fat16) (dir : DirEntry) (name : List ℕ) {e : DirEntry}
    → scan_root v (root_match name) dir ≡ missed e
    → find_names fuel v dir (name ∷ []) ≡ done (1, e)
unfolding find_names
find_names_missed fuel v dir name h = rw (find_names, h) refl

pub NoNul-first : (name : List ℕ) → NoNul name → 0 < length name → get_or name 0 0 ≢ 0
NoNul-first [] h l = absurd (omega arith)
NoNul-first (c ∷ cs) h l = h.0

module _ {path file name : List ℕ} (nf : NamesFile path file name) {v : Fat16} (mt : IsMounted v)
    (fuel : ℕ) (raw : ℕ → List ℕ) (dir : DirEntry) where
  -- An entry of another name does not end the loop of `find_root` with success.
  other_entry :
      (m : ℕ)
      → has_name file (root_entry v m) ≡ false
      → strncmp_eq 11 (root_entry v m).name name ≡ false
  unfolding has_name
  other_entry m h = elim (Bool-cases (strncmp_eq 11 (root_entry v m).name name)) [
    | inl t ↦
        let q : (root_entry v m).name ≡ name =
          eq_of_strncmp_eq 11 (root_entry v m).name name (entry_name_length v m) nf.eleven nf.no_nul
            t in
        let same : same_text (path_decode (root_entry v m).name) file ≡ true =
          ap (λ z. same_text (path_decode z) file) q
          ∙ ap (λ z. same_text z file) nf.decodes
          ∙ same_text_refl file in
        let clash : true ≡ false = sym same ∙ h in cc
    | inr f ↦ f
  ]

  root_match_other :
      (m : ℕ)
      → has_name file (root_entry v m) ≡ false
      → first_byte (root_entry v m) ≢ 0
      → root_match name (root_entry v m) ≡ pass
  unfolding root_match
  root_match_other m h used = rw (root_match, ==_of_ne _ 0 used, other_entry m h) refl

  -- The name of the file, and its first byte
  has_name-file : {k : ℕ} → IsFile v file name k → has_name file (root_entry v k) ≡ true
  unfolding has_name
  has_name-file is =
      ap (λ z. same_text (path_decode z) file) is.named
      ∙ ap (λ z. same_text z file) nf.decodes
      ∙ same_text_refl file

  root_match_file : (k : ℕ) → IsFile v file name k → root_match name (root_entry v k) ≡ accept
  unfolding root_match
  root_match_file k is =
      let a : strncmp_eq 11 (root_entry v k).name name ≡ true =
        ap (λ z. strncmp_eq 11 z name) is.named
        ∙ strncmp_eq_self 11 name (omega (arith, nf.eleven)) in
      let b : ((root_entry v k).attr == attr_archive) ≡ true =
        (==_iff (root_entry v k).attr attr_archive).1 is.archive in
      let nz : first_byte (root_entry v k) ≢ 0 = λ z.
        NoNul-first name nf.no_nul (omega (arith, nf.eleven))
          (sym (ap (λ t. get_or t 0 0) is.named) ∙ z) in
      rw (root_match, ==_of_ne (first_byte (root_entry v k)) 0 nz, a, b) refl

  find_names_file :
      (k : ℕ) → IsFile v file name k → find_names fuel v dir (name ∷ []) ≡ done (0, root_entry v k)
  unfolding find_names
  find_names_file k is =
      let run : scan_root v (root_match name) dir ≡ found (k + 1) (k / 16 + 1) (root_entry v k) =
        scan_root-search v (root_match name) dir mt.fits
        ∙ root_search-found v.bpb.root_ent_cnt 0 v (root_match name) k dir (omega arith)
            (omega (arith, is.below)) (root_match_file k is)
            (λ m l. root_match_other m (is.first m l) (is.used m l)) in
      rw (find_names, run, (==_iff (root_entry v k).attr attr_archive).1 is.archive) refl

  -- `find_root` returns the entry of the file.
  pub find_root-file :
      (k : ℕ)
      → IsRaw raw
      → IsFile v file name k
      → find_root fuel raw v dir path ≡ done (0, root_entry v k)
  unfolding find_root
  find_root-file k r is = rw (nf.split raw r) (find_names_file k is)

  root_match_none :
      (m : ℕ) → has_name file (root_entry v m) ≡ false → root_match name (root_entry v m) ≢ accept
  unfolding root_match
  root_match_none m h =
      let a : strncmp_eq 11 (root_entry v m).name name ≡ false = other_entry m h in ground arith

  -- `find_root` returns 1 where no entry has the name.
  pub find_root_missing :
      IsRaw raw → NoFile v file → (e : DirEntry) × (find_root fuel raw v dir path ≡ done (1, e))
  unfolding find_root find_names
  find_root_missing r none_such =
      let (e, run) =
        root_search-missed v.bpb.root_ent_cnt 0 v (root_match name) dir
          (λ m l. root_match_none m (none_such m (omega arith))) in
      let q : scan_root v (root_match name) dir ≡ missed e =
        scan_root-search v (root_match name) dir mt.fits ∙ run in
      (e, rw (nf.split raw r) (find_names_missed fuel v dir name q))

  locate_in_root-file :
      (k : ℕ) → IsFile v file name k → locate_in_root v file dir ≡ some (root_slot v k)
  unfolding locate_in_root
  locate_in_root-file k is =
      let run : scan_root v (λ e. if has_name file e then accept else pass) dir
          ≡ found (k + 1) (k / 16 + 1) (root_entry v k) =
        scan_root-search v _ dir mt.fits
        ∙ root_search-found v.bpb.root_ent_cnt 0 v _ k dir (omega arith) (omega (arith, is.below))
            (rw (has_name-file is) refl) (λ m l. rw (is.first m l) refl) in
      rw (locate_in_root, run) refl

  -- The slot of the file's entry in its parent directory
  pub locate-file :
      (k : ℕ) → IsFile v file name k → locate fuel raw v dir path ≡ done (some (root_slot v k))
  unfolding locate
  locate-file k is = rw (nf.parent, nf.last) (ap done (locate_in_root-file k is))
