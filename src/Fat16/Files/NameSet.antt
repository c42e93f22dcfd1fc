-- ===== src/Fat16/Files/NameSet.antt =====
-- The root directory of lab4/simple_fat16_new.c as a set of names: what `fat16_mknod` and
-- `fat16_unlink` do to the list that `fat16_readdir` gives.
pub mod Create
pub mod Unlink
use os2021_labscript.Common.{
  ℕ, ◌+◌, ◌≤◌, ◌<◌, ◌≡◌, ◌≢◌, ◌↔◌, ◌∙◌, refl, sym, ap, ◌⊎◌, inl, inr, arith, ◌==◌, ◌&&◌, ◌||◌, not,
  ==_iff, ==_of_ne, true, false, Bool, Bool-cases, if◌then◌else◌, same_text, same_text_refl,
  eq_of_same_text, List, [], ◌∷◌, length, get_or, drop,
}
use mathlib.Core.Path.{subst}
use mathlib.Core.List.{Memᴰ}
use mathlib.Core.List.Memᴰ
use native.Mathlib.Decide.{ℕ_discrete}
use os2021_labscript.Common.Outcome.{Outcome, done}
use os2021_labscript.Fat16.Volume.{Fat16, DirEntry, first_byte, attr_archive}
use os2021_labscript.Fat16.Paths.{slash}
use os2021_labscript.Fat16.Names.{to_lower, decode_from, path_decode}
use os2021_labscript.Fat16.Scan.Root.{root_entry}
use os2021_labscript.Fat16.Locate.{has_name, is_free}
use os2021_labscript.Fat16.Locate.Root.{IsFirst, IsMounted}
use os2021_labscript.Fat16.Update.{Tm, Code, success}
use os2021_labscript.Fat16.Attr.{is_listed, fat16_readdir}
use os2021_labscript.Fat16.Attr.Listing.{ShownAt, fat16_readdir-ShownAt}
use os2021_labscript.Fat16.Files.Layout.{RootChanges}
use os2021_labscript.Fat16.Files.Names.{NamesFile}
use os2021_labscript.Fat16.Files.Search.{IsFile, NoNul-first}
use os2021_labscript.Fat16.Files.Create.{Created}
use os2021_labscript.Fat16.Files.Unlink.{deleted, deleted_name}

-- `fat16_readdir` of "/" gives the names of the set, in some order and number.
abbrev pub Represents : Fat16 → List (List ℕ) → Type 0
Represents v set =
    (fuel : ℕ) (raw : ℕ → List ℕ) (dir : DirEntry)
    → (names : List (List ℕ)) × (fat16_readdir fuel raw dir v (slash ∷ []) ≡ done (success, names))
      × ((n : List ℕ) → Memᴰ n names ↔ Memᴰ n set)

-- Behind an entry that ends the root directory there are only such entries.
abbrev pub IsClosed : Fat16 → Type 0
IsClosed v =
    (j m : ℕ)
    → j ≤ m
    → m < v.bpb.root_ent_cnt
    → first_byte (root_entry v j) ≡ 0
    → first_byte (root_entry v m) ≡ 0

-- The set without a name
abbrev pub remove : List ℕ → List (List ℕ) → List (List ℕ)
remove n [] = []
remove n (x ∷ xs) = if same_text x n then remove n xs else x ∷ remove n xs

pub remove-mem : (n x : List ℕ) (xs : List (List ℕ)) → Memᴰ x (remove n xs) ↔ (Memᴰ x xs × (x ≢ n))
remove-mem n x [] = (λ h. absurd (Memᴰ.not-nil h), λ h. absurd (Memᴰ.not-nil h.0))
remove-mem n x (y ∷ ys) = elim (Bool-cases (same_text y n)) [
  | inl t ↦
      let q : y ≡ n = eq_of_same_text y n t in
      rw t (
        λ h. let (m, ne) = (remove-mem n x ys).0 h in (Memᴰ.tail m, ne),
        λ (h, ne). elim (Memᴰ.cases_cons h) [
          | inl e ↦ absurd (ne (e ∙ q))
          | inr m ↦ (remove-mem n x ys).1 (m, ne)
        ],
      )
  | inr f ↦ rw f (
    λ h. elim (Memᴰ.cases_cons h) [
      | inl e ↦ (Memᴰ.head e, λ q. other y f (sym e ∙ q))
      | inr m ↦ let (m', ne) = (remove-mem n x ys).0 m in (Memᴰ.tail m', ne)
    ],
    λ (h, ne). elim (Memᴰ.cases_cons h) [
      | inl e ↦ Memᴰ.head e
      | inr m ↦ Memᴰ.tail ((remove-mem n x ys).1 (m, ne))
    ],
  )
]
  where
    other : (y : List ℕ) → same_text y n ≡ false → y ≢ n
    other y f q =
        let clash : true ≡ false = sym (ap (λ z. same_text z n) q ∙ same_text_refl n) ∙ f in cc

abbrev listing : List (List ℕ) → Outcome (Code × List (List ℕ))
listing names = done (success, names)

same_names : (a b : List (List ℕ)) → listing a ≡ listing b → a ≡ b
same_names a b h = cc

-- The names of the set are the names that are shown.
pub Represents-shown :
    {v : Fat16} (mt : IsMounted v) {set : List (List ℕ)} (rep : Represents v set) (n : List ℕ)
    → ((m : ℕ) × ShownAt v n m) ↔ Memᴰ n set
Represents-shown {v} mt rep n =
    let (names, run, shown) = fat16_readdir-ShownAt 0 (λ i. []) (root_entry v 0) v mt.fits in
    let (old, old_run, same) = rep 0 (λ i. []) (root_entry v 0) in
    let q : names ≡ old = same_names names old (sym run ∙ old_run) in
    (
      λ s. (same n).0 (subst (Memᴰ n) q ((shown n).1 s)),
      λ mem. (shown n).0 (subst (Memᴰ n) (sym q) ((same n).1 mem)),
    )

pub Represents-of :
    {v : Fat16} (mt : IsMounted v) {set : List (List ℕ)}
    → ((n : List ℕ) → ((m : ℕ) × ShownAt v n m) ↔ Memᴰ n set)
    → Represents v set
Represents-of {v} mt h fuel raw dir =
    let (names, run, shown) = fat16_readdir-ShownAt fuel raw dir v mt.fits in
    (names, run, λ n. (λ mem. (h n).0 ((shown n).0 mem), λ mem. (shown n).1 ((h n).1 mem)))

-- One entry has changed.
module _ {v v' : Fat16} {k : ℕ} {e : DirEntry} (ch : RootChanges v v' k e)
    (count : v'.bpb.root_ent_cnt ≡ v.bpb.root_ent_cnt) where
  pub RootChanges-back : RootChanges v' v k (root_entry v k)
  RootChanges-back = record {
    here = refl;
    apart = λ m h ne. sym (ch.apart m (omega (arith, count)) ne);
  }

  -- A name at another entry is still shown, unless the changed entry ends the directory before it.
  pub ShownAt-apart :
      (n : List ℕ) (m : ℕ) → k ≢ m → (k ≤ m → first_byte e ≢ 0) → ShownAt v n m → ShownAt v' n m
  ShownAt-apart n m ne used s = record {
    below = omega (arith, s.below, count);
    before = λ j l. elim (ℕ_discrete k j) [
      | yes q ↦
          λ z. used (omega arith) (sym (ap first_byte (ap (root_entry v') (sym q) ∙ ch.here)) ∙ z)
      | no other ↦
          λ z. s.before j l (sym (ap first_byte (ch.apart j (omega (arith, s.below)) other)) ∙ z)
    ];
    listed = ap is_listed (ch.apart m s.below ne) ∙ s.listed;
    named = ap (λ d. path_decode d.name) (ch.apart m s.below ne) ∙ s.named;
  }

at_deleted :
    (x : ℕ) (xs cs : List ℕ) → x ≢ 0xe5 → same_text (path_decode (0xe5 ∷ cs)) (x ∷ xs) ≡ false
unfolding path_decode decode_from to_lower
at_deleted x xs cs hx = rw (==_of_ne 0xe5 x (λ q. hx (sym q))) refl

pub decode_deleted :
    (name : List ℕ) (x : ℕ) (xs : List ℕ)
    → get_or name 0 0 ≡ 0xe5
    → x ≢ 0xe5
    → same_text (path_decode name) (x ∷ xs) ≡ false
decode_deleted [] x xs h hx = absurd (omega arith)
decode_deleted (c ∷ cs) x xs h hx =
    ap (λ z. same_text (path_decode (z ∷ cs)) (x ∷ xs)) h ∙ at_deleted x xs cs hx

-- The first of the 11 bytes of a name
module _ {path : List ℕ} {x : ℕ} {xs name : List ℕ} (nf : NamesFile path (x ∷ xs) name) where
  pub name_used : get_or name 0 0 ≢ 0
  name_used = NoNul-first name nf.no_nul (omega (arith, nf.eleven))

  pub name_kept : x ≢ 0xe5 → get_or name 0 0 ≢ 0xe5
  name_kept hx q =
      let clash : true ≡ false =
        sym (ap (λ z. same_text z (x ∷ xs)) nf.decodes ∙ same_text_refl (x ∷ xs))
        ∙ decode_deleted name x xs q hx in
      cc

-- A free entry is not shown.
pub free_not_listed : (e : DirEntry) → is_free e ≡ true → first_byte e ≢ 0 → is_listed e ≢ true
unfolding is_free is_listed
free_not_listed e free used h =
    let q : (first_byte e == 0) ≡ false = ==_of_ne _ 0 used in ground arith

pub is_free_used : (e : DirEntry) → is_free e ≡ false → first_byte e ≢ 0
unfolding is_free
is_free_used e h z = let q : (first_byte e == 0) ≡ true = (==_iff _ 0).1 z in ground arith
