-- ===== src/Fat16/Files/NameSet/Create.antt =====
-- `fat16_mknod` of lab4/simple_fat16_new.c adds a name to those that `fat16_readdir` gives.
use os2021_labscript.Common.{
  ℕ, ◌≤◌, ◌<◌, ◌≡◌, ◌≢◌, ◌∙◌, refl, sym, ap, ◌⊎◌, inl, inr, arith, ==_of_ne, List, ◌∷◌, get_or,
}
use mathlib.Core.Path.{subst}
use mathlib.Core.List.{Memᴰ}
use mathlib.Core.List.Memᴰ
use native.Mathlib.Decide.{ℕ_discrete}
use os2021_labscript.Common.Outcome.{done}
use os2021_labscript.Fat16.Volume.{Fat16, DirEntry, first_byte}
use os2021_labscript.Fat16.Names.{path_decode}
use os2021_labscript.Fat16.Scan.Root.{root_entry}
use os2021_labscript.Fat16.Locate.{is_free}
use os2021_labscript.Fat16.Locate.Root.{IsFirst, IsMounted}
use os2021_labscript.Fat16.Update.{Tm, success}
use os2021_labscript.Fat16.Attr.{is_listed}
use os2021_labscript.Fat16.Attr.Listing.{ShownAt}
use os2021_labscript.Fat16.Files.Names.{NamesFile}
use os2021_labscript.Fat16.Files.Create.{Created}
use os2021_labscript.Fat16.Files.Layout.{Layout}
use os2021_labscript.Fat16.Table.{fat_entry_by_cluster}
use os2021_labscript.Fat16.Names.Split.{IsRaw}
use os2021_labscript.Fat16.Update.{fat16_mknod}
use os2021_labscript.Fat16.Files.Create.{fat16_mknod-file}
use os2021_labscript.Fat16.Files.NameSet.{
  Represents, IsClosed, Represents-shown, Represents-of, RootChanges-back, ShownAt-apart, name_used,
  name_kept, free_not_listed, is_free_used,
}

-- A file is made in root entry `k`: its name joins the names that are shown.
module _ {path : List ℕ} {x : ℕ} {xs name : List ℕ} (nf : NamesFile path (x ∷ xs) name)
    (hx : x ≢ 0xe5) {v v' : Fat16} {top : ℕ} {now : Tm} {k c : ℕ} (closed : IsClosed v)
    (first : IsFirst v is_free v.bpb.root_ent_cnt k) (cr : Created v top now name k c v') where
  count : v'.bpb.root_ent_cnt ≡ v.bpb.root_ent_cnt
  count = ap (λ t. t.bpb.root_ent_cnt) cr.others

  new_used : first_byte (root_entry v' k) ≢ 0
  new_used z = name_used nf (sym (ap first_byte cr.entry.here) ∙ z)

  new_shown : ShownAt v' (x ∷ xs) k
  unfolding is_listed
  new_shown = record {
    below = omega (arith, first.below, count);
    before = λ j l. elim (ℕ_discrete k j) [
      | yes q ↦ λ z. new_used (ap (λ i. first_byte (root_entry v' i)) q ∙ z)
      | no ne ↦ λ z.
          is_free_used (root_entry v j) (first.first j (omega arith))
            (sym (ap first_byte (cr.entry.apart j (omega (arith, first.below)) ne)) ∙ z)
    ];
    listed =
        ap is_listed cr.entry.here ∙ rw (==_of_ne (get_or name 0 0) 0xe5 (name_kept nf hx)) refl;
    named = ap (λ e. path_decode e.name) cr.entry.here ∙ nf.decodes;
  }

  shown_after : (n : List ℕ) (m : ℕ) → ShownAt v n m → ShownAt v' n m
  shown_after n m s =
      ShownAt-apart cr.entry count n m
        (λ q.
          free_not_listed (root_entry v m)
            (ap (λ i. is_free (root_entry v i)) (sym q) ∙ first.holds) (s.before m (omega arith))
            s.listed)
        (λ le. name_used nf) s

  shown_before : (n : List ℕ) (m : ℕ) → ShownAt v' n m → (n ≡ x ∷ xs) ⊎ ShownAt v n m
  shown_before n m s = elim (ℕ_discrete k m) [
    | yes q ↦ inl (
        sym s.named
        ∙ ap (λ i. path_decode (root_entry v' i).name) (sym q)
        ∙ ap (λ e. path_decode e.name) cr.entry.here
        ∙ nf.decodes)
    | no ne ↦
        let below : m < v.bpb.root_ent_cnt = omega (arith, s.below, count) in
        inr (
          ShownAt-apart (RootChanges-back cr.entry count) (sym count) n m ne
            (λ le z.
              s.before m (omega arith)
                (ap first_byte (cr.entry.apart m below ne) ∙ closed k m le below z))
            s)
  ]

  pub Created-IsClosed : IsClosed v'
  Created-IsClosed j m le h z = elim (ℕ_discrete k j) [
    | yes q ↦ absurd (new_used (ap (λ i. first_byte (root_entry v' i)) q ∙ z))
    | no ne ↦
        let below : m < v.bpb.root_ent_cnt = omega (arith, h, count) in
        let z' : first_byte (root_entry v j) ≡ 0 =
          sym (ap first_byte (cr.entry.apart j (omega arith) ne)) ∙ z in
        elim (ℕ_discrete k m) [
          | yes q ↦ absurd (is_free_used (root_entry v j) (first.first j (omega arith)) z')
          | no ne' ↦ ap first_byte (cr.entry.apart m below ne') ∙ closed j m le below z'
        ]
  ]

  pub Created-Represents :
      (set : List (List ℕ)) → IsMounted v → Represents v set → Represents v' ((x ∷ xs) ∷ set)
  Created-Represents set mt rep = Represents-of cr.layout.mounted (λ n. (
    λ (m, s). elim (shown_before n m s) [
      | inl e ↦ Memᴰ.head e
      | inr old ↦ Memᴰ.tail ((Represents-shown mt rep n).0 (m, old))
    ],
    λ mem. elim (Memᴰ.cases_cons mem) [
      | inl e ↦ (k, subst (λ z. ShownAt v' z k) (sym e) new_shown)
      | inr rest ↦ let (m, s) = (Represents-shown mt rep n).1 rest in (m, shown_after n m s)
    ],
  ))

-- On a volume with a `Layout`, for a path that by `NamesFile` names one component, which does not
-- start with the byte 0xe5: if behind an entry that ends the root directory there are only such
-- entries, root entry `k` is the first free one, the entry of some cluster from 2 on and below
-- `top` is empty, and the memory for each name has 11 bytes, `fat16_mknod` returns 0. Whatever
-- set of names `fat16_readdir` of "/" gave before, it then gives that set with the name of the
-- file, and the entries that end the root directory still stand last.
pub fat16_mknod-Represents :
    {path : List ℕ} (x : ℕ) {xs name : List ℕ} (nf : NamesFile path (x ∷ xs) name) {v : Fat16}
    {top : ℕ} (l : Layout v top) (now : Tm) (k : ℕ) (first : IsFirst v is_free v.bpb.root_ent_cnt k)
    (fuel : ℕ) (heap : ℕ → ℕ → List ℕ) (dir : DirEntry) (free : ℕ) (set : List (List ℕ))
    → x ≢ 0xe5
    → IsClosed v
    → IsRaw (heap 0)
    → 2 ≤ free
    → free < top
    → fat_entry_by_cluster v free ≡ 0
    → Represents v set
    → (v' : Fat16) × (fat16_mknod fuel heap dir now v path ≡ done (v', success))
      × IsClosed v'
      × Represents v' ((x ∷ xs) ∷ set)
fat16_mknod-Represents x nf l now k first fuel heap dir free set hx closed hr lo hi z rep =
    let (v', c, run, cr) = fat16_mknod-file nf l now k first fuel heap dir free hr lo hi z in
    (
      v',
      run,
      Created-IsClosed nf hx closed first cr,
      Created-Represents nf hx closed first cr set l.mounted rep,
    )
