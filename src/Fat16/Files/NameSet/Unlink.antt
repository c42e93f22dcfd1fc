-- ===== src/Fat16/Files/NameSet/Unlink.antt =====
-- `fat16_unlink` of lab4/simple_fat16_new.c takes a name from those that `fat16_readdir` gives.
use os2021_labscript.Common.{
  ℕ, ◌<◌, ◌≡◌, ◌≢◌, ◌∙◌, refl, sym, ap, arith, ◌&&◌, true, false, Bool, same_text, same_text_refl,
  List, ◌∷◌, length, get_or,
}
use native.Mathlib.Decide.{ℕ_discrete}
use os2021_labscript.Common.Outcome.{done}
use os2021_labscript.Fat16.Volume.{Fat16, DirEntry, first_byte}
use os2021_labscript.Fat16.Names.{path_decode}
use os2021_labscript.Fat16.Scan.Root.{root_entry}
use os2021_labscript.Fat16.Locate.{has_name}
use os2021_labscript.Fat16.Locate.Root.{IsMounted}
use os2021_labscript.Fat16.Update.{success}
use os2021_labscript.Fat16.Attr.{is_listed}
use os2021_labscript.Fat16.Attr.Listing.{ShownAt}
use os2021_labscript.Fat16.Files.Names.{NamesFile}
use os2021_labscript.Fat16.Files.Search.{IsFile}
use os2021_labscript.Fat16.Files.Unlink.{deleted}
use os2021_labscript.Fat16.Files.Layout.{Layout}
use os2021_labscript.Fat16.Table.Free.{IsFlat, IsChain}
use os2021_labscript.Fat16.Names.Split.{IsRaw}
use os2021_labscript.Fat16.Update.{fat16_unlink}
use os2021_labscript.Fat16.Files.Unlink.{Unlinked, fat16_unlink-file}
use os2021_labscript.Fat16.Files.NameSet.{
  Represents, IsClosed, remove, remove-mem, Represents-shown, Represents-of, RootChanges-back,
  ShownAt-apart, name_used,
}

and_false : (b : Bool) → (b && false) ≡ false
and_false true = refl
and_false false = refl

not_listed : (e : DirEntry) → is_listed (deleted e) ≡ false
unfolding is_listed
not_listed e = and_false _

-- The file in root entry `k` is unlinked: its name is no longer shown.
module _ {path : List ℕ} {x : ℕ} {xs name : List ℕ} (nf : NamesFile path (x ∷ xs) name)
    {v v' : Fat16} {top k : ℕ} {cs : List ℕ} (closed : IsClosed v) (is : IsFile v (x ∷ xs) name k)
    (others : (m : ℕ) → m < v.bpb.root_ent_cnt → k ≢ m → has_name (x ∷ xs) (root_entry v m) ≡ false)
    (u : Unlinked v top k cs v') where
  count : v'.bpb.root_ent_cnt ≡ v.bpb.root_ent_cnt
  count = ap (λ t. t.bpb.root_ent_cnt) u.others

  file_used : first_byte (root_entry v k) ≢ 0
  file_used z = name_used nf (sym (ap (λ n. get_or n 0 0) is.named) ∙ z)

  shown_after : (n : List ℕ) (m : ℕ) → n ≢ x ∷ xs → ShownAt v n m → ShownAt v' n m
  shown_after n m ne s =
      ShownAt-apart u.entry count n m
        (λ q. ne (
          sym s.named
          ∙ ap (λ i. path_decode (root_entry v i).name) (sym q)
          ∙ ap path_decode is.named
          ∙ nf.decodes))
        (λ le z. absurd (omega arith)) s

  shown_before : (n : List ℕ) (m : ℕ) → ShownAt v' n m → ShownAt v n m × (n ≢ x ∷ xs)
  unfolding has_name
  shown_before n m s = elim (ℕ_discrete k m) [
    | yes q ↦
        let clash : true ≡ false =
          sym s.listed
          ∙ ap (λ i. is_listed (root_entry v' i)) (sym q)
          ∙ ap is_listed u.entry.here
          ∙ not_listed (root_entry v k) in
        cc
    | no ne ↦
        let s' =
          ShownAt-apart (RootChanges-back u.entry count) (sym count) n m ne (λ le. file_used) s in
        (
          s',
          λ e.
              let clash : true ≡ false =
                sym (ap (λ z. same_text z (x ∷ xs)) (s'.named ∙ e) ∙ same_text_refl (x ∷ xs))
                ∙ others m s'.below ne in
              cc,
        )
  ]

  pub Unlinked-IsClosed : IsClosed v'
  Unlinked-IsClosed j m le h z = elim (ℕ_discrete k j) [
    | yes q ↦
        let w : 0xe5 ≡ 0 =
          sym (ap first_byte u.entry.here) ∙ ap (λ i. first_byte (root_entry v' i)) q ∙ z in
        absurd (omega (arith, w))
    | no ne ↦
        let below : m < v.bpb.root_ent_cnt = omega (arith, h, count) in
        let z' : first_byte (root_entry v j) ≡ 0 =
          sym (ap first_byte (u.entry.apart j (omega arith) ne)) ∙ z in
        elim (ℕ_discrete k m) [
          | yes q ↦
              absurd (file_used (ap (λ i. first_byte (root_entry v i)) q ∙ closed j m le below z'))
          | no ne' ↦ ap first_byte (u.entry.apart m below ne') ∙ closed j m le below z'
        ]
  ]

  Unlinked-Represents :
      (set : List (List ℕ)) → IsMounted v → Represents v set → Represents v' (remove (x ∷ xs) set)
  Unlinked-Represents set mt rep = Represents-of u.layout.mounted (λ n. (
    λ (m, s).
        let (s', ne) = shown_before n m s in
        (remove-mem (x ∷ xs) n set).1 ((Represents-shown mt rep n).0 (m, s'), ne),
    λ mem.
        let (old, ne) = (remove-mem (x ∷ xs) n set).0 mem in
        let (m, s) = (Represents-shown mt rep n).1 old in (m, shown_after n m ne s),
  ))

-- On a volume with a `Layout`, for a path that by `NamesFile` names one component: if behind an
-- entry that ends the root directory there are only such entries, root entry `k` is that file by
-- `IsFile`, no other entry has its name, the clusters of its chain are distinct and below `top`,
-- the fuel is at least their number, and the memory for each name has 11 bytes, `fat16_unlink`
-- returns 0. Whatever set of names `fat16_readdir` of "/" gave before, it then gives that set
-- without the name, and the entries that end the root directory still stand last.
pub fat16_unlink-Represents :
    {path : List ℕ} (x : ℕ) {xs name : List ℕ} (nf : NamesFile path (x ∷ xs) name) {v : Fat16}
    {top : ℕ} (l : Layout v top) (k : ℕ) (is : IsFile v (x ∷ xs) name k) (fuel : ℕ)
    (heap : ℕ → ℕ → List ℕ) (dir : DirEntry) (cs : List ℕ) (set : List (List ℕ))
    → IsClosed v
    → ((m : ℕ) → m < v.bpb.root_ent_cnt → k ≢ m → has_name (x ∷ xs) (root_entry v m) ≡ false)
    → ((i : ℕ) → IsRaw (heap i))
    → length cs < fuel
    → IsFlat top ((root_entry v k).fst_clus_lo ∷ cs)
    → IsChain v (root_entry v k).fst_clus_lo ((root_entry v k).fst_clus_lo ∷ cs)
    → Represents v set
    → (v' : Fat16) × (fat16_unlink fuel heap dir v path ≡ done (v', success))
      × IsClosed v'
      × Represents v' (remove (x ∷ xs) set)
fat16_unlink-Represents x nf l k is fuel heap dir cs set closed others hr enough flat chain rep =
    let (v', run, u) = fat16_unlink-file nf l k is fuel heap dir cs hr enough flat chain in
    (
      v',
      run,
      Unlinked-IsClosed nf closed is others u,
      Unlinked-Represents nf closed is others u set l.mounted rep,
    )
