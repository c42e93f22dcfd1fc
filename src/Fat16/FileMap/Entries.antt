-- ===== src/Fat16/FileMap/Entries.antt =====
-- Where the operations of lab4/simple_fat16_new.c find the entries of a volume that holds a map of
-- files: each name at its one place.
use os2021_labscript.Common.{
  ℕ, ◌<◌, ◌≡◌, ◌≢◌, ◌∙◌, refl, sym, ap, inl, inr, arith, ◌==◌, ==_iff, ==_of_ne, true, false,
  Bool-cases, same_text, eq_of_same_text, List, [], ◌∷◌, get_or, some, none,
}
use mathlib.Core.Path.{subst}
use os2021_labscript.Fat16.Volume.{DirEntry, first_byte, Fat16}
use os2021_labscript.Fat16.Names.{path_decode, decode_from, to_lower}
use os2021_labscript.Fat16.Scan.Root.{root_entry}
use os2021_labscript.Fat16.Locate.{has_name, is_free}
use os2021_labscript.Fat16.Files.Search.{IsFile, NoFile}
use os2021_labscript.Fat16.Files.NameSet.{decode_deleted, name_used, name_kept, is_free_used}
use os2021_labscript.Fat16.FileMap.{
  Node, file, other, FileMap, IsPlain, FileAt, NodeAt, decoded, Holds,
}

at_ended : (x : ℕ) (xs cs : List ℕ) → x ≢ 0 → same_text (path_decode (0 ∷ cs)) (x ∷ xs) ≡ false
unfolding path_decode decode_from to_lower
at_ended x xs cs hx = rw (==_of_ne 0 x (λ q. hx (sym q))) refl

decode_ended :
    (name : List ℕ) (x : ℕ) (xs : List ℕ)
    → get_or name 0 0 ≡ 0
    → x ≢ 0
    → same_text (path_decode name) (x ∷ xs) ≡ false
unfolding path_decode decode_from
decode_ended [] x xs h hx = refl
decode_ended (c ∷ cs) x xs h hx =
    ap (λ z. same_text (path_decode (z ∷ cs)) (x ∷ xs)) h ∙ at_ended x xs cs hx

-- A free entry does not have the name of a file.
pub free_name : (e : DirEntry) (n : List ℕ) → is_free e ≡ true → IsPlain n → has_name n e ≡ false
unfolding is_free has_name
free_name e [] free plain = absurd plain
free_name e (x ∷ xs) free plain = elim (Bool-cases (first_byte e == 0)) [
  | inl z ↦ decode_ended e.name x xs ((==_iff (first_byte e) 0).0 z) plain.0
  | inr nz ↦ decode_deleted e.name x xs ((==_iff (first_byte e) 0xe5).0 (rw nz at free)) plain.1
]

-- The entry of a file is in use.
pub FileAt-used :
    {v : Fat16} {top : ℕ} (n : List ℕ) {bs : List ℕ} {k : ℕ}
    → FileAt v top n bs k
    → is_free (root_entry v k) ≡ false
unfolding is_free
FileAt-used [] f = absurd f.plain
FileAt-used {v} (x ∷ xs) {k} f =
    let a : (first_byte (root_entry v k) == 0) ≡ false = ==_of_ne _ 0 (name_used f.names) in
    let b : (first_byte (root_entry v k) == 0xe5) ≡ false =
      ==_of_ne _ 0xe5 (name_kept f.names f.plain.1) in
    rw (a, b) refl

-- An entry of the map is in use, under its name.
pub NodeAt-used :
    (v : Fat16) (top : ℕ) (n : List ℕ) (k : ℕ) (node : Node)
    → NodeAt v top n k node
    → is_free (root_entry v k) ≡ false
NodeAt-used v top n k (file bs) f = FileAt-used n f
NodeAt-used v top n k other e = e.used

pub NodeAt-below :
    (v : Fat16) (top : ℕ) (n : List ℕ) (k : ℕ) (node : Node)
    → NodeAt v top n k node
    → k < v.bpb.root_ent_cnt
NodeAt-below v top n k (file bs) f = f.below
NodeAt-below v top n k other e = e.below

pub NodeAt-decoded :
    (v : Fat16) (top : ℕ) (n : List ℕ) (k : ℕ) (node : Node)
    → NodeAt v top n k node
    → decoded v k ≡ n
NodeAt-decoded v top n k (file bs) f = f.names.decodes
NodeAt-decoded v top n k other e = e.named

module _ {v : Fat16} {top : ℕ} {fs : FileMap} {place : List ℕ → ℕ} (h : Holds v top fs place) where
  -- Two names have two places.
  pub place_inj :
      (n m : List ℕ) (a b : Node) → fs n ≡ some a → fs m ≡ some b → place n ≡ place m → n ≡ m
  place_inj n m a b ea eb q =
      sym (NodeAt-decoded v top n (place n) a (h.at n a ea))
      ∙ ap (decoded v) q
      ∙ NodeAt-decoded v top m (place m) b (h.at m b eb)

  -- An entry with the name of a file is the one at the place of the name.
  pub named_place :
      (n : List ℕ) (m : ℕ)
      → IsPlain n
      → m < v.bpb.root_ent_cnt
      → has_name n (root_entry v m) ≡ true
      → (node : Node) × (fs n ≡ some node) × (place n ≡ m)
  unfolding has_name
  named_place n m plain below named = elim (Bool-cases (is_free (root_entry v m))) [
    | inl free ↦
        let clash : true ≡ false = sym named ∙ free_name (root_entry v m) n free plain in cc
    | inr used ↦
        subst (λ z. (node : Node) × (fs z ≡ some node) × (place z ≡ m))
          (eq_of_same_text (decoded v m) n named) (h.all m below used)
  ]

  -- No entry has a name that the map does not have.
  pub missing-NoFile : (n : List ℕ) → IsPlain n → fs n ≡ none → NoFile v n
  missing-NoFile n plain gone m below = elim (Bool-cases (has_name n (root_entry v m))) [
    | inl t ↦ let (node, e, at) = named_place n m plain below t in absurd (cc)
    | inr f ↦ f
  ]

  module _ (n bs : List ℕ) (is : fs n ≡ some (file bs)) where
    pub file_at : FileAt v top n bs (place n)
    file_at = h.at n (file bs) is

    pub other_names :
        (m : ℕ) → m < v.bpb.root_ent_cnt → place n ≢ m → has_name n (root_entry v m) ≡ false
    other_names m below ne = elim (Bool-cases (has_name n (root_entry v m))) [
      | inl t ↦ let (node, e, at) = named_place n m file_at.plain below t in absurd (ne at)
      | inr f ↦ f
    ]

    -- The operations find the file.
    pub place-IsFile : IsFile v n (root_entry v (place n)).name (place n)
    place-IsFile = record {
      below = file_at.below;
      named = refl;
      archive = file_at.archive;
      first = λ m l. other_names m (omega (arith, file_at.below)) (λ q. absurd (omega arith));
      used = λ m l z.
          is_free_used (root_entry v (place n)) (FileAt-used n file_at)
            (h.closed m (place n) (omega arith) file_at.below z);
    }
