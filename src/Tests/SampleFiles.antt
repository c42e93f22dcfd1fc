-- ===== src/Tests/SampleFiles.antt =====
-- Files on the sample volume, and what holds of it: its regions, its free entries and its names.
use os2021_labscript.Common.{
  ℕ, zero, suc, ◌≤◌, ◌<◌, ◌≡◌, ◌≢◌, ◌∙◌, refl, sym, ap, arith, true, false, not, ◌&&◌, ◌||◌, ◌==◌,
  ==_iff, ==_of_ne, ltb, ge→ltb, Bool, List, [], ◌∷◌,
}
use native.Mathlib.Decide.{ℕ_discrete, dec_lt}
use os2021_labscript.Common.Outcome.{done}
use os2021_labscript.Fat16.Volume.{Fat16, first_byte, entry_at, entry_of}
use os2021_labscript.Fat16.Image.{store}
use os2021_labscript.Fat16.Names.{to_upper, to_lower, decode_from, path_decode}
use os2021_labscript.Fat16.Names.Split.{dotted, short_name}
use os2021_labscript.Fat16.Scan.Root.{root_entry}
use os2021_labscript.Fat16.Locate.{has_name, is_free}
use os2021_labscript.Fat16.Locate.Root.{IsFirst}
use os2021_labscript.Fat16.Files.Layout.{Layout}
use os2021_labscript.Fat16.Files.Names.{NamesFile, dotted-NamesFile}
use os2021_labscript.Fat16.Files.Search.{IsFile, NoFile}
use os2021_labscript.Fat16.Table.{fat_entry_by_cluster, store_word}
use os2021_labscript.Fat16.Image.{sector_read}
use os2021_labscript.Fat16.Update.{Tm}
use os2021_labscript.Fat16.Files.Write.{IsSmall}
use os2021_labscript.Fat16.Attr.{readdir_root, fat16_readdir, list_entry, is_listed}
use os2021_labscript.Fat16.Files.NameSet.{Represents, IsClosed}
use os2021_labscript.Fat16.Lookup.{strncmp_eq, root_match}
use os2021_labscript.Fat16.Lookup.Loop.{IsClustered}
use os2021_labscript.Fat16.Lookup.Path.{Starts}
use os2021_labscript.Fat16.Names.{path_split, convert_all, convert, fill}
use os2021_labscript.Fat16.Paths.{slots, depth}
use os2021_labscript.Common.Strtok.{tokens, tokens_from}
use os2021_labscript.Tests.Sample.{raw, path_b, name_d, name_b, volume}

-- A test that holds for every number below `n`
unfoldable pub all_below : (ℕ → Bool) → ℕ → Bool
all_below p zero = true
all_below p (suc n) = p n && all_below p n

pub all_below-true : (p : ℕ → Bool) (n : ℕ) → all_below p n ≡ true → (m : ℕ) → m < n → p m ≡ true
unfolding all_below
all_below-true p zero h m l = absurd (omega arith)
all_below-true p (suc n) h m l = elim (ℕ_discrete m n) [
  | yes e ↦ rw e (ground (arith, h))
  | no ne ↦ all_below-true p n (ground (arith, h)) m (omega arith)
]

pub eq_false_of_not : (b : Bool) → not b ≡ true → b ≡ false
eq_false_of_not true h = cc
eq_false_of_not false h = refl

abbrev pub layout : Layout volume 200
layout = record {
  table = record { sector = refl; reach = omega arith; covers = omega arith; narrow = omega arith };
  mounted = record { sector = refl; start = refl; fits = omega arith };
  behind = omega arith;
  root_below = omega arith;
  reach = λ n h l. omega arith;
}

-- "c.txt", for a letter c
abbrev pub txt : ℕ → List ℕ
txt c = dotted (c ∷ []) b't' (b'x' ∷ b't' ∷ [])

abbrev pub path_n : List ℕ
path_n = b'/' ∷ txt b'n'

abbrev pub xyz : List ℕ
xyz = b'x' ∷ b'y' ∷ b'z' ∷ []

abbrev pub now : Tm
now = record { tm_sec = 30; tm_min = 10; tm_hour = 5; tm_mday = 3; tm_mon = 4; tm_year = 121 }

pub volume-NoFile : NoFile volume (txt b'n')
unfolding has_name path_decode decode_from to_lower all_below entry_at entry_of store
volume-NoFile m h =
    eq_false_of_not _
      (all_below-true (λ m. not (has_name (txt b'n') (root_entry volume m))) 16 refl m h)

-- The third entry of the root directory is its first free one.
pub volume-IsFirst : IsFirst volume is_free 16 2
unfolding is_free entry_at entry_of store all_below
volume-IsFirst = record {
  below = omega arith;
  holds = refl;
  first = λ m h.
      eq_false_of_not _ (all_below-true (λ m. not (is_free (root_entry volume m))) 2 refl m h);
}

pub txt_names :
    (c : ℕ)
    → b'a' ≤ c
    → c ≤ b'z'
    → NamesFile (b'/' ∷ txt c) (txt c) (short_name (c ∷ []) (b't' ∷ b'x' ∷ b't' ∷ []))
txt_names c lo hi =
    dotted-NamesFile c [] b't' (b'x' ∷ b't' ∷ [])
      ((omega arith, (omega arith, (omega arith, (omega arith, (omega arith, tt))))), tt)
      ((omega arith, tt), (omega arith, ground arith, tt), omega arith)
      (
        (omega arith, (omega arith, (omega arith, tt))),
        (omega arith, refl, (omega arith, refl, (omega arith, refl, tt))),
        omega arith,
      )
      (omega arith, tt) (omega arith, (omega arith, (omega arith, tt)))

-- "/a.txt" in the first entry
pub volume-IsFile : IsFile volume (txt b'a') (short_name (b'a' ∷ []) (b't' ∷ b'x' ∷ b't' ∷ [])) 0
unfolding to_upper entry_at entry_of store
volume-IsFile = record {
  below = omega arith;
  named = refl;
  archive = refl;
  first = λ m h. absurd (omega arith);
  used = λ m h z. absurd (omega arith);
}

-- "/a.txt" cut to its first cluster
abbrev pub small : Fat16
small = store_word volume 516 0xffff

pub small-IsFile : IsFile small (txt b'a') (short_name (b'a' ∷ []) (b't' ∷ b'x' ∷ b't' ∷ [])) 0
unfolding to_upper entry_at entry_of store
small-IsFile = record {
  below = omega arith;
  named = refl;
  archive = refl;
  first = λ m h. absurd (omega arith);
  used = λ m h z. absurd (omega arith);
}

pub small-IsSmall : IsSmall small 200 0 2
unfolding entry_at entry_of store fat_entry_by_cluster sector_read
small-IsSmall = record { starts = refl; low = omega arith; below = omega arith; ends = refl }

-- The first two entries of the sample are in use, and every entry behind them ends the directory.
abbrev starts_zero : ℕ → Bool
starts_zero m = first_byte (root_entry volume m) == 0

in_use : (m : ℕ) → m < 2 → starts_zero m ≡ false
unfolding entry_at entry_of store all_below
in_use m h = eq_false_of_not _ (all_below-true (λ m. not (starts_zero m)) 2 refl m h)

unused : (m : ℕ) → m < 16 → (ltb m 2 || starts_zero m) ≡ true
unfolding entry_at entry_of store all_below
unused = all_below-true (λ m. ltb m 2 || starts_zero m) 16 refl

pub closed_by :
    (f : ℕ → ℕ)
    → ((m : ℕ) → m < 2 → (f m == 0) ≡ false)
    → ((m : ℕ) → m < 16 → (ltb m 2 || (f m == 0)) ≡ true)
    → (j m : ℕ) → j ≤ m
    → m < 16
    → f j ≡ 0
    → f m ≡ 0
closed_by f used ends j m le h z = elim (dec_lt m 2) [
  | yes l ↦ let clash : true ≡ false = sym ((==_iff (f j) 0).1 z) ∙ used j (omega arith) in cc
  | no g ↦
      (==_iff (f m) 0).0 (sym (ap (λ t. t || (f m == 0)) (ge→ltb m 2 (omega arith))) ∙ ends m h)
]

pub volume-IsClosed : IsClosed volume
volume-IsClosed = closed_by (λ m. first_byte (root_entry volume m)) in_use unused

abbrev pub names : List (List ℕ)
names = txt b'a' ∷ (b'd' ∷ []) ∷ []

pub volume-Represents : Represents volume names
unfolding fat16_readdir readdir_root list_entry is_listed path_decode decode_from to_lower entry_at
    entry_of store sector_read
volume-Represents fuel raw dir = (names, refl, λ n. (λ h. h, λ h. h))

others_by :
    (p : ℕ → Bool)
    → ((m : ℕ) → m < 16 → ((m == 0) || not (p m)) ≡ true)
    → (m : ℕ) → m < 16
    → 0 ≢ m
    → p m ≡ false
others_by p h m l ne =
    eq_false_of_not (p m) (sym (ap (λ t. t || not (p m)) (==_of_ne m 0 (λ q. ne (sym q)))) ∙ h m l)

-- No entry but the first has the name "a.txt".
pub volume_others : (m : ℕ) → m < 16 → 0 ≢ m → has_name (txt b'a') (root_entry volume m) ≡ false
unfolding has_name path_decode decode_from to_lower all_below entry_at entry_of store
volume_others m h ne =
    others_by (λ m. has_name (txt b'a') (root_entry volume m))
      (all_below-true (λ m. (m == 0) || not (has_name (txt b'a') (root_entry volume m))) 16 refl) m
      h ne

pub clustered : IsClustered volume
clustered = record { low = omega arith; high = omega arith }

pub path_b_split : path_split raw path_b ≡ done (name_d ∷ name_b ∷ [])
unfolding path_split convert_all convert fill to_upper slots tokens tokens_from depth
path_b_split = refl

pub d-Starts : Starts volume name_d 1
unfolding root_match strncmp_eq entry_at entry_of store
d-Starts = record {
  below = omega arith;
  matches = refl;
  before =
      λ m h. let q : m ≡ 0 = omega arith in ap (λ i. root_match name_d (root_entry volume i)) q;
  directory = omega arith;
}
