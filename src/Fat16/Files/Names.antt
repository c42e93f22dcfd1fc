-- ===== src/Fat16/Files/Names.antt =====
-- A path of lab4/simple_fat16_new.c that names a file in the root directory.
use os2021_labscript.Common.{
  ℕ, zero, suc, ◌≤◌, ◌≡◌, ◌≢◌, ◌∙◌, refl, arith, ==_iff, true, List, [], ◌∷◌, ◌++◌, length,
  length-append,
}
use mathlib.Core.Path.{subst, sym}
use mathlib.Core.List.{append-nil}
use os2021_labscript.Common.Outcome.{done}
use os2021_labscript.Common.Strtok.{after_strtok, after_strtok-NoSep}
use os2021_labscript.Fat16.Paths.{slash, depth, org_path_split, last_slot, get_prt_path}
use os2021_labscript.Fat16.Paths.Join.{AllComponents, join, get_prt_path-join}
use os2021_labscript.Fat16.Names.{to_upper, path_split, path_decode}
use os2021_labscript.Fat16.Names.Convert.{pad, length-pad}
use os2021_labscript.Fat16.Names.Decode.{path_decode-short}
use os2021_labscript.Fat16.Names.Split.{dotted, short_name, IsRaw, path_split-file}
use os2021_labscript.Fat16.Names.RoundTrip.{IsPlace}
use os2021_labscript.Fat16.Lookup.{strncmp_eq}

-- No byte is NUL, as in every C string.
abbrev pub NoNul : List ℕ → Type 0
NoNul [] = Unit {0}
NoNul (c ∷ cs) = (c ≢ 0) × NoNul cs

-- The path has one component, `file`, and its 11 bytes in a directory are `name`.
pub record NamesFile (path file name : List ℕ) : Type 0 where
  pub split : (raw : ℕ → List ℕ) → IsRaw raw → path_split raw path ≡ done (name ∷ [])
  pub decodes : path_decode name ≡ file
  pub parent : get_prt_path path (org_path_split path) (depth path) ≡ done (slash ∷ [])
  -- `strtok` leaves the path as it is.
  pub uncut : after_strtok slash path ≡ path
  pub last : last_slot (org_path_split path) ≡ done file
  pub eleven : length name ≡ 11
  pub no_nul : NoNul name

NoNul-append : (xs ys : List ℕ) → NoNul xs → NoNul ys → NoNul (xs ++ ys)
NoNul-append [] ys h k = k
NoNul-append (x ∷ xs) ys h k = (h.0, NoNul-append xs ys h.1 k)

to_upper_pos : (c : ℕ) → c ≢ 0 → to_upper c ≢ 0
unfolding to_upper
to_upper_pos c h = ground arith

NoNul-pad : (n : ℕ) (cs : List ℕ) → NoNul cs → NoNul (pad n cs)
NoNul-pad zero cs h = tt
NoNul-pad (suc n) [] h = (omega arith, NoNul-pad n [] tt)
NoNul-pad (suc n) (c ∷ cs) h = (to_upper_pos c h.0, NoNul-pad n cs h.1)

-- "/base.ext", in lower case and short enough for its places
pub dotted-NamesFile :
    (c : ℕ) (cs : List ℕ) (x : ℕ) (ext : List ℕ)
    → AllComponents (dotted (c ∷ cs) x ext ∷ [])
    → IsPlace 8 (c ∷ cs)
    → IsPlace 3 (x ∷ ext)
    → NoNul (c ∷ cs)
    → NoNul (x ∷ ext)
    → NamesFile
        (join (dotted (c ∷ cs) x ext ∷ []))
        (dotted (c ∷ cs) x ext)
        (short_name (c ∷ cs) (x ∷ ext))
dotted-NamesFile c cs x ext whole hb he nb ne = record {
  split = λ raw r. path_split-file raw [] (c ∷ cs) x ext r whole tt hb.0 he.0;
  decodes = path_decode-short c cs x ext hb.0.0 hb.1 hb.2 he.1 he.2;
  parent = (get_prt_path-join [] (dotted (c ∷ cs) x ext) whole).0;
  uncut =
      subst (λ t. after_strtok slash (slash ∷ t) ≡ slash ∷ t)
        (sym (append-nil (dotted (c ∷ cs) x ext)))
        (after_strtok-NoSep slash (dotted (c ∷ cs) x ext) whole.0);
  last = (get_prt_path-join [] (dotted (c ∷ cs) x ext) whole).1;
  eleven =
      length-append (pad 8 (c ∷ cs)) (pad 3 (x ∷ ext))
      ∙ omega (arith, length-pad 8 (c ∷ cs), length-pad 3 (x ∷ ext));
  no_nul =
      NoNul-append (pad 8 (c ∷ cs)) (pad 3 (x ∷ ext)) (NoNul-pad 8 (c ∷ cs) nb)
        (NoNul-pad 3 (x ∷ ext) ne);
}

-- `strncmp` over the whole of a name
pub strncmp_eq_self : (n : ℕ) (xs : List ℕ) → n ≤ length xs → strncmp_eq n xs xs ≡ true
unfolding strncmp_eq
strncmp_eq_self zero xs h = refl
strncmp_eq_self (suc n) [] h = absurd (omega arith)
strncmp_eq_self (suc n) (x ∷ xs) h = ground (arith, ==_iff x x, strncmp_eq_self n xs)

pub eq_of_strncmp_eq :
    (n : ℕ) (xs ys : List ℕ)
    → length xs ≡ n
    → length ys ≡ n
    → NoNul ys
    → strncmp_eq n xs ys ≡ true
    → xs ≡ ys
unfolding strncmp_eq
eq_of_strncmp_eq zero [] [] lx ly h e = refl
eq_of_strncmp_eq zero [] (y ∷ ys) lx ly h e = absurd (omega arith)
eq_of_strncmp_eq zero (x ∷ xs) ys lx ly h e = absurd (omega arith)
eq_of_strncmp_eq (suc n) [] ys lx ly h e = absurd (omega arith)
eq_of_strncmp_eq (suc n) (x ∷ xs) [] lx ly h e = absurd (omega arith)
eq_of_strncmp_eq (suc n) (x ∷ xs) (y ∷ ys) lx ly h e =
    ground (arith, ==_iff x y, eq_of_strncmp_eq n xs ys (omega arith) (omega arith) h.1)
