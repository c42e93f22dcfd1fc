-- ===== src/Fat16/Names/Split.antt =====
-- What `path_split` makes of whole paths.
use os2021_labscript.Common.{
  ℕ, ◌+◌, ◌≤◌, ◌≡◌, ◌≢◌, ◌∙◌, refl, ==_of_ne, lt→ltb, Bool, true, false, arith, List, [], ◌∷◌, ◌++◌,
  length, map, set, some,
}
use os2021_labscript.Common.Outcome.{done, exit}
use os2021_labscript.Fat16.Paths.Join.{AllComponents, join, slots-join}
use os2021_labscript.Fat16.Names.{dot, to_upper, convert, convert_all, path_split}
use os2021_labscript.Fat16.Names.Convert.{pad, NoDots, convert_base, convert_dotted, step_ext}

-- The 11 bytes for a name without and with an extension
abbrev pub plain_name : List ℕ → List ℕ
plain_name base = pad 8 base ++ pad 3 []

abbrev pub short_name : List ℕ → List ℕ → List ℕ
short_name base ext = pad 8 base ++ pad 3 ext

abbrev pub dotted : List ℕ → ℕ → List ℕ → List ℕ
dotted base x ext = base ++ (dot ∷ x ∷ ext)

abbrev pub AllPlain : List (List ℕ) → Type 0
AllPlain [] = Unit {0}
AllPlain (d ∷ ds) = NoDots d × AllPlain ds

-- Memory of 11 bytes for every component
abbrev pub IsRaw : (ℕ → List ℕ) → Type 0
IsRaw raw = (i : ℕ) → length (raw i) ≡ 11

convert_all-file :
    (raw : ℕ → List ℕ) (ds : List (List ℕ)) (base : List ℕ) (x : ℕ) (ext : List ℕ) (i : ℕ)
    → IsRaw raw
    → AllPlain ds
    → NoDots base
    → NoDots (x ∷ ext)
    → convert_all raw i (map some (ds ++ (dotted base x ext ∷ []))) false
      ≡ done (map plain_name ds ++ (short_name base (x ∷ ext) ∷ []))
unfolding convert_all
convert_all-file raw [] base x ext i h p nb ne =
    rw (convert_dotted base [] (raw i) x ext true 0 8 nb ne refl (h i) refl)
convert_all-file raw (d ∷ ds) base x ext i h p nb ne =
    rw (convert_base d [] (raw i) true 0 8 p.0 refl (h i) refl)
      (rw (convert_all-file raw ds base x ext (i + 1) h p.1 nb ne))

-- For a path through directories whose names have no dot to a file with one dot in its name, not
-- the first or the last byte, each name is split into 8 and 3 places, in capitals, cut or filled
-- with spaces, whatever the 11 bytes of memory for it held.
pub path_split-file :
    (raw : ℕ → List ℕ) (ds : List (List ℕ)) (base : List ℕ) (x : ℕ) (ext : List ℕ)
    → IsRaw raw
    → AllComponents (ds ++ (dotted base x ext ∷ []))
    → AllPlain ds
    → NoDots base
    → NoDots (x ∷ ext)
    → path_split raw (join (ds ++ (dotted base x ext ∷ [])))
      ≡ done (map plain_name ds ++ (short_name base (x ∷ ext) ∷ []))
unfolding path_split
path_split-file raw ds base x ext h c p nb ne =
    rw (slots-join (ds ++ (dotted base x ext ∷ [])) c)
      (convert_all-file raw ds base x ext 0 h p nb ne)

-- The second dot: `flag` is still set from the component before.
step_exit :
    (first : Bool) (y : ℕ) (ext cells : List ℕ) (k nl e : ℕ)
    → y ≢ dot
    → convert first (dot ∷ y ∷ ext) cells k nl e true ≡ exit 1
unfolding convert
step_exit true y ext cells k nl e h = rw (==_of_ne y dot h)
step_exit false y ext cells k nl e h = refl

convert_stale :
    (base cells : List ℕ) (first : Bool) (y : ℕ) (ext : List ℕ) (k nl e : ℕ)
    → NoDots base
    → y ≢ dot
    → k ≡ e
    → e + length base ≤ 3
    → convert first (dotted base y ext) cells k nl e true ≡ exit 1
convert_stale [] cells first y ext k nl e nb ny hk h = step_exit first y ext cells k nl e ny
convert_stale (c ∷ cs) cells first y ext k nl e nb ny hk h =
    step_ext first c (dotted cs y ext) cells k nb.0 nl e (omega arith)
    ∙ rw (lt→ltb k 11 (omega arith)) (
        convert_stale cs (set cells k (to_upper c)) false y ext (k + 1) nl (e + 1) nb.1 ny
          (omega arith) (omega arith))

convert_all-two :
    (raw : ℕ → List ℕ) (ds : List (List ℕ)) (b1 : List ℕ) (x1 : ℕ) (e1 b2 : List ℕ) (x2 : ℕ)
    (e2 : List ℕ) (i : ℕ)
    → IsRaw raw
    → AllPlain ds
    → NoDots b1
    → NoDots (x1 ∷ e1)
    → NoDots b2
    → length b2 ≤ 3
    → x2 ≢ dot
    → convert_all raw i (map some (ds ++ (dotted b1 x1 e1 ∷ dotted b2 x2 e2 ∷ []))) false ≡ exit 1
unfolding convert_all
convert_all-two raw [] b1 x1 e1 b2 x2 e2 i h p n1 n1' n2 short n2' =
    rw (convert_dotted b1 [] (raw i) x1 e1 true 0 8 n1 n1' refl (h i) refl)
      (rw (convert_stale b2 (raw (i + 1)) true x2 e2 0 0 0 n2 n2' refl (omega arith)))
convert_all-two raw (d ∷ ds) b1 x1 e1 b2 x2 e2 i h p n1 n1' n2 short n2' =
    rw (convert_base d [] (raw i) true 0 8 p.0 refl (h i) refl)
      (rw (convert_all-two raw ds b1 x1 e1 b2 x2 e2 (i + 1) h p.1 n1 n1' n2 short n2'))

-- For a path through directories without dots, then a directory with a dot and an extension, and
-- in it a file with a dot behind at most 3 bytes and an extension that does not begin with a dot:
-- the process ends with `exit(1)`.
pub path_split-two_dots :
    (raw : ℕ → List ℕ) (ds : List (List ℕ)) (b1 : List ℕ) (x1 : ℕ) (e1 b2 : List ℕ) (x2 : ℕ)
    (e2 : List ℕ)
    → IsRaw raw
    → AllComponents (ds ++ (dotted b1 x1 e1 ∷ dotted b2 x2 e2 ∷ []))
    → AllPlain ds
    → NoDots b1
    → NoDots (x1 ∷ e1)
    → NoDots b2
    → length b2 ≤ 3
    → x2 ≢ dot
    → path_split raw (join (ds ++ (dotted b1 x1 e1 ∷ dotted b2 x2 e2 ∷ []))) ≡ exit 1
unfolding path_split
path_split-two_dots raw ds b1 x1 e1 b2 x2 e2 h c p n1 n1' n2 short n2' =
    rw (slots-join (ds ++ (dotted b1 x1 e1 ∷ dotted b2 x2 e2 ∷ [])) c)
      (convert_all-two raw ds b1 x1 e1 b2 x2 e2 0 h p n1 n1' n2 short n2')
