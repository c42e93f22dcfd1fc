-- ===== src/Fat16/Names/RoundTrip.antt =====
-- Splitting a path and decoding the names gives the components back.
use os2021_labscript.Common.{ℕ, ◌≤◌, ◌≡◌, ap, List, [], ◌∷◌, ◌++◌, length, map}
use os2021_labscript.Common.Outcome.{done, ◌>>=◌}
use os2021_labscript.Fat16.Paths.Join.{AllComponents, join}
use os2021_labscript.Fat16.Names.{path_decode, path_split}
use os2021_labscript.Fat16.Names.Convert.{NoDots}
use os2021_labscript.Fat16.Names.Decode.{IsLower, path_decode-plain, path_decode-short}
use os2021_labscript.Fat16.Names.Split.{
  plain_name, short_name, dotted, AllPlain, IsRaw, path_split-file,
}

-- A name of 1 to `n` places, with no dot, no space and no capital
abbrev pub IsPlace : ℕ → List ℕ → Type 0
IsPlace n [] = ⊥
IsPlace n (c ∷ cs) = NoDots (c ∷ cs) × IsLower (c ∷ cs) × (length (c ∷ cs) ≤ n)

abbrev pub AllPlaces : List (List ℕ) → Type 0
AllPlaces [] = Unit {0}
AllPlaces (d ∷ ds) = IsPlace 8 d × AllPlaces ds

AllPlaces-AllPlain : (ds : List (List ℕ)) → AllPlaces ds → AllPlain ds
AllPlaces-AllPlain [] h = tt
AllPlaces-AllPlain ([] ∷ ds) h = absurd h.0
AllPlaces-AllPlain ((c ∷ cs) ∷ ds) h = (h.0.0, AllPlaces-AllPlain ds h.1)

map-decode :
    (ds : List (List ℕ)) (c : ℕ) (cs : List ℕ) (x : ℕ) (ext : List ℕ)
    → AllPlaces ds
    → IsPlace 8 (c ∷ cs)
    → IsPlace 3 (x ∷ ext)
    → map path_decode (map plain_name ds ++ (short_name (c ∷ cs) (x ∷ ext) ∷ []))
      ≡ ds ++ (dotted (c ∷ cs) x ext ∷ [])
map-decode [] c cs x ext h hb he =
    ap (λ l. l ∷ []) (path_decode-short c cs x ext hb.0.0 hb.1 hb.2 he.1 he.2)
map-decode ([] ∷ ds) c cs x ext h hb he = absurd h.0
map-decode ((d ∷ es) ∷ ds) c cs x ext h hb he =
    rw (path_decode-plain d es h.0.0.0 h.0.1 h.0.2) (rw (map-decode ds c cs x ext h.1 hb he))

-- For a path through directories to a file with an extension, whose names have no capitals,
-- spaces or further dots and are short enough for their 8 and 3 places, decoding what
-- `path_split` returns gives the components, whatever the 11 bytes of memory for each name held.
pub path_split-path_decode :
    (raw : ℕ → List ℕ) (ds : List (List ℕ)) (c : ℕ) (cs : List ℕ) (x : ℕ) (ext : List ℕ)
    → IsRaw raw
    → AllComponents (ds ++ (dotted (c ∷ cs) x ext ∷ []))
    → AllPlaces ds
    → IsPlace 8 (c ∷ cs)
    → IsPlace 3 (x ∷ ext)
    → (path_split raw (join (ds ++ (dotted (c ∷ cs) x ext ∷ []))) >>= λ names.
        done (map path_decode names))
      ≡ done (ds ++ (dotted (c ∷ cs) x ext ∷ []))
path_split-path_decode raw ds c cs x ext hr ha hd hb he =
    rw (path_split-file raw ds (c ∷ cs) x ext hr ha (AllPlaces-AllPlain ds hd) hb.0 he.0)
      (ap done (map-decode ds c cs x ext hd hb he))
