-- ===== src/Tests/NameExamples.antt =====
-- The theorems on paths and names, applied to "/d/ab.txt" and "/d.x/b.y".
use os2021_labscript.Common.{ℕ, ◌≡◌, refl, arith, List, [], ◌∷◌, ◌++◌, map}
use os2021_labscript.Common.Outcome.{done, undefined, exit, ◌>>=◌}
use os2021_labscript.Fat16.Paths.{depth, org_path_split, last_slot, get_prt_path}
use os2021_labscript.Fat16.Paths.Join.{AllComponents, join, parent_path, get_prt_path-join}
use os2021_labscript.Fat16.Names.{
  path_split, path_decode, decode_from, to_lower, convert_all, convert, fill, to_upper,
}
use os2021_labscript.Fat16.Names.Safe.{IsSplit, path_split-IsSplit}
use os2021_labscript.Fat16.Names.Split.{
  plain_name, short_name, dotted, path_split-file, path_split-two_dots,
}
use os2021_labscript.Fat16.Names.RoundTrip.{path_split-path_decode}
use os2021_labscript.Common.Strtok.{tokens, tokens_from}
use os2021_labscript.Fat16.Paths.{slots}
use os2021_labscript.Fat16.Bench.{test_path_decode, test_path_split, strcmp_eq}
use os2021_labscript.Tests.Sample.{raw}

abbrev dirs : List (List ℕ)
dirs = (b'd' ∷ []) ∷ []

abbrev base : List ℕ
base = b'a' ∷ b'b' ∷ []

abbrev ext : List ℕ
ext = b'x' ∷ b't' ∷ []

-- "ab.txt"
abbrev file : List ℕ
file = dotted base b't' ext

abbrev components : AllComponents (dirs ++ (file ∷ []))
components = (
  (omega arith, tt),
  (
    (omega arith, (omega arith, (omega arith, (omega arith, (omega arith, (omega arith, tt)))))),
    tt,
  ),
)

path_split-path_decode_example :
    (path_split raw (join (dirs ++ (file ∷ []))) >>= λ names. done (map path_decode names))
    ≡ done (dirs ++ (file ∷ []))
path_split-path_decode_example =
    path_split-path_decode raw dirs b'a' (b'b' ∷ []) b't' ext (λ i. refl) components
      (((omega arith, tt), (omega arith, refl, tt), omega arith), tt)
      ((omega arith, (omega arith, tt)), (omega arith, refl, (omega arith, refl, tt)), omega arith)
      (
        (omega arith, (omega arith, (omega arith, tt))),
        (omega arith, refl, (omega arith, refl, (omega arith, refl, tt))),
        omega arith,
      )

path_split-file_example :
    path_split raw (join (dirs ++ (file ∷ [])))
    ≡ done (map plain_name dirs ++ (short_name base (b't' ∷ ext) ∷ []))
path_split-file_example =
    path_split-file raw dirs base b't' ext (λ i. refl) components ((omega arith, tt), tt)
      (omega arith, (omega arith, tt)) (omega arith, (omega arith, (omega arith, tt)))

path_split-IsSplit_example :
    IsSplit (dirs ++ (file ∷ [])) (path_split raw (join (dirs ++ (file ∷ []))))
path_split-IsSplit_example = path_split-IsSplit raw (dirs ++ (file ∷ [])) (λ i. refl) components

path_split-two_dots_example :
    path_split raw (join ([] ++ (dotted base b'x' [] ∷ dotted base b'y' [] ∷ []))) ≡ exit 1
path_split-two_dots_example =
    path_split-two_dots raw [] base b'x' [] base b'y' [] (λ i. refl)
      (
        (omega arith, (omega arith, (omega arith, (omega arith, tt)))),
        ((omega arith, (omega arith, (omega arith, (omega arith, tt)))), tt),
      )
      tt (omega arith, (omega arith, tt)) (omega arith, tt) (omega arith, (omega arith, tt))
      (omega arith) (omega arith)

get_prt_path-join_example :
    let path = join (dirs ++ (file ∷ [])) in
    (get_prt_path path (org_path_split path) (depth path) ≡ done (parent_path dirs))
    × (last_slot (org_path_split path) ≡ done file)
get_prt_path-join_example = get_prt_path-join dirs file components

-- The tests of lab4/bench.h that need no image, on memory of zeros
test_path_decode_lem : test_path_decode ≡ done tt
unfolding test_path_decode path_decode decode_from to_lower
test_path_decode_lem = refl

test_path_split_lem : test_path_split raw ≡ undefined
unfolding test_path_split strcmp_eq path_split convert_all convert fill to_upper slots tokens
    tokens_from depth
test_path_split_lem = refl
