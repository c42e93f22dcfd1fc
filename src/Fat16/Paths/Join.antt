-- ===== src/Fat16/Paths/Join.antt =====
-- Paths that are put together from components.
use os2021_labscript.Common.{
  ℕ, ◌+◌, ◌-◌, ◌≡◌, ◌≢◌, ◌∙◌, refl, sym, ap, ==_of_ne, arith, List, [], ◌∷◌, ◌++◌, map, length,
  length-append, take, Option, some,
}
use mathlib.Core.List.{append-nil, append_assoc}
use os2021_labscript.Common.Outcome.{done}
use os2021_labscript.Common.Strtok.{tokens, tokens_from, NoSep, tokens_from_run}
use os2021_labscript.Fat16.Paths.{slash, depth, slots, org_path_split, last_slot, get_prt_path}

abbrev pub NoSlash : List ℕ → Type 0
NoSlash = NoSep slash

-- A component of a path: some bytes, and none of them a slash
abbrev pub IsComponent : List ℕ → Type 0
IsComponent [] = ⊥
IsComponent (c ∷ cs) = NoSlash (c ∷ cs)

abbrev pub AllComponents : List (List ℕ) → Type 0
AllComponents [] = Unit {0}
AllComponents (d ∷ ds) = IsComponent d × AllComponents ds

-- "/d1/d2/..."
abbrev pub join : List (List ℕ) → List ℕ
join [] = []
join (d ∷ ds) = slash ∷ (d ++ join ds)

tokens_from-join :
    (c : ℕ) (cur : List ℕ) (ds : List (List ℕ))
    → tokens_from slash (c ∷ cur) (join ds) ≡ (c ∷ cur) ∷ tokens_from slash [] (join ds)
unfolding tokens_from
tokens_from-join c cur [] = refl
tokens_from-join c cur (d ∷ ds) = refl

-- `strtok` gives the components back.
pub tokens-join : (ds : List (List ℕ)) → AllComponents ds → tokens slash (join ds) ≡ ds
unfolding tokens tokens_from
tokens-join [] h = refl
tokens-join ([] ∷ ds) h = absurd h.0
tokens-join ((c ∷ cs) ∷ ds) h =
    tokens_from_run slash [] (c ∷ cs) (join ds) h.0
    ∙ tokens_from-join c cs ds
    ∙ ap (λ l. (c ∷ cs) ∷ l) (tokens-join ds h.1)

depth-append : (d rest : List ℕ) → NoSlash d → depth (d ++ rest) ≡ depth rest
unfolding depth
depth-append [] rest h = refl
depth-append (c ∷ cs) rest h = rw (==_of_ne c slash h.0) (omega (arith, depth-append cs rest h.1))

NoSlash-of : (d : List ℕ) → IsComponent d → NoSlash d
NoSlash-of [] h = absurd h
NoSlash-of (c ∷ cs) h = h

-- `depth` counts them.
pub depth-join : (ds : List (List ℕ)) → AllComponents ds → depth (join ds) ≡ length ds
unfolding depth
depth-join [] h = refl
depth-join (d ∷ ds) h =
    omega (arith, depth-append d (join ds) (NoSlash-of d h.0), depth-join ds h.1)

pub slots-length : (ts : List (List ℕ)) → slots (length ts) ts ≡ map some ts
unfolding slots
slots-length [] = refl
slots-length (t ∷ ts) = ap (λ l. some t ∷ l) (slots-length ts)

pub slots-join :
    (ds : List (List ℕ))
    → AllComponents ds
    → slots (depth (join ds)) (tokens slash (join ds)) ≡ map some ds
slots-join ds h = rw (depth-join ds h, tokens-join ds h) (slots-length ds)

last_slot-map : (ds : List (List ℕ)) (n : List ℕ) → last_slot (map some (ds ++ (n ∷ []))) ≡ done n
unfolding last_slot
last_slot-map [] n = refl
last_slot-map (d ∷ []) n = refl
last_slot-map (d ∷ e ∷ ds) n = last_slot-map (e ∷ ds) n

join-append : (ds : List (List ℕ)) (n : List ℕ) → join (ds ++ (n ∷ [])) ≡ join ds ++ (slash ∷ n)
join-append [] n = ap (λ l. slash ∷ l) (append-nil n)
join-append (d ∷ ds) n =
    ap (λ l. slash ∷ l)
      (ap (λ l. d ++ l) (join-append ds n) ∙ sym (append_assoc d (join ds) (slash ∷ n)))

take-length : (xs ys : List ℕ) (k : ℕ) → k ≡ length xs → take k (xs ++ ys) ≡ xs
take-length [] ys k e = rw e
take-length (x ∷ xs) ys k e = rw e (ap (λ l. x ∷ l) (take-length xs ys (length xs) refl))

length-join : (ds : List (List ℕ)) (n : List ℕ) → length (ds ++ (n ∷ [])) ≡ length ds + 1
length-join ds n = length-append ds (n ∷ [])

-- The path of the parent directory
abbrev pub parent_path : List (List ℕ) → List ℕ
parent_path [] = slash ∷ []
parent_path (d ∷ ds) = join (d ∷ ds)

org_path_split-join :
    (ds : List (List ℕ)) → AllComponents ds → org_path_split (join ds) ≡ map some ds
unfolding org_path_split
org_path_split-join ds h = slots-join ds h

prt_path_short :
    (path : List ℕ) (os : List (Option (List ℕ))) (k : ℕ)
    → k ≡ 1
    → get_prt_path path os k ≡ done (slash ∷ [])
unfolding get_prt_path
prt_path_short path os k e = rw e

prt_path_long :
    (path : List ℕ) (os : List (Option (List ℕ))) (k : ℕ) {n : List ℕ}
    → k ≢ 1
    → last_slot os ≡ done n
    → get_prt_path path os k ≡ done (take (length path - length n - 1) path)
unfolding get_prt_path
prt_path_long path os k h e = rw (==_of_ne k 1 h) (rw e)

cut_last :
    (path xs n : List ℕ) → path ≡ xs ++ (slash ∷ n) → take (length path - length n - 1) path ≡ xs
cut_last path xs n e =
    rw e (take-length xs (slash ∷ n) _ (omega (arith, length-append xs (slash ∷ n))))

-- For a path with the components `ds` and then `n`, none of them empty and none with a slash,
-- `get_prt_path` cuts the last component off; of a path with one component it makes "/". What
-- `org_path_split` has last is `n`.
pub get_prt_path-join :
    (ds : List (List ℕ)) (n : List ℕ)
    → AllComponents (ds ++ (n ∷ []))
    → let path = join (ds ++ (n ∷ [])) in
      (get_prt_path path (org_path_split path) (depth path) ≡ done (parent_path ds))
      × (last_slot (org_path_split path) ≡ done n)
get_prt_path-join ds n h = (prt ds refl, last)
  where
    last : last_slot (org_path_split (join (ds ++ (n ∷ [])))) ≡ done n
    last = rw (org_path_split-join (ds ++ (n ∷ [])) h) (last_slot-map ds n)

    count : depth (join (ds ++ (n ∷ []))) ≡ length ds + 1
    count = depth-join (ds ++ (n ∷ [])) h ∙ length-join ds n

    prt :
        (es : List (List ℕ))
        → ds ≡ es
        → get_prt_path
            (join (ds ++ (n ∷ [])))
            (org_path_split (join (ds ++ (n ∷ []))))
            (depth (join (ds ++ (n ∷ []))))
          ≡ done (parent_path es)
    prt [] e = prt_path_short _ _ _ (count ∙ ap (λ l. length l + 1) e)
    prt (d ∷ es) e =
        prt_path_long _ _ _ (λ q. absurd (omega (arith, q, count, ap (λ l. length l) e))) last
        ∙ ap done (cut_last _ (join ds) n (join-append ds n) ∙ ap join e)
