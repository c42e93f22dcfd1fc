-- ===== src/Fat16/Names/Safe.antt =====
-- `path_split` of lab4/simple_fat16_new.c stays inside the 11 bytes of each name, on every path.
use os2021_labscript.Common.{
  ℕ, zero, suc, ◌+◌, ◌-◌, ◌≤◌, ◌<◌, ◌≡◌, ◌≢◌, ◌∙◌, refl, sym, ap, arith, ◌⊎◌, inl, inr, ◌==◌,
  ==_iff, ◌&&◌, lt→ltb, length-set, if◌then◌else◌, Bool, true, false, List, [], ◌∷◌, length, map,
  some, set,
}
use os2021_labscript.Common.Outcome.{Outcome, done, exit, ◌>>=◌}
use os2021_labscript.Fat16.Names.{
  space, dot, to_upper, fill, put_cell, is_end, is_dot, Converted, convert, convert_all, path_split,
}
use os2021_labscript.Fat16.Names.Split.{IsRaw}
use os2021_labscript.Fat16.Paths.Join.{AllComponents, join, slots-join}

put_cell_lem :
    (cells : List ℕ) (k c : ℕ)
    → k < 11
    → length cells ≡ 11
    → (cells' : List ℕ) × (put_cell cells k c ≡ done cells') × (length cells' ≡ 11)
put_cell_lem cells k c h len = (set cells k c, rw (lt→ltb k 11 h) refl, length-set cells k c ∙ len)

fill_lem :
    (n k : ℕ) (cells : List ℕ)
    → k + n ≤ 11
    → length cells ≡ 11
    → (cells' : List ℕ) × (fill n k cells ≡ done cells') × (length cells' ≡ 11)
unfolding fill
fill_lem zero k cells h len = (cells, refl, len)
fill_lem (suc n) k cells h len =
    let (cells1, run1, len1) = put_cell_lem cells k space (omega arith) len in
    let (cells2, run2, len2) = fill_lem n (k + 1) cells1 (omega arith) len1 in
    (cells2, rw (run1) run2, len2)

-- A name of 11 bytes, or the exit of the process
abbrev Fits : Outcome Converted → Type 0
Fits r = ((x : Converted) × (r ≡ done x) × (length x.0 ≡ 11)) ⊎ (r ≡ exit 1)

Fits-done : (cells : List ℕ) (flag : Bool) → length cells ≡ 11 → Fits (done (cells, flag))
Fits-done cells flag h = inl ((cells, flag), refl, h)

Fits-if :
    (b : Bool) {x y : Outcome Converted}
    → (b ≡ true → Fits x)
    → (b ≡ false → Fits y)
    → Fits (if b then x else y)
Fits-if true f g = f refl
Fits-if false f g = g refl

-- A step that gives an array of 11 bytes, and what follows it
Fits-bind :
    {r : Outcome (List ℕ)} (f : List ℕ → Outcome Converted)
    → (cells' : List ℕ) × (r ≡ done cells') × (length cells' ≡ 11)
    → ((cells' : List ℕ) → length cells' ≡ 11 → Fits (f cells'))
    → Fits (r >>= f)
Fits-bind f (cells', run, len) g = rw run (g cells' len)

-- Where the loop stands: before the dot in the first 8 bytes, behind it in the last 3, or in a
-- component behind one with a dot
abbrev InField : (k name_len ext_len : ℕ) → Bool → Type 0
InField k name_len ext_len true = (k ≤ 8 + ext_len) × (ext_len ≤ 3)
InField k name_len ext_len false = (k ≤ name_len) × (name_len ≤ 8) × (ext_len ≡ 0)

and_false : (b : Bool) → (b && false) ≡ false
and_false true = refl
and_false false = refl

and_true : (b : Bool) → (b && true) ≡ b
and_true true = refl
and_true false = refl

next_place : (n m : ℕ) → (n == m) ≡ false → n ≤ m → n < m
next_place n m h le =
    let ne : n ≢ m = λ q. let clash : true ≡ false = sym ((==_iff n m).1 q) ∙ h in cc in
    omega (arith, ne)

-- "." and ".." are written as they are, with or without the flag.
dots-Fits :
    (first flag : Bool) (cs cells : List ℕ) {r : Outcome Converted}
    → length cells ≡ 11
    → Fits r
    → Fits (
        if first && is_end cs
        then (put_cell cells 0 dot >>= λ c1. fill 10 1 c1 >>= λ c2. done (c2, flag))
        else if first && is_dot cs
        then (put_cell cells 0 dot >>= λ c1.
            put_cell c1 1 dot >>= λ c2. fill 9 2 c2 >>= λ c3. done (c3, flag))
        else r)
dots-Fits first flag cs cells h x =
    Fits-if (first && is_end cs)
      (λ _.
        Fits-bind _ (put_cell_lem cells 0 dot (omega arith) h) (λ c1 h1.
          Fits-bind _ (fill_lem 10 1 c1 (omega arith) h1) (λ c2 h2. Fits-done c2 flag h2)))
      (λ _.
        Fits-if (first && is_dot cs)
          (λ _. Fits-bind _ (put_cell_lem cells 0 dot (omega arith) h) (λ c1 h1.
            Fits-bind _ (put_cell_lem c1 1 dot (omega arith) h1) (λ c2 h2.
              Fits-bind _ (fill_lem 9 2 c2 (omega arith) h2) (λ c3 h3. Fits-done c3 flag h3))))
          (λ _. x))

-- Where the loop stands, the array has room.
InField-room : (k name_len ext_len : ℕ) (flag : Bool) → InField k name_len ext_len flag → k ≤ 11
InField-room k nl el true i = omega (arith, i.0, i.1)
InField-room k nl el false i = omega (arith, i.0, i.1)

convert-Fits :
    (cs : List ℕ) (first flag : Bool) (cells : List ℕ) (k name_len ext_len : ℕ)
    → length cells ≡ 11
    → InField k name_len ext_len flag
    → Fits (convert first cs cells k name_len ext_len flag)
unfolding convert
convert-Fits [] first flag cells k nl el h i =
    let room = InField-room k nl el flag i in
    Fits-bind _ (fill_lem (11 - k) k cells (omega (arith, room)) h) (λ c1 h1. Fits-done c1 flag h1)
convert-Fits (c ∷ cs) first true cells k nl el h i =
    Fits-if (c == dot) (λ _. dots-Fits first true cs cells h (inr refl))
      (λ _.
        Fits-if ((nl == 8) && false)
          (λ t. let clash : true ≡ false = sym t ∙ and_false (nl == 8) in absurd (cc))
          (λ _.
            Fits-if (el == 3) (λ _. Fits-done cells true h)
              (λ ne.
                let lt : el < 3 = next_place el 3 ne i.1 in
                Fits-bind _ (put_cell_lem cells k (to_upper c) (omega (arith, i.0, lt)) h) (λ c1 h1.
                  convert-Fits cs false true c1 (k + 1) nl (el + 1) h1
                    (omega (arith, i.0), omega (arith, lt))))))
convert-Fits (c ∷ cs) first false cells k nl el h (low, le, z) =
    Fits-if (c == dot)
      (λ _. dots-Fits first false cs cells h (
        Fits-if (is_end cs) (λ _. inr refl)
          (λ _.
            Fits-bind _ (fill_lem (8 - k) k cells (omega arith) h)
              (λ c1 h1. convert-Fits cs false true c1 8 nl el h1 (omega arith, omega arith)))))
      (λ _.
        Fits-if ((nl == 8) && true)
          (λ t.
            convert-Fits cs false false cells 8 nl el h
              (omega (arith, (==_iff nl 8).0 (sym (and_true (nl == 8)) ∙ t)), le, z))
          (λ f.
            let lt : nl < 8 = next_place nl 8 (sym (and_true (nl == 8)) ∙ f) le in
            Fits-if (el == 3) (λ _. Fits-done cells false h)
              (λ _. Fits-bind _ (put_cell_lem cells k (to_upper c) (omega arith) h) (λ c1 h1.
                convert-Fits cs false false c1 (k + 1) (nl + 1) el h1
                  (omega arith, omega arith, z)))))

-- The 11 bytes of every name
abbrev pub AllEleven : List (List ℕ) → Type 0
AllEleven [] = Unit {0}
AllEleven (n ∷ ns) = (length n ≡ 11) × AllEleven ns

-- One name of 11 bytes for each component, or the exit of the process with the code 1
abbrev pub IsSplit : List (List ℕ) → Outcome (List (List ℕ)) → Type 0
IsSplit ts r =
    ((names : List (List ℕ)) × (r ≡ done names) × (length names ≡ length ts) × AllEleven names)
    ⊎ (r ≡ exit 1)

start-InField : (flag : Bool) → InField 0 0 0 flag
start-InField true = (omega arith, omega arith)
start-InField false = (omega arith, omega arith, refl)

convert_all-IsSplit :
    (raw : ℕ → List ℕ) (ts : List (List ℕ)) (i : ℕ) (flag : Bool)
    → IsRaw raw
    → IsSplit ts (convert_all raw i (map some ts) flag)
unfolding convert_all
convert_all-IsSplit raw [] i flag h = inl ([], refl, refl, tt)
convert_all-IsSplit raw (t ∷ ts) i flag h =
    elim (convert-Fits t true flag (raw i) 0 0 0 (h i) (start-InField flag)) [
      | inr stop ↦ inr (rw stop refl)
      | inl (x, run, len) ↦ elim (convert_all-IsSplit raw ts (i + 1) x.1 h) [
        | inr stop ↦ inr (rw (run, stop) refl)
        | inl (names, rest, all, eleven) ↦
            inl (x.0 ∷ names, rw (run, rest) refl, ap suc all, (len, eleven))
      ]
    ]

-- For every path that begins each component with one slash and has bytes between the slashes, with
-- 11 bytes of memory for each name: `path_split` writes only inside this memory. It returns one
-- name of 11 bytes for each component, or the process ends with `exit(1)`.
pub path_split-IsSplit :
    (raw : ℕ → List ℕ) (ts : List (List ℕ))
    → IsRaw raw
    → AllComponents ts
    → IsSplit ts (path_split raw (join ts))
unfolding path_split
path_split-IsSplit raw ts h c = rw (slots-join ts c) (convert_all-IsSplit raw ts 0 false h)
