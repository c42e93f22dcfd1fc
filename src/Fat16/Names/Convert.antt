-- ===== src/Fat16/Names/Convert.antt =====
-- The 11 bytes that `path_split` makes of one component.
use os2021_labscript.Common.{
  ℕ, zero, suc, ◌+◌, ◌-◌, ◌≤◌, ◌<◌, ◌≡◌, ◌≢◌, ◌∙◌, refl, sym, ap, ◌==◌, ==_of_ne, Bool-cases, inl,
  inr, lt→ltb, Bool, true, false, arith, List, [], ◌∷◌, ◌++◌, length, length-append, drop, set,
}
use mathlib.Core.List.{append-nil, append_assoc}
use os2021_labscript.Common.Outcome.{done, ◌>>=◌}
use os2021_labscript.Fat16.Names.{space, dot, to_upper, fill, put_cell, convert}

-- `n` bytes of a field: capitals, cut, or filled with spaces
abbrev pub pad : ℕ → List ℕ → List ℕ
pad zero cs = []
pad (suc n) [] = space ∷ pad n []
pad (suc n) (c ∷ cs) = to_upper c ∷ pad n cs

abbrev pub NoDots : List ℕ → Type 0
NoDots [] = Unit {0}
NoDots (c ∷ cs) = (c ≢ dot) × NoDots cs

pub set-append : (w r : List ℕ) (k x v : ℕ) → k ≡ length w → set (w ++ (x ∷ r)) k v ≡ w ++ (v ∷ r)
set-append [] r k x v e = rw e
set-append (c ∷ w) r k x v e = rw e (ap (λ l. c ∷ l) (set-append w r (length w) x v refl))

pad-append : (n m k : ℕ) → n + m ≡ k → pad n [] ++ pad m [] ≡ pad k []
pad-append zero m k e = let q : m ≡ k = omega arith in rw q
pad-append (suc n) m zero e = absurd (omega arith)
pad-append (suc n) m (suc k) e = ap (λ l. space ∷ l) (pad-append n m k (omega arith))

pub length-pad : (n : ℕ) (cs : List ℕ) → length (pad n cs) ≡ n
length-pad zero cs = refl
length-pad (suc n) [] = ap suc (length-pad n [])
length-pad (suc n) (c ∷ cs) = ap suc (length-pad n cs)

snoc_append : (w r : List ℕ) (v : ℕ) → (w ++ (v ∷ [])) ++ r ≡ w ++ (v ∷ r)
snoc_append w r v = append_assoc w (v ∷ []) r

length-snoc : (w : List ℕ) (v k : ℕ) → k ≡ length w → k + 1 ≡ length (w ++ (v ∷ []))
length-snoc w v k e = omega (arith, length-append w (v ∷ []))

fill-append :
    (n k : ℕ) (w r : List ℕ)
    → k ≡ length w
    → n ≤ length r
    → k + n ≤ 11
    → fill n k (w ++ r) ≡ done (w ++ (pad n [] ++ drop n r))
unfolding fill
fill-append zero k w r e h room = refl
fill-append (suc n) k w [] e h room = absurd (omega arith)
fill-append (suc n) k w (x ∷ r) e h room =
    rw (lt→ltb k 11 (omega arith), set-append w r k x space e, ← snoc_append w r space)
      (fill-append n (k + 1) (w ++ (space ∷ [])) r (length-snoc w space k e) (omega arith)
          (omega arith)
        ∙ ap done (snoc_append w _ space))

drop_all : (n : ℕ) (r : List ℕ) → length r ≡ n → drop n r ≡ []
drop_all zero [] h = refl
drop_all zero (x ∷ r) h = absurd (omega arith)
drop_all (suc n) [] h = refl
drop_all (suc n) (x ∷ r) h = drop_all n r (omega arith)

-- The rest of the array is filled with spaces.
fill_rest :
    (n k : ℕ) (w r : List ℕ)
    → k ≡ length w
    → length r ≡ n
    → k + n ≤ 11
    → fill n k (w ++ r) ≡ done (w ++ pad n [])
fill_rest n k w r e h room =
    fill-append n k w r e (omega arith) room
    ∙ ap (λ l. done (w ++ l)) (rw (drop_all n r h) (rw append-nil))

-- One character of the name or of the extension goes to the next place.
put_next :
    (w r : List ℕ) (k x c : ℕ)
    → k ≡ length w
    → k < 11
    → put_cell (w ++ (x ∷ r)) k c ≡ done ((w ++ (c ∷ [])) ++ r)
put_next w r k x c e h = rw (lt→ltb k 11 h, set-append w r k x c e, snoc_append w r c)

module _ (first : Bool) (c : ℕ) (cs cells : List ℕ) (k : ℕ) (h : c ≢ dot) where
  step_full : (nl : ℕ) → convert first (c ∷ cs) cells k nl 3 true ≡ done (cells, true)
  unfolding convert
  step_full nl = elim (Bool-cases (nl == 8)) [
    | inl t ↦ rw (==_of_ne c dot h, t)
    | inr f ↦ rw (==_of_ne c dot h, f)
  ]

  pub step_ext :
      (nl e : ℕ)
      → e ≢ 3
      → convert first (c ∷ cs) cells k nl e true ≡ (
          put_cell cells k (to_upper c) >>= λ cells'.
          convert false cs cells' (k + 1) nl (e + 1) true)
  unfolding convert
  step_ext nl e he = elim (Bool-cases (nl == 8)) [
    | inl t ↦ rw (==_of_ne c dot h, t, ==_of_ne e 3 he)
    | inr f ↦ rw (==_of_ne c dot h, f, ==_of_ne e 3 he)
  ]

  step_name :
      (nl : ℕ)
      → nl ≢ 8
      → convert first (c ∷ cs) cells k nl 0 false ≡ (
          put_cell cells k (to_upper c) >>= λ cells'.
          convert false cs cells' (k + 1) (nl + 1) 0 false)
  unfolding convert
  step_name nl hn = rw (==_of_ne c dot h, ==_of_ne nl 8 hn)

  step_skip : convert first (c ∷ cs) cells k 8 0 false ≡ convert false cs cells 8 8 0 false
  unfolding convert
  step_skip = rw (==_of_ne c dot h)

-- The extension, with `8 + e` places of the array done: what is left of its three is filled.
convert_ext :
    (ext w r : List ℕ) (first : Bool) (k e n name_len : ℕ)
    → NoDots ext
    → k ≡ length w
    → length r ≡ n
    → k ≡ 8 + e
    → e + n ≡ 3
    → convert first ext (w ++ r) k name_len e true ≡ done (w ++ pad n ext, true)
unfolding convert
convert_ext [] w r first k e n nl nd hk hr he hn =
    let q : 11 - k ≡ n = omega arith in rw (q, fill_rest n k w r hk hr (omega arith)) refl
convert_ext (c ∷ cs) w [] first k e zero nl nd hk hr he hn =
    let q : e ≡ 3 = omega arith in rw q (step_full first c cs (w ++ []) k nd.0 nl)
convert_ext (c ∷ cs) w [] first k e (suc n) nl nd hk hr he hn = absurd (omega arith)
convert_ext (c ∷ cs) w (x ∷ r) first k e zero nl nd hk hr he hn = absurd (omega arith)
convert_ext (c ∷ cs) w (x ∷ r) first k e (suc n) nl nd hk hr he hn =
    step_ext first c cs (w ++ (x ∷ r)) k nd.0 nl e (omega arith)
    ∙ rw (put_next w r k x (to_upper c) hk (omega arith)) (
        convert_ext cs (w ++ (to_upper c ∷ [])) r false (k + 1) (e + 1) n nl nd.1
          (length-snoc w (to_upper c) k hk) (omega arith) (omega arith) (omega arith)
        ∙ ap (λ l. done (l, true)) (snoc_append w (pad n cs) (to_upper c)))

-- The name without an extension, with `k` places done
pub convert_base :
    (base w r : List ℕ) (first : Bool) (k n : ℕ)
    → NoDots base
    → k ≡ length w
    → length r ≡ n + 3
    → k + n ≡ 8
    → convert first base (w ++ r) k k 0 false ≡ done (w ++ (pad n base ++ pad 3 []), false)
unfolding convert
convert_base [] w r first k n nd hk hr hn =
    let q : 11 - k ≡ n + 3 = omega arith in
    rw (q, fill_rest (n + 3) k w r hk hr (omega arith))
      (ap (λ l. done (w ++ l, false)) (sym (pad-append n 3 (n + 3) refl)))
convert_base (c ∷ cs) w r first k zero nd hk hr hn =
    let q : k ≡ 8 = omega arith in
    rw q (
      step_skip first c cs (w ++ r) 8 nd.0
      ∙ convert_base cs w r false 8 zero nd.1 (sym q ∙ hk) hr refl)
convert_base (c ∷ cs) w [] first k (suc n) nd hk hr hn = absurd (omega arith)
convert_base (c ∷ cs) w (x ∷ r) first k (suc n) nd hk hr hn =
    step_name first c cs (w ++ (x ∷ r)) k nd.0 k (omega arith)
    ∙ rw (put_next w r k x (to_upper c) hk (omega arith)) (
        convert_base cs (w ++ (to_upper c ∷ [])) r false (k + 1) n nd.1
          (length-snoc w (to_upper c) k hk) (omega arith) (omega arith)
        ∙ ap (λ l. done (l, false)) (snoc_append w (pad n cs ++ pad 3 []) (to_upper c)))

step_dot :
    (first : Bool) (x : ℕ) (ext cells : List ℕ) (k nl : ℕ)
    → x ≢ dot
    → convert first (dot ∷ x ∷ ext) cells k nl 0 false
      ≡ (fill (8 - k) k cells >>= λ cells'. convert false (x ∷ ext) cells' 8 nl 0 true)
unfolding convert
step_dot true x ext cells k nl h = rw (==_of_ne x dot h)
step_dot false x ext cells k nl h = refl

length-drop : (n : ℕ) (r : List ℕ) → length (drop n r) ≡ length r - n
length-drop zero r = omega arith
length-drop (suc n) [] = omega arith
length-drop (suc n) (x ∷ r) = omega (arith, length-drop n r)

-- The name with an extension, with `k` places done
pub convert_dotted :
    (base w r : List ℕ) (x : ℕ) (ext : List ℕ) (first : Bool) (k n : ℕ)
    → NoDots base
    → NoDots (x ∷ ext)
    → k ≡ length w
    → length r ≡ n + 3
    → k + n ≡ 8
    → convert first (base ++ (dot ∷ x ∷ ext)) (w ++ r) k k 0 false
      ≡ done (w ++ (pad n base ++ pad 3 (x ∷ ext)), true)
unfolding convert
convert_dotted [] w r x ext first k n nd ne hk hr hn =
    let q : 8 - k ≡ n = omega arith in
    step_dot first x ext (w ++ r) k k ne.0
    ∙ rw
        (
          q,
          fill-append n k w r hk (omega arith) (omega arith),
          ← append_assoc w (pad n []) (drop n r),
        )
        (convert_ext (x ∷ ext) (w ++ pad n []) (drop n r) false 8 0 3 k ne
            (omega (arith, length-append w (pad n []), length-pad n []))
            (omega (arith, length-drop n r)) refl refl
          ∙ ap (λ l. done (l, true)) (append_assoc w (pad n []) (pad 3 (x ∷ ext))))
convert_dotted (c ∷ cs) w r x ext first k zero nd ne hk hr hn =
    let q : k ≡ 8 = omega arith in
    rw q (
      step_skip first c _ (w ++ r) 8 nd.0
      ∙ convert_dotted cs w r x ext false 8 zero nd.1 ne (sym q ∙ hk) hr refl)
convert_dotted (c ∷ cs) w [] x ext first k (suc n) nd ne hk hr hn = absurd (omega arith)
convert_dotted (c ∷ cs) w (y ∷ r) x ext first k (suc n) nd ne hk hr hn =
    step_name first c _ (w ++ (y ∷ r)) k nd.0 k (omega arith)
    ∙ rw (put_next w r k y (to_upper c) hk (omega arith)) (
        convert_dotted cs (w ++ (to_upper c ∷ [])) r x ext false (k + 1) n nd.1 ne
          (length-snoc w (to_upper c) k hk) (omega arith) (omega arith)
        ∙ ap (λ l. done (l, true)) (snoc_append w (pad n cs ++ pad 3 (x ∷ ext)) (to_upper c)))
