-- ===== src/Fat16/Names/Decode.antt =====
-- `path_decode` gives a name back from its 11 bytes.
use os2021_labscript.Common.{
  ℕ, zero, suc, ◌+◌, ◌≤◌, ◌≡◌, ◌≢◌, ◌∙◌, refl, sym, ap, ◌⊎◌, inl, inr, ◌==◌, ==_of_ne, ◌&&◌,
  if◌then◌else◌, false, arith, List, [], ◌∷◌, ◌++◌, length, leb,
}
use mathlib.Core.List.{append-nil}
use os2021_labscript.Fat16.Names.{space, dot, to_upper, to_lower, decode_from, path_decode}
use os2021_labscript.Fat16.Names.Convert.{pad}

-- No space and no capital
abbrev pub IsLower : List ℕ → Type 0
IsLower [] = Unit {0}
IsLower (c ∷ cs) = (c ≢ space) × ((leb b'A' c && leb c b'Z') ≡ false) × IsLower cs

to_lower-to_upper : (c : ℕ) → (leb b'A' c && leb c b'Z') ≡ false → to_lower (to_upper c) ≡ c
unfolding to_lower to_upper
to_lower-to_upper c h = ground arith

to_upper-ne-space : (c : ℕ) → c ≢ space → to_upper c ≢ space
unfolding to_upper
to_upper-ne-space c h = ground arith

decode_space : (i : ℕ) (cs : List ℕ) → decode_from i (space ∷ cs) ≡ decode_from (i + 1) cs
unfolding decode_from
decode_space i cs = refl

decode_char :
    (i c : ℕ) (cs : List ℕ)
    → c ≢ space
    → (leb b'A' c && leb c b'Z') ≡ false
    → decode_from i (to_upper c ∷ cs)
      ≡ (if i == 8 then dot ∷ c ∷ decode_from (i + 1) cs else c ∷ decode_from (i + 1) cs)
unfolding decode_from
decode_char i c cs h k =
    rw (==_of_ne (to_upper c) space (to_upper-ne-space c h), to_lower-to_upper c k)

away : {i j : ℕ} → (j ≤ 8) ⊎ (9 ≤ i) → (j ≤ 8) ⊎ (9 ≤ i + 1)
away (inl h) = inl h
away (inr h) = inr (omega arith)

-- The places of a field that was cut to its characters, away from place 8
decode_pad :
    (n i j : ℕ) (cs rest : List ℕ)
    → IsLower cs
    → length cs ≤ n
    → i + n ≡ j
    → (j ≤ 8) ⊎ (9 ≤ i)
    → decode_from i (pad n cs ++ rest) ≡ cs ++ decode_from j rest
decode_pad zero i j [] rest h l e s = let q : i ≡ j = omega arith in rw q
decode_pad zero i j (c ∷ cs) rest h l e s = absurd (omega arith)
decode_pad (suc n) i j [] rest h l e s =
    decode_space i (pad n [] ++ rest)
    ∙ decode_pad n (i + 1) j [] rest h (omega arith) (omega arith) (away s)
decode_pad (suc n) i j (c ∷ cs) rest h l e s =
    decode_char i c (pad n cs ++ rest) h.0 h.1
    ∙ rw (==_of_ne i 8 (omega arith))
        (ap (λ l. c ∷ l) (decode_pad n (i + 1) j cs rest h.2 (omega arith) (omega arith) (away s)))

decode_nothing : (n i : ℕ) → decode_from i (pad n []) ≡ []
unfolding decode_from
decode_nothing zero i = refl
decode_nothing (suc n) i = decode_nothing n (i + 1)

decode_ext :
    (x : ℕ) (ext : List ℕ)
    → IsLower (x ∷ ext)
    → length (x ∷ ext) ≤ 3
    → decode_from 8 (pad 3 (x ∷ ext)) ≡ dot ∷ x ∷ ext
unfolding decode_from
decode_ext x ext h l =
    decode_char 8 x (pad 2 ext) h.0 h.1
    ∙ ap (λ l. dot ∷ x ∷ l)
        (ap (decode_from 9) (sym (append-nil (pad 2 ext)))
          ∙ decode_pad 2 9 11 ext [] h.2 (omega arith) refl (inr (omega arith))
          ∙ append-nil ext)

to_upper-ne-dot : (c : ℕ) → c ≢ dot → to_upper c ≢ dot
unfolding to_upper
to_upper-ne-dot c h = ground arith

-- A name that does not start with a dot is decoded by the loop.
decode_loop :
    (c : ℕ) (cs rest : List ℕ)
    → c ≢ dot
    → path_decode (pad 8 (c ∷ cs) ++ rest) ≡ decode_from 0 (pad 8 (c ∷ cs) ++ rest)
unfolding path_decode
decode_loop c cs rest h = rw (==_of_ne (to_upper c) dot (to_upper-ne-dot c h))

-- A name of 1 to 8 places without spaces and capitals is decoded to itself.
pub path_decode-plain :
    (c : ℕ) (cs : List ℕ)
    → c ≢ dot
    → IsLower (c ∷ cs)
    → length (c ∷ cs) ≤ 8
    → path_decode (pad 8 (c ∷ cs) ++ pad 3 []) ≡ c ∷ cs
path_decode-plain c cs h k l =
    decode_loop c cs (pad 3 []) h
    ∙ decode_pad 8 0 8 (c ∷ cs) (pad 3 []) k l refl (inl (omega arith))
    ∙ ap (λ l. (c ∷ cs) ++ l) (decode_nothing 3 8)
    ∙ append-nil (c ∷ cs)

-- And so is one with an extension of 1 to 3 places.
pub path_decode-short :
    (c : ℕ) (cs : List ℕ) (x : ℕ) (ext : List ℕ)
    → c ≢ dot
    → IsLower (c ∷ cs)
    → length (c ∷ cs) ≤ 8
    → IsLower (x ∷ ext)
    → length (x ∷ ext) ≤ 3
    → path_decode (pad 8 (c ∷ cs) ++ pad 3 (x ∷ ext)) ≡ (c ∷ cs) ++ (dot ∷ x ∷ ext)
path_decode-short c cs x ext h k l kx lx =
    decode_loop c cs (pad 3 (x ∷ ext)) h
    ∙ decode_pad 8 0 8 (c ∷ cs) (pad 3 (x ∷ ext)) k l refl (inl (omega arith))
    ∙ ap (λ l. (c ∷ cs) ++ l) (decode_ext x ext kx lx)
