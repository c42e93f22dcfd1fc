-- ===== src/Shell/Split/Join.antt =====
-- What `split_string` of lab2/lab2.2/lab2_shell.c makes of a line of commands.
use os2021_labscript.Common.{
  ℕ, zero, suc, ◌<◌, ◌≡◌, ◌≢◌, ◌∙◌, refl, sym, ap, arith, ==_of_ne, ==_refl, List, [], ◌∷◌, ◌++◌,
  map, length, replicate,
}
use mathlib.Core.Path.{ap₂}
use mathlib.Core.List.{append-nil, reverse, reverse-append, reverse-reverse}
use os2021_labscript.Common.Outcome.{done}
use os2021_labscript.Common.Strtok.{tokens, tokens_from, NoSep, tokens_from_run}
use os2021_labscript.Shell.Split.{space, trim_head, trim, clip_tokens, split_string}

-- The texts with a separator between each two
abbrev pub joined : ℕ → List (List ℕ) → List ℕ
joined sep [] = []
joined sep (t ∷ []) = t
joined sep (t ∷ u ∷ ts) = t ++ (sep ∷ joined sep (u ∷ ts))

-- A text between separators
abbrev pub IsPiece : ℕ → List ℕ → Type 0
IsPiece sep [] = ⊥
IsPiece sep (c ∷ cs) = NoSep sep (c ∷ cs)

abbrev pub AllPieces : ℕ → List (List ℕ) → Type 0
AllPieces sep [] = Unit {0}
AllPieces sep (t ∷ ts) = IsPiece sep t × AllPieces sep ts

tokens_from_last :
    (sep c : ℕ) (cs : List ℕ) → NoSep sep (c ∷ cs) → tokens_from sep [] (c ∷ cs) ≡ (c ∷ cs) ∷ []
unfolding tokens_from
tokens_from_last sep c cs h =
    ap (tokens_from sep []) (sym (append-nil (c ∷ cs))) ∙ tokens_from_run sep [] (c ∷ cs) [] h

tokens_from_sep :
    (sep c : ℕ) (cs rest : List ℕ)
    → NoSep sep (c ∷ cs)
    → tokens_from sep [] ((c ∷ cs) ++ (sep ∷ rest)) ≡ (c ∷ cs) ∷ tokens_from sep [] rest
unfolding tokens_from
tokens_from_sep sep c cs rest h =
    tokens_from_run sep [] (c ∷ cs) (sep ∷ rest) h ∙ rw (tokens_from, ==_refl sep) refl

tokens-joined : (sep : ℕ) (ts : List (List ℕ)) → AllPieces sep ts → tokens sep (joined sep ts) ≡ ts
unfolding tokens tokens_from
tokens-joined sep [] h = refl
tokens-joined sep ([] ∷ ts) h = absurd h.0
tokens-joined sep ((c ∷ cs) ∷ []) h = tokens_from_last sep c cs h.0
tokens-joined sep ((c ∷ cs) ∷ t ∷ ts) h =
    tokens_from_sep sep c cs (joined sep (t ∷ ts)) h.0
    ∙ ap (λ l. (c ∷ cs) ∷ l) (tokens-joined sep (t ∷ ts) h.1)

-- A command with the numbers of spaces before and behind it
abbrev pub Padded : Type 0
Padded = ℕ × List ℕ × ℕ

-- The command with its spaces
abbrev pub padded : Padded → List ℕ
padded (i, t, j) = replicate i space ++ (t ++ replicate j space)

-- The text has a first byte, which is no space.
abbrev pub Begins : List ℕ → Type 0
Begins [] = ⊥
Begins (c ∷ cs) = c ≢ space

-- A command neither begins nor ends with a space.
abbrev pub IsCommand : List ℕ → Type 0
IsCommand t = Begins t × Begins (reverse t)

trim_head_kept : (cs rest : List ℕ) → Begins cs → trim_head (cs ++ rest) ≡ cs ++ rest
unfolding trim_head
trim_head_kept [] rest h = absurd h
trim_head_kept (c ∷ []) [] h = refl
trim_head_kept (c ∷ []) (d ∷ ds) h = rw (==_of_ne c space h) refl
trim_head_kept (c ∷ d ∷ ds) rest h = rw (==_of_ne c space h) refl

trim_head_spaces :
    (i : ℕ) (cs rest : List ℕ)
    → Begins cs
    → trim_head (replicate i space ++ (cs ++ rest)) ≡ cs ++ rest
unfolding trim_head
trim_head_spaces zero cs rest h = trim_head_kept cs rest h
trim_head_spaces (suc zero) [] rest h = absurd h
trim_head_spaces (suc zero) (c ∷ cs) rest h = trim_head_kept (c ∷ cs) rest h
trim_head_spaces (suc (suc i)) cs rest h = trim_head_spaces (suc i) cs rest h

replicate_end : (j a : ℕ) → replicate j a ++ (a ∷ []) ≡ a ∷ replicate j a
replicate_end zero a = refl
replicate_end (suc j) a = ap (λ l. a ∷ l) (replicate_end j a)

reverse-replicate : (j a : ℕ) → reverse (replicate j a) ≡ replicate j a
reverse-replicate zero a = refl
reverse-replicate (suc j) a =
    reverse-append (a ∷ []) (replicate j a)
    ∙ ap (λ l. l ++ (a ∷ [])) (reverse-replicate j a)
    ∙ replicate_end j a

trim-padded : (i j : ℕ) (t : List ℕ) → IsCommand t → trim (padded (i, t, j)) ≡ t
unfolding trim
trim-padded i j t h =
    ap (λ l. reverse (trim_head (reverse l))) (trim_head_spaces i t (replicate j space) h.0)
    ∙ ap (λ l. reverse (trim_head l))
        (reverse-append t (replicate j space)
          ∙ ap₂ (λ a b. a ++ b) (reverse-replicate j space) (sym (append-nil (reverse t))))
    ∙ ap reverse (trim_head_spaces j (reverse t) [] h.1 ∙ append-nil (reverse t))
    ∙ reverse-reverse t

abbrev pub command : Padded → List ℕ
command (i, t, j) = t

abbrev pub AllCommands : ℕ → List Padded → Type 0
AllCommands sep [] = Unit {0}
AllCommands sep (p ∷ ps) = IsCommand (command p) × NoSep sep (command p) × AllCommands sep ps

NoSep-append : (sep : ℕ) (xs ys : List ℕ) → NoSep sep xs → NoSep sep ys → NoSep sep (xs ++ ys)
NoSep-append sep [] ys h k = k
NoSep-append sep (x ∷ xs) ys h k = (h.0, NoSep-append sep xs ys h.1 k)

NoSep-replicate : (sep n : ℕ) → sep ≢ space → NoSep sep (replicate n space)
NoSep-replicate sep zero ne = tt
NoSep-replicate sep (suc n) ne = ((λ q. ne (sym q)), NoSep-replicate sep n ne)

IsPiece-NoSep :
    (sep : ℕ) (i : ℕ) (t rest : List ℕ)
    → Begins t
    → NoSep sep (replicate i space ++ (t ++ rest))
    → IsPiece sep (replicate i space ++ (t ++ rest))
IsPiece-NoSep sep zero [] rest b h = absurd b
IsPiece-NoSep sep zero (c ∷ cs) rest b h = h
IsPiece-NoSep sep (suc i) t rest b h = h

AllCommands-AllPieces :
    (sep : ℕ) (ps : List Padded) → sep ≢ space → AllCommands sep ps → AllPieces sep (map padded ps)
AllCommands-AllPieces sep [] ne h = tt
AllCommands-AllPieces sep ((i, t, j) ∷ ps) ne h = (
  IsPiece-NoSep sep i t (replicate j space) h.0.0 (
      NoSep-append sep (replicate i space) _ (NoSep-replicate sep i ne)
        (NoSep-append sep t (replicate j space) h.1 (NoSep-replicate sep j ne))),
  AllCommands-AllPieces sep ps ne h.2,
)

map-trim :
    (sep : ℕ) (ps : List Padded) → AllCommands sep ps → map trim (map padded ps) ≡ map command ps
map-trim sep [] h = refl
map-trim sep ((i, t, j) ∷ ps) h =
    ap₂ (λ a as'. a ∷ as') (trim-padded i j t h.0) (map-trim sep ps h.2)

length-map : (f : Padded → List ℕ) (ps : List Padded) → length (map f ps) ≡ length ps
length-map f [] = refl
length-map f (p ∷ ps) = ap suc (length-map f ps)

clip_tokens_some :
    (cap : ℕ) (t : List ℕ) (ts : List (List ℕ))
    → length (t ∷ ts) < cap
    → clip_tokens cap (t ∷ ts) ≡ done (map trim (t ∷ ts))
unfolding clip_tokens
clip_tokens_some cap t ts h = ground arith

-- For one command or more, fewer than the array has places, none of which begins or ends with a
-- space or has the separator in it, where the separator is no space: `split_string` gives them back
-- from the line in which they stand with spaces around them and the separator between each two.
pub split_string-joined :
    (cap sep : ℕ) (p : Padded) (ps : List Padded)
    → sep ≢ space
    → AllCommands sep (p ∷ ps)
    → length (p ∷ ps) < cap
    → split_string cap sep (joined sep (map padded (p ∷ ps))) ≡ done (map command (p ∷ ps))
unfolding split_string
split_string-joined cap sep p ps ne h room =
    ap (clip_tokens cap)
      (tokens-joined sep (map padded (p ∷ ps)) (AllCommands-AllPieces sep (p ∷ ps) ne h))
    ∙ clip_tokens_some cap (padded p) (map padded ps) (omega (arith, length-map padded ps))
    ∙ ap done (map-trim sep (p ∷ ps) h)
