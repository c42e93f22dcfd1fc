-- ===== src/Shell/Pipes/Tables.antt =====
-- Descriptor tables under `pipe`, `dup2` and `close`.
use os2021_labscript.Common.{
  ℕ, zero, suc, ◌≡◌, ◌≢◌, ◌∙◌, refl, sym, ap, [], ◌∷◌, Option, none, some, get_or, set,
}
use os2021_labscript.Shell.Pipes.{End, read_end, write_end, FdTable, open_fd, Pipe, make_pipe}

-- What a descriptor refers to; `none` for one that is closed or was never opened
abbrev pub at : FdTable → ℕ → Option End
at t fd = get_or t fd none

pub set_other : (t : FdTable) (i j : ℕ) (v : Option End) → j ≢ i → at (set t i v) j ≡ at t j
set_other [] i j v ne = refl
set_other (x ∷ t) zero zero v ne = absurd (ne refl)
set_other (x ∷ t) zero (suc j) v ne = refl
set_other (x ∷ t) (suc i) zero v ne = refl
set_other (x ∷ t) (suc i) (suc j) v ne = set_other t i j v (λ e. ne (ap suc e))

pub set-none : (t : FdTable) (i : ℕ) → at (set t i none) i ≡ none
set-none [] i = refl
set-none (x ∷ t) zero = refl
set-none (x ∷ t) (suc i) = set-none t i

pub set_here :
    (t : FdTable) (i : ℕ) (v : Option End) {e : End} → at t i ≡ some e → at (set t i v) i ≡ v
set_here [] i v h = cc
set_here (x ∷ t) zero v h = refl
set_here (x ∷ t) (suc i) v h = set_here t i v h

-- A new descriptor was free, and no other one has changed.
pub record Opened (t : FdTable) (e : End) (t' : FdTable) (n : ℕ) : Type 0 where
  pub free : at t n ≡ none
  pub here : at t' n ≡ some e
  pub others : (m : ℕ) → m ≢ n → at t' m ≡ at t m

behind :
    (x : End) (t t' : FdTable) (n : ℕ)
    → ((m : ℕ) → m ≢ n → at t' m ≡ at t m)
    → (m : ℕ) → m ≢ suc n
    → at (some x ∷ t') m ≡ at (some x ∷ t) m
behind x t t' n h zero ne = refl
behind x t t' n h (suc m) ne = h m (λ q. ne (ap suc q))

open_fd_lem : (t : FdTable) (e : End) → Opened t e (open_fd t e).0 (open_fd t e).1
unfolding open_fd
open_fd_lem [] e = record { free = refl; here = refl; others = only }
  where
    only : (m : ℕ) → m ≢ 0 → at (some e ∷ []) m ≡ at [] m
    only zero ne = absurd (ne refl)
    only (suc m) ne = refl
open_fd_lem (none ∷ t) e = record { free = refl; here = refl; others = rest }
  where
    rest : (m : ℕ) → m ≢ 0 → at (some e ∷ t) m ≡ at (none ∷ t) m
    rest zero ne = absurd (ne refl)
    rest (suc m) ne = refl
open_fd_lem (some x ∷ t) e =
    let o = open_fd_lem t e in
    record { free = o.free; here = o.here; others = behind x t _ _ o.others }

-- An open descriptor is none of those that are free.
pub apart : (t : FdTable) (i j : ℕ) {e : End} → at t i ≡ some e → at t j ≡ none → i ≢ j
apart t i j h g q = absurd (some_not_none (sym h ∙ ap (at t) q ∙ g))
  where
    some_not_none : {e : End} → some e ≢ none
    some_not_none h = cc

-- The two new descriptors of pipe number `k`
pub record Made (t : FdTable) (k : ℕ) (p : Pipe) : Type 0 where
  pub differ : p.fd0 ≢ p.fd1
  pub free0 : at t p.fd0 ≡ none
  pub free1 : at t p.fd1 ≡ none
  pub reads : at p.table p.fd0 ≡ some (read_end k)
  pub writes : at p.table p.fd1 ≡ some (write_end k)
  pub others : (m : ℕ) → m ≢ p.fd0 → m ≢ p.fd1 → at p.table m ≡ at t m

pub make_pipe_lem : (t : FdTable) (k : ℕ) → Made t k (make_pipe t k)
unfolding make_pipe
make_pipe_lem t k =
    let a = open_fd_lem t (read_end k) in
    let t1 = (open_fd t (read_end k)).0 in
    let b = open_fd_lem t1 (write_end k) in
    let ne : (open_fd t (read_end k)).1 ≢ (open_fd t1 (write_end k)).1 =
      apart t1 (open_fd t (read_end k)).1 (open_fd t1 (write_end k)).1 a.here b.free in
    record {
      differ = ne;
      free0 = a.free;
      free1 = sym (a.others _ (λ q. ne (sym q))) ∙ b.free;
      reads = b.others _ ne ∙ a.here;
      writes = b.here;
      others = λ m x y. b.others m y ∙ a.others m x;
    }
