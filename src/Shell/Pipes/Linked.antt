-- ===== src/Shell/Pipes/Linked.antt =====
-- The processes of a pipeline of lab2/lab2.2/lab2_shell.c are linked by the pipes between them.
use os2021_labscript.Common.{
  ℕ, ◌+◌, ◌≡◌, ◌≢◌, ◌∙◌, sym, ap, arith, true, false, List, [], ◌∷◌, none, some,
}
use native.Mathlib.Decide.{ℕ_discrete}
use os2021_labscript.Shell.Pipes.{
  End, read_end, write_end, FdTable, close_fd, dup_fd, Pipe, Child, Chain, chain_child, chain_close,
}
use os2021_labscript.Shell.Pipes.Tables.{at, set_other, set-none, set_here, apart, Made}

-- The standard input and output of a process
pub record Streams (t : FdTable) (input output : End) : Type 0 where
  pub stdin : at t 0 ≡ some input
  pub stdout : at t 1 ≡ some output

-- The first process reads `input`, the last one writes `output`, and pipe `i`, `i + 1`, ... is
-- between each and the next.
unfoldable pub AreLinked : (input output : End) → ℕ → List Child → Type 0
AreLinked input output i [] = Unit
AreLinked input output i (c ∷ []) = Streams c.fds input output
AreLinked input output i (c ∷ d ∷ cs) =
    Streams c.fds input (write_end i) × AreLinked (read_end i) output (i + 1) (d ∷ cs)

-- The shell's descriptors are what they were.
abbrev pub Same : (t t' : FdTable) → Type 0
Same t t' = (m : ℕ) → at t' m ≡ at t m

-- After the round before, which has made pipe `i`: apart from its read end, which is kept, the
-- descriptors are those of the start, `t`.
pub record Ready (t : FdTable) (i : ℕ) (s : Chain) : Type 0 where
  pub same : (m : ℕ) → m ≢ s.last_read_end → at s.table m ≡ at t m
  pub free : at t s.last_read_end ≡ none
  pub stale : at t s.fd1 ≡ none
  pub reads : at s.table s.last_read_end ≡ some (read_end i)

dup_streams :
    (q : FdTable) (r w : ℕ) {x y input output : End}
    → Streams q x y
    → at q r ≡ some input
    → at q w ≡ some output
    → r ≢ 1
    → Streams (dup_fd (dup_fd q w 1) r 0) input output
dup_streams q r w std reads writes ne = record {
  stdin =
      set_here (dup_fd q w 1) 0 _ (set_other q 1 0 _ (omega arith) ∙ std.stdin)
      ∙ set_other q 1 r _ ne
      ∙ reads;
  stdout = set_other (dup_fd q w 1) 0 1 _ (omega arith) ∙ set_here q 1 _ std.stdout ∙ writes;
}

pub made_streams :
    {t : FdTable} {a b : End} {k : ℕ} {p : Pipe} → Streams t a b → Made t k p → Streams p.table a b
made_streams {t} std made = record {
  stdin =
      made.others 0 (apart t 0 _ std.stdin made.free0) (apart t 0 _ std.stdin made.free1)
      ∙ std.stdin;
  stdout =
      made.others 1 (apart t 1 _ std.stdout made.free0) (apart t 1 _ std.stdout made.free1)
      ∙ std.stdout;
}

-- The chain after a call of `pipe` that succeeds
abbrev pub piped : Chain → Pipe → Chain
piped s p = record s { table = p.table; fd0 = p.fd0; fd1 = p.fd1; failed = false }

module _ {t : FdTable} {a b : End} (std : Streams t a b) where
  ready_streams : {i : ℕ} (s : Chain) → Ready t i s → Streams s.table a b
  ready_streams s r = record {
    stdin = r.same 0 (apart t 0 _ std.stdin r.free) ∙ std.stdin;
    stdout = r.same 1 (apart t 1 _ std.stdout r.free) ∙ std.stdout;
  }

  pub first_child :
      (s : Chain) (command : List ℕ) (p : Pipe)
      → Made t 0 p
      → Streams (chain_child true false (piped s p) command).fds a (write_end 0)
  unfolding chain_child
  first_child s command p made =
      let q = made_streams std made in
      record {
        stdin = set_other p.table 1 0 _ (omega arith) ∙ q.stdin;
        stdout = set_here p.table 1 _ q.stdout ∙ made.writes;
      }

  pub middle_child :
      (i : ℕ) (s : Chain) (command : List ℕ) (p : Pipe)
      → Ready t i s
      → Made s.table (i + 1) p
      → Streams (chain_child false false (piped s p) command).fds (read_end i) (write_end (i + 1))
  unfolding chain_child
  middle_child i s command p r made =
      let q = made_streams (ready_streams s r) made in
      let reads =
        made.others s.last_read_end (apart s.table _ _ r.reads made.free0)
          (apart s.table _ _ r.reads made.free1)
        ∙ r.reads in
      dup_streams p.table s.last_read_end p.fd1 q reads made.writes
        (λ e. apart t 1 _ std.stdout r.free (sym e))

  pub last_child :
      (i : ℕ) (s : Chain) (command : List ℕ)
      → Ready t i s
      → Streams (chain_child false true s command).fds (read_end i) b
  unfolding chain_child
  last_child i s command r =
      let q = ready_streams s r in
      record {
        stdin = set_here s.table 0 _ q.stdin ∙ r.reads;
        stdout = set_other s.table 0 1 _ (omega arith) ∙ q.stdout;
      }

-- A descriptor that was closed at the start, and is closed again
pub close_same :
    (t u : FdTable) (i m : ℕ)
    → at t i ≡ none
    → (m ≢ i → at u m ≡ at t m)
    → at (close_fd u i) m ≡ at t m
close_same t u i m off h = elim (ℕ_discrete m i) [
  | yes e ↦ ap (at (close_fd u i)) e ∙ set-none u i ∙ sym off ∙ ap (at t) (sym e)
  | no ne ↦ set_other u i m none ne ∙ h ne
]

pub first-Ready :
    (t : FdTable) (s : Chain) (p : Pipe)
    → Made t 0 p
    → Ready t 0 (chain_close true false (piped s p))
unfolding chain_close
first-Ready t s p made = record {
  same = λ m ne. close_same t p.table p.fd1 m made.free1 (made.others m ne);
  free = made.free0;
  stale = made.free1;
  reads = set_other p.table p.fd1 p.fd0 none made.differ ∙ made.reads;
}

pub next-Ready :
    (t : FdTable) (i : ℕ) (s : Chain) (p : Pipe)
    → Ready t i s
    → Made s.table (i + 1) p
    → Ready t (i + 1) (chain_close false false (piped s p))
unfolding chain_close
next-Ready t i s p r made =
    let ne0 = apart s.table s.last_read_end p.fd0 r.reads made.free0 in
    let ne1 = apart s.table s.last_read_end p.fd1 r.reads made.free1 in
    let off1 = sym (r.same p.fd1 (λ e. ne1 (sym e))) ∙ made.free1 in
    record {
      same = λ m ne. close_same t (close_fd p.table s.last_read_end) p.fd1 m off1 (λ n1.
          close_same t p.table s.last_read_end m r.free (λ n2. made.others m ne n1 ∙ r.same m n2));
      free = sym (r.same p.fd0 (λ e. ne0 (sym e))) ∙ made.free0;
      stale = off1;
      reads =
          set_other (close_fd p.table s.last_read_end) p.fd1 p.fd0 none made.differ
          ∙ set_other p.table s.last_read_end p.fd0 none (λ e. ne0 (sym e))
          ∙ made.reads;
    }

pub last-Same :
    (t : FdTable) (i : ℕ) (s : Chain) → Ready t i s → Same t (chain_close false true s).table
unfolding chain_close
last-Same t i s r m =
    close_same t (close_fd s.table s.last_read_end) s.fd1 m r.stale
      (λ n1. close_same t s.table s.last_read_end m r.free (r.same m))
