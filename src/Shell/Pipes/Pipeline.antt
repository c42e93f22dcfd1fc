-- ===== src/Shell/Pipes/Pipeline.antt =====
-- The pipelines of lab2/lab2.2/lab2_shell.c as a whole, of two commands and of more.
use os2021_labscript.Common.{
  ℕ, ◌+◌, ◌≡◌, ◌∙◌, refl, sym, ap, arith, ◌==◌, ==_of_ne, Bool, true, false, List, [], ◌∷◌, map,
  none,
}
use mathlib.Core.Path.{subst}
use os2021_labscript.Shell.Pipes.{
  End, read_end, write_end, FdTable, close_fd, make_pipe, Child, run_two, Locals, Chain, locals_of,
  with_locals, chain_child, chain_close, chain_pipe, chain_round, run_chain,
}
use os2021_labscript.Shell.Pipes.Tables.{at, set_other, set_here, apart, make_pipe_lem}
use os2021_labscript.Shell.Pipes.Linked.{
  Streams, AreLinked, Same, Ready, piped, close_same, made_streams, first_child, middle_child,
  last_child, first-Ready, next-Ready, last-Same,
}

-- The processes that are started for the commands
pub record Runs (t t' : FdTable) (input output : End) (i : ℕ) (commands : List (List ℕ))
    (children : List Child) : Type 0 where
  pub same : Same t t'
  pub linked : AreLinked input output i children
  pub started : map (λ c. c.command) children ≡ commands

linked_cons :
    {input : End} (output : End) {i : ℕ} (c : Child) (children : List Child) {d : List ℕ}
    {ds : List (List ℕ)}
    → Streams c.fds input (write_end i)
    → map (λ x. x.command) children ≡ d ∷ ds
    → AreLinked (read_end i) output (i + 1) children
    → AreLinked input output i (c ∷ children)
unfolding AreLinked
linked_cons output c [] st e l = cc
linked_cons output c (x ∷ xs) st e l = (st, l)

-- One process more at the front
Runs-cons :
    {t t' : FdTable} {input output : End} {i : ℕ} {d : List ℕ} {ds : List (List ℕ)}
    {children : List Child} (c : Child)
    → Streams c.fds input (write_end i)
    → Runs t t' (read_end i) output (i + 1) (d ∷ ds) children
    → Runs t t' input output i (c.command ∷ d ∷ ds) (c ∷ children)
Runs-cons {output = output} {children = children} c st r = record {
  same = r.same;
  linked = linked_cons output c children st r.started r.linked;
  started = ap (λ cs. c.command ∷ cs) r.started;
}

-- The variables that the loop's body declares keep their values from one round to the next, and
-- every call of `pipe` succeeds.
module _ {found : ℕ → Locals → Locals} {works : ℕ → Bool}
    (keeps : (i : ℕ) (l : Locals) → found i l ≡ l) (all_work : (i : ℕ) → works i ≡ true) where
  kept : (i : ℕ) (s : Chain) → with_locals s (found i (locals_of s)) ≡ s
  kept i s = ap (with_locals s) (keeps i (locals_of s))

  chain_pipe_more :
      (i : ℕ) (s : Chain) → chain_pipe found works false i s ≡ piped s (make_pipe s.table i)
  unfolding chain_pipe
  chain_pipe_more i s = rw (all_work i) (ap (λ t. piped t (make_pipe s.table i)) (kept i s))

  chain_pipe_last : (i : ℕ) (s : Chain) → chain_pipe found works true i s ≡ s
  unfolding chain_pipe
  chain_pipe_last i s = kept i s

  round_more :
      (f : Bool) (i : ℕ) (s : Chain) (c : List ℕ) (rest : Chain → Chain × List Child)
      → (let s1 : Chain = piped s (make_pipe s.table i) in
          chain_round f false c (chain_pipe found works false i s) rest ≡ (
            (rest (chain_close f false s1)).0,
            chain_child f false s1 c ∷ (rest (chain_close f false s1)).1,
          ))
  unfolding chain_round
  round_more f i s c rest = ap (λ t. chain_round f false c t rest) (chain_pipe_more i s)

  round_last :
      (f : Bool) (i : ℕ) (s : Chain) (c : List ℕ) (rest : Chain → Chain × List Child)
      → s.failed ≡ false
      → chain_round f true c (chain_pipe found works true i s) rest ≡ (
        (rest (chain_close f true s)).0,
        chain_child f true s c ∷ (rest (chain_close f true s)).1,
      )
  unfolding chain_round
  round_last f i s c rest ok =
      ap (λ t. chain_round f true c t rest) (chain_pipe_last i s)
      ∙ subst
          (λ (t : Chain). chain_round f true c t rest ≡ (
            (rest (chain_close f true t)).0,
            chain_child f true t c ∷ (rest (chain_close f true t)).1,
          ))
          (sym (ap {A = Bool} (λ b. with_locals s (record (locals_of s) { failed = b })) ok)) refl

  run_chain_more :
      (f : Bool) (i : ℕ) (s : Chain) (c d : List ℕ) (ds : List (List ℕ))
      → (i == 0) ≡ f
      → (let s1 : Chain = piped s (make_pipe s.table i) in
          run_chain found works i s (c ∷ d ∷ ds) ≡ (
            (run_chain found works (i + 1) (chain_close f false s1) (d ∷ ds)).0,
            chain_child f false s1 c
                ∷ (run_chain found works (i + 1) (chain_close f false s1) (d ∷ ds)).1,
          ))
  unfolding run_chain
  run_chain_more f i s c d ds h =
      ap
        (λ b.
          chain_round b false c (chain_pipe found works false i s)
            (λ s'. run_chain found works (i + 1) s' (d ∷ ds)))
        h
      ∙ round_more f i s c (λ s'. run_chain found works (i + 1) s' (d ∷ ds))

  run_chain_one :
      (f : Bool) (i : ℕ) (s : Chain) (c : List ℕ)
      → (i == 0) ≡ f
      → s.failed ≡ false
      → run_chain found works i s (c ∷ []) ≡ (chain_close f true s, chain_child f true s c ∷ [])
  unfolding run_chain
  run_chain_one f i s c h ok =
      ap
        (λ b.
          chain_round b true c (chain_pipe found works true i s)
            (λ s'. run_chain found works (i + 1) s' []))
        h
      ∙ round_last f i s c (λ s'. run_chain found works (i + 1) s' []) ok

  -- The rounds after the first
  chain_rest :
      {t : FdTable} {a b : End} (std : Streams t a b) (i : ℕ) (s : Chain) (c : List ℕ)
      (cs : List (List ℕ))
      → Ready t i s
      → s.failed ≡ false
      → Runs t
          (run_chain found works (i + 1) s (c ∷ cs)).0.table
          (read_end i)
          b
          (i + 1)
          (c ∷ cs)
          (run_chain found works (i + 1) s (c ∷ cs)).1
  unfolding AreLinked chain_child chain_close
  chain_rest {t} std i s c [] r ok =
      rw (run_chain_one false (i + 1) s c (==_of_ne (i + 1) 0 (omega arith)) ok)
        (record { same = last-Same t i s r; linked = last_child std i s c r; started = refl })
  chain_rest {t} std i s c (d ∷ ds) r ok =
      let p = make_pipe s.table (i + 1) in
      let made = make_pipe_lem s.table (i + 1) in
      let s' = chain_close false false (piped s p) in
      let rest = chain_rest std (i + 1) s' d ds (next-Ready t i s p r made) refl in
      rw (run_chain_more false (i + 1) s c d ds (==_of_ne (i + 1) 0 (omega arith)))
        (Runs-cons (chain_child false false (piped s p) c) (middle_child std i s c p r made) rest)

  -- Two and more commands in the loop for three and more. C does not say what the variables that
  -- the loop's body declares, `pipefd`, `ret` and `lastReadEnd`, hold at the start of a round. If
  -- they keep their values from one round to the next, descriptors 0 and 1 are open and every
  -- `pipe` succeeds: one process is started for each command, in order; the first reads the shell's
  -- input, the last writes the shell's output, each writes a pipe that the next one reads; and
  -- afterwards the shell's descriptors are what they were.
  pub run_chain_links :
      {t : FdTable} {a b : End} (s : Chain) (c d : List ℕ) (ds : List (List ℕ))
      → s.table ≡ t
      → Streams t a b
      → Runs t
          (run_chain found works 0 s (c ∷ d ∷ ds)).0.table
          a
          b
          0
          (c ∷ d ∷ ds)
          (run_chain found works 0 s (c ∷ d ∷ ds)).1
  unfolding chain_child chain_close
  run_chain_links {t} s c d ds is std =
      let p = make_pipe t 0 in
      let made = make_pipe_lem t 0 in
      let rest =
        chain_rest std 0 (chain_close true false (piped s p)) d ds (first-Ready t s p made) refl in
      rw (run_chain_more true 0 s c d ds refl, is)
        (Runs-cons (chain_child true false (piped s p) c) (first_child std s c p made) rest)

-- Two commands, if descriptors 0 and 1 are open and `pipe` succeeds: one process is started for
-- each; the first reads the shell's input and writes the pipe, the second reads the pipe and
-- writes the shell's output; and afterwards the shell's descriptors are what they were.
pub run_two_links :
    {t : FdTable} {a b : End} (first second : List ℕ)
    → Streams t a b
    → Runs t
        (run_two true t first second).0
        a
        b
        0
        (first ∷ second ∷ [])
        (run_two true t first second).1
unfolding run_two AreLinked
run_two_links {t} first second std =
    let p = make_pipe t 0 in
    let made = make_pipe_lem t 0 in
    let q = made_streams std made in
    let in0 = apart t 0 p.fd0 std.stdin made.free0 in
    let in1 = apart t 0 p.fd1 std.stdin made.free1 in
    let out0 = apart t 1 p.fd0 std.stdout made.free0 in
    let out1 = apart t 1 p.fd1 std.stdout made.free1 in
    record {
      same = λ m.
          close_same t (close_fd p.table p.fd1) p.fd0 m made.free0
            (λ n0. close_same t p.table p.fd1 m made.free1 (made.others m n0));
      linked = (
        record {
          stdin =
              set_other _ p.fd1 0 none in1
              ∙ set_other (close_fd p.table p.fd0) 1 0 (at (close_fd p.table p.fd0) p.fd1)
                  (omega arith)
              ∙ set_other p.table p.fd0 0 none in0
              ∙ q.stdin;
          stdout =
              set_other _ p.fd1 1 none out1
              ∙ set_here (close_fd p.table p.fd0) 1 _
                  (set_other p.table p.fd0 1 none out0 ∙ q.stdout)
              ∙ set_other p.table p.fd0 p.fd1 none (λ e. made.differ (sym e))
              ∙ made.writes;
        },
        record {
          stdin =
              set_other _ p.fd0 0 none in0
              ∙ set_here (close_fd p.table p.fd1) 0 _ (set_other p.table p.fd1 0 none in1 ∙ q.stdin)
              ∙ set_other p.table p.fd1 p.fd0 none made.differ
              ∙ made.reads;
          stdout =
              set_other _ p.fd0 1 none out0
              ∙ set_other (close_fd p.table p.fd1) 0 1 (at (close_fd p.table p.fd1) p.fd0)
                  (omega arith)
              ∙ set_other p.table p.fd1 1 none out1
              ∙ q.stdout;
        },
      );
      started = refl;
    }
