-- ===== src/Shell/Pipes.antt =====
-- Descriptors, and the processes that a pipeline of lab2/lab2.2/lab2_shell.c starts.
pub mod Tables
pub mod Linked
pub mod Pipeline
use os2021_labscript.Common.{
  ℕ, suc, ◌+◌, ◌==◌, if◌then◌else◌, Bool, true, false, List, [], ◌∷◌, Option, none, some, get_or,
  set,
}
use os2021_labscript.Common.Outcome.{Outcome}
use os2021_labscript.Shell.Split.{space, split_string}

-- What a descriptor refers to: the terminal, or an end of the pipe with that number.
pub data End : Type 0 where
  terminal : End
  read_end : ℕ → End
  write_end : ℕ → End

-- The table of a process, by descriptor
abbrev pub FdTable : Type 0
FdTable = List (Option End)

-- The lowest free descriptor
unfoldable pub open_fd : FdTable → End → FdTable × ℕ
open_fd [] e = (some e ∷ [], 0)
open_fd (none ∷ t) e = (some e ∷ t, 0)
open_fd (some x ∷ t) e = let (t', n) = open_fd t e in (some x ∷ t', suc n)

abbrev pub close_fd : FdTable → ℕ → FdTable
close_fd t fd = set t fd none

-- `dup2(from, to)`, with `to` an open descriptor
abbrev pub dup_fd : FdTable → ℕ → ℕ → FdTable
dup_fd t from to = set t to (get_or t from none)

-- `pipe(pipefd)` of pipe number `k`
pub record Pipe : Type 0 where
  pub table : FdTable
  pub fd0 : ℕ
  pub fd1 : ℕ

unfoldable pub make_pipe : FdTable → ℕ → Pipe
unfolding open_fd
make_pipe t k =
    let (t1, r) = open_fd t (read_end k) in
    let (t2, w) = open_fd t1 (write_end k) in record { table = t2; fd0 = r; fd1 = w }

-- A process at its call of `execute`: the command's text and its descriptors
pub record Child : Type 0 where
  pub command : List ℕ
  pub fds : FdTable

abbrev pub max_cmd_arg_num : ℕ
max_cmd_arg_num = 32

-- The arguments that the process hands to `execute`
unfoldable pub child_args : Child → Outcome (List (List ℕ))
child_args c = split_string max_cmd_arg_num space c.command

-- Two commands. The table is that of the shell afterwards; `false` says that `pipe` failed.
unfoldable pub run_two : Bool → FdTable → (first second : List ℕ) → FdTable × List Child
unfolding make_pipe
run_two false t first second = (t, [])
run_two true t first second =
    let p : Pipe = make_pipe t 0 in
    let c1 : FdTable = close_fd (dup_fd (close_fd p.table p.fd0) p.fd1 1) p.fd1 in
    let c2 : FdTable = close_fd (dup_fd (close_fd p.table p.fd1) p.fd0 0) p.fd0 in
    (
      close_fd (close_fd p.table p.fd1) p.fd0,
      record { command = first; fds = c1 } ∷ record { command = second; fds = c2 } ∷ [],
    )

-- `pipefd`, `lastReadEnd`, and whether `ret` is negative. The body of the loop over three or more
-- commands declares them, so that C leaves open what they hold at the start of a round.
pub record Locals : Type 0 where
  pub fd0 : ℕ
  pub fd1 : ℕ
  pub last_read_end : ℕ
  pub failed : Bool

-- The shell's table with these variables
pub record Chain : Type 0 where
  pub table : FdTable
  pub fd0 : ℕ
  pub fd1 : ℕ
  pub last_read_end : ℕ
  pub failed : Bool

abbrev pub locals_of : Chain → Locals
locals_of s = record {
  fd0 = s.fd0;
  fd1 = s.fd1;
  last_read_end = s.last_read_end;
  failed = s.failed;
}

abbrev pub with_locals : Chain → Locals → Chain
with_locals s l = record {
  table = s.table;
  fd0 = l.fd0;
  fd1 = l.fd1;
  last_read_end = l.last_read_end;
  failed = l.failed;
}

-- The child of one round: `is_first` and `is_last` are `i == 0` and `i == cmd_count - 1`.
unfoldable pub chain_child : (is_first is_last : Bool) → Chain → List ℕ → Child
chain_child is_first is_last s command =
    let t1 : FdTable = if is_last then s.table else dup_fd s.table s.fd1 1 in
    let t2 : FdTable = if is_first then t1 else dup_fd t1 s.last_read_end 0 in
    record { command = command; fds = t2 }

-- What the shell closes and keeps at the end of the round
unfoldable pub chain_close : (is_first is_last : Bool) → Chain → Chain
chain_close is_first is_last s =
    let t1 : FdTable = if is_first then s.table else close_fd s.table s.last_read_end in
    record s {
      table = close_fd t1 s.fd1;
      last_read_end = if is_last then s.last_read_end else s.fd0;
    }

abbrev pub is_last_of {ℓ} : {A : Type ℓ} → List A → Bool
is_last_of [] = true
is_last_of (x ∷ xs) = false

-- One round behind the call of `pipe`, and the rounds that follow; the loop goes on at once if `ret`
-- is negative.
unfoldable pub chain_round :
    (is_first is_last : Bool) → List ℕ → Chain → (Chain → Chain × List Child) → Chain × List Child
unfolding chain_child chain_close
chain_round is_first is_last command s rest = elim s.failed [
  | true ↦ rest s
  | false ↦
      let (s', children) = rest (chain_close is_first is_last s) in
      (s', chain_child is_first is_last s command ∷ children)
]

-- `found` is what the compiled code finds in the variables at the start of a round, from what they
-- held before, and `works` is whether the call of `pipe` in a round succeeds.
module _ (found : ℕ → Locals → Locals) (works : ℕ → Bool) where
  -- The variables after the call of `pipe`
  unfoldable pub chain_pipe : (is_last : Bool) → ℕ → Chain → Chain
  unfolding make_pipe
  chain_pipe is_last i s =
      let s0 : Chain = with_locals s (found i (locals_of s)) in
      let p : Pipe = make_pipe s0.table i in
      if is_last
      then s0
      else if works i
      then record s0 { table = p.table; fd0 = p.fd0; fd1 = p.fd1; failed = false }
      else record s0 { failed = true }

  -- The loop at command number `i`
  unfoldable pub run_chain : ℕ → Chain → List (List ℕ) → Chain × List Child
  unfolding chain_pipe chain_round
  run_chain i s [] = (s, [])
  run_chain i s (command ∷ commands) =
      chain_round (i == 0) (is_last_of commands) command (chain_pipe (is_last_of commands) i s)
        (λ s'. run_chain (i + 1) s' commands)
