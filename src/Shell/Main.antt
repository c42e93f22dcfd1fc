-- ===== src/Shell/Main.antt =====
-- `exec_builtin`, `execute` and one round of `main` of lab2/lab2.2/lab2_shell.c.
use os2021_labscript.Common.{
  ℕ, if◌then◌else◌, same_text, Bool, true, false, List, [], ◌∷◌, ◌++◌, Option, none, some,
}
use os2021_labscript.Common.Outcome.{Outcome, done, exit, ◌>>=◌}
use os2021_labscript.Common.Strtok.{after_strtok}
use os2021_labscript.Shell.Split.{space, split_string}
use os2021_labscript.Shell.Pipes.{
  FdTable, Child, Locals, Chain, max_cmd_arg_num, run_two, run_chain,
}

abbrev pub text_cd : List ℕ
text_cd = b'c' ∷ b'd' ∷ []

abbrev pub text_pwd : List ℕ
text_pwd = b'p' ∷ b'w' ∷ b'd' ∷ []

abbrev pub text_exit : List ℕ
text_exit = b'e' ∷ b'x' ∷ b'i' ∷ b't' ∷ []

abbrev pub vertical_bar : ℕ
vertical_bar = b'|'

-- The shell: its working directory, its descriptors, the lines it has printed, and the commands
-- that it has started, in order.
pub record Shell : Type 0 where
  pub cwd : List ℕ
  pub table : FdTable
  pub printed : List (List ℕ)
  pub started : List Child

-- `argv[1]`, null when there is one argument
abbrev pub argument : List (List ℕ) → Option (List ℕ)
argument [] = none
argument (a ∷ rest) = some a

-- `execvp(argv[0], argv)`
abbrev pub runs : (List ℕ → List (List ℕ) → Bool) → List (List ℕ) → Bool
runs execvp [] = false
runs execvp (a ∷ rest) = execvp a (a ∷ rest)

-- `chdir` comes from outside: the working directory after a call; it stays if the call fails.
module _ (chdir : List ℕ → Option (List ℕ) → List ℕ) where
  -- The new state, and whether the result is 0; `exit` ends the process.
  unfoldable pub exec_builtin : List (List ℕ) → Shell → Outcome (Shell × Bool)
  exec_builtin [] s = done (s, true)
  exec_builtin (name ∷ args) s =
      if same_text name text_cd
      then done (record s { cwd = chdir s.cwd (argument args) }, true)
      else if same_text name text_pwd
      then done (record s { printed = s.printed ++ (s.cwd ∷ []) }, true)
      else if same_text name text_exit
      then exit 0
      else done (s, false)

  -- In a child: `execvp` replaces the process, `none`, or fails; then the result is -1.
  unfoldable pub execute :
      (execvp : List ℕ → List (List ℕ) → Bool) → List (List ℕ) → Shell → Outcome (Option Shell)
  unfolding exec_builtin
  execute execvp argv s = do
    r ← exec_builtin argv s
    if r.1 then exit 0 else if runs execvp argv then done none else done (some r.0)

  -- One command: a builtin runs in the shell, any other in a child.
  unfoldable pub run_one : List ℕ → Shell → Outcome Shell
  unfolding exec_builtin
  run_one command s = do
    argv ← split_string max_cmd_arg_num space command
    r ← exec_builtin argv s
    done (
        if r.1 then r.0 else record r.0 {
          started = r.0.started ++ (record { command = command; fds = r.0.table } ∷ []);
        })

  -- `works` is whether each call of `pipe` succeeds, and `found` is as for `run_chain`.
  unfoldable pub run_commands :
      (ℕ → Locals → Locals) → (ℕ → Bool) → List (List ℕ) → Shell → Outcome Shell
  unfolding run_one run_two run_chain
  run_commands found works [] s = done s
  run_commands found works (a ∷ []) s = run_one a s
  run_commands found works (a ∷ b ∷ []) s =
      let (t, children) = run_two (works 0) s.table a b in
      done (record s { table = t; started = s.started ++ children })
  run_commands found works (a ∷ b ∷ c ∷ cs) s =
      let start : Chain = record {
        table = s.table;
        fd0 = 0;
        fd1 = 0;
        last_read_end = 0;
        failed = false;
      } in
      let (e, children) = run_chain found works 0 start (a ∷ b ∷ c ∷ cs) in
      done (record s { table = e.table; started = s.started ++ children })

  -- One round of the loop over a line that `fgets` has read, up to its newline
  unfoldable pub run_line : (ℕ → Locals → Locals) → (ℕ → Bool) → List ℕ → Shell → Outcome Shell
  unfolding run_commands
  run_line found works line s = do
    commands ← split_string 128 vertical_bar (after_strtok b'\n' line)
    run_commands found works commands s
