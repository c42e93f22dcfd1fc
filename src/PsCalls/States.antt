-- ===== src/PsCalls/States.antt =====
-- What the system calls of lab2/lab2.1 hand to a program.
use os2021_labscript.Common.{
  ℕ, zero, suc, ◌+◌, ◌-◌, ◌≡◌, ◌≢◌, refl, ap, arith, ==_of_ne, ge→ltb, List, [], ◌∷◌, ◌++◌, map,
  length, drop,
}
use os2021_labscript.Common.Outcome.{done}
use os2021_labscript.PsCalls.{
  Task, ProcessState, count_tasks, ps_counter, strncpy, state_of, fill_states, left_over, ps_state,
  shown,
}

count_tasks_lem : (ts : List Task) (n : ℕ) → count_tasks n ts ≡ n + length ts
unfolding count_tasks
count_tasks_lem [] n = omega arith
count_tasks_lem (t ∷ ts) n = omega (arith, count_tasks_lem ts (n + 1))

-- `ps_counter` gives the number of processes.
pub ps_counter_lem : (ts : List Task) → ps_counter ts ≡ length ts
unfolding ps_counter
ps_counter_lem ts = omega (arith, count_tasks_lem ts 0)

fill_states-map : (ts : List Task) → fill_states ts ≡ map state_of ts
unfolding fill_states
fill_states-map [] = refl
fill_states-map (t ∷ ts) = ap (λ ss. state_of t ∷ ss) (fill_states-map ts)

-- If the processes do not change between the two loops, `ps_state` copies one structure for each of
-- them, in order, and leaves the rest of the buffer.
pub ps_state_lem :
    (ts : List Task) (raw : ℕ → ProcessState) (buf : List ProcessState)
    → ps_state ts ts raw buf ≡ done (map state_of ts ++ drop (length ts) buf)
unfolding ps_state left_over
ps_state_lem ts raw buf =
    let q : length ts - length ts ≡ 0 = omega arith in
    rw
      (
        ps_state,
        count_tasks_lem ts 0,
        zero_add (length ts),
        ge→ltb (length ts) (length ts) (omega arith),
        q,
        fill_states-map ts,
      )
      refl
  where
    zero_add : (n : ℕ) → 0 + n ≡ n
    zero_add n = omega arith

-- The name has 16 bytes.
pub length-strncpy : (n : ℕ) (cs : List ℕ) → length (strncpy n cs) ≡ n
unfolding strncpy
length-strncpy zero cs = refl
length-strncpy (suc n) [] = ap suc (length-strncpy n [])
length-strncpy (suc n) (c ∷ cs) = ap suc (length-strncpy n cs)

abbrev pub AllRun : List Task → Type 0
AllRun [] = Unit
AllRun (t ∷ ts) = (t.pid ≢ 0) × AllRun ts

-- The test program prints every process and no more, if no process has number 0 and the buffer
-- holds a structure with process number 0 behind them.
pub shown_states :
    (ts : List Task) (s : ProcessState) (rest : List ProcessState)
    → AllRun ts
    → s.pid ≡ 0
    → shown (map state_of ts ++ (s ∷ rest)) ≡ map state_of ts
unfolding shown state_of
shown_states [] s rest h e = rw (e) refl
shown_states (t ∷ ts) s rest (h, hs) e =
    rw (==_of_ne t.pid 0 h) (ap (λ ss. state_of t ∷ ss) (shown_states ts s rest hs e))
