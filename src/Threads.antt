-- ===== src/Threads.antt =====
-- The threads of lab3/EXP3.1/thread.c and their counters `mutex`, in interleaved steps.
use os2021_labscript.Common.{
  ℕ, zero, suc, ◌+◌, ◌-◌, ◌%◌, ◌^◌, ◌<◌, ◌==◌, ◌&&◌, not, ltb, if◌then◌else◌, Bool, true, false,
  List, [], ◌∷◌, ◌++◌,
}
pub mod Race
pub mod Alone

-- One access to the counters. An `int` counter is kept as its 32 bits.
pub data Instr : Type 0 where
  spin : ℕ → Instr  -- `while (mutex[num] <= 0);`
  await : ℕ → Instr  -- the test of `mutex[k] <= 0` in the loop over all three counters
  load : ℕ → Instr  -- the read of `mutex[num]--` or `mutex[num]++`
  put_dec : ℕ → Instr  -- the write of `mutex[num]--`
  put_inc : ℕ → Instr  -- the write of `mutex[num]++`
  work : (start stop : ℕ) → Instr  -- the loop that prints
  exec : Instr  -- `execl`, which replaces the process

abbrev pub positive : ℕ → Bool
positive w = ltb 0 w && ltb w (2 ^ 31)

abbrev pub waiting : ℕ → List Instr
waiting num = spin num ∷ load num ∷ put_dec num ∷ []

abbrev pub signaling : ℕ → List Instr
signaling num = load num ∷ put_inc num ∷ []

-- `struct mypara`
pub record MyPara : Type 0 where
  pub pthread : ℕ
  pub start : ℕ
  pub stop : ℕ

-- `waiting` and `signaling` are called by the tests on `tmp->pthread`.
unfoldable pub acquire : ℕ → List Instr
acquire pthread =
    (if pthread == 1 then waiting 0 else [])
    ++ ((if pthread == 2 then waiting 1 ++ waiting 0 else [])
        ++ (if pthread == 3 then waiting 2 ++ (waiting 1 ++ waiting 0) else []))

unfoldable pub release : ℕ → List Instr
release pthread =
    (if pthread == 1 then signaling 0 else [])
    ++ ((if pthread == 2 then signaling 1 ++ signaling 0 else [])
        ++ (if pthread == 3 then signaling 2 ++ (signaling 1 ++ signaling 0) else []))

unfoldable pub thread_function : MyPara → List Instr
unfolding acquire release
thread_function p = acquire p.pthread ++ (work p.start p.stop ∷ release p.pthread)

-- A thread: what it has still to do, and the value that its last `load` has read.
pub record Thread : Type 0 where
  pub program : List Instr
  pub held : ℕ

-- A process: its counters and its threads, by number
pub record Process : Type 0 where
  pub mutex : ℕ → ℕ
  pub threads : ℕ → Thread

abbrev pub update {ℓ} : {A : Type ℓ} → (ℕ → A) → ℕ → A → ℕ → A
update f i a j = if i == j then a else f j

-- One step of a thread with the program and the value held: the counters, the thread, and
-- whether the process is replaced.
unfoldable pub run_instr : (ℕ → ℕ) → List Instr → ℕ → (ℕ → ℕ) × Thread × Bool
run_instr m [] held = (m, record { program = []; held = held }, false)
run_instr m (spin num ∷ is) held =
    (m, record { program = if positive (m num) then is else spin num ∷ is; held = held }, false)
run_instr m (await k ∷ is) held = (
  m,
  record {
    program =
        if not (positive (m k)) then await 0 ∷ is else if k == 2 then is else await (k + 1) ∷ is;
    held = held;
  },
  false,
)
run_instr m (load num ∷ is) held = (m, record { program = is; held = m num }, false)
run_instr m (put_dec num ∷ is) held =
    (update m num ((held + 2 ^ 32 - 1) % 2 ^ 32), record { program = is; held = held }, false)
run_instr m (put_inc num ∷ is) held =
    (update m num ((held + 1) % 2 ^ 32), record { program = is; held = held }, false)
run_instr m (work start stop ∷ is) held = (m, record { program = is; held = held }, false)
run_instr m (exec ∷ is) held = (m, record { program = []; held = held }, true)

-- The scheduler picks thread `i`; `execl` ends all threads.
unfoldable pub step : Process → ℕ → Process
unfolding run_instr
step p i =
    let (m, t, replaced) = run_instr p.mutex (p.threads i).program (p.threads i).held in
    record {
      mutex = m;
      threads = if replaced then (λ j. record { program = []; held = 0 }) else update p.threads i t;
    }

-- A schedule is the sequence of the threads picked.
unfoldable pub run : Process → List ℕ → Process
unfolding step
run p [] = p
run p (i ∷ is) = run (step p i) is

-- `mutex` as `main` finds it, and the threads that the parent and the child of `fork` create. The
-- main thread of the child waits for all counters, and creates the thread that calls
-- `execl`; that thread is number 3 here.
abbrev pub para : (pthread start stop : ℕ) → Thread
para k a b = record {
  program = thread_function (record { pthread = k; start = a; stop = b });
  held = 0;
}

unfoldable pub threads_of : (Thread × Thread × Thread × Thread) → ℕ → Thread
threads_of (a, b, c, d) zero = a
threads_of (a, b, c, d) (suc zero) = b
threads_of (a, b, c, d) (suc (suc zero)) = c
threads_of (a, b, c, d) (suc (suc (suc n))) =
    if n == 0 then d else record { program = []; held = 0 }

unfoldable pub parent_process : Process
unfolding threads_of
parent_process = record {
  mutex = λ num. 1;
  threads = threads_of (para 1 0 10, para 2 10 20, para 3 20 30, record { program = []; held = 0 });
}

unfoldable pub child_process : Process
unfolding threads_of
child_process = record {
  mutex = λ num. 1;
  threads = threads_of (
    para 1 30 40,
    para 2 40 50,
    para 3 50 60,
    record { program = await 0 ∷ exec ∷ []; held = 0 },
  );
}
