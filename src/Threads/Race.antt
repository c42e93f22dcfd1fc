-- ===== src/Threads/Race.antt =====
-- What the counters of lab3/EXP3.1/thread.c do for one thread alone and for two that interleave.
use os2021_labscript.Common.{
  ℕ, zero, suc, ◌+◌, ◌-◌, ◌%◌, ◌^◌, ◌≡◌, ◌≢◌, ◌∙◌, refl, sym, ap, arith, ==_of_ne, ==_refl, true,
  false, List, [], ◌∷◌, ◌++◌, replicate,
}
use os2021_labscript.Threads.{
  Instr, spin, load, put_dec, put_inc, Thread, Process, positive, waiting, step, run, run_instr,
  update,
}

abbrev pub thread : List Instr → ℕ → Thread
thread program held = record { program = program; held = held }

-- From `p` to `p'` thread `i` has moved on to `t`, the counters are `m`, and no other thread has
-- changed.
pub record Moved (p p' : Process) (i : ℕ) (t : Thread) (m : ℕ → ℕ) : Type 0 where
  pub counters : p'.mutex ≡ m
  pub mine : p'.threads i ≡ t
  pub others : (j : ℕ) → i ≢ j → p'.threads j ≡ p.threads j

-- A step of a thread whose instruction is not `execl`
pub Moved-step :
    (p : Process) (i : ℕ) (m : ℕ → ℕ) (t : Thread)
    → run_instr p.mutex (p.threads i).program (p.threads i).held ≡ (m, t, false)
    → Moved p (step p i) i t m
unfolding step
Moved-step p i m t h = rw (h) (record {
  counters = refl;
  mine = rw (==_refl i) refl;
  others = λ j ne. rw (==_of_ne i j ne) refl;
})

spin_step :
    (p : Process) (i k held : ℕ) (is : List Instr)
    → positive (p.mutex k) ≡ true
    → p.threads i ≡ thread (spin k ∷ is) held
    → Moved p (step p i) i (thread is held) p.mutex
unfolding run_instr
spin_step p i k held is pos at = Moved-step p i p.mutex (thread is held) (rw (at, pos) refl)

pub load_step :
    (p : Process) (i k held : ℕ) (is : List Instr)
    → p.threads i ≡ thread (load k ∷ is) held
    → Moved p (step p i) i (thread is (p.mutex k)) p.mutex
unfolding run_instr
load_step p i k held is at = Moved-step p i p.mutex (thread is (p.mutex k)) (rw (at) refl)

put_dec_step :
    (p : Process) (i k held : ℕ) (is : List Instr)
    → p.threads i ≡ thread (put_dec k ∷ is) held
    → Moved p (step p i) i (thread is held) (update p.mutex k ((held + 2 ^ 32 - 1) % 2 ^ 32))
unfolding run_instr
put_dec_step p i k held is at = Moved-step p i _ (thread is held) (rw (at) refl)

pub put_inc_step :
    (p : Process) (i k held : ℕ) (is : List Instr)
    → p.threads i ≡ thread (put_inc k ∷ is) held
    → Moved p (step p i) i (thread is held) (update p.mutex k ((held + 1) % 2 ^ 32))
unfolding run_instr
put_inc_step p i k held is at = Moved-step p i _ (thread is held) (rw (at) refl)

pub positive_dec : (w : ℕ) → positive w ≡ true → (w + 2 ^ 32 - 1) % 2 ^ 32 ≡ w - 1
positive_dec w h = ground arith

-- A thread that waits on a positive counter, and makes its three steps without a break, gets past
-- the wait and takes one from the counter; no other counter and no other thread changes.
pub waiting_alone :
    (p : Process) (i k held : ℕ) (is : List Instr)
    → positive (p.mutex k) ≡ true
    → p.threads i ≡ thread (waiting k ++ is) held
    → Moved p (run p (i ∷ i ∷ i ∷ [])) i (thread is (p.mutex k)) (update p.mutex k (p.mutex k - 1))
unfolding run
waiting_alone p i k held is pos at =
    let a = spin_step p i k held (load k ∷ put_dec k ∷ is) pos at in
    let b = load_step (step p i) i k held (put_dec k ∷ is) a.mine in
    let c = put_dec_step (step (step p i) i) i k _ is b.mine in
    record {
      counters =
          c.counters
          ∙ rw (b.counters, a.counters) (ap (update p.mutex k) (positive_dec (p.mutex k) pos));
      mine = c.mine ∙ rw (a.counters) refl;
      others = λ j ne. c.others j ne ∙ b.others j ne ∙ a.others j ne;
    }

-- Both threads test and read the counter before the first writes it.
abbrev pub pair : (i j : ℕ) → List ℕ
pair i j = i ∷ i ∷ j ∷ j ∷ i ∷ j ∷ []

-- If two different threads wait on the same counter, it is positive, and the next six steps are two
-- of the first, which test and read it, two of the second, which do the same, and one of each, which
-- write it, with no other step between: both get past the wait, and the counter is decremented once.
pub both_pass :
    (p : Process) (i j k held_i held_j : ℕ) (rest_i rest_j : List Instr)
    → i ≢ j
    → positive (p.mutex k) ≡ true
    → p.threads i ≡ thread (waiting k ++ rest_i) held_i
    → p.threads j ≡ thread (waiting k ++ rest_j) held_j
    → ((run p (pair i j)).threads i ≡ thread rest_i (p.mutex k))
      × ((run p (pair i j)).threads j ≡ thread rest_j (p.mutex k))
      × ((run p (pair i j)).mutex k ≡ p.mutex k - 1)
unfolding run
both_pass p i j k held_i held_j rest_i rest_j ne pos at_i at_j =
    let p1 = step p i in
    let a1 = spin_step p i k held_i (load k ∷ put_dec k ∷ rest_i) pos at_i in
    let p2 = step p1 i in
    let a2 = load_step p1 i k held_i (put_dec k ∷ rest_i) a1.mine in
    let m2 : p2.mutex ≡ p.mutex = a2.counters ∙ a1.counters in
    let p3 = step p2 j in
    let a3 =
      spin_step p2 j k held_j (load k ∷ put_dec k ∷ rest_j) (rw (m2) pos)
        (a2.others j ne ∙ a1.others j ne ∙ at_j) in
    let p4 = step p3 j in
    let a4 = load_step p3 j k held_j (put_dec k ∷ rest_j) a3.mine in
    let m3 : p3.mutex ≡ p.mutex = a3.counters ∙ m2 in
    let ne' : j ≢ i = λ e. ne (sym e) in
    let p5 = step p4 i in
    let a5 =
      put_dec_step p4 i k (p1.mutex k) rest_i (a4.others i ne' ∙ a3.others i ne' ∙ a2.mine) in
    let a6 = put_dec_step p5 j k (p3.mutex k) rest_j (a5.others j ne ∙ a4.mine) in
    (
      a6.others i ne' ∙ a5.mine ∙ ap (λ m. thread rest_i (m k)) a1.counters,
      a6.mine ∙ ap (λ m. thread rest_j (m k)) m3,
      ap (λ m. m k) a6.counters ∙ rw (==_refl k, m3) (positive_dec (p.mutex k) pos),
    )

-- A thread that waits on a counter that is not positive stays where it is, however often it runs,
-- and changes no counter.
pub waiting_blocked :
    (n : ℕ) (p : Process) (i k held : ℕ) (is : List Instr)
    → positive (p.mutex k) ≡ false
    → p.threads i ≡ thread (waiting k ++ is) held
    → Moved p (run p (replicate n i)) i (thread (waiting k ++ is) held) p.mutex
unfolding run run_instr
waiting_blocked zero p i k held is off at = record {
  counters = refl;
  mine = at;
  others = λ j ne. refl;
}
waiting_blocked (suc n) p i k held is off at =
    let a = Moved-step p i p.mutex (thread (waiting k ++ is) held) (rw (at, off) refl) in
    let b =
      waiting_blocked n (step p i) i k held is (ap (λ m. positive (m k)) a.counters ∙ off) a.mine in
    record {
      counters = b.counters ∙ a.counters;
      mine = b.mine;
      others = λ j ne. b.others j ne ∙ a.others j ne;
    }
