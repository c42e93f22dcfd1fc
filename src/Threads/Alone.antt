-- ===== src/Threads/Alone.antt =====
-- A thread of lab3/EXP3.1/thread.c that runs without interruption comes to its end.
use os2021_labscript.Common.{
  ℕ, suc, ◌+◌, ◌-◌, ◌%◌, ◌^◌, ◌<◌, ◌≡◌, ◌≢◌, ◌∙◌, refl, sym, ap, arith, ◌==◌, ◌||◌, ==_of_ne,
  ==_refl, true, false, Bool, Bool-cases, inl, inr, if◌then◌else◌, List, [], ◌∷◌, ◌++◌, replicate,
}
use mathlib.Core.Path.{subst}
use native.Mathlib.Decide.{ℕ_discrete}
use os2021_labscript.Threads.{
  Instr, put_inc, work, Thread, Process, positive, waiting, signaling, acquire, release,
  thread_function, step, run, run_instr, update,
}
use os2021_labscript.Threads.Race.{
  thread, Moved, Moved-step, load_step, put_inc_step, waiting_alone,
}

-- The counters that a thread takes, in this order
abbrev pub needed : ℕ → List ℕ
needed pthread =
    if pthread == 1
    then 0 ∷ []
    else if pthread == 2
    then 1 ∷ 0 ∷ []
    else if pthread == 3
    then 2 ∷ 1 ∷ 0 ∷ []
    else []

abbrev waits : List ℕ → List Instr → List Instr
waits [] is = is
waits (k ∷ ks) is = waiting k ++ waits ks is

abbrev signals : List ℕ → List Instr
signals [] = []
signals (k ∷ ks) = signaling k ++ signals ks

-- The four kinds of threads
needed-cases : (t : ℕ) (P : ℕ → Type 0) → P 1 → P 2 → P 3 → (t ≢ 1 → t ≢ 2 → t ≢ 3 → P t) → P t
needed-cases t P a b c d = elim (ℕ_discrete t 1) [
  | yes e ↦ subst P (sym e) a
  | no n1 ↦ elim (ℕ_discrete t 2) [
    | yes e ↦ subst P (sym e) b
    | no n2 ↦ elim (ℕ_discrete t 3) [ yes e ↦ subst P (sym e) c | no n3 ↦ d n1 n2 n3 ]
  ]
]

thread_function-needed :
    (t a b : ℕ)
    → thread_function (record { pthread = t; start = a; stop = b })
      ≡ waits (needed t) (work a b ∷ signals (needed t))
unfolding thread_function acquire release
thread_function-needed t a b =
    needed-cases t
      (λ t.
        thread_function (record { pthread = t; start = a; stop = b })
        ≡ waits (needed t) (work a b ∷ signals (needed t)))
      refl refl refl (λ n1 n2 n3. rw (==_of_ne t 1 n1, ==_of_ne t 2 n2, ==_of_ne t 3 n3) refl)

abbrev uses : List ℕ → ℕ → Bool
uses [] j = false
uses (k ∷ ks) j = (k == j) || uses ks j

abbrev IsDistinct : List ℕ → Type 0
IsDistinct [] = Unit {0}
IsDistinct (k ∷ ks) = (uses ks k ≡ false) × IsDistinct ks

needed-IsDistinct : (t : ℕ) → IsDistinct (needed t)
needed-IsDistinct t =
    needed-cases t (λ t. IsDistinct (needed t)) (refl, tt) (refl, (refl, tt))
      (refl, (refl, (refl, tt)))
      (λ n1 n2 n3. rw (==_of_ne t 1 n1, ==_of_ne t 2 n2, ==_of_ne t 3 n3) tt)

-- The counters after a change of each in turn
abbrev each : (ℕ → ℕ) → List ℕ → (ℕ → ℕ) → ℕ → ℕ
each f [] m = m
each f (k ∷ ks) m = each f ks (update m k (f (m k)))

each_lem :
    (f : ℕ → ℕ) (ks : List ℕ) (m : ℕ → ℕ) (j : ℕ)
    → IsDistinct ks
    → each f ks m j ≡ (if uses ks j then f (m j) else m j)
each_lem f [] m j d = refl
each_lem f (k ∷ ks) m j d = elim (ℕ_discrete k j) [
  | yes e ↦ each_lem f ks (update m k (f (m k))) j d.1 ∙ rw (← e, d.0, ==_refl k) refl
  | no ne ↦ each_lem f ks (update m k (f (m k))) j d.1 ∙ rw (==_of_ne k j ne) refl
]

abbrev down : ℕ → ℕ
down w = w - 1

abbrev up : ℕ → ℕ
up w = (w + 1) % 2 ^ 32

-- Thread `i` comes to its end when it alone runs, and leaves the counters `m` behind; no other
-- thread changes.
abbrev Ends : Process → ℕ → (ℕ → ℕ) → Type 0
Ends p i m = (n : ℕ) × (held : ℕ) × Moved p (run p (replicate n i)) i (thread [] held) m

-- One step first
Ends-step :
    (p : Process) (i : ℕ) (t : Thread) (m m' : ℕ → ℕ)
    → Moved p (step p i) i t m
    → Ends (step p i) i m'
    → Ends p i m'
unfolding run
Ends-step p i t m m' a (n, held, b) = (
  suc n,
  held,
  record { counters = b.counters; mine = b.mine; others = λ j ne. b.others j ne ∙ a.others j ne },
)

signals-Ends :
    (ks : List ℕ) (p : Process) (i held : ℕ)
    → p.threads i ≡ thread (signals ks) held
    → Ends p i (each up ks p.mutex)
unfolding run
signals-Ends [] p i held at =
    (0, held, record { counters = refl; mine = at; others = λ j ne. refl })
signals-Ends (k ∷ ks) p i held at =
    let a = load_step p i k held (put_inc k ∷ signals ks) at in
    let b = put_inc_step (step p i) i k (p.mutex k) (signals ks) a.mine in
    let e : (step (step p i) i).mutex ≡ update p.mutex k (up (p.mutex k)) =
      b.counters ∙ ap (λ m. update m k (up (p.mutex k))) a.counters in
    let rest = signals-Ends ks (step (step p i) i) i (p.mutex k) b.mine in
    Ends-step p i _ _ _ a (
      Ends-step (step p i) i _ _ _ b
        (subst (λ m. Ends (step (step p i) i) i (each up ks m)) e rest))

work-Ends :
    (ks : List ℕ) (p : Process) (i held a b : ℕ)
    → p.threads i ≡ thread (work a b ∷ signals ks) held
    → Ends p i (each up ks p.mutex)
unfolding run_instr
work-Ends ks p i held a b at =
    let s = Moved-step p i p.mutex (thread (signals ks) held) (rw (at) refl) in
    Ends-step p i _ _ _ s (
      subst (λ m. Ends (step p i) i (each up ks m)) s.counters
        (signals-Ends ks (step p i) i held s.mine))

abbrev AllPositive : List ℕ → (ℕ → ℕ) → Type 0
AllPositive ks m = (j : ℕ) → uses ks j ≡ true → positive (m j) ≡ true

still_positive :
    (k : ℕ) (ks : List ℕ) (m : ℕ → ℕ)
    → uses ks k ≡ false
    → AllPositive (k ∷ ks) m
    → AllPositive ks (update m k (m k - 1))
still_positive k ks m d pos j u =
    let ne : k ≢ j = λ e. let clash : true ≡ false = sym u ∙ ap (uses ks) (sym e) ∙ d in cc in
    rw (==_of_ne k j ne) (pos j (rw (==_of_ne k j ne) u))

waits-Ends :
    (ks js : List ℕ) (p : Process) (i held a b : ℕ)
    → IsDistinct ks
    → AllPositive ks p.mutex
    → p.threads i ≡ thread (waits ks (work a b ∷ signals js)) held
    → Ends p i (each up js (each down ks p.mutex))
unfolding run
waits-Ends [] js p i held a b d pos at = work-Ends js p i held a b at
waits-Ends (k ∷ ks) js p i held a b d pos at =
    let w =
      waiting_alone p i k held (waits ks (work a b ∷ signals js)) (pos k (rw (==_refl k) refl))
        at in
    let q = run p (i ∷ i ∷ i ∷ []) in
    let (n, h, rest) =
      waits-Ends ks js q i (p.mutex k) a b d.1
        (λ j u. ap (λ m. positive (m j)) w.counters ∙ still_positive k ks p.mutex d.0 pos j u)
        w.mine in
    (
      suc (suc (suc n)),
      h,
      record {
        counters = rest.counters ∙ ap (λ m. each up js (each down ks m)) w.counters;
        mine = rest.mine;
        others = λ j ne. rest.others j ne ∙ w.others j ne;
      },
    )

-- The counters that a thread needs
needed-uses : (t j : ℕ) → uses (needed t) j ≡ true → j < 3
needed-uses t j =
    needed-cases t (λ t. uses (needed t) j ≡ true → j < 3) (λ u. ground arith) (λ u. ground arith)
      (λ u. ground arith)
      (λ n1 n2 n3. rw (==_of_ne t 1 n1, ==_of_ne t 2 n2, ==_of_ne t 3 n3) (λ u. cc))

up-down : (w : ℕ) → positive w ≡ true → up (down w) ≡ w
up-down w h = ground arith

restored :
    (ks : List ℕ) (m : ℕ → ℕ)
    → IsDistinct ks
    → AllPositive ks m
    → (k : ℕ) → each up ks (each down ks m) k ≡ m k
restored ks m d pos k = elim (Bool-cases (uses ks k)) [
  | inl t ↦
      each_lem up ks (each down ks m) k d ∙ rw (each_lem down ks m k d, t) (up-down (m k) (pos k t))
  | inr f ↦ each_lem up ks (each down ks m) k d ∙ rw (each_lem down ks m k d, f) refl
]

-- A thread whose three counters are positive and that runs without interruption comes to the end
-- of its program after some number of steps; every counter is then as it was before, and no other
-- thread has changed.
pub thread_function_ends :
    (p : Process) (i held t a b : ℕ)
    → ((k : ℕ) → k < 3 → positive (p.mutex k) ≡ true)
    → p.threads i ≡ thread (thread_function (record { pthread = t; start = a; stop = b })) held
    → (n : ℕ) × (held' : ℕ) × ((run p (replicate n i)).threads i ≡ thread [] held')
      × ((k : ℕ) → (run p (replicate n i)).mutex k ≡ p.mutex k)
      × ((j : ℕ) → i ≢ j → (run p (replicate n i)).threads j ≡ p.threads j)
thread_function_ends p i held t a b pos at =
    let d = needed-IsDistinct t in
    let all : AllPositive (needed t) p.mutex = λ j u. pos j (needed-uses t j u) in
    let (n, h, moved) =
      waits-Ends (needed t) (needed t) p i held a b d all
        (at ∙ ap (λ is. thread is held) (thread_function-needed t a b)) in
    (
      n,
      h,
      moved.mine,
      λ k. ap (λ m. m k) moved.counters ∙ restored (needed t) p.mutex d all k,
      moved.others,
    )
