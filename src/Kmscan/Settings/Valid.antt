-- ===== src/Kmscan/Settings/Valid.antt =====
-- What the sysfs files of lab3/EXP3.2/sec3.c accept.
use os2021_labscript.Common.{
  ℕ, ◌≤◌, ◌<◌, ◌≡◌, ◌≢◌, ◌∙◌, refl, sym, ap, arith, ◌==◌, ==_of_ne, ==_refl, lt→ltb, ge→ltb, Bool,
  false, ◌⊎◌, inl, inr, List, Option, Option-cases, none, some,
}
use native.Mathlib.Decide.{ℕ_discrete, dec_lt}
use os2021_labscript.Kmscan.Settings.{
  Settings, Attr, stored, einval, uint_max, show, assign, finish, parse_uint, store,
}

-- What the store of an attribute accepts
abbrev pub limit : Attr → ℕ
limit Attr.run = 1
limit Attr.pid = uint_max
limit Attr.func = uint_max
limit Attr.sleep_millisecs = uint_max

-- Every setting is within its limit.
abbrev pub IsValid : Settings → Type 0
IsValid s = (a : Attr) → show a s ≤ limit a

-- After a store that succeeds the attribute shows the number; the others show what they did.
pub record Holds (s s' : Settings) (a : Attr) (n : ℕ) : Type 0 where
  pub here : show a s' ≡ n
  pub others : (b : Attr) → (b ≢ a) → show b s' ≡ show b s

others_run :
    (s : Settings) (n : ℕ) (b : Attr) → b ≢ Attr.run → show b (record s { run = n }) ≡ show b s
unfolding show
others_run s n Attr.run ne = absurd (ne refl)
others_run s n Attr.pid ne = refl
others_run s n Attr.func ne = refl
others_run s n Attr.sleep_millisecs ne = refl

others_pid :
    (s : Settings) (n : ℕ) (b : Attr) → b ≢ Attr.pid → show b (record s { pid = n }) ≡ show b s
unfolding show
others_pid s n Attr.run ne = refl
others_pid s n Attr.pid ne = absurd (ne refl)
others_pid s n Attr.func ne = refl
others_pid s n Attr.sleep_millisecs ne = refl

others_func :
    (s : Settings) (n : ℕ) (b : Attr) → b ≢ Attr.func → show b (record s { func = n }) ≡ show b s
unfolding show
others_func s n Attr.run ne = refl
others_func s n Attr.pid ne = refl
others_func s n Attr.func ne = absurd (ne refl)
others_func s n Attr.sleep_millisecs ne = refl

others_sleep :
    (s : Settings) (n : ℕ) (b : Attr)
    → b ≢ Attr.sleep_millisecs
    → show b (record s { sleep_millisecs = n }) ≡ show b s
unfolding show
others_sleep s n Attr.run ne = refl
others_sleep s n Attr.pid ne = refl
others_sleep s n Attr.func ne = refl
others_sleep s n Attr.sleep_millisecs ne = absurd (ne refl)

-- Only a store of 1 to `run` wakes the thread.
abbrev pub wakes : Attr → ℕ → Bool
wakes Attr.run n = n == 1
wakes Attr.pid n = false
wakes Attr.func n = false
wakes Attr.sleep_millisecs n = false

assign_lem :
    (a : Attr) (n : ℕ) (s : Settings)
    → n ≤ limit a
    → (s' : Settings) × (assign a n s ≡ some (s', wakes a n)) × Holds s s' a n
unfolding assign show
assign_lem Attr.run n s h = elim (ℕ_discrete s.run n) [
  | yes e ↦ (
    s,
    rw (assign, ge→ltb 1 n h, ap (λ z. s.run == z) (sym e) ∙ ==_refl s.run) refl,
    record { here = e; others = λ b ne. refl },
  )
  | no ne ↦ (
    record s { run = n },
    rw (assign, ge→ltb 1 n h, ==_of_ne s.run n ne) refl,
    record { here = refl; others = others_run s n },
  )
]
assign_lem Attr.pid n s h =
    (record s { pid = n }, refl, record { here = refl; others = others_pid s n })
assign_lem Attr.func n s h =
    (record s { func = n }, refl, record { here = refl; others = others_func s n })
assign_lem Attr.sleep_millisecs n s h =
    (record s { sleep_millisecs = n }, refl, record { here = refl; others = others_sleep s n })

limit_le : (a : Attr) → limit a ≤ uint_max
limit_le Attr.run = omega arith
limit_le Attr.pid = omega arith
limit_le Attr.func = omega arith
limit_le Attr.sleep_millisecs = omega arith

-- A number beyond the limit is refused by the parser, or by the store to `run`.
too_large : (a : Attr) (n : ℕ) (s : Settings) → limit a < n → (uint_max < n) ⊎ (assign a n s ≡ none)
unfolding assign
too_large Attr.run n s h = inr (rw (lt→ltb 1 n h) refl)
too_large Attr.pid n s h = inl h
too_large Attr.func n s h = inl h
too_large Attr.sleep_millisecs n s h = inl h

module _ (kstrtoul : List ℕ → Option ℕ) where
  -- If the text is a number within the limit of the attribute, its store returns `count`, the
  -- attribute shows the number from then on, no other attribute changes, and the thread is woken
  -- if this sets `run` to 1.
  pub store-show :
      (a : Attr) (buf : List ℕ) (count n : ℕ) (s : Settings)
      → kstrtoul buf ≡ some n
      → n ≤ limit a
      → (s' : Settings) × (store kstrtoul a buf count s ≡ (s', stored count, wakes a n))
        × Holds s s' a n
  unfolding store parse_uint finish
  store-show a buf count n s read h =
      let (s', run_eq, holds) = assign_lem a n s h in
      (
        s',
        rw (store, parse_uint, read, ge→ltb uint_max n (omega (arith, limit_le a, h)), run_eq) refl,
        holds,
      )

  -- A text that is no number and a number beyond the limit are refused; the settings stay.
  pub store_refuses :
      (a : Attr) (buf : List ℕ) (count : ℕ) (s : Settings)
      → ((n : ℕ) → kstrtoul buf ≡ some n → limit a < n)
      → store kstrtoul a buf count s ≡ (s, einval, false)
  unfolding store parse_uint finish
  store_refuses a buf count s large = elim (Option-cases (kstrtoul buf)) [
    | inl e ↦ rw (store, parse_uint, e) refl
    | inr (n, e) ↦ elim (too_large a n s (large n e)) [
      | inl big ↦ rw (store, parse_uint, e, lt→ltb uint_max n big) refl
      | inr refused ↦ elim (dec_lt uint_max n) [
        | yes big ↦ rw (store, parse_uint, e, lt→ltb uint_max n big) refl
        | no small ↦
            rw (store, parse_uint, e, ge→ltb uint_max n (omega arith), refused, finish) refl
      ]
    ]
  ]
