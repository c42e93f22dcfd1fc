-- ===== src/Fat16/Scan/Found.antt =====
-- Where a search through the entries of the root directory ends.
use os2021_labscript.Common.{
  ℕ, zero, suc, ◌+◌, ◌/◌, ◌≤◌, ◌<◌, ◌≡◌, ◌≢◌, ◌∙◌, refl, ap, inl, inr, arith,
}
use native.Mathlib.Decide.{ℕ_discrete}
use os2021_labscript.Fat16.Volume.{Fat16, DirEntry}
use os2021_labscript.Fat16.Scan.{Verdict, pass, accept, found, missed}
use os2021_labscript.Fat16.Scan.Root.{Verdict-cases, root_entry, root_search}

root_search_accept :
    (left i : ℕ) (v : Fat16) (visit : DirEntry → Verdict) (dir : DirEntry)
    → visit (root_entry v i) ≡ accept
    → root_search v visit (suc left) i dir ≡ found (i + 1) (i / 16 + 1) (root_entry v i)
unfolding root_search
root_search_accept left i v visit dir h = rw (root_search, h) refl

-- A search that accepts entry `k` and passes the entries before it
pub root_search-found :
    (left i : ℕ) (v : Fat16) (visit : DirEntry → Verdict) (k : ℕ) (dir : DirEntry)
    → i ≤ k
    → k < i + left
    → visit (root_entry v k) ≡ accept
    → ((m : ℕ) → m < k → visit (root_entry v m) ≡ pass)
    → root_search v visit left i dir ≡ found (k + 1) (k / 16 + 1) (root_entry v k)
unfolding root_search
root_search-found zero i v visit k dir lo hi hit before = absurd (omega arith)
root_search-found (suc left) i v visit k dir lo hi hit before = elim (ℕ_discrete i k) [
  | yes e ↦
      let hit' : visit (root_entry v i) ≡ accept = ap (λ z. visit (root_entry v z)) e ∙ hit in
      root_search_accept left i v visit dir hit'
      ∙ ap (λ z. found (z + 1) (z / 16 + 1) (root_entry v z)) e
  | no ne ↦
      rw (root_search, before i (omega arith))
        (root_search-found left (i + 1) v visit k (root_entry v i) (omega arith) (omega arith) hit
          before)
]

-- A search that accepts none
pub root_search-missed :
    (left i : ℕ) (v : Fat16) (visit : DirEntry → Verdict) (dir : DirEntry)
    → ((m : ℕ) → m < i + left → visit (root_entry v m) ≢ accept)
    → (e : DirEntry) × (root_search v visit left i dir ≡ missed e)
unfolding root_search
root_search-missed zero i v visit dir h = (dir, refl)
root_search-missed (suc left) i v visit dir h = elim (Verdict-cases (visit (root_entry v i))) [
  | inl p ↦
      let (e, run) =
        root_search-missed left (i + 1) v visit (root_entry v i) (λ m l. h m (omega arith)) in
      (e, rw (root_search, p) run)
  | inr (inl a) ↦ absurd (h i (omega arith) a)
  | inr (inr g) ↦ (root_entry v i, rw (root_search, g) refl)
]
