-- ===== src/Fat16/Read/Bytes.antt =====
-- Which bytes of the image `read_path` returns.
use os2021_labscript.Common.{
  ℕ, zero, suc, ◌+◌, ◌-◌, ◌*◌, ◌/◌, ◌%◌, ◌≢◌, ◌≤◌, ◌<◌, ◌≡◌, ◌∙◌, refl, ap, ◌==◌, ==_of_ne, ==_iff,
  lt→ltb, leb, ltb, ◌&&◌, true, false, arith, get_or, List, [], ◌∷◌, length, take, ge→ltb,
}
use mathlib.Core.Path.{ap₂}
use native.Mathlib.Decide.{ℕ_discrete, dec_lt}
use native.Mathlib.Nat.{mod-eq_of_lt, add-zero}
use os2021_labscript.Common.Outcome.{done, undefined}
use os2021_labscript.Fat16.Image.{Buffer, sector_read}
use os2021_labscript.Fat16.Volume.{Fat16, DirEntry}
use os2021_labscript.Fat16.Table.{fat_entry_by_cluster, first_sector_of_cluster}
use os2021_labscript.Fat16.Read.{
  Reader, with_sector, put_sector, next_sector, read_round, read_rounds, reader_at, copy_bytes,
  read_data, sectors_for,
}

-- The cluster `k` links behind `n`
abbrev pub follow : Fat16 → ℕ → ℕ → ℕ
follow v n zero = n
follow v n (suc k) = fat_entry_by_cluster v (follow v n k)

-- Byte `b` of sector `j` of cluster number `c` of the file that starts at cluster `n`
abbrev pub file_byte : Fat16 → (n c j b : ℕ) → ℕ
file_byte v n c j b = sector_read v.image (first_sector_of_cluster v (follow v n c) + j) b

-- The loop's variables after `t` rounds, in cluster number `c`
record HasRead (v : Fat16) (n t c : ℕ) (r : Reader) : Type 0 where
  at_byte : r.i ≡ 512 * t
  at_sector : t ≡ c * v.bpb.sec_per_clus + r.j
  in_cluster : r.j < v.bpb.sec_per_clus
  next : r.fat_clus_entry_val ≡ fat_entry_by_cluster v (follow v n c)
  first : r.first_sector ≡ first_sector_of_cluster v (follow v n c)
  bytes :
      (c' j b : ℕ)
      → j < v.bpb.sec_per_clus
      → c' * v.bpb.sec_per_clus + j < t
      → b < 512
      → r.sector_buffer (512 * (c' * v.bpb.sec_per_clus + j) + b) ≡ file_byte v n c' j b

mul_step : (p a b : ℕ) → a < b → a * p + p ≤ b * p
mul_step p a b h = grind arith

quotient_unique : (p a b i j : ℕ) → i < p → j < p → a * p + i ≡ b * p + j → (a ≡ b) × (i ≡ j)
quotient_unique p a b i j hi hj e = elim (dec_lt a b) [
  | yes l ↦ absurd (omega (arith, mul_step p a b l))
  | no g ↦ elim (dec_lt b a) [
    | yes l ↦ absurd (omega (arith, mul_step p b a l))
    | no g' ↦ let q : a ≡ b = omega arith in (q, omega (arith, ap (λ t. t * p) q))
  ]
]

mod_self : (p : ℕ) → (p % p == 0) ≡ true
mod_self p = (==_iff (p % p) 0).1 (grind arith)

mod_below : (x p : ℕ) → 0 < x → x < p → (x % p == 0) ≡ false
mod_below x p h k = ==_of_ne (x % p) 0 (rw (mod-eq_of_lt k) (omega arith))

with_sector-in : (buf sec : Buffer) (p b : ℕ) → b < 512 → with_sector buf p sec (p + b) ≡ sec b
unfolding with_sector
with_sector-in buf sec p b h =
    let q : p + b - p ≡ b = omega arith in
    let t : (leb p (p + b) && ltb (p + b) (p + 512)) ≡ true = ground arith in rw (t, q)

with_sector-below : (buf sec : Buffer) (p q : ℕ) → q < p → with_sector buf p sec q ≡ buf q
unfolding with_sector
with_sector-below buf sec p q h = ground arith

put_sector_fits :
    (room p : ℕ) (buf sec : Buffer)
    → p + 512 ≤ room
    → put_sector room buf p sec ≡ done (with_sector buf p sec)
unfolding put_sector
put_sector_fits room p buf sec h = let t : leb (p + 512) room ≡ true = ground arith in rw t refl

module _ (v : Fat16) (n t c : ℕ) (r : Reader) (h : HasRead v n t c r) where
  -- The bytes after one more round
  bytes_next :
      (c' j b : ℕ)
      → j < v.bpb.sec_per_clus
      → c' * v.bpb.sec_per_clus + j < t + 1
      → b < 512
      → with_sector r.sector_buffer r.i
          (sector_read v.image (r.first_sector + r.j))
          (512 * (c' * v.bpb.sec_per_clus + j) + b)
        ≡ file_byte v n c' j b
  bytes_next c' j b hj ht hb = elim (dec_lt (c' * v.bpb.sec_per_clus + j) t) [
    | yes old ↦
        with_sector-below r.sector_buffer _ r.i _ (omega (arith, h.at_byte))
        ∙ h.bytes c' j b hj old hb
    | no new ↦
        let same : c' * v.bpb.sec_per_clus + j ≡ t = omega arith in
        let (qc, qj) =
          quotient_unique v.bpb.sec_per_clus c' c j r.j hj h.in_cluster (same ∙ h.at_sector) in
        rw (same, ← h.at_byte)
          (with_sector-in r.sector_buffer (sector_read v.image (r.first_sector + r.j)) r.i b hb
            ∙ rw (h.first, qc, qj))
  ]

  -- The variables behind the round
  abbrev behind : Reader
  behind =
      next_sector v r (with_sector r.sector_buffer r.i (sector_read v.image (r.first_sector + r.j)))

  next_sector-HasRead : (c' : ℕ) × HasRead v n (t + 1) c' behind
  unfolding next_sector
  next_sector-HasRead = elim (ℕ_discrete (r.j + 1) v.bpb.sec_per_clus) [
    | yes e ↦
        let test : ((r.j + 1) % v.bpb.sec_per_clus == 0) ≡ true =
          rw e (mod_self v.bpb.sec_per_clus) in
        (
          suc c,
          rw test (record {
            at_byte = omega (arith, h.at_byte);
            at_sector = omega (arith, h.at_sector, e);
            in_cluster = omega (arith, h.in_cluster);
            next = ap (fat_entry_by_cluster v) h.next;
            first = ap (first_sector_of_cluster v) h.next;
            bytes = bytes_next;
          }),
        )
    | no ne ↦
        let test : ((r.j + 1) % v.bpb.sec_per_clus == 0) ≡ false =
          mod_below (r.j + 1) v.bpb.sec_per_clus (omega arith) (omega (arith, h.in_cluster)) in
        (
          c,
          rw test (record {
            at_byte = omega (arith, h.at_byte);
            at_sector = omega (arith, h.at_sector);
            in_cluster = omega (arith, h.in_cluster);
            next = h.next;
            first = h.first;
            bytes = bytes_next;
          }),
        )
  ]

read_round_fits :
    (v : Fat16) (n t c room : ℕ) (r : Reader) (h : HasRead v n t c r)
    → 512 * (t + 1) ≤ room
    → read_round room v r ≡ done (behind v n t c r h)
unfolding read_round
read_round_fits v n t c room r h fits =
    rw
      (
        put_sector_fits room r.i r.sector_buffer (sector_read v.image (r.first_sector + r.j))
            (omega (arith, h.at_byte)),
        ==_of_ne v.bpb.sec_per_clus 0 (omega (arith, h.in_cluster)),
      )
      refl

read_rounds-HasRead :
    (left : ℕ) (v : Fat16) (n t c room : ℕ) (r : Reader)
    → HasRead v n t c r
    → 512 * (t + left) ≤ room
    → (r' : Reader) × (read_rounds left room v r ≡ done r')
      × ((c' : ℕ) × HasRead v n (t + left) c' r')
unfolding read_rounds
read_rounds-HasRead zero v n t c room r h fits = (r, refl, (c, rw add-zero h))
read_rounds-HasRead (suc left) v n t c room r h fits =
    let (c1, h1) = next_sector-HasRead v n t c r h in
    let (r', run, (c2, h2)) =
      read_rounds-HasRead left v n (t + 1) c1 room (behind v n t c r h) h1 (omega arith) in
    let q : t + 1 + left ≡ t + suc left = omega arith in
    (r', rw (read_round_fits v n t c room r h (omega arith)) run, (c2, rw q at h2))

reader_at-HasRead :
    (v : Fat16) (n : ℕ) (b : Buffer) → 0 < v.bpb.sec_per_clus → HasRead v n 0 0 (reader_at v n b)
unfolding reader_at
reader_at-HasRead v n b h = record {
  at_byte = refl;
  at_sector = omega arith;
  in_cluster = h;
  next = refl;
  first = refl;
  bytes = λ c j k hj ht hk. absurd (omega arith);
}

get_or-copy_bytes : (b : Buffer) (p n k : ℕ) → k < n → get_or (copy_bytes b p n) k 0 ≡ b (p + k)
unfolding copy_bytes
get_or-copy_bytes b p zero k h = absurd (omega arith)
get_or-copy_bytes b p (suc n) zero h = ap b (omega arith)
get_or-copy_bytes b p (suc n) (suc k) h = get_or-copy_bytes b (p + 1) n k (omega arith) ∙ ap b q
  where
    q : p + 1 + k ≡ p + suc k
    q = omega arith

length-copy_bytes : (b : Buffer) (p n : ℕ) → length (copy_bytes b p n) ≡ n
unfolding copy_bytes
length-copy_bytes b p zero = refl
length-copy_bytes b p (suc n) = ap suc (length-copy_bytes b (p + 1) n)

-- `n` bytes, the same as these as far as both go
abbrev pub AgreesWith : (n : ℕ) → List ℕ → List ℕ → Type 0
AgreesWith n ys xs = (length xs ≡ n) × (take (length ys) xs ≡ take n ys)

common_prefix :
    (xs ys : List ℕ)
    → ((i : ℕ) → i < length xs → i < length ys → get_or xs i 0 ≡ get_or ys i 0)
    → take (length ys) xs ≡ take (length xs) ys
common_prefix [] [] same = refl
common_prefix [] (y ∷ ys) same = refl
common_prefix (x ∷ xs) [] same = refl
common_prefix (x ∷ xs) (y ∷ ys) same =
    ap₂ (λ a cs. a ∷ cs) (same 0 (omega arith) (omega arith))
      (common_prefix xs ys (λ i h k. same (suc i) (omega arith) (omega arith)))

pub AgreesWith-bytes :
    {n : ℕ} (ys xs : List ℕ)
    → length xs ≡ n
    → ((i : ℕ) → i < n → i < length ys → get_or xs i 0 ≡ get_or ys i 0)
    → AgreesWith n ys xs
AgreesWith-bytes ys xs len same =
    (len, common_prefix xs ys (λ i h k. same i (omega (arith, len, h)) k) ∙ ap (λ m. take m ys) len)

-- The bytes are those of the clusters of the file from the offset on: byte `k` is byte `b` of
-- sector `j` of cluster number `c`, where `offset + k` is that place.
pub record IsReading (v : Fat16) (dir : DirEntry) (size offset : ℕ) (xs : List ℕ) : Type 0 where
  pub size_of : length xs ≡ size
  pub bytes :
      (k c j b : ℕ)
      → k < size
      → j < v.bpb.sec_per_clus
      → b < 512
      → offset + k ≡ 512 * (c * v.bpb.sec_per_clus + j) + b
      → get_or xs k 0 ≡ file_byte v dir.fst_clus_lo c j b

-- The whole loop of `read_path`
rounds_lem :
    (v : Fat16) (dir : DirEntry) (n : ℕ) (buffer : Buffer)
    → 0 < v.bpb.sec_per_clus
    → n % 512 ≡ 0
    → (r : Reader) × (read_rounds (sectors_for n) n v (reader_at v dir.fst_clus_lo buffer) ≡ done r)
      × ((c : ℕ) × HasRead v dir.fst_clus_lo (0 + sectors_for n) c r)
rounds_lem v dir n buffer pos whole =
    read_rounds-HasRead (sectors_for n) v dir.fst_clus_lo 0 0 n _
      (reader_at-HasRead v dir.fst_clus_lo buffer pos) (omega (arith, whole))

-- On a volume with clusters of a sector at least, if the offset lies inside the file and
-- `size + offset` is a multiple of 512, `read_path` returns `size`, also where the file ends
-- before, with `size` bytes: those of the clusters of the file from the offset on.
pub read_data_bytes :
    (v : Fat16) (dir : DirEntry) (size offset : ℕ) (buffer : Buffer)
    → 0 < v.bpb.sec_per_clus
    → (size + offset) % 512 ≡ 0
    → offset < dir.file_size
    → (xs : List ℕ) × (read_data v dir size offset buffer ≡ done (size, xs))
      × IsReading v dir size offset xs
unfolding read_data
read_data_bytes v dir size offset buffer pos whole ho =
    let (r, run, (c', h)) = rounds_lem v dir (size + offset) buffer pos whole in
    (
      copy_bytes r.sector_buffer offset size,
      rw (run, lt→ltb offset dir.file_size ho) refl,
      record {
        size_of = length-copy_bytes r.sector_buffer offset size;
        bytes = λ k c j b hk hj hb e.
            get_or-copy_bytes r.sector_buffer offset size k hk
            ∙ ap r.sector_buffer e
            ∙ h.bytes c j b hj (omega (arith, e, hk)) hb;
      },
    )

-- Behind the end of the file nothing is returned.
pub read_data_behind :
    (v : Fat16) (dir : DirEntry) (size offset : ℕ) (buffer : Buffer)
    → 0 < v.bpb.sec_per_clus
    → (size + offset) % 512 ≡ 0
    → dir.file_size ≤ offset
    → read_data v dir size offset buffer ≡ done (0, [])
unfolding read_data
read_data_behind v dir size offset buffer pos whole ho =
    let (r, run, _) = rounds_lem v dir (size + offset) buffer pos whole in
    rw (run, ge→ltb offset dir.file_size ho) refl

put_sector_over :
    (room p : ℕ) (buf sec : Buffer) → room < p + 512 → put_sector room buf p sec ≡ undefined
unfolding put_sector
put_sector_over room p buf sec h = let t : leb (p + 512) room ≡ false = ground arith in rw t refl

-- The round whose sector does not fit
read_rounds_over :
    (left : ℕ) (v : Fat16) (n t c room : ℕ) (r : Reader)
    → HasRead v n t c r
    → 512 * (t + left) ≤ room
    → room < 512 * (t + left) + 512
    → read_rounds (suc left) room v r ≡ undefined
unfolding read_rounds read_round
read_rounds_over zero v n t c room r h fits over =
    rw
      (put_sector_over room r.i r.sector_buffer (sector_read v.image (r.first_sector + r.j))
        (omega (arith, h.at_byte)))
      refl
read_rounds_over (suc left) v n t c room r h fits over =
    let (c1, h1) = next_sector-HasRead v n t c r h in
    rw (read_round_fits v n t c room r h (omega arith)) (
      read_rounds_over left v n (t + 1) c1 room (behind v n t c r h) h1 (omega arith) (omega arith))

-- On a volume with clusters of a sector at least, where `size + offset` is not a multiple of 512,
-- the last sector is read behind the end of `sector_buffer`.
pub read_data_over :
    (v : Fat16) (dir : DirEntry) (size offset : ℕ) (buffer : Buffer)
    → 0 < v.bpb.sec_per_clus
    → (size + offset) % 512 ≢ 0
    → read_data v dir size offset buffer ≡ undefined
unfolding read_data
read_data_over v dir size offset buffer pos part =
    let n : ℕ = size + offset in
    let q : sectors_for n ≡ suc (n / 512) = omega (arith, part) in
    rw
      (
        q,
        read_rounds_over (n / 512) v dir.fst_clus_lo 0 0 n _
            (reader_at-HasRead v dir.fst_clus_lo buffer pos) (omega arith) (omega arith),
      )
      refl
