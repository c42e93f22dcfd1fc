-- ===== src/Fat16/Files/Longer/ReadBack.antt =====
-- `read_path` of lab4/simple_fat16_new.c on a file of many clusters in the root directory, before
-- and after `write_path` has made it longer.
use os2021_labscript.Common.{
  ℕ, suc, ◌+◌, ◌-◌, ◌*◌, ◌/◌, ◌%◌, ◌≤◌, ◌<◌, ◌≡◌, ◌∙◌, refl, sym, ap, arith, List, [], ◌∷◌, ◌++◌,
  length, length-append, get_or, get_or-append_left, get_or-append_right, take,
}
use mathlib.Core.Path.{subst}
use native.Mathlib.Decide.{dec_lt}
use native.Mathlib.Nat.{div-add-mod', mod-lt, div-lt_iff_lt-mul, add-mul}
use os2021_labscript.Common.Outcome.{done}
use os2021_labscript.Fat16.Image.{Buffer, sector_read}
use os2021_labscript.Fat16.Volume.{Fat16, DirEntry}
use os2021_labscript.Fat16.Table.{first_sector_of_cluster}
use os2021_labscript.Fat16.Names.Split.{IsRaw}
use os2021_labscript.Fat16.Scan.Root.{root_entry}
use os2021_labscript.Fat16.Read.{read_path}
use os2021_labscript.Fat16.Read.Bytes.{
  follow, AgreesWith, AgreesWith-bytes, IsReading, read_data_bytes, read_data_behind,
}
use os2021_labscript.Fat16.Write.{cluster_bytes, write_path}
use os2021_labscript.Fat16.Write.Counts.{Inside-pos}
use os2021_labscript.Fat16.Files.Layout.{Layout}
use os2021_labscript.Fat16.Files.Names.{NamesFile}
use os2021_labscript.Fat16.Files.Search.{IsFile, find_root-file}
use os2021_labscript.Fat16.Files.Stored.{data_place}
use os2021_labscript.Fat16.Files.Write.{length-take}
use os2021_labscript.Fat16.Files.ReadBack.{data_byte, get_or-take}
use os2021_labscript.Fat16.Files.Pieces.{Follows}
use os2021_labscript.Fat16.Files.Pieces.Loop.{suc_mul}
use os2021_labscript.Fat16.Files.Append.Chain.{follow-Follows, Follows-low}
use os2021_labscript.Fat16.Files.Longer.{Longer, IsAppend}
use os2021_labscript.Fat16.Files.Longer.Run.{write_path-Longer}

sector_split :
    (a s r : ℕ)
    → r ≡ 512 * (r / 512) + r % 512
    → a * (512 * s) + r ≡ 512 * (a * s + r / 512) + r % 512
sector_split a s r h = grind arith

-- Where byte `i` of a file with these clusters stands
abbrev chain_place : Fat16 → List ℕ → ℕ → ℕ
chain_place v cs i = data_place v (get_or cs (i / cluster_bytes v) 0) (i % cluster_bytes v)

module _ {v : Fat16} {top : ℕ} (l : Layout v top) (k c : ℕ) (cs : List ℕ) (f : Follows v top c cs)
    (starts : (root_entry v k).fst_clus_lo ≡ c) (some_bytes : 0 < cluster_bytes v) where
  per_lem : cluster_bytes v ≡ 512 * v.bpb.sec_per_clus
  per_lem = rw (l.mounted.sector) (omega arith)

  -- Byte `i` of a read from the start of the file
  pub read_chain :
      (n : ℕ) (xs : List ℕ)
      → IsReading v (root_entry v k) n 0 xs
      → (i : ℕ) → i < n
      → i < suc (length cs) * cluster_bytes v
      → get_or xs i 0 ≡ v.image (chain_place v (c ∷ cs) i)
  read_chain n xs rd i lt inside =
      let a : ℕ = i / cluster_bytes v in
      let r : ℕ = i % cluster_bytes v in
      let low : r < cluster_bytes v = mod-lt i some_bytes in
      let le : a ≤ length cs =
        omega (arith, (div-lt_iff_lt-mul {x = i} {y = suc (length cs)} some_bytes).1 inside) in
      let place : 0 + i ≡ a * cluster_bytes v + r =
        omega (arith, div-add-mod' i (cluster_bytes v)) in
      let (lo, hi) = Follows-low cs v top c a f le in
      rd.bytes i a (r / 512) (r % 512) lt (omega (arith, low, per_lem)) (omega arith)
        (place ∙ ap (λ t. a * t + r) per_lem ∙ sector_split a v.bpb.sec_per_clus r (omega arith))
      ∙ ap (λ d. sector_read v.image (first_sector_of_cluster v d + r / 512) (r % 512))
          (ap (λ d. follow v d a) starts ∙ follow-Follows cs v top c a f le)
      ∙ data_byte l (get_or (c ∷ cs) a 0) r lo hi (omega (arith, low, per_lem))

-- A read of `n` bytes from the start of a file of `size` bytes
pub record FromStart (v : Fat16) (e : DirEntry) (size n got : ℕ) (xs : List ℕ) : Type 0 where
  pub long : size ≤ n → size ≤ length xs
  pub reading : 0 < size → (got ≡ n) × IsReading v e n 0 xs

module _ {path file name : List ℕ} (nf : NamesFile path file name) {v : Fat16} {top : ℕ}
    (l : Layout v top) (k n fuel : ℕ) (raw : ℕ → List ℕ) (dir : DirEntry) (b : Buffer)
    (r : IsRaw raw) (is : IsFile v file name k) (some_bytes : 0 < cluster_bytes v)
    (whole : n % 512 ≡ 0) where
  some_sectors : 0 < v.bpb.sec_per_clus
  some_sectors =
      let q : cluster_bytes v ≡ 512 * v.bpb.sec_per_clus = rw (l.mounted.sector) (omega arith) in
      omega (arith, q, some_bytes)

  read_path_start :
      (got : ℕ) × (xs : List ℕ) × (read_path fuel raw dir b v path n 0 ≡ done (got, xs))
      × FromStart v (root_entry v k) (root_entry v k).file_size n got xs
  unfolding read_path
  read_path_start = elim (dec_lt 0 (root_entry v k).file_size) [
    | yes lt ↦
        let (xs, run, rd) =
          read_data_bytes v (root_entry v k) n 0 b some_sectors (omega (arith, whole)) lt in
        (
          n,
          xs,
          rw (find_root-file nf l.mounted fuel raw dir k r is) run,
          record { long = λ le. omega (arith, rd.size_of, le); reading = λ h. (refl, rd) },
        )
    | no ge ↦ (
      0,
      [],
      rw (find_root-file nf l.mounted fuel raw dir k r is) (
          read_data_behind v (root_entry v k) n 0 b some_sectors (omega (arith, whole))
            (omega arith)),
      record { long = λ le. omega arith; reading = λ h. absurd (omega arith) },
    )
  ]

module _ {v v' : Fat16} {top k c : ℕ} {cs : List ℕ} {e : ℕ} {es : List ℕ} {within size offset : ℕ}
    {buffer : List ℕ} (l : Layout v top) (ia : IsAppend v top k c cs e es within size offset)
    (x : Longer v top k c cs (e ∷ es) offset size buffer v') (enough : size ≤ length buffer)
    {n m got : ℕ} {old grown : List ℕ} (all : offset ≤ n)
    (before : FromStart v (root_entry v k) offset n got old)
    (after : IsReading v' (root_entry v' k) m 0 grown) where
  per_pos : 0 < cluster_bytes v
  per_pos = Inside-pos ia.fits

  per_same : cluster_bytes v' ≡ cluster_bytes v
  per_same = ap cluster_bytes x.others

  length-old : length (take offset old) ≡ offset
  length-old = length-take offset old (before.long all)

  room : offset + size ≤ suc (length (cs ++ e ∷ es)) * cluster_bytes v
  room = omega (
    arith,
    ia.at_end,
    ia.fits.under,
    ap (λ n. n * cluster_bytes v) (length-append cs (e ∷ es)),
    add-mul (length cs) (length (e ∷ es)) (cluster_bytes v),
    suc_mul (length (cs ++ e ∷ es)) (cluster_bytes v),
  )

  grown_byte :
      (i : ℕ)
      → i < m
      → i < offset + size
      → get_or grown i 0 ≡ v'.image (chain_place v (c ∷ cs ++ e ∷ es) i)
  grown_byte i lt h =
      read_chain x.layout k c (cs ++ e ∷ es) x.chain
        (ap (λ n. n.fst_clus_lo) x.entry.here ∙ ia.starts) (omega (arith, per_same, per_pos)) m
        grown after i lt
        (subst (λ n. i < suc (length (cs ++ e ∷ es)) * n) (sym per_same) (omega (arith, room)))
      ∙ ap (λ t. v'.image (chain_place t (c ∷ cs ++ e ∷ es) i)) x.others

  room_old : offset ≤ suc (length cs) * cluster_bytes v
  room_old = omega (arith, ia.at_end, ia.in_last, suc_mul (length cs) (cluster_bytes v))

  old_byte : (i : ℕ) → i < m → i < offset → get_or grown i 0 ≡ get_or (take offset old) i 0
  old_byte i lt h =
      let a : ℕ = i / cluster_bytes v in
      let low : a < suc (length cs) =
        (div-lt_iff_lt-mul {x = i} {y = suc (length cs)} per_pos).1 (omega (arith, room_old)) in
      grown_byte i lt (omega arith)
      ∙ ap (λ d. v'.image (data_place v d (i % cluster_bytes v)))
          (get_or-append_left (c ∷ cs) (e ∷ es) a 0 low)
      ∙ x.before a (i % cluster_bytes v) (mod-lt i per_pos)
          (omega (arith, div-add-mod' i (cluster_bytes v)))
      ∙ sym (
          read_chain l k c cs ia.chain ia.starts per_pos n old (before.reading (omega arith)).1 i
            (omega (arith, all)) (omega (arith, room_old)))
      ∙ sym (get_or-take offset old i h)

  new_byte : (t : ℕ) → offset + t < m → t < size → get_or grown (offset + t) 0 ≡ get_or buffer t 0
  new_byte t lt h =
      grown_byte (offset + t) lt (omega arith)
      ∙ x.bytes ((offset + t) / cluster_bytes v) ((offset + t) % cluster_bytes v) t
          (mod-lt (offset + t) per_pos) h
          (omega (arith, div-add-mod' (offset + t) (cluster_bytes v)))

  -- The bytes of the longer file
  pub grown_lem : AgreesWith m (take offset old ++ take size buffer) grown
  grown_lem = AgreesWith-bytes (take offset old ++ take size buffer) grown after.size_of byte
    where
      byte :
          (i : ℕ)
          → i < m
          → i < length (take offset old ++ take size buffer)
          → get_or grown i 0 ≡ get_or (take offset old ++ take size buffer) i 0
      byte i lt h = elim (dec_lt i offset) [
        | yes low ↦
            old_byte i lt low
            ∙ sym (
                get_or-append_left (take offset old) (take size buffer) i 0
                  (omega (arith, low, length-old)))
        | no ge ↦
            let t : ℕ = i - offset in
            let sum : length (take offset old) + t ≡ i = omega (arith, length-old) in
            let small : t < size = omega (
              arith,
              h,
              length-append (take offset old) (take size buffer),
              length-take size buffer enough,
              length-old,
            ) in
            ap (λ n. get_or grown n 0) (omega arith)
            ∙ new_byte t (omega arith) small
            ∙ sym (get_or-take size buffer t small)
            ∙ sym (get_or-append_right (take offset old) (take size buffer) t 0)
            ∙ ap (λ n. get_or (take offset old ++ take size buffer) n 0) sum
      ]

-- On a volume with a `Layout`, for a path that by `NamesFile` names one component, the file in
-- root entry `k` by `IsFile`, and a write of `size` bytes, no more than the buffer has, at the end
-- of the file, that by `IsAppend` takes new clusters: with memory of 11 bytes for each name, and
-- fuel of at least one more than the clusters of the file, `write_path` returns `size`. With `n`
-- and `m` multiples of 512, and `n` no less than the size of the file before, `read_path` of `n`
-- bytes from its start before returns all its bytes, maybe more, and `read_path` of `m` bytes
-- after returns `m` with `m` bytes: they begin with the bytes of the file before and behind them
-- the bytes written, or are the first `m` of these.
pub append-read_path :
    {path file name : List ℕ} (nf : NamesFile path file name) {v : Fat16} {top : ℕ}
    (l : Layout v top) (k c : ℕ) (cs : List ℕ) (e : ℕ) (es : List ℕ) (within size offset n m : ℕ)
    (buffer : List ℕ) (is : IsFile v file name k)
    (ia : IsAppend v top k c cs e es within size offset) (enough : size ≤ length buffer) (fuel : ℕ)
    (heap : ℕ → ℕ → List ℕ) (dir : DirEntry) (b : Buffer)
    → ((i : ℕ) → IsRaw (heap i))
    → length cs + 2 ≤ fuel
    → offset ≤ n
    → n % 512 ≡ 0
    → m % 512 ≡ 0
    → (got : ℕ) × (old : List ℕ) × (v' : Fat16) × (grown : List ℕ) × (read_path fuel
          (heap 0)
          dir
          b
          v
          path
          n
          0
        ≡ done (got, old))
      × (length (take offset old) ≡ offset)
      × (write_path fuel heap dir v path size offset buffer ≡ done (v', size))
      × (read_path fuel (heap 0) dir b v' path m 0 ≡ done (m, grown))
      × AgreesWith m (take offset old ++ take size buffer) grown
append-read_path {path} nf {v} l k c cs e es within size offset n m buffer is ia enough fuel heap
      dir b hr fueled all hn hm =
    let pos = Inside-pos ia.fits in
    let (v', run, x, is') =
      write_path-Longer nf l k c cs e es within size offset buffer is ia enough fuel heap dir (hr 0)
        (hr 2) fueled in
    let (got, old, first, start) = read_path_start nf l k n fuel (heap 0) dir b (hr 0) is pos hn in
    let before = subst (λ t. FromStart v (root_entry v k) t n got old) ia.size_of start in
    let (got', grown, second, start') =
      read_path_start nf x.layout k m fuel (heap 0) dir b (hr 0) is'
        (omega (arith, pos, ap cluster_bytes x.others)) hm in
    let (all', after) = start'.reading (
      omega (
        arith,
        ap (λ n. n.file_size) x.entry.here,
        ia.fits.above,
        ia.at_end,
        ia.in_last,
        suc_mul (length es) (cluster_bytes v),
      )) in
    (
      got,
      old,
      v',
      grown,
      first,
      length-take offset old (before.long all),
      run,
      second ∙ ap (λ t. done (t, grown)) all',
      grown_lem l ia x enough all before after,
    )
