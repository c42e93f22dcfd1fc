-- ===== src/Fat16/Update/InRoot.antt =====
-- The writes to an entry of the root directory, as `edit_size`, `fat16_unlink` and `fat16_mknod`
-- make them: what the entry holds then, and that the others stay.
use os2021_labscript.Common.{
  ℕ, zero, suc, ◌+◌, ◌*◌, ◌/◌, ◌%◌, ◌^◌, ◌≤◌, ◌<◌, ◌≡◌, ◌≢◌, ◌∙◌, refl, ap, arith, List, [], ◌∷◌,
  length, get_or, drop, some,
}
use os2021_labscript.Fat16.Image.{Image, store, dword, bytes_of_dword}
use os2021_labscript.Fat16.Volume.{Fat16, DirEntry, entry_of, entry_at}
use os2021_labscript.Fat16.Scan.Root.{root_place, root_entry}
use os2021_labscript.Fat16.Locate.Root.{IsMounted, root_slot, slot_position-root}
use os2021_labscript.Fat16.Update.{
  Tm, update_time, update_year, entry_info, dir_entry_create, store_size, mark_deleted,
}
use os2021_labscript.Fat16.Update.Entries.{
  overlay, store-overlay, entry_of-cong, size_of_entry, root_entry-apart,
}

-- Entry `k` of the root directory becomes `e`, and every other entry stays.
pub record Changes (v v' : Fat16) (k : ℕ) (e : DirEntry) : Type 0 where
  pub here : root_entry v' k ≡ e
  pub apart : (m : ℕ) → k ≢ m → root_entry v' m ≡ root_entry v m

-- On a volume with sectors of 512 bytes, whose root directory lies behind the tables and ends
-- below 2 ^ 32: `edit_size`, with a size below 2 ^ 32 and the slot of root entry `k`, changes the
-- size of that entry and nothing else in the root directory.
pub store_size-root :
    {v : Fat16} (k size : ℕ)
    → IsMounted v
    → k < v.bpb.root_ent_cnt
    → size < 2 ^ 32
    → Changes v
        (store_size v size (some (root_slot v k)))
        k
        (record (root_entry v k) { file_size = size })
unfolding store_size
store_size-root {v} k size mt below small =
    rw (slot_position-root mt k below, place)
      (record {
        here = size_of_entry v.image (root_place v k) size small;
        apart = λ m ne. root_entry-apart v k m 28 (bytes_of_dword size) ne (omega arith);
      })
  where
    place : dword (root_place v k + 28) ≡ root_place v k + 28
    place = omega (arith, mt.fits)

-- A store at the start of an entry
at_start :
    (img : Image) (p : ℕ) (bs : List ℕ)
    → entry_at (store img p bs) p ≡ entry_of (overlay (λ i. img (p + i)) 0 bs)
unfolding entry_at
at_start img p bs =
    let q : p ≡ p + 0 = omega arith in
    entry_of-cong _ _ (λ j l. ap (λ z. store img z bs (p + j)) q ∙ store-overlay img p 0 bs j)

apart_of_start :
    (v : Fat16) (k m : ℕ) (bs : List ℕ)
    → k ≢ m
    → length bs ≤ 32
    → root_entry (record v { image = store v.image (root_place v k) bs }) m ≡ root_entry v m
apart_of_start v k m bs ne l =
    let q : root_place v k ≡ root_place v k + 0 = omega arith in
    ap (λ z. entry_at (store v.image z bs) (root_place v m)) q
    ∙ root_entry-apart v k m 0 bs ne (omega arith)

-- On a volume with sectors of 512 bytes, whose root directory lies behind the tables and ends
-- below 2 ^ 32: `fat16_unlink`, with the slot of root entry `k`, sets the first byte of its name
-- to 0xe5, and changes nothing else in the root directory.
pub mark_deleted-root :
    {v : Fat16} (k : ℕ)
    → IsMounted v
    → k < v.bpb.root_ent_cnt
    → Changes v
        (mark_deleted v (some (root_slot v k)))
        k
        (record (root_entry v k) { name = 0xe5 ∷ drop 1 (root_entry v k).name })
unfolding mark_deleted entry_at entry_of overlay
mark_deleted-root {v} k mt below = rw (slot_position-root mt k below) (record {
  here = at_start v.image (root_place v k) (0xe5 ∷ []);
  apart = λ m ne. apart_of_start v k m (0xe5 ∷ []) ne (omega arith);
})

-- The first `n` values of a function
listed : ℕ → (ℕ → ℕ) → List ℕ
listed zero f = []
listed (suc n) f = f 0 ∷ listed n (λ i. f (suc i))

listed_get : (xs : List ℕ) → xs ≡ listed (length xs) (λ i. get_or xs i 0)
unfolding listed
listed_get [] = refl
listed_get (x ∷ xs) = ap (λ ys. x ∷ ys) (listed_get xs)

-- The entry that `dir_entry_create` writes
abbrev pub created : Tm → List ℕ → (attr first_cluster file_size : ℕ) → DirEntry
created now name attr cluster size = record {
  name = name;
  attr = attr;
  nt_res = 0;
  crt_time_tenth = 0;
  crt_time = 0;
  crt_date = 0;
  lst_acc_date = 0;
  fst_clus_hi = 0;
  wrt_time = update_time now;
  wrt_date = update_year now;
  fst_clus_lo = cluster;
  file_size = size;
}

-- A word that is split into its bytes and put together again
joined : ℕ → ℕ
joined w = w % 256 + 256 * (w / 256 % 256)

joined_lem : (w : ℕ) → w < 2 ^ 16 → joined w ≡ w
unfolding joined
joined_lem w h = omega arith

joined_dword :
    (d : ℕ) → d < 2 ^ 32 → joined d + 2 ^ 16 * (d / 2 ^ 16 % 256 + 256 * (d / 2 ^ 24 % 256)) ≡ d
unfolding joined
joined_dword d h = omega arith

update_time_word : (t : Tm) → update_time t < 2 ^ 16
unfolding update_time
update_time_word t = omega arith

update_year_word : (t : Tm) → update_year t < 2 ^ 16
unfolding update_year
update_year_word t = omega arith

length-entry_info :
    (now : Tm) (g : ℕ → ℕ) (attr cluster size : ℕ)
    → length (entry_info now (listed 11 g) attr cluster size) ≡ 32
unfolding entry_info listed
length-entry_info now g attr cluster size = refl

created_here :
    (now : Tm) (img : Image) (p : ℕ) (g : ℕ → ℕ) (attr cluster size : ℕ)
    → entry_at (store img p (entry_info now (listed 11 g) attr cluster size)) p
      ≡ record (created now
          (listed 11 g)
          attr
          (joined cluster)
          (joined size + 2 ^ 16 * (size / 2 ^ 16 % 256 + 256 * (size / 2 ^ 24 % 256)))) {
            wrt_time = joined (update_time now);
            wrt_date = joined (update_year now);
          }
unfolding entry_at entry_of overlay entry_info listed joined
created_here now img p g attr cluster size =
    at_start img p (entry_info now (listed 11 g) attr cluster size)

-- Its bytes
pub length-entry_info_name :
    (now : Tm) (name : List ℕ) (attr cluster size : ℕ)
    → length name ≡ 11
    → length (entry_info now name attr cluster size) ≡ 32
length-entry_info_name now name attr cluster size h =
    let e : name ≡ listed 11 (λ i. get_or name i 0) =
      listed_get name ∙ ap (λ n. listed n (λ i. get_or name i 0)) h in
    ap (λ n. length (entry_info now n attr cluster size)) e
    ∙ length-entry_info now (λ i. get_or name i 0) attr cluster size

-- On a volume with sectors of 512 bytes, whose root directory lies behind the tables and ends
-- below 2 ^ 32: `dir_entry_create`, with the slot of root entry `k`, a name of 11 bytes, a
-- cluster below 2 ^ 16 and a size below 2 ^ 32, writes the name, the attribute, the time, the
-- date, the cluster and the size, and changes nothing else in the root directory.
pub dir_entry_create-root :
    {v : Fat16} (now : Tm) (name : List ℕ) (k attr cluster size : ℕ)
    → IsMounted v
    → k < v.bpb.root_ent_cnt
    → length name ≡ 11
    → cluster < 2 ^ 16
    → size < 2 ^ 32
    → Changes v
        (dir_entry_create now v (root_slot v k) name attr cluster size)
        k
        (created now name attr cluster size)
unfolding dir_entry_create
dir_entry_create-root {v} now name k attr cluster size mt below len small fits =
    let g : ℕ → ℕ = λ i. get_or name i 0 in
    let q : name ≡ listed 11 g = listed_get name ∙ ap (λ n. listed n g) len in
    rw (slot_position-root mt k below, q)
      (record {
        here =
            created_here now v.image (root_place v k) g attr cluster size
            ∙ rw
                (
                  joined_lem (update_time now) (update_time_word now),
                  joined_lem (update_year now) (update_year_word now),
                  joined_lem cluster small,
                  joined_dword size fits,
                )
                refl;
        apart = λ m ne.
            apart_of_start v k m (entry_info now (listed 11 g) attr cluster size) ne
              (omega (arith, length-entry_info now g attr cluster size));
      })
