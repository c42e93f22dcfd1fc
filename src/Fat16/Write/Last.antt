-- ===== src/Fat16/Write/Last.antt =====
-- The last piece of a write in lab4/simple_fat16_new.c.
use os2021_labscript.Common.{ℕ, ◌+◌, ◌%◌, ◌≡◌, ◌∙◌, refl, ap, arith, ge→ltb, List, length}
use os2021_labscript.Common.Outcome.{Outcome, done, exit, undefined, diverged, ◌>>=◌}
use os2021_labscript.Fat16.Image.{store}
use os2021_labscript.Fat16.Volume.{DirEntry}
use os2021_labscript.Fat16.Update.{edit_size}
use os2021_labscript.Fat16.Write.{cluster_bytes, Writer, next_cluster, write_piece, write_clusters}

>>=-assoc {ℓ κ μ} :
    {A : Type ℓ} {B : Type κ} {C : Type μ} (m : Outcome A) (f : A → Outcome B) (g : B → Outcome C)
    → (m >>= f >>= g) ≡ (m >>= λ a. f a >>= g)
>>=-assoc (done a) f g = refl
>>=-assoc (exit n) f g = refl
>>=-assoc undefined f g = refl
>>=-assoc diverged f g = refl

-- If the size that is left is a multiple of the cluster, the last piece has no bytes: the volume
-- changes by `edit_size` with the end that the write has reached before, and no byte of the
-- buffer is used up.
pub write_clusters-multiple :
    (fuel : ℕ) (raw : ℕ → List ℕ) (dir : DirEntry) (path : List ℕ) (size : ℕ) (w : Writer)
    → size % cluster_bytes w.vol ≡ 0
    → write_clusters fuel raw dir path 1 size w ≡ (
        edit_size fuel raw dir w.vol path w.end >>= λ v. done (next_cluster (record w { vol = v })))
unfolding write_clusters write_piece store
write_clusters-multiple fuel raw dir path size w h =
    let q : w.end + 0 ≡ w.end = omega arith in
    rw (write_clusters, h, ge→ltb (length w.rest) 0 (omega arith))
      (>>=-assoc (edit_size fuel raw dir w.vol path (w.end + 0))
          (λ v. done (record w { vol = v; rest = w.rest; end = w.end + 0 }))
          (λ w'. done (next_cluster w'))
        ∙ ap
            (λ e. edit_size fuel raw dir w.vol path e >>= λ v.
              done (next_cluster (record w { vol = v; end = e })))
            q)
