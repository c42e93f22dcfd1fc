-- ===== src/Tests/EntryExamples.antt =====
-- The theorems on directory entries and on reads, applied to the sample volume.
use os2021_labscript.Common.{ℕ, ◌/◌, ◌≡◌, refl, arith, List, [], ◌∷◌, replicate}
use os2021_labscript.Fat16.Volume.{DirEntry}
use os2021_labscript.Fat16.Scan.{Verdict, accept, scan_root}
use os2021_labscript.Fat16.Scan.Root.{root_search, scan_root-search}
use os2021_labscript.Fat16.Locate.Root.{IsMounted}
use os2021_labscript.Fat16.Update.{Tm, update_time, update_year}
use os2021_labscript.Fat16.Update.Times.{IsTm, entry_time-update}
use os2021_labscript.Fat16.Attr.{entry_time}
use os2021_labscript.Common.Outcome.{done, ◌>>=◌}
use os2021_labscript.Fat16.Write.{Writer, writer_at, next_cluster, write_clusters}
use os2021_labscript.Fat16.Write.Last.{write_clusters-multiple}
use os2021_labscript.Fat16.Update.{edit_size}
use os2021_labscript.Fat16.Read.{read_data}
use os2021_labscript.Fat16.Read.Bytes.{IsReading, read_data_bytes}
use os2021_labscript.Tests.Sample.{volume, unset, raw, path_a}

abbrev mounted : IsMounted volume
mounted = record { sector = refl; start = refl; fits = omega arith }

abbrev now : Tm
now = record { tm_sec = 30; tm_min = 10; tm_hour = 5; tm_mday = 3; tm_mon = 4; tm_year = 121 }

abbrev now_tm : IsTm now
now_tm = record {
  sec = omega arith;
  minute = omega arith;
  hour = omega arith;
  mday = omega arith;
  mon = omega arith;
  year_low = omega arith;
  year_high = omega arith;
}

-- "/a.txt", in the first entry of the root directory
abbrev file : DirEntry
file = record unset { fst_clus_lo = 2; file_size = 600 }

abbrev text_d : List ℕ
text_d = b'd' ∷ []

abbrev visit : DirEntry → Verdict
visit e = accept

scan_root-search_example :
    scan_root volume visit unset ≡ root_search volume visit volume.bpb.root_ent_cnt 0 unset
scan_root-search_example = scan_root-search volume visit unset (omega arith)

entry_time-update_example :
    entry_time (record unset { wrt_time = update_time now; wrt_date = update_year now })
    ≡ record now { tm_sec = 30 / 2 }
entry_time-update_example = entry_time-update now now_tm unset

read_data_bytes_example :
    (xs : List ℕ) × (read_data volume file 514 510 (λ p. 0) ≡ done (514, xs))
    × IsReading volume file 514 510 xs
read_data_bytes_example =
    read_data_bytes volume file 514 510 (λ p. 0) (omega arith) refl (omega arith)

-- At the last cluster of "/a.txt", with a cluster of zeros to write
abbrev writer : Writer
writer = writer_at volume 5 (replicate 512 0) 1024

write_clusters-multiple_example : write_clusters 9 raw unset path_a 1 512 writer ≡ (
    edit_size 9 raw unset writer.vol path_a writer.end >>= λ v.
    done (next_cluster (record writer { vol = v })))
unfolding writer_at
write_clusters-multiple_example = write_clusters-multiple 9 raw unset path_a 512 writer refl
