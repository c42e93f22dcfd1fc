-- ===== src/Fat16/Update/Times.antt =====
-- The time stamps that `dir_entry_create` writes and `fat16_getattr` reads.
use os2021_labscript.Common.{◌+◌, ◌/◌, ◌%◌, ◌^◌, ◌≤◌, ◌<◌, ◌≡◌, arith}
use os2021_labscript.Fat16.Volume.{DirEntry}
use os2021_labscript.Fat16.Update.{Tm, update_time, update_year}
use os2021_labscript.Fat16.Attr.{entry_time}

-- A time of day, and a date between 1980 and 2107, with the month counted from 0
pub record IsTm (t : Tm) : Type 0 where
  pub sec : t.tm_sec < 60
  pub minute : t.tm_min < 60
  pub hour : t.tm_hour < 24
  pub mday : t.tm_mday < 32
  pub mon : t.tm_mon < 12
  pub year_low : 80 ≤ t.tm_year
  pub year_high : t.tm_year < 208

-- For a time of day and a date between 1980 and 2107: an entry with its stamps gives it back, but
-- for the seconds, which come back halved.
pub entry_time-update :
    (t : Tm)
    → IsTm t
    → (e : DirEntry)
    → entry_time (record e { wrt_time = update_time t; wrt_date = update_year t })
      ≡ record t { tm_sec = t.tm_sec / 2 }
unfolding entry_time update_time update_year
entry_time-update t h e i = record {
  tm_sec = sec i;
  tm_min = minute i;
  tm_hour = hour i;
  tm_mday = mday i;
  tm_mon = mon i;
  tm_year = year i;
}
  where
    sec : update_time t % 2 ^ 5 ≡ t.tm_sec / 2
    sec = omega (arith, h.sec, h.minute, h.hour)

    minute : update_time t / 2 ^ 5 % 2 ^ 6 ≡ t.tm_min
    minute = omega (arith, h.sec, h.minute, h.hour)

    hour : update_time t / 2 ^ 11 ≡ t.tm_hour
    hour = omega (arith, h.sec, h.minute, h.hour)

    mday : update_year t % 2 ^ 5 ≡ t.tm_mday
    mday = omega (arith, h.mday, h.mon, h.year_low, h.year_high)

    mon : update_year t / 2 ^ 5 % 2 ^ 4 ≡ t.tm_mon
    mon = omega (arith, h.mday, h.mon, h.year_low, h.year_high)

    year : update_year t / 2 ^ 9 + 80 ≡ t.tm_year
    year = omega (arith, h.mday, h.mon, h.year_low, h.year_high)
