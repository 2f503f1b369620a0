-- ===== src/Time/Tests.antt =====
-- Runs of time/Time.hpp.
use c_plus_plus.Prelude.{◌≡◌, refl, true, false, none, some}
use c_plus_plus.Time.{pos, negsuc, Tm, year_of, check_tm}
use c_plus_plus.Time.Calendar.{check_tm-is_day}

-- 29 February 2000, 23:59:59, and the same day of 1900
abbrev leap_day : Tm
leap_day = record {
  tm_year = pos 100;
  tm_mon = pos 1;
  tm_mday = pos 29;
  tm_hour = pos 23;
  tm_min = pos 59;
  tm_sec = pos 59;
}

check_tm-is_day_example : check_tm (some leap_day) ≡ some true
check_tm-is_day_example = check_tm-is_day (pos 2000) leap_day refl refl

not_a_day :
    (check_tm none ≡ some false)
    × (check_tm (some (record leap_day { tm_year = pos 0 })) ≡ some false)
    × (check_tm (some (record leap_day { tm_mon = negsuc 0 })) ≡ some false)
unfolding check_tm year_of
not_a_day = (refl, refl, refl)
